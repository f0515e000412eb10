-- ===== src/Dsu/Union.antt =====
-- `find` and `set_union` on a forest.
use bare_metal_architect.Prelude.{
  ℕ, zero, suc, ◌+◌, ◌^◌, ◌≤◌, ◌<◌, ◌≡◌, refl, sym, ap, ◌∙◌, ◌≢◌, ◌⊎◌, inl, inr, true, false,
  Option, some, List, arith, leb, ◌==◌, if◌then◌else◌, Bool-cases, length, get_elem?, set,
  replicate, length-replicate, get_elem?-replicate, ℤ, pos, negsuc, Outcome, done, exits, leb→le,
}
use bare_metal_architect.Prelude.{sum_neg}
use bare_metal_architect.Dsu.{
  leb_ℤ, find, attach, join, both, set_union, set_union_strict, init_dsu, get_independent_cluster,
}
use bare_metal_architect.Dsu.Forest.{RootOf, RootOf-unique, weight, Forest, ends_in_log}
use bare_metal_architect.Dsu.Sizes.{get_elem?-lt, neg_pos}
use bare_metal_architect.Dsu.Merge.{merged-Forest, moved, clusters-merged}

-- What `find` gives for a node of a forest.
pub record Found (dsu : List ℤ) (fuel i r : ℕ) : Type 0 where
  pub size : ℕ
  pub entry : get_elem? dsu r ≡ some (negsuc size)
  pub returned : find fuel (pos i) dsu ≡ some (done (pos r))

-- With n nodes in a forest and n < 2 ^ fuel, `find` returns the root of every node: the walk to it
-- has at most as many steps as n can be halved.
pub find_lem :
    (dsu : List ℤ) (fuel i r : ℕ)
    → Forest dsu
    → RootOf dsu i r
    → i < length dsu
    → length dsu < 2 ^ fuel
    → Found dsu fuel i r
unfolding find
find_lem dsu fuel i r forest root lt small =
    let w = ends_in_log dsu fuel i forest lt small in
    let e : w.root ≡ r = RootOf-unique w.path root in
    let inside : leb (length dsu) i ≡ false = ground arith in
    record {
      size = w.size;
      entry = ap (get_elem? dsu) (sym e) ∙ w.entry;
      returned = rw (inside, w.returned, e) refl;
    }

-- The forest after a union, in which one of the two roots is the root of the nodes of both.
pub record United (dsu : List ℤ) (root_a root_b : ℕ) (r : Option (Outcome (List ℤ))) : Type 0 where
  pub after : List ℤ
  pub returned : r ≡ some (done after)
  pub forest : Forest after
  pub winner : ℕ
  pub loser : ℕ
  pub roots : ((winner ≡ root_a) × (loser ≡ root_b)) ⊎ ((winner ≡ root_b) × (loser ≡ root_a))
  pub moved : (x s : ℕ) → RootOf dsu x s → RootOf after x (if s == loser then winner else s)
  pub clusters : get_independent_cluster after + 1 ≡ get_independent_cluster dsu

order_neg : (k l : ℕ) → leb_ℤ (negsuc k) (negsuc l) ≡ leb l k
order_neg k l = ground arith

attached :
    (dsu : List ℤ) (root_a root_b k l : ℕ)
    → get_elem? dsu root_a ≡ some (negsuc k)
    → get_elem? dsu root_b ≡ some (negsuc l)
    → attach dsu root_a root_b ≡ (
        if leb l k
        then done (set (set dsu root_a (negsuc (k + l + 1))) root_b (pos root_a))
        else done (set (set dsu root_b (negsuc (l + k + 1))) root_a (pos root_b)))
unfolding attach
attached dsu root_a root_b k l ea eb = rw (ea, eb, order_neg k l, sum_neg k l, sum_neg l k) refl

module _ (dsu : List ℤ) (forest : Forest dsu) (root_a root_b : ℕ) (apart : root_a ≢ root_b) where
  -- Which of two roots becomes the child.
  attach_lem :
      (k l : ℕ)
      → get_elem? dsu root_a ≡ some (negsuc k)
      → get_elem? dsu root_b ≡ some (negsuc l)
      → United dsu root_a root_b (some (attach dsu root_a root_b))
  attach_lem k l ea eb = elim (Bool-cases (leb l k)) [
    | inl larger ↦ record {
      after = set (set dsu root_a (negsuc (k + l + 1))) root_b (pos root_a);
      returned = rw (attached dsu root_a root_b k l ea eb, larger) refl;
      forest = merged-Forest dsu forest root_a root_b k l ea eb apart (leb→le l k larger);
      winner = root_a;
      loser = root_b;
      roots = inl (refl, refl);
      moved = moved dsu forest root_a root_b k l ea eb apart (leb→le l k larger);
      clusters = clusters-merged dsu forest root_a root_b k l ea eb apart (leb→le l k larger);
    }
    | inr smaller ↦
        let larger : k ≤ l = ground arith in
        record {
          after = set (set dsu root_b (negsuc (l + k + 1))) root_a (pos root_b);
          returned = rw (attached dsu root_a root_b k l ea eb, smaller) refl;
          forest = merged-Forest dsu forest root_b root_a l k eb ea (λ e. apart (sym e)) larger;
          winner = root_b;
          loser = root_a;
          roots = inr (refl, refl);
          moved = moved dsu forest root_b root_a l k eb ea (λ e. apart (sym e)) larger;
          clusters = clusters-merged dsu forest root_b root_a l k eb ea (λ e. apart (sym e)) larger;
        }
  ]

module _ (dsu : List ℤ) (fuel a b root_a root_b : ℕ) (forest : Forest dsu)
    (ra : RootOf dsu a root_a) (rb : RootOf dsu b root_b) (la : a < length dsu)
    (lb : b < length dsu) (enough : length dsu < 2 ^ fuel) where
  lookup_a : Found dsu fuel a root_a
  lookup_a = find_lem dsu fuel a root_a forest ra la enough

  lookup_b : Found dsu fuel b root_b
  lookup_b = find_lem dsu fuel b root_b forest rb lb enough

  roots_joined :
      (on_cycle : Outcome (List ℤ))
      → both (find fuel (pos a) dsu) (find fuel (pos b) dsu) (join on_cycle dsu)
        ≡ some (if root_a == root_b then on_cycle else attach dsu root_a root_b)
  unfolding join
  roots_joined on_cycle = rw (lookup_a.returned, lookup_b.returned) refl

  -- `set_union` of two nodes of a forest that have different roots, on enough fuel: the result is a
  -- forest again, in which every node has the root that it had, but those under one of the two
  -- roots now have the other; there is one tree fewer.
  pub set_union-United :
      root_a ≢ root_b → United dsu root_a root_b (set_union fuel (pos a) (pos b) dsu)
  unfolding set_union
  set_union-United apart =
      let no_cycle : (root_a == root_b) ≡ false = ground arith in
      rw (roots_joined (done dsu), no_cycle)
        (attach_lem dsu forest root_a root_b apart lookup_a.size lookup_b.size lookup_a.entry
          lookup_b.entry)

  -- The `set_union` of disjoint_subset.c of two nodes of a forest that have different roots, on
  -- enough fuel: the result is a forest with one tree fewer, in which the nodes under one of the
  -- two roots now have the other and all other nodes have the root that they had.
  pub set_union_strict-United :
      root_a ≢ root_b → United dsu root_a root_b (set_union_strict fuel (pos a) (pos b) dsu)
  unfolding set_union_strict
  set_union_strict-United apart =
      let no_cycle : (root_a == root_b) ≡ false = ground arith in
      rw (roots_joined exits, no_cycle)
        (attach_lem dsu forest root_a root_b apart lookup_a.size lookup_b.size lookup_a.entry
          lookup_b.entry)

  -- Two nodes of a forest with the same root, on enough fuel: micro-make.c changes nothing, and
  -- disjoint_subset.c ends the process.
  pub set_union_cycle :
      root_a ≡ root_b
      → (set_union fuel (pos a) (pos b) dsu ≡ some (done dsu))
        × (set_union_strict fuel (pos a) (pos b) dsu ≡ some exits)
  unfolding set_union set_union_strict
  set_union_cycle together =
      let cycle : (root_a == root_b) ≡ true = ground arith in
      (rw (roots_joined (done dsu), cycle) refl, rw (roots_joined exits, cycle) refl)

weight-replicate : (n : ℕ) → weight (replicate n (negsuc 0)) ≡ n
unfolding weight
weight-replicate zero = refl
weight-replicate (suc n) = omega (arith, weight-replicate n)

-- The array that both programs start from is a forest.
pub init_dsu-Forest : (n : ℕ) → Forest (init_dsu n)
unfolding init_dsu
init_dsu-Forest n = record {
  rank = λ i. 0;
  parents = λ i p e.
      let lt : i < n =
        omega (
          arith,
          get_elem?-lt (replicate n (negsuc 0)) i (pos p) e,
          length-replicate n (negsuc 0),
        ) in
      absurd (neg_pos (get_elem?-replicate n i (negsuc 0) lt) e);
  sizes = λ i k e. omega arith;
  low = λ i lt. omega arith;
  full = weight-replicate n ∙ sym (length-replicate n (negsuc 0));
}
