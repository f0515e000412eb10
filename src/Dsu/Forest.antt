-- ===== src/Dsu/Forest.antt =====
-- The array of a disjoint set as a forest, and the walk to the root: at most as many steps as the
-- number of times that the size of the array can be halved.
use bare_metal_architect.Prelude.{
  subst, ℕ, zero, suc, ◌+◌, ◌^◌, ◌≤◌, ◌<◌, ◌≡◌, refl, ◌∙◌, Option, some, List, [], ◌∷◌, arith,
  length, get_elem?, get_elem?-some, ℤ, pos, negsuc, done, dec_lt,
}
use native.Mathlib.Nat.{pow-le-pow_right}
use bare_metal_architect.Dsu.{find_loop}

-- The root of a node.
pub data RootOf (dsu : List ℤ) : ℕ → ℕ → Type 0 where
  at : {r : ℕ} (k : ℕ) → get_elem? dsu r ≡ some (negsuc k) → RootOf dsu r r
  up : {i r : ℕ} (p : ℕ) → get_elem? dsu i ≡ some (pos p) → RootOf dsu p r → RootOf dsu i r

-- The sum of the sizes of the trees.
unfoldable pub weight : List ℤ → ℕ
weight [] = 0
weight (negsuc k ∷ rest) = suc k + weight rest
weight (pos p ∷ rest) = weight rest

-- Ranks grow towards the root, a tree of rank r has at least 2 ^ r nodes, and the sizes add up.
pub record Forest (dsu : List ℤ) : Type 0 where
  pub rank : ℕ → ℕ
  pub parents : (i p : ℕ) → get_elem? dsu i ≡ some (pos p) → (p < length dsu) × (rank i < rank p)
  pub sizes : (i k : ℕ) → get_elem? dsu i ≡ some (negsuc k) → 2 ^ rank i ≤ suc k
  pub low : (i : ℕ) → i < length dsu → 2 ^ rank i ≤ length dsu
  pub full : weight dsu ≡ length dsu

lt-of-pow : (r f n : ℕ) → 2 ^ r ≤ n → n < 2 ^ f → r < f
lt-of-pow r f n h k = elim (dec_lt r f) [
  | yes lt ↦ lt
  | no ge ↦
      absurd (omega (arith, pow-le-pow_right {n = 2} (omega arith) {i = f} {j = r} (omega arith)))
]

-- Where a walk ends.
pub record Walk (dsu : List ℤ) (fuel i : ℕ) : Type 0 where
  pub root : ℕ
  pub size : ℕ
  pub path : RootOf dsu i root
  pub entry : get_elem? dsu root ≡ some (negsuc size)
  pub inside : root < length dsu
  pub returned : find_loop fuel dsu i ≡ some (done root)

find_loop-at :
    (fuel : ℕ) (dsu : List ℤ) (i k : ℕ)
    → get_elem? dsu i ≡ some (negsuc k)
    → find_loop (suc fuel) dsu i ≡ some (done i)
unfolding find_loop
find_loop-at fuel dsu i k e = rw (e, find_loop) refl

find_loop-up :
    (fuel : ℕ) (dsu : List ℤ) (i p : ℕ)
    → get_elem? dsu i ≡ some (pos p)
    → find_loop (suc fuel) dsu i ≡ find_loop fuel dsu p
unfolding find_loop
find_loop-up fuel dsu i p e = rw (e, find_loop) refl

module _ (dsu : List ℤ) (forest : Forest dsu) (bound : ℕ)
    (below : (i : ℕ) → i < length dsu → forest.rank i < bound) where
  walk : (fuel i : ℕ) → i < length dsu → bound ≤ forest.rank i + fuel → Walk dsu fuel i
  walk zero i lt b = absurd (omega (arith, below i lt))
  walk (suc fuel) i lt b =
      step (get_elem?-some dsu i lt).0 (get_elem?-some dsu i lt).1 (λ p q r. walk fuel p q r)
    where
      step :
          (z : ℤ)
          → get_elem? dsu i ≡ some z
          → ((p : ℕ) → p < length dsu → bound ≤ forest.rank p + fuel → Walk dsu fuel p)
          → Walk dsu (suc fuel) i
      step (negsuc k) e go = record {
        root = i;
        size = k;
        path = at k e;
        entry = e;
        inside = lt;
        returned = find_loop-at fuel dsu i k e;
      }
      step (pos p) e go =
          let (inside, rises) = forest.parents i p e in
          let w = go p inside (omega arith) in
          record {
            root = w.root;
            size = w.size;
            path = up p e w.path;
            entry = w.entry;
            inside = w.inside;
            returned = find_loop-up fuel dsu i p e ∙ w.returned;
          }

-- With n nodes and n < 2 ^ fuel the walk ends at the root.
pub ends_in_log :
    (dsu : List ℤ) (fuel i : ℕ)
    → Forest dsu
    → i < length dsu
    → length dsu < 2 ^ fuel
    → Walk dsu fuel i
ends_in_log dsu fuel i forest lt small =
    walk dsu forest fuel (λ j h. lt-of-pow (forest.rank j) fuel (length dsu) (forest.low j h) small)
      fuel i lt (omega arith)

some_pos : {m n : ℕ} {o : Option ℤ} → o ≡ some (pos m) → o ≡ some (pos n) → m ≡ n
some_pos e e' = cc

-- A node has one root.
pub RootOf-unique : {dsu : List ℤ} {i r s : ℕ} → RootOf dsu i r → RootOf dsu i s → r ≡ s
RootOf-unique (at k e) (at l e') = refl
RootOf-unique (at k e) (up p e' y) = absurd (cc)
RootOf-unique (up p e x) (at k e') = absurd (cc)
RootOf-unique {dsu} {s = s} (up p e x) (up q e' y) =
    RootOf-unique x (subst (λ t. RootOf dsu t s) (some_pos e' e) y)
