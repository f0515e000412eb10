-- ===== src/Dsu/Merge.antt =====
-- The tree of one root made a child of another root.
use bare_metal_architect.Prelude.{
  subst, ℕ, suc, ◌+◌, ◌^◌, ◌≤◌, ◌<◌, ◌≡◌, sym, ap, ◌∙◌, ◌≢◌, Option, some, List, arith, ◌==◌,
  if◌then◌else◌, length, get_elem?, set, length-set, get_elem?-set_self, get_elem?-set_ne, ℤ, pos,
  negsuc, ℕ_discrete, dec_lt,
}
use native.Mathlib.Nat.{two-pow-succ}
use bare_metal_architect.Dsu.{get_independent_cluster}
use bare_metal_architect.Dsu.Forest.{RootOf, at, up, weight, Forest}
use bare_metal_architect.Dsu.Sizes.{
  size_of, tree_of, weight-set, clusters-set, size-le-weight, get_elem?-lt, neg_pos, some_neg,
  some_pos,
}

-- The tree of the loser becomes a child of the winner.
module _ (dsu : List ℤ) (forest : Forest dsu) (winner loser k j : ℕ)
    (at_winner : get_elem? dsu winner ≡ some (negsuc k))
    (at_loser : get_elem? dsu loser ≡ some (negsuc j)) (apart : winner ≢ loser)
    (larger : j ≤ k) where
  abbrev grown : List ℤ
  grown = set dsu winner (negsuc (k + j + 1))

  abbrev merged : List ℤ
  merged = set grown loser (pos winner)

  winner_inside : winner < length dsu
  winner_inside = get_elem?-lt dsu winner (negsuc k) at_winner

  loser_inside : loser < length dsu
  loser_inside = get_elem?-lt dsu loser (negsuc j) at_loser

  length-merged : length merged ≡ length dsu
  length-merged = length-set grown loser (pos winner) ∙ length-set dsu winner (negsuc (k + j + 1))

  merged-loser : get_elem? merged loser ≡ some (pos winner)
  merged-loser =
      get_elem?-set_self grown loser (pos winner)
        (omega (arith, length-set dsu winner (negsuc (k + j + 1)), loser_inside))

  merged-winner : get_elem? merged winner ≡ some (negsuc (k + j + 1))
  merged-winner =
      get_elem?-set_ne grown loser winner (pos winner) (λ e. apart (sym e))
      ∙ get_elem?-set_self dsu winner (negsuc (k + j + 1)) winner_inside

  merged-other : (i : ℕ) → winner ≢ i → loser ≢ i → get_elem? merged i ≡ get_elem? dsu i
  merged-other i w l =
      get_elem?-set_ne grown loser i (pos winner) l
      ∙ get_elem?-set_ne dsu winner i (negsuc (k + j + 1)) w

  grown-loser : get_elem? grown loser ≡ some (negsuc j)
  grown-loser = get_elem?-set_ne dsu winner loser (negsuc (k + j + 1)) apart ∙ at_loser

  weight-merged : weight merged ≡ weight dsu
  unfolding size_of
  weight-merged = omega (
    arith,
    weight-set dsu winner (negsuc k) (negsuc (k + j + 1)) at_winner,
    weight-set grown loser (negsuc j) (pos winner) grown-loser,
  )

  pub clusters-merged : get_independent_cluster merged + 1 ≡ get_independent_cluster dsu
  unfolding tree_of
  clusters-merged = omega (
    arith,
    clusters-set dsu winner (negsuc k) (negsuc (k + j + 1)) at_winner,
    clusters-set grown loser (negsuc j) (pos winner) grown-loser,
  )

  -- The rank of the winner after the union.
  top : (t : ℕ) × (forest.rank winner ≤ t) × (forest.rank loser < t) × (2 ^ t ≤ k + j + 2)
  top =
      let sw = forest.sizes winner k at_winner in
      let sl = forest.sizes loser j at_loser in
      elim (dec_lt (forest.rank loser) (forest.rank winner)) [
        | yes lt ↦ (forest.rank winner, omega arith, lt, omega (arith, sw))
        | no ge ↦ (
          suc (forest.rank loser),
          omega arith,
          omega arith,
          omega (arith, sl, two-pow-succ (forest.rank loser)),
        )
      ]

  abbrev rank' : ℕ → ℕ
  rank' i = if winner == i then top.0 else forest.rank i

  rank-winner : rank' winner ≡ top.0
  rank-winner = ground arith

  rank-other : (i : ℕ) → winner ≢ i → rank' i ≡ forest.rank i
  rank-other i ne = ground arith

  rank-grows : (i : ℕ) → forest.rank i ≤ rank' i
  rank-grows i = elim (ℕ_discrete winner i) [
    | yes e ↦ omega (arith, top.1, ap forest.rank e, ap rank' e, rank-winner)
    | no ne ↦ omega (arith, rank-other i ne)
  ]

  -- The cases of a node: the loser, the winner or another.
  node :
      {G : Type 0} (i : ℕ) → (loser ≡ i → G) → (winner ≡ i → G) → (winner ≢ i → loser ≢ i → G) → G
  node i f g h = elim (ℕ_discrete loser i) [
    | yes e ↦ f e
    | no l ↦ elim (ℕ_discrete winner i) [ yes e ↦ g e | no w ↦ h w l ]
  ]

  same : {i n : ℕ} {o : Option ℤ} → n ≡ i → get_elem? merged i ≡ o → get_elem? merged n ≡ o
  same l e = ap (get_elem? merged) l ∙ e

  parents' :
      (i p : ℕ) → get_elem? merged i ≡ some (pos p) → (p < length merged) × (rank' i < rank' p)
  parents' i p e =
      node i
        (λ l.
          let q : winner ≡ p = some_pos merged-loser (same l e) in
          (
            omega (arith, q, length-merged, winner_inside),
            omega (arith, ap rank' l, ap rank' q, rank-winner, rank-other loser apart, top.2),
          ))
        (λ w. absurd (neg_pos merged-winner (same w e)))
        (λ w l.
          let (inside, rises) = forest.parents i p (sym (merged-other i w l) ∙ e) in
          (omega (arith, length-merged), omega (arith, rank-other i w, rank-grows p)))

  sizes' : (i m : ℕ) → get_elem? merged i ≡ some (negsuc m) → 2 ^ rank' i ≤ suc m
  sizes' i m e =
      node i (λ l. absurd (neg_pos (same l e) merged-loser))
        (λ w.
          subst (λ x. 2 ^ rank' x ≤ suc m) w
            (rw rank-winner (omega (arith, top.3, some_neg merged-winner (same w e)))))
        (λ w l. rw (rank-other i w) (forest.sizes i m (sym (merged-other i w l) ∙ e)))

  merged_fits : k + j + 2 ≤ length dsu
  unfolding size_of
  merged_fits = omega (
    arith,
    size-le-weight merged winner (negsuc (k + j + 1)) merged-winner,
    weight-merged,
    forest.full,
  )

  low' : (i : ℕ) → i < length merged → 2 ^ rank' i ≤ length merged
  low' i lt =
      node i
        (λ l.
          subst (λ x. 2 ^ rank' x ≤ length merged) l
            (rw (rank-other loser apart, length-merged) (forest.low loser loser_inside)))
        (λ w.
          subst (λ x. 2 ^ rank' x ≤ length merged) w
            (rw (rank-winner, length-merged) (omega (arith, top.3, merged_fits))))
        (λ w l. rw (rank-other i w, length-merged) (forest.low i (omega (arith, length-merged))))

  pub merged-Forest : Forest merged
  merged-Forest = record {
    rank = rank';
    parents = parents';
    sizes = sizes';
    low = low';
    full = weight-merged ∙ forest.full ∙ sym length-merged;
  }

  chosen : (r : ℕ) → loser ≡ r → (if r == loser then winner else r) ≡ winner
  chosen r e = ground arith

  kept : (r : ℕ) → loser ≢ r → (if r == loser then winner else r) ≡ r
  kept r ne = ground arith

  -- The nodes under the loser have the winner as their root, all others the root they had.
  pub moved : (x r : ℕ) → RootOf dsu x r → RootOf merged x (if r == loser then winner else r)
  moved x r (at m e) =
      node x
        (λ l. rw (chosen x l) (
          subst (λ y. RootOf merged y winner) l
            (up winner merged-loser (at (k + j + 1) merged-winner))))
        (λ w.
          rw (kept x (λ l. apart (w ∙ sym l)))
            (subst (λ y. RootOf merged y y) w (at (k + j + 1) merged-winner)))
        (λ w l. rw (kept x l) (at m (merged-other x w l ∙ e)))
  moved x r (up p e rest) =
      node x (λ l. absurd (neg_pos at_loser (ap (get_elem? dsu) l ∙ e)))
        (λ w. absurd (neg_pos at_winner (ap (get_elem? dsu) w ∙ e)))
        (λ w l. up p (merged-other x w l ∙ e) (moved p r rest))
