-- ===== src/Traversal/Depth.antt =====
use bare_metal_architect.Prelude.{
  subst, ℕ, zero, suc, ◌+◌, ◌-◌, ◌≤◌, ◌<◌, ◌≡◌, refl, ap, ◌∙◌, inl, inr, false, some, List, arith,
  ◌==◌, if◌then◌else◌, Bool-cases, get_elem?, ℤ, Outcome, done, ◌>>=◌, index, ℕ_discrete,
}
use bare_metal_architect.Traversal.{Walk, visit, fresh, branches, dfs}
use bare_metal_architect.Traversal.Marks.{
  IsGrid, Edge, Reaches, here, further, times, times_self, times_other, edge-done, IsMarked,
  visit-IsMarked, Grown, visit-Grown, unvisited, unvisited-visit, Explores, IsMarked-Explores,
}
use bare_metal_architect.Traversal.Breadth.{fresh-IsMarked}

module _ (matrix : List (List ℤ)) (grid : IsGrid matrix) (size start : ℕ) (small : size ≤ 7)
    (vertices : 0 < size) where
  -- What a part of the search keeps: the neighbours of all that it prints are printed at its end.
  record Deeper (w w' : Walk) : Type 0 where
    marked : IsMarked matrix size start w'
    grown : Grown w w'
    left : unvisited w' ≤ unvisited w
    closed :
        (i j : ℕ)
        → times i w.printed ≡ 0
        → 0 < times i w'.printed
        → Edge matrix size i j
        → 0 < times j w'.printed

  Deeper-refl : (w : Walk) → IsMarked matrix size start w → Deeper w w
  Deeper-refl w h = record {
    marked = h;
    grown = λ v. omega arith;
    left = omega arith;
    closed = λ i j new old. absurd (omega arith);
  }

  Deeper-trans : (a b c : Walk) → Deeper a b → Deeper b c → Deeper a c
  Deeper-trans a b c p q = record {
    marked = q.marked;
    grown = λ v. omega (arith, p.grown v, q.grown v);
    left = omega (arith, p.left, q.left);
    closed = λ i j new there e. elim (ℕ_discrete (times i b.printed) 0) [
      | yes later ↦ q.closed i j later there e
      | no before ↦ omega (arith, p.closed i j new (omega arith) e, q.grown j)
    ];
  }

  -- A search that prints the vertex it starts from.
  abbrev Visits : (Walk → ℕ → Outcome Walk) → ℕ → Type 0
  Visits search fuel =
      (w : Walk) (v : ℕ)
      → unvisited w < fuel
      → IsMarked matrix size start w
      → v < 7
      → Reaches matrix size start v
      → (w' : Walk) × (search w v ≡ done w') × Deeper w w' × (0 < times v w'.printed)

  module _ (search : Walk → ℕ → Outcome Walk) (fuel : ℕ) (visits : Visits search fuel) (v : ℕ)
      (inside : v < 7) (path : Reaches matrix size start v) where
    -- The neighbours of `v` from `j` on are printed.
    abbrev Covers : ℕ → Walk → Type 0
    Covers j w = (k : ℕ) → j ≤ k → Edge matrix size v k → 0 < times k w.printed

    -- The body of the loop, where there is an edge.
    branch_lem :
        (j : ℕ) (w : Walk)
        → unvisited w < fuel
        → IsMarked matrix size start w
        → j < 7
        → Reaches matrix size start j
        → (w' : Walk) × ((index {A = ℕ} w.visited j >>= λ mark.
              if mark == 0 then search w j else done w)
            ≡ done w')
          × Deeper w w'
          × (0 < times j w'.printed)
    branch_lem j w enough h lt to_j = elim (ℕ_discrete (times j w.printed) 0) [
      | yes new ↦
          let (w', run, deeper, there) = visits w j enough h lt to_j in
          (w', rw (h.marks j lt, new) run, deeper, there)
      | no old ↦
          let off : (times j w.printed == 0) ≡ false = ground arith in
          (w, rw (h.marks j lt, off) refl, Deeper-refl w h, omega arith)
    ]

    covered :
        (j : ℕ) (w t : Walk)
        → (Edge matrix size v j → 0 < times j w.printed)
        → Deeper w t
        → Covers (suc j) t
        → Covers j t
    covered j w t first b rest k le e = elim (ℕ_discrete k j) [
      | yes same ↦ rw same (omega (arith, first (subst (Edge matrix size v) same e), b.grown j))
      | no apart ↦ rest k (omega arith) e
    ]

    branches_lem :
        (n j : ℕ) (w : Walk)
        → n + j ≡ size
        → 1 ≤ j
        → unvisited w < fuel
        → IsMarked matrix size start w
        → (w' : Walk) × (branches search matrix v n j w ≡ done w') × Deeper w w' × Covers j w'
    unfolding branches
    branches_lem zero j w e one enough h =
        (w, refl, Deeper-refl w h, λ k le edge. absurd (omega (arith, edge.below)))
    branches_lem (suc n) j w e one enough h =
        let (b, known) = edge-done matrix v j grid inside (omega arith) in
        elim (Bool-cases b) [
          | inl there ↦
              let to_j : Edge matrix size v j = record {
                from_one = one;
                below = omega arith;
                marked = known ∙ ap done there;
              } in
              let (w', run, deeper, printed_j) =
                branch_lem j w enough h (omega arith) (further v j path to_j) in
              let (t, rest, more, covers) =
                branches_lem n (suc j) w' (omega arith) (omega arith) (omega (arith, deeper.left))
                  deeper.marked in
              (
                t,
                rw (known, there, run) rest,
                Deeper-trans w w' t deeper more,
                covered j w' t (λ _. printed_j) more covers,
              )
          | inr not_there ↦
              let (t, rest, more, covers) =
                branches_lem n (suc j) w (omega arith) (omega arith) enough h in
              (
                t,
                rw (known, not_there) rest,
                more,
                covered j w t (λ to_j. absurd (cc (known, not_there, to_j.marked))) more covers,
              )
        ]

    -- With the mark of `v` before the loop.
    around :
        (w t : Walk)
        → get_elem? w.visited v ≡ some 0
        → Deeper (visit w v) t
        → Covers 1 t
        → Deeper w t
    around w t at_v deeper covers = record {
      marked = deeper.marked;
      grown = λ u. omega (arith, visit-Grown w v u, deeper.grown u);
      left = omega (arith, unvisited-visit w v at_v, deeper.left);
      closed = λ i j new there e. elim (ℕ_discrete i v) [
        | yes same ↦ covers j e.from_one (subst (λ k. Edge matrix size k j) same e)
        | no apart ↦ deeper.closed i j (omega (arith, times_other v i w.printed apart)) there e
      ];
    }

  dfs_lem : (fuel : ℕ) → Visits (dfs fuel matrix size) fuel
  unfolding dfs
  dfs_lem zero w v enough h lt path = absurd (omega arith)
  dfs_lem (suc fuel) w v enough h lt path = elim (ℕ_discrete (times v w.printed) 0) [
    | yes new ↦
        let at_v : get_elem? w.visited v ≡ some 0 = h.marks v lt ∙ ap some new in
        let (t, run, deeper, covers) =
          branches_lem (dfs fuel matrix size) fuel (dfs_lem fuel) v lt path (size - 1) 1 (visit w v)
            (omega (arith, vertices)) (omega arith) (omega (arith, unvisited-visit w v at_v))
            (visit-IsMarked matrix size start w h v lt at_v path) in
        (
          t,
          rw at_v run,
          around (dfs fuel matrix size) fuel (dfs_lem fuel) v lt path w t at_v deeper covers,
          omega (arith, deeper.grown v, times_self v w.printed),
        )
    | no old ↦
        let off : (times v w.printed == 0) ≡ false = ground arith in
        (w, rw (h.marks v lt, off) refl, Deeper-refl w h, omega arith)
  ]

-- A call from a vertex that is marked.
again :
    (matrix : List (List ℤ)) (size start : ℕ) (fuel : ℕ) (w : Walk)
    → start < 7
    → 0 < fuel
    → IsMarked matrix size start w
    → 0 < times start w.printed
    → dfs fuel matrix size w start ≡ done w
unfolding dfs
again matrix size start zero w lt some_fuel h there = absurd (omega arith)
again matrix size start (suc fuel) w lt some_fuel h there =
    let off : (times start w.printed == 0) ≡ false = ground arith in rw (h.marks start lt, off) refl

-- The first call of DFS, from a vertex of a graph on a matrix of seven rows of seven and with room
-- for eight calls, prints each vertex that a path of edges leads to from the start once, and no
-- others; a second call from the same vertex prints nothing, since the marks are kept.
pub dfs-Explores :
    (fuel : ℕ) (matrix : List (List ℤ)) (size start : ℕ)
    → IsGrid matrix
    → size ≤ 7
    → start < size
    → 8 ≤ fuel
    → (w : Walk) × (dfs fuel matrix size fresh start ≡ done w)
      × Explores matrix size start w
      × (dfs fuel matrix size w start ≡ done w)
dfs-Explores fuel matrix size start grid small lt enough =
    let (w, run, deeper, there) =
      dfs_lem matrix grid size start small (omega arith) fuel fresh start (omega arith)
        (fresh-IsMarked matrix size start) (omega arith) here in
    (
      w,
      run,
      IsMarked-Explores matrix size start w deeper.marked (λ i j t. deeper.closed i j refl t) there,
      again matrix size start fuel w (omega arith) (omega arith) deeper.marked there,
    )
