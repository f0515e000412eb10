-- ===== src/Traversal/Breadth.antt =====
-- The breadth-first search: the queue holds what is printed and not yet served.
use bare_metal_architect.Prelude.{append_assoc, append_nil}
use bare_metal_architect.Prelude.{
  subst, ℕ, zero, suc, ◌+◌, ◌-◌, ◌≤◌, ◌<◌, ◌≡◌, refl, sym, ap, ◌∙◌, ◌⊎◌, inl, inr, Bool, true,
  false, some, List, [], ◌∷◌, ◌++◌, arith, ◌==◌, Bool-cases, length, get_elem?, length-append,
  get_elem?-replicate, ℤ, done, ℕ_discrete,
}
use bare_metal_architect.Chains.{append_tail, append_tail-eq-append}
use bare_metal_architect.Traversal.{
  Walk, visit, enqueue, dequeue, meet, neighbours, serve, fresh, bfs,
}
use bare_metal_architect.Traversal.Marks.{
  IsGrid, Edge, Reaches, here, further, times, times_self, times_other, count-append, edge-done,
  IsMarked, visit-IsMarked, Grown, visit-Grown, unvisited, unvisited-visit, IsClosed, Explores,
  IsMarked-Explores,
}

module _ (alloc : ℕ → Bool) (given : (k : ℕ) → alloc k ≡ true) (matrix : List (List ℤ))
    (grid : IsGrid matrix) (size start : ℕ) (small : size ≤ 7) (vertices : 0 < size) where
  -- What a part of the loop keeps: `past` is served, and the queue holds the rest.
  record Spread (past : List ℕ) (s s' : Walk × List ℕ) : Type 0 where
    marked : IsMarked matrix size start s'.0
    split : s'.0.printed ≡ past ++ s'.1
    grown : Grown s.0 s'.0
    left : length s'.1 + unvisited s'.0 ≡ length s.1 + unvisited s.0

  Spread-refl :
      (past : List ℕ) (s : Walk × List ℕ)
      → IsMarked matrix size start s.0
      → s.0.printed ≡ past ++ s.1
      → Spread past s s
  Spread-refl past s h split = record {
    marked = h;
    split = split;
    grown = λ v. omega arith;
    left = refl;
  }

  Spread-trans :
      (past : List ℕ) (a b c : Walk × List ℕ) → Spread past a b → Spread past b c → Spread past a c
  Spread-trans past a b c p q = record {
    marked = q.marked;
    split = q.split;
    grown = λ v. omega (arith, p.grown v, q.grown v);
    left = omega (arith, p.left, q.left);
  }

  -- The vertex is printed after the step, whether it was before or not.
  record Met (past : List ℕ) (j : ℕ) (s s' : Walk × List ℕ) : Type 0 where
    spread : Spread past s s'
    there : 0 < times j s'.0.printed

  meet-Met :
      (past : List ℕ) (j : ℕ) (s : Walk × List ℕ)
      → IsMarked matrix size start s.0
      → s.0.printed ≡ past ++ s.1
      → j < 7
      → Reaches matrix size start j
      → (s' : Walk × List ℕ) × (meet alloc j s ≡ done s') × Met past j s s'
  unfolding meet enqueue
  meet-Met past j s h split lt path = elim (ℕ_discrete (times j s.0.printed) 0) [
    | yes new ↦
        let at_j : get_elem? s.0.visited j ≡ some 0 = h.marks j lt ∙ ap some new in
        (
          (visit s.0 j, append_tail s.1 j),
          rw (at_j, given (length s.0.printed)) refl,
          record {
            spread = record {
              marked = visit-IsMarked matrix size start s.0 h j lt at_j path;
              split = rw (append_tail-eq-append s.1 j, split) (append_assoc past s.1 (j ∷ []));
              grown = visit-Grown s.0 j;
              left =
                  rw (append_tail-eq-append s.1 j)
                    (omega (arith, length-append s.1 (j ∷ []), unvisited-visit s.0 j at_j));
            };
            there = omega (arith, times_self j s.0.printed);
          },
        )
    | no old ↦
        let off : (times j s.0.printed == 0) ≡ false = ground arith in
        (
          s,
          rw (h.marks j lt, off) refl,
          record { spread = Spread-refl past s h split; there = omega arith },
        )
  ]

  module _ (past : List ℕ) (i : ℕ) (inside : i < 7) (path : Reaches matrix size start i) where
    -- The neighbours of `i` from `j` on are printed.
    abbrev Covers : ℕ → Walk → Type 0
    Covers j w = (k : ℕ) → j ≤ k → Edge matrix size i k → 0 < times k w.printed

    looked :
        (j : ℕ) (s s' t : Walk × List ℕ)
        → Spread past s s'
        → (Edge matrix size i j → 0 < times j s'.0.printed)
        → Spread past s' t
        → Covers (suc j) t.0
        → Covers j t.0
    looked j s s' t a first b rest k le e = elim (ℕ_discrete k j) [
      | yes same ↦ rw same (omega (arith, first (subst (Edge matrix size i) same e), b.grown j))
      | no apart ↦ rest k (omega arith) e
    ]

    neighbours-Spread :
        (n j : ℕ) (s : Walk × List ℕ)
        → n + j ≡ size
        → 1 ≤ j
        → IsMarked matrix size start s.0
        → s.0.printed ≡ past ++ s.1
        → (s' : Walk × List ℕ) × (neighbours alloc matrix i n j s ≡ done s')
          × Spread past s s'
          × Covers j s'.0
    unfolding neighbours
    neighbours-Spread zero j s e one h split =
        (s, refl, Spread-refl past s h split, λ k le edge. absurd (omega (arith, edge.below)))
    neighbours-Spread (suc n) j s e one h split =
        let (b, known) = edge-done matrix i j grid inside (omega arith) in
        elim (Bool-cases b) [
          | inl there ↦
              let to_j : Edge matrix size i j = record {
                from_one = one;
                below = omega arith;
                marked = known ∙ ap done there;
              } in
              let (s', run, met) =
                meet-Met past j s h split (omega arith) (further i j path to_j) in
              let (t, rest, spread, covers) =
                neighbours-Spread n (suc j) s' (omega arith) (omega arith) met.spread.marked
                  met.spread.split in
              (
                t,
                rw (known, there, run) rest,
                Spread-trans past s s' t met.spread spread,
                looked j s s' t met.spread (λ _. met.there) spread covers,
              )
          | inr not_there ↦
              let (t, rest, spread, covers) =
                neighbours-Spread n (suc j) s (omega arith) (omega arith) h split in
              (
                t,
                rw (known, not_there) rest,
                spread,
                looked j s s t (Spread-refl past s h split)
                    (λ to_j. absurd (cc (known, not_there, to_j.marked))) spread covers,
              )
        ]

  -- The neighbours of what is served are printed.
  abbrev Served : List ℕ → Walk → Type 0
  Served past w = (i j : ℕ) → 0 < times i past → Edge matrix size i j → 0 < times j w.printed

  times_past :
      (v i : ℕ) (past : List ℕ) → 0 < times v (past ++ (i ∷ [])) → (v ≡ i) ⊎ (0 < times v past)
  times_past v i past some_time = elim (ℕ_discrete v i) [
    | yes same ↦ inl same
    | no apart ↦ inr (omega (arith, times_other i v past apart, some_time))
  ]

  serve_lem :
      (fuel : ℕ) (past : List ℕ) (w : Walk) (queue : List ℕ)
      → length queue + unvisited w < fuel
      → IsMarked matrix size start w
      → w.printed ≡ past ++ queue
      → Served past w
      → (w' : Walk) × (serve fuel alloc matrix size (w, queue) ≡ done (w', []))
        × IsMarked matrix size start w'
        × IsClosed matrix size start w'
        × Grown w w'
  unfolding serve dequeue
  serve_lem zero past w queue enough h split served = absurd (omega arith)
  serve_lem (suc fuel) past w [] enough h split served =
      let all : past ≡ w.printed = sym (split ∙ append_nil past) in
      (w, refl, h, λ i j t. served i j (subst (λ p. 0 < times i p) (sym all) t), λ v. omega arith)
  serve_lem (suc fuel) past w (i ∷ rest) enough h split served =
      let now : w.printed ≡ (past ++ (i ∷ [])) ++ rest =
        split ∙ sym (append_assoc past (i ∷ []) rest) in
      let printed_i : 0 < times i w.printed =
        rw split (omega (arith, count-append (λ u. u == i) past (i ∷ rest), times_self i [])) in
      let (lt, path) = h.found i printed_i in
      let (s', run, spread, covers) =
        neighbours-Spread (past ++ (i ∷ [])) i lt path (size - 1) 1 (w, rest)
          (omega (arith, vertices)) (omega arith) h now in
      let (w', more, m, closed, grown) =
        serve_lem fuel (past ++ (i ∷ [])) s'.0 s'.1 (omega (arith, spread.left)) spread.marked
          spread.split
          (λ k j t e. elim (times_past k i past t) [
            | inl same ↦ covers j e.from_one (subst (λ k. Edge matrix size k j) same e)
            | inr before ↦ omega (arith, served k j before e, spread.grown j)
          ]) in
      (w', rw run more, m, closed, λ v. omega (arith, spread.grown v, grown v))

no_times : (v : ℕ) → v < 7 → get_elem? fresh.visited v ≡ some 0
no_times v lt = get_elem?-replicate 7 v 0 lt

pub fresh-IsMarked : (matrix : List (List ℤ)) (size start : ℕ) → IsMarked matrix size start fresh
fresh-IsMarked matrix size start = record {
  same_length = refl;
  marks = no_times;
  once = λ v. omega arith;
  found = λ v some_time. absurd (omega arith);
}

-- From a vertex of a graph on a matrix of seven rows of seven, with an empty queue, every
-- allocation granted and eight rounds of fuel, BFS returns with the queue empty, and it has printed
-- each vertex that a path of edges leads to from the start once, and no others.
pub bfs-Explores :
    (fuel : ℕ) (alloc : ℕ → Bool) (matrix : List (List ℤ)) (size start : ℕ)
    → ((k : ℕ) → alloc k ≡ true)
    → IsGrid matrix
    → size ≤ 7
    → start < size
    → 8 ≤ fuel
    → (w : Walk) × (bfs fuel alloc matrix size start [] ≡ done (w, []))
      × Explores matrix size start w
unfolding bfs enqueue append_tail
bfs-Explores fuel alloc matrix size start given grid small lt enough =
    let at_start : get_elem? fresh.visited start ≡ some 0 = no_times start (omega arith) in
    let (w, run, h, closed, grown) =
      serve_lem alloc given matrix grid size start small (omega arith) fuel [] (visit fresh start)
        (start ∷ []) (omega (arith, unvisited-visit fresh start at_start))
        (visit-IsMarked matrix size start fresh (fresh-IsMarked matrix size start) start
          (omega arith) at_start here)
        refl (λ i j t. absurd (omega arith)) in
    (
      w,
      rw (at_start, given 0) run,
      IsMarked-Explores matrix size start w h closed
          (omega (arith, grown start, times_self start [])),
    )
