-- ===== src/TaskGraph/Search.antt =====
-- The search for a cycle from a task, and the run over all tasks.
use bare_metal_architect.Prelude.{get_elem?-none}
use bare_metal_architect.Prelude.{
  ℕ, zero, suc, ◌+◌, ◌≤◌, ◌<◌, ◌≡◌, refl, ap, ◌∙◌, Bool, true, false, some, List, [], ◌∷◌, arith,
  ltb, ◌==◌, if◌then◌else◌, length, get_elem?, get_elem?-some, set, All, length-set, Outcome, done,
  ◌>>=◌, index, ℕ_discrete, dec_lt,
}
use mathlib.Core.Option.{some-injective}
use bare_metal_architect.MinHeap.Swap.{count, count-set, one_if}
use bare_metal_architect.TaskGraph.{Graph, walk, has_cycle}
use bare_metal_architect.TaskGraph.Topo.{
  IsReady, Grown-refl, Grown-trans, IsDone, Searched, cyclic, acyclic, stopped, faulted,
  walk-Searched,
}
use bare_metal_architect.TaskGraph.Mark.{
  marked, marked_self, marked-IsTopo, marked-Grown, ended, ended-IsTopo, ended-Grown, ended-IsDone,
}

-- Fewer elements pass a test than there are, where one does not.
count_missing :
    {A : Type 0} (p : A → Bool) (xs : List A) (i : ℕ) (x : A)
    → get_elem? xs i ≡ some x
    → p x ≡ false
    → count p xs < length xs
count_missing p [] i x e h = absurd (cc)
count_missing p (y ∷ xs) zero x e h =
    let same = ap (λ a. one_if (p a)) (some-injective y x e) in
    omega (arith, same, ap one_if h, count_all p xs)
  where
    count_all : {A : Type 0} (p : A → Bool) (xs : List A) → count p xs ≤ length xs
    count_all p [] = omega arith
    count_all p (x ∷ xs) = omega (arith, one_most (p x), count_all p xs)
      where
        one_most : (b : Bool) → one_if b ≤ 1
        one_most true = omega arith
        one_most false = omega arith
count_missing p (y ∷ xs) (suc i) x e h = omega (arith, one_most (p y), count_missing p xs i x e h)
  where
    one_most : (b : Bool) → one_if b ≤ 1
    one_most true = omega arith
    one_most false = omega arith

module _ (g : Graph) (t fuel : ℕ) (r : IsReady (suc fuel) g) (lt : t < g.num_tasks)
    (at_t : get_elem? g.state t ≡ some 0) (row : List ℕ)
    (at_row : get_elem? g.adj_list t ≡ some row) where
  abbrev finish : Graph × Bool → Outcome (Graph × Bool)
  finish r = if r.1 then done (r.0, true) else do
    _ ← index r.0.topo_order r.0.topo_idx
    done (
      record r.0 {
        state = set r.0.state t 2;
        topo_order = set r.0.topo_order r.0.topo_idx t;
        topo_idx = r.0.topo_idx + 1;
      },
      false,
    )

  marked-IsReady : IsReady fuel (marked g t r.topo at_t)
  marked-IsReady = record {
    topo = marked-IsTopo g t r.topo at_t;
    graph = record {
      states = length-set g.state t 1 ∙ r.graph.states;
      rows = r.graph.rows;
      targets = r.graph.targets;
    };
    enough = omega (arith, r.enough, count-set (λ s. s == 0) g.state t 0 1 at_t);
  }

  finished :
      (m : Outcome (Graph × Bool))
      → Searched (marked g t r.topo at_t) (λ e. All (λ u. IsDone u e) row) m
      → Searched g (IsDone t) (m >>= finish)
  finished _ (cyclic e p x) =
      cyclic e p (Grown-trans g (marked g t r.topo at_t) e (marked-Grown g t r.topo at_t) x)
  finished _ (stopped v s e high) =
      stopped v s ((marked-Grown g t r.topo at_t).unknown v s e high) high
  finished _ (faulted less) = faulted less
  finished _ (acyclic b p w all) = elim (dec_lt b.topo_idx (length b.topo_order)) [
    | yes inside_it ↦ rw ((get_elem?-some b.topo_order b.topo_idx inside_it).1) (
        acyclic (ended g t r.topo at_t b p w row at_row all inside_it)
          (ended-IsTopo g t r.topo at_t b p w row at_row all inside_it)
          (ended-Grown g t r.topo at_t b p w row at_row all inside_it)
          (ended-IsDone g t r.topo at_t b p w row at_row all inside_it))
    | no full ↦
        let grey = w.kept t 1 (marked_self g t r.topo at_t) (λ e. omega arith) in
        let some_left = count_missing (λ s. s == 2) b.state t 1 grey refl in
        let short : length g.topo_order < g.num_tasks = omega (
          arith,
          some_left,
          p.counted,
          w.same_states,
          w.same_room,
          length-set g.state t 1,
          r.graph.states,
          full,
        ) in
        rw (get_elem?-none b.topo_order b.topo_idx (omega (arith, full))) (faulted short)
  ]

-- A search from a task of a graph, on more fuel than there are tasks that were not visited, where
-- the tasks that are done stand in order. If it returns, the tasks done stand in order again, in as
-- many cells as there are, each behind its prerequisites; tasks visited before keep their state; and
-- if no cycle was found the task is done. Else it ended the process at a task whose state is above 2, or the order has
-- fewer cells than there are tasks.
pub has_cycle-Searched :
    (fuel : ℕ) (g : Graph) (t : ℕ)
    → IsReady fuel g
    → t < g.num_tasks
    → Searched g (IsDone t) (has_cycle fuel g t)
unfolding has_cycle
has_cycle-Searched zero g t r lt = absurd (omega (arith, r.enough))
has_cycle-Searched (suc fuel) g t r lt =
    let (s, at_s) = get_elem?-some g.state t (omega (arith, r.graph.states)) in
    let (row, at_row) = get_elem?-some g.adj_list t (omega (arith, r.graph.rows)) in
    let known : ltb g.num_tasks t ≡ false = ground arith in
    elim (ℕ_discrete s 0) [
      | yes white ↦
          let at_t : get_elem? g.state t ≡ some 0 = at_s ∙ ap some white in
          rw (known, at_t, at_row)
            (finished g t fuel r lt at_t row at_row
              (walk (has_cycle fuel) (marked g t r.topo at_t) row)
              (walk-Searched (has_cycle fuel) fuel
                (λ g' t' r' lt'. has_cycle-Searched fuel g' t' r' lt') (marked g t r.topo at_t) row
                (marked-IsReady g t fuel r lt at_t row at_row) (r.graph.targets t row at_row)))
      | no not_white ↦ elim (ℕ_discrete s 1) [
        | yes grey ↦ rw (known, at_s ∙ ap some grey) (cyclic g r.topo (Grown-refl g))
        | no not_grey ↦ elim (ℕ_discrete s 2) [
          | yes black ↦
              rw (known, at_s ∙ ap some black)
                (acyclic g r.topo (Grown-refl g) (at_s ∙ ap some black))
          | no not_black ↦
              let a : (s == 0) ≡ false = ground arith in
              let b : (s == 1) ≡ false = ground arith in
              let c : (s == 2) ≡ false = ground arith in
              rw (known, at_s, b, c, a) (stopped t s at_s (omega arith))
        ]
      ]
    ]
