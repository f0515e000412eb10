-- ===== src/Dijkstra/Search.antt =====
-- The search: it ends, and the distances that it leaves are those of the shortest routes.
use bare_metal_architect.Prelude.{
  ℕ, zero, suc, ◌+◌, ◌*◌, ◌≤◌, ◌<◌, ◌≡◌, sym, ap, ◌∙◌, inl, inr, Bool, true, false, some, List,
  arith, ltb, ◌==◌, Bool-cases, get_elem?, get_elem?-some, take, All, ℕ_discrete, ltb→lt,
}
use bare_metal_architect.Prelude.{subst, All-get_elem?}
use mathlib.Core.Option.{some-injective}
use bare_metal_architect.Ensures.{Ensures, returns, Ensures-if, Ensures-bind}
use bare_metal_architect.MinHeap.{HeapNode, MinHeap}
use bare_metal_architect.MinHeap.Swap.{count, one_if}
use bare_metal_architect.MinHeap.Up.{counted}
use bare_metal_architect.MinHeap.Pop.{Popped, pop-Popped}
use bare_metal_architect.Dijkstra.{EdgeNode, Wdg, num_cities, relax, search_loop}
use bare_metal_architect.Dijkstra.Distances.{
  inside, EdgeOf, RouteTo, at_start, along, IsGraph, value, sum, value-get_elem?, Shortest,
  All-places,
}
use bare_metal_architect.Dijkstra.Relax.{
  is_node, is_stray, IsSound, IsSettled, unknown, queued, relaxed, relax-Relaxes,
}

is_node_eq :
    (v d : ℕ) (node : HeapNode) → is_node v d node ≡ true → (node.city_id ≡ v) × (node.distance ≡ d)
is_node_eq v d node e = ground arith

stray_city : (node : HeapNode) → is_stray node ≡ false → node.city_id < num_cities
stray_city node e = ground arith

empty_count : (p : HeapNode → Bool) (h : MinHeap) → h.size ≡ 0 → counted p h ≡ 0
empty_count p h e = ap (λ n. count p (take n h.heap_nodes)) e

module _ (g : Wdg) (s : ℕ) (graph : IsGraph g) where
  -- With an empty heap every route is taken into account.
  no_shorter :
      (ds : List ℕ) (h : MinHeap)
      → IsSound g s ds h
      → ((v : ℕ) → v < num_cities → IsSettled g ds h v)
      → h.size ≡ 0
      → (v k : ℕ) → RouteTo g s v k
      → value ds v ≤ k
  no_shorter ds h o all empty _ _ at_start = omega (arith, o.start)
  no_shorter ds h o all empty _ _ (along {u} {k} e route edge) =
      let before = no_shorter ds h o all empty u k route in
      let in_u : u < num_cities =
        omega (arith, inside g.edges u edge.row edge.at_row, graph.rows) in
      elim (all u in_u) [
        | unknown none_known ↦
            omega (arith, before, none_known, o.low e.destination (graph.ends u e edge))
        | queued lt ↦ absurd (omega (arith, lt, empty_count (is_node u (value ds u)) h empty))
        | relaxed f ↦ omega (arith, before, f e edge)
      ]

  finished_search :
      (ds : List ℕ) (h : MinHeap)
      → IsSound g s ds h
      → ((v : ℕ) → v < num_cities → IsSettled g ds h v)
      → h.size ≡ 0
      → Shortest g s ds
  finished_search ds h o all empty = record {
    cells = o.cells;
    routes = o.routes;
    no_shorter = no_shorter ds h o all empty;
  }

  -- What a pop leaves.
  module _ (ds : List ℕ) (h : MinHeap) (o : IsSound g s ds h) (p : Popped h) where
    popped_city : p.root.city_id < num_cities
    popped_city = elim (Bool-cases (is_stray p.root)) [
      | inl stray ↦ absurd (omega (arith, p.bag is_stray, o.no_strays, ap one_if stray))
      | inr city ↦ stray_city p.root city
    ]

    popped-IsSound : IsSound g s ds p.after
    popped-IsSound = record {
      cells = o.cells;
      start = o.start;
      low = o.low;
      routes = o.routes;
      valid = p.valid;
      no_strays = omega (arith, p.bag is_stray, o.no_strays);
    }

    -- A city stays settled but for the one that was popped with its distance.
    popped-IsSettled :
        (v : ℕ)
        → is_node v (value ds v) p.root ≡ false
        → IsSettled g ds h v
        → IsSettled g ds p.after v
    popped-IsSettled v ne (unknown e) = unknown e
    popped-IsSettled v ne (queued lt) =
        queued (omega (arith, lt, p.bag (is_node v (value ds v)), ap one_if ne))
    popped-IsSettled v ne (relaxed f) = relaxed f

    other_node :
        (v : ℕ)
        → ((p.root.city_id ≡ v) → (p.root.distance ≡ value ds v) → ⊥)
        → is_node v (value ds v) p.root ≡ false
    other_node v differs = elim (Bool-cases (is_node v (value ds v) p.root)) [
      | inl same ↦ let (a, b) = is_node_eq v (value ds v) p.root same in absurd (differs a b)
      | inr ne ↦ ne
    ]

  row_edges : (u : ℕ) (row : List EdgeNode) → get_elem? g.edges u ≡ some row → All (EdgeOf g u) row
  row_edges u row at =
      All-places (EdgeOf g u) row
        (λ i e at_i. record { row = row; place = i; at_row = at; at_place = at_i })

  row_done :
      (u : ℕ) (row : List EdgeNode) (Q : EdgeNode → Type 0)
      → get_elem? g.edges u ≡ some row
      → All Q row
      → (e : EdgeNode) → EdgeOf g u e
      → Q e
  row_done u row Q at all e o =
      All-get_elem? Q row o.place e all
        (rw (some-injective row o.row (sym at ∙ o.at_row)) (o.at_place))

  pub search_loop-Shortest :
      (fuel : ℕ) (ds : List ℕ) (h : MinHeap)
      → IsSound g s ds h
      → ((v : ℕ) → v < num_cities → IsSettled g ds h v)
      → 2 * sum ds + h.size ≤ fuel
      → Ensures (Shortest g s) (search_loop fuel g ds h)
  unfolding search_loop
  search_loop-Shortest zero ds h o all enough =
      let empty : h.size ≡ 0 = omega arith in
      rw empty (returns ds (finished_search ds h o all empty))
  search_loop-Shortest (suc fuel) ds h o all enough = elim (ℕ_discrete h.size 0) [
    | yes empty ↦ rw empty (returns ds (finished_search ds h o all empty))
    | no more ↦
        let p = pop-Popped h o.valid (omega arith) in
        let city = popped_city ds h o p in
        let o' = popped-IsSound ds h o p in
        let known = value-get_elem? ds p.root.city_id (omega (arith, city, o.cells)) in
        let (row, at) = get_elem?-some g.edges p.root.city_id (omega (arith, city, graph.rows)) in
        let busy : (h.size == 0) ≡ false = ground arith in
        rw (busy, p.returned, known, at)
          (Ensures-if (ltb (value ds p.root.city_id) p.root.distance)
            (λ old.
              let less = ltb→lt (value ds p.root.city_id) p.root.distance old in
              search_loop-Shortest fuel ds p.after o'
                (λ v lt.
                  popped-IsSettled ds h o p v
                    (other_node ds h o p v (λ a b. omega (arith, less, b, ap (value ds) a)))
                    (all v lt))
                (omega (arith, enough, p.shrunk)))
            (λ new.
              Ensures-bind (relax row p.root.city_id ds p.after)
                (relax-Relaxes g s p.root.city_id graph city row ds p.after
                  (row_edges p.root.city_id row at) o')
                (λ r x.
                  search_loop-Shortest fuel r.0 r.1 x.sound
                    (λ v lt. elim (ℕ_discrete v p.root.city_id) [
                      | yes same ↦ relaxed (λ e edge. rw same (
                          row_done p.root.city_id row
                            (λ e. value r.0 e.destination ≤ value r.0 p.root.city_id + e.weight) at
                            x.edges_done e (subst (λ w. EdgeOf g w e) same edge)))
                      | no ne ↦ x.settled v lt ne (
                          popped-IsSettled ds h o p v (other_node ds h o p v (λ a b. ne (sym a)))
                            (all v lt))
                    ])
                    (omega (arith, enough, p.shrunk, x.less_left)))))
  ]
