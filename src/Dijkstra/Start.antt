-- ===== src/Dijkstra/Start.antt =====
-- The start of the search, and the whole of `run_dijkstra`.
use bare_metal_architect.Prelude.{
  ℕ, ◌≤◌, ◌<◌, ◌≡◌, refl, sym, ap, ◌∙◌, ◌≢◌, ◌⊎◌, inl, inr, Bool, List, arith, Bool-cases, set,
  replicate, take, length-set, length-replicate, ℕ_discrete,
}
use bare_metal_architect.Prelude.{subst}
use bare_metal_architect.Ensures.{Ensures, returns, ended, Ensures-bind}
use bare_metal_architect.MinHeap.{HeapNode, MinHeap, init_minheap, check_heap_alloc, zero_node}
use bare_metal_architect.MinHeap.Swap.{count, one_if}
use bare_metal_architect.MinHeap.Up.{IsValid, counted, Pushed, push-Pushed}
use bare_metal_architect.Dijkstra.{Wdg, num_cities, unreached, run_dijkstra}
use bare_metal_architect.Dijkstra.Distances.{
  RouteTo, at_start, IsGraph, value, value-get_elem?, value-set_self, value-set_ne, value-replicate,
  sum-set, Shortest,
}
use bare_metal_architect.Dijkstra.Relax.{
  is_node, is_stray, node_is, not_stray, IsSound, IsSettled, unknown, queued,
}
use bare_metal_architect.Dijkstra.Search.{search_loop-Shortest}

-- A heap that `init_minheap` makes.
pub record Empty (h : MinHeap) : Type 0 where
  pub valid : IsValid h
  pub none_yet : h.size ≡ 0

pub init_minheap-Empty :
    (alloc : ℕ → Bool) (capacity : ℕ) → Ensures Empty (init_minheap alloc capacity)
unfolding init_minheap check_heap_alloc
init_minheap-Empty alloc capacity = elim (Bool-cases (alloc 0)) [
  | inr refused ↦ rw refused ended
  | inl granted_first ↦ elim (Bool-cases (alloc 1)) [
    | inr refused ↦ rw (granted_first, refused) ended
    | inl granted_second ↦
        rw (granted_first, granted_second)
          (returns _ (record {
            valid = record {
              cells = length-replicate capacity zero_node;
              fits = omega arith;
              heap = record { above = λ p i lo hi lt. absurd (omega arith) };
            };
            none_yet = refl;
          }))
  ]
]

module _ (g : Wdg) (s : ℕ) (in_s : s < num_cities) where
  abbrev none_known : List ℕ
  none_known = replicate num_cities unreached

  abbrev first_known : List ℕ
  first_known = set none_known s 0

  at_s : value first_known s ≡ 0
  at_s = value-set_self none_known s 0 in_s

  not_s : (v : ℕ) → v < num_cities → s ≢ v → value first_known v ≡ unreached
  not_s v lt ne = value-set_ne none_known s v 0 ne ∙ value-replicate num_cities unreached v lt

  first_routes :
      (v : ℕ)
      → v < num_cities
      → (value first_known v ≡ unreached) ⊎ RouteTo g s v (value first_known v)
  first_routes v lt = elim (ℕ_discrete s v) [
    | yes same ↦ inr (subst (λ w. RouteTo g s w (value first_known w)) same (rw at_s at_start))
    | no ne ↦ inl (not_s v lt ne)
  ]

  module _ (h : MinHeap) (empty : Empty h)
      (p : Pushed h (record { city_id = s; distance = 0 })) where
    before : (q : HeapNode → Bool) → counted q h ≡ 0
    before q = ap (λ n. count q (take n h.heap_nodes)) empty.none_yet

    first-IsSound : IsSound g s first_known p.after
    first-IsSound = record {
      cells = length-set none_known s 0;
      start = at_s;
      low = λ v lt. elim (ℕ_discrete s v) [
        | yes same ↦ omega (arith, at_s, ap (value first_known) same)
        | no ne ↦ omega (arith, not_s v lt ne)
      ];
      routes = first_routes;
      valid = p.valid;
      no_strays = omega (
        arith,
        p.bag is_stray,
        before is_stray,
        ap one_if (not_stray (record { city_id = s; distance = 0 }) in_s),
      );
    }

    first-IsSettled : (v : ℕ) → v < num_cities → IsSettled g first_known p.after v
    first-IsSettled v lt = elim (ℕ_discrete s v) [
      | yes same ↦
          let zero_now : value first_known v ≡ 0 = subst (λ w. value first_known w ≡ 0) same at_s in
          let it =
            node_is v (value first_known v) (record { city_id = s; distance = 0 }) same
              (sym zero_now) in
          queued (omega (arith, p.bag (is_node v (value first_known v)), ap one_if it))
      | no ne ↦ unknown (not_s v lt ne)
    ]

-- A graph of the six cities with any edges between them, the sum of the length of each and 999999 at
-- most INT_MAX, and any start: on fuel of at least 10000000 the search does not fault; it ends the
-- process, or returns for each city the length of its shortest route if that is below 999999, and
-- 999999 if there is no route or none that is shorter than 999999.
pub run_dijkstra-Shortest :
    (alloc : ℕ → Bool) (fuel : ℕ) (g : Wdg) (s : ℕ)
    → IsGraph g
    → s < num_cities
    → 10000000 ≤ fuel
    → Ensures (Shortest g s) (run_dijkstra alloc fuel g s)
unfolding run_dijkstra
run_dijkstra-Shortest alloc fuel g s graph in_s enough =
    rw (value-get_elem? (none_known g s in_s) s in_s) (
      Ensures-bind (init_minheap alloc 20) (init_minheap-Empty alloc 20) (λ h empty.
        elim (push-Pushed h empty.valid (record { city_id = s; distance = 0 })) [
          | inl full ↦ rw (full.1) ended
          | inr p ↦
              let o = first-IsSound g s in_s h empty p in
              let settled = first-IsSettled g s in_s h empty p in
              let total = sum-set (none_known g s in_s) s 0 in_s in
              rw (p.returned) (
                search_loop-Shortest g s graph fuel (first_known g s in_s) p.after o settled (
                  omega (
                    arith,
                    total,
                    value-replicate num_cities unreached s in_s,
                    p.grown,
                    empty.none_yet,
                    enough,
                  )))
        ]))
