-- ===== src/Dijkstra/Relax.antt =====
-- The walk over the edges of a city: what it keeps, and what holds of the edges after it.
use bare_metal_architect.Prelude.{
  ℕ, ◌+◌, ◌*◌, ◌≤◌, ◌<◌, ◌≡◌, refl, sym, ap, ◌∙◌, ◌≢◌, ◌⊎◌, inl, inr, Bool, true, false, ◌&&◌, not,
  List, [], ◌∷◌, arith, ltb, ◌==◌, length, set, All, length-set, ℕ_discrete, ltb→lt,
}
use bare_metal_architect.Prelude.{subst}
use bare_metal_architect.Ensures.{Ensures, returns, ended, Ensures-if, Ensures-weaker}
use bare_metal_architect.MinHeap.{HeapNode, MinHeap}
use bare_metal_architect.MinHeap.Swap.{one_if}
use bare_metal_architect.MinHeap.Up.{IsValid, counted, Pushed, push-Pushed}
use bare_metal_architect.Dijkstra.{EdgeNode, Wdg, num_cities, unreached, int_max, relax}
use bare_metal_architect.Dijkstra.Distances.{
  EdgeOf, RouteTo, along, IsGraph, value, sum, value-get_elem?, value-set_self, value-set_ne,
  sum-set,
}

-- The nodes of a heap for a city at a distance, and the nodes for no city.
abbrev pub is_node : ℕ → ℕ → HeapNode → Bool
is_node v d node = (node.city_id == v) && (node.distance == d)

abbrev pub is_stray : HeapNode → Bool
is_stray node = not (ltb node.city_id num_cities)

-- A distance is that of a route, or 999999; the heap is one, of cities.
pub record IsSound (g : Wdg) (s : ℕ) (ds : List ℕ) (h : MinHeap) : Type 0 where
  pub cells : length ds ≡ num_cities
  pub start : value ds s ≡ 0
  pub low : (v : ℕ) → v < num_cities → value ds v ≤ unreached
  pub routes : (v : ℕ) → v < num_cities → (value ds v ≡ unreached) ⊎ RouteTo g s v (value ds v)
  pub valid : IsValid h
  pub no_strays : counted is_stray h ≡ 0

-- A city that no route is known to, that waits in the heap with its distance, or whose edges give
-- no shorter route.
pub data IsSettled (g : Wdg) (ds : List ℕ) (h : MinHeap) (v : ℕ) : Type 0 where
  unknown : value ds v ≡ unreached → IsSettled g ds h v
  queued : 0 < counted (is_node v (value ds v)) h → IsSettled g ds h v
  relaxed :
      ((e : EdgeNode) → EdgeOf g v e → value ds e.destination ≤ value ds v + e.weight)
      → IsSettled g ds h v

-- Distances that fell, but for that of v, and a heap that grew.
pub still-IsSettled :
    (g : Wdg) (ds ds' : List ℕ) (h h' : MinHeap) (v : ℕ)
    → value ds' v ≡ value ds v
    → ((w : ℕ) → value ds' w ≤ value ds w)
    → ((p : HeapNode → Bool) → counted p h ≤ counted p h')
    → IsSettled g ds h v
    → IsSettled g ds' h' v
still-IsSettled g ds ds' h h' v same lower more (unknown e) = unknown (same ∙ e)
still-IsSettled g ds ds' h h' v same lower more (queued lt) =
    queued (rw same (omega (arith, lt, more (is_node v (value ds v)))))
still-IsSettled g ds ds' h h' v same lower more (relaxed f) =
    relaxed (λ e o. omega (arith, same, lower e.destination, f e o))

-- What the walk over some edges of u leaves.
pub record Relaxes (g : Wdg) (s u : ℕ) (ds : List ℕ) (h : MinHeap) (es : List EdgeNode)
    (r : List ℕ × MinHeap) : Type 0 where
  pub sound : IsSound g s r.0 r.1
  pub same_here : value r.0 u ≡ value ds u
  pub lower : (v : ℕ) → value r.0 v ≤ value ds v
  pub settled : (v : ℕ) → v < num_cities → v ≢ u → IsSettled g ds h v → IsSettled g r.0 r.1 v
  pub edges_done : All (λ e. value r.0 e.destination ≤ value r.0 u + e.weight) es
  pub less_left : 2 * sum r.0 + r.1.size ≤ 2 * sum ds + h.size

pub node_is :
    (v d : ℕ) (node : HeapNode) → node.city_id ≡ v → node.distance ≡ d → is_node v d node ≡ true
node_is v d node a b = ground (arith, a, b)

pub not_stray : (node : HeapNode) → node.city_id < num_cities → is_stray node ≡ false
not_stray node lt = ground (arith, lt)

module _ (g : Wdg) (s u : ℕ) (graph : IsGraph g) (in_u : u < num_cities) where
  then_Relaxes :
      (ds ds1 : List ℕ) (h h1 : MinHeap) (e : EdgeNode) (next : List EdgeNode)
      (r : List ℕ × MinHeap)
      → Relaxes g s u ds h (e ∷ []) (ds1, h1)
      → Relaxes g s u ds1 h1 next r
      → Relaxes g s u ds h (e ∷ next) r
  then_Relaxes ds ds1 h h1 e next r a b = record {
    sound = b.sound;
    same_here = b.same_here ∙ a.same_here;
    lower = λ v. omega (arith, a.lower v, b.lower v);
    settled = λ v lt ne x. b.settled v lt ne (a.settled v lt ne x);
    edges_done = (omega (arith, b.lower e.destination, b.same_here, a.edges_done.0), b.edges_done);
    less_left = omega (arith, a.less_left, b.less_left);
  }

  module _ (ds : List ℕ) (h : MinHeap) (o : IsSound g s ds h) (e : EdgeNode)
      (edge : EdgeOf g u e) where
    abbrev found : ℕ
    found = value ds u + e.weight

    kept-Relaxes : value ds e.destination ≤ found → Relaxes g s u ds h (e ∷ []) (ds, h)
    kept-Relaxes le = record {
      sound = o;
      same_here = refl;
      lower = λ v. omega arith;
      settled = λ v lt ne x. x;
      edges_done = (le, tt);
      less_left = omega arith;
    }

    in_end : e.destination < length ds
    in_end = omega (arith, o.cells, graph.ends u e edge)

    abbrev better : List ℕ
    better = set ds e.destination found

    module _ (less : found < value ds e.destination) where
      falls : (v : ℕ) → value better v ≤ value ds v
      falls v = elim (ℕ_discrete e.destination v) [
        | yes same ↦ omega (
          arith,
          value-set_self ds e.destination found in_end,
          ap (value better) same,
          ap (value ds) same,
        )
        | no ne ↦ omega (arith, value-set_ne ds e.destination v found ne)
      ]

      apart : e.destination ≢ u
      apart same = omega (arith, less, ap (value ds) same)

      route : RouteTo g s e.destination found
      route = elim (o.routes u in_u) [
        | inl none_known ↦
            absurd (omega (arith, less, none_known, o.low e.destination (graph.ends u e edge)))
        | inr known ↦ along e known edge
      ]

      better_routes :
          (v : ℕ) → v < num_cities → (value better v ≡ unreached) ⊎ RouteTo g s v (value better v)
      better_routes v lt = elim (ℕ_discrete e.destination v) [
        | yes same ↦ inr (
            subst (λ w. RouteTo g s w (value better w)) same
              (rw (value-set_self ds e.destination found in_end) route))
        | no ne ↦ rw (value-set_ne ds e.destination v found ne) (o.routes v lt)
      ]

      better-Relaxes :
          (p : Pushed h (record { city_id = e.destination; distance = found }))
          → Relaxes g s u ds h (e ∷ []) (better, p.after)
      better-Relaxes p = record {
        sound = record {
          cells = length-set ds e.destination found ∙ o.cells;
          start = omega (arith, falls s, o.start);
          low = λ v lt. omega (arith, falls v, o.low v lt);
          routes = better_routes;
          valid = p.valid;
          no_strays =
              let one = p.bag is_stray in
              let city =
                not_stray (record { city_id = e.destination; distance = found })
                  (graph.ends u e edge) in
              omega (arith, one, ap one_if city, o.no_strays);
        };
        same_here = value-set_ne ds e.destination u found apart;
        lower = falls;
        settled = λ v lt ne x. elim (ℕ_discrete e.destination v) [
          | yes same ↦
              let now : value better v ≡ found =
                subst (λ w. value better w ≡ found) same
                  (value-set_self ds e.destination found in_end) in
              let it =
                node_is v (value better v) (record { city_id = e.destination; distance = found })
                  same (sym now) in
              queued (omega (arith, p.bag (is_node v (value better v)), ap one_if it))
          | no other ↦
              still-IsSettled g ds better h p.after v (value-set_ne ds e.destination v found other)
                falls (λ q. omega (arith, p.bag q)) x
        ];
        edges_done = (
          omega (
            arith,
            value-set_self ds e.destination found in_end,
            value-set_ne ds e.destination u found apart,
          ),
          tt,
        );
        less_left = omega (arith, sum-set ds e.destination found in_end, p.grown);
      }

  -- The walk over edges of u returns or ends the process, and keeps what the search needs.
  pub relax-Relaxes :
      (es : List EdgeNode) (ds : List ℕ) (h : MinHeap)
      → All (EdgeOf g u) es
      → IsSound g s ds h
      → Ensures (Relaxes g s u ds h es) (relax es u ds h)
  unfolding relax
  relax-Relaxes [] ds h edges o = returns _ (record {
    sound = o;
    same_here = refl;
    lower = λ v. omega arith;
    settled = λ v lt ne x. x;
    edges_done = tt;
    less_left = omega arith;
  })
  relax-Relaxes (e ∷ next) ds h (edge, edges) o =
      let here = value-get_elem? ds u (omega (arith, in_u, o.cells)) in
      let there = value-get_elem? ds e.destination (in_end ds h o e edge) in
      let small : ltb int_max (value ds u + e.weight) ≡ false =
        ground (arith, o.low u in_u, graph.short u e edge) in
      rw (here, there, small)
        (Ensures-if (ltb (value ds u + e.weight) (value ds e.destination))
          (λ lt.
            let less = ltb→lt (value ds u + e.weight) (value ds e.destination) lt in
            elim (push-Pushed h o.valid
              (record { city_id = e.destination; distance = value ds u + e.weight })) [
                | inl full ↦ rw (full.1) ended
                | inr p ↦
                    let now = better-Relaxes ds h o e edge less p in
                    rw (p.returned) (
                      Ensures-weaker
                        (λ r x. then_Relaxes ds (better ds h o e edge) h p.after e next r now x)
                        (relax-Relaxes next (better ds h o e edge) p.after edges now.sound))
              ])
          (λ ge.
            let now = kept-Relaxes ds h o e edge (ground arith) in
            Ensures-weaker (λ r x. then_Relaxes ds ds h h e next r now x)
              (relax-Relaxes next ds h edges o)))
