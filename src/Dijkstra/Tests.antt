-- ===== src/Dijkstra/Tests.antt =====
-- The cities and the routes of the `main` of Dijkstra.c.
use bare_metal_architect.Prelude.{
  ℕ, ◌≡◌, refl, Bool, true, List, [], ◌∷◌, ◌++◌, arith, pos, done, ◌>>=◌,
}
use bare_metal_architect.Text.{Text, codes, str_eq}
use bare_metal_architect.Ensures.{Ensures}
use bare_metal_architect.MinHeap.{
  init_minheap, check_heap_alloc, push, pop, sift_up, sift_down, smallest_child,
}
use bare_metal_architect.Dijkstra.{
  Wdg, EdgeNode, run_dijkstra, search_loop, relax, init_cities, name_cities, check_alloc, init_wdg,
  add_route, validate_route, place_of, route_of,
}
use bare_metal_architect.Dijkstra.Distances.{Shortest, IsGraph, rows-IsGraph}
use bare_metal_architect.Dijkstra.Start.{run_dijkstra-Shortest}

abbrev granting : ℕ → Bool
granting n = true

-- The bytes of the UTF-8 names.
abbrev malaga : Text
malaga = 77 ∷ 195 ∷ 161 ∷ codes "laga"

abbrev sevilla : Text
sevilla = codes "Sevilla"

abbrev granada : Text
granada = codes "Granada"

abbrev cordoba : Text
cordoba = 67 ∷ 195 ∷ 179 ∷ codes "rdoba"

abbrev almeria : Text
almeria = codes "Almer" ++ (195 ∷ 173 ∷ codes "a")

abbrev jaen : Text
jaen = codes "Ja" ++ (195 ∷ 169 ∷ codes "n")

abbrev andalucia : List Text
andalucia = malaga ∷ sevilla ∷ granada ∷ cordoba ∷ almeria ∷ jaen ∷ []

abbrev edge : ℕ → ℕ → EdgeNode
edge destination weight = record { destination = destination; weight = weight }

abbrev roads : Wdg
roads = record {
  cities = andalucia;
  edges = (edge 3 160 ∷ edge 2 125 ∷ []) ∷ [] ∷ (edge 5 90 ∷ []) ∷ (edge 1 140 ∷ []) ∷ [] ∷ [] ∷ [];
}

-- The routes that `main` adds.
main_graph :
    (do
      cities ← init_cities granting andalucia
      g0 ← init_wdg granting cities
      g1 ← add_route true g0 malaga granada (pos 125)
      g2 ← add_route true g1 malaga cordoba (pos 160)
      g3 ← add_route true g2 granada jaen (pos 90)
      add_route true g3 cordoba sevilla (pos 140))
    ≡ done roads
unfolding init_cities name_cities check_alloc init_wdg add_route validate_route place_of route_of
    str_eq
main_graph = refl

-- The distances from Málaga; there is no road to Almería.
main_distances : run_dijkstra granting 20 roads 0 ≡ done (0 ∷ 300 ∷ 125 ∷ 160 ∷ 999999 ∷ 215 ∷ [])
unfolding run_dijkstra search_loop relax init_minheap check_heap_alloc push pop sift_up sift_down
    smallest_child
main_distances = refl

roads-IsGraph : IsGraph roads
roads-IsGraph = rows-IsGraph roads refl (
  ((omega arith, omega arith), ((omega arith, omega arith), tt)),
  (tt, (((omega arith, omega arith), tt), (((omega arith, omega arith), tt), (tt, (tt, tt))))),
)

run_dijkstra-Shortest_example : Ensures (Shortest roads 0) (run_dijkstra granting 10000000 roads 0)
run_dijkstra-Shortest_example =
    run_dijkstra-Shortest granting 10000000 roads 0 roads-IsGraph (omega arith) (omega arith)
