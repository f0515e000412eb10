-- ===== src/Dijkstra.antt =====
-- The shortest routes of graphs/Dijkstra/Dijkstra.c: a graph of cities with weighted edges, and the
-- search that keeps the best distances known.
pub mod Distances
pub mod Relax
pub mod Search
pub mod Start
pub mod Routes
mod Tests
use bare_metal_architect.Prelude.{
  ℕ, zero, suc, ◌+◌, ◌-◌, ◌*◌, ◌/◌, ◌%◌, ◌^◌, ◌≤◌, ◌<◌, ◌≡◌, refl, sym, ap, ◌∙◌, ◌≢◌, ◌↔◌, ◌⊎◌, inl,
  inr, Bool, true, false, ◌&&◌, ◌||◌, not, Option, none, some, List, [], ◌∷◌, ◌++◌, arith, ltb, leb,
  ◌==◌, if◌then◌else◌, Bool-cases, Option-cases, length, get_elem?, get_elem?-some, set, replicate,
  take, drop, All, length-append, length-set, length-replicate, get_elem?-set_self,
  get_elem?-set_ne, get_elem?-replicate, ℤ, pos, negsuc, to_uint8, Outcome, done, exits, fault,
  ◌>>=◌, ◌>>◌, or_fault, index, index_int, granted, ℕ_discrete, dec_lt, ltb→lt, lt→ltb, leb→le,
  ==_iff,
}
use bare_metal_architect.Prelude.{pos_part, leb_ℤ}
use bare_metal_architect.Text.{Text, str_eq}
use bare_metal_architect.MinHeap.{MinHeap, init_minheap, push, pop}

-- `CITIES`.
abbrev pub num_cities : ℕ
num_cities = 6

-- `CITY_LEN`.
abbrev pub city_len : ℕ
city_len = 10

-- The distance of a city that no route is known to.
abbrev pub unreached : ℕ
unreached = 999999

-- `INT_MAX`.
abbrev pub int_max : ℕ
int_max = 2147483647

pub record EdgeNode : Type 0 where
  pub destination : ℕ
  pub weight : ℕ

-- A graph: the names of its cities, and the edges that leave each of them.
pub record Wdg : Type 0 where
  pub cities : List Text
  pub edges : List (List EdgeNode)

-- Whether the allocation of an object of the type is granted; the types are 0 to 3.
unfoldable pub check_alloc : Bool → ℕ → Outcome (Unit {0})
check_alloc obj type = if ltb type 4 then granted obj else exits

-- The loop of `init_cities`: the object of a city, its name, and the copy of at most nine bytes.
unfoldable pub name_cities : (ℕ → Bool) → ℕ → List Text → Outcome (List Text)
unfolding check_alloc
name_cities alloc n [] = done []
name_cities alloc n (city ∷ rest) = do
  check_alloc (alloc n) 1
  check_alloc (alloc (suc n)) 3
  named ← name_cities alloc (suc (suc n)) rest
  done (take (city_len - 1) city ∷ named)

-- With the names that the array of the function holds.
unfoldable pub init_cities : (ℕ → Bool) → List Text → Outcome (List Text)
unfolding check_alloc name_cities
init_cities alloc city = do check_alloc (alloc 0) 1; name_cities alloc 1 city

-- The loop of `validate_route`, for one of its two cities: the last place that has the name.
unfoldable pub place_of : ℕ → ℕ → List Text → Text → Option ℕ → Outcome (Option ℕ)
place_of zero i names city found = done found
place_of (suc n) i [] city found = fault
place_of (suc n) i (name ∷ rest) city found =
    place_of n (suc i) rest city (if str_eq city name then some i else found)

-- The places of two different cities of the graph.
unfoldable pub route_of : Option ℕ → Option ℕ → Outcome (ℕ × ℕ)
route_of none b = exits
route_of (some a) none = exits
route_of (some a) (some b) = if a == b then exits else done (a, b)

unfoldable pub validate_route : Wdg → Text → Text → Outcome (ℕ × ℕ)
unfolding place_of route_of
validate_route graph starting_city destination_city = do
  a ← place_of num_cities 0 graph.cities starting_city none
  b ← place_of num_cities 0 graph.cities destination_city none
  route_of a b

unfoldable pub add_route : Bool → Wdg → Text → Text → ℤ → Outcome Wdg
unfolding check_alloc validate_route
add_route node graph starting_city destination_city km = if leb_ℤ km (pos 0) then exits else do
  route ← validate_route graph starting_city destination_city
  check_alloc node 2
  next ← index graph.edges (route.0)
  done (record graph {
    edges =
        set graph.edges (route.0) (record { destination = route.1; weight = pos_part km } ∷ next);
  })

unfoldable pub init_wdg : (ℕ → Bool) → List Text → Outcome Wdg
unfolding check_alloc
init_wdg alloc cities = do
  check_alloc (alloc 0) 0
  check_alloc (alloc 1) 2
  done (record { cities = cities; edges = replicate num_cities [] })

-- The walk over the edges of a city; a sum past `INT_MAX` is undefined.
unfoldable pub relax : List EdgeNode → ℕ → List ℕ → MinHeap → Outcome (List ℕ × MinHeap)
relax [] city distances heap = done (distances, heap)
relax (e ∷ next) city distances heap = do
  known ← index distances city
  old ← index distances e.destination
  if ltb int_max (known + e.weight)
      then fault
      else if ltb (known + e.weight) old
      then (do
        heap' ← push heap e.destination (known + e.weight)
        relax next city (set distances e.destination (known + e.weight)) heap')
      else relax next city distances heap

-- The loop of `run_dijkstra`, on fuel.
unfoldable pub search_loop : ℕ → Wdg → List ℕ → MinHeap → Outcome (List ℕ)
search_loop zero graph distances heap = if heap.size == 0 then done distances else fault
search_loop (suc fuel) graph distances heap = if heap.size == 0 then done distances else do
  r ← pop heap
  known ← index distances r.1.city_id
  if ltb known r.1.distance then search_loop fuel graph distances r.0 else do
    edges ← index graph.edges r.1.city_id
    s ← relax edges r.1.city_id distances r.0
    search_loop fuel graph s.0 s.1

-- The distances that are printed.
unfoldable pub run_dijkstra : (ℕ → Bool) → ℕ → Wdg → ℕ → Outcome (List ℕ)
run_dijkstra alloc fuel graph start_city = do
  _ ← index (replicate num_cities unreached) start_city
  heap ← init_minheap alloc 20
  heap' ← push heap start_city 0
  search_loop fuel graph (set (replicate num_cities unreached) start_city 0) heap'
