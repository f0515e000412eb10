-- ===== src/Dijkstra/Distances.antt =====
-- Routes and their lengths, and the array of the distances.
use bare_metal_architect.Prelude.{
  ℕ, zero, suc, ◌+◌, ◌≤◌, ◌<◌, ◌≡◌, refl, ap, ◌≢◌, ◌⊎◌, some, List, [], ◌∷◌, arith, length,
  get_elem?, set, replicate, All,
}
use bare_metal_architect.Prelude.{All-get_elem?}
use bare_metal_architect.Dijkstra.{EdgeNode, Wdg, num_cities, unreached, int_max}

-- An edge that leaves the city u.
pub record EdgeOf (g : Wdg) (u : ℕ) (e : EdgeNode) : Type 0 where
  pub row : List EdgeNode
  pub place : ℕ
  pub at_row : get_elem? g.edges u ≡ some row
  pub at_place : get_elem? row place ≡ some e

-- A route from the city s, with its length.
pub data RouteTo (g : Wdg) (s : ℕ) : ℕ → ℕ → Type 0 where
  at_start : RouteTo g s s 0
  along :
      {u k : ℕ} (e : EdgeNode)
      → RouteTo g s u k
      → EdgeOf g u e
      → RouteTo g s e.destination (k + e.weight)

-- A row of edges for each city; every edge ends at a city, and is short enough for the sums.
pub record IsGraph (g : Wdg) : Type 0 where
  pub rows : length g.edges ≡ num_cities
  pub ends : (u : ℕ) (e : EdgeNode) → EdgeOf g u e → e.destination < num_cities
  pub short : (u : ℕ) (e : EdgeNode) → EdgeOf g u e → e.weight + unreached ≤ int_max

-- What holds of each edge of a graph.
abbrev pub IsShort : EdgeNode → Type 0
IsShort e = (e.destination < num_cities) × (e.weight + unreached ≤ int_max)

pub rows-IsGraph : (g : Wdg) → length g.edges ≡ num_cities → All (All IsShort) g.edges → IsGraph g
rows-IsGraph g rows all =
    let each : (u : ℕ) (e : EdgeNode) → EdgeOf g u e → IsShort e = λ u e o.
      All-get_elem? IsShort o.row o.place e
        (All-get_elem? (All IsShort) g.edges u o.row all o.at_row) o.at_place in
    record { rows = rows; ends = λ u e o. (each u e o).0; short = λ u e o. (each u e o).1 }

-- The distance of a city.
abbrev pub value : List ℕ → ℕ → ℕ
value [] v = 0
value (d ∷ ds) zero = d
value (d ∷ ds) (suc v) = value ds v

abbrev pub sum : List ℕ → ℕ
sum [] = 0
sum (d ∷ ds) = d + sum ds

pub value-get_elem? : (ds : List ℕ) (v : ℕ) → v < length ds → get_elem? ds v ≡ some (value ds v)
value-get_elem? [] v lt = elim lt [ ]
value-get_elem? (d ∷ ds) zero lt = refl
value-get_elem? (d ∷ ds) (suc v) lt = value-get_elem? ds v (omega arith)

pub value-set_self : (ds : List ℕ) (v d : ℕ) → v < length ds → value (set ds v d) v ≡ d
value-set_self [] v d lt = elim lt [ ]
value-set_self (x ∷ ds) zero d lt = refl
value-set_self (x ∷ ds) (suc v) d lt = value-set_self ds v d (omega arith)

pub value-set_ne : (ds : List ℕ) (v w d : ℕ) → v ≢ w → value (set ds v d) w ≡ value ds w
value-set_ne [] v w d ne = refl
value-set_ne (x ∷ ds) zero zero d ne = absurd (ne refl)
value-set_ne (x ∷ ds) zero (suc w) d ne = refl
value-set_ne (x ∷ ds) (suc v) zero d ne = refl
value-set_ne (x ∷ ds) (suc v) (suc w) d ne = value-set_ne ds v w d (λ e. ne (ap suc e))

pub sum-set : (ds : List ℕ) (v d : ℕ) → v < length ds → sum (set ds v d) + value ds v ≡ sum ds + d
sum-set [] v d lt = elim lt [ ]
sum-set (x ∷ ds) zero d lt = omega arith
sum-set (x ∷ ds) (suc v) d lt = omega (arith, sum-set ds v d (omega arith))

pub value-replicate : (n d v : ℕ) → v < n → value (replicate n d) v ≡ d
value-replicate zero d v lt = elim lt [ ]
value-replicate (suc n) d zero lt = refl
value-replicate (suc n) d (suc v) lt = value-replicate n d v (omega arith)

-- The distances are those of the shortest routes, or 999999 where every route, if there is one, has
-- at least that length: no route is shorter than the distance, and a distance other than 999999 is
-- the length of a route.
pub record Shortest (g : Wdg) (s : ℕ) (distances : List ℕ) : Type 0 where
  pub cells : length distances ≡ num_cities
  pub routes :
      (v : ℕ) → v < num_cities → (value distances v ≡ unreached) ⊎ RouteTo g s v (value distances v)
  pub no_shorter : (v k : ℕ) → RouteTo g s v k → value distances v ≤ k

-- What is found stands inside.
pub inside : {A : Type 0} (xs : List A) (i : ℕ) (x : A) → get_elem? xs i ≡ some x → i < length xs
inside [] i x e = absurd (cc)
inside (y ∷ xs) zero x e = omega arith
inside (y ∷ xs) (suc i) x e = omega (arith, inside xs i x e)

-- What holds of every element, by its place.
pub All-places :
    {A : Type 0} (Q : A → Type 0) (xs : List A)
    → ((i : ℕ) (x : A) → get_elem? xs i ≡ some x → Q x)
    → All Q xs
All-places Q [] f = tt
All-places Q (x ∷ xs) f = (f 0 x refl, All-places Q xs (λ i y e. f (suc i) y e))
