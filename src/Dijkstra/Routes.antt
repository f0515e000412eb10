-- ===== src/Dijkstra/Routes.antt =====
-- The edges that `add_route` adds.
use bare_metal_architect.Prelude.{
  ℕ, suc, ◌+◌, ◌≤◌, ◌<◌, ◌≡◌, refl, sym, ap, ◌∙◌, ◌≢◌, inl, inr, Bool, Option, none, some, List, [],
  ◌∷◌, arith, ◌==◌, if◌then◌else◌, Bool-cases, length, get_elem?, get_elem?-some, set, All,
  length-set, get_elem?-set_self, get_elem?-set_ne, ℤ, pos,
}
use bare_metal_architect.Prelude.{pos_part, leb_ℤ, subst, All-set, All-get_elem?}
use bare_metal_architect.Ensures.{Ensures, returns, ended, Ensures-if, Ensures-bind}
use bare_metal_architect.Text.{Text, str_eq, str_eq_iff}
use bare_metal_architect.Dijkstra.{
  EdgeNode, Wdg, num_cities, unreached, int_max, check_alloc, place_of, route_of, validate_route,
  add_route,
}
use bare_metal_architect.Dijkstra.Distances.{
  EdgeOf, IsGraph, IsShort, rows-IsGraph, All-places, inside,
}

-- The place of a city, if one was found, has its name.
abbrev pub Names : List Text → Text → Option ℕ → Type 0
Names cities city none = Unit
Names cities city (some i) = get_elem? cities i ≡ some city

-- Two different places, with the names of the two cities.
pub record IsRoute (cities : List Text) (start dest : Text) (r : ℕ × ℕ) : Type 0 where
  pub start_name : get_elem? cities (r.0) ≡ some start
  pub dest_name : get_elem? cities (r.1) ≡ some dest
  pub apart : r.0 ≢ r.1

place_of-Names :
    (cities : List Text) (i : ℕ) (names : List Text) (city : Text) (found : Option ℕ)
    → ((j : ℕ) → j < length names → get_elem? names j ≡ get_elem? cities (i + j))
    → Names cities city found
    → Ensures (Names cities city) (place_of (length names) i names city found)
unfolding place_of
place_of-Names cities i [] city found at h = returns found h
place_of-Names cities i (name ∷ rest) city found at h =
    let further : (j : ℕ) → j < length rest → get_elem? rest j ≡ get_elem? cities (suc i + j) =
      λ j lt. at (suc j) (omega arith) ∙ ap (get_elem? cities) (omega arith) in
    let named : Names cities city (if str_eq city name then some i else found) =
      elim (Bool-cases (str_eq city name)) [
        | inl same ↦
            let here : some city ≡ get_elem? cities i =
              ap some ((str_eq_iff city name).0 same)
              ∙ at 0 (omega arith)
              ∙ ap (get_elem? cities) (omega arith) in
            rw same (sym here)
        | inr other ↦ rw other h
      ] in
    place_of-Names cities (suc i) rest city (if str_eq city name then some i else found) further
      named

route_of-IsRoute :
    (cities : List Text) (start dest : Text) (a b : Option ℕ)
    → Names cities start a
    → Names cities dest b
    → Ensures (IsRoute cities start dest) (route_of a b)
unfolding route_of
route_of-IsRoute cities start dest none b p q = ended
route_of-IsRoute cities start dest (some a) none p q = ended
route_of-IsRoute cities start dest (some a) (some b) p q =
    Ensures-if (a == b) (λ same. ended)
      (λ other.
        returns (a, b) (record { start_name = p; dest_name = q; apart = λ e. ground arith }))

module _ (g : Wdg) (start dest : Text) (km : ℤ) where
  -- The new edge stands in front of the edges of the start; all others stay.
  pub record Adds (g' : Wdg) : Type 0 where
    pub from : ℕ
    pub to : ℕ
    pub route : IsRoute g.cities start dest (from, to)
    pub row : List EdgeNode
    pub old_row : get_elem? g.edges from ≡ some row
    pub new_row :
        get_elem? g'.edges from ≡ some (record { destination = to; weight = pos_part km } ∷ row)
    pub others : (u : ℕ) → u ≢ from → get_elem? g'.edges u ≡ get_elem? g.edges u
    pub same_cities : g'.cities ≡ g.cities
    pub graph : IsGraph g'

  module _ (graph : IsGraph g) (six : length g.cities ≡ num_cities)
      (small : pos_part km + unreached ≤ int_max) where
    place_in_graph :
        (city : Text) → Ensures (Names g.cities city) (place_of num_cities 0 g.cities city none)
    place_in_graph city =
        subst (λ n. Ensures (Names g.cities city) (place_of n 0 g.cities city none)) six
          (place_of-Names g.cities 0 g.cities city none
            (λ j lt. ap (get_elem? g.cities) (omega arith)) tt)

    validate_route-IsRoute : Ensures (IsRoute g.cities start dest) (validate_route g start dest)
    unfolding validate_route
    validate_route-IsRoute =
        Ensures-bind (place_of num_cities 0 g.cities start none) (place_in_graph start) (λ a p.
          Ensures-bind (place_of num_cities 0 g.cities dest none) (place_in_graph dest)
            (λ b q. route_of-IsRoute g.cities start dest a b p q))

    each_row : All (All IsShort) g.edges
    each_row = All-places (All IsShort) g.edges (λ u row at. All-places IsShort row (λ i e at_i.
        let o : EdgeOf g u e = record { row = row; place = i; at_row = at; at_place = at_i } in
        (graph.ends u e o, graph.short u e o)))

    added :
        (r : ℕ × ℕ)
        → IsRoute g.cities start dest r
        → (row : List EdgeNode) → get_elem? g.edges (r.0) ≡ some row
        → Adds (record g {
          edges = set g.edges (r.0) (record { destination = r.1; weight = pos_part km } ∷ row);
        })
    added r route row at = record {
      from = r.0;
      to = r.1;
      route = record {
        start_name = route.start_name;
        dest_name = route.dest_name;
        apart = route.apart;
      };
      row = row;
      old_row = at;
      new_row =
          get_elem?-set_self g.edges (r.0)
            (record { destination = r.1; weight = pos_part km } ∷ row)
            (inside g.edges (r.0) row at);
      others = λ u ne.
          get_elem?-set_ne g.edges (r.0) u
            (record { destination = r.1; weight = pos_part km } ∷ row) (λ e. ne (sym e));
      same_cities = refl;
      graph =
          rows-IsGraph
            (record g {
              edges = set g.edges (r.0) (record { destination = r.1; weight = pos_part km } ∷ row);
            })
            (length-set g.edges (r.0) _ ∙ graph.rows)
            (All-set (All IsShort) g.edges (r.0) _ each_row (
              (omega (arith, inside g.cities (r.1) dest route.dest_name, six), small),
              All-get_elem? (All IsShort) g.edges (r.0) row each_row at,
            ));
    }

    -- In a graph of six named cities, for a length that the sums have room for: `add_route` does not
    -- fault; it ends the process, or returns the graph with the edge added in front of those of the
    -- start, between two different places with the names of the two cities.
    pub add_route-Adds : (node : Bool) → Ensures Adds (add_route node g start dest km)
    unfolding add_route check_alloc
    add_route-Adds node =
        Ensures-if (leb_ℤ km (pos 0)) (λ bad. ended)
          (λ good. Ensures-bind (validate_route g start dest) validate_route-IsRoute (λ r route.
            let (row, at) =
              get_elem?-some g.edges (r.0)
                (omega (arith, inside g.cities (r.0) start route.start_name, six, graph.rows)) in
            elim (Bool-cases node) [
              | inl granted_node ↦ rw (granted_node, at) (returns _ (added r route row at))
              | inr refused ↦ rw refused ended
            ]))
