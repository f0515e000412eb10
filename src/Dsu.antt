-- ===== src/Dsu.antt =====
-- The disjoint sets of graphs_bootcamp/micro-make.c and graphs/disjoint_subset.c: an array in
-- which a root has minus the size of its tree and every other node its parent. The walk to the
-- root is a `while` that a broken array may keep going for ever: it takes fuel here, and `none`
-- means that the fuel ran out.
pub mod Forest
pub mod Sizes
pub mod Merge
pub mod Union
mod Tests
use bare_metal_architect.Prelude.{
  ℕ, zero, suc, ◌+◌, ◌-◌, ◌*◌, ◌/◌, ◌%◌, ◌^◌, ◌≤◌, ◌<◌, ◌≡◌, refl, sym, ap, ◌∙◌, ◌≢◌, ◌↔◌, ◌⊎◌, inl,
  inr, Bool, true, false, ◌&&◌, ◌||◌, not, Option, none, some, List, [], ◌∷◌, ◌++◌, arith, ltb, leb,
  ◌==◌, if◌then◌else◌, Bool-cases, Option-cases, length, get_elem?, get_elem?-some, set, replicate,
  take, drop, All, length-append, length-set, length-replicate, get_elem?-set_self,
  get_elem?-set_ne, get_elem?-replicate, ℤ, pos, negsuc, to_uint8, Outcome, done, exits, fault,
  ◌>>=◌, ◌>>◌, or_fault, index, index_int, granted, ℕ_discrete, dec_lt, ltb→lt, lt→ltb, leb→le,
  ==_iff,
}
use bare_metal_architect.Prelude.{leb_ℤ, ◌+ℤ◌}

-- `while(DSU[root] >= 0) root = DSU[root];`
unfoldable pub find_loop : ℕ → List ℤ → ℕ → Option (Outcome ℕ)
find_loop zero dsu root = none
find_loop (suc fuel) dsu root = elim (get_elem? dsu root) [
  | none ↦ some fault
  | some z ↦ elim z [ negsuc k ↦ some (done root) | pos p ↦ find_loop fuel dsu p ]
]

abbrev pub as_int : Option (Outcome ℕ) → Option (Outcome ℤ)
as_int none = none
as_int (some r) = some (r >>= λ n. done (pos n))

-- -1 for an index out of range.
unfoldable pub find : ℕ → ℤ → List ℤ → Option (Outcome ℤ)
unfolding find_loop
find fuel (negsuc n) dsu = some (done (negsuc 0))
find fuel (pos n) dsu =
    if leb (length dsu) n then some (done (negsuc 0)) else as_int (find_loop fuel dsu n)

-- Union by size. The array holds minus the sizes, so the larger tree has the smaller number.
unfoldable pub attach : List ℤ → ℕ → ℕ → Outcome (List ℤ)
attach dsu root_a root_b = do
  a ← index dsu root_a
  b ← index dsu root_b
  if leb_ℤ a b
      then done (set (set dsu root_a (a +ℤ b)) root_b (pos root_a))
      else done (set (set dsu root_b (b +ℤ a)) root_a (pos root_b))

-- Two equal roots are a cycle; a root of -1 that meets another root is an index out of range.
unfoldable pub join : Outcome (List ℤ) → List ℤ → ℤ → ℤ → Outcome (List ℤ)
unfolding attach
join on_cycle dsu (pos root_a) (pos root_b) =
    if root_a == root_b then on_cycle else attach dsu root_a root_b
join on_cycle dsu (negsuc m) (negsuc n) = if m == n then on_cycle else fault
join on_cycle dsu (pos root_a) (negsuc n) = fault
join on_cycle dsu (negsuc m) (pos root_b) = fault

abbrev pub both {ℓ} :
    {A : Type ℓ}
    → Option (Outcome ℤ)
    → Option (Outcome ℤ)
    → (ℤ → ℤ → Outcome A)
    → Option (Outcome A)
both none b f = none
both (some a) none f = none
both (some a) (some b) f = some (a >>= λ x. b >>= λ y. f x y)

-- micro-make.c reports a cycle and returns.
unfoldable pub set_union : ℕ → ℤ → ℤ → List ℤ → Option (Outcome (List ℤ))
unfolding find join
set_union fuel node_a node_b dsu =
    both (find fuel node_a dsu) (find fuel node_b dsu) (join (done dsu) dsu)

-- disjoint_subset.c reports a cycle and ends the process.
pub set_union_strict : ℕ → ℤ → ℤ → List ℤ → Option (Outcome (List ℤ))
unfolding find join
set_union_strict fuel node_a node_b dsu =
    both (find fuel node_a dsu) (find fuel node_b dsu) (join exits dsu)

-- The array that `create_graph` and `init_dsu` make: every node is a root of size 1.
pub init_dsu : ℕ → List ℤ
init_dsu n = replicate n (negsuc 0)

-- The number of negative entries.
pub get_independent_cluster : List ℤ → ℕ
get_independent_cluster [] = 0
get_independent_cluster (negsuc k ∷ rest) = get_independent_cluster rest + 1
get_independent_cluster (pos p ∷ rest) = get_independent_cluster rest
