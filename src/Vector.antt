-- ===== src/Vector.antt =====
-- data-structures/dynamic_vector.c: a vector whose block doubles when it is full.
pub mod Grow
mod Tests
use bare_metal_architect.Prelude.{
  ℕ, zero, suc, ◌+◌, ◌-◌, ◌*◌, ◌/◌, ◌%◌, ◌^◌, ◌≤◌, ◌<◌, ◌≡◌, refl, sym, ap, ◌∙◌, ◌≢◌, ◌↔◌, ◌⊎◌, inl,
  inr, Bool, true, false, ◌&&◌, ◌||◌, not, Option, none, some, List, [], ◌∷◌, ◌++◌, arith, ltb, leb,
  ◌==◌, if◌then◌else◌, Bool-cases, Option-cases, length, get_elem?, get_elem?-some, set, replicate,
  take, drop, All, length-append, length-set, length-replicate, get_elem?-set_self,
  get_elem?-set_ne, get_elem?-replicate, ℤ, pos, negsuc, to_uint8, Outcome, done, exits, fault,
  ◌>>=◌, ◌>>◌, or_fault, index, index_int, granted, ℕ_discrete, dec_lt, ltb→lt, lt→ltb, leb→le,
  ==_iff,
}
use bare_metal_architect.Prelude.{ltb_ℤ, leb_ℤ}

-- `data` is `none` where it is a null pointer.
pub record Vector : Type 0 where
  pub data' : Option (List ℤ)
  pub size : ℕ
  pub capacity : ℕ

-- With the allocations of the structure and of the block, whose pointer is not tested.
unfoldable pub vector_create : Bool → Bool → ℕ → Outcome Vector
vector_create structure block initial_capacity = do
  granted structure
  done (record {
    data' = if block then some (replicate initial_capacity (pos 0)) else none;
    size = 0;
    capacity = initial_capacity;
  })

abbrev pub cells_of : Option (List ℤ) → List ℤ
cells_of none = []
cells_of (some cells) = cells

-- With the answer of `realloc`; the cells that it adds are not set. A double that is no `int` is a
-- signed overflow, whose behaviour is undefined.
unfoldable pub resize_if_needed : Bool → Vector → Outcome Vector
resize_if_needed alloc v =
    if v.size == v.capacity
    then (do
      if ltb (v.capacity * 2) (2 ^ 31) then done tt else fault
      granted alloc
      done (record v {
        capacity = v.capacity * 2;
        data' =
            some
              (cells_of v.data' ++ replicate (v.capacity * 2 - length (cells_of v.data')) (pos 0));
      }))
    else done v

unfoldable pub vector_push : Bool → Vector → ℤ → Outcome Vector
vector_push alloc vector value = do
  v ← resize_if_needed alloc vector
  cells ← or_fault v.data'
  _ ← index cells v.size
  done (record v { data' = some (set cells v.size value); size = v.size + 1 })

unfoldable pub vector_get : Vector → ℤ → Outcome ℤ
vector_get v at =
    if ltb_ℤ at (pos 0) || leb_ℤ (pos v.size) at
    then exits
    else do cells ← or_fault v.data'; index_int cells at
