-- ===== src/Arena.antt =====
-- The arena of memory/arena.c: one block of memory that is handed out from its start.
pub mod Blocks
pub mod Padded
mod Tests
use bare_metal_architect.Prelude.{
  ℕ, zero, suc, ◌+◌, ◌-◌, ◌*◌, ◌/◌, ◌%◌, ◌^◌, ◌≤◌, ◌<◌, ◌≡◌, refl, sym, ap, ◌∙◌, ◌≢◌, ◌↔◌, ◌⊎◌, inl,
  inr, Bool, true, false, ◌&&◌, ◌||◌, not, Option, none, some, List, [], ◌∷◌, ◌++◌, arith, ltb, leb,
  ◌==◌, if◌then◌else◌, Bool-cases, Option-cases, length, get_elem?, get_elem?-some, set, replicate,
  take, drop, All, length-append, length-set, length-replicate, get_elem?-set_self,
  get_elem?-set_ne, get_elem?-replicate, ℤ, pos, negsuc, to_uint8, Outcome, done, exits, fault,
  ◌>>=◌, ◌>>◌, or_fault, index, index_int, granted, ℕ_discrete, dec_lt, ltb→lt, lt→ltb, leb→le,
  ==_iff,
}

-- `SIZE_MAX + 1`, where the sums of sizes wrap around.
abbrev pub size_mod : ℕ
size_mod = 18446744073709551616

-- The block is known by its address.
pub record Arena : Type 0 where
  pub memory_block : ℕ
  pub total_size : ℕ
  pub offset : ℕ

-- 1 for an allocation of one of the two types that is granted; else 0.
unfoldable pub check_memory_alloc : Bool → ℕ → ℕ
check_memory_alloc memory type = if ltb type 2 && memory then 1 else 0

-- The address is what the library's allocation returns, if it is granted.
unfoldable pub init_arena : Option ℕ → Bool → ℕ → Outcome Arena
unfolding check_memory_alloc
init_arena none arena size = exits
init_arena (some address) arena size =
    if check_memory_alloc true 1 == 0 || check_memory_alloc arena 0 == 0
    then exits
    else done (record { memory_block = address; total_size = size; offset = 0 })

unfoldable pub arena_alloc : Arena → ℕ → Outcome (Arena × ℕ)
arena_alloc a bytes_requested =
    if ltb a.total_size ((a.offset + bytes_requested) % size_mod)
    then exits
    else done
        (record a { offset = (a.offset + bytes_requested) % size_mod }, a.memory_block + a.offset)

unfoldable pub arena_reset : Arena → Arena
arena_reset a = record a { offset = 0 }

-- Some requests after one another, with the address and the size of each block.
unfoldable pub alloc_all : Arena → List ℕ → Outcome (Arena × List (ℕ × ℕ))
alloc_all a [] = done (a, [])
alloc_all a (size ∷ rest) = do
  r ← arena_alloc a size
  s ← alloc_all (r.0) rest
  done (s.0, (r.1, size) ∷ s.1)
