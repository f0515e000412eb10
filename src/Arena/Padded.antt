-- ===== src/Arena/Padded.antt =====
-- The arena of system-design-bootcamp/arena.c, whose blocks start at multiples of eight.
use bare_metal_architect.Prelude.{
  ℕ, ◌+◌, ◌-◌, ◌*◌, ◌%◌, ◌≤◌, ◌<◌, ◌≡◌, refl, ◌≢◌, inl, inr, Bool, false, Option, none, some, arith,
  ltb, ◌==◌, if◌then◌else◌, Bool-cases, Outcome, done, exits, ◌>>◌, granted, lt→ltb, ==_iff,
}
use native.Mathlib.Nat.{mod-eq_of_lt}
use bare_metal_architect.Arena.{size_mod}

-- The memory by its address.
pub record Arena : Type 0 where
  pub capacity : ℕ
  pub allocated : ℕ
  pub memory : ℕ

-- The address is what the library's allocation of the block returns, if it is granted.
unfoldable pub init_arena : Bool → Option ℕ → Outcome Arena
init_arena arena none = exits
init_arena arena (some address) = do
  granted arena
  done (record { capacity = 1024 * 1024; allocated = 0; memory = address })

-- The size with the padding up to a multiple of eight.
unfoldable pub mem_to_alloc : ℕ → ℕ
mem_to_alloc size = if size % 8 == 0 then size else (size + (8 - size % 8)) % size_mod

unfoldable pub alloc_obj : Arena → ℕ → Outcome (Arena × ℕ)
alloc_obj arena size =
    if ltb arena.capacity ((arena.allocated + size) % size_mod)
    then exits
    else done (
      record arena { allocated = (arena.allocated + mem_to_alloc size) % size_mod },
      arena.memory + arena.allocated,
    )

unfoldable pub arena_reset : Arena → Arena
arena_reset arena = record arena { allocated = 0 }

-- The blocks handed out end at a multiple of eight within the capacity, which is one itself.
pub record IsPadded (arena : Arena) : Type 0 where
  pub aligned : arena.allocated % 8 ≡ 0
  pub whole : arena.capacity % 8 ≡ 0
  pub inside : arena.allocated ≤ arena.capacity
  pub small : arena.capacity ≤ 1024 * 1024

-- What a request returns: a block of the size asked for behind those handed out, at a multiple of
-- eight from the start of the memory, and an arena that has not handed out more than it has.
pub record Block (arena : Arena) (size : ℕ) (r : Arena × ℕ) : Type 0 where
  pub padded : IsPadded r.0
  pub same : r.0.capacity ≡ arena.capacity
  pub start : r.1 ≡ arena.memory + arena.allocated
  pub long : arena.allocated + size ≤ r.0.allocated
  pub short : r.0.allocated < arena.allocated + size + 8

padding :
    (size : ℕ)
    → size ≤ 1024 * 1024
    → (mem_to_alloc size % 8 ≡ 0) × (size ≤ mem_to_alloc size) × (mem_to_alloc size < size + 8)
unfolding mem_to_alloc
padding size small = elim (Bool-cases (size % 8 == 0)) [
  | inl full ↦ rw full ((==_iff (size % 8) 0).0 full, omega arith, omega arith)
  | inr over ↦
      let no_wrap : (size + (8 - size % 8)) % size_mod ≡ size + (8 - size % 8) =
        mod-eq_of_lt {n = size + (8 - size % 8)} {m = size_mod} (omega arith) in
      rw (over, no_wrap) (omega arith, omega arith, omega (arith, not_zero over))
]
  where
    not_zero : (size % 8 == 0) ≡ false → size % 8 ≢ 0
    not_zero e h = cc ((==_iff (size % 8) 0).1 h, e)

-- A request whose sum with the capacity does not wrap around, to a padded arena: where there is
-- room for its size the padding has room too, and the block is handed out; else the process ends.
pub alloc_obj-Block :
    (arena : Arena) (size : ℕ)
    → IsPadded arena
    → arena.capacity + size < size_mod
    → (arena.allocated + size ≤ arena.capacity
        → (r : Arena × ℕ) × (alloc_obj arena size ≡ done r) × Block arena size r)
      × (arena.capacity < arena.allocated + size → alloc_obj arena size ≡ exits)
unfolding alloc_obj
alloc_obj-Block arena size h no_wrap =
    let sum : (arena.allocated + size) % size_mod ≡ arena.allocated + size =
      mod-eq_of_lt {n = arena.allocated + size} {m = size_mod} (omega (arith, h.inside)) in
    (
      λ room.
          let (even, most, least) = padding size (omega (arith, h.small)) in
          let total : (arena.allocated + mem_to_alloc size) % size_mod
              ≡ arena.allocated + mem_to_alloc size =
            mod-eq_of_lt {n = arena.allocated + mem_to_alloc size} {m = size_mod}
              (omega (arith, least, h.small)) in
          let fits : ltb arena.capacity (arena.allocated + size) ≡ false = ground arith in
          (
            (
              record arena { allocated = arena.allocated + mem_to_alloc size },
              arena.memory + arena.allocated,
            ),
            rw (sum, fits, total) refl,
            record {
              padded = record {
                aligned = omega (arith, h.aligned, even);
                whole = h.whole;
                inside = omega (arith, h.aligned, h.whole, even, most, least, room);
                small = h.small;
              };
              same = refl;
              start = refl;
              long = omega (arith, most);
              short = omega (arith, least);
            },
          ),
      λ full. rw (sum, lt→ltb arena.capacity (arena.allocated + size) full) refl,
    )
