-- ===== src/Arena/Tests.antt =====
-- An arena of 64 bytes, and a padded one of 1024.
use bare_metal_architect.Prelude.{
  ℕ, ◌+◌, ◌≤◌, ◌<◌, ◌≡◌, refl, ◌⊎◌, true, some, List, [], ◌∷◌, arith, done, exits, ◌>>=◌,
}
use bare_metal_architect.Arena.{
  Arena, check_memory_alloc, init_arena, arena_alloc, arena_reset, alloc_all,
}
use bare_metal_architect.Arena.Padded
use bare_metal_architect.Arena.Padded.{alloc_obj, mem_to_alloc, IsPadded, Block, alloc_obj-Block}
use bare_metal_architect.Arena.Blocks.{Granted, sum, alloc_all-Granted}

abbrev arena : ℕ → Arena
arena offset = record { memory_block = 4096; total_size = 64; offset = offset }

blocks_of :
    (init_arena (some 4096) true 64 >>= λ a. alloc_all a (16 ∷ 32 ∷ []))
    ≡ done (arena 48, (4096, 16) ∷ (4112, 32) ∷ [])
unfolding init_arena check_memory_alloc alloc_all arena_alloc
blocks_of = refl

empties : arena_reset (arena 48) ≡ arena 0
unfolding arena_reset
empties = refl

abbrev sizes : List ℕ
sizes = 16 ∷ 32 ∷ []

alloc_all-Granted_example :
    (((arena 8).offset + sum sizes ≤ 64) × Granted (arena 8) sizes)
    ⊎ ((64 < (arena 8).offset + sum sizes) × (alloc_all (arena 8) sizes ≡ exits))
alloc_all-Granted_example =
    alloc_all-Granted (arena 8) sizes (omega arith) (omega arith, (omega arith, tt))

-- 104 bytes of the memory are handed out.
abbrev padded : Padded.Arena
padded = record { capacity = 1024; allocated = 104; memory = 4096 }

padded-IsPadded : IsPadded padded
padded-IsPadded = record { aligned = refl; whole = refl; inside = omega arith; small = omega arith }

thirteen_bytes : (alloc_obj padded 13 >>= λ r. done (r.0.allocated)) ≡ done 120
unfolding alloc_obj mem_to_alloc
thirteen_bytes = refl

alloc_obj-Block_example :
    (padded.allocated + 13 ≤ 1024
      → (r : Padded.Arena × ℕ) × (alloc_obj padded 13 ≡ done r) × Block padded 13 r)
    × (1024 < padded.allocated + 13 → alloc_obj padded 13 ≡ exits)
alloc_obj-Block_example = alloc_obj-Block padded 13 padded-IsPadded (omega arith)
