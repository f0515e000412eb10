-- ===== src/Arena/Blocks.antt =====
-- Where the blocks lie that an arena hands out.
use bare_metal_architect.Prelude.{
  ℕ, ◌+◌, ◌-◌, ◌%◌, ◌≤◌, ◌<◌, ◌≡◌, refl, ◌⊎◌, inl, inr, true, false, List, [], ◌∷◌, arith, ltb, All,
  done, exits, dec_lt, lt→ltb,
}
use native.Mathlib.Nat.{mod-eq_of_lt, mod-eq-sub-mod}
use bare_metal_architect.Arena.{Arena, size_mod, arena_alloc, alloc_all}

-- The blocks lie one behind the other from the address on, and end at the other.
abbrev pub Tiles : ℕ → List (ℕ × ℕ) → ℕ → Type 0
Tiles from [] to = from ≡ to
Tiles from (block ∷ rest) to = (block.0 ≡ from) × Tiles (from + block.1) rest to

abbrev pub sum : List ℕ → ℕ
sum [] = 0
sum (n ∷ rest) = n + sum rest

-- The requests were granted, with blocks that fill the next part of the arena.
pub record Granted (a : Arena) (sizes : List ℕ) : Type 0 where
  pub after : Arena
  pub blocks : List (ℕ × ℕ)
  pub returned : alloc_all a sizes ≡ done (after, blocks)
  pub tiles : Tiles (a.memory_block + a.offset) blocks (a.memory_block + after.offset)
  pub inside : after.offset ≤ a.total_size

-- Requests to an arena, none of which wraps around with the size of the arena: where all together
-- have room they are granted, with blocks one behind the other from the free part on, inside the
-- arena; where not, the process ends.
pub alloc_all-Granted :
    (a : Arena) (sizes : List ℕ)
    → a.offset ≤ a.total_size
    → All (λ n. a.total_size + n < size_mod) sizes
    → ((a.offset + sum sizes ≤ a.total_size) × Granted a sizes)
      ⊎ ((a.total_size < a.offset + sum sizes) × (alloc_all a sizes ≡ exits))
unfolding alloc_all arena_alloc
alloc_all-Granted a [] fits all =
    inl
      (omega arith, record { after = a; blocks = []; returned = refl; tiles = refl; inside = fits })
alloc_all-Granted a (n ∷ rest) fits all =
    let plain : (a.offset + n) % size_mod ≡ a.offset + n =
      mod-eq_of_lt {n = a.offset + n} {m = size_mod} (omega (arith, fits, all.0)) in
    elim (dec_lt a.total_size (a.offset + n)) [
      | yes over ↦
          let refused : ltb a.total_size (a.offset + n) ≡ true =
            lt→ltb a.total_size (a.offset + n) over in
          inr (omega (arith, over), rw (plain, refused) refl)
      | no room ↦
          let granted_one : ltb a.total_size (a.offset + n) ≡ false = ground arith in
          elim (alloc_all-Granted (record a { offset = a.offset + n }) rest (omega arith) all.1) [
            | inl (le, g) ↦ inl (
              omega arith,
              record {
                after = g.after;
                blocks = (a.memory_block + a.offset, n) ∷ g.blocks;
                returned = rw (plain, granted_one, g.returned) refl;
                tiles = (refl, rw (shift a.memory_block a.offset n) (g.tiles));
                inside = g.inside;
              },
            )
            | inr (gt, e) ↦ inr (omega arith, rw (plain, granted_one, e) refl)
          ]
    ]
  where
    shift : (b o n : ℕ) → (b + o) + n ≡ b + (o + n)
    shift b o n = omega arith

-- A request of 2 ^ 64 - k bytes from an arena that has handed out at least k: the sum wraps around,
-- so that the request is granted and the arena goes back by k bytes, over blocks in use.
pub arena_alloc-wraps :
    (a : Arena) (k : ℕ)
    → a.offset ≤ a.total_size
    → a.total_size < size_mod
    → 0 < k
    → k ≤ a.offset
    → arena_alloc a (size_mod - k)
      ≡ done (record a { offset = a.offset - k }, a.memory_block + a.offset)
unfolding arena_alloc
arena_alloc-wraps a k fits small positive le =
    let down : (a.offset + (size_mod - k)) % size_mod
        ≡ (a.offset + (size_mod - k) - size_mod) % size_mod =
      mod-eq-sub-mod (omega arith) in
    let same : a.offset + (size_mod - k) - size_mod ≡ a.offset - k = omega arith in
    let rest : (a.offset - k) % size_mod ≡ a.offset - k = mod-eq_of_lt (omega arith) in
    let granted_it : ltb a.total_size (a.offset - k) ≡ false = ground arith in
    rw (down, same, rest, granted_it) refl
