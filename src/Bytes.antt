-- ===== src/Bytes.antt =====
-- Bytes: checks of every value, and the macros BIT and the nibble macros that rpg_inventory.c
-- (ITEM_D_COMBINE, ITEM_D_EXTRACT_LEFT, ITEM_D_EXTRACT_RIGHT) and cargo.c (MAT_COMBINE,
-- MAT_EXTRACT_LEFT, MAT_EXTRACT_RIGHT) share.
use Prim.Native.Nat.{bit_and, bit_or, ◌^◌}
use bare_metal_architect.Prelude.{
  ℕ_discrete, ℕ, zero, suc, ◌*◌, ◌/◌, ◌<◌, ◌≡◌, refl, Bool, true, ◌&&◌, not, arith, ltb, ◌==◌,
}

-- A test at 0, 1, …, n - 1.
unfoldable pub for_each : (ℕ → Bool) → ℕ → Bool
for_each test zero = true
for_each test (suc k) = for_each test k && test k

pub for_each→at :
    (test : ℕ → Bool) (n : ℕ) → for_each test n ≡ true → (i : ℕ) → i < n → test i ≡ true
unfolding for_each
for_each→at test zero passed i small = elim small [ ]
for_each→at test (suc k) passed i small = elim (ℕ_discrete i k) [
  | yes last ↦ rw last (ground arith)
  | no earlier ↦ for_each→at test k (ground arith) i (omega arith)
]

-- `1 << x`.
abbrev pub bit : ℕ → ℕ
bit x = 2 ^ x

-- `(flags & BIT(x)) != 0`.
abbrev pub has_bit : ℕ → ℕ → Bool
has_bit flags x = not (bit_and flags (bit x) == 0)

-- ((uint8_t)left << 4) & 0xF0 | (uint8_t)right & 0x0F.
unfoldable pub combine : ℕ → ℕ → ℕ
combine left right = bit_or (bit_and (left * 16) 0xF0) (bit_and right 0x0F)

unfoldable pub extract_left : ℕ → ℕ
extract_left val = bit_and val 0xF0 / 16

unfoldable pub extract_right : ℕ → ℕ
extract_right val = bit_and val 0x0F

abbrev packs : ℕ → ℕ → Bool
packs l r =
    extract_left (combine l r) == l && extract_right (combine l r) == r && ltb (combine l r) 256

combine_table : for_each (λ l. for_each (packs l) 16) 16 ≡ true
unfolding for_each combine extract_left extract_right
combine_table = refl

-- Two values of four bits are packed into a byte, and come out of it again.
pub extract-combine :
    (l r : ℕ)
    → l < 16
    → r < 16
    → (extract_left (combine l r) ≡ l) × (extract_right (combine l r) ≡ r) × (combine l r < 256)
extract-combine l r hl hr = ground (
  arith,
  for_each→at (packs l) 16 (for_each→at (λ i. for_each (packs i) 16) 16 combine_table l hl) r hr,
)
