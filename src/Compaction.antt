-- ===== src/Compaction.antt =====
-- The loops that keep some elements of an array in place, with a second index for the writes:
-- move_zeroes of problems/zero-gravity.c, strip_vowels of problems/strip_vowels.c and
-- remove_duplicates of problems/rem-array-duplicates.c.
pub mod Window
pub mod Filters
pub mod Runs
mod Tests
use bare_metal_architect.Prelude.{
  ℕ, zero, suc, ◌+◌, ◌-◌, ◌*◌, ◌/◌, ◌%◌, ◌^◌, ◌≤◌, ◌<◌, ◌≡◌, refl, sym, ap, ◌∙◌, ◌≢◌, ◌↔◌, ◌⊎◌, inl,
  inr, Bool, true, false, ◌&&◌, ◌||◌, not, Option, none, some, List, [], ◌∷◌, ◌++◌, arith, ltb, leb,
  ◌==◌, if◌then◌else◌, Bool-cases, Option-cases, length, get_elem?, get_elem?-some, set, replicate,
  take, drop, All, length-append, length-set, length-replicate, get_elem?-set_self,
  get_elem?-set_ne, get_elem?-replicate, ℤ, pos, negsuc, to_uint8, Outcome, done, exits, fault,
  ◌>>=◌, ◌>>◌, or_fault, index, index_int, granted, ℕ_discrete, dec_lt, ltb→lt, lt→ltb, leb→le,
  ==_iff,
}
use bare_metal_architect.Prelude.{ltb_ℤ, leb_ℤ, to_uint8}
use bare_metal_architect.Text.{Text, codes}

-- The value of an int is 0.
abbrev pub is_zero : ℤ → Bool
is_zero (pos n) = n == 0
is_zero (negsuc n) = false

-- A write of the element that was read, where it is kept, with the array and the index after it.
abbrev pub write_if {ℓ} : {A : Type ℓ} → Bool → List A → ℕ → A → Outcome (List A × ℕ)
write_if false nums sw x = done (nums, sw)
write_if true nums sw x = do _ ← index nums sw; done (set nums sw x, suc sw)

-- The first loop of `move_zeroes` and the loop of `strip_vowels`, with the test for what is left
-- out, and with `n` elements from `fs` on to read.
unfoldable pub gather {ℓ} : {A : Type ℓ} → (A → Bool) → List A → ℕ → ℕ → ℕ → Outcome (List A × ℕ)
gather left_out nums zero fs sw = done (nums, sw)
gather left_out nums (suc n) fs sw = do
  x ← index nums fs
  r ← write_if (not (left_out x)) nums sw x
  gather left_out r.0 n (suc fs) r.1

-- The second loop, with `n` elements from `i` on to set.
unfoldable pub fill_zeroes : List ℤ → ℕ → ℕ → Outcome (List ℤ)
fill_zeroes nums zero i = done nums
fill_zeroes nums (suc n) i = do _ ← index nums i; fill_zeroes (set nums i (pos 0)) n (suc i)

unfoldable pub move_zeroes : List ℤ → ℕ → Outcome (List ℤ)
move_zeroes nums size = do r ← gather is_zero nums size 0 0; fill_zeroes r.0 (size - r.1) r.1

-- A byte is one of `aAeEiIoOuU`.
abbrev pub is_vowel : ℕ → Bool
is_vowel c =
    (c == 97 || c == 65)
    || (c == 101 || c == 69)
    || (c == 105 || c == 73)
    || (c == 111 || c == 79)
    || (c == 117 || c == 85)

-- The string up to the NUL that is written behind the last byte kept.
unfoldable pub strip_vowels : Text → Outcome Text
strip_vowels str = do r ← gather is_vowel str (length str) 0 0; done (take r.1 r.0)

-- `a == b` on ints.
abbrev pub eq_ℤ : ℤ → ℤ → Bool
eq_ℤ a b = leb_ℤ a b && leb_ℤ b a

-- The loop of `remove_duplicates`, with `n` elements from `fs` on to read; `sw` is one less than the
-- index to write at.
unfoldable pub unique : List ℤ → ℕ → ℕ → ℕ → Outcome (List ℤ × ℕ)
unique nums zero fs sw = done (nums, sw)
unique nums (suc n) fs sw = do
  x ← index nums fs
  y ← index nums sw
  r ← write_if (not (eq_ℤ x y)) nums (suc sw) x
  unique r.0 n (suc fs) (r.1 - 1)

-- The array and the count that it returns.
unfoldable pub remove_duplicates : List ℤ → ℕ → Outcome (List ℤ × ℕ)
remove_duplicates nums size = do r ← unique nums (size - 1) 1 0; done (r.0, r.1 + 1)
