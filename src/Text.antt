-- ===== src/Text.antt =====
-- C strings: the bytes before the terminating NUL, `strcmp` against 0, and the hash function that
-- hash-table.c, banking.c, rpg_inventory.c and cargo.c each have a copy of.
use Prim.Native.Char.{code}
use native.Mathlib.Nat.{mod-add-mod, mod-eq_of_lt, mod-lt, add_assoc, zero-add}
use Prim.Native.String.{String}
use bare_metal_architect.Prelude.{
  to_uint8, ap, ℕ, zero, suc, ◌+◌, ◌%◌, ◌-◌, ◌≤◌, ◌<◌, neg_ℕ, negsuc, ◌≡◌, refl, ◌↔◌, Bool, true,
  false, ◌&&◌, List, [], ◌∷◌, arith, ◌==◌, All, ℤ, pos, ◌+ℤ◌, schar, Outcome, done, rem, ◌>>=◌,
}

abbrev pub Text : Type 0
Text = List ℕ

-- The bytes of an ASCII literal.
abbrev pub codes : String → Text
codes String.[] = []
codes (String.◌∷◌ c s) = code c ∷ codes s

-- `strcmp(a, b) == 0`.
unfoldable pub str_eq : Text → Text → Bool
str_eq [] [] = true
str_eq [] (b ∷ bs) = false
str_eq (a ∷ as') [] = false
str_eq (a ∷ as') (b ∷ bs) = a == b && str_eq as' bs

pub str_eq_iff : (a b : Text) → (str_eq a b ≡ true) ↔ (a ≡ b)
unfolding str_eq
str_eq_iff [] [] = ground arith
str_eq_iff [] (b ∷ bs) = ground arith
str_eq_iff (a ∷ as') [] = ground arith
str_eq_iff (a ∷ as') (b ∷ bs) = ground (arith, str_eq_iff as' bs)

pub str_eq_refl : (a : Text) → str_eq a a ≡ true
str_eq_refl a = (str_eq_iff a a).1 refl

abbrev pub IsAscii : Text → Type 0
IsAscii = All (λ c. c < 128)

-- `hash = (hash + *key) % capacity`, character by character.
hash_from : ℤ → Text → ℕ → Outcome ℤ
hash_from h [] cap = done h
hash_from h (c ∷ key) cap = do h' ← rem (h +ℤ schar c) cap; hash_from h' key cap

unfoldable pub hash_function : Text → ℕ → Outcome ℤ
unfolding hash_from ◌+ℤ◌
hash_function key cap = hash_from (pos 0) key cap

abbrev pub sum : List ℕ → ℕ
sum [] = 0
sum (x ∷ xs) = x + sum xs

hash_step :
    (h c cap : ℕ) → c < 128 → rem (pos h +ℤ schar c) (suc cap) ≡ done (pos ((h + c) % suc cap))
unfolding ◌+ℤ◌
hash_step h c cap lt = ground arith

hash_from-eq-sum :
    (h : ℕ) (key : Text) (cap : ℕ)
    → IsAscii key
    → h < suc cap
    → hash_from (pos h) key (suc cap) ≡ done (pos ((h + sum key) % suc cap))
unfolding hash_from
hash_from-eq-sum h [] cap a lt =
    ground (arith, mod-eq_of_lt {n = h + 0} {m = suc cap} (omega arith))
hash_from-eq-sum h (c ∷ key) cap a lt = rw (
  hash_step h c cap a.0,
  hash_from-eq-sum ((h + c) % suc cap) key cap a.1 (mod-lt _ (omega arith)),
  mod-add-mod (h + c) (suc cap) (sum key),
  add_assoc h c (sum key),
)

-- On an ASCII key and a positive capacity the hash is the sum of the characters modulo the
-- capacity: in range, and never a fault.
pub hash_function-eq-sum :
    (key : Text) (cap : ℕ)
    → IsAscii key
    → 0 < cap
    → hash_function key cap ≡ done (pos (sum key % cap))
unfolding hash_function
hash_function-eq-sum key zero a lt = elim lt [ ]
hash_function-eq-sum key (suc n) a lt = rw (hash_from-eq-sum 0 key n a (omega arith), zero-add)

-- A byte from 128 on is a negative `char`, and so is the remainder.
pub hash_function-negative :
    (c n : ℕ)
    → 128 ≤ c
    → c < 256
    → hash_function (c ∷ []) (suc n) ≡ done (neg_ℕ ((256 - c) % suc n))
unfolding hash_function
hash_function-negative c n lo hi =
    let e : pos 0 +ℤ schar c ≡ negsuc (255 - c) = ground arith in
    rw e (ap (λ k. done (neg_ℕ (k % suc n))) (omega arith))

-- The copies that return a `uint8_t`.
unfoldable pub hash_uint8 : Text → ℕ → Outcome ℕ
hash_uint8 key cap = do h ← hash_function key cap; done (to_uint8 h)

pub hash_uint8-eq-sum :
    (key : Text) (cap : ℕ)
    → IsAscii key
    → 0 < cap
    → cap ≤ 256
    → hash_uint8 key cap ≡ done (sum key % cap)
unfolding hash_uint8
hash_uint8-eq-sum key cap a lt le =
    rw (hash_function-eq-sum key cap a lt)
      (ground (arith, mod-lt (sum key) lt, mod-eq_of_lt {n = sum key % cap} {m = 256}))
