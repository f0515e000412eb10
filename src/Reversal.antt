-- ===== src/Reversal.antt =====
-- The reversals in place: reverse_chunk of problems/phrase_flipper.c, reverse_string and
-- reverse_string_p of problems/strip_vowels.c and reverse_array of problems/reverse_list.c.
pub mod Ends
pub mod Loops
mod Tests
use bare_metal_architect.Prelude.{
  ℕ, zero, suc, ◌+◌, ◌-◌, ◌*◌, ◌/◌, ◌%◌, ◌^◌, ◌≤◌, ◌<◌, ◌≡◌, refl, sym, ap, ◌∙◌, ◌≢◌, ◌↔◌, ◌⊎◌, inl,
  inr, Bool, true, false, ◌&&◌, ◌||◌, not, Option, none, some, List, [], ◌∷◌, ◌++◌, arith, ltb, leb,
  ◌==◌, if◌then◌else◌, Bool-cases, Option-cases, length, get_elem?, get_elem?-some, set, replicate,
  take, drop, All, length-append, length-set, length-replicate, get_elem?-set_self,
  get_elem?-set_ne, get_elem?-replicate, ℤ, pos, negsuc, to_uint8, Outcome, done, exits, fault,
  ◌>>=◌, ◌>>◌, or_fault, index, index_int, granted, ℕ_discrete, dec_lt, ltb→lt, lt→ltb, leb→le,
  ==_iff,
}

module _ {A : Type 0} where
  -- Two elements change their places.
  unfoldable pub swap : List A → ℕ → ℕ → Outcome (List A)
  swap xs i j = do a ← index xs i; b ← index xs j; done (set (set xs i b) j a)

  -- The loop of `reverse_chunk` and of `reverse_string_p`, on fuel.
  unfoldable pub reverse_chunk : ℕ → List A → ℕ → ℕ → Outcome (List A)
  reverse_chunk zero xs left right = fault
  reverse_chunk (suc fuel) xs left right =
      if ltb left right
      then (do swapped ← swap xs left right; reverse_chunk fuel swapped (suc left) (right - 1))
      else done xs

  -- A string that is empty stays as it is.
  unfoldable pub reverse_string_p : List A → Outcome (List A)
  reverse_string_p str =
      if length str == 0 then done str else reverse_chunk (length str + 1) str 0 (length str - 1)

  -- The loop of `reverse_string`, with the indices below `i` and `i` itself to run through.
  unfoldable pub from_both : ℕ → List A → ℕ → ℕ → Outcome (List A)
  from_both zero str count half = done str
  from_both (suc i) str count half =
      if count == half
      then done str
      else (do swapped ← swap str count (suc i); from_both i swapped (suc count) half)

  unfoldable pub reverse_string : List A → Outcome (List A)
  reverse_string str =
      if length str == 0 then done str else from_both (length str - 1) str 0 (length str / 2)

  -- The loop of `reverse_array`, with `n` more iterations from `i` on.
  unfoldable pub iterate : ℕ → List A → ℕ → ℕ → Outcome (List A)
  iterate zero arr i rewind = done arr
  iterate (suc n) arr i rewind = do
    swapped ← swap arr i rewind
    iterate n swapped (suc i) (rewind - 1)

  unfoldable pub reverse_array : List A → ℕ → Outcome (List A)
  reverse_array arr size = iterate (size / 2) arr 0 (size - 1)
