-- ===== src/Reversal/Loops.antt =====
-- The loops of the four functions.
use bare_metal_architect.Prelude.{
  ℕ, zero, suc, ◌+◌, ◌-◌, ◌/◌, ◌<◌, ◌≡◌, refl, sym, ap, ◌∙◌, ◌≢◌, true, false, List, [], ◌∷◌, ◌++◌,
  arith, ltb, ◌==◌, length, length-append, Outcome, done, ◌>>=◌,
}
use bare_metal_architect.Prelude.{append_nil}
use bare_metal_architect.Reversal.{
  swap, reverse_chunk, reverse_string_p, from_both, reverse_string, iterate, reverse_array,
}
use bare_metal_architect.Reversal.Ends.{
  reversed, Ends, nothing, single, between, ends, whole, right_end, swap_lem, turned,
}

module _ {A : Type 0} where
  -- The part behind a swap, and what the loop makes of it, give the whole part turned round.
  around :
      (before middle after : List A) (x y : A) (rest : List A → ℕ → Outcome (List A))
      → rest ((before ++ (y ∷ [])) ++ (middle ++ ((x ∷ []) ++ after))) (length (before ++ (y ∷ [])))
        ≡ done ((before ++ (y ∷ [])) ++ (reversed middle ++ ((x ∷ []) ++ after)))
      → (swap (whole before middle after x y) (length before) (right_end before middle after x y)
          >>= λ swapped. rest swapped (suc (length before)))
        ≡ done (before ++ (reversed (x ∷ (middle ++ (y ∷ []))) ++ after))
  around before middle after x y rest h =
      let next : suc (length before) ≡ length (before ++ (y ∷ [])) =
        omega (arith, length-append before (y ∷ [])) in
      rw (swap_lem before middle after x y) (
        ap (rest ((before ++ (y ∷ [])) ++ (middle ++ ((x ∷ []) ++ after)))) next
        ∙ h
        ∙ ap done (turned before middle after x y))

  -- The loop with a pointer at each end, from the part between them.
  chunk_lem :
      (fuel : ℕ) (before part after : List A) (right : ℕ)
      → length part < fuel
      → length before + length part ≡ right + 1
      → Ends part
      → reverse_chunk fuel (before ++ (part ++ after)) (length before) right
        ≡ done (before ++ (reversed part ++ after))
  unfolding reverse_chunk
  chunk_lem zero before part after right enough e _ = absurd (omega arith)
  chunk_lem (suc fuel) before _ after right enough e nothing =
      let met : ltb (length before) right ≡ false = ground arith in rw met refl
  chunk_lem (suc fuel) before _ after right enough e (single x) =
      let met : ltb (length before) right ≡ false = ground arith in rw met refl
  chunk_lem (suc fuel) before _ after right enough e (between x middle y) =
      let size = length-append middle (y ∷ []) in
      let place : right ≡ right_end before middle after x y = omega (arith, e, size) in
      let apart : ltb (length before) (right_end before middle after x y) ≡ true = ground arith in
      rw (place, apart)
        (around before middle after x y
          (λ swapped left. reverse_chunk fuel swapped left (right_end before middle after x y - 1))
          (chunk_lem fuel (before ++ (y ∷ [])) middle ((x ∷ []) ++ after)
            (right_end before middle after x y - 1) (omega (arith, enough, size))
            (omega (arith, length-append before (y ∷ []))) (ends middle)))

  iterate_lem :
      (n : ℕ) (before part after : List A) (right : ℕ)
      → n ≡ length part / 2
      → length before + length part ≡ right + 1
      → Ends part
      → iterate n (before ++ (part ++ after)) (length before) right
        ≡ done (before ++ (reversed part ++ after))
  unfolding iterate
  iterate_lem zero before _ after right half e nothing = refl
  iterate_lem zero before _ after right half e (single x) = refl
  iterate_lem zero before _ after right half e (between x middle y) =
      absurd (omega (arith, half, length-append middle (y ∷ [])))
  iterate_lem (suc n) before _ after right half e nothing = absurd (omega (arith, half))
  iterate_lem (suc n) before _ after right half e (single x) = absurd (omega (arith, half))
  iterate_lem (suc n) before _ after right half e (between x middle y) =
      let size = length-append middle (y ∷ []) in
      let place : right ≡ right_end before middle after x y = omega (arith, e, size) in
      rw place (
        around before middle after x y
          (λ swapped left. iterate n swapped left (right_end before middle after x y - 1))
          (iterate_lem n (before ++ (y ∷ [])) middle ((x ∷ []) ++ after)
            (right_end before middle after x y - 1) (omega (arith, half, size))
            (omega (arith, length-append before (y ∷ []))) (ends middle)))

  from_both_lem :
      (i : ℕ) (before part after : List A) (half : ℕ)
      → half ≡ length before + length part / 2
      → length before + length part ≡ i + 1
      → Ends part
      → from_both i (before ++ (part ++ after)) (length before) half
        ≡ done (before ++ (reversed part ++ after))
  unfolding from_both
  from_both_lem zero before _ after half h e nothing = refl
  from_both_lem zero before _ after half h e (single x) = refl
  from_both_lem zero before _ after half h e (between x middle y) =
      absurd (omega (arith, e, length-append middle (y ∷ [])))
  from_both_lem (suc i) before _ after half h e nothing =
      let met : (length before == half) ≡ true = ground arith in rw met refl
  from_both_lem (suc i) before _ after half h e (single x) =
      let met : (length before == half) ≡ true = ground arith in rw met refl
  from_both_lem (suc i) before _ after half h e (between x middle y) =
      let size = length-append middle (y ∷ []) in
      let place : suc i ≡ right_end before middle after x y = omega (arith, e, size) in
      let more : length before ≢ half = omega (arith, h, size) in
      let apart : (length before == half) ≡ false = ground arith in
      rw (apart, place)
        (around before middle after x y (λ swapped left. from_both i swapped left half)
          (from_both_lem i (before ++ (y ∷ [])) middle ((x ∷ []) ++ after) half
            (omega (arith, h, size, length-append before (y ∷ [])))
            (omega (arith, e, size, length-append before (y ∷ []))) (ends middle)))

  -- A loop over the whole array.
  on_all :
      (loop : List A → Outcome (List A)) (xs : List A)
      → loop (xs ++ []) ≡ done (reversed xs ++ [])
      → loop xs ≡ done (reversed xs)
  on_all loop xs h = ap loop (sym (append_nil xs)) ∙ h ∙ ap done (append_nil (reversed xs))

  reverse_string_p_lem : (xs : List A) → reverse_string_p xs ≡ done (reversed xs)
  unfolding reverse_string_p
  reverse_string_p_lem [] = refl
  reverse_string_p_lem (x ∷ xs) =
      let some_left : (suc (length xs) == 0) ≡ false = ground arith in
      rw some_left (
        on_all (λ zs. reverse_chunk (suc (length xs) + 1) zs 0 (suc (length xs) - 1)) (x ∷ xs)
          (chunk_lem (suc (length xs) + 1) [] (x ∷ xs) [] (suc (length xs) - 1) (omega arith)
            (omega arith) (ends (x ∷ xs))))

  reverse_string_lem : (xs : List A) → reverse_string xs ≡ done (reversed xs)
  unfolding reverse_string
  reverse_string_lem [] = refl
  reverse_string_lem (x ∷ xs) =
      let some_left : (suc (length xs) == 0) ≡ false = ground arith in
      rw some_left (
        on_all (λ zs. from_both (suc (length xs) - 1) zs 0 (suc (length xs) / 2)) (x ∷ xs)
          (from_both_lem (suc (length xs) - 1) [] (x ∷ xs) [] (suc (length xs) / 2) (omega arith)
            (omega arith) (ends (x ∷ xs))))

  reverse_array_lem : (xs : List A) → reverse_array xs (length xs) ≡ done (reversed xs)
  unfolding reverse_array iterate
  reverse_array_lem [] = refl
  reverse_array_lem (x ∷ xs) =
      on_all (λ zs. iterate (suc (length xs) / 2) zs 0 (suc (length xs) - 1)) (x ∷ xs)
        (iterate_lem (suc (length xs) / 2) [] (x ∷ xs) [] (suc (length xs) - 1) (omega arith)
          (omega arith) (ends (x ∷ xs)))

  -- The reversals of a string or an array agree: all three give it turned round, an empty one
  -- included.
  pub reversals_agree :
      (xs : List A)
      → (reverse_string_p xs ≡ done (reversed xs))
        × (reverse_string xs ≡ done (reversed xs))
        × (reverse_array xs (length xs) ≡ done (reversed xs))
  reversals_agree xs = (reverse_string_p_lem xs, reverse_string_lem xs, reverse_array_lem xs)

  -- reverse_chunk turns the part between its two pointers round, on fuel of more than the length of
  -- the part, and leaves what stands before and behind it.
  pub reverse_chunk_lem :
      (before part after : List A) (right : ℕ)
      → length before + length part ≡ right + 1
      → reverse_chunk (length part + 1) (before ++ (part ++ after)) (length before) right
        ≡ done (before ++ (reversed part ++ after))
  reverse_chunk_lem before part after right e =
      chunk_lem (length part + 1) before part after right (omega arith) e (ends part)
