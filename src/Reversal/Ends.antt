-- ===== src/Reversal/Ends.antt =====
-- A part of an array between two ends, and the swap of the ends.
use bare_metal_architect.Prelude.{
  subst, ℕ, suc, ◌+◌, ◌≡◌, refl, sym, ap, ◌∙◌, some, List, [], ◌∷◌, ◌++◌, length, get_elem?, set,
  length-append, done,
}
use bare_metal_architect.Prelude.{append_assoc, append_nil}
use bare_metal_architect.Arrays.{get_elem?-append, set-append}
use bare_metal_architect.Reversal.{swap}

module _ {A : Type 0} where
  abbrev pub reversed : List A → List A
  reversed [] = []
  reversed (x ∷ xs) = reversed xs ++ (x ∷ [])

  pub reversed-append : (xs ys : List A) → reversed (xs ++ ys) ≡ reversed ys ++ reversed xs
  reversed-append [] ys = sym (append_nil (reversed ys))
  reversed-append (x ∷ xs) ys =
      ap (λ zs. zs ++ (x ∷ [])) (reversed-append xs ys)
      ∙ append_assoc (reversed ys) (reversed xs) (x ∷ [])

  -- A list is empty, of one element, or between two ends.
  pub data Ends : List A → Type 0 where
    nothing : Ends []
    single : (x : A) → Ends (x ∷ [])
    between : (x : A) (middle : List A) (y : A) → Ends (x ∷ (middle ++ (y ∷ [])))

  pub ends : (xs : List A) → Ends xs
  ends [] = nothing
  ends (x ∷ []) = single x
  ends (x ∷ y ∷ rest) = longer x (last y rest)
    where
      Last : List A → Type 0
      Last xs = (middle : List A) × (y : A) × (middle ++ (y ∷ []) ≡ xs)

      last : (y : A) (rest : List A) → Last (y ∷ rest)
      last y [] = ([], y, refl)
      last y (z ∷ rest) = let (middle, w, e) = last z rest in (y ∷ middle, w, ap (◌∷◌ y) e)

      longer : (x : A) {xs : List A} → Last xs → Ends (x ∷ xs)
      longer x (middle, y, e) = subst (λ zs. Ends (x ∷ zs)) e (between x middle y)

  module _ (before middle after : List A) (x y : A) where
    -- The array around the two ends.
    abbrev pub whole : List A
    whole = before ++ ((x ∷ (middle ++ (y ∷ []))) ++ after)

    abbrev pub right_end : ℕ
    right_end = length before + suc (length middle)

    as_left : whole ≡ before ++ (x ∷ (middle ++ (y ∷ after)))
    as_left = ap (λ zs. before ++ (x ∷ zs)) (append_assoc middle (y ∷ []) after)

    as_right :
        (z : A) → before ++ (z ∷ (middle ++ (y ∷ after))) ≡ (before ++ (z ∷ middle)) ++ (y ∷ after)
    as_right z = sym (append_assoc before (z ∷ middle) (y ∷ after))

    right_place : (z : A) → length (before ++ (z ∷ middle)) ≡ right_end
    right_place z = length-append before (z ∷ middle)

    left_read : get_elem? whole (length before) ≡ some x
    left_read =
        ap (λ zs. get_elem? zs (length before)) as_left
        ∙ get_elem?-append before x (middle ++ (y ∷ after))

    right_read : get_elem? whole right_end ≡ some y
    right_read =
        ap (λ zs. get_elem? zs right_end) (as_left ∙ as_right x)
        ∙ ap (get_elem? ((before ++ (x ∷ middle)) ++ (y ∷ after))) (sym (right_place x))
        ∙ get_elem?-append (before ++ (x ∷ middle)) y after

    write_left : set whole (length before) y ≡ before ++ (y ∷ (middle ++ (y ∷ after)))
    write_left =
        ap (λ zs. set zs (length before) y) as_left ∙ set-append before x (middle ++ (y ∷ after)) y

    write_right :
        set (before ++ (y ∷ (middle ++ (y ∷ after)))) right_end x
        ≡ (before ++ (y ∷ middle)) ++ (x ∷ after)
    write_right =
        ap (λ zs. set zs right_end x) (as_right y)
        ∙ ap (λ k. set ((before ++ (y ∷ middle)) ++ (y ∷ after)) k x) (sym (right_place y))
        ∙ set-append (before ++ (y ∷ middle)) y after x

    -- The ends have changed their places, and the part between them stands between the new ones.
    pub swap_lem :
        swap whole (length before) right_end
        ≡ done ((before ++ (y ∷ [])) ++ (middle ++ ((x ∷ []) ++ after)))
    unfolding swap
    swap_lem =
        rw (left_read, right_read, write_left, write_right)
          (ap done (
            append_assoc before (y ∷ middle) (x ∷ after)
            ∙ sym (append_assoc before (y ∷ []) (middle ++ (x ∷ after)))))

    -- What the rest of a loop makes of it.
    pub turned :
        (before ++ (y ∷ [])) ++ (reversed middle ++ ((x ∷ []) ++ after))
        ≡ before ++ (reversed (x ∷ (middle ++ (y ∷ []))) ++ after)
    turned =
        append_assoc before (y ∷ []) (reversed middle ++ (x ∷ after))
        ∙ ap (λ zs. before ++ (y ∷ zs)) (sym (append_assoc (reversed middle) (x ∷ []) after))
        ∙ ap (λ zs. before ++ ((zs ++ (x ∷ [])) ++ after)) (sym (reversed-append middle (y ∷ [])))
