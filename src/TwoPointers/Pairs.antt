-- ===== src/TwoPointers/Pairs.antt =====
-- The pairs with a sum that find_target finds.
use bare_metal_architect.Prelude.{
  ℕ, zero, suc, ◌+◌, ◌-◌, ◌≤◌, ◌<◌, ◌≡◌, refl, ap, inl, inr, true, false, Option, none, some, List,
  [], ◌∷◌, arith, ltb, Bool-cases, length, get_elem?, ℤ, pos, done, ℕ_discrete, ltb→lt,
}
use bare_metal_architect.Prelude.{
  subst, ◌+ℤ◌, ◌≤ℤ◌, ltb_ℤ, pos_part, neg_part, +ℤ_parts, eq_of_parts,
}
use bare_metal_architect.TwoPointers.{in_int, eq_ℤ, search, find_target}

-- The number at an index, 0 outside of the array.
abbrev pub value : List ℤ → ℕ → ℤ
value [] i = pos 0
value (x ∷ xs) zero = x
value (x ∷ xs) (suc i) = value xs i

value-get_elem? : (xs : List ℤ) (i : ℕ) → i < length xs → get_elem? xs i ≡ some (value xs i)
value-get_elem? [] i lt = absurd (omega arith)
value-get_elem? (x ∷ xs) zero lt = refl
value-get_elem? (x ∷ xs) (suc i) lt = value-get_elem? xs i (omega arith)

abbrev pub IsSorted : List ℤ → Type 0
IsSorted numbers = (i j : ℕ) → i < j → j < length numbers → value numbers i ≤ℤ value numbers j

-- Numbers that are ints, and so are the sums of any two of them.
pub record HasIntSums (numbers : List ℤ) : Type 0 where
  pub ints : (i : ℕ) → i < length numbers → in_int (value numbers i) ≡ true
  pub sums :
      (i j : ℕ) → i < j → j < length numbers → in_int (value numbers i +ℤ value numbers j) ≡ true

-- Two indices in order whose numbers have the sum.
pub record IsPair (numbers : List ℤ) (target : ℤ) (i j : ℕ) : Type 0 where
  pub ordered : i < j
  pub inside : j < length numbers
  pub total : value numbers i +ℤ value numbers j ≡ target

eq_ℤ→eq : (a b : ℤ) → eq_ℤ a b ≡ true → a ≡ b
eq_ℤ→eq a b e = eq_of_parts a b (ground arith)

above :
    (a b : ℤ)
    → ltb_ℤ a b ≡ false
    → eq_ℤ a b ≡ false
    → pos_part b + neg_part a < pos_part a + neg_part b
above a b not_low not_equal = ground arith

-- The answer: a pair, or the proof that there is none from `left` to `right`.
pub data Answers (numbers : List ℤ) (target : ℤ) (left right : ℕ) : Option (ℕ × ℕ) → Type 0 where
  pair : (i j : ℕ) → IsPair numbers target i j → Answers numbers target left right (some (i, j))
  no_pair :
      ((i j : ℕ) → left ≤ i → j ≤ right → IsPair numbers target i j → ⊥)
      → Answers numbers target left right none

module _ (numbers : List ℤ) (target : ℤ) (sorted : IsSorted numbers) where
  sorted_le : (i j : ℕ) → i ≤ j → j < length numbers → value numbers i ≤ℤ value numbers j
  sorted_le i j le lt = elim (ℕ_discrete i j) [
    | yes same ↦ rw same (omega arith)
    | no apart ↦ sorted i j (omega arith) lt
  ]

  -- Where the outer sum is too small, no pair starts at the left end.
  left_too_small :
      (left right j : ℕ)
      → right < length numbers
      → ltb_ℤ (value numbers left +ℤ value numbers right) target ≡ true
      → j ≤ right
      → IsPair numbers target left j
      → ⊥
  left_too_small left right j inside low le p =
      let a = value numbers left in
      let b = value numbers right in
      let c = value numbers j in
      let below =
        ltb→lt (pos_part (a +ℤ b) + neg_part target) (pos_part target + neg_part (a +ℤ b)) low in
      omega (
        arith,
        below,
        +ℤ_parts a b,
        +ℤ_parts a c,
        sorted_le j right le inside,
        ap pos_part p.total,
        ap neg_part p.total,
      )

  right_too_large :
      (left right i : ℕ)
      → right < length numbers
      → ltb_ℤ (value numbers left +ℤ value numbers right) target ≡ false
      → eq_ℤ (value numbers left +ℤ value numbers right) target ≡ false
      → left ≤ i
      → IsPair numbers target i right
      → ⊥
  right_too_large left right i inside not_low not_equal le p =
      let a = value numbers left in
      let b = value numbers right in
      let c = value numbers i in
      omega (
        arith,
        above (a +ℤ b) target not_low not_equal,
        +ℤ_parts a b,
        +ℤ_parts c b,
        sorted_le left i le (omega (arith, p.ordered, p.inside)),
        ap pos_part p.total,
        ap neg_part p.total,
      )

  from_left :
      (left right : ℕ) (r : Option (ℕ × ℕ))
      → right < length numbers
      → ltb_ℤ (value numbers left +ℤ value numbers right) target ≡ true
      → Answers numbers target (suc left) right r
      → Answers numbers target left right r
  from_left left right _ inside low (pair i j p) = pair i j p
  from_left left right _ inside low (no_pair h) = no_pair (λ i j a b p. elim (ℕ_discrete i left) [
    | yes first ↦
        left_too_small left right j inside low b (subst (λ k. IsPair numbers target k j) first p)
    | no later ↦ h i j (omega arith) b p
  ])

  from_right :
      (left right : ℕ) (r : Option (ℕ × ℕ))
      → left < right
      → right < length numbers
      → ltb_ℤ (value numbers left +ℤ value numbers right) target ≡ false
      → eq_ℤ (value numbers left +ℤ value numbers right) target ≡ false
      → Answers numbers target left (right - 1) r
      → Answers numbers target left right r
  from_right left right _ lt inside low equal (pair i j p) = pair i j p
  from_right left right _ lt inside low equal (no_pair h) = no_pair (λ i j a b p.
      elim (ℕ_discrete j right) [
        | yes last ↦
            right_too_large left right i inside low equal a
              (subst (λ k. IsPair numbers target i k) last p)
        | no earlier ↦ h i j a (omega arith) p
      ])

  search-Answers :
      HasIntSums numbers
      → (fuel left right : ℕ) → right < fuel + left
      → 0 < fuel
      → (left < right → right < length numbers)
      → (r : Option (ℕ × ℕ)) × (search fuel numbers target left right ≡ done r)
        × Answers numbers target left right r
  unfolding search
  search-Answers fits zero left right enough positive inside = absurd (omega arith)
  search-Answers fits (suc fuel) left right enough positive inside =
      elim (Bool-cases (ltb left right)) [
        | inr met ↦
            let over : right ≤ left = ground arith in
            (none, rw met refl, no_pair (λ i j a b p. absurd (omega (arith, p.ordered))))
        | inl apart ↦
            let lt = ltb→lt left right apart in
            let at_left = value-get_elem? numbers left (omega (arith, lt, inside lt)) in
            let at_right = value-get_elem? numbers right (inside lt) in
            let int = fits.sums left right lt (inside lt) in
            let a = value numbers left in
            let b = value numbers right in
            elim (Bool-cases (eq_ℤ (a +ℤ b) target)) [
              | inl equal ↦ (
                some (left, right),
                rw (apart, at_left, at_right, int, equal) refl,
                pair left right (record {
                  ordered = lt;
                  inside = inside lt;
                  total = eq_ℤ→eq (a +ℤ b) target equal;
                }),
              )
              | inr not_equal ↦ elim (Bool-cases (ltb_ℤ (a +ℤ b) target)) [
                | inl low ↦
                    let (r, run, answers) =
                      search-Answers fits fuel (suc left) right (omega arith) (omega (arith, lt))
                        (λ more. inside lt) in
                    (
                      r,
                      rw (apart, at_left, at_right, int, not_equal, low) run,
                      from_left left right r (inside lt) low answers,
                    )
                | inr not_low ↦
                    let (r, run, answers) =
                      search-Answers fits fuel left (right - 1) (omega (arith, lt))
                        (omega (arith, lt)) (λ more. omega (arith, inside lt)) in
                    (
                      r,
                      rw (apart, at_left, at_right, int, not_equal, not_low) run,
                      from_right left right r lt (inside lt) not_low not_equal answers,
                    )
              ]
            ]
      ]

-- On sorted numbers and their count, where the numbers and the sum of any two are ints: the loop ends
-- without an overflow, and the answer is a pair of indices whose numbers have the target as their
-- sum, or none where no two indices have one.
pub find_target-Answers :
    (numbers : List ℤ) (target : ℤ)
    → IsSorted numbers
    → HasIntSums numbers
    → (r : Option (ℕ × ℕ)) × (find_target numbers (length numbers) target ≡ done r)
      × Answers numbers target 0 (length numbers) r
unfolding find_target
find_target-Answers numbers target sorted fits =
    let size = length numbers in
    let (r, run, answers) =
      search-Answers numbers target sorted fits (size + 1) 0 (size - 1) (omega arith) (omega arith)
        (λ some_room. omega (arith, some_room)) in
    (r, run, whole r answers)
  where
    whole :
        (r : Option (ℕ × ℕ))
        → Answers numbers target 0 (length numbers - 1) r
        → Answers numbers target 0 (length numbers) r
    whole _ (pair i j p) = pair i j p
    whole _ (no_pair h) = no_pair (λ i j a b p. h i j a (omega (arith, p.inside)) p)
