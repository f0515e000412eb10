-- ===== src/TwoPointers/Areas.antt =====
-- The area that max_area finds.
use bare_metal_architect.Prelude.{
  lt→ltb, ◌^◌, min, ℕ, zero, suc, ◌+◌, ◌-◌, ◌*◌, ◌≤◌, ◌<◌, ◌≡◌, refl, ◌∙◌, ◌⊎◌, inl, inr, false,
  some, List, [], ◌∷◌, arith, ltb, if◌then◌else◌, Bool-cases, length, get_elem?, done, ℕ_discrete,
  ltb→lt,
}
use native.Mathlib.Nat.{mul-le-mul}
use bare_metal_architect.TwoPointers.{
  calculate_distance, calculate_water_height, calculate_area, widest, max_area,
}

-- The height at an index, 0 outside of the array.
abbrev pub height : List ℕ → ℕ → ℕ
height [] i = 0
height (x ∷ xs) zero = x
height (x ∷ xs) (suc i) = height xs i

height-get_elem? : (xs : List ℕ) (i : ℕ) → i < length xs → get_elem? xs i ≡ some (height xs i)
height-get_elem? [] i lt = absurd (omega arith)
height-get_elem? (x ∷ xs) zero lt = refl
height-get_elem? (x ∷ xs) (suc i) lt = height-get_elem? xs i (omega arith)

-- The water between two walls.
abbrev pub area : List ℕ → ℕ → ℕ → ℕ
area heights i j = min (height heights i) (height heights j) * (j - i)

-- Heights that are ints, as many as an `int` counts, with water between any two of them that an
-- `int` holds.
pub record HasIntAreas (heights : List ℕ) : Type 0 where
  pub ints : (i : ℕ) → i < length heights → height heights i < 2 ^ 31
  pub count : length heights < 2 ^ 31
  pub products : (i j : ℕ) → i < j → j < length heights → area heights i j < 2 ^ 31

-- The largest of `least` and the areas from `left` to `right`.
pub record Largest (heights : List ℕ) (least left right r : ℕ) : Type 0 where
  pub start : least ≤ r
  pub bounds : (i j : ℕ) → left ≤ i → i < j → j ≤ right → area heights i j ≤ r
  pub reached :
      (r ≡ least)
      ⊎ ((i : ℕ) × (j : ℕ) × (left ≤ i) × (i < j) × (j ≤ right) × (r ≡ area heights i j))

area_lem :
    (heights : List ℕ) (left right : ℕ)
    → left < right
    → area heights left right < 2 ^ 31
    → calculate_area
        (calculate_water_height (height heights left) (height heights right))
        (calculate_distance left right)
      ≡ done (area heights left right)
unfolding calculate_area calculate_water_height calculate_distance
area_lem heights left right lt fits =
    let a = height heights left in
    let b = height heights right in
    let apart : ltb right left ≡ false = ground arith in
    let low : (if ltb a b then a else b) ≡ min a b = ground arith in
    let small = lt→ltb (area heights left right) (2 ^ 31) fits in rw (apart, low, small) refl

module _ (heights : List ℕ) where
  -- A lower wall at the left end holds no more with any wall before the right end.
  left_lower :
      (left right j : ℕ)
      → height heights left ≤ height heights right
      → left < j
      → j ≤ right
      → area heights left j ≤ area heights left right
  left_lower left right j low lt le = mul-le-mul (omega arith) (omega arith)

  right_lower :
      (left right i : ℕ)
      → height heights right ≤ height heights left
      → left ≤ i
      → i < right
      → area heights i right ≤ area heights left right
  right_lower left right i low le lt = mul-le-mul (omega arith) (omega arith)

  -- What the rest of the loop finds from the larger of `least` and the outer area.
  module _ (least left right more r : ℕ) (lt : left < right)
      (raised : (least ≤ more) × (area heights left right ≤ more))
      (one : (more ≡ least) ⊎ (more ≡ area heights left right)) where
    widened :
        (left' right' : ℕ)
        → left ≤ left'
        → right' ≤ right
        → ((i j : ℕ)
            → left ≤ i
            → i < j
            → j ≤ right
            → (area heights i j ≤ area heights left right) ⊎ ((left' ≤ i) × (j ≤ right')))
        → Largest heights more left' right' r
        → Largest heights least left right r
    widened left' right' h k split rest = record {
      start = omega (arith, raised.0, rest.start);
      bounds = λ i j a b c. elim (split i j a b c) [
        | inl outer ↦ omega (arith, outer, raised.1, rest.start)
        | inr (d, e) ↦ rest.bounds i j d b e
      ];
      reached = elim rest.reached [
        | inl same ↦ elim one [
          | inl old ↦ inl (same ∙ old)
          | inr new ↦ inr (left, right, omega arith, lt, omega arith, same ∙ new)
        ]
        | inr (i, j, a, b, c, e) ↦ inr (i, j, omega arith, b, omega arith, e)
      ];
    }

  without_right :
      (left right i j : ℕ)
      → left < right
      → height heights right ≤ height heights left
      → left ≤ i
      → i < j
      → j ≤ right
      → (area heights i j ≤ area heights left right) ⊎ ((left ≤ i) × (j ≤ right - 1))
  without_right left right i j lt low a b c = elim (ℕ_discrete j right) [
    | yes last ↦ inl (rw last (right_lower left right i low a (omega arith)))
    | no earlier ↦ inr (a, omega arith)
  ]

  without_left :
      (left right i j : ℕ)
      → height heights left ≤ height heights right
      → left ≤ i
      → i < j
      → j ≤ right
      → (area heights i j ≤ area heights left right) ⊎ ((suc left ≤ i) × (j ≤ right))
  without_left left right i j low a b c = elim (ℕ_discrete i left) [
    | yes first ↦ inl (rw first (left_lower left right j low (omega arith) c))
    | no later ↦ inr (omega arith, c)
  ]

  widest-Largest :
      HasIntAreas heights
      → (fuel left right least : ℕ) → right < fuel + left
      → 0 < fuel
      → (left < right → right < length heights)
      → (r : ℕ) × (widest fuel heights left right least ≡ done r)
        × Largest heights least left right r
  unfolding widest
  widest-Largest fits zero left right least enough positive inside = absurd (omega arith)
  widest-Largest fits (suc fuel) left right least enough positive inside =
      elim (Bool-cases (ltb left right)) [
        | inr met ↦
            let over : right ≤ left = ground arith in
            (
              least,
              rw met refl,
              record {
                start = omega arith;
                bounds = λ i j a b c. absurd (omega arith);
                reached = inl refl;
              },
            )
        | inl apart ↦
            let lt = ltb→lt left right apart in
            let at_left = height-get_elem? heights left (omega (arith, lt, inside lt)) in
            let at_right = height-get_elem? heights right (inside lt) in
            let outer_area =
              area_lem heights left right lt (fits.products left right lt (inside lt)) in
            let a = height heights left in
            let b = height heights right in
            let outer = area heights left right in
            let more = if ltb least outer then outer else least in
            let raised : (least ≤ more) × (outer ≤ more) = (ground arith, ground arith) in
            let one : (more ≡ least) ⊎ (more ≡ outer) = ground arith in
            elim (Bool-cases (ltb b a)) [
              | inl high ↦
                  let (r, run, largest) =
                    widest-Largest fits fuel left (right - 1) more (omega (arith, lt))
                      (omega (arith, lt)) (λ some_room. omega (arith, inside lt)) in
                  (
                    r,
                    rw (apart, at_left, at_right, outer_area, high) run,
                    widened least left right more r lt raised one left (right - 1) (omega arith)
                        (omega arith)
                        (λ i j c d e. without_right left right i j lt (ground arith) c d e) largest,
                  )
              | inr not_high ↦
                  let (r, run, largest) =
                    widest-Largest fits fuel (suc left) right more (omega arith) (omega (arith, lt))
                      (λ some_room. inside lt) in
                  (
                    r,
                    rw (apart, at_left, at_right, outer_area, not_high) run,
                    widened least left right more r lt raised one (suc left) right (omega arith)
                        (omega arith)
                        (λ i j c d e. without_left left right i j (ground arith) c d e) largest,
                  )
            ]
      ]

-- On heights that are not negative and their count, where the heights, the count and the area between
-- any two heights are ints: the loop ends without an overflow, and the result is the largest area between two of them,
-- 0 where there are fewer than two.
pub max_area-Largest :
    (heights : List ℕ)
    → HasIntAreas heights
    → (r : ℕ) × (max_area heights (length heights) ≡ done r)
      × Largest heights 0 0 (length heights - 1) r
unfolding max_area
max_area-Largest heights fits =
    widest-Largest heights fits (length heights + 1) 0 (length heights - 1) 0 (omega arith)
      (omega arith) (λ some_room. omega (arith, some_room))
