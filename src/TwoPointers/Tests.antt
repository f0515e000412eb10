-- ===== src/TwoPointers/Tests.antt =====
-- The numbers and heights of the two programs.
use bare_metal_architect.Prelude.{
  ◌<◌, ◌^◌, ltb, ltb→lt, arith, ℕ, ◌+◌, ◌≡◌, refl, Bool, true, Option, some, List, [], ◌∷◌, ℤ, pos,
  negsuc, done, leb→le,
}
use bare_metal_architect.Prelude.{◌+ℤ◌, leb_ℤ, pos_part, neg_part}
use bare_metal_architect.Bytes.{for_each, for_each→at}
use bare_metal_architect.TwoPointers.{
  in_int, search, find_target, calculate_distance, calculate_water_height, calculate_area, widest,
  max_area,
}
use bare_metal_architect.TwoPointers.Pairs.{
  HasIntSums, value, IsSorted, Answers, find_target-Answers,
}
use bare_metal_architect.TwoPointers.Areas.{height, area, HasIntAreas, Largest, max_area-Largest}

abbrev numbers : List ℤ
numbers = negsuc 13 ∷ pos 1 ∷ pos 2 ∷ pos 7 ∷ pos 11 ∷ pos 12 ∷ pos 15 ∷ pos 27 ∷ []

found_three : find_target numbers 8 (pos 3) ≡ done (some (1, 2))
unfolding find_target search ◌+ℤ◌
found_three = refl

numbers-IsSorted : IsSorted numbers
unfolding for_each
numbers-IsSorted i j lt inside =
    let above : Bool-at 8 = refl in
    leb→le (pos_part (value numbers i) + neg_part (value numbers j))
      (pos_part (value numbers j) + neg_part (value numbers i))
      (for_each→at (below j) j (for_each→at (λ k. for_each (below k) k) 8 above j inside) i lt)
  where
    below : ℕ → ℕ → Bool
    below j i = leb_ℤ (value numbers i) (value numbers j)

    Bool-at : ℕ → Type 0
    Bool-at n = for_each (λ k. for_each (below k) k) n ≡ true

every_pair :
    (test : ℕ → ℕ → Bool) (n : ℕ)
    → for_each (λ j. for_each (λ i. test i j) j) n ≡ true
    → (i j : ℕ) → i < j
    → j < n
    → test i j ≡ true
every_pair test n e i j lt inside =
    for_each→at (λ k. test k j) j (for_each→at (λ k. for_each (λ m. test m k) k) n e j inside) i lt

numbers-HasIntSums : HasIntSums numbers
unfolding for_each ◌+ℤ◌
numbers-HasIntSums = record {
  ints = for_each→at (λ i. in_int (value numbers i)) 8 refl;
  sums = every_pair (λ i j. in_int (value numbers i +ℤ value numbers j)) 8 refl;
}

find_target-Answers_example :
    (r : Option (ℕ × ℕ)) × (find_target numbers 8 (pos 3) ≡ done r) × Answers numbers (pos 3) 0 8 r
find_target-Answers_example =
    find_target-Answers numbers (pos 3) numbers-IsSorted numbers-HasIntSums

abbrev heights : List ℕ
heights = 1 ∷ 8 ∷ 6 ∷ 2 ∷ 5 ∷ 4 ∷ 8 ∷ 3 ∷ 7 ∷ []

area_found : max_area heights 9 ≡ done 49
unfolding max_area widest calculate_distance calculate_water_height calculate_area
area_found = refl

heights-HasIntAreas : HasIntAreas heights
unfolding for_each
heights-HasIntAreas = record {
  ints = λ i lt.
      ltb→lt (height heights i) (2 ^ 31)
        (for_each→at (λ k. ltb (height heights k) (2 ^ 31)) 9 refl i lt);
  count = omega arith;
  products = λ i j lt inside.
      ltb→lt (area heights i j) (2 ^ 31)
        (every_pair (λ k m. ltb (area heights k m) (2 ^ 31)) 9 refl i j lt inside);
}

max_area-Largest_example : (r : ℕ) × (max_area heights 9 ≡ done r) × Largest heights 0 0 8 r
max_area-Largest_example = max_area-Largest heights heights-HasIntAreas
