-- ===== src/TwoPointers.antt =====
-- The searches with a pointer from each end of an array: find_target of problems/find-sum-optimised.c
-- and max_area of problems/greedy-logic.c.
pub mod Pairs
pub mod Areas
mod Tests
use bare_metal_architect.Prelude.{
  ℕ, zero, suc, ◌+◌, ◌-◌, ◌*◌, ◌/◌, ◌%◌, ◌^◌, ◌≤◌, ◌<◌, ◌≡◌, refl, sym, ap, ◌∙◌, ◌≢◌, ◌↔◌, ◌⊎◌, inl,
  inr, Bool, true, false, ◌&&◌, ◌||◌, not, Option, none, some, List, [], ◌∷◌, ◌++◌, arith, ltb, leb,
  ◌==◌, if◌then◌else◌, Bool-cases, Option-cases, length, get_elem?, get_elem?-some, set, replicate,
  take, drop, All, length-append, length-set, length-replicate, get_elem?-set_self,
  get_elem?-set_ne, get_elem?-replicate, ℤ, pos, negsuc, to_uint8, Outcome, done, exits, fault,
  ◌>>=◌, ◌>>◌, or_fault, index, index_int, granted, ℕ_discrete, dec_lt, ltb→lt, lt→ltb, leb→le,
  ==_iff,
}
use bare_metal_architect.Prelude.{◌+ℤ◌, ltb_ℤ, leb_ℤ}

-- `a == b` on ints.
abbrev pub eq_ℤ : ℤ → ℤ → Bool
eq_ℤ a b = leb_ℤ a b && leb_ℤ b a

-- An `int` of 32 bits.
abbrev pub in_int : ℤ → Bool
in_int c = leb_ℤ (negsuc (2 ^ 31 - 1)) c && ltb_ℤ c (pos (2 ^ 31))

-- `a + b` of two ints, whose overflow is undefined.
abbrev pub int_sum : ℤ → ℤ → Outcome ℤ
int_sum a b = if in_int (a +ℤ b) then done (a +ℤ b) else fault

-- The loop, on fuel, with the indices that it prints.
unfoldable pub search : ℕ → List ℤ → ℤ → ℕ → ℕ → Outcome (Option (ℕ × ℕ))
search zero numbers target left right = fault
search (suc fuel) numbers target left right =
    if ltb left right
    then (do
      a ← index numbers left
      b ← index numbers right
      current_sum ← int_sum a b
      let low = ltb_ℤ current_sum target in
          let rest =
            search fuel numbers target (if low then suc left else left)
              (if low then right else right - 1) in
          if eq_ℤ current_sum target then done (some (left, right)) else rest)
    else done none

-- `find_target`, whose loop takes one step less than there are numbers and looks once more.
unfoldable pub find_target : List ℤ → ℕ → ℤ → Outcome (Option (ℕ × ℕ))
find_target numbers size target = search (size + 1) numbers target 0 (size - 1)

unfoldable pub calculate_distance : ℕ → ℕ → ℕ
calculate_distance idx1 idx2 = if ltb idx2 idx1 then idx1 - idx2 else idx2 - idx1

unfoldable pub calculate_water_height : ℕ → ℕ → ℕ
calculate_water_height a b = if ltb a b then a else b

-- The overflow of an `int` is undefined.
unfoldable pub calculate_area : ℕ → ℕ → Outcome ℕ
calculate_area w d = if ltb (w * d) (2 ^ 31) then done (w * d) else fault

-- The loop of `max_area`, on fuel, of heights that are not negative.
unfoldable pub widest : ℕ → List ℕ → ℕ → ℕ → ℕ → Outcome ℕ
widest zero heights left right maxarea = fault
widest (suc fuel) heights left right maxarea =
    if ltb left right
    then (do
      a ← index heights left
      b ← index heights right
      let distance = calculate_distance left right in
          do
            area ← calculate_area (calculate_water_height a b) distance
            let more = if ltb maxarea area then area else maxarea in
                let high = ltb b a in
                widest fuel heights (if high then left else suc left)
                  (if high then right - 1 else right) more)
    else done maxarea

unfoldable pub max_area : List ℕ → ℕ → Outcome ℕ
max_area heights size = widest (size + 1) heights 0 (size - 1) 0
