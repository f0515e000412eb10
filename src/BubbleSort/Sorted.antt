-- ===== src/BubbleSort/Sorted.antt =====
-- The result of the bubble sort, and the number of sweeps that it takes.
use bare_metal_architect.Prelude.{
  subst, ℕ, zero, suc, ◌+◌, ◌*◌, ◌≤◌, ◌<◌, ◌≡◌, refl, ◌∙◌, inl, inr, true, false, ◌||◌, not, Option,
  some, List, [], ◌∷◌, arith, ◌==◌, Bool-cases, length, done,
}
use mathlib.Core.List.{Perm}
use mathlib.Core.List.Perm
use bare_metal_architect.BubbleSort.{LegendsCard, above, sweep, sweeps, bubble_sort_cards}
use bare_metal_architect.BubbleSort.Sweep.{
  cheaper, bump, inversions, inversions-sweep_from, Perm-sweep_from, Ascending, unswapped,
}

-- An array in order that has the cards of the list.
pub record Sorts (list : List LegendsCard) (r : Option (List LegendsCard)) : Type 0 where
  pub after : List LegendsCard
  pub returned : r ≡ some after
  pub ascending : Ascending after
  pub same_cards : Perm after list

inversions-sweep :
    (cards : List LegendsCard)
    → inversions (sweep cards).0 + bump (sweep cards).1 ≤ inversions cards
unfolding sweep
inversions-sweep [] = omega arith
inversions-sweep (a ∷ rest) = inversions-sweep_from a rest

Perm-sweep : (cards : List LegendsCard) → Perm (sweep cards).0 cards
unfolding sweep
Perm-sweep [] = Perm.refl []
Perm-sweep (a ∷ rest) = Perm-sweep_from a rest

settled : (cards : List LegendsCard) → (sweep cards).1 ≡ false → Ascending (sweep cards).0
unfolding sweep
settled [] e = tt
settled (a ∷ rest) e = rw ((unswapped a rest e).0) (unswapped a rest e).1

again :
    (fuel : ℕ) (cards : List LegendsCard)
    → (sweep cards).1 ≡ true
    → sweeps (suc fuel) cards ≡ sweeps fuel (sweep cards).0
unfolding sweeps
again fuel cards e = rw (e, sweeps) refl

stops :
    (fuel : ℕ) (cards : List LegendsCard)
    → (sweep cards).1 ≡ false
    → sweeps (suc fuel) cards ≡ some (sweep cards).0
unfolding sweeps
stops fuel cards e = rw (e, sweeps) refl

sweeps-Sorts :
    (fuel : ℕ) (cards : List LegendsCard)
    → inversions cards < fuel
    → Sorts cards (sweeps fuel cards)
sweeps-Sorts zero cards lt = absurd (omega arith)
sweeps-Sorts (suc fuel) cards lt = elim (Bool-cases (sweep cards).1) [
  | inl swapped ↦
      let less : inversions (sweep cards).0 + 1 ≤ inversions cards =
        subst (λ b. inversions (sweep cards).0 + bump b ≤ inversions cards) swapped
          (inversions-sweep cards) in
      let later = sweeps-Sorts fuel (sweep cards).0 (omega arith) in
      record {
        after = later.after;
        returned = again fuel cards swapped ∙ later.returned;
        ascending = later.ascending;
        same_cards = Perm.trans later.same_cards (Perm-sweep cards);
      }
  | inr still ↦ record {
    after = (sweep cards).0;
    returned = stops fuel cards still;
    ascending = settled cards still;
    same_cards = Perm-sweep cards;
  }
]

cheaper-le-length : (c : LegendsCard) (cards : List LegendsCard) → cheaper c cards ≤ length cards
unfolding cheaper
cheaper-le-length c [] = omega arith
cheaper-le-length c (x ∷ rest) = elim (Bool-cases (above c x)) [
  | inl yes_above ↦ rw yes_above (omega (arith, cheaper-le-length c rest))
  | inr not_above ↦ rw not_above (omega (arith, cheaper-le-length c rest))
]

inversions-le-square : (cards : List LegendsCard) → inversions cards ≤ length cards * length cards
unfolding inversions
inversions-le-square [] = omega arith
inversions-le-square (x ∷ rest) = grind (arith, cheaper-le-length x rest, inversions-le-square rest)

-- `bubble_sort_cards` of a list with its length, on more fuel than the square of it: the loop ends,
-- and the array has the cards of the list in the order of their costs.
pub bubble_sort_cards-Sorts :
    (fuel : ℕ) (list : List LegendsCard)
    → 0 < length list
    → length list * length list < fuel
    → (r : Option (List LegendsCard)) × (bubble_sort_cards fuel list (length list) ≡ done r)
      × Sorts list r
unfolding bubble_sort_cards
bubble_sort_cards-Sorts fuel list some_cards enough =
    let fits : (length list == 0 || not (length list == length list)) ≡ false = ground arith in
    (
      sweeps fuel list,
      rw fits refl,
      sweeps-Sorts fuel list (omega (arith, inversions-le-square list, enough)),
    )
