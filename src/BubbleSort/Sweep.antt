-- ===== src/BubbleSort/Sweep.antt =====
-- What one sweep of the bubble sort does to the number of inversions.
use bare_metal_architect.Prelude.{
  subst, ℕ, ◌+◌, ◌≤◌, ◌≡◌, refl, ap, inl, inr, Bool, true, false, ◌||◌, List, [], ◌∷◌, arith,
  if◌then◌else◌, Bool-cases,
}
use mathlib.Core.List.{Perm}
use mathlib.Core.List.Perm
use bare_metal_architect.Prelude.{◌≤ℤ◌}
use bare_metal_architect.BubbleSort.{LegendsCard, above, sweep_from}

abbrev pub bump : Bool → ℕ
bump true = 1
bump false = 0

-- How many cards cost less than this one.
unfoldable pub cheaper : LegendsCard → List LegendsCard → ℕ
cheaper c [] = 0
cheaper c (x ∷ rest) = bump (above c x) + cheaper c rest

-- The pairs of cards that stand in the wrong order.
unfoldable pub inversions : List LegendsCard → ℕ
inversions [] = 0
inversions (x ∷ rest) = cheaper x rest + inversions rest

cheaper-sweep_from :
    (c a : LegendsCard) (rest : List LegendsCard)
    → cheaper c (sweep_from a rest).0 ≡ cheaper c (a ∷ rest)
unfolding cheaper sweep_from
cheaper-sweep_from c a [] = refl
cheaper-sweep_from c a (b ∷ rest) = elim (Bool-cases (above a b)) [
  | inl yes_swap ↦ rw yes_swap (omega (arith, cheaper-sweep_from c a rest))
  | inr no_swap ↦ rw no_swap (omega (arith, cheaper-sweep_from c b rest))
]

reverse : (a b : LegendsCard) → above a b ≡ true → bump (above b a) ≡ 0
reverse a b e = ground arith

-- A sweep that swaps leaves fewer inversions.
pub inversions-sweep_from :
    (a : LegendsCard) (rest : List LegendsCard)
    → inversions (sweep_from a rest).0 + bump (sweep_from a rest).1 ≤ inversions (a ∷ rest)
unfolding inversions cheaper sweep_from
inversions-sweep_from a [] = omega arith
inversions-sweep_from a (b ∷ rest) = elim (Bool-cases (above a b)) [
  | inl yes_swap ↦ rw yes_swap (
      omega
        (arith, reverse a b yes_swap, inversions-sweep_from a rest, cheaper-sweep_from b a rest))
  | inr no_swap ↦
      rw no_swap
        (omega (arith, ap bump no_swap, inversions-sweep_from b rest, cheaper-sweep_from a b rest))
]

pub Perm-sweep_from :
    (a : LegendsCard) (rest : List LegendsCard) → Perm (sweep_from a rest).0 (a ∷ rest)
unfolding sweep_from
Perm-sweep_from a [] = Perm.refl (a ∷ [])
Perm-sweep_from a (b ∷ rest) = elim (Bool-cases (above a b)) [
  | inl yes_swap ↦
      rw yes_swap (Perm.trans (Perm.cons b (Perm-sweep_from a rest)) (Perm.swap a b rest))
  | inr no_swap ↦ rw no_swap (Perm.cons a (Perm-sweep_from b rest))
]

-- No card costs more than the next one.
abbrev pub Ascending : List LegendsCard → Type 0
Ascending [] = Unit
Ascending (a ∷ []) = Unit
Ascending (a ∷ b ∷ rest) = (a.magicka_cost ≤ℤ b.magicka_cost) × Ascending (b ∷ rest)

in_order : (a b : LegendsCard) → above a b ≡ false → a.magicka_cost ≤ℤ b.magicka_cost
in_order a b e = ground arith

true_or : true ≡ false → ⊥
true_or e = cc

-- A sweep that swaps nothing leaves the array, which is in order.
pub unswapped :
    (a : LegendsCard) (rest : List LegendsCard)
    → (sweep_from a rest).1 ≡ false
    → ((sweep_from a rest).0 ≡ a ∷ rest) × Ascending (a ∷ rest)
unfolding sweep_from
unswapped a [] e = (refl, tt)
unswapped a (b ∷ rest) e = elim (Bool-cases (above a b)) [
  | inl yes_swap ↦
      absurd
        (true_or (subst (λ s. (s || (sweep_from (if s then a else b) rest).1) ≡ false) yes_swap e))
  | inr no_swap ↦
      let (same, ascending) =
        unswapped b rest
          (subst (λ s. (s || (sweep_from (if s then a else b) rest).1) ≡ false) no_swap e) in
      (rw (no_swap, same) refl, (in_order a b no_swap, ascending))
]
