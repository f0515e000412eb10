-- ===== src/BubbleSort.antt =====
-- The bubble sort of data-structures/bubble_sort.c: cards are copied from a list into an array,
-- which is swept until a sweep swaps nothing. The number of sweeps is not bounded by the code:
-- they take fuel here, and `none` means that the fuel ran out.
pub mod Sweep
pub mod Sorted
mod Tests
use bare_metal_architect.Prelude.{
  ℕ, zero, suc, ◌+◌, ◌-◌, ◌*◌, ◌/◌, ◌%◌, ◌^◌, ◌≤◌, ◌<◌, ◌≡◌, refl, sym, ap, ◌∙◌, ◌≢◌, ◌↔◌, ◌⊎◌, inl,
  inr, Bool, true, false, ◌&&◌, ◌||◌, not, Option, none, some, List, [], ◌∷◌, ◌++◌, arith, ltb, leb,
  ◌==◌, if◌then◌else◌, Bool-cases, Option-cases, length, get_elem?, get_elem?-some, set, replicate,
  take, drop, All, length-append, length-set, length-replicate, get_elem?-set_self,
  get_elem?-set_ne, get_elem?-replicate, ℤ, pos, negsuc, to_uint8, Outcome, done, exits, fault,
  ◌>>=◌, ◌>>◌, or_fault, index, index_int, granted, ℕ_discrete, dec_lt, ltb→lt, lt→ltb, leb→le,
  ==_iff,
}
use bare_metal_architect.Prelude.{ltb_ℤ}
use bare_metal_architect.Text.{Text, codes}

pub record LegendsCard : Type 0 where
  pub name : Text
  pub magicka_cost : ℤ

pub init_deck : (ℕ → Bool) → Outcome (List LegendsCard)
init_deck alloc = do
  granted (alloc 0)
  granted (alloc 1)
  granted (alloc 2)
  done (
      record { name = codes "Almalexia"; magicka_cost = pos 10 }
      ∷ record { name = codes "Vivec"; magicka_cost = pos 5 }
      ∷ record { name = codes "Barrow Stalcker"; magicka_cost = pos 2 }
      ∷ [])

-- The test `cards[i].magicka_cost > cards[i + 1].magicka_cost`.
abbrev pub above : LegendsCard → LegendsCard → Bool
above a b = ltb_ℤ b.magicka_cost a.magicka_cost

-- A sweep with `a` at index i and the others behind it: the array from i on, and whether it
-- swapped.
pub sweep_from : LegendsCard → List LegendsCard → List LegendsCard × Bool
sweep_from a [] = (a ∷ [], false)
sweep_from a (b ∷ rest) =
    let swap = above a b in
    let r = sweep_from (if swap then a else b) rest in ((if swap then b else a) ∷ r.0, swap || r.1)

pub sweep : List LegendsCard → List LegendsCard × Bool
unfolding sweep_from
sweep [] = ([], false)
sweep (a ∷ rest) = sweep_from a rest

-- `do … while(swapped == 1)`.
pub sweeps : ℕ → List LegendsCard → Option (List LegendsCard)
unfolding sweep
sweeps zero cards = none
sweeps (suc fuel) cards = elim ((sweep cards).1) [
  | true ↦ sweeps fuel (sweep cards).0
  | false ↦ some (sweep cards).0
]

-- An array of another length than the list is read or written out of range, and an array of length
-- 0 is swept up to `num_cards - 1`, which is the largest unsigned number.
pub bubble_sort_cards : ℕ → List LegendsCard → ℕ → Outcome (Option (List LegendsCard))
unfolding sweeps
bubble_sort_cards fuel list num_cards =
    if num_cards == 0 || not (length list == num_cards) then fault else done (sweeps fuel list)
