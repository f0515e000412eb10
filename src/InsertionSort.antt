-- ===== src/InsertionSort.antt =====
-- The insertion sort of data-structures/insertion_sort.c: a deck that every card is put into at its
-- place. The doubly linked list of the deck is a list here; its `prev` pointers are not modelled.
pub mod Place
mod Tests
use bare_metal_architect.Prelude.{
  ℕ, zero, suc, ◌+◌, ◌-◌, ◌*◌, ◌/◌, ◌%◌, ◌^◌, ◌≤◌, ◌<◌, ◌≡◌, refl, sym, ap, ◌∙◌, ◌≢◌, ◌↔◌, ◌⊎◌, inl,
  inr, Bool, true, false, ◌&&◌, ◌||◌, not, Option, none, some, List, [], ◌∷◌, ◌++◌, arith, ltb, leb,
  ◌==◌, if◌then◌else◌, Bool-cases, Option-cases, length, get_elem?, get_elem?-some, set, replicate,
  take, drop, All, length-append, length-set, length-replicate, get_elem?-set_self,
  get_elem?-set_ne, get_elem?-replicate, ℤ, pos, negsuc, to_uint8, Outcome, done, exits, fault,
  ◌>>=◌, ◌>>◌, or_fault, index, index_int, granted, ℕ_discrete, dec_lt, ltb→lt, lt→ltb, leb→le,
  ==_iff,
}
use bare_metal_architect.Text.{Text, codes}

abbrev pub max_length : ℕ
max_length = 24

pub record Card : Type 0 where
  pub name : Text
  pub cost : ℕ

pub init_deck : Bool → Outcome (List Card)
init_deck allocated = do
  granted allocated
  done (record { name = codes "Almalexia"; cost = 10 } ∷ [])

-- The search for the first card that costs more, and the wiring in front of it.
pub insert : List Card → Card → List Card
insert [] new_card = new_card ∷ []
insert (current ∷ rest) new_card =
    let behind = insert rest new_card in
    if ltb new_card.cost current.cost then new_card ∷ current ∷ rest else current ∷ behind

-- The second allocation, for the name, is written to without a check.
pub add_card : (ℕ → Bool) → List Card → Text → ℕ → Outcome (List Card)
unfolding insert
add_card alloc deck name cost =
    if ltb max_length (length name + 1) || not (alloc 0)
    then exits
    else if alloc 1
    then done (insert deck (record { name = name; cost = cost }))
    else fault

-- Cards that are added one after the other.
pub add_all : (ℕ → Bool) → List Card → List Card → Outcome (List Card)
unfolding add_card
add_all alloc deck [] = done deck
add_all alloc deck (c ∷ rest) = do
  deck' ← add_card alloc deck c.name c.cost
  add_all alloc deck' rest
