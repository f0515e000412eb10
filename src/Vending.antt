-- ===== src/Vending.antt =====
-- problems/vending_machine.c: three slots of at most ten items. Each call takes `allocated`, which
-- says whether the C library grants its allocation. Printing and the frees are left out, and so are
-- the fields `next_broken` and `maintenance_list`, which no function reads.
pub mod Stock
mod Tests
use Prim.Native.Nat.{bit_or}
use bare_metal_architect.Prelude.{
  ℕ, zero, suc, ◌+◌, ◌-◌, ◌*◌, ◌/◌, ◌%◌, ◌^◌, ◌≤◌, ◌<◌, ◌≡◌, refl, sym, ap, ◌∙◌, ◌≢◌, ◌↔◌, ◌⊎◌, inl,
  inr, Bool, true, false, ◌&&◌, ◌||◌, not, Option, none, some, List, [], ◌∷◌, ◌++◌, arith, ltb, leb,
  ◌==◌, if◌then◌else◌, Bool-cases, Option-cases, length, get_elem?, get_elem?-some, set, replicate,
  take, drop, All, length-append, length-set, length-replicate, get_elem?-set_self,
  get_elem?-set_ne, get_elem?-replicate, ℤ, pos, negsuc, to_uint8, Outcome, done, exits, fault,
  ◌>>=◌, ◌>>◌, or_fault, index, index_int, granted, ℕ_discrete, dec_lt, ltb→lt, lt→ltb, leb→le,
  ==_iff,
}
use bare_metal_architect.Text.{Text, codes}
use bare_metal_architect.Chains.{append_tail}

abbrev pub item_name_size : ℕ
item_name_size = 16

abbrev pub slot_item_capacity : ℕ
slot_item_capacity = 10

abbrev pub type_snack : ℕ
type_snack = 0

abbrev pub type_drink : ℕ
type_drink = 1

abbrev pub type_device : ℕ
type_device = 2

-- `info` is the union of volume and calories.
pub record Item : Type 0 where
  pub name : Text
  pub price : ℕ
  pub item_flags : ℕ
  pub info : ℕ

pub record Slot : Type 0 where
  pub slot_id : Text
  pub slot_flags : ℕ
  pub items : List Item
  pub slot_capacity : ℕ

abbrev pub VendingMachine : Type 0
VendingMachine = List Slot

abbrev pub empty_slot : Text → Slot
empty_slot id = record { slot_id = id; slot_flags = 0; items = []; slot_capacity = 0 }

pub setup_vm : Bool → Outcome VendingMachine
setup_vm allocated = do
  granted allocated
  done (empty_slot (codes "A1") ∷ empty_slot (codes "A2") ∷ empty_slot (codes "A3") ∷ [])

pub check_slot_availability : Bool → ℕ → ℕ → Outcome (Unit {0})
check_slot_availability allocated current_capacity slot_type =
    if ltb type_device slot_type
    then exits
    else if ltb slot_item_capacity (current_capacity + 1)
    then exits
    else granted allocated

-- `strncpy` of ITEM_NAME_SIZE bytes, the last of which becomes the NUL.
abbrev pub stored_name : Text → Text
stored_name name = take (item_name_size - 1) name

-- The item goes behind the last one of its slot.
pub push_item : VendingMachine → ℕ → Slot → Item → VendingMachine
push_item vm slot_type s item =
    set vm slot_type
      (record s { items = append_tail s.items item; slot_capacity = (s.slot_capacity + 1) % 256 })

pub add_snack : Bool → VendingMachine → Text → ℕ → ℕ → Outcome VendingMachine
unfolding check_slot_availability push_item
add_snack allocated vm name price calories = do
  s ← index vm type_snack
  check_slot_availability allocated s.slot_capacity type_snack
  done (
      push_item vm type_snack s (record {
        name = stored_name name;
        price = price;
        item_flags = bit_or 0 0;
        info = calories;
      }))

pub add_drink : Bool → VendingMachine → Text → ℕ → ℕ → Outcome VendingMachine
unfolding check_slot_availability push_item
add_drink allocated vm name price volume = do
  s ← index vm type_drink
  check_slot_availability allocated s.slot_capacity type_drink
  done (
      push_item vm type_drink s
        (record { name = stored_name name; price = price; item_flags = bit_or 0 0; info = volume }))

-- `(has_warranty << 1)` for the two values that pass the check.
pub add_device : Bool → VendingMachine → Text → ℕ → ℕ → Outcome VendingMachine
unfolding check_slot_availability push_item
add_device allocated vm name price has_warranty = if ltb 1 has_warranty then exits else (do
  s ← index vm type_device
  check_slot_availability allocated s.slot_capacity type_device
  done (
      push_item vm type_device s (record {
        name = stored_name name;
        price = price;
        item_flags = bit_or 0 (if has_warranty == 0 then 0 else 2);
        info = 0;
      })))
