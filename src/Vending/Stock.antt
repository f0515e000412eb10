-- ===== src/Vending/Stock.antt =====
-- The stock of a vending machine: what the three additions do, and what holds after any of them.
use bare_metal_architect.Prelude.{
  ℕ, zero, suc, ◌+◌, ◌*◌, ◌%◌, ◌≤◌, ◌<◌, ◌≡◌, refl, ◌∙◌, ◌≢◌, inl, inr, Bool, true, false, ◌&&◌,
  some, [], ◌∷◌, ◌++◌, arith, ltb, if◌then◌else◌, Bool-cases, length, get_elem?, All, length-set,
  get_elem?-set_self, get_elem?-set_ne, Outcome, done, exits, ◌>>◌,
}
use bare_metal_architect.Prelude.{All-set, All-get_elem?}
use bare_metal_architect.Text.{Text}
use bare_metal_architect.Chains.{append_tail, append_tail-eq-append, length-append_tail}
use bare_metal_architect.Vending.{
  Item, Slot, VendingMachine, slot_item_capacity, type_snack, type_drink, type_device, stored_name,
  check_slot_availability, push_item, add_snack, add_drink, add_device,
}

-- A slot counts its items, and has at most ten.
pub record IsStocked (s : Slot) : Type 0 where
  pub counts : s.slot_capacity ≡ length s.items
  pub fits : length s.items ≤ slot_item_capacity

pub record IsValid (vm : VendingMachine) : Type 0 where
  pub three : length vm ≡ 3
  pub stocked : All IsStocked vm

-- An addition to the slot of a type: the process ends where the slot is full or no memory is
-- granted; otherwise the machine stays valid, and the item is the last of its slot.
pub record Stocks (vm : VendingMachine) (slot_type : ℕ) (s : Slot) (item : Item)
    (r : Outcome VendingMachine) : Type 0 where
  pub after : VendingMachine
  pub returned : r ≡ done after
  pub valid : IsValid after
  pub own :
      (s' : Slot) × (get_elem? after slot_type ≡ some s') × (s'.items ≡ s.items ++ (item ∷ []))
  pub others : (i : ℕ) → slot_type ≢ i → get_elem? after i ≡ get_elem? vm i

abbrev pub StocksIf : Bool → VendingMachine → ℕ → Slot → Item → Outcome VendingMachine → Type 0
StocksIf true vm slot_type s item r = Stocks vm slot_type s item r
StocksIf false vm slot_type s item r = r ≡ exits

abbrev pub has_room : Bool → Slot → Bool
has_room allocated s = allocated && ltb (length s.items) slot_item_capacity

module _ (vm : VendingMachine) (v : IsValid vm) (slot_type : ℕ) (s : Slot)
    (at : get_elem? vm slot_type ≡ some s) where
  here-IsStocked : IsStocked s
  here-IsStocked = All-get_elem? IsStocked vm slot_type s v.stocked at

  grown : Item → Slot
  grown item = record s {
    items = append_tail s.items item;
    slot_capacity = (s.slot_capacity + 1) % 256;
  }

  push_item-Stocks :
      (item : Item)
      → slot_type < 3
      → length s.items < slot_item_capacity
      → Stocks vm slot_type s item (done (push_item vm slot_type s item))
  unfolding push_item grown
  push_item-Stocks item small lt = record {
    after = push_item vm slot_type s item;
    returned = refl;
    valid = record {
      three = length-set vm slot_type (grown item) ∙ v.three;
      stocked = All-set IsStocked vm slot_type (grown item) v.stocked (record {
        counts = omega (arith, length-append_tail s.items item, here-IsStocked.counts, lt);
        fits = omega (arith, length-append_tail s.items item, lt);
      });
    };
    own = (
      grown item,
      get_elem?-set_self vm slot_type (grown item) (omega (arith, v.three, small)),
      append_tail-eq-append s.items item,
    );
    others = λ i ne. get_elem?-set_ne vm slot_type i (grown item) ne;
  }

  verdict :
      (allocated : Bool)
      → slot_type < 3
      → check_slot_availability allocated s.slot_capacity slot_type
        ≡ (if has_room allocated s then done tt else exits)
  unfolding check_slot_availability
  verdict true small = ground (arith, here-IsStocked.counts)
  verdict false small = ground arith

  roomy : (allocated : Bool) → has_room allocated s ≡ true → length s.items < slot_item_capacity
  roomy true h = ground arith
  roomy false h = absurd (cc)

  checked :
      (allocated : Bool) (item : Item)
      → slot_type < 3
      → StocksIf (has_room allocated s) vm slot_type s item (
          check_slot_availability allocated s.slot_capacity slot_type
          >> done (push_item vm slot_type s item))
  checked allocated item small = elim (Bool-cases (has_room allocated s)) [
    | inl room ↦
        rw (verdict allocated small, room) (push_item-Stocks item small (roomy allocated room))
    | inr full ↦ rw (verdict allocated small, full) refl
  ]

module _ (vm : VendingMachine) (v : IsValid vm) (allocated : Bool) (name : Text) (price : ℕ)
    (s : Slot) where
  -- `add_snack` to a valid machine: with memory and room, the snack with the first 15 characters
  -- of its name is the last of slot A1, the machine stays valid and the other slots stay;
  -- otherwise the process ends.
  pub add_snack-StocksIf :
      (calories : ℕ)
      → get_elem? vm type_snack ≡ some s
      → StocksIf
          (has_room allocated s)
          vm
          type_snack
          s
          (record { name = stored_name name; price = price; item_flags = 0; info = calories })
          (add_snack allocated vm name price calories)
  unfolding add_snack
  add_snack-StocksIf calories at = rw at (checked vm v type_snack s at allocated _ (omega arith))

  -- `add_drink` to a valid machine: with memory and room, the drink with the first 15 characters
  -- of its name is the last of slot A2, the machine stays valid and the other slots stay;
  -- otherwise the process ends.
  pub add_drink-StocksIf :
      (volume : ℕ)
      → get_elem? vm type_drink ≡ some s
      → StocksIf
          (has_room allocated s)
          vm
          type_drink
          s
          (record { name = stored_name name; price = price; item_flags = 0; info = volume })
          (add_drink allocated vm name price volume)
  unfolding add_drink
  add_drink-StocksIf volume at = rw at (checked vm v type_drink s at allocated _ (omega arith))

  -- `add_device` with a warranty of 0 or 1 to a valid machine: with memory and room, the device
  -- with the first 15 characters of its name and the warranty in bit 1 of its flags is the last
  -- of slot A3, the machine stays valid and the other slots stay; otherwise the process ends.
  pub add_device-StocksIf :
      (has_warranty : ℕ)
      → has_warranty ≤ 1
      → get_elem? vm type_device ≡ some s
      → StocksIf
          (has_room allocated s)
          vm
          type_device
          s
          (record {
            name = stored_name name;
            price = price;
            item_flags = 2 * has_warranty;
            info = 0;
          })
          (add_device allocated vm name price has_warranty)
  unfolding add_device
  add_device-StocksIf zero h at = rw at (checked vm v type_device s at allocated _ (omega arith))
  add_device-StocksIf (suc zero) h at =
      rw at (checked vm v type_device s at allocated _ (omega arith))
  add_device-StocksIf (suc (suc n)) h at = absurd (omega arith)
