-- ===== src/Vending/Tests.antt =====
-- vending_machine.c at its `main`'s first items.
use bare_metal_architect.Chains.{append_tail}
use bare_metal_architect.Prelude.{◌≡◌, refl, true, [], ◌∷◌, arith, done, ◌>>=◌}
use bare_metal_architect.Text.{codes}
use bare_metal_architect.Vending.{Item, Slot, VendingMachine, empty_slot, setup_vm, add_snack}
use bare_metal_architect.Vending.Stock.{IsValid}

abbrev cookies : Item
cookies = record { name = codes "Cookies"; price = 7; item_flags = 0; info = 268 }

abbrev snacks : Slot
snacks = record { slot_id = codes "A1"; slot_flags = 0; items = cookies ∷ []; slot_capacity = 1 }

abbrev machine : VendingMachine
machine = snacks ∷ empty_slot (codes "A2") ∷ empty_slot (codes "A3") ∷ []

machine-IsValid : IsValid machine
machine-IsValid = omega arith

fills : (setup_vm true >>= λ vm. add_snack true vm (codes "Cookies") 7 268) ≡ done machine
unfolding setup_vm add_snack append_tail
fills = refl
