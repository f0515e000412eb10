-- ===== src/Inventory/Actions.antt =====
-- What adding, equipping and consuming an item do, on every branch.
use Prim.Native.Nat.{bit_or}
use bare_metal_architect.Prelude.{
  subst, done_injective, ℕ, ◌+◌, ◌-◌, ◌%◌, ◌<◌, ◌≡◌, refl, sym, ap, ◌∙◌, inl, inr, Bool, true,
  false, none, some, arith, ltb, if◌then◌else◌, Bool-cases, set, length-set, Outcome, done,
}
use bare_metal_architect.Text.{str_eq_refl, Text, str_eq, IsAscii}
use bare_metal_architect.Bytes.{
  bit, has_bit, combine, extract_left, extract_right, for_each, for_each→at,
}
use bare_metal_architect.Chains.{append_tail, or_else, name-first}
use bare_metal_architect.Tables.{lookup-append_tail, lookup-replace}
use bare_metal_architect.Inventory.{
  axe, bow, dagger, sword, other_weapon, Item, Inventory, Player, Stats, Weapons, Consumables,
  name_of, capacity, weapon_stats, consumable_stats, add_item, add_weapon, add_consumable,
  equip_weapon, use_consumable, item_equip_idx, axe, bow, dagger, sword,
}
use bare_metal_architect.Inventory.Search.{
  IsValid, slot, lookup, hashed, chain_of, find_item-Points,
}

-- The item that an addition makes.
abbrev pub made : Text → Stats → Item
made name stats = record {
  name = name;
  item_state = 128;
  item_detail = combine stats.left stats.right;
}

-- What an addition does when nothing is refused.
pub record Added (inv : Inventory) (item : Item) (r : Outcome Inventory) : Type 0 where
  pub after : Inventory
  pub returned : r ≡ done after
  pub valid : IsValid after
  pub counted : after.items_stored ≡ (inv.items_stored + 1) % 256
  pub found :
      (j : Text)
      → lookup after j ≡ or_else (lookup inv j) (if str_eq item.name j then some item else none)

module _ (alloc : ℕ → Bool) (inv : Inventory) (name : Text) (v : IsValid inv)
    (a : IsAscii name) where
  add_item-Added :
      (stats : Stats)
      → alloc 1 ≡ true
      → alloc 2 ≡ true
      → Added inv (made name stats) (add_item alloc inv name stats)
  unfolding add_item
  add_item-Added stats h1 h2 =
      let (chain, at) = chain_of inv name v in
      let item = made name stats in
      record {
        after = record inv {
          items_stored = (inv.items_stored + 1) % 256;
          items = set inv.items (slot name) (append_tail chain item);
        };
        returned = rw (h1, hashed name a, h2, at) refl;
        valid = length-set inv.items (slot name) (append_tail chain item) ∙ v;
        counted = refl;
        found = λ j. lookup-append_tail name_of capacity inv.items item j chain v (omega arith) at;
      }

  -- `add_weapon` of an ASCII name to a valid inventory, its allocations granted: the new weapon has
  -- the stats of its kind and the state "added", and it is found under its name unless an item was
  -- there before; every other name finds what it found.
  pub add_weapon-Added :
      (weapon : Weapons) (stats : Stats)
      → weapon_stats weapon ≡ done stats
      → alloc 0 ≡ true
      → alloc 1 ≡ true
      → alloc 2 ≡ true
      → Added inv (made name stats) (add_weapon alloc inv name weapon)
  unfolding add_weapon
  add_weapon-Added weapon stats e h0 h1 h2 = rw (h0, e) (add_item-Added stats h1 h2)

  -- The same of `add_consumable`.
  pub add_consumable-Added :
      (consumable : Consumables) (stats : Stats)
      → consumable_stats consumable ≡ done stats
      → alloc 0 ≡ true
      → alloc 1 ≡ true
      → alloc 2 ≡ true
      → Added inv (made name stats) (add_consumable alloc inv name consumable)
  unfolding add_consumable
  add_consumable-Added consumable stats e h0 h1 h2 = rw (h0, e) (add_item-Added stats h1 h2)

-- The power and durability of a weapon survive the packing.
pub weapon_stats-extract :
    (name : Text) (w : Weapons) (stats : Stats)
    → weapon_stats w ≡ done stats
    → (extract_left (made name stats).item_detail ≡ stats.left)
      × (extract_right (made name stats).item_detail ≡ stats.right)
unfolding weapon_stats combine extract_left extract_right
weapon_stats-extract name axe stats e = rw (sym (done_injective e)) (refl, refl)
weapon_stats-extract name bow stats e = rw (sym (done_injective e)) (refl, refl)
weapon_stats-extract name dagger stats e = rw (sym (done_injective e)) (refl, refl)
weapon_stats-extract name sword stats e = rw (sym (done_injective e)) (refl, refl)
weapon_stats-extract name (other_weapon n) stats e = absurd (cc)

-- The item with its equipped bit set.
abbrev pub equipped : Item → Item
equipped item = record item { item_state = bit_or item.item_state (bit item_equip_idx) }

abbrev gains : ℕ → Bool
gains s = has_bit (bit_or s (bit item_equip_idx)) item_equip_idx

equip_table : for_each gains 256 ≡ true
unfolding for_each
equip_table = refl

-- The inventory in which one item is equipped.
pub record Equipped (inv : Inventory) (item : Item) (after : Inventory) : Type 0 where
  pub valid : IsValid after
  pub stored : after.items_stored ≡ inv.items_stored
  pub found :
      (j : Text)
      → lookup after j ≡ (if str_eq item.name j then some (equipped item) else lookup inv j)

-- Nothing changes where the item was equipped before.
abbrev pub EquippedIf : Bool → Inventory → Item → Inventory → Type 0
EquippedIf true inv item after = after ≡ inv
EquippedIf false inv item after = Equipped inv item after

module _ (inv : Inventory) (name : Text) (item : Item) (v : IsValid inv) (a : IsAscii name)
    (e : lookup inv name ≡ some item) where
  named : item.name ≡ name
  named = let (chain, at) = chain_of inv name v in name-first name_of chain name item (rw at at e)

  equip_equipped : has_bit item.item_state item_equip_idx ≡ true → equip_weapon inv name ≡ done inv
  unfolding equip_weapon
  equip_equipped on =
      let f = find_item-Points inv name item v a e in rw (f.returned, f.at, f.holds, on) refl

  equip_new :
      has_bit item.item_state item_equip_idx ≡ false
      → (after : Inventory) × (equip_weapon inv name ≡ done after) × Equipped inv item after
  unfolding equip_weapon
  equip_new off =
      let f = find_item-Points inv name item v a e in
      (
        record inv { items = set inv.items (slot name) (set f.chain f.place (equipped item)) },
        rw (f.returned, f.at, f.holds, off) refl,
        record {
          valid = length-set inv.items (slot name) (set f.chain f.place (equipped item)) ∙ v;
          stored = refl;
          found = λ j.
              lookup-replace name_of capacity inv.items name j f.chain f.place (equipped item) v
                (omega arith) f.at f.position named
              ∙ ap (λ k. if str_eq k j then some (equipped item) else lookup inv j) (sym named);
        },
      )

  -- `equip_weapon` of an item that is there in a valid inventory, under an ASCII name: if it is
  -- equipped already nothing changes; otherwise its equipped bit is set, and what every other
  -- name finds stays.
  pub equip_weapon_lem :
      (after : Inventory) × (equip_weapon inv name ≡ done after)
      × EquippedIf (has_bit item.item_state item_equip_idx) inv item after
  equip_weapon_lem = elim (Bool-cases (has_bit item.item_state item_equip_idx)) [
    | inl on ↦ (inv, equip_equipped on, rw on refl)
    | inr off ↦ let (after, returned, q) = equip_new off in (after, returned, rw off q)
  ]

  -- `use_consumable` of an item that is there, on every branch: without the magicka that the item
  -- costs nothing changes; with it the player pays the cost and gains the health (modulo 256), and
  -- `items_stored` goes down by one (modulo 256). The items themselves are never changed: the
  -- consumed item stays in the inventory.
  pub use_consumable_lem :
      (player : Player)
      → use_consumable inv name player ≡ (
          if ltb player.magicka (extract_right item.item_detail)
          then done (inv, player)
          else done (
            record inv { items_stored = (inv.items_stored + 255) % 256 },
            record {
              health = (player.health + extract_left item.item_detail) % 256;
              magicka = player.magicka - extract_right item.item_detail;
            },
          ))
  unfolding use_consumable
  use_consumable_lem player =
      let f = find_item-Points inv name item v a e in rw (f.returned, f.at, f.holds) refl

-- A weapon whose state is a byte is equipped once: the second `equip_weapon` changes nothing.
pub equip_twice :
    (inv after : Inventory) (name : Text) (item : Item)
    → IsValid inv
    → IsAscii name
    → lookup inv name ≡ some item
    → item.item_state < 256
    → equip_weapon inv name ≡ done after
    → equip_weapon after name ≡ done after
equip_twice inv after name item v a e byte h =
    elim (Bool-cases (has_bit item.item_state item_equip_idx)) [
      | inl on ↦
          let still = equip_equipped inv name item v a e on in
          subst (λ i. equip_weapon i name ≡ done i) (done_injective (sym still ∙ h)) still
      | inr off ↦
          let (mid, returned, q) = equip_new inv name item v a e off in
          let found : lookup mid name ≡ some (equipped item) =
            rw (q.found name, named inv name item v a e, str_eq_refl name) refl in
          subst (λ i. equip_weapon i name ≡ done i) (done_injective (sym returned ∙ h))
            (equip_equipped mid name (equipped item) q.valid a found
              (for_each→at gains 256 equip_table item.item_state byte))
    ]
