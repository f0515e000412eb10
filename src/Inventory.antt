-- ===== src/Inventory.antt =====
-- problems/rpg_inventory.c: a player's inventory, a chained table of weapons and consumables by
-- name, of ten buckets. Each call takes `alloc`, which says of its n-th allocation whether the C
-- library grants it. Printing is left out.
pub mod Search
pub mod Actions
mod Tests
use Prim.Native.Nat.{bit_or}
use bare_metal_architect.Prelude.{
  granted, ℕ, zero, suc, ◌+◌, ◌-◌, ◌*◌, ◌/◌, ◌%◌, ◌≤◌, ◌<◌, ◌≡◌, refl, sym, ap, ◌∙◌, ◌≢◌, ◌↔◌, ◌⊎◌,
  inl, inr, Bool, true, false, ◌&&◌, ◌||◌, not, Option, none, some, List, [], ◌∷◌, ◌++◌, arith, ltb,
  leb, ◌==◌, if◌then◌else◌, Bool-cases, Option-cases, length, get_elem?, get_elem?-some, set,
  replicate, take, drop, All, length-append, length-set, length-replicate, get_elem?-set_self,
  get_elem?-set_ne, get_elem?-replicate, ℤ, pos, negsuc, to_uint8, Outcome, done, exits, fault,
  ◌>>=◌, ◌>>◌, or_fault, index, index_int, ℕ_discrete, dec_lt, ltb→lt, lt→ltb, leb→le, ==_iff,
}
use bare_metal_architect.Text.{Text, str_eq, hash_uint8}
use bare_metal_architect.Bytes.{bit, has_bit, combine, extract_left, extract_right}
use bare_metal_architect.Chains.{append_tail, find_pos}

-- CAPACITY, ITEM_EQUIP_IDX and ITEM_ADDED_IDX.
abbrev pub capacity : ℕ
capacity = 10

abbrev pub item_equip_idx : ℕ
item_equip_idx = 3

abbrev pub item_added_idx : ℕ
item_added_idx = 7

-- An `enum` can hold any `int`: the other values reach the `default` branches.
pub data Weapons : Type 0 where
  axe bow dagger sword : Weapons
  other_weapon : ℕ → Weapons

pub data Consumables : Type 0 where
  potion snack : Consumables
  other_consumable : ℕ → Consumables

-- Both members of the union `ItemDetail` are the one byte `item_detail`.
pub record Item : Type 0 where
  pub name : Text
  pub item_state : ℕ
  pub item_detail : ℕ

pub record Inventory : Type 0 where
  pub item_capacity : ℕ
  pub items_stored : ℕ
  pub items : List (List Item)

abbrev pub name_of : Item → Text
name_of item = item.name

-- The array of two bytes that `map_weapon_stats` fills.
pub record Stats : Type 0 where
  pub left : ℕ
  pub right : ℕ

pub weapon_stats : Weapons → Outcome Stats
weapon_stats axe = done (record { left = 15; right = 8 })
weapon_stats bow = done (record { left = 4; right = 7 })
weapon_stats dagger = done (record { left = 2; right = 4 })
weapon_stats sword = done (record { left = 10; right = 15 })
weapon_stats (other_weapon n) = exits

pub consumable_stats : Consumables → Outcome Stats
consumable_stats potion = done (record { left = 8; right = 4 })
consumable_stats snack = done (record { left = 4; right = 2 })
consumable_stats (other_consumable n) = exits

pub map_weapon_stats : Bool → Weapons → Outcome Stats
map_weapon_stats allocated weapon = do granted allocated; weapon_stats weapon

pub map_consumable : Bool → Consumables → Outcome Stats
map_consumable allocated consumable = do granted allocated; consumable_stats consumable

pub init_inventory : (ℕ → Bool) → Outcome Inventory
init_inventory alloc = do
  granted (alloc 0)
  granted (alloc 1)
  done (record { item_capacity = capacity; items_stored = 0; items = replicate capacity [] })

-- What `add_weapon` and `add_consumable` do with the stats that they looked up; the text of the two
-- is the same but for the union's member.
pub add_item : (ℕ → Bool) → Inventory → Text → Stats → Outcome Inventory
add_item alloc inventory name stats = do
  granted (alloc 1)
  idx ← hash_uint8 name capacity
  granted (alloc 2)
  chain ← index inventory.items idx
  done (record inventory {
    items_stored = (inventory.items_stored + 1) % 256;
    items = set inventory.items idx (
        append_tail chain (record {
          name = name;
          item_state = bit_or 0 (bit item_added_idx);
          item_detail = combine stats.left stats.right;
        }));
  })

pub add_weapon : (ℕ → Bool) → Inventory → Text → Weapons → Outcome Inventory
unfolding map_weapon_stats
add_weapon alloc inventory weapon_name weapon = do
  stats ← map_weapon_stats (alloc 0) weapon
  add_item alloc inventory weapon_name stats

pub add_consumable : (ℕ → Bool) → Inventory → Text → Consumables → Outcome Inventory
unfolding map_consumable
add_consumable alloc inventory consumable_name consumable = do
  stats ← map_consumable (alloc 0) consumable
  add_item alloc inventory consumable_name stats

-- A pointer to an item: its bucket, and its place in the chain.
pub record ItemPtr : Type 0 where
  pub bucket : ℕ
  pub place : ℕ

-- `find_item` on the chain of the bucket: the head is compared first, then the loop starts again at
-- the head. The pointer is null where the chain has no such item.
pub find_in_chain : ℕ → List Item → Text → Outcome (Option ItemPtr)
find_in_chain idx [] item_name = exits
find_in_chain idx (head ∷ rest) item_name =
    if str_eq head.name item_name
    then done (some (record { bucket = idx; place = 0 }))
    else elim (find_pos name_of (head ∷ rest) item_name) [
      | none ↦ done none
      | some k ↦ done (some (record { bucket = idx; place = k }))
    ]

pub find_item : Inventory → Text → Outcome (Option ItemPtr)
unfolding find_in_chain
find_item inventory item_name = do
  idx ← hash_uint8 item_name capacity
  chain ← index inventory.items idx
  find_in_chain idx chain item_name

-- Reading and writing through the pointer.
pub load : Inventory → ItemPtr → Outcome Item
load inventory p = do chain ← index inventory.items p.bucket; index chain p.place

pub store : Inventory → ItemPtr → Item → Outcome Inventory
store inventory p item = do
  chain ← index inventory.items p.bucket
  done (record inventory { items = set inventory.items p.bucket (set chain p.place item) })

pub equip_weapon : Inventory → Text → Outcome Inventory
unfolding load store
equip_weapon inventory weapon_name = do
  found ← find_item inventory weapon_name
  p ← or_fault found
  weapon ← load inventory p
  if has_bit weapon.item_state item_equip_idx
      then done inventory
      else store inventory p
          (record weapon { item_state = bit_or weapon.item_state (bit item_equip_idx) })

-- The player's health and magicka, which the pointers `ph` and `pm` name.
pub record Player : Type 0 where
  pub health : ℕ
  pub magicka : ℕ

pub use_consumable : Inventory → Text → Player → Outcome (Inventory × Player)
unfolding load
use_consumable inventory consumable_name player = do
  found ← find_item inventory consumable_name
  p ← or_fault found
  consumable ← load inventory p
  let health = extract_left consumable.item_detail
  let magicka = extract_right consumable.item_detail
  if ltb player.magicka magicka
      then done (inventory, player)
      else done (
        record inventory { items_stored = (inventory.items_stored + 255) % 256 },
        record { health = (player.health + health) % 256; magicka = player.magicka - magicka },
      )
