-- ===== src/Inventory/Tests.antt =====
-- rpg_inventory.c at a small inventory, and the theorems at it.
use bare_metal_architect.Chains.{first, append_tail}
use bare_metal_architect.Prelude.{ℕ, ◌≡◌, refl, Bool, true, some, [], ◌∷◌, arith, done, ◌>>=◌}
use bare_metal_architect.Text.{hash_function, str_eq, codes, hash_uint8}
use bare_metal_architect.Bytes.{extract_left, extract_right, combine}
use bare_metal_architect.Inventory.{
  add_item, Item, Inventory, Player, init_inventory, weapon_stats, consumable_stats, find_item,
  add_weapon, add_consumable, equip_weapon, use_consumable, sword, potion, snack,
}
use bare_metal_architect.Inventory.Search.{lookup}
use bare_metal_architect.Inventory.Actions.{
  made, Added, Equipped, add_consumable-Added, equip_weapon_lem,
}

abbrev always : ℕ → Bool
always n = true

-- A sword of power 10 and durability 15, and a tea of health 8 and cost 4.
abbrev a_sword : Item
a_sword = record { name = codes "Sword"; item_state = 128; item_detail = 0xAF }

abbrev tea : Item
tea = record { name = codes "Tea"; item_state = 128; item_detail = 0x84 }

abbrev bag : Inventory
bag = record {
  item_capacity = 10;
  items_stored = 2;
  items = [] ∷ [] ∷ (tea ∷ []) ∷ [] ∷ [] ∷ [] ∷ [] ∷ (a_sword ∷ []) ∷ [] ∷ [] ∷ [];
}

abbrev hero : Player
hero = record { health = 20; magicka = 10 }

fills :
    (init_inventory always >>= λ i.
    add_weapon always i (codes "Sword") sword >>= λ j. add_consumable always j (codes "Tea") potion)
    ≡ done bag
unfolding init_inventory add_weapon add_consumable hash_uint8 add_item hash_function append_tail
    combine consumable_stats weapon_stats
fills = refl

drinks :
    use_consumable bag (codes "Tea") hero
    ≡ done (record bag { items_stored = 1 }, record { health = 28; magicka = 6 })
unfolding use_consumable find_item hash_uint8 hash_function str_eq extract_right extract_left
drinks = refl

add_consumable-Added_example :
    Added bag
      (made (codes "Jam") (record { left = 4; right = 2 }))
      (add_consumable always bag (codes "Jam") snack)
unfolding consumable_stats
add_consumable-Added_example =
    add_consumable-Added always bag (codes "Jam") refl (omega arith) snack _ refl refl refl refl

tea_found : lookup bag (codes "Tea") ≡ some tea
unfolding first str_eq
tea_found = refl

equip_weapon_lem_example :
    (after : Inventory) × (equip_weapon bag (codes "Sword") ≡ done after)
    × Equipped bag a_sword after
unfolding first str_eq
equip_weapon_lem_example = equip_weapon_lem bag (codes "Sword") a_sword refl (omega arith) refl

abbrev armed : Inventory
armed = record bag {
  items =
      []
      ∷ []
      ∷ (tea ∷ [])
      ∷ []
      ∷ []
      ∷ []
      ∷ []
      ∷ (record a_sword { item_state = 136 } ∷ [])
      ∷ []
      ∷ []
      ∷ [];
}

arms : equip_weapon bag (codes "Sword") ≡ done armed
unfolding equip_weapon find_item hash_uint8 hash_function str_eq
arms = refl
