-- ===== src/Inventory/Search.antt =====
-- What `find_item` of rpg_inventory.c returns.
use bare_metal_architect.Prelude.{
  ℕ, ◌%◌, ◌≡◌, refl, ◌⊎◌, inl, inr, Option, none, some, List, [], ◌∷◌, arith, length, get_elem?,
  done, exits,
}
use bare_metal_architect.Text.{Text, IsAscii, sum, hash_uint8, hash_uint8-eq-sum}
use bare_metal_architect.Chains.{find_pos, find_pos-first, find_pos-first-none}
use bare_metal_architect.Tables
use bare_metal_architect.Tables.{bucket_of}
use bare_metal_architect.Inventory.{
  Outcome, Item, Inventory, ItemPtr, name_of, capacity, find_in_chain, find_item, load,
}

-- The bucket array has its ten buckets.
abbrev pub IsValid : Inventory → Type 0
IsValid inv = length inv.items ≡ capacity

abbrev pub slot : Text → ℕ
slot key = sum key % capacity

-- The item that the inventory has under a name: the one that was added first.
abbrev pub lookup : Inventory → Text → Option Item
lookup inv key = Tables.lookup name_of capacity inv.items key

pub hashed : (key : Text) → IsAscii key → hash_uint8 key capacity ≡ done (slot key)
hashed key a = hash_uint8-eq-sum key capacity a (omega arith) (omega arith)

pub chain_of :
    (inv : Inventory) (key : Text)
    → IsValid inv
    → (chain : List Item) × (get_elem? inv.items (slot key) ≡ some chain)
chain_of inv key v = bucket_of name_of capacity inv.items key v (omega arith)

found_in_chain :
    (idx : ℕ) (chain : List Item) (key : Text) (k : ℕ)
    → find_pos name_of chain key ≡ some k
    → find_in_chain idx chain key ≡ done (some (record { bucket = idx; place = k }))
unfolding find_in_chain find_pos
found_in_chain idx [] key k e = absurd (cc)
found_in_chain idx (head ∷ rest) key k e = ground arith

missing_in_chain :
    (idx : ℕ) (chain : List Item) (key : Text)
    → find_pos name_of chain key ≡ none
    → (find_in_chain idx chain key ≡ exits) ⊎ (find_in_chain idx chain key ≡ done none)
unfolding find_in_chain find_pos
missing_in_chain idx [] key e = inl refl
missing_in_chain idx (head ∷ rest) key e = inr (ground arith)

-- A search that succeeds: where the pointer points.
pub record Points (inv : Inventory) (key : Text) (item : Item) : Type 0 where
  pub chain : List Item
  pub place : ℕ
  pub at : get_elem? inv.items (slot key) ≡ some chain
  pub position : find_pos name_of chain key ≡ some place
  pub holds : get_elem? chain place ≡ some item
  pub returned : find_item inv key ≡ done (some (record { bucket = slot key; place = place }))

pub find_item-Points :
    (inv : Inventory) (key : Text) (item : Item)
    → IsValid inv
    → IsAscii key
    → lookup inv key ≡ some item
    → Points inv key item
unfolding find_item
find_item-Points inv key item v a e =
    let (chain, at) = chain_of inv key v in
    let (k, p, q, _) = find_pos-first name_of chain key item (rw at at e) in
    record {
      chain = chain;
      place = k;
      at = at;
      position = p;
      holds = q;
      returned = rw (hashed key a, at, found_in_chain (slot key) chain key k p);
    }

pub find_item_missing :
    (inv : Inventory) (key : Text)
    → IsValid inv
    → IsAscii key
    → lookup inv key ≡ none
    → (find_item inv key ≡ exits) ⊎ (find_item inv key ≡ done none)
unfolding find_item
find_item_missing inv key v a e =
    let (chain, at) = chain_of inv key v in
    rw (hashed key a, at)
      (missing_in_chain (slot key) chain key (find_pos-first-none name_of chain key (rw at at e)))

-- What `find_item` may return where the inventory has this under the name.
abbrev pub Finds : Inventory → Option Item → Outcome (Option ItemPtr) → Type 0
Finds inv (some item) r = (p : ItemPtr) × (r ≡ done (some p)) × (load inv p ≡ done item)
Finds inv none r = (r ≡ exits) ⊎ (r ≡ done none)

find_item-Finds :
    (inv : Inventory) (key : Text) (o : Option Item)
    → IsValid inv
    → IsAscii key
    → lookup inv key ≡ o
    → Finds inv o (find_item inv key)
unfolding load
find_item-Finds inv key (some item) v a e =
    let f = find_item-Points inv key item v a e in
    (record { bucket = slot key; place = f.place }, f.returned, rw (f.at, f.holds))
find_item-Finds inv key none v a e = find_item_missing inv key v a e

-- `find_item` in a valid inventory, for an ASCII name: a pointer to the item that was added first
-- under the name, if there is one; otherwise a null pointer, or the end of the process. It never
-- faults.
pub find_item_lem :
    (inv : Inventory) (key : Text)
    → IsValid inv
    → IsAscii key
    → Finds inv (lookup inv key) (find_item inv key)
find_item_lem inv key v a = find_item-Finds inv key (lookup inv key) v a refl
