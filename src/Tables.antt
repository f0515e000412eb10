-- ===== src/Tables.antt =====
-- A hash table whose buckets are chains with new nodes behind the last one: what it finds under a
-- name, and how that changes with one chain. The inventory and the bank are such tables.
use bare_metal_architect.Prelude.{
  ℕ, ◌%◌, ◌<◌, ◌≡◌, refl, ap, ◌≢◌, inl, inr, false, Option, none, some, List, arith, if◌then◌else◌,
  Bool-cases, length, get_elem?, get_elem?-some, set, get_elem?-set_self, get_elem?-set_ne,
  ℕ_discrete,
}
use native.Mathlib.Nat.{mod-lt}
use bare_metal_architect.Text.{Text, str_eq, str_eq_iff, sum}
use bare_metal_architect.Chains.{
  first, append_tail, first-append_tail, or_else, find_pos, first-set,
}

module _ {A : Type 0} (name : A → Text) where
  abbrev pub first_in : Option (List A) → Text → Option A
  first_in none key = none
  first_in (some chain) key = first name chain key

  -- The first node with the name, in the bucket that the name's characters add up to.
  abbrev pub lookup : ℕ → List (List A) → Text → Option A
  lookup cap chains key = first_in (get_elem? chains (sum key % cap)) key

module _ {A : Type 0} (name : A → Text) (cap : ℕ) (chains : List (List A)) where
  pub bucket_of :
      (key : Text)
      → length chains ≡ cap
      → 0 < cap
      → (chain : List A) × (get_elem? chains (sum key % cap) ≡ some chain)
  bucket_of key e p = get_elem?-some chains (sum key % cap) (omega (arith, e, mod-lt (sum key) p))

  differ : (k j : Text) → sum k % cap ≢ sum j % cap → str_eq k j ≡ false
  differ k j h = elim (Bool-cases (str_eq k j)) [
    | inl same ↦ absurd (h (ap (λ t. sum t % cap) ((str_eq_iff k j).0 same)))
    | inr e ↦ e
  ]

  -- A new chain in the bucket of `key` that changes what is found by `change`, which leaves other
  -- keys alone: so does the table.
  pub lookup-set :
      (key j : Text) (chain new : List A) (change : Text → Option A → Option A)
      → length chains ≡ cap
      → 0 < cap
      → get_elem? chains (sum key % cap) ≡ some chain
      → ((i : Text) → first name new i ≡ change i (first name chain i))
      → ((i : Text) (o : Option A) → str_eq key i ≡ false → change i o ≡ o)
      → lookup name cap (set chains (sum key % cap) new) j ≡ change j (lookup name cap chains j)
  lookup-set key j chain new change e p at new_first other =
      elim (ℕ_discrete (sum key % cap) (sum j % cap)) [
        | yes same ↦
            rw
              (
                ← same,
                get_elem?-set_self chains (sum key % cap) new
                    (omega (arith, e, mod-lt (sum key) p)),
                at,
              )
              (new_first j)
        | no apart ↦
            rw
              (
                get_elem?-set_ne chains (sum key % cap) (sum j % cap) new apart,
                other j (lookup name cap chains j) (differ key j apart),
              )
              refl
      ]

  -- A node added behind the chain of its name is found where no older node has the name.
  pub lookup-append_tail :
      (node : A) (j : Text) (chain : List A)
      → length chains ≡ cap
      → 0 < cap
      → get_elem? chains (sum (name node) % cap) ≡ some chain
      → lookup name cap (set chains (sum (name node) % cap) (append_tail chain node)) j
        ≡ or_else (lookup name cap chains j) (if str_eq (name node) j then some node else none)
  lookup-append_tail node j chain e p at =
      lookup-set (name node) j chain (append_tail chain node)
        (λ i o. or_else o (if str_eq (name node) i then some node else none)) e p at
        (λ i. first-append_tail name chain node i) (λ i o h. ground arith)

  -- A node that was found is replaced by one of the same name.
  pub lookup-replace :
      (key j : Text) (chain : List A) (k : ℕ) (node : A)
      → length chains ≡ cap
      → 0 < cap
      → get_elem? chains (sum key % cap) ≡ some chain
      → find_pos name chain key ≡ some k
      → name node ≡ key
      → lookup name cap (set chains (sum key % cap) (set chain k node)) j
        ≡ (if str_eq key j then some node else lookup name cap chains j)
  lookup-replace key j chain k node e p at found h =
      lookup-set key j chain (set chain k node) (λ i o. if str_eq key i then some node else o) e p
        at (λ i. first-set name chain key k node i found h) (λ i o no_match. ground arith)
