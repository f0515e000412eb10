-- ===== src/HashTable/Lookup.antt =====
-- What `table_insert` and `table_get` of hash-table.c do to the map that a table stands for.
use native.Mathlib.Nat.{mod-lt}
use bare_metal_architect.Prelude.{
  zero, suc, ◌-◌, ◌≤◌, neg_ℕ, ℕ, ◌%◌, ◌<◌, ◌≡◌, refl, ◌∙◌, ap, ◌≢◌, inl, inr, Bool, true, false,
  ◌&&◌, Option, none, some, List, [], ◌∷◌, arith, if◌then◌else◌, Bool-cases, length, set, get_elem?,
  get_elem?-some, get_elem?-set_self, get_elem?-set_ne, length-set, ℤ, negsuc, done, exits, ◌>>=◌,
  index_int, ℕ_discrete,
}
use bare_metal_architect.Text.{
  hash_function-negative, Text, str_eq, str_eq_iff, IsAscii, sum, hash_function,
  hash_function-eq-sum,
}
use bare_metal_architect.HashTable.{
  Outcome, fault, KeyValuePair, Chain, HashTable, link, table_insert, scan, reply, table_get,
}

pub record IsValid (t : HashTable) : Type 0 where
  pub sized : length t.buckets ≡ t.capacity
  pub positive : 0 < t.capacity

abbrev pub slot : HashTable → Text → ℕ
slot t key = sum key % t.capacity

-- The newest pair with the key, in a chain.
unfoldable pub find : Chain → Text → Option ℤ
find [] key = none
find (pair ∷ rest) key = if str_eq pair.key key then some pair.value else find rest key

abbrev pub find_in : Option Chain → Text → Option ℤ
find_in none key = none
find_in (some chain) key = find chain key

-- The map that a table stands for.
abbrev pub lookup : HashTable → Text → Option ℤ
lookup t key = find_in (get_elem? t.buckets (slot t key)) key

slot_in : (t : HashTable) (key : Text) → IsValid t → slot t key < length t.buckets
slot_in t key v = omega (arith, v, mod-lt (sum key) v.positive)

pub slot_chain :
    (t : HashTable) (key : Text)
    → IsValid t
    → (chain : Chain) × (get_elem? t.buckets (slot t key) ≡ some chain)
slot_chain t key v = get_elem?-some t.buckets (slot t key) (slot_in t key v)

scan-find : (chain : Chain) (key : Text) (v : ℤ) → find chain key ≡ some v → scan chain key ≡ v
unfolding find scan
scan-find [] key v e = ground arith
scan-find (pair ∷ rest) key v e = ground (arith, scan-find rest key v)

scan-find-none : (chain : Chain) (key : Text) → find chain key ≡ none → scan chain key ≡ negsuc 0
unfolding find scan
scan-find-none [] key e = refl
scan-find-none (pair ∷ rest) key e = ground (arith, scan-find-none rest key)

find-link :
    (pair : KeyValuePair) (chain : Chain) (j : Text)
    → find (link pair chain) j ≡ (if str_eq pair.key j then some pair.value else find chain j)
unfolding find link
find-link pair [] j = refl
find-link pair (head ∷ rest) j = refl

-- `table_get` on a valid table and an ASCII key.
table_get-reply :
    (t : HashTable) (key : Text) (chain : Chain)
    → IsValid t
    → IsAscii key
    → get_elem? t.buckets (slot t key) ≡ some chain
    → table_get t key ≡ reply chain key
unfolding table_get
table_get-reply t key chain v a e = rw (hash_function-eq-sum key t.capacity a v.positive, e)

-- What `table_get` returns, from the key's bucket and what the map has under the key.
abbrev pub Replies : Chain → Option ℤ → Outcome ℤ → Type 0
Replies [] o r = r ≡ exits
Replies (head ∷ rest) (some v) r = r ≡ done v
Replies (head ∷ rest) none r = r ≡ done (negsuc 0)

reply-Replies :
    (chain : Chain) (key : Text) (o : Option ℤ)
    → find chain key ≡ o
    → Replies chain o (reply chain key)
unfolding reply
reply-Replies [] key o e = refl
reply-Replies (head ∷ rest) key (some v) e = ap done (scan-find (head ∷ rest) key v e)
reply-Replies (head ∷ rest) key none e = ap done (scan-find-none (head ∷ rest) key e)

-- `table_get` of a valid table, for an ASCII key: where the key's bucket is empty the process ends;
-- where it is not, the result is the newest value under the key, or -1 where no pair has the key.
pub table_get_lem :
    (t : HashTable) (key : Text)
    → IsValid t
    → IsAscii key
    → (chain : Chain) × (get_elem? t.buckets (slot t key) ≡ some chain)
      × Replies chain (lookup t key) (table_get t key)
table_get_lem t key v a =
    let (chain, e) = slot_chain t key v in
    (
      chain,
      e,
      rw (table_get-reply t key chain v a e, e) (reply-Replies chain key (find chain key) refl),
    )

-- The table after `pair` is linked into the bucket of its key.
abbrev pub linked : HashTable → KeyValuePair → Chain → HashTable
linked t pair chain = record t { buckets = set t.buckets (slot t pair.key) (link pair chain) }

differ : (t : HashTable) (k j : Text) → slot t k ≢ slot t j → str_eq k j ≡ false
differ t k j h = elim (Bool-cases (str_eq k j)) [
  | inl same ↦ absurd (h (ap (slot t) ((str_eq_iff k j).0 same)))
  | inr e ↦ e
]

lookup-linked :
    (t : HashTable) (pair : KeyValuePair) (chain : Chain) (j : Text)
    → IsValid t
    → get_elem? t.buckets (slot t pair.key) ≡ some chain
    → lookup (linked t pair chain) j ≡ (if str_eq pair.key j then some pair.value else lookup t j)
lookup-linked t pair chain j v e = elim (ℕ_discrete (slot t pair.key) (slot t j)) [
  | yes same ↦
      rw
        (
          ← same,
          get_elem?-set_self t.buckets (slot t pair.key) (link pair chain) (slot_in t pair.key v),
          e,
        )
        (find-link pair chain j)
  | no other ↦ rw (
    get_elem?-set_ne t.buckets (slot t pair.key) (slot t j) (link pair chain) other,
    differ t pair.key j other,
  )
]

-- With both allocations granted, `table_insert` links the pair; with one refused, the process ends.
pub table_insert-linked :
    (alloc : ℕ → Bool) (t : HashTable) (key : Text) (value : ℤ) (chain : Chain)
    → IsValid t
    → IsAscii key
    → get_elem? t.buckets (slot t key) ≡ some chain
    → table_insert alloc t key value ≡ (
        if alloc 0 && alloc 1
        then done (linked t (record { key = key; value = value }) chain)
        else exits)
unfolding table_insert
table_insert-linked alloc t key value chain v a e =
    rw (hash_function-eq-sum key t.capacity a v.positive, e) (ground arith)

-- `table_insert` with its allocations granted keeps a valid table valid, and changes the map that
-- it stands for at the one key.
pub table_insert_lem :
    (alloc : ℕ → Bool) (t : HashTable) (key : Text) (value : ℤ)
    → IsValid t
    → IsAscii key
    → alloc 0 ≡ true
    → alloc 1 ≡ true
    → (t' : HashTable) × (table_insert alloc t key value ≡ done t')
      × IsValid t'
      × ((j : Text) → lookup t' j ≡ (if str_eq key j then some value else lookup t j))
table_insert_lem alloc t key value v a h0 h1 =
    let (chain, e) = slot_chain t key v in
    let pair : KeyValuePair = record { key = key; value = value } in
    (
      linked t pair chain,
      rw (table_insert-linked alloc t key value chain v a e, h0, h1) refl,
      record {
        sized = length-set t.buckets (slot t key) (link pair chain) ∙ v.sized;
        positive = v.positive;
      },
      λ j. lookup-linked t pair chain j v e,
    )

index_int-neg {ℓ} : {A : Type ℓ} (xs : List A) (k : ℕ) → k ≢ 0 → index_int xs (neg_ℕ k) ≡ fault
index_int-neg xs zero ne = absurd (ne refl)
index_int-neg xs (suc k) ne = refl

in_front_of_array :
    (bs : List Chain) (c cap : ℕ)
    → 128 ≤ c
    → c < 256
    → 0 < cap
    → (256 - c) % cap ≢ 0
    → (hash_function (c ∷ []) cap >>= λ i. index_int bs i >>= λ chain. reply chain (c ∷ [])) ≡ fault
in_front_of_array bs c zero lo hi p ne = elim p [ ]
in_front_of_array bs c (suc n) lo hi p ne =
    rw (hash_function-negative c n lo hi, index_int-neg bs ((256 - c) % suc n) ne)

-- A key of one byte c that is no ASCII character: as a signed char it is c - 256, so unless that
-- is a multiple of the capacity its hash is negative, and both calls index in front of the array.
pub table_get-non_ascii :
    (t : HashTable) (c : ℕ)
    → 128 ≤ c
    → c < 256
    → 0 < t.capacity
    → (256 - c) % t.capacity ≢ 0
    → table_get t (c ∷ []) ≡ fault
unfolding table_get
table_get-non_ascii t c lo hi p ne = in_front_of_array t.buckets c t.capacity lo hi p ne
