-- ===== src/HashTable/Release.antt =====
-- hash-table.c as a whole: a table that is created, filled and freed.
use bare_metal_architect.Prelude.{
  ℕ, zero, suc, ◌+◌, ◌*◌, ◌%◌, ◌<◌, ◌≡◌, refl, ap, Bool, true, Option, none, some, List, [], ◌∷◌,
  arith, if◌then◌else◌, All, length, set, get_elem?, length-append, length-replicate, replicate, ℤ,
  Outcome, done, ◌>>=◌,
}
use mathlib.Core.Option.{some-injective}
use bare_metal_architect.Text.{Text, str_eq, IsAscii, sum}
use bare_metal_architect.HashTable.{
  KeyValuePair, Chain, HashTable, table_create, link, table_insert, table_free, free_buckets,
  free_chain, bucket_array, table_struct,
}
use bare_metal_architect.HashTable.Lookup.{
  find, find_in, IsValid, lookup, slot, linked, slot_chain, table_insert_lem, table_insert-linked,
}

-- The calls that a client makes: every pair of the list is inserted, the last pair first.
pub insert_all : (ℕ → Bool) → HashTable → List KeyValuePair → Outcome HashTable
insert_all alloc t [] = done t
insert_all alloc t (pair ∷ rest) = do
  t' ← insert_all alloc t rest
  table_insert alloc t' pair.key pair.value

-- The newest pair with the key wins.
pub newest : List KeyValuePair → Text → Option ℤ
newest [] key = none
newest (pair ∷ rest) key = if str_eq pair.key key then some pair.value else newest rest key

length-free-link :
    (pair : KeyValuePair) (chain : Chain)
    → length (free_chain (link pair chain)) ≡ length (free_chain chain) + 2
unfolding free_chain link
length-free-link pair [] = refl
length-free-link pair (head ∷ rest) = omega arith

length-free-set :
    (bs : List Chain) (i : ℕ) (chain : Chain) (pair : KeyValuePair)
    → get_elem? bs i ≡ some chain
    → length (free_buckets (set bs i (link pair chain))) ≡ length (free_buckets bs) + 2
unfolding free_buckets
length-free-set [] i chain pair e = cc
length-free-set (b ∷ bs) zero chain pair e = omega (
  arith,
  length-append (free_chain b) (free_buckets bs),
  length-append (free_chain (link pair chain)) (free_buckets bs),
  length-free-link pair chain,
  ap (λ c. length (free_chain c)) (some-injective b chain e),
)
length-free-set (b ∷ bs) (suc i) chain pair e = omega (
  arith,
  length-append (free_chain b) (free_buckets bs),
  length-append (free_chain b) (free_buckets (set bs i (link pair chain))),
  length-free-set bs i chain pair e,
)

length-free-linked :
    (t : HashTable) (pair : KeyValuePair) (chain : Chain)
    → get_elem? t.buckets (slot t pair.key) ≡ some chain
    → length (table_free (linked t pair chain)) ≡ length (table_free t) + 2
unfolding table_free
length-free-linked t pair chain e = omega (
  arith,
  length-append (free_buckets t.buckets) (bucket_array ∷ table_struct ∷ []),
  length-append (free_buckets (set t.buckets (slot t pair.key) (link pair chain)))
      (bucket_array ∷ table_struct ∷ []),
  length-free-set t.buckets (slot t pair.key) chain pair e,
)

-- What a successful `table_insert` allocates, `table_free` frees: two blocks more.
pub table_free-insert :
    (alloc : ℕ → Bool) (t t' : HashTable) (key : Text) (value : ℤ)
    → IsValid t
    → IsAscii key
    → table_insert alloc t key value ≡ done t'
    → length (table_free t') ≡ length (table_free t) + 2
table_free-insert alloc t t' key value v a e =
    let (chain, at) = slot_chain t key v in
    let pair : KeyValuePair = record { key = key; value = value } in
    ground (
      arith,
      table_insert-linked alloc t key value chain v a at,
      length-free-linked t pair chain at,
    )

length-free-empty : (n : ℕ) → length (free_buckets (replicate n [])) ≡ 0
unfolding free_buckets free_chain
length-free-empty zero = refl
length-free-empty (suc n) = length-free-empty n

-- A table that is created and filled.
pub fill : (ℕ → Bool) → ℕ → List KeyValuePair → Outcome HashTable
unfolding insert_all
fill alloc capacity pairs = do t ← table_create alloc capacity; insert_all alloc t pairs

-- A table that holds the pairs of a list, the newest first, in as many blocks as it takes.
pub record Holds (pairs : List KeyValuePair) (t : HashTable) : Type 0 where
  pub valid : IsValid t
  pub found : (j : Text) → lookup t j ≡ newest pairs j
  pub blocks : length (table_free t) ≡ 2 * length pairs + 2

lookup-empty : (n i : ℕ) (j : Text) → find_in (get_elem? (replicate n []) i) j ≡ none
unfolding find
lookup-empty zero i j = refl
lookup-empty (suc n) zero j = refl
lookup-empty (suc n) (suc i) j = lookup-empty n i j

empty-Holds : (n : ℕ) → 0 < n → Holds [] (record { buckets = replicate n []; capacity = n })
unfolding newest table_free
empty-Holds n c = record {
  valid = record { sized = length-replicate n []; positive = c };
  found = λ j. lookup-empty n (sum j % n) j;
  blocks = omega (
    arith,
    length-append (free_buckets (replicate n [])) (bucket_array ∷ table_struct ∷ []),
    length-free-empty n,
  );
}

module _ (alloc : ℕ → Bool) (h0 : alloc 0 ≡ true) (h1 : alloc 1 ≡ true) where
  insert_all-Holds :
      (t : HashTable) (pairs : List KeyValuePair)
      → Holds [] t
      → All (λ p. IsAscii p.key) pairs
      → (t' : HashTable) × (insert_all alloc t pairs ≡ done t') × Holds pairs t'
  unfolding insert_all newest
  insert_all-Holds t [] h a = (t, refl, h)
  insert_all-Holds t (pair ∷ rest) h a =
      let (t', e, ih) = insert_all-Holds t rest h a.1 in
      let (t'', e', v', look) = table_insert_lem alloc t' pair.key pair.value ih.valid a.0 h0 h1 in
      (
        t'',
        rw (e, e') refl,
        record {
          valid = v';
          found = λ j. rw (look j, ih.found j) refl;
          blocks = omega (
            arith,
            ih.blocks,
            table_free-insert alloc t' t'' pair.key pair.value ih.valid a.0 e',
          );
        },
      )

  -- A table created with a positive capacity and filled with ASCII keys, every allocation granted:
  -- no call faults or ends the process, under each key the table has the value that was inserted
  -- last, and `table_free` frees two blocks for each insertion and the two of `table_create`.
  pub fill-Holds :
      (capacity : ℕ) (pairs : List KeyValuePair)
      → 0 < capacity
      → All (λ p. IsAscii p.key) pairs
      → (t : HashTable) × (fill alloc capacity pairs ≡ done t) × Holds pairs t
  unfolding fill table_create
  fill-Holds capacity pairs c a =
      let (t, e, h) = insert_all-Holds _ pairs (empty-Holds capacity c) a in (t, rw (h0, h1) e, h)
