-- ===== src/HashTable.antt =====
-- data-structures/hash-table.c: a chained table from C strings to `int`. Each call takes `alloc`,
-- which says of its n-th allocation whether the C library grants it. Printing is left out.
pub mod Lookup
pub mod Release
mod Tests
use bare_metal_architect.Prelude.{
  ℕ, ◌+◌, Bool, true, false, List, [], ◌∷◌, ◌++◌, ◌==◌, if◌then◌else◌, ℤ, pos, negsuc, Outcome,
  done, exits, fault, ◌>>=◌, ◌>>◌, index_int, set, replicate,
}
use bare_metal_architect.Text.{Text, str_eq, hash_function}

-- `struct KeyValuePair`; the `next` links are the chain's list.
pub record KeyValuePair : Type 0 where
  pub key : Text
  pub value : ℤ

abbrev pub Chain : Type 0
Chain = List KeyValuePair

pub record HashTable : Type 0 where
  pub buckets : List Chain
  pub capacity : ℕ

-- HT, KVP and KEY.
abbrev pub ht : ℕ
ht = 0

abbrev pub kvp : ℕ
kvp = 1

abbrev pub key_type : ℕ
key_type = 2

-- `allocated` says that the pointer is not null. An unknown type is reported and passed over.
pub check_alloc : Bool → ℕ → Outcome (Unit {0})
check_alloc allocated type =
    if type == ht
    then verdict
    else if type == kvp
    then verdict
    else if type == key_type
    then verdict
    else done tt
  where
    verdict : Outcome (Unit {0})
    verdict = if allocated then done tt else exits

pub table_create : (ℕ → Bool) → ℕ → Outcome HashTable
unfolding check_alloc
table_create alloc capacity = do
  check_alloc (alloc 0) ht
  check_alloc (alloc 1) kvp
  done (record { buckets = replicate capacity []; capacity = capacity })

-- `table->buckets[index] = chain`.
abbrev pub store : List Chain → ℤ → Chain → List Chain
store bs (pos i) chain = set bs i chain
store bs (negsuc i) chain = bs

-- The new pair becomes the head, whether the bucket was empty or not.
pub link : KeyValuePair → Chain → Chain
link pair [] = pair ∷ []
link pair (head ∷ rest) = pair ∷ head ∷ rest

pub table_insert : (ℕ → Bool) → HashTable → Text → ℤ → Outcome HashTable
unfolding check_alloc link
table_insert alloc table key value = do
  check_alloc (alloc 0) kvp
  i ← hash_function key table.capacity
  check_alloc (alloc 1) key_type
  chain ← index_int table.buckets i
  done (record table {
    buckets = store table.buckets i (link (record { key = key; value = value }) chain);
  })

-- The loop over the chain, and the -1 behind it.
pub scan : Chain → Text → ℤ
scan [] key = negsuc 0
scan (pair ∷ rest) key = if str_eq pair.key key then pair.value else scan rest key

pub reply : Chain → Text → Outcome ℤ
unfolding scan
reply [] key = exits
reply (pair ∷ rest) key = done (scan (pair ∷ rest) key)

pub table_get : HashTable → Text → Outcome ℤ
unfolding reply
table_get table key = do
  i ← hash_function key table.capacity
  chain ← index_int table.buckets i
  reply chain key

-- A block of memory that `free` is handed.
pub data Block : Type 0 where
  key_of node_of : KeyValuePair → Block
  bucket_array table_struct : Block

pub free_chain : Chain → List Block
free_chain [] = []
free_chain (pair ∷ rest) = key_of pair ∷ node_of pair ∷ free_chain rest

pub free_buckets : List Chain → List Block
unfolding free_chain
free_buckets [] = []
free_buckets (chain ∷ rest) = free_chain chain ++ free_buckets rest

-- The blocks in the order in which they are freed.
pub table_free : HashTable → List Block
unfolding free_buckets
table_free table = free_buckets table.buckets ++ (bucket_array ∷ table_struct ∷ [])
