-- ===== src/Bank/Search.antt =====
-- Where `find` and `find_customer` of banking.c point.
use bare_metal_architect.Prelude.{
  ℕ, ◌%◌, ◌≡◌, refl, ◌∙◌, Option, none, some, List, [], ◌∷◌, arith, if◌then◌else◌, length,
  get_elem?, set, length-set, done,
}
use bare_metal_architect.Text.{Text, str_eq, IsAscii, sum, hash_uint8, hash_uint8-eq-sum}
use bare_metal_architect.Chains.{first, find_pos, find_pos-first, find_pos-first-none, name-first}
use bare_metal_architect.Tables
use bare_metal_architect.Tables.{bucket_of, lookup-replace, lookup-append_tail}
use bare_metal_architect.Bank.{
  Branch, Bank, BranchPtr, id_of, bank_branch_capacity, find_in_chain, find, load_branch,
  store_branch,
}

pub record IsValid (bank : Bank) : Type 0 where
  pub sized : length bank.branches ≡ bank_branch_capacity
  pub constant : bank.capacity ≡ bank_branch_capacity

abbrev pub slot : Text → ℕ
slot key = sum key % bank_branch_capacity

-- The branch that the bank has under an id: the one that was added first.
abbrev pub lookup : Bank → Text → Option Branch
lookup bank key = Tables.lookup id_of bank_branch_capacity bank.branches key

pub hashed : (key : Text) → IsAscii key → hash_uint8 key bank_branch_capacity ≡ done (slot key)
hashed key a = hash_uint8-eq-sum key bank_branch_capacity a (omega arith) (omega arith)

pub chain_of :
    (bank : Bank) (key : Text)
    → IsValid bank
    → (chain : List Branch) × (get_elem? bank.branches (slot key) ≡ some chain)
chain_of bank key v = bucket_of id_of bank_branch_capacity bank.branches key v.sized (omega arith)

found_in_chain :
    (idx : ℕ) (chain : List Branch) (key : Text) (k : ℕ)
    → find_pos id_of chain key ≡ some k
    → find_in_chain idx chain key ≡ some (record { bucket = idx; place = k })
unfolding find_in_chain find_pos
found_in_chain idx [] key k e = absurd (cc)
found_in_chain idx (head ∷ rest) key k e = ground arith

missing_in_chain :
    (idx : ℕ) (chain : List Branch) (key : Text)
    → find_pos id_of chain key ≡ none
    → find_in_chain idx chain key ≡ none
unfolding find_in_chain find_pos
missing_in_chain idx [] key e = refl
missing_in_chain idx (head ∷ rest) key e = ground arith

-- The bank with the branch that `ptr` points to replaced, in the chain of its bucket; all else stays.
abbrev pub replaced : Bank → BranchPtr → List Branch → Branch → Bank
replaced bank ptr chain b' = record bank {
  branches = set bank.branches ptr.bucket (set chain ptr.place b');
}

-- `find` ends at a pointer, and reading and writing through it.
pub record Points (bank : Bank) (key : Text) (b : Branch) : Type 0 where
  pub ptr : BranchPtr
  pub returned : find bank key ≡ done (some ptr)
  pub loads : load_branch bank ptr ≡ done b
  pub named : b.branch_id ≡ key
  pub chain : List Branch
  pub bucket : get_elem? bank.branches ptr.bucket ≡ some chain
  pub place : get_elem? chain ptr.place ≡ some b
  pub stores :
      (b' : Branch)
      → b'.branch_id ≡ key
      → (store_branch bank ptr b' ≡ done (replaced bank ptr chain b'))
        × IsValid (replaced bank ptr chain b')
        × ((j : Text)
            → lookup (replaced bank ptr chain b') j
              ≡ (if str_eq key j then some b' else lookup bank j))

pub find-Points :
    (bank : Bank) (key : Text) (b : Branch)
    → IsValid bank
    → IsAscii key
    → lookup bank key ≡ some b
    → Points bank key b
unfolding find load_branch store_branch
find-Points bank key b v a e =
    let (chain, at) = chain_of bank key v in
    let here : first id_of chain key ≡ some b = rw at at e in
    let (k, p, q, _) = find_pos-first id_of chain key b here in
    record {
      ptr = record { bucket = slot key; place = k };
      returned = rw (hashed key a, at, found_in_chain (slot key) chain key k p) refl;
      loads = rw (at, q) refl;
      named = name-first id_of chain key b here;
      chain = chain;
      bucket = at;
      place = q;
      stores = λ b' h. (
        rw at refl,
        record {
          sized = length-set bank.branches (slot key) (set chain k b') ∙ v.sized;
          constant = v.constant;
        },
        λ j.
            lookup-replace id_of bank_branch_capacity bank.branches key j chain k b' v.sized
              (omega arith) at p h,
      );
    }

-- `find` of an ASCII id that no branch has returns a null pointer.
pub find_missing :
    (bank : Bank) (key : Text)
    → IsValid bank
    → IsAscii key
    → lookup bank key ≡ none
    → find bank key ≡ done none
unfolding find
find_missing bank key v a e =
    let (chain, at) = chain_of bank key v in
    rw
      (
        hashed key a,
        at,
        missing_in_chain (slot key) chain key (find_pos-first-none id_of chain key (rw at at e)),
      )
      refl
