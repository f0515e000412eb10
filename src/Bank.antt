-- ===== src/Bank.antt =====
-- multithreading/banking.c: a bank of branches in a chained table of five buckets, and the accounts
-- of each branch in the order in which they were opened. Each call takes `alloc`, which says of its
-- n-th allocation whether the C library grants it. Printing is left out.
pub mod Search
pub mod Accounts
pub mod Numbering
mod Tests
use Prim.Native.Nat.{bit_or}
use bare_metal_architect.Prelude.{
  ℕ, zero, suc, ◌+◌, ◌-◌, ◌*◌, ◌/◌, ◌%◌, ◌^◌, ◌≤◌, ◌<◌, ◌≡◌, refl, sym, ap, ◌∙◌, ◌≢◌, ◌↔◌, ◌⊎◌, inl,
  inr, Bool, true, false, ◌&&◌, ◌||◌, not, Option, none, some, List, [], ◌∷◌, ◌++◌, arith, ltb, leb,
  ◌==◌, if◌then◌else◌, Bool-cases, Option-cases, length, get_elem?, get_elem?-some, set, replicate,
  take, drop, All, length-append, length-set, length-replicate, get_elem?-set_self,
  get_elem?-set_ne, get_elem?-replicate, ℤ, pos, negsuc, to_uint8, Outcome, done, exits, fault,
  ◌>>=◌, ◌>>◌, or_fault, index, index_int, granted, ℕ_discrete, dec_lt, ltb→lt, lt→ltb, leb→le,
  ==_iff,
}
use bare_metal_architect.Text.{Text, str_eq, hash_uint8}
use bare_metal_architect.Bytes.{bit}
use bare_metal_architect.Chains.{append_tail, find_pos}

abbrev pub bank_branch_capacity : ℕ
bank_branch_capacity = 5

abbrev pub premium_bit : ℕ
premium_bit = 3

abbrev pub uint32_mod : ℕ
uint32_mod = 2 ^ 32

-- The account with its customer's name. `balance` is the 32 bits of the `int`.
pub record Account : Type 0 where
  pub fullname : Text
  pub balance : ℕ
  pub id : ℕ
  pub info : ℕ

-- The accounts from `head` to `tail`.
pub record Branch : Type 0 where
  pub branch_id : Text
  pub accounts : List Account

pub record Bank : Type 0 where
  pub branches : List (List Branch)
  pub branch_count : ℕ
  pub capacity : ℕ

abbrev pub id_of : Branch → Text
id_of b = b.branch_id

abbrev pub name_of : Account → Text
name_of a = a.fullname

-- The `int` that 32 bits stand for.
abbrev pub int32 : ℕ → ℤ
int32 b = if ltb b (2 ^ 31) then pos b else negsuc (uint32_mod - 1 - b)

pub init_bank : (ℕ → Bool) → Outcome Bank
init_bank alloc = do
  granted (alloc 0)
  granted (alloc 1)
  done (record {
    branches = replicate bank_branch_capacity [];
    branch_count = 0;
    capacity = bank_branch_capacity;
  })

pub add_branch : (ℕ → Bool) → Bank → Text → Outcome Bank
add_branch alloc bank branch_name = do
  granted (alloc 0)
  granted (alloc 1)
  idx ← hash_uint8 branch_name bank.capacity
  chain ← index bank.branches idx
  done (record bank {
    branches =
        set bank.branches idx
          (append_tail chain (record { branch_id = branch_name; accounts = [] }));
    branch_count = (bank.branch_count + 1) % 256;
  })

-- A pointer to a branch: its bucket, and its place in the chain.
pub record BranchPtr : Type 0 where
  pub bucket : ℕ
  pub place : ℕ

-- `find` on the chain of the bucket: the head is compared first, then the loop starts again at it.
pub find_in_chain : ℕ → List Branch → Text → Option BranchPtr
find_in_chain idx [] branch_id = none
find_in_chain idx (head ∷ rest) branch_id =
    if str_eq head.branch_id branch_id
    then some (record { bucket = idx; place = 0 })
    else elim (find_pos id_of (head ∷ rest) branch_id) [
      | none ↦ none
      | some k ↦ some (record { bucket = idx; place = k })
    ]

pub find : Bank → Text → Outcome (Option BranchPtr)
find bank branch_id = do
  idx ← hash_uint8 branch_id bank_branch_capacity
  chain ← index bank.branches idx
  done (find_in_chain idx chain branch_id)

pub load_branch : Bank → BranchPtr → Outcome Branch
load_branch bank p = do chain ← index bank.branches p.bucket; index chain p.place

pub store_branch : Bank → BranchPtr → Branch → Outcome Bank
store_branch bank p b = do
  chain ← index bank.branches p.bucket
  done (record bank { branches = set bank.branches p.bucket (set chain p.place b) })

-- A null pointer ends the process.
abbrev pub or_exit {ℓ} : {A : Type ℓ} → Option A → Outcome A
or_exit none = exits
or_exit (some a) = done a

-- 1 for the first account; then one more than the id of the last.
pub next_id : List Account → ℕ
next_id [] = 1
next_id (a ∷ []) = (a.id + 1) % uint32_mod
next_id (a ∷ b ∷ rest) = next_id (b ∷ rest)

pub new_account : List Account → Text → Bool → Account
unfolding next_id
new_account accounts customer_name true = record {
  fullname = customer_name;
  balance = 100;
  id = next_id accounts;
  info = bit_or 0 (bit premium_bit);
}
new_account accounts customer_name false = record {
  fullname = customer_name;
  balance = 0;
  id = next_id accounts;
  info = 0;
}

pub open_account : (ℕ → Bool) → Bank → Text → Text → Bool → Outcome Bank
unfolding load_branch store_branch
open_account alloc bank branch_id customer_name is_premium = do
  found ← find bank branch_id
  p ← or_exit found
  granted (alloc 0)
  granted (alloc 1)
  granted (alloc 2)
  b ← load_branch bank p
  store_branch bank p (record b {
    accounts = append_tail b.accounts (new_account b.accounts customer_name is_premium);
  })

-- A pointer to an account: its branch, and its place there.
pub record AccountPtr : Type 0 where
  pub branch : BranchPtr
  pub number : ℕ

-- The loop over the branches of the chain returns in its first round.
pub find_customer : Bank → Text → Text → Outcome (Option AccountPtr)
unfolding load_branch
find_customer bank branch_id customer_name = do
  found ← find bank branch_id
  p ← or_exit found
  b ← load_branch bank p
  done (elim (find_pos name_of b.accounts customer_name) [
    | none ↦ none
    | some k ↦ some (record { branch = p; number = k })
  ])

-- The branch for a null account reads the account's name first, which is a fault.
-- `balance += amt` adds an `int` and a `uint32_t`.
pub deposit : Bank → Text → Text → ℕ → Outcome Bank
unfolding load_branch store_branch
deposit bank branch_id customer_name amt = do
  found ← find_customer bank branch_id customer_name
  q ← or_fault found
  b ← load_branch bank q.branch
  a ← index b.accounts q.number
  store_branch bank q.branch (record b {
    accounts = set b.accounts q.number (record a { balance = (a.balance + amt) % uint32_mod });
  })
