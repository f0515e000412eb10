-- ===== src/Bank/Accounts.antt =====
-- What opening an account and a deposit do, to the branch and to the rest of the bank.
use bare_metal_architect.Prelude.{
  ℕ, zero, suc, ◌+◌, ◌-◌, ◌^◌, ◌%◌, ◌++◌, length, false, ◌≡◌, refl, ap, ◌∙◌, Bool, true, none, some,
  List, [], ◌∷◌, arith, if◌then◌else◌, get_elem?, set, length-set, Outcome, done, exits, fault,
}
use bare_metal_architect.Text.{Text, str_eq, IsAscii}
use bare_metal_architect.Chains.{
  append_tail-eq-append, append_tail, first, find_pos-first, find_pos-first-none, first-set,
  name-first,
}
use bare_metal_architect.Tables.{lookup-append_tail}
use mathlib.Core.Option.{some-injective}
use bare_metal_architect.Chains.{or_else}
use bare_metal_architect.Bank.{
  premium_bit, next_id, length, BranchPtr, Account, Branch, Bank, id_of, name_of, uint32_mod,
  bank_branch_capacity, new_account, add_branch, find_customer, open_account, deposit,
}
use bare_metal_architect.Bank.Search.{
  replaced, IsValid, lookup, slot, hashed, chain_of, find-Points, find_missing,
}

-- The bank after the branch `b` that it has under the key became `b'`: in the chain of its bucket
-- that one branch is replaced, and nothing else of the bank is. Every other id finds what it found.
pub record Changed (bank : Bank) (key : Text) (b b' : Branch) (r : Outcome Bank) : Type 0 where
  pub ptr : BranchPtr
  pub chain : List Branch
  pub bucket : get_elem? bank.branches ptr.bucket ≡ some chain
  pub place : get_elem? chain ptr.place ≡ some b
  pub returned : r ≡ done (replaced bank ptr chain b')
  pub valid : IsValid (replaced bank ptr chain b')
  pub found :
      (j : Text)
      → lookup (replaced bank ptr chain b') j ≡ (if str_eq key j then some b' else lookup bank j)

-- The id that follows the last account's, 1 where there is no account.
abbrev pub number_after : List Account → ℕ
number_after accounts = elim (get_elem? accounts (length accounts - 1)) [
  | none ↦ 1
  | some x ↦ (x.id + 1) % uint32_mod
]

-- The branch with one account more, which is the last: 100 and the premium bit for a premium
-- customer, 0 and no bit for any other.
abbrev pub with_account : Branch → Text → Bool → Branch
with_account b name premium = record b {
  accounts =
      b.accounts
      ++ (record {
        fullname = name;
        balance = if premium then 100 else 0;
        id = number_after b.accounts;
        info = if premium then 2 ^ premium_bit else 0;
      }
          ∷ []);
}

next_id-number_after : (accounts : List Account) → next_id accounts ≡ number_after accounts
unfolding next_id
next_id-number_after [] = refl
next_id-number_after (x ∷ []) = refl
next_id-number_after (x ∷ y ∷ rest) =
    let last : length (x ∷ y ∷ rest) - 1 ≡ suc (length (y ∷ rest) - 1) = omega arith in
    rw (number_after, last) (next_id-number_after (y ∷ rest))

pub append_tail-with_account :
    (b : Branch) (name : Text) (premium : Bool)
    → record b { accounts = append_tail b.accounts (new_account b.accounts name premium) }
      ≡ with_account b name premium
unfolding new_account
append_tail-with_account b name true =
    rw (append_tail-eq-append, next_id-number_after b.accounts) refl
append_tail-with_account b name false =
    rw (append_tail-eq-append, next_id-number_after b.accounts) refl

-- `add_branch` of an ASCII name to a valid bank, its allocations granted: an empty branch is found
-- under the name unless one was there before; every other id finds what it found.
pub add_branch_lem :
    (alloc : ℕ → Bool) (bank : Bank) (name : Text)
    → IsValid bank
    → IsAscii name
    → alloc 0 ≡ true
    → alloc 1 ≡ true
    → (bank' : Bank) × (add_branch alloc bank name ≡ done bank')
      × IsValid bank'
      × ((j : Text)
          → lookup bank' j
            ≡ or_else
                (lookup bank j)
                (if str_eq name j then some (record { branch_id = name; accounts = [] }) else none))
unfolding add_branch
add_branch_lem alloc bank name v a h0 h1 =
    let (chain, at) = chain_of bank name v in
    let fresh : Branch = record { branch_id = name; accounts = [] } in
    (
      record bank {
        branches = set bank.branches (slot name) (append_tail chain fresh);
        branch_count = (bank.branch_count + 1) % 256;
      },
      rw (h0, h1, v.constant, hashed name a, at) refl,
      record {
        sized = length-set bank.branches (slot name) (append_tail chain fresh) ∙ v.sized;
        constant = v.constant;
      },
      λ j.
          lookup-append_tail id_of bank_branch_capacity bank.branches fresh j chain v.sized
            (omega arith) at,
    )

module _ (bank : Bank) (key : Text) (v : IsValid bank) (a : IsAscii key) where
  -- `open_account` in a valid bank, in a branch that is there under an ASCII id, its allocations
  -- granted: one account is added behind the branch's accounts, with the customer's name, the id
  -- after the last account's (modulo 2 ^ 32; 1 in an empty branch), and 100 and the premium bit for
  -- a premium customer, 0 and no bit for any other. Nothing else of the bank changes.
  pub open_account-Changed :
      (alloc : ℕ → Bool) (b : Branch) (name : Text) (premium : Bool)
      → lookup bank key ≡ some b
      → alloc 0 ≡ true
      → alloc 1 ≡ true
      → alloc 2 ≡ true
      → Changed bank key b (with_account b name premium) (open_account alloc bank key name premium)
  unfolding open_account
  open_account-Changed alloc b name premium e h0 h1 h2 =
      let f = find-Points bank key b v a e in
      let (stored, valid, found) = f.stores (with_account b name premium) f.named in
      record {
        ptr = f.ptr;
        chain = f.chain;
        bucket = f.bucket;
        place = f.place;
        returned =
            rw (f.returned, h0, h1, h2, f.loads, append_tail-with_account b name premium) stored;
        valid = valid;
        found = found;
      }

  -- An id that no branch has ends the process.
  pub open_account_unknown :
      (alloc : ℕ → Bool) (name : Text) (premium : Bool)
      → lookup bank key ≡ none
      → open_account alloc bank key name premium ≡ exits
  unfolding open_account
  open_account_unknown alloc name premium e = rw (find_missing bank key v a e) refl

-- The account with the amount added, modulo 2 ^ 32.
abbrev pub credited : Account → ℕ → Account
credited x amt = record x { balance = (x.balance + amt) % uint32_mod }

pub balances : List Account → ℕ
balances [] = 0
balances (x ∷ xs) = x.balance + balances xs

balances-set :
    (xs : List Account) (k : ℕ) (old new : Account)
    → get_elem? xs k ≡ some old
    → balances (set xs k new) + old.balance ≡ balances xs + new.balance
unfolding balances
balances-set [] k old new e = absurd (cc)
balances-set (x ∷ xs) zero old new e =
    omega (arith, ap (λ (o : Account). o.balance) (some-injective x old e))
balances-set (x ∷ xs) (suc k) old new e = omega (arith, balances-set xs k old new e)

-- A deposit to the account `x` at the place `number` of the branch: in its list that one account is
-- replaced by the credited one, every other account and their order stay.
pub record Deposited (bank : Bank) (key name : Text) (b : Branch) (x : Account) (amt : ℕ)
    (r : Outcome Bank) : Type 0 where
  pub number : ℕ
  pub account : get_elem? b.accounts number ≡ some x
  pub changed :
      Changed bank key b (record b { accounts = set b.accounts number (credited x amt) }) r
  pub first_named :
      (n : Text)
      → first name_of (set b.accounts number (credited x amt)) n
        ≡ (if str_eq name n then some (credited x amt) else first name_of b.accounts n)
  pub sum_grows :
      balances (set b.accounts number (credited x amt)) + x.balance
      ≡ balances b.accounts + (x.balance + amt) % uint32_mod

module _ (bank : Bank) (key name : Text) (b : Branch) (v : IsValid bank) (a : IsAscii key)
    (e : lookup bank key ≡ some b) where
  -- `deposit` in a valid bank, to an account that is there in the branch of an ASCII id: the
  -- first account of the name in that branch grows by the amount (modulo 2 ^ 32), so does the sum
  -- of the branch's balances, and nothing else of the account, the branch or the bank changes.
  pub deposit-Deposited :
      (x : Account) (amt : ℕ)
      → first name_of b.accounts name ≡ some x
      → Deposited bank key name b x amt (deposit bank key name amt)
  unfolding deposit find_customer
  deposit-Deposited x amt h =
      let f = find-Points bank key b v a e in
      let (k, p, q, _) = find_pos-first name_of b.accounts name x h in
      let after = set b.accounts k (credited x amt) in
      let (stored, valid, found) = f.stores (record b { accounts = after }) f.named in
      record {
        number = k;
        account = q;
        changed = record {
          ptr = f.ptr;
          chain = f.chain;
          bucket = f.bucket;
          place = f.place;
          returned = rw (f.returned, f.loads, p, f.loads, q) stored;
          valid = valid;
          found = found;
        };
        first_named = λ n.
            first-set name_of b.accounts name k (credited x amt) n p
              (name-first name_of b.accounts name x h);
        sum_grows = balances-set b.accounts k x (credited x amt) q;
      }

  -- `deposit` in a valid bank, to a name that has no account in the branch of an ASCII id, follows
  -- the null pointer.
  pub deposit_missing :
      (amt : ℕ) → first name_of b.accounts name ≡ none → deposit bank key name amt ≡ fault
  unfolding deposit find_customer
  deposit_missing amt h =
      let f = find-Points bank key b v a e in
      rw (f.returned, f.loads, find_pos-first-none name_of b.accounts name h) refl
