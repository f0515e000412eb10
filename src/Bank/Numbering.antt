-- ===== src/Bank/Numbering.antt =====
-- The account numbers of a branch: 1, 2, 3, … in the order of opening.
use bare_metal_architect.Prelude.{
  subst, ℕ, suc, ◌+◌, ◌<◌, ◌≡◌, refl, Bool, true, false, some, List, [], ◌∷◌, arith, length,
  Outcome, done, ◌>>=◌,
}
use bare_metal_architect.Text.{Text, str_eq_refl, IsAscii}
use bare_metal_architect.Chains.{append_tail, length-append_tail}
use bare_metal_architect.Bank.{
  sym, ap, Account, Branch, Bank, uint32_mod, next_id, new_account, open_account,
}
use bare_metal_architect.Bank.Search.{IsValid, lookup}
use bare_metal_architect.Bank.Accounts.{append_tail-with_account, open_account-Changed}

-- The ids count up from n.
abbrev pub NumberedFrom : ℕ → List Account → Type 0
NumberedFrom n [] = Unit
NumberedFrom n (x ∷ xs) = (x.id ≡ n) × NumberedFrom (suc n) xs

next_id-from :
    (n : ℕ) (x : Account) (xs : List Account)
    → NumberedFrom n (x ∷ xs)
    → n + length xs + 1 < uint32_mod
    → next_id (x ∷ xs) ≡ n + length xs + 1
unfolding next_id
next_id-from n x [] h lt = omega (arith, h)
next_id-from n x (y ∷ ys) h lt = omega (arith, next_id-from (suc n) y ys h.1 (omega arith))

next_id-NumberedFrom :
    (xs : List Account)
    → NumberedFrom 1 xs
    → length xs + 1 < uint32_mod
    → next_id xs ≡ length xs + 1
unfolding next_id
next_id-NumberedFrom [] h lt = refl
next_id-NumberedFrom (x ∷ xs) h lt = omega (arith, next_id-from 1 x xs h (omega arith))

append_tail-NumberedFrom :
    (n : ℕ) (xs : List Account) (x : Account)
    → NumberedFrom n xs
    → x.id ≡ n + length xs
    → NumberedFrom n (append_tail xs x)
unfolding append_tail
append_tail-NumberedFrom n [] x h e = (omega (arith, e), tt)
append_tail-NumberedFrom n (y ∷ ys) x h e =
    (h.0, append_tail-NumberedFrom (suc n) ys x h.1 (omega (arith, e)))

id-new_account :
    (xs : List Account) (name : Text) (premium : Bool)
    → (new_account xs name premium).id ≡ next_id xs
unfolding new_account
id-new_account xs name true = refl
id-new_account xs name false = refl

-- The accounts that customers open in one branch, one after the other.
pub record Customer : Type 0 where
  pub name : Text
  pub premium : Bool

pub open_all : (ℕ → Bool) → Bank → Text → List Customer → Outcome Bank
open_all alloc bank key [] = done bank
open_all alloc bank key (c ∷ cs) = do
  bank' ← open_account alloc bank key c.name c.premium
  open_all alloc bank' key cs

-- What a branch has after such a row of customers.
pub record Numbered (key : Text) (n : ℕ) (bank : Bank) : Type 0 where
  pub branch : Branch
  pub valid : IsValid bank
  pub here : lookup bank key ≡ some branch
  pub ids : NumberedFrom 1 branch.accounts
  pub count : length branch.accounts ≡ n

module _ (alloc : ℕ → Bool) (h0 : alloc 0 ≡ true) (h1 : alloc 1 ≡ true) (h2 : alloc 2 ≡ true)
    (key : Text) (a : IsAscii key) where
  open_account-Numbered :
      (bank : Bank) (n : ℕ) (name : Text) (premium : Bool)
      → Numbered key n bank
      → n + 1 < uint32_mod
      → (bank' : Bank) × (open_account alloc bank key name premium ≡ done bank')
        × Numbered key (n + 1) bank'
  open_account-Numbered bank n name premium h lt =
      let x = new_account h.branch.accounts name premium in
      let same = append_tail-with_account h.branch name premium in
      let c = open_account-Changed bank key h.valid a alloc h.branch name premium h.here h0 h1 h2 in
      (
        _,
        c.returned,
        record {
          branch = record {
            branch_id = h.branch.branch_id;
            accounts = append_tail h.branch.accounts x;
          };
          valid = c.valid;
          here = rw (c.found key, str_eq_refl key) (ap some (sym same));
          ids = append_tail-NumberedFrom 1 h.branch.accounts x h.ids (
              omega (
                arith,
                h.count,
                id-new_account h.branch.accounts name premium,
                next_id-NumberedFrom h.branch.accounts h.ids (omega (arith, h.count)),
              ));
          count = omega (arith, length-append_tail h.branch.accounts x, h.count);
        },
      )

  -- Customers who open their accounts in a branch whose accounts are numbered 1 to n, every
  -- allocation granted and fewer than 2 ^ 32 numbers used: no call faults or ends the process, and
  -- the accounts are numbered from 1 on, one for each customer more.
  pub open_all-Numbered :
      (bank : Bank) (n : ℕ) (cs : List Customer)
      → Numbered key n bank
      → n + length cs < uint32_mod
      → (bank' : Bank) × (open_all alloc bank key cs ≡ done bank')
        × Numbered key (n + length cs) bank'
  unfolding open_all
  open_all-Numbered bank n [] h lt = (bank, refl, subst (λ k. Numbered key k bank) (omega arith) h)
  open_all-Numbered bank n (c ∷ cs) h lt =
      let (mid, opened, h') = open_account-Numbered bank n c.name c.premium h (omega arith) in
      let (after, rest, h'') = open_all-Numbered mid (n + 1) cs h' (omega arith) in
      (after, rw (opened, rest) refl, subst (λ k. Numbered key k after) (omega arith) h'')
