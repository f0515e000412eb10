-- ===== src/Bank/Tests.antt =====
-- banking.c at the bank of its `main`, cut down to two branches.
use bare_metal_architect.Prelude.{
  ℕ, ◌≡◌, refl, Bool, true, false, some, List, [], ◌∷◌, arith, done, ◌>>=◌,
}
use bare_metal_architect.Text.{hash_function, hash_uint8, codes, str_eq}
use bare_metal_architect.Chains.{first, append_tail}
use bare_metal_architect.Bank.{
  find_in_chain, find, Account, Branch, Bank, init_bank, add_branch, open_account, deposit,
  new_account,
}
use bare_metal_architect.Bank.Search.{IsValid, lookup}
use bare_metal_architect.Bank.Accounts.{
  with_account, Changed, Deposited, open_account-Changed, deposit-Deposited,
}
use bare_metal_architect.Bank.Numbering.{Customer, Numbered, open_all, open_all-Numbered}

abbrev always : ℕ → Bool
always n = true

abbrev luis : Account
luis = record { fullname = codes "Luis"; balance = 100; id = 1; info = 8 }

abbrev german : Branch
german = record { branch_id = codes "GER"; accounts = luis ∷ [] }

-- "GER" adds up to 222, bucket 2.
abbrev bank : Bank
bank = record { branches = [] ∷ [] ∷ (german ∷ []) ∷ [] ∷ [] ∷ []; branch_count = 1; capacity = 5 }

bank-IsValid : IsValid bank
bank-IsValid = record { sized = refl; constant = refl }

fills :
    (init_bank always >>= λ b. add_branch always b (codes "GER") >>= λ c.
    open_account always c (codes "GER") (codes "Luis") true)
    ≡ done bank
unfolding init_bank add_branch open_account hash_uint8 hash_function find find_in_chain append_tail
    str_eq new_account
fills = refl

here : lookup bank (codes "GER") ≡ some german
unfolding first str_eq
here = refl

open_account-Changed_example :
    Changed bank
      (codes "GER")
      german
      (with_account german (codes "Mario") false)
      (open_account always bank (codes "GER") (codes "Mario") false)
open_account-Changed_example =
    open_account-Changed bank (codes "GER") bank-IsValid (omega arith) always german (codes "Mario")
      false here refl refl refl

deposit-Deposited_example :
    Deposited bank
      (codes "GER")
      (codes "Luis")
      german
      luis
      50
      (deposit bank (codes "GER") (codes "Luis") 50)
unfolding first str_eq
deposit-Deposited_example =
    deposit-Deposited bank (codes "GER") (codes "Luis") german bank-IsValid (omega arith) here luis
      50 refl

bank-Numbered : Numbered (codes "GER") 1 bank
bank-Numbered = record {
  branch = german;
  valid = bank-IsValid;
  here = here;
  ids = (refl, tt);
  count = refl;
}

abbrev row : List Customer
row =
    record { name = codes "Mario"; premium = false }
    ∷ record { name = codes "Ana"; premium = true }
    ∷ []

open_all-Numbered_example :
    (bank' : Bank) × (open_all always bank (codes "GER") row ≡ done bank')
    × Numbered (codes "GER") 3 bank'
open_all-Numbered_example =
    open_all-Numbered always refl refl refl (codes "GER") (omega arith) bank 1 row bank-Numbered
      (omega arith)
