-- ===== src/Chains.antt =====
-- The walk along a chain of nodes that inventory, bank, cargo bay and vending machine share: a new
-- node goes behind the last one, and a search returns the first node with the name.
use bare_metal_architect.Prelude.{
  All, ℕ, suc, ◌<◌, ◌≡◌, refl, ap, inl, inr, true, false, Option, none, some, List, [], ◌∷◌, ◌++◌,
  arith, if◌then◌else◌, Bool-cases, Option-cases, length, get_elem?, set,
}
use bare_metal_architect.Text.{Text, str_eq, str_eq_iff}

-- `while (current->next != NULL) current = current->next; current->next = node;`, or the head
-- itself where there is none.
unfoldable pub append_tail {ℓ} : {A : Type ℓ} → List A → A → List A
append_tail [] node = node ∷ []
append_tail (x ∷ rest) node = x ∷ append_tail rest node

pub append_tail-eq-append {ℓ} :
    {A : Type ℓ} (xs : List A) (node : A) → append_tail xs node ≡ xs ++ (node ∷ [])
unfolding append_tail
append_tail-eq-append [] node = refl
append_tail-eq-append (x ∷ rest) node = ap (◌∷◌ x) (append_tail-eq-append rest node)

-- A node behind the tail that the list keeps a pointer to, or the only node.
abbrev pub linked {ℓ} : {A : Type ℓ} → List A → A → List A
linked [] node = node ∷ []
linked (head ∷ rest) node = (head ∷ rest) ++ (node ∷ [])

pub linked-eq-append {ℓ} :
    {A : Type ℓ} (xs : List A) (node : A) → linked xs node ≡ xs ++ (node ∷ [])
linked-eq-append [] node = refl
linked-eq-append (x ∷ xs) node = refl

-- The other option, if there is none here.
abbrev pub or_else {ℓ} : {A : Type ℓ} → Option A → Option A → Option A
or_else none b = b
or_else (some a) b = some a

module _ {A : Type 0} (name : A → Text) where
  -- The position of the first node with the name: the pointer that a search returns.
  unfoldable pub find_pos : List A → Text → Option ℕ
  find_pos [] key = none
  find_pos (x ∷ rest) key =
      if str_eq (name x) key
      then some 0
      else elim (find_pos rest key) [ none ↦ none | some k ↦ some (suc k) ]

  -- The node itself.
  unfoldable pub first : List A → Text → Option A
  first [] key = none
  first (x ∷ rest) key = if str_eq (name x) key then some x else first rest key

  pub first-append_tail :
      (xs : List A) (node : A) (key : Text)
      → first (append_tail xs node) key
        ≡ or_else (first xs key) (if str_eq (name node) key then some node else none)
  unfolding first append_tail
  first-append_tail [] node key = refl
  first-append_tail (x ∷ rest) node key = ground (arith, first-append_tail rest node key)

  pub find_pos-first :
      (xs : List A) (key : Text) (a : A)
      → first xs key ≡ some a
      → (k : ℕ) × (find_pos xs key ≡ some k) × (get_elem? xs k ≡ some a) × (k < length xs)
  unfolding first find_pos
  find_pos-first [] key a e = absurd (cc)
  find_pos-first (x ∷ rest) key a e = elim (Bool-cases (str_eq (name x) key)) [
    | inl here ↦ (0, rw here, ground arith, omega arith)
    | inr there ↦
        let (k, p, q, r) = find_pos-first rest key a (rw there at e) in
        (suc k, rw (there, p), q, omega arith)
  ]

  pub find_pos-first-none :
      (xs : List A) (key : Text) → first xs key ≡ none → find_pos xs key ≡ none
  unfolding first find_pos
  find_pos-first-none [] key e = refl
  find_pos-first-none (x ∷ rest) key e = ground (arith, find_pos-first-none rest key)

  pub name-first : (xs : List A) (key : Text) (a : A) → first xs key ≡ some a → name a ≡ key
  unfolding first
  name-first [] key a e = absurd (cc)
  name-first (x ∷ rest) key a e = ground (arith, str_eq_iff (name x) key, name-first rest key a)

  find_pos-suc :
      (x : A) (rest : List A) (key : Text) (k : ℕ)
      → str_eq (name x) key ≡ false
      → find_pos (x ∷ rest) key ≡ some k
      → (m : ℕ) × (find_pos rest key ≡ some m) × (k ≡ suc m)
  unfolding find_pos
  find_pos-suc x rest key k e h = elim (Option-cases (find_pos rest key)) [
    | inl missing ↦ absurd (ground arith)
    | inr (m, found) ↦ (m, found, ground arith)
  ]

  find_pos-zero :
      (x : A) (rest : List A) (key : Text) (k : ℕ)
      → str_eq (name x) key ≡ true
      → find_pos (x ∷ rest) key ≡ some k
      → k ≡ 0
  unfolding find_pos
  find_pos-zero x rest key k e h = ground arith

  -- The found node is replaced by one of the same name.
  pub first-set :
      (xs : List A) (key : Text) (k : ℕ) (a : A) (j : Text)
      → find_pos xs key ≡ some k
      → name a ≡ key
      → first (set xs k a) j ≡ (if str_eq key j then some a else first xs j)
  unfolding first find_pos
  first-set [] key k a j e h = absurd (cc)
  first-set (x ∷ rest) key k a j e h = elim (Bool-cases (str_eq (name x) key)) [
    | inl here ↦
        rw (find_pos-zero x rest key k here e)
          (ground (arith, h, str_eq_iff (name x) key, str_eq_iff (name a) j, str_eq_iff key j))
    | inr there ↦
        let (m, p, q) = find_pos-suc x rest key k there e in
        rw q (
          ground (
            arith,
            first-set rest key m a j p h,
            str_eq_iff (name x) key,
            str_eq_iff (name x) j,
            str_eq_iff key j,
          ))
  ]

pub All-append_tail {ℓ κ} :
    {A : Type ℓ} (Q : A → Type κ) (xs : List A) (node : A)
    → All Q xs
    → Q node
    → All Q (append_tail xs node)
unfolding append_tail
All-append_tail Q [] node h q = (q, tt)
All-append_tail Q (x ∷ rest) node h q = (h.0, All-append_tail Q rest node h.1 q)

pub length-append_tail {ℓ} :
    {A : Type ℓ} (xs : List A) (node : A) → length (append_tail xs node) ≡ suc (length xs)
unfolding append_tail
length-append_tail [] node = refl
length-append_tail (x ∷ rest) node = ap suc (length-append_tail rest node)
