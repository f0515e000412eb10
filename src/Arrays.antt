-- ===== src/Arrays.antt =====
-- Arrays that hold a queue or a stack in their first cells: the loop of cargo.c that moves every
-- cell one to the left, and cells behind a prefix of known length.
use bare_metal_architect.Prelude.{
  ℕ, zero, suc, ◌≡◌, refl, ap, Option, none, some, List, [], ◌∷◌, ◌++◌, length, get_elem?, set,
  replicate, Outcome, done, fault, ◌>>=◌,
}

-- The pointers to some objects.
unfoldable pub pointers {ℓ} : {A : Type ℓ} → List A → List (Option A)
pointers [] = []
pointers (x ∷ xs) = some x ∷ pointers xs

-- `for(i = 0; i < n; i++) a[i] = a[i + 1];`, on the cells from index i on.
unfoldable pub shift_left {ℓ} : {A : Type ℓ} → ℕ → List A → Outcome (List A)
shift_left zero cells = done cells
shift_left (suc n) [] = fault
shift_left (suc n) (a ∷ []) = fault
shift_left (suc n) (a ∷ b ∷ rest) = do moved ← shift_left n (b ∷ rest); done (b ∷ moved)

module _ {ℓ} {A : Type ℓ} where
  -- The cell that the moved cells leave behind.
  abbrev pub last_of : A → List A → A
  last_of a [] = a
  last_of a (b ∷ rest) = last_of b rest

  pub shift_left_lem :
      (a : A) (xs pad : List A)
      → shift_left (length xs) (a ∷ xs ++ pad) ≡ done (xs ++ (last_of a xs ∷ pad))
  unfolding shift_left
  shift_left_lem a [] pad = refl
  shift_left_lem a (x ∷ xs) pad = rw (shift_left_lem x xs pad) refl

  pub set-append :
      (xs : List A) (a : A) (pad : List A) (b : A)
      → set (xs ++ (a ∷ pad)) (length xs) b ≡ xs ++ (b ∷ pad)
  set-append [] a pad b = refl
  set-append (x ∷ xs) a pad b = ap (◌∷◌ x) (set-append xs a pad b)

  pub get_elem?-append :
      (xs : List A) (a : A) (pad : List A) → get_elem? (xs ++ (a ∷ pad)) (length xs) ≡ some a
  get_elem?-append [] a pad = refl
  get_elem?-append (x ∷ xs) a pad = get_elem?-append xs a pad

  pub length-pointers : (xs : List A) → length (pointers xs) ≡ length xs
  unfolding pointers
  length-pointers [] = refl
  length-pointers (x ∷ xs) = ap suc (length-pointers xs)

  pub pointers-append :
      (xs : List A) (x : A) (pad : List (Option A))
      → pointers (xs ++ (x ∷ [])) ++ pad ≡ pointers xs ++ (some x ∷ pad)
  unfolding pointers
  pointers-append [] x pad = refl
  pointers-append (y ∷ xs) x pad = ap (◌∷◌ (some y)) (pointers-append xs x pad)

  pub nulls : (k m : ℕ) → k ≡ suc m → replicate {A = Option A} k none ≡ none ∷ replicate m none
  nulls k m e = rw e refl
