-- ===== src/BinaryTree/InOrder.antt =====
-- The values of the tree in order, against a sorted list without duplicates.
use bare_metal_architect.Prelude.{
  ◌≡◌, refl, sym, ap, ◌∙◌, inl, inr, true, false, List, [], ◌∷◌, ◌++◌, arith, if◌then◌else◌,
  Bool-cases, All, ℤ, done,
}
use bare_metal_architect.Prelude.{ltb_ℤ}
use bare_metal_architect.BinaryTree.{TreeNode, empty, node, tree_insert, tree_print_inorder}

-- The reference: the value at its place in a sorted list, unless it is there.
unfoldable pub insert_sorted : ℤ → List ℤ → List ℤ
insert_sorted v [] = v ∷ []
insert_sorted v (x ∷ xs) =
    let rest = insert_sorted v xs in
    if ltb_ℤ v x then v ∷ x ∷ xs else if ltb_ℤ x v then x ∷ rest else x ∷ xs

-- Every value is smaller than those behind it.
abbrev pub IsSorted : List ℤ → Type 0
IsSorted [] = Unit
IsSorted (x ∷ xs) = All (λ y. ltb_ℤ x y ≡ true) xs × IsSorted xs

module _ (a b c : ℤ) where
  lt_trans : ltb_ℤ a b ≡ true → ltb_ℤ b c ≡ true → ltb_ℤ a c ≡ true
  lt_trans p q = ground arith

  lt_asym : ltb_ℤ a b ≡ true → ltb_ℤ b a ≡ false
  lt_asym p = ground arith

-- The parts of a sorted list.
record Parts (xs : List ℤ) (m : ℤ) (ys : List ℤ) : Type 0 where
  first : IsSorted xs
  second : IsSorted ys
  below : All (λ x. ltb_ℤ x m ≡ true) xs
  above : All (λ y. ltb_ℤ m y ≡ true) ys

module _ {A : Type 0} (Q : A → Type 0) where
  All-left : (xs ys : List A) → All Q (xs ++ ys) → All Q xs
  All-left [] ys h = tt
  All-left (x ∷ xs) ys h = (h.0, All-left xs ys h.1)

  All-head : (xs : List A) (m : A) (ys : List A) → All Q (xs ++ (m ∷ ys)) → Q m
  All-head [] m ys h = h.0
  All-head (x ∷ xs) m ys h = All-head xs m ys h.1

parts : (xs : List ℤ) (m : ℤ) (ys : List ℤ) → IsSorted (xs ++ (m ∷ ys)) → Parts xs m ys
parts [] m ys h = record { first = tt; second = h.1; below = tt; above = h.0 }
parts (x ∷ xs) m ys h =
    let p = parts xs m ys h.1 in
    record {
      first = (All-left (λ y. ltb_ℤ x y ≡ true) xs (m ∷ ys) h.0, p.first);
      second = p.second;
      below = (All-head (λ y. ltb_ℤ x y ≡ true) xs m ys h.0, p.below);
      above = p.above;
    }

-- A value above the middle goes behind it.
insert_right :
    (v : ℤ) (xs : List ℤ) (m : ℤ) (ys : List ℤ)
    → All (λ x. ltb_ℤ x m ≡ true) xs
    → ltb_ℤ m v ≡ true
    → insert_sorted v (xs ++ (m ∷ ys)) ≡ xs ++ (m ∷ insert_sorted v ys)
unfolding insert_sorted
insert_right v [] m ys h lt = rw (lt_asym m v v lt, lt) refl
insert_right v (x ∷ xs) m ys h lt =
    let up = lt_trans x m v h.0 lt in
    rw (lt_asym x v v up, up) (ap (◌∷◌ x) (insert_right v xs m ys h.1 lt))

-- One below the middle goes in front of it.
insert_left :
    (v : ℤ) (xs : List ℤ) (m : ℤ) (ys : List ℤ)
    → ltb_ℤ v m ≡ true
    → insert_sorted v (xs ++ (m ∷ ys)) ≡ insert_sorted v xs ++ (m ∷ ys)
unfolding insert_sorted
insert_left v [] m ys lt = rw lt refl
insert_left v (x ∷ xs) m ys lt = elim (Bool-cases (ltb_ℤ v x)) [
  | inl here ↦ rw here refl
  | inr later ↦ elim (Bool-cases (ltb_ℤ x v)) [
    | inl behind ↦ rw (later, behind) (ap (◌∷◌ x) (insert_left v xs m ys lt))
    | inr same ↦ rw (later, same) refl
  ]
]

-- One that is neither is there.
insert_same :
    (v : ℤ) (xs : List ℤ) (m : ℤ) (ys : List ℤ)
    → All (λ x. ltb_ℤ x m ≡ true) xs
    → ltb_ℤ m v ≡ false
    → ltb_ℤ v m ≡ false
    → insert_sorted v (xs ++ (m ∷ ys)) ≡ xs ++ (m ∷ ys)
unfolding insert_sorted
insert_same v [] m ys h p q = rw (q, p) refl
insert_same v (x ∷ xs) m ys h p q =
    let less : ltb_ℤ x m ≡ true = h.0 in
    let up : ltb_ℤ x v ≡ true = ground arith in
    rw (lt_asym x v v up, up) (ap (◌∷◌ x) (insert_same v xs m ys h.1 p q))

All-insert : (Q : ℤ → Type 0) (v : ℤ) (xs : List ℤ) → Q v → All Q xs → All Q (insert_sorted v xs)
unfolding insert_sorted
All-insert Q v [] q h = (q, tt)
All-insert Q v (x ∷ xs) q h = elim (Bool-cases (ltb_ℤ v x)) [
  | inl here ↦ rw here (q, h)
  | inr later ↦ elim (Bool-cases (ltb_ℤ x v)) [
    | inl behind ↦ rw (later, behind) (h.0, All-insert Q v xs q h.1)
    | inr same ↦ rw (later, same) h
  ]
]

All-above :
    (v x : ℤ) (xs : List ℤ)
    → ltb_ℤ v x ≡ true
    → All (λ y. ltb_ℤ x y ≡ true) xs
    → All (λ y. ltb_ℤ v y ≡ true) xs
All-above v x [] lt h = tt
All-above v x (y ∷ xs) lt h = (lt_trans v x y lt h.0, All-above v x xs lt h.1)

insert_sorted-IsSorted : (v : ℤ) (xs : List ℤ) → IsSorted xs → IsSorted (insert_sorted v xs)
unfolding insert_sorted
insert_sorted-IsSorted v [] h = (tt, tt)
insert_sorted-IsSorted v (x ∷ xs) h = elim (Bool-cases (ltb_ℤ v x)) [
  | inl here ↦ rw here ((here, All-above v x xs here h.0), h)
  | inr later ↦ elim (Bool-cases (ltb_ℤ x v)) [
    | inl behind ↦
        rw (later, behind)
          (All-insert (λ y. ltb_ℤ x y ≡ true) v xs behind h.0, insert_sorted-IsSorted v xs h.1)
    | inr same ↦ rw (later, same) h
  ]
]

-- A tree that was returned, with the values of the reference.
pub record Inserted (tree : TreeNode) (v : ℤ) : Type 0 where
  pub grown : TreeNode
  pub returned : tree_insert true tree v ≡ done grown
  pub values : tree_print_inorder grown ≡ insert_sorted v (tree_print_inorder tree)

insert_lem : (tree : TreeNode) (v : ℤ) → IsSorted (tree_print_inorder tree) → Inserted tree v
unfolding tree_insert tree_print_inorder insert_sorted
insert_lem empty v h = record { grown = node v empty empty; returned = refl; values = refl }
insert_lem (node root left right) v h =
    let p = parts (tree_print_inorder left) root (tree_print_inorder right) h in
    elim (Bool-cases (ltb_ℤ root v)) [
      | inl more ↦
          let r = insert_lem right v p.second in
          record {
            grown = node root left r.grown;
            returned = rw (more, r.returned) refl;
            values =
                ap (λ l. tree_print_inorder left ++ (root ∷ l)) r.values
                ∙ sym (
                    insert_right v (tree_print_inorder left) root (tree_print_inorder right) p.below
                      more);
          }
      | inr not_more ↦ elim (Bool-cases (ltb_ℤ v root)) [
        | inl less ↦
            let l = insert_lem left v p.first in
            record {
              grown = node root l.grown right;
              returned = rw (not_more, less, l.returned) refl;
              values =
                  ap (λ xs. xs ++ (root ∷ tree_print_inorder right)) l.values
                  ∙ sym (
                      insert_left v (tree_print_inorder left) root (tree_print_inorder right) less);
            }
        | inr not_less ↦ record {
          grown = node root left right;
          returned = rw (not_more, not_less) refl;
          values = sym (
              insert_same v (tree_print_inorder left) root (tree_print_inorder right) p.below
                not_more not_less);
        }
      ]
    ]

-- Where the values of a tree are in order and without duplicates, an insertion with memory returns
-- a tree whose values are those that the insertion into a sorted list gives, and they are in order
-- again.
pub tree_insert-eq-insert_sorted :
    (tree : TreeNode) (v : ℤ)
    → IsSorted (tree_print_inorder tree)
    → (r : Inserted tree v) × IsSorted (tree_print_inorder r.grown)
tree_insert-eq-insert_sorted tree v h =
    let r = insert_lem tree v h in
    (r, rw (r.values) (insert_sorted-IsSorted v (tree_print_inorder tree) h))
