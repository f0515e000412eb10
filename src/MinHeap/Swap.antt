-- ===== src/MinHeap/Swap.antt =====
-- The first cells of an array as a bag, and two nodes that change their places.
use bare_metal_architect.Prelude.{
  ℕ, zero, suc, ◌+◌, ◌≤◌, ◌<◌, ◌≡◌, refl, sym, ap, ◌∙◌, ◌≢◌, Bool, true, false, some, List, [], ◌∷◌,
  arith, length, get_elem?, set, take, length-set, get_elem?-set_self, get_elem?-set_ne,
}
use mathlib.Core.Option.{some-injective}
use bare_metal_architect.MinHeap.{HeapNode, swap}

abbrev pub one_if : Bool → ℕ
one_if true = 1
one_if false = 0

module _ {A : Type 0} where
  -- How many elements pass the test.
  abbrev pub count : (A → Bool) → List A → ℕ
  count p [] = 0
  count p (x ∷ xs) = one_if (p x) + count p xs

  pub count-set :
      (p : A → Bool) (xs : List A) (i : ℕ) (old new : A)
      → get_elem? xs i ≡ some old
      → count p (set xs i new) + one_if (p old) ≡ count p xs + one_if (p new)
  count-set p [] i old new e = absurd (cc)
  count-set p (x ∷ xs) zero old new e =
      omega (arith, ap (λ a. one_if (p a)) (some-injective x old e))
  count-set p (x ∷ xs) (suc i) old new e = omega (arith, count-set p xs i old new e)

  pub get_elem?-take :
      (n : ℕ) (xs : List A) (i : ℕ) → i < n → get_elem? (take n xs) i ≡ get_elem? xs i
  get_elem?-take zero xs i lt = elim lt [ ]
  get_elem?-take (suc n) [] i lt = refl
  get_elem?-take (suc n) (x ∷ xs) zero lt = refl
  get_elem?-take (suc n) (x ∷ xs) (suc i) lt = get_elem?-take n xs i (omega arith)

  pub take-set : (n : ℕ) (xs : List A) (i : ℕ) (v : A) → take n (set xs i v) ≡ set (take n xs) i v
  take-set zero xs i v = refl
  take-set (suc n) [] i v = refl
  take-set (suc n) (x ∷ xs) zero v = refl
  take-set (suc n) (x ∷ xs) (suc i) v = ap (◌∷◌ x) (take-set n xs i v)

  -- One cell more.
  pub count-take-suc :
      (p : A → Bool) (n : ℕ) (xs : List A) (x : A)
      → get_elem? xs n ≡ some x
      → count p (take (suc n) xs) ≡ count p (take n xs) + one_if (p x)
  count-take-suc p n [] x e = absurd (cc)
  count-take-suc p zero (y ∷ xs) x e = omega (arith, ap (λ a. one_if (p a)) (some-injective y x e))
  count-take-suc p (suc n) (y ∷ xs) x e = omega (arith, count-take-suc p n xs x e)

  -- A write outside the first cells.
  pub take-set_out : (n : ℕ) (xs : List A) (i : ℕ) (v : A) → n ≤ i → take n (set xs i v) ≡ take n xs
  take-set_out zero xs i v le = refl
  take-set_out (suc n) [] i v le = refl
  take-set_out (suc n) (x ∷ xs) zero v le = absurd (omega arith)
  take-set_out (suc n) (x ∷ xs) (suc i) v le = ap (◌∷◌ x) (take-set_out n xs i v (omega arith))

-- The node at a place, the last node of a chain of defaults outside the array.
abbrev pub dist : List HeapNode → ℕ → ℕ
dist [] i = 0
dist (x ∷ xs) zero = x.distance
dist (x ∷ xs) (suc i) = dist xs i

pub dist-get_elem? :
    (nodes : List HeapNode) (i : ℕ) (a : HeapNode)
    → get_elem? nodes i ≡ some a
    → dist nodes i ≡ a.distance
dist-get_elem? [] i a e = absurd (cc)
dist-get_elem? (x ∷ xs) zero a e = ap (λ b. b.distance) (some-injective x a e)
dist-get_elem? (x ∷ xs) (suc i) a e = dist-get_elem? xs i a e

pub dist-eq :
    (xs ys : List HeapNode) (i : ℕ) → get_elem? xs i ≡ get_elem? ys i → dist xs i ≡ dist ys i
dist-eq [] [] i e = refl
dist-eq [] (y ∷ ys) zero e = absurd (cc)
dist-eq [] (y ∷ ys) (suc i) e = dist-eq [] ys i e
dist-eq (x ∷ xs) [] zero e = absurd (cc)
dist-eq (x ∷ xs) [] (suc i) e = dist-eq xs [] i e
dist-eq (x ∷ xs) (y ∷ ys) zero e = ap (λ b. b.distance) (some-injective x y e)
dist-eq (x ∷ xs) (y ∷ ys) (suc i) e = dist-eq xs ys i e

-- The nodes that change their places, and the other cells.
module _ (nodes : List HeapNode) (i j : ℕ) (a b : HeapNode) (at_i : get_elem? nodes i ≡ some a)
    (at_j : get_elem? nodes j ≡ some b) (ne : i ≢ j) (inside_i : i < length nodes)
    (inside_j : j < length nodes) where
  abbrev after : List HeapNode
  after = swap nodes i a j b

  pub swap_length : length after ≡ length nodes
  swap_length = length-set (set nodes i b) j a ∙ length-set nodes i b

  pub swap_first : get_elem? after i ≡ some b
  swap_first =
      get_elem?-set_ne (set nodes i b) j i a (λ e. ne (sym e))
      ∙ get_elem?-set_self nodes i b inside_i

  pub swap_second : get_elem? after j ≡ some a
  swap_second = get_elem?-set_self (set nodes i b) j a (rw (length-set nodes i b) inside_j)

  pub swap_others : (k : ℕ) → k ≢ i → k ≢ j → get_elem? after k ≡ get_elem? nodes k
  swap_others k p q =
      get_elem?-set_ne (set nodes i b) j k a (λ e. q (sym e))
      ∙ get_elem?-set_ne nodes i k b (λ e. p (sym e))

  pub swap_count :
      (p : HeapNode → Bool) (n : ℕ)
      → i < n
      → j < n
      → count p (take n after) ≡ count p (take n nodes)
  swap_count p n li lj =
      let one = count-set p (take n nodes) i a b (get_elem?-take n nodes i li ∙ at_i) in
      let at' = get_elem?-set_ne (take n nodes) i j b ne ∙ get_elem?-take n nodes j lj ∙ at_j in
      let two = count-set p (set (take n nodes) i b) j b a at' in
      rw (take-set n (set nodes i b) j a, take-set n nodes i b) (omega (arith, one, two))
