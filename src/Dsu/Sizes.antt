-- ===== src/Dsu/Sizes.antt =====
-- The sum of the sizes and the number of the trees when one entry is replaced.
use bare_metal_architect.Prelude.{
  ℕ, zero, suc, ◌+◌, ◌≤◌, ◌<◌, ◌≡◌, refl, ap, Option, some, List, [], ◌∷◌, arith, length, get_elem?,
  set, ℤ, pos, negsuc,
}
use mathlib.Core.Option.{some-injective}
use bare_metal_architect.Dsu.{get_independent_cluster}
use bare_metal_architect.Dsu.Forest.{weight}

-- Replacing one entry, in the sum of the sizes and in the number of trees.
unfoldable pub size_of : ℤ → ℕ
size_of (negsuc k) = suc k
size_of (pos p) = 0

unfoldable pub tree_of : ℤ → ℕ
tree_of (negsuc k) = 1
tree_of (pos p) = 0

weight-cons : (z : ℤ) (dsu : List ℤ) → weight (z ∷ dsu) ≡ size_of z + weight dsu
unfolding weight size_of
weight-cons (negsuc k) dsu = refl
weight-cons (pos p) dsu = omega arith

clusters-cons :
    (z : ℤ) (dsu : List ℤ)
    → get_independent_cluster (z ∷ dsu) ≡ tree_of z + get_independent_cluster dsu
unfolding get_independent_cluster tree_of
clusters-cons (negsuc k) dsu = omega arith
clusters-cons (pos p) dsu = omega arith

pub weight-set :
    (dsu : List ℤ) (i : ℕ) (old new : ℤ)
    → get_elem? dsu i ≡ some old
    → weight (set dsu i new) + size_of old ≡ weight dsu + size_of new
weight-set [] i old new e = absurd (cc)
weight-set (z ∷ dsu) zero old new e =
    omega (arith, weight-cons z dsu, weight-cons new dsu, ap size_of (some-injective z old e))
weight-set (z ∷ dsu) (suc i) old new e =
    omega (arith, weight-cons z dsu, weight-cons z (set dsu i new), weight-set dsu i old new e)

pub clusters-set :
    (dsu : List ℤ) (i : ℕ) (old new : ℤ)
    → get_elem? dsu i ≡ some old
    → get_independent_cluster (set dsu i new) + tree_of old
      ≡ get_independent_cluster dsu + tree_of new
clusters-set [] i old new e = absurd (cc)
clusters-set (z ∷ dsu) zero old new e =
    omega (arith, clusters-cons z dsu, clusters-cons new dsu, ap tree_of (some-injective z old e))
clusters-set (z ∷ dsu) (suc i) old new e =
    omega
      (arith, clusters-cons z dsu, clusters-cons z (set dsu i new), clusters-set dsu i old new e)

pub size-le-weight :
    (dsu : List ℤ) (i : ℕ) (z : ℤ) → get_elem? dsu i ≡ some z → size_of z ≤ weight dsu
size-le-weight [] i z e = absurd (cc)
size-le-weight (y ∷ dsu) zero z e =
    omega (arith, weight-cons y dsu, ap size_of (some-injective y z e))
size-le-weight (y ∷ dsu) (suc i) z e = omega (arith, weight-cons y dsu, size-le-weight dsu i z e)

pub get_elem?-lt : (dsu : List ℤ) (i : ℕ) (z : ℤ) → get_elem? dsu i ≡ some z → i < length dsu
get_elem?-lt [] i z e = absurd (cc)
get_elem?-lt (y ∷ dsu) zero z e = omega arith
get_elem?-lt (y ∷ dsu) (suc i) z e = omega (arith, get_elem?-lt dsu i z e)

pub neg_pos : {k p : ℕ} {o : Option ℤ} → o ≡ some (negsuc k) → o ≡ some (pos p) → ⊥
neg_pos e e' = cc

pub some_neg : {k l : ℕ} {o : Option ℤ} → o ≡ some (negsuc k) → o ≡ some (negsuc l) → k ≡ l
some_neg e e' = cc

pub some_pos : {m n : ℕ} {o : Option ℤ} → o ≡ some (pos m) → o ≡ some (pos n) → m ≡ n
some_pos e e' = cc
