-- ===== src/Dsu/Tests.antt =====
-- Disjoint sets of six tasks, as in the `main` of micro-make.c.
use bare_metal_architect.Prelude.{◌+ℤ◌, ◌≡◌, refl, some, List, [], ◌∷◌, arith, ℤ, pos, negsuc, done}
use bare_metal_architect.Dsu.{ℕ, ◌≢◌, set_union, init_dsu}
use bare_metal_architect.Dsu.Forest.{up, at, Forest}
use bare_metal_architect.Dsu.Merge.{merged-Forest}
use bare_metal_architect.Dsu.Union.{Found, find_lem, United, set_union-United, init_dsu-Forest}

abbrev start : List ℤ
start = negsuc 0 ∷ negsuc 0 ∷ negsuc 0 ∷ negsuc 0 ∷ negsuc 0 ∷ negsuc 0 ∷ []

start-Forest : Forest start
unfolding init_dsu
start-Forest = init_dsu-Forest 6

-- 1 and 0, then 2 and 1: the tree of 1 has the three of them.
joined :
    set_union 3 (pos 1) (pos 0) start
    ≡ some (done (pos 1 ∷ negsuc 1 ∷ negsuc 0 ∷ negsuc 0 ∷ negsuc 0 ∷ negsuc 0 ∷ []))
unfolding set_union ◌+ℤ◌
joined = refl

set_union-United_example : United start 1 0 (set_union 3 (pos 1) (pos 0) start)
set_union-United_example =
    set_union-United start 3 1 0 1 0 start-Forest (at 0 refl) (at 0 refl) (omega arith)
      (omega arith) (omega arith) (omega arith)

-- The array after the union of 1 and 0.
abbrev pair : List ℤ
pair = pos 1 ∷ negsuc 1 ∷ negsuc 0 ∷ negsuc 0 ∷ negsuc 0 ∷ negsuc 0 ∷ []

one_not_zero : ◌≢◌ {A = ℕ} 1 0
one_not_zero e = omega arith

pair-Forest : Forest pair
pair-Forest = merged-Forest start start-Forest 1 0 0 0 refl refl one_not_zero (omega arith)

find_lem_example : Found pair 3 0 1
find_lem_example =
    find_lem pair 3 0 1 pair-Forest (up 1 refl (at 1 refl)) (omega arith) (omega arith)
