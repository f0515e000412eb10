-- ===== src/Traversal/Marks.antt =====
-- The vertices marked and printed by a search: each is reached from the start, and printed once.
use bare_metal_architect.Prelude.{
  ℕ, ◌+◌, ◌≤◌, ◌<◌, ◌≡◌, refl, sym, ap, ◌∙◌, ◌≢◌, ◌↔◌, Bool, true, false, some, List, [], ◌∷◌, ◌++◌,
  arith, ◌==◌, length, get_elem?, get_elem?-some, set, All, length-set, get_elem?-set_self,
  get_elem?-set_ne, ℤ, done, ℕ_discrete,
}
use mathlib.Core.Option.{some-injective}
use bare_metal_architect.MinHeap.Swap.{count, count-set, one_if}
use bare_metal_architect.Prelude.{All-get_elem?}
use bare_metal_architect.Traversal.{Walk, is_one, edge, visit}

-- The matrix has seven rows of seven.
pub record IsGrid (matrix : List (List ℤ)) : Type 0 where
  pub rows : length matrix ≡ 7
  pub columns : All (λ row. length row ≡ 7) matrix

-- `j` is a neighbour of `i`, among the vertices that the searches look at.
pub record Edge (matrix : List (List ℤ)) (size i j : ℕ) : Type 0 where
  pub from_one : 1 ≤ j
  pub below : j < size
  pub marked : edge matrix i j ≡ done true

-- A path of such edges.
pub data Reaches (matrix : List (List ℤ)) (size start : ℕ) : ℕ → Type 0 where
  here : Reaches matrix size start start
  further :
      (i j : ℕ) → Reaches matrix size start i → Edge matrix size i j → Reaches matrix size start j

-- How often a vertex is printed.
abbrev pub times : ℕ → List ℕ → ℕ
times v printed = count (λ u. u == v) printed

pub count-append :
    {A : Type 0} (p : A → Bool) (xs ys : List A) → count p (xs ++ ys) ≡ count p xs + count p ys
count-append p [] ys = omega arith
count-append p (x ∷ xs) ys = omega (arith, count-append p xs ys)

pub times_self : (v : ℕ) (printed : List ℕ) → times v (printed ++ (v ∷ [])) ≡ times v printed + 1
times_self v printed =
    let same : (v == v) ≡ true = ground arith in
    omega (arith, count-append (λ u. u == v) printed (v ∷ []), ap one_if same)

pub times_other :
    (v u : ℕ) (printed : List ℕ) → u ≢ v → times u (printed ++ (v ∷ [])) ≡ times u printed
times_other v u printed ne =
    let apart : (v == u) ≡ false = ground arith in
    omega (arith, count-append (λ w. w == u) printed (v ∷ []), ap one_if apart)

pub edge-done :
    (matrix : List (List ℤ)) (i j : ℕ)
    → IsGrid matrix
    → i < 7
    → j < 7
    → (b : Bool) × (edge matrix i j ≡ done b)
unfolding edge
edge-done matrix i j g lt k =
    let (row, at_row) = get_elem?-some matrix i (omega (arith, g.rows)) in
    let wide = All-get_elem? (λ r. length r ≡ 7) matrix i row g.columns at_row in
    let (c, at_c) = get_elem?-some row j (omega (arith, wide)) in (is_one c, rw (at_row, at_c) refl)

module _ (matrix : List (List ℤ)) (size start : ℕ) where
  -- The marks say how often a vertex is printed, never more than once.
  pub record IsMarked (w : Walk) : Type 0 where
    pub same_length : length w.visited ≡ 7
    pub marks : (v : ℕ) → v < 7 → get_elem? w.visited v ≡ some (times v w.printed)
    pub once : (v : ℕ) → times v w.printed ≤ 1
    pub found : (v : ℕ) → 0 < times v w.printed → (v < 7) × Reaches matrix size start v

  module _ (w : Walk) (h : IsMarked w) (v : ℕ) (lt : v < 7)
      (fresh : get_elem? w.visited v ≡ some 0) where
    new : times v w.printed ≡ 0
    new = some-injective (times v w.printed) 0 (sym (h.marks v lt) ∙ fresh)

    visit_marks :
        (u : ℕ) → u < 7 → get_elem? (set w.visited v 1) u ≡ some (times u (w.printed ++ (v ∷ [])))
    visit_marks u k = elim (ℕ_discrete u v) [
      | yes same ↦
          rw (same, get_elem?-set_self w.visited v 1 (omega (arith, h.same_length)))
            (ap some (omega (arith, times_self v w.printed, new)))
      | no apart ↦
          get_elem?-set_ne w.visited v u 1 (λ e. apart (sym e))
          ∙ h.marks u k
          ∙ ap some (sym (times_other v u w.printed apart))
    ]

    visit_once : (u : ℕ) → times u (w.printed ++ (v ∷ [])) ≤ 1
    visit_once u = elim (ℕ_discrete u v) [
      | yes same ↦ rw same (omega (arith, times_self v w.printed, new))
      | no apart ↦ omega (arith, times_other v u w.printed apart, h.once u)
    ]

    visit_found :
        Reaches matrix size start v
        → (u : ℕ) → 0 < times u (w.printed ++ (v ∷ []))
        → (u < 7) × Reaches matrix size start u
    visit_found path u some_time = elim (ℕ_discrete u v) [
      | yes same ↦ rw same (lt, path)
      | no apart ↦ h.found u (omega (arith, times_other v u w.printed apart, some_time))
    ]

    pub visit-IsMarked : Reaches matrix size start v → IsMarked (visit w v)
    visit-IsMarked path = record {
      same_length = length-set w.visited v 1 ∙ h.same_length;
      marks = visit_marks;
      once = visit_once;
      found = visit_found path;
    }

-- No vertex is printed less.
abbrev pub Grown : Walk → Walk → Type 0
Grown a b = (v : ℕ) → times v a.printed ≤ times v b.printed

pub visit-Grown : (w : Walk) (v : ℕ) → Grown w (visit w v)
visit-Grown w v u = omega (arith, count-append (λ x. x == u) w.printed (v ∷ []))

-- The vertices still to be visited.
abbrev pub unvisited : Walk → ℕ
unvisited w = count (λ mark. mark == 0) w.visited

pub unvisited-visit :
    (w : Walk) (v : ℕ) → get_elem? w.visited v ≡ some 0 → unvisited (visit w v) + 1 ≡ unvisited w
unvisited-visit w v fresh = omega (arith, count-set (λ mark. mark == 0) w.visited v 0 1 fresh)

module _ (matrix : List (List ℤ)) (size start : ℕ) (w : Walk) where
  -- The neighbours of what is printed are printed.
  abbrev pub IsClosed : Type 0
  IsClosed = (i j : ℕ) → 0 < times i w.printed → Edge matrix size i j → 0 < times j w.printed

  -- What a search has to show: the vertices that the start reaches are printed once each, and no
  -- others.
  pub record Explores : Type 0 where
    pub once : (v : ℕ) → times v w.printed ≤ 1
    pub exactly : (v : ℕ) → (0 < times v w.printed) ↔ Reaches matrix size start v

  reached :
      IsClosed
      → 0 < times start w.printed
      → (v : ℕ) → Reaches matrix size start v
      → 0 < times v w.printed
  reached closed first _ here = first
  reached closed first _ (further i j path e) = closed i j (reached closed first i path) e

  pub IsMarked-Explores :
      IsMarked matrix size start w → IsClosed → 0 < times start w.printed → Explores
  IsMarked-Explores h closed first = record {
    once = h.once;
    exactly = λ v. (λ some_time. (h.found v some_time).1, reached closed first v);
  }
