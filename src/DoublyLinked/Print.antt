-- ===== src/DoublyLinked/Print.antt =====
-- The lines that the print from the tail gives.
use bare_metal_architect.Prelude.{
  ℕ, zero, suc, ◌-◌, ◌≤◌, ◌<◌, ◌≡◌, refl, ap, ◌∙◌, some, List, [], ◌∷◌, arith, length, get_elem?,
  drop, ℤ, done, fault,
}
use bare_metal_architect.DoublyLinked.{print_back, dll_print_reverse}
use bare_metal_architect.DoublyLinked.Chain.{nodes, link, value, nodes-get_elem?, list_of, before}

-- The lines from the `k`-th value down to the first.
pub record Lines (values : List ℤ) (k : ℕ) (printed : List (ℕ × ℤ)) : Type 0 where
  pub as_many : length printed ≡ suc k
  pub each : (i : ℕ) → i ≤ k → get_elem? printed i ≡ some (k - i, value values (k - i))

first_node :
    (values : List ℤ) (k : ℕ)
    → k < length values
    → get_elem? (nodes 0 values) k
      ≡ some
          (record { value = value values k; next = link k (drop (suc k) values); prev = before k })
first_node values k lt =
    nodes-get_elem? 0 values k lt
    ∙ ap
        (λ j.
          some (record {
            value = value values k;
            next = link j (drop (suc k) values);
            prev = before j;
          }))
        (omega arith)

one_less : (k : ℕ) → suc (suc k) - 1 ≡ suc k
one_less k = omega arith

print_back-Lines :
    (fuel : ℕ) (values : List ℤ) (k : ℕ)
    → k < fuel
    → k < length values
    → (printed : List (ℕ × ℤ)) × (print_back fuel (nodes 0 values) k (suc k) ≡ done printed)
      × Lines values k printed
unfolding print_back
print_back-Lines zero values k enough lt = absurd (omega arith)
print_back-Lines (suc fuel) values zero enough lt = (
  (0, value values 0) ∷ [],
  rw (first_node values 0 lt) refl,
  record { as_many = refl; each = only },
)
  where
    only :
        (i : ℕ)
        → i ≤ 0
        → get_elem? {A = ℕ × ℤ} ((0, value values 0) ∷ []) i ≡ some (0 - i, value values (0 - i))
    only zero le = refl
    only (suc i) le = absurd (omega arith)
print_back-Lines (suc fuel) values (suc k) enough lt =
    let (rest, run, lines) = print_back-Lines fuel values k (omega arith) (omega arith) in
    let line : ℕ × ℤ = (suc k, value values (suc k)) in
    (
      line ∷ rest,
      rw (first_node values (suc k) lt, one_less k, run) refl,
      record { as_many = ap suc lines.as_many; each = later rest lines },
    )
  where
    later :
        (rest : List (ℕ × ℤ))
        → Lines values k rest
        → (i : ℕ) → i ≤ suc k
        → get_elem? {A = ℕ × ℤ} ((suc k, value values (suc k)) ∷ rest) i
          ≡ some (suc k - i, value values (suc k - i))
    later rest lines zero le = ap (λ j. some (j, value values j)) (omega arith)
    later rest lines (suc i) le =
        lines.each i (omega arith) ∙ ap (λ j. some (j, value values j)) (omega arith)

-- On as much fuel as there are values the print of a list ends, in a structure with room: its lines are the values from the
-- last to the first, each with its index; an empty list is a null pointer that it follows.
pub dll_print_reverse-Lines :
    (fuel : ℕ) (values : List ℤ)
    → length values ≤ fuel
    → ((k : ℕ)
        → length values ≡ suc k
        → (printed : List (ℕ × ℤ)) × (dll_print_reverse fuel (list_of values) ≡ done printed)
          × Lines values k printed)
      × (length values ≡ 0 → dll_print_reverse fuel (list_of values) ≡ fault)
unfolding dll_print_reverse
dll_print_reverse-Lines fuel values enough =
    (λ k e. rw e (print_back-Lines fuel values k (omega arith) (omega arith)), λ e. rw e refl)
