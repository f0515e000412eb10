-- ===== src/Vector/Tests.antt =====
-- The vector of the `main` of dynamic_vector.c.
use bare_metal_architect.Prelude.{◌≡◌, refl, true, some, [], ◌∷◌, arith, pos, done, ◌>>=◌}
use bare_metal_architect.Vector.{Vector, resize_if_needed, vector_push, vector_get}
use bare_metal_architect.Vector.Grow.{Holds, Pushed, vector_push-Pushed}

-- Two values in a block of two cells.
abbrev two_values : Vector
two_values = record { data' = some (pos 14 ∷ pos 7 ∷ []); size = 2; capacity = 2 }

two_values-Holds : Holds two_values (pos 14 ∷ pos 7 ∷ [])
two_values-Holds = record {
  spare = [];
  block = refl;
  sized = refl;
  capacious = refl;
  positive = omega arith;
}

third_value : (vector_push true two_values (pos 21) >>= λ v. vector_get v (pos 2)) ≡ done (pos 21)
unfolding vector_push resize_if_needed vector_get
third_value = refl

vector_push-Pushed_example :
    (v' : Vector) × (vector_push true two_values (pos 21) ≡ done v')
    × Pushed two_values (pos 14 ∷ pos 7 ∷ []) (pos 21) v'
vector_push-Pushed_example =
    vector_push-Pushed two_values (pos 14 ∷ pos 7 ∷ []) (pos 21) two_values-Holds
      (λ full. omega arith)
