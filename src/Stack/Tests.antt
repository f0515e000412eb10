-- ===== src/Stack/Tests.antt =====
-- stack.c at concrete users.
use bare_metal_architect.Arrays.{pointers}
use bare_metal_architect.Prelude.{
  ◌≡◌, refl, true, none, some, [], ◌∷◌, arith, take, pos, done, exits, ◌>>=◌,
}
use bare_metal_architect.Text.{codes}
use bare_metal_architect.Stack.{User, Stack, push, pop}
use bare_metal_architect.Stack.Order.{Holds, pop-push}

abbrev grazia : User
grazia = record { name = codes "Grazia"; age = pos 6 }

abbrev leo : User
leo = record { name = codes "Leo"; age = pos 50 }

abbrev two : Stack
two = record { users = some grazia ∷ some leo ∷ none ∷ none ∷ none ∷ []; size = 2 }

two-Holds : Holds two (grazia ∷ leo ∷ [])
unfolding pointers
two-Holds = record { cells = refl; sized = refl; fits = omega arith }

pop-push_example :
    (s' : Stack) × ((push true two (codes "Val") (pos 3) (pos 47) >>= λ pushed. pop true pushed)
      ≡ done (s', record { name = take 3 (codes "Val"); age = pos 47 }))
    × Holds s' (grazia ∷ leo ∷ [])
pop-push_example =
    pop-push two (grazia ∷ leo ∷ []) (codes "Val") 3 (pos 47) two-Holds (omega arith) (omega arith)

-- The fifth user is refused, although the array has a place for it.
abbrev four : Stack
four = record { users = some grazia ∷ some leo ∷ some leo ∷ some leo ∷ none ∷ []; size = 4 }

fifth : push true four (codes "Val") (pos 3) (pos 47) ≡ exits
unfolding push
fifth = refl
