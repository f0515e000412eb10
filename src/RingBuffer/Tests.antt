-- ===== src/RingBuffer/Tests.antt =====
-- recap/ring_buffer.c at the capacity and the steps of its `main`.
use bare_metal_architect.Prelude.{◌≡◌, refl, false, none, some, List, [], ◌∷◌, arith}
use bare_metal_architect.RingBuffer.{Queue, run, Step, pushes, pops, reports}
use bare_metal_architect.RingBuffer.Bounded.{spec_step, Spec, Holds, spec_run}
use bare_metal_architect.Circular.{empty-Row}
use bare_metal_architect.RingBuffer.Refine.{RefinesAll, run-RefinesAll}

abbrev steps : List Step
steps =
    pushes 14
    ∷ pushes 7
    ∷ pushes 21
    ∷ pushes 28
    ∷ reports
    ∷ pops
    ∷ pops
    ∷ pops
    ∷ pops
    ∷ pushes 4
    ∷ pushes 11
    ∷ pops
    ∷ []

abbrev made : Queue
made = record {
  buffer = 0 ∷ 0 ∷ 0 ∷ [];
  is_full = false;
  capacity = 3;
  size = 0;
  head = 0;
  tail = 0;
}

abbrev nothing : Spec
nothing = record { items = []; is_full = false }

-- The fourth push finds the buffer full, and the values come out in the order of their pushes.
prints :
    (spec_run 3 nothing steps).1
    ≡ none
      ∷ none
      ∷ none
      ∷ none
      ∷ none
      ∷ some 14
      ∷ some 7
      ∷ some 21
      ∷ none
      ∷ none
      ∷ none
      ∷ some 4
      ∷ []
unfolding spec_run spec_step
prints = refl

made-Holds : Holds 3 made nothing
made-Holds = record {
  capacity = refl;
  buffer = refl;
  small = omega arith;
  row = empty-Row made.buffer (omega arith);
  head = refl;
  size = refl;
  full = refl;
}

run-RefinesAll_example : RefinesAll 3 (spec_run 3 nothing steps) (run made steps)
run-RefinesAll_example = run-RefinesAll 3 steps made nothing made-Holds
