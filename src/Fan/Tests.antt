-- ===== src/Fan/Tests.antt =====
-- smarth_fan.c at the commands of its `main`.
use bare_metal_architect.Prelude.{◌≡◌, refl, List, [], ◌∷◌, arith, done}
use bare_metal_architect.Fan.{
  step, Command, on, off, max_speed, min_speed, change, run, increase, decrease,
}
use bare_metal_architect.Fan.Refine.{Settings, encoded, spec_run, run_refines}

abbrev script : List Command
script = on ∷ max_speed ∷ min_speed ∷ change increase ∷ change increase ∷ change decrease ∷ off ∷ []

abbrev blank : Settings
blank = record { power = 0; speed = 0; other = 5 }

-- Off at speed 1, with the lower bits as they were.
runs : run 5 script ≡ done 0x15
unfolding run step
runs = refl

run_refines_example : run 5 script ≡ encoded (spec_run blank script)
run_refines_example = run_refines script blank (omega arith)
