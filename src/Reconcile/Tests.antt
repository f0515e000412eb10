-- ===== src/Reconcile/Tests.antt =====
-- Runs with one packet on each side, and with none on one side.
use bare_metal_architect.Prelude.{
  ◌≢◌, ℕ, ◌≡◌, refl, ◌≢◌, Bool, true, false, Option, none, some, List, [], ◌∷◌, ◌++◌, replicate,
  Outcome, done, ◌>>=◌,
}
use bare_metal_architect.Ensures.{Ensures}
use bare_metal_architect.Text.{str_eq}
use bare_metal_architect.Reconcile.{
  System, Thread, snow_ext, ana_ext, reconciliate, process, step, run, started, check_allocation,
  validate_ds_code, set_metadata, add_data, extract_and_process, print_ds_data,
  start_reconciliation, process_reconciliation,
}
use bare_metal_architect.Reconcile.Sound.{Sound, run-Sound}

-- Both sources are extracted, one thread after the other, and then printed and compared.
abbrev one_after_the_other : List Thread
one_after_the_other =
    replicate 6 (snow_ext true)
    ++ (replicate 6 (ana_ext true) ++ (replicate 3 reconciliate ++ (process ∷ [])))

-- What is printed and reported.
abbrev outcome : System → Outcome (List (ℕ × Bool) × Option ℕ)
outcome s = done (s.printed, s.reported)

one_each :
    (run 1 1 one_after_the_other started >>= outcome) ≡ done ((0, true) ∷ (0, false) ∷ [], some 2)
unfolding run step check_allocation validate_ds_code set_metadata add_data extract_and_process
    print_ds_data start_reconciliation process_reconciliation str_eq
one_each = refl

none_on_one_side : (run 1 0 one_after_the_other started >>= outcome) ≡ done ((0, true) ∷ [], none)
unfolding run step check_allocation validate_ds_code set_metadata add_data extract_and_process
    print_ds_data start_reconciliation process_reconciliation str_eq
none_on_one_side = refl

run-Sound_example : Ensures (Sound 6 6) (run 6 6 one_after_the_other started)
run-Sound_example = run-Sound 6 6 one_after_the_other
