-- ===== src/Fcw/Tests.antt =====
-- The flight of the `main` of fcw.c.
use bare_metal_architect.Prelude.{
  ℕ, ◌≡◌, refl, true, false, List, [], ◌∷◌, arith, Outcome, done, ◌>>=◌,
}
use bare_metal_architect.Text.{codes, str_eq}
use bare_metal_architect.Fcw.{
  approval_steps, Airplane, Rec, init, is_set, record_command, left, right, execute_departure,
  toggle_engine_switch_off, airborn_mask, left_engine_mask,
}
use bare_metal_architect.Fcw.Recorder.{record_command-IsRecorder}
use bare_metal_architect.Ensures.{Ensures}
use bare_metal_architect.Fcw.Flight.{
  Op, refuels, departs, lands, engine_on, engine_off, fly, flight-IsSafe,
}
use bare_metal_architect.Fcw.Operations.{reads, Entered, IsSafe}
use bare_metal_architect.Fcw.Engines.{Leaves, departs_without_engine}

abbrev rec : Rec
rec = record_command true true

-- A pilot who enters "NO" at once, and what is then read.
abbrev nay : Entered
nay = record { nulls = 0; line = codes "NO" }

abbrev trip : List Op
trip =
    refuels
    ∷ engine_on right
    ∷ engine_on left
    ∷ engine_on left
    ∷ departs
    ∷ engine_off left nay nay
    ∷ lands
    ∷ engine_off left nay nay
    ∷ engine_off left nay nay
    ∷ []

-- The controls after the trip.
abbrev bytes : Outcome Airplane → Outcome (ℕ × ℕ × ℕ)
bytes r = r >>= λ a. done (a.flight_controls, a.engine_control, a.authorized_to_flight)

trip_ends :
    bytes (init true true (codes "WA-777") rec >>= λ a. fly rec a trip) ≡ done (0x85, 4, 0x87)
unfolding fly init record_command str_eq
trip_ends = refl

flight-IsSafe_example : Ensures IsSafe (init true true (codes "WA-777") rec >>= λ a. fly rec a trip)
flight-IsSafe_example =
    flight-IsSafe rec (record_command-IsRecorder true) true true (codes "WA-777") trip

abbrev plane : ℕ → Airplane
plane controls = record {
  id = codes "WA-777";
  black_box = [];
  recording = 0;
  flight_controls = controls;
  engine_control = 6;
  authorized_to_flight = 0x87;
}

waits-IsSafe : IsSafe (plane 5)
waits-IsSafe = record {
  controls_byte = omega arith;
  engine_byte = omega arith;
  auth_byte = omega arith;
  one_place = refl;
  approved = λ air. absurd (cc);
  filled = λ x. refl;
}

flies-IsSafe : IsSafe (plane 0x86)
unfolding approval_steps
flies-IsSafe = record {
  controls_byte = omega arith;
  engine_byte = omega arith;
  auth_byte = omega arith;
  one_place = refl;
  approved = λ air. refl;
  filled = λ x. refl;
}

departs_without_engine_example :
    Leaves
      (λ b.
        (is_set b.flight_controls airborn_mask ≡ true)
        × (is_set b.engine_control left_engine_mask ≡ false))
      (toggle_engine_switch_off rec (plane 5) left (reads nay) (reads nay) >>= λ b.
        execute_departure rec b)
unfolding approval_steps
departs_without_engine_example =
    departs_without_engine rec (record_command-IsRecorder true) (plane 5) waits-IsSafe (reads nay)
      (reads nay) refl refl refl
