-- ===== src/Fcw/Flight.antt =====
-- Safety of a flight: what holds after any sequence of operations.
use bare_metal_architect.Prelude.{Bool, List, [], ◌∷◌, Outcome, done, ◌>>=◌}
use bare_metal_architect.Text.{Text}
use bare_metal_architect.Fcw.{
  Airplane, Rec, init, refill, ControlSwitch, toggle_engine_switch_on, execute_departure,
  toggle_engine_switch_off, execute_landing,
}
use bare_metal_architect.Fcw.Recorder.{IsRecorder}
use bare_metal_architect.Ensures.{Ensures, returns, Ensures-bind}
use bare_metal_architect.Fcw.Operations.{
  Entered, reads, IsSafe, refill-IsSafe, departure-IsSafe, landing-IsSafe, engine_on-IsSafe,
  engine_off-IsSafe, init-IsSafe,
}

-- The calls of the operations that a program makes on one airplane. The two pilots of an emergency
-- each enter a line; a call for which no line ever comes does not return.
pub data Op : Type 0 where
  refuels departs lands : Op
  engine_on : ControlSwitch → Op
  engine_off : ControlSwitch → Entered → Entered → Op

pub operate : Rec → Airplane → Op → Outcome Airplane
unfolding refill execute_departure execute_landing toggle_engine_switch_on toggle_engine_switch_off
operate rec a refuels = refill rec a
operate rec a departs = execute_departure rec a
operate rec a lands = execute_landing rec a
operate rec a (engine_on cs) = toggle_engine_switch_on rec a cs
operate rec a (engine_off cs pilot1 pilot2) =
    toggle_engine_switch_off rec a cs (reads pilot1) (reads pilot2)

unfoldable pub fly : Rec → Airplane → List Op → Outcome Airplane
unfolding operate
fly rec a [] = done a
fly rec a (o ∷ rest) = do a' ← operate rec a o; fly rec a' rest

module _ (rec : Rec) (r : IsRecorder rec) where
  pub operate-IsSafe : (a : Airplane) (o : Op) → IsSafe a → Ensures IsSafe (operate rec a o)
  unfolding operate
  operate-IsSafe a refuels s = refill-IsSafe rec r a s
  operate-IsSafe a departs s = departure-IsSafe rec r a s
  operate-IsSafe a lands s = landing-IsSafe rec r a s
  operate-IsSafe a (engine_on cs) s = engine_on-IsSafe rec r a cs s
  operate-IsSafe a (engine_off cs pilot1 pilot2) s = engine_off-IsSafe rec r a cs pilot1 pilot2 s

  pub fly-IsSafe : (a : Airplane) (ops : List Op) → IsSafe a → Ensures IsSafe (fly rec a ops)
  unfolding fly
  fly-IsSafe a [] s = returns a s
  fly-IsSafe a (o ∷ rest) s =
      Ensures-bind (operate rec a o) (operate-IsSafe a o s) (λ a' s'. fly-IsSafe a' rest s')

  -- A plane that is made by `init` and any sequence of operations after it, in whose emergencies both
  -- pilots enter a line, with any recorder that returns and changes only the black box: no call
  -- faults, and where none ends the process the plane is on the ground or in the air but not both, in
  -- the air only with the four authorizations and the bit of the landing gear, and authorized for its
  -- fuel only with its tanks filled.
  pub flight-IsSafe :
      (plane bytes : Bool) (id : Text) (ops : List Op)
      → Ensures IsSafe (init plane bytes id rec >>= λ a. fly rec a ops)
  flight-IsSafe plane bytes id ops =
      Ensures-bind (init plane bytes id rec) (init-IsSafe rec r plane bytes id)
        (λ a s. fly-IsSafe a ops s)
