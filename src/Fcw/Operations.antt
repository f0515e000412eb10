-- ===== src/Fcw/Operations.antt =====
-- What each operation keeps of the safety of a plane.
use bare_metal_architect.Prelude.{
  zero, suc, ◌≤◌, ◌++◌, ◌∷◌, [], replicate, none, some, Option, ℕ, ◌<◌, ◌≡◌, refl, sym, ◌∙◌, inl,
  inr, Bool, true, false, ◌&&◌, ◌||◌, not, List, arith, ◌==◌, Bool-cases, exits, ◌>>=◌,
}
use Prim.Native.Nat.{bit_or}
use bare_metal_architect.Text.{Text, codes}
use bare_metal_architect.Fcw.{
  none, replicate, Option, on, right_engine_mask, left_engine_mask, ignored, CmdState, Airplane,
  Command, Rec, is_set, init, refill, ControlSwitch, left, right, other_switch, switch_on,
  toggle_engine_switch_on, request_departure_auth, execute_departure, turn_eng_off,
  ground_engine_off, toggle_engine_switch_off, request_landing_auth, execute_landing,
  declare_emergency, airborn_mask, fuel_mask, ground_mask, auth_fuel, auth_l_eng, auth_r_eng,
}
use bare_metal_architect.Fcw.Recorder.{IsRecorder}
use bare_metal_architect.Ensures.{Ensures, returns, ended, Ensures-if, Ensures-bind}
use bare_metal_architect.Fcw.Controls.{placed, refuelled, departed, landed}
use bare_metal_architect.Fcw.Approvals.{
  Approves, or_left_byte, or_right_byte, off_byte_left, off_byte_right, is_approved, grants_fuel,
  grants_l_eng, grants_r_eng,
}

-- On the ground or in the air, never both; in the air only with the four authorizations, the tanks
-- filled and the landing gear's bit set.
pub record IsSafe (a : Airplane) : Type 0 where
  pub controls_byte : a.flight_controls < 256
  pub engine_byte : a.engine_control < 256
  pub auth_byte : a.authorized_to_flight < 256
  pub one_place : placed a.flight_controls ≡ true
  pub approved :
      is_set a.flight_controls airborn_mask ≡ true → is_approved a.authorized_to_flight ≡ true
  pub filled :
      is_set a.authorized_to_flight auth_fuel ≡ true → is_set a.flight_controls fuel_mask ≡ true

IsSafe-box : (a : Airplane) (box : List Command) → IsSafe a → IsSafe (record a { black_box = box })
IsSafe-box a box s = record {
  controls_byte = s.controls_byte;
  engine_byte = s.engine_byte;
  auth_byte = s.auth_byte;
  one_place = s.one_place;
  approved = s.approved;
  filled = s.filled;
}

never_both : false ≡ true → ⊥
never_both e = cc

or_left : (p q : Bool) → (p || q) ≡ true → q ≡ false → p ≡ true
or_left p q h e = ground arith

-- A pilot who enters a line, after so many null pointers of `fgets`.
pub record Entered : Type 0 where
  pub nulls : ℕ
  pub line : Text

abbrev pub reads : Entered → List (Option Text)
reads pilot = replicate pilot.nulls none ++ (some pilot.line ∷ [])

answers :
    (nulls : ℕ) (line : Text)
    → Ensures (λ p. p ≤ 1) (declare_emergency (replicate nulls none ++ (some line ∷ [])))
unfolding declare_emergency
answers zero line = returns _ (ground arith)
answers (suc nulls) line = answers nulls line

module _ (rec : Rec) (r : IsRecorder rec) where
  recorded : {a : Airplane} {cmd : Text} {s : CmdState} → IsSafe a → Ensures IsSafe (rec a cmd s)
  recorded {a} {cmd} {s} safe = rw (r.keeps a cmd s) (returns _ (IsSafe-box a (r.box a cmd s) safe))

  ends : (a : Airplane) (cmd : Text) (s : CmdState) → Ensures IsSafe (rec a cmd s >>= λ _. exits)
  ends a cmd s = rw (r.keeps a cmd s) ended

  pub refill-IsSafe : (a : Airplane) → IsSafe a → Ensures IsSafe (refill rec a)
  unfolding refill
  refill-IsSafe a s =
      let f = refuelled a.flight_controls s.controls_byte s.one_place in
      let g = grants_fuel a.authorized_to_flight s.auth_byte in
      Ensures-if (not (is_set a.flight_controls ground_mask)) (λ e. ended)
        (λ e.
          Ensures-if
            (not (is_set a.flight_controls fuel_mask) && is_set a.flight_controls ground_mask)
            (λ e'. recorded (record {
              controls_byte = f.byte;
              engine_byte = s.engine_byte;
              auth_byte = g.byte;
              one_place = f.still_placed;
              approved = λ air. g.kept (s.approved (f.same_air ∙ air));
              filled = λ x. f.filled;
            }))
            (λ e'. recorded s))

  engines : (a : Airplane) (k : ℕ) → k < 256 → IsSafe a → IsSafe (record a { engine_control = k })
  engines a k lt s = record {
    controls_byte = s.controls_byte;
    engine_byte = lt;
    auth_byte = s.auth_byte;
    one_place = s.one_place;
    approved = s.approved;
    filled = s.filled;
  }

  -- An engine that is switched on, with its authorization.
  authorized :
      (a : Airplane) (k m : ℕ)
      → k < 256
      → (m == auth_fuel) ≡ false
      → Approves a.authorized_to_flight m (bit_or a.authorized_to_flight m)
      → IsSafe a
      → IsSafe
          (record a { engine_control = k; authorized_to_flight = bit_or a.authorized_to_flight m })
  authorized a k m lt ne g s = record {
    controls_byte = s.controls_byte;
    engine_byte = lt;
    auth_byte = g.byte;
    one_place = s.one_place;
    approved = λ air. g.kept (s.approved air);
    filled = λ x. s.filled (or_left _ _ (g.fuel_from x) ne);
  }

  switch_on-IsSafe :
      (a : Airplane) (cs : ControlSwitch) → IsSafe a → Ensures IsSafe (switch_on rec a cs)
  unfolding switch_on
  switch_on-IsSafe a left s =
      Ensures-if
        (not (is_set a.engine_control left_engine_mask) && is_set a.flight_controls ground_mask)
        (λ e. recorded (
          authorized a _ auth_l_eng (or_left_byte a.engine_control s.engine_byte) refl
            (grants_l_eng a.authorized_to_flight s.auth_byte) s))
        (λ e. ends a (codes "LEFT-ENG") ignored)
  switch_on-IsSafe a right s =
      Ensures-if
        (not (is_set a.engine_control right_engine_mask) && is_set a.flight_controls ground_mask)
        (λ e. recorded (
          authorized a _ auth_r_eng (or_right_byte a.engine_control s.engine_byte) refl
            (grants_r_eng a.authorized_to_flight s.auth_byte) s))
        (λ e. ends a (codes "RIGHT-ENG") ignored)
  switch_on-IsSafe a (other_switch n) s = ends a (codes "ENGINE-ON") ignored

  pub engine_on-IsSafe :
      (a : Airplane) (cs : ControlSwitch)
      → IsSafe a
      → Ensures IsSafe (toggle_engine_switch_on rec a cs)
  unfolding toggle_engine_switch_on
  engine_on-IsSafe a cs s =
      Ensures-if
        (is_set a.engine_control left_engine_mask && is_set a.engine_control right_engine_mask)
        (λ e. recorded s) (λ e. switch_on-IsSafe a cs s)

  pub departure-IsSafe : (a : Airplane) → IsSafe a → Ensures IsSafe (execute_departure rec a)
  unfolding execute_departure request_departure_auth
  departure-IsSafe a s =
      let d = departed a.flight_controls s.controls_byte in
      elim (Bool-cases (is_approved a.authorized_to_flight)) [
        | inl allowed ↦
            rw (allowed, d.off_ground, r.keeps, r.keeps)
              (recorded (record {
                controls_byte = d.byte;
                engine_byte = s.engine_byte;
                auth_byte = s.auth_byte;
                one_place = d.still_placed;
                approved = λ air. allowed;
                filled = λ x. sym d.same_fuel ∙ s.filled x;
              }))
        | inr denied ↦ rw denied ended
      ]

  pub landing-IsSafe : (a : Airplane) → IsSafe a → Ensures IsSafe (execute_landing rec a)
  unfolding execute_landing
  landing-IsSafe a s =
      let l = landed a.flight_controls s.controls_byte in
      elim (Bool-cases (request_landing_auth a == 1)) [
        | inl allowed ↦
            rw (allowed, l.geared, r.keeps, l.off_air, r.keeps, l.on_ground)
              (recorded (record {
                controls_byte = l.byte;
                engine_byte = s.engine_byte;
                auth_byte = s.auth_byte;
                one_place = l.still_placed;
                approved = λ air. absurd (never_both (sym l.out_of_air ∙ air));
                filled = λ x. sym l.same_fuel ∙ s.filled x;
              }))
        | inr denied ↦ rw denied ended
      ]

  turn_off-IsSafe :
      (a : Airplane) (cs : ControlSwitch) → IsSafe a → Ensures IsSafe (turn_eng_off rec a cs)
  unfolding turn_eng_off
  turn_off-IsSafe a left s = recorded (engines a _ (off_byte_left a.engine_control s.engine_byte) s)
  turn_off-IsSafe a right s =
      recorded (engines a _ (off_byte_right a.engine_control s.engine_byte) s)
  turn_off-IsSafe a (other_switch n) s = ends a (codes "ENG-OFF") ignored

  ground_off-IsSafe :
      (a : Airplane) (cs : ControlSwitch) → IsSafe a → Ensures IsSafe (ground_engine_off rec a cs)
  unfolding ground_engine_off
  ground_off-IsSafe a cs s =
      Ensures-if
        (is_set a.flight_controls ground_mask && not (is_set a.flight_controls airborn_mask))
        (λ e.
          Ensures-if
            (not (is_set a.engine_control left_engine_mask)
              && not (is_set a.engine_control right_engine_mask))
            (λ e. recorded s) (λ e. turn_off-IsSafe a cs s))
        (λ e. returns a s)

  pub engine_off-IsSafe :
      (a : Airplane) (cs : ControlSwitch) (pilot1 pilot2 : Entered)
      → IsSafe a
      → Ensures IsSafe (toggle_engine_switch_off rec a cs (reads pilot1) (reads pilot2))
  unfolding toggle_engine_switch_off
  engine_off-IsSafe a cs pilot1 pilot2 s =
      Ensures-if (is_set a.flight_controls airborn_mask)
        (λ e. Ensures-bind (rec a (codes "ABENG-OFF") ignored) (recorded s) (λ b t.
          Ensures-bind (declare_emergency (reads pilot1)) (answers pilot1.nulls pilot1.line)
            (λ p1 u1.
              Ensures-bind (declare_emergency (reads pilot2)) (answers pilot2.nulls pilot2.line)
                (λ p2 u2.
                  Ensures-if (p1 == 1 && p2 == 1)
                    (λ e. Ensures-bind (rec b (codes "EMERGENCY") on) (recorded t) (λ c u.
                      Ensures-bind (turn_eng_off rec c cs) (turn_off-IsSafe c cs u)
                        (λ d v. ground_off-IsSafe d cs v)))
                    (λ e. recorded t)))))
        (λ e. ground_off-IsSafe a cs s)

  pub init-IsSafe : (plane bytes : Bool) (id : Text) → Ensures IsSafe (init plane bytes id rec)
  unfolding init
  init-IsSafe false bytes id = ended
  init-IsSafe true false id = ended
  init-IsSafe true true id = rw r.keeps (
      returns _ (record {
        controls_byte = omega arith;
        engine_byte = omega arith;
        auth_byte = omega arith;
        one_place = refl;
        approved = λ air. absurd (cc);
        filled = λ x. absurd (cc);
      }))
