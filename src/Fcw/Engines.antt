-- ===== src/Fcw/Engines.antt =====
-- Departures, landings and engines that are switched off, operation by operation.
use mathlib.Core.List.{append_assoc}
use bare_metal_architect.Prelude.{
  Option, List, ℕ, ◌≡◌, refl, sym, ◌∙◌, Bool, true, false, ◌&&◌, not, [], ◌∷◌, ◌++◌, Outcome, done,
  ◌>>=◌,
}
use bare_metal_architect.Text.{Text, codes}
use bare_metal_architect.Chains.{append_tail-eq-append}
use bare_metal_architect.Fcw.{
  Airplane, Rec, is_set, left, right, on, off, turn_eng_off, ground_engine_off,
  toggle_engine_switch_off, execute_departure, request_departure_auth, execute_landing,
  request_landing_auth, airborn_mask, ground_mask, left_engine_mask, right_engine_mask,
  record_command,
}
use bare_metal_architect.Fcw.Recorder.{IsRecorder}
use bare_metal_architect.Fcw.Controls.{same_bit_eq, and_both, departed, landed, gear_in_air}
use bare_metal_architect.Fcw.Approvals.{is_approved, left_off, right_stays}
use bare_metal_architect.Fcw.Operations.{IsSafe}

-- A call that returns a plane with the property.
pub data Leaves (P : Airplane → Type 0) : Outcome Airplane → Type 0 where
  leaves : (a : Airplane) → P a → Leaves P (done a)

pub record OnGround (engines : ℕ) (a : Airplane) : Type 0 where
  pub ground : is_set a.flight_controls ground_mask ≡ true
  pub air : is_set a.flight_controls airborn_mask ≡ false
  pub same_engines : a.engine_control ≡ engines

pub record InAir (engines : ℕ) (a : Airplane) : Type 0 where
  pub ground : is_set a.flight_controls ground_mask ≡ false
  pub air : is_set a.flight_controls airborn_mask ≡ true
  pub same_engines : a.engine_control ≡ engines

and_false : (p : Bool) → (p && false) ≡ false
and_false true = refl
and_false false = refl

not_in_air : (p q : Bool) → p ≡ not q → p ≡ true → q ≡ false
not_in_air p true e g = absurd (cc)
not_in_air p false e g = refl

module _ (rec : Rec) (r : IsRecorder rec) (a : Airplane) (s : IsSafe a) where
  -- Every landing of a safe plane in the air succeeds, with any recorder: the plane is on the ground
  -- and not in the air, and its engines are as they were.
  pub execute_landing-Leaves :
      is_set a.flight_controls airborn_mask ≡ true
      → Leaves (OnGround a.engine_control) (execute_landing rec a)
  unfolding execute_landing request_landing_auth
  execute_landing-Leaves air =
      let l = landed a.flight_controls s.controls_byte in
      rw
        (
          gear_in_air a.flight_controls s.one_place air,
          air,
          l.geared,
          r.keeps,
          l.off_air,
          r.keeps,
          l.on_ground,
          r.keeps,
        )
        (leaves _ (record { ground = l.on_ground; air = l.out_of_air; same_engines = refl }))

  on_ground :
      is_set a.flight_controls ground_mask ≡ true → is_set a.flight_controls airborn_mask ≡ false
  on_ground g = not_in_air _ _ (same_bit_eq _ _ (and_both _ _ s.one_place).0) g

  -- A right engine that is switched off on the ground, with any recorder: the call returns, and the
  -- bit of the right engine is still set.
  pub right_engine_stays :
      (reads1 reads2 : List (Option Text))
      → is_set a.flight_controls ground_mask ≡ true
      → is_set a.engine_control right_engine_mask ≡ true
      → Leaves
          (λ b. is_set b.engine_control right_engine_mask ≡ true)
          (toggle_engine_switch_off rec a right reads1 reads2)
  unfolding toggle_engine_switch_off ground_engine_off turn_eng_off
  right_engine_stays reads1 reads2 g e =
      rw (on_ground g, g, e, and_false _, r.keeps)
        (leaves _ (sym (right_stays a.engine_control s.engine_byte) ∙ e))

  -- A plane on the ground with the four authorizations whose left engine is switched off, and which
  -- departs then, with any recorder: both calls return, and the plane is in the air without its left
  -- engine.
  pub departs_without_engine :
      (reads1 reads2 : List (Option Text))
      → is_set a.flight_controls ground_mask ≡ true
      → is_set a.engine_control left_engine_mask ≡ true
      → is_approved a.authorized_to_flight ≡ true
      → Leaves
          (λ b.
            (is_set b.flight_controls airborn_mask ≡ true)
            × (is_set b.engine_control left_engine_mask ≡ false))
          (toggle_engine_switch_off rec a left reads1 reads2 >>= λ b. execute_departure rec b)
  unfolding toggle_engine_switch_off ground_engine_off turn_eng_off execute_departure
      request_departure_auth
  departs_without_engine reads1 reads2 g e approved =
      let d = departed a.flight_controls s.controls_byte in
      rw (on_ground g, g, e, r.keeps, approved, d.off_ground, r.keeps, r.keeps, r.keeps)
        (leaves _ (d.in_air, left_off a.engine_control s.engine_byte))

-- A departure of a plane with the four authorizations, recorded by `record_command` with memory: the
-- black box gets the three commands of the departure, in their order.
pub execute_departure-recorded :
    (a : Airplane)
    → IsSafe a
    → is_approved a.authorized_to_flight ≡ true
    → Leaves
        (λ b.
          b.black_box
          ≡ a.black_box
            ++ (record { name = codes "IS-GROUND"; state = off }
                ∷ record { name = codes "LAND-GEAR"; state = off }
                ∷ record { name = codes "IS-ONAIR"; state = on }
                ∷ []))
        (execute_departure (record_command true true) a)
unfolding execute_departure request_departure_auth record_command
execute_departure-recorded a s approved =
    let d = departed a.flight_controls s.controls_byte in
    rw (approved, d.off_ground) (leaves _ (simp (append_tail-eq-append, append_assoc)))
