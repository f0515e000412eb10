-- ===== src/Fcw.antt =====
-- problems/fcw.c: the controls of an airplane, from the refill to the landing, and its black box.
-- A function that records commands takes the recorder as its argument, as in C; `init` gives it
-- `record_command`. Printing is left out.
pub mod Recorder
pub mod Controls
pub mod Approvals
pub mod Operations
pub mod Flight
pub mod Engines
mod Tests
use Prim.Native.Nat.{bit_and, bit_or}
use bare_metal_architect.Prelude.{
  ℕ, zero, suc, ◌+◌, ◌-◌, ◌*◌, ◌/◌, ◌%◌, ◌^◌, ◌≤◌, ◌<◌, ◌≡◌, refl, sym, ap, ◌∙◌, ◌≢◌, ◌↔◌, ◌⊎◌, inl,
  inr, Bool, true, false, ◌&&◌, ◌||◌, not, Option, none, some, List, [], ◌∷◌, ◌++◌, arith, ltb, leb,
  ◌==◌, if◌then◌else◌, Bool-cases, Option-cases, length, get_elem?, get_elem?-some, set, replicate,
  take, drop, All, length-append, length-set, length-replicate, get_elem?-set_self,
  get_elem?-set_ne, get_elem?-replicate, ℤ, pos, negsuc, to_uint8, Outcome, done, exits, fault,
  ◌>>=◌, ◌>>◌, or_fault, index, index_int, granted, ℕ_discrete, dec_lt, ltb→lt, lt→ltb, leb→le,
  ==_iff,
}
use bare_metal_architect.Text.{Text, codes, str_eq}
use bare_metal_architect.Chains.{append_tail}
use bare_metal_architect.Bytes.{bit}

abbrev pub ground_mask : ℕ
ground_mask = 0x01

abbrev pub airborn_mask : ℕ
airborn_mask = 0x02

abbrev pub fuel_mask : ℕ
fuel_mask = 0x04

abbrev pub landing_gear_mask : ℕ
landing_gear_mask = 0x80

abbrev pub left_engine_mask : ℕ
left_engine_mask = 0x02

abbrev pub right_engine_mask : ℕ
right_engine_mask = 0x04

-- The bits that `turn_eng_off` clears.
abbrev pub left_engine_bit : ℕ
left_engine_bit = 1

abbrev pub right_engine_bit : ℕ
right_engine_bit = 3

abbrev pub auth_ground : ℕ
auth_ground = 0x01

abbrev pub auth_fuel : ℕ
auth_fuel = 0x02

abbrev pub auth_l_eng : ℕ
auth_l_eng = 0x04

abbrev pub auth_r_eng : ℕ
auth_r_eng = 0x80

abbrev pub auth_approval_code : ℕ
auth_approval_code = 4

abbrev pub max_cmd_size : ℕ
max_cmd_size = 10

pub data CmdState : Type 0 where
  on off ignored mayday : CmdState

-- An `enum` argument may hold a number that it has no name for.
pub data ControlSwitch : Type 0 where
  left right : ControlSwitch
  other_switch : ℕ → ControlSwitch

pub record Command : Type 0 where
  pub name : Text
  pub state : CmdState

pub record Airplane : Type 0 where
  pub id : Text
  pub black_box : List Command
  pub recording : ℕ
  pub flight_controls : ℕ
  pub engine_control : ℕ
  pub authorized_to_flight : ℕ

-- `(flags & mask) != 0`, and `flags & ~SWITCH(x)` of a byte.
abbrev pub is_set : ℕ → ℕ → Bool
is_set flags mask = not (bit_and flags mask == 0)

abbrev pub switch_off : ℕ → ℕ → ℕ
switch_off flags x = bit_and flags (255 - bit x)

-- The allocation of the node is checked, and so is the length of the name; the allocation of the
-- name is not.
unfoldable pub record_command : Bool → Bool → Airplane → Text → CmdState → Outcome Airplane
record_command node bytes airplane cmd cmd_state =
    if not node || ltb max_cmd_size (length cmd + 1)
    then done airplane
    else if bytes
    then done (record airplane {
      black_box = append_tail airplane.black_box (record { name = cmd; state = cmd_state });
    })
    else fault

abbrev pub Rec : Type 0
Rec = Airplane → Text → CmdState → Outcome Airplane

unfoldable pub init : Bool → Bool → Text → Rec → Outcome Airplane
init plane bytes id rec = do
  granted plane
  granted bytes
  recorded ←
      rec
        (record {
          id = id;
          black_box = [];
          recording = 0;
          flight_controls = bit_or 0 ground_mask;
          engine_control = 0;
          authorized_to_flight = 0;
        })
        (codes "IS-GROUND") on
  done (record recorded { authorized_to_flight = bit_or recorded.authorized_to_flight auth_ground })

pub refill : Rec → Airplane → Outcome Airplane
refill rec airplane =
    if not (is_set airplane.flight_controls ground_mask)
    then exits
    else if not (is_set airplane.flight_controls fuel_mask)
        && is_set airplane.flight_controls ground_mask
    then rec
        (record airplane {
          flight_controls = bit_or airplane.flight_controls fuel_mask;
          authorized_to_flight = bit_or airplane.authorized_to_flight auth_fuel;
        })
        (codes "REFILL") on
    else rec airplane (codes "REFILL") ignored

-- The recorder is called, and the process ends.
abbrev pub recorded_exit : Outcome Airplane → Outcome Airplane
recorded_exit r = r >>= λ _. exits

pub switch_on : Rec → Airplane → ControlSwitch → Outcome Airplane
switch_on rec airplane left =
    if not (is_set airplane.engine_control left_engine_mask)
      && is_set airplane.flight_controls ground_mask
    then rec
        (record airplane {
          engine_control = bit_or airplane.engine_control left_engine_mask;
          authorized_to_flight = bit_or airplane.authorized_to_flight auth_l_eng;
        })
        (codes "LEFT-ENG") on
    else recorded_exit (rec airplane (codes "LEFT-ENG") ignored)
switch_on rec airplane right =
    if not (is_set airplane.engine_control right_engine_mask)
      && is_set airplane.flight_controls ground_mask
    then rec
        (record airplane {
          engine_control = bit_or airplane.engine_control right_engine_mask;
          authorized_to_flight = bit_or airplane.authorized_to_flight auth_r_eng;
        })
        (codes "RIGHT-ENG") on
    else recorded_exit (rec airplane (codes "RIGHT-ENG") ignored)
switch_on rec airplane (other_switch n) = recorded_exit (rec airplane (codes "ENGINE-ON") ignored)

pub toggle_engine_switch_on : Rec → Airplane → ControlSwitch → Outcome Airplane
unfolding switch_on
toggle_engine_switch_on rec airplane cs =
    if is_set airplane.engine_control left_engine_mask
      && is_set airplane.engine_control right_engine_mask
    then rec airplane (codes "ENGINE-ON") ignored
    else switch_on rec airplane cs

abbrev pub step_of : ℕ → ℕ → ℕ
step_of status mask = if is_set status mask then 1 else 0

pub approval_steps : ℕ → ℕ
approval_steps status =
    step_of status auth_ground
    + step_of status auth_fuel
    + step_of status auth_l_eng
    + step_of status auth_r_eng

pub request_departure_auth : Airplane → Outcome (Unit {0})
unfolding approval_steps
request_departure_auth airplane =
    if approval_steps airplane.authorized_to_flight == auth_approval_code then done tt else exits

pub execute_departure : Rec → Airplane → Outcome Airplane
unfolding request_departure_auth
execute_departure rec airplane = do
  request_departure_auth airplane
  let off_ground = record airplane { flight_controls = switch_off airplane.flight_controls 0 }
  if is_set off_ground.flight_controls ground_mask then exits else do
    a ← rec off_ground (codes "IS-GROUND") off
    b ←
        rec (record a { flight_controls = bit_or a.flight_controls landing_gear_mask })
          (codes "LAND-GEAR") off
    rec (record b { flight_controls = bit_or b.flight_controls (bit 1) }) (codes "IS-ONAIR") on

-- What `fgets` returns to the pilot, one call after the other: a line, or a null pointer, after which
-- the loop asks again. The first line decides. Where no line ever comes, as after the end of the
-- input, the loop does not end, which is a fault here.
pub declare_emergency : List (Option Text) → Outcome ℕ
declare_emergency [] = fault
declare_emergency (none ∷ reads) = declare_emergency reads
declare_emergency (some line ∷ reads) =
    done (if str_eq line (codes "YES") || str_eq line (codes "yes") then 1 else 0)

pub turn_eng_off : Rec → Airplane → ControlSwitch → Outcome Airplane
turn_eng_off rec airplane left =
    rec (record airplane { engine_control = switch_off airplane.engine_control left_engine_bit })
      (codes "LEFT-ENG") off
turn_eng_off rec airplane right =
    rec (record airplane { engine_control = switch_off airplane.engine_control right_engine_bit })
      (codes "RIGHT_ENG") off
turn_eng_off rec airplane (other_switch n) = recorded_exit (rec airplane (codes "ENG-OFF") ignored)

-- What a plane on the ground does; one in the air goes past it.
pub ground_engine_off : Rec → Airplane → ControlSwitch → Outcome Airplane
unfolding turn_eng_off
ground_engine_off rec airplane cs =
    if is_set airplane.flight_controls ground_mask
      && not (is_set airplane.flight_controls airborn_mask)
    then (if not (is_set airplane.engine_control left_engine_mask)
          && not (is_set airplane.engine_control right_engine_mask)
        then rec airplane (codes "ENG-OFF") ignored
        else turn_eng_off rec airplane cs)
    else done airplane

-- With what is read from each of the two pilots where they are asked.
pub toggle_engine_switch_off :
    Rec → Airplane → ControlSwitch → List (Option Text) → List (Option Text) → Outcome Airplane
unfolding turn_eng_off ground_engine_off declare_emergency
toggle_engine_switch_off rec airplane cs reads1 reads2 =
    if is_set airplane.flight_controls airborn_mask
    then (do
      a ← rec airplane (codes "ABENG-OFF") ignored
      p1_code ← declare_emergency reads1
      p2_code ← declare_emergency reads2
      if p1_code == 1 && p2_code == 1
          then (do
            b ← rec a (codes "EMERGENCY") on
            c ← turn_eng_off rec b cs
            ground_engine_off rec c cs)
          else rec a (codes "EMERGENCY") ignored)
    else ground_engine_off rec airplane cs

pub request_landing_auth : Airplane → ℕ
request_landing_auth airplane =
    if is_set airplane.flight_controls landing_gear_mask
      && is_set airplane.flight_controls airborn_mask
    then 1
    else 0

pub execute_landing : Rec → Airplane → Outcome Airplane
unfolding request_landing_auth
execute_landing rec airplane =
    if request_landing_auth airplane == 1
    then (do
      let geared = record airplane {
        flight_controls = bit_or airplane.flight_controls landing_gear_mask;
      }
      if not (is_set geared.flight_controls landing_gear_mask) then exits else do
        a ← rec geared (codes "LAND-GEAR") on
        let down = record a { flight_controls = switch_off a.flight_controls 1 }
        if is_set down.flight_controls airborn_mask then exits else do
          b ← rec down (codes "LANDED") on
          let grounded = record b { flight_controls = bit_or b.flight_controls (bit 0) }
          if not (is_set grounded.flight_controls ground_mask)
              then exits
              else rec grounded (codes "IS-GROUD") on)
    else exits
