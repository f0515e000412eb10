-- ===== src/Fan.antt =====
-- bitwise/smarth_fan.c: a fan behind one configuration byte. The power switch is bit 7, the speed
-- bits 4 to 6, the oscillation bit 3 and the LED colour bits 0 to 2. Each function returns the new
-- byte; printing is left out.
pub mod Refine
mod Tests
use Prim.Native.Nat.{bit_and, bit_or}
use bare_metal_architect.Prelude.{
  ℕ, zero, suc, ◌+◌, ◌-◌, ◌*◌, ◌/◌, ◌%◌, ◌≤◌, ◌<◌, ◌≡◌, refl, sym, ap, ◌∙◌, ◌≢◌, ◌↔◌, ◌⊎◌, inl, inr,
  Bool, true, false, ◌&&◌, ◌||◌, not, Option, none, some, List, [], ◌∷◌, ◌++◌, arith, ltb, leb,
  ◌==◌, if◌then◌else◌, Bool-cases, Option-cases, length, get_elem?, get_elem?-some, set, replicate,
  take, drop, All, length-append, length-set, length-replicate, get_elem?-set_self,
  get_elem?-set_ne, get_elem?-replicate, ℤ, pos, negsuc, to_uint8, Outcome, done, exits, fault,
  ◌>>=◌, ◌>>◌, or_fault, index, index_int, granted, ℕ_discrete, dec_lt, ltb→lt, lt→ltb, leb→le,
  ==_iff,
}
use bare_metal_architect.Bytes.{bit}

abbrev pub max_speed_val : ℕ
max_speed_val = 7

abbrev pub min_speed_val : ℕ
min_speed_val = 0

-- TURN_ON_VAL, and the masks of the power switch, of the speed and of all but the speed.
abbrev pub turn_on_val : ℕ
turn_on_val = 128

abbrev pub mask_on : ℕ
mask_on = 0x80

abbrev pub mask_fan_isolate : ℕ
mask_fan_isolate = 0x70

abbrev pub mask_fan_clear : ℕ
mask_fan_clear = 0x8F

-- INCREASE and DECREASE.
abbrev pub increase : ℕ
increase = 1

abbrev pub decrease : ℕ
decrease = 0

pub is_on : ℕ → ℕ
is_on fan = bit_and fan mask_on

pub get_fan_speed : ℕ → ℕ
get_fan_speed fan = bit_and fan mask_fan_isolate / 16

-- The result is stored in a `uint8_t`.
pub set_speed_direct : ℕ → ℕ → ℕ
set_speed_direct fan speed = bit_or (bit_and fan mask_fan_clear) (speed * 16) % 256

pub reset_speed_flags : ℕ → Outcome ℕ
unfolding get_fan_speed
reset_speed_flags fan =
    let cleared = bit_or (bit_and fan mask_fan_clear) 0 in
    if get_fan_speed cleared == 0 then done cleared else exits

pub check_speed_status : ℕ → ℕ → Outcome ℕ
unfolding get_fan_speed reset_speed_flags
check_speed_status fan value =
    if get_fan_speed fan == value then done fan else reset_speed_flags fan

pub set_max_speed : ℕ → Outcome ℕ
unfolding is_on set_speed_direct check_speed_status
set_max_speed fan =
    if is_on fan == turn_on_val
    then check_speed_status (set_speed_direct fan max_speed_val) max_speed_val
    else exits

pub set_min_speed : ℕ → Outcome ℕ
unfolding reset_speed_flags check_speed_status
set_min_speed fan = do cleared ← reset_speed_flags fan; check_speed_status cleared min_speed_val

pub turn_on : ℕ → Outcome ℕ
unfolding is_on
turn_on fan =
    if is_on fan == turn_on_val
    then done fan
    else let switched = bit_or fan (bit 7) in
      if is_on switched == turn_on_val then done switched else exits

-- `~BIT(7)`, in a byte.
pub turn_off : ℕ → ℕ
turn_off fan = bit_and fan (255 - bit 7)

pub change_speed : ℕ → ℕ → ℕ
unfolding is_on get_fan_speed set_speed_direct
change_speed fan cmd =
    if is_on fan == turn_on_val
    then (let current_speed = get_fan_speed fan in
        if cmd == increase
        then (if current_speed == max_speed_val
            then fan
            else set_speed_direct fan (current_speed + 1))
        else if cmd == decrease
        then (if current_speed == min_speed_val
            then fan
            else set_speed_direct fan (current_speed - 1))
        else fan)
    else fan

-- The commands that a client gives, and a sequence of them.
pub data Command : Type 0 where
  on off max_speed min_speed : Command
  change : ℕ → Command

pub step : ℕ → Command → Outcome ℕ
unfolding turn_on turn_off set_max_speed set_min_speed change_speed
step fan on = turn_on fan
step fan off = done (turn_off fan)
step fan max_speed = set_max_speed fan
step fan min_speed = set_min_speed fan
step fan (change cmd) = done (change_speed fan cmd)

pub run : ℕ → List Command → Outcome ℕ
run fan [] = done fan
run fan (c ∷ cs) = do fan' ← step fan c; run fan' cs
