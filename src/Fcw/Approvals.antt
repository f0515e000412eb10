-- ===== src/Fcw/Approvals.antt =====
-- The authorizations and the engine switches, checked at every byte.
use Prim.Native.Nat.{bit_or}
use bare_metal_architect.Prelude.{
  ℕ, ◌<◌, ◌≡◌, refl, sym, Bool, true, false, ◌&&◌, ◌||◌, ltb, ◌==◌, ltb→lt,
}
use bare_metal_architect.Bytes.{for_each, for_each→at}
use bare_metal_architect.Fcw.{
  is_set, switch_off, approval_steps, auth_fuel, auth_l_eng, auth_r_eng, left_engine_mask,
  right_engine_mask,
}
use bare_metal_architect.Fcw.Controls.{implies, same_bit, implies_mp, and_both, same_bit_eq}

abbrev pub is_approved : ℕ → Bool
is_approved y = approval_steps y == 4

-- An authorization more.
pub record Approves (y m z : ℕ) : Type 0 where
  pub byte : z < 256
  pub kept : is_approved y ≡ true → is_approved z ≡ true
  pub given : is_set z m ≡ true
  pub fuel_kept : is_set y auth_fuel ≡ true → is_set z auth_fuel ≡ true
  pub fuel_from : is_set z auth_fuel ≡ true → (is_set y auth_fuel || m == auth_fuel) ≡ true

abbrev approve_test : ℕ → ℕ → Bool
approve_test m y =
    let z = bit_or y m in
    ltb z 256
    && (implies (is_approved y) (is_approved z)
        && (is_set z m
            && (implies (is_set y auth_fuel) (is_set z auth_fuel)
                && implies (is_set z auth_fuel) (is_set y auth_fuel || m == auth_fuel))))

approve_tables :
    (for_each (approve_test auth_fuel) 256
      && (for_each (approve_test auth_l_eng) 256 && for_each (approve_test auth_r_eng) 256))
    ≡ true
unfolding for_each approval_steps
approve_tables = refl

approves :
    (m : ℕ) → for_each (approve_test m) 256 ≡ true → (y : ℕ) → y < 256 → Approves y m (bit_or y m)
approves m table y lt =
    let (a, h1) = and_both _ _ (for_each→at (approve_test m) 256 table y lt) in
    let (b, h2) = and_both _ _ h1 in
    let (c, h3) = and_both _ _ h2 in
    let (d, e) = and_both _ _ h3 in
    record {
      byte = ltb→lt _ _ a;
      kept = implies_mp _ _ b;
      given = c;
      fuel_kept = implies_mp _ _ d;
      fuel_from = implies_mp _ _ e;
    }

pub grants_fuel : (y : ℕ) → y < 256 → Approves y auth_fuel (bit_or y auth_fuel)
grants_fuel = approves auth_fuel (and_both _ _ approve_tables).0

pub grants_l_eng : (y : ℕ) → y < 256 → Approves y auth_l_eng (bit_or y auth_l_eng)
grants_l_eng = approves auth_l_eng (and_both _ _ (and_both _ _ approve_tables).1).0

pub grants_r_eng : (y : ℕ) → y < 256 → Approves y auth_r_eng (bit_or y auth_r_eng)
grants_r_eng = approves auth_r_eng (and_both _ _ (and_both _ _ approve_tables).1).1

abbrev fuelled_test : ℕ → Bool
fuelled_test y = implies (is_approved y) (is_set y auth_fuel)

fuelled_table : for_each fuelled_test 256 ≡ true
unfolding for_each approval_steps
fuelled_table = refl

pub fuel_of_approved : (y : ℕ) → y < 256 → is_approved y ≡ true → is_set y auth_fuel ≡ true
fuel_of_approved y lt = implies_mp _ _ (for_each→at fuelled_test 256 fuelled_table y lt)

-- The engines: `turn_eng_off` clears the left bit, and another bit than that of the right engine.
abbrev engine_test : ℕ → Bool
engine_test x =
    same_bit false (is_set (switch_off x 1) left_engine_mask)
    && same_bit (is_set x right_engine_mask) (is_set (switch_off x 3) right_engine_mask)

engine_table : for_each engine_test 256 ≡ true
unfolding for_each
engine_table = refl

pub left_off : (x : ℕ) → x < 256 → is_set (switch_off x 1) left_engine_mask ≡ false
left_off x lt =
    sym (same_bit_eq false _ (and_both _ _ (for_each→at engine_test 256 engine_table x lt)).0)

pub right_stays :
    (x : ℕ) → x < 256 → is_set x right_engine_mask ≡ is_set (switch_off x 3) right_engine_mask
right_stays x lt = same_bit_eq _ _ (and_both _ _ (for_each→at engine_test 256 engine_table x lt)).1

abbrev bytes_test : ℕ → Bool
bytes_test x =
    ltb (bit_or x left_engine_mask) 256
    && (ltb (bit_or x right_engine_mask) 256
        && (ltb (switch_off x 1) 256 && ltb (switch_off x 3) 256))

bytes_table : for_each bytes_test 256 ≡ true
unfolding for_each
bytes_table = refl

module _ (x : ℕ) (lt : x < 256) where
  stay_bytes :
      (bit_or x left_engine_mask < 256)
      × (bit_or x right_engine_mask < 256)
      × (switch_off x 1 < 256)
      × (switch_off x 3 < 256)
  stay_bytes =
      let (a, h1) = and_both _ _ (for_each→at bytes_test 256 bytes_table x lt) in
      let (b, h2) = and_both _ _ h1 in
      let (c, d) = and_both _ _ h2 in (ltb→lt _ _ a, ltb→lt _ _ b, ltb→lt _ _ c, ltb→lt _ _ d)

  pub or_left_byte : bit_or x left_engine_mask < 256
  or_left_byte = stay_bytes.0

  pub or_right_byte : bit_or x right_engine_mask < 256
  or_right_byte = stay_bytes.1

  pub off_byte_left : switch_off x 1 < 256
  off_byte_left = stay_bytes.2

  pub off_byte_right : switch_off x 3 < 256
  off_byte_right = stay_bytes.3
