-- ===== src/Fcw/Controls.antt =====
-- The three bytes of controls: what each operation does to their bits, checked at every byte.
use Prim.Native.Nat.{bit_or}
use bare_metal_architect.Prelude.{
  ℕ, ◌<◌, ◌≡◌, refl, sym, Bool, true, false, ◌&&◌, ◌||◌, not, arith, ltb, ltb→lt,
}
use bare_metal_architect.Bytes.{bit, for_each, for_each→at}
use bare_metal_architect.Fcw.{
  is_set, switch_off, ground_mask, airborn_mask, fuel_mask, landing_gear_mask,
}

abbrev pub implies : Bool → Bool → Bool
implies p q = not p || q

abbrev pub same_bit : Bool → Bool → Bool
same_bit true b = b
same_bit false b = not b

-- On the ground or in the air, and in the air with the bit of the landing gear.
abbrev pub placed : ℕ → Bool
placed x =
    same_bit (is_set x ground_mask) (not (is_set x airborn_mask))
    && implies (is_set x airborn_mask) (is_set x landing_gear_mask)

module _ (p q : Bool) where
  pub implies_mp : implies p q ≡ true → p ≡ true → q ≡ true
  implies_mp h e = ground arith

  pub and_both : (p && q) ≡ true → (p ≡ true) × (q ≡ true)
  and_both h = ground arith

  pub same_bit_eq : same_bit p q ≡ true → p ≡ q
  same_bit_eq h = ground arith

pub record Refuelled (x z : ℕ) : Type 0 where
  pub byte : z < 256
  pub still_placed : placed z ≡ true
  pub filled : is_set z fuel_mask ≡ true
  pub same_air : is_set x airborn_mask ≡ is_set z airborn_mask

abbrev refuel_test : ℕ → Bool
refuel_test x =
    let z = bit_or x fuel_mask in
    implies (placed x) (
      ltb z 256
      && (placed z
          && (is_set z fuel_mask && same_bit (is_set x airborn_mask) (is_set z airborn_mask))))

refuel_table : for_each refuel_test 256 ≡ true
unfolding for_each
refuel_table = refl

pub refuelled : (x : ℕ) → x < 256 → placed x ≡ true → Refuelled x (bit_or x fuel_mask)
refuelled x lt p =
    let h = implies_mp _ _ (for_each→at refuel_test 256 refuel_table x lt) p in
    let (a, h1) = and_both _ _ h in
    let (b, h2) = and_both _ _ h1 in
    let (c, d) = and_both _ _ h2 in
    record { byte = ltb→lt _ _ a; still_placed = b; filled = c; same_air = same_bit_eq _ _ d }

-- The byte that `execute_departure` leaves.
abbrev pub departed_byte : ℕ → ℕ
departed_byte x = bit_or (bit_or (switch_off x 0) landing_gear_mask) (bit 1)

pub record Departed (x z : ℕ) : Type 0 where
  pub byte : z < 256
  pub off_ground : is_set (switch_off x 0) ground_mask ≡ false
  pub still_placed : placed z ≡ true
  pub same_fuel : is_set x fuel_mask ≡ is_set z fuel_mask
  pub in_air : is_set z airborn_mask ≡ true

abbrev depart_test : ℕ → Bool
depart_test x =
    let z = departed_byte x in
    ltb z 256
    && (same_bit false (is_set (switch_off x 0) ground_mask)
        && (placed z
            && (same_bit (is_set x fuel_mask) (is_set z fuel_mask) && is_set z airborn_mask)))

depart_table : for_each depart_test 256 ≡ true
unfolding for_each
depart_table = refl

pub departed : (x : ℕ) → x < 256 → Departed x (departed_byte x)
departed x lt =
    let (a, h1) = and_both _ _ (for_each→at depart_test 256 depart_table x lt) in
    let (b, h2) = and_both _ _ h1 in
    let (c, h3) = and_both _ _ h2 in
    let (d, e) = and_both _ _ h3 in
    record {
      byte = ltb→lt _ _ a;
      off_ground = sym (same_bit_eq false _ b);
      still_placed = c;
      same_fuel = same_bit_eq _ _ d;
      in_air = e;
    }

-- The byte that `execute_landing` leaves.
abbrev pub landed_byte : ℕ → ℕ
landed_byte x = bit_or (switch_off (bit_or x landing_gear_mask) 1) (bit 0)

pub record Landed (x z : ℕ) : Type 0 where
  pub byte : z < 256
  pub geared : is_set (bit_or x landing_gear_mask) landing_gear_mask ≡ true
  pub off_air : is_set (switch_off (bit_or x landing_gear_mask) 1) airborn_mask ≡ false
  pub on_ground : is_set z ground_mask ≡ true
  pub out_of_air : is_set z airborn_mask ≡ false
  pub still_placed : placed z ≡ true
  pub same_fuel : is_set x fuel_mask ≡ is_set z fuel_mask

abbrev land_test : ℕ → Bool
land_test x =
    let z = landed_byte x in
    ltb z 256
    && (is_set (bit_or x landing_gear_mask) landing_gear_mask
        && (same_bit false (is_set (switch_off (bit_or x landing_gear_mask) 1) airborn_mask)
            && (is_set z ground_mask
                && (same_bit false (is_set z airborn_mask)
                    && (placed z && same_bit (is_set x fuel_mask) (is_set z fuel_mask))))))

land_table : for_each land_test 256 ≡ true
unfolding for_each
land_table = refl

pub landed : (x : ℕ) → x < 256 → Landed x (landed_byte x)
landed x lt =
    let (a, h1) = and_both _ _ (for_each→at land_test 256 land_table x lt) in
    let (b, h2) = and_both _ _ h1 in
    let (c, h3) = and_both _ _ h2 in
    let (d, h4) = and_both _ _ h3 in
    let (e, h5) = and_both _ _ h4 in
    let (f, g) = and_both _ _ h5 in
    record {
      byte = ltb→lt _ _ a;
      geared = b;
      off_air = sym (same_bit_eq false _ c);
      on_ground = d;
      out_of_air = sym (same_bit_eq false _ e);
      still_placed = f;
      same_fuel = same_bit_eq _ _ g;
    }

-- In the air is the landing gear's bit set.
pub gear_in_air :
    (x : ℕ) → placed x ≡ true → is_set x airborn_mask ≡ true → is_set x landing_gear_mask ≡ true
gear_in_air x p air = implies_mp _ _ (and_both _ _ p).1 air
