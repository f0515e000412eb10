-- ===== src/Cargo/Inspect.antt =====
-- The verdict of `inspect`, and that it does not depend on what the fresh memory held.
use Prim.Native.Nat.{bit_or}
use bare_metal_architect.Prelude.{
  ℕ, ◌<◌, ◌≡◌, refl, Bool, true, false, ◌||◌, not, arith, ◌==◌, if◌then◌else◌,
}
use bare_metal_architect.Text.{Text}
use bare_metal_architect.Bytes.{bit, has_bit, for_each, for_each→at, extract-combine}
use bare_metal_architect.Cargo.{
  CargoMaterial, mat_bio, mat_mac, mat_other, inspect, prepare, in_queue_idx,
}

-- The states that an inspected container can have.
abbrev pub inspected : ℕ
inspected = 2

abbrev pub quarantined : ℕ
quarantined = 8

-- A known material has both its four-bit readings.
abbrev pub is_healthy : CargoMaterial → ℕ → ℕ → Bool
is_healthy mat_bio v1 v2 = not (v1 == 0 || v2 == 0)
is_healthy mat_mac v1 v2 = not (v1 == 0 || v2 == 0)
is_healthy (mat_other m) v1 v2 = false

abbrev stays_queued : ℕ → Bool
stays_queued s = has_bit (bit_or s (bit in_queue_idx)) in_queue_idx

queued_table : for_each stays_queued 256 ≡ true
unfolding for_each
queued_table = refl

-- A container of readings below 16 that `enqueue` has prepared in memory holding any bytes: its
-- inspection ends in the state "inspected" if the material is known and neither reading is 0, and
-- in quarantine otherwise.
pub inspect-prepare :
    (state material : ℕ) (code : Text) (mat : CargoMaterial) (v1 v2 : ℕ)
    → state < 256
    → v1 < 16
    → v2 < 16
    → (inspect (prepare state material code mat v1 v2) mat).container_state
      ≡ (if is_healthy mat v1 v2 then inspected else quarantined)
unfolding inspect prepare
inspect-prepare state material code mat_bio v1 v2 s h1 h2 =
    ground (arith, extract-combine v1 v2 h1 h2, for_each→at stays_queued 256 queued_table state s)
inspect-prepare state material code mat_mac v1 v2 s h1 h2 =
    ground (arith, extract-combine v1 v2 h1 h2, for_each→at stays_queued 256 queued_table state s)
inspect-prepare state material code (mat_other m) v1 v2 s h1 h2 = ground arith

pub tracking_code-inspect :
    (state material : ℕ) (code : Text) (mat : CargoMaterial) (v1 v2 : ℕ)
    → (inspect (prepare state material code mat v1 v2) mat).tracking_code ≡ code
unfolding inspect prepare
tracking_code-inspect state material code mat_bio v1 v2 = ground arith
tracking_code-inspect state material code mat_mac v1 v2 = ground arith
tracking_code-inspect state material code (mat_other m) v1 v2 = ground arith
