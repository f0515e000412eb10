-- ===== src/Cargo.antt =====
-- problems/cargo.c: containers wait in a queue of ten places, are inspected on arrival, and are
-- loaded onto the rails of the cargo bay by the hash of their tracking code. Each call takes
-- `alloc`, which says of its n-th allocation whether the C library grants it, and `enqueue` the
-- byte that it finds in the fresh memory. Printing and the frees are left out.
pub mod Inspect
pub mod Queue
pub mod Rails
mod Tests
use Prim.Native.Nat.{bit_and, bit_or}
use bare_metal_architect.Prelude.{
  ℕ, zero, suc, ◌+◌, ◌-◌, ◌*◌, ◌/◌, ◌%◌, ◌≤◌, ◌<◌, ◌≡◌, refl, sym, ap, ◌∙◌, ◌≢◌, ◌↔◌, ◌⊎◌, inl, inr,
  Bool, true, false, ◌&&◌, ◌||◌, not, Option, none, some, List, [], ◌∷◌, ◌++◌, arith, ltb, leb,
  ◌==◌, if◌then◌else◌, Bool-cases, Option-cases, length, get_elem?, get_elem?-some, set, replicate,
  take, drop, All, length-append, length-set, length-replicate, get_elem?-set_self,
  get_elem?-set_ne, get_elem?-replicate, ℤ, pos, negsuc, to_uint8, Outcome, done, exits, fault,
  ◌>>=◌, ◌>>◌, or_fault, index, index_int, granted, ℕ_discrete, dec_lt, ltb→lt, lt→ltb, leb→le,
  ==_iff,
}
use bare_metal_architect.Text.{Text, hash_uint8}
use bare_metal_architect.Bytes.{bit, has_bit, combine, extract_left, extract_right}
use bare_metal_architect.Chains.{append_tail}
use bare_metal_architect.Arrays.{shift_left}

-- CARGO_QUEUE_CAPACITY, CARGO_RAILS_CAPACITY and TC_SIZE.
abbrev pub cargo_queue_capacity : ℕ
cargo_queue_capacity = 10

abbrev pub cargo_rails_capacity : ℕ
cargo_rails_capacity = 4

abbrev pub tc_size : ℕ
tc_size = 7

abbrev pub in_queue_idx : ℕ
in_queue_idx = 0

abbrev pub inspected_idx : ℕ
inspected_idx = 1

abbrev pub quarantine_idx : ℕ
quarantine_idx = 3

abbrev pub departure_idx : ℕ
departure_idx = 7

-- An `enum` can hold any `int`: the other values reach the `default` branches.
pub data CargoMaterial : Type 0 where
  mat_bio mat_mac : CargoMaterial
  mat_other : ℕ → CargoMaterial

-- Both members of the union `Material` are the one byte `container_material`.
pub record Container : Type 0 where
  pub tracking_code : Text
  pub container_material : ℕ
  pub container_state : ℕ

pub record CargoBay : Type 0 where
  pub rails : List (List Container)
  pub rails_count : ℕ

pub record CargoQueue : Type 0 where
  pub places : List (Option Container)
  pub size : ℕ

-- The label, or a null pointer. Its bytes are written before the check of the first allocation, so
-- that a refused one is a fault.
pub validate_tc : Bool → Bool → Text → Outcome (Option Text)
validate_tc label bytes tracking_code =
    if length tracking_code == tc_size
    then (if label then done (if bytes then some tracking_code else none) else fault)
    else done none

-- What `load` does with the chain of the container's rail.
pub place_on : List Container → Container → List Container
place_on [] container = container ∷ []
place_on (head ∷ rest) container =
    append_tail (head ∷ rest) (record container { container_state = bit_or 0 (bit departure_idx) })

pub load : (ℕ → Bool) → CargoBay → Container → Outcome CargoBay
unfolding validate_tc place_on
load alloc bay container = do
  label ← validate_tc (alloc 0) (alloc 1) container.tracking_code
  tc ← or_fault label
  idx ← hash_uint8 tc cargo_rails_capacity
  if not (has_bit container.container_state inspected_idx) then done bay else (do
    chain ← index bay.rails idx
    done (record bay { rails = set bay.rails idx (place_on chain container) }))

pub suspicious : Container → CargoMaterial → Bool
suspicious c mat_bio =
    extract_left c.container_material == 0 || extract_right c.container_material == 0
suspicious c mat_mac =
    extract_left c.container_material == 0 || extract_right c.container_material == 0
suspicious c (mat_other m) = true

pub inspect : Container → CargoMaterial → Container
unfolding suspicious
inspect c mat =
    if not (has_bit c.container_state in_queue_idx) || suspicious c mat
    then record c { container_state = bit_or 0 (bit quarantine_idx) }
    else record c { container_state = bit_or 0 (bit inspected_idx) }

-- What `enqueue` writes into the fresh container before the inspection.
pub prepare : ℕ → ℕ → Text → CargoMaterial → ℕ → ℕ → Container
prepare state material code mat_bio v1 v2 = record {
  tracking_code = code;
  container_material = combine v1 v2;
  container_state = bit_or state (bit in_queue_idx);
}
prepare state material code mat_mac v1 v2 = record {
  tracking_code = code;
  container_material = combine v1 v2;
  container_state = bit_or state (bit in_queue_idx);
}
prepare state material code (mat_other m) v1 v2 = record {
  tracking_code = code;
  container_material = material;
  container_state = bit_or state (bit quarantine_idx);
}

-- `state` and `material` are what the fresh memory holds. A refused container, and a refused
-- tracking code, are reported and passed over.
pub enqueue : (ℕ → Bool) → ℕ → ℕ → CargoQueue → Text → CargoMaterial → ℕ → ℕ → Outcome CargoQueue
unfolding validate_tc
enqueue alloc state material queue code mat v1 v2 =
    if ltb cargo_queue_capacity (queue.size + 1)
    then exits
    else if not (alloc 0)
    then done queue
    else (do
      label ← validate_tc (alloc 1) (alloc 2) code
      tc ← or_fault label
      if not (alloc 3) then done queue else (do
        _ ← index queue.places queue.size
        done (record {
          places =
              set queue.places queue.size
                (some (inspect (prepare state material tc mat v1 v2) mat));
          size = queue.size + 1;
        })))

-- The callback decides what becomes of the container.
pub dequeue :
    CargoQueue
    → CargoBay
    → (CargoBay → Container → Outcome CargoBay)
    → Outcome (CargoQueue × CargoBay)
dequeue queue bay on_dequeue = if queue.size == 0 then done (queue, bay) else (do
  front ← index queue.places 0
  moved ← shift_left (queue.size - 1) queue.places
  _ ← index moved (queue.size - 1)
  new_container ← or_fault front
  bay' ← on_dequeue bay new_container
  done (record { places = set moved (queue.size - 1) none; size = queue.size - 1 }, bay'))

pub init_cargo_queue : Bool → Outcome CargoQueue
init_cargo_queue allocated = do
  granted allocated
  done (record { places = replicate cargo_queue_capacity none; size = 0 })

pub init_cargo_bay : (ℕ → Bool) → Outcome CargoBay
init_cargo_bay alloc = do
  granted (alloc 0)
  granted (alloc 1)
  done (record { rails = replicate cargo_rails_capacity []; rails_count = cargo_rails_capacity })
