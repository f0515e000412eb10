-- ===== src/Reconcile.antt =====
-- pthread/reconciliation.c: two threads extract data into two sources, a third prints the sources
-- when both are extracted, and a fourth compares their sizes when both are printed.
pub mod Stages
pub mod Extract
pub mod Sound
mod Tests
use Prim.Native.Nat.{bit_and, bit_or}
use bare_metal_architect.Prelude.{
  ℕ, zero, suc, ◌+◌, ◌-◌, ◌*◌, ◌/◌, ◌%◌, ◌^◌, ◌≤◌, ◌<◌, ◌≡◌, refl, sym, ap, ◌∙◌, ◌≢◌, ◌↔◌, ◌⊎◌, inl,
  inr, Bool, true, false, ◌&&◌, ◌||◌, not, Option, none, some, List, [], ◌∷◌, ◌++◌, arith, ltb, leb,
  ◌==◌, if◌then◌else◌, Bool-cases, Option-cases, length, get_elem?, get_elem?-some, set, replicate,
  take, drop, All, length-append, length-set, length-replicate, get_elem?-set_self,
  get_elem?-set_ne, get_elem?-replicate, ℤ, pos, negsuc, to_uint8, Outcome, done, exits, fault,
  ◌>>=◌, ◌>>◌, or_fault, index, index_int, granted, ℕ_discrete, dec_lt, ltb→lt, lt→ltb, leb→le,
  ==_iff,
}
use bare_metal_architect.Bytes.{bit}
use bare_metal_architect.Chains.{linked}
use bare_metal_architect.Text.{Text, codes, str_eq}

-- `PipelineType`.
pub data PipelineType : Type 0 where
  ds : PipelineType
  pd : PipelineType

pub record PipelineData : Type 0 where
  pub cc_code : ℕ
  pub metadata : ℕ

-- `struct DataSource`, its list by the nodes from the head to the tail.
pub record DataSource : Type 0 where
  pub nodes : List PipelineData
  pub ds_code : Text
  pub size : ℕ
  pub capacity : ℕ

-- Whether the pointer is not null.
unfoldable pub check_allocation : Bool → PipelineType → Outcome (Unit {0})
check_allocation ok ds = granted ok
check_allocation ok pd = granted ok

unfoldable pub validate_ds_code : Text → Outcome ℕ
validate_ds_code ds_code =
    if str_eq ds_code (codes "SNOWF")
    then done 0
    else if str_eq ds_code (codes "ANAPL")
    then done 1
    else exits

-- `ds->ds_code[i] = '\0'`, in an array of six.
abbrev pub terminate : ℕ → Outcome (Unit {0})
terminate i = if ltb i 6 then done tt else fault

-- A source without data.
abbrev pub new_source : Text → DataSource
new_source code = record { nodes = []; ds_code = code; size = 0; capacity = 100 }

unfoldable pub init_datasource : Bool → PipelineType → Text → Outcome DataSource
init_datasource alloc type code = do
  _ ← validate_ds_code code
  check_allocation alloc type
  terminate (length code + 1)
  done (new_source code)

unfoldable pub set_metadata : PipelineData → ℕ → Outcome PipelineData
set_metadata data' code =
    let marked = bit_or 0 (bit 3) in
    if code == 0
    then done (record data' { metadata = bit_or marked 0x0A })
    else if code == 1
    then done (record data' { metadata = bit_or marked 0x09 })
    else exits

-- With the allocation of the node, whose metadata the handler sets.
unfoldable pub add_data :
    Bool
    → DataSource
    → ℕ
    → PipelineType
    → (PipelineData → ℕ → Outcome PipelineData)
    → Outcome DataSource
add_data alloc source code type handle_metadata =
    if ltb source.capacity ((source.size + 1) % 4294967296) then exits else do
      check_allocation alloc type
      from ← validate_ds_code source.ds_code
      node ← handle_metadata (record { cc_code = code; metadata = 0 }) from
      done (record source {
        nodes = linked source.nodes node;
        size = (source.size + 1) % 4294967296;
      })

-- Where an extracting thread is: before its test of the quantity, before it adds packet `i`, before
-- it marks node `k`, or behind its announcement.
pub data Phase : Type 0 where
  entering : Phase
  adding : ℕ → Phase
  marking : ℕ → Phase
  extracted : Phase

-- The body of its second loop at a node, and what follows the loop.
abbrev pub mark_ready : DataSource → ℕ → ℕ → Option PipelineData → DataSource × Phase × ℕ
mark_ready source k state none = (source, extracted, (state + 1) % 256)
mark_ready source k state (some node) = (
  record source {
    nodes = set source.nodes k (record node { metadata = bit_or node.metadata (bit 7) });
  },
  marking (suc k),
  state,
)

-- The next part of `extract_and_process` under the mutex, with `reconciliate_state`.
unfoldable pub extract_and_process :
    Bool → ℕ → DataSource → Phase → ℕ → Outcome (DataSource × Phase × ℕ)
extract_and_process alloc quantity source entering state =
    if ltb 100 quantity then exits else done (source, adding 0, state)
extract_and_process alloc quantity source (adding i) state =
    if ltb i quantity
    then (do
      more ← add_data alloc source (i % 256) pd set_metadata
      done (more, adding (suc i), state))
    else done (source, marking 0, state)
extract_and_process alloc quantity source (marking k) state =
    done (mark_ready source k state (get_elem? source.nodes k))
extract_and_process alloc quantity source extracted state = done (source, extracted, state)

-- The code of a node, and whether its source is Snowflake and not Anaplan.
abbrev pub lines : List PipelineData → List (ℕ × Bool)
lines [] = []
lines (current ∷ rest) = (current.cc_code, bit_and current.metadata (bit 0) == 0) ∷ lines rest

-- What it prints, and `process_reco`.
unfoldable pub print_ds_data : DataSource → ℕ → List (ℕ × Bool) × ℕ
print_ds_data source process_reco = elim source.nodes [
  | [] ↦ ([], process_reco)
  | current ∷ rest ↦ (lines (current ∷ rest), (process_reco + 1) % 256)
]

-- The thread of `start_reconciliation`: it waits, is before the first print, before the second, or
-- has returned.
pub data Printer : Type 0 where
  waiting : Printer
  first : Printer
  second : Printer
  returned : Printer

-- The sources, the threads, the two global counters, what is printed, and the sum of the sizes once
-- the fourth thread has reported it.
pub record System : Type 0 where
  pub ds1 : DataSource
  pub ds2 : DataSource
  pub phase1 : Phase
  pub phase2 : Phase
  pub printer : Printer
  pub reconciliate_state : ℕ
  pub process_reco : ℕ
  pub printed : List (ℕ × Bool)
  pub reported : Option ℕ

-- A thread that waits on its condition goes on when the condition holds.
unfoldable pub start_reconciliation : System → System
start_reconciliation s = elim s.printer [
  | waiting ↦ if s.reconciliate_state == 2 then record s { printer = first } else s
  | first ↦
      let p = print_ds_data s.ds1 s.process_reco in
      record s { printer = second; process_reco = p.1; printed = s.printed ++ p.0 }
  | second ↦
      let p = print_ds_data s.ds2 s.process_reco in
      record s { printer = returned; process_reco = p.1; printed = s.printed ++ p.0 }
  | returned ↦ s
]

unfoldable pub process_reconciliation : System → Outcome System
process_reconciliation s =
    if s.process_reco == 2
    then if s.ds1.size == s.ds2.size
      then done (record s { reported = some (s.ds1.size + s.ds2.size) })
      else exits
    else done s

-- The four threads of `main`; an extracting thread runs with the answer of its allocation.
pub data Thread : Type 0 where
  snow_ext : Bool → Thread
  ana_ext : Bool → Thread
  reconciliate : Thread
  process : Thread

-- One step of a thread, with the quantities to extract.
unfoldable pub step : ℕ → ℕ → Thread → System → Outcome System
step q1 q2 (snow_ext alloc) s = do
  r ← extract_and_process alloc q1 s.ds1 s.phase1 s.reconciliate_state
  done (record s { ds1 = r.0; phase1 = r.1; reconciliate_state = r.2 })
step q1 q2 (ana_ext alloc) s = do
  r ← extract_and_process alloc q2 s.ds2 s.phase2 s.reconciliate_state
  done (record s { ds2 = r.0; phase2 = r.1; reconciliate_state = r.2 })
step q1 q2 reconciliate s = done (start_reconciliation s)
step q1 q2 process s = process_reconciliation s

-- The steps in the order that the threads get to run.
unfoldable pub run : ℕ → ℕ → List Thread → System → Outcome System
run q1 q2 [] s = done s
run q1 q2 (t ∷ schedule) s = do s' ← step q1 q2 t s; run q1 q2 schedule s'

-- When `main` has made the threads. The sources are as init_datasource leaves them where the byte
-- that it writes behind `ds_code` falls into the padding of the structure.
abbrev pub started : System
started = record {
  ds1 = new_source (codes "SNOWF");
  ds2 = new_source (codes "ANAPL");
  phase1 = entering;
  phase2 = entering;
  printer = waiting;
  reconciliate_state = 0;
  process_reco = 0;
  printed = [];
  reported = none;
}
