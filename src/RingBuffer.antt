-- ===== src/RingBuffer.antt =====
-- The ring buffer of recap/ring_buffer.c: pushes, pops and the thread that reports a full buffer.
-- Each call does its work between the lock and the unlock of one mutex, so that the threads
-- together run a sequence of these steps.
pub mod Bounded
pub mod Refine
mod Tests
use bare_metal_architect.Prelude.{
  ℕ, zero, suc, ◌+◌, ◌-◌, ◌*◌, ◌/◌, ◌%◌, ◌^◌, ◌≤◌, ◌<◌, ◌≡◌, refl, sym, ap, ◌∙◌, ◌≢◌, ◌↔◌, ◌⊎◌, inl,
  inr, Bool, true, false, ◌&&◌, ◌||◌, not, Option, none, some, List, [], ◌∷◌, ◌++◌, arith, ltb, leb,
  ◌==◌, if◌then◌else◌, Bool-cases, Option-cases, length, get_elem?, get_elem?-some, set, replicate,
  take, drop, All, length-append, length-set, length-replicate, get_elem?-set_self,
  get_elem?-set_ne, get_elem?-replicate, ℤ, pos, negsuc, to_uint8, Outcome, done, exits, fault,
  ◌>>=◌, ◌>>◌, or_fault, index, index_int, granted, ℕ_discrete, dec_lt, ltb→lt, lt→ltb, leb→le,
  ==_iff,
}
use bare_metal_architect.Circular.{next}

pub record Queue : Type 0 where
  pub buffer : List ℕ
  pub is_full : Bool
  pub capacity : ℕ
  pub size : ℕ
  pub head : ℕ
  pub tail : ℕ

pub init : (ℕ → Bool) → ℕ → Outcome Queue
init alloc capacity =
    if alloc 0 && alloc 1
    then done (record {
      buffer = replicate capacity 0;
      is_full = false;
      capacity = capacity;
      size = 0;
      head = 0;
      tail = 0;
    })
    else exits

-- `none` is a null argument, or an argument whose queue is null.
pub push : Option Queue → ℕ → Outcome Queue
unfolding next
push none val = exits
push (some q) val = if ltb q.capacity (q.size + 1) then done (record q { is_full = true }) else do
  _ ← index q.buffer q.head
  head ← next q.head q.capacity
  done (record q { buffer = set q.buffer q.head val; head = head; size = (q.size + 1) % 256 })

-- With the value that is printed.
pub pop : Option Queue → Outcome (Queue × Option ℕ)
unfolding next
pop none = exits
pop (some q) = if q.size == 0 then done (q, none) else do
  val ← index q.buffer q.tail
  tail ← next q.tail q.capacity
  done (record q { tail = tail; size = q.size - 1; is_full = false }, some val)

-- A turn of the reporting thread, whose queue is not null: it waits for `is_full`, reports and
-- clears it; the buffer stays while it waits.
pub report : Queue → Queue
report q = if q.is_full then record q { is_full = false } else q

pub data Step : Type 0 where
  pushes : ℕ → Step
  pops : Step
  reports : Step

pub step : Queue → Step → Outcome (Queue × Option ℕ)
unfolding push pop report
step q (pushes val) = do q' ← push (some q) val; done (q', none)
step q pops = pop (some q)
step q reports = done (report q, none)

-- A sequence of steps, with what they print.
pub run : Queue → List Step → Outcome (Queue × List (Option ℕ))
run q [] = done (q, [])
run q (s ∷ rest) = do r ← step q s; r' ← run r.0 rest; done (r'.0, r.1 ∷ r'.1)
