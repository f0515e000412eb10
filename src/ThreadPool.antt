-- ===== src/ThreadPool.antt =====
-- The thread pools of multithreading/tp_engine.c and pthread/thread_pool.c: the queue of the tasks,
-- the loop of the workers and the threads that run together.
pub mod Queue
pub mod Workers
pub mod Order
pub mod Safety
pub mod Finish
mod Tests
use bare_metal_architect.Prelude.{
  ℕ, zero, suc, ◌+◌, ◌-◌, ◌*◌, ◌/◌, ◌%◌, ◌^◌, ◌≤◌, ◌<◌, ◌≡◌, refl, sym, ap, ◌∙◌, ◌≢◌, ◌↔◌, ◌⊎◌, inl,
  inr, Bool, true, false, ◌&&◌, ◌||◌, not, Option, none, some, List, [], ◌∷◌, ◌++◌, arith, ltb, leb,
  ◌==◌, if◌then◌else◌, Bool-cases, Option-cases, length, get_elem?, get_elem?-some, set, replicate,
  take, drop, All, length-append, length-set, length-replicate, get_elem?-set_self,
  get_elem?-set_ne, get_elem?-replicate, ℤ, pos, negsuc, to_uint8, Outcome, done, exits, fault,
  ◌>>=◌, ◌>>◌, or_fault, index, index_int, granted, ℕ_discrete, dec_lt, ltb→lt, lt→ltb, leb→le,
  ==_iff,
}
use bare_metal_architect.Circular.{next}

-- A function pointer, `none` where it is null, and the address of its argument.
pub record Task : Type 0 where
  pub function : Option ℕ
  pub argument : ℕ

pub record Threadpool : Type 0 where
  pub queue : List Task
  pub thread_count : ℕ
  pub queue_size : ℕ
  pub head : ℕ
  pub tail : ℕ
  pub count : ℕ
  pub shutdown : Bool

abbrev pub no_task : Task
no_task = record { function = none; argument = 0 }

unfoldable pub init : (ℕ → Bool) → ℕ → ℕ → Outcome Threadpool
init alloc thread_count queue_size = do
  granted (alloc 0)
  granted (alloc 1)
  granted (alloc 2)
  done (record {
    queue = replicate queue_size no_task;
    thread_count = thread_count;
    queue_size = queue_size;
    head = 0;
    tail = 0;
    count = 0;
    shutdown = false;
  })

-- Between the lock and the unlock; the `notify` is a part of the step of the threads, below.
unfoldable pub submit_task : Threadpool → Option ℕ → ℕ → Outcome (Threadpool × Bool)
unfolding next
submit_task pool function argument =
    if pool.count == pool.queue_size then done (pool, false) else do
      _ ← index pool.queue pool.tail
      tail ← next pool.tail pool.queue_size
      done (
        record pool {
          queue = set pool.queue pool.tail (record { function = function; argument = argument });
          tail = tail;
          count = (pool.count + 1) % 256;
        },
        true,
      )

-- What a worker does when it has got the lock.
pub data Turn : Type 0 where
  waits : Turn
  leaves : Turn
  takes : Task → Turn

-- The worker's loop from the lock to the wait, to the unlock before its end, or to the unlock with
-- a task.
unfoldable pub worker_turn : Threadpool → Outcome (Threadpool × Turn)
unfolding next
worker_turn pool =
    if pool.count == 0 && not pool.shutdown
    then done (pool, waits)
    else if pool.shutdown && pool.count == 0
    then done (pool, leaves)
    else do
      task ← index pool.queue pool.head
      head ← next pool.head pool.queue_size
      done (record pool { head = head; count = pool.count - 1 }, takes task)

-- A worker is about to take the lock, waits on the condition, runs a task or has returned.
pub data Worker : Type 0 where
  awake : Worker
  asleep : Worker
  running : Task → Worker
  finished : Worker

-- `pthread_cond_broadcast`.
abbrev pub woken : Worker → Worker
woken asleep = awake
woken awake = awake
woken (running t) = running t
woken finished = finished

abbrev pub wake_all : List Worker → List Worker
wake_all [] = []
wake_all (w ∷ ws) = woken w ∷ wake_all ws

abbrev pub is_asleep : Worker → Bool
is_asleep asleep = true
is_asleep awake = false
is_asleep (running t) = false
is_asleep finished = false

abbrev pub any : {A : Type 0} → (A → Bool) → List A → Bool
any p [] = false
any p (x ∷ xs) = p x || any p xs

-- `pthread_cond_signal`: one of the threads that wait is woken, where there is one.
pub data Signals (ws : List Worker) : List Worker → Type 0 where
  wakes_one : (i : ℕ) → get_elem? ws i ≡ some asleep → Signals ws (set ws i awake)
  nobody : any is_asleep ws ≡ false → Signals ws ws

-- The pool, the states of its threads, and what has happened: the tasks accepted before the
-- shutdown and after it, and the tasks taken from the queue, the oldest first.
pub record System : Type 0 where
  pub pool : Threadpool
  pub workers : List Worker
  pub accepted : List Task
  pub late : List Task
  pub taken : List Task

-- The state of a worker after its turn.
abbrev pub turned : Turn → Worker
turned waits = asleep
turned leaves = finished
turned (takes t) = running t

abbrev pub taken_by : Turn → List Task
taken_by waits = []
taken_by leaves = []
taken_by (takes t) = t ∷ []

-- The log of the accepted tasks.
abbrev pub logged : System → Task → System
logged s t =
    if s.pool.shutdown
    then record s { late = s.late ++ (t ∷ []) }
    else record s { accepted = s.accepted ++ (t ∷ []) }

-- A step of one of the threads. A worker may wake up without a signal.
pub data Step (s : System) : System → Type 0 where
  accepts :
      (function : Option ℕ) (argument : ℕ) (pool : Threadpool) (ws : List Worker)
      → submit_task s.pool function argument ≡ done (pool, true)
      → Signals s.workers ws
      → Step s (record (logged s (record { function = function; argument = argument })) {
        pool = pool;
        workers = ws;
      })
  refuses :
      (function : Option ℕ) (argument : ℕ) (pool : Threadpool)
      → submit_task s.pool function argument ≡ done (pool, false)
      → Step s (record s { pool = pool })
  turns :
      (i : ℕ) (pool : Threadpool) (t : Turn)
      → get_elem? s.workers i ≡ some awake
      → worker_turn s.pool ≡ done (pool, t)
      → Step s (record s {
        pool = pool;
        workers = set s.workers i (turned t);
        taken = s.taken ++ taken_by t;
      })
  returns :
      (i : ℕ) (t : Task)
      → get_elem? s.workers i ≡ some (running t)
      → Step s (record s { workers = set s.workers i awake })
  wakes :
      (i : ℕ)
      → get_elem? s.workers i ≡ some asleep
      → Step s (record s { workers = set s.workers i awake })
  shuts :
      Step s (record s { pool = record s.pool { shutdown = true }; workers = wake_all s.workers })

-- The system after `init` and the creation of the threads.
abbrev pub started : Threadpool → System
started pool = record {
  pool = pool;
  workers = replicate pool.thread_count awake;
  accepted = [];
  late = [];
  taken = [];
}

-- What the threads can reach from there.
pub data Reach (s : System) : System → Type 0 where
  here : Reach s s
  then_step : {m e : System} → Reach s m → Step m e → Reach s e
