-- ===== src/ThreadPool/Tests.antt =====
-- Two threads, a queue of two tasks, one task and the shutdown.
use bare_metal_architect.Prelude.{
  ℕ, ◌≤◌, ◌≡◌, refl, ◌⊎◌, Bool, true, false, some, List, [], ◌∷◌, arith, done,
}
use bare_metal_architect.Circular.{next, Row}
use bare_metal_architect.ThreadPool.{
  Task, Threadpool, System, Worker, awake, running, finished, is_asleep, turns, accepts, shuts,
  nobody, leaves, takes, worker_turn, submit_task, init, no_task, Reach, here, then_step, started,
}
use bare_metal_architect.ThreadPool.Order.{InOrder, Ordered}
use bare_metal_architect.ThreadPool.Safety.{reached-Ordered, Stranded, late_task_stays}
use bare_metal_architect.ThreadPool.Finish.{
  Work, Run, Finished, at_lock, at_task, nothing, then_work, work_left, shutdown-Finished,
}

abbrev granting : ℕ → Bool
granting n = true

abbrev job : Task
job = record { function = some 1; argument = 7 }

abbrev fresh : Threadpool
fresh = record {
  queue = no_task ∷ no_task ∷ [];
  thread_count = 2;
  queue_size = 2;
  head = 0;
  tail = 0;
  count = 0;
  shutdown = false;
}

abbrev filled : Threadpool
filled = record fresh { queue = job ∷ no_task ∷ []; tail = 1; count = 1 }

abbrev emptied : Threadpool
emptied = record filled { head = 1; count = 0 }

abbrev closed : Threadpool
closed = record emptied { shutdown = true }

-- The states of the two threads, and the tasks taken.
abbrev state : Threadpool → Worker → Worker → List Task → System
state pool a b tasks = record {
  pool = pool;
  workers = a ∷ b ∷ [];
  accepted = job ∷ [];
  late = [];
  taken = tasks;
}

first_pool : init granting 2 2 ≡ done fresh
unfolding init
first_pool = refl

submit_fresh : submit_task fresh (some 1) 7 ≡ done (filled, true)
unfolding submit_task next
submit_fresh = refl

turn_filled : worker_turn filled ≡ done (emptied, takes job)
unfolding worker_turn next
turn_filled = refl

turn_closed : worker_turn closed ≡ done (closed, leaves)
unfolding worker_turn
turn_closed = refl

taking : Reach (started fresh) (state emptied (running job) awake (job ∷ []))
taking =
    then_step
      (then_step here (accepts (some 1) 7 filled (awake ∷ awake ∷ []) submit_fresh (nobody refl)))
      (turns 0 emptied (takes job) refl turn_filled)

closing : Reach (started fresh) (state closed (running job) awake (job ∷ []))
closing = then_step taking shuts

leaving : Reach (started fresh) (state closed (running job) finished (job ∷ []))
leaving = then_step closing (turns 1 closed leaves refl turn_closed)

reached-Ordered_example : Ordered (state closed (running job) finished (job ∷ []))
reached-Ordered_example =
    reached-Ordered granting 2 2 fresh (state closed (running job) finished (job ∷ []))
      (omega arith) (omega arith) first_pool leaving

abbrev ending : System
ending = state closed finished finished (job ∷ [])

no-Row : Row closed.queue [] 1
no-Row = record {
  some_room = omega arith;
  inside = omega arith;
  fits = omega arith;
  cells = λ i lt. absurd (omega arith);
}

-- Between the threads nothing waits.
quiet-InOrder :
    (a b : Worker)
    → is_asleep a ≡ false
    → is_asleep b ≡ false
    → InOrder (state closed a b (job ∷ [])) []
quiet-InOrder a b p q = record {
  holds = record { row = no-Row; size = refl; small = omega arith; tail = refl; count = refl };
  tasks = refl;
  early = λ e. refl;
  no_sleep = λ e. rw (p, q) refl;
  alert = λ lt e. absurd (omega arith);
  down = λ e. refl;
  drained = λ e. omega arith;
}

late_task_stays_example : Stranded ending job
late_task_stays_example =
    late_task_stays ending [] job (quiet-InOrder finished finished refl refl) refl (omega arith)

finishing : Run (state closed (running job) awake (job ∷ [])) 3 ending
finishing =
    then_work
      (then_work (then_work nothing (at_lock 1 closed leaves refl turn_closed))
        (at_task 0 job refl))
      (at_lock 0 closed leaves refl turn_closed)

shutdown-Finished_example :
    (3 ≤ work_left (state closed (running job) awake (job ∷ [])))
    × (Finished (state closed (running job) awake (job ∷ [])) ending
        ⊎ ((e' : System) × Work ending e'))
shutdown-Finished_example =
    shutdown-Finished (state closed (running job) awake (job ∷ [])) ending 3
      ([], quiet-InOrder (running job) awake refl refl) refl (omega arith) finishing
