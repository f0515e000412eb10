-- ===== src/ThreadPool/Finish.antt =====
-- The end of the threads after the shutdown, in every order of their steps.
use bare_metal_architect.Prelude.{
  ℕ, zero, suc, ◌+◌, ◌*◌, ◌≤◌, ◌<◌, ◌≡◌, refl, ap, ◌∙◌, ◌⊎◌, inl, inr, true, false, some, List, [],
  ◌∷◌, ◌++◌, arith, Bool-cases, length, get_elem?, set, length-set, done,
}
use mathlib.Core.Option.{some-injective}
use bare_metal_architect.ThreadPool.{
  Task, Threadpool, System, Worker, awake, asleep, running, finished, is_asleep, any, Step, turns,
  returns, turned, taken_by, Turn, worker_turn,
}
use bare_metal_architect.ThreadPool.Queue.{
  Holds, TurnOf, waited, left, took, turn_of, turned-TurnOf,
}
use bare_metal_architect.ThreadPool.Workers.{is_finished, is_going, any-found, any-none}
use bare_metal_architect.ThreadPool.Order.{InOrder, Ordered, step-Ordered}
use bare_metal_architect.ThreadPool.Safety.{returned-All_taken}

-- A step of a worker: its turn with the lock, or the return of its task.
pub data Work (s : System) : System → Type 0 where
  at_lock :
      (i : ℕ) (pool : Threadpool) (t : Turn)
      → get_elem? s.workers i ≡ some awake
      → worker_turn s.pool ≡ done (pool, t)
      → Work s (record s {
        pool = pool;
        workers = set s.workers i (turned t);
        taken = s.taken ++ taken_by t;
      })
  at_task :
      (i : ℕ) (t : Task)
      → get_elem? s.workers i ≡ some (running t)
      → Work s (record s { workers = set s.workers i awake })

-- Some steps of the workers, counted.
pub data Run (s : System) : ℕ → System → Type 0 where
  nothing : Run s 0 s
  then_work : {n : ℕ} {m e : System} → Run s n m → Work m e → Run s (suc n) e

work_step : (s e : System) → Work s e → Step s e
work_step s _ (at_lock i pool t at e) = turns i pool t at e
work_step s _ (at_task i t at) = returns i t at

-- The steps that a worker has before it, but for tasks that it takes later.
abbrev pub weight : Worker → ℕ
weight awake = 1
weight asleep = 1
weight (running t) = 2
weight finished = 0

abbrev pub weights : List Worker → ℕ
weights [] = 0
weights (w ∷ ws) = weight w + weights ws

-- A bound for the steps of the workers after the shutdown.
abbrev pub work_left : System → ℕ
work_left s = 2 * s.pool.count + weights s.workers

weights-set :
    (ws : List Worker) (i : ℕ) (old new : Worker)
    → get_elem? ws i ≡ some old
    → weights (set ws i new) + weight old ≡ weights ws + weight new
weights-set [] i old new e = absurd (cc)
weights-set (w ∷ ws) zero old new e = omega (arith, ap weight (some-injective w old e))
weights-set (w ∷ ws) (suc i) old new e = omega (arith, weights-set ws i old new e)

-- A step after the shutdown takes at least one from what is left.
pub record Spends (s e : System) : Type 0 where
  pub still_down : e.pool.shutdown ≡ true
  pub less : suc (work_left e) ≤ work_left s

module _ (s : System) (i : ℕ) (at : get_elem? s.workers i ≡ some awake)
    (down : s.pool.shutdown ≡ true) where
  turn-Spends :
      (waiting : List Task) (pool : Threadpool) (t : Turn)
      → Holds s.pool waiting
      → TurnOf s.pool waiting pool t
      → Spends s (record s {
        pool = pool;
        workers = set s.workers i (turned t);
        taken = s.taken ++ taken_by t;
      })
  turn-Spends _ _ _ h (waited up) = absurd (cc)
  turn-Spends _ _ _ h (left d) = record {
    still_down = down;
    less = omega (arith, weights-set s.workers i awake finished at);
  }
  turn-Spends _ _ _ h (took t rest pool b) = record {
    still_down = b.same_flag ∙ down;
    less = omega (arith, weights-set s.workers i awake (running t) at, h.count, b.holds.count);
  }

Work-Spends : (s e : System) → Work s e → Ordered s → s.pool.shutdown ≡ true → Spends s e
Work-Spends s _ (at_lock i pool t at e) (waiting, h) down =
    turn-Spends s i at down waiting pool t h.holds (turned-TurnOf s.pool waiting pool t h.holds e)
Work-Spends s _ (at_task i t at) (waiting, h) down = record {
  still_down = down;
  less = omega (arith, weights-set s.workers i (running t) awake at);
}

pub record Bounded (s : System) (n : ℕ) (e : System) : Type 0 where
  pub ordered : Ordered e
  pub still_down : e.pool.shutdown ≡ true
  pub bound : n + work_left e ≤ work_left s
  pub same_tasks : e.accepted ≡ s.accepted
  pub same_count : length e.workers ≡ length s.workers

keeps_accepted : (s e : System) → Work s e → e.accepted ≡ s.accepted
keeps_accepted s _ (at_lock i pool t at e) = refl
keeps_accepted s _ (at_task i t at) = refl

keeps_threads : (s e : System) → Work s e → length e.workers ≡ length s.workers
keeps_threads s _ (at_lock i pool t at e) = length-set s.workers i (turned t)
keeps_threads s _ (at_task i t at) = length-set s.workers i awake

run-Bounded :
    (s : System) (n : ℕ) (e : System)
    → Run s n e
    → Ordered s
    → s.pool.shutdown ≡ true
    → Bounded s n e
run-Bounded s _ _ nothing h down = record {
  ordered = h;
  still_down = down;
  bound = omega arith;
  same_tasks = refl;
  same_count = refl;
}
run-Bounded s _ _ (then_work {n} {m} {e} before step) h down =
    let b = run-Bounded s n m before h down in
    let sp = Work-Spends m e step b.ordered b.still_down in
    record {
      ordered = step-Ordered m e (work_step m e step) b.ordered;
      still_down = sp.still_down;
      bound = omega (arith, b.bound, sp.less);
      same_tasks = keeps_accepted m e step ∙ b.same_tasks;
      same_count = keeps_threads m e step ∙ b.same_count;
    }

-- A worker that has not returned has a step.
worker_moves :
    (e : System) (waiting : List Task) (i : ℕ) (w : Worker)
    → InOrder e waiting
    → e.pool.shutdown ≡ true
    → get_elem? e.workers i ≡ some w
    → is_going w ≡ true
    → (e' : System) × Work e e'
worker_moves e waiting i awake h down at going =
    let (pool, t, returned, o) = turn_of e.pool waiting h.holds in (_, at_lock i pool t at returned)
worker_moves e waiting i asleep h down at going =
    let no = any-none is_asleep e.workers i asleep (h.no_sleep down) at in absurd (cc)
worker_moves e waiting i (running t) h down at going = (_, at_task i t at)
worker_moves e waiting i finished h down at going = absurd (cc)

-- All workers have returned, and the tasks that were accepted before the shutdown were taken.
pub record Finished (s e : System) : Type 0 where
  pub all_returned : any is_going e.workers ≡ false
  pub rest : List Task
  pub all_taken : e.taken ≡ s.accepted ++ rest

returned_one :
    (ws : List Worker) → 0 < length ws → any is_going ws ≡ false → any is_finished ws ≡ true
returned_one [] lt e = absurd (omega arith)
returned_one (w ∷ ws) lt e = ground arith

-- After the shutdown, in every order of the steps of the workers of a pool with a worker, where no
-- more tasks are submitted: there are at most two steps for each task that waits and two for each
-- worker; and until all workers have returned, with every task taken that was accepted before the
-- shutdown, one of them can make a step.
pub shutdown-Finished :
    (s e : System) (n : ℕ)
    → Ordered s
    → s.pool.shutdown ≡ true
    → 0 < length s.workers
    → Run s n e
    → (n ≤ work_left s) × (Finished s e ⊎ ((e' : System) × Work e e'))
shutdown-Finished s e n h down some_worker r =
    let b = run-Bounded s n e r h down in
    let ended : any is_going e.workers ≡ false → Finished s e = λ gone.
      let (rest, same) =
        returned-All_taken e b.ordered
          (returned_one e.workers (rw b.same_count some_worker) gone) in
      record {
        all_returned = gone;
        rest = rest;
        all_taken = same ∙ ap (λ l. l ++ rest) b.same_tasks;
      } in
    (
      omega (arith, b.bound),
      elim (Bool-cases (any is_going e.workers)) [
        | inl going ↦
            let (i, w, at, g) = any-found is_going e.workers going in
            inr (worker_moves e b.ordered.0 i w b.ordered.1 b.still_down at g)
        | inr gone ↦ inl (ended gone)
      ],
    )
