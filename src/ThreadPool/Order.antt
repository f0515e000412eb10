-- ===== src/ThreadPool/Order.antt =====
-- What holds of the threads in every order of their steps: no task is lost, taken twice or taken
-- out of turn, and no wake-up is lost.
use bare_metal_architect.Prelude.{
  ℕ, ◌≤◌, ◌<◌, ◌≡◌, refl, sym, ap, ◌∙◌, inl, inr, true, false, some, List, [], ◌∷◌, ◌++◌, arith,
  Bool-cases, length, get_elem?, set, length-append,
}
use bare_metal_architect.Prelude.{subst}
use mathlib.Core.List.{append_assoc, append-nil}
use bare_metal_architect.ThreadPool.{
  Task, Threadpool, System, Worker, awake, asleep, running, finished, is_asleep, any, logged, Step,
  accepts, refuses, turns, returns, wakes, shuts, turned, taken_by, Turn, wake_all, Signals,
}
use bare_metal_architect.ThreadPool.Queue.{
  Holds, Became, TurnOf, waited, left, took, accepted-Became, refused-same, turned-TurnOf,
}
use bare_metal_architect.ThreadPool.Workers.{
  is_busy, is_finished, changed_any, changed_none, any-set_old, any-wake_all, any-wake_all_finished,
  signalled_busy, signalled_asleep, signalled_finished,
}

-- The tasks that wait are those that were accepted and not taken, in the order of their submissions;
-- a thread sleeps only while nothing waits or another one is busy, and none does after the shutdown;
-- a thread has returned only after the shutdown, with every task taken that was accepted before it.
pub record InOrder (s : System) (waiting : List Task) : Type 0 where
  pub holds : Holds s.pool waiting
  pub tasks : s.accepted ++ s.late ≡ s.taken ++ waiting
  pub early : s.pool.shutdown ≡ false → s.late ≡ []
  pub no_sleep : s.pool.shutdown ≡ true → any is_asleep s.workers ≡ false
  pub alert : 0 < length waiting → any is_asleep s.workers ≡ true → any is_busy s.workers ≡ true
  pub down : any is_finished s.workers ≡ true → s.pool.shutdown ≡ true
  pub drained : any is_finished s.workers ≡ true → length s.accepted ≤ length s.taken

-- The threads in order, with some tasks that wait.
abbrev pub Ordered : System → Type 0
Ordered s = (waiting : List Task) × InOrder s waiting

module _ (s : System) (waiting : List Task) (h : InOrder s waiting) where
  logged_tasks :
      (t : Task) → (logged s t).accepted ++ (logged s t).late ≡ s.taken ++ (waiting ++ (t ∷ []))
  logged_tasks t = elim (Bool-cases s.pool.shutdown) [
    | inl down ↦ rw down (
        sym (append_assoc s.accepted s.late (t ∷ []))
        ∙ ap (λ l. l ++ (t ∷ [])) h.tasks
        ∙ append_assoc s.taken waiting (t ∷ []))
    | inr up ↦
        let e : s.accepted ≡ s.taken ++ waiting =
          sym (append-nil s.accepted) ∙ rw (← h.early up) (h.tasks) in
        rw (up, h.early up)
          (append-nil (s.accepted ++ (t ∷ []))
            ∙ ap (λ l. l ++ (t ∷ [])) e
            ∙ append_assoc s.taken waiting (t ∷ []))
  ]

  logged_accepted : (t : Task) → s.pool.shutdown ≡ true → (logged s t).accepted ≡ s.accepted
  logged_accepted t down = rw down refl

  logged_late : (t : Task) → s.pool.shutdown ≡ false → (logged s t).late ≡ s.late
  logged_late t up = rw up refl

  logged_taken : (t : Task) → (logged s t).taken ≡ s.taken
  logged_taken t = ground arith

  accepted-Ordered :
      (pool : Threadpool) (ws : List Worker) (t : Task)
      → Became s.pool (waiting ++ (t ∷ [])) pool
      → Signals s.workers ws
      → Ordered (record (logged s t) { pool = pool; workers = ws })
  accepted-Ordered pool ws t b w = (
    waiting ++ (t ∷ []),
    record {
      holds = b.holds;
      tasks = rw (logged_taken t) (logged_tasks t);
      early = λ e. let up = sym b.same_flag ∙ e in logged_late t up ∙ h.early up;
      no_sleep = λ e. signalled_asleep s.workers ws w (h.no_sleep (sym b.same_flag ∙ e));
      alert = λ lt e. signalled_busy s.workers ws w e;
      down = λ e. b.same_flag ∙ h.down (signalled_finished s.workers ws w e);
      drained = λ e.
          let old = signalled_finished s.workers ws w e in
          rw (logged_taken t, logged_accepted t (h.down old)) (h.drained old);
    },
  )

  -- A change of one thread to one that is busy.
  busy-Ordered :
      (i : ℕ) (old new : Worker)
      → get_elem? s.workers i ≡ some old
      → is_busy new ≡ true
      → is_asleep new ≡ false
      → is_finished new ≡ false
      → Ordered (record s { workers = set s.workers i new })
  busy-Ordered i old new at busy up going = (
    waiting,
    record {
      holds = h.holds;
      tasks = h.tasks;
      early = h.early;
      no_sleep = λ e. changed_none is_asleep s.workers i new (h.no_sleep e) up;
      alert = λ lt e. changed_any is_busy s.workers i old new at busy;
      down = λ e. h.down (any-set_old is_finished s.workers i new going e);
      drained = λ e. h.drained (any-set_old is_finished s.workers i new going e);
    },
  )

  shut-Ordered :
      Ordered (record s { pool = record s.pool { shutdown = true }; workers = wake_all s.workers })
  shut-Ordered = (
    waiting,
    record {
      holds = record {
        row = h.holds.row;
        size = h.holds.size;
        small = h.holds.small;
        tail = h.holds.tail;
        count = h.holds.count;
      };
      tasks = h.tasks;
      early = λ e. absurd (cc);
      no_sleep = λ e. any-wake_all s.workers;
      alert = λ lt e. let none_left = any-wake_all s.workers in absurd (cc);
      down = λ e. refl;
      drained = λ e. h.drained (sym (any-wake_all_finished s.workers) ∙ e);
    },
  )

  abbrev after_turn : ℕ → Threadpool → Turn → System
  after_turn i pool t = record s {
    pool = pool;
    workers = set s.workers i (turned t);
    taken = s.taken ++ taken_by t;
  }

  logs_nothing : s.taken ++ [] ≡ s.taken
  logs_nothing = append-nil s.taken

module _ (s : System) (i : ℕ) (at : get_elem? s.workers i ≡ some awake) where
  turn-Ordered :
      (waiting : List Task) (pool : Threadpool) (t : Turn)
      → InOrder s waiting
      → TurnOf s.pool waiting pool t
      → Ordered (record s {
        pool = pool;
        workers = set s.workers i (turned t);
        taken = s.taken ++ taken_by t;
      })
  turn-Ordered _ _ _ h (waited up) = (
    [],
    record {
      holds = h.holds;
      tasks = rw (append-nil s.taken) (h.tasks);
      early = h.early;
      no_sleep = λ e. absurd (cc);
      alert = λ lt e. absurd (omega arith);
      down = λ e. h.down (any-set_old is_finished s.workers i asleep refl e);
      drained = λ e.
          rw (append-nil s.taken) (h.drained (any-set_old is_finished s.workers i asleep refl e));
    },
  )
  turn-Ordered _ _ _ h (left down) = (
    [],
    record {
      holds = h.holds;
      tasks = rw (append-nil s.taken) (h.tasks);
      early = h.early;
      no_sleep = λ e. changed_none is_asleep s.workers i finished (h.no_sleep down) refl;
      alert = λ lt e. absurd (omega arith);
      down = λ e. down;
      drained = λ e. rw (append-nil s.taken) (
          omega (
            arith,
            length-append s.accepted s.late,
            length-append s.taken [],
            ap length (h.tasks),
          ));
    },
  )
  turn-Ordered _ _ _ h (took t rest pool b) = (
    rest,
    record {
      holds = b.holds;
      tasks = h.tasks ∙ sym (append_assoc s.taken (t ∷ []) rest);
      early = λ e. h.early (sym b.same_flag ∙ e);
      no_sleep = λ e.
          changed_none is_asleep s.workers i (running t) (h.no_sleep (sym b.same_flag ∙ e)) refl;
      alert = λ lt e. changed_any is_busy s.workers i awake (running t) at refl;
      down = λ e. b.same_flag ∙ h.down (any-set_old is_finished s.workers i (running t) refl e);
      drained = λ e.
          let old = h.drained (any-set_old is_finished s.workers i (running t) refl e) in
          omega (arith, length-append s.taken (t ∷ []), old);
    },
  )

-- Every step of a thread keeps the order.
pub step-Ordered : (s s' : System) → Step s s' → Ordered s → Ordered s'
step-Ordered s _ (accepts f a pool ws e w) (waiting, h) =
    accepted-Ordered s waiting h pool ws (record { function = f; argument = a })
      (accepted-Became s.pool waiting h.holds f a pool e) w
step-Ordered s _ (refuses f a pool e) (waiting, h) =
    subst (λ p. Ordered (record s { pool = p })) (refused-same s.pool waiting h.holds f a pool e)
      (waiting, h)
step-Ordered s _ (turns i pool t at e) (waiting, h) =
    turn-Ordered s i at waiting pool t h (turned-TurnOf s.pool waiting pool t h.holds e)
step-Ordered s _ (returns i t at) (waiting, h) =
    busy-Ordered s waiting h i (running t) awake at refl refl refl
step-Ordered s _ (wakes i at) (waiting, h) =
    busy-Ordered s waiting h i asleep awake at refl refl refl
step-Ordered s _ shuts (waiting, h) = shut-Ordered s waiting h
