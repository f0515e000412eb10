-- ===== src/ThreadPool/Safety.antt =====
-- What holds in every state that the threads can reach.
use bare_metal_architect.Prelude.{
  ℕ, zero, suc, ◌≤◌, ◌<◌, ◌≡◌, refl, sym, ap, ◌∙◌, inl, inr, Bool, true, false, List, [], ◌∷◌, ◌++◌,
  arith, Bool-cases, length, replicate, length-replicate, done,
}
use bare_metal_architect.Prelude.{subst, done_injective}
use native.Mathlib.Nat.{mod-eq_of_lt}
use mathlib.Core.List.{head-eq_of_cons-eq, tail-eq_of_cons-eq}
use bare_metal_architect.Circular.{empty-Row}
use bare_metal_architect.ThreadPool.{
  Task, Threadpool, System, awake, is_asleep, any, Step, Reach, here, then_step, started, no_task,
  init, submit_task, accepts, refuses, turns, returns, wakes, shuts, running, logged, Worker,
  asleep,
}
use bare_metal_architect.ThreadPool.Workers.{
  is_finished, is_going, any-none, any-wake_all_going, signalled_going,
}
use bare_metal_architect.ThreadPool.Queue.{submitted, grown}
use bare_metal_architect.ThreadPool.Order.{InOrder, Ordered, step-Ordered}

all_awake : (p : Worker → Bool) (n : ℕ) → p awake ≡ false → any p (replicate n awake) ≡ false
all_awake p zero e = refl
all_awake p (suc n) e = rw (e, all_awake p n e) refl

abbrev made : ℕ → ℕ → Threadpool
made n c = record {
  queue = replicate c no_task;
  thread_count = n;
  queue_size = c;
  head = 0;
  tail = 0;
  count = 0;
  shutdown = false;
}

made-Ordered : (n c : ℕ) → 0 < c → c < 256 → Ordered (started (made n c))
made-Ordered n c positive small =
    let none_left : any is_finished (replicate n awake) ≡ false = all_awake is_finished n refl in
    let size = length-replicate c no_task in
    (
      [],
      record {
        holds = record {
          row = empty-Row (replicate c no_task) (rw size positive);
          size = sym size;
          small = small;
          tail = sym (mod-eq_of_lt (rw size positive));
          count = refl;
        };
        tasks = refl;
        early = λ e. refl;
        no_sleep = λ e. all_awake is_asleep n refl;
        alert = λ lt e. absurd (omega arith);
        down = λ e. absurd (cc);
        drained = λ e. omega arith;
      },
    )

only_made :
    (alloc : ℕ → Bool) (n c : ℕ) (pool : Threadpool) → init alloc n c ≡ done pool → made n c ≡ pool
unfolding init
only_made alloc n c pool e = elim (Bool-cases (alloc 0)) [
  | inl a ↦ elim (Bool-cases (alloc 1)) [
    | inl b ↦ elim (Bool-cases (alloc 2)) [
      | inl d ↦ done_injective (rw (a, b, d) at e)
      | inr d ↦ let stopped = rw (a, b, d) at e in absurd (cc)
    ]
    | inr b ↦ let stopped = rw (a, b) at e in absurd (cc)
  ]
  | inr a ↦ let stopped = rw (a) at e in absurd (cc)
]

pub Reach-Ordered : (s e : System) → Reach s e → Ordered s → Ordered e
Reach-Ordered s _ here h = h
Reach-Ordered s _ (then_step {m} {e} before step) h =
    step-Ordered m e step (Reach-Ordered s m before h)

-- In every state that the threads of a pool can reach, where `init` made the pool with a positive
-- queue size below 256: the accepted tasks are those taken and then those that wait, in one order;
-- a thread sleeps while a task waits only if another one is busy; none sleeps after the shutdown,
-- and none has returned before it or before every task accepted until then was taken.
pub reached-Ordered :
    (alloc : ℕ → Bool) (n c : ℕ) (pool : Threadpool) (s : System)
    → 0 < c
    → c < 256
    → init alloc n c ≡ done pool
    → Reach (started pool) s
    → Ordered s
reached-Ordered alloc n c pool s positive small e r = Reach-Ordered (started pool) s r (
    subst (λ p. Ordered (started p)) (only_made alloc n c pool e) (made-Ordered n c positive small))

-- Of two ways to cut one list, the first part of one begins with the shorter first part.
prefix_of :
    {A : Type 0} (xs more ys last : List A)
    → xs ++ more ≡ ys ++ last
    → length xs ≤ length ys
    → (rest : List A) × (ys ≡ xs ++ rest)
prefix_of [] more ys last e le = (ys, refl)
prefix_of (a ∷ xs) more [] last e le = absurd (omega arith)
prefix_of (a ∷ xs) more (c ∷ ys) last e le =
    let (rest, same) = prefix_of xs more ys last (tail-eq_of_cons-eq e) (omega arith) in
    (rest, ap (λ x. x ∷ ys) (sym (head-eq_of_cons-eq e)) ∙ ap (◌∷◌ a) same)

-- Where the threads are in order and one of them has returned, every task that was accepted before
-- the shutdown has been taken, in the order of the submissions.
pub returned-All_taken :
    (s : System)
    → Ordered s
    → any is_finished s.workers ≡ true
    → (rest : List Task) × (s.taken ≡ s.accepted ++ rest)
returned-All_taken s (waiting, h) e =
    prefix_of s.accepted s.late s.taken waiting h.tasks (h.drained e)

-- After the last thread has returned nothing is taken.
stays :
    (s e : System)
    → Reach s e
    → any is_going s.workers ≡ false
    → (any is_going e.workers ≡ false) × (e.taken ≡ s.taken)
stays s _ here gone = (gone, refl)
stays s _ (then_step {m} {e} before step) gone =
    let (still, same) = stays s m before gone in
    let (a, b) = step_stays m e step still in (a, b ∙ same)
  where
    step_stays :
        (m e : System)
        → Step m e
        → any is_going m.workers ≡ false
        → (any is_going e.workers ≡ false) × (e.taken ≡ m.taken)
    step_stays m _ (accepts f a pool ws e w) gone =
        (signalled_going m.workers ws w gone, ground arith)
    step_stays m _ (refuses f a pool e) gone = (gone, refl)
    step_stays m _ (turns i pool t at e) gone =
        let no = any-none is_going m.workers i awake gone at in absurd (cc)
    step_stays m _ (returns i t at) gone =
        let no = any-none is_going m.workers i (running t) gone at in absurd (cc)
    step_stays m _ (wakes i at) gone =
        let no = any-none is_going m.workers i asleep gone at in absurd (cc)
    step_stays m _ shuts gone = (any-wake_all_going m.workers ∙ gone, refl)

-- A submission after the end of all threads: `submit_task` answers that it took the task, and the
-- tasks taken in all states that can follow are those from before.
pub record Stranded (s : System) (t : Task) : Type 0 where
  pub after : Threadpool
  pub answered : submit_task s.pool t.function t.argument ≡ done (after, true)
  pub never_taken :
      (e : System) → Reach (record (logged s t) { pool = after }) e → e.taken ≡ s.taken

-- Where the threads are in order, all of them have returned and the queue has room: a task that is
-- submitted now is accepted, and in no state that follows is it or any other task taken.
pub late_task_stays :
    (s : System) (waiting : List Task) (t : Task)
    → InOrder s waiting
    → any is_going s.workers ≡ false
    → length waiting < s.pool.queue_size
    → Stranded s t
late_task_stays s waiting t h gone room =
    elim (submitted s.pool waiting h.holds t.function t.argument) [
      | inl (full, e) ↦ absurd (omega arith)
      | inr (lt, e) ↦ record {
        after = grown s.pool waiting h.holds t.function t.argument;
        answered = e;
        never_taken = λ e r.
            (stays
              (record (logged s t) { pool = grown s.pool waiting h.holds t.function t.argument }) e
              r (same_workers s t gone)).1
            ∙ same_taken s t;
      }
    ]
  where
    same_workers :
        (s : System) (t : Task)
        → any is_going s.workers ≡ false
        → any is_going (logged s t).workers ≡ false
    same_workers s t gone = ground arith

    same_taken : (s : System) (t : Task) → (logged s t).taken ≡ s.taken
    same_taken s t = ground arith
