-- ===== src/ThreadPool/Queue.antt =====
-- The queue of the tasks: what a submission and a worker's turn do to it.
use bare_metal_architect.Prelude.{
  ℕ, ◌+◌, ◌-◌, ◌%◌, ◌<◌, ◌≡◌, refl, sym, ap, ◌∙◌, ◌⊎◌, inl, inr, Bool, true, false, ◌&&◌, Option,
  List, [], ◌∷◌, ◌++◌, arith, ◌==◌, Bool-cases, length, get_elem?-some, set, length-append,
  length-set, done, dec_lt,
}
use bare_metal_architect.Prelude.{subst, done_injective}
use bare_metal_architect.Circular.{
  next_lem, Row, grown-Row, shrunk-Row, first_cell, free_next, free_stays, free_inside,
}
use bare_metal_architect.ThreadPool.{
  Task, Threadpool, submit_task, worker_turn, Turn, waits, leaves, takes,
}

-- The tasks that wait stand in the queue from the head on, around its end.
pub record Holds (pool : Threadpool) (waiting : List Task) : Type 0 where
  pub row : Row pool.queue waiting pool.head
  pub size : pool.queue_size ≡ length pool.queue
  pub small : pool.queue_size < 256
  pub tail : pool.tail ≡ (pool.head + length waiting) % length pool.queue
  pub count : pool.count ≡ length waiting

-- A pool with a task more or less, and the same flag.
pub record Became (pool : Threadpool) (waiting : List Task) (after : Threadpool) : Type 0 where
  pub holds : Holds after waiting
  pub same_flag : after.shutdown ≡ pool.shutdown

-- What a turn may be.
pub data TurnOf (pool : Threadpool) : List Task → Threadpool → Turn → Type 0 where
  waited : pool.shutdown ≡ false → TurnOf pool [] pool waits
  left : pool.shutdown ≡ true → TurnOf pool [] pool leaves
  took :
      (t : Task) (rest : List Task) (after : Threadpool)
      → Became pool rest after
      → TurnOf pool (t ∷ rest) after (takes t)

module _ (pool : Threadpool) (waiting : List Task) (h : Holds pool waiting) (function : Option ℕ)
    (argument : ℕ) where
  abbrev task : Task
  task = record { function = function; argument = argument }

  abbrev pub grown : Threadpool
  grown = record pool {
    queue = set pool.queue pool.tail task;
    tail = (pool.tail + 1) % pool.queue_size;
    count = (pool.count + 1) % 256;
  }

  grown-Became : length waiting < pool.queue_size → Became pool (waiting ++ (task ∷ [])) grown
  grown-Became room =
      let same = length-set pool.queue pool.tail task in
      let more = length-append waiting (task ∷ []) in
      record {
        holds = record {
          row =
              rw (h.tail)
                (grown-Row pool.queue waiting pool.head h.row task (omega (arith, h.size)));
          size = h.size ∙ sym same;
          small = h.small;
          tail = rw (same, h.size, h.tail) (free_next pool.queue waiting pool.head h.row task);
          count = omega (arith, h.count, h.small, more);
        };
        same_flag = refl;
      }

  submit_full :
      length waiting ≡ pool.queue_size → submit_task pool function argument ≡ done (pool, false)
  unfolding submit_task
  submit_full e =
      let full : (pool.count == pool.queue_size) ≡ true = ground (arith, h.count) in rw full refl

  submit_room :
      length waiting < pool.queue_size → submit_task pool function argument ≡ done (grown, true)
  unfolding submit_task
  submit_room lt =
      let room : (pool.count == pool.queue_size) ≡ false = ground (arith, h.count) in
      let inside : pool.tail < length pool.queue =
        rw (h.tail) (free_inside pool.queue waiting pool.head h.row) in
      let some_room : 0 < pool.queue_size = omega (arith, h.size, h.row.some_room) in
      rw
        (
          room,
          (get_elem?-some pool.queue pool.tail inside).1,
          next_lem pool.tail pool.queue_size some_room,
        )
        refl

  -- A submission returns: to a full queue with false, to one with room with true.
  pub submitted :
      ((length waiting ≡ pool.queue_size)
        × (submit_task pool function argument ≡ done (pool, false)))
      ⊎ ((length waiting < pool.queue_size)
          × (submit_task pool function argument ≡ done (grown, true)))
  submitted = elim (dec_lt (length waiting) pool.queue_size) [
    | yes lt ↦ inr (lt, submit_room lt)
    | no ge ↦
        let e : length waiting ≡ pool.queue_size = omega (arith, h.size, h.row.fits) in
        inl (e, submit_full e)
  ]

  -- An accepted task waits behind the others.
  pub accepted-Became :
      (after : Threadpool)
      → submit_task pool function argument ≡ done (after, true)
      → Became pool (waiting ++ (task ∷ [])) after
  accepted-Became after e = elim submitted [
    | inl (full, e') ↦ absurd (cc)
    | inr (lt, e') ↦
        subst (Became pool (waiting ++ (task ∷ []))) (ap (λ r. r.0) (done_injective (sym e' ∙ e)))
          (grown-Became lt)
  ]

  -- A refused one changes nothing.
  pub refused-same :
      (after : Threadpool) → submit_task pool function argument ≡ done (after, false) → pool ≡ after
  refused-same after e = elim submitted [
    | inl (full, e') ↦ ap (λ r. r.0) (done_injective (sym e' ∙ e))
    | inr (lt, e') ↦ absurd (cc)
  ]

abbrev shrunk : Threadpool → Threadpool
shrunk pool = record pool { head = (pool.head + 1) % pool.queue_size; count = pool.count - 1 }

shrunk-Became :
    (pool : Threadpool) (t : Task) (rest : List Task)
    → Holds pool (t ∷ rest)
    → Became pool rest (shrunk pool)
shrunk-Became pool t rest h = record {
  holds = record {
    row = rw (h.size) (shrunk-Row pool.queue t rest pool.head h.row);
    size = h.size;
    small = h.small;
    tail = h.tail ∙ sym (rw (h.size) (free_stays pool.queue t rest pool.head h.row));
    count = omega (arith, h.count);
  };
  same_flag = refl;
}

and_false : (b : Bool) → (b && false) ≡ false
and_false true = refl
and_false false = refl

-- A worker that has got the lock ends its turn, with a task where one waits.
pub turn_of :
    (pool : Threadpool) (waiting : List Task)
    → Holds pool waiting
    → (after : Threadpool) × (t : Turn) × (worker_turn pool ≡ done (after, t))
      × TurnOf pool waiting after t
unfolding worker_turn
turn_of pool [] h = elim (Bool-cases pool.shutdown) [
  | inl down ↦ (pool, leaves, rw (h.count, down) refl, left down)
  | inr up ↦ (pool, waits, rw (h.count, up) refl, waited up)
]
turn_of pool (t ∷ rest) h =
    let busy : (pool.count == 0) ≡ false = ground (arith, h.count) in
    let some_room : 0 < pool.queue_size = omega (arith, h.size, h.row.some_room) in
    (
      shrunk pool,
      takes t,
      rw
          (
            busy,
            and_false pool.shutdown,
            first_cell pool.queue t rest pool.head h.row,
            next_lem pool.head pool.queue_size some_room,
          )
          refl,
      took t rest (shrunk pool) (shrunk-Became pool t rest h),
    )

pub turned-TurnOf :
    (pool : Threadpool) (waiting : List Task) (after : Threadpool) (t : Turn)
    → Holds pool waiting
    → worker_turn pool ≡ done (after, t)
    → TurnOf pool waiting after t
turned-TurnOf pool waiting after t h e =
    let (after', t', e', o) = turn_of pool waiting h in
    subst (λ r. TurnOf pool waiting r.0 r.1) (done_injective (sym e' ∙ e)) o
