-- ===== src/Cargo/Queue.antt =====
-- The array behind the cargo queue is a first-in-first-out queue of at most ten containers.
use bare_metal_architect.Prelude.{
  ℕ, ◌+◌, ◌-◌, ◌≤◌, ◌<◌, ◌≡◌, refl, sym, ap, ◌∙◌, Bool, true, false, Option, none, some, List, [],
  ◌∷◌, ◌++◌, arith, ◌==◌, length, get_elem?, set, replicate, length-append, Outcome, done, exits,
}
use bare_metal_architect.Text.{Text}
use bare_metal_architect.Arrays.{
  pointers, length-pointers, pointers-append, nulls, shift_left, last_of, shift_left_lem,
  set-append, get_elem?-append,
}
use bare_metal_architect.Cargo.{
  Container, CargoMaterial, CargoQueue, CargoBay, cargo_queue_capacity, tc_size, inspect, prepare,
  enqueue, dequeue,
}

-- The queue's array holds these containers, the front one first, and null pointers behind them.
pub record Holds (q : CargoQueue) (cs : List Container) : Type 0 where
  pub cells : q.places ≡ pointers cs ++ replicate (cargo_queue_capacity - length cs) none
  pub sized : q.size ≡ length cs
  pub fits : length cs ≤ cargo_queue_capacity

-- Where the queue has room, its array has a null pointer behind the containers.
room :
    (q : CargoQueue) (cs : List Container)
    → Holds q cs
    → length cs < cargo_queue_capacity
    → q.places ≡ pointers cs ++ (none ∷ replicate (9 - length cs) none)
room q cs h lt =
    rw (← nulls (cargo_queue_capacity - length cs) (9 - length cs) (omega arith)) h.cells

next_free :
    (q : CargoQueue) (cs : List Container)
    → Holds q cs
    → length cs < cargo_queue_capacity
    → get_elem? q.places q.size ≡ some none
next_free q cs h lt =
    let e : q.size ≡ length (pointers cs) = h.sized ∙ sym (length-pointers cs) in
    rw (room q cs h lt, e) (get_elem?-append (pointers cs) none (replicate (9 - length cs) none))

module _ (alloc : ℕ → Bool) (state material : ℕ) (q : CargoQueue) (cs : List Container)
    (h : Holds q cs) (code : Text) (mat : CargoMaterial) (v1 v2 : ℕ) where
  abbrev arrived : Container
  arrived = inspect (prepare state material code mat v1 v2) mat

  appended :
      length cs < cargo_queue_capacity
      → Holds
          (record { places = set q.places q.size (some arrived); size = q.size + 1 })
          (cs ++ (arrived ∷ []))
  appended lt =
      let e : q.size ≡ length (pointers cs) = h.sized ∙ sym (length-pointers cs) in
      let more = length-append cs (arrived ∷ []) in
      record {
        cells =
            rw
              (
                room q cs h lt,
                e,
                set-append (pointers cs) none (replicate (9 - length cs) none) (some arrived),
              )
              (sym (pointers-append cs arrived (replicate (9 - length cs) none))
                ∙ ap (λ n. pointers (cs ++ (arrived ∷ [])) ++ replicate n none)
                    (omega (arith, more)));
        sized = omega (arith, more, h.sized);
        fits = omega (arith, more);
      }

  -- A full queue ends the process.
  pub enqueue_full :
      length cs ≡ cargo_queue_capacity → enqueue alloc state material q code mat v1 v2 ≡ exits
  unfolding enqueue
  enqueue_full full = ground (arith, h.sized)

  -- `enqueue` of a tracking code of seven characters into a queue with room, every allocation
  -- granted: the inspected container is the last of the queue, and the others stay.
  pub enqueue_lem :
      length code ≡ tc_size
      → alloc 0 ≡ true
      → alloc 1 ≡ true
      → alloc 2 ≡ true
      → alloc 3 ≡ true
      → length cs < cargo_queue_capacity
      → (q' : CargoQueue) × (enqueue alloc state material q code mat v1 v2 ≡ done q')
        × Holds q' (cs ++ (inspect (prepare state material code mat v1 v2) mat ∷ []))
  unfolding enqueue
  enqueue_lem len a0 a1 a2 a3 lt = (
    record { places = set q.places q.size (some arrived); size = q.size + 1 },
    ground (arith, h.sized, next_free q cs h lt),
    appended lt,
  )

module _ (q : CargoQueue) (c : Container) (cs : List Container) (h : Holds q (c ∷ cs)) where
  abbrev behind : List (Option Container)
  behind = replicate (9 - length cs) none

  abbrev moved : List (Option Container)
  moved = pointers cs ++ (last_of (some c) (pointers cs) ∷ behind)

  cells_cons : q.places ≡ some c ∷ pointers cs ++ behind
  unfolding pointers
  cells_cons = h.cells ∙ ap (λ n. some c ∷ pointers cs ++ replicate n none) (omega arith)

  others : q.size - 1 ≡ length (pointers cs)
  others = omega (arith, h.sized, length-pointers cs)

  front : get_elem? q.places 0 ≡ some (some c)
  front = rw cells_cons refl

  shifts : shift_left (q.size - 1) q.places ≡ done moved
  shifts = rw (others, cells_cons) (shift_left_lem (some c) (pointers cs) behind)

  vacated : get_elem? moved (q.size - 1) ≡ some (last_of (some c) (pointers cs))
  vacated = rw others (get_elem?-append (pointers cs) (last_of (some c) (pointers cs)) behind)

  abbrev left : CargoQueue
  left = record { places = set moved (q.size - 1) none; size = q.size - 1 }

  left-Holds : Holds left cs
  left-Holds = record {
    cells =
        rw (others, set-append (pointers cs) (last_of (some c) (pointers cs)) behind none)
          (ap (λ l. pointers cs ++ l)
            (sym (nulls (10 - length cs) (9 - length cs) (omega (arith, h.fits)))));
    sized = omega (arith, h.sized);
    fits = omega (arith, h.fits);
  }

  dequeue_first :
      (bay bay' : CargoBay) (on_dequeue : CargoBay → Container → Outcome CargoBay)
      → on_dequeue bay c ≡ done bay'
      → dequeue q bay on_dequeue ≡ done (left, bay')
  unfolding dequeue
  dequeue_first bay bay' on_dequeue e =
      let busy : (q.size == 0) ≡ false = ground (arith, h.sized) in
      rw (busy, front, shifts, vacated, e) refl

-- `dequeue` of an empty queue changes nothing.
pub dequeue_empty :
    (q : CargoQueue) (bay : CargoBay) (on_dequeue : CargoBay → Container → Outcome CargoBay)
    → Holds q []
    → dequeue q bay on_dequeue ≡ done (q, bay)
unfolding dequeue
dequeue_empty q bay on_dequeue h = ground (arith, h.sized)

-- `dequeue` of a queue with a front container: that one goes to the callback, and the others stay
-- in their order.
pub dequeue_lem :
    (q : CargoQueue) (bay bay' : CargoBay) (on_dequeue : CargoBay → Container → Outcome CargoBay)
    (c : Container) (cs : List Container)
    → Holds q (c ∷ cs)
    → on_dequeue bay c ≡ done bay'
    → (q' : CargoQueue) × (dequeue q bay on_dequeue ≡ done (q', bay')) × Holds q' cs
dequeue_lem q bay bay' on_dequeue c cs h e =
    (left q c cs h, dequeue_first q c cs h bay bay' on_dequeue e, left-Holds q c cs h)
