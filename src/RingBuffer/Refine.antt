-- ===== src/RingBuffer/Refine.antt =====
-- What the ring buffer promises: a bounded first-in-first-out queue.
use bare_metal_architect.Prelude.{
  subst, ℕ, ◌+◌, ◌-◌, ◌%◌, ◌<◌, ◌≡◌, refl, sym, ◌∙◌, inl, inr, Bool, true, false, Option, List, [],
  ◌∷◌, arith, ltb, ◌==◌, if◌then◌else◌, Bool-cases, length, get_elem?-some, replicate,
  length-replicate, Outcome, done, ltb→lt,
}
use native.Mathlib.Nat.{mod-eq_of_lt}
use bare_metal_architect.RingBuffer.{
  Queue, init, push, pop, report, Step, pushes, pops, reports, step, run,
}
use bare_metal_architect.RingBuffer.Bounded.{
  Spec, spec_step, spec_run, Holds, grown, grown-Holds, some_room, head_inside,
}
use bare_metal_architect.Circular.{next_lem, empty-Row, shrunk-Row, first_cell, free_stays}

-- A step of the buffer that does and prints what the specification does.
pub record Refines (c : ℕ) (t : Spec × Option ℕ) (r : Outcome (Queue × Option ℕ)) : Type 0 where
  pub after : Queue
  pub returned : r ≡ done (after, t.1)
  pub holds : Holds c after t.0

module _ (c : ℕ) (q : Queue) (s : Spec) (h : Holds c q s) where
  roomy : length s.items < c → ltb q.capacity (q.size + 1) ≡ false
  roomy lt = ground (arith, h.capacity, h.size)

  crowded : ltb (length s.items) c ≡ false → ltb q.capacity (q.size + 1) ≡ true
  crowded e = ground (arith, h.capacity, h.buffer, h.size, h.row.fits)

  flagged : (b : Bool) → Holds c (record q { is_full = b }) (record s { is_full = b })
  flagged b = record {
    capacity = h.capacity;
    buffer = h.buffer;
    small = h.small;
    row = h.row;
    head = h.head;
    size = h.size;
    full = refl;
  }

  cleared :
      (b : Bool)
      → (if b then record q { is_full = false } else record q { is_full = b })
        ≡ record q { is_full = false }
  cleared true = refl
  cleared false = refl

  reported : Holds c (report q) (record s { is_full = false })
  unfolding report
  reported =
      subst (λ r. Holds c r (record s { is_full = false })) (sym (cleared q.is_full))
        (flagged false)

  push-Refines : (val : ℕ) → Refines c (spec_step c s (pushes val)) (step q (pushes val))
  unfolding step push spec_step
  push-Refines val = elim (Bool-cases (ltb (length s.items) c)) [
    | inl room ↦
        let lt = ltb→lt (length s.items) c room in
        rw room (record {
          after = grown c q s h val;
          returned =
              rw
                (
                  roomy lt,
                  (get_elem?-some q.buffer q.head (head_inside c q s h)).1,
                  next_lem q.head q.capacity (rw h.capacity (some_room c q s h)),
                  h.capacity,
                )
                refl;
          holds = grown-Holds c q s h val lt;
        })
    | inr full ↦ rw full (record {
      after = record q { is_full = true };
      returned = rw (crowded full) refl;
      holds = flagged true;
    })
  ]

pop-Refines :
    (c : ℕ) (q : Queue) (items : List ℕ) (flag : Bool)
    → Holds c q (record { items = items; is_full = flag })
    → Refines c (spec_step c (record { items = items; is_full = flag }) pops) (step q pops)
unfolding step pop spec_step
pop-Refines c q [] flag h = record { after = q; returned = rw (h.size) refl; holds = h }
pop-Refines c q (x ∷ xs) flag h =
    let busy : (q.size == 0) ≡ false = ground (arith, h.size) in
    record {
      after = record q { tail = (q.tail + 1) % c; size = q.size - 1; is_full = false };
      returned =
          rw
            (
              busy,
              first_cell q.buffer x xs q.tail h.row,
              next_lem q.tail q.capacity
                  (rw h.capacity (some_room c q (record { items = x ∷ xs; is_full = flag }) h)),
              h.capacity,
            )
            refl;
      holds = record {
        capacity = h.capacity;
        buffer = h.buffer;
        small = h.small;
        row = rw (← h.buffer) (shrunk-Row q.buffer x xs q.tail h.row);
        head = h.head ∙ sym (rw (← h.buffer) (free_stays q.buffer x xs q.tail h.row));
        size = omega (arith, h.size);
        full = refl;
      };
    }

step-Refines :
    (c : ℕ) (q : Queue) (s : Spec) (o : Step) → Holds c q s → Refines c (spec_step c s o) (step q o)
unfolding step spec_step
step-Refines c q s (pushes val) h = push-Refines c q s h val
step-Refines c q s pops h = pop-Refines c q s.items s.is_full h
step-Refines c q s reports h = record {
  after = report q;
  returned = refl;
  holds = reported c q s h;
}

-- What a sequence of steps does and prints.
pub record RefinesAll (c : ℕ) (t : Spec × List (Option ℕ)) (r : Outcome (Queue × List (Option ℕ)))
    : Type 0 where
  pub after : Queue
  pub returned : r ≡ done (after, t.1)
  pub holds : Holds c after t.0

-- A ring buffer that holds a queue, and any sequence of pushes, pops and reports: no step faults or
-- ends the process, every pop prints what the bounded queue gives, the oldest value first, and the
-- buffer ends holding the queue that the steps mean.
pub run-RefinesAll :
    (c : ℕ) (steps : List Step) (q : Queue) (s : Spec)
    → Holds c q s
    → RefinesAll c (spec_run c s steps) (run q steps)
unfolding run spec_run
run-RefinesAll c [] q s h = record { after = q; returned = refl; holds = h }
run-RefinesAll c (o ∷ rest) q s h =
    let now = step-Refines c q s o h in
    let later = run-RefinesAll c rest now.after (spec_step c s o).0 now.holds in
    record {
      after = later.after;
      returned = rw (now.returned, later.returned) refl;
      holds = later.holds;
    }

-- `init` of a positive capacity below 256, its allocations granted, gives a buffer that holds the
-- empty queue.
pub init_lem :
    (alloc : ℕ → Bool) (c : ℕ)
    → alloc 0 ≡ true
    → alloc 1 ≡ true
    → 0 < c
    → c < 256
    → (q : Queue) × (init alloc c ≡ done q) × Holds c q (record { items = []; is_full = false })
unfolding init
init_lem alloc c a0 a1 positive small =
    let room : 0 < length (replicate {A = ℕ} c 0) = rw (length-replicate {A = ℕ} c 0) positive in
    (
      record {
        buffer = replicate c 0;
        is_full = false;
        capacity = c;
        size = 0;
        head = 0;
        tail = 0;
      },
      rw (a0, a1) refl,
      record {
        capacity = refl;
        buffer = length-replicate c 0;
        small = small;
        row = empty-Row (replicate c 0) room;
        head = sym (mod-eq_of_lt room);
        size = refl;
        full = refl;
      },
    )
