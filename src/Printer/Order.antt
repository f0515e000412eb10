-- ===== src/Printer/Order.antt =====
-- A printer and the queue of its messages.
use bare_metal_architect.Prelude.{append_assoc}
use bare_metal_architect.Prelude.{
  suc, ◌+◌, ◌-◌, ◌≤◌, ◌<◌, ◌≡◌, refl, sym, ap, ◌∙◌, ◌≢◌, inl, inr, Bool, true, false, List, [], ◌∷◌,
  ◌++◌, arith, ltb, ◌==◌, if◌then◌else◌, Bool-cases, length, replicate, length-append, Outcome,
  done, exits, fault, ◌>>◌, granted, ==_iff,
}
use bare_metal_architect.Prelude.{subst, done_injective}
use bare_metal_architect.Arrays.{shift_left_lem, last_of, get_elem?-append, set-append}
use bare_metal_architect.Text.{Text}
use bare_metal_architect.Printer.{Printer, init, enqueue, dequeue, rows, print_queue}

-- The messages stand in the first rows, in the order in which they wait.
pub record Holds (p : Printer) (queue : List Text) : Type 0 where
  pub behind : List Text
  pub in_rows : p.messages ≡ queue ++ behind
  pub sized : p.size ≡ length queue
  pub five : length queue + length behind ≡ 5
  pub capacity : p.capacity ≡ 5

-- What a call of enqueue does to a printer that holds a queue.
pub data Enqueued (queue : List Text) (msn : Text) : Outcome Printer → Type 0 where
  waits :
      (p : Printer)
      → length queue < 5
      → length msn < 254
      → Holds p (queue ++ (msn ∷ []))
      → Enqueued queue msn (done p)
  full : length queue ≡ 5 → Enqueued queue msn exits
  overflows : length queue < 5 → 254 ≤ length msn → Enqueued queue msn fault

-- A message for a printer that holds a queue: it waits behind the others where there are fewer than
-- five and it has at most 253 bytes, the process ends where there are five, and a longer message is
-- written over the end of its row.
pub enqueue-Enqueued :
    (p : Printer) (queue : List Text) (msn : Text)
    → Holds p queue
    → Enqueued queue msn (enqueue p msn)
unfolding enqueue
enqueue-Enqueued p queue msn h = elim (Bool-cases (p.size == p.capacity)) [
  | inl same ↦ rw same (full (sym h.sized ∙ (==_iff p.size p.capacity).0 same ∙ h.capacity))
  | inr room ↦
      let few : length queue < 5 =
        omega (arith, h.five, h.sized, h.capacity, λ (e : p.size ≡ p.capacity). apart e room) in
      let (row, rest, more) = some_row h.behind (omega (arith, h.five)) in
      let cells : p.messages ≡ queue ++ (row ∷ rest) = h.in_rows ∙ ap (◌++◌ queue) more in
      elim (Bool-cases (ltb 254 (length msn + 1))) [
        | inl long ↦
            rw (room, cells, h.sized, get_elem?-append queue row rest, long)
              (overflows few (ground arith))
        | inr short ↦
            rw
              (
                room,
                cells,
                h.sized,
                get_elem?-append queue row rest,
                short,
                set-append queue row rest msn,
              )
              (waits _ few (ground arith) (record {
                behind = rest;
                in_rows = sym (append_assoc queue (msn ∷ []) rest);
                sized = omega (arith, length-append queue (msn ∷ []));
                five = omega (arith, length-append queue (msn ∷ []), h.five, ap length more);
                capacity = h.capacity;
              }))
      ]
]
  where
    apart : p.size ≡ p.capacity → (p.size == p.capacity) ≡ false → ⊥
    apart e room = cc ((==_iff p.size p.capacity).1 e, room)

    some_row : (xs : List Text) → 0 < length xs → (s : Text) × (rest : List Text) × (xs ≡ s ∷ rest)
    some_row [] ne = absurd (omega arith)
    some_row (x ∷ xs) ne = (x, xs, refl)

with_memory :
    {A : Type 0} (alloc : Bool) (r : A)
    → (granted alloc >> done r) ≡ (if alloc then done r else exits)
with_memory true r = refl
with_memory false r = refl

-- A printer that holds no message ends the process at a dequeue; one that holds some gives the
-- first, where there is memory for the copy, and holds the others in their order.
pub dequeue-next :
    (alloc : Bool) (p : Printer) (queue : List Text)
    → Holds p queue
    → (length queue ≡ 0 → dequeue alloc p ≡ exits)
      × ((msn : Text) (rest : List Text)
          → queue ≡ msn ∷ rest
          → (p' : Printer) × (dequeue alloc p ≡ (if alloc then done (p', msn) else exits))
            × Holds p' rest)
unfolding dequeue
dequeue-next alloc p queue h = (
  λ e. let nobody : (p.size == 0) ≡ true = ground (arith, h.sized) in rw nobody refl,
  λ msn rest e. first msn rest (subst (Holds p) e h),
)
  where
    first :
        (msn : Text) (rest : List Text)
        → Holds p (msn ∷ rest)
        → (p' : Printer) × (dequeue alloc p ≡ (if alloc then done (p', msn) else exits))
          × Holds p' rest
    first msn rest g =
        let some_there : (p.size == 0) ≡ false = ground (arith, g.sized) in
        let fewer : p.size - 1 ≡ length rest = omega (arith, g.sized) in
        (
          record p { messages = rest ++ (last_of msn rest ∷ g.behind); size = length rest },
          rw (some_there, g.in_rows, fewer, shift_left_lem msn rest g.behind)
              (with_memory alloc (
                record p { messages = rest ++ (last_of msn rest ∷ g.behind); size = length rest },
                msn,
              )),
          record {
            behind = last_of msn rest ∷ g.behind;
            in_rows = refl;
            sized = refl;
            five = omega (arith, g.five);
            capacity = g.capacity;
          },
        )

rows_lem :
    (past queue behind : List Text)
    → rows (length queue) (length past) (past ++ (queue ++ behind)) ≡ done queue
unfolding rows
rows_lem past [] behind = refl
rows_lem past (msn ∷ queue) behind =
    let rest : rows (length queue) (suc (length past)) (past ++ (msn ∷ (queue ++ behind)))
        ≡ done queue =
      ap (rows (length queue) (suc (length past)))
        (sym (append_assoc past (msn ∷ []) (queue ++ behind)))
      ∙ ap (λ n. rows (length queue) n ((past ++ (msn ∷ [])) ++ (queue ++ behind)))
          (omega (arith, length-append past (msn ∷ [])))
      ∙ rows_lem (past ++ (msn ∷ [])) queue behind in
    rw (get_elem?-append past msn (queue ++ behind), rest) refl

-- The print of a printer that holds some messages gives them in their order.
pub print_queue_lem :
    (p : Printer) (queue : List Text)
    → Holds p queue
    → length queue ≢ 0
    → print_queue p ≡ done queue
unfolding print_queue
print_queue_lem p queue h some_there =
    let not_empty : (p.size == 0) ≡ false = ground (arith, h.sized) in
    rw (not_empty, h.sized, h.in_rows) (rows_lem [] queue h.behind)

-- The printer that init makes holds no messages.
pub init-Holds : (p : Printer) → init true true ≡ done p → Holds p []
unfolding init
init-Holds p e =
    subst (λ q. Holds q []) (done_injective e)
      (record {
        behind = replicate 5 [];
        in_rows = refl;
        sized = refl;
        five = refl;
        capacity = refl;
      })
