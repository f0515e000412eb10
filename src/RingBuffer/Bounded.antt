-- ===== src/RingBuffer/Bounded.antt =====
-- The bounded queue that the ring buffer stands for, and a push to a buffer with room.
use bare_metal_architect.Prelude.{
  ℕ, ◌+◌, ◌%◌, ◌<◌, ◌≡◌, ◌∙◌, Bool, true, false, Option, none, some, List, [], ◌∷◌, ◌++◌, arith,
  ltb, if◌then◌else◌, length, set, length-append, length-set,
}
use bare_metal_architect.RingBuffer.{Queue, Step, pushes, pops, reports}
use bare_metal_architect.Circular.{Row, grown-Row, free_next, free_inside}

-- The values in the queue, the oldest first, and whether a full queue waits to be reported.
pub record Spec : Type 0 where
  pub items : List ℕ
  pub is_full : Bool

unfoldable pub spec_step : ℕ → Spec → Step → Spec × Option ℕ
spec_step capacity s (pushes val) = (
  if ltb (length s.items) capacity
      then record s { items = s.items ++ (val ∷ []) }
      else record s { is_full = true },
  none,
)
spec_step capacity s pops = elim (s.items) [
  | [] ↦ (s, none)
  | x ∷ rest ↦ (record { items = rest; is_full = false }, some x)
]
spec_step capacity s reports = (record s { is_full = false }, none)

unfoldable pub spec_run : ℕ → Spec → List Step → Spec × List (Option ℕ)
spec_run capacity s [] = (s, [])
spec_run capacity s (o ∷ rest) =
    let r = spec_step capacity s o in let r' = spec_run capacity r.0 rest in (r'.0, r.1 ∷ r'.1)

-- The values stand in the buffer from the tail on, around its end.
pub record Holds (c : ℕ) (q : Queue) (s : Spec) : Type 0 where
  pub capacity : q.capacity ≡ c
  pub buffer : length q.buffer ≡ c
  pub small : c < 256
  pub row : Row q.buffer s.items q.tail
  pub head : q.head ≡ (q.tail + length s.items) % length q.buffer
  pub size : q.size ≡ length s.items
  pub full : q.is_full ≡ s.is_full

module _ (c : ℕ) (q : Queue) (s : Spec) (h : Holds c q s) where
  pub some_room : 0 < c
  some_room = rw (← h.buffer) (h.row.some_room)

  pub head_inside : q.head < length q.buffer
  head_inside = rw (h.head) (free_inside q.buffer s.items q.tail h.row)

  abbrev pub grown : ℕ → Queue
  grown val = record q {
    buffer = set q.buffer q.head val;
    head = (q.head + 1) % c;
    size = (q.size + 1) % 256;
  }

  pub grown-Holds :
      (val : ℕ)
      → length s.items < c
      → Holds c (grown val) (record s { items = s.items ++ (val ∷ []) })
  grown-Holds val room =
      let more = length-append s.items (val ∷ []) in
      let same = length-set q.buffer q.head val in
      record {
        capacity = h.capacity;
        buffer = same ∙ h.buffer;
        small = h.small;
        row = rw (h.head) (grown-Row q.buffer s.items q.tail h.row val (omega (arith, h.buffer)));
        head = rw (same, ← h.buffer, h.head) (free_next q.buffer s.items q.tail h.row val);
        size = omega (arith, h.size, h.small, more);
        full = h.full;
      }
