-- ===== src/Printer.antt =====
-- data-structures/queue.c: the messages that wait for a printer.
pub mod Order
mod Tests
use bare_metal_architect.Prelude.{
  ℕ, zero, suc, ◌+◌, ◌-◌, ◌*◌, ◌/◌, ◌%◌, ◌^◌, ◌≤◌, ◌<◌, ◌≡◌, refl, sym, ap, ◌∙◌, ◌≢◌, ◌↔◌, ◌⊎◌, inl,
  inr, Bool, true, false, ◌&&◌, ◌||◌, not, Option, none, some, List, [], ◌∷◌, ◌++◌, arith, ltb, leb,
  ◌==◌, if◌then◌else◌, Bool-cases, Option-cases, length, get_elem?, get_elem?-some, set, replicate,
  take, drop, All, length-append, length-set, length-replicate, get_elem?-set_self,
  get_elem?-set_ne, get_elem?-replicate, ℤ, pos, negsuc, to_uint8, Outcome, done, exits, fault,
  ◌>>=◌, ◌>>◌, or_fault, index, index_int, granted, ℕ_discrete, dec_lt, ltb→lt, lt→ltb, leb→le,
  ==_iff,
}
use bare_metal_architect.Arrays.{shift_left}
use bare_metal_architect.Text.{Text}

-- `struct Printer` with its queue: the rows of 254 bytes by the strings in them.
pub record Printer : Type 0 where
  pub messages : List Text
  pub size : ℕ
  pub capacity : ℕ

unfoldable pub init : Bool → Bool → Outcome Printer
init printer queue = do
  granted printer
  granted queue
  done (record { messages = replicate 5 []; size = 0; capacity = 5 })

-- The copy with its NUL has to fit into the row; the NUL at the end of the row changes no string
-- that does.
unfoldable pub enqueue : Printer → Text → Outcome Printer
enqueue p msn = if p.size == p.capacity then exits else do
  _ ← index p.messages p.size
  if ltb 254 (length msn + 1)
      then fault
      else done (record p { messages = set p.messages p.size msn; size = p.size + 1 })

-- With the allocation of the copy.
unfoldable pub dequeue : Bool → Printer → Outcome (Printer × Text)
dequeue alloc p = if p.size == 0 then exits else do
  dequeued_msn ← index p.messages 0
  granted alloc
  messages ← shift_left (p.size - 1) p.messages
  done (record p { messages = messages; size = p.size - 1 }, dequeued_msn)

-- The messages that it prints, with `n` more from `i` on.
unfoldable pub rows : ℕ → ℕ → List Text → Outcome (List Text)
rows zero i messages = done []
rows (suc n) i messages = do
  msn ← index messages i
  rest ← rows n (suc i) messages
  done (msn ∷ rest)

unfoldable pub print_queue : Printer → Outcome (List Text)
print_queue p = if p.size == 0 then exits else rows p.size 0 p.messages
