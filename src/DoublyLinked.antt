-- ===== src/DoublyLinked.antt =====
-- data-structures/double_linked_list.c: a list whose nodes point both ways, in the heap.
pub mod Chain
pub mod Print
mod Tests
use bare_metal_architect.Prelude.{
  ℕ, zero, suc, ◌+◌, ◌-◌, ◌*◌, ◌/◌, ◌%◌, ◌^◌, ◌≤◌, ◌<◌, ◌≡◌, refl, sym, ap, ◌∙◌, ◌≢◌, ◌↔◌, ◌⊎◌, inl,
  inr, Bool, true, false, ◌&&◌, ◌||◌, not, Option, none, some, List, [], ◌∷◌, ◌++◌, arith, ltb, leb,
  ◌==◌, if◌then◌else◌, Bool-cases, Option-cases, length, get_elem?, get_elem?-some, set, replicate,
  take, drop, All, length-append, length-set, length-replicate, get_elem?-set_self,
  get_elem?-set_ne, get_elem?-replicate, ℤ, pos, negsuc, to_uint8, Outcome, done, exits, fault,
  ◌>>=◌, ◌>>◌, or_fault, index, index_int, granted, ℕ_discrete, dec_lt, ltb→lt, lt→ltb, leb→le,
  ==_iff,
}

pub record Node : Type 0 where
  pub value : ℤ
  pub next : Option ℕ
  pub prev : Option ℕ

-- The nodes in the order of their allocation, by their addresses; `struct DoublyLinkedList` is the
-- rest, in a block of `room` bytes. Its members stand at 0, 8 and 16 there.
pub record DoublyLinkedList : Type 0 where
  pub room : ℕ
  pub heap : List Node
  pub head : Option ℕ
  pub tail : Option ℕ
  pub size : ℕ

-- Whether the pointer is not null, and the type; an unknown type is not tested.
unfoldable pub check_alloc : Bool → ℕ → Outcome (Unit {0})
check_alloc ok type = if type == 0 then granted ok else if type == 1 then granted ok else done tt

abbrev pub empty : ℕ → DoublyLinkedList
empty room = record { room = room; heap = []; head = none; tail = none; size = 0 }

-- An access of `count` bytes at an offset in a block of so many bytes.
abbrev pub inside_block : ℕ → ℕ → ℕ → Outcome (Unit {0})
inside_block block offset count = if leb (offset + count) block then done tt else fault

-- The block has the 8 bytes of a pointer.
unfoldable pub dll_create : Bool → Outcome DoublyLinkedList
dll_create alloc = do
  check_alloc alloc 0
  inside_block 8 0 8
  inside_block 8 8 8
  inside_block 8 16 4
  done (empty 8)

unfoldable pub dll_append : Bool → DoublyLinkedList → ℤ → Outcome DoublyLinkedList
dll_append alloc dll value = do
  check_alloc alloc 1
  inside_block dll.room 0 8
  inside_block dll.room 8 8
  inside_block dll.room 16 4
  elim dll.head [
    | none ↦ done (record dll {
      heap = dll.heap ++ (record { value = value; next = none; prev = none } ∷ []);
      head = some (length dll.heap);
      tail = some (length dll.heap);
      size = dll.size + 1;
    })
    | some head ↦ do
      tail ← or_fault dll.tail
      old ← index dll.heap tail
      done (record dll {
        heap =
            set dll.heap tail (record old { next = some (length dll.heap) })
            ++ (record { value = value; next = none; prev = dll.tail } ∷ []);
        tail = some (length dll.heap);
        size = dll.size + 1;
      })
  ]

-- The loop of the print and the line after it, on fuel: the index and the value of each line.
unfoldable pub print_back : ℕ → List Node → ℕ → ℕ → Outcome (List (ℕ × ℤ))
print_back zero heap current counter = fault
print_back (suc fuel) heap current counter = do
  node ← index heap current
  elim node.prev [
    | none ↦ done ((counter - 1, node.value) ∷ [])
    | some before ↦ do
      rest ← print_back fuel heap before (counter - 1)
      done ((counter - 1, node.value) ∷ rest)
  ]

unfoldable pub dll_print_reverse : ℕ → DoublyLinkedList → Outcome (List (ℕ × ℤ))
dll_print_reverse fuel dll = do
  inside_block dll.room 8 8
  inside_block dll.room 16 4
  current ← or_fault dll.tail
  print_back fuel dll.heap current dll.size
