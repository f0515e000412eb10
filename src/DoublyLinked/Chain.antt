-- ===== src/DoublyLinked/Chain.antt =====
-- What the heap of a list holds, and the append of a value.
use bare_metal_architect.Prelude.{
  ℕ, zero, suc, ◌+◌, ◌<◌, ◌≡◌, refl, ap, ◌∙◌, Bool, true, false, Option, none, some, List, [], ◌∷◌,
  ◌++◌, arith, if◌then◌else◌, length, get_elem?, set, drop, length-append, ℤ, pos, Outcome, done,
  exits, fault,
}
use bare_metal_architect.DoublyLinked.{Node, DoublyLinkedList, check_alloc, dll_create, dll_append}

abbrev pub before : ℕ → Option ℕ
before zero = none
before (suc i) = some i

-- The link of the node at `i` to the nodes of the values behind it.
abbrev pub link : ℕ → List ℤ → Option ℕ
link i [] = none
link i (v ∷ rest) = some (suc i)

-- The nodes of values from the address `i` on, each linked to its neighbours.
abbrev pub nodes : ℕ → List ℤ → List Node
nodes i [] = []
nodes i (v ∷ rest) = record { value = v; next = link i rest; prev = before i } ∷ nodes (suc i) rest

abbrev pub first : List ℤ → Option ℕ
first [] = none
first (v ∷ rest) = some 0

-- The list of the values, in a structure with room for its three members.
abbrev pub list_of : List ℤ → DoublyLinkedList
list_of values = record {
  room = 24;
  heap = nodes 0 values;
  head = first values;
  tail = before (length values);
  size = length values;
}

pub length-nodes : (i : ℕ) (values : List ℤ) → length (nodes i values) ≡ length values
length-nodes i [] = refl
length-nodes i (v ∷ rest) = ap suc (length-nodes (suc i) rest)

-- The value at an index, 0 outside of the list.
abbrev pub value : List ℤ → ℕ → ℤ
value [] k = pos 0
value (v ∷ rest) zero = v
value (v ∷ rest) (suc k) = value rest k

abbrev pub node_at : ℕ → List ℤ → ℕ → Node
node_at i values k = record {
  value = value values k;
  next = link (i + k) (drop (suc k) values);
  prev = before (i + k);
}

pub nodes-get_elem? :
    (i : ℕ) (values : List ℤ) (k : ℕ)
    → k < length values
    → get_elem? (nodes i values) k ≡ some (node_at i values k)
nodes-get_elem? i [] k lt = absurd (omega arith)
nodes-get_elem? i (v ∷ rest) zero lt =
    ap (λ j. some (record { value = v; next = link j rest; prev = before j })) (omega arith)
nodes-get_elem? i (v ∷ rest) (suc k) lt =
    nodes-get_elem? (suc i) rest k (omega arith)
    ∙ ap
        (λ j.
          some
            (record { value = value rest k; next = link j (drop (suc k) rest); prev = before j }))
        (omega arith)

drop_all : (values : List ℤ) → drop (length values) values ≡ []
drop_all [] = refl
drop_all (v ∷ rest) = drop_all rest

-- The last node is linked to a new one behind it.
extended :
    (i : ℕ) (v : ℤ) (rest : List ℤ) (new : ℤ)
    → set
          (nodes i (v ∷ rest))
          (length rest)
          (record (node_at i (v ∷ rest) (length rest)) { next = some (suc (i + length rest)) })
        ++ (record { value = new; next = none; prev = some (i + length rest) } ∷ [])
      ≡ nodes i ((v ∷ rest) ++ (new ∷ []))
extended i v [] new =
    ap
      (λ j.
        record { value = v; next = some (suc j); prev = before j }
        ∷ record { value = new; next = none; prev = some j }
        ∷ [])
      (omega arith)
extended i v (u ∷ rest) new =
    ap (◌∷◌ (record { value = v; next = some (suc i); prev = before i })) (
      ap
        (λ j.
          set (nodes (suc i) (u ∷ rest)) (length rest) (record {
            value = value (u ∷ rest) (length rest);
            next = some (suc j);
            prev = before j;
          })
          ++ (record { value = new; next = none; prev = some j } ∷ []))
        (omega arith)
      ∙ extended (suc i) u rest new)

-- The list with its heap, its tail and its size.
abbrev with_parts : List Node → ℕ → ℕ → Outcome DoublyLinkedList
with_parts heap tail size =
    done (record { room = 24; heap = heap; head = some 0; tail = some tail; size = size })

grown :
    (v : ℤ) (rest : List ℤ) (new : ℤ)
    → with_parts
        (set
            (nodes 0 (v ∷ rest))
            (length rest)
            (record (node_at 0 (v ∷ rest) (length rest)) { next = some (suc (length rest)) })
          ++ (record { value = new; next = none; prev = some (length rest) } ∷ []))
        (suc (length rest))
        (suc (length rest) + 1)
      ≡ done (list_of ((v ∷ rest) ++ (new ∷ [])))
grown v rest new =
    let heap : set (nodes 0 (v ∷ rest)) (length rest)
            (record (node_at 0 (v ∷ rest) (length rest)) { next = some (suc (length rest)) })
          ++ (record { value = new; next = none; prev = some (length rest) } ∷ [])
        ≡ nodes 0 ((v ∷ rest) ++ (new ∷ [])) =
      ap
        (λ j.
          set (nodes 0 (v ∷ rest)) (length rest)
            (record (node_at 0 (v ∷ rest) (length rest)) { next = some (suc j) })
          ++ (record { value = new; next = none; prev = some j } ∷ []))
        (omega arith)
      ∙ extended 0 v rest new in
    let longer : suc (length rest) ≡ length (rest ++ (new ∷ [])) =
      omega (arith, length-append rest (new ∷ [])) in
    ap (λ h. with_parts h (suc (length rest)) (suc (length rest) + 1)) heap
    ∙ ap (λ t. with_parts (nodes 0 ((v ∷ rest) ++ (new ∷ []))) t (suc (length rest) + 1)) longer
    ∙ ap (with_parts (nodes 0 ((v ∷ rest) ++ (new ∷ []))) (length (rest ++ (new ∷ []))))
        (omega (arith, longer))

-- An append to a list of values in a structure with room for its members, with memory, gives the list with the value at its end, linked both
-- ways; without memory it ends the process.
pub dll_append-list_of :
    (alloc : Bool) (values : List ℤ) (new : ℤ)
    → dll_append alloc (list_of values) new
      ≡ (if alloc then done (list_of (values ++ (new ∷ []))) else exits)
unfolding dll_append check_alloc
dll_append-list_of false values new = refl
dll_append-list_of true [] new = refl
dll_append-list_of true (v ∷ rest) new =
    rw (nodes-get_elem? 0 (v ∷ rest) (length rest) (omega arith), length-nodes 1 rest)
      (grown v rest new)

-- dll_create never returns: the block that it allocates has the size of a pointer, and the write of
-- the second member is outside of it; without memory it ends the process.
pub dll_create-never : (alloc : Bool) → dll_create alloc ≡ (if alloc then fault else exits)
unfolding dll_create check_alloc
dll_create-never true = refl
dll_create-never false = refl
