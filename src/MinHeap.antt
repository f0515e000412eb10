-- ===== src/MinHeap.antt =====
-- The binary heap of graphs/Dijkstra/Dijkstra-MinHeap.c: an array of cities with their distances, in
-- which no node is nearer than its parent. The distances of the program are never negative.
pub mod Swap
pub mod Order
pub mod Up
pub mod Down
pub mod Pop
mod Tests
use bare_metal_architect.Prelude.{
  ℕ, zero, suc, ◌+◌, ◌-◌, ◌*◌, ◌/◌, ◌%◌, ◌^◌, ◌≤◌, ◌<◌, ◌≡◌, refl, sym, ap, ◌∙◌, ◌≢◌, ◌↔◌, ◌⊎◌, inl,
  inr, Bool, true, false, ◌&&◌, ◌||◌, not, Option, none, some, List, [], ◌∷◌, ◌++◌, arith, ltb, leb,
  ◌==◌, if◌then◌else◌, Bool-cases, Option-cases, length, get_elem?, get_elem?-some, set, replicate,
  take, drop, All, length-append, length-set, length-replicate, get_elem?-set_self,
  get_elem?-set_ne, get_elem?-replicate, ℤ, pos, negsuc, to_uint8, Outcome, done, exits, fault,
  ◌>>=◌, ◌>>◌, or_fault, index, index_int, granted, ℕ_discrete, dec_lt, ltb→lt, lt→ltb, leb→le,
  ==_iff,
}

pub record HeapNode : Type 0 where
  pub city_id : ℕ
  pub distance : ℕ

pub record MinHeap : Type 0 where
  pub heap_nodes : List HeapNode
  pub capacity : ℕ
  pub size : ℕ

-- Whether the allocation of an object of the type is granted; the types are 0 and 1.
unfoldable pub check_heap_alloc : Bool → ℕ → Outcome (Unit {0})
check_heap_alloc obj zero = granted obj
check_heap_alloc obj (suc zero) = granted obj
check_heap_alloc obj (suc (suc n)) = exits

abbrev pub zero_node : HeapNode
zero_node = record { city_id = 0; distance = 0 }

unfoldable pub init_minheap : (ℕ → Bool) → ℕ → Outcome MinHeap
unfolding check_heap_alloc
init_minheap alloc capacity = do
  check_heap_alloc (alloc 0) 0
  check_heap_alloc (alloc 1) 1
  done (record { heap_nodes = replicate capacity zero_node; capacity = capacity; size = 0 })

-- The nodes `i` and `j`, `a` and `b`, change their places.
abbrev pub swap : List HeapNode → ℕ → HeapNode → ℕ → HeapNode → List HeapNode
swap nodes i a j b = set (set nodes i b) j a

-- The loop of `push`, on fuel; the parent of `suc c` is `c / 2`.
unfoldable pub sift_up : ℕ → List HeapNode → ℕ → Outcome (List HeapNode)
sift_up fuel nodes zero = done nodes
sift_up zero nodes (suc c) = fault
sift_up (suc fuel) nodes (suc c) = do
  above ← index nodes (c / 2)
  node ← index nodes (suc c)
  let rest = sift_up fuel (swap nodes (suc c) node (c / 2) above) (c / 2)
  if leb above.distance node.distance then done nodes else rest

unfoldable pub push : MinHeap → ℕ → ℕ → Outcome MinHeap
unfolding sift_up
push heap city_id distance = if ltb heap.capacity (heap.size + 1) then exits else do
  _ ← index heap.heap_nodes heap.size
  nodes ←
      sift_up heap.size
        (set heap.heap_nodes heap.size (record { city_id = city_id; distance = distance }))
        heap.size
  done (record heap { heap_nodes = nodes; size = heap.size + 1 })

-- The child that is compared: the right one where it exists and is nearer than the left one.
unfoldable pub smallest_child : List HeapNode → ℕ → ℕ → Outcome ℕ
smallest_child nodes size current = do
  left ← index nodes (2 * current + 1)
  if ltb (2 * current + 2) size
      then (do
        right ← index nodes (2 * current + 2)
        done (if ltb right.distance left.distance then 2 * current + 2 else 2 * current + 1))
      else done (2 * current + 1)

-- The loop of `pop`, on fuel.
unfoldable pub sift_down : ℕ → List HeapNode → ℕ → ℕ → Outcome (List HeapNode)
unfolding smallest_child
sift_down zero nodes size current = if ltb (2 * current + 1) size then fault else done nodes
sift_down (suc fuel) nodes size current =
    if ltb (2 * current + 1) size
    then (do
      smallest ← smallest_child nodes size current
      node ← index nodes current
      below ← index nodes smallest
      let rest = sift_down fuel (swap nodes current node smallest below) size smallest
      if ltb below.distance node.distance then rest else done nodes)
    else done nodes

unfoldable pub pop : MinHeap → Outcome (MinHeap × HeapNode)
unfolding sift_down
pop heap =
    if heap.size == 0
    then exits
    else if heap.size == 1
    then (do root ← index heap.heap_nodes 0; done (record heap { size = heap.size - 1 }, root))
    else do
      root ← index heap.heap_nodes 0
      last ← index heap.heap_nodes (heap.size - 1)
      nodes ← sift_down heap.size (set heap.heap_nodes 0 last) (heap.size - 1) 0
      done (record heap { heap_nodes = nodes; size = heap.size - 1 }, root)
