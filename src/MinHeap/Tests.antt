-- ===== src/MinHeap/Tests.antt =====
-- A heap of two cities with room for a third.
use bare_metal_architect.Prelude.{
  ℕ, zero, suc, ◌≡◌, refl, ap, Bool, true, List, [], ◌∷◌, arith, Outcome, done, ◌>>=◌,
}
use bare_metal_architect.MinHeap.{
  HeapNode, MinHeap, init_minheap, check_heap_alloc, push, pop, zero_node, sift_up, sift_down,
  smallest_child,
}
use bare_metal_architect.MinHeap.Swap.{dist}
use bare_metal_architect.MinHeap.Up.{IsValid}
use bare_metal_architect.MinHeap.Pop.{Popped, pop-Popped}

abbrev granting : ℕ → Bool
granting n = true

abbrev node : ℕ → ℕ → HeapNode
node city_id distance = record { city_id = city_id; distance = distance }

abbrev cities : MinHeap
cities = record { heap_nodes = node 2 125 ∷ node 3 160 ∷ zero_node ∷ []; capacity = 3; size = 2 }

-- The distances of what comes out of a heap.
abbrev drained : ℕ → MinHeap → Outcome (List ℕ)
drained zero heap = done []
drained (suc n) heap = do r ← pop heap; rest ← drained n r.0; done (r.1.distance ∷ rest)

-- Four pushes, and the pops in the order of the distances.
pops_in_order :
    (do
      h ← init_minheap granting 4
      h1 ← push h 2 160
      h2 ← push h1 3 90
      h3 ← push h2 4 215
      h4 ← push h3 5 12
      drained 4 h4)
    ≡ done (12 ∷ 90 ∷ 160 ∷ 215 ∷ [])
unfolding init_minheap check_heap_alloc push pop sift_up sift_down smallest_child
pops_in_order = refl

cities-IsValid : IsValid cities
cities-IsValid = record {
  cells = refl;
  fits = omega arith;
  heap = record {
    above = λ p i lo hi lt.
        let root : p ≡ 0 = omega arith in
        let leaf : i ≡ 1 = omega arith in
        omega (arith, ap (dist cities.heap_nodes) root, ap (dist cities.heap_nodes) leaf);
  };
}

pop-Popped_example : Popped cities
pop-Popped_example = pop-Popped cities cities-IsValid (omega arith)
