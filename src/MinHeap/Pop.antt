-- ===== src/MinHeap/Pop.antt =====
-- A pop: the last node takes the place of the root and sinks to its place.
use bare_metal_architect.Prelude.{
  ℕ, suc, ◌+◌, ◌-◌, ◌≤◌, ◌<◌, ◌≡◌, refl, sym, ap, ◌∙◌, ◌≢◌, Bool, false, some, List, arith, ◌==◌,
  get_elem?, get_elem?-some, set, take, length-set, get_elem?-set_ne, done, exits, ℕ_discrete,
}
use bare_metal_architect.MinHeap.{HeapNode, MinHeap, pop}
use bare_metal_architect.MinHeap.Swap.{
  one_if, count, count-set, count-take-suc, take-set, get_elem?-take, dist, dist-get_elem?, dist-eq,
}
use bare_metal_architect.MinHeap.Order.{Sinking, root_least}
use bare_metal_architect.MinHeap.Up.{IsValid, counted}
use bare_metal_architect.MinHeap.Down.{sift_down-Sifted}

-- The root is the nearest node of the heap, and the heap after the pop has all others.
pub record Popped (h : MinHeap) : Type 0 where
  pub after : MinHeap
  pub root : HeapNode
  pub returned : pop h ≡ done (after, root)
  pub valid : IsValid after
  pub same_capacity : after.capacity ≡ h.capacity
  pub shrunk : suc after.size ≡ h.size
  pub least :
      (i : ℕ) (node : HeapNode)
      → i < h.size
      → get_elem? h.heap_nodes i ≡ some node
      → root.distance ≤ node.distance
  pub bag : (p : HeapNode → Bool) → counted p after + one_if (p root) ≡ counted p h

-- A pop of an empty heap ends the process.
pub pop_empty : (h : MinHeap) → h.size ≡ 0 → pop h ≡ exits
unfolding pop
pop_empty h e = rw e refl

module _ (h : MinHeap) (v : IsValid h) where
  least_of :
      (root : HeapNode)
      → get_elem? h.heap_nodes 0 ≡ some root
      → (i : ℕ) (node : HeapNode) → i < h.size
      → get_elem? h.heap_nodes i ≡ some node
      → root.distance ≤ node.distance
  least_of root at_0 i node lt at = omega (
    arith,
    root_least h.size (dist h.heap_nodes) v.heap i i (omega arith) lt,
    dist-get_elem? h.heap_nodes 0 root at_0,
    dist-get_elem? h.heap_nodes i node at,
  )

  pop_last : h.size ≡ 1 → Popped h
  unfolding pop
  pop_last one =
      let (root, at_0) = get_elem?-some h.heap_nodes 0 (omega (arith, v.cells, v.fits)) in
      record {
        after = record h { size = h.size - 1 };
        root = root;
        returned = rw (one, at_0) refl;
        valid = record {
          cells = v.cells;
          fits = omega (arith, v.fits);
          heap = record { above = λ p i lo hi lt. absurd (omega arith) };
        };
        same_capacity = refl;
        shrunk = omega arith;
        least = least_of root at_0;
        bag = λ p. omega (
          arith,
          count-take-suc p 0 h.heap_nodes root at_0,
          ap (λ m. count p (take m h.heap_nodes)) one,
          ap (λ m. count p (take (m - 1) h.heap_nodes)) one,
        );
      }

  module _ (n : ℕ) (size : h.size ≡ suc (suc n)) (root last : HeapNode)
      (at_0 : get_elem? h.heap_nodes 0 ≡ some root)
      (at_last : get_elem? h.heap_nodes (suc n) ≡ some last) where
    abbrev moved : List HeapNode
    moved = set h.heap_nodes 0 last

    moved-Sinking : Sinking (suc n) (dist moved) 0
    moved-Sinking =
        let kept : (i : ℕ) → i ≢ 0 → dist moved i ≡ dist h.heap_nodes i = λ i ne.
          dist-eq _ h.heap_nodes i (get_elem?-set_ne h.heap_nodes 0 i last (λ e. ne (sym e))) in
        record {
          but_here = λ p i lo hi lt ne. omega (
            arith,
            kept p ne,
            kept i (λ e. omega arith),
            v.heap.above p i lo hi (omega (arith, size)),
          );
          around = λ p i lp hp lo hi lt. absurd (omega arith);
        }

    moved_count :
        (p : HeapNode → Bool)
        → count p (take (suc n) moved) + one_if (p root) ≡ count p (take (suc (suc n)) h.heap_nodes)
    moved_count p =
        let one =
          count-set p (take (suc n) h.heap_nodes) 0 root last
            (get_elem?-take (suc n) h.heap_nodes 0 (omega arith) ∙ at_0) in
        let two = count-take-suc p (suc n) h.heap_nodes last at_last in
        rw (take-set (suc n) h.heap_nodes 0 last) (omega (arith, one, two))

    pop_more : Popped h
    unfolding pop
    pop_more =
        let less : h.size - 1 ≡ suc n = omega arith in
        let many : (h.size == 1) ≡ false = ground arith in
        let some_node : (h.size == 0) ≡ false = ground arith in
        let down =
          sift_down-Sifted (suc n) h.size moved 0 (omega arith) (omega arith)
            (omega (arith, length-set h.heap_nodes 0 last, v.cells, v.fits)) moved-Sinking in
        record {
          after = record h { heap_nodes = down.after; size = suc n };
          root = root;
          returned = rw (some_node, many, at_0, less, at_last, down.returned, less) refl;
          valid = record {
            cells = down.same_length ∙ length-set h.heap_nodes 0 last ∙ v.cells;
            fits = omega (arith, v.fits);
            heap = down.heap;
          };
          same_capacity = refl;
          shrunk = sym size;
          least = least_of root at_0;
          bag = λ p.
              omega (
                arith,
                down.same_bag p,
                moved_count p,
                ap (λ m. count p (take m h.heap_nodes)) size,
              );
        }

-- A pop of a heap with a node returns the nearest one, and leaves the heap with the others.
pub pop-Popped : (h : MinHeap) → IsValid h → 0 < h.size → Popped h
pop-Popped h v some_node = elim (ℕ_discrete h.size 1) [
  | yes one ↦ pop_last h v one
  | no many ↦
      let size : h.size ≡ suc (suc (h.size - 2)) = omega arith in
      let (root, at_0) = get_elem?-some h.heap_nodes 0 (omega (arith, v.cells, v.fits)) in
      let (last, at_last) =
        get_elem?-some h.heap_nodes (suc (h.size - 2)) (omega (arith, v.cells, v.fits)) in
      pop_more h v (h.size - 2) size root last at_0 at_last
]
