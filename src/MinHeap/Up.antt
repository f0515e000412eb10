-- ===== src/MinHeap/Up.antt =====
-- A push: the new node rises to its place.
use bare_metal_architect.Prelude.{
  ℕ, zero, suc, ◌+◌, ◌/◌, ◌≤◌, ◌<◌, ◌≡◌, refl, sym, ◌∙◌, ◌≢◌, ◌⊎◌, inl, inr, Bool, some, List,
  arith, ltb, leb, Bool-cases, length, get_elem?, get_elem?-some, set, take, length-set,
  get_elem?-set_self, get_elem?-set_ne, Outcome, done, exits, ltb→lt, leb→le,
}
use bare_metal_architect.MinHeap.{HeapNode, MinHeap, swap, sift_up, push}
use bare_metal_architect.MinHeap.Swap.{
  one_if, count, count-take-suc, take-set_out, dist, dist-get_elem?, dist-eq, swap_length,
  swap_first, swap_second, swap_others, swap_count,
}
use bare_metal_architect.MinHeap.Order.{IsHeap, Rising, risen, risen_root, rises, Swapped}

-- A loop that returns an array of the same length, whose first n nodes are those of before, as a
-- heap.
pub record Sifted (n : ℕ) (nodes : List HeapNode) (r : Outcome (List HeapNode)) : Type 0 where
  pub after : List HeapNode
  pub returned : r ≡ done after
  pub heap : IsHeap n (dist after)
  pub same_length : length after ≡ length nodes
  pub same_bag : (p : HeapNode → Bool) → count p (take n after) ≡ count p (take n nodes)

pub Sifted-same :
    (n : ℕ) (nodes : List HeapNode) → IsHeap n (dist nodes) → Sifted n nodes (done nodes)
Sifted-same n nodes h = record {
  after = nodes;
  returned = refl;
  heap = h;
  same_length = refl;
  same_bag = λ p. refl;
}

-- Two nodes of the first n that change their places, before the rest of a loop.
module _ (n : ℕ) (nodes : List HeapNode) (i j : ℕ) (a b : HeapNode) (inside : n ≤ length nodes)
    (at_i : get_elem? nodes i ≡ some a) (at_j : get_elem? nodes j ≡ some b) (ne : i ≢ j)
    (li : i < n) (lj : j < n) where
  pub swap-Swapped : Swapped i j (dist nodes) (dist (swap nodes i a j b))
  swap-Swapped =
      let first = swap_first nodes i j a b at_i at_j ne (omega arith) (omega arith) in
      let second = swap_second nodes i j a b at_i at_j ne (omega arith) (omega arith) in
      record {
        first = dist-get_elem? _ i b first ∙ sym (dist-get_elem? nodes j b at_j);
        second = dist-get_elem? _ j a second ∙ sym (dist-get_elem? nodes i a at_i);
        others = λ k p q.
            dist-eq _ nodes k
              (swap_others nodes i j a b at_i at_j ne (omega arith) (omega arith) k p q);
      }

  pub swap-Sifted :
      {r : Outcome (List HeapNode)} → Sifted n (swap nodes i a j b) r → Sifted n nodes r
  swap-Sifted s = record {
    after = s.after;
    returned = s.returned;
    heap = s.heap;
    same_length =
        s.same_length ∙ swap_length nodes i j a b at_i at_j ne (omega arith) (omega arith);
    same_bag = λ p.
        s.same_bag p ∙ swap_count nodes i j a b at_i at_j ne (omega arith) (omega arith) p n li lj;
  }

pub sift_up-Sifted :
    (n fuel : ℕ) (nodes : List HeapNode) (k : ℕ)
    → k ≤ fuel
    → k < n
    → n ≤ length nodes
    → Rising n (dist nodes) k
    → Sifted n nodes (sift_up fuel nodes k)
unfolding sift_up
sift_up-Sifted n fuel nodes zero le lt inside r = Sifted-same n nodes (risen_root n (dist nodes) r)
sift_up-Sifted n zero nodes (suc c) le lt inside r = absurd (omega arith)
sift_up-Sifted n (suc fuel) nodes (suc c) le lt inside r =
    let (a, at_a) = get_elem?-some nodes (c / 2) (omega arith) in
    let (b, at_b) = get_elem?-some nodes (suc c) (omega arith) in
    let da = dist-get_elem? nodes (c / 2) a at_a in
    let db = dist-get_elem? nodes (suc c) b at_b in
    elim (Bool-cases (leb a.distance b.distance)) [
      | inl near ↦
          rw (at_a, at_b, near)
            (Sifted-same n nodes (
              risen n (dist nodes) (suc c) (c / 2) (omega arith) (omega arith)
                (omega (arith, leb→le a.distance b.distance near, da, db)) r))
      | inr far ↦
          let less : dist nodes (suc c) < dist nodes (c / 2) = ground (arith, da, db) in
          let ne : suc c ≢ c / 2 = λ e. omega arith in
          let now = swap-Swapped n nodes (suc c) (c / 2) b a inside at_b at_a ne lt (omega arith) in
          let same =
            swap_length nodes (suc c) (c / 2) b a at_b at_a ne (omega arith) (omega arith) in
          rw (at_a, at_b, far)
            (swap-Sifted n nodes (suc c) (c / 2) b a inside at_b at_a ne lt (omega arith) (
              sift_up-Sifted n fuel (swap nodes (suc c) b (c / 2) a) (c / 2) (omega arith)
                (omega arith) (omega (arith, same))
                (rises n (suc c) (c / 2) (dist nodes) (dist (swap nodes (suc c) b (c / 2) a)) now
                  (omega arith) (omega arith) less r lt)))
    ]

-- The array has the capacity of the heap, and its first nodes are in the order of a heap.
pub record IsValid (h : MinHeap) : Type 0 where
  pub cells : length h.heap_nodes ≡ h.capacity
  pub fits : h.size ≤ h.capacity
  pub heap : IsHeap h.size (dist h.heap_nodes)

-- How many nodes of a heap pass the test.
abbrev pub counted : (HeapNode → Bool) → MinHeap → ℕ
counted p h = count p (take h.size h.heap_nodes)

-- The heap after a push has the new node and those of before.
pub record Pushed (h : MinHeap) (node : HeapNode) : Type 0 where
  pub after : MinHeap
  pub returned : push h node.city_id node.distance ≡ done after
  pub valid : IsValid after
  pub same_capacity : after.capacity ≡ h.capacity
  pub grown : after.size ≡ h.size + 1
  pub bag : (p : HeapNode → Bool) → counted p after ≡ counted p h + one_if (p node)

module _ (h : MinHeap) (v : IsValid h) (node : HeapNode) where
  abbrev placed : List HeapNode
  placed = set h.heap_nodes h.size node

  kept : (i : ℕ) → i ≢ h.size → dist placed i ≡ dist h.heap_nodes i
  kept i ne =
      dist-eq _ h.heap_nodes i (get_elem?-set_ne h.heap_nodes h.size i node (λ e. ne (sym e)))

  placed-Rising : Rising (h.size + 1) (dist placed) h.size
  placed-Rising = record {
    but_here = λ p i lo hi lt ne.
        omega
          (arith, kept p (λ e. omega arith), kept i ne, v.heap.above p i lo hi (omega (arith, ne)));
    around = λ p i lp hp lo hi lt. absurd (omega arith);
  }

  placed_count :
      (p : HeapNode → Bool)
      → h.size < h.capacity
      → count p (take (h.size + 1) placed) ≡ counted p h + one_if (p node)
  placed_count p room =
      let one : h.size + 1 ≡ suc h.size = omega arith in
      rw
        (
          one,
          count-take-suc p h.size placed node
              (get_elem?-set_self h.heap_nodes h.size node (omega (arith, v.cells))),
          take-set_out h.size h.heap_nodes h.size node (omega arith),
        )
        refl

  -- A push to a heap with room returns the heap with the new node; one to a full heap ends the
  -- process.
  pub push-Pushed :
      ((h.size ≡ h.capacity) × (push h node.city_id node.distance ≡ exits)) ⊎ Pushed h node
  unfolding push
  push-Pushed = elim (Bool-cases (ltb h.capacity (h.size + 1))) [
    | inl full ↦
        let lt = ltb→lt h.capacity (h.size + 1) full in inl (omega (arith, v.fits), rw full refl)
    | inr room ↦
        let lt : h.size < h.capacity = ground arith in
        let up =
          sift_up-Sifted (h.size + 1) h.size placed h.size (omega arith) (omega arith)
            (omega (arith, length-set h.heap_nodes h.size node, v.cells)) placed-Rising in
        inr (record {
          after = record h { heap_nodes = up.after; size = h.size + 1 };
          returned =
              rw
                (room, (get_elem?-some h.heap_nodes h.size (omega (arith, v.cells))).1, up.returned)
                refl;
          valid = record {
            cells = up.same_length ∙ length-set h.heap_nodes h.size node ∙ v.cells;
            fits = omega arith;
            heap = up.heap;
          };
          same_capacity = refl;
          grown = refl;
          bag = λ p. up.same_bag p ∙ placed_count p lt;
        })
  ]
