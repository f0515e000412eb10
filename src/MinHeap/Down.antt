-- ===== src/MinHeap/Down.antt =====
-- A node that sinks to its place, below the nearest of its children.
use bare_metal_architect.Prelude.{
  ℕ, zero, suc, ◌+◌, ◌*◌, ◌≤◌, ◌<◌, ◌≡◌, refl, ap, ◌≢◌, inl, inr, List, arith, ltb, Bool-cases,
  length, get_elem?-some, done, ℕ_discrete, ltb→lt,
}
use bare_metal_architect.MinHeap.{HeapNode, swap, smallest_child, sift_down}
use bare_metal_architect.MinHeap.Swap.{dist, dist-get_elem?, swap_length}
use bare_metal_architect.MinHeap.Order.{Sinking, sunk, sinks}
use bare_metal_architect.MinHeap.Up.{Sifted, Sifted-same, swap-Swapped, swap-Sifted}

-- The nearest child of k among the first n nodes.
pub record Nearest (nodes : List HeapNode) (n k : ℕ) : Type 0 where
  pub child : ℕ
  pub returned : smallest_child nodes n k ≡ done child
  pub low : 2 * k + 1 ≤ child
  pub high : child ≤ 2 * k + 2
  pub inside : child < n
  pub least : (i : ℕ) → 2 * k + 1 ≤ i → i ≤ 2 * k + 2 → i < n → dist nodes child ≤ dist nodes i

child_found :
    (nodes : List HeapNode) (n k : ℕ) → n ≤ length nodes → 2 * k + 1 < n → Nearest nodes n k
unfolding smallest_child
child_found nodes n k inside some_child =
    let (a, at_a) = get_elem?-some nodes (2 * k + 1) (omega arith) in
    let da = dist-get_elem? nodes (2 * k + 1) a at_a in
    elim (Bool-cases (ltb (2 * k + 2) n)) [
      | inr alone ↦
          let last : n ≤ 2 * k + 2 = ground arith in
          record {
            child = 2 * k + 1;
            returned = rw (at_a, alone) refl;
            low = omega arith;
            high = omega arith;
            inside = some_child;
            least = λ i lo hi lt.
                let e : i ≡ 2 * k + 1 = omega arith in omega (arith, ap (dist nodes) e);
          }
      | inl both ↦
          let lt2 = ltb→lt (2 * k + 2) n both in
          let (b, at_b) = get_elem?-some nodes (2 * k + 2) (omega arith) in
          let db = dist-get_elem? nodes (2 * k + 2) b at_b in
          elim (Bool-cases (ltb b.distance a.distance)) [
            | inl right_one ↦
                let less = ltb→lt b.distance a.distance right_one in
                record {
                  child = 2 * k + 2;
                  returned = rw (at_a, both, at_b, right_one) refl;
                  low = omega arith;
                  high = omega arith;
                  inside = lt2;
                  least = λ i lo hi lt. elim (ℕ_discrete i (2 * k + 1)) [
                    | yes e ↦ omega (arith, less, da, db, ap (dist nodes) e)
                    | no ne ↦
                        let e : i ≡ 2 * k + 2 = omega arith in omega (arith, ap (dist nodes) e)
                  ];
                }
            | inr left_one ↦
                let le : a.distance ≤ b.distance = ground arith in
                record {
                  child = 2 * k + 1;
                  returned = rw (at_a, both, at_b, left_one) refl;
                  low = omega arith;
                  high = omega arith;
                  inside = some_child;
                  least = λ i lo hi lt. elim (ℕ_discrete i (2 * k + 1)) [
                    | yes e ↦ omega (arith, ap (dist nodes) e)
                    | no ne ↦
                        let e : i ≡ 2 * k + 2 = omega arith in
                        omega (arith, le, da, db, ap (dist nodes) e)
                  ];
                }
          ]
    ]

pub sift_down-Sifted :
    (n fuel : ℕ) (nodes : List HeapNode) (k : ℕ)
    → n ≤ fuel + k
    → k < n
    → n ≤ length nodes
    → Sinking n (dist nodes) k
    → Sifted n nodes (sift_down fuel nodes n k)
unfolding sift_down
sift_down-Sifted n zero nodes k enough lt inside r = absurd (omega arith)
sift_down-Sifted n (suc fuel) nodes k enough lt inside r = elim (Bool-cases (ltb (2 * k + 1) n)) [
  | inr leaf ↦
      let last : n ≤ 2 * k + 1 = ground arith in
      rw leaf (Sifted-same n nodes (sunk n (dist nodes) k (λ i lo hi lt'. absurd (omega arith)) r))
  | inl inner ↦
      let c = child_found nodes n k inside (ltb→lt (2 * k + 1) n inner) in
      let (a, at_a) = get_elem?-some nodes k (omega arith) in
      let (b, at_b) = get_elem?-some nodes c.child (omega (arith, c.inside)) in
      let da = dist-get_elem? nodes k a at_a in
      let db = dist-get_elem? nodes c.child b at_b in
      elim (Bool-cases (ltb b.distance a.distance)) [
        | inr placed ↦
            let le : a.distance ≤ b.distance = ground arith in
            rw (inner, c.returned, at_a, at_b, placed)
              (Sifted-same n nodes (
                sunk n (dist nodes) k
                  (λ i lo hi lt'. omega (arith, le, da, db, c.least i lo hi lt')) r))
        | inl far ↦
            let less : dist nodes c.child < dist nodes k =
              omega (arith, ltb→lt b.distance a.distance far, da, db) in
            let ne : k ≢ c.child = λ e. omega (arith, c.low) in
            let now = swap-Swapped n nodes k c.child a b inside at_a at_b ne lt c.inside in
            let same =
              swap_length nodes k c.child a b at_a at_b ne (omega arith)
                (omega (arith, c.inside)) in
            rw (inner, c.returned, at_a, at_b, far)
              (swap-Sifted n nodes k c.child a b inside at_a at_b ne lt c.inside (
                sift_down-Sifted n fuel (swap nodes k a c.child b) c.child (omega (arith, c.low))
                  c.inside (omega (arith, same))
                  (sinks n k c.child (dist nodes) (dist (swap nodes k a c.child b)) now c.low c.high
                    c.inside less c.least r)))
      ]
]
