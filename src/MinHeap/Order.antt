-- ===== src/MinHeap/Order.antt =====
-- The order of a heap, and the two ways in which one node may break it while it moves.
use bare_metal_architect.Prelude.{
  ℕ, zero, suc, ◌+◌, ◌*◌, ◌/◌, ◌≤◌, ◌<◌, ◌≡◌, ap, ◌≢◌, arith, ℕ_discrete,
}

module _ (n : ℕ) (d : ℕ → ℕ) where
  -- No node among the first n is nearer than its parent; the children of p are 2 p + 1 and 2 p + 2.
  pub record IsHeap : Type 0 where
    pub above : (p i : ℕ) → 2 * p + 1 ≤ i → i ≤ 2 * p + 2 → i < n → d p ≤ d i

  -- The same but for the node k and its parent; the children of k are in order with that parent.
  pub record Rising (k : ℕ) : Type 0 where
    pub but_here : (p i : ℕ) → 2 * p + 1 ≤ i → i ≤ 2 * p + 2 → i < n → i ≢ k → d p ≤ d i
    pub around :
        (p i : ℕ)
        → 2 * p + 1 ≤ k
        → k ≤ 2 * p + 2
        → 2 * k + 1 ≤ i
        → i ≤ 2 * k + 2
        → i < n
        → d p ≤ d i

  -- The same but for the node k and its children.
  pub record Sinking (k : ℕ) : Type 0 where
    pub but_here : (p i : ℕ) → 2 * p + 1 ≤ i → i ≤ 2 * p + 2 → i < n → p ≢ k → d p ≤ d i
    pub around :
        (p i : ℕ)
        → 2 * p + 1 ≤ k
        → k ≤ 2 * p + 2
        → 2 * k + 1 ≤ i
        → i ≤ 2 * k + 2
        → i < n
        → d p ≤ d i

  pub risen_root : Rising 0 → IsHeap
  risen_root r = record { above = λ p i lo hi lt. r.but_here p i lo hi lt (λ e. omega arith) }

  pub risen : (k q : ℕ) → 2 * q + 1 ≤ k → k ≤ 2 * q + 2 → d q ≤ d k → Rising k → IsHeap
  risen k q l h le r = record {
    above = λ p i lo hi lt. elim (ℕ_discrete i k) [
      | yes e ↦ let same : p ≡ q = omega arith in omega (arith, le, ap d e, ap d same)
      | no ne ↦ r.but_here p i lo hi lt ne
    ];
  }

  pub sunk :
      (k : ℕ) → ((i : ℕ) → 2 * k + 1 ≤ i → i ≤ 2 * k + 2 → i < n → d k ≤ d i) → Sinking k → IsHeap
  sunk k below r = record {
    above = λ p i lo hi lt. elim (ℕ_discrete p k) [
      | yes e ↦ omega (arith, ap d e, below i (omega (arith, lo, e)) (omega (arith, hi, e)) lt)
      | no ne ↦ r.but_here p i lo hi lt ne
    ];
  }

-- Two nodes change their places.
pub record Swapped (k j : ℕ) (d d' : ℕ → ℕ) : Type 0 where
  pub first : d' k ≡ d j
  pub second : d' j ≡ d k
  pub others : (i : ℕ) → i ≢ k → i ≢ j → d' i ≡ d i

module _ (n k q : ℕ) (d d' : ℕ → ℕ) (s : Swapped k q d d') (l : 2 * q + 1 ≤ k) (h : k ≤ 2 * q + 2)
    (less : d k < d q) (r : Rising n d k) where
  rises_but : (p i : ℕ) → 2 * p + 1 ≤ i → i ≤ 2 * p + 2 → i < n → i ≢ q → d' p ≤ d' i
  rises_but p i lo hi lt ne = elim (ℕ_discrete i k) [
    | yes e ↦
        let same : p ≡ q = omega arith in
        omega (arith, less, s.first, s.second, ap d' e, ap d' same)
    | no ne' ↦ elim (ℕ_discrete p k) [
      | yes e ↦ omega (
        arith,
        s.first,
        ap d' e,
        s.others i ne' ne,
        r.around q i l h (omega (arith, lo, e)) (omega (arith, hi, e)) lt,
      )
      | no pk ↦ elim (ℕ_discrete p q) [
        | yes e ↦
            omega (
              arith,
              less,
              s.second,
              ap d' e,
              ap d e,
              s.others i ne' ne,
              r.but_here p i lo hi lt ne',
            )
        | no pq ↦ omega (arith, s.others p pk pq, s.others i ne' ne, r.but_here p i lo hi lt ne')
      ]
    ]
  ]

  rises_around :
      (p i : ℕ)
      → 2 * p + 1 ≤ q
      → q ≤ 2 * p + 2
      → 2 * q + 1 ≤ i
      → i ≤ 2 * q + 2
      → k < n
      → i < n
      → d' p ≤ d' i
  rises_around p i lp hp lo hi kn lt =
      let high : d' p ≡ d p = s.others p (λ e. omega arith) (λ e. omega arith) in
      let up : d p ≤ d q = r.but_here p q lp hp (omega arith) (λ e. omega arith) in
      elim (ℕ_discrete i k) [
        | yes e ↦ omega (arith, high, up, s.first, ap d' e)
        | no ne ↦
            omega (arith, high, up, s.others i ne (λ e. omega arith), r.but_here q i lo hi lt ne)
      ]

  -- A node nearer than its parent rises to its place.
  pub rises : k < n → Rising n d' q
  rises kn = record {
    but_here = rises_but;
    around = λ p i lp hp lo hi lt. rises_around p i lp hp lo hi kn lt;
  }

module _ (n k c : ℕ) (d d' : ℕ → ℕ) (s : Swapped k c d d') (l : 2 * k + 1 ≤ c) (h : c ≤ 2 * k + 2)
    (inside : c < n) (less : d c < d k)
    (least : (i : ℕ) → 2 * k + 1 ≤ i → i ≤ 2 * k + 2 → i < n → d c ≤ d i) (r : Sinking n d k) where
  sinks_but : (p i : ℕ) → 2 * p + 1 ≤ i → i ≤ 2 * p + 2 → i < n → p ≢ c → d' p ≤ d' i
  sinks_but p i lo hi lt ne = elim (ℕ_discrete p k) [
    | yes e ↦ elim (ℕ_discrete i c) [
      | yes e' ↦ omega (arith, less, s.first, s.second, ap d' e, ap d' e')
      | no ic ↦ omega (
        arith,
        s.first,
        ap d' e,
        s.others i (λ x. omega arith) ic,
        least i (omega (arith, lo, e)) (omega (arith, hi, e)) lt,
      )
    ]
    | no pk ↦
        let high : d' p ≡ d p = s.others p pk ne in
        elim (ℕ_discrete i k) [
          | yes e ↦ omega (
            arith,
            high,
            s.first,
            ap d' e,
            r.around p c (omega (arith, lo, e)) (omega (arith, hi, e)) l h inside,
          )
          | no ik ↦
              let ic : i ≢ c = λ e. pk (omega arith) in
              omega (arith, high, s.others i ik ic, r.but_here p i lo hi lt pk)
        ]
  ]

  -- A node farther than its nearest child sinks to its place.
  pub sinks : Sinking n d' c
  sinks = record {
    but_here = sinks_but;
    around = λ p i lp hp lo hi lt.
        let same : p ≡ k = omega arith in
        omega (
          arith,
          ap d' same,
          s.first,
          s.others i (λ e. omega arith) (λ e. omega arith),
          r.but_here c i lo hi lt (λ e. omega arith),
        );
  }

-- The root of a heap is the nearest node.
pub root_least : (n : ℕ) (d : ℕ → ℕ) → IsHeap n d → (fuel i : ℕ) → i ≤ fuel → i < n → d 0 ≤ d i
root_least n d h fuel zero le lt = omega arith
root_least n d h zero (suc i) le lt = absurd (omega arith)
root_least n d h (suc fuel) (suc i) le lt =
    let up = h.above (i / 2) (suc i) (omega arith) (omega arith) lt in
    omega (arith, up, root_least n d h fuel (i / 2) (omega arith) (omega arith))
