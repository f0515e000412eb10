-- ===== src/Cargo/Rails.antt =====
-- The rails: which containers are loaded, and in which state they stand there.
use mathlib.Core.Option.{some-injective}
use bare_metal_architect.Prelude.{
  ap, some, get_elem?, ℕ, zero, suc, ◌+◌, ◌%◌, ◌≡◌, refl, ◌∙◌, inl, inr, Bool, true, List, [], ◌∷◌,
  arith, if◌then◌else◌, Bool-cases, length, set, All, length-set, Outcome, done, ◌>>=◌,
}
use bare_metal_architect.Prelude.{All-set, All-get_elem?}
use bare_metal_architect.Text.{Text, IsAscii, sum, hash_uint8, hash_uint8-eq-sum}
use bare_metal_architect.Bytes.{has_bit}
use bare_metal_architect.Chains.{append_tail, All-append_tail}
use bare_metal_architect.Tables.{bucket_of}
use bare_metal_architect.Cargo.{
  Container, CargoQueue, CargoBay, cargo_rails_capacity, tc_size, inspected_idx, place_on, load,
  dequeue,
}
use bare_metal_architect.Cargo.Queue.{Holds, dequeue_lem}

-- On a rail the first container was inspected, and all behind it are ready for departure.
abbrev pub RailReady : List Container → Type 0
RailReady [] = Unit
RailReady (c ∷ cs) =
    (has_bit c.container_state inspected_idx ≡ true) × All (λ d. d.container_state ≡ 128) cs

pub record IsValid (bay : CargoBay) : Type 0 where
  pub railed : length bay.rails ≡ cargo_rails_capacity
  pub ready : All RailReady bay.rails

-- A label of seven ASCII characters.
pub record IsLabelled (c : Container) : Type 0 where
  pub ascii : IsAscii c.tracking_code
  pub seven : length c.tracking_code ≡ tc_size

place_on-RailReady :
    (chain : List Container) (c : Container)
    → RailReady chain
    → has_bit c.container_state inspected_idx ≡ true
    → RailReady (place_on chain c)
unfolding place_on append_tail
place_on-RailReady [] c r h = (h, tt)
place_on-RailReady (head ∷ rest) c r h =
    (r.0, All-append_tail (λ d. d.container_state ≡ 128) rest _ r.1 refl)

-- How many of the containers have a tracking code and a material that pass the test.
pub matching : (Text → ℕ → Bool) → List Container → ℕ
matching test [] = 0
matching test (c ∷ cs) =
    (if test c.tracking_code c.container_material then 1 else 0) + matching test cs

-- The same on all rails.
pub on_rails : (Text → ℕ → Bool) → List (List Container) → ℕ
on_rails test [] = 0
on_rails test (rail ∷ rails) = matching test rail + on_rails test rails

matching-append_tail :
    (test : Text → ℕ → Bool) (xs : List Container) (c : Container)
    → matching test (append_tail xs c) ≡ matching test (c ∷ xs)
unfolding matching append_tail
matching-append_tail test [] c = refl
matching-append_tail test (x ∷ xs) c = omega (arith, matching-append_tail test xs c)

matching-place_on :
    (test : Text → ℕ → Bool) (chain : List Container) (c : Container)
    → matching test (place_on chain c) ≡ matching test (c ∷ chain)
unfolding place_on matching
matching-place_on test [] c = refl
matching-place_on test (head ∷ rest) c =
    matching-append_tail test (head ∷ rest) (record c { container_state = 128 })

on_rails-set :
    (test : Text → ℕ → Bool) (rails : List (List Container)) (i : ℕ) (old new : List Container)
    → get_elem? rails i ≡ some old
    → on_rails test (set rails i new) + matching test old ≡ on_rails test rails + matching test new
unfolding on_rails
on_rails-set test [] i old new e = absurd (cc)
on_rails-set test (rail ∷ rails) zero old new e =
    omega (arith, ap (matching test) (some-injective rail old e))
on_rails-set test (rail ∷ rails) (suc i) old new e =
    omega (arith, on_rails-set test rails i old new e)

-- `main` empties the queue by as many calls as it made to fill it.
pub drain : (ℕ → Bool) → ℕ → CargoQueue → CargoBay → Outcome (CargoQueue × CargoBay)
drain alloc zero q bay = done (q, bay)
drain alloc (suc n) q bay = do r ← dequeue q bay (load alloc); drain alloc n r.0 r.1

-- How many of the inspected containers have a tracking code and a material that pass the test.
pub inspections : (Text → ℕ → Bool) → List Container → ℕ
inspections test [] = 0
inspections test (c ∷ cs) =
    (if has_bit c.container_state inspected_idx then matching test (c ∷ []) else 0)
    + inspections test cs

module _ (alloc : ℕ → Bool) (a0 : alloc 0 ≡ true) (a1 : alloc 1 ≡ true) where
  -- `load` of a labelled container, its allocations granted: one that was not inspected is
  -- discarded; an inspected one is one container more on the rails, which stay ready.
  pub load_lem :
      (bay : CargoBay) (c : Container)
      → IsValid bay
      → IsLabelled c
      → (bay' : CargoBay) × (load alloc bay c ≡ done bay')
        × IsValid bay'
        × ((test : Text → ℕ → Bool)
            → on_rails test bay'.rails
              ≡ on_rails test bay.rails
                + (if has_bit c.container_state inspected_idx then matching test (c ∷ []) else 0))
  unfolding load matching
  load_lem bay c v l =
      let (chain, at) =
        bucket_of (λ (d : Container). d.tracking_code) cargo_rails_capacity bay.rails
          c.tracking_code v.railed (omega arith) in
      let idx : ℕ = sum c.tracking_code % cargo_rails_capacity in
      let hash : hash_uint8 c.tracking_code cargo_rails_capacity ≡ done idx =
        hash_uint8-eq-sum c.tracking_code cargo_rails_capacity l.ascii (omega arith)
          (omega arith) in
      elim (Bool-cases (has_bit c.container_state inspected_idx)) [
        | inl ok ↦ (
          record bay { rails = set bay.rails idx (place_on chain c) },
          rw (l.seven, a0, a1, hash, ok, at) refl,
          record {
            railed = length-set bay.rails idx (place_on chain c) ∙ v.railed;
            ready = All-set RailReady bay.rails idx (place_on chain c) v.ready (
                place_on-RailReady chain c (All-get_elem? RailReady bay.rails idx chain v.ready at)
                  ok);
          },
          λ test. rw ok (
              omega (
                arith,
                on_rails-set test bay.rails idx chain (place_on chain c) at,
                matching-place_on test chain c,
              )),
        )
        | inr discarded ↦
            (bay, rw (l.seven, a0, a1, hash, discarded) refl, v, λ test. rw discarded (omega arith))
      ]

  -- A queue of labelled containers that is emptied into a valid bay, every allocation granted: no
  -- call faults or ends the process, and the queue is empty. For every test on the tracking code and
  -- the material, as many containers on the rails pass it as before and of the inspected ones of the
  -- queue together, so that none is lost, doubled or exchanged and none that was not inspected is
  -- loaded. On each rail the first container keeps its inspected state, and all
  -- behind it are in the state of departure.
  pub drain_lem :
      (cs : List Container) (q : CargoQueue) (bay : CargoBay)
      → Holds q cs
      → IsValid bay
      → All IsLabelled cs
      → (q' : CargoQueue) × (bay' : CargoBay) × (drain alloc (length cs) q bay ≡ done (q', bay'))
        × Holds q' []
        × IsValid bay'
        × ((test : Text → ℕ → Bool)
            → on_rails test bay'.rails ≡ on_rails test bay.rails + inspections test cs)
  unfolding drain inspections
  drain_lem [] q bay h v l = (q, bay, refl, h, v, λ test. omega arith)
  drain_lem (c ∷ cs) q bay h v l =
      let (bay', loaded, v', more) = load_lem bay c v l.0 in
      let (q', returned, h') = dequeue_lem q bay bay' (load alloc) c cs h loaded in
      let (q'', bay'', rest, h'', v'', all) = drain_lem cs q' bay' h' v' l.1 in
      (q'', bay'', rw (returned, rest) refl, h'', v'', λ test. omega (arith, more test, all test))
