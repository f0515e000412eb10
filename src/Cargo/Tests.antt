-- ===== src/Cargo/Tests.antt =====
-- cargo.c at the first containers of its `main`.
use bare_metal_architect.Prelude.{
  ℕ, ◌+◌, ◌≡◌, refl, Bool, true, none, some, [], ◌∷◌, arith, All, done, ◌>>=◌,
}
use bare_metal_architect.Text.{codes}
use bare_metal_architect.Bytes.{extract_right, combine, extract_left}
use bare_metal_architect.Cargo.{
  Text, Container, mat_bio, CargoQueue, CargoBay, inspect, prepare, enqueue, init_cargo_queue,
}
use bare_metal_architect.Arrays.{pointers}
use bare_metal_architect.Cargo.Queue.{Holds}
use bare_metal_architect.Cargo.Rails.{IsValid, IsLabelled, drain, drain_lem, on_rails, inspections}

abbrev always : ℕ → Bool
always n = true

-- BIOEN-0 with readings 9 and 6, inspected, and BIOEN-4 with readings 1 and 0, in quarantine.
abbrev healthy : Container
healthy = record { tracking_code = codes "BIOEN-0"; container_material = 0x96; container_state = 2 }

abbrev lifeless : Container
lifeless = record {
  tracking_code = codes "BIOEN-4";
  container_material = 0x10;
  container_state = 8;
}

abbrev waiting : CargoQueue
waiting = record {
  places =
      some healthy ∷ some lifeless ∷ none ∷ none ∷ none ∷ none ∷ none ∷ none ∷ none ∷ none ∷ [];
  size = 2;
}

abbrev bare : CargoBay
bare = record { rails = [] ∷ [] ∷ [] ∷ [] ∷ []; rails_count = 4 }

waiting-Holds : Holds waiting (healthy ∷ lifeless ∷ [])
unfolding pointers
waiting-Holds = record { cells = refl; sized = refl; fits = omega arith }

bare-IsValid : IsValid bare
bare-IsValid = omega arith

labelled : All IsLabelled (healthy ∷ lifeless ∷ [])
labelled = omega arith

fills :
    (init_cargo_queue true >>= λ q.
    enqueue always 0x55 0x33 q (codes "BIOEN-0") mat_bio 9 6 >>= λ r.
    enqueue always 0xFF 0x33 r (codes "BIOEN-4") mat_bio 1 0)
    ≡ done waiting
unfolding init_cargo_queue enqueue inspect prepare extract_left combine extract_right
fills = refl

drain_lem_example :
    (q' : CargoQueue) × (bay' : CargoBay) × (drain always 2 waiting bare ≡ done (q', bay'))
    × Holds q' []
    × IsValid bay'
    × ((test : Text → ℕ → Bool)
        → on_rails test bay'.rails
          ≡ on_rails test bare.rails + inspections test (healthy ∷ lifeless ∷ []))
drain_lem_example =
    drain_lem always refl refl (healthy ∷ lifeless ∷ []) waiting bare waiting-Holds bare-IsValid
      labelled
