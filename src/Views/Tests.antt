-- ===== src/Views/Tests.antt =====
-- The four requests of the `main` of prod_cons.c.
use bare_metal_architect.Prelude.{
  ℕ, ◌-◌, ◌%◌, ◌≤◌, ◌<◌, ◌≡◌, refl, ◌≢◌, ◌↔◌, Bool, true, false, some, [], ◌∷◌, replicate, done,
  fault,
}
use bare_metal_architect.Text.{Text, codes, IsAscii, hash_function, hash_uint8, str_eq}
use bare_metal_architect.Views.{
  verify_view, Processor, init_processor, add_view, consume_from, consume_any, System, adds, posts,
  waits, started, Reach, here, then_step,
}
use bare_metal_architect.Views.Verify.{IsView, verify_view-IsView}
use bare_metal_architect.Views.Balance.{Balanced, reached-Balanced}

abbrev always : ℕ → Bool
always k = true

abbrev empty : Processor
empty = record { list = replicate 4 []; capacity = 4; size = 0 }

abbrev logs : Text
logs = codes "logs_view"

logs_known : verify_view logs ≡ done true
unfolding verify_view hash_uint8 hash_function str_eq
logs_known = refl

unknown : verify_view (codes "any") ≡ done false
unfolding verify_view hash_uint8 hash_function str_eq
unknown = refl

abbrev one_view : Processor
one_view = record { list = [] ∷ [] ∷ [] ∷ (logs ∷ []) ∷ []; capacity = 4; size = 1 }

one_added : add_view true true empty logs verify_view ≡ done (one_view, true)
unfolding add_view verify_view hash_uint8 hash_function str_eq
one_added = refl

one_consumed : consume_any one_view ≡ done (empty, some logs)
unfolding consume_any consume_from
one_consumed = refl

abbrev waiting : System
waiting = record {
  processor = one_view;
  tokens = 0;
  posting = 0;
  holding = 1;
  added = logs ∷ [];
  consumed = [];
}

-- One view is added and posted, and a consumer has passed the semaphore.
one_waiting : Reach (started empty) waiting
one_waiting =
    then_step (then_step (then_step here (adds true true logs one_view one_added)) (posts 0 refl))
      (waits 0 refl)

empty_made : init_processor always ≡ done empty
unfolding init_processor
empty_made = refl

reached-Balanced_example :
    Balanced waiting
    × (0 < 1 → (p' : Processor) × (v : Text) × (consume_any one_view ≡ done (p', some v)))
reached-Balanced_example = reached-Balanced always empty waiting empty_made one_waiting

verify_view-IsView_example :
    (IsAscii logs → (b : Bool) × (verify_view logs ≡ done b) × ((b ≡ true) ↔ IsView logs))
    × ((c : ℕ) → logs ≡ c ∷ [] → 128 ≤ c → c < 256 → (256 - c) % 4 ≢ 0 → verify_view logs ≡ fault)
verify_view-IsView_example = verify_view-IsView logs
