-- ===== src/Printer/Tests.antt =====
-- The messages of the `main` of queue.c.
use bare_metal_architect.Prelude.{
  ◌≡◌, refl, true, List, [], ◌∷◌, length, replicate, done, exits, ◌>>=◌,
}
use bare_metal_architect.Arrays.{shift_left}
use bare_metal_architect.Text.{Text, codes}
use bare_metal_architect.Printer.{Printer, enqueue, dequeue, print_queue, rows}
use bare_metal_architect.Printer.Order.{Holds, Enqueued, enqueue-Enqueued, dequeue-next}

abbrev made : Printer
made = record { messages = replicate 5 []; size = 0; capacity = 5 }

abbrev hello : Text
hello = codes "Hello World!"

abbrev ciao : Text
ciao = codes "Ciao Mondo!"

abbrev with_hello : Printer
with_hello = record made { messages = hello ∷ replicate 4 []; size = 1 }

with_hello-Holds : Holds with_hello (hello ∷ [])
with_hello-Holds = record {
  behind = replicate 4 [];
  in_rows = refl;
  sized = refl;
  five = refl;
  capacity = refl;
}

-- The first of two messages comes out, and the second waits.
first_out :
    (enqueue with_hello ciao >>= λ p. dequeue true p >>= λ r. print_queue (r.0)) ≡ done (ciao ∷ [])
unfolding enqueue dequeue shift_left print_queue rows
first_out = refl

enqueue-Enqueued_example : Enqueued (hello ∷ []) ciao (enqueue with_hello ciao)
enqueue-Enqueued_example = enqueue-Enqueued with_hello (hello ∷ []) ciao with_hello-Holds

dequeue-next_example :
    (length (hello ∷ []) ≡ 0 → dequeue true with_hello ≡ exits)
    × ((msn : Text) (rest : List Text)
        → hello ∷ [] ≡ msn ∷ rest
        → (p' : Printer) × (dequeue true with_hello ≡ done (p', msn)) × Holds p' rest)
dequeue-next_example = dequeue-next true with_hello (hello ∷ []) with_hello-Holds
