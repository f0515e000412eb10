-- ===== src/BubbleSort/Tests.antt =====
-- The deck of bubble_sort.c.
use bare_metal_architect.Prelude.{◌≡◌, refl, true, Option, some, List, [], ◌∷◌, arith, pos, done}
use bare_metal_architect.Text.{codes}
use bare_metal_architect.BubbleSort.{LegendsCard, init_deck, bubble_sort_cards}
use bare_metal_architect.BubbleSort.Sorted.{Sorts, bubble_sort_cards-Sorts}

abbrev almalexia : LegendsCard
almalexia = record { name = codes "Almalexia"; magicka_cost = pos 10 }

abbrev vivec : LegendsCard
vivec = record { name = codes "Vivec"; magicka_cost = pos 5 }

abbrev stalker : LegendsCard
stalker = record { name = codes "Barrow Stalcker"; magicka_cost = pos 2 }

abbrev deck : List LegendsCard
deck = almalexia ∷ vivec ∷ stalker ∷ []

made : init_deck (λ n. true) ≡ done deck
unfolding init_deck
made = refl

sorted : bubble_sort_cards 4 deck 3 ≡ done (some (stalker ∷ vivec ∷ almalexia ∷ []))
unfolding bubble_sort_cards
sorted = refl

bubble_sort_cards-Sorts_example :
    (r : Option (List LegendsCard)) × (bubble_sort_cards 10 deck 3 ≡ done r) × Sorts deck r
bubble_sort_cards-Sorts_example = bubble_sort_cards-Sorts 10 deck (omega arith) (omega arith)
