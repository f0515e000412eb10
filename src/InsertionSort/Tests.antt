-- ===== src/InsertionSort/Tests.antt =====
-- The deck of insertion_sort.c.
use bare_metal_architect.Prelude.{ℕ, ◌≡◌, refl, Bool, true, [], ◌∷◌, done}
use bare_metal_architect.Text.{codes}
use bare_metal_architect.InsertionSort.{Card, add_all}

abbrev almalexia : Card
almalexia = record { name = codes "Almalexia"; cost = 10 }

abbrev vivec : Card
vivec = record { name = codes "Vivec"; cost = 5 }

abbrev stalker : Card
stalker = record { name = codes "Barrow Stalker"; cost = 2 }

abbrev always : ℕ → Bool
always n = true

sorted :
    add_all always (almalexia ∷ []) (vivec ∷ stalker ∷ []) ≡ done (stalker ∷ vivec ∷ almalexia ∷ [])
unfolding add_all
sorted = refl
