-- ===== src/Reversal/Tests.antt =====
-- The string and the array of the two programs.
use bare_metal_architect.Prelude.{◌≡◌, refl, done}
use bare_metal_architect.Text.{Text, codes}
use bare_metal_architect.Reversal.{swap, reverse_string_p, from_both, reverse_string, reverse_array}
use bare_metal_architect.Reversal.Ends.{reversed}
use bare_metal_architect.Reversal.Loops.{reversals_agree}

abbrev name : Text
name = codes "Valerio"

turned_round : reverse_string name ≡ done (codes "oirelaV")
unfolding reverse_string from_both swap
turned_round = refl

reversals_agree_example :
    (reverse_string_p name ≡ done (reversed name))
    × (reverse_string name ≡ done (reversed name))
    × (reverse_array name 7 ≡ done (reversed name))
reversals_agree_example = reversals_agree name
