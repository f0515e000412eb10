-- ===== src/Compaction/Tests.antt =====
-- The arrays and the string of the three programs.
use bare_metal_architect.Prelude.{
  ℕ, ◌-◌, ◌≡◌, refl, List, [], ◌∷◌, ◌++◌, length, replicate, take, ℤ, pos, done, ◌>>=◌,
}
use bare_metal_architect.Compaction.{
  is_zero, gather, fill_zeroes, move_zeroes, unique, remove_duplicates,
}
use bare_metal_architect.Compaction.Filters.{others, move_zeroes_lem}
use bare_metal_architect.Compaction.Runs.{runs, remove_duplicates_lem}

abbrev with_zeroes : List ℤ
with_zeroes = pos 0 ∷ pos 1 ∷ pos 0 ∷ pos 3 ∷ pos 12 ∷ []

zeroes_moved : move_zeroes with_zeroes 5 ≡ done (pos 1 ∷ pos 3 ∷ pos 12 ∷ pos 0 ∷ pos 0 ∷ [])
unfolding move_zeroes gather fill_zeroes
zeroes_moved = refl

move_zeroes_lem_example :
    move_zeroes with_zeroes 5
    ≡ done
        (others is_zero with_zeroes ++ replicate (5 - length (others is_zero with_zeroes)) (pos 0))
move_zeroes_lem_example = move_zeroes_lem with_zeroes

abbrev with_runs : List ℤ
with_runs = pos 4 ∷ pos 5 ∷ pos 5 ∷ pos 6 ∷ pos 6 ∷ pos 7 ∷ []

runs_removed :
    (remove_duplicates with_runs 6 >>= λ r. done (take r.1 r.0))
    ≡ done (pos 4 ∷ pos 5 ∷ pos 6 ∷ pos 7 ∷ [])
unfolding remove_duplicates unique
runs_removed = refl

remove_duplicates_lem_example :
    (nums' : List ℤ) × (r : ℕ) × (remove_duplicates with_runs 6 ≡ done (nums', r))
    × (take r nums' ≡ runs with_runs)
    × (length with_runs ≡ 0 → r ≡ 1)
remove_duplicates_lem_example = remove_duplicates_lem with_runs
