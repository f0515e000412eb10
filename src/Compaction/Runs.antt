-- ===== src/Compaction/Runs.antt =====
-- One element of each run of equal ones: remove_duplicates.
use bare_metal_architect.Prelude.{append_assoc, take-append}
use bare_metal_architect.Prelude.{
  ℕ, zero, suc, ◌+◌, ◌-◌, ◌≡◌, refl, ap, ◌∙◌, inl, inr, some, List, [], ◌∷◌, ◌++◌, arith,
  if◌then◌else◌, Bool-cases, length, get_elem?, take, length-append, ℤ, done,
}
use bare_metal_architect.Arrays.{get_elem?-append}
use bare_metal_architect.Compaction.{eq_ℤ, unique, remove_duplicates}
use bare_metal_architect.Compaction.Window.{Window, next-read, skipped-Window, kept-Window}

-- What follows an element: each element that is not the one kept before it.
abbrev pub runs_after : ℤ → List ℤ → List ℤ
runs_after y [] = []
runs_after y (x ∷ xs) = if eq_ℤ x y then runs_after y xs else x ∷ runs_after x xs

-- One element of each run of equal elements.
abbrev pub runs : List ℤ → List ℤ
runs [] = []
runs (x ∷ xs) = x ∷ runs_after x xs

-- The element kept last stands before the write index.
last-kept :
    (nums out rest : List ℤ) (y : ℤ) (fs sw : ℕ)
    → Window nums (out ++ (y ∷ [])) rest fs (suc sw)
    → get_elem? nums sw ≡ some y
last-kept nums out rest y fs sw w =
    ap (get_elem? nums) (omega (arith, w.to_write, length-append out (y ∷ [])))
    ∙ ap (λ xs. get_elem? xs (length out)) (w.split ∙ append_assoc out (y ∷ []) (w.between ++ rest))
    ∙ get_elem?-append out y (w.between ++ rest)

unique-Window :
    (n : ℕ) (nums out rest : List ℤ) (y : ℤ) (fs sw : ℕ)
    → n ≡ length rest
    → Window nums (out ++ (y ∷ [])) rest fs (suc sw)
    → (nums' : List ℤ) × (fs' : ℕ) × (sw' : ℕ) × (unique nums n fs sw ≡ done (nums', sw'))
      × Window nums' (out ++ (y ∷ runs_after y rest)) [] fs' (suc sw')
unfolding unique
unique-Window zero nums out [] y fs sw e w = (nums, fs, sw, refl, w)
unique-Window zero nums out (x ∷ rest) y fs sw e w = absurd (omega arith)
unique-Window (suc n) nums out [] y fs sw e w = absurd (omega arith)
unique-Window (suc n) nums out (x ∷ rest) y fs sw e w =
    let seen = next-read nums (out ++ (y ∷ [])) rest x fs (suc sw) w in
    let last = last-kept nums out (x ∷ rest) y fs sw w in
    elim (Bool-cases (eq_ℤ x y)) [
      | inl same ↦
          let (nums', fs', sw', run, w') =
            unique-Window n nums out rest y (suc fs) sw (omega arith)
              (skipped-Window nums (out ++ (y ∷ [])) rest x fs (suc sw) w) in
          let back : suc sw - 1 ≡ sw = omega arith in
          (nums', fs', sw', rw (seen, last, same, back) run, rw same w')
      | inr apart ↦
          let (more, write, grown) = kept-Window nums (out ++ (y ∷ [])) rest x fs (suc sw) w in
          let (nums', fs', sw', run, w') =
            unique-Window n more (out ++ (y ∷ [])) rest x (suc fs) (suc sw) (omega arith) grown in
          let back : suc (suc sw) - 1 ≡ suc sw = omega arith in
          (
            nums',
            fs',
            sw',
            rw (seen, last, apart, write, back) run,
            rw apart (rw (append_assoc out (y ∷ []) (x ∷ runs_after x rest)) at w'),
          )
    ]

-- remove_duplicates of numbers and their count: the first elements of the array, as many as it
-- returns, are one of each run of equal numbers; of no numbers it returns 1.
pub remove_duplicates_lem :
    (nums : List ℤ)
    → (nums' : List ℤ) × (r : ℕ) × (remove_duplicates nums (length nums) ≡ done (nums', r))
      × (take r nums' ≡ runs nums)
      × (length nums ≡ 0 → r ≡ 1)
unfolding remove_duplicates unique
remove_duplicates_lem [] = ([], 1, refl, refl, λ e. refl)
remove_duplicates_lem (x ∷ rest) =
    let one : Window (x ∷ rest) ([] ++ (x ∷ [])) rest 1 1 = record {
      between = [];
      split = refl;
      to_write = refl;
      to_read = refl;
    } in
    let (nums', fs', sw', run, w) =
      unique-Window (suc (length rest) - 1) (x ∷ rest) [] rest x 1 0 (omega arith) one in
    let count : sw' + 1 ≡ length (x ∷ runs_after x rest) = omega (arith, w.to_write) in
    (
      nums',
      sw' + 1,
      rw run refl,
      ap (λ n. take n nums') count
          ∙ ap (take (length (x ∷ runs_after x rest))) w.split
          ∙ take-append (x ∷ runs_after x rest) (w.between ++ []),
      λ e. absurd (omega arith),
    )
