-- ===== src/Compaction/Filters.antt =====
-- The elements that pass a test, in order: move_zeroes and strip_vowels.
use bare_metal_architect.Prelude.{append_assoc, append_nil, take-append}
use bare_metal_architect.Prelude.{
  ℕ, zero, suc, ◌+◌, ◌-◌, ◌≡◌, refl, sym, ap, ◌∙◌, inl, inr, Bool, List, [], ◌∷◌, ◌++◌, arith,
  if◌then◌else◌, Bool-cases, length, replicate, take, length-append, ℤ, pos, done,
}
use bare_metal_architect.Arrays.{get_elem?-append, set-append}
use bare_metal_architect.Text.{Text}
use bare_metal_architect.Compaction.{
  is_zero, gather, fill_zeroes, move_zeroes, is_vowel, strip_vowels,
}
use bare_metal_architect.Compaction.Window.{
  Window, whole-Window, next-read, skipped-Window, kept-Window,
}

-- The elements that are not left out.
abbrev pub others : {A : Type 0} → (A → Bool) → List A → List A
others left_out [] = []
others left_out (x ∷ xs) = if left_out x then others left_out xs else x ∷ others left_out xs

gather-Window :
    {A : Type 0} (left_out : A → Bool) (n : ℕ) (nums out rest : List A) (fs sw : ℕ)
    → n ≡ length rest
    → Window nums out rest fs sw
    → (nums' : List A) × (fs' : ℕ) × (sw' : ℕ) × (gather left_out nums n fs sw ≡ done (nums', sw'))
      × (fs' ≡ n + fs)
      × Window nums' (out ++ others left_out rest) [] fs' sw'
unfolding gather
gather-Window left_out zero nums out [] fs sw e w =
    (nums, fs, sw, refl, omega arith, rw (append_nil out) w)
gather-Window left_out zero nums out (x ∷ rest) fs sw e w = absurd (omega arith)
gather-Window left_out (suc n) nums out [] fs sw e w = absurd (omega arith)
gather-Window left_out (suc n) nums out (x ∷ rest) fs sw e w = elim (Bool-cases (left_out x)) [
  | inl off ↦
      let (nums', fs', sw', run, all, w') =
        gather-Window left_out n nums out rest (suc fs) sw (omega arith)
          (skipped-Window nums out rest x fs sw w) in
      (
        nums',
        fs',
        sw',
        rw (next-read nums out rest x fs sw w, off) run,
        omega (arith, all),
        rw off w',
      )
  | inr kept ↦
      let (more, write, grown) = kept-Window nums out rest x fs sw w in
      let (nums', fs', sw', run, all, w') =
        gather-Window left_out n more (out ++ (x ∷ [])) rest (suc fs) (suc sw) (omega arith)
          grown in
      (
        nums',
        fs',
        sw',
        rw (next-read nums out rest x fs sw w, kept, write) run,
        omega (arith, all),
        rw kept (rw (append_assoc out (x ∷ []) (others left_out rest)) at w'),
      )
]

fill_zeroes_lem :
    (out between : List ℤ)
    → fill_zeroes (out ++ between) (length between) (length out)
      ≡ done (out ++ replicate (length between) (pos 0))
unfolding fill_zeroes
fill_zeroes_lem out [] = refl
fill_zeroes_lem out (j ∷ between) =
    rw (get_elem?-append out j between, set-append out j between (pos 0))
      (ap (λ xs. fill_zeroes xs (length between) (suc (length out)))
          (sym (append_assoc out (pos 0 ∷ []) between))
        ∙ ap (fill_zeroes ((out ++ (pos 0 ∷ [])) ++ between) (length between))
            (omega (arith, length-append out (pos 0 ∷ [])))
        ∙ fill_zeroes_lem (out ++ (pos 0 ∷ [])) between
        ∙ ap done (append_assoc out (pos 0 ∷ []) (replicate (length between) (pos 0))))

-- move_zeroes of numbers and their count gives the numbers other than 0 in order, and then as many
-- zeroes as there were.
pub move_zeroes_lem :
    (nums : List ℤ)
    → move_zeroes nums (length nums)
      ≡ done (others is_zero nums ++ replicate (length nums - length (others is_zero nums)) (pos 0))
unfolding move_zeroes
move_zeroes_lem nums =
    let (nums', fs', sw', run, all, w) =
      gather-Window is_zero (length nums) nums [] nums 0 0 refl (whole-Window nums) in
    let out = others is_zero nums in
    let rest : length nums - sw' ≡ length w.between = omega (arith, all, w.to_read, w.to_write) in
    let zeroes : length w.between ≡ length nums - length out = omega (arith, all, w.to_read) in
    rw run (
      ap (λ n. fill_zeroes nums' n sw') rest
      ∙ ap (fill_zeroes nums' (length w.between)) w.to_write
      ∙ ap (λ xs. fill_zeroes xs (length w.between) (length out))
          (w.split ∙ ap (◌++◌ out) (append_nil w.between))
      ∙ fill_zeroes_lem out w.between
      ∙ ap (λ n. done (out ++ replicate n (pos 0))) zeroes)

-- strip_vowels gives the bytes of the string that are not vowels, in order.
pub strip_vowels_lem : (str : Text) → strip_vowels str ≡ done (others is_vowel str)
unfolding strip_vowels
strip_vowels_lem str =
    let (str', fs', sw', run, all, w) =
      gather-Window is_vowel (length str) str [] str 0 0 refl (whole-Window str) in
    rw run (
      ap (λ xs. done (take sw' xs)) w.split
      ∙ ap (λ n. done (take n (others is_vowel str ++ (w.between ++ [])))) w.to_write
      ∙ ap done (take-append (others is_vowel str) (w.between ++ [])))
