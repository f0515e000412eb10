-- ===== src/Circular.antt =====
-- Buffers whose indices wrap around, as the ring buffer and the thread pools use them: a row of
-- items stands in the cells of an array from a first cell on, around the end of the array.
use bare_metal_architect.Prelude.{
  ℕ, zero, suc, ◌+◌, ◌-◌, ◌%◌, ◌≤◌, ◌<◌, ◌≡◌, refl, sym, ap, ◌∙◌, ◌≢◌, ◌⊎◌, inl, inr, some, List,
  [], ◌∷◌, ◌++◌, arith, length, get_elem?, set, length-append, length-set, get_elem?-set_self,
  get_elem?-set_ne, Outcome, done, fault, dec_lt,
}
use native.Mathlib.Nat.{mod-eq_of_lt, mod-eq-sub-mod, mod-lt, mod-add-mod}
use bare_metal_architect.Arrays.{get_elem?-append}

-- `(i + 1) % capacity`, where a remainder by 0 is undefined.
unfoldable pub next : ℕ → ℕ → Outcome ℕ
next i zero = fault
next i (suc n) = done ((i + 1) % suc n)

pub next_lem : (i c : ℕ) → 0 < c → next i c ≡ done ((i + 1) % c)
unfolding next
next_lem i zero h = absurd (omega arith)
next_lem i (suc n) h = refl

-- Below 2 c a remainder by c is the number or the number minus c.
wrapped : (n c : ℕ) → n < c + c → ((n < c) × (n % c ≡ n)) ⊎ (n % c + c ≡ n)
wrapped n c lt = elim (dec_lt n c) [
  | yes small ↦ inl (small, mod-eq_of_lt small)
  | no large ↦
      let down : n % c ≡ (n - c) % c = mod-eq-sub-mod (omega arith) in
      let rest : (n - c) % c ≡ n - c = mod-eq_of_lt (omega arith) in inr (omega (arith, down, rest))
]

-- Two places of a row that is shorter than the buffer are apart.
places_apart : (first i j c : ℕ) → first < c → i < j → j < c → (first + j) % c ≢ (first + i) % c
places_apart first i j c t lt k e = elim (wrapped (first + i) c (omega arith)) [
  | inl (a, b) ↦ elim (wrapped (first + j) c (omega arith)) [
    | inl (a', b') ↦ omega arith
    | inr b' ↦ omega arith
  ]
  | inr b ↦ elim (wrapped (first + j) c (omega arith)) [
    | inl (a', b') ↦ omega arith
    | inr b' ↦ omega arith
  ]
]

module _ {A : Type 0} where
  get_elem?-append_left :
      (xs ys : List A) (i : ℕ) → i < length xs → get_elem? (xs ++ ys) i ≡ get_elem? xs i
  get_elem?-append_left [] ys i lt = absurd (omega arith)
  get_elem?-append_left (x ∷ xs) ys zero lt = refl
  get_elem?-append_left (x ∷ xs) ys (suc i) lt = get_elem?-append_left xs ys i (omega arith)

  -- The items stand in the buffer from the first cell on, around its end.
  pub record Row (buffer items : List A) (first : ℕ) : Type 0 where
    pub some_room : 0 < length buffer
    pub inside : first < length buffer
    pub fits : length items ≤ length buffer
    pub cells :
        (i : ℕ)
        → i < length items
        → get_elem? buffer ((first + i) % length buffer) ≡ get_elem? items i

  pub empty-Row : (buffer : List A) → 0 < length buffer → Row buffer [] 0
  empty-Row buffer h = record {
    some_room = h;
    inside = h;
    fits = omega arith;
    cells = λ i lt. absurd (omega arith);
  }

  module _ (buffer items : List A) (first : ℕ) (r : Row buffer items first) where
    -- The cell behind the last item.
    abbrev pub free : ℕ
    free = (first + length items) % length buffer

    pub free_inside : free < length buffer
    free_inside = mod-lt (first + length items) r.some_room

    grown-cells :
        (x : A) (i : ℕ)
        → length items < length buffer
        → i < length (items ++ (x ∷ []))
        → get_elem? (set buffer free x) ((first + i) % length buffer)
          ≡ get_elem? (items ++ (x ∷ [])) i
    grown-cells x i room lt = elim (dec_lt i (length items)) [
      | yes old ↦
          get_elem?-set_ne buffer free ((first + i) % length buffer) x
            (places_apart first i (length items) (length buffer) r.inside old room)
          ∙ r.cells i old
          ∙ sym (get_elem?-append_left items (x ∷ []) i old)
      | no last ↦
          let e : i ≡ length items = omega (arith, length-append items (x ∷ [])) in
          rw (e, get_elem?-append items x []) (get_elem?-set_self buffer free x free_inside)
    ]

    -- A write to the free cell adds an item at the end of the row.
    pub grown-Row :
        (x : A) → length items < length buffer → Row (set buffer free x) (items ++ (x ∷ [])) first
    grown-Row x room =
        let same = length-set buffer free x in
        record {
          some_room = omega (arith, same, r.some_room);
          inside = omega (arith, same, r.inside);
          fits = omega (arith, same, length-append items (x ∷ []));
          cells = λ i lt. rw same (grown-cells x i room lt);
        }

    -- The free cell of the longer row.
    pub free_next :
        (x : A) → (free + 1) % length buffer ≡ (first + length (items ++ (x ∷ []))) % length buffer
    free_next x =
        mod-add-mod (first + length items) (length buffer) 1
        ∙ ap (λ n. n % length buffer) (omega (arith, length-append items (x ∷ [])))

  module _ (buffer : List A) (x : A) (items : List A) (first : ℕ)
      (r : Row buffer (x ∷ items) first) where
    pub first_cell : get_elem? buffer first ≡ some x
    first_cell =
        ap (get_elem? buffer) (
          sym (
            mod-eq_of_lt {n = first + 0} {m = length buffer} (omega (arith, r.inside))
            ∙ omega arith))
        ∙ r.cells 0 (omega arith)

    -- The row without its first item starts one cell further.
    pub shrunk-Row : Row buffer items ((first + 1) % length buffer)
    shrunk-Row = record {
      some_room = r.some_room;
      inside = mod-lt (first + 1) r.some_room;
      fits = omega (arith, r.fits);
      cells = λ i lt. rw (mod-add-mod (first + 1) (length buffer) i) (
          ap (λ n. get_elem? buffer (n % length buffer)) (omega arith)
          ∙ r.cells (suc i) (omega arith));
    }

    -- Its free cell stays.
    pub free_stays :
        ((first + 1) % length buffer + length items) % length buffer
        ≡ (first + length (x ∷ items)) % length buffer
    free_stays =
        mod-add-mod (first + 1) (length buffer) (length items)
        ∙ ap (λ n. n % length buffer) (omega arith)
