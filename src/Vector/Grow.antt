-- ===== src/Vector/Grow.antt =====
-- A vector and the list of the values in it.
use bare_metal_architect.Prelude.{◌^◌, ◌≤◌, lt→ltb, append_assoc, append_nil, get_elem?-none}
use bare_metal_architect.Prelude.{
  ℕ, zero, suc, ◌+◌, ◌-◌, ◌*◌, ◌<◌, ◌≡◌, refl, sym, ap, ◌∙◌, ◌≢◌, inl, inr, Bool, true, false, ◌&&◌,
  none, some, List, [], ◌∷◌, ◌++◌, arith, ltb, leb, ◌==◌, if◌then◌else◌, Bool-cases, length,
  get_elem?, get_elem?-some, set, replicate, length-append, length-replicate, ℤ, pos, negsuc, done,
  exits, fault, ◌>>=◌, or_fault, index, dec_lt, ==_iff,
}
use bare_metal_architect.Arrays.{get_elem?-append, set-append}
use bare_metal_architect.Vector.{Vector, vector_create, resize_if_needed, vector_push, vector_get}

-- The block holds the values and then spare cells, as many together as the capacity.
pub record Holds (v : Vector) (values : List ℤ) : Type 0 where
  pub spare : List ℤ
  pub block : v.data' ≡ some (values ++ spare)
  pub sized : v.size ≡ length values
  pub capacious : v.capacity ≡ length values + length spare
  pub positive : 0 < v.capacity

-- The vector is full only as a push begins: after it there are the value more, and the capacity
-- is the old one or, where the vector was full, twice as much.
pub record Pushed (v : Vector) (values : List ℤ) (value : ℤ) (v' : Vector) : Type 0 where
  pub holds : Holds v' (values ++ (value ∷ []))
  pub grown : v'.capacity ≡ (if v.size == v.capacity then v.capacity * 2 else v.capacity)

-- The write behind the values, where there is a spare cell.
write :
    (v : Vector) (values : List ℤ) (value s : ℤ) (spare : List ℤ)
    → v.data' ≡ some (values ++ (s ∷ spare))
    → v.size ≡ length values
    → v.capacity ≡ length values + suc (length spare)
    → (v' : Vector) × ((do
      cells ← or_fault v.data'
      _ ← index cells v.size
      done (record v { data' = some (set cells v.size value); size = v.size + 1 }))
        ≡ done v')
      × Holds v' (values ++ (value ∷ []))
      × (v'.capacity ≡ v.capacity)
write v values value s spare block sized capacious = (
  record v { data' = some (values ++ (value ∷ spare)); size = v.size + 1 },
  rw (block, sized, get_elem?-append values s spare, set-append values s spare value) refl,
  record {
    spare = spare;
    block = ap some (sym (append_assoc values (value ∷ []) spare));
    sized = omega (arith, sized, length-append values (value ∷ []));
    capacious = omega (arith, capacious, length-append values (value ∷ []));
    positive = omega (arith, capacious);
  },
  refl,
)

-- A full block has twice as many cells after the realloc.
doubled :
    (values : List ℤ) (c : ℕ)
    → 0 < c
    → c ≡ length values
    → (s : ℤ) × (spare : List ℤ) × (values ++ replicate (c * 2 - length values) (pos 0)
        ≡ values ++ (s ∷ spare))
      × (c * 2 ≡ length values + suc (length spare))
doubled values c positive e =
    let one_more : c * 2 - length values ≡ suc (c - 1) = omega arith in
    (
      pos 0,
      replicate (c - 1) (pos 0),
      ap (λ n. values ++ replicate n (pos 0)) one_more,
      omega (arith, length-replicate (c - 1) (pos 0)),
    )

-- A push, with memory, to a vector of some capacity that holds values and that is not full unless
-- twice its capacity is an `int`: it returns a vector that holds the values with the new one behind
-- them, and whose capacity doubles where it was full.
pub vector_push-Pushed :
    (v : Vector) (values : List ℤ) (value : ℤ)
    → Holds v values
    → (v.size ≡ v.capacity → v.capacity * 2 < 2 ^ 31)
    → (v' : Vector) × (vector_push true v value ≡ done v') × Pushed v values value v'
unfolding vector_push resize_if_needed
vector_push-Pushed v values value h int_double = elim (Bool-cases (v.size == v.capacity)) [
  | inl full ↦
      let no_spare : h.spare ≡ [] =
        empty h.spare (omega (arith, h.sized, h.capacious, (==_iff v.size v.capacity).0 full)) in
      let same : v.data' ≡ some values =
        h.block ∙ ap (λ xs. some (values ++ xs)) no_spare ∙ ap some (append_nil values) in
      let (s, spare, cells, twice) =
        doubled values v.capacity h.positive (sym ((==_iff v.size v.capacity).0 full) ∙ h.sized) in
      let (v', run, holds, kept) =
        write
          (record v {
            capacity = v.capacity * 2;
            data' = some (values ++ replicate (v.capacity * 2 - length values) (pos 0));
          })
          values value s spare (ap some cells) h.sized twice in
      let fits : ltb (v.capacity * 2) (2 ^ 31) ≡ true =
        lt→ltb (v.capacity * 2) (2 ^ 31) (int_double ((==_iff v.size v.capacity).0 full)) in
      (v', rw (full, fits, same) run, record { holds = holds; grown = rw full kept })
  | inr room ↦
      let (s, spare, more) = some_spare h.spare (omega (arith, h.sized, h.capacious, apart room)) in
      let (v', run, holds, kept) =
        write v values value s spare (h.block ∙ ap (λ xs. some (values ++ xs)) more) h.sized
          (h.capacious ∙ ap (λ xs. length values + length xs) more) in
      (v', rw room run, record { holds = holds; grown = rw room kept })
]
  where
    empty : (xs : List ℤ) → length xs ≡ 0 → xs ≡ []
    empty [] e = refl
    empty (x ∷ xs) e = absurd (omega arith)

    some_spare : (xs : List ℤ) → length xs ≢ 0 → (s : ℤ) × (rest : List ℤ) × (xs ≡ s ∷ rest)
    some_spare [] ne = absurd (ne refl)
    some_spare (x ∷ xs) ne = (x, xs, refl)

    apart : (v.size == v.capacity) ≡ false → v.size ≢ v.capacity
    apart room e = cc ((==_iff v.size v.capacity).1 e, room)

prefix :
    (values spare : List ℤ) (i : ℕ)
    → i < length values
    → get_elem? (values ++ spare) i ≡ get_elem? values i
prefix [] spare i lt = absurd (omega arith)
prefix (v ∷ values) spare zero lt = refl
prefix (v ∷ values) spare (suc i) lt = prefix values spare i (omega arith)

-- A read of a vector that holds values: at the index of a value it returns it, at any other,
-- negative ones included, it ends the process.
pub vector_get_lem :
    (v : Vector) (values : List ℤ)
    → Holds v values
    → ((i : ℕ)
        → vector_get v (pos i) ≡ elim (get_elem? values i) [ none ↦ exits | some x ↦ done x ])
      × ((n : ℕ) → vector_get v (negsuc n) ≡ exits)
unfolding vector_get
vector_get_lem v values h = (at_index, negative)
  where
    at_index :
        (i : ℕ)
        → vector_get v (pos i) ≡ elim (get_elem? values i) [ none ↦ exits | some x ↦ done x ]
    at_index i = elim (dec_lt i (length values)) [
      | yes inside ↦
          let (x, there) = get_elem?-some values i inside in
          let low : ltb (i + 0) 0 ≡ false = ground arith in
          let high : leb (v.size + 0) (i + 0) ≡ false = ground (arith, h.sized) in
          rw (low, high, h.block, prefix values h.spare i inside, there) refl
      | no outside ↦
          let high : leb (v.size + 0) (i + 0) ≡ true = ground (arith, h.sized) in
          let low : ltb (i + 0) 0 ≡ false = ground arith in
          rw (low, high, get_elem?-none values i (omega arith)) refl
    ]

    negative : (n : ℕ) → vector_get v (negsuc n) ≡ exits
    negative n = let low : ltb 0 (0 + suc n) ≡ true = ground arith in rw low refl

-- A push to a full vector of which twice the capacity is no `int` overflows.
pub vector_push-overflows :
    (alloc : Bool) (v : Vector) (value : ℤ)
    → v.size ≡ v.capacity
    → 2 ^ 31 ≤ v.capacity * 2
    → vector_push alloc v value ≡ fault
unfolding vector_push resize_if_needed
vector_push-overflows alloc v value full high =
    let over : ltb (v.capacity * 2) (2 ^ 31) ≡ false = ground arith in
    rw ((==_iff v.size v.capacity).1 full, over) refl

-- The first push to a vector made with the capacity 0: twice nothing is nothing, and the write is
-- outside of the block.
pub vector_push-no_capacity :
    (structure block alloc : Bool) (value : ℤ)
    → (vector_create structure block 0 >>= λ v. vector_push alloc v value)
      ≡ (if structure && alloc then fault else exits)
unfolding vector_create vector_push resize_if_needed
vector_push-no_capacity false block alloc value = refl
vector_push-no_capacity true block false value = refl
vector_push-no_capacity true true true value = refl
vector_push-no_capacity true false true value = refl

-- A vector made with a capacity that is not 0 and with memory holds no values.
pub vector_create-Holds :
    (initial_capacity : ℕ)
    → 0 < initial_capacity
    → (v : Vector) × (vector_create true true initial_capacity ≡ done v) × Holds v []
unfolding vector_create
vector_create-Holds n positive = (
  record { data' = some (replicate n (pos 0)); size = 0; capacity = n },
  refl,
  record {
    spare = replicate n (pos 0);
    block = refl;
    sized = refl;
    capacious = omega (arith, length-replicate n (pos 0));
    positive = positive;
  },
)
