-- ===== src/Reconcile/Extract.antt =====
-- One step of an extracting thread.
use bare_metal_architect.Prelude.{length, append_assoc, append_nil, get_elem?-none}
use Prim.Native.Nat.{bit_or}
use bare_metal_architect.Prelude.{
  ℕ, zero, suc, ◌+◌, ◌%◌, ◌≤◌, ◌<◌, ◌≡◌, refl, sym, ap, ◌∙◌, Bool, true, false, none, some, [], ◌∷◌,
  ◌++◌, arith, ltb, if◌then◌else◌, get_elem?, set, done, exits, ◌>>=◌, ◌>>◌, dec_lt, lt→ltb,
}
use bare_metal_architect.Ensures.{Ensures, returns, ended}
use native.Mathlib.Nat.{mod-eq_of_lt}
use bare_metal_architect.Arrays.{get_elem?-append, set-append}
use bare_metal_architect.Bytes.{bit}
use bare_metal_architect.Chains.{linked, linked-eq-append}
use bare_metal_architect.Text.{str_eq}
use bare_metal_architect.Reconcile.{
  DataSource, check_allocation, validate_ds_code, set_metadata, add_data, extract_and_process,
  Phase, entering, adding, marking, extracted, pd,
}
use bare_metal_architect.Reconcile.Stages.{
  Side, snowflake, anaplan, name, mark, packet, packets, source, Stage, enters, adds, marks, ends,
  packets-snoc, length-packets,
}

-- Whether the thread has announced its source.
abbrev pub announced : Phase → ℕ
announced entering = 0
announced (adding i) = 0
announced (marking k) = 0
announced extracted = 1

-- A step keeps the stage of its source, and counts the announcement.
pub record Advanced (side : Side) (q : ℕ) (phase : Phase) (state : ℕ) (r : DataSource × Phase × ℕ)
    : Type 0 where
  pub stage : Stage side q r.0 r.1
  pub counted : r.2 + announced phase ≡ state + announced r.1
  pub further : announced phase ≤ announced r.1

added :
    (side : Side) (i : ℕ)
    → linked (packets side false 0 i) (packet side false i) ≡ packets side false 0 (suc i)
added side i =
    linked-eq-append (packets side false 0 i) (packet side false i)
    ∙ ap (λ k. packets side false 0 i ++ (packet side false k ∷ [])) (omega arith)
    ∙ packets-snoc side false 0 i

add_data_lem :
    (side : Side) (alloc : Bool) (i : ℕ)
    → i < 100
    → add_data alloc (source side (packets side false 0 i) i) i pd set_metadata
      ≡ (if alloc then done (source side (packets side false 0 (suc i)) (suc i)) else exits)
unfolding add_data check_allocation validate_ds_code set_metadata str_eq
add_data_lem side alloc i lt =
    let next : (i + 1) % 4294967296 ≡ suc i =
      mod-eq_of_lt {n = i + 1} {m = 4294967296} (omega arith) ∙ omega arith in
    let room : ltb 100 (suc i) ≡ false = ground arith in rw (next, room) (at_side side alloc)
  where
    at_side :
        (side : Side) (alloc : Bool)
        → (do
          check_allocation alloc pd
          from ← validate_ds_code (name side)
          node ← set_metadata (record { cc_code = i; metadata = 0 }) from
          done (source side (linked (packets side false 0 i) node) (suc i)))
          ≡ (if alloc then done (source side (packets side false 0 (suc i)) (suc i)) else exits)
    at_side snowflake true = ap (λ nodes. done (source snowflake nodes (suc i))) (added snowflake i)
    at_side snowflake false = refl
    at_side anaplan true = ap (λ nodes. done (source anaplan nodes (suc i))) (added anaplan i)
    at_side anaplan false = refl

ready_value :
    (side : Side) (k : ℕ)
    → record (packet side false k) { metadata = bit_or (mark side false) (bit 7) }
      ≡ packet side true k
ready_value snowflake k = refl
ready_value anaplan k = refl

module _ (side : Side) (q state : ℕ) (small : state < 255) where
  adding-Advanced :
      (alloc : Bool) (i : ℕ)
      → i ≤ q
      → q ≤ 100
      → Ensures
          (Advanced side q (adding i) state)
          (extract_and_process alloc q (source side (packets side false 0 i) i) (adding i) state)
  unfolding extract_and_process
  adding-Advanced alloc i le few = elim (dec_lt i q) [
    | yes lt ↦
        let low : i % 256 ≡ i = mod-eq_of_lt {n = i} {m = 256} (omega arith) in
        rw (lt→ltb i q lt, low, add_data_lem side alloc i (omega arith)) (after alloc (omega arith))
    | no over ↦
        let stop : ltb i q ≡ false = ground arith in
        let all : i ≡ q = omega arith in
        rw (stop, all)
          (returns (source side (packets side false 0 q) q, marking 0, state)
            (record { stage = marks 0 q (omega arith) few; counted = refl; further = omega arith }))
  ]
    where
      after :
          (alloc : Bool)
          → suc i ≤ q
          → Ensures (Advanced side q (adding i) state) (
              (if alloc then done (source side (packets side false 0 (suc i)) (suc i)) else exits)
              >>= λ more. done (more, adding (suc i), state))
      after true more =
          returns (source side (packets side false 0 (suc i)) (suc i), adding (suc i), state)
            (record { stage = adds (suc i) more few; counted = refl; further = omega arith })
      after false more = ended

  marking-Advanced :
      (alloc : Bool) (k n : ℕ)
      → k + n ≡ q
      → q ≤ 100
      → Ensures (Advanced side q (marking k) state) (
          extract_and_process alloc q
            (source side (packets side true 0 k ++ packets side false k n) q)
            (marking k)
            state)
  unfolding extract_and_process
  marking-Advanced alloc k zero e few =
      let all : packets side true 0 k ++ [] ≡ packets side true 0 q =
        append_nil (packets side true 0 k) ∙ ap (packets side true 0) (omega arith) in
      let none_left : get_elem? (packets side true 0 q) k ≡ none =
        ap (get_elem? (packets side true 0 q)) (omega (arith, length-packets side true 0 q))
        ∙ get_elem?-none (packets side true 0 q) (length (packets side true 0 q)) (omega arith) in
      rw (all, none_left)
        (returns (source side (packets side true 0 q) q, extracted, (state + 1) % 256)
          (record { stage = ends few; counted = omega arith; further = omega arith }))
  marking-Advanced alloc k (suc n) e few =
      let ready = packets side true 0 k in
      let rest = packets side false (suc k) n in
      let here : get_elem? (ready ++ (packet side false k ∷ rest)) k ≡ some (packet side false k) =
        ap (get_elem? (ready ++ (packet side false k ∷ rest))) (sym (length-packets side true 0 k))
        ∙ get_elem?-append ready (packet side false k) rest in
      let changed : set (ready ++ (packet side false k ∷ rest)) k (packet side true k)
          ≡ packets side true 0 (suc k) ++ rest =
        ap (λ i. set (ready ++ (packet side false k ∷ rest)) i (packet side true k))
          (sym (length-packets side true 0 k))
        ∙ set-append ready (packet side false k) rest (packet side true k)
        ∙ sym (append_assoc ready (packet side true k ∷ []) rest)
        ∙ ap (λ i. (ready ++ (packet side true i ∷ [])) ++ rest) (omega arith)
        ∙ ap (λ xs. xs ++ rest) (packets-snoc side true 0 k) in
      rw (here, ready_value side k, changed)
        (returns (source side (packets side true 0 (suc k) ++ rest) q, marking (suc k), state)
          (record {
            stage = marks (suc k) n (omega arith) few;
            counted = refl;
            further = omega arith;
          }))

pub extract-Advanced :
    (side : Side) (alloc : Bool) (q state : ℕ) (data' : DataSource) (phase : Phase)
    → state < 255
    → Stage side q data' phase
    → Ensures (Advanced side q phase state) (extract_and_process alloc q data' phase state)
unfolding extract_and_process
extract-Advanced side alloc q state _ _ small enters = elim (dec_lt 100 q) [
  | yes many ↦ rw (lt→ltb 100 q many) ended
  | no few ↦
      let stop : ltb 100 q ≡ false = ground arith in
      rw stop (
        returns (source side [] 0, adding 0, state)
          (record {
            stage = adds 0 (omega arith) (omega arith);
            counted = refl;
            further = omega arith;
          }))
]
extract-Advanced side alloc q state _ _ small (adds i le few) =
    adding-Advanced side q state small alloc i le few
extract-Advanced side alloc q state _ _ small (marks k n e few) =
    marking-Advanced side q state small alloc k n e few
extract-Advanced side alloc q state _ _ small (ends few) =
    returns (source side (packets side true 0 q) q, extracted, state)
      (record { stage = ends few; counted = refl; further = omega arith })
