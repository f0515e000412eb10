-- ===== src/Views/Lists.antt =====
-- One addition to the lists, and one removal.
use bare_metal_architect.Prelude.{
  ℕ, zero, suc, ◌+◌, ◌%◌, ◌≤◌, ◌<◌, ◌≡◌, refl, sym, ap, ◌∙◌, ◌≢◌, ◌⊎◌, inl, inr, Bool, true, false,
  some, List, [], ◌∷◌, ◌++◌, arith, ltb, ◌==◌, if◌then◌else◌, Bool-cases, Option-cases, length,
  get_elem?, get_elem?-some, set, drop, get_elem?-set_self, get_elem?-set_ne, Outcome, done, ◌>>=◌,
  ◌>>◌, index, ℕ_discrete, ltb→lt,
}
use bare_metal_architect.Prelude.{done_injective, total, bind-done, All-get_elem?}
use mathlib.Core.Option.{some-injective}
use bare_metal_architect.Chains.{linked, linked-eq-append}
use bare_metal_architect.Text.{Text, codes, hash_uint8, hash_uint8-eq-sum, IsAscii, sum}
use bare_metal_architect.Views.{
  db_views, verify_view, Processor, not_null, add_view, consume_from, consume_any,
}
use bare_metal_architect.Views.Verify.{IsView, verify_view-known}

-- The list of a view.
abbrev pub bucket : Text → ℕ
bucket view = sum view % 4

-- The views of one list among all views.
abbrev pub of_bucket : ℕ → List Text → List Text
of_bucket i [] = []
of_bucket i (view ∷ rest) = if bucket view == i then view ∷ of_bucket i rest else of_bucket i rest

pub of_bucket-append :
    (i : ℕ) (xs ys : List Text) → of_bucket i (xs ++ ys) ≡ of_bucket i xs ++ of_bucket i ys
of_bucket-append i [] ys = refl
of_bucket-append i (x ∷ xs) ys = elim (Bool-cases (bucket x == i)) [
  | inl same ↦ rw same (ap (◌∷◌ x) (of_bucket-append i xs ys))
  | inr apart ↦ rw apart (of_bucket-append i xs ys)
]

pub bucket_self : (i : ℕ) (v : Text) → bucket v ≡ i → of_bucket i (v ∷ []) ≡ v ∷ []
bucket_self i v e = let same : (bucket v == i) ≡ true = ground arith in rw same refl

pub bucket_other : (i : ℕ) (v : Text) → bucket v ≢ i → of_bucket i (v ∷ []) ≡ []
bucket_other i v ne = let apart : (bucket v == i) ≡ false = ground arith in rw apart refl

-- The node of a view is put at the end of its list.
pub record Added (p p' : Processor) (v : Text) : Type 0 where
  pub items : List Text
  pub before : get_elem? p.list (bucket v) ≡ some items
  pub after : p'.list ≡ set p.list (bucket v) (items ++ (v ∷ []))
  pub counted : p'.size ≡ (p.size + 1) % 256

-- The first node of a list is removed.
pub record Removed (p p' : Processor) (v : Text) : Type 0 where
  pub i : ℕ
  pub rest : List Text
  pub before : get_elem? p.list i ≡ some (v ∷ rest)
  pub after : p'.list ≡ set p.list i rest
  pub counted : p'.size ≡ (p.size + 255) % 256

all_ascii : Text → Bool
all_ascii [] = true
all_ascii (c ∷ rest) = if ltb c 128 then all_ascii rest else false

all_ascii→IsAscii : (t : Text) → all_ascii t ≡ true → IsAscii t
unfolding all_ascii
all_ascii→IsAscii [] e = tt
all_ascii→IsAscii (c ∷ rest) e = elim (Bool-cases (ltb c 128)) [
  | inl low ↦ (ltb→lt c 128 low, all_ascii→IsAscii rest (rw low at e))
  | inr high ↦ absurd (cc (rw high at e))
]

view_hash : (v : Text) → IsView v → hash_uint8 v 4 ≡ done (bucket v)
unfolding all_ascii
view_hash v (i, there) =
    hash_uint8-eq-sum v 4
      (All-get_elem? IsAscii db_views i v
        (
          all_ascii→IsAscii (codes "users_view") refl,
          (
            all_ascii→IsAscii (codes "orders_view") refl,
            (
              all_ascii→IsAscii (codes "inventory_view") refl,
              (all_ascii→IsAscii (codes "logs_view") refl, tt),
            ),
          ),
        )
        there)
      (omega arith) (omega arith)

module _ (node copy : Bool) (p p' : Processor) (v : Text) where
  abbrev insert : Outcome (Processor × Bool)
  insert = do
    not_null node
    not_null copy
    list_idx ← hash_uint8 v 4
    list ← index p.list list_idx
    done (record p { list = set p.list list_idx (linked list v); size = (p.size + 1) % 256 }, true)

  insert-Added : IsView v → insert ≡ done (p', true) → Added p p' v
  insert-Added known e =
      let (_, _, e1) = bind-done (not_null node) _ (p', true) e in
      let (_, _, e2) = bind-done (not_null copy) _ (p', true) e1 in
      let (list, there, e3) =
        bind-done (index p.list (bucket v)) _ (p', true) (rw (view_hash v known) at e2) in
      let same = ap (λ r. r.0) (done_injective e3) in
      record {
        items = list;
        before = cell list there;
        after = sym (ap (λ q. q.list) same) ∙ ap (set p.list (bucket v)) (linked-eq-append list v);
        counted = sym (ap (λ q. q.size) same);
      }
    where
      cell :
          (list : List Text)
          → index p.list (bucket v) ≡ done list
          → get_elem? p.list (bucket v) ≡ some list
      cell list h = elim (Option-cases (get_elem? p.list (bucket v))) [
        | inl missing ↦ absurd (cc (missing, h))
        | inr (xs, there) ↦ there ∙ ap some (done_injective (rw there at h))
      ]

  pub add_view-Added : add_view node copy p v verify_view ≡ done (p', true) → Added p p' v
  unfolding add_view
  add_view-Added e =
      let (b, known, rest) = bind-done (verify_view v) _ (p', true) e in
      elim (Bool-cases b) [
        | inl yes_view ↦
            insert-Added (verify_view-known v (known ∙ ap done yes_view)) (rw yes_view at rest)
        | inr no_view ↦ absurd (cc (ap (λ r. r.1) (done_injective (rw no_view at rest))))
      ]

  pub add_view-refused : add_view node copy p v verify_view ≡ done (p', false) → p ≡ p'
  unfolding add_view
  add_view-refused e =
      let (b, known, rest) = bind-done (verify_view v) _ (p', false) e in
      elim (Bool-cases b) [
        | inl yes_view ↦ absurd (not_refused (rw yes_view at rest))
        | inr no_view ↦ ap (λ r. r.0) (done_injective (rw no_view at rest))
      ]
    where
      not_refused : insert ≡ done (p', false) → ⊥
      not_refused h =
          let (_, _, e1) = bind-done (not_null node) _ (p', false) h in
          let (_, _, e2) = bind-done (not_null copy) _ (p', false) e1 in
          let (i, _, e3) = bind-done (hash_uint8 v 4) _ (p', false) e2 in
          let (list, _, e4) = bind-done (index p.list i) _ (p', false) e3 in
          cc (ap (λ r. r.1) (done_injective e4))

total-drop :
    (lists : List (List Text)) (i : ℕ) (items : List Text)
    → get_elem? lists i ≡ some items
    → total (drop i lists) ≡ length items + total (drop (suc i) lists)
total-drop [] i items e = absurd (cc)
total-drop (xs ∷ rest) zero items e = omega (arith, ap length (some-injective xs items e))
total-drop (xs ∷ rest) (suc i) items e = total-drop rest i items e

no_more : (lists : List (List Text)) (i : ℕ) → length lists ≤ i → total (drop i lists) ≡ 0
no_more [] zero le = refl
no_more [] (suc i) le = refl
no_more (xs ∷ rest) zero le = absurd (omega arith)
no_more (xs ∷ rest) (suc i) le = no_more rest i (omega arith)

-- Where one of the `n` lists from `i` on has a view, the first of them that has one gives its first.
consume_from_lem :
    (n i : ℕ) (p : Processor)
    → n + i ≡ length p.list
    → 0 < total (drop i p.list)
    → (p' : Processor) × (v : Text) × (consume_from n i p ≡ done (p', some v)) × Removed p p' v
unfolding consume_from
consume_from_lem zero i p e some_view = absurd (omega (arith, no_more p.list i (omega arith)))
consume_from_lem (suc n) i p e some_view =
    let (items, there) = get_elem?-some p.list i (omega arith) in
    rw there
      (at_list (λ more. consume_from_lem n (suc i) p (omega arith) more) items there some_view)
  where
    at_list :
        (0 < total (drop (suc i) p.list)
          → (p' : Processor) × (v : Text) × (consume_from n (suc i) p ≡ done (p', some v))
            × Removed p p' v)
        → (items : List Text) → get_elem? p.list i ≡ some items
        → 0 < total (drop i p.list)
        → (p' : Processor) × (v : Text) × ((elim items [
          | [] ↦ consume_from n (suc i) p
          | current ∷ rest ↦
              done
                (record p { list = set p.list i rest; size = (p.size + 255) % 256 }, some current)
        ])
            ≡ done (p', some v))
          × Removed p p' v
    at_list later [] there more = later (omega (arith, total-drop p.list i [] there))
    at_list later (v ∷ rest) there more = (
      record p { list = set p.list i rest; size = (p.size + 255) % 256 },
      v,
      refl,
      record { i = i; rest = rest; before = there; after = refl; counted = refl },
    )

pub consume_any_lem :
    (p : Processor)
    → length p.list ≡ 4
    → 0 < total p.list
    → (p' : Processor) × (v : Text) × (consume_any p ≡ done (p', some v)) × Removed p p' v
unfolding consume_any
consume_any_lem p four some_view = consume_from_lem 4 0 p (omega arith) some_view

pub set_cell :
    (lists : List (List Text)) (k i : ℕ) (new items : List Text)
    → k < length lists
    → get_elem? (set lists k new) i ≡ some items
    → ((i ≡ k) × (new ≡ items)) ⊎ ((i ≢ k) × (get_elem? lists i ≡ some items))
set_cell lists k i new items lt e = elim (ℕ_discrete i k) [
  | yes same ↦
      let there = get_elem?-set_self lists k new lt in
      inl (
        same,
        some-injective new items (sym there ∙ ap (get_elem? (set lists k new)) (sym same) ∙ e),
      )
  | no apart ↦ inr (apart, sym (get_elem?-set_ne lists k i new (λ h. apart (sym h))) ∙ e)
]
