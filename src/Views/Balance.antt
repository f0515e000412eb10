-- ===== src/Views/Balance.antt =====
-- The lists, the semaphore and the threads together.
use bare_metal_architect.Prelude.{append_assoc, append_nil}
use bare_metal_architect.Prelude.{
  ℕ, zero, suc, ◌+◌, ◌%◌, ◌<◌, ◌≡◌, refl, sym, ap, ◌∙◌, inl, inr, Bool, some, List, [], ◌∷◌, ◌++◌,
  arith, length, get_elem?, replicate, All, length-append, length-set, done, granted,
}
use bare_metal_architect.Prelude.{done_injective, total, total-set, bind-done, subst}
use native.Mathlib.Nat.{mod-add-mod}
use mathlib.Core.Option.{some-injective}
use bare_metal_architect.Text.{Text}
use bare_metal_architect.Views.{
  Processor, not_null, make_lists, init_processor, consume_any, System, printed, Step, adds,
  refuses, posts, waits, consumes, started, Reach, here, then_step,
}
use bare_metal_architect.Views.Lists.{
  bucket, of_bucket, of_bucket-append, bucket_self, bucket_other, Added, Removed, add_view-Added,
  add_view-refused, consume_any_lem, set_cell,
}

-- The views of the lists are counted by the semaphore and by the threads between a post or a wait
-- and the lists, and by the size modulo 256; each list holds, in the order of the additions, those of
-- its views that were added and not yet consumed.
pub record Balanced (s : System) : Type 0 where
  pub four : length s.processor.list ≡ 4
  pub balance : s.posting + s.tokens + s.holding ≡ total s.processor.list
  pub sized : s.processor.size ≡ total s.processor.list % 256
  pub placed :
      (i : ℕ) (items : List Text)
      → get_elem? s.processor.list i ≡ some items
      → All (λ v. bucket v ≡ i) items
  pub order :
      (i : ℕ) (items : List Text)
      → get_elem? s.processor.list i ≡ some items
      → of_bucket i s.added ≡ of_bucket i s.consumed ++ items

All-append :
    (Q : Text → Type 0) (xs : List Text) (v : Text) → All Q xs → Q v → All Q (xs ++ (v ∷ []))
All-append Q [] v h q = (q, tt)
All-append Q (x ∷ xs) v h q = (h.0, All-append Q xs v h.1 q)

some_cell :
    (lists : List (List Text)) (i : ℕ) (items : List Text)
    → get_elem? lists i ≡ some items
    → i < length lists
some_cell [] i items e = absurd (cc)
some_cell (xs ∷ rest) zero items e = omega arith
some_cell (xs ∷ rest) (suc i) items e = omega (arith, some_cell rest i items e)

module _ (s : System) (p : Processor) (v : Text) (b : Balanced s) where
  module _ (a : Added s.processor p v) where
    grown_order :
        (i : ℕ) (items : List Text)
        → get_elem? p.list i ≡ some items
        → of_bucket i (s.added ++ (v ∷ [])) ≡ of_bucket i s.consumed ++ items
    grown_order i items e =
        elim (set_cell s.processor.list (bucket v) i (a.items ++ (v ∷ [])) items
          (some_cell s.processor.list (bucket v) a.items a.before) (rw (sym a.after) e)) [
            | inl (same, new) ↦
                of_bucket-append i s.added (v ∷ [])
                ∙ ap (◌++◌ (of_bucket i s.added)) (bucket_self i v (sym same))
                ∙ ap (λ xs. xs ++ (v ∷ []))
                    (b.order i a.items (ap (get_elem? s.processor.list) same ∙ a.before))
                ∙ append_assoc (of_bucket i s.consumed) a.items (v ∷ [])
                ∙ ap (◌++◌ (of_bucket i s.consumed)) new
            | inr (apart, old) ↦
                of_bucket-append i s.added (v ∷ [])
                ∙ ap (◌++◌ (of_bucket i s.added)) (bucket_other i v (λ h. apart (sym h)))
                ∙ append_nil (of_bucket i s.added)
                ∙ b.order i items old
          ]

    grown_placed :
        (i : ℕ) (items : List Text)
        → get_elem? p.list i ≡ some items
        → All (λ u. bucket u ≡ i) items
    grown_placed i items e =
        elim (set_cell s.processor.list (bucket v) i (a.items ++ (v ∷ [])) items
          (some_cell s.processor.list (bucket v) a.items a.before) (rw (sym a.after) e)) [
            | inl (same, new) ↦ subst (All (λ u. bucket u ≡ i)) new (
                All-append (λ u. bucket u ≡ i) a.items v
                  (b.placed i a.items (ap (get_elem? s.processor.list) same ∙ a.before)) (sym same))
            | inr (apart, old) ↦ b.placed i items old
          ]

    grown_total : total p.list ≡ total s.processor.list + 1
    grown_total =
        ap total a.after
        ∙ omega (
          arith,
          total-set s.processor.list (bucket v) a.items (a.items ++ (v ∷ [])) a.before,
          length-append a.items (v ∷ []),
        )

    added-Balanced :
        Balanced (record s { processor = p; posting = s.posting + 1; added = s.added ++ (v ∷ []) })
    added-Balanced = record {
      four = ap length a.after ∙ length-set s.processor.list _ _ ∙ b.four;
      balance = omega (arith, b.balance, grown_total);
      sized =
          a.counted
          ∙ ap (λ n. (n + 1) % 256) b.sized
          ∙ mod-add-mod (total s.processor.list) 256 1
          ∙ ap (λ n. n % 256) (sym grown_total);
      placed = grown_placed;
      order = grown_order;
    }

  module _ (r : Removed s.processor p v) where
    at_i : All (λ u. bucket u ≡ r.i) (v ∷ r.rest)
    at_i = b.placed r.i (v ∷ r.rest) r.before

    shrunk_order :
        (i : ℕ) (items : List Text)
        → get_elem? p.list i ≡ some items
        → of_bucket i s.added ≡ of_bucket i (s.consumed ++ (v ∷ [])) ++ items
    shrunk_order i items e =
        elim (set_cell s.processor.list r.i i r.rest items
          (some_cell s.processor.list r.i (v ∷ r.rest) r.before) (rw (sym r.after) e)) [
            | inl (same, new) ↦
                b.order i (v ∷ r.rest) (ap (get_elem? s.processor.list) same ∙ r.before)
                ∙ ap (λ xs. of_bucket i s.consumed ++ (v ∷ xs)) new
                ∙ sym (append_assoc (of_bucket i s.consumed) (v ∷ []) items)
                ∙ ap (λ xs. (of_bucket i s.consumed ++ xs) ++ items)
                    (sym (bucket_self i v (at_i.0 ∙ sym same)))
                ∙ ap (λ xs. xs ++ items) (sym (of_bucket-append i s.consumed (v ∷ [])))
            | inr (apart, old) ↦
                b.order i items old
                ∙ ap (λ xs. xs ++ items)
                    (sym (append_nil (of_bucket i s.consumed))
                      ∙ ap (◌++◌ (of_bucket i s.consumed))
                          (sym (bucket_other i v (λ h. apart (sym h ∙ at_i.0))))
                      ∙ sym (of_bucket-append i s.consumed (v ∷ [])))
          ]

    shrunk_placed :
        (i : ℕ) (items : List Text)
        → get_elem? p.list i ≡ some items
        → All (λ u. bucket u ≡ i) items
    shrunk_placed i items e =
        elim (set_cell s.processor.list r.i i r.rest items
          (some_cell s.processor.list r.i (v ∷ r.rest) r.before) (rw (sym r.after) e)) [
            | inl (same, new) ↦
                subst (All (λ u. bucket u ≡ i)) new
                  (subst (λ k. All (λ u. bucket u ≡ k) r.rest) (sym same) at_i.1)
            | inr (apart, old) ↦ b.placed i items old
          ]

    shrunk_total : total p.list + 1 ≡ total s.processor.list
    shrunk_total =
        ap (λ l. total l + 1) r.after
        ∙ omega (arith, total-set s.processor.list r.i (v ∷ r.rest) r.rest r.before)

    removed-Balanced :
        (n : ℕ)
        → s.holding ≡ suc n
        → Balanced (record s { processor = p; holding = n; consumed = s.consumed ++ (v ∷ []) })
    removed-Balanced n h = record {
      four = ap length r.after ∙ length-set s.processor.list _ _ ∙ b.four;
      balance = omega (arith, b.balance, shrunk_total);
      sized = r.counted ∙ ap (λ k. (k + 255) % 256) b.sized ∙ omega (arith, shrunk_total);
      placed = shrunk_placed;
      order = shrunk_order;
    }

-- A consumer that has passed the semaphore finds a view.
token-finds :
    (s : System)
    → Balanced s
    → 0 < s.holding
    → (p : Processor) × (v : Text) × (consume_any s.processor ≡ done (p, some v))
      × Removed s.processor p v
token-finds s b some_token =
    consume_any_lem s.processor b.four (omega (arith, b.balance, some_token))

step-Balanced : (s s' : System) → Step s s' → Balanced s → Balanced s'
step-Balanced s _ (adds node copy v p e) b =
    added-Balanced s p v b (add_view-Added node copy s.processor p v e)
step-Balanced s _ (refuses node copy v p e) b =
    subst (λ q. Balanced (record s { processor = q }))
      (add_view-refused node copy s.processor p v e) b
step-Balanced s _ (posts n e) b = record {
  four = b.four;
  balance = omega (arith, b.balance, e);
  sized = b.sized;
  placed = b.placed;
  order = b.order;
}
step-Balanced s _ (waits n e) b = record {
  four = b.four;
  balance = omega (arith, b.balance, e);
  sized = b.sized;
  placed = b.placed;
  order = b.order;
}
step-Balanced s _ (consumes n p view e run) b =
    let (p', v, run', removed) = token-finds s b (omega (arith, e)) in
    let same : (p', some v) ≡ (p, view) = done_injective (sym run' ∙ run) in
    subst
      (λ r.
        Balanced
          (record s { processor = r.0; holding = n; consumed = s.consumed ++ printed (r.1) }))
      same (removed-Balanced s p' v b removed n e)

lists_empty :
    (alloc : ℕ → Bool) (n i : ℕ) (lists : List (List Text))
    → make_lists alloc n i ≡ done lists
    → replicate n [] ≡ lists
lists_empty alloc zero i lists e = done_injective e
lists_empty alloc (suc n) i lists e =
    let (_, _, e1) = bind-done (not_null (alloc i)) _ lists e in
    let (rest, made, e2) = bind-done (make_lists alloc n (suc i)) _ lists e1 in
    ap (◌∷◌ []) (lists_empty alloc n (suc i) rest made) ∙ done_injective e2

empty_cell : (n i : ℕ) (items : List Text) → get_elem? (replicate n []) i ≡ some items → [] ≡ items
empty_cell zero i items e = absurd (cc)
empty_cell (suc n) zero items e = some-injective [] items e
empty_cell (suc n) (suc i) items e = empty_cell n i items e

empty-Balanced : Balanced (started (record { list = replicate 4 []; capacity = 4; size = 0 }))
empty-Balanced = record {
  four = refl;
  balance = refl;
  sized = refl;
  placed = λ i items e. subst (All (λ v. bucket v ≡ i)) (empty_cell 4 i items e) tt;
  order = λ i items e. empty_cell 4 i items e;
}

started-Balanced :
    (alloc : ℕ → Bool) (p : Processor) → init_processor alloc ≡ done p → Balanced (started p)
unfolding init_processor
started-Balanced alloc p e =
    let (_, _, e1) = bind-done (granted (alloc 0)) _ p e in
    let (_, _, e2) = bind-done (granted (alloc 1)) _ p e1 in
    let (lists, made, e3) = bind-done (make_lists alloc 4 2) _ p e2 in
    subst (λ q. Balanced (started q))
      (ap (λ l. record { list = l; capacity = 4; size = 0 }) (lists_empty alloc 4 2 lists made)
        ∙ done_injective e3)
      empty-Balanced

-- From a processor that init_processor returns, in every state that producers and consumers reach
-- the views in the lists are as many as the tokens and the threads between a post or a wait and the
-- lists, each list holds in order the views added to it and not yet consumed, and a consumer that has
-- passed the semaphore finds a view.
pub reached-Balanced :
    (alloc : ℕ → Bool) (p : Processor) (s : System)
    → init_processor alloc ≡ done p
    → Reach (started p) s
    → Balanced s
      × (0 < s.holding
          → (p' : Processor) × (v : Text) × (consume_any s.processor ≡ done (p', some v)))
reached-Balanced alloc p s e path =
    let b = along s path in
    (b, λ token. let (p', v, run, _) = token-finds s b token in (p', v, run))
  where
    along : (s : System) → Reach (started p) s → Balanced s
    along _ here = started-Balanced alloc p e
    along _ (then_step {m = m} {e = e'} path one) = step-Balanced m e' one (along m path)
