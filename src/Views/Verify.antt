-- ===== src/Views/Verify.antt =====
-- What verify_view answers.
use bare_metal_architect.Prelude.{
  ℕ, zero, suc, ◌-◌, ◌%◌, ◌≤◌, ◌<◌, ◌≡◌, refl, sym, ap, ◌∙◌, ◌≢◌, ◌↔◌, inl, inr, Bool, true, some,
  List, [], ◌∷◌, arith, if◌then◌else◌, Bool-cases, Option-cases, get_elem?, get_elem?-some,
  to_uint8, done, fault, ◌>>=◌, index,
}
use bare_metal_architect.Text.{
  Text, str_eq, str_eq_iff, hash_uint8, hash_function-negative, hash_uint8-eq-sum, IsAscii, sum,
}
use bare_metal_architect.Views.{db_views, listed, verify_view}
use native.Mathlib.Nat.{mod-lt}
use bare_metal_architect.Prelude.{bind-done, done_injective, neg_ℕ}

-- One of the views of the table.
abbrev pub IsView : Text → Type 0
IsView key = (i : ℕ) × (get_elem? db_views i ≡ some key)

listed_lem :
    (key : Text) (views : List Text)
    → (listed key views ≡ true) ↔ ((i : ℕ) × (get_elem? views i ≡ some key))
listed_lem key views = (to key views, λ e. from key views (e.0) (e.1))
  where
    to :
        (key : Text) (views : List Text)
        → listed key views ≡ true
        → (i : ℕ) × (get_elem? views i ≡ some key)
    to key [] e = absurd (cc)
    to key (view ∷ rest) e = elim (Bool-cases (str_eq key view)) [
      | inl same ↦ (0, ap some (sym ((str_eq_iff key view).0 same)))
      | inr apart ↦ let (i, h) = to key rest (rw apart at e) in (suc i, h)
    ]

    from :
        (key : Text) (views : List Text) (i : ℕ)
        → get_elem? views i ≡ some key
        → listed key views ≡ true
    from key [] i e = absurd (cc)
    from key (view ∷ rest) zero e = ground (arith, str_eq_iff key view)
    from key (view ∷ rest) (suc i) e = ground (arith, from key rest i e)

verify_ascii :
    (key : Text) → IsAscii key → (b : Bool) × (verify_view key ≡ done b) × ((b ≡ true) ↔ IsView key)
unfolding verify_view
verify_ascii key ascii =
    let (view, there) = get_elem?-some db_views (sum key % 4) (mod-lt (sum key) (omega arith)) in
    let hash = hash_uint8-eq-sum key 4 ascii (omega arith) (omega arith) in
    elim (Bool-cases (str_eq key view)) [
      | inl same ↦ (
        true,
        rw (hash, there, same) refl,
        (λ _. (sum key % 4, there ∙ ap some (sym ((str_eq_iff key view).0 same))), λ _. refl),
      )
      | inr apart ↦ (listed key db_views, rw (hash, there, apart) refl, listed_lem key db_views)
    ]

-- The hash of -1, -2 or -3 as a `uint8_t`.
far_out :
    (key : Text) (k : ℕ)
    → k < 4
    → k ≢ 0
    → (index db_views (to_uint8 (neg_ℕ k)) >>= λ view.
        if str_eq key view then done true else done (listed key db_views))
      ≡ fault
far_out key zero lt ne = absurd (ne refl)
far_out key (suc zero) lt ne = refl
far_out key (suc (suc zero)) lt ne = refl
far_out key (suc (suc (suc zero))) lt ne = refl
far_out key (suc (suc (suc (suc k)))) lt ne = absurd (omega arith)

-- On an ASCII key verify_view returns, and it answers whether the key is one of the views; on a
-- key of one byte from 128 on whose hash is not 0 it reads outside of the table.
pub verify_view-IsView :
    (key : Text)
    → (IsAscii key → (b : Bool) × (verify_view key ≡ done b) × ((b ≡ true) ↔ IsView key))
      × ((c : ℕ) → key ≡ c ∷ [] → 128 ≤ c → c < 256 → (256 - c) % 4 ≢ 0 → verify_view key ≡ fault)
unfolding verify_view hash_uint8
verify_view-IsView key = (verify_ascii key, λ c e lo hi ne. rw e (outside c lo hi ne))
  where
    outside : (c : ℕ) → 128 ≤ c → c < 256 → (256 - c) % 4 ≢ 0 → verify_view (c ∷ []) ≡ fault
    outside c lo hi ne =
        rw (hash_function-negative c 3 lo hi)
          (far_out (c ∷ []) ((256 - c) % 4) (mod-lt (256 - c) (omega arith)) ne)

-- A view that is known is in the table.
pub verify_view-known : (key : Text) → verify_view key ≡ done true → IsView key
unfolding verify_view
verify_view-known key e =
    let (i, _, first) = bind-done (hash_uint8 key 4) _ true e in
    let (view, there, answer) = bind-done (index db_views i) _ true first in
    elim (Bool-cases (str_eq key view)) [
      | inl same ↦ (i, at_i i view there ∙ ap some (sym ((str_eq_iff key view).0 same)))
      | inr apart ↦ (listed_lem key db_views).0 (done_injective (rw apart at answer))
    ]
  where
    at_i : (i : ℕ) (view : Text) → index db_views i ≡ done view → get_elem? db_views i ≡ some view
    at_i i view e = elim (Option-cases (get_elem? db_views i)) [
      | inl missing ↦ absurd (cc (missing, e))
      | inr (v, there) ↦ there ∙ ap some (done_injective (rw there at e))
    ]
