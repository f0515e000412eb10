-- ===== src/ThreadPool/Workers.antt =====
-- The states of the threads: whether one of them sleeps, works or has returned, and what a change
-- of one of them does to that.
use bare_metal_architect.Prelude.{
  ℕ, zero, suc, ◌≡◌, refl, inl, inr, Bool, true, false, ◌||◌, not, some, List, [], ◌∷◌, Bool-cases,
  get_elem?, set,
}
use bare_metal_architect.Prelude.{subst}
use mathlib.Core.Option.{some-injective}
use bare_metal_architect.ThreadPool.{
  Worker, awake, asleep, running, finished, woken, wake_all, is_asleep, any, Signals, wakes_one,
  nobody,
}

-- A worker that has something to do.
abbrev pub is_busy : Worker → Bool
is_busy awake = true
is_busy asleep = false
is_busy (running t) = true
is_busy finished = false

abbrev pub is_finished : Worker → Bool
is_finished awake = false
is_finished asleep = false
is_finished (running t) = false
is_finished finished = true

-- A worker that has not returned.
abbrev pub is_going : Worker → Bool
is_going w = not (is_finished w)

or_true : (b : Bool) → (b || true) ≡ true
or_true true = refl
or_true false = refl

or_split : (p q : Bool) → (p || q) ≡ false → (p ≡ false) × (q ≡ false)
or_split true q e = absurd (cc)
or_split false q e = (refl, e)

module _ {A : Type 0} (p : A → Bool) where
  -- A worker that has the property, behind a change of it.
  pub changed_any :
      (xs : List A) (i : ℕ) (old new : A)
      → get_elem? xs i ≡ some old
      → p new ≡ true
      → any p (set xs i new) ≡ true
  changed_any [] i old new e h = absurd (cc)
  changed_any (x ∷ xs) zero old new e h = rw h refl
  changed_any (x ∷ xs) (suc i) old new e h = rw (changed_any xs i old new e h) (or_true (p x))

  pub changed_none :
      (xs : List A) (i : ℕ) (new : A)
      → any p xs ≡ false
      → p new ≡ false
      → any p (set xs i new) ≡ false
  changed_none [] i new e h = refl
  changed_none (x ∷ xs) zero new e h = rw (h, (or_split (p x) (any p xs) e).1) refl
  changed_none (x ∷ xs) (suc i) new e h =
      let (a, b) = or_split (p x) (any p xs) e in rw (a, changed_none xs i new b h) refl

  -- A change to one without the property does not bring it in.
  pub any-set_old :
      (xs : List A) (i : ℕ) (new : A)
      → p new ≡ false
      → any p (set xs i new) ≡ true
      → any p xs ≡ true
  any-set_old xs i new h e = elim (Bool-cases (any p xs)) [
    | inl found ↦ found
    | inr missing ↦ let no = changed_none xs i new missing h in absurd (cc)
  ]

  pub any-found :
      (xs : List A) → any p xs ≡ true → (i : ℕ) × (x : A) × (get_elem? xs i ≡ some x) × (p x ≡ true)
  any-found [] e = absurd (cc)
  any-found (x ∷ xs) e = elim (Bool-cases (p x)) [
    | inl found ↦ (0, x, refl, found)
    | inr missing ↦ let (i, y, at, h) = any-found xs (rw missing at e) in (suc i, y, at, h)
  ]

  pub any-none :
      (xs : List A) (i : ℕ) (x : A) → any p xs ≡ false → get_elem? xs i ≡ some x → p x ≡ false
  any-none [] i x e at = absurd (cc)
  any-none (y ∷ xs) zero x e at =
      subst (λ z. p z ≡ false) (some-injective y x at) (or_split (p y) (any p xs) e).0
  any-none (y ∷ xs) (suc i) x e at = any-none xs i x (or_split (p y) (any p xs) e).1 at

not_asleep : (w : Worker) → is_asleep (woken w) ≡ false
not_asleep awake = refl
not_asleep asleep = refl
not_asleep (running t) = refl
not_asleep finished = refl

same_end : (w : Worker) → is_finished (woken w) ≡ is_finished w
same_end awake = refl
same_end asleep = refl
same_end (running t) = refl
same_end finished = refl

pub any-wake_all : (ws : List Worker) → any is_asleep (wake_all ws) ≡ false
any-wake_all [] = refl
any-wake_all (w ∷ ws) = rw (not_asleep w, any-wake_all ws) refl

pub any-wake_all_finished : (ws : List Worker) → any is_finished (wake_all ws) ≡ any is_finished ws
any-wake_all_finished [] = refl
any-wake_all_finished (w ∷ ws) = rw (same_end w, any-wake_all_finished ws) refl

-- After a signal a worker is busy where one sleeps.
pub signalled_busy :
    (ws ws' : List Worker) → Signals ws ws' → any is_asleep ws' ≡ true → any is_busy ws' ≡ true
signalled_busy ws _ (wakes_one i at) e = changed_any is_busy ws i asleep awake at refl
signalled_busy ws _ (nobody none_asleep) e = absurd (cc)

pub signalled_asleep :
    (ws ws' : List Worker) → Signals ws ws' → any is_asleep ws ≡ false → any is_asleep ws' ≡ false
signalled_asleep ws _ (wakes_one i at) e = changed_none is_asleep ws i awake e refl
signalled_asleep ws _ (nobody none_asleep) e = e

pub signalled_finished :
    (ws ws' : List Worker) → Signals ws ws' → any is_finished ws' ≡ true → any is_finished ws ≡ true
signalled_finished ws _ (wakes_one i at) e = any-set_old is_finished ws i awake refl e
signalled_finished ws _ (nobody none_asleep) e = e

pub any-wake_all_going : (ws : List Worker) → any is_going (wake_all ws) ≡ any is_going ws
any-wake_all_going [] = refl
any-wake_all_going (w ∷ ws) = rw (same_end w, any-wake_all_going ws) refl

pub signalled_going :
    (ws ws' : List Worker) → Signals ws ws' → any is_going ws ≡ false → any is_going ws' ≡ false
signalled_going ws _ (wakes_one i at) e = let no = any-none is_going ws i asleep e at in absurd (cc)
signalled_going ws _ (nobody none_asleep) e = e
