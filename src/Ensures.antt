-- ===== src/Ensures.antt =====
-- What holds of every call that returns, where no call faults.
use bare_metal_architect.Prelude.{
  ◌≡◌, refl, Bool, true, false, if◌then◌else◌, Outcome, done, exits, fault, ◌>>=◌,
}

-- A call ends the process, or returns a value with the property; it never faults.
pub data Ensures {ℓ} {A : Type ℓ} (P : A → Type 0) : Outcome A → Type ℓ where
  returns : (a : A) → P a → Ensures P (done a)
  ended : Ensures P exits

module _ {ℓ} {A : Type ℓ} {P : A → Type 0} where
  pub Ensures-if :
      (b : Bool) {x y : Outcome A}
      → (b ≡ true → Ensures P x)
      → (b ≡ false → Ensures P y)
      → Ensures P (if b then x else y)
  Ensures-if true f g = f refl
  Ensures-if false f g = g refl

  pub Ensures-bind {κ} :
      {B : Type κ} {Q : B → Type 0} (m : Outcome A) {f : A → Outcome B}
      → Ensures P m
      → ((a : A) → P a → Ensures Q (f a))
      → Ensures Q (m >>= f)
  Ensures-bind (done _) (returns a h) g = g a h
  Ensures-bind exits ended g = ended
  Ensures-bind fault h g = elim h [ ]

-- A weaker property.
pub Ensures-weaker {ℓ} :
    {A : Type ℓ} {P Q : A → Type 0} {r : Outcome A}
    → ((a : A) → P a → Q a)
    → Ensures P r
    → Ensures Q r
Ensures-weaker f (returns a h) = returns a (f a h)
Ensures-weaker f ended = ended
