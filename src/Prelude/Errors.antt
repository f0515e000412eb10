-- ===== src/Prelude/Errors.antt =====
-- How a call of a C function ends: it returns, it ends the process by `exit`, or its behaviour is
-- undefined (a null pointer followed, an index out of range, a division by zero).
use Prim.Native.Nat.{ℕ, ◌%◌, zero, suc}
use mathlib.Core.Path.{◌≡◌, refl}
use mathlib.Core.Bool.{Bool, true, false}
use mathlib.Core.Option.{Option, none, some}
use mathlib.Core.List.{List}
use bare_metal_architect.Prelude.Lists.{get_elem?}
use bare_metal_architect.Prelude.Int.{ℤ, pos, negsuc, neg_ℕ}

pub data Outcome {ℓ} (A : Type ℓ) : Type ℓ where
  done : A → Outcome A
  exits : Outcome A
  fault : Outcome A

infixl 5 ◌>>=◌ ◌>>◌
abbrev pub ◌>>=◌ {ℓ κ} : {A : Type ℓ} {B : Type κ} → Outcome A → (A → Outcome B) → Outcome B
done a >>= f = f a
exits >>= f = exits
fault >>= f = fault

abbrev pub ◌>>◌ {ℓ} : {B : Type ℓ} → Outcome (Unit {0}) → Outcome B → Outcome B
m >> k = m >>= λ _. k

-- What a pointer or an array element is when the program goes through it.
abbrev pub or_fault {ℓ} : {A : Type ℓ} → Option A → Outcome A
or_fault none = fault
or_fault (some a) = done a

-- `xs[i]`.
abbrev pub index {ℓ} : {A : Type ℓ} → List A → ℕ → Outcome A
index xs i = or_fault (get_elem? xs i)

-- `xs[i]` at an `int` that may be negative.
abbrev pub index_int {ℓ} : {A : Type ℓ} → List A → ℤ → Outcome A
index_int xs (pos i) = index xs i
index_int xs (negsuc i) = fault

-- C's remainder: the sign is that of the dividend, and a divisor of zero is a fault.
abbrev pub rem : ℤ → ℕ → Outcome ℤ
rem a zero = fault
rem (pos n) (suc m) = done (pos (n % suc m))
rem (negsuc n) (suc m) = done (neg_ℕ (suc n % suc m))

-- A call of `malloc` or `calloc`: the program ends where the library returns a null pointer.
abbrev pub granted : Bool → Outcome (Unit {0})
granted true = done tt
granted false = exits

-- The value of a call that returns is one.
pub done_injective {ℓ} : {A : Type ℓ} {a b : A} → done a ≡ done b → a ≡ b
done_injective e = cc

-- A chain that returns has returned at its first part.
pub bind-done {ℓ κ} :
    {A : Type ℓ} {B : Type κ} (m : Outcome A) (f : A → Outcome B) (b : B)
    → (m >>= f) ≡ done b
    → (a : A) × (m ≡ done a) × (f a ≡ done b)
bind-done (done a) f b e = (a, refl, e)
bind-done exits f b e = absurd (cc)
bind-done fault f b e = absurd (cc)
