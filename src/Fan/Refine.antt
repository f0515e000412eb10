-- ===== src/Fan/Refine.antt =====
-- The fan's byte against the fan that it stands for: a switch, a speed and four bits that no
-- command touches.
use bare_metal_architect.Prelude.{
  ℕ, zero, suc, ◌+◌, ◌-◌, ◌*◌, ◌<◌, ◌≡◌, refl, ap, Bool, true, false, List, [], ◌∷◌, arith, ◌==◌,
  if◌then◌else◌, Outcome, done, exits, fault, ◌>>=◌, ==_iff,
}
use Prim.Native.Nat.{min}
use bare_metal_architect.Bytes.{for_each, for_each→at}
use bare_metal_architect.Fan.{Command, on, off, max_speed, min_speed, change, step, run}

pub record Settings : Type 0 where
  pub power : ℕ
  pub speed : ℕ
  pub other : ℕ

pub record IsValid (s : Settings) : Type 0 where
  pub switch : s.power < 2
  pub level : s.speed < 8
  pub low : s.other < 16

-- The byte of a fan.
abbrev pub encode : Settings → ℕ
encode s = s.power * 128 + s.speed * 16 + s.other

abbrev pub encoded : Outcome Settings → Outcome ℕ
encoded (done s) = done (encode s)
encoded exits = exits
encoded fault = fault

-- What the commands mean: only a fan that is on can be sped up, slowed down or set to its maximum;
-- without the power the maximum ends the process.
pub spec : Settings → Command → Outcome Settings
spec s on = done (record s { power = 1 })
spec s off = done (record s { power = 0 })
spec s max_speed = if s.power == 1 then done (record s { speed = 7 }) else exits
spec s min_speed = done (record s { speed = 0 })
spec s (change cmd) =
    if s.power == 1
    then (if cmd == 1
        then done (record s { speed = min 7 (s.speed + 1) })
        else if cmd == 0
        then done (record s { speed = s.speed - 1 })
        else done s)
    else done s

pub spec_run : Settings → List Command → Outcome Settings
spec_run s [] = done s
spec_run s (c ∷ cs) = do s' ← spec s c; spec_run s' cs

abbrev same : Outcome ℕ → Outcome ℕ → Bool
same (done a) (done b) = a == b
same exits exits = true
same fault fault = true
same _ _ = false

same_eq : (x y : Outcome ℕ) → same x y ≡ true → x ≡ y
same_eq (done a) (done b) h = ap done ((==_iff a b).0 h)
same_eq (done a) exits h = absurd (cc)
same_eq (done a) fault h = absurd (cc)
same_eq exits (done b) h = absurd (cc)
same_eq exits exits h = refl
same_eq exits fault h = absurd (cc)
same_eq fault (done b) h = absurd (cc)
same_eq fault exits h = absurd (cc)
same_eq fault fault h = refl

-- A command agrees with its meaning at every fan.
abbrev agrees : Command → ℕ → ℕ → ℕ → Bool
agrees c p l o =
    let s : Settings = record { power = p; speed = l; other = o } in
    same (step (encode s) c) (encoded (spec s c))

abbrev everywhere : Command → Bool
everywhere c = for_each (λ p. for_each (λ l. for_each (agrees c p l) 16) 8) 2

module _ (c : Command) (table : everywhere c ≡ true) where
  from_table : (s : Settings) → IsValid s → step (encode s) c ≡ encoded (spec s c)
  from_table s v = same_eq _ _ (
      for_each→at (agrees c s.power s.speed) 16
        (for_each→at (λ l. for_each (agrees c s.power l) 16) 8
          (for_each→at (λ p. for_each (λ l. for_each (agrees c p l) 16) 8) 2 table s.power v.switch)
          s.speed v.level)
        s.other v.low)

table_on : everywhere on ≡ true
unfolding step spec for_each
table_on = refl

table_off : everywhere off ≡ true
unfolding step spec for_each
table_off = refl

table_max : everywhere max_speed ≡ true
unfolding step spec for_each
table_max = refl

table_min : everywhere min_speed ≡ true
unfolding step spec for_each
table_min = refl

table_decrease : everywhere (change 0) ≡ true
unfolding step spec for_each
table_decrease = refl

table_increase : everywhere (change 1) ≡ true
unfolding step spec for_each
table_increase = refl

ignored :
    (s : Settings) (n : ℕ)
    → step (encode s) (change (suc (suc n))) ≡ encoded (spec s (change (suc (suc n))))
unfolding step spec
ignored s n = ground arith

-- Every command does to the byte of a valid fan what it means, end of the process included.
pub step_refines : (s : Settings) (c : Command) → IsValid s → step (encode s) c ≡ encoded (spec s c)
step_refines s on v = from_table on table_on s v
step_refines s off v = from_table off table_off s v
step_refines s max_speed v = from_table max_speed table_max s v
step_refines s min_speed v = from_table min_speed table_min s v
step_refines s (change zero) v = from_table (change 0) table_decrease s v
step_refines s (change (suc zero)) v = from_table (change 1) table_increase s v
step_refines s (change (suc (suc n))) v = ignored s n

spec-IsValid : (s s' : Settings) (c : Command) → IsValid s → spec s c ≡ done s' → IsValid s'
unfolding spec
spec-IsValid s s' on v e = ground arith
spec-IsValid s s' off v e = ground arith
spec-IsValid s s' max_speed v e = ground arith
spec-IsValid s s' min_speed v e = ground arith
spec-IsValid s s' (change cmd) v e = ground arith

encoded-bind :
    (o : Outcome Settings) (f : ℕ → Outcome ℕ) (g : Settings → Outcome Settings)
    → ((s : Settings) → o ≡ done s → f (encode s) ≡ encoded (g s))
    → (encoded o >>= f) ≡ encoded (o >>= g)
encoded-bind (done s) f g h = h s refl
encoded-bind exits f g h = refl
encoded-bind fault f g h = refl

-- No sequence of commands tells the byte of a valid fan from the fan that it stands for: where the
-- commands mean an end of the process so does the code, and otherwise it ends at the byte of the
-- settings that the commands mean.
pub run_refines :
    (cs : List Command) (s : Settings) → IsValid s → run (encode s) cs ≡ encoded (spec_run s cs)
unfolding run spec_run
run_refines [] s v = refl
run_refines (c ∷ cs) s v = rw (step_refines s c v) (
    encoded-bind (spec s c) (λ fan'. run fan' cs) (λ s'. spec_run s' cs)
      (λ s' e. run_refines cs s' (spec-IsValid s s' c v e)))
