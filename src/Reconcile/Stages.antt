-- ===== src/Reconcile/Stages.antt =====
-- The nodes of a source at each stage of its extraction.
use bare_metal_architect.Prelude.{
  ℕ, zero, suc, ◌+◌, ◌≤◌, ◌≡◌, refl, ap, ◌∙◌, Bool, true, false, List, [], ◌∷◌, ◌++◌, arith, length,
}
use bare_metal_architect.Text.{Text, codes}
use bare_metal_architect.Reconcile.{
  PipelineData, DataSource, new_source, Phase, entering, adding, marking, extracted, lines,
}

-- Which of the two sources.
pub data Side : Type 0 where
  snowflake : Side
  anaplan : Side

abbrev pub name : Side → Text
name snowflake = codes "SNOWF"
name anaplan = codes "ANAPL"

-- The process bit with the bit of the destination or of the source, and the bit of a node that is
-- ready for the reconciliation.
abbrev pub mark : Side → Bool → ℕ
mark snowflake false = 0x0A
mark snowflake true = 0x8A
mark anaplan false = 0x09
mark anaplan true = 0x89

abbrev pub packet : Side → Bool → ℕ → PipelineData
packet side ready i = record { cc_code = i; metadata = mark side ready }

-- The packets `from`, `from + 1`, … of a source, `n` of them.
abbrev pub packets : Side → Bool → ℕ → ℕ → List PipelineData
packets side ready from zero = []
packets side ready from (suc n) = packet side ready from ∷ packets side ready (suc from) n

abbrev pub source : Side → List PipelineData → ℕ → DataSource
source side nodes size = record (new_source (name side)) { nodes = nodes; size = size }

-- What a source holds where its thread is: the packets below `i` while it adds them, the first `k`
-- of them ready while it marks them, all of them ready at its end.
pub data Stage (side : Side) (q : ℕ) : DataSource → Phase → Type 0 where
  enters : Stage side q (source side [] 0) entering
  adds :
      (i : ℕ) → i ≤ q → q ≤ 100 → Stage side q (source side (packets side false 0 i) i) (adding i)
  marks :
      (k n : ℕ)
      → k + n ≡ q
      → q ≤ 100
      → Stage side q (source side (packets side true 0 k ++ packets side false k n) q) (marking k)
  ends : q ≤ 100 → Stage side q (source side (packets side true 0 q) q) extracted

pub packets-snoc :
    (side : Side) (ready : Bool) (from n : ℕ)
    → packets side ready from n ++ (packet side ready (n + from) ∷ [])
      ≡ packets side ready from (suc n)
packets-snoc side ready from zero = ap (λ k. packet side ready k ∷ []) (omega arith)
packets-snoc side ready from (suc n) = ap (◌∷◌ (packet side ready from)) (
    ap (λ k. packets side ready (suc from) n ++ (packet side ready k ∷ [])) (omega arith)
    ∙ packets-snoc side ready (suc from) n)

pub length-packets :
    (side : Side) (ready : Bool) (from n : ℕ) → length (packets side ready from n) ≡ n
length-packets side ready from zero = refl
length-packets side ready from (suc n) = ap suc (length-packets side ready (suc from) n)

-- The lines of the packets: the codes in order, each with its source.
abbrev pub packet_lines : Bool → ℕ → ℕ → List (ℕ × Bool)
packet_lines from_snow from zero = []
packet_lines from_snow from (suc n) = (from, from_snow) ∷ packet_lines from_snow (suc from) n

abbrev pub is_snowflake : Side → Bool
is_snowflake snowflake = true
is_snowflake anaplan = false

pub lines-packets :
    (side : Side) (from n : ℕ)
    → lines (packets side true from n) ≡ packet_lines (is_snowflake side) from n
lines-packets snowflake from zero = refl
lines-packets anaplan from zero = refl
lines-packets snowflake from (suc n) = ap (◌∷◌ (from, true)) (lines-packets snowflake (suc from) n)
lines-packets anaplan from (suc n) = ap (◌∷◌ (from, false)) (lines-packets anaplan (suc from) n)
