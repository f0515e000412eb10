-- ===== src/Reconcile/Sound.antt =====
-- The four threads together, in any order of their steps.
use bare_metal_architect.Prelude.{
  ℕ, zero, suc, ◌+◌, ◌≤◌, ◌<◌, ◌≡◌, refl, sym, ap, ◌∙◌, inl, inr, Bool, true, false, some, List, [],
  ◌∷◌, ◌++◌, arith, ◌==◌, Bool-cases, ==_iff,
}
use bare_metal_architect.Prelude.{subst}
use native.Mathlib.Nat.{mod-eq_of_lt}
use mathlib.Core.Option.{some-injective}
use bare_metal_architect.Ensures.{Ensures, returns, ended, Ensures-bind}
use bare_metal_architect.Text.{Text}
use bare_metal_architect.Reconcile.{
  DataSource, Phase, entering, adding, marking, extracted, Printer, waiting, first, second,
  returned, print_ds_data, System, start_reconciliation, process_reconciliation, Thread, snow_ext,
  ana_ext, reconciliate, process, step, run, started, extract_and_process,
}
use bare_metal_architect.Reconcile.Stages.{
  Side, snowflake, anaplan, packets, source, Stage, enters, adds, marks, ends, packet_lines,
  is_snowflake, lines-packets,
}
use bare_metal_architect.Reconcile.Extract.{announced, extract-Advanced}

-- What a printed source adds to `process_reco`.
abbrev pub one_if_any : ℕ → ℕ
one_if_any zero = 0
one_if_any (suc n) = 1

module _ (q1 q2 : ℕ) where
  -- Where the printing thread is: it prints when both sources are extracted, and counts the sources
  -- that are not empty.
  pub data Printing : Printer → Phase → Phase → ℕ → List (ℕ × Bool) → Type 0 where
    waits : (p1 p2 : Phase) → Printing waiting p1 p2 0 []
    begins : Printing first extracted extracted 0 []
    half : Printing second extracted extracted (one_if_any q1) (packet_lines true 0 q1)
    whole :
        Printing returned extracted extracted
          (one_if_any q1 + one_if_any q2)
          (packet_lines true 0 q1 ++ packet_lines false 0 q2)

  -- Each source is at the stage of its thread, the printing thread runs behind both, and a report is
  -- the sum of two equal sizes that are not 0.
  pub record Sound (s : System) : Type 0 where
    pub one : Stage snowflake q1 s.ds1 s.phase1
    pub two : Stage anaplan q2 s.ds2 s.phase2
    pub counted : s.reconciliate_state ≡ announced s.phase1 + announced s.phase2
    pub printing : Printing s.printer s.phase1 s.phase2 s.process_reco s.printed
    pub report : (n : ℕ) → s.reported ≡ some n → (q1 ≡ q2) × (n ≡ q1 + q2) × (0 < q1)

  announced_most : (p : Phase) → announced p ≤ 1
  announced_most entering = omega arith
  announced_most (adding i) = omega arith
  announced_most (marking k) = omega arith
  announced_most extracted = omega arith

  only_extracted : (p : Phase) → 1 ≤ announced p → extracted ≡ p
  only_extracted entering h = absurd (omega arith)
  only_extracted (adding i) h = absurd (omega arith)
  only_extracted (marking k) h = absurd (omega arith)
  only_extracted extracted h = refl

  later-Printing :
      (printer : Printer) (a b c d : Phase) (n : ℕ) (printed : List (ℕ × Bool))
      → announced a ≤ announced c
      → announced b ≤ announced d
      → Printing printer a b n printed
      → Printing printer c d n printed
  later-Printing _ a b c d _ _ h k (waits _ _) = waits c d
  later-Printing _ _ _ c d _ _ h k begins =
      subst (λ p. Printing first p d 0 []) (only_extracted c h)
        (subst (λ p. Printing first extracted p 0 []) (only_extracted d k) begins)
  later-Printing _ _ _ c d n printed h k half =
      subst (λ p. Printing second p d n printed) (only_extracted c h)
        (subst (λ p. Printing second extracted p n printed) (only_extracted d k) half)
  later-Printing _ _ _ c d n printed h k whole =
      subst (λ p. Printing returned p d n printed) (only_extracted c h)
        (subst (λ p. Printing returned extracted p n printed) (only_extracted d k) whole)

  printed_lem :
      (side : Side) (q n : ℕ)
      → n < 2
      → print_ds_data (source side (packets side true 0 q) q) n
        ≡ (packet_lines (is_snowflake side) 0 q, n + one_if_any q)
  unfolding print_ds_data
  printed_lem side zero n small = ap (λ m. ([], m)) (omega arith)
  printed_lem side (suc q) n small =
      rw (mod-eq_of_lt {n = n + 1} {m = 256} (omega arith))
        (ap (λ l. (l, n + 1)) (lines-packets side 0 (suc q)))

  at_end :
      (side : Side) (q : ℕ) (d : DataSource)
      → Stage side q d extracted
      → source side (packets side true 0 q) q ≡ d
  at_end side q _ (ends few) = refl

  few_printed : (q : ℕ) → one_if_any q < 2
  few_printed zero = omega arith
  few_printed (suc q) = omega arith

  start-Printing :
      (p1 p2 : Phase) (n : ℕ) (printed : List (ℕ × Bool))
      → announced p1 + announced p2 ≡ 2
      → Printing waiting p1 p2 n printed
      → Printing first p1 p2 n printed
  start-Printing p1 p2 _ _ e (waits _ _) =
      later-Printing first extracted extracted p1 p2 0 []
        (omega (arith, announced_most p1, announced_most p2))
        (omega (arith, announced_most p1, announced_most p2)) begins

  first-Printing :
      (d1 : DataSource) (p1 p2 : Phase) (n : ℕ) (printed : List (ℕ × Bool))
      → Stage snowflake q1 d1 p1
      → Printing first p1 p2 n printed
      → Printing second p1 p2 ((print_ds_data d1 n).1) (printed ++ (print_ds_data d1 n).0)
  first-Printing _ _ p2 n printed enters h = elim h [ ]
  first-Printing _ _ p2 n printed (adds i _ _) h = elim h [ ]
  first-Printing _ _ p2 n printed (marks k m _ _) h = elim h [ ]
  first-Printing _ _ _ _ _ (ends few) begins = rw (printed_lem snowflake q1 0 (omega arith)) (
      subst (λ m. Printing second extracted extracted m (packet_lines true 0 q1)) (omega arith)
        half)

  second-Printing :
      (d2 : DataSource) (p1 p2 : Phase) (n : ℕ) (printed : List (ℕ × Bool))
      → Stage anaplan q2 d2 p2
      → Printing second p1 p2 n printed
      → Printing returned p1 p2 ((print_ds_data d2 n).1) (printed ++ (print_ds_data d2 n).0)
  second-Printing _ p1 _ n printed enters h = elim h [ ]
  second-Printing _ p1 _ n printed (adds i _ _) h = elim h [ ]
  second-Printing _ p1 _ n printed (marks k m _ _) h = elim h [ ]
  second-Printing _ _ _ _ _ (ends few) half =
      rw (printed_lem anaplan q2 (one_if_any q1) (few_printed q1)) whole

  reconciliation-Sound :
      (s : System) (printer : Printer)
      → s.printer ≡ printer
      → Sound s
      → Sound (start_reconciliation s)
  unfolding start_reconciliation
  reconciliation-Sound s waiting e h = elim (Bool-cases (s.reconciliate_state == 2)) [
    | inl both ↦
        rw (e, both)
          (record {
            one = h.one;
            two = h.two;
            counted = h.counted;
            printing =
                start-Printing s.phase1 s.phase2 s.process_reco s.printed
                  (sym h.counted ∙ (==_iff s.reconciliate_state 2).0 both)
                  (subst (λ p. Printing p s.phase1 s.phase2 s.process_reco s.printed) e h.printing);
            report = h.report;
          })
    | inr some_left ↦
        rw (e, some_left)
          (record {
            one = h.one;
            two = h.two;
            counted = h.counted;
            printing =
                subst (λ p. Printing p s.phase1 s.phase2 s.process_reco s.printed) e h.printing;
            report = h.report;
          })
  ]
  reconciliation-Sound s first e h = rw e (record {
    one = h.one;
    two = h.two;
    counted = h.counted;
    printing =
        first-Printing s.ds1 s.phase1 s.phase2 s.process_reco s.printed h.one
          (subst (λ p. Printing p s.phase1 s.phase2 s.process_reco s.printed) e h.printing);
    report = h.report;
  })
  reconciliation-Sound s second e h = rw e (record {
    one = h.one;
    two = h.two;
    counted = h.counted;
    printing =
        second-Printing s.ds2 s.phase1 s.phase2 s.process_reco s.printed h.two
          (subst (λ p. Printing p s.phase1 s.phase2 s.process_reco s.printed) e h.printing);
    report = h.report;
  })
  reconciliation-Sound s returned e h = rw e (record {
    one = h.one;
    two = h.two;
    counted = h.counted;
    printing = subst (λ p. Printing p s.phase1 s.phase2 s.process_reco s.printed) e h.printing;
    report = h.report;
  })

  -- Where two sources are counted, the printing has ended and neither was empty.
  both_printed :
      (printer : Printer) (d1 d2 : DataSource) (p1 p2 : Phase) (n : ℕ) (printed : List (ℕ × Bool))
      → Stage snowflake q1 d1 p1
      → Stage anaplan q2 d2 p2
      → Printing printer p1 p2 n printed
      → n ≡ 2
      → (d1.size ≡ q1) × (d2.size ≡ q2) × (0 < q1)
  both_printed _ d1 d2 p1 p2 _ _ one two (waits _ _) e = absurd (omega arith)
  both_printed _ d1 d2 _ _ _ _ one two begins e = absurd (omega arith)
  both_printed _ d1 d2 _ _ _ _ one two half e = absurd (omega (arith, e, few_printed q1))
  both_printed _ _ _ _ _ _ _ (ends _) (ends _) whole e = (refl, refl, some_first q1 e)
    where
      some_first : (q : ℕ) → one_if_any q + one_if_any q2 ≡ 2 → 0 < q
      some_first zero h = absurd (omega (arith, h, few_printed q2))
      some_first (suc q) h = omega arith

  process-Sound : (s : System) → Sound s → Ensures Sound (process_reconciliation s)
  unfolding process_reconciliation
  process-Sound s h = elim (Bool-cases (s.process_reco == 2)) [
    | inl both ↦
        let (a, b, positive) =
          both_printed s.printer s.ds1 s.ds2 s.phase1 s.phase2 s.process_reco s.printed h.one h.two
            h.printing ((==_iff s.process_reco 2).0 both) in
        elim (Bool-cases (s.ds1.size == s.ds2.size)) [
          | inl same ↦
              rw (both, same)
                (returns (record s { reported = some (s.ds1.size + s.ds2.size) })
                  (record {
                    one = h.one;
                    two = h.two;
                    counted = h.counted;
                    printing = h.printing;
                    report = λ n e. (
                      sym a ∙ (==_iff s.ds1.size s.ds2.size).0 same ∙ b,
                      omega (arith, a, b, some-injective (s.ds1.size + s.ds2.size) n e),
                      positive,
                    );
                  }))
          | inr apart ↦ rw (both, apart) ended
        ]
    | inr not_both ↦ rw not_both (returns s h)
  ]

  step-Sound : (t : Thread) (s : System) → Sound s → Ensures Sound (step q1 q2 t s)
  unfolding step
  step-Sound (snow_ext alloc) s h =
      let small : s.reconciliate_state < 255 =
        omega (arith, h.counted, announced_most s.phase1, announced_most s.phase2) in
      Ensures-bind (extract_and_process alloc q1 s.ds1 s.phase1 s.reconciliate_state)
        (extract-Advanced snowflake alloc q1 s.reconciliate_state s.ds1 s.phase1 small h.one)
        (λ r a.
          returns (record s { ds1 = r.0; phase1 = r.1; reconciliate_state = r.2 })
            (record {
              one = a.stage;
              two = h.two;
              counted = omega (arith, h.counted, a.counted, a.further);
              printing =
                  later-Printing s.printer s.phase1 s.phase2 r.1 s.phase2 s.process_reco s.printed
                    a.further (omega arith) h.printing;
              report = h.report;
            }))
  step-Sound (ana_ext alloc) s h =
      let small : s.reconciliate_state < 255 =
        omega (arith, h.counted, announced_most s.phase1, announced_most s.phase2) in
      Ensures-bind (extract_and_process alloc q2 s.ds2 s.phase2 s.reconciliate_state)
        (extract-Advanced anaplan alloc q2 s.reconciliate_state s.ds2 s.phase2 small h.two)
        (λ r a.
          returns (record s { ds2 = r.0; phase2 = r.1; reconciliate_state = r.2 })
            (record {
              one = h.one;
              two = a.stage;
              counted = omega (arith, h.counted, a.counted, a.further);
              printing =
                  later-Printing s.printer s.phase1 s.phase2 s.phase1 r.1 s.process_reco s.printed
                    (omega arith) a.further h.printing;
              report = h.report;
            }))
  step-Sound reconciliate s h =
      returns (start_reconciliation s) (reconciliation-Sound s s.printer refl h)
  step-Sound process s h = process-Sound s h

  run_lem : (schedule : List Thread) (s : System) → Sound s → Ensures Sound (run q1 q2 schedule s)
  unfolding run
  run_lem [] s h = returns s h
  run_lem (t ∷ schedule) s h =
      Ensures-bind (step q1 q2 t s) (step-Sound t s h) (λ s' h'. run_lem schedule s' h')

  started-Sound : Sound started
  started-Sound = record {
    one = enters;
    two = enters;
    counted = refl;
    printing = waits entering entering;
    report = λ n e. absurd (cc);
  }

-- For all quantities and in every order of the steps the threads never fault, and where the
-- process has not ended each source holds in order the packets that its thread has added and marked,
-- nothing is printed before both sources are complete, the lines printed are those of the packets, and
-- a sum is reported only for two sources of one size that is not 0.
pub run-Sound :
    (q1 q2 : ℕ) (schedule : List Thread) → Ensures (Sound q1 q2) (run q1 q2 schedule started)
run-Sound q1 q2 schedule = run_lem q1 q2 schedule started (started-Sound q1 q2)
