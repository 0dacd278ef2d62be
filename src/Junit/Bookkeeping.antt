-- ===== src/Junit/Bookkeeping.antt =====
-- The JUnit report of a scheduler's run (src/junit.rs with src/scheduler.rs).
use tach_core.Base.{
  ℕ, suc, ◌+◌, ◌≡◌, refl, sym, ◌∙◌, ap, chars, none, some, List, [], ◌∷◌, ◌++◌, length,
  append_assoc, append-nil, All, nat_eq, list_eq, arith,
}
use tach_core.Reporter.Events.{
  MachineEvent, run_start, test_start, test_finished, run_finished, error,
}
use tach_core.Resolver.Resolve.{RunnableTest}
use tach_core.Scheduler.State.{Setup, Scheduler}
use tach_core.Scheduler.Steps.{finished, Reaches}
use tach_core.Scheduler.Counts.{passes, fails, Reaches-Counts}
use tach_core.Scheduler.Shape.{Inner, finished-Closed}
use tach_core.Junit.Report.{
  TestCase, TestSuite, JunitReporter, case_of, failure_of, notify, notify_all,
}

-- The cases of the finished tests, in order.
abbrev pub cases_of : List MachineEvent → List TestCase
cases_of [] = []
cases_of (test_finished id status d m ∷ es) = case_of id status d m ∷ cases_of es
cases_of (run_start n ∷ es) = cases_of es
cases_of (test_start id file ∷ es) = cases_of es
cases_of (run_finished a b c d ∷ es) = cases_of es
cases_of (error m ∷ es) = cases_of es

abbrev pub failing : List TestCase → ℕ
failing [] = 0
failing (t ∷ ts) = elim (t.failure) [ none ↦ failing ts | some f ↦ suc (failing ts) ]

length-cases_of : (es : List MachineEvent) → length (cases_of es) ≡ passes es + fails es
length-cases_of [] = omega arith
length-cases_of (test_finished id status d m ∷ es) = ground (arith, length-cases_of es)
length-cases_of (run_start n ∷ es) = length-cases_of es
length-cases_of (test_start id file ∷ es) = length-cases_of es
length-cases_of (run_finished a b c d ∷ es) = length-cases_of es
length-cases_of (error m ∷ es) = length-cases_of es

failing-cases_of : (es : List MachineEvent) → failing (cases_of es) ≡ fails es
unfolding case_of failure_of
failing-cases_of [] = refl
failing-cases_of (test_finished id status d m ∷ es) = ground (arith, failing-cases_of es)
failing-cases_of (run_start n ∷ es) = failing-cases_of es
failing-cases_of (test_start id file ∷ es) = failing-cases_of es
failing-cases_of (run_finished a b c d ∷ es) = failing-cases_of es
failing-cases_of (error m ∷ es) = failing-cases_of es

cases_of-append : (xs ys : List MachineEvent) → cases_of (xs ++ ys) ≡ cases_of xs ++ cases_of ys
cases_of-append [] ys = refl
cases_of-append (test_finished id status d m ∷ es) ys = rw (cases_of-append es ys) refl
cases_of-append (run_start n ∷ es) ys = cases_of-append es ys
cases_of-append (test_start id file ∷ es) ys = cases_of-append es ys
cases_of-append (run_finished a b c d ∷ es) ys = cases_of-append es ys
cases_of-append (error m ∷ es) ys = cases_of-append es ys

-- Inner events add their cases; the end of the run makes the report of them.
notify_all-report :
    (r : JunitReporter) (body : List MachineEvent) (p f k d : ℕ)
    → All Inner body
    → (notify_all r (body ++ run_finished p f k d ∷ [])).report
      ≡ some (record {
        name = chars "tach";
        tests = p + f + k;
        failures = f;
        errors = 0;
        skipped = k;
        time = d;
        cases = r.cases ++ cases_of body;
      })
unfolding notify_all notify
notify_all-report r [] p f k d h = rw (append-nil r.cases) refl
notify_all-report r (test_finished id status t m ∷ es) p f k d h =
    notify_all-report (notify r (test_finished id status t m)) es p f k d h.1
    ∙ rw (append_assoc r.cases (case_of id status t m ∷ []) (cases_of es)) refl
notify_all-report r (test_start id file ∷ es) p f k d h = notify_all-report r es p f k d h.1
notify_all-report r (error m ∷ es) p f k d h = notify_all-report (notify r (error m)) es p f k d h.1
notify_all-report r (run_start n ∷ es) p f k d h = absurd h.0
notify_all-report r (run_finished a b c e ∷ es) p f k d h = absurd h.0

notify_all-started :
    (r : JunitReporter) (total : ℕ) (body : List MachineEvent) (p f k d : ℕ)
    → All Inner body
    → (notify_all r (run_start total ∷ (body ++ run_finished p f k d ∷ []))).report
      ≡ some (record {
        name = chars "tach";
        tests = p + f + k;
        failures = f;
        errors = 0;
        skipped = k;
        time = d;
        cases = cases_of body;
      })
unfolding notify_all notify
notify_all-started r total body p f k d h =
    notify_all-report (notify r (run_start total)) body p f k d h

-- The report that the JUnit reporter makes of a run that has ended, whatever it held before, has the
-- cases of the finished tests, in order, as many as it counts tests, and counts as failures exactly
-- the cases that have one; none of them is counted as an error or as skipped.
pub notify_all-Reaches :
    (c : Setup) (total : ℕ) (tests : List RunnableTest) (s : Scheduler) (r : JunitReporter)
    → Reaches c total tests finished s
    → (suite : TestSuite) × ((notify_all r s.reported).report ≡ some suite)
      × (suite.cases ≡ cases_of s.reported)
      × (suite.tests ≡ length suite.cases)
      × (suite.failures ≡ failing suite.cases)
      × (suite.errors ≡ 0)
      × (suite.skipped ≡ 0)
notify_all-Reaches c total tests s r run =
    let (body, d, inner, e) = finished-Closed c total tests s run in
    let (passed, failed, collected) = Reaches-Counts c total tests finished s run in
    let closing = run_finished s.passed s.failed 0 d ∷ [] in
    let same : cases_of body ≡ cases_of s.reported =
      sym (ap (λ l. cases_of l) e ∙ cases_of-append body closing ∙ append-nil (cases_of body)) in
    let size : length (cases_of body) ≡ s.passed + s.failed =
      rw same (omega (arith, length-cases_of s.reported, passed, failed)) in
    let failures : failing (cases_of body) ≡ s.failed =
      rw same (failing-cases_of s.reported ∙ sym failed) in
    (
      record {
        name = chars "tach";
        tests = s.passed + s.failed + 0;
        failures = s.failed;
        errors = 0;
        skipped = 0;
        time = d;
        cases = cases_of body;
      },
      ap (λ l. (notify_all r l).report) e
          ∙ notify_all-started r total body s.passed s.failed 0 d inner,
      same,
      omega (arith, size),
      sym failures,
      refl,
      refl,
    )
