-- ===== src/Resolver/Batch.antt =====
-- `resolve_all` (src/resolver.rs) against the outcomes of the single tests.
use tach_core.Base.{
  ◌+◌, List, [], ◌∷◌, ◌++◌, map, length, length-append, append_assoc, append-nil, ◌≡◌, refl, ◌∙◌,
  arith,
}
use tach_core.Discovery.Types.{TestCase, FilePath, TestModule, DiscoveryResult, test_count}
use tach_core.Resolver.Registry.{FixtureRegistry}
use tach_core.Resolver.Outcome.{ResolutionError, Outcome, ok, err, out_of_fuel}
use tach_core.Resolver.Resolve.{
  RunnableTest, Resolved, push_outcome, resolve_test, resolve_tests, resolve_modules, resolve_all,
}
use tach_core.Resolver.Fuel.{resolve_test-ne-out_of_fuel}

abbrev pub oks : List (Outcome RunnableTest) → List RunnableTest
oks [] = []
oks (ok r ∷ os) = r ∷ oks os
oks (err _ ∷ os) = oks os
oks (out_of_fuel ∷ os) = oks os

abbrev pub errs : List (Outcome RunnableTest) → List ResolutionError
errs [] = []
errs (ok _ ∷ os) = errs os
errs (err x ∷ os) = x ∷ errs os
errs (out_of_fuel ∷ os) = errs os

module _ (registry : FixtureRegistry) where
  unfoldable pub outcomes_of : FilePath → List TestCase → List (Outcome RunnableTest)
  outcomes_of path = map (λ t. resolve_test registry t path)

  -- The outcome of each test, in the order of the discovery.
  unfoldable pub outcomes : List TestModule → List (Outcome RunnableTest)
  unfolding outcomes_of
  outcomes [] = []
  outcomes (m ∷ ms) = outcomes_of m.path m.tests ++ outcomes ms

abbrev collected : Resolved → List (Outcome RunnableTest) → Resolved
collected r os = record { runnables = r.runnables ++ oks os; errors = r.errors ++ errs os }

collected-push :
    (r : Resolved) (o : Outcome RunnableTest) (os : List (Outcome RunnableTest))
    → collected (push_outcome r o) os ≡ collected r (o ∷ os)
collected-push r (ok x) os = simp append_assoc
collected-push r (err x) os = simp append_assoc
collected-push r out_of_fuel os = refl

pub oks-append : (os os' : List (Outcome RunnableTest)) → oks (os ++ os') ≡ oks os ++ oks os'
oks-append [] os' = refl
oks-append (ok x ∷ os) os' = cc (oks-append os os')
oks-append (err x ∷ os) os' = oks-append os os'
oks-append (out_of_fuel ∷ os) os' = oks-append os os'

errs-append : (os os' : List (Outcome RunnableTest)) → errs (os ++ os') ≡ errs os ++ errs os'
errs-append [] os' = refl
errs-append (ok x ∷ os) os' = errs-append os os'
errs-append (err x ∷ os) os' = cc (errs-append os os')
errs-append (out_of_fuel ∷ os) os' = errs-append os os'

module _ (registry : FixtureRegistry) where
  resolve_tests-eq :
      (path : FilePath) (ts : List TestCase) (r : Resolved)
      → resolve_tests registry path ts r ≡ collected r (outcomes_of registry path ts)
  unfolding resolve_tests outcomes_of
  resolve_tests-eq path [] r = simp append-nil
  resolve_tests-eq path (t ∷ ts) r =
      let o = resolve_test registry t path in
      resolve_tests-eq path ts (push_outcome r o)
      ∙ collected-push r o (outcomes_of registry path ts)

  resolve_modules-eq :
      (ms : List TestModule) (r : Resolved)
      → resolve_modules registry ms r ≡ collected r (outcomes registry ms)
  unfolding resolve_modules outcomes
  resolve_modules-eq [] r = simp append-nil
  resolve_modules-eq (m ∷ ms) r =
      let os = outcomes_of registry m.path m.tests in
      rw
        (
          resolve_tests-eq m.path m.tests r,
          resolve_modules-eq ms (collected r os),
          oks-append os (outcomes registry ms),
          errs-append os (outcomes registry ms),
        )
        (simp append_assoc)

  length_of_outcomes :
      (path : FilePath) (ts : List TestCase)
      → length (oks (outcomes_of registry path ts)) + length (errs (outcomes_of registry path ts))
        ≡ length ts
  unfolding outcomes_of
  length_of_outcomes path [] = omega arith
  length_of_outcomes path (t ∷ ts) =
      ground (arith, resolve_test-ne-out_of_fuel registry t path, length_of_outcomes path ts)

  length-outcomes :
      (ms : List TestModule)
      → length (oks (outcomes registry ms)) + length (errs (outcomes registry ms))
        ≡ test_count (record { modules = ms })
  unfolding outcomes test_count
  length-outcomes [] = omega arith
  length-outcomes (m ∷ ms) =
      let os = outcomes_of registry m.path m.tests in
      let os' = outcomes registry ms in
      rw (oks-append os os', errs-append os os')
        (omega (
          arith,
          length-append (oks os) (oks os'),
          length-append (errs os) (errs os'),
          length_of_outcomes m.path m.tests,
          length-outcomes ms,
        ))

-- `resolve_all` returns the fixtures of the tests that resolve, and the errors of those that do
-- not, both in the order of discovery, and every discovered test is counted in one of the two.
pub resolve_all-partition :
    (registry : FixtureRegistry) (result : DiscoveryResult)
    → (resolve_all registry result ≡ record {
      runnables = oks (outcomes registry result.modules);
      errors = errs (outcomes registry result.modules);
    })
      × (length (resolve_all registry result).runnables
            + length (resolve_all registry result).errors
          ≡ test_count result)
unfolding resolve_all
resolve_all-partition registry result =
    let e = resolve_modules-eq registry result.modules (record { runnables = []; errors = [] }) in
    (e, rw e (length-outcomes registry result.modules))
