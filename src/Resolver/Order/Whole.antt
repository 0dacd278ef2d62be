-- ===== src/Resolver/Order/Whole.antt =====
-- The fixtures of a resolved test (src/resolver.rs, resolve_test).
use tach_core.Base.{Text, ◌≡◌, refl, [], All, All-map, contains, arith, list_eq, nat_eq, Option}
use tach_core.Discovery.Types.{TestCase, FilePath}
use tach_core.Resolver.Registry.{FixtureRegistry, Found}
use tach_core.Resolver.Outcome.{ok, ok_inj, >>=-eq-ok}
use tach_core.Resolver.Resolve.{
  RunnableTest, fresh, resolve_fixture, direct_dependencies, finder, runnable, fuel_of,
  resolve_direct, resolve_test,
}
use tach_core.Resolver.Order.{Ready, IsOrdered, IsSound}
use tach_core.Resolver.Order.Steps.{resolve_each-Resolves, resolve_fixture-Resolves}

pub IsSound-fresh : (find : Text → Option Found) → IsSound find fresh
unfolding contains
IsSound-fresh find = record {
  ordered = tt;
  visited_ready = λ d h. ground arith;
  resolved_visited = λ d h. h;
  disjoint = λ d h. refl;
}

-- What the run of a test may rely on: it is the test that was asked for, its fixtures can be set
-- up in the given order, and each direct dependency is provided.
pub record IsRunnable (registry : FixtureRegistry) (test : TestCase) (path : FilePath)
    (r : RunnableTest) : Type 0 where
  pub same_file : r.file_path ≡ path
  pub same_name : r.test_name ≡ test.name
  pub same_async : r.is_async ≡ test.is_async
  pub ordered : IsOrdered (finder registry test path) [] r.fixtures
  pub provided : All (Ready r.fixtures) (direct_dependencies test)

-- When a test resolves, the result names the test, its file and its async flag; each of its
-- fixtures is the one that the lookup finds, stands once in the list and behind all of its own
-- dependencies (pytest's builtins aside); and every direct dependency that is not parametrized is
-- a builtin or in the list.
pub resolve_test-IsRunnable :
    (registry : FixtureRegistry) (test : TestCase) (path : FilePath) (r : RunnableTest)
    → resolve_test registry test path ≡ ok r
    → IsRunnable registry test path r
unfolding resolve_test resolve_direct
resolve_test-IsRunnable registry test path r e =
    let find = finder registry test path in
    let fuel = fuel_of registry in
    let (p, done, last) = >>=-eq-ok (resolve_direct registry test path) (runnable test path) e in
    let (s, g, seen) =
      resolve_each-Resolves find test.name (resolve_fixture find test.name fuel)
        (resolve_fixture-Resolves find test.name fuel) (direct_dependencies test) fresh p
        (IsSound-fresh find) done in
    rw (← ok_inj last) (record {
      same_file = refl;
      same_name = refl;
      same_async = refl;
      ordered = s.ordered;
      provided = All-map _ _ (direct_dependencies test) s.visited_ready seen;
    })
