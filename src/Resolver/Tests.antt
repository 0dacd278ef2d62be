-- ===== src/Resolver/Tests.antt =====
-- Small inputs, and what the resolver does on them: a conftest.py, a test file with a class, a
-- cycle and a missing fixture.
use tach_core.Base.{
  if◌then◌else◌, ◌==◌, ==_iff, ◌<◌, ℕ, Text, String, chars, contains, true, false, none, some, List,
  [], ◌∷◌, ◌≡◌, ◌≢◌, refl, arith, list_eq, nat_eq, list_beq, get, insert, pair_beq, get_last?,
  starts_with, split_once, contains_text, split_first, keep_if, pop, ◌⊎◌, inl, inr, length, ◌+◌,
}
use tach_core.Discovery.Types.{
  function, FixtureDefinition, TestCase, FilePath, TestModule, DiscoveryResult, test_count,
}
use tach_core.Resolver.Order.Whole.{IsRunnable, resolve_test-IsRunnable}
use tach_core.Resolver.Fuel.{resolve_test-ne-out_of_fuel}
use tach_core.Resolver.Errors.{DependsOn, IsJustified, resolve_test-IsJustified}
use tach_core.Resolver.Precedence.{find_fixture}
use tach_core.Resolver.Precedence.Whole.{lookup-from_discovery}
use tach_core.Resolver.Batch.{oks, errs, outcomes, resolve_all-partition}
use tach_core.Resolver.Total.{
  IsRanked, Provided, resolve_test-ne-cyclic_dependency, resolve_test_total,
}
use tach_core.Resolver.Registry.{
  is_builtin_fixture, is_conftest, FixtureRegistry, from_discovery, add_modules, add_module,
  add_fixtures, add_fixture, class_of_test, get_in, in_class, lookup,
}
use tach_core.Resolver.Outcome.{missing_fixture, cyclic_dependency, ok, err, out_of_fuel}
use tach_core.Resolver.Resolve.{
  RunnableTest, resolve_each, resolve_found, leave, resolve_step, resolve_fixture,
  direct_dependencies, registry_names, finder, resolve_direct, resolve_test, resolve_all,
}

program : Unit {0}
unfolding from_discovery add_modules add_module add_fixtures add_fixture is_conftest get insert
    pair_beq list_beq get_last? is_builtin_fixture contains class_of_test get_in in_class lookup
    starts_with split_once contains_text split_first keep_if pop resolve_each resolve_found leave
    resolve_step resolve_fixture direct_dependencies registry_names resolve_direct resolve_test
program = tt

abbrev fixture : String → List Text → FixtureDefinition
fixture name deps = record {
  name = chars name;
  scope = function;
  dependencies = deps;
  params = none;
  class_scope = none;
}

abbrev test : String → List Text → TestCase
test name deps = record {
  name = chars name;
  dependencies = deps;
  is_async = false;
  line_number = 1;
  parametrized_args = chars "n" ∷ [];
}

abbrev conftest_path : FilePath
conftest_path = chars "conftest.py" ∷ []

abbrev test_path : FilePath
test_path = chars "test_chain.py" ∷ []

abbrev base : FixtureDefinition
base = fixture "base" []

abbrev db : FixtureDefinition
db = fixture "db" (chars "base" ∷ chars "monkeypatch" ∷ [])

abbrev class_db : FixtureDefinition
class_db = record (fixture "db" []) { class_scope = some (chars "TestDb") }

abbrev conftest_module : TestModule
conftest_module = record {
  path = conftest_path;
  tests = [];
  fixtures = base ∷ db ∷ fixture "a" (chars "b" ∷ []) ∷ fixture "b" (chars "a" ∷ []) ∷ [];
}

abbrev test_foo : TestCase
test_foo = test "test_foo" (chars "db" ∷ chars "n" ∷ [])

abbrev test_cycle : TestCase
test_cycle = test "test_cycle" (chars "a" ∷ [])

abbrev test_missing : TestCase
test_missing = test "test_missing" (chars "nope" ∷ [])

abbrev test_module : TestModule
test_module = record {
  path = test_path;
  tests = test_foo ∷ test_cycle ∷ test_missing ∷ [];
  fixtures = class_db ∷ [];
}

abbrev discovery : DiscoveryResult
discovery = record { modules = conftest_module ∷ test_module ∷ [] }

abbrev registry : FixtureRegistry
registry = from_discovery discovery

abbrev runnable_foo : RunnableTest
runnable_foo = record {
  file_path = test_path;
  test_name = chars "test_foo";
  is_async = false;
  fixtures =
      record { name = chars "base"; source_file = conftest_path; scope = function }
      ∷ record { name = chars "db"; source_file = conftest_path; scope = function }
      ∷ [];
}

resolve_foo : resolve_test registry test_foo test_path ≡ ok runnable_foo
unfolding program
resolve_foo = refl

resolve_cycle :
    resolve_test registry test_cycle test_path
    ≡ err (cyclic_dependency (chars "test_cycle") (chars "a" ∷ chars "b" ∷ chars "a" ∷ []))
unfolding program
resolve_cycle = refl

resolve_missing :
    resolve_test registry test_missing test_path
    ≡ err (missing_fixture (chars "test_missing") (chars "nope"))
unfolding program
resolve_missing = refl

-- The class's own `db` is found for its tests, and the global one for the others.
lookup_class :
    (lookup registry (chars "db") test_path (chars "TestDb::test_m") ≡ some (class_db, test_path))
    × (lookup registry (chars "db") test_path (chars "test_foo") ≡ some (db, conftest_path))
unfolding program
lookup_class = (refl, refl)

resolve_test-IsRunnable_example : IsRunnable registry test_foo test_path runnable_foo
resolve_test-IsRunnable_example =
    resolve_test-IsRunnable registry test_foo test_path runnable_foo resolve_foo

resolve_test-ne-out_of_fuel_example : resolve_test registry test_cycle test_path ≢ out_of_fuel
resolve_test-ne-out_of_fuel_example = resolve_test-ne-out_of_fuel registry test_cycle test_path

resolve_test-IsJustified_example :
    IsJustified
      (finder registry test_cycle test_path)
      (chars "test_cycle")
      (direct_dependencies test_cycle)
      (cyclic_dependency (chars "test_cycle") (chars "a" ∷ chars "b" ∷ chars "a" ∷ []))
resolve_test-IsJustified_example =
    resolve_test-IsJustified registry test_cycle test_path
      (cyclic_dependency (chars "test_cycle") (chars "a" ∷ chars "b" ∷ chars "a" ∷ []))
      resolve_cycle

lookup-from_discovery_example :
    lookup registry (chars "db") test_path (chars "TestDb::test_m")
    ≡ find_fixture discovery.modules (chars "db") test_path (chars "TestDb::test_m")
lookup-from_discovery_example =
    lookup-from_discovery discovery (chars "db") test_path (chars "TestDb::test_m")

resolve_all-partition_example :
    (resolve_all registry discovery ≡ record {
      runnables = oks (outcomes registry discovery.modules);
      errors = errs (outcomes registry discovery.modules);
    })
    × (length (resolve_all registry discovery).runnables
          + length (resolve_all registry discovery).errors
        ≡ test_count discovery)
resolve_all-partition_example = resolve_all-partition registry discovery

-- A registry without cycles, for the theorems that ask for a rank.
abbrev chain : FixtureRegistry
chain = record {
  global = (chars "base", (base, conftest_path)) ∷ (chars "db", (db, conftest_path)) ∷ [];
  local = [];
  class_scoped = [];
}

abbrev test_db : TestCase
test_db = test "test_db" (chars "db" ∷ [])

abbrev rank : Text → ℕ
rank name = if name == chars "db" then 1 else 0

finder-chain : (a : Text) → finder chain test_db test_path a ≡ get chain.global a
unfolding lookup in_class class_of_test get_in get contains_text split_first split_once starts_with
finder-chain a = refl

-- Only `db` has dependencies.
chain_deps :
    (a b : Text)
    → DependsOn (finder chain test_db test_path) a b
    → (a ≡ chars "db") × ((b ≡ chars "base") ⊎ (b ≡ chars "monkeypatch"))
unfolding get contains
chain_deps a b d = ground (
  arith,
  d.found,
  d.needs,
  finder-chain a,
  ==_iff (chars "base") a,
  ==_iff (chars "db") a,
  ==_iff (chars "base") b,
  ==_iff (chars "monkeypatch") b,
)

ranked :
    {a b : Text}
    → (a ≡ chars "db") × ((b ≡ chars "base") ⊎ (b ≡ chars "monkeypatch"))
    → rank b < rank a
unfolding list_beq
ranked (ea, inl eb) = rw (ea, eb) (omega arith)
ranked (ea, inr eb) = rw (ea, eb) (omega arith)

chain-IsRanked : IsRanked (finder chain test_db test_path) rank
chain-IsRanked a b d = ranked (chain_deps a b d)

only_db : direct_dependencies test_db ≡ chars "db" ∷ []
unfolding program
only_db = refl

direct : (d : Text) → contains (direct_dependencies test_db) d ≡ true → chars "db" ≡ d
unfolding contains
direct d h = ground (arith, only_db, h, ==_iff (chars "db") d)

chain_direct :
    (d : Text)
    → contains (direct_dependencies test_db) d ≡ true
    → Provided (finder chain test_db test_path) d
unfolding program
chain_direct d h = rw (← direct d h) (inr ((db, conftest_path), refl))

provided :
    {b : Text}
    → (b ≡ chars "base") ⊎ (b ≡ chars "monkeypatch")
    → Provided (finder chain test_db test_path) b
unfolding program
provided (inl e) = rw e (inr ((base, conftest_path), refl))
provided (inr e) = rw e (inl refl)

chain-Provided :
    (a b : Text)
    → DependsOn (finder chain test_db test_path) a b
    → Provided (finder chain test_db test_path) b
chain-Provided a b d = provided (chain_deps a b d).1

resolve_test-ne-cyclic_dependency_example :
    resolve_test chain test_db test_path
    ≢ err (cyclic_dependency (chars "test_db") (chars "db" ∷ chars "db" ∷ []))
resolve_test-ne-cyclic_dependency_example =
    resolve_test-ne-cyclic_dependency chain test_db test_path rank chain-IsRanked (chars "test_db")
      (chars "db" ∷ chars "db" ∷ [])

resolve_test_total_example : (r : RunnableTest) × (resolve_test chain test_db test_path ≡ ok r)
resolve_test_total_example =
    resolve_test_total chain test_db test_path rank chain-IsRanked chain_direct chain-Provided
