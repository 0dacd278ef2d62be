-- ===== src/Resolver/Resolve.antt =====
-- `Resolver`: depth-first resolution of a test's fixtures, with cycle detection.
-- A resolution that recurs deeper than its fuel is `out_of_fuel`; `Resolver/Fuel.antt` shows that
-- the fuel given by `resolve_test` is never used up.
use tach_core.Base.{
  ℕ, zero, suc, Text, contains, Bool, not, Option, none, some, List, [], ◌∷◌, ◌++◌, length, pop,
  if◌then◌else◌, keep_if, list_eq, nat_eq, Assoc,
}
use tach_core.Discovery.Types.{
  FixtureScope, FixtureDefinition, TestCase, FilePath, TestModule, DiscoveryResult,
}
use tach_core.Resolver.Outcome.{
  ResolutionError, missing_fixture, cyclic_dependency, Outcome, ok, err, out_of_fuel, ◌>>=◌,
}
use tach_core.Resolver.Registry.{Found, FixtureRegistry, is_builtin_fixture, lookup}

pub record ResolvedFixture : Type 0 where
  pub name : Text
  pub source_file : FilePath
  pub scope : FixtureScope

pub record RunnableTest : Type 0 where
  pub file_path : FilePath
  pub test_name : Text
  pub is_async : Bool
  pub fixtures : List ResolvedFixture

-- What one resolution mutates: the resolved list, the visited set and the recursion stack.
pub record Progress : Type 0 where
  pub resolved : List ResolvedFixture
  pub visited : List Text
  pub stack : List Text

abbrev pub fresh : Progress
fresh = record { resolved = []; visited = []; stack = [] }

-- The lookup of one test, and the test's name for the errors.
module _ (find : Text → Option Found) (test_name : Text) where
  -- The loop over dependencies, with the recursive call as a parameter.
  unfoldable pub resolve_each :
      (Text → Progress → Outcome Progress) → List Text → Progress → Outcome Progress
  resolve_each resolve [] p = ok p
  resolve_each resolve (dep ∷ deps) p = do p' ← resolve dep p; resolve_each resolve deps p'

  abbrev pub enter : Text → Progress → Progress
  enter name p = record p { stack = p.stack ++ name ∷ [] }

  abbrev pub resolved_fixture : Text → Found → ResolvedFixture
  resolved_fixture name (fixture, source_file) = record {
    name = name;
    source_file = source_file;
    scope = fixture.scope;
  }

  -- Pop the stack, mark the name as visited, and add the fixture to the resolved list.
  unfoldable pub leave : Text → Found → Progress → Progress
  unfolding pop
  leave name found p = record {
    resolved = p.resolved ++ resolved_fixture name found ∷ [];
    visited = name ∷ p.visited;
    stack = pop p.stack;
  }

  -- From the registry lookup on: the part that recurs.
  unfoldable pub resolve_found :
      (Text → Progress → Outcome Progress) → Text → Option Found → Progress → Outcome Progress
  unfolding resolve_each leave
  resolve_found resolve name none p = err (missing_fixture test_name name)
  resolve_found resolve name (some (fixture, source_file)) p = do
    p' ← resolve_each resolve fixture.dependencies (enter name p)
    ok (leave name (fixture, source_file) p')

  -- The body of `resolve_fixture`.
  unfoldable pub resolve_step :
      (Text → Progress → Outcome Progress) → Text → Progress → Outcome Progress
  unfolding resolve_found
  resolve_step resolve name p =
      if contains p.visited name
      then ok p
      else if contains p.stack name
      then err (cyclic_dependency test_name (p.stack ++ name ∷ []))
      else if is_builtin_fixture name
      then ok (record p { visited = name ∷ p.visited })
      else resolve_found resolve name (find name) p

  unfoldable pub resolve_fixture : ℕ → Text → Progress → Outcome Progress
  unfolding resolve_step
  resolve_fixture zero name p = out_of_fuel
  resolve_fixture (suc fuel) name p = resolve_step (resolve_fixture fuel) name p

-- The direct dependencies that the loop of `resolve_test` does not skip: not the parametrized ones.
unfoldable pub direct_dependencies : TestCase → List Text
unfolding keep_if
direct_dependencies test =
    keep_if (λ dep. not (contains test.parametrized_args dep)) test.dependencies

abbrev pub keys {ℓ κ} : {K : Type ℓ} {V : Type κ} → Assoc K V → List K
keys [] = []
keys ((k, v) ∷ m) = k ∷ keys m

-- The fixture names of all inner maps.
abbrev pub inner_keys {ℓ} : {K : Type ℓ} → Assoc K (Assoc Text FixtureDefinition) → List Text
inner_keys [] = []
inner_keys ((k, m) ∷ rest) = keys m ++ inner_keys rest

-- Every name that a lookup can find.
unfoldable pub registry_names : FixtureRegistry → List Text
registry_names r = keys r.global ++ (inner_keys r.local ++ inner_keys r.class_scoped)

abbrev pub finder : FixtureRegistry → TestCase → FilePath → Text → Option Found
finder registry test module_path name = lookup registry name module_path test.name

abbrev pub runnable : TestCase → FilePath → Progress → Outcome RunnableTest
runnable test module_path p = ok (record {
  file_path = module_path;
  test_name = test.name;
  is_async = test.is_async;
  fixtures = p.resolved;
})

abbrev pub fuel_of : FixtureRegistry → ℕ
fuel_of registry = suc (length (registry_names registry))

-- The direct dependencies, resolved one after the other from an empty state.
unfoldable pub resolve_direct : FixtureRegistry → TestCase → FilePath → Outcome Progress
unfolding resolve_each
resolve_direct registry test path =
    let find = finder registry test path in
    resolve_each find test.name (resolve_fixture find test.name (fuel_of registry))
      (direct_dependencies test) fresh

unfoldable pub resolve_test : FixtureRegistry → TestCase → FilePath → Outcome RunnableTest
resolve_test registry test module_path = do
  p ← resolve_direct registry test module_path
  runnable test module_path p

-- The two vectors that `resolve_all` returns.
pub record Resolved : Type 0 where
  pub runnables : List RunnableTest
  pub errors : List ResolutionError

abbrev pub push_outcome : Resolved → Outcome RunnableTest → Resolved
push_outcome r (ok test) = record r { runnables = r.runnables ++ test ∷ [] }
push_outcome r (err e) = record r { errors = r.errors ++ e ∷ [] }
push_outcome r out_of_fuel = r

unfoldable pub resolve_tests : FixtureRegistry → FilePath → List TestCase → Resolved → Resolved
resolve_tests registry path [] r = r
resolve_tests registry path (test ∷ rest) r =
    resolve_tests registry path rest (push_outcome r (resolve_test registry test path))

unfoldable pub resolve_modules : FixtureRegistry → List TestModule → Resolved → Resolved
resolve_modules registry [] r = r
resolve_modules registry (m ∷ rest) r =
    resolve_modules registry rest (resolve_tests registry m.path m.tests r)

unfoldable pub resolve_all : FixtureRegistry → DiscoveryResult → Resolved
unfolding resolve_modules resolve_tests
resolve_all registry result =
    resolve_modules registry result.modules (record { runnables = []; errors = [] })
