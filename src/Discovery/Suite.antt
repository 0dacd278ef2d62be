-- ===== src/Discovery/Suite.antt =====
-- What the analysis of a module collects (src/discovery.rs), by one rule for all definitions: the
-- top-level functions and the methods of test classes, `async` or not.
use tach_core.Base.{
  ℕ, Text, chars, Bool, true, false, Option, none, some, List, [], ◌∷◌, ◌++◌, map, map-append,
  keep_if, keep_if-append, ap, ◌≡◌, ◌∙◌, append_assoc, append-nil, arith, if◌then◌else◌,
  starts_with, list_eq, nat_eq,
}
use tach_core.Discovery.Types.{FixtureDefinition, TestCase}
use tach_core.Discovery.Ast.{
  FunctionDef, Member, method, async_method, other_member, Stmt, function_def, async_function_def,
  class_def, other_stmt,
}
use tach_core.Discovery.Decorators.{has_fixture_decorator}
use tach_core.Discovery.Module.{
  Parsed, nothing_parsed, new_test, new_fixture, is_test_name, in_class_name, analyze_function,
  analyze_async_function, analyze_method, analyze_body, analyze_suite,
}

-- A function definition of a module, with the test class that it stands in.
pub record Definition : Type 0 where
  pub in_class : Option Text
  pub is_async : Bool
  pub func : FunctionDef

abbrev define : Option Text → Bool → FunctionDef → Definition
define c a f = record { in_class = c; is_async = a; func = f }

unfoldable pub definitions_of_body : Text → List Member → List Definition
definitions_of_body c [] = []
definitions_of_body c (method f ∷ rest) = define (some c) false f ∷ definitions_of_body c rest
definitions_of_body c (async_method f ∷ rest) = define (some c) true f ∷ definitions_of_body c rest
definitions_of_body c (other_member ∷ rest) = definitions_of_body c rest

unfoldable pub definitions_of : List Stmt → List Definition
unfolding definitions_of_body
definitions_of [] = []
definitions_of (function_def f ∷ rest) = define none false f ∷ definitions_of rest
definitions_of (async_function_def f ∷ rest) = define none true f ∷ definitions_of rest
definitions_of (class_def c body ∷ rest) =
    (if starts_with c (chars "Test") then definitions_of_body c body else []) ++ definitions_of rest
definitions_of (other_stmt ∷ rest) = definitions_of rest

-- The name of a test: behind that of its class, if it has one.
abbrev pub test_name_in : Option Text → Text → Text
test_name_in none name = name
test_name_in (some c) name = in_class_name c name

abbrev pub test_of : List ℕ → Definition → TestCase
test_of source d = new_test source (test_name_in d.in_class d.func.name) d.is_async d.func

abbrev pub fixture_of : Definition → FixtureDefinition
fixture_of d = new_fixture d.in_class d.func

abbrev pub is_test : Definition → Bool
is_test d = is_test_name d.func.name

abbrev pub is_fixture : Definition → Bool
is_fixture d = has_fixture_decorator d.func.decorator_list

module _ (source : List ℕ) where
  abbrev tests_in : List Definition → List TestCase
  tests_in ds = map (test_of source) (keep_if is_test ds)

  abbrev fixtures_in : List Definition → List FixtureDefinition
  fixtures_in ds = map fixture_of (keep_if is_fixture ds)

  abbrev extended : Parsed → List Definition → Parsed
  extended p ds = record { tests = p.tests ++ tests_in ds; fixtures = p.fixtures ++ fixtures_in ds }

  extended-append :
      (p : Parsed) (ds es : List Definition) → extended (extended p ds) es ≡ extended p (ds ++ es)
  extended-append p ds es =
      rw (keep_if-append is_test ds es, keep_if-append is_fixture ds es)
        (simp (map-append, append_assoc))

  analyze_function-eq :
      (a : Bool) (f : FunctionDef) (p : Parsed)
      → analyze_function source a f p ≡ extended p (define none a f ∷ [])
  unfolding analyze_function keep_if
  analyze_function-eq a f p = ground (arith, append-nil p.tests, append-nil p.fixtures)

  analyze_async_function-eq :
      (f : FunctionDef) (p : Parsed)
      → analyze_async_function source f p ≡ extended p (define none true f ∷ [])
  unfolding analyze_async_function keep_if
  analyze_async_function-eq f p = ground (arith, append-nil p.tests, append-nil p.fixtures)

  analyze_method-eq :
      (c : Text) (a : Bool) (f : FunctionDef) (p : Parsed)
      → analyze_method source c a f p ≡ extended p (define (some c) a f ∷ [])
  unfolding analyze_method keep_if
  analyze_method-eq c a f p = ground (arith, append-nil p.tests, append-nil p.fixtures)

  analyze_body-eq :
      (c : Text) (body : List Member) (p : Parsed)
      → analyze_body source c body p ≡ extended p (definitions_of_body c body)
  unfolding analyze_body definitions_of_body keep_if
  analyze_body-eq c [] p = simp append-nil
  analyze_body-eq c (method f ∷ rest) p = rw (analyze_method-eq c false f p) (
      analyze_body-eq c rest _
      ∙ extended-append p (define (some c) false f ∷ []) (definitions_of_body c rest))
  analyze_body-eq c (async_method f ∷ rest) p = rw (analyze_method-eq c true f p) (
      analyze_body-eq c rest _
      ∙ extended-append p (define (some c) true f ∷ []) (definitions_of_body c rest))
  analyze_body-eq c (other_member ∷ rest) p = analyze_body-eq c rest p

  analyze_class-eq :
      (c : Text) (body : List Member) (p : Parsed)
      → (if starts_with c (chars "Test") then analyze_body source c body p else p)
        ≡ extended p (if starts_with c (chars "Test") then definitions_of_body c body else [])
  unfolding keep_if
  analyze_class-eq c body p =
      ground (arith, analyze_body-eq c body p, append-nil p.tests, append-nil p.fixtures)

  analyze_suite-extends :
      (suite : List Stmt) (p : Parsed)
      → analyze_suite source suite p ≡ extended p (definitions_of suite)
  unfolding analyze_suite definitions_of keep_if
  analyze_suite-extends [] p = simp append-nil
  analyze_suite-extends (function_def f ∷ rest) p = rw (analyze_function-eq false f p) (
      analyze_suite-extends rest _
      ∙ extended-append p (define none false f ∷ []) (definitions_of rest))
  analyze_suite-extends (async_function_def f ∷ rest) p = rw (analyze_async_function-eq f p) (
      analyze_suite-extends rest _
      ∙ extended-append p (define none true f ∷ []) (definitions_of rest))
  analyze_suite-extends (class_def c body ∷ rest) p = rw (analyze_class-eq c body p) (
      analyze_suite-extends rest _
      ∙ extended-append p (if starts_with c (chars "Test") then definitions_of_body c body else [])
          (definitions_of rest))
  analyze_suite-extends (other_stmt ∷ rest) p = analyze_suite-extends rest p

-- The analysis of a module collects, in source order, a test for each definition whose name begins
-- with "test_" and a fixture for each that is decorated as one, where the definitions are the
-- top-level functions and the methods of the classes whose name begins with "Test", both plain and
-- async; a test in a class is named "Class::method", and a fixture in a class is scoped to it.
pub analyze_suite-eq :
    (source : List ℕ) (suite : List Stmt)
    → (analyze_suite source suite nothing_parsed).tests
        ≡ map (test_of source) (keep_if is_test (definitions_of suite))
      × (analyze_suite source suite nothing_parsed).fixtures
        ≡ map fixture_of (keep_if is_fixture (definitions_of suite))
analyze_suite-eq source suite =
    let e = analyze_suite-extends source suite nothing_parsed in
    (ap (λ (p : Parsed). p.tests) e, ap (λ (p : Parsed). p.fixtures) e)
