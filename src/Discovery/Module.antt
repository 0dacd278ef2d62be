-- ===== src/Discovery/Module.antt =====
-- The analysis of one parsed module (src/discovery.rs, parse_module and what it calls). The file
-- system and rustpython's parser are parameters.
use Prim.Native.Nat.{min}
use tach_core.Base.{
  ℕ, ◌+◌, Text, chars, Bool, true, false, not, ◌&&◌, ◌==◌, Option, none, some, List, [], ◌∷◌, ◌++◌,
  keep_if, if◌then◌else◌, list_eq, nat_eq, length, take, starts_with,
}
use tach_core.Discovery.Types.{FixtureDefinition, TestCase, TestModule, FilePath}
use tach_core.Discovery.Ast.{
  FunctionDef, Member, method, async_method, other_member, Stmt, function_def, async_function_def,
  class_def, other_stmt,
}
use tach_core.Discovery.Decorators.{
  has_fixture_decorator, extract_scope_from_decorators, extract_params_from_decorators,
}
use tach_core.Discovery.Injected.{extract_injected_args}

unfoldable pub newlines : List ℕ → ℕ
newlines [] = 0
newlines (c ∷ s) = (if c == 10 then 1 else 0) + newlines s

-- Over the bytes of the source: a line feed is one byte in UTF-8, and part of no other character.
unfoldable pub get_line_number : List ℕ → ℕ → ℕ
unfolding newlines
get_line_number source byte_offset = newlines (take (min byte_offset (length source)) source) + 1

abbrev pub is_argument : Text → Bool
is_argument name = not (name == chars "self") && not (name == chars "cls")

unfoldable pub extract_args_from_arguments : List Text → List Text
unfolding keep_if
extract_args_from_arguments args = keep_if is_argument args

-- What one module collects.
pub record Parsed : Type 0 where
  pub tests : List TestCase
  pub fixtures : List FixtureDefinition

abbrev pub nothing_parsed : Parsed
nothing_parsed = record { tests = []; fixtures = [] }

module _ (source : List ℕ) where
  abbrev pub new_test : Text → Bool → FunctionDef → TestCase
  new_test name is_async func = record {
    name = name;
    dependencies = extract_args_from_arguments func.args;
    is_async = is_async;
    line_number = get_line_number source func.start;
    parametrized_args =
        extract_injected_args func.decorator_list (extract_args_from_arguments func.args);
  }

abbrev pub new_fixture : Option Text → FunctionDef → FixtureDefinition
new_fixture class_scope func = record {
  name = func.name;
  scope = extract_scope_from_decorators func.decorator_list;
  dependencies = extract_args_from_arguments func.args;
  params = extract_params_from_decorators func.decorator_list;
  class_scope = class_scope;
}

abbrev pub push_test : TestCase → Parsed → Parsed
push_test t p = record p { tests = p.tests ++ t ∷ [] }

abbrev pub push_fixture : FixtureDefinition → Parsed → Parsed
push_fixture f p = record p { fixtures = p.fixtures ++ f ∷ [] }

abbrev pub is_test_name : Text → Bool
is_test_name name = starts_with name (chars "test_")

abbrev pub in_class_name : Text → Text → Text
in_class_name class_name method_name = class_name ++ (chars "::" ++ method_name)

module _ (source : List ℕ) where
  -- A top-level function: first the test, then the fixture.
  unfoldable pub analyze_function : Bool → FunctionDef → Parsed → Parsed
  analyze_function is_async func p =
      let tested : Parsed =
        if is_test_name func.name
        then push_test (new_test source func.name is_async func) p
        else p in
      if has_fixture_decorator func.decorator_list
      then push_fixture (new_fixture none func) tested
      else tested

  -- The branch for an `async def`, which the source writes out again.
  unfoldable pub analyze_async_function : FunctionDef → Parsed → Parsed
  analyze_async_function func p =
      let tested : Parsed =
        if is_test_name func.name then push_test (new_test source func.name true func) p else p in
      if has_fixture_decorator func.decorator_list
      then push_fixture (new_fixture none func) tested
      else tested

  -- A method of a test class: first the fixture, then the test.
  unfoldable pub analyze_method : Text → Bool → FunctionDef → Parsed → Parsed
  analyze_method class_name is_async func p =
      let fixed : Parsed =
        if has_fixture_decorator func.decorator_list
        then push_fixture (new_fixture (some class_name) func) p
        else p in
      if is_test_name func.name
      then push_test (new_test source (in_class_name class_name func.name) is_async func) fixed
      else fixed

  unfoldable pub analyze_body : Text → List Member → Parsed → Parsed
  unfolding analyze_method
  analyze_body class_name [] p = p
  analyze_body class_name (method func ∷ rest) p =
      analyze_body class_name rest (analyze_method class_name false func p)
  analyze_body class_name (async_method func ∷ rest) p =
      analyze_body class_name rest (analyze_method class_name true func p)
  analyze_body class_name (other_member ∷ rest) p = analyze_body class_name rest p

  unfoldable pub analyze_suite : List Stmt → Parsed → Parsed
  unfolding analyze_function analyze_async_function analyze_body
  analyze_suite [] p = p
  analyze_suite (function_def func ∷ rest) p = analyze_suite rest (analyze_function false func p)
  analyze_suite (async_function_def func ∷ rest) p =
      analyze_suite rest (analyze_async_function func p)
  analyze_suite (class_def class_name body ∷ rest) p =
      analyze_suite rest
        (if starts_with class_name (chars "Test") then analyze_body class_name body p else p)
  analyze_suite (other_stmt ∷ rest) p = analyze_suite rest p

-- The file system's read and rustpython's parser; `none` is an error.
module _ (read_to_string : FilePath → Option (List ℕ))
    (parse_program : List ℕ → FilePath → Option (List Stmt)) where
  abbrev pub to_module : FilePath → Parsed → TestModule
  to_module path p = record { path = path; tests = p.tests; fixtures = p.fixtures }

  -- A file that cannot be parsed is an empty module, one that cannot be read an error.
  unfoldable pub parse_module : FilePath → Option TestModule
  unfolding analyze_suite
  parse_module path = elim (read_to_string path) [
    | none ↦ none
    | some source ↦ elim (parse_program source path) [
      | none ↦ some (to_module path nothing_parsed)
      | some suite ↦ some (to_module path (analyze_suite source suite nothing_parsed))
    ]
  ]
