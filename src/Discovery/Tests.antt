-- ===== src/Discovery/Tests.antt =====
-- Small inputs, and what discovery does on them.
use tach_core.Base.{
  ℕ, String, chars, Bool, true, false, not, ◌&&◌, Option, none, some, List, [], ◌∷◌, ◌≡◌, refl, map,
  All, contains, list_eq, nat_eq, keep_if, starts_with, list_beq, any, split_char,
}
use tach_core.Discovery.Walk.{is_test_file, relative_to, has_content, walked, discover}
use tach_core.Discovery.Kept.{IsKept, has_path, discover-IsKept, any-discover}
use tach_core.Discovery.Types.{TestModule, FilePath, «module», TestCase}
use tach_core.Discovery.Ast.{
  int, str, Expr, call, attribute, name, constant, list, nil, cons, end, keyword, other,
  FunctionDef, method, async_method, Stmt, function_def, class_def,
}
use tach_core.Discovery.Decorators.{
  has_fixture_decorator, extract_scope_from_decorators, extract_params_from_decorators,
}
use tach_core.Discovery.Injected.{extract_injected_args, extract_parametrized_args, trim}
use tach_core.Discovery.Module.{
  to_module, parse_module, nothing_parsed, analyze_suite, is_argument, extract_args_from_arguments,
  get_line_number,
}
use tach_core.Discovery.Suite.{
  Definition, definitions_of, test_of, fixture_of, is_test, is_fixture, analyze_suite-eq,
}
use tach_core.Discovery.Classes.{HasPlainClasses, class_of_test-test_of}
use tach_core.Discovery.Mocks.{mocks}
use tach_core.Discovery.Injection.{first_arguments, contains-direct_dependencies}
use tach_core.Resolver.Registry.{class_of_test}
use tach_core.Resolver.Resolve.{direct_dependencies}

abbrev quoted : String → Expr
quoted s = constant (str (chars s))

abbrev pytest : String → Expr
pytest s = attribute (name (chars "pytest")) (chars s)

-- @pytest.fixture(scope="module", params=[1, "b"])
abbrev fixture_decorator : Expr
fixture_decorator = call (pytest "fixture") nil (
    keyword (some (chars "scope")) (quoted "module") (
      keyword (some (chars "params"))
        (list (cons (constant (int (chars "1"))) (cons (quoted "b") nil))) end))

-- @pytest.mark.parametrize("x, y", ...)
abbrev parametrize_decorator : Expr
parametrize_decorator =
    call (attribute (pytest "mark") (chars "parametrize")) (cons (quoted "x, y") (cons other nil))
      end

-- @patch("target")
abbrev patch_decorator : Expr
patch_decorator = call (name (chars "patch")) (cons (quoted "target") nil) end

abbrev db : FunctionDef
db = record { name = chars "db"; args = []; decorator_list = fixture_decorator ∷ []; start = 1 }

abbrev test_save : FunctionDef
test_save = record {
  name = chars "test_save";
  args = chars "self" ∷ chars "mock" ∷ chars "x" ∷ chars "db" ∷ [];
  decorator_list = patch_decorator ∷ parametrize_decorator ∷ [];
  start = 3;
}

abbrev suite : List Stmt
suite =
    function_def db
    ∷ class_def (chars "TestStore") (async_method test_save ∷ method db ∷ [])
    ∷ class_def (chars "Store") (method test_save ∷ [])
    ∷ []

abbrev source : List ℕ
source = chars "\nab\ncd\n"

save : Definition
save = record { in_class = some (chars "TestStore"); is_async = true; func = test_save }

program : Unit {0}
unfolding definitions_of keep_if starts_with list_beq any has_fixture_decorator
    extract_scope_from_decorators extract_params_from_decorators extract_injected_args
    extract_args_from_arguments get_line_number analyze_suite trim split_char contains save
    direct_dependencies
program = tt

decorators :
    (extract_scope_from_decorators db.decorator_list ≡ «module»)
    × (extract_params_from_decorators db.decorator_list ≡ some (chars "1" ∷ chars "b" ∷ []))
    × (extract_parametrized_args test_save.decorator_list ≡ chars "x" ∷ chars "y" ∷ [])
unfolding program
decorators = (refl, refl, refl)

suite_tests :
    map (λ (t : TestCase). t.name) (analyze_suite source suite nothing_parsed).tests
    ≡ chars "TestStore::test_save" ∷ []
unfolding program
suite_tests = refl

-- The mock is injected, `x` is parametrized; only `db` is left to resolve.
save_dependencies : direct_dependencies (test_of source save) ≡ chars "db" ∷ []
unfolding program
save_dependencies = refl

analyze_suite-eq_example :
    (analyze_suite source suite nothing_parsed).tests
      ≡ map (test_of source) (keep_if is_test (definitions_of suite))
    × (analyze_suite source suite nothing_parsed).fixtures
      ≡ map fixture_of (keep_if is_fixture (definitions_of suite))
analyze_suite-eq_example = analyze_suite-eq source suite

suite-HasPlainClasses : HasPlainClasses suite
unfolding contains
suite-HasPlainClasses = (refl, (refl, tt))

class_of_test-test_of_example :
    All
      (λ d. class_of_test (test_of source d).name ≡ d.in_class)
      (keep_if is_test (definitions_of suite))
class_of_test-test_of_example = class_of_test-test_of source suite suite-HasPlainClasses

contains-direct_dependencies_example :
    contains (direct_dependencies (test_of source save)) (chars "db") ≡ (
      contains save.func.args (chars "db")
      && is_argument (chars "db")
      && not (contains (extract_parametrized_args save.func.decorator_list) (chars "db"))
      && not (
          contains
            (first_arguments
              (mocks save.func.decorator_list)
              (extract_args_from_arguments save.func.args))
            (chars "db")))
unfolding program
contains-direct_dependencies_example =
    contains-direct_dependencies source save (chars "db") (refl, (refl, tt))

-- @patch.object(target, "name")
abbrev object_decorator : Expr
object_decorator =
    call (attribute (name (chars "patch")) (chars "object")) (cons (quoted "target") nil) end

abbrev test_object : FunctionDef
test_object = record test_save { decorator_list = object_decorator ∷ [] }

-- Its mock is left to resolve.
object_dependencies :
    direct_dependencies
      (test_of source (record { in_class = none; is_async = false; func = test_object }))
    ≡ chars "mock" ∷ chars "x" ∷ chars "db" ∷ []
unfolding program
object_dependencies = refl

abbrev root : FilePath
root = chars "/" ∷ chars "repo" ∷ []

abbrev test_path : FilePath
test_path = chars "/" ∷ chars "repo" ∷ chars "test_store.py" ∷ []

abbrev entries : List (Option FilePath)
entries = some test_path ∷ none ∷ some (chars "/" ∷ chars "repo" ∷ chars "store.py" ∷ []) ∷ []

abbrev every_file : FilePath → Bool
every_file path = true

abbrev read_source : FilePath → Option (List ℕ)
read_source path = some source

abbrev parse_suite : List ℕ → FilePath → Option (List Stmt)
parse_suite text path = some suite

store_module : TestModule
store_module =
    to_module read_source parse_suite (chars "test_store.py" ∷ [])
      (analyze_suite source suite nothing_parsed)

discover-IsKept_example :
    All
      (IsKept every_file (parse_module read_source parse_suite) root (walked entries))
      (discover every_file read_source parse_suite root entries).modules
discover-IsKept_example = discover-IsKept every_file read_source parse_suite root entries

store-in_walk : contains (walked entries) test_path ≡ true
unfolding program walked
store-in_walk = refl

store-test_file : is_test_file every_file test_path ≡ true
unfolding program is_test_file
store-test_file = refl

store-parses : parse_module read_source parse_suite (relative_to root test_path) ≡ some store_module
unfolding program store_module relative_to parse_module
store-parses = refl

store-content : has_content store_module ≡ true
unfolding program store_module
store-content = refl

any-discover_example :
    any
      (has_path (relative_to root test_path))
      (discover every_file read_source parse_suite root entries).modules
    ≡ true
any-discover_example =
    any-discover every_file read_source parse_suite root entries test_path store_module
      store-in_walk store-test_file store-parses store-content
