-- ===== src/Resolver/Registry.antt =====
-- `FixtureRegistry`: the discovered fixtures by scope, and the lookup through the scopes.
use tach_core.Base.{
  Text, Assoc, get, insert, contains, starts_with, contains_text, split_first, chars, Bool, false,
  ◌&&◌, Option, none, some, List, [], ◌∷◌, ◌==◌, if◌then◌else◌, is_empty, get_last?, list_eq,
  nat_eq, pair_eq, list_beq,
}
use tach_core.Discovery.Types.{FixtureDefinition, FilePath, TestModule, DiscoveryResult}

abbrev pytest_builtins : List Text
pytest_builtins =
    chars "monkeypatch"
    ∷ chars "tmp_path"
    ∷ chars "tmp_path_factory"
    ∷ chars "tmpdir"
    ∷ chars "tmpdir_factory"
    ∷ chars "capsys"
    ∷ chars "capfd"
    ∷ chars "capsysbinary"
    ∷ chars "capfdbinary"
    ∷ chars "caplog"
    ∷ chars "request"
    ∷ chars "cache"
    ∷ chars "record_property"
    ∷ chars "record_testsuite_property"
    ∷ chars "record_xml_attribute"
    ∷ chars "doctest_namespace"
    ∷ chars "recwarn"
    ∷ chars "pytestconfig"
    ∷ []

unfoldable pub is_builtin_fixture : Text → Bool
unfolding contains list_beq
is_builtin_fixture name = contains pytest_builtins name

-- A fixture and the file that it is found in.
abbrev pub Found : Type 0
Found = FixtureDefinition × FilePath

pub record FixtureRegistry : Type 0 where
  pub global : Assoc Text Found
  pub local : Assoc FilePath (Assoc Text FixtureDefinition)
  pub class_scoped : Assoc (FilePath × Text) (Assoc Text FixtureDefinition)

abbrev pub conftest : Text
conftest = chars "conftest.py"

-- module.path.file_name() is "conftest.py"
unfoldable pub is_conftest : FilePath → Bool
unfolding get_last? list_beq
is_conftest path = elim (get_last? path) [ none ↦ false | some n ↦ n == conftest ]

-- `class_scoped.entry(key).or_default()`
abbrev pub or_empty : Option (Assoc Text FixtureDefinition) → Assoc Text FixtureDefinition
or_empty none = []
or_empty (some m) = m

-- The maps that the inner loop of `from_discovery` fills for one module.
pub record Scan : Type 0 where
  pub global : Assoc Text Found
  pub class_scoped : Assoc (FilePath × Text) (Assoc Text FixtureDefinition)
  pub module_fixtures : Assoc Text FixtureDefinition

-- The body of the inner loop.
unfoldable pub add_fixture : FilePath → Scan → FixtureDefinition → Scan
add_fixture path s fixture =
    let file : Scan =
      if is_conftest path
      then record s { global = insert s.global fixture.name (fixture, path) }
      else record s { module_fixtures = insert s.module_fixtures fixture.name fixture } in
    elim fixture.class_scope [
      | none ↦ file
      | some class_name ↦
          let key : FilePath × Text = (path, class_name) in
          let fixtures = insert (or_empty (get s.class_scoped key)) fixture.name fixture in
          record s { class_scoped = insert s.class_scoped key fixtures }
    ]

unfoldable pub add_fixtures : FilePath → Scan → List FixtureDefinition → Scan
add_fixtures path s [] = s
add_fixtures path s (fixture ∷ rest) = add_fixtures path (add_fixture path s fixture) rest

abbrev pub start_scan : FixtureRegistry → Scan
start_scan r = record { global = r.global; class_scoped = r.class_scoped; module_fixtures = [] }

-- The body of the outer loop: a module without fixtures of its own gets no local entry.
unfoldable pub add_module : FixtureRegistry → TestModule → FixtureRegistry
add_module r m =
    let s = add_fixtures m.path (start_scan r) m.fixtures in
    record {
      global = s.global;
      local =
          if is_empty s.module_fixtures then r.local else insert r.local m.path s.module_fixtures;
      class_scoped = s.class_scoped;
    }

unfoldable pub add_modules : FixtureRegistry → List TestModule → FixtureRegistry
add_modules r [] = r
add_modules r (m ∷ rest) = add_modules (add_module r m) rest

abbrev pub empty_registry : FixtureRegistry
empty_registry = record { global = []; local = []; class_scoped = [] }

unfoldable pub from_discovery : DiscoveryResult → FixtureRegistry
from_discovery result = add_modules empty_registry result.modules

-- The class that a test name of the form "TestClass::method" names.
unfoldable pub class_of_test : Text → Option Text
unfolding contains_text split_first starts_with
class_of_test test_name =
    let class_name = split_first test_name (chars "::") in
    if starts_with class_name (chars "Test") && contains_text test_name (chars "::")
    then some class_name
    else none

-- The fixture with the file that it is found in.
abbrev pub in_file : FilePath → Option FixtureDefinition → Option Found
in_file path none = none
in_file path (some fixture) = some (fixture, path)

-- A look into an optional inner map, in the module's file.
unfoldable pub get_in : Option (Assoc Text FixtureDefinition) → Text → FilePath → Option Found
get_in none name path = none
get_in (some fixtures) name path = in_file path (get fixtures name)

abbrev pub or_else {ℓ} : {A : Type ℓ} → Option A → Option A → Option A
or_else (some a) o = some a
or_else none o = o

-- The class-scoped part of `lookup`, for tests that stand in a class.
unfoldable pub in_class : FixtureRegistry → Text → FilePath → Option Text → Option Found
in_class registry name module_path none = none
in_class registry name module_path (some class_name) =
    get_in (get registry.class_scoped (module_path, class_name)) name module_path

-- `lookup`: class scope, then the module's own fixtures, then the global ones.
unfoldable pub lookup : FixtureRegistry → Text → FilePath → Text → Option Found
unfolding in_class
lookup registry name module_path test_name =
    or_else (in_class registry name module_path (class_of_test test_name)) (
      or_else (get_in (get registry.local module_path) name module_path) (get registry.global name))
