-- ===== src/Resolver/Precedence.antt =====
-- The registry against a direct search of the discovered modules (src/resolver.rs, from_discovery
-- and lookup): the hash maps keep, in each scope, the fixture that was discovered last.
mod Steps
pub mod Whole
use tach_core.Base.{
  Text, get, insert, get-insert, is_empty-insert, Bool, true, false, not, ◌&&◌, ◌==◌, ==_iff,
  Option, none, some, List, [], ◌∷◌, ◌≡◌, refl, arith, if◌then◌else◌, any, is_empty, list_eq,
  nat_eq, pair_eq, pair_beq, Bool-cases, inl, inr, Option-cases,
}
use tach_core.Discovery.Types.{FixtureDefinition, FilePath, TestModule, DiscoveryResult}
use tach_core.Resolver.Registry.{
  Found, FixtureRegistry, Scan, is_conftest, add_fixture, add_fixtures, add_module, add_modules,
  start_scan, empty_registry, from_discovery, or_empty, or_else, in_file, get_in, class_of_test,
  lookup,
}

abbrev pub is_own : FixtureDefinition → Bool
is_own f = elim f.class_scope [ none ↦ true | some _ ↦ false ]

abbrev pub is_in_class : Text → FixtureDefinition → Bool
is_in_class c f = elim f.class_scope [ none ↦ false | some d ↦ d == c ]

abbrev pub one_named :
    (FixtureDefinition → Bool) → Text → FixtureDefinition → Option FixtureDefinition
one_named p name f = if p f && (f.name == name) then some f else none

-- The last of the fixtures with a property and a name.
unfoldable pub last_named :
    (FixtureDefinition → Bool) → Text → List FixtureDefinition → Option FixtureDefinition
last_named p name [] = none
last_named p name (f ∷ fs) = or_else (last_named p name fs) (one_named p name f)

-- The last global fixture: from a conftest.py, outside classes.
unfoldable pub search_global : List TestModule → Text → Option Found
search_global [] name = none
search_global (m ∷ ms) name =
    or_else (search_global ms name)
      (if is_conftest m.path then in_file m.path (last_named is_own name m.fixtures) else none)

-- The last module of that path that has fixtures of its own, outside classes.
unfoldable pub search_module : List TestModule → FilePath → Option TestModule
search_module [] path = none
search_module (m ∷ ms) path = or_else (search_module ms path) (
    if (m.path == path) && (not (is_conftest m.path) && any is_own m.fixtures)
    then some m
    else none)

abbrev pub search_local : List TestModule → Text → FilePath → Option Found
search_local ms name path = elim (search_module ms path) [
  | none ↦ none
  | some m ↦ in_file path (last_named is_own name m.fixtures)
]

-- The last fixture of that class, among the modules of that path.
unfoldable pub search_class : List TestModule → Text → FilePath → Text → Option Found
search_class [] name path c = none
search_class (m ∷ ms) name path c =
    or_else (search_class ms name path c)
      (if m.path == path then in_file path (last_named (is_in_class c) name m.fixtures) else none)

-- A search of the modules themselves, in the order of the scopes.
unfoldable pub find_fixture : List TestModule → Text → FilePath → Text → Option Found
find_fixture ms name path test_name =
    or_else (elim (class_of_test test_name) [ none ↦ none | some c ↦ search_class ms name path c ])
      (or_else (search_local ms name path) (search_global ms name))
