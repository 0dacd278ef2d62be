-- ===== src/Discovery/Types.antt =====
-- The data that discovery hands on (src/discovery.rs, its first part).
use mathlib.Core.List.{foldr}
use tach_core.Base.{ℕ, ◌+◌, Text, Bool, Option, List, length, map}

pub data FixtureScope : Type 0 where
  function class «module» session : FixtureScope

-- The derived `Default` of the scope.
abbrev pub default_scope : FixtureScope
default_scope = function

pub record FixtureDefinition : Type 0 where
  pub name : Text
  pub scope : FixtureScope
  pub dependencies : List Text
  pub params : Option (List Text)
  pub class_scope : Option Text

pub record TestCase : Type 0 where
  pub name : Text
  pub dependencies : List Text
  pub is_async : Bool
  pub line_number : ℕ
  pub parametrized_args : List Text

-- A `PathBuf`: its components, which is how paths are compared.
abbrev pub FilePath : Type 0
FilePath = List Text

pub record TestModule : Type 0 where
  pub path : FilePath
  pub tests : List TestCase
  pub fixtures : List FixtureDefinition

pub record DiscoveryResult : Type 0 where
  pub modules : List TestModule

abbrev sum : List ℕ → ℕ
sum = foldr ◌+◌ 0

unfoldable pub test_count : DiscoveryResult → ℕ
test_count result = sum (map (λ (m : TestModule). length m.tests) result.modules)

unfoldable pub fixture_count : DiscoveryResult → ℕ
fixture_count result = sum (map (λ (m : TestModule). length m.fixtures) result.modules)
