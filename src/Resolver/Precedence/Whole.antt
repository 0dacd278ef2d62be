-- ===== src/Resolver/Precedence/Whole.antt =====
-- The registry of a discovery against the search of its modules (src/resolver.rs, lookup).
use tach_core.Base.{Text, get, ◌≡◌, arith, list_eq, nat_eq, pair_eq, inl, inr, Option-cases}
use tach_core.Discovery.Types.{FilePath, DiscoveryResult}
use tach_core.Resolver.Registry.{empty_registry, from_discovery, get_in, class_of_test, lookup}
use tach_core.Resolver.Precedence.{find_fixture}
use tach_core.Resolver.Precedence.Steps.{global-add_modules, local-add_modules, class-add_modules}

-- A lookup in the registry of a discovery finds what a search of the discovered modules finds: the
-- last fixture of that name in the class that the test's name gives, or else the last outside
-- classes in the last module of that path with such fixtures, or else the last outside classes in
-- any conftest.py; conftest.py files have no fixtures of their own.
pub lookup-from_discovery :
    (result : DiscoveryResult) (name : Text) (path : FilePath) (test_name : Text)
    → lookup (from_discovery result) name path test_name
      ≡ find_fixture result.modules name path test_name
unfolding lookup from_discovery find_fixture get get_in
lookup-from_discovery result name path test_name = elim (Option-cases (class_of_test test_name)) [
  | inl no_class ↦ ground (
    arith,
    no_class,
    local-add_modules result.modules empty_registry name path,
    global-add_modules result.modules empty_registry name,
  )
  | inr (c, e) ↦ ground (
    arith,
    e,
    class-add_modules result.modules empty_registry name path c,
    local-add_modules result.modules empty_registry name path,
    global-add_modules result.modules empty_registry name,
  )
]
