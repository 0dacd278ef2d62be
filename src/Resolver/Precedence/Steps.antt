-- ===== src/Resolver/Precedence/Steps.antt =====
-- What each loop of `from_discovery` (src/resolver.rs) adds to the three maps.
use tach_core.Base.{
  Text, get, insert, get-insert, is_empty-insert, not, ◌&&◌, ◌==◌, ==_iff, Option, none, some, List,
  [], ◌∷◌, ◌≡◌, refl, arith, if◌then◌else◌, any, is_empty, list_eq, nat_eq, pair_eq, pair_beq,
  Bool-cases, inl, inr, Option-cases,
}
use tach_core.Discovery.Types.{FixtureDefinition, FilePath, TestModule}
use tach_core.Resolver.Registry.{
  Found, FixtureRegistry, Scan, is_conftest, add_fixture, add_fixtures, add_module, add_modules,
  start_scan, or_empty, or_else, in_file, get_in,
}
use tach_core.Resolver.Precedence.{
  is_own, is_in_class, one_named, last_named, search_global, search_module, search_class,
}

module _ (path : FilePath) (s : Scan) (f : FixtureDefinition) where
  global-add_fixture :
      (name : Text)
      → get (add_fixture path s f).global name
        ≡ or_else
            (if is_conftest path then in_file path (one_named is_own name f) else none)
            (get s.global name)
  unfolding add_fixture
  global-add_fixture name = ground (arith, get-insert s.global f.name name (f, path))

  module-add_fixture :
      (name : Text)
      → get (add_fixture path s f).module_fixtures name
        ≡ or_else
            (if is_conftest path then none else one_named is_own name f)
            (get s.module_fixtures name)
  unfolding add_fixture
  module-add_fixture name = ground (arith, get-insert s.module_fixtures f.name name f)

  empty-add_fixture :
      is_empty (add_fixture path s f).module_fixtures
      ≡ (is_empty s.module_fixtures && not (not (is_conftest path) && is_own f))
  unfolding add_fixture
  empty-add_fixture = ground (arith, is_empty-insert s.module_fixtures f.name f)

  class-insert :
      (name : Text) (p : FilePath) (c d : Text)
      → get_in
          (get
            (insert s.class_scoped
              (path, d)
              (insert (or_empty (get s.class_scoped (path, d))) f.name f))
            (p, c))
          name
          p
        ≡ (if (path == p) && ((d == c) && (f.name == name))
            then some (f, p)
            else get_in (get s.class_scoped (p, c)) name p)
  unfolding get_in pair_beq get
  class-insert name p c d =
      let inner = or_empty (get s.class_scoped (path, d)) in
      rw (get-insert s.class_scoped (path, d) (p, c) (insert inner f.name f))
        (elim (Bool-cases ((path == p) && (d == c))) [
          | inl same ↦
              ground (arith, ==_iff path p, ==_iff d c, same, get-insert inner f.name name f)
          | inr other ↦ ground (arith, other)
        ])

  class-add_fixture :
      (name : Text) (p : FilePath) (c : Text)
      → get_in (get (add_fixture path s f).class_scoped (p, c)) name p
        ≡ or_else
            (if path == p then in_file p (one_named (is_in_class c) name f) else none)
            (get_in (get s.class_scoped (p, c)) name p)
  unfolding add_fixture
  class-add_fixture name p c = elim (Option-cases f.class_scope) [
    | inl own ↦ ground (arith, own)
    | inr (d, e) ↦ ground (arith, e, class-insert name p c d)
  ]

module _ (path : FilePath) where
  global-add_fixtures :
      (fs : List FixtureDefinition) (s : Scan) (name : Text)
      → get (add_fixtures path s fs).global name
        ≡ or_else
            (if is_conftest path then in_file path (last_named is_own name fs) else none)
            (get s.global name)
  unfolding add_fixtures last_named
  global-add_fixtures [] s name = ground arith
  global-add_fixtures (f ∷ fs) s name =
      ground (
        arith,
        global-add_fixtures fs (add_fixture path s f) name,
        global-add_fixture path s f name,
      )

  module-add_fixtures :
      (fs : List FixtureDefinition) (s : Scan) (name : Text)
      → get (add_fixtures path s fs).module_fixtures name
        ≡ or_else
            (if is_conftest path then none else last_named is_own name fs)
            (get s.module_fixtures name)
  unfolding add_fixtures last_named
  module-add_fixtures [] s name = ground arith
  module-add_fixtures (f ∷ fs) s name =
      ground (
        arith,
        module-add_fixtures fs (add_fixture path s f) name,
        module-add_fixture path s f name,
      )

  empty-add_fixtures :
      (fs : List FixtureDefinition) (s : Scan)
      → is_empty (add_fixtures path s fs).module_fixtures
        ≡ (is_empty s.module_fixtures && not (not (is_conftest path) && any is_own fs))
  unfolding add_fixtures any
  empty-add_fixtures [] s = ground arith
  empty-add_fixtures (f ∷ fs) s =
      ground (arith, empty-add_fixtures fs (add_fixture path s f), empty-add_fixture path s f)

  class-add_fixtures :
      (fs : List FixtureDefinition) (s : Scan) (name : Text) (p : FilePath) (c : Text)
      → get_in (get (add_fixtures path s fs).class_scoped (p, c)) name p
        ≡ or_else
            (if path == p then in_file p (last_named (is_in_class c) name fs) else none)
            (get_in (get s.class_scoped (p, c)) name p)
  unfolding add_fixtures last_named
  class-add_fixtures [] s name p c = ground arith
  class-add_fixtures (f ∷ fs) s name p c = ground (
    arith,
    class-add_fixtures fs (add_fixture path s f) name p c,
    class-add_fixture path s f name p c,
  )

-- What a local entry of the registry and a module found by the search have in common.
abbrev pub local_of : Option TestModule → Text → FilePath → Option Found → Option Found
local_of none name path o = o
local_of (some m) name path o = in_file path (last_named is_own name m.fixtures)

module _ (m : TestModule) (r : FixtureRegistry) where
  local-add_module :
      (name : Text) (path : FilePath)
      → get_in (get (add_module r m).local path) name path ≡ (
          if (m.path == path) && (not (is_conftest m.path) && any is_own m.fixtures)
          then in_file path (last_named is_own name m.fixtures)
          else get_in (get r.local path) name path)
  unfolding add_module get_in get
  local-add_module name path =
      let s = add_fixtures m.path (start_scan r) m.fixtures in
      ground (
        arith,
        empty-add_fixtures m.path m.fixtures (start_scan r),
        module-add_fixtures m.path m.fixtures (start_scan r) name,
        get-insert r.local m.path path s.module_fixtures,
      )

pub global-add_modules :
    (ms : List TestModule) (r : FixtureRegistry) (name : Text)
    → get (add_modules r ms).global name ≡ or_else (search_global ms name) (get r.global name)
unfolding add_modules search_global add_module
global-add_modules [] r name = refl
global-add_modules (m ∷ ms) r name = ground (
  arith,
  global-add_modules ms (add_module r m) name,
  global-add_fixtures m.path m.fixtures (start_scan r) name,
)

pub local-add_modules :
    (ms : List TestModule) (r : FixtureRegistry) (name : Text) (path : FilePath)
    → get_in (get (add_modules r ms).local path) name path
      ≡ local_of (search_module ms path) name path (get_in (get r.local path) name path)
unfolding add_modules search_module
local-add_modules [] r name path = refl
local-add_modules (m ∷ ms) r name path =
    ground (arith, local-add_modules ms (add_module r m) name path, local-add_module m r name path)

pub class-add_modules :
    (ms : List TestModule) (r : FixtureRegistry) (name : Text) (path : FilePath) (c : Text)
    → get_in (get (add_modules r ms).class_scoped (path, c)) name path
      ≡ or_else (search_class ms name path c) (get_in (get r.class_scoped (path, c)) name path)
unfolding add_modules search_class add_module
class-add_modules [] r name path c = refl
class-add_modules (m ∷ ms) r name path c = ground (
  arith,
  class-add_modules ms (add_module r m) name path c,
  class-add_fixtures m.path m.fixtures (start_scan r) name path c,
)
