-- ===== src/Resolver/Total.antt =====
-- When a test resolves (src/resolver.rs): no cycle is reported of fixtures that can be ranked, and
-- where nothing is missing either, the resolution succeeds.
use tach_core.Base.{
  ℕ, ◌<◌, Text, contains, ==_iff, true, false, Option, none, some, List, [], ◌∷◌, ◌++◌, ◌≡◌, ◌≢◌,
  ◌⊎◌, arith, inl, inr, list_eq, nat_eq,
}
use tach_core.Discovery.Types.{TestCase, FilePath}
use tach_core.Resolver.Registry.{Found, FixtureRegistry, is_builtin_fixture}
use tach_core.Resolver.Outcome.{missing_fixture, cyclic_dependency, ok, err, Outcome-cases}
use tach_core.Resolver.Resolve.{RunnableTest, finder, resolve_test, direct_dependencies}
use tach_core.Resolver.Fuel.{resolve_test-ne-out_of_fuel}
use tach_core.Resolver.Errors.{DependsOn, IsPath, StartsIn, resolve_test-IsJustified}

module _ (find : Text → Option Found) where
  -- Every fixture's dependencies have a smaller rank.
  abbrev pub IsRanked : (Text → ℕ) → Type 0
  IsRanked rank = (a b : Text) → DependsOn find a b → rank b < rank a

  rank-lt :
      (rank : Text → ℕ)
      → IsRanked rank
      → (xs : List Text) (a last : Text) → IsPath find (xs ++ last ∷ [])
      → contains xs a ≡ true
      → rank last < rank a
  unfolding contains
  rank-lt rank ranked [] a last h m = absurd (cc)
  rank-lt rank ranked (x ∷ []) a last h m = ground (arith, ==_iff x a, ranked x last h.0)
  rank-lt rank ranked (x ∷ y ∷ xs) a last h m = ground (
    arith,
    ==_iff x a,
    ==_iff y y,
    ranked x y h.0,
    rank-lt rank ranked (y ∷ xs) a last h.1,
    rank-lt rank ranked (y ∷ xs) y last h.1,
  )

  -- A name on a trail is a root, or some fixture depends on it.
  trail_end :
      (roots xs : List Text) (name : Text)
      → IsPath find (xs ++ name ∷ [])
      → StartsIn roots (xs ++ name ∷ [])
      → (contains roots name ≡ true) ⊎ ((a : Text) × DependsOn find a name)
  trail_end roots [] name h r = inl r
  trail_end roots (x ∷ []) name h r = inr (x, h.0)
  trail_end roots (x ∷ y ∷ xs) name h r = inr (last_step y xs name h.1)
    where
      last_step :
          (y : Text) (xs : List Text) (name : Text)
          → IsPath find (y ∷ xs ++ name ∷ [])
          → (a : Text) × DependsOn find a name
      last_step y [] name h = (y, h.0)
      last_step y (z ∷ zs) name h = last_step z zs name h.1

  -- pytest or the registry provides the name.
  abbrev pub Provided : Text → Type 0
  Provided name = (is_builtin_fixture name ≡ true) ⊎ ((f : Found) × (find name ≡ some f))

-- Fixtures whose dependencies can be ranked are never reported as a cycle.
pub resolve_test-ne-cyclic_dependency :
    (registry : FixtureRegistry) (test : TestCase) (path : FilePath) (rank : Text → ℕ)
    → IsRanked (finder registry test path) rank
    → (t : Text) (cycle : List Text)
    → resolve_test registry test path ≢ err (cyclic_dependency t cycle)
resolve_test-ne-cyclic_dependency registry test path rank ranked t cycle e =
    let (front, last, _, _, repeats, trail) = resolve_test-IsJustified registry test path _ e in
    absurd (
      omega
        (arith, rank-lt (finder registry test path) rank ranked front last last trail.path repeats))

-- A test resolves if its direct dependencies, and the dependencies of every fixture that is found,
-- are provided, and the dependencies can be ranked.
pub resolve_test_total :
    (registry : FixtureRegistry) (test : TestCase) (path : FilePath) (rank : Text → ℕ)
    → IsRanked (finder registry test path) rank
    → ((d : Text)
        → contains (direct_dependencies test) d ≡ true
        → Provided (finder registry test path) d)
    → ((a b : Text)
        → DependsOn (finder registry test path) a b
        → Provided (finder registry test path) b)
    → (r : RunnableTest) × (resolve_test registry test path ≡ ok r)
resolve_test_total registry test path rank ranked direct deps =
    let find = finder registry test path in
    elim (Outcome-cases (resolve_test registry test path)) [
      | inl found ↦ found
      | inr (inl (cyclic_dependency t cycle, e)) ↦
          absurd (resolve_test-ne-cyclic_dependency registry test path rank ranked t cycle e)
      | inr (inl (missing_fixture t name, e)) ↦
          let (stack, _, absent, own, trail) =
            resolve_test-IsJustified registry test path (missing_fixture t name) e in
          let provided : Provided find name =
            elim (trail_end find (direct_dependencies test) stack name trail.path trail.rooted) [
              | inl root ↦ direct name root
              | inr (a, d) ↦ deps a name d
            ] in
          absurd (refuted find name provided own absent)
      | inr (inr e) ↦ absurd (resolve_test-ne-out_of_fuel registry test path e)
    ]
  where
    refuted :
        (find : Text → Option Found) (name : Text)
        → Provided find name
        → is_builtin_fixture name ≡ false
        → find name ≢ none
    refuted find name (inl b) own absent = ground arith
    refuted find name (inr (f, hit)) own absent = ground arith
