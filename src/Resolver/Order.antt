-- ===== src/Resolver/Order.antt =====
-- What the order of the resolved fixtures: promises (src/resolver.rs): dependencies first, no fixture twice, nothing left out.
pub mod Steps
pub mod Whole
use tach_core.Base.{
  ℕ, zero, suc, Text, contains, contains-append, contains_single, contains_self, contains_of_tail,
  ==_iff, ◌==◌, Bool, true, false, ◌||◌, Option, none, some, List, [], ◌∷◌, ◌++◌, map, All, All-map,
  pop, pop-append, ◌≡◌, refl, sym, arith, ap, Bool-cases, Option-cases, if◌then◌else◌, inl, inr,
  list_eq, nat_eq, append_assoc, append-nil,
}
use tach_core.Discovery.Types.{FixtureDefinition}
use tach_core.Resolver.Registry.{Found, is_builtin_fixture}
use tach_core.Resolver.Outcome.{Outcome, ok, err, out_of_fuel, ◌>>=◌, ok_inj, >>=-eq-ok}
use tach_core.Resolver.Resolve.{
  ResolvedFixture, Progress, enter, leave, resolve_each, resolve_found, resolve_step,
  resolve_fixture, resolved_fixture,
}

abbrev pub names : List ResolvedFixture → List Text
names = map (λ (f : ResolvedFixture). f.name)

-- pytest provides the fixture, or it is among the fixtures already set up.
abbrev pub Ready : List ResolvedFixture → Text → Type 0
Ready before d = (is_builtin_fixture d || contains (names before) d) ≡ true

module _ (find : Text → Option Found) where
  -- `f` is what the lookup finds under its name, its dependencies are ready before it, and it was
  -- not set up before.
  pub record IsPlaced (before : List ResolvedFixture) (f : ResolvedFixture) : Type 0 where
    pub definition : FixtureDefinition
    pub found : find f.name ≡ some (definition, f.source_file)
    pub same_scope : definition.scope ≡ f.scope
    pub deps_ready : All (Ready before) definition.dependencies
    pub is_new : contains (names before) f.name ≡ false

  -- The fixtures can be set up in this order, after those of `before`.
  abbrev pub IsOrdered : List ResolvedFixture → List ResolvedFixture → Type 0
  IsOrdered before [] = Unit
  IsOrdered before (f ∷ rest) = IsPlaced before f × IsOrdered (before ++ f ∷ []) rest

  pub IsOrdered-snoc :
      (before rs : List ResolvedFixture) (f : ResolvedFixture)
      → IsOrdered before rs
      → IsPlaced (before ++ rs) f
      → IsOrdered before (rs ++ f ∷ [])
  IsOrdered-snoc before [] f h p = (rw append-nil at p, tt)
  IsOrdered-snoc before (r ∷ rs) f h p =
      (h.0, IsOrdered-snoc (before ++ r ∷ []) rs f h.1 (rw append_assoc p))

  pub record IsSound (p : Progress) : Type 0 where
    pub ordered : IsOrdered [] p.resolved
    pub visited_ready : (d : Text) → contains p.visited d ≡ true → Ready p.resolved d
    pub resolved_visited :
        (d : Text) → contains (names p.resolved) d ≡ true → contains p.visited d ≡ true
    pub disjoint : (d : Text) → contains p.stack d ≡ true → contains p.visited d ≡ false

pub record Grows (p p' : Progress) : Type 0 where
  pub same_stack : p'.stack ≡ p.stack
  pub keeps : (d : Text) → contains p.visited d ≡ true → contains p'.visited d ≡ true
