-- ===== src/Resolver/Errors.antt =====
-- The errors of a resolution (src/resolver.rs): what a reported cycle or missing fixture means.
use tach_core.Base.{
  ℕ, zero, suc, Text, contains, contains_self, contains_of_tail, true, false, Option, none, some,
  List, [], ◌∷◌, ◌++◌, ◌≡◌, refl, arith, Bool-cases, inl, inr, list_eq, nat_eq,
}
use tach_core.Discovery.Types.{FixtureDefinition, TestCase, FilePath}
use tach_core.Resolver.Registry.{Found, FixtureRegistry, is_builtin_fixture}
use tach_core.Resolver.Outcome.{
  ResolutionError, missing_fixture, cyclic_dependency, Outcome, ok, err, >>=-eq-err, err_inj,
}
use tach_core.Resolver.Resolve.{
  Progress, fresh, enter, leave, resolve_each, resolve_found, resolve_step, resolve_fixture, finder,
  runnable, resolve_direct, resolve_test, direct_dependencies, fuel_of,
}
use tach_core.Resolver.Order.{IsSound}
use tach_core.Resolver.Order.Steps.{enter-IsSound, resolve_fixture-Resolves}
use tach_core.Resolver.Order.Whole.{IsSound-fresh}

module _ (find : Text → Option Found) where
  -- The fixture found under `a` names `b` among its dependencies.
  pub record DependsOn (a b : Text) : Type 0 where
    pub definition : FixtureDefinition
    pub source_file : FilePath
    pub found : find a ≡ some (definition, source_file)
    pub needs : contains definition.dependencies b ≡ true

  -- Each name depends on the next.
  abbrev pub IsPath : List Text → Type 0
  IsPath [] = Unit
  IsPath (a ∷ []) = Unit
  IsPath (a ∷ b ∷ rest) = DependsOn a b × IsPath (b ∷ rest)

  IsPath-snoc :
      (xs : List Text) (a b : Text)
      → IsPath (xs ++ a ∷ [])
      → DependsOn a b
      → IsPath ((xs ++ a ∷ []) ++ b ∷ [])
  IsPath-snoc [] a b h d = (d, tt)
  IsPath-snoc (x ∷ []) a b h d = (h.0, (d, tt))
  IsPath-snoc (x ∷ y ∷ xs) a b h d = (h.0, IsPath-snoc (y ∷ xs) a b h.1 d)

-- The path begins at a name of `roots`.
abbrev pub StartsIn : List Text → List Text → Type 0
StartsIn roots [] = Unit
StartsIn roots (a ∷ rest) = contains roots a ≡ true

StartsIn-snoc :
    (roots xs : List Text) (a b : Text)
    → StartsIn roots (xs ++ a ∷ [])
    → StartsIn roots ((xs ++ a ∷ []) ++ b ∷ [])
StartsIn-snoc roots [] a b h = h
StartsIn-snoc roots (x ∷ xs) a b h = h

module _ (find : Text → Option Found) (test_name : Text) (roots : List Text) where
  -- A chain of dependencies from a direct dependency of the test to `name`, through `stack`.
  pub record IsTrail (stack : List Text) (name : Text) : Type 0 where
    pub path : IsPath find (stack ++ name ∷ [])
    pub rooted : StartsIn roots (stack ++ name ∷ [])

  IsTrail-snoc :
      (stack : List Text) (a b : Text)
      → IsTrail stack a
      → DependsOn find a b
      → IsTrail (stack ++ a ∷ []) b
  IsTrail-snoc stack a b t d = record {
    path = IsPath-snoc find stack a b t.path d;
    rooted = StartsIn-snoc roots stack a b t.rooted;
  }

  -- A missing fixture is reached from the test, is no builtin, and no lookup finds it. A reported
  -- cycle is a chain of dependencies from the test whose last name occurs before in it.
  abbrev pub IsJustified : ResolutionError → Type 0
  IsJustified (missing_fixture test name) =
      (stack : List Text) × (test ≡ test_name)
      × (find name ≡ none)
      × (is_builtin_fixture name ≡ false)
      × IsTrail stack name
  IsJustified (cyclic_dependency test cycle) =
      (front : List Text) × (last : Text) × (test ≡ test_name)
      × (cycle ≡ front ++ last ∷ [])
      × (contains front last ≡ true)
      × IsTrail front last

  abbrev Justifies : (Text → Progress → Outcome Progress) → Type 0
  Justifies resolve =
      (name : Text) (p : Progress) (x : ResolutionError)
      → IsSound find p
      → IsTrail p.stack name
      → resolve name p ≡ err x
      → IsJustified x

  resolve_each-IsJustified :
      (fuel : ℕ)
      → Justifies (resolve_fixture find test_name fuel)
      → (deps : List Text) (p : Progress) (x : ResolutionError) → IsSound find p
      → ((d : Text) → contains deps d ≡ true → IsTrail p.stack d)
      → resolve_each find test_name (resolve_fixture find test_name fuel) deps p ≡ err x
      → IsJustified x
  unfolding resolve_each
  resolve_each-IsJustified fuel just [] p x s t e = absurd (cc)
  resolve_each-IsJustified fuel just (dep ∷ deps) p x s t e =
      let resolve = resolve_fixture find test_name fuel in
      elim (>>=-eq-err (resolve dep p) (resolve_each find test_name resolve deps) e) [
        | inl failed ↦ just dep p x s (t dep (contains_self dep deps)) failed
        | inr (q, done, rest) ↦
            let (sq, g, seen) = resolve_fixture-Resolves find test_name fuel dep p q s done in
            resolve_each-IsJustified fuel just deps q x sq
              (λ d h. rw g.same_stack (t d (contains_of_tail dep d deps h))) rest
      ]

  resolve_found-IsJustified :
      (fuel : ℕ)
      → Justifies (resolve_fixture find test_name fuel)
      → (name : Text) (found : Option Found) (p : Progress) (x : ResolutionError)
      → find name ≡ found
      → contains p.visited name ≡ false
      → is_builtin_fixture name ≡ false
      → IsSound find p
      → IsTrail p.stack name
      → resolve_found find test_name (resolve_fixture find test_name fuel) name found p ≡ err x
      → IsJustified x
  unfolding resolve_found
  resolve_found-IsJustified fuel just name none p x hit new own s t e =
      rw (← err_inj e) (p.stack, refl, hit, own, t)
  resolve_found-IsJustified fuel just name (some (fixture, source_file)) p x hit new own s t e =
      let start = enter find test_name name p in
      let after : Progress → Outcome Progress =
        λ q. ok (leave find test_name name (fixture, source_file) q) in
      let deps =
        resolve_each find test_name (resolve_fixture find test_name fuel) fixture.dependencies
          start in
      elim (>>=-eq-err deps after e) [
        | inl failed ↦
            resolve_each-IsJustified fuel just fixture.dependencies start x
              (enter-IsSound find test_name name p new s)
              (λ d h. IsTrail-snoc p.stack name d t (record {
                definition = fixture;
                source_file = source_file;
                found = hit;
                needs = h;
              }))
              failed
        | inr (q, done, last) ↦ absurd (cc)
      ]

  resolve_fixture-IsJustified : (fuel : ℕ) → Justifies (resolve_fixture find test_name fuel)
  unfolding resolve_fixture resolve_step
  resolve_fixture-IsJustified zero name p x s t e = absurd (cc)
  resolve_fixture-IsJustified (suc fuel) name p x s t e =
      elim (Bool-cases (contains p.visited name)) [
        | inl old ↦ absurd (ground arith)
        | inr new ↦ elim (Bool-cases (contains p.stack name)) [
          | inl on ↦
              let e' : err (cyclic_dependency test_name (p.stack ++ name ∷ [])) ≡ err x =
                rw (new, on) at e in
              rw (← err_inj e') (p.stack, name, refl, refl, on, t)
          | inr off ↦ elim (Bool-cases (is_builtin_fixture name)) [
            | inl builtin ↦ absurd (ground arith)
            | inr own ↦
                resolve_found-IsJustified fuel (resolve_fixture-IsJustified fuel) name (find name) p
                  x refl new own s t (rw (new, off, own) at e)
          ]
        ]
      ]

-- Every error of a test is justified: a missing fixture is reached through dependencies from a
-- direct dependency of the test, is no pytest builtin and is found in no scope; a reported cycle is
-- such a chain of dependencies whose last name occurs before in it; both name the test.
pub resolve_test-IsJustified :
    (registry : FixtureRegistry) (test : TestCase) (path : FilePath) (x : ResolutionError)
    → resolve_test registry test path ≡ err x
    → IsJustified (finder registry test path) test.name (direct_dependencies test) x
unfolding resolve_test resolve_direct
resolve_test-IsJustified registry test path x e =
    let find = finder registry test path in
    let fuel = fuel_of registry in
    let roots = direct_dependencies test in
    elim (>>=-eq-err (resolve_direct registry test path) (runnable test path) e) [
      | inl failed ↦
          resolve_each-IsJustified find test.name roots fuel
            (resolve_fixture-IsJustified find test.name roots fuel) roots fresh x
            (IsSound-fresh find) (λ d h. record { path = tt; rooted = h }) failed
      | inr (p, done, last) ↦ absurd (cc)
    ]
