-- ===== src/Resolver/Fuel.antt =====
-- The fuel of `resolve_test` suffices: the recursion stack holds distinct names of the registry.
use tach_core.Base.{
  ℕ, zero, suc, ◌+◌, ◌<◌, Text, contains, contains-append, contains_single, ==_iff, true, false,
  Option, none, some, List, [], ◌∷◌, length, length-append, ◌≡◌, ◌≢◌, pair_eq, refl, arith,
  Bool-cases, inl, inr, list_eq, nat_eq, Nodup, Nodup-snoc, length-le_of_Nodup,
}
use tach_core.Discovery.Types.{TestCase, FilePath}
use tach_core.Resolver.Registry.{Found, FixtureRegistry, is_builtin_fixture}
use tach_core.Resolver.Outcome.{Outcome, ok, out_of_fuel, >>=-eq-out_of_fuel}
use tach_core.Resolver.Resolve.{
  Progress, fresh, enter, leave, resolve_each, resolve_found, resolve_step, resolve_fixture,
  registry_names, finder, runnable, resolve_direct, resolve_test, direct_dependencies,
}
use tach_core.Resolver.Order.{IsSound}
use tach_core.Resolver.Order.Steps.{enter-IsSound, resolve_fixture-Resolves}
use tach_core.Resolver.Order.Whole.{IsSound-fresh}
use tach_core.Resolver.Known.{lookup-known}

module _ (find : Text → Option Found) (test_name : Text) (known : List Text)
    (covers : (name : Text) (found : Found)
      → find name ≡ some found
      → contains known name ≡ true) where
  -- The stack has room left for `fuel` further names.
  pub record IsRoomy (fuel : ℕ) (p : Progress) : Type 0 where
    pub sound : IsSound find p
    pub nodup : Nodup p.stack
    pub inside : (d : Text) → contains p.stack d ≡ true → contains known d ≡ true
    pub room : length known < fuel + length p.stack

  abbrev pub Ends : (Text → Progress → Outcome Progress) → ℕ → Type 0
  Ends resolve fuel = (name : Text) (p : Progress) → IsRoomy fuel p → resolve name p ≢ out_of_fuel

  IsRoomy-after :
      (fuel : ℕ) (dep : Text) (p q : Progress)
      → IsRoomy fuel p
      → resolve_fixture find test_name fuel dep p ≡ ok q
      → IsRoomy fuel q
  IsRoomy-after fuel dep p q r done =
      let (s, g, seen) = resolve_fixture-Resolves find test_name fuel dep p q r.sound done in
      record {
        sound = s;
        nodup = rw g.same_stack r.nodup;
        inside = rw g.same_stack r.inside;
        room = rw g.same_stack r.room;
      }

  pub resolve_each-Ends :
      (fuel : ℕ)
      → Ends (resolve_fixture find test_name fuel) fuel
      → (deps : List Text) (p : Progress) → IsRoomy fuel p
      → resolve_each find test_name (resolve_fixture find test_name fuel) deps p ≢ out_of_fuel
  unfolding resolve_each
  resolve_each-Ends fuel ends [] p r e = cc
  resolve_each-Ends fuel ends (dep ∷ deps) p r e =
      let resolve = resolve_fixture find test_name fuel in
      elim (>>=-eq-out_of_fuel (resolve dep p) (resolve_each find test_name resolve deps) e) [
        | inl stuck ↦ ends dep p r stuck
        | inr (q, done, rest) ↦
            resolve_each-Ends fuel ends deps q (IsRoomy-after fuel dep p q r done) rest
      ]

  enter-IsRoomy :
      (fuel : ℕ) (name : Text) (p : Progress)
      → contains p.visited name ≡ false
      → contains p.stack name ≡ false
      → contains known name ≡ true
      → IsRoomy (suc fuel) p
      → IsRoomy fuel (enter find test_name name p)
  enter-IsRoomy fuel name p new off in_known r = record {
    sound = enter-IsSound find test_name name p new r.sound;
    nodup = Nodup-snoc p.stack name r.nodup off;
    inside = λ d h. ground (
      arith,
      contains-append p.stack (name ∷ []) d,
      contains_single name d,
      ==_iff name d,
      r.inside d,
    );
    room = omega (arith, r.room, length-append p.stack (name ∷ []));
  }

  resolve_found-Ends :
      (fuel : ℕ)
      → Ends (resolve_fixture find test_name fuel) fuel
      → (name : Text) (found : Option Found) (p : Progress) → find name ≡ found
      → contains p.visited name ≡ false
      → contains p.stack name ≡ false
      → IsRoomy (suc fuel) p
      → resolve_found find test_name (resolve_fixture find test_name fuel) name found p
        ≢ out_of_fuel
  unfolding resolve_found
  resolve_found-Ends fuel ends name none p hit new off r e = cc
  resolve_found-Ends fuel ends name (some (fixture, source_file)) p hit new off r e =
      let start = enter find test_name name p in
      let roomy = enter-IsRoomy fuel name p new off (covers name (fixture, source_file) hit) r in
      let after : Progress → Outcome Progress =
        λ q. ok (leave find test_name name (fixture, source_file) q) in
      let deps =
        resolve_each find test_name (resolve_fixture find test_name fuel) fixture.dependencies
          start in
      elim (>>=-eq-out_of_fuel deps after e) [
        | inl stuck ↦ resolve_each-Ends fuel ends fixture.dependencies start roomy stuck
        | inr (q, done, last) ↦ cc
      ]

  pub resolve_fixture-Ends : (fuel : ℕ) → Ends (resolve_fixture find test_name fuel) fuel
  unfolding resolve_fixture resolve_step
  resolve_fixture-Ends zero name p r e =
      let full = length-le_of_Nodup p.stack known r.nodup r.inside in
      absurd (omega (arith, r.room, full))
  resolve_fixture-Ends (suc fuel) name p r e = elim (Bool-cases (contains p.visited name)) [
    | inl old ↦ ground arith
    | inr new ↦ elim (Bool-cases (contains p.stack name)) [
      | inl on ↦ ground arith
      | inr off ↦ elim (Bool-cases (is_builtin_fixture name)) [
        | inl builtin ↦ ground arith
        | inr own ↦
            resolve_found-Ends fuel (resolve_fixture-Ends fuel) name (find name) p refl new off r
              (rw (new, off, own) at e)
      ]
    ]
  ]

-- The resolution of a test never runs out of fuel: it always ends in fixtures or in an error.
pub resolve_test-ne-out_of_fuel :
    (registry : FixtureRegistry) (test : TestCase) (path : FilePath)
    → resolve_test registry test path ≢ out_of_fuel
unfolding resolve_test resolve_direct contains
resolve_test-ne-out_of_fuel registry test path e =
    let find = finder registry test path in
    let known = registry_names registry in
    let covers : (name : Text) (found : Found)
        → find name ≡ some found
        → contains known name ≡ true =
      λ name found h. lookup-known registry name path test.name found h in
    let fuel = suc (length known) in
    elim (>>=-eq-out_of_fuel (resolve_direct registry test path) (runnable test path) e) [
      | inl stuck ↦
          resolve_each-Ends find test.name known covers fuel
            (resolve_fixture-Ends find test.name known covers fuel) (direct_dependencies test) fresh
            (record {
              sound = IsSound-fresh find;
              nodup = tt;
              inside = λ d h. ground arith;
              room = omega arith;
            })
            stuck
      | inr (p, done, last) ↦ cc
    ]
