-- ===== src/Resolver/Known.antt =====
-- What a lookup finds is among the names of the registry (src/resolver.rs, lookup).
use tach_core.Base.{
  Text, contains, contains-append, true, Option, none, some, [], ◌∷◌, ◌++◌, ◌≡◌, ◌⊎◌, pair_eq, refl,
  arith, inl, inr, list_eq, nat_eq, Assoc, get, PartialEq, Option-cases,
}
use tach_core.Discovery.Types.{FixtureDefinition, FilePath}
use tach_core.Resolver.Registry.{
  or_else, in_class, Found, FixtureRegistry, lookup, get_in, class_of_test,
}
use tach_core.Resolver.Resolve.{registry_names, keys, inner_keys}

-- The names that the lookup finds are names of the registry.
contains-keys {ℓ} :
    {V : Type ℓ} (m : Assoc Text V) (name : Text) (v : V)
    → get m name ≡ some v
    → contains (keys m) name ≡ true
unfolding get contains
contains-keys [] name v h = ground arith
contains-keys ((k, w) ∷ m) name v h = ground (arith, contains-keys m name v)

get_in-some :
    (o : Option (Assoc Text FixtureDefinition)) (name : Text) (path : FilePath) (found : Found)
    → get_in o name path ≡ some found
    → (m : Assoc Text FixtureDefinition) × (o ≡ some m) × (contains (keys m) name ≡ true)
unfolding get_in
get_in-some none name path found h = absurd (cc)
get_in-some (some m) name path found h = elim (Option-cases (get m name)) [
  | inl absent ↦ absurd (ground (arith, absent))
  | inr (fixture, hit) ↦ (m, refl, contains-keys m name fixture hit)
]

contains-inner_keys {ℓ} :
    {K : Type ℓ} ⦃e : PartialEq K⦄ (m : Assoc K (Assoc Text FixtureDefinition)) (key : K)
    (inner : Assoc Text FixtureDefinition) (name : Text)
    → get m key ≡ some inner
    → contains (keys inner) name ≡ true
    → contains (inner_keys m) name ≡ true
unfolding get
contains-inner_keys [] key inner name h c = ground arith
contains-inner_keys ((k, first) ∷ m) key inner name h c =
    ground (
      arith,
      contains-append (keys first) (inner_keys m) name,
      contains-inner_keys m key inner name,
    )

get_in-known {ℓ} :
    {K : Type ℓ} ⦃e : PartialEq K⦄ (m : Assoc K (Assoc Text FixtureDefinition)) (key : K)
    (name : Text) (path : FilePath) (found : Found)
    → get_in (get m key) name path ≡ some found
    → contains (inner_keys m) name ≡ true
get_in-known m key name path found h =
    let (inner, hit, c) = get_in-some (get m key) name path found h in
    contains-inner_keys m key inner name hit c

or_else-cases {ℓ} :
    {A : Type ℓ} (o o' : Option A) {a : A} → or_else o o' ≡ some a → (o ≡ some a) ⊎ (o' ≡ some a)
or_else-cases none o' h = inr h
or_else-cases (some b) o' h = inl h

in_class-known :
    (registry : FixtureRegistry) (name : Text) (path : FilePath) (class_name : Option Text)
    (found : Found)
    → in_class registry name path class_name ≡ some found
    → contains (inner_keys registry.class_scoped) name ≡ true
unfolding in_class
in_class-known registry name path none found h = absurd (cc)
in_class-known registry name path (some class_name) found h =
    get_in-known registry.class_scoped (path, class_name) name path found h

pub lookup-known :
    (registry : FixtureRegistry) (name : Text) (path : FilePath) (test_name : Text) (found : Found)
    → lookup registry name path test_name ≡ some found
    → contains (registry_names registry) name ≡ true
unfolding lookup registry_names
lookup-known registry name path test_name found h =
    let own : Option Found = get_in (get registry.local path) name path in
    let first : Option Found = in_class registry name path (class_of_test test_name) in
    let outer =
      contains-append (keys registry.global)
        (inner_keys registry.local ++ inner_keys registry.class_scoped) name in
    let inner =
      contains-append (inner_keys registry.local) (inner_keys registry.class_scoped) name in
    elim (or_else-cases first (or_else own (get registry.global name)) h) [
      | inl by_class ↦
          let c = in_class-known registry name path (class_of_test test_name) found by_class in
          ground (arith, outer, inner, c)
      | inr later ↦ elim (or_else-cases own (get registry.global name) later) [
        | inl by_local ↦
            let c = get_in-known registry.local path name path found by_local in
            ground (arith, outer, inner, c)
        | inr by_global ↦
            let c = contains-keys registry.global name found by_global in
            ground (arith, outer, inner, c)
      ]
    ]
