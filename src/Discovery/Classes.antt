-- ===== src/Discovery/Classes.antt =====
-- The class of a test: discovery writes it into the test's name (src/discovery.rs), and the
-- resolver reads it back (src/resolver.rs, lookup).
use tach_core.Base.{
  ℕ, Text, chars, true, false, none, some, List, [], ◌∷◌, keep_if, ◌≡◌, arith, if◌then◌else◌,
  starts_with, All, All-append, contains, nat_eq, split_once, split_first, contains_text,
  Bool-cases, inl, inr, nat_beq_iff,
}
use tach_core.Discovery.Ast.{
  Member, method, async_method, other_member, Stmt, function_def, async_function_def, class_def,
  other_stmt,
}
use tach_core.Discovery.Module.{is_test_name, in_class_name}
use tach_core.Discovery.Suite.{Definition, definitions_of, definitions_of_body, test_of, is_test}
use tach_core.Resolver.Registry.{class_of_test}

-- A text without a colon, as every Python identifier is.
abbrev pub HasNoColon : Text → Type 0
HasNoColon c = contains c b':' ≡ false

split_once-in_class_name :
    (c name : Text) → HasNoColon c → split_once (in_class_name c name) (chars "::") ≡ some (c, name)
unfolding split_once starts_with contains
split_once-in_class_name [] name h = ground arith
split_once-in_class_name (x ∷ c) name h =
    ground (arith, split_once-in_class_name c name, nat_beq_iff x 58)

class_of_method :
    (c name : Text)
    → HasNoColon c
    → starts_with c (chars "Test") ≡ true
    → class_of_test (in_class_name c name) ≡ some c
unfolding class_of_test contains_text split_first
class_of_method c name h t = ground (arith, split_once-in_class_name c name h)

-- A name that begins with "t" is read as standing in no class.
class_of_function : (name : Text) → is_test_name name ≡ true → class_of_test name ≡ none
unfolding class_of_test contains_text split_first starts_with split_once
class_of_function [] h = ground arith
class_of_function (x ∷ name) h = ground (arith, nat_beq_iff x 116, nat_beq_iff x 84)

-- The class names of a module.
abbrev pub HasPlainClasses : List Stmt → Type 0
HasPlainClasses [] = Unit
HasPlainClasses (class_def c body ∷ rest) = HasNoColon c × HasPlainClasses rest
HasPlainClasses (_ ∷ rest) = HasPlainClasses rest

module _ (source : List ℕ) where
  -- The resolver reads the class of a definition from its test's name.
  abbrev pub NamesClass : Definition → Type 0
  NamesClass d = class_of_test (test_of source d).name ≡ d.in_class

  -- Where the definition is a test at all.
  abbrev IsLegible : Definition → Type 0
  IsLegible d = is_test d ≡ true → NamesClass d

  body-IsLegible :
      (c : Text) (body : List Member)
      → HasNoColon c
      → starts_with c (chars "Test") ≡ true
      → All IsLegible (definitions_of_body c body)
  unfolding definitions_of_body
  body-IsLegible c [] h t = tt
  body-IsLegible c (method f ∷ rest) h t =
      (λ _. class_of_method c f.name h t, body-IsLegible c rest h t)
  body-IsLegible c (async_method f ∷ rest) h t =
      (λ _. class_of_method c f.name h t, body-IsLegible c rest h t)
  body-IsLegible c (other_member ∷ rest) h t = body-IsLegible c rest h t

  class-IsLegible :
      (c : Text) (body : List Member)
      → HasNoColon c
      → All IsLegible (if starts_with c (chars "Test") then definitions_of_body c body else [])
  class-IsLegible c body h = elim (Bool-cases (starts_with c (chars "Test"))) [
    | inl t ↦ rw t (body-IsLegible c body h t)
    | inr t ↦ rw t tt
  ]

  suite-IsLegible :
      (suite : List Stmt) → HasPlainClasses suite → All IsLegible (definitions_of suite)
  unfolding definitions_of
  suite-IsLegible [] h = tt
  suite-IsLegible (function_def f ∷ rest) h = (class_of_function f.name, suite-IsLegible rest h)
  suite-IsLegible (async_function_def f ∷ rest) h =
      (class_of_function f.name, suite-IsLegible rest h)
  suite-IsLegible (class_def c body ∷ rest) h =
      All-append IsLegible (if starts_with c (chars "Test") then definitions_of_body c body else [])
        (definitions_of rest) (class-IsLegible c body h.0) (suite-IsLegible rest h.1)
  suite-IsLegible (other_stmt ∷ rest) h = suite-IsLegible rest h

  keep_if-NamesClass :
      (ds : List Definition) → All IsLegible ds → All NamesClass (keep_if is_test ds)
  unfolding keep_if
  keep_if-NamesClass [] h = tt
  keep_if-NamesClass (d ∷ ds) h = elim (Bool-cases (is_test d)) [
    | inl t ↦ rw t (h.0 t, keep_if-NamesClass ds h.1)
    | inr t ↦ rw t (keep_if-NamesClass ds h.1)
  ]

-- In a module whose class names hold no colon, the resolver reads from the name of each discovered
-- test exactly the class that the test is defined in, and no class from a top-level test's name.
pub class_of_test-test_of :
    (source : List ℕ) (suite : List Stmt)
    → HasPlainClasses suite
    → All
        (λ d. class_of_test (test_of source d).name ≡ d.in_class)
        (keep_if is_test (definitions_of suite))
class_of_test-test_of source suite h =
    keep_if-NamesClass source (definitions_of suite) (suite-IsLegible source suite h)
