-- ===== src/Discovery/Injection.antt =====
-- Which arguments count as injected, and so are not resolved as fixtures (src/discovery.rs,
-- extract_injected_args; src/resolver.rs, the loop of resolve_test).
use tach_core.Base.{
  ℕ, Text, Bool, true, not, List, [], ◌∷◌, ◌++◌, ◌≡◌, refl, arith, ◌||◌, ◌&&◌, ==_iff,
  if◌then◌else◌, contains, contains-append, keep_if, length, take, ltb, leb, list_eq, nat_eq, All,
  Bool-cases, inl, inr,
}
use tach_core.Discovery.Ast.{Expr}
use tach_core.Discovery.Injected.{
  extract_parametrized_args, count_patch_decorators, push_missing, extract_injected_args,
}
use tach_core.Discovery.Mocks.{undotted, mocks, count_patch_decorators-mocks}
use tach_core.Discovery.Module.{extract_args_from_arguments, is_argument}
use tach_core.Discovery.Suite.{Definition, test_of}
use tach_core.Resolver.Resolve.{direct_dependencies}

contains-push_missing :
    (injected args : List Text) (a : Text)
    → contains (push_missing injected args) a ≡ (contains injected a || contains args a)
unfolding push_missing contains
contains-push_missing injected [] a = ground arith
contains-push_missing injected (arg ∷ args) a = ground (
  arith,
  contains-push_missing (if contains injected arg then injected else injected ++ arg ∷ []) args a,
  contains-append injected (arg ∷ []) a,
  ==_iff arg a,
)

-- The first arguments, if there are so many.
abbrev pub first_arguments : ℕ → List Text → List Text
first_arguments n args = if leb n (length args) then take n args else []

contains-extract_injected_args :
    (decorators : List Expr) (args : List Text) (a : Text)
    → contains (extract_injected_args decorators args) a ≡ (
        contains (extract_parametrized_args decorators) a
        || contains (first_arguments (count_patch_decorators decorators) args) a)
unfolding extract_injected_args contains
contains-extract_injected_args decorators args a =
    elim (Bool-cases (ltb 0 (count_patch_decorators decorators))) [
      | inl e ↦ ground (
        arith,
        e,
        contains-push_missing (extract_parametrized_args decorators)
            (take (count_patch_decorators decorators) args) a,
      )
      | inr e ↦
          let none_taken : count_patch_decorators decorators ≡ 0 = ground (arith, e) in
          ground (arith, e, none_taken)
    ]

contains-keep_if :
    (p : Text → Bool) (xs : List Text) (a : Text)
    → contains (keep_if p xs) a ≡ (contains xs a && p a)
unfolding contains keep_if
contains-keep_if p [] a = refl
contains-keep_if p (x ∷ xs) a = ground (arith, contains-keep_if p xs a, ==_iff x a)

-- Let the names that the decorators of a test call have no dots in themselves. Then an argument of the
-- discovered test is resolved as a fixture exactly if it is not `self` or `cls`, no parametrize decorator
-- names it, and it is not among the first arguments, as many as there are decorators that take a mock, unless the
-- test has fewer arguments than these. A decorator takes a mock if it calls something whose last name is
-- `patch`, with one argument at most and no `new=`: that of `@patch.object(...)` is `object`, so that it takes
-- none.
pub contains-direct_dependencies :
    (source : List ℕ) (d : Definition) (a : Text)
    → All (λ e. undotted e ≡ true) d.func.decorator_list
    → contains (direct_dependencies (test_of source d)) a ≡ (
        contains d.func.args a
        && is_argument a
        && not (contains (extract_parametrized_args d.func.decorator_list) a)
        && not (
            contains
              (first_arguments
                (mocks d.func.decorator_list)
                (extract_args_from_arguments d.func.args))
              a))
unfolding direct_dependencies extract_args_from_arguments
contains-direct_dependencies source d a plain =
    let args = keep_if is_argument d.func.args in
    let injected = extract_injected_args d.func.decorator_list args in
    ground (
      arith,
      count_patch_decorators-mocks d.func.decorator_list plain,
      contains-keep_if (λ x. not (contains injected x)) args a,
      contains-keep_if is_argument d.func.args a,
      contains-extract_injected_args d.func.decorator_list args a,
    )
