-- ===== src/Discovery/Mocks.antt =====
-- Which decorators put a mock into the arguments of a test, described by the name that is called
-- (src/discovery.rs, is_patch_decorator, patch_injects_arg and count_patch_decorators).
use tach_core.Base.{
  ℕ, suc, Text, chars, Bool, true, false, not, ◌&&◌, ◌||◌, ◌==◌, ==_iff, Option, none, some, List,
  [], ◌∷◌, ◌≡◌, refl, arith, keep_if, length, contains, leb, All, starts_with, if◌then◌else◌,
  list_eq, nat_eq, Bool-cases, inl, inr,
}
use tach_core.Discovery.Ast.{
  Expr, Keywords, call, attribute, name, constant, list, tuple, other, end, keyword, elements,
}
use tach_core.Discovery.Injected.{
  is_patch_decorator, has_new, call_injects, patch_injects_arg, count_patch_decorators,
}

-- The last name of what a decorator calls: `object` for `@mock.patch.object(...)`.
abbrev pub last_name : Expr → Option Text
last_name (call func args keywords) = last_name func
last_name (attribute value attr) = some attr
last_name (name id) = some id
last_name (constant value) = none
last_name (list elts) = none
last_name (tuple elts) = none
last_name other = none

abbrev is_patch : Option Text → Bool
is_patch none = false
is_patch (some n) = n == chars "patch"

abbrev pub given : Text → Keywords → Bool
given word end = false
given word (keyword none value rest) = given word rest
given word (keyword (some arg) value rest) = (arg == word) || given word rest

-- A call whose last name is `patch`, with at most one positional argument and no `new=`.
abbrev pub takes_mock : Expr → Bool
takes_mock (call func args keywords) =
    is_patch (last_name func)
    && (leb (length (elements args)) 1 && not (given (chars "new") keywords))
takes_mock (attribute value attr) = false
takes_mock (name id) = false
takes_mock (constant value) = false
takes_mock (list elts) = false
takes_mock (tuple elts) = false
takes_mock other = false

abbrev pub mocks : List Expr → ℕ
mocks [] = 0
mocks (d ∷ ds) = if takes_mock d then suc (mocks ds) else mocks ds

-- Names have no dots, as those of Python.
abbrev undotted_name : Option Text → Bool
undotted_name none = true
undotted_name (some n) = not (contains n b'.')

abbrev pub undotted : Expr → Bool
undotted e = undotted_name (last_name e)

-- What a text starts with is in it.
contains-starts_with :
    (s pat : Text) (c : ℕ) → starts_with s pat ≡ true → contains pat c ≡ true → contains s c ≡ true
unfolding starts_with contains
contains-starts_with s [] c h k = absurd (cc)
contains-starts_with [] (p ∷ pat) c h k = absurd (cc)
contains-starts_with (x ∷ s) (p ∷ pat) c h k =
    ground (arith, h, k, ==_iff x p, ==_iff x c, ==_iff p c, contains-starts_with s pat c)

undotted-patch :
    (attr : Text) → not (contains attr b'.') ≡ true → starts_with attr (chars "patch.") ≡ false
unfolding contains
undotted-patch attr h = elim (Bool-cases (starts_with attr (chars "patch."))) [
  | inr e ↦ e
  | inl e ↦ absurd (ground (arith, h, contains-starts_with attr (chars "patch.") b'.' e refl))
]

is_patch_decorator-last_name :
    (e : Expr) → undotted e ≡ true → is_patch_decorator e ≡ is_patch (last_name e)
unfolding is_patch_decorator
is_patch_decorator-last_name (call func args keywords) h = is_patch_decorator-last_name func h
is_patch_decorator-last_name (attribute value attr) h = ground (arith, undotted-patch attr h)
is_patch_decorator-last_name (name id) h = refl
is_patch_decorator-last_name (constant value) h = refl
is_patch_decorator-last_name (list elts) h = refl
is_patch_decorator-last_name (tuple elts) h = refl
is_patch_decorator-last_name other h = refl

has_new-given : (keywords : Keywords) → has_new keywords ≡ given (chars "new") keywords
unfolding has_new
has_new-given end = refl
has_new-given (keyword none value rest) = has_new-given rest
has_new-given (keyword (some arg) value rest) = ground (arith, has_new-given rest)

patch_injects_arg-takes_mock : (e : Expr) → undotted e ≡ true → patch_injects_arg e ≡ takes_mock e
unfolding patch_injects_arg call_injects
patch_injects_arg-takes_mock (call func args keywords) h =
    ground (arith, is_patch_decorator-last_name (call func args keywords) h, has_new-given keywords)
patch_injects_arg-takes_mock (attribute value attr) h = ground arith
patch_injects_arg-takes_mock (name id) h = ground arith
patch_injects_arg-takes_mock (constant value) h = ground arith
patch_injects_arg-takes_mock (list elts) h = ground arith
patch_injects_arg-takes_mock (tuple elts) h = ground arith
patch_injects_arg-takes_mock other h = ground arith

pub count_patch_decorators-mocks :
    (ds : List Expr) → All (λ e. undotted e ≡ true) ds → count_patch_decorators ds ≡ mocks ds
unfolding count_patch_decorators keep_if
count_patch_decorators-mocks [] h = refl
count_patch_decorators-mocks (d ∷ ds) (h, hs) =
    ground (arith, patch_injects_arg-takes_mock d h, count_patch_decorators-mocks ds hs)
