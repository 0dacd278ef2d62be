-- ===== src/Discovery/Decorators.antt =====
-- What the decorators of a fixture say (src/discovery.rs): whether it is one, its scope, its params.
use tach_core.Base.{
  Text, chars, Bool, false, ◌==◌, Option, none, some, List, [], ◌∷◌, any, if◌then◌else◌, list_eq,
  nat_eq,
}
use tach_core.Discovery.Types.{FixtureScope, function, class, «module», session}
use tach_core.Discovery.Ast.{
  int, float, str, bool, none_value, Expr, Exprs, Keywords, call, attribute, name, constant, list,
  tuple, nil, cons, end, keyword,
}

unfoldable pub is_fixture_decorator : Expr → Bool
is_fixture_decorator (call func args keywords) = is_fixture_decorator func
is_fixture_decorator (attribute value attr) = attr == chars "fixture"
is_fixture_decorator (name id) = id == chars "fixture"
is_fixture_decorator _ = false

unfoldable pub has_fixture_decorator : List Expr → Bool
unfolding any is_fixture_decorator
has_fixture_decorator decorators = any is_fixture_decorator decorators

-- The value of a literal string, and of nothing else.
abbrev pub str_value : Expr → Option Text
str_value (constant (str s)) = some s
str_value _ = none

-- The scope that a keyword value names.
unfoldable pub scope_named : Text → FixtureScope
scope_named s =
    if s == chars "class"
    then class
    else if s == chars "module"
    then «module»
    else if s == chars "session"
    then session
    else function

abbrev pub is_named : Text → Option Text → Bool
is_named word none = false
is_named word (some arg) = arg == word

-- The inner loop of `extract_scope_from_decorators`: the first `scope="..."`.
unfoldable pub scope_in_keywords : Keywords → Option FixtureScope
unfolding scope_named
scope_in_keywords end = none
scope_in_keywords (keyword arg value rest) =
    let later = scope_in_keywords rest in
    if is_named (chars "scope") arg
    then (elim (str_value value) [ none ↦ later | some s ↦ some (scope_named s) ])
    else later

unfoldable pub extract_scope_from_decorators : List Expr → FixtureScope
unfolding scope_in_keywords
extract_scope_from_decorators [] = function
extract_scope_from_decorators (call func args keywords ∷ rest) =
    let later = extract_scope_from_decorators rest in
    elim (scope_in_keywords keywords) [ none ↦ later | some s ↦ s ]
extract_scope_from_decorators (_ ∷ rest) = extract_scope_from_decorators rest

unfoldable pub expr_to_string : Expr → Option Text
expr_to_string (constant (int i)) = some i
expr_to_string (constant (str s)) = some s
expr_to_string (constant (bool b)) = some (if b then chars "True" else chars "False")
expr_to_string (constant none_value) = some (chars "None")
expr_to_string (constant (float f)) = some f
expr_to_string (name id) = some id
expr_to_string _ = none

-- The loop over the elements: one that is no literal ends it with nothing.
unfoldable pub literals : Exprs → Option (List Text)
unfolding expr_to_string
literals nil = some []
literals (cons e es) =
    let later = literals es in
    elim (expr_to_string e) [
      | none ↦ none
      | some s ↦ elim later [ none ↦ none | some values ↦ some (s ∷ values) ]
    ]

unfoldable pub extract_literal_list : Expr → Option (List Text)
unfolding literals
extract_literal_list (list elts) = literals elts
extract_literal_list (tuple elts) = literals elts
extract_literal_list _ = none

-- The first `params=...` decides: its own `None` is returned too.
unfoldable pub params_in_keywords : Keywords → Option (Option (List Text))
unfolding extract_literal_list
params_in_keywords end = none
params_in_keywords (keyword arg value rest) =
    let later = params_in_keywords rest in
    if is_named (chars "params") arg then some (extract_literal_list value) else later

unfoldable pub extract_params_from_decorators : List Expr → Option (List Text)
unfolding params_in_keywords
extract_params_from_decorators [] = none
extract_params_from_decorators (call func args keywords ∷ rest) =
    let later = extract_params_from_decorators rest in
    elim (params_in_keywords keywords) [ none ↦ later | some found ↦ found ]
extract_params_from_decorators (_ ∷ rest) = extract_params_from_decorators rest
