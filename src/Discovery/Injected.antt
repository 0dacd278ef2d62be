-- ===== src/Discovery/Injected.antt =====
-- Arguments that decorators inject (src/discovery.rs): parametrize and patch.
use tach_core.Base.{
  ℕ, Text, chars, Bool, false, not, ◌&&◌, ◌||◌, ◌==◌, none, some, List, [], ◌∷◌, ◌++◌, keep_if,
  if◌then◌else◌, list_eq, nat_eq, length, take, contains, ltb, leb, is_empty, starts_with,
  split_char,
}
use tach_core.Discovery.Ast.{
  str, Expr, Exprs, Keywords, call, attribute, name, constant, list, tuple, nil, cons, end, keyword,
  elements,
}
use tach_core.Discovery.Decorators.{is_named, str_value}

-- A character that `str::trim` takes off: the white space of Unicode.
unfoldable pub is_whitespace : ℕ → Bool
is_whitespace c =
    (leb 9 c && leb c 13)
    || ((c == 32)
        || ((c == 0x85)
            || ((c == 0xa0)
                || ((c == 0x1680)
                    || ((leb 0x2000 c && leb c 0x200a)
                        || ((c == 0x2028)
                            || ((c == 0x2029)
                                || ((c == 0x202f) || ((c == 0x205f) || (c == 0x3000))))))))))

unfoldable pub trim_start : Text → Text
unfolding is_whitespace
trim_start [] = []
trim_start (c ∷ s) = let rest = trim_start s in if is_whitespace c then rest else c ∷ s

-- Without the white space at its end.
unfoldable pub trim_end : Text → Text
unfolding is_whitespace
trim_end [] = []
trim_end (c ∷ s) =
    let rest = trim_end s in if is_empty rest && is_whitespace c then [] else c ∷ rest

unfoldable pub trim : Text → Text
unfolding trim_start trim_end
trim s = trim_end (trim_start s)

unfoldable pub is_parametrize_decorator : Expr → Bool
is_parametrize_decorator (call func args keywords) = is_parametrize_decorator func
is_parametrize_decorator (attribute value attr) = attr == chars "parametrize"
is_parametrize_decorator _ = false

-- The names of a comma-separated string.
unfoldable pub trimmed_names : List Text → List Text
unfolding trim
trimmed_names [] = []
trimmed_names (part ∷ parts) =
    let rest = trimmed_names parts in if is_empty (trim part) then rest else trim part ∷ rest

-- The string literals of a list or tuple.
unfoldable pub string_elements : Exprs → List Text
string_elements nil = []
string_elements (cons e es) =
    let rest = string_elements es in elim (str_value e) [ none ↦ rest | some s ↦ s ∷ rest ]

-- The names that the first argument of a parametrize call gives.
unfoldable pub names_of_argument : Expr → List Text
unfolding trimmed_names string_elements split_char
names_of_argument (constant (str s)) = trimmed_names (split_char b',' s)
names_of_argument (list elts) = string_elements elts
names_of_argument (tuple elts) = string_elements elts
names_of_argument _ = []

abbrev pub names_of_call : Expr → List Text
names_of_call (call func (cons first rest) keywords) = names_of_argument first
names_of_call _ = []

unfoldable pub extract_parametrized_args : List Expr → List Text
unfolding names_of_argument is_parametrize_decorator
extract_parametrized_args [] = []
extract_parametrized_args (d ∷ ds) =
    let rest = extract_parametrized_args ds in
    if is_parametrize_decorator d then names_of_call d ++ rest else rest

unfoldable pub is_patch_decorator : Expr → Bool
unfolding starts_with
is_patch_decorator (call func args keywords) = is_patch_decorator func
is_patch_decorator (attribute value attr) =
    (attr == chars "patch") || starts_with attr (chars "patch.")
is_patch_decorator (name id) = id == chars "patch"
is_patch_decorator _ = false

unfoldable pub has_new : Keywords → Bool
has_new end = false
has_new (keyword arg value rest) = is_named (chars "new") arg || has_new rest

-- `@patch(target)` injects; a replacement, second or `new=`, does not.
unfoldable pub call_injects : Expr → Bool
unfolding has_new
call_injects (call func args keywords) =
    if leb 2 (length (elements args)) then false else not (has_new keywords)
call_injects _ = false

unfoldable pub patch_injects_arg : Expr → Bool
unfolding is_patch_decorator call_injects
patch_injects_arg e = if not (is_patch_decorator e) then false else call_injects e

unfoldable pub count_patch_decorators : List Expr → ℕ
unfolding keep_if patch_injects_arg
count_patch_decorators decorators = length (keep_if patch_injects_arg decorators)

-- The loop that adds the arguments which are not there yet.
unfoldable pub push_missing : List Text → List Text → List Text
push_missing injected [] = injected
push_missing injected (arg ∷ args) =
    push_missing (if contains injected arg then injected else injected ++ arg ∷ []) args

unfoldable pub extract_injected_args : List Expr → List Text → List Text
unfolding extract_parametrized_args count_patch_decorators push_missing
extract_injected_args decorators func_args =
    let injected = extract_parametrized_args decorators in
    let patch_count = count_patch_decorators decorators in
    if ltb 0 patch_count && leb patch_count (length func_args)
    then push_missing injected (take patch_count func_args)
    else injected
