-- ===== src/Discovery/Walk.antt =====
-- `discover` (src/discovery.rs): which files of the walk are test files, and what is kept of them.
-- The walk over the directory, with the filters of the `ignore` crate, is a parameter.
use tach_core.Base.{
  ℕ, Text, chars, Bool, false, not, ◌||◌, ◌==◌, Option, none, some, List, [], ◌∷◌, map, keep_if,
  if◌then◌else◌, list_eq, nat_eq, list_beq, is_empty, get_last?, starts_with, ends_with,
}
use tach_core.Discovery.Types.{TestModule, DiscoveryResult, FilePath}
use tach_core.Discovery.Ast.{Stmt}
use tach_core.Discovery.Module.{parse_module}

-- What follows the last dot of a file name, if something stands before it.
unfoldable pub last_dot : Text → Option (Text × Text)
last_dot [] = none
last_dot (c ∷ s) =
    let later = last_dot s in
    elim later [ some (a, b) ↦ some (c ∷ a, b) | none ↦ if c == b'.' then some ([], s) else none ]

-- path.file_name()
unfoldable pub file_name : FilePath → Option Text
unfolding get_last?
file_name path = get_last? path

abbrev pub extension_of_name : Option (Text × Text) → Option Text
extension_of_name none = none
extension_of_name (some (stem, ext)) = if is_empty stem then none else some ext

-- path.extension()
unfoldable pub extension : FilePath → Option Text
unfolding last_dot file_name
extension path = elim (file_name path) [ none ↦ none | some n ↦ extension_of_name (last_dot n) ]

abbrev pub is_py : Option Text → Bool
is_py none = false
is_py (some e) = e == chars "py"

abbrev pub name_or_empty : Option Text → Text
name_or_empty none = []
name_or_empty (some n) = n

abbrev pub has_test_name : Text → Bool
has_test_name n =
    starts_with n (chars "test_") || (ends_with n (chars "_test.py") || (n == chars "conftest.py"))

unfoldable pub is_test_file : (is_file : FilePath → Bool) → FilePath → Bool
unfolding extension starts_with ends_with list_beq
is_test_file is_file path =
    if not (is_file path)
    then false
    else if not (is_py (extension path))
    then false
    else has_test_name (name_or_empty (file_name path))

-- path.strip_prefix(root)
unfoldable pub strip_prefix : FilePath → FilePath → Option FilePath
strip_prefix path [] = some path
strip_prefix [] (r ∷ root) = none
strip_prefix (c ∷ path) (r ∷ root) =
    let rest = strip_prefix path root in if c == r then rest else none

unfoldable pub relative_to : FilePath → FilePath → FilePath
unfolding strip_prefix
relative_to root path = elim (strip_prefix path root) [ none ↦ path | some p ↦ p ]

abbrev pub has_content : TestModule → Bool
has_content m = not (is_empty m.tests) || not (is_empty m.fixtures)

-- `filter_map(parse.ok())`, then the filter on content.
unfoldable pub parse_all : (FilePath → Option TestModule) → List FilePath → List TestModule
parse_all parse [] = []
parse_all parse (path ∷ paths) =
    let rest = parse_all parse paths in
    elim (parse path) [ none ↦ rest | some m ↦ if has_content m then m ∷ rest else rest ]

-- The entries of the walk; one that is `none` is an error of the walk.
unfoldable pub walked : List (Option FilePath) → List FilePath
walked [] = []
walked (none ∷ entries) = walked entries
walked (some path ∷ entries) = path ∷ walked entries

module _ (is_file : FilePath → Bool) (read_to_string : FilePath → Option (List ℕ))
    (parse_program : List ℕ → FilePath → Option (List Stmt)) where
  unfoldable pub discover : FilePath → List (Option FilePath) → DiscoveryResult
  unfolding is_test_file relative_to parse_all walked keep_if parse_module
  discover root entries = record {
    modules =
        parse_all (parse_module read_to_string parse_program)
          (map (relative_to root) (keep_if (is_test_file is_file) (walked entries)));
  }
