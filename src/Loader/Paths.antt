-- ===== src/Loader/Paths.antt =====
-- The names of modules and of cache files (src/loader.rs), for sources below the project's root.
use tach_core.Base.{
  ℕ, zero, suc, ◌-◌, Text, chars, none, some, [], ◌∷◌, ◌++◌, length, take, ends_with, if◌then◌else◌,
  is_empty, join_char,
}
use tach_core.Discovery.Types.{FilePath}
use tach_core.Discovery.Walk.{relative_to, last_dot}

-- A file name without its extension; a name that starts with its only dot has none.
unfoldable pub stem : Text → Text
unfolding last_dot
stem name = elim (last_dot name) [
  | none ↦ name
  | some (before, ext) ↦ if is_empty before then name else before
]

-- path.with_extension("")
unfoldable pub without_extension : FilePath → FilePath
unfolding stem
without_extension [] = []
without_extension (name ∷ []) = stem name ∷ []
without_extension (dir ∷ next ∷ path) = dir ∷ without_extension (next ∷ path)

-- s.trim_end_matches(pat), with the length of `s` as fuel
unfoldable pub trim_end_matches : ℕ → Text → Text → Text
unfolding ends_with
trim_end_matches zero s pat = s
trim_end_matches (suc n) s pat =
    let rest = trim_end_matches n (take (length s - length pat) s) pat in
    if ends_with s pat then rest else s

-- The code trims only a name that ends in ".__init__", and trimming changes no other one.
unfoldable pub path_to_module_name : FilePath → FilePath → Text
unfolding relative_to without_extension trim_end_matches
path_to_module_name project_root path =
    let name = join_char b'.' (without_extension (relative_to project_root path)) in
    trim_end_matches (length name) name (chars ".__init__")

unfoldable pub cache_path : FilePath → FilePath → FilePath → FilePath
unfolding relative_to
cache_path cache_dir project_root source =
    cache_dir ++ (join_char b'_' (relative_to project_root source) ++ chars ".pyc") ∷ []
