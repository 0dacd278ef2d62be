-- ===== src/Environment/Venv.antt =====
-- find_site_packages (src/environment.rs).
use tach_core.Base.{
  Text, chars, Bool, Option, none, some, List, [], ◌∷◌, ◌++◌, if◌then◌else◌, starts_with,
}
use tach_core.Discovery.Types.{FilePath}

-- The names of a directory's entries; one that is `none` is an error of an entry, and there is no list if
-- the directory cannot be read.
pub record Disk : Type 0 where
  pub exists : FilePath → Bool
  pub is_dir : FilePath → Bool
  pub read_dir : FilePath → Option (List (Option Text))

abbrev pub lib_of : FilePath → FilePath
lib_of venv = venv ++ chars "lib" ∷ []

abbrev pub site_of : FilePath → Text → FilePath
site_of lib name = (lib ++ name ∷ []) ++ chars "site-packages" ∷ []

unfoldable pub find_in_entries : Disk → FilePath → List (Option Text) → Option FilePath
find_in_entries disk lib [] = none
find_in_entries disk lib (none ∷ entries) = find_in_entries disk lib entries
find_in_entries disk lib (some name ∷ entries) =
    let rest = find_in_entries disk lib entries in
    if disk.is_dir (lib ++ name ∷ [])
    then (if starts_with name (chars "python")
        then (if disk.exists (site_of lib name) then some (site_of lib name) else rest)
        else rest)
    else rest

unfoldable pub find_site_packages_in_venv : Disk → FilePath → Option FilePath
unfolding find_in_entries
find_site_packages_in_venv disk venv =
    if disk.exists (lib_of venv)
    then (elim (disk.read_dir (lib_of venv)) [
      | none ↦ none
      | some entries ↦ find_in_entries disk (lib_of venv) entries
    ])
    else none

-- A local directory counts if it exists.
unfoldable pub find_local : Disk → FilePath → Option FilePath
unfolding find_site_packages_in_venv
find_local disk venv = if disk.exists venv then find_site_packages_in_venv disk venv else none

unfoldable pub or_else_find : Option FilePath → Option FilePath → Option FilePath
or_else_find none next = next
or_else_find (some sp) next = some sp

-- `virtual_env` is the variable VIRTUAL_ENV.
unfoldable pub find_site_packages : Disk → Option FilePath → FilePath → Option FilePath
unfolding find_site_packages_in_venv find_local or_else_find
find_site_packages disk virtual_env project_root =
    let explicit : Option FilePath = elim virtual_env [
      | none ↦ none
      | some v ↦ find_site_packages_in_venv disk v
    ] in
    or_else_find explicit (
      or_else_find (find_local disk (project_root ++ chars ".venv" ∷ []))
        (find_local disk (project_root ++ chars "venv" ∷ [])))

unfoldable pub get_python_paths : Disk → Option FilePath → FilePath → FilePath × Option FilePath
unfolding find_site_packages
get_python_paths disk virtual_env project_root =
    (project_root, find_site_packages disk virtual_env project_root)
