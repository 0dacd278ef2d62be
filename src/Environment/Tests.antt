-- ===== src/Environment/Tests.antt =====
-- A project with a .venv, and a table of two variables.
use tach_core.Base.{
  ◌≡◌, refl, Text, chars, true, not, ◌==◌, Option, none, some, [], ◌∷◌, ◌++◌, any, nat_eq, list_eq,
  list_beq, starts_with, get, insert,
}
use tach_core.Discovery.Types.{FilePath}
use tach_core.Environment.Venv.{
  Disk, find_in_entries, find_site_packages_in_venv, find_local, or_else_find, find_site_packages,
}
use tach_core.Environment.Sites.{find_site_packages-first}
use tach_core.Environment.Pyproject.{
  PyProject, Variables, is_settable, set_var, set_each, env_table, load_env_from_pyproject,
}
use tach_core.Environment.Variables.{Sets, load_env_from_pyproject-Sets}

program : Unit {0}
unfolding find_in_entries find_site_packages_in_venv find_local or_else_find find_site_packages
    starts_with list_beq is_settable set_var set_each env_table load_env_from_pyproject any get
    insert
program = tt

abbrev root : FilePath
root = chars "p" ∷ []

-- Everything exists, and lib has a file and two directories.
abbrev disk : Disk
disk = record {
  exists = λ path. true;
  is_dir = λ path. not (path == (root ++ chars ".venv" ∷ chars "lib" ∷ chars "python" ∷ []));
  read_dir = λ path.
      some (some (chars "python") ∷ none ∷ some (chars "other") ∷ some (chars "python3.12") ∷ []);
}

found :
    find_site_packages disk none root
    ≡ some (root ++ chars ".venv" ∷ chars "lib" ∷ chars "python3.12" ∷ chars "site-packages" ∷ [])
unfolding program
found = refl

find_site_packages-first_example :
    find_site_packages disk none root
    ≡ some (root ++ chars ".venv" ∷ chars "lib" ∷ chars "python3.12" ∷ chars "site-packages" ∷ [])
unfolding program
find_site_packages-first_example = find_site_packages-first disk none root (λ path name h. refl)

abbrev from_str : Text → Option PyProject
from_str text = some (record {
  tool = some (record { pytest_env = some ((chars "A", chars "1") ∷ (chars "B", chars "2") ∷ []) });
})

abbrev before : Variables
before = (chars "B", chars "0") ∷ (chars "C", chars "3") ∷ []

loaded :
    load_env_from_pyproject from_str true (some []) before
    ≡ some ((chars "B", chars "2") ∷ (chars "C", chars "3") ∷ (chars "A", chars "1") ∷ [])
unfolding program
loaded = refl

refused : set_each before ((chars "A=B", chars "1") ∷ []) ≡ none
unfolding program
refused = refl

load_env_from_pyproject-Sets_example :
    Sets before
      ((chars "A", chars "1") ∷ (chars "B", chars "2") ∷ [])
      (load_env_from_pyproject from_str true (some []) before)
unfolding program
load_env_from_pyproject-Sets_example =
    load_env_from_pyproject-Sets from_str true (some []) before ((refl, tt), (tt, tt))
