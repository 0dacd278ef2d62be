-- ===== src/Session/Select.antt =====
-- What a session works on (src/main.rs, execute_session): reporters, files to compile, tests to run. An
-- absolute path has the root directory "/" as its first component.
use tach_core.Base.{
  ℕ, Text, chars, Bool, true, false, not, ◌&&◌, ◌||◌, ◌==◌, Option, none, some, List, [], ◌∷◌, any,
  keep_if, length, ltb, if◌then◌else◌, starts_with, nat_eq, list_eq,
}
use tach_core.Discovery.Types.{FilePath}
use tach_core.Discovery.Walk.{extension, is_py, strip_prefix, walked}
use tach_core.Environment.Pyproject.{OutputFormat, human, json}
use tach_core.Resolver.Resolve.{RunnableTest}

pub data ReporterChoice : Type 0 where
  to_json : ReporterChoice
  to_human : ReporterChoice
  to_junit : FilePath → ReporterChoice

unfoldable pub reporters_of : OutputFormat → Option FilePath → List ReporterChoice
reporters_of json none = to_json ∷ []
reporters_of json (some path) = to_json ∷ to_junit path ∷ []
reporters_of human none = to_human ∷ []
reporters_of human (some path) = to_human ∷ to_junit path ∷ []

-- The names of directories and files that are passed over.
unfoldable pub is_skipped : Text → Bool
is_skipped n =
    starts_with n (chars ".")
    || ((n == chars "__pycache__") || ((n == chars "target") || (n == chars "node_modules")))

-- The entries of the walk that are compiled. The ancestors of a path, down from the root, have the names
-- of its components.
unfoldable pub py_files : List (Option FilePath) → List FilePath
unfolding is_skipped
py_files entries =
    keep_if (λ path. is_py (extension path) && not (any is_skipped path)) (walked entries)

-- Path::starts_with
unfoldable pub starts_with_path : FilePath → FilePath → Bool
unfolding strip_prefix
starts_with_path path prefix = elim (strip_prefix path prefix) [ none ↦ false | some rest ↦ true ]

-- `canonicalize` is the one of the file system; a path that it does not find stays as it is.
unfoldable pub canonical : (FilePath → Option FilePath) → FilePath → FilePath
canonical canonicalize path = elim (canonicalize path) [ none ↦ path | some p ↦ p ]

unfoldable pub is_selected : (FilePath → Option FilePath) → FilePath → RunnableTest → Bool
unfolding starts_with_path canonical
is_selected canonicalize target test =
    starts_with_path (canonical canonicalize test.file_path) (canonical canonicalize target)
    || ((canonical canonicalize test.file_path == canonical canonicalize target)
        || starts_with_path test.file_path target)

unfoldable pub selected :
    (FilePath → Option FilePath) → FilePath → List RunnableTest → List RunnableTest
unfolding is_selected
selected canonicalize target = λ tests. keep_if (is_selected canonicalize target) tests

-- num_cpus::get().min(tests).max(1)
unfoldable pub max_workers : ℕ → List RunnableTest → ℕ
max_workers num_cpus tests =
    let fewer = if ltb (length tests) num_cpus then length tests else num_cpus in
    if ltb fewer 1 then 1 else fewer
