-- ===== src/Watch/Events.antt =====
-- The events of the watch mode and its loop (src/watch.rs). The watcher's paths are absolute.
use tach_core.Base.{
  ℕ, suc, Text, chars, Bool, not, ◌||◌, Option, none, some, List, [], ◌∷◌, ◌++◌, is_empty, keep_if,
  contains_text, join_char, if◌then◌else◌,
}
use tach_core.Discovery.Types.{FilePath}
use tach_core.Discovery.Walk.{extension, is_py}

abbrev pub path_string : FilePath → Text
path_string path = b'/' ∷ join_char b'/' path

unfoldable pub is_ignored_path : FilePath → Bool
unfolding contains_text join_char
is_ignored_path path =
    contains_text (path_string path) (chars "__pycache__")
    || contains_text (path_string path) (chars ".pytest_cache")
    || contains_text (path_string path) (chars ".mypy_cache")
    || contains_text (path_string path) (chars ".git")
    || contains_text (path_string path) (chars ".venv")
    || contains_text (path_string path) (chars "/venv/")
    || contains_text (path_string path) (chars "/env/")
    || contains_text (path_string path) (chars "/node_modules/")

unfoldable pub collect_python_paths : List FilePath → List FilePath
unfolding keep_if extension is_ignored_path
collect_python_paths paths =
    keep_if (λ p. not (is_ignored_path p)) (keep_if (λ p. is_py (extension p)) paths)

-- What the channel gives, in time: the paths of an event, or 100 ms without one. The end of a list
-- of signals is the end of the channel.
pub data Signal : Type 0 where
  event : (paths : List FilePath) → Signal
  silence : Signal

-- One change is handled: whether a session is run, by the changed paths.
unfoldable pub runs_for : List FilePath → ℕ → ℕ
runs_for changed_paths runs = if is_empty changed_paths then runs else suc runs

-- The loop, waiting for a first event (`none`) or accumulating from the paths so far; the result is
-- the number of sessions run.
unfoldable pub watch : List Signal → Option (List FilePath) → ℕ → ℕ
unfolding collect_python_paths runs_for
watch [] none runs = runs
watch [] (some changed_paths) runs = runs_for changed_paths runs
watch (silence ∷ signals) none runs = watch signals none runs
watch (silence ∷ signals) (some changed_paths) runs =
    watch signals none (runs_for changed_paths runs)
watch (event paths ∷ signals) none runs = watch signals (some (collect_python_paths paths)) runs
watch (event paths ∷ signals) (some changed_paths) runs =
    watch signals (some (changed_paths ++ collect_python_paths paths)) runs

-- The initial run, and the loop.
unfoldable pub start_watch_loop : List Signal → ℕ
unfolding watch
start_watch_loop signals = watch signals none 1
