-- ===== src/Watch/Tests.antt =====
-- A change of a Python file and of a cache file in one burst, and of a text file in another one.
use tach_core.Base.{
  suc, ◌≡◌, refl, chars, List, [], ◌∷◌, keep_if, contains_text, split_once, starts_with, join_char,
  get_last?, list_beq,
}
use tach_core.Discovery.Walk.{extension, file_name, last_dot}
use tach_core.Watch.Events.{
  Signal, event, silence, is_ignored_path, collect_python_paths, runs_for, watch, start_watch_loop,
}
use tach_core.Watch.Bursts.{bursts, relevant, start_watch_loop-relevant}

abbrev signals : List Signal
signals =
    event ((chars "p" ∷ chars "a.py" ∷ []) ∷ [])
    ∷ event ((chars "__pycache__" ∷ chars "a.py" ∷ []) ∷ [])
    ∷ silence
    ∷ event ((chars "p" ∷ chars "a.txt" ∷ []) ∷ [])
    ∷ silence
    ∷ []

two_sessions : start_watch_loop signals ≡ 2
unfolding start_watch_loop watch runs_for collect_python_paths is_ignored_path keep_if contains_text
    split_once starts_with join_char extension file_name last_dot get_last? list_beq
two_sessions = refl

start_watch_loop-relevant_example : start_watch_loop signals ≡ suc (relevant (bursts signals))
start_watch_loop-relevant_example = start_watch_loop-relevant signals
