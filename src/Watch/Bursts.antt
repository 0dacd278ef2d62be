-- ===== src/Watch/Bursts.antt =====
-- One session for each burst of events (src/watch.rs, start_watch_loop).
use tach_core.Base.{
  any-append, ℕ, suc, ◌+◌, ◌≡◌, refl, Bool, false, not, Option, none, some, ◌&&◌, ◌||◌, List, [],
  ◌∷◌, ◌++◌, any, keep_if, is_empty, if◌then◌else◌, arith,
}
use tach_core.Discovery.Types.{FilePath}
use tach_core.Discovery.Walk.{extension, is_py}
use tach_core.Watch.Events.{
  Signal, event, silence, is_ignored_path, collect_python_paths, runs_for, watch, start_watch_loop,
}

-- The paths of an event go to the burst that follows.
abbrev pub push : List FilePath → List (List FilePath) → List (List FilePath)
push paths [] = paths ∷ []
push paths (burst ∷ rest) = (paths ++ burst) ∷ rest

-- The paths of each burst: the events between two silences, one after the other.
abbrev pub bursts : List Signal → List (List FilePath)
bursts [] = [] ∷ []
bursts (silence ∷ signals) = [] ∷ bursts signals
bursts (event paths ∷ signals) = push paths (bursts signals)

-- A path that triggers a session.
abbrev pub is_relevant : FilePath → Bool
is_relevant p = is_py (extension p) && not (is_ignored_path p)

abbrev pub relevant : List (List FilePath) → ℕ
relevant [] = 0
relevant (burst ∷ rest) = if any is_relevant burst then suc (relevant rest) else relevant rest

is_empty-append : {A : Type 0} (l m : List A) → is_empty (l ++ m) ≡ (is_empty l && is_empty m)
is_empty-append [] m = refl
is_empty-append (a ∷ l) m = refl

is_empty-keep_if :
    (p q : FilePath → Bool) (l : List FilePath)
    → is_empty (keep_if q (keep_if p l)) ≡ not (any (λ x. p x && q x) l)
unfolding keep_if any
is_empty-keep_if p q [] = refl
is_empty-keep_if p q (x ∷ l) = ground (arith, is_empty-keep_if p q l)

is_empty-collect_python_paths :
    (paths : List FilePath) → is_empty (collect_python_paths paths) ≡ not (any is_relevant paths)
unfolding collect_python_paths
is_empty-collect_python_paths paths =
    is_empty-keep_if (λ p. is_py (extension p)) (λ p. not (is_ignored_path p)) paths

-- A burst that goes on from paths of which some are, or are not, relevant.
abbrev continued : Bool → List (List FilePath) → ℕ
continued seen [] = if seen then 1 else 0
continued seen (burst ∷ rest) =
    if seen || any is_relevant burst then suc (relevant rest) else relevant rest

continued-relevant : (bs : List (List FilePath)) → continued false bs ≡ relevant bs
continued-relevant [] = refl
continued-relevant (burst ∷ rest) = refl

continued-push :
    (seen : Bool) (paths : List FilePath) (bs : List (List FilePath))
    → continued seen (push paths bs) ≡ continued (seen || any is_relevant paths) bs
continued-push seen paths [] = ground arith
continued-push seen paths (burst ∷ rest) = ground (arith, any-append is_relevant paths burst)

abbrev seen_of : Option (List FilePath) → Bool
seen_of none = false
seen_of (some changed) = not (is_empty changed)

watch-continued :
    (signals : List Signal) (pending : Option (List FilePath)) (runs : ℕ)
    → watch signals pending runs ≡ runs + continued (seen_of pending) (bursts signals)
unfolding watch runs_for any
watch-continued [] none runs = omega arith
watch-continued [] (some changed) runs = ground arith
watch-continued (silence ∷ signals) none runs =
    ground (arith, watch-continued signals none runs, continued-relevant (bursts signals))
watch-continued (silence ∷ signals) (some changed) runs = ground (
  arith,
  watch-continued signals none (runs_for changed runs),
  continued-relevant (bursts signals),
)
watch-continued (event paths ∷ signals) none runs = ground (
  arith,
  watch-continued signals (some (collect_python_paths paths)) runs,
  continued-push false paths (bursts signals),
  is_empty-collect_python_paths paths,
)
watch-continued (event paths ∷ signals) (some changed) runs = ground (
  arith,
  watch-continued signals (some (changed ++ collect_python_paths paths)) runs,
  continued-push (not (is_empty changed)) paths (bursts signals),
  is_empty-collect_python_paths paths,
  is_empty-append changed (collect_python_paths paths),
)

-- The watch mode runs one session at the start, and one more for each burst of events, cut by
-- silences, that has a Python path which is not ignored.
pub start_watch_loop-relevant :
    (signals : List Signal) → start_watch_loop signals ≡ suc (relevant (bursts signals))
unfolding start_watch_loop
start_watch_loop-relevant signals =
    ground (arith, watch-continued signals none 1, continued-relevant (bursts signals))
