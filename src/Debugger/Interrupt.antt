-- ===== src/Debugger/Interrupt.antt =====
-- The signal thread (src/signals.rs, install_signal_handlers and shutdown_requested).
use tach_core.Base.{Bool, true, List, [], ◌∷◌, if◌then◌else◌}

-- A signal that signal_hook gives.
pub data Caught : Type 0 where
  sigint : Caught
  sigterm : Caught
  sigquit : Caught
  unknown : Caught

-- What the thread leaves in SHUTDOWN_REQUESTED, by IS_DEBUGGING at the time.
unfoldable pub route : Caught → Bool → Bool → Bool
route sigint is_debugging requested = if is_debugging then requested else true
route sigterm is_debugging requested = true
route sigquit is_debugging requested = true
route unknown is_debugging requested = requested

-- The loop over the signals, each with the flag at its time.
unfoldable pub route_all : List (Caught × Bool) → Bool → Bool
unfolding route
route_all [] requested = requested
route_all ((sig, is_debugging) ∷ sigs) requested = route_all sigs (route sig is_debugging requested)
