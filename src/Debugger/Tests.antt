-- ===== src/Debugger/Tests.antt =====
-- A session on a terminal whose attributes are a number, raw mode adding one.
use tach_core.Base.{ℕ, ◌+◌, ◌≡◌, refl, true, false, none, some, List, [], ◌∷◌, any}
use tach_core.Lifecycle.Guard.{pos, int_beq}
use tach_core.Debugger.Terminal.{
  cooked, sigstop, sigcont, World, Managed, new, enter_raw_mode, restore, dropped, panic_hook,
}
use tach_core.Debugger.Hook.{enters, restores, operate, panic_hook-operate}
use tach_core.Debugger.Pipe.{
  bytes, Turn, of_reader, of_writer, begun, reader_round, writer_round, writer_ends, turn, turns,
  ended,
}
use tach_core.Debugger.Order.{Copies, from_socket, from_stdin, turns-Copies}
use tach_core.Debugger.Session.{
  is_positive, is_debugged, pause_workers, resume_workers, Calls, ended_with, marked, resumed,
  finished, finish, tunnel, in_raw, handle_session,
}
use tach_core.Debugger.Restored.{stopped, handle_session-ended_with}
use tach_core.Debugger.Interrupt.{sigint, sigterm, route, route_all}

program : Unit {0}
unfolding new enter_raw_mode restore dropped panic_hook begun reader_round writer_round writer_ends
    turn turns ended is_positive is_debugged pause_workers resume_workers marked resumed finished
    finish tunnel in_raw handle_session stopped int_beq any route route_all
program = tt

abbrev cfmakeraw : ℕ → ℕ
cfmakeraw n = n + 1

abbrev desk : World ℕ
desk = record {
  terminal = 4;
  in_raw_mode = false;
  original_termios = none;
  is_debugging = false;
  signals = [];
}

abbrev managed : Managed ℕ
managed =
    (record { saved = some 4; current_mode = cooked }, record desk { original_termios = some 4 })

panicked : (operate cfmakeraw (enters true ∷ restores false ∷ []) managed).1.terminal ≡ 5
unfolding program
panicked = refl

panic_hook-operate_example :
    ((panic_hook true (operate cfmakeraw (enters true ∷ restores false ∷ []) managed).1).terminal
      ≡ 4)
    × ((panic_hook true
          (operate cfmakeraw (enters true ∷ restores false ∷ []) managed).1).in_raw_mode
        ≡ false)
    × ((dropped true (operate cfmakeraw (enters true ∷ restores false ∷ []) managed)).terminal ≡ 4)
    × ((dropped true (operate cfmakeraw (enters true ∷ restores false ∷ []) managed)).in_raw_mode
        ≡ false)
unfolding program
panic_hook-operate_example =
    panic_hook-operate cfmakeraw desk managed (enters true ∷ restores false ∷ []) refl refl

-- The worker says "hi", is told "c", and closes its socket.
abbrev dialogue : List Turn
dialogue =
    of_reader (bytes (104 ∷ 105 ∷ [])) none
    ∷ of_writer (bytes (99 ∷ [])) none
    ∷ of_reader (bytes []) none
    ∷ of_writer (bytes (99 ∷ [])) none
    ∷ []

copied :
    ((turns dialogue begun).stdout ≡ 104 ∷ 105 ∷ []) × ((turns dialogue begun).socket ≡ 99 ∷ [])
unfolding program
copied = (refl, refl)

turns-Copies_example :
    Copies (turns dialogue begun).reader (turns dialogue begun).stdout (from_socket dialogue)
    × Copies (turns dialogue begun).writer (turns dialogue begun).socket (from_stdin dialogue)
turns-Copies_example = turns-Copies dialogue

-- No terminal: the session fails when the other workers are paused already.
abbrev no_terminal : Calls
no_terminal = record {
  tcgetattr = false;
  set_raw = true;
  set_nonblocking = true;
  try_clone = true;
  restores = true;
  drop_restores = true;
}

abbrev left_world : World ℕ
left_world = record desk { is_debugging = true; signals = (pos 8, sigstop) ∷ [] }

handle_session-ended_with_example :
    (left_world.terminal ≡ 4)
    × (left_world.in_raw_mode ≡ false)
    × (left_world.is_debugging ≡ true)
    × (stopped left_world.signals (pos 8) false ≡ true)
unfolding program
handle_session-ended_with_example =
    handle_session-ended_with cfmakeraw no_terminal dialogue desk left_world (pos 7 ∷ pos 8 ∷ [])
      (some (pos 7)) false 7 false refl refl refl

abbrev all_well : Calls
all_well = record no_terminal { tcgetattr = true }

well :
    handle_session cfmakeraw all_well dialogue desk (pos 7 ∷ pos 8 ∷ []) (some (pos 7))
    ≡ ended_with true (record desk {
      original_termios = some 4;
      signals = (pos 8, sigstop) ∷ (pos 7, sigcont) ∷ (pos 8, sigcont) ∷ [];
    })
unfolding program
well = refl

-- Ctrl-C while debugging asks for nothing, a termination does.
interrupted :
    (route_all ((sigint, true) ∷ []) false ≡ false)
    × (route_all ((sigint, true) ∷ (sigterm, true) ∷ []) false ≡ true)
unfolding program
interrupted = (refl, refl)
