-- ===== src/Debugger/Terminal.antt =====
-- TerminalManager, and the panic hook (src/debugger.rs). Each call of the terminal is told whether it
-- succeeds.
use tach_core.Base.{Bool, true, false, Option, none, some, List, if◌then◌else◌}
use tach_core.Lifecycle.Guard.{ℤ}

pub data TerminalMode : Type 0 where
  cooked : TerminalMode
  raw : TerminalMode

pub data Signal : Type 0 where
  sigstop : Signal
  sigcont : Signal

-- The attributes of the terminal, the statics of the supervisor, and the signals that it has sent.
pub record World (Termios : Type 0) : Type 0 where
  pub terminal : Termios
  pub in_raw_mode : Bool
  pub original_termios : Option Termios
  pub is_debugging : Bool
  pub signals : List (ℤ × Signal)

pub record TerminalManager (Termios : Type 0) : Type 0 where
  pub saved : Option Termios
  pub current_mode : TerminalMode

-- A manager in its world.
abbrev pub Managed : Type 0 → Type 0
Managed Termios = TerminalManager Termios × World Termios

module _ {Termios : Type 0} where
  -- TerminalManager::new; `none` is an error.
  unfoldable pub new : Bool → World Termios → Option (Managed Termios)
  new tcgetattr w =
      if tcgetattr
      then some (
        record { saved = some w.terminal; current_mode = cooked },
        record w { original_termios = some w.terminal },
      )
      else none

  -- Whether there is no error, and the state behind.
  unfoldable pub enter_raw_mode :
      (Termios → Termios) → Bool → Managed Termios → Bool × Managed Termios
  enter_raw_mode cfmakeraw tcsetattr (m, w) = elim m.current_mode [
    | raw ↦ (true, (m, w))
    | cooked ↦ elim m.saved [
      | none ↦ (false, (m, w))
      | some original ↦
          if tcsetattr
          then (
            true,
            (
              record m { current_mode = raw },
              record w { terminal = cfmakeraw original; in_raw_mode = true },
            ),
          )
          else (false, (m, w))
    ]
  ]

  unfoldable pub restore : Bool → Managed Termios → Bool × Managed Termios
  restore tcsetattr (m, w) = elim m.current_mode [
    | cooked ↦ (true, (m, w))
    | raw ↦ elim m.saved [
      | none ↦ (true, (record m { current_mode = cooked }, record w { in_raw_mode = false }))
      | some original ↦
          if tcsetattr
          then (
            true,
            (
              record m { current_mode = cooked },
              record w { terminal = original; in_raw_mode = false },
            ),
          )
          else (false, (m, w))
    ]
  ]

  -- TerminalManager::drop
  unfoldable pub dropped : Bool → Managed Termios → World Termios
  unfolding restore
  dropped tcsetattr s = (restore tcsetattr s).1.1

  -- What the installed hook does before the default one.
  unfoldable pub panic_hook : Bool → World Termios → World Termios
  panic_hook tcsetattr w =
      if w.in_raw_mode
      then (elim w.original_termios [
        | none ↦ record w { in_raw_mode = false }
        | some original ↦
            if tcsetattr
            then record w { terminal = original; in_raw_mode = false }
            else record w { in_raw_mode = false }
      ])
      else w
