-- ===== src/Debugger/Session.antt =====
-- A debugging session (src/debugger.rs, pause_workers, resume_workers and handle_session).
use tach_core.Base.{
  zero, suc, Bool, true, false, ◌&&◌, Option, none, some, List, [], ◌∷◌, ◌++◌, if◌then◌else◌,
}
use tach_core.Lifecycle.Guard.{ℤ, pos, negsuc, int_beq}
use tach_core.Debugger.Terminal.{
  Signal, sigstop, sigcont, World, Managed, new, enter_raw_mode, restore, dropped,
}
use tach_core.Debugger.Pipe.{Turn, Pipes, begun, turns, ended}

unfoldable pub is_positive : ℤ → Bool
is_positive (pos zero) = false
is_positive (pos (suc n)) = true
is_positive (negsuc n) = false

unfoldable pub is_debugged : Option ℤ → ℤ → Bool
is_debugged none pid = false
is_debugged (some debugged) pid = int_beq pid debugged

-- The signals that are sent.
unfoldable pub pause_workers : List ℤ → Option ℤ → List (ℤ × Signal)
unfolding is_positive is_debugged
pause_workers [] debugged = []
pause_workers (pid ∷ pids) debugged =
    let rest = pause_workers pids debugged in
    if is_debugged debugged pid
    then rest
    else if is_positive pid
    then (pid, sigstop) ∷ rest
    else rest

unfoldable pub resume_workers : List ℤ → List (ℤ × Signal)
unfolding is_positive
resume_workers [] = []
resume_workers (pid ∷ pids) =
    let rest = resume_workers pids in if is_positive pid then (pid, sigcont) ∷ rest else rest

-- Which calls succeed; the two restores are the one of the session and the one of the drop.
pub record Calls : Type 0 where
  pub tcgetattr : Bool
  pub set_raw : Bool
  pub set_nonblocking : Bool
  pub try_clone : Bool
  pub restores : Bool
  pub drop_restores : Bool

-- A session that has not ended, or whether it has ended without an error, and the world behind it.
pub data Outcome (Termios : Type 0) : Type 0 where
  blocked : Pipes → Outcome Termios
  ended_with : Bool → World Termios → Outcome Termios

module _ {Termios : Type 0} where
  -- What the session starts with.
  unfoldable pub marked : World Termios → List ℤ → Option ℤ → World Termios
  unfolding pause_workers
  marked w worker_pids debugged = record w {
    is_debugging = true;
    signals = w.signals ++ pause_workers worker_pids debugged;
  }

  unfoldable pub resumed : World Termios → List ℤ → World Termios
  unfolding resume_workers
  resumed w worker_pids = record w {
    is_debugging = false;
    signals = w.signals ++ resume_workers worker_pids;
  }

  -- Behind the restore, which has succeeded or not: resume, and the manager is dropped.
  unfoldable pub finished : Calls → List ℤ → Bool → Managed Termios → Outcome Termios
  unfolding resumed dropped
  finished c worker_pids false s = ended_with false (dropped c.drop_restores s)
  finished c worker_pids true (m, w) =
      ended_with true (dropped c.drop_restores (m, resumed w worker_pids))

  -- Behind the join.
  unfoldable pub finish : Calls → List ℤ → Managed Termios → Outcome Termios
  unfolding finished
  finish c worker_pids s = let (done, u) = restore c.restores s in finished c worker_pids done u

  -- The session in raw mode.
  unfoldable pub tunnel : Calls → List Turn → List ℤ → Managed Termios → Outcome Termios
  unfolding finish
  tunnel c ts worker_pids s =
      if c.set_nonblocking && c.try_clone
      then (let p = turns ts begun in if ended p then finish c worker_pids s else blocked p)
      else ended_with false (dropped c.drop_restores s)

  unfoldable pub in_raw : Calls → List Turn → List ℤ → Bool × Managed Termios → Outcome Termios
  unfolding tunnel
  in_raw c ts worker_pids (false, s) = ended_with false (dropped c.drop_restores s)
  in_raw c ts worker_pids (true, s) = tunnel c ts worker_pids s

  unfoldable pub handle_session :
      (Termios → Termios) → Calls → List Turn → World Termios → List ℤ → Option ℤ → Outcome Termios
  unfolding marked in_raw
  handle_session cfmakeraw c ts w worker_pids debugged =
      elim (new c.tcgetattr (marked w worker_pids debugged)) [
        | none ↦ ended_with false (marked w worker_pids debugged)
        | some s ↦ in_raw c ts worker_pids (enter_raw_mode cfmakeraw c.set_raw s)
      ]
