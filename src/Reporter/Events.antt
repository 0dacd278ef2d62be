-- ===== src/Reporter/Events.antt =====
-- The events of a run (src/reporter.rs, MachineEvent): one for each callback of `Reporter`.
use tach_core.Base.{ℕ, Text, Option}

pub data MachineEvent : Type 0 where
  run_start : (count : ℕ) → MachineEvent
  test_start : (id file : Text) → MachineEvent
  test_finished : (id status : Text) → (duration_ms : ℕ) → (message : Option Text) → MachineEvent
  run_finished : (passed failed skipped duration_ms : ℕ) → MachineEvent
  error : (message : Text) → MachineEvent
