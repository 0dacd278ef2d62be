-- ===== src/Scheduler/State.antt =====
-- The state of the scheduler and its operations (src/scheduler.rs). The clock is a number of
-- milliseconds; the counters of `run` stand in the state, with the events reported so far.
use tach_core.Base.{
  ℕ, ◌+◌, ◌-◌, ◌/◌, Text, chars, ◌==◌, Option, none, some, List, [], ◌∷◌, ◌++◌, take, map, ltb,
  is_empty, if◌then◌else◌, keep_if, join_char, Assoc, get, insert, remove, nat_eq, list_eq,
}
use tach_core.Discovery.Types.{FilePath}
use tach_core.Protocol.Messages.{
  TestPayload, TestResult, from_scope, status_pass, cmd_fork, cmd_exit,
}
use tach_core.Protocol.Frames.{frame}
use tach_core.Reporter.Events.{MachineEvent, test_start, test_finished}
use tach_core.Resolver.Resolve.{RunnableTest}

pub record ActiveWorker : Type 0 where
  pub test_name : Text
  pub slot : ℕ
  pub start_time : ℕ

pub record Scheduler : Type 0 where
  pub active_workers : Assoc ℕ ActiveWorker
  -- The bytes written to the command socket.
  pub commands : List ℕ
  -- The log slots read and cleared, the latest first.
  pub cleared : List ℕ
  pub reported : List MachineEvent
  pub passed : ℕ
  pub failed : ℕ
  pub collected : ℕ

-- to_string_lossy of a relative path
unfoldable pub path_text : FilePath → Text
path_text path = join_char b'/' path

-- What one round of the collection reports and counts, for the worker's name, the status and the rest.
unfoldable pub report_result : Scheduler → Text → Text → ℕ → Option Text → Scheduler
report_result s name status duration_ms message = record s {
  reported = s.reported ++ test_finished name status duration_ms message ∷ [];
  passed = if status == chars "pass" then s.passed + 1 else s.passed;
  failed = if status == chars "pass" then s.failed else s.failed + 1;
  collected = s.collected + 1;
}

-- The name and the slot of a result's worker. `unnamed` is the name of a test by its number,
-- format!("test_{}", test_id), used for a worker that is not active any more.
unfoldable pub worker_of : (ℕ → Text) → Assoc ℕ ActiveWorker → ℕ → Text × ℕ
worker_of unnamed workers id = elim (get workers id) [
  | some w ↦ (w.test_name, w.slot)
  | none ↦ (unnamed id, 0)
]

unfoldable pub message_of : TestResult → Option Text
message_of r = if is_empty r.message then none else some r.message

unfoldable pub status_of : TestResult → Text
status_of r = if r.status == status_pass then chars "pass" else chars "fail"

-- try_collect_result_for_reporter, for a result that was read, and the caller's lines behind it.
unfoldable pub collect : (ℕ → Text) → Scheduler → TestResult → Scheduler
unfolding worker_of report_result message_of status_of
collect unnamed s r =
    let (name, slot) = worker_of unnamed s.active_workers r.test_id in
    report_result
      (record s { active_workers = remove s.active_workers r.test_id; cleared = slot ∷ s.cleared })
      name (status_of r) (r.duration_ns / 1000000) (message_of r)

-- get_stale_workers; the order is the map's.
unfoldable pub get_stale_workers : Assoc ℕ ActiveWorker → ℕ → ℕ → Assoc ℕ ActiveWorker
get_stale_workers workers now timeout =
    keep_if (λ (id, w). ltb timeout (now - w.start_time)) workers

-- One stale worker: the report of its crash, the clearing of its slot, and its removal.
unfoldable pub crash : Scheduler → ℕ → ActiveWorker → Scheduler
unfolding report_result
crash s id w =
    report_result
      (record s { active_workers = remove s.active_workers id; cleared = w.slot ∷ s.cleared })
      w.test_name (chars "fail") 0 (some (chars "CRASHED - no response"))

unfoldable pub crash_each : Assoc ℕ ActiveWorker → Scheduler → Scheduler
unfolding crash
crash_each [] s = s
crash_each ((id, w) ∷ stale) s = crash_each stale (crash s id w)

unfoldable pub crash_stale : Scheduler → ℕ → Scheduler
unfolding get_stale_workers crash_each
crash_stale s now = crash_each (get_stale_workers s.active_workers now 3000) s

-- The log descriptors, the path of the debug socket and bincode.
pub record Setup : Type 0 where
  pub get_fd : ℕ → Option ℕ
  pub debug_socket_path : Text
  pub serialize : TestPayload → Option (List ℕ)
  pub max_workers : ℕ
  pub unnamed : ℕ → Text

unfoldable pub payload_of : Setup → RunnableTest → ℕ → ℕ → TestPayload
unfolding path_text
payload_of c test test_id slot = record {
  test_id = test_id;
  file_path = path_text test.file_path;
  test_name = test.test_name;
  is_async = test.is_async;
  fixtures = map (λ f. from_scope f.name f.scope) test.fixtures;
  log_fd = c.get_fd slot;
  debug_socket_path = c.debug_socket_path;
}

-- How the socket calls of a dispatch go: all succeed, or the zygote's answer is not read, or a write
-- fails behind the first `n` bytes of the command.
pub data Delivery : Type 0 where
  answered : Delivery
  unanswered : Delivery
  cut : (n : ℕ) → Delivery

-- A dispatch that has returned, with an error or without one; the bytes it has written stay written.
pub data Dispatched : Type 0 where
  err : Scheduler → Dispatched
  ok : Scheduler → Dispatched

-- The writes of a command and the read of the answer.
unfoldable pub deliver : Scheduler → ℕ → ActiveWorker → List ℕ → Delivery → Dispatched
deliver s test_id worker command answered = ok (record s {
  active_workers = insert s.active_workers test_id worker;
  commands = s.commands ++ command;
})
deliver s test_id worker command unanswered = err (record s { commands = s.commands ++ command })
deliver s test_id worker command (cut n) =
    err (record s { commands = s.commands ++ take n command })

-- dispatch_test: the command byte and the frame of the payload, and the zygote's answer.
unfoldable pub dispatch_test : Setup → Scheduler → RunnableTest → ℕ → ℕ → ℕ → Delivery → Dispatched
unfolding payload_of deliver
dispatch_test c s test test_id slot now delivery =
    elim (c.serialize (payload_of c test test_id slot)) [
      | none ↦ err s
      | some bytes ↦
          deliver s test_id (record { test_name = test.test_name; slot = slot; start_time = now })
            (cmd_fork ∷ frame bytes) delivery
    ]

-- What follows a dispatch: a failed one is reported, with the text of its error.
unfoldable pub dispatch_outcome : Text → Text → Dispatched → Scheduler
unfolding report_result
dispatch_outcome name message (ok t) = t
dispatch_outcome name message (err t) = report_result t name (chars "fail") 0 (some message)

-- The start event and the dispatch of a test.
unfoldable pub start_test :
    Setup → Scheduler → RunnableTest → ℕ → ℕ → ℕ → Delivery → Text → Scheduler
unfolding path_text dispatch_test dispatch_outcome
start_test c s test test_id slot now delivery message =
    let s1 : Scheduler = record s {
      reported = s.reported ++ test_start test.test_name (path_text test.file_path) ∷ [];
    } in
    dispatch_outcome test.test_name message (dispatch_test c s1 test test_id slot now delivery)

unfoldable pub shutdown : Scheduler → Scheduler
shutdown s = record s { commands = s.commands ++ cmd_exit ∷ [] }
