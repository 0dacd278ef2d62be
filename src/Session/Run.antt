-- ===== src/Session/Run.antt =====
-- execute_session and run_tests (src/main.rs), up to the end of the supervisor's part. What the system
-- and the zygote answer is a parameter; the printing is left out.
use tach_core.Base.{
  ℕ, Text, Bool, true, false, ◌&&◌, Option, none, some, List, [], is_empty, if◌then◌else◌,
}
use tach_core.Discovery.Types.{FilePath, DiscoveryResult}
use tach_core.Lifecycle.Guard.{ℤ, CleanupGuard, new_guard, set_zygote_pid, track_socket}
use tach_core.Logs.Capture.{LogCapture, new, get_fd}
use tach_core.Protocol.Messages.{TestPayload}
use tach_core.Scheduler.State.{Setup}
use tach_core.Resolver.Registry.{from_discovery}
use tach_core.Resolver.Resolve.{RunnableTest, resolve_all}
use tach_core.Session.Select.{selected, max_workers}

-- The answers, in the order of the calls. `env_loads` is false if setting a variable panics.
pub record System : Type 0 where
  pub current_dir : Bool
  -- DebugServer::new gives the path of its socket.
  pub debug_server : Option FilePath
  pub num_cpus : ℕ
  pub create_memfd : ℕ → Option ℕ
  pub resize : ℕ → Bool
  pub socket_pairs : Bool
  pub env_loads : Bool
  pub run_context : Bool
  pub fork : Option ℤ
  pub clone_socket : Bool
  pub ready : Bool
  pub new_scheduler : Bool
  pub run : Bool
  pub shutdown : Bool
  pub waitpid : Bool

-- How a session ends, and what it leaves: the guard, which is dropped behind it, the zygote, if it was
-- forked, and the log buffers.
pub record Left : Type 0 where
  pub ends_well : Bool
  pub guard : CleanupGuard
  pub zygote : Option ℤ
  pub log_capture : Option LogCapture
  pub tests : List RunnableTest

-- Scheduler::new: the scheduler's slots are those of the log capture. The sockets are left out.
unfoldable pub scheduler_of :
    LogCapture → (debug_socket_path : Text) → (TestPayload → Option (List ℕ)) → (ℕ → Text) → Setup
scheduler_of capture debug_socket_path serialize unnamed = record {
  get_fd = get_fd capture;
  debug_socket_path = debug_socket_path;
  serialize = serialize;
  max_workers = capture.num_slots;
  unnamed = unnamed;
}

-- A session that has not got to the fork.
unfoldable pub left : Bool → CleanupGuard → Option LogCapture → List RunnableTest → Left
left ok guard capture tests = record {
  ends_well = ok;
  guard = guard;
  zygote = none;
  log_capture = capture;
  tests = tests;
}

-- From the fork on, in the parent. The results of the run are not looked at.
unfoldable pub supervise : System → CleanupGuard → LogCapture → List RunnableTest → Left
unfolding left
supervise y guard capture tests = elim y.fork [
  | none ↦ left false guard (some capture) tests
  | some pid ↦ record {
    ends_well =
        y.clone_socket && (y.ready && (y.new_scheduler && (y.run && (y.shutdown && y.waitpid))));
    guard = set_zygote_pid guard pid;
    zygote = some pid;
    log_capture = some capture;
    tests = tests;
  }
]

-- With the debug server up.
unfoldable pub prepare : System → CleanupGuard → List RunnableTest → Left
unfolding supervise
prepare y guard tests = elim (new y.create_memfd y.resize (max_workers y.num_cpus tests)) [
  | none ↦ left false guard none tests
  | some capture ↦
      if y.socket_pairs && (y.env_loads && y.run_context)
      then supervise y guard capture tests
      else left false guard (some capture) tests
]

unfoldable pub run_tests : System → CleanupGuard → List RunnableTest → Left
unfolding prepare
run_tests y guard tests =
    if y.current_dir
    then (elim y.debug_server [
      | none ↦ left false guard none tests
      | some path ↦ prepare y (track_socket guard path) tests
    ])
    else left false guard none tests

-- `discovered` is what `discover` gives. The errors of the resolution are printed only.
unfoldable pub execute_session :
    System → (FilePath → Option FilePath) → FilePath → Option DiscoveryResult → Left
unfolding run_tests
execute_session y canonicalize target discovered = elim discovered [
  | none ↦ left false new_guard none []
  | some result ↦
      let tests =
        selected canonicalize target (resolve_all (from_discovery result) result).runnables in
      if is_empty tests then left true new_guard none [] else run_tests y new_guard tests
]
