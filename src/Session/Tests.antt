-- ===== src/Session/Tests.antt =====
-- A project of one test file without fixtures, on a system that does what it is asked, or not.
use tach_core.Base.{
  ℕ, ◌+◌, ◌%◌, ◌≡◌, refl, Text, chars, true, false, Option, none, some, List, [], ◌∷◌, any, All,
  nat_eq, list_eq, list_beq, get, insert, pair_beq, get_last?, starts_with, ends_with, split_once,
  contains_text, split_first, keep_if, pop, contains,
}
use tach_core.Discovery.Types.{TestCase, FilePath, DiscoveryResult}
use tach_core.Discovery.Walk.{strip_prefix, extension, last_dot, file_name, walked}
use tach_core.Environment.Pyproject.{human}
use tach_core.Lifecycle.Guard.{pos, negsuc, int_beq, dropped, set_zygote_pid, track_socket}
use tach_core.Lifecycle.Signals.{is_kill}
use tach_core.Logs.Capture.{LogCapture, new, create_slots, get_fd}
use tach_core.Protocol.Messages.{TestPayload}
use tach_core.Resolver.Registry.{
  is_builtin_fixture, is_conftest, from_discovery, add_modules, add_module, add_fixtures,
  add_fixture, class_of_test, get_in, in_class, lookup,
}
use tach_core.Resolver.Resolve.{
  RunnableTest, resolve_each, resolve_found, leave, resolve_step, resolve_fixture,
  direct_dependencies, registry_names, resolve_direct, resolve_test, resolve_tests, resolve_modules,
  resolve_all,
}
use tach_core.Scheduler.State.{payload_of}
use tach_core.Session.Select.{
  is_skipped, py_files, starts_with_path, canonical, is_selected, selected, max_workers,
  reporters_of, to_human, to_junit,
}
use tach_core.Session.Run.{
  System, left, supervise, prepare, run_tests, execute_session, scheduler_of,
}
use tach_core.Session.Supervised.{execute_session-dropped}
use tach_core.Session.Captured.{Chosen, execute_session-captured}

program : Unit {0}
unfolding from_discovery add_modules add_module add_fixtures add_fixture is_conftest get insert
    pair_beq list_beq get_last? is_builtin_fixture contains class_of_test get_in in_class lookup
    starts_with ends_with split_once contains_text split_first keep_if pop resolve_each
    resolve_found leave resolve_step resolve_fixture direct_dependencies registry_names
    resolve_direct resolve_test resolve_tests resolve_modules resolve_all strip_prefix extension
    last_dot file_name walked any is_skipped py_files starts_with_path canonical is_selected
    selected max_workers left supervise prepare run_tests execute_session new create_slots
    set_zygote_pid track_socket int_beq reporters_of
program = tt

abbrev test_a : TestCase
test_a = record {
  name = chars "test_a";
  dependencies = [];
  is_async = false;
  line_number = 1;
  parametrized_args = [];
}

abbrev project : DiscoveryResult
project = record {
  modules =
      record { path = chars "tests" ∷ chars "test_x.py" ∷ []; tests = test_a ∷ []; fixtures = [] }
      ∷ [];
}

abbrev canonicalize : FilePath → Option FilePath
canonicalize path = some (chars "/" ∷ chars "p" ∷ path)

-- The zygote gets its process id, and the run fails.
abbrev system : System
system = record {
  current_dir = true;
  debug_server = some (chars "/" ∷ chars "tmp" ∷ chars "tach_debug_1.sock" ∷ []);
  num_cpus = 8;
  create_memfd = λ slot. some (slot + 5);
  resize = λ fd. true;
  socket_pairs = true;
  env_loads = true;
  run_context = true;
  fork = some (pos 4);
  clone_socket = true;
  ready = true;
  new_scheduler = true;
  run = false;
  shutdown = true;
  waitpid = true;
}

abbrev capture : LogCapture
capture = record { fds = (0, 5) ∷ []; num_slots = 1 }

one_worker :
    (execute_session system canonicalize (chars "tests" ∷ []) (some project)).log_capture
    ≡ some capture
unfolding program
one_worker = refl

run_failed :
    ((execute_session system canonicalize (chars "tests" ∷ []) (some project)).ends_well ≡ false)
    × ((execute_session system canonicalize (chars "tests" ∷ []) (some project)).zygote
        ≡ some (pos 4))
unfolding program
run_failed = (refl, refl)

-- Another directory has no tests, which is no error.
none_selected :
    ((execute_session system canonicalize (chars "docs" ∷ []) (some project)).ends_well ≡ true)
    × ((execute_session system canonicalize (chars "docs" ∷ []) (some project)).zygote ≡ none)
unfolding program
none_selected = (refl, refl)

-- In a project below a hidden directory nothing is compiled.
nothing_compiled : py_files (some (chars "/" ∷ chars ".work" ∷ chars "a.py" ∷ []) ∷ []) ≡ []
unfolding program
nothing_compiled = refl

with_junit :
    reporters_of human (some (chars "r.xml" ∷ [])) ≡ to_human ∷ to_junit (chars "r.xml" ∷ []) ∷ []
unfolding program
with_junit = refl

execute_session-dropped_example :
    ((execute_session system canonicalize (chars "tests" ∷ []) (some project)).guard.worker_pids
      ≡ [])
    × (any
          (is_kill (pos 4))
          (dropped (execute_session system canonicalize (chars "tests" ∷ []) (some project)).guard)
        ≡ true)
    × (any
          (is_kill (negsuc 3))
          (dropped (execute_session system canonicalize (chars "tests" ∷ []) (some project)).guard)
        ≡ false)
unfolding program
execute_session-dropped_example =
    execute_session-dropped system canonicalize (chars "tests" ∷ []) (some project) 3

abbrev serialize : TestPayload → Option (List ℕ)
serialize p = none

abbrev unnamed : ℕ → Text
unnamed n = []

abbrev test : RunnableTest
test = record {
  file_path = chars "tests" ∷ chars "test_x.py" ∷ [];
  test_name = chars "test_a";
  is_async = false;
  fixtures = [];
}

execute_session-captured_example :
    All
      (Chosen project canonicalize (chars "tests" ∷ []))
      (execute_session system canonicalize (chars "tests" ∷ []) (some project)).tests
    × ((fd : ℕ) × (get_fd capture (6 % 1) ≡ some fd)
        × ((payload_of
              (scheduler_of capture [] serialize unnamed)
              test
              6
              (6 % (scheduler_of capture [] serialize unnamed).max_workers)).log_fd
            ≡ some fd))
unfolding program
execute_session-captured_example =
    execute_session-captured system canonicalize (chars "tests" ∷ []) project capture [] serialize
      unnamed test 6 refl
