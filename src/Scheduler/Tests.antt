-- ===== src/Scheduler/Tests.antt =====
-- A run of two tests on one worker slot: one passes, the other one never answers.
use tach_core.Base.{
  ◌+◌, ◌%◌, ◌≤◌, ◌≡◌, refl, Text, chars, false, none, some, List, [], ◌∷◌, ◌++◌, length, All,
  nat_eq, list_eq, list_beq, get, insert, remove, keep_if, join_char, arith,
}
use tach_core.Protocol.Messages.{TestResult, status_pass}
use tach_core.Protocol.Frames.{frame}
use tach_core.Protocol.Bytes.{to_le_bytes}
use tach_core.Reporter.Events.{run_finished}
use tach_core.Resolver.Resolve.{RunnableTest}
use tach_core.Scheduler.State.{
  Setup, Scheduler, collect, crash, crash_each, crash_stale, get_stale_workers, report_result,
  worker_of, status_of, message_of, deliver, answered, dispatch_test, dispatch_outcome, start_test,
  path_text,
}
use tach_core.Scheduler.Steps.{
  finished, Reaches, start, andthen, next, dispatch, collect_waiting, dispatched, collect_stale,
  finish, enumerate, started, begins,
}
use tach_core.Scheduler.Active.{NodupKeys}
use tach_core.Scheduler.Invariant.{starts}
use tach_core.Scheduler.Accounts.{Reaches-Accounts}
use tach_core.Scheduler.Counts.{passes, fails, Reaches-Counts}

program : Unit {0}
unfolding collect crash crash_each crash_stale get_stale_workers report_result worker_of status_of
    message_of deliver dispatch_test dispatch_outcome start_test path_text frame to_le_bytes
    enumerate started list_beq get insert remove keep_if join_char
program = tt

abbrev setup : Setup
setup = record {
  get_fd = λ slot. none;
  debug_socket_path = chars "/tmp/d";
  serialize = λ p. some (p.test_id ∷ []);
  max_workers = 1;
  unnamed = λ id. chars "test_?";
}

abbrev test : Text → RunnableTest
test name = record {
  file_path = chars "t.py" ∷ [];
  test_name = name;
  is_async = false;
  fixtures = [];
}

abbrev two_tests : List RunnableTest
two_tests = test (chars "a") ∷ test (chars "b") ∷ []

abbrev result : TestResult
result = record { test_id = 0; status = status_pass; duration_ns = 2000000; message = [] }

abbrev s0 : Scheduler
s0 = started begins 2

abbrev s1 : Scheduler
s1 = start_test setup s0 (test (chars "a")) 0 0 10 answered []

abbrev s2 : Scheduler
s2 = collect setup.unnamed s1 result

abbrev s3 : Scheduler
s3 = start_test setup s2 (test (chars "b")) 1 0 20 answered []

abbrev s4 : Scheduler
s4 = crash_stale s3 5000

abbrev s5 : Scheduler
s5 = record s4 { reported = s4.reported ++ run_finished s4.passed s4.failed 0 6000 ∷ [] }

run : Reaches setup 2 two_tests finished s5
unfolding program
run =
    andthen
      (andthen
        (andthen
          (andthen
            (andthen
              (andthen
                (andthen
                  (andthen start
                    (next 0 (test (chars "a")) (enumerate 1 (test (chars "b") ∷ [])) s0))
                  (dispatch 0 (test (chars "a")) (enumerate 1 (test (chars "b") ∷ [])) s0 10
                    answered [] (omega arith)))
                (next 1 (test (chars "b")) [] s1))
              (collect_waiting 1 (test (chars "b")) [] s1 result (omega arith)))
            (dispatch 1 (test (chars "b")) [] s2 20 answered [] (omega arith)))
          (dispatched s3))
        (collect_stale s3 5000 (omega arith)))
      (finish s4 6000)

one_crashed : (s5.passed ≡ 1) × (s5.failed ≡ 1) × (s5.cleared ≡ 0 ∷ 0 ∷ [])
unfolding program
one_crashed = (refl, refl, refl)

Reaches-Counts_example :
    (s5.passed ≡ passes s5.reported)
    × (s5.failed ≡ fails s5.reported)
    × (s5.collected ≡ s5.passed + s5.failed)
Reaches-Counts_example = Reaches-Counts setup 2 two_tests finished s5 run

Reaches-Accounts_example :
    (length s5.active_workers ≤ 1)
    × NodupKeys s5.active_workers
    × All (λ (id, w). w.slot ≡ id % 1) s5.active_workers
    × (starts s5.reported ≤ s5.collected + length s5.active_workers)
Reaches-Accounts_example = Reaches-Accounts setup 2 two_tests finished s5 run
