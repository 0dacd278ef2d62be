-- ===== src/Scheduler/Counts.antt =====
-- The counters of a run against what is reported (src/scheduler.rs, run).
use tach_core.Base.{
  take, ℕ, suc, ◌+◌, ◌%◌, ◌≡◌, ◌==◌, refl, Text, chars, Option, some, List, [], ◌∷◌, ◌++◌,
  Bool-cases, inl, inr, if◌then◌else◌, Assoc, remove, ◌/◌, nat_eq, list_eq, arith,
}
use tach_core.Protocol.Messages.{TestResult}
use tach_core.Reporter.Events.{
  MachineEvent, run_start, test_start, test_finished, run_finished, error,
}
use tach_core.Protocol.Messages.{cmd_fork}
use tach_core.Protocol.Frames.{frame}
use tach_core.Scheduler.Delivered.{worker_for, dispatch_test-deliver}
use tach_core.Resolver.Resolve.{RunnableTest}
use tach_core.Scheduler.State.{
  ActiveWorker, Setup, Scheduler, report_result, worker_of, status_of, message_of, collect, crash,
  crash_each, crash_stale, path_text, get_stale_workers, Delivery, answered, unanswered, cut,
  deliver, dispatch_outcome, start_test,
}
use tach_core.Scheduler.Steps.{
  Phase, Step, stop, next, collect_waiting, dispatch, dispatched, collect_remaining, collect_stale,
  finish, Reaches, start, andthen, started,
}

-- The tests reported as finished with "pass", and with another status.
abbrev pub passes : List MachineEvent → ℕ
passes [] = 0
passes (test_finished id status d m ∷ es) =
    if status == chars "pass" then suc (passes es) else passes es
passes (run_start n ∷ es) = passes es
passes (test_start id file ∷ es) = passes es
passes (run_finished a b c d ∷ es) = passes es
passes (error m ∷ es) = passes es

abbrev pub fails : List MachineEvent → ℕ
fails [] = 0
fails (test_finished id status d m ∷ es) =
    if status == chars "pass" then fails es else suc (fails es)
fails (run_start n ∷ es) = fails es
fails (test_start id file ∷ es) = fails es
fails (run_finished a b c d ∷ es) = fails es
fails (error m ∷ es) = fails es

pub passes-append : (xs ys : List MachineEvent) → passes (xs ++ ys) ≡ passes xs + passes ys
passes-append [] ys = omega arith
passes-append (test_finished id status d m ∷ es) ys = ground (arith, passes-append es ys)
passes-append (run_start n ∷ es) ys = passes-append es ys
passes-append (test_start id file ∷ es) ys = passes-append es ys
passes-append (run_finished a b c d ∷ es) ys = passes-append es ys
passes-append (error m ∷ es) ys = passes-append es ys

pub fails-append : (xs ys : List MachineEvent) → fails (xs ++ ys) ≡ fails xs + fails ys
fails-append [] ys = omega arith
fails-append (test_finished id status d m ∷ es) ys = ground (arith, fails-append es ys)
fails-append (run_start n ∷ es) ys = fails-append es ys
fails-append (test_start id file ∷ es) ys = fails-append es ys
fails-append (run_finished a b c d ∷ es) ys = fails-append es ys
fails-append (error m ∷ es) ys = fails-append es ys

-- The counters are those of the reported events.
abbrev pub Counts : Scheduler → Type 0
Counts s =
    (s.passed ≡ passes s.reported)
    × (s.failed ≡ fails s.reported)
    × (s.collected ≡ s.passed + s.failed)

report_result-Counts :
    (s : Scheduler) (name status : Text) (d : ℕ) (m : Option Text)
    → Counts s
    → Counts (report_result s name status d m)
unfolding report_result
report_result-Counts s name status d m h =
    let e = test_finished name status d m ∷ [] in
    elim (Bool-cases (status == chars "pass")) [
      | inl p ↦ (
        ground (arith, p, h, passes-append s.reported e),
        ground (arith, p, h, fails-append s.reported e),
        ground (arith, p, h),
      )
      | inr p ↦ (
        ground (arith, p, h, passes-append s.reported e),
        ground (arith, p, h, fails-append s.reported e),
        ground (arith, p, h),
      )
    ]

collect-Counts :
    (unnamed : ℕ → Text) (s : Scheduler) (r : TestResult) → Counts s → Counts (collect unnamed s r)
unfolding collect
collect-Counts unnamed s r h =
    let (name, slot) = worker_of unnamed s.active_workers r.test_id in
    let t : Scheduler = record s {
      active_workers = remove s.active_workers r.test_id;
      cleared = slot ∷ s.cleared;
    } in
    report_result-Counts t name (status_of r) (r.duration_ns / 1000000) (message_of r) h

crash-Counts : (s : Scheduler) (id : ℕ) (w : ActiveWorker) → Counts s → Counts (crash s id w)
unfolding crash
crash-Counts s id w h =
    let t : Scheduler = record s {
      active_workers = remove s.active_workers id;
      cleared = w.slot ∷ s.cleared;
    } in
    report_result-Counts t w.test_name (chars "fail") 0 (some (chars "CRASHED - no response")) h

crash_each-Counts :
    (stale : Assoc ℕ ActiveWorker) (s : Scheduler) → Counts s → Counts (crash_each stale s)
unfolding crash_each
crash_each-Counts [] s h = h
crash_each-Counts ((id, w) ∷ stale) s h =
    crash_each-Counts stale (crash s id w) (crash-Counts s id w h)

-- A report that is not of a finished test leaves the counts.
abbrev says : Scheduler → MachineEvent → Scheduler
says s e = record s { reported = s.reported ++ e ∷ [] }

says-Counts :
    (s : Scheduler) (e : MachineEvent)
    → passes (e ∷ []) ≡ 0
    → fails (e ∷ []) ≡ 0
    → Counts s
    → Counts (says s e)
says-Counts s e p f h = (
  omega (arith, h, p, passes-append s.reported (e ∷ [])),
  omega (arith, h, f, fails-append s.reported (e ∷ [])),
  h.2,
)

delivered-Counts :
    (s : Scheduler) (name message : Text) (id : ℕ) (w : ActiveWorker) (command : List ℕ)
    (d : Delivery)
    → Counts s
    → Counts (dispatch_outcome name message (deliver s id w command d))
unfolding dispatch_outcome deliver
delivered-Counts s name message id w command answered h = h
delivered-Counts s name message id w command unanswered h =
    report_result-Counts (record s { commands = s.commands ++ command }) name (chars "fail") 0
      (some message) h
delivered-Counts s name message id w command (cut n) h =
    report_result-Counts (record s { commands = s.commands ++ take n command }) name (chars "fail")
      0 (some message) h

start_test-Counts :
    (c : Setup) (s : Scheduler) (test : RunnableTest) (id slot now : ℕ) (d : Delivery) (m : Text)
    → Counts s
    → Counts (start_test c s test id slot now d m)
unfolding start_test dispatch_outcome
start_test-Counts c s test id slot now d m h =
    let s1 = says s (test_start test.test_name (path_text test.file_path)) in
    let k : Counts s1 =
      says-Counts s (test_start test.test_name (path_text test.file_path)) refl refl h in
    dispatch_test-deliver (λ o. Counts (dispatch_outcome test.test_name m o)) c s1 test id slot now
      d (report_result-Counts s1 test.test_name (chars "fail") 0 (some m) k)
      (λ bytes f.
        delivered-Counts s1 test.test_name m id (worker_for test slot now) (cmd_fork ∷ frame bytes)
          d k)

Step-Counts :
    (c : Setup) (total : ℕ) {p q : Phase} {s t : Scheduler}
    → Step c total p s q t
    → Counts s
    → Counts t
unfolding crash_stale
Step-Counts c total (stop id t q s) h =
    says-Counts s (error (chars "Shutdown requested")) refl refl h
Step-Counts c total (next id t q s) h = h
Step-Counts c total (collect_waiting id t q s r full) h = collect-Counts c.unnamed s r h
Step-Counts c total (dispatch id t q s now d m free) h =
    start_test-Counts c s t id (id % c.max_workers) now d m h
Step-Counts c total (dispatched s) h = h
Step-Counts c total (collect_remaining s r more) h = collect-Counts c.unnamed s r h
Step-Counts c total (collect_stale s now more) h =
    crash_each-Counts (get_stale_workers s.active_workers now 3000) s h
Step-Counts c total (finish s d) h = says-Counts s (run_finished s.passed s.failed 0 d) refl refl h

-- In every state that a run reaches, the counters of passed and failed tests are the numbers of the
-- tests reported as finished with "pass" and with another status, and the number of collected tests
-- is their sum.
pub Reaches-Counts :
    (c : Setup) (total : ℕ) (tests : List RunnableTest) (p : Phase) (s : Scheduler)
    → Reaches c total tests p s
    → (s.passed ≡ passes s.reported)
      × (s.failed ≡ fails s.reported)
      × (s.collected ≡ s.passed + s.failed)
unfolding started
Reaches-Counts c total tests p s start = (refl, refl, refl)
Reaches-Counts c total tests p s (andthen {p = o} {s = r} past step) =
    Step-Counts c total step (Reaches-Counts c total tests o r past)
