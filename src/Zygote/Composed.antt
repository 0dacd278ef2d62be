-- ===== src/Zygote/Composed.antt =====
-- A run of the scheduler against the command loop of the zygote (src/scheduler.rs, src/zygote.rs).
use tach_core.Base.{
  ℕ, ◌%◌, ◌≡◌, refl, sym, ◌∙◌, ap, Text, some, List, [], ◌∷◌, ◌++◌, All, All-append, All-map, map,
  Assoc, nat_eq,
}
use tach_core.Protocol.Messages.{TestPayload, TestResult, cmd_exit, cmd_fork}
use tach_core.Protocol.Frames.{frame}
use tach_core.Scheduler.Delivered.{worker_for, dispatch_test-deliver}
use tach_core.Resolver.Resolve.{RunnableTest}
use tach_core.Reporter.Events.{test_start}
use tach_core.Scheduler.State.{
  ActiveWorker, Setup, Scheduler, report_result, collect, crash, crash_each, crash_stale, Delivery,
  answered, unanswered, cut, deliver, dispatch_outcome, start_test, payload_of, path_text,
  get_stale_workers, shutdown,
}
use tach_core.Scheduler.Steps.{
  Phase, Step, stop, next, collect_waiting, dispatch, dispatched, collect_remaining, collect_stale,
  finish, Reaches, start, andthen, started,
}
use tach_core.Zygote.Commands.{forked, exited, Server, serve}
use tach_core.Zygote.Dispatched.{
  Sent, fork_bytes, commands_of, Decodes, Obliges, serve-commands_of, commands_of-snoc,
}

-- The payload of some test, and its bytes.
abbrev pub Dispatches : Setup → Sent → Type 0
Dispatches c (p, bytes) =
    ((t : RunnableTest) × (id : ℕ) × (p ≡ payload_of c t id (id % c.max_workers)))
    × (c.serialize p ≡ some bytes)

-- The commands that were written are those of payloads of tests.
abbrev Commanded : Setup → Scheduler → Type 0
Commanded c s = (xs : List Sent) × (s.commands ≡ commands_of xs) × All (λ x. Dispatches c x) xs

crash_each-commands :
    (stale : Assoc ℕ ActiveWorker) (s : Scheduler) → (crash_each stale s).commands ≡ s.commands
unfolding crash_each crash report_result
crash_each-commands [] s = refl
crash_each-commands ((id, w) ∷ stale) s = crash_each-commands stale (crash s id w)

collect-commands :
    (unnamed : ℕ → Text) (s : Scheduler) (r : TestResult)
    → (collect unnamed s r).commands ≡ s.commands
unfolding collect report_result
collect-commands unnamed s r = refl

Commanded-same :
    (c : Setup) (s t : Scheduler) → t.commands ≡ s.commands → Commanded c s → Commanded c t
Commanded-same c s t e (xs, k, h) = (xs, e ∙ k, h)

-- No write fails behind a part of its command.
abbrev pub Uncut : Delivery → Type 0
Uncut answered = Unit {0}
Uncut unanswered = Unit {0}
Uncut (cut n) = ⊥

abbrev UncutStep :
    (c : Setup) (total : ℕ) (p : Phase) (s : Scheduler) (q : Phase) (t : Scheduler)
    → Step c total p s q t
    → Type 0
UncutStep c total p s q t (stop id u r o) = Unit {0}
UncutStep c total p s q t (next id u r o) = Unit {0}
UncutStep c total p s q t (collect_waiting id u r o result full) = Unit {0}
UncutStep c total p s q t (dispatch id u r o now d message free) = Uncut d
UncutStep c total p s q t (dispatched o) = Unit {0}
UncutStep c total p s q t (collect_remaining o result more) = Unit {0}
UncutStep c total p s q t (collect_stale o now more) = Unit {0}
UncutStep c total p s q t (finish o d) = Unit {0}

-- A run in which no command is cut.
abbrev pub UncutRun :
    (c : Setup) (total : ℕ) (tests : List RunnableTest) (p : Phase) (s : Scheduler)
    → Reaches c total tests p s
    → Type 0
UncutRun c total tests p s start = Unit {0}
UncutRun c total tests p s (andthen {p = o} {s = r} past step) =
    UncutRun c total tests o r past × UncutStep c total o r p s step

written-Commanded :
    (c : Setup) (s t : Scheduler) (test : RunnableTest) (id : ℕ) (bytes : List ℕ)
    → c.serialize (payload_of c test id (id % c.max_workers)) ≡ some bytes
    → t.commands ≡ s.commands ++ (cmd_fork ∷ frame bytes)
    → Commanded c s
    → Commanded c t
written-Commanded c s t test id bytes f e (xs, k, h) =
    let x : Sent = (payload_of c test id (id % c.max_workers), bytes) in
    (
      xs ++ x ∷ [],
      e ∙ ap (λ l. l ++ fork_bytes x) k ∙ sym (commands_of-snoc xs x),
      All-append (λ x. Dispatches c x) xs (x ∷ []) h (((test, id, refl), f), tt),
    )

delivered-Commanded :
    (c : Setup) (s : Scheduler) (name message : Text) (test : RunnableTest) (id : ℕ)
    (w : ActiveWorker) (bytes : List ℕ) (d : Delivery)
    → Uncut d
    → c.serialize (payload_of c test id (id % c.max_workers)) ≡ some bytes
    → Commanded c s
    → Commanded c (dispatch_outcome name message (deliver s id w (cmd_fork ∷ frame bytes) d))
unfolding dispatch_outcome deliver report_result
delivered-Commanded c s name message test id w bytes answered u f h =
    let command = cmd_fork ∷ frame bytes in
    written-Commanded c s (dispatch_outcome name message (deliver s id w command answered)) test id
      bytes f refl h
delivered-Commanded c s name message test id w bytes unanswered u f h =
    let command = cmd_fork ∷ frame bytes in
    written-Commanded c s (dispatch_outcome name message (deliver s id w command unanswered)) test
      id bytes f refl h
delivered-Commanded c s name message test id w bytes (cut n) u f h = absurd u

start_test-Commanded :
    (c : Setup) (s : Scheduler) (t : RunnableTest) (id now : ℕ) (d : Delivery) (m : Text)
    → Uncut d
    → Commanded c s
    → Commanded c (start_test c s t id (id % c.max_workers) now d m)
unfolding start_test dispatch_outcome report_result
start_test-Commanded c s t id now d m u h =
    let s1 : Scheduler = record s {
      reported = s.reported ++ test_start t.test_name (path_text t.file_path) ∷ [];
    } in
    let slot = id % c.max_workers in
    dispatch_test-deliver (λ o. Commanded c (dispatch_outcome t.test_name m o)) c s1 t id slot now d
      h
      (λ bytes f. delivered-Commanded c s1 t.test_name m t id (worker_for t slot now) bytes d u f h)

Step-Commanded :
    (c : Setup) (total : ℕ) {p q : Phase} {s t : Scheduler} (step : Step c total p s q t)
    → UncutStep c total p s q t step
    → Commanded c s
    → Commanded c t
unfolding crash_stale
Step-Commanded c total (stop id t q s) u h = h
Step-Commanded c total (next id t q s) u h = h
Step-Commanded c total (collect_waiting id t q s r full) u h =
    Commanded-same c s (collect c.unnamed s r) (collect-commands c.unnamed s r) h
Step-Commanded c total (dispatch id t q s now d m free) u h =
    start_test-Commanded c s t id now d m u h
Step-Commanded c total (dispatched s) u h = h
Step-Commanded c total (collect_remaining s r more) u h =
    Commanded-same c s (collect c.unnamed s r) (collect-commands c.unnamed s r) h
Step-Commanded c total (collect_stale s now more) u h =
    let stale = get_stale_workers s.active_workers now 3000 in
    Commanded-same c s (crash_each stale s) (crash_each-commands stale s) h
Step-Commanded c total (finish s d) u h = h

Reaches-Commanded :
    (c : Setup) (total : ℕ) (tests : List RunnableTest) (p : Phase) (s : Scheduler)
    (run : Reaches c total tests p s)
    → UncutRun c total tests p s run
    → Commanded c s
unfolding started
Reaches-Commanded c total tests p s start u = ([], refl, tt)
Reaches-Commanded c total tests p s (andthen {p = o} {s = r} past step) (u, v) =
    Step-Commanded c total step v (Reaches-Commanded c total tests o r past u)

-- If the zygote decodes what the supervisor encodes, in less than 4 GiB, the system makes socket
-- pairs and workers, and no write of the run fails within a command, then the command loop serves what the run
-- has written with the EXIT of the shutdown behind it by forking one worker for each written payload, in that
-- order, and by an orderly exit. Each payload is that of a test, with the log of the slot of the test's number;
-- those are included whose dispatch failed because the answer was not read.
pub shutdown-serve :
    (c : Setup) (z : Server) (total : ℕ) (tests : List RunnableTest) (p : Phase) (s : Scheduler)
    → Obliges z
    → ((payload : TestPayload) (bytes : List ℕ)
        → c.serialize payload ≡ some bytes
        → Decodes z (payload, bytes))
    → (run : Reaches c total tests p s) → UncutRun c total tests p s run
    → (xs : List Sent) × All (λ x. Dispatches c x) xs
      × (s.commands ≡ commands_of xs)
      × (serve z (shutdown s).commands ≡ (exited, map (λ (payload, bytes). forked payload) xs))
unfolding shutdown
shutdown-serve c z total tests p s o codec run whole =
    let (xs, k, h) = Reaches-Commanded c total tests p s run whole in
    (
      xs,
      h,
      k,
      ap (λ l. serve z (l ++ cmd_exit ∷ [])) k
          ∙ serve-commands_of z xs o (
              All-map (λ x. Dispatches c x) (λ x. Decodes z x) xs
                (λ (payload, bytes) d. codec payload bytes d.1) h),
    )
