-- ===== src/Scheduler/Shape.antt =====
-- The order of the events that a run reports (src/scheduler.rs, run).
use tach_core.Base.{
  take, ℕ, ◌%◌, ◌/◌, ◌≡◌, refl, sym, ◌∙◌, ap, Text, chars, Option, some, List, [], ◌∷◌, ◌++◌,
  append_assoc, append-nil, All, All-append, Assoc, nat_eq,
}
use tach_core.Protocol.Messages.{TestResult}
use tach_core.Reporter.Events.{
  MachineEvent, run_start, test_start, test_finished, run_finished, error,
}
use tach_core.Protocol.Messages.{cmd_fork}
use tach_core.Protocol.Frames.{frame}
use tach_core.Scheduler.Delivered.{worker_for, dispatch_test-deliver}
use tach_core.Resolver.Resolve.{RunnableTest}
use tach_core.Scheduler.State.{
  ActiveWorker, Setup, Scheduler, report_result, worker_of, status_of, message_of, collect, crash,
  crash_each, crash_stale, get_stale_workers, dispatch_test, dispatch_outcome, start_test,
  path_text, Delivery, answered, unanswered, cut, deliver,
}
use tach_core.Scheduler.Steps.{
  Phase, dispatching, waiting, collecting, finished, Step, stop, next, collect_waiting, dispatch,
  dispatched, collect_remaining, collect_stale, finish, Reaches, start, andthen, started,
}

-- An event between the start and the end of a run.
abbrev pub Inner : MachineEvent → Type 0
Inner (run_start n) = ⊥
Inner (run_finished a b c d) = ⊥
Inner (test_start id file) = Unit
Inner (test_finished id status d m) = Unit
Inner (error m) = Unit

-- Inner events are reported behind the others.
abbrev Extends : Scheduler → Scheduler → Type 0
Extends s t = (more : List MachineEvent) × All Inner more × (t.reported ≡ s.reported ++ more)

Extends-trans : (s t u : Scheduler) → Extends s t → Extends t u → Extends s u
Extends-trans s t u (xs, hx, ex) (ys, hy, ey) = (
  xs ++ ys,
  All-append Inner xs ys hx hy,
  ey ∙ ap (λ l. l ++ ys) ex ∙ append_assoc s.reported xs ys,
)

report_result-Extends :
    (s : Scheduler) (name status : Text) (d : ℕ) (m : Option Text)
    → Extends s (report_result s name status d m)
unfolding report_result
report_result-Extends s name status d m = (test_finished name status d m ∷ [], (tt, tt), refl)

collect-Extends :
    (unnamed : ℕ → Text) (s : Scheduler) (r : TestResult) → Extends s (collect unnamed s r)
unfolding collect report_result
collect-Extends unnamed s r =
    let (name, slot) = worker_of unnamed s.active_workers r.test_id in
    (test_finished name (status_of r) (r.duration_ns / 1000000) (message_of r) ∷ [], (tt, tt), refl)

crash-Extends : (s : Scheduler) (id : ℕ) (w : ActiveWorker) → Extends s (crash s id w)
unfolding crash report_result
crash-Extends s id w = (
  test_finished w.test_name (chars "fail") 0 (some (chars "CRASHED - no response")) ∷ [],
  (tt, tt),
  refl,
)

crash_each-Extends : (stale : Assoc ℕ ActiveWorker) (s : Scheduler) → Extends s (crash_each stale s)
unfolding crash_each
crash_each-Extends [] s = ([], tt, sym (append-nil s.reported))
crash_each-Extends ((id, w) ∷ stale) s =
    Extends-trans s (crash s id w) (crash_each stale (crash s id w)) (crash-Extends s id w)
      (crash_each-Extends stale (crash s id w))

delivered-Extends :
    (s : Scheduler) (name message : Text) (id : ℕ) (w : ActiveWorker) (command : List ℕ)
    (d : Delivery)
    → Extends s (dispatch_outcome name message (deliver s id w command d))
unfolding dispatch_outcome deliver
delivered-Extends s name message id w command answered = ([], tt, sym (append-nil s.reported))
delivered-Extends s name message id w command unanswered =
    report_result-Extends (record s { commands = s.commands ++ command }) name (chars "fail") 0
      (some message)
delivered-Extends s name message id w command (cut n) =
    report_result-Extends (record s { commands = s.commands ++ take n command }) name (chars "fail")
      0 (some message)

start_test-Extends :
    (c : Setup) (s : Scheduler) (t : RunnableTest) (id slot now : ℕ) (d : Delivery) (m : Text)
    → Extends s (start_test c s t id slot now d m)
unfolding start_test dispatch_outcome
start_test-Extends c s t id slot now d m =
    let e = test_start t.test_name (path_text t.file_path) in
    let s1 : Scheduler = record s { reported = s.reported ++ e ∷ [] } in
    let o = dispatch_test c s1 t id slot now d in
    Extends-trans s s1 (dispatch_outcome t.test_name m o) (e ∷ [], (tt, tt), refl)
      (dispatch_test-deliver (λ r. Extends s1 (dispatch_outcome t.test_name m r)) c s1 t id slot now
        d (report_result-Extends s1 t.test_name (chars "fail") 0 (some m))
        (λ bytes f.
          delivered-Extends s1 t.test_name m id (worker_for t slot now) (cmd_fork ∷ frame bytes) d))

-- The reports of a run that has not ended: its start, and inner events.
abbrev Open : ℕ → Scheduler → Type 0
Open total s = (body : List MachineEvent) × All Inner body × (s.reported ≡ run_start total ∷ body)

Open-Extends : (total : ℕ) (s t : Scheduler) → Open total s → Extends s t → Open total t
Open-Extends total s t (body, h, e) (more, k, f) =
    (body ++ more, All-append Inner body more h k, f ∙ ap (λ l. l ++ more) e)

-- The reports of a run that has ended with some counts.
abbrev pub Closed : ℕ → Scheduler → Type 0
Closed total s =
    (body : List MachineEvent) × (d : ℕ) × All Inner body
    × (s.reported ≡ run_start total ∷ (body ++ run_finished s.passed s.failed 0 d ∷ []))

abbrev Shaped : ℕ → Phase → Scheduler → Type 0
Shaped total (dispatching q) s = Open total s
Shaped total (waiting id t q) s = Open total s
Shaped total collecting s = Open total s
Shaped total finished s = Closed total s

Step-Shaped :
    (c : Setup) (total : ℕ) {p q : Phase} {s t : Scheduler}
    → Step c total p s q t
    → Shaped total p s
    → Shaped total q t
unfolding crash_stale
Step-Shaped c total (stop id t q s) h =
    let e = error (chars "Shutdown requested") in
    Open-Extends total s (record s { reported = s.reported ++ e ∷ [] }) h (e ∷ [], (tt, tt), refl)
Step-Shaped c total (next id t q s) h = h
Step-Shaped c total (collect_waiting id t q s r full) h =
    Open-Extends total s (collect c.unnamed s r) h (collect-Extends c.unnamed s r)
Step-Shaped c total (dispatch id t q s now d m free) h =
    let slot = id % c.max_workers in
    Open-Extends total s (start_test c s t id slot now d m) h
      (start_test-Extends c s t id slot now d m)
Step-Shaped c total (dispatched s) h = h
Step-Shaped c total (collect_remaining s r more) h =
    Open-Extends total s (collect c.unnamed s r) h (collect-Extends c.unnamed s r)
Step-Shaped c total (collect_stale s now more) h =
    let stale = get_stale_workers s.active_workers now 3000 in
    Open-Extends total s (crash_each stale s) h (crash_each-Extends stale s)
Step-Shaped c total (finish s d) (body, h, e) =
    (body, d, h, ap (λ l. l ++ run_finished s.passed s.failed 0 d ∷ []) e)

Reaches-Shaped :
    (c : Setup) (total : ℕ) (tests : List RunnableTest) (p : Phase) (s : Scheduler)
    → Reaches c total tests p s
    → Shaped total p s
unfolding started
Reaches-Shaped c total tests p s start = ([], tt, refl)
Reaches-Shaped c total tests p s (andthen {p = o} {s = r} past step) =
    Step-Shaped c total step (Reaches-Shaped c total tests o r past)

-- A run that has ended reported its start first, its end last, with its counts, and neither between.
pub finished-Closed :
    (c : Setup) (total : ℕ) (tests : List RunnableTest) (s : Scheduler)
    → Reaches c total tests finished s
    → Closed total s
finished-Closed c total tests s run = Reaches-Shaped c total tests finished s run
