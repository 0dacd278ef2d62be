-- ===== src/Scheduler/Accounts.antt =====
-- The accounting of a whole run (src/scheduler.rs, run).
use mathlib.Core.Path.{subst}
use tach_core.Base.{
  ℕ, suc, ◌+◌, ◌%◌, ◌<◌, ◌≤◌, ◌≡◌, refl, sym, Text, chars, take, ◌++◌, some, List, [], ◌∷◌, length,
  All, All-map, nat_eq, arith,
}
use tach_core.Reporter.Events.{test_start, test_finished, run_finished, error}
use tach_core.Resolver.Resolve.{RunnableTest}
use tach_core.Scheduler.State.{
  Setup, Scheduler, report_result, crash_stale, get_stale_workers, dispatch_outcome, ActiveWorker,
  Delivery, answered, unanswered, cut, deliver, start_test, path_text,
}
use tach_core.Scheduler.Steps.{
  Phase, dispatching, waiting, collecting, finished, Step, stop, next, collect_waiting, dispatch,
  dispatched, collect_remaining, collect_stale, finish, Reaches, start, andthen, enumerate, started,
}
use tach_core.Protocol.Messages.{cmd_fork}
use tach_core.Protocol.Frames.{frame}
use tach_core.Scheduler.Delivered.{worker_for, dispatch_test-deliver}
use tach_core.Scheduler.Active.{NodupKeys}
use tach_core.Scheduler.Invariant.{
  starts, starts-append, Entry, Entry-suc, Accounts, collect-Accounts, crash_each-Accounts, says,
  says-Accounts, inserted-Accounts,
}

-- A failed dispatch is reported, which collects its test.
failed-Accounts :
    (c : Setup) (n : ℕ) (s : Scheduler) (name message : Text)
    → All (λ p. Entry c n p) s.active_workers
    → NodupKeys s.active_workers
    → length s.active_workers < c.max_workers
    → starts s.reported ≡ suc n
    → n ≤ s.collected + length s.active_workers
    → Accounts c (suc n) (report_result s name (chars "fail") 0 (some message))
unfolding report_result
failed-Accounts c n s name message entries nodup free begun kept = (
  Entry-suc c n s.active_workers entries,
  nodup,
  omega (arith, free),
  omega (
    arith,
    begun,
    starts-append s.reported (test_finished name (chars "fail") 0 (some message) ∷ []),
  ),
  omega (arith, kept),
)

delivered-Accounts :
    (c : Setup) (n : ℕ) (s : Scheduler) (name message : Text) (w : ActiveWorker) (command : List ℕ)
    (d : Delivery)
    → w.slot ≡ n % c.max_workers
    → All (λ p. Entry c n p) s.active_workers
    → NodupKeys s.active_workers
    → length s.active_workers < c.max_workers
    → starts s.reported ≡ suc n
    → n ≤ s.collected + length s.active_workers
    → Accounts c (suc n) (dispatch_outcome name message (deliver s n w command d))
unfolding dispatch_outcome deliver
delivered-Accounts c n s name message w command answered at entries nodup free begun kept =
    inserted-Accounts c n s w command at entries nodup free begun kept
delivered-Accounts c n s name message w command unanswered at entries nodup free begun kept =
    failed-Accounts c n (record s { commands = s.commands ++ command }) name message entries nodup
      free begun kept
delivered-Accounts c n s name message w command (cut k) at entries nodup free begun kept =
    failed-Accounts c n (record s { commands = s.commands ++ take k command }) name message entries
      nodup free begun kept

start_test-Accounts :
    (c : Setup) (n : ℕ) (s : Scheduler) (t : RunnableTest) (now : ℕ) (d : Delivery) (m : Text)
    → length s.active_workers < c.max_workers
    → Accounts c n s
    → Accounts c (suc n) (start_test c s t n (n % c.max_workers) now d m)
unfolding start_test dispatch_outcome
start_test-Accounts c n s t now d m free (entries, nodup, fits, begun, kept) =
    let e = test_start t.test_name (path_text t.file_path) in
    let s1 = says s e in
    let begun1 : starts s1.reported ≡ suc n =
      omega (arith, begun, starts-append s.reported (e ∷ [])) in
    dispatch_test-deliver (λ o. Accounts c (suc n) (dispatch_outcome t.test_name m o)) c s1 t n
      (n % c.max_workers) now d
      (failed-Accounts c n s1 t.test_name m entries nodup free begun1 kept)
      (λ bytes f.
        delivered-Accounts c n s1 t.test_name m (worker_for t (n % c.max_workers) now)
          (cmd_fork ∷ frame bytes) d refl entries nodup free begun1 kept)

-- The number of the next test, where the dispatch goes on.
abbrev Numbered : ℕ → Phase → Type 0
Numbered n (dispatching q) = (ts : List RunnableTest) × (q ≡ enumerate n ts)
Numbered n (waiting id t q) = (id ≡ n) × ((ts : List RunnableTest) × (q ≡ enumerate (suc n) ts))
Numbered n collecting = Unit
Numbered n finished = Unit

enumerate-cons :
    (n id : ℕ) (t : RunnableTest) (q : List (ℕ × RunnableTest)) (ts : List RunnableTest)
    → (id, t) ∷ q ≡ enumerate n ts
    → (id ≡ n) × ((us : List RunnableTest) × (q ≡ enumerate (suc n) us))
unfolding enumerate
enumerate-cons n id t q [] e = absurd (cc)
enumerate-cons n id t q (u ∷ us) e = (cc, (us, cc))

Step-Accounts :
    (c : Setup) (total n : ℕ) {p q : Phase} {s t : Scheduler}
    → Step c total p s q t
    → Numbered n p
    → Accounts c n s
    → (m : ℕ) × Numbered m q × Accounts c m t
unfolding crash_stale
Step-Accounts c total n (stop id t q s) k h =
    (n, tt, says-Accounts c n s (error (chars "Shutdown requested")) refl h)
Step-Accounts c total n (next id t q s) k h = (n, enumerate-cons n id t q k.0 k.1, h)
Step-Accounts c total n (collect_waiting id t q s r full) k h = (n, k, collect-Accounts c n s r h)
Step-Accounts c total n (dispatch id t q s now d m free) k h = (
  suc n,
  k.1,
  subst (λ i. Accounts c (suc n) (start_test c s t i (i % c.max_workers) now d m)) (sym k.0)
      (start_test-Accounts c n s t now d m free h),
)
Step-Accounts c total n (dispatched s) k h = (n, tt, h)
Step-Accounts c total n (collect_remaining s r more) k h = (n, tt, collect-Accounts c n s r h)
Step-Accounts c total n (collect_stale s now more) k h =
    (n, tt, crash_each-Accounts c n (get_stale_workers s.active_workers now 3000) s h)
Step-Accounts c total n (finish s d) k h =
    (n, tt, says-Accounts c n s (run_finished s.passed s.failed 0 d) refl h)

Reaches-Numbered :
    (c : Setup) (total : ℕ) (tests : List RunnableTest) (p : Phase) (s : Scheduler)
    → Reaches c total tests p s
    → (n : ℕ) × Numbered n p × Accounts c n s
unfolding started
Reaches-Numbered c total tests p s start =
    (0, (tests, refl), (tt, tt, omega arith, refl, omega arith))
Reaches-Numbered c total tests p s (andthen {p = o} {s = r} past step) =
    let (n, k, h) = Reaches-Numbered c total tests o r past in Step-Accounts c total n step k h

-- In every state that a run reaches, at most `max_workers` workers are active, their tests are
-- different, each of them writes to the log slot that its test's number gives, and no started test
-- is lost: the tests reported as started are at most the collected and the active ones.
pub Reaches-Accounts :
    (c : Setup) (total : ℕ) (tests : List RunnableTest) (p : Phase) (s : Scheduler)
    → Reaches c total tests p s
    → (length s.active_workers ≤ c.max_workers)
      × NodupKeys s.active_workers
      × All (λ (id, w). w.slot ≡ id % c.max_workers) s.active_workers
      × (starts s.reported ≤ s.collected + length s.active_workers)
Reaches-Accounts c total tests p s run =
    let (n, k, (entries, nodup, fits, begun, kept)) = Reaches-Numbered c total tests p s run in
    (
      fits,
      nodup,
      All-map (λ p. Entry c n p) (λ (id, w). w.slot ≡ id % c.max_workers) s.active_workers
          (λ (id, w) e. e.1) entries,
      omega (arith, begun, kept),
    )
