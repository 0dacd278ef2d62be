-- ===== src/Scheduler/Invariant.antt =====
-- The capacity and the accounting of a run (src/scheduler.rs, run).
use tach_core.Base.{
  ℕ, suc, ◌+◌, ◌%◌, ◌/◌, ◌<◌, ◌≤◌, ◌≡◌, sym, Text, chars, Option, some, List, [], ◌∷◌, ◌++◌, length,
  length-append, All, All-map, All-append, Assoc, insert, remove, nat_eq, arith,
}
use tach_core.Protocol.Messages.{TestResult}
use tach_core.Reporter.Events.{
  MachineEvent, run_start, test_start, test_finished, run_finished, error,
}
use tach_core.Scheduler.State.{
  ActiveWorker, Setup, Scheduler, report_result, worker_of, status_of, message_of, collect, crash,
  crash_each,
}
use tach_core.Scheduler.Active.{
  NodupKeys, remove-All, remove-NodupKeys, length-remove, length-remove_le, insert_above,
  NodupKeys-snoc,
}

-- The tests reported as started.
abbrev pub starts : List MachineEvent → ℕ
starts [] = 0
starts (test_start id file ∷ es) = suc (starts es)
starts (test_finished id status d m ∷ es) = starts es
starts (run_start n ∷ es) = starts es
starts (run_finished a b c d ∷ es) = starts es
starts (error m ∷ es) = starts es

pub starts-append : (xs ys : List MachineEvent) → starts (xs ++ ys) ≡ starts xs + starts ys
starts-append [] ys = omega arith
starts-append (test_finished id status d m ∷ es) ys = starts-append es ys
starts-append (run_start n ∷ es) ys = starts-append es ys
starts-append (test_start id file ∷ es) ys = omega (arith, starts-append es ys)
starts-append (run_finished a b c d ∷ es) ys = starts-append es ys
starts-append (error m ∷ es) ys = starts-append es ys

-- An active worker is of a test before `n`, and uses the test's slot.
abbrev pub Entry : Setup → ℕ → ℕ × ActiveWorker → Type 0
Entry c n (id, w) = (id < n) × (w.slot ≡ id % c.max_workers)

-- With `n` tests started: each is collected or active, and the active ones fit the capacity.
abbrev pub Accounts : Setup → ℕ → Scheduler → Type 0
Accounts c n s =
    All (λ p. Entry c n p) s.active_workers
    × NodupKeys s.active_workers
    × (length s.active_workers ≤ c.max_workers)
    × (starts s.reported ≡ n)
    × (n ≤ s.collected + length s.active_workers)

-- A worker is removed and its test reported.
abbrev removed : Scheduler → ℕ → ℕ → Scheduler
removed s id slot = record s {
  active_workers = remove s.active_workers id;
  cleared = slot ∷ s.cleared;
}

removed-Accounts :
    (c : Setup) (n : ℕ) (s : Scheduler) (id slot : ℕ) (name status : Text) (d : ℕ) (m : Option Text)
    → Accounts c n s
    → Accounts c n (report_result (removed s id slot) name status d m)
unfolding report_result
removed-Accounts c n s id slot name status d m (entries, nodup, fits, begun, kept) = (
  remove-All (λ p. Entry c n p) s.active_workers id entries,
  remove-NodupKeys s.active_workers id nodup,
  omega (arith, fits, length-remove_le s.active_workers id),
  omega (arith, begun, starts-append s.reported (test_finished name status d m ∷ [])),
  omega (arith, kept, length-remove s.active_workers id nodup),
)

pub collect-Accounts :
    (c : Setup) (n : ℕ) (s : Scheduler) (r : TestResult)
    → Accounts c n s
    → Accounts c n (collect c.unnamed s r)
unfolding collect
collect-Accounts c n s r h =
    let (name, slot) = worker_of c.unnamed s.active_workers r.test_id in
    removed-Accounts c n s r.test_id slot name (status_of r) (r.duration_ns / 1000000)
      (message_of r) h

pub crash_each-Accounts :
    (c : Setup) (n : ℕ) (stale : Assoc ℕ ActiveWorker) (s : Scheduler)
    → Accounts c n s
    → Accounts c n (crash_each stale s)
unfolding crash_each crash
crash_each-Accounts c n [] s h = h
crash_each-Accounts c n ((id, w) ∷ stale) s h = crash_each-Accounts c n stale (crash s id w) (
    removed-Accounts c n s id w.slot w.test_name (chars "fail") 0
      (some (chars "CRASHED - no response")) h)

abbrev pub says : Scheduler → MachineEvent → Scheduler
says s e = record s { reported = s.reported ++ e ∷ [] }

pub says-Accounts :
    (c : Setup) (n : ℕ) (s : Scheduler) (e : MachineEvent)
    → starts (e ∷ []) ≡ 0
    → Accounts c n s
    → Accounts c n (says s e)
says-Accounts c n s e none_started (entries, nodup, fits, begun, kept) = (
  entries,
  nodup,
  fits,
  omega (arith, begun, none_started, starts-append s.reported (e ∷ [])),
  kept,
)

pub Entry-suc :
    (c : Setup) (n : ℕ) (m : Assoc ℕ ActiveWorker)
    → All (λ p. Entry c n p) m
    → All (λ p. Entry c (suc n) p) m
Entry-suc c n m h =
    All-map (λ p. Entry c n p) (λ p. Entry c (suc n) p) m (λ (id, w) e. (omega (arith, e.0), e.1)) h

-- The next test's worker is added, and no test is reported.
pub inserted-Accounts :
    (c : Setup) (n : ℕ) (s : Scheduler) (w : ActiveWorker) (command : List ℕ)
    → w.slot ≡ n % c.max_workers
    → All (λ p. Entry c n p) s.active_workers
    → NodupKeys s.active_workers
    → length s.active_workers < c.max_workers
    → starts s.reported ≡ suc n
    → n ≤ s.collected + length s.active_workers
    → Accounts c (suc n) (record s {
      active_workers = insert s.active_workers n w;
      commands = s.commands ++ command;
    })
inserted-Accounts c n s w command at entries nodup free begun kept =
    let below : All (λ (j, u). j < n) s.active_workers =
      All-map (λ p. Entry c n p) (λ (j, u). j < n) s.active_workers (λ (j, u) x. x.0) entries in
    let a : s.active_workers ++ (n, w) ∷ [] ≡ insert s.active_workers n w =
      sym (insert_above s.active_workers n w below) in
    let l = length-append s.active_workers ((n, w) ∷ []) in
    let grown : length (insert s.active_workers n w) ≡ length s.active_workers + 1 = rw (← a) l in
    (
      rw (← a) (
          All-append (λ p. Entry c (suc n) p) s.active_workers ((n, w) ∷ [])
            (Entry-suc c n s.active_workers entries) ((omega arith, at), tt)),
      rw (← a) (NodupKeys-snoc s.active_workers n w below nodup),
      omega (arith, grown, free),
      begun,
      omega (arith, grown, kept),
    )
