-- ===== src/Scheduler/Steps.antt =====
-- `Scheduler::run` as steps. What the environment decides is in the steps: whether a shutdown was
-- requested, which results the socket gives and when, and the time.
use tach_core.Base.{ℕ, suc, ◌%◌, ◌<◌, ◌≤◌, Text, chars, List, [], ◌∷◌, ◌++◌, length}
use tach_core.Protocol.Messages.{TestResult}
use tach_core.Reporter.Events.{run_start, run_finished, error}
use tach_core.Resolver.Resolve.{RunnableTest}
use tach_core.Scheduler.State.{Setup, Scheduler, Delivery, collect, crash_stale, start_test}

-- The numbered tests, `tests.into_iter().enumerate()`, from a number on. The source casts the
-- numbers to 32 bits, which changes none of fewer than 2^32 tests.
unfoldable pub enumerate : ℕ → List RunnableTest → List (ℕ × RunnableTest)
enumerate n [] = []
enumerate n (t ∷ ts) = (n, t) ∷ enumerate (suc n) ts

-- Where `run` stands: at the head of the dispatch loop, waiting for capacity for a test, in the
-- collection of the remaining results, or behind it.
pub data Phase : Type 0 where
  dispatching : List (ℕ × RunnableTest) → Phase
  waiting : ℕ → RunnableTest → List (ℕ × RunnableTest) → Phase
  collecting : Phase
  finished : Phase

unfoldable pub started : Scheduler → ℕ → Scheduler
started s total = record s { reported = s.reported ++ run_start total ∷ [] }

-- What a run starts from.
abbrev pub begins : Scheduler
begins = record {
  active_workers = [];
  commands = [];
  cleared = [];
  reported = [];
  passed = 0;
  failed = 0;
  collected = 0;
}

module _ (c : Setup) (total : ℕ) where
  pub data Step : Phase → Scheduler → Phase → Scheduler → Type 0 where
    -- A shutdown request ends the dispatch.
    stop :
        (id : ℕ) (t : RunnableTest) (q : List (ℕ × RunnableTest)) (s : Scheduler)
        → Step
            (dispatching ((id, t) ∷ q))
            s
            collecting
            (record s { reported = s.reported ++ error (chars "Shutdown requested") ∷ [] })
    next :
        (id : ℕ) (t : RunnableTest) (q : List (ℕ × RunnableTest)) (s : Scheduler)
        → Step (dispatching ((id, t) ∷ q)) s (waiting id t q) s
    -- At capacity a result is collected before the test is dispatched. A read without a result
    -- changes nothing.
    collect_waiting :
        (id : ℕ) (t : RunnableTest) (q : List (ℕ × RunnableTest)) (s : Scheduler) (r : TestResult)
        → c.max_workers ≤ length s.active_workers
        → Step (waiting id t q) s (waiting id t q) (collect c.unnamed s r)
    dispatch :
        (id : ℕ) (t : RunnableTest) (q : List (ℕ × RunnableTest)) (s : Scheduler) (now : ℕ)
        (delivery : Delivery) (message : Text)
        → length s.active_workers < c.max_workers
        → Step
            (waiting id t q)
            s
            (dispatching q)
            (start_test c s t id (id % c.max_workers) now delivery message)
    dispatched : (s : Scheduler) → Step (dispatching []) s collecting s
    collect_remaining :
        (s : Scheduler) (r : TestResult)
        → s.collected < total
        → Step collecting s collecting (collect c.unnamed s r)
    -- A read without a result, and the stale workers at that time.
    collect_stale :
        (s : Scheduler) (now : ℕ)
        → s.collected < total
        → Step collecting s collecting (crash_stale s now)
    -- The loop ends when all tests are collected, or at the deadline, which may come at any time.
    finish :
        (s : Scheduler) (duration_ms : ℕ)
        → Step collecting s finished (record s {
          reported = s.reported ++ run_finished s.passed s.failed 0 duration_ms ∷ [];
        })

  -- The states of a run of some tests.
  pub data Reaches (tests : List RunnableTest) : Phase → Scheduler → Type 0 where
    start : Reaches tests (dispatching (enumerate 0 tests)) (started begins total)
    andthen : {p q : Phase} {s t : Scheduler} → Reaches tests p s → Step p s q t → Reaches tests q t
