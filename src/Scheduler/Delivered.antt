-- ===== src/Scheduler/Delivered.antt =====
-- The two cases of a dispatch: the payload does not serialize, or its command is delivered
-- (src/scheduler.rs, dispatch_test).
use tach_core.Base.{ℕ, ◌≡◌, some, List, ◌∷◌, Option-cases, inl, inr}
use tach_core.Protocol.Messages.{cmd_fork}
use tach_core.Protocol.Frames.{frame}
use tach_core.Resolver.Resolve.{RunnableTest}
use tach_core.Scheduler.State.{
  ActiveWorker, Setup, Scheduler, Delivery, Dispatched, err, deliver, dispatch_test, payload_of,
}

abbrev pub worker_for : RunnableTest → ℕ → ℕ → ActiveWorker
worker_for test slot now = record { test_name = test.test_name; slot = slot; start_time = now }

pub dispatch_test-deliver :
    (P : Dispatched → Type 0) (c : Setup) (s : Scheduler) (test : RunnableTest) (id slot now : ℕ)
    (d : Delivery)
    → P (err s)
    → ((bytes : List ℕ)
        → c.serialize (payload_of c test id slot) ≡ some bytes
        → P (deliver s id (worker_for test slot now) (cmd_fork ∷ frame bytes) d))
    → P (dispatch_test c s test id slot now d)
unfolding dispatch_test
dispatch_test-deliver P c s test id slot now d h k =
    elim (Option-cases (c.serialize (payload_of c test id slot))) [
      | inl e ↦ rw (e, dispatch_test) h
      | inr (bytes, e) ↦ rw (e, dispatch_test) (k bytes e)
    ]
