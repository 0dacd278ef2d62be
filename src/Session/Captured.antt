-- ===== src/Session/Captured.antt =====
-- What a session runs, and where its output goes (src/main.rs with src/resolver.rs, src/scheduler.rs and
-- src/logcapture.rs).
use mathlib.Core.Path.{subst}
use tach_core.Base.{
  ℕ, suc, get_elem?, ◌%◌, ◌<◌, ◌≡◌, refl, sym, ap, Text, Bool, true, false, ◌&&◌, Option, none,
  some, List, [], ◌∷◌, map, keep_if, is_empty, All, All-append, Bool-cases, Option-cases, inl, inr,
  arith,
}
use tach_core.Discovery.Types.{FilePath, TestCase, TestModule, DiscoveryResult}
use tach_core.Lifecycle.Guard.{CleanupGuard, new_guard, track_socket}
use tach_core.Logs.Capture.{LogCapture, get_fd, new, create_slots}
use tach_core.Logs.Slots.{new-get_fd}
use tach_core.Protocol.Messages.{TestPayload}
use tach_core.Resolver.Registry.{FixtureRegistry, from_discovery}
use tach_core.Resolver.Outcome.{Outcome, ok, err, out_of_fuel}
use tach_core.Resolver.Resolve.{RunnableTest, resolve_test, resolve_all}
use tach_core.Resolver.Batch.{oks, oks-append, outcomes, outcomes_of, resolve_all-partition}
use tach_core.Resolver.Order.Whole.{IsRunnable, resolve_test-IsRunnable}
use tach_core.Scheduler.State.{payload_of}
use tach_core.Session.Select.{selected, is_selected, max_workers}
use tach_core.Session.Run.{
  System, Left, left, supervise, prepare, run_tests, execute_session, scheduler_of,
}

-- A test of one of the modules, resolved under the path of that module.
abbrev pub Resolves : FixtureRegistry → List TestModule → RunnableTest → Type 0
Resolves registry ms r =
    (i j : ℕ) × (m : TestModule) × (test : TestCase) × (get_elem? ms i ≡ some m)
    × (get_elem? m.tests j ≡ some test)
    × IsRunnable registry test m.path r

-- A test of some tests, resolved under a path.
abbrev Placed : FixtureRegistry → FilePath → List TestCase → RunnableTest → Type 0
Placed registry path tests r =
    (j : ℕ) × (test : TestCase) × (get_elem? tests j ≡ some test) × IsRunnable registry test path r

All-weaken :
    (P Q : RunnableTest → Type 0) (rs : List RunnableTest)
    → ((r : RunnableTest) → P r → Q r)
    → All P rs
    → All Q rs
All-weaken P Q [] f h = tt
All-weaken P Q (r ∷ rs) f h = (f r h.0, All-weaken P Q rs f h.1)

head_Placed :
    (registry : FixtureRegistry) (path : FilePath) (t : TestCase) (ts : List TestCase)
    (o : Outcome RunnableTest) (os : List (Outcome RunnableTest))
    → resolve_test registry t path ≡ o
    → All (Placed registry path (t ∷ ts)) (oks os)
    → All (Placed registry path (t ∷ ts)) (oks (o ∷ os))
head_Placed registry path t ts (ok r) os e h =
    ((0, t, refl, resolve_test-IsRunnable registry t path r e), h)
head_Placed registry path t ts (err x) os e h = h
head_Placed registry path t ts out_of_fuel os e h = h

cons-Placed :
    (registry : FixtureRegistry) (path : FilePath) (t : TestCase) (ts : List TestCase)
    (o : Outcome RunnableTest) (os : List (Outcome RunnableTest))
    → resolve_test registry t path ≡ o
    → All (Placed registry path ts) (oks os)
    → All (Placed registry path (t ∷ ts)) (oks (o ∷ os))
cons-Placed registry path t ts o os e h =
    let rest =
      All-weaken (Placed registry path ts) (Placed registry path (t ∷ ts)) (oks os)
        (λ r (j, u, at, good). (suc j, u, at, good)) h in
    head_Placed registry path t ts o os e rest

oks-Placed :
    (registry : FixtureRegistry) (path : FilePath) (tests : List TestCase)
    → All (Placed registry path tests) (oks (outcomes_of registry path tests))
unfolding outcomes_of
oks-Placed registry path [] = tt
oks-Placed registry path (t ∷ tests) =
    cons-Placed registry path t tests (resolve_test registry t path)
      (map (λ u. resolve_test registry u path) tests) refl (oks-Placed registry path tests)

outcomes-Resolves :
    (registry : FixtureRegistry) (ms : List TestModule)
    → All (Resolves registry ms) (oks (outcomes registry ms))
unfolding outcomes
outcomes-Resolves registry [] = tt
outcomes-Resolves registry (m ∷ ms) =
    let os = outcomes_of registry m.path m.tests in
    rw (oks-append os (outcomes registry ms)) (
      All-append (Resolves registry (m ∷ ms)) (oks os) (oks (outcomes registry ms))
        (All-weaken (Placed registry m.path m.tests) (Resolves registry (m ∷ ms)) (oks os)
          (λ r (j, t, at, good). (0, j, m, t, refl, at, good)) (oks-Placed registry m.path m.tests))
        (All-weaken (Resolves registry ms) (Resolves registry (m ∷ ms)) (oks (outcomes registry ms))
          (λ r (i, j, n, t, inside, at, good). (suc i, j, n, t, inside, at, good))
          (outcomes-Resolves registry ms)))

keep_if-All :
    (P : RunnableTest → Type 0) (p : RunnableTest → Bool) (ts : List RunnableTest)
    → All P ts
    → All (λ t. P t × (p t ≡ true)) (keep_if p ts)
unfolding keep_if
keep_if-All P p [] h = tt
keep_if-All P p (t ∷ ts) h = elim (Bool-cases (p t)) [
  | inl e ↦ rw (e, keep_if) ((h.0, e), keep_if-All P p ts h.1)
  | inr e ↦ rw (e, keep_if) (keep_if-All P p ts h.1)
]

-- A test that a session is to run.
abbrev pub Chosen :
    DiscoveryResult → (FilePath → Option FilePath) → FilePath → RunnableTest → Type 0
Chosen result canonicalize target r =
    Resolves (from_discovery result) result.modules r × (is_selected canonicalize target r ≡ true)

selected-Chosen :
    (result : DiscoveryResult) (canonicalize : FilePath → Option FilePath) (target : FilePath)
    → All
        (Chosen result canonicalize target)
        (selected canonicalize target (resolve_all (from_discovery result) result).runnables)
unfolding selected
selected-Chosen result canonicalize target =
    let registry = from_discovery result in
    let all : All (Resolves registry result.modules) (resolve_all registry result).runnables =
      subst (All (Resolves registry result.modules))
        (sym (ap (λ r. r.runnables) (resolve_all-partition registry result).0))
        (outcomes-Resolves registry result.modules) in
    keep_if-All (Resolves registry result.modules) (is_selected canonicalize target)
      (resolve_all registry result).runnables all

-- The tests are the given ones, and the buffers, if any, are those that were made.
abbrev Fits : Option LogCapture → List RunnableTest → Left → Type 0
Fits made tests s = (s.tests ≡ tests) × ((c : LogCapture) → s.log_capture ≡ some c → made ≡ some c)

supervise-Fits :
    (y : System) (guard : CleanupGuard) (c : LogCapture) (tests : List RunnableTest)
    → Fits (some c) tests (supervise y guard c tests)
unfolding supervise left
supervise-Fits y guard c tests = elim (Option-cases y.fork) [
  | inl e ↦ rw (e, supervise) (refl, λ d k. k)
  | inr (pid, e) ↦ rw (e, supervise) (refl, λ d k. k)
]

abbrev made_for : System → List RunnableTest → Option LogCapture
made_for y tests = new y.create_memfd y.resize (max_workers y.num_cpus tests)

prepare-Fits :
    (y : System) (guard : CleanupGuard) (tests : List RunnableTest)
    → Fits (made_for y tests) tests (prepare y guard tests)
unfolding prepare left
prepare-Fits y guard tests =
    elim (Option-cases (new y.create_memfd y.resize (max_workers y.num_cpus tests))) [
      | inl e ↦ rw (e, prepare) (refl, λ d k. k)
      | inr (c, e) ↦ elim (Bool-cases (y.socket_pairs && (y.env_loads && y.run_context))) [
        | inl f ↦ rw (e, f, prepare) (supervise-Fits y guard c tests)
        | inr f ↦ rw (e, f, prepare) (refl, λ d k. k)
      ]
    ]

none-Fits :
    (made : Option LogCapture) (tests : List RunnableTest) (guard : CleanupGuard) (good : Bool)
    → Fits made tests (left good guard none tests)
unfolding left
none-Fits made tests guard good = (refl, λ c k. absurd (cc))

run_tests-Fits :
    (y : System) (guard : CleanupGuard) (tests : List RunnableTest)
    → Fits (made_for y tests) tests (run_tests y guard tests)
unfolding run_tests
run_tests-Fits y guard tests = elim (Bool-cases y.current_dir) [
  | inr e ↦ rw (e, run_tests) (none-Fits (made_for y tests) tests guard false)
  | inl e ↦ elim (Option-cases y.debug_server) [
    | inl f ↦ rw (e, f, run_tests) (none-Fits (made_for y tests) tests guard false)
    | inr (path, f) ↦ rw (e, f, run_tests) (prepare-Fits y (track_socket guard path) tests)
  ]
]

is_empty-nil : (tests : List RunnableTest) → is_empty tests ≡ true → [] ≡ tests
is_empty-nil [] e = refl
is_empty-nil (t ∷ tests) e = absurd (cc)

execute_session-Fits :
    (y : System) (canonicalize : FilePath → Option FilePath) (target : FilePath)
    (result : DiscoveryResult)
    → Fits
        (made_for y
          (selected canonicalize target (resolve_all (from_discovery result) result).runnables))
        (selected canonicalize target (resolve_all (from_discovery result) result).runnables)
        (execute_session y canonicalize target (some result))
unfolding execute_session left
execute_session-Fits y canonicalize target result =
    let tests =
      selected canonicalize target (resolve_all (from_discovery result) result).runnables in
    elim (Bool-cases (is_empty tests)) [
      | inl e ↦ rw (e, execute_session) (is_empty-nil tests e, λ c k. absurd (cc))
      | inr e ↦ rw (e, execute_session) (run_tests-Fits y new_guard tests)
    ]

num_slots-new :
    (create : ℕ → Option ℕ) (resize : ℕ → Bool) (n : ℕ) (c : LogCapture)
    → new create resize n ≡ some c
    → c.num_slots ≡ n
unfolding new
num_slots-new create resize n c e = elim (Option-cases (create_slots create resize n 0 [])) [
  | inl f ↦ absurd (ground (arith, e, f))
  | inr (fds, f) ↦ ground (arith, e, f)
]

max_workers_positive : (cpus : ℕ) (tests : List RunnableTest) → 0 < max_workers cpus tests
unfolding max_workers
max_workers_positive cpus tests = ground arith

-- The slot of any test has a buffer.
slot_found :
    (create : ℕ → Option ℕ) (resize : ℕ → Bool) (n id : ℕ) (c : LogCapture)
    → new create resize n ≡ some c
    → 0 < n
    → (fd : ℕ) × (get_fd c (id % c.num_slots) ≡ some fd)
unfolding get_fd
slot_found create resize n id c e positive =
    let same = num_slots-new create resize n c e in
    rw same (new-get_fd create resize n (id % n) c e (omega arith))

-- Once a session has log buffers, each of its tests is a test of one of the modules that discovery has found,
-- resolved under that module's path with its fixtures in order, that the target path selects, and for whatever test and number the scheduler of that session dispatches, the
-- payload has a log descriptor, that of the slot of the number: no test prints to the supervisor's
-- terminal for want of a buffer.
pub execute_session-captured :
    (y : System) (canonicalize : FilePath → Option FilePath) (target : FilePath)
    (result : DiscoveryResult) (c : LogCapture) (path : Text)
    (serialize : TestPayload → Option (List ℕ)) (unnamed : ℕ → Text) (t : RunnableTest) (id : ℕ)
    → (execute_session y canonicalize target (some result)).log_capture ≡ some c
    → All
        (Chosen result canonicalize target)
        (execute_session y canonicalize target (some result)).tests
      × ((fd : ℕ) × (get_fd c (id % c.num_slots) ≡ some fd)
          × ((payload_of
                (scheduler_of c path serialize unnamed)
                t
                id
                (id % (scheduler_of c path serialize unnamed).max_workers)).log_fd
              ≡ some fd))
unfolding scheduler_of payload_of
execute_session-captured y canonicalize target result c path serialize unnamed t id h =
    let tests =
      selected canonicalize target (resolve_all (from_discovery result) result).runnables in
    let (same, made) = execute_session-Fits y canonicalize target result in
    let (fd, found) =
      slot_found y.create_memfd y.resize (max_workers y.num_cpus tests) id c (made c h)
        (max_workers_positive y.num_cpus tests) in
    (
      subst (All (Chosen result canonicalize target)) (sym same)
          (selected-Chosen result canonicalize target),
      (fd, found, found),
    )
