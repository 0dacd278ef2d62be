-- ===== src/Session/Supervised.antt =====
-- Which processes the end of a session kills (src/main.rs with src/lifecycle.rs).
use tach_core.Base.{
  ℕ, suc, ◌≡◌, refl, ◌∙◌, ap, false, ◌&&◌, ◌||◌, any, Option, none, some, List, [], is_empty,
  Bool-cases, Option-cases, inl, inr,
}
use tach_core.Discovery.Types.{FilePath, DiscoveryResult}
use tach_core.Lifecycle.Guard.{
  pos, negsuc, int_beq, CleanupGuard, new_guard, set_zygote_pid, track_socket, dropped,
}
use tach_core.Lifecycle.Signals.{is_kill, is_zygote, any-dropped}
use tach_core.Logs.Capture.{LogCapture, new}
use tach_core.Resolver.Registry.{from_discovery}
use tach_core.Resolver.Resolve.{RunnableTest, resolve_all}
use tach_core.Session.Select.{selected, max_workers}
use tach_core.Session.Run.{System, Left, left, supervise, prepare, run_tests, execute_session}

-- The guard tracks the zygote and no worker.
abbrev Guards : Left → Type 0
Guards s = (s.guard.zygote_pid ≡ s.zygote) × (s.guard.worker_pids ≡ [])

abbrev Unused : CleanupGuard → Type 0
Unused g = (g.zygote_pid ≡ none) × (g.worker_pids ≡ [])

supervise-Guards :
    (y : System) (g : CleanupGuard) (c : LogCapture) (tests : List RunnableTest)
    → Unused g
    → Guards (supervise y g c tests)
unfolding supervise left set_zygote_pid
supervise-Guards y g c tests h = elim (Option-cases y.fork) [
  | inl e ↦ rw (e, supervise) h
  | inr (pid, e) ↦ rw (e, supervise) (refl, h.1)
]

prepare-Guards :
    (y : System) (g : CleanupGuard) (tests : List RunnableTest)
    → Unused g
    → Guards (prepare y g tests)
unfolding prepare left
prepare-Guards y g tests h =
    elim (Option-cases (new y.create_memfd y.resize (max_workers y.num_cpus tests))) [
      | inl e ↦ rw (e, prepare) h
      | inr (c, e) ↦ elim (Bool-cases (y.socket_pairs && (y.env_loads && y.run_context))) [
        | inl f ↦ rw (e, f, prepare) (supervise-Guards y g c tests h)
        | inr f ↦ rw (e, f, prepare) h
      ]
    ]

run_tests-Guards :
    (y : System) (g : CleanupGuard) (tests : List RunnableTest)
    → Unused g
    → Guards (run_tests y g tests)
unfolding run_tests left track_socket
run_tests-Guards y g tests h = elim (Bool-cases y.current_dir) [
  | inr e ↦ rw (e, run_tests) h
  | inl e ↦ elim (Option-cases y.debug_server) [
    | inl f ↦ rw (e, f, run_tests) h
    | inr (path, f) ↦ rw (e, f, run_tests) (prepare-Guards y (track_socket g path) tests h)
  ]
]

execute_session-Guards :
    (y : System) (canonicalize : FilePath → Option FilePath) (target : FilePath)
    (discovered : Option DiscoveryResult)
    → Guards (execute_session y canonicalize target discovered)
unfolding execute_session left
execute_session-Guards y canonicalize target none = (refl, refl)
execute_session-Guards y canonicalize target (some result) =
    let tests =
      selected canonicalize target (resolve_all (from_discovery result) result).runnables in
    elim (Bool-cases (is_empty tests)) [
      | inl e ↦ rw (e, execute_session) (refl, refl)
      | inr e ↦ rw (e, execute_session) (run_tests-Guards y new_guard tests (refl, refl))
    ]

-- However a session ends, at whichever call it fails, its guard tracks no worker, and dropping it kills a
-- process with a positive id exactly if it is the zygote that the session has forked, and no process group.
pub execute_session-dropped :
    (y : System) (canonicalize : FilePath → Option FilePath) (target : FilePath)
    (discovered : Option DiscoveryResult) (n : ℕ)
    → ((execute_session y canonicalize target discovered).guard.worker_pids ≡ [])
      × (any
            (is_kill (pos (suc n)))
            (dropped (execute_session y canonicalize target discovered).guard)
          ≡ is_zygote n (execute_session y canonicalize target discovered).zygote)
      × (any (is_kill (negsuc n)) (dropped (execute_session y canonicalize target discovered).guard)
          ≡ false)
unfolding any
execute_session-dropped y canonicalize target discovered n =
    let s = execute_session y canonicalize target discovered in
    let (z, w) = execute_session-Guards y canonicalize target discovered in
    let (a, b) = any-dropped s.guard n in
    (
      w,
      a
          ∙ ap (λ l. any (λ p. int_beq p (pos (suc n))) l || is_zygote n s.guard.zygote_pid) w
          ∙ ap (is_zygote n) z,
      b ∙ ap (λ l. any (λ p. int_beq p (pos (suc n))) l) w,
    )
