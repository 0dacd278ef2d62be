-- ===== src/Lifecycle/Signals.antt =====
-- Which processes a dropped guard kills (src/lifecycle.rs).
use tach_core.Base.{
  any-append, ℕ, zero, suc, ◌≡◌, ◌||◌, refl, Bool, false, Option, none, some, List, [], ◌∷◌, ◌++◌,
  any, nat_beq_iff, arith,
}
use tach_core.Discovery.Types.{FilePath}
use tach_core.Lifecycle.Guard.{
  ℤ, pos, negsuc, int_beq, CleanupGuard, Action, kill, remove_file, kill_worker, kill_each,
  kill_zygote, kill_workers, remove_each, cleanup_sockets, dropped,
}

abbrev pub is_kill : ℤ → Action → Bool
is_kill pid (kill p) = int_beq p pid
is_kill pid (remove_file path) = false

-- The number of the worker with the id n + 1 among the tracked ones is tested, and the zygote's.
abbrev pub is_zygote : ℕ → Option ℤ → Bool
is_zygote n none = false
is_zygote n (some pid) = int_beq pid (pos (suc n))

module _ (n : ℕ) where
  any-kill_each :
      (pids : List ℤ)
      → (any (is_kill (pos (suc n))) (kill_each pids) ≡ any (λ p. int_beq p (pos (suc n))) pids)
        × (any (is_kill (negsuc n)) (kill_each pids) ≡ any (λ p. int_beq p (pos (suc n))) pids)
  unfolding any kill_each kill_worker int_beq
  any-kill_each [] = (refl, refl)
  any-kill_each (pos zero ∷ pids) = (
    ground (arith, any-kill_each pids, nat_beq_iff 0 (suc n)),
    ground (arith, any-kill_each pids, nat_beq_iff 0 (suc n)),
  )
  any-kill_each (pos (suc m) ∷ pids) = (
    ground (arith, any-kill_each pids),
    ground (arith, any-kill_each pids, nat_beq_iff m n, nat_beq_iff (suc m) (suc n)),
  )
  any-kill_each (negsuc m ∷ pids) = any-kill_each pids

  any-kill_zygote :
      (z : Option ℤ)
      → (any (is_kill (pos (suc n))) (kill_zygote z) ≡ is_zygote n z)
        × (any (is_kill (negsuc n)) (kill_zygote z) ≡ false)
  unfolding any kill_zygote int_beq
  any-kill_zygote none = (refl, refl)
  any-kill_zygote (some (pos zero)) = (ground (arith, nat_beq_iff 0 (suc n)), refl)
  any-kill_zygote (some (pos (suc m))) = (ground arith, refl)
  any-kill_zygote (some (negsuc m)) = (refl, refl)

  any-remove_each :
      (pid : ℤ) (paths : List FilePath) → any (is_kill pid) (remove_each paths) ≡ false
  unfolding any remove_each
  any-remove_each pid [] = refl
  any-remove_each pid (path ∷ paths) = any-remove_each pid paths

-- A dropped guard kills a process with a positive id exactly if it is a tracked worker or the zygote,
-- and its process group exactly if it is a tracked worker.
pub any-dropped :
    (g : CleanupGuard) (n : ℕ)
    → (any (is_kill (pos (suc n))) (dropped g)
        ≡ (any (λ p. int_beq p (pos (suc n))) g.worker_pids || is_zygote n g.zygote_pid))
      × (any (is_kill (negsuc n)) (dropped g) ≡ any (λ p. int_beq p (pos (suc n))) g.worker_pids)
unfolding dropped kill_workers cleanup_sockets
any-dropped g n =
    let w = kill_each g.worker_pids in
    let z = kill_zygote g.zygote_pid in
    let r = remove_each g.socket_paths in
    let p = is_kill (pos (suc n)) in
    let q = is_kill (negsuc n) in
    (
      ground (
        arith,
        any-append p (w ++ z) r,
        any-append p w z,
        any-kill_each n g.worker_pids,
        any-kill_zygote n g.zygote_pid,
        any-remove_each n (pos (suc n)) g.socket_paths,
      ),
      ground (
        arith,
        any-append q (w ++ z) r,
        any-append q w z,
        any-kill_each n g.worker_pids,
        any-kill_zygote n g.zygote_pid,
        any-remove_each n (negsuc n) g.socket_paths,
      ),
    )
