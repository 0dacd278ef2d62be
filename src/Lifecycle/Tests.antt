-- ===== src/Lifecycle/Tests.antt =====
-- A guard with a worker that has ended, one that has not, and a zygote.
use tach_core.Base.{◌≡◌, ◌||◌, refl, chars, [], ◌∷◌, any, keep_if}
use tach_core.Lifecycle.Guard.{
  pos, negsuc, int_beq, CleanupGuard, new_guard, set_zygote_pid, track_worker, untrack_worker,
  track_socket, kill, remove_file, dropped, kill_workers, kill_each, kill_worker, kill_zygote,
  cleanup_sockets, remove_each,
}
use tach_core.Lifecycle.Signals.{is_kill, is_zygote, any-dropped}

abbrev guard : CleanupGuard
guard =
    track_socket
      (untrack_worker
        (track_worker (track_worker (set_zygote_pid new_guard (pos 9)) (pos 12)) (pos 13)) (pos 12))
      (chars "tmp" ∷ chars "d.sock" ∷ [])

actions :
    dropped guard
    ≡ kill (negsuc 12)
      ∷ kill (pos 13)
      ∷ kill (pos 9)
      ∷ remove_file (chars "tmp" ∷ chars "d.sock" ∷ [])
      ∷ []
unfolding dropped kill_workers kill_each kill_worker kill_zygote cleanup_sockets remove_each
    set_zygote_pid track_worker untrack_worker track_socket keep_if int_beq
actions = refl

any-dropped_example :
    (any (is_kill (pos 13)) (dropped guard)
      ≡ (any (λ p. int_beq p (pos 13)) guard.worker_pids || is_zygote 12 guard.zygote_pid))
    × (any (is_kill (negsuc 12)) (dropped guard) ≡ any (λ p. int_beq p (pos 13)) guard.worker_pids)
any-dropped_example = any-dropped guard 12
