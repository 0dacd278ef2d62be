-- ===== src/Lifecycle/Guard.antt =====
-- The CleanupGuard of src/lifecycle.rs: what is tracked, and what dropping the guard does. Its locks
-- are taken whether poisoned or not, so that each operation acts on the plain value.
use tach_core.Base.{
  ℕ, zero, suc, Bool, false, not, Option, none, some, List, [], ◌∷◌, ◌++◌, keep_if, nat_beq,
}
use tach_core.Discovery.Types.{FilePath}

-- A process id as an i32: `pos n` is n, `negsuc n` is -(n + 1).
pub data ℤ : Type 0 where
  pos : ℕ → ℤ
  negsuc : ℕ → ℤ

unfoldable pub int_beq : ℤ → ℤ → Bool
int_beq (pos m) (pos n) = nat_beq m n
int_beq (negsuc m) (negsuc n) = nat_beq m n
int_beq (pos m) (negsuc n) = false
int_beq (negsuc m) (pos n) = false

pub record CleanupGuard : Type 0 where
  pub worker_pids : List ℤ
  pub socket_paths : List FilePath
  pub zygote_pid : Option ℤ

abbrev pub new_guard : CleanupGuard
new_guard = record { worker_pids = []; socket_paths = []; zygote_pid = none }

unfoldable pub set_zygote_pid : CleanupGuard → ℤ → CleanupGuard
set_zygote_pid g pid = record g { zygote_pid = some pid }

unfoldable pub track_worker : CleanupGuard → ℤ → CleanupGuard
track_worker g pid = record g { worker_pids = g.worker_pids ++ pid ∷ [] }

unfoldable pub untrack_worker : CleanupGuard → ℤ → CleanupGuard
untrack_worker g pid = record g { worker_pids = keep_if (λ p. not (int_beq p pid)) g.worker_pids }

unfoldable pub track_socket : CleanupGuard → FilePath → CleanupGuard
track_socket g path = record g { socket_paths = g.socket_paths ++ path ∷ [] }

unfoldable pub get_worker_pids : CleanupGuard → List ℤ
get_worker_pids g = g.worker_pids

-- `kill` sends SIGKILL to a process, or to a process group by a negative number.
pub data Action : Type 0 where
  kill : ℤ → Action
  remove_file : FilePath → Action

-- The process group of a worker, and then the worker; ids that are not positive are passed over.
unfoldable pub kill_worker : ℤ → List Action
kill_worker (pos zero) = []
kill_worker (pos (suc n)) = kill (negsuc n) ∷ kill (pos (suc n)) ∷ []
kill_worker (negsuc n) = []

unfoldable pub kill_each : List ℤ → List Action
unfolding kill_worker
kill_each [] = []
kill_each (pid ∷ pids) = kill_worker pid ++ kill_each pids

unfoldable pub kill_zygote : Option ℤ → List Action
kill_zygote none = []
kill_zygote (some (pos zero)) = []
kill_zygote (some (pos (suc n))) = kill (pos (suc n)) ∷ []
kill_zygote (some (negsuc n)) = []

unfoldable pub kill_workers : CleanupGuard → List Action
unfolding kill_each kill_zygote
kill_workers g = kill_each g.worker_pids ++ kill_zygote g.zygote_pid

unfoldable pub remove_each : List FilePath → List Action
remove_each [] = []
remove_each (path ∷ paths) = remove_file path ∷ remove_each paths

unfoldable pub cleanup_sockets : CleanupGuard → List Action
unfolding remove_each
cleanup_sockets g = remove_each g.socket_paths

unfoldable pub dropped : CleanupGuard → List Action
unfolding kill_workers cleanup_sockets
dropped g = kill_workers g ++ cleanup_sockets g
