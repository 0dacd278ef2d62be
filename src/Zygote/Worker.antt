-- ===== src/Zygote/Worker.antt =====
-- The child of a fork, up to its exit (src/zygote.rs, entrypoint and run_worker). The harness, the
-- clock and the serializer are parameters.
use tach_core.Base.{
  ℕ, ◌%◌, ◌^◌, Text, chars, Bool, Option, none, some, List, [], ◌∷◌, ◌++◌, is_empty, if◌then◌else◌,
  map, nat_eq, list_eq,
}
use tach_core.Base.Calls.{Kernel, Ended, done, failed}
use tach_core.Discovery.Types.{FilePath}
use tach_core.Isolation.Setup.{Call, setup_filesystem}
use tach_core.Protocol.Messages.{TestPayload, TestResult, status_harness_error}
use tach_core.Protocol.Frames.{encode_with_length}

-- What run_test of the harness returns, or the text of the exception that it raises. A worker that crashes
-- or exits in the test does not come back from it.
pub data Answer : Type 0 where
  died : Answer
  returned : (status : ℕ) → (message : Text) → Answer
  raised : (error : Text) → Answer

pub record Host : Type 0 where
  pub show : ℕ → Text
  -- TACH_NO_ISOLATION
  pub no_isolation : Option Text
  pub current_dir : FilePath
  pub kernel : Kernel Call
  -- Whether post_fork_init comes back: its handshake stops the worker until a signal continues it.
  pub continued : Bool
  pub run_test : (file_path full_node_id : Text) → Answer
  pub elapsed_nanos : ℕ

pub data Action : Type 0 where
  set_parent_death_signal : Action
  default_sigchld : Action
  isolate : Call → Action
  set_current_dir : FilePath → Action
  redirect_output : (log_fd : ℕ) → Action
  set_debug_socket_path : Text → Action
  post_fork_init : Action
  announce : (full_node_id : Text) → (fixtures : List Text) → Action
  run_test : (file_path full_node_id : Text) → Action
  flush : Action
  -- The socket takes what is sent.
  send : List ℕ → Action
  exit : ℕ → Action

unfoldable pub full_node_id : TestPayload → Text
full_node_id payload = payload.file_path ++ chars "::" ++ payload.test_name

-- The result of run_worker, if it comes back. The time is cut to 64 bits; the message is that of the harness, whole.
unfoldable pub run_worker : Host → TestPayload → Option TestResult
unfolding full_node_id
run_worker h payload = elim (h.run_test payload.file_path (full_node_id payload)) [
  | died ↦ none
  | returned status message ↦ some (record {
    test_id = payload.test_id;
    status = status;
    duration_ns = h.elapsed_nanos % 2 ^ 64;
    message = message;
  })
  | raised error ↦ some (record {
    test_id = payload.test_id;
    status = status_harness_error;
    duration_ns = h.elapsed_nanos % 2 ^ 64;
    message = chars "PyO3 Error: " ++ error;
  })
]

-- `log_fd` is negative, or a descriptor.
unfoldable pub redirect : Option ℕ → List Action
redirect none = []
redirect (some fd) = redirect_output fd ∷ []

unfoldable pub debug : Text → List Action
debug path = if is_empty path then [] else set_debug_socket_path path ∷ []

-- A result that does not serialize is not sent.
unfoldable pub send_result : Option (List ℕ) → List Action
send_result none = []
send_result (some bytes) = send bytes ∷ []

module _ (serialize : TestResult → Option (List ℕ)) where
  -- What follows the test, if the worker comes back from it.
  unfoldable pub after_test : Option TestResult → List Action
  unfolding send_result
  after_test none = []
  after_test (some result) =
      flush ∷ (send_result (encode_with_length serialize result) ++ exit 0 ∷ [])

  unfoldable pub after_init : Host → TestPayload → List Action
  unfolding run_worker after_test
  after_init h payload =
      if h.continued
      then announce (full_node_id payload) (map (λ f. f.name) payload.fixtures)
        ∷ run_test payload.file_path (full_node_id payload)
        ∷ after_test (run_worker h payload)
      else []

  -- What follows the isolation.
  unfoldable pub test_actions : Host → TestPayload → List Action
  unfolding after_init redirect debug
  test_actions h payload =
      set_current_dir h.current_dir
      ∷ (redirect payload.log_fd
          ++ (debug payload.debug_socket_path ++ post_fork_init ∷ after_init h payload))

  -- A failed isolation ends the worker.
  unfoldable pub isolated : Host → TestPayload → Ended Call (Unit {0}) → List Action
  unfolding test_actions
  isolated h payload (failed c) = exit 1 ∷ []
  isolated h payload (done u) = test_actions h payload

  unfoldable pub child : Host → TestPayload → List Action
  unfolding isolated
  child h payload =
      let end = setup_filesystem h.show h.no_isolation payload.test_id h.current_dir h.kernel [] in
      set_parent_death_signal ∷ default_sigchld ∷ (map isolate end.1 ++ isolated h payload end.0)
