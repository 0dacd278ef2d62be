-- ===== src/Zygote/Actions.antt =====
-- The tests, the calls and the bytes among the actions of a worker (src/zygote.rs).
use tach_core.Base.{
  ℕ, ◌≡◌, refl, ◌∙◌, ap, Text, Bool, true, false, Option, none, some, List, [], ◌∷◌, ◌++◌,
  append-nil, map, Bool-cases, inl, inr, is_empty, if◌then◌else◌,
}
use tach_core.Isolation.Setup.{Call}
use tach_core.Protocol.Messages.{TestPayload, TestResult}
use tach_core.Protocol.Frames.{encode_with_length}
use tach_core.Zygote.Worker.{
  Host, Action, set_parent_death_signal, default_sigchld, isolate, set_current_dir, redirect_output,
  set_debug_socket_path, post_fork_init, announce, run_test, flush, send, exit, run_worker,
  redirect, debug, send_result, after_test, after_init, test_actions, full_node_id,
}

-- The tests that are run.
abbrev pub tests_run : List Action → List Text
tests_run [] = []
tests_run (run_test file node ∷ rest) = node ∷ tests_run rest
tests_run (set_parent_death_signal ∷ rest) = tests_run rest
tests_run (default_sigchld ∷ rest) = tests_run rest
tests_run (isolate c ∷ rest) = tests_run rest
tests_run (set_current_dir d ∷ rest) = tests_run rest
tests_run (redirect_output fd ∷ rest) = tests_run rest
tests_run (set_debug_socket_path p ∷ rest) = tests_run rest
tests_run (post_fork_init ∷ rest) = tests_run rest
tests_run (announce n fs ∷ rest) = tests_run rest
tests_run (flush ∷ rest) = tests_run rest
tests_run (send bytes ∷ rest) = tests_run rest
tests_run (exit n ∷ rest) = tests_run rest

-- The bytes that are sent.
abbrev pub sent : List Action → List ℕ
sent [] = []
sent (send bytes ∷ rest) = bytes ++ sent rest
sent (run_test file node ∷ rest) = sent rest
sent (set_parent_death_signal ∷ rest) = sent rest
sent (default_sigchld ∷ rest) = sent rest
sent (isolate c ∷ rest) = sent rest
sent (set_current_dir d ∷ rest) = sent rest
sent (redirect_output fd ∷ rest) = sent rest
sent (set_debug_socket_path p ∷ rest) = sent rest
sent (post_fork_init ∷ rest) = sent rest
sent (announce n fs ∷ rest) = sent rest
sent (flush ∷ rest) = sent rest
sent (exit n ∷ rest) = sent rest

-- The calls of the isolation before the first test that is run.
abbrev pub calls_before_test : List Action → List Call
calls_before_test [] = []
calls_before_test (run_test file node ∷ rest) = []
calls_before_test (isolate c ∷ rest) = c ∷ calls_before_test rest
calls_before_test (send bytes ∷ rest) = calls_before_test rest
calls_before_test (set_parent_death_signal ∷ rest) = calls_before_test rest
calls_before_test (default_sigchld ∷ rest) = calls_before_test rest
calls_before_test (set_current_dir d ∷ rest) = calls_before_test rest
calls_before_test (redirect_output fd ∷ rest) = calls_before_test rest
calls_before_test (set_debug_socket_path p ∷ rest) = calls_before_test rest
calls_before_test (post_fork_init ∷ rest) = calls_before_test rest
calls_before_test (announce n fs ∷ rest) = calls_before_test rest
calls_before_test (flush ∷ rest) = calls_before_test rest
calls_before_test (exit n ∷ rest) = calls_before_test rest

pub tests_run-isolate :
    (cs : List Call) (rest : List Action) → tests_run (map isolate cs ++ rest) ≡ tests_run rest
tests_run-isolate [] rest = refl
tests_run-isolate (c ∷ cs) rest = tests_run-isolate cs rest

pub sent-isolate : (cs : List Call) (rest : List Action) → sent (map isolate cs ++ rest) ≡ sent rest
sent-isolate [] rest = refl
sent-isolate (c ∷ cs) rest = sent-isolate cs rest

pub calls_before_test-isolate :
    (cs : List Call) (rest : List Action)
    → calls_before_test (map isolate cs ++ rest) ≡ cs ++ calls_before_test rest
calls_before_test-isolate [] rest = refl
calls_before_test-isolate (c ∷ cs) rest = ap (λ l. c ∷ l) (calls_before_test-isolate cs rest)

abbrev pub bytes_or_none : Option (List ℕ) → List ℕ
bytes_or_none none = []
bytes_or_none (some bytes) = bytes

sent-send_result : (o : Option (List ℕ)) → sent (send_result o ++ exit 0 ∷ []) ≡ bytes_or_none o
unfolding send_result
sent-send_result none = refl
sent-send_result (some bytes) = append-nil bytes

module _ {A : Type 0} (f : List Action → A)
    (over_redirect : (fd : ℕ) (rest : List Action) → f (redirect_output fd ∷ rest) ≡ f rest)
    (over_debug : (p : Text) (rest : List Action)
      → f (set_debug_socket_path p ∷ rest) ≡ f rest) where
  -- A view that does not see the redirection and the debugger's path.
  skip_optional :
      (log_fd : Option ℕ) (p : Text) (rest : List Action)
      → f (redirect log_fd ++ (debug p ++ rest)) ≡ f rest
  unfolding redirect debug
  skip_optional none p rest = elim (Bool-cases (is_empty p)) [
    | inl e ↦ rw e refl
    | inr e ↦ rw e (over_debug p rest)
  ]
  skip_optional (some fd) p rest =
      over_redirect fd (debug p ++ rest)
      ∙ elim (Bool-cases (is_empty p)) [ inl e ↦ rw e refl | inr e ↦ rw e (over_debug p rest) ]

tests_run-send_result : (o : Option (List ℕ)) → tests_run (send_result o ++ exit 0 ∷ []) ≡ []
unfolding send_result
tests_run-send_result none = refl
tests_run-send_result (some bytes) = refl

-- The result of a worker that is continued and comes back from its test.
abbrev pub reported : Host → TestPayload → Option TestResult
reported h payload = if h.continued then run_worker h payload else none

-- The message of a result.
abbrev pub encoded : (TestResult → Option (List ℕ)) → Option TestResult → Option (List ℕ)
encoded serialize none = none
encoded serialize (some v) = encode_with_length serialize v

sent-after_test :
    (serialize : TestResult → Option (List ℕ)) (o : Option TestResult)
    → sent (after_test serialize o) ≡ bytes_or_none (encoded serialize o)
unfolding after_test
sent-after_test serialize none = refl
sent-after_test serialize (some v) = sent-send_result (encode_with_length serialize v)

tests_run-after_test :
    (serialize : TestResult → Option (List ℕ)) (o : Option TestResult)
    → tests_run (after_test serialize o) ≡ []
unfolding after_test
tests_run-after_test serialize none = refl
tests_run-after_test serialize (some v) = tests_run-send_result (encode_with_length serialize v)

pub sent-test_actions :
    (serialize : TestResult → Option (List ℕ)) (h : Host) (payload : TestPayload)
    → sent (test_actions serialize h payload)
      ≡ bytes_or_none (encoded serialize (reported h payload))
unfolding test_actions after_init
sent-test_actions serialize h payload =
    skip_optional sent (λ fd rest. refl) (λ p rest. refl) payload.log_fd payload.debug_socket_path
      (post_fork_init ∷ after_init serialize h payload)
    ∙ elim (Bool-cases h.continued) [
      | inl e ↦ rw e (sent-after_test serialize (run_worker h payload))
      | inr e ↦ rw e refl
    ]

abbrev pub tests_of : Bool → TestPayload → List Text
tests_of true payload = full_node_id payload ∷ []
tests_of false payload = []

pub tests_run-test_actions :
    (serialize : TestResult → Option (List ℕ)) (h : Host) (payload : TestPayload)
    → tests_run (test_actions serialize h payload) ≡ tests_of h.continued payload
unfolding test_actions after_init
tests_run-test_actions serialize h payload =
    skip_optional tests_run (λ fd rest. refl) (λ p rest. refl) payload.log_fd
      payload.debug_socket_path (post_fork_init ∷ after_init serialize h payload)
    ∙ elim (Bool-cases h.continued) [
      | inl e ↦ rw e (
          ap (λ l. full_node_id payload ∷ l)
            (tests_run-after_test serialize (run_worker h payload)))
      | inr e ↦ rw e refl
    ]

pub calls_before_test-test_actions :
    (serialize : TestResult → Option (List ℕ)) (h : Host) (payload : TestPayload)
    → calls_before_test (test_actions serialize h payload) ≡ []
unfolding test_actions after_init
calls_before_test-test_actions serialize h payload =
    skip_optional calls_before_test (λ fd rest. refl) (λ p rest. refl) payload.log_fd
      payload.debug_socket_path (post_fork_init ∷ after_init serialize h payload)
    ∙ elim (Bool-cases h.continued) [ inl e ↦ rw e refl | inr e ↦ rw e refl ]

pub tests_of-cons :
    (continued : Bool) (payload : TestPayload) (node : Text) (tests : List Text)
    → tests_of continued payload ≡ node ∷ tests
    → (node ≡ full_node_id payload) × (tests ≡ [])
tests_of-cons false payload node tests e = absurd (cc)
tests_of-cons true payload node tests e = (cc, cc)
