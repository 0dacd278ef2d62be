-- ===== src/Zygote/Isolated.antt =====
-- What a worker does before a test, and what it sends (src/zygote.rs with src/isolation.rs).
use tach_core.Base.{
  ℕ, ◌≡◌, refl, sym, ◌∙◌, ap, Text, Option, none, List, [], ◌∷◌, ◌++◌, append-nil, if◌then◌else◌,
}
use tach_core.Base.Calls.{Ended, done, failed}
use tach_core.Discovery.Types.{FilePath}
use tach_core.Isolation.Setup.{
  Call, mount_tmpfs, tmp, base, tmp_overlay, project_overlay, setup_filesystem,
}
use tach_core.Isolation.Mounts.{
  is_below, governing, made_by, root_or_host, last_above, setup_filesystem-governing,
}
use tach_core.Protocol.Messages.{TestPayload, TestResult}
use tach_core.Zygote.Worker.{Host, isolated, child, full_node_id}
use tach_core.Zygote.Actions.{
  tests_run, sent, calls_before_test, tests_run-isolate, sent-isolate, calls_before_test-isolate,
  bytes_or_none, reported, encoded, sent-test_actions, tests_run-test_actions,
  calls_before_test-test_actions, tests_of-cons,
}

-- The end of the isolation, and its calls.
abbrev pub isolation : Host → TestPayload → Ended Call (Unit {0}) × List Call
isolation h payload =
    setup_filesystem h.show h.no_isolation payload.test_id h.current_dir h.kernel []

tests_run-child :
    (serialize : TestResult → Option (List ℕ)) (h : Host) (payload : TestPayload)
    → tests_run (child serialize h payload)
      ≡ tests_run (isolated serialize h payload (isolation h payload).0)
unfolding child
tests_run-child serialize h payload =
    let (end, calls) = isolation h payload in
    tests_run-isolate calls (isolated serialize h payload end)

sent-child :
    (serialize : TestResult → Option (List ℕ)) (h : Host) (payload : TestPayload)
    → sent (child serialize h payload) ≡ sent (isolated serialize h payload (isolation h payload).0)
unfolding child
sent-child serialize h payload =
    let (end, calls) = isolation h payload in sent-isolate calls (isolated serialize h payload end)

calls_before_test-isolated :
    (serialize : TestResult → Option (List ℕ)) (h : Host) (payload : TestPayload)
    (end : Ended Call (Unit {0}))
    → calls_before_test (isolated serialize h payload end) ≡ []
unfolding isolated
calls_before_test-isolated serialize h payload (failed c) = refl
calls_before_test-isolated serialize h payload (done u) =
    calls_before_test-test_actions serialize h payload

calls_before_test-child :
    (serialize : TestResult → Option (List ℕ)) (h : Host) (payload : TestPayload)
    → calls_before_test (child serialize h payload) ≡ (isolation h payload).1
unfolding child
calls_before_test-child serialize h payload =
    let (end, calls) = isolation h payload in
    calls_before_test-isolate calls (isolated serialize h payload end)
    ∙ ap (λ l. calls ++ l) (calls_before_test-isolated serialize h payload end)
    ∙ append-nil calls

isolated-test :
    (serialize : TestResult → Option (List ℕ)) (h : Host) (payload : TestPayload)
    (end : Ended Call (Unit {0})) (node : Text) (tests : List Text)
    → tests_run (isolated serialize h payload end) ≡ node ∷ tests
    → (end ≡ done tt) × (node ≡ full_node_id payload) × (tests ≡ [])
unfolding isolated
isolated-test serialize h payload (failed c) node tests e = absurd (cc)
isolated-test serialize h payload (done u) node tests e =
    let (same, only) =
      tests_of-cons h.continued payload node tests
        (sym (tests_run-test_actions serialize h payload) ∙ e) in
    (refl, same, only)

-- If a worker with isolation runs a test, it is the payload's and the only one, and the mounts that
-- were made before it, on a host with any mount points, govern every path as those of a complete setup: the
-- project's paths by its overlay, other paths of /tmp by that of /tmp, others of the worker's directory by its
-- tmpfs. Every other path is governed by the last mount that the host has above it, as it is on the host, and
-- only if there is none by the read-only root.
pub child-governing :
    (serialize : TestResult → Option (List ℕ)) (h : Host) (payload : TestPayload) (path : FilePath)
    (points : List FilePath) (node : Text) (tests : List Text)
    → h.no_isolation ≡ none
    → tests_run (child serialize h payload) ≡ node ∷ tests
    → (node ≡ full_node_id payload)
      × (tests ≡ [])
      × (governing points (calls_before_test (child serialize h payload)) path ≡ (
          if is_below h.current_dir path
          then made_by (project_overlay h.show payload.test_id h.current_dir)
          else if is_below tmp path
          then made_by (tmp_overlay h.show payload.test_id)
          else if is_below (base h.show payload.test_id) path
          then made_by (mount_tmpfs (base h.show payload.test_id))
          else root_or_host (last_above points path)))
child-governing serialize h payload path points node tests on ran =
    let end = isolation h payload in
    let (ended, same, only) =
      isolated-test serialize h payload end.0 node tests
        (sym (tests_run-child serialize h payload) ∙ ran) in
    let of_variable : isolation h payload
        ≡ setup_filesystem h.show none payload.test_id h.current_dir h.kernel [] =
      ap (λ v. setup_filesystem h.show v payload.test_id h.current_dir h.kernel []) on in
    (
      same,
      only,
      ap (λ l. governing points l path)
            (calls_before_test-child serialize h payload ∙ ap (λ r. r.1) of_variable)
          ∙ setup_filesystem-governing h.show h.kernel payload.test_id h.current_dir path points
              (ap (λ r. r.0) (sym of_variable) ∙ ended),
    )

-- The result of a worker: that of its test, if its isolation is set up.
abbrev pub result_after : Host → TestPayload → Ended Call (Unit {0}) → Option TestResult
result_after h payload (failed c) = none
result_after h payload (done u) = reported h payload

abbrev pub result_of : Host → TestPayload → Option TestResult
result_of h payload = result_after h payload (isolation h payload).0

sent-isolated :
    (serialize : TestResult → Option (List ℕ)) (h : Host) (payload : TestPayload)
    (end : Ended Call (Unit {0}))
    → sent (isolated serialize h payload end)
      ≡ bytes_or_none (encoded serialize (result_after h payload end))
unfolding isolated
sent-isolated serialize h payload (failed c) = refl
sent-isolated serialize h payload (done u) = sent-test_actions serialize h payload

pub sent-result_of :
    (serialize : TestResult → Option (List ℕ)) (h : Host) (payload : TestPayload)
    → sent (child serialize h payload) ≡ bytes_or_none (encoded serialize (result_of h payload))
sent-result_of serialize h payload =
    sent-child serialize h payload ∙ sent-isolated serialize h payload (isolation h payload).0
