-- ===== src/Zygote/Forward.antt =====
-- The way of a result from its worker to the supervisor (src/zygote.rs with src/scheduler.rs).
use mathlib.Core.Path.{subst}
use tach_core.Base.{
  ℕ, ◌%◌, ◌^◌, ◌<◌, ◌≡◌, refl, sym, ◌∙◌, ap, Option, none, some, List, [], ◌∷◌, ◌++◌, length,
  append_assoc, append-nil, All, arith, Option-cases, inl, inr,
}
use tach_core.Protocol.Messages.{TestPayload, TestResult}
use tach_core.Protocol.Bytes.{
  to_le_bytes, read_exact, read_exact-append, length-to_le_bytes, from_le_bytes-to_le_bytes,
}
use tach_core.Protocol.Frames.{
  frame, encode_with_length, encode_all, receive_all, receive_all-encode_all,
}
use tach_core.Zygote.Worker.{Host, child}
use tach_core.Zygote.Collector.{collect_worker, forward}
use tach_core.Zygote.Actions.{sent, encoded, bytes_or_none}
use tach_core.Zygote.Isolated.{result_of, sent-result_of}

collect_worker-frame :
    (payload : List ℕ)
    → length payload < 2 ^ 32
    → collect_worker (frame payload) ≡ some (frame payload)
unfolding collect_worker frame
collect_worker-frame payload h =
    let n = length payload % 2 ^ 32 in
    ground (
      arith,
      append-nil payload,
      read_exact-append 4 (to_le_bytes n) payload (length-to_le_bytes n),
      from_le_bytes-to_le_bytes n (omega arith),
      read_exact-append n payload [] (omega arith),
    )

collect_worker-nil : collect_worker [] ≡ none
unfolding collect_worker read_exact
collect_worker-nil = refl

-- A worker: the host it runs on and its payload.
abbrev pub Forked : Type 0
Forked = Host × TestPayload

abbrev pub Fits : (TestResult → Option (List ℕ)) → TestResult → Type 0
Fits serialize v = (payload : List ℕ) × (serialize v ≡ some payload) × (length payload < 2 ^ 32)

abbrev Fitting : (TestResult → Option (List ℕ)) → Option TestResult → Type 0
Fitting serialize none = Unit {0}
Fitting serialize (some v) = Fits serialize v

-- What comes into the channel from workers that end in this order.
abbrev pub channel : (TestResult → Option (List ℕ)) → List Forked → List (List ℕ)
channel serialize [] = []
channel serialize ((h, payload) ∷ ws) = elim (collect_worker (sent (child serialize h payload))) [
  | none ↦ channel serialize ws
  | some message ↦ message ∷ channel serialize ws
]

-- The results of the workers whose isolation was set up, that were continued and that came back from
-- their test.
abbrev pub results : List Forked → List TestResult
results [] = []
results ((h, payload) ∷ ws) = elim (result_of h payload) [
  | none ↦ results ws
  | some v ↦ v ∷ results ws
]

encode_with_length-some :
    (serialize : TestResult → Option (List ℕ)) (v : TestResult) (bytes : List ℕ)
    → serialize v ≡ some bytes
    → encode_with_length serialize v ≡ some (frame bytes)
unfolding encode_with_length
encode_with_length-some serialize v bytes e = rw (e, encode_with_length) refl

collect_worker-encode :
    (serialize : TestResult → Option (List ℕ)) (v : TestResult)
    → Fits serialize v
    → collect_worker (bytes_or_none (encode_with_length serialize v))
      ≡ encode_with_length serialize v
collect_worker-encode serialize v (bytes, e, fits) =
    rw (encode_with_length-some serialize v bytes e) (collect_worker-frame bytes fits)

collect_worker-child :
    (serialize : TestResult → Option (List ℕ)) (h : Host) (payload : TestPayload)
    (o : Option TestResult)
    → result_of h payload ≡ o
    → Fitting serialize o
    → collect_worker (sent (child serialize h payload)) ≡ encoded serialize o
collect_worker-child serialize h payload none e fits =
    ap collect_worker
      (sent-result_of serialize h payload ∙ ap (λ r. bytes_or_none (encoded serialize r)) e)
    ∙ collect_worker-nil
collect_worker-child serialize h payload (some v) e fits =
    ap collect_worker
      (sent-result_of serialize h payload ∙ ap (λ r. bytes_or_none (encoded serialize r)) e)
    ∙ collect_worker-encode serialize v fits

abbrev concat : List (List ℕ) → List ℕ
concat [] = []
concat (m ∷ ms) = m ++ concat ms

forward-concat :
    (written : List ℕ) (ms : List (List ℕ)) → forward (λ w. none) written ms ≡ written ++ concat ms
unfolding forward
forward-concat written [] = sym (append-nil written)
forward-concat written (m ∷ ms) =
    forward-concat (written ++ m) ms ∙ append_assoc written m (concat ms)

channel_step :
    (serialize : TestResult → Option (List ℕ)) (h : Host) (payload : TestPayload) (ws : List Forked)
    (message : Option (List ℕ))
    → collect_worker (sent (child serialize h payload)) ≡ message
    → channel serialize ((h, payload) ∷ ws)
      ≡ elim message [ none ↦ channel serialize ws | some m ↦ m ∷ channel serialize ws ]
channel_step serialize h payload ws message e = rw (e, channel) refl

results_step :
    (h : Host) (payload : TestPayload) (ws : List Forked) (o : Option TestResult)
    → result_of h payload ≡ o
    → results ((h, payload) ∷ ws) ≡ elim o [ none ↦ results ws | some v ↦ v ∷ results ws ]
results_step h payload ws o e = rw (e, results) refl

encode_all-cons :
    (serialize : TestResult → Option (List ℕ)) (v : TestResult) (vs : List TestResult) (m : List ℕ)
    (ms : List (List ℕ))
    → encode_with_length serialize v ≡ some m
    → encode_all serialize vs ≡ some (concat ms)
    → encode_all serialize (v ∷ vs) ≡ some (m ++ concat ms)
unfolding encode_all
encode_all-cons serialize v vs m ms e f = ground (arith, e, f)

encodes :
    (serialize : TestResult → Option (List ℕ)) (v : TestResult)
    → Fits serialize v
    → (m : List ℕ) × (encode_with_length serialize v ≡ some m)
encodes serialize v (bytes, e, fits) = (frame bytes, encode_with_length-some serialize v bytes e)

ended-channel :
    (serialize : TestResult → Option (List ℕ)) (h : Host) (payload : TestPayload) (ws : List Forked)
    (o : Option TestResult)
    → result_of h payload ≡ o
    → Fitting serialize o
    → encode_all serialize (results ws) ≡ some (concat (channel serialize ws))
    → encode_all serialize (results ((h, payload) ∷ ws))
      ≡ some (concat (channel serialize ((h, payload) ∷ ws)))
ended-channel serialize h payload ws none e fits ih =
    let received = collect_worker-child serialize h payload none e fits in
    rw (results_step h payload ws none e, channel_step serialize h payload ws none received) ih
ended-channel serialize h payload ws (some v) e fits ih =
    let (m, f) = encodes serialize v fits in
    let received : collect_worker (sent (child serialize h payload)) ≡ some m =
      collect_worker-child serialize h payload (some v) e fits ∙ f in
    rw (results_step h payload ws (some v) e, channel_step serialize h payload ws (some m) received)
      (encode_all-cons serialize v (results ws) m (channel serialize ws) f ih)

encode_all-channel :
    (serialize : TestResult → Option (List ℕ)) (ws : List Forked)
    → All (λ v. Fits serialize v) (results ws)
    → encode_all serialize (results ws) ≡ some (concat (channel serialize ws))
unfolding encode_all
encode_all-channel serialize [] fits = refl
encode_all-channel serialize ((h, payload) ∷ ws) fits = elim (Option-cases (result_of h payload)) [
  | inl e ↦
      let rest = subst (All (λ v. Fits serialize v)) (results_step h payload ws none e) fits in
      ended-channel serialize h payload ws none e tt (encode_all-channel serialize ws rest)
  | inr (v, e) ↦
      let rest = subst (All (λ v. Fits serialize v)) (results_step h payload ws (some v) e) fits in
      ended-channel serialize h payload ws (some v) e rest.0
        (encode_all-channel serialize ws rest.1)
]

-- If every result serializes to less than 4 GiB and deserializes to itself, and no write to the
-- supervisor fails, then for workers that end in any order the supervisor's reads give, in that order,
-- exactly the results of the workers whose isolation was set up, that were continued after their
-- initialisation and that came back from their test, and nothing is left to read: a worker that crashes or
-- exits in its test, or stays stopped before it, leaves nothing.
pub receive_all-forward :
    (serialize : TestResult → Option (List ℕ)) (deserialize : List ℕ → Option TestResult)
    → ((v : TestResult) (payload : List ℕ)
        → serialize v ≡ some payload
        → deserialize payload ≡ some v)
    → (ws : List Forked) → All (λ v. Fits serialize v) (results ws)
    → receive_all deserialize (length (results ws)) (forward (λ w. none) [] (channel serialize ws))
      ≡ some (results ws, [])
receive_all-forward serialize deserialize decodes ws fits =
    let (w, e, r) = receive_all-encode_all serialize deserialize decodes (results ws) fits in
    let same : w ≡ concat (channel serialize ws) =
      let f : some w ≡ some (concat (channel serialize ws)) =
        sym e ∙ encode_all-channel serialize ws fits in
      cc in
    ap (λ l. receive_all deserialize (length (results ws)) l)
      (forward-concat [] (channel serialize ws) ∙ sym same ∙ sym (append-nil w))
    ∙ r []
