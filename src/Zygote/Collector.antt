-- ===== src/Zygote/Collector.antt =====
-- The threads of the zygote behind a fork (src/zygote.rs, entrypoint): one for each worker, which reads
-- the worker's result, and the one that writes the results to the supervisor.
use tach_core.Base.{ℕ, Option, none, some, List, [], ◌∷◌, ◌++◌, take}
use tach_core.Protocol.Bytes.{read_exact, from_le_bytes}

-- What a worker has sent up to the end of its socket; `some` is what is sent into the channel.
unfoldable pub collect_worker : List ℕ → Option (List ℕ)
collect_worker stream = elim (read_exact 4 stream) [
  | none ↦ none
  | some (result_len_buf, rest) ↦ elim (read_exact (from_le_bytes result_len_buf) rest) [
    | none ↦ none
    | some (result_buf, behind) ↦ some (result_len_buf ++ result_buf)
  ]
]

-- The writes of the channel's messages in their order. By the bytes written before it, a write fails
-- (`some` is how many of its bytes were written), which ends the thread.
unfoldable pub forward : (List ℕ → Option ℕ) → List ℕ → List (List ℕ) → List ℕ
forward fails written [] = written
forward fails written (message ∷ messages) = elim (fails written) [
  | none ↦ forward fails (written ++ message) messages
  | some n ↦ written ++ take n message
]
