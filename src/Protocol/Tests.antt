-- ===== src/Protocol/Tests.antt =====
-- Small messages and frames.
use tach_core.Base.{
  ℕ, ◌≡◌, ◌↔◌, refl, arith, true, Option, none, some, List, [], ◌∷◌, ◌++◌, get_elem?, chars,
}
use tach_core.Protocol.Messages.{truncate_message, truncate_at, max_len, fail, is_continuation}
use tach_core.Protocol.Limits.{fail-none}
use tach_core.Protocol.Frames.{encode_all, receive_all, receive_all-encode_all}

-- A serializer that writes the bytes as they are.
abbrev serialize : List ℕ → Option (List ℕ)
serialize v = some v

abbrev two_values : List (List ℕ)
two_values = (1 ∷ 2 ∷ []) ∷ (3 ∷ []) ∷ []

receive_all-encode_all_example :
    (w : List ℕ) × (encode_all serialize two_values ≡ some w)
    × ((rest : List ℕ) → receive_all serialize 2 (w ++ rest) ≡ some (two_values, rest))
receive_all-encode_all_example =
    receive_all-encode_all serialize serialize (λ v payload e. ground (arith, e)) two_values
      ((1 ∷ 2 ∷ [], refl, omega arith), ((3 ∷ [], refl, omega arith), tt))

abbrev message : List ℕ
message = chars "assert 1 == 2"

message_kept : truncate_message message ≡ some message
unfolding truncate_message truncate_at
message_kept = refl

fail-none_example :
    (fail 0 1 message ≡ none)
    ↔ ((b : ℕ) × (get_elem? message max_len ≡ some b) × (is_continuation b ≡ true))
fail-none_example = fail-none 0 1 message
