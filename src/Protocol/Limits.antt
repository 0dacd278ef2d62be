-- ===== src/Protocol/Limits.antt =====
-- The limit on failure messages (src/protocol.rs, truncate_message).
use tach_core.Base.{
  ℕ, ◌≡◌, ◌↔◌, inl, inr, true, none, some, List, length, get_elem?, arith, ltb, Bool-cases,
  Option-cases, get_elem?-some, lt-length_of_get_elem?, nat_eq, ==_iff,
}
use tach_core.Protocol.Messages.{
  truncate_message, truncate_at, is_char_boundary, is_continuation, max_len, fail,
}

truncate_at-none :
    (limit : ℕ) (msg : List ℕ) (b : ℕ)
    → get_elem? msg limit ≡ some b
    → is_continuation b ≡ true
    → truncate_at limit msg ≡ none
unfolding truncate_at is_char_boundary
truncate_at-none limit msg b e c =
    ground (arith, e, c, lt-length_of_get_elem? msg limit e, ==_iff limit (length msg))

truncate_at-panics :
    (limit : ℕ) (msg : List ℕ)
    → truncate_at limit msg ≡ none
    → (b : ℕ) × (get_elem? msg limit ≡ some b) × (is_continuation b ≡ true)
unfolding truncate_at is_char_boundary
truncate_at-panics limit msg h = elim (Bool-cases (ltb limit (length msg))) [
  | inr short ↦ absurd (ground (arith, short))
  | inl long ↦
      let (b, e) = get_elem?-some msg limit (ground (arith, long)) in
      (b, e, ground (arith, long, e))
]

-- The report of a failure panics exactly when the message has a byte at 4096 and this byte continues
-- a character.
pub fail-none :
    (test_id duration_ns : ℕ) (msg : List ℕ)
    → (fail test_id duration_ns msg ≡ none)
      ↔ ((b : ℕ) × (get_elem? msg max_len ≡ some b) × (is_continuation b ≡ true))
unfolding fail truncate_message
fail-none test_id duration_ns msg = (
  λ h.
      truncate_at-panics max_len msg
        (elim (Option-cases (truncate_at max_len msg)) [ inl n ↦ n | inr (m, e) ↦ absurd (cc) ]),
  λ (b, e, c). ground (arith, truncate_at-none max_len msg b e c),
)
