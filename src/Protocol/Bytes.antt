-- ===== src/Protocol/Bytes.antt =====
-- Little-endian words and exact reads, as the socket code uses them (src/protocol.rs,
-- encode_with_length; src/scheduler.rs, try_collect_result_for_reporter).
use tach_core.Base.{
  ℕ, ◌+◌, ◌*◌, ◌/◌, ◌%◌, ◌^◌, ◌<◌, ◌≡◌, refl, Option, none, some, List, [], ◌∷◌, ◌++◌, take, drop,
  length, leb, if◌then◌else◌, arith, ap, true, length-append,
}

-- u32::to_le_bytes
unfoldable pub to_le_bytes : ℕ → List ℕ
to_le_bytes n = n % 256 ∷ ((n / 256) % 256) ∷ ((n / 65536) % 256) ∷ ((n / 16777216) % 256) ∷ []

-- u32::from_le_bytes, of the four bytes that were read
unfoldable pub from_le_bytes : List ℕ → ℕ
from_le_bytes (a ∷ b ∷ c ∷ d ∷ []) = a + 256 * b + 65536 * c + 16777216 * d
from_le_bytes _ = 0

-- socket.read_exact: all the bytes that are asked for, or an error
unfoldable pub read_exact : ℕ → List ℕ → Option (List ℕ × List ℕ)
read_exact n s = if leb n (length s) then some (take n s, drop n s) else none

pub from_le_bytes-to_le_bytes : (n : ℕ) → n < 2 ^ 32 → from_le_bytes (to_le_bytes n) ≡ n
unfolding from_le_bytes to_le_bytes
from_le_bytes-to_le_bytes n h = omega arith

pub length-to_le_bytes : (n : ℕ) → length (to_le_bytes n) ≡ 4
unfolding to_le_bytes
length-to_le_bytes n = refl

take-append : (xs ys : List ℕ) → take (length xs) (xs ++ ys) ≡ xs
take-append [] ys = refl
take-append (x ∷ xs) ys = ap (λ l. x ∷ l) (take-append xs ys)

drop-append : (xs ys : List ℕ) → drop (length xs) (xs ++ ys) ≡ ys
drop-append [] ys = refl
drop-append (x ∷ xs) ys = drop-append xs ys

length-le-append : (xs ys : List ℕ) → leb (length xs) (length (xs ++ ys)) ≡ true
length-le-append xs ys = ground (arith, length-append xs ys)

-- A read of as many bytes as were written gives these bytes back.
pub read_exact-append :
    (n : ℕ) (xs ys : List ℕ) → length xs ≡ n → read_exact n (xs ++ ys) ≡ some (xs, ys)
unfolding read_exact
read_exact-append n xs ys e = rw (← e, length-le-append xs ys, take-append xs ys, drop-append xs ys)
