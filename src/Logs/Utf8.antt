-- ===== src/Logs/Utf8.antt =====
-- The UTF-8 decoder of the standard library, as read_to_string uses it (src/logcapture.rs): a text of
-- code points, or an error.
use tach_core.Base.{
  ℕ, zero, suc, ◌+◌, ◌*◌, ◌-◌, ◌≡◌, refl, Text, ◌&&◌, Option, none, some, List, [], ◌∷◌, ◌++◌, ltb,
  leb, if◌then◌else◌, Option-cases, inl, inr, arith,
}

-- Between characters, or inside one: how many bytes are missing behind the next, the bounds of the
-- next byte, and the number so far.
pub data State : Type 0 where
  boundary : State
  inside : (missing low high code : ℕ) → State

unfoldable pub first_byte : ℕ → Option State
first_byte b =
    if leb 0xc2 b && leb b 0xdf
    then some (inside 0 0x80 0xbf (b - 0xc0))
    else if leb 0xe0 b && leb b 0xef
    then some (
        inside 1 (if leb b 0xe0 then 0xa0 else 0x80)
          (if leb 0xed b && leb b 0xed then 0x9f else 0xbf) (b - 0xe0))
    else if leb 0xf0 b && leb b 0xf4
    then some (
        inside 2 (if leb b 0xf0 then 0x90 else 0x80) (if leb 0xf4 b then 0x8f else 0xbf) (b - 0xf0))
    else none

-- The state behind a byte, and the character that it ends.
unfoldable pub next_byte : State → ℕ → Option (State × Option ℕ)
unfolding first_byte
next_byte boundary b =
    if ltb b 0x80
    then some (boundary, some b)
    else (elim (first_byte b) [ none ↦ none | some s ↦ some (s, none) ])
next_byte (inside missing low high code) b =
    let grown = code * 64 + (b - 0x80) in
    if leb low b && leb b high
    then (elim missing [
      | zero ↦ some (boundary, some grown)
      | suc n ↦ some (inside n 0x80 0xbf grown, none)
    ])
    else none

unfoldable pub push : Option ℕ → Text → Text
push none t = t
push (some c) t = c ∷ t

-- The text that the bytes go on with; they must not end inside a character.
unfoldable pub decode : State → List ℕ → Option Text
unfolding next_byte push
decode boundary [] = some []
decode (inside missing low high code) [] = none
decode s (b ∷ bytes) = elim (next_byte s b) [
  | none ↦ none
  | some (t, c) ↦ elim (decode t bytes) [ none ↦ none | some text ↦ some (push c text) ]
]

unfoldable pub from_utf8 : List ℕ → Option Text
unfolding decode
from_utf8 bytes = decode boundary bytes

push-append : (c : Option ℕ) (s t : Text) → push c s ++ t ≡ push c (s ++ t)
unfolding push
push-append none s t = refl
push-append (some c) s t = refl

decode-append :
    (s : State) (xs ys : List ℕ) (t u : Text)
    → decode s xs ≡ some t
    → decode boundary ys ≡ some u
    → decode s (xs ++ ys) ≡ some (t ++ u)
unfolding decode
decode-append boundary [] ys t u h k = let same : [] ≡ t = cc in rw (← same) k
decode-append (inside m l g c) [] ys t u h k = absurd (cc)
decode-append s (b ∷ xs) ys t u h k = elim (Option-cases (next_byte s b)) [
  | inl e ↦ absurd (ground (arith, e, h))
  | inr ((r, c), e) ↦ elim (Option-cases (decode r xs)) [
    | inl f ↦ absurd (ground (arith, e, f, h))
    | inr (v, f) ↦
        let same : push c v ≡ t = ground (arith, e, f, h) in
        ground (arith, e, decode-append r xs ys v u f k, same, push-append c v u)
  ]
]

-- Decoded texts are concatenated as their bytes are.
pub from_utf8-append :
    (xs ys : List ℕ) (t u : Text)
    → from_utf8 xs ≡ some t
    → from_utf8 ys ≡ some u
    → from_utf8 (xs ++ ys) ≡ some (t ++ u)
unfolding from_utf8
from_utf8-append xs ys t u h k = decode-append boundary xs ys t u h k
