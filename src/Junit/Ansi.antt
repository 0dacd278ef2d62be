-- ===== src/Junit/Ansi.antt =====
-- The removal of terminal escapes (src/junit.rs, strip_ansi_codes).
use tach_core.Base.{
  ℕ, ◌≡◌, ◌==◌, refl, sym, append-nil, Bool-cases, inl, inr, ap, ◌∙◌, Text, Bool, true, false, not,
  ◌&&◌, ◌||◌, [], ◌∷◌, ◌++◌, All, leb, if◌then◌else◌, nat_eq, arith,
}

abbrev pub escape : ℕ
escape = 0x1b

abbrev pub is_ascii_alphabetic : ℕ → Bool
is_ascii_alphabetic c = (leb b'a' c && leb c b'z') || (leb b'A' c && leb c b'Z')

-- Where the scan stands: in plain text, just behind an escape character, or in an escape sequence.
pub data Mode : Type 0 where
  plain : Mode
  escaped : Mode
  skipping : Mode

unfoldable pub next_mode : Mode → ℕ → Mode
next_mode plain c = if c == escape then escaped else plain
next_mode escaped c = if c == b'[' then skipping else (if c == escape then escaped else plain)
next_mode skipping c = if is_ascii_alphabetic c then plain else skipping

unfoldable pub keeps : Mode → ℕ → Bool
keeps plain c = not (c == escape) && not (c == 0)
keeps escaped c = not (c == b'[') && not (c == escape) && not (c == 0)
keeps skipping c = false

unfoldable pub strip_from : Mode → Text → Text
unfolding next_mode keeps
strip_from mode [] = []
strip_from mode (c ∷ s) =
    let rest = strip_from (next_mode mode c) s in if keeps mode c then c ∷ rest else rest

unfoldable pub strip_ansi_codes : Text → Text
unfolding strip_from
strip_ansi_codes s = strip_from plain s

-- A character that is neither the escape nor NUL.
abbrev pub Printable : ℕ → Type 0
Printable c = ((c == escape) ≡ false) × ((c == 0) ≡ false)

keeps-Printable : (mode : Mode) (c : ℕ) → keeps mode c ≡ true → Printable c
unfolding keeps
keeps-Printable plain c h = (ground (arith, h), ground (arith, h))
keeps-Printable escaped c h = (ground (arith, h), ground (arith, h))
keeps-Printable skipping c h = absurd (ground (arith, h))

strip_from-Printable : (mode : Mode) (s : Text) → All (λ c. Printable c) (strip_from mode s)
unfolding strip_from
strip_from-Printable mode [] = tt
strip_from-Printable mode (c ∷ s) = elim (Bool-cases (keeps mode c)) [
  | inl e ↦ rw e (keeps-Printable mode c e, strip_from-Printable (next_mode mode c) s)
  | inr e ↦ rw e (strip_from-Printable (next_mode mode c) s)
]

-- Plain text in front is kept.
strip_from-append :
    (s t : Text) → All (λ c. Printable c) s → strip_from plain (s ++ t) ≡ s ++ strip_from plain t
unfolding strip_from next_mode keeps
strip_from-append [] t h = refl
strip_from-append (c ∷ s) t h = ground (arith, h.0, strip_from-append s t h.1)

strip_from-skipping :
    (params : Text) (letter : ℕ) (t : Text)
    → All (λ c. is_ascii_alphabetic c ≡ false) params
    → is_ascii_alphabetic letter ≡ true
    → strip_from skipping (params ++ letter ∷ t) ≡ strip_from plain t
unfolding strip_from next_mode keeps
strip_from-skipping [] letter t h e = rw e refl
strip_from-skipping (c ∷ params) letter t h e = rw h.0 (strip_from-skipping params letter t h.1 e)

strip_from-sequence : (t : Text) → strip_from plain (escape ∷ b'[' ∷ t) ≡ strip_from skipping t
unfolding strip_from next_mode keeps
strip_from-sequence t = refl

strip_nil : strip_from plain [] ≡ []
unfolding strip_from
strip_nil = refl

-- Nothing that is left is an escape or a NUL; a text without them is kept as it is; and behind such
-- a text an escape sequence, up to its first letter, disappears without a trace.
pub strip_ansi_codes_lem :
    (s params t : Text) (letter : ℕ)
    → All (λ c. Printable c) s
    → All (λ c. is_ascii_alphabetic c ≡ false) params
    → is_ascii_alphabetic letter ≡ true
    → All (λ c. Printable c) (strip_ansi_codes t)
      × (strip_ansi_codes s ≡ s)
      × (strip_ansi_codes (s ++ (escape ∷ b'[' ∷ params ++ letter ∷ t)) ≡ s ++ strip_ansi_codes t)
unfolding strip_ansi_codes
strip_ansi_codes_lem s params t letter hs hp hl = (
  strip_from-Printable plain t,
  ap (λ l. strip_from plain l) (sym (append-nil s))
      ∙ strip_from-append s [] hs
      ∙ ap (λ l. s ++ l) strip_nil
      ∙ append-nil s,
  strip_from-append s (escape ∷ b'[' ∷ params ++ letter ∷ t) hs
      ∙ ap (λ l. s ++ l)
          (strip_from-sequence (params ++ letter ∷ t) ∙ strip_from-skipping params letter t hp hl),
)
