-- ===== src/Base/Texts.antt =====
-- The string operations of Rust's standard library that the code calls, over code points.
use Prim.Native.Nat.{ℕ, ◌-◌}
use Prim.Native.Char.{code}
use Prim.Native.String.{String}
use mathlib.Core.Path.{◌≡◌, refl}
use mathlib.Core.Bool.{Bool, true, false, ◌&&◌}
use mathlib.Core.Option.{Option, none, some}
use mathlib.Core.List.{List, [], ◌∷◌, ◌++◌}
use native.Mathlib.Omega.{arith}
use tach_core.Base.Tests.{if◌then◌else◌, leb, nat_beq, nat_beq_iff}
use tach_core.Base.Classes.{◌==◌, nat_eq, list_eq}
use tach_core.Base.Lists.{length, drop}

abbrev pub Text : Type 0
Text = List ℕ

-- The code points of a literal. `String` has its own `[]` and `∷`.
abbrev pub chars : String → Text
chars String.[] = []
chars (String.◌∷◌ c s) = code c ∷ chars s

-- s.starts_with(pat)
unfoldable pub starts_with : Text → Text → Bool
starts_with s [] = true
starts_with [] (p ∷ pat) = false
starts_with (c ∷ s) (p ∷ pat) = nat_beq c p && starts_with s pat

-- s.ends_with(pat)
unfoldable pub ends_with : Text → Text → Bool
ends_with s pat = leb (length pat) (length s) && (drop (length s - length pat) s == pat)

-- s.split_once(pat), for a pattern that is not empty
unfoldable pub split_once : Text → Text → Option (Text × Text)
unfolding starts_with
split_once [] pat = none
split_once (c ∷ s) pat =
    let later : Option (Text × Text) = elim (split_once s pat) [
      | none ↦ none
      | some (a, b) ↦ some (c ∷ a, b)
    ] in
    if starts_with (c ∷ s) pat then some ([], drop (length pat) (c ∷ s)) else later

-- s.contains(pat), for a pattern that is not empty
unfoldable pub contains_text : Text → Text → Bool
unfolding split_once
contains_text s pat = elim (split_once s pat) [ none ↦ false | some _ ↦ true ]

-- s.split(pat).next(): what stands before the first match, or all of `s`
unfoldable pub split_first : Text → Text → Text
unfolding split_once
split_first s pat = elim (split_once s pat) [ none ↦ s | some (a, _) ↦ a ]

-- s.split(c) for a character
unfoldable pub split_char : ℕ → Text → List Text
split_char sep [] = [] ∷ []
split_char sep (c ∷ s) =
    let parts = split_char sep s in
    if nat_beq c sep
    then [] ∷ parts
    else elim parts [ [] ↦ (c ∷ []) ∷ [] | part ∷ rest ↦ (c ∷ part) ∷ rest ]

-- parts.join(sep) for a character
unfoldable pub join_char : ℕ → List Text → Text
join_char sep [] = []
join_char sep (part ∷ []) = part
join_char sep (part ∷ next ∷ rest) = part ++ (sep ∷ join_char sep (next ∷ rest))

pub starts_with-append : (pat s : Text) → starts_with (pat ++ s) pat ≡ true
unfolding starts_with
starts_with-append [] [] = refl
starts_with-append [] (c ∷ s) = refl
starts_with-append (p ∷ pat) s = ground (arith, starts_with-append pat s, nat_beq_iff p p)

pub starts_with-eq : (s pat : Text) → starts_with s pat ≡ true → (rest : Text) × (s ≡ pat ++ rest)
unfolding starts_with
starts_with-eq s [] h = (s, refl)
starts_with-eq [] (p ∷ pat) h = ([], ground arith)
starts_with-eq (c ∷ s) (p ∷ pat) h =
    let (rest, e) = starts_with-eq s pat (ground arith) in (rest, ground (arith, nat_beq_iff c p))
