-- ===== src/Base/Calls.antt =====
-- Programs that make calls of the system, one after the other. What a call answers is the
-- environment's choice, by the calls before it; the calls made are kept in their order.
use mathlib.Core.Path.{◌≡◌, refl, ap, sym, ◌∙◌}
use mathlib.Core.Logic.{inl, inr}
use tach_core.Base.Tests.{Bool-cases}
use mathlib.Core.Bool.{Bool, true, false}
use mathlib.Core.List.{List, [], ◌∷◌, ◌++◌, append_assoc, append-nil}

-- Whether a call succeeds.
abbrev pub Kernel {ℓ} : Type ℓ → Type ℓ
Kernel C = List C → C → Bool

-- A value, or the call whose failure ended the program.
pub data Ended {ℓ κ} (C : Type ℓ) (A : Type κ) : Type (ℓ ⊔ κ) where
  done : A → Ended C A
  failed : C → Ended C A

-- The program maps the calls made before it to its end and the calls made up to there.
abbrev pub Program {ℓ κ} : Type ℓ → Type κ → Type (ℓ ⊔ κ)
Program C A = Kernel C → List C → Ended C A × List C

module _ {ℓ κ} {C : Type ℓ} {A : Type κ} where
  abbrev pub return : A → Program C A
  return a kernel made = (done a, made)

-- A sequence of calls, up to the first that fails.
unfoldable pub call_each {ℓ} : {C : Type ℓ} → List C → Program C (Unit {0})
call_each [] kernel made = (done tt, made)
call_each (c ∷ cs) kernel made = elim (kernel made c) [
  | true ↦ call_each cs kernel (made ++ c ∷ [])
  | false ↦ (failed c, made ++ c ∷ [])
]

-- All the calls were made, in order, or those up to the failed one.
abbrev pub Sequence {ℓ} : {C : Type ℓ} → List C → List C → Ended C (Unit {0}) × List C → Type ℓ
Sequence {C} cs made (done u, after) = after ≡ made ++ cs
Sequence {C} cs made (failed c, after) =
    (front rest : List C) × (cs ≡ front ++ c ∷ rest) × (after ≡ made ++ (front ++ c ∷ []))

call_each_succeeded {ℓ} :
    {C : Type ℓ} (c : C) (cs : List C) (kernel : Kernel C) (made : List C)
    → kernel made c ≡ true
    → call_each (c ∷ cs) kernel made ≡ call_each cs kernel (made ++ c ∷ [])
unfolding call_each
call_each_succeeded c cs kernel made e = rw (e, call_each)

call_each_failed {ℓ} :
    {C : Type ℓ} (c : C) (cs : List C) (kernel : Kernel C) (made : List C)
    → kernel made c ≡ false
    → call_each (c ∷ cs) kernel made ≡ (failed c, made ++ c ∷ [])
unfolding call_each
call_each_failed c cs kernel made e = rw (e, call_each)

Sequence-cons {ℓ} :
    {C : Type ℓ} (c : C) (cs made : List C) (end : Ended C (Unit {0}) × List C)
    → Sequence cs (made ++ c ∷ []) end
    → Sequence (c ∷ cs) made end
Sequence-cons c cs made (done u, after) h = h ∙ append_assoc made (c ∷ []) cs
Sequence-cons c cs made (failed d, after) (front, rest, e, k) =
    (c ∷ front, rest, ap (λ l. c ∷ l) e, k ∙ append_assoc made (c ∷ []) (front ++ d ∷ []))

pub call_each-Sequence {ℓ} :
    {C : Type ℓ} (cs : List C) (kernel : Kernel C) (made : List C)
    → Sequence cs made (call_each cs kernel made)
unfolding call_each
call_each-Sequence [] kernel made = sym (append-nil made)
call_each-Sequence (c ∷ cs) kernel made = elim (Bool-cases (kernel made c)) [
  | inr e ↦ rw (call_each_failed c cs kernel made e) ([], cs, refl, refl)
  | inl e ↦ rw (call_each_succeeded c cs kernel made e) (
      Sequence-cons c cs made (call_each cs kernel (made ++ c ∷ []))
        (call_each-Sequence cs kernel (made ++ c ∷ [])))
]
