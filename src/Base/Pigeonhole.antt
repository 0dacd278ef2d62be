-- ===== src/Base/Pigeonhole.antt =====
-- A list without repetition is no longer than a list that holds all of its elements.
use Prim.Native.Nat.{suc, ◌≤◌}
use mathlib.Core.Path.{◌≡◌, refl}
use mathlib.Core.Bool.{true, false}
use mathlib.Core.List.{List, [], ◌∷◌, ◌++◌}
use native.Mathlib.Omega.{arith}
use tach_core.Base.Tests.{if◌then◌else◌}
use tach_core.Base.Classes.{PartialEq, ◌==◌}
use tach_core.Base.Lists.{length, contains, contains-append, Nodup}

module _ {ℓ} {A : Type ℓ} ⦃e : PartialEq A⦄ where
  erase : List A → A → List A
  erase [] a = []
  erase (x ∷ xs) a = if x == a then xs else x ∷ erase xs a

  length-erase :
      (xs : List A) (a : A) → contains xs a ≡ true → suc (length (erase xs a)) ≡ length xs
  unfolding erase contains
  length-erase [] a h = ground arith
  length-erase (x ∷ xs) a h = ground (arith, length-erase xs a)

  contains-erase_ne :
      (xs : List A) (a b : A)
      → (a == b) ≡ false
      → contains xs b ≡ true
      → contains (erase xs a) b ≡ true
  unfolding erase contains
  contains-erase_ne [] a b ne h = h
  contains-erase_ne (x ∷ xs) a b ne h =
      ground
        (arith, e.equals_iff x a, e.equals_iff x b, e.equals_iff a b, contains-erase_ne xs a b ne)

  pub length-le_of_Nodup :
      (xs ys : List A)
      → Nodup xs
      → ((d : A) → contains xs d ≡ true → contains ys d ≡ true)
      → length xs ≤ length ys
  unfolding contains
  length-le_of_Nodup [] ys n h = omega arith
  length-le_of_Nodup (x ∷ xs) ys n h =
      let here : contains ys x ≡ true = h x (ground (arith, e.equals_iff x x)) in
      let rest : length xs ≤ length (erase ys x) = length-le_of_Nodup xs (erase ys x) n.1 (λ d m.
        contains-erase_ne ys x d (ground (arith, e.equals_iff x d, n.0)) (h d (ground arith))) in
      omega (arith, length-erase ys x here)

  pub Nodup-snoc : (xs : List A) (x : A) → Nodup xs → contains xs x ≡ false → Nodup (xs ++ x ∷ [])
  unfolding contains
  Nodup-snoc [] x n h = (refl, tt)
  Nodup-snoc (y ∷ xs) x n h = (
    ground (arith, contains-append xs (x ∷ []) y, e.equals_iff x y, e.equals_iff y x),
    Nodup-snoc xs x n.1 (ground arith),
  )
