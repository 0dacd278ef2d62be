-- ===== src/Base/Maps.antt =====
-- `HashMap` as an association list whose keys do not repeat: `insert` replaces in place.
use mathlib.Core.Path.{◌≡◌, refl}
use mathlib.Core.Bool.{false}
use mathlib.Core.Option.{Option, none, some}
use mathlib.Core.List.{List, [], ◌∷◌}
use native.Mathlib.Omega.{arith}
use tach_core.Base.Tests.{if◌then◌else◌}
use tach_core.Base.Lists.{is_empty}
use tach_core.Base.Classes.{PartialEq, ◌==◌}

abbrev pub Assoc {ℓ κ} : Type ℓ → Type κ → Type (ℓ ⊔ κ)
Assoc K V = List (K × V)

module _ {ℓ κ} {K : Type ℓ} {V : Type κ} ⦃e : PartialEq K⦄ where
  -- map.get(k)
  unfoldable pub get : Assoc K V → K → Option V
  get [] k = none
  get ((j, v) ∷ m) k = if j == k then some v else get m k

  -- map.insert(k, v)
  unfoldable pub insert : Assoc K V → K → V → Assoc K V
  insert [] k v = (k, v) ∷ []
  insert ((j, w) ∷ m) k v = if j == k then (j, v) ∷ m else (j, w) ∷ insert m k v

  -- map.remove(k)
  unfoldable pub remove : Assoc K V → K → Assoc K V
  remove [] k = []
  remove ((j, w) ∷ m) k = let rest = remove m k in if j == k then rest else (j, w) ∷ rest

  pub get-insert :
      (m : Assoc K V) (k j : K) (v : V)
      → get (insert m k v) j ≡ (if k == j then some v else get m j)
  unfolding get insert
  get-insert [] k j v = refl
  get-insert ((i, w) ∷ m) k j v =
      ground (arith, e.equals_iff i k, e.equals_iff i j, e.equals_iff k j, get-insert m k j v)

  pub get-remove :
      (m : Assoc K V) (k j : K) → get (remove m k) j ≡ (if k == j then none else get m j)
  unfolding get remove
  get-remove [] k j = ground arith
  get-remove ((i, w) ∷ m) k j =
      ground (arith, e.equals_iff i k, e.equals_iff i j, e.equals_iff k j, get-remove m k j)

  pub is_empty-insert : (m : Assoc K V) (k : K) (v : V) → is_empty (insert m k v) ≡ false
  unfolding insert
  is_empty-insert [] k v = refl
  is_empty-insert ((i, w) ∷ m) k v = ground arith
