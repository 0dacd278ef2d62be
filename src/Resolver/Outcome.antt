-- ===== src/Resolver/Outcome.antt =====
-- The results of a resolution (src/resolver.rs): a value, an error, or no fuel left in the model.
use tach_core.Base.{◌≡◌, refl, ap, ◌⊎◌, inl, inr, Text, List}

pub data ResolutionError : Type 0 where
  missing_fixture : (test fixture : Text) → ResolutionError
  cyclic_dependency : (test : Text) (cycle : List Text) → ResolutionError

-- The outcome of a resolution.
pub data Outcome {ℓ} (A : Type ℓ) : Type ℓ where
  ok : A → Outcome A
  err : ResolutionError → Outcome A
  out_of_fuel : Outcome A

infixl 5 ◌>>=◌
-- The next part runs on a value only.
abbrev pub ◌>>=◌ {ℓ κ} : {V : Type ℓ} {W : Type κ} → Outcome V → (V → Outcome W) → Outcome W
out_of_fuel >>= next = out_of_fuel
err x >>= next = err x
ok v >>= next = next v

pub ok_inj {ℓ} : {A : Type ℓ} {a b : A} → ok a ≡ ok b → a ≡ b
ok_inj h = cc

err_of {ℓ} : {A : Type ℓ} → ResolutionError → Outcome A → ResolutionError
err_of d (err x) = x
err_of d _ = d

pub err_inj {ℓ} : {A : Type ℓ} {x y : ResolutionError} → ◌≡◌ {A = Outcome A} (err x) (err y) → x ≡ y
unfolding err_of
err_inj {x = x} h = ap (err_of x) h

-- What a chain of two parts gives, by what the first one gives.
module _ {ℓ κ} {V : Type ℓ} {W : Type κ} where
  pub >>=-eq-out_of_fuel :
      (q : Outcome V) (next : V → Outcome W)
      → (q >>= next) ≡ out_of_fuel
      → (q ≡ out_of_fuel) ⊎ ((v : V) × (q ≡ ok v) × (next v ≡ out_of_fuel))
  >>=-eq-out_of_fuel out_of_fuel next run = inl refl
  >>=-eq-out_of_fuel (err x) next run = absurd (cc)
  >>=-eq-out_of_fuel (ok v) next run = inr (v, refl, run)

  pub >>=-eq-err :
      (q : Outcome V) (next : V → Outcome W) {x : ResolutionError}
      → (q >>= next) ≡ err x
      → (q ≡ err x) ⊎ ((v : V) × (q ≡ ok v) × (next v ≡ err x))
  >>=-eq-err out_of_fuel next run = absurd (cc)
  >>=-eq-err (err y) next run = inl (cc)
  >>=-eq-err (ok v) next run = inr (v, refl, run)

  pub >>=-eq-ok :
      (q : Outcome V) (next : V → Outcome W) {w : W}
      → (q >>= next) ≡ ok w
      → (v : V) × (q ≡ ok v) × (next v ≡ ok w)
  >>=-eq-ok out_of_fuel next run = absurd (cc)
  >>=-eq-ok (err x) next run = absurd (cc)
  >>=-eq-ok (ok v) next run = (v, refl, run)

pub Outcome-cases {ℓ} :
    {A : Type ℓ} (m : Outcome A)
    → ((a : A) × (m ≡ ok a)) ⊎ ((e : ResolutionError) × (m ≡ err e)) ⊎ (m ≡ out_of_fuel)
Outcome-cases (ok a) = inl (a, refl)
Outcome-cases (err e) = inr (inl (e, refl))
Outcome-cases out_of_fuel = inr (inr refl)
