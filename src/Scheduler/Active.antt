-- ===== src/Scheduler/Active.antt =====
-- Maps whose keys are numbers below a bound and do not repeat, as the active workers'.
use tach_core.Base.{
  ℕ, suc, ◌<◌, ◌≤◌, ◌≡◌, ◌==◌, ==_iff, refl, false, [], ◌∷◌, ◌++◌, length, All, All-append,
  Bool-cases, inl, inr, Assoc, insert, remove, nat_eq, arith,
}

module _ {V : Type 0} where
  -- The keys are pairwise different.
  abbrev pub NodupKeys : Assoc ℕ V → Type 0
  NodupKeys [] = Unit
  NodupKeys ((k, v) ∷ m) = All (λ (j, w). (j == k) ≡ false) m × NodupKeys m

  pub remove-All : (P : ℕ × V → Type 0) (m : Assoc ℕ V) (k : ℕ) → All P m → All P (remove m k)
  unfolding remove
  remove-All P [] k h = tt
  remove-All P ((j, v) ∷ m) k h = elim (Bool-cases (j == k)) [
    | inl e ↦ rw e (remove-All P m k h.1)
    | inr e ↦ rw e (h.0, remove-All P m k h.1)
  ]

  pub remove-NodupKeys : (m : Assoc ℕ V) (k : ℕ) → NodupKeys m → NodupKeys (remove m k)
  unfolding remove
  remove-NodupKeys [] k h = tt
  remove-NodupKeys ((j, v) ∷ m) k h = elim (Bool-cases (j == k)) [
    | inl e ↦ rw e (remove-NodupKeys m k h.1)
    | inr e ↦ rw e (remove-All (λ (i, w). (i == j) ≡ false) m k h.0, remove-NodupKeys m k h.1)
  ]

  remove_absent : (m : Assoc ℕ V) (k : ℕ) → All (λ (j, w). (j == k) ≡ false) m → remove m k ≡ m
  unfolding remove
  remove_absent [] k h = refl
  remove_absent ((j, v) ∷ m) k h = ground (arith, h.0, remove_absent m k h.1)

  -- A removal takes at most one entry.
  pub length-remove : (m : Assoc ℕ V) (k : ℕ) → NodupKeys m → length m ≤ suc (length (remove m k))
  unfolding remove
  length-remove [] k h = omega arith
  length-remove ((j, v) ∷ m) k h = elim (Bool-cases (j == k)) [
    | inl e ↦
        let same : j ≡ k = (==_iff j k).0 e in
        let rest : remove m k ≡ m = remove_absent m k (rw (← same) h.0) in ground (arith, e, rest)
    | inr e ↦ ground (arith, e, length-remove m k h.1)
  ]

  pub length-remove_le : (m : Assoc ℕ V) (k : ℕ) → length (remove m k) ≤ length m
  unfolding remove
  length-remove_le [] k = omega arith
  length-remove_le ((j, v) ∷ m) k = ground (arith, length-remove_le m k)

  -- A key above the others is added at the end.
  pub insert_above :
      (m : Assoc ℕ V) (k : ℕ) (v : V) → All (λ (j, w). j < k) m → insert m k v ≡ m ++ (k, v) ∷ []
  unfolding insert
  insert_above [] k v h = refl
  insert_above ((j, w) ∷ m) k v h = ground (arith, h.0, ==_iff j k, insert_above m k v h.1)

  pub NodupKeys-snoc :
      (m : Assoc ℕ V) (k : ℕ) (v : V)
      → All (λ (j, w). j < k) m
      → NodupKeys m
      → NodupKeys (m ++ (k, v) ∷ [])
  NodupKeys-snoc [] k v h n = (tt, tt)
  NodupKeys-snoc ((j, w) ∷ m) k v h n = (
    All-append (λ (i, u). (i == j) ≡ false) m ((k, v) ∷ []) n.0
        (ground (arith, h.0, ==_iff k j), tt),
    NodupKeys-snoc m k v h.1 n.1,
  )
