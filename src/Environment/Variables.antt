-- ===== src/Environment/Variables.antt =====
-- The variables behind the table of a project (src/config.rs, load_env_from_pyproject).
use tach_core.Base.{
  ◌≡◌, inl, inr, refl, Text, Bool, true, false, not, ◌==◌, Option, none, some, List, [], ◌∷◌, any,
  All, get, insert, get-insert, Bool-cases, nat_eq, list_eq, ==_iff, arith,
}
use tach_core.Environment.Pyproject.{
  PyProject, Variables, is_settable, set_var, set_each, env_table, load_env_from_pyproject,
}

-- The keys of a hash map are different.
abbrev pub DistinctKeys : List (Text × Text) → Type 0
DistinctKeys [] = Unit
DistinctKeys ((k, v) ∷ table) = All (λ (j, w). (j == k) ≡ false) table × DistinctKeys table

abbrev pub is_refused : Text × Text → Bool
is_refused (key, value) = not (is_settable key value)

abbrev pub or_own : Option Text → Option Text → Option Text
or_own none own = own
or_own (some value) own = some value

absent :
    (table : List (Text × Text)) (k : Text)
    → All (λ (j, w). (j == k) ≡ false) table
    → get table k ≡ none
unfolding get
absent [] k h = refl
absent ((j, w) ∷ table) k h = ground (arith, h.0, absent table k h.1)

-- The variables are those of the table, and otherwise the former ones; or a pair of the table is refused.
abbrev pub Sets : Variables → List (Text × Text) → Option Variables → Type 0
Sets env table none = any is_refused table ≡ true
Sets env table (some after) =
    (any is_refused table ≡ false) × ((k : Text) → get after k ≡ or_own (get table k) (get env k))

Sets-cons :
    (env : Variables) (key value : Text) (table : List (Text × Text)) (end : Option Variables)
    → is_settable key value ≡ true
    → All (λ (j, w). (j == key) ≡ false) table
    → Sets (insert env key value) table end
    → Sets env ((key, value) ∷ table) end
unfolding any get
Sets-cons env key value table none e apart h = ground (arith, e, h)
Sets-cons env key value table (some after) e apart (h, k) = (
  ground (arith, e, h),
  λ x. elim (Bool-cases (key == x)) [
    | inl same ↦
        let no_later : get table x ≡ none =
          let q : key ≡ x = (==_iff key x).0 same in rw (← q) (absent table key apart) in
        ground (arith, same, no_later, k x, get-insert env key x value)
    | inr other ↦ ground (arith, other, k x, get-insert env key x value)
  ],
)

set_each-Sets :
    (env : Variables) (table : List (Text × Text))
    → DistinctKeys table
    → Sets env table (set_each env table)
unfolding set_each set_var any get
set_each-Sets env [] d = (refl, λ k. refl)
set_each-Sets env ((key, value) ∷ table) (apart, d) = elim (Bool-cases (is_settable key value)) [
  | inr e ↦ rw (e, set_each) (ground (arith, e))
  | inl e ↦
      rw (e, set_each)
        (Sets-cons env key value table (set_each (insert env key value) table) e apart
          (set_each-Sets (insert env key value) table d))
]

-- Where the keys of the project's table are different, load_env_from_pyproject panics exactly if set_var refuses
-- some pair of the table; otherwise every variable that the table names has the table's value, in whatever
-- order the table is gone through, and every other variable the value it had.
pub load_env_from_pyproject-Sets :
    (from_str : Text → Option PyProject) (exists : Bool) (contents : Option Text) (env : Variables)
    → DistinctKeys (env_table from_str exists contents)
    → Sets env
        (env_table from_str exists contents)
        (load_env_from_pyproject from_str exists contents env)
unfolding load_env_from_pyproject
load_env_from_pyproject-Sets from_str exists contents env d =
    set_each-Sets env (env_table from_str exists contents) d
