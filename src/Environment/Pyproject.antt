-- ===== src/Environment/Pyproject.antt =====
-- load_env_from_pyproject (src/config.rs), and the set_var of the standard library, which panics for some
-- keys and values.
use tach_core.Base.{
  Text, Bool, not, ◌&&◌, ◌||◌, ◌==◌, Option, none, some, List, [], ◌∷◌, any, is_empty,
  if◌then◌else◌, Assoc, insert, nat_eq, list_eq,
}

pub data OutputFormat : Type 0 where
  human : OutputFormat
  json : OutputFormat

pub record ToolConfig : Type 0 where
  pub pytest_env : Option (List (Text × Text))

pub record PyProject : Type 0 where
  pub tool : Option ToolConfig

abbrev pub Variables : Type 0
Variables = Assoc Text Text

-- A key is not empty, and has no `=` and no NUL; a value has no NUL.
unfoldable pub is_settable : Text → Text → Bool
unfolding any
is_settable key value =
    not (is_empty key)
    && (not (any (λ c. (c == 0x3d) || (c == 0)) key) && not (any (λ c. c == 0) value))

-- std::env::set_var; `none` is a panic.
unfoldable pub set_var : Variables → Text → Text → Option Variables
unfolding is_settable insert
set_var env key value = if is_settable key value then some (insert env key value) else none

-- The loop over the table, in the order in which the hash map gives it.
unfoldable pub set_each : Variables → List (Text × Text) → Option Variables
unfolding set_var
set_each env [] = some env
set_each env ((key, value) ∷ table) = elim (set_var env key value) [
  | none ↦ none
  | some after ↦ set_each after table
]

-- The table that a project sets; there is none without the file, or if it cannot be read or parsed.
unfoldable pub env_table : (Text → Option PyProject) → Bool → Option Text → List (Text × Text)
env_table from_str exists contents =
    if exists
    then (elim contents [
      | none ↦ []
      | some text ↦ elim (from_str text) [
        | none ↦ []
        | some pyproject ↦ elim pyproject.tool [
          | none ↦ []
          | some tool ↦ elim tool.pytest_env [ none ↦ [] | some table ↦ table ]
        ]
      ]
    ])
    else []

-- By the parser and what the file system gives for pyproject.toml.
unfoldable pub load_env_from_pyproject :
    (Text → Option PyProject) → Bool → Option Text → Variables → Option Variables
unfolding set_each env_table
load_env_from_pyproject from_str exists contents env =
    set_each env (env_table from_str exists contents)
