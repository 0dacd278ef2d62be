-- ===== src/Loader/Registry.antt =====
-- The registry of compiled modules (src/loader.rs, ModuleRegistry). DashMap is an association list.
use tach_core.Base.{
  ℕ, Text, Bool, Option, none, some, List, [], length, is_empty, Assoc, get, insert, nat_eq,
  list_eq,
}
use tach_core.Discovery.Types.{FilePath}

pub record BytecodeEntry : Type 0 where
  pub name : Text
  pub source_path : FilePath
  pub bytecode : List ℕ
  pub is_package : Bool

pub record ModuleRegistry : Type 0 where
  pub entries : Assoc Text BytecodeEntry

abbrev pub empty_registry : ModuleRegistry
empty_registry = record { entries = [] }

unfoldable pub insert_entry : ModuleRegistry → BytecodeEntry → ModuleRegistry
insert_entry r e = record { entries = insert r.entries e.name e }

unfoldable pub get_bytecode : ModuleRegistry → Text → Option (List ℕ)
get_bytecode r name = elim (get r.entries name) [ none ↦ none | some e ↦ some e.bytecode ]

unfoldable pub get_source_path : ModuleRegistry → Text → Option FilePath
get_source_path r name = elim (get r.entries name) [ none ↦ none | some e ↦ some e.source_path ]

unfoldable pub is_package : ModuleRegistry → Text → Option Bool
is_package r name = elim (get r.entries name) [ none ↦ none | some e ↦ some e.is_package ]

abbrev pub len : ModuleRegistry → ℕ
len r = length r.entries

abbrev pub has_no_entry : ModuleRegistry → Bool
has_no_entry r = is_empty r.entries
