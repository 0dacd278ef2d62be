-- ===== src/Loader/Compile.antt =====
-- The BytecodeCompiler of src/loader.rs: the persistent cache and the batch.
use tach_core.Base.{
  ℕ, suc, chars, Bool, true, false, not, ◌||◌, ◌==◌, Option, none, some, List, [], ◌∷◌, length,
  take, drop, ltb, if◌then◌else◌, Assoc, get, nat_eq, list_eq,
}
use tach_core.Discovery.Types.{FilePath}
use tach_core.Discovery.Walk.{extension, file_name, is_py}
use tach_core.Loader.Paths.{cache_path, path_to_module_name}
use tach_core.Loader.Registry.{BytecodeEntry, ModuleRegistry, insert_entry}

abbrev pub pyc_header_size : ℕ
pyc_header_size = 16

pub record File : Type 0 where
  pub modified : ℕ
  pub content : List ℕ

abbrev pub Files : Type 0
Files = Assoc FilePath File

pub data LoadError : Type 0 where
  unreadable : LoadError
  too_short : LoadError
  compilation_failed : LoadError

pub data Loaded {ℓ} (V : Type ℓ) : Type ℓ where
  err : LoadError → Loaded V
  ok : V → Loaded V

-- `py_compile` runs the interpreter on a source and a cache file; `none` is a failed compilation,
-- otherwise the files are those after it.
pub record BytecodeCompiler : Type 0 where
  pub cache_dir : FilePath
  pub project_root : FilePath
  pub expected_magic : Option (List ℕ)
  pub py_compile : FilePath → FilePath → Files → Option Files

-- The time of a file, the epoch if it is not there.
unfoldable pub mtime : Files → FilePath → ℕ
mtime files path = elim (get files path) [ none ↦ 0 | some f ↦ f.modified ]

unfoldable pub exists : Files → FilePath → Bool
exists files path = elim (get files path) [ none ↦ false | some f ↦ true ]

unfoldable pub is_cache_stale : Files → FilePath → FilePath → Bool
unfolding exists mtime
is_cache_stale files source cache =
    not (exists files cache) || ltb (mtime files cache) (mtime files source)

unfoldable pub validate_magic : BytecodeCompiler → Files → FilePath → Loaded Bool
validate_magic c files pyc = elim (get files pyc) [
  | none ↦ err unreadable
  | some f ↦ if ltb (length f.content) 4 then err unreadable else elim (c.expected_magic) [
    | none ↦ ok true
    | some expected ↦ ok (take 4 f.content == expected)
  ]
]

unfoldable pub read_and_strip_header : Files → FilePath → Loaded (List ℕ)
read_and_strip_header files pyc = elim (get files pyc) [
  | none ↦ err unreadable
  | some f ↦
      if ltb (length f.content) pyc_header_size
      then err too_short
      else ok (drop pyc_header_size f.content)
]

-- Whether the cache file is used as it is: an unreadable one is compiled again.
unfoldable pub needs_compile : BytecodeCompiler → Files → FilePath → Bool
unfolding is_cache_stale validate_magic
needs_compile c files source =
    let cache = cache_path c.cache_dir c.project_root source in
    if is_cache_stale files source cache
    then true
    else elim (validate_magic c files cache) [ ok matches ↦ not matches | err e ↦ true ]

unfoldable pub compile : BytecodeCompiler → Files → FilePath → Files × Loaded (List ℕ)
unfolding needs_compile read_and_strip_header
compile c files source =
    let cache = cache_path c.cache_dir c.project_root source in
    if needs_compile c files source
    then elim (c.py_compile source cache files) [
      | none ↦ (files, err compilation_failed)
      | some after ↦ (after, read_and_strip_header after cache)
    ]
    else (files, read_and_strip_header files cache)

-- The state of a batch: the files, the registry, and the count of successes.
pub record Batch : Type 0 where
  pub files : Files
  pub registry : ModuleRegistry
  pub success_count : ℕ

abbrev pub entry_of : BytecodeCompiler → FilePath → List ℕ → BytecodeEntry
entry_of c file bytecode = record {
  name = path_to_module_name c.project_root file;
  source_path = file;
  bytecode = bytecode;
  is_package = elim (file_name file) [ none ↦ false | some n ↦ n == chars "__init__.py" ];
}

-- A compiled file is registered, a failed one is passed over.
unfoldable pub register_compiled :
    BytecodeCompiler → FilePath → Batch → Files → Loaded (List ℕ) → Batch
register_compiled c file s after (err e) = record s { files = after }
register_compiled c file s after (ok bytecode) = record {
  files = after;
  registry = insert_entry s.registry (entry_of c file bytecode);
  success_count = suc s.success_count;
}

unfoldable pub compile_one : BytecodeCompiler → FilePath → Batch → Batch
unfolding compile register_compiled
compile_one c file s =
    let (after, result) = compile c s.files file in
    if is_py (extension file) then register_compiled c file s after result else s

unfoldable pub compile_batch : BytecodeCompiler → List FilePath → Batch → Batch
unfolding compile_one
compile_batch c [] s = s
compile_batch c (file ∷ rest) s = compile_batch c rest (compile_one c file s)
