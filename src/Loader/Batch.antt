-- ===== src/Loader/Batch.antt =====
-- What a batch registers (src/loader.rs, compile_batch).
use mathlib.Core.Path.{subst}
use tach_core.Base.{
  ℕ, suc, refl, sym, ◌∙◌, ◌+◌, ◌≤◌, ◌≡◌, ◌==◌, Text, Option, none, some, List, [], ◌∷◌, length,
  keep_if, if◌then◌else◌, Bool, true, false, Bool-cases, Option-cases, inl, inr, Assoc, get, insert,
  get-insert, nat_eq, list_eq, arith,
}
use tach_core.Discovery.Types.{FilePath}
use tach_core.Discovery.Walk.{extension, is_py}
use tach_core.Loader.Paths.{path_to_module_name}
use tach_core.Loader.Registry.{BytecodeEntry, insert_entry, empty_registry, len}
use tach_core.Loader.Compile.{
  Files, Loaded, err, ok, BytecodeCompiler, Batch, entry_of, register_compiled, compile,
  compile_one, compile_batch,
}

length-insert :
    {V : Type 0} (m : Assoc Text V) (k : Text) (v : V) → length (insert m k v) ≤ suc (length m)
unfolding insert
length-insert [] k v = omega arith
length-insert ((j, w) ∷ m) k v = ground (arith, length-insert m k v)

-- What the compilations of some files give, one after the other, each on the files that the ones
-- before it have left.
abbrev pub runs : BytecodeCompiler → Files → List FilePath → List (FilePath × Loaded (List ℕ))
runs c files [] = []
runs c files (file ∷ rest) = (file, (compile c files file).1) ∷ runs c (compile c files file).0 rest

abbrev pub count_compiled : List (FilePath × Loaded (List ℕ)) → ℕ
count_compiled [] = 0
count_compiled ((file, err x) ∷ rest) = count_compiled rest
count_compiled ((file, ok bytes) ∷ rest) = suc (count_compiled rest)

-- The entry of the last file with a module name that was compiled.
abbrev pub newest :
    BytecodeCompiler → Text → List (FilePath × Loaded (List ℕ)) → Option BytecodeEntry
newest c name [] = none
newest c name ((file, err x) ∷ rest) = newest c name rest
newest c name ((file, ok bytes) ∷ rest) = elim (newest c name rest) [
  | some later ↦ some later
  | none ↦
      if path_to_module_name c.project_root file == name then some (entry_of c file bytes) else none
]

abbrev or_before : Option BytecodeEntry → Option BytecodeEntry → Option BytecodeEntry
or_before (some e) before = some e
or_before none before = before

or_before-none : (found : Option BytecodeEntry) → or_before found none ≡ found
or_before-none (some e) = refl
or_before-none none = refl

-- A batch from `s` to `t` has registered what these runs give.
abbrev Onto : BytecodeCompiler → List (FilePath × Loaded (List ℕ)) → Batch → Batch → Type 0
Onto c rs s t =
    ((name : Text)
      → get t.registry.entries name ≡ or_before (newest c name rs) (get s.registry.entries name))
    × (t.success_count ≡ s.success_count + count_compiled rs)
    × (len t.registry ≤ len s.registry + count_compiled rs)

register_compiled-Onto :
    (c : BytecodeCompiler) (s t : Batch) (file : FilePath) (after : Files)
    (result : Loaded (List ℕ)) (rest : List (FilePath × Loaded (List ℕ)))
    → Onto c rest (register_compiled c file s after result) t
    → Onto c ((file, result) ∷ rest) s t
unfolding register_compiled insert_entry
register_compiled-Onto c s t file after (err x) rest h = h
register_compiled-Onto c s t file after (ok bytes) rest (found, counted, fits) = (
  λ name.
      let put =
        get-insert s.registry.entries (path_to_module_name c.project_root file) name
          (entry_of c file bytes) in
      elim (Option-cases (newest c name rest)) [
        | inr (e, later) ↦ ground (arith, found name, later)
        | inl last ↦ elim (Bool-cases (path_to_module_name c.project_root file == name)) [
          | inl same ↦ ground (arith, found name, last, same, put)
          | inr differs ↦ ground (arith, found name, last, differs, put)
        ]
      ],
  omega (arith, counted),
  omega (
    arith,
    fits,
    length-insert s.registry.entries (path_to_module_name c.project_root file)
        (entry_of c file bytes),
  ),
)

abbrev pub is_source : FilePath → Bool
is_source file = is_py (extension file)

files-register_compiled :
    (c : BytecodeCompiler) (s : Batch) (file : FilePath) (after : Files) (result : Loaded (List ℕ))
    → (register_compiled c file s after result).files ≡ after
unfolding register_compiled
files-register_compiled c s file after (err x) = refl
files-register_compiled c s file after (ok bytes) = refl

compile_one-py :
    (c : BytecodeCompiler) (s : Batch) (file : FilePath)
    → is_py (extension file) ≡ true
    → compile_one c file s
      ≡ register_compiled c file s (compile c s.files file).0 (compile c s.files file).1
unfolding compile_one
compile_one-py c s file py = rw py refl

compile_one-other :
    (c : BytecodeCompiler) (s : Batch) (file : FilePath)
    → is_py (extension file) ≡ false
    → compile_one c file s ≡ s
unfolding compile_one
compile_one-other c s file other = rw other refl

keep_if-py :
    (file : FilePath) (rest : List FilePath)
    → is_py (extension file) ≡ true
    → keep_if is_source (file ∷ rest) ≡ file ∷ keep_if is_source rest
unfolding keep_if
keep_if-py file rest py = rw py refl

keep_if-other :
    (file : FilePath) (rest : List FilePath)
    → is_py (extension file) ≡ false
    → keep_if is_source (file ∷ rest) ≡ keep_if is_source rest
unfolding keep_if
keep_if-other file rest other = rw other refl

compile_batch-Onto :
    (c : BytecodeCompiler) (files : List FilePath) (s : Batch)
    → Onto c (runs c s.files (keep_if is_source files)) s (compile_batch c files s)
unfolding compile_batch keep_if
compile_batch-Onto c [] s = (λ name. refl, omega arith, omega arith)
compile_batch-Onto c (file ∷ rest) s = elim (Bool-cases (is_py (extension file))) [
  | inr other ↦
      subst (λ l. Onto c (runs c s.files l) s (compile_batch c (file ∷ rest) s))
        (sym (keep_if-other file rest other))
        (subst (λ u. Onto c (runs c s.files (keep_if is_source rest)) s (compile_batch c rest u))
          (sym (compile_one-other c s file other)) (compile_batch-Onto c rest s))
  | inl py ↦
      let q = compile c s.files file in
      let t = register_compiled c file s q.0 q.1 in
      let sources = keep_if is_source rest in
      subst (λ l. Onto c (runs c s.files l) s (compile_batch c (file ∷ rest) s))
        (sym (keep_if-py file rest py))
        (subst (λ u. Onto c ((file, q.1) ∷ runs c q.0 sources) s (compile_batch c rest u))
          (sym (compile_one-py c s file py))
          (register_compiled-Onto c s (compile_batch c rest t) file q.0 q.1 (runs c q.0 sources) (
            subst (λ l. Onto c (runs c l sources) t (compile_batch c rest t))
              (files-register_compiled c s file q.0 q.1) (compile_batch-Onto c rest t))))
]

count_cons :
    (file : FilePath) (q : Loaded (List ℕ)) (rs : List (FilePath × Loaded (List ℕ))) (n : ℕ)
    → count_compiled rs ≤ n
    → count_compiled ((file, q) ∷ rs) ≤ suc n
count_cons file (err x) rs n h = omega (arith, h)
count_cons file (ok bytes) rs n h = omega (arith, h)

length-keep_if :
    (p : FilePath → Bool) (files : List FilePath) → length (keep_if p files) ≤ length files
unfolding keep_if
length-keep_if p [] = omega arith
length-keep_if p (file ∷ rest) = ground (arith, length-keep_if p rest)

count_compiled_le :
    (c : BytecodeCompiler) (files : Files) (sources : List FilePath)
    → count_compiled (runs c files sources) ≤ length sources
count_compiled_le c files [] = omega arith
count_compiled_le c files (file ∷ rest) =
    let q = compile c files file in
    count_cons file q.1 (runs c q.0 rest) (length rest) (count_compiled_le c q.0 rest)

-- What `compile_batch` starts from, with an empty registry.
abbrev pub first_batch : Files → Batch
first_batch files = record { files = files; registry = empty_registry; success_count = 0 }

-- After a batch on an empty registry, what is found under any name is the entry of the last Python file of
-- the batch with that module name whose compilation succeeds, and nothing if there is none; the batch
-- counts exactly the compilations that succeed, of its Python files one after the other, each on the files
-- that the ones before it have left; and the registry has at most that many entries, no more than the
-- batch has files.
pub compile_batch-Registered :
    (c : BytecodeCompiler) (files : Files) (sources : List FilePath) (name : Text)
    → (get (compile_batch c sources (first_batch files)).registry.entries name
        ≡ newest c name (runs c files (keep_if is_source sources)))
      × ((compile_batch c sources (first_batch files)).success_count
          ≡ count_compiled (runs c files (keep_if is_source sources)))
      × (len (compile_batch c sources (first_batch files)).registry
          ≤ (compile_batch c sources (first_batch files)).success_count)
      × ((compile_batch c sources (first_batch files)).success_count ≤ length sources)
unfolding get
compile_batch-Registered c files sources name =
    let (found, counted, fits) = compile_batch-Onto c sources (first_batch files) in
    let few = count_compiled_le c files (keep_if is_source sources) in
    (
      found name ∙ or_before-none (newest c name (runs c files (keep_if is_source sources))),
      omega (arith, counted),
      omega (arith, counted, fits),
      omega (arith, counted, few, length-keep_if is_source sources),
    )
