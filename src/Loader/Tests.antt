-- ===== src/Loader/Tests.antt =====
-- A package with two files, and two files that share a cache file.
use tach_core.Base.{
  ℕ, keep_if, ◌≤◌, ◌≡◌, ==_refl, refl, chars, true, false, some, List, [], ◌∷◌, ◌++◌, contains, get,
  insert, get-insert, nat_eq, list_eq, list_beq, join_char, ends_with, get_last?, arith,
}
use tach_core.Discovery.Types.{FilePath}
use tach_core.Discovery.Walk.{extension, relative_to, strip_prefix, last_dot, file_name}
use tach_core.Loader.Paths.{
  path_to_module_name, cache_path, without_extension, stem, trim_end_matches,
}
use tach_core.Loader.Registry.{BytecodeEntry, insert_entry, len}
use tach_core.Loader.Compile.{
  File, Files, BytecodeCompiler, ok, mtime, exists, is_cache_stale, validate_magic, needs_compile,
  read_and_strip_header, compile, compile_one, register_compiled, compile_batch,
}
use tach_core.Loader.Cached.{WritesCache, compile-compile}
use tach_core.Loader.Batch.{
  runs, count_compiled, newest, is_source, first_batch, compile_batch-Registered,
}

program : Unit {0}
unfolding path_to_module_name cache_path without_extension stem trim_end_matches last_dot
    relative_to strip_prefix join_char ends_with list_beq get insert contains mtime exists
    is_cache_stale validate_magic needs_compile read_and_strip_header compile compile_one
    register_compiled compile_batch insert_entry extension file_name get_last?
program = tt

abbrev magic : List ℕ
magic = 0xcb ∷ 0x0d ∷ 0x0d ∷ 0x0a ∷ []

-- A header, and one byte of code.
abbrev pyc : List ℕ
pyc = magic ++ (0 ∷ 0 ∷ 0 ∷ 0 ∷ 0 ∷ 0 ∷ 0 ∷ 0 ∷ 0 ∷ 0 ∷ 0 ∷ 0 ∷ 99 ∷ [])

abbrev written : Files → FilePath → File
written files source = record { modified = mtime files source; content = pyc }

abbrev compiler : BytecodeCompiler
compiler = record {
  cache_dir = chars ".tach" ∷ chars "cache" ∷ [];
  project_root = [];
  expected_magic = some magic;
  py_compile = λ source cache files. some (insert files cache (written files source));
}

mtime-written :
    (files : Files) (source cache : FilePath)
    → mtime (insert files cache (written files source)) source ≤ mtime files source
unfolding mtime
mtime-written files source cache =
    ground (arith, get-insert files cache source (written files source))

compiler-WritesCache : WritesCache compiler magic
compiler-WritesCache source cache files after e =
    let same : insert files cache (written files source) ≡ after = ground (arith, e) in
    let f = written files source in
    (
      f,
      rw (← same) (ground (arith, get-insert files cache cache f, ==_refl cache)),
      rw (← same) (mtime-written files source cache),
      omega arith,
      refl,
    )

abbrev source : FilePath
source = chars "pkg" ∷ chars "__init__.py" ∷ []

abbrev files : Files
files = (source, record { modified = 7; content = [] }) ∷ []

abbrev after : Files
after =
    (source, record { modified = 7; content = [] })
    ∷ (
      chars ".tach" ∷ chars "cache" ∷ chars "pkg___init__.py.pyc" ∷ [],
      record { modified = 7; content = pyc },
    )
    ∷ []

compiled : compile compiler files source ≡ (after, ok (99 ∷ []))
unfolding program
compiled = refl

package_name : path_to_module_name [] source ≡ chars "pkg"
unfolding program
package_name = refl

-- A file in a directory and a file with an underscore in its place have one cache file.
shared_cache_file :
    cache_path [] [] (chars "a" ∷ chars "b.py" ∷ []) ≡ cache_path [] [] (chars "a_b.py" ∷ [])
unfolding program
shared_cache_file = refl

compile-compile_example :
    (needs_compile compiler after source ≡ false)
    × (compile compiler after source ≡ (after, ok (99 ∷ [])))
compile-compile_example =
    compile-compile compiler magic files after source (99 ∷ []) refl compiler-WritesCache compiled

abbrev entry : BytecodeEntry
entry = record { name = chars "pkg"; source_path = source; bytecode = 99 ∷ []; is_package = true }

found :
    get (compile_batch compiler (source ∷ []) (first_batch files)).registry.entries (chars "pkg")
    ≡ some entry
unfolding program
found = refl

-- A source that is compiled, and a file that is not Python.
abbrev batch : List FilePath
batch = source ∷ (chars "a.txt" ∷ []) ∷ []

compile_batch-Registered_example :
    (get (compile_batch compiler batch (first_batch files)).registry.entries (chars "pkg")
      ≡ newest compiler (chars "pkg") (runs compiler files (keep_if is_source batch)))
    × ((compile_batch compiler batch (first_batch files)).success_count
        ≡ count_compiled (runs compiler files (keep_if is_source batch)))
    × (len (compile_batch compiler batch (first_batch files)).registry
        ≤ (compile_batch compiler batch (first_batch files)).success_count)
    × ((compile_batch compiler batch (first_batch files)).success_count ≤ 2)
compile_batch-Registered_example = compile_batch-Registered compiler files batch (chars "pkg")
