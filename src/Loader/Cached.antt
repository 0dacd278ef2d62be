-- ===== src/Loader/Cached.antt =====
-- A second compilation uses the cache (src/loader.rs, compile).
use mathlib.Core.Path.{subst}
use tach_core.Base.{
  ap, sym, ◌∙◌, ℕ, ◌≡◌, ◌≤◌, ==_iff, refl, inl, inr, true, false, some, List, length, take,
  Bool-cases, Option-cases, get, nat_eq, list_eq, arith,
}
use tach_core.Discovery.Types.{FilePath}
use tach_core.Loader.Paths.{cache_path}
use tach_core.Loader.Compile.{
  File, Files, ok, BytecodeCompiler, mtime, exists, is_cache_stale, validate_magic, needs_compile,
  read_and_strip_header, compile,
}

-- What py_compile does when it succeeds: the cache file is not older than the source, and its
-- content starts with the interpreter's magic number.
abbrev pub WritesCache : BytecodeCompiler → List ℕ → Type 0
WritesCache c magic =
    (source cache : FilePath) (files after : Files)
    → c.py_compile source cache files ≡ some after
    → (f : File) × (get after cache ≡ some f)
      × (mtime after source ≤ f.modified)
      × (16 ≤ length f.content)
      × (take 4 f.content ≡ magic)

written-needs_compile :
    (c : BytecodeCompiler) (magic : List ℕ) (source : FilePath) (files : Files) (f : File)
    → c.expected_magic ≡ some magic
    → get files (cache_path c.cache_dir c.project_root source) ≡ some f
    → mtime files source ≤ f.modified
    → 16 ≤ length f.content
    → take 4 f.content ≡ magic
    → needs_compile c files source ≡ false
unfolding needs_compile is_cache_stale validate_magic exists mtime
written-needs_compile c magic source files f em e newer long m =
    ground (arith, em, e, newer, long, m, ==_iff (take 4 f.content) magic)

compile-cached :
    (c : BytecodeCompiler) (files : Files) (source : FilePath)
    → needs_compile c files source ≡ false
    → compile c files source
      ≡ (files, read_and_strip_header files (cache_path c.cache_dir c.project_root source))
unfolding compile
compile-cached c files source h = rw h refl

-- What a compilation that calls the interpreter gives.
compile-compiled :
    (c : BytecodeCompiler) (files after : Files) (source : FilePath) (bytes : List ℕ)
    → needs_compile c files source ≡ true
    → compile c files source ≡ (after, ok bytes)
    → (c.py_compile source (cache_path c.cache_dir c.project_root source) files ≡ some after)
      × (read_and_strip_header after (cache_path c.cache_dir c.project_root source) ≡ ok bytes)
unfolding compile
compile-compiled c files after source bytes need h =
    let cache = cache_path c.cache_dir c.project_root source in
    elim (Option-cases (c.py_compile source cache files)) [
      | inl e ↦ absurd (ground (arith, need, e, h))
      | inr (written, e) ↦
          let same : written ≡ after = ground (arith, need, e, h) in
          (rw (← same) e, rw (← same) (ground (arith, need, e, h)))
    ]

-- If the interpreter writes cache files that are not older than their sources, hold at least a
-- header and start with its magic number, then a source that has been compiled is not compiled again:
-- the next compilation, of the files as they are left, gives the same bytecode and changes no file.
pub compile-compile :
    (c : BytecodeCompiler) (magic : List ℕ) (files after : Files) (source : FilePath)
    (bytes : List ℕ)
    → c.expected_magic ≡ some magic
    → WritesCache c magic
    → compile c files source ≡ (after, ok bytes)
    → (needs_compile c after source ≡ false) × (compile c after source ≡ (after, ok bytes))
compile-compile c magic files after source bytes em writes h =
    let cache = cache_path c.cache_dir c.project_root source in
    elim (Bool-cases (needs_compile c files source)) [
      | inr fresh ↦
          let q = compile-cached c files source fresh in
          let same : files ≡ after = ap (λ p. p.0) (sym q ∙ h) in
          (rw (← same) fresh, subst (λ f. compile c f source ≡ (after, ok bytes)) same h)
      | inl need ↦
          let (written, bytecode) = compile-compiled c files after source bytes need h in
          let (f, e, newer, long, m) = writes source cache files after written in
          let kept = written-needs_compile c magic source after f em e newer long m in
          (kept, compile-cached c after source kept ∙ ap (λ r. (after, r)) bytecode)
    ]
