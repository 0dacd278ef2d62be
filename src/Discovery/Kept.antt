-- ===== src/Discovery/Kept.antt =====
-- Which modules `discover` keeps (src/discovery.rs): those of the walk's test files that parse with
-- some content, and no others.
use tach_core.Base.{
  ℕ, Bool, true, ◌==◌, ==_iff, Option, some, List, [], ◌∷◌, map, keep_if, ◌≡◌, arith, All, All-map,
  any, contains, contains_self, contains_of_tail, Bool-cases, Option-cases, inl, inr, list_eq,
  nat_eq,
}
use tach_core.Discovery.Types.{TestModule, FilePath}
use tach_core.Discovery.Ast.{Stmt}
use tach_core.Discovery.Module.{parse_module}
use tach_core.Discovery.Walk.{is_test_file, relative_to, has_content, parse_all, walked, discover}

abbrev pub has_path : FilePath → TestModule → Bool
has_path path m = m.path == path

module _ (is_file : FilePath → Bool) (parse : FilePath → Option TestModule) (root : FilePath) where
  -- `m` is what the test file `p` of the walk parses to.
  pub record IsKept (paths : List FilePath) (m : TestModule) : Type 0 where
    pub file : FilePath
    pub in_walk : contains paths file ≡ true
    pub test_file : is_test_file is_file file ≡ true
    pub parses : parse (relative_to root file) ≡ some m
    pub content : has_content m ≡ true

  abbrev kept : List FilePath → List TestModule
  kept paths = parse_all parse (map (relative_to root) (keep_if (is_test_file is_file) paths))

  IsKept-tail :
      (path : FilePath) (paths : List FilePath) (m : TestModule)
      → IsKept paths m
      → IsKept (path ∷ paths) m
  IsKept-tail path paths m k = record {
    file = k.file;
    in_walk = contains_of_tail path k.file paths k.in_walk;
    test_file = k.test_file;
    parses = k.parses;
    content = k.content;
  }

  pub kept-IsKept : (paths : List FilePath) → All (IsKept paths) (kept paths)
  unfolding parse_all keep_if
  kept-IsKept [] = tt
  kept-IsKept (p ∷ paths) =
      let rest =
        All-map (IsKept paths) (IsKept (p ∷ paths)) (kept paths) (IsKept-tail p paths)
          (kept-IsKept paths) in
      elim (Bool-cases (is_test_file is_file p)) [
        | inr other ↦ rw other rest
        | inl t ↦ elim (Option-cases (parse (relative_to root p))) [
          | inl fails ↦ rw (t, fails) rest
          | inr (m, e) ↦ elim (Bool-cases (has_content m)) [
            | inr blank ↦ rw (t, e, blank) rest
            | inl full ↦
                rw (t, e, full)
                  (
                    record {
                      file = p;
                      in_walk = contains_self p paths;
                      test_file = t;
                      parses = e;
                      content = full;
                    },
                    rest,
                  )
          ]
        ]
      ]

  pub any-kept :
      (paths : List FilePath) (p : FilePath) (m : TestModule)
      → contains paths p ≡ true
      → is_test_file is_file p ≡ true
      → parse (relative_to root p) ≡ some m
      → has_content m ≡ true
      → any (has_path m.path) (kept paths) ≡ true
  unfolding parse_all keep_if contains any
  any-kept [] p m c t e full = ground arith
  any-kept (q ∷ paths) p m c t e full = elim (Bool-cases (q == p)) [
    | inl same ↦ ground (arith, ==_iff q p, same, ==_iff m.path m.path)
    | inr other ↦ ground (arith, other, any-kept paths p m)
  ]

module _ (read_to_string : FilePath → Option (List ℕ))
    (parse_program : List ℕ → FilePath → Option (List Stmt)) where
  path-parse_module :
      (path : FilePath) (m : TestModule)
      → parse_module read_to_string parse_program path ≡ some m
      → m.path ≡ path
  unfolding parse_module
  path-parse_module path m e = ground arith

-- Each module of a discovery is what a test file of the walk parses to, read under its path
-- relative to the root, and has tests or fixtures.
pub discover-IsKept :
    (is_file : FilePath → Bool) (read_to_string : FilePath → Option (List ℕ))
    (parse_program : List ℕ → FilePath → Option (List Stmt)) (root : FilePath)
    (entries : List (Option FilePath))
    → All
        (IsKept is_file (parse_module read_to_string parse_program) root (walked entries))
        (discover is_file read_to_string parse_program root entries).modules
unfolding discover
discover-IsKept is_file read_to_string parse_program root entries =
    kept-IsKept is_file (parse_module read_to_string parse_program) root (walked entries)

-- Every test file of the walk that parses, read under its path relative to the root, to a module
-- with tests or fixtures has a module under that relative path in the discovery.
pub any-discover :
    (is_file : FilePath → Bool) (read_to_string : FilePath → Option (List ℕ))
    (parse_program : List ℕ → FilePath → Option (List Stmt)) (root : FilePath)
    (entries : List (Option FilePath)) (p : FilePath) (m : TestModule)
    → contains (walked entries) p ≡ true
    → is_test_file is_file p ≡ true
    → parse_module read_to_string parse_program (relative_to root p) ≡ some m
    → has_content m ≡ true
    → any
        (has_path (relative_to root p))
        (discover is_file read_to_string parse_program root entries).modules
      ≡ true
unfolding discover
any-discover is_file read_to_string parse_program root entries p m c t e full =
    rw (← path-parse_module read_to_string parse_program (relative_to root p) m e) (
      any-kept is_file (parse_module read_to_string parse_program) root (walked entries) p m c t e
        full)
