-- ===== src/Environment/Sites.antt =====
-- Which site-packages directory is found (src/environment.rs).
use tach_core.Base.{
  ◌≡◌, refl, sym, ◌∙◌, ap, Text, chars, Bool, true, false, ◌&&◌, Option, none, some, List, [], ◌∷◌,
  ◌++◌, append-nil, if◌then◌else◌, Bool-cases, Option-cases, inl, inr, starts_with, arith,
}
use tach_core.Discovery.Types.{FilePath}
use tach_core.Environment.Venv.{
  Disk, lib_of, site_of, find_in_entries, find_site_packages_in_venv, find_local, or_else_find,
  find_site_packages,
}

abbrev first : List FilePath → Option FilePath
first [] = none
first (p ∷ ps) = some p

-- Whether an entry of a lib directory has packages.
abbrev pub has_site : Disk → FilePath → Text → Bool
has_site disk lib name =
    disk.is_dir (lib ++ name ∷ [])
    && (starts_with name (chars "python") && disk.exists (site_of lib name))

-- All the site-packages directories, in the order of the entries.
abbrev pub sites_in : Disk → FilePath → List (Option Text) → List FilePath
sites_in disk lib [] = []
sites_in disk lib (none ∷ entries) = sites_in disk lib entries
sites_in disk lib (some name ∷ entries) =
    let rest = sites_in disk lib entries in
    if has_site disk lib name then site_of lib name ∷ rest else rest

abbrev pub sites_of : Disk → FilePath → List FilePath
sites_of disk venv =
    if disk.exists (lib_of venv)
    then (elim (disk.read_dir (lib_of venv)) [
      | none ↦ []
      | some entries ↦ sites_in disk (lib_of venv) entries
    ])
    else []

-- The environments, the one of the variable first.
abbrev pub environments : Option FilePath → FilePath → List FilePath
environments none root = (root ++ chars ".venv" ∷ []) ∷ (root ++ chars "venv" ∷ []) ∷ []
environments (some v) root = v ∷ (root ++ chars ".venv" ∷ []) ∷ (root ++ chars "venv" ∷ []) ∷ []

abbrev pub all_sites : Disk → List FilePath → List FilePath
all_sites disk [] = []
all_sites disk (v ∷ vs) = sites_of disk v ++ all_sites disk vs

find_in_entries-first :
    (disk : Disk) (lib : FilePath) (entries : List (Option Text))
    → find_in_entries disk lib entries ≡ first (sites_in disk lib entries)
unfolding find_in_entries
find_in_entries-first disk lib [] = refl
find_in_entries-first disk lib (none ∷ entries) = find_in_entries-first disk lib entries
find_in_entries-first disk lib (some name ∷ entries) =
    ground (arith, find_in_entries-first disk lib entries)

find_site_packages_in_venv-first :
    (disk : Disk) (venv : FilePath)
    → find_site_packages_in_venv disk venv ≡ first (sites_of disk venv)
unfolding find_site_packages_in_venv
find_site_packages_in_venv-first disk venv = elim (Bool-cases (disk.exists (lib_of venv))) [
  | inr e ↦ ground (arith, e)
  | inl e ↦ elim (Option-cases (disk.read_dir (lib_of venv))) [
    | inl f ↦ ground (arith, e, f)
    | inr (entries, f) ↦ ground (arith, e, f, find_in_entries-first disk (lib_of venv) entries)
  ]
]

find_local-first :
    (disk : Disk) (venv : FilePath)
    → (disk.exists (lib_of venv) ≡ true → disk.exists venv ≡ true)
    → find_local disk venv ≡ first (sites_of disk venv)
unfolding find_local
find_local-first disk venv parent = elim (Bool-cases (disk.exists venv)) [
  | inl e ↦ ground (arith, e, find_site_packages_in_venv-first disk venv)
  | inr e ↦
      let no_lib : disk.exists (lib_of venv) ≡ false =
        elim (Bool-cases (disk.exists (lib_of venv))) [
          | inl f ↦ absurd (ground (arith, e, parent f))
          | inr f ↦ f
        ] in
      ground (arith, e, no_lib)
]

first-append : (xs ys : List FilePath) → or_else_find (first xs) (first ys) ≡ first (xs ++ ys)
unfolding or_else_find
first-append [] ys = refl
first-append (x ∷ xs) ys = refl

find_two :
    (disk : Disk) (a b : FilePath)
    → ((path : FilePath) (name : Text)
        → disk.exists (path ++ name ∷ []) ≡ true
        → disk.exists path ≡ true)
    → or_else_find (find_local disk a) (find_local disk b) ≡ first (all_sites disk (a ∷ b ∷ []))
find_two disk a b parents =
    ap (λ o. or_else_find o (find_local disk b)) (find_local-first disk a (parents a (chars "lib")))
    ∙ ap (or_else_find (first (sites_of disk a)))
        (find_local-first disk b (parents b (chars "lib")))
    ∙ ap (or_else_find (first (sites_of disk a))) (ap first (sym (append-nil (sites_of disk b))))
    ∙ first-append (sites_of disk a) (all_sites disk (b ∷ []))

-- Where what exists has a directory that exists, find_site_packages gives the first, if any, of all the
-- site-packages directories in a directory of lib whose name begins with "python": those of the environment
-- that VIRTUAL_ENV names come first, then those of .venv, then those of venv, each in the order of the
-- directory's entries.
pub find_site_packages-first :
    (disk : Disk) (virtual_env : Option FilePath) (root : FilePath)
    → ((path : FilePath) (name : Text)
        → disk.exists (path ++ name ∷ []) ≡ true
        → disk.exists path ≡ true)
    → find_site_packages disk virtual_env root
      ≡ first (all_sites disk (environments virtual_env root))
unfolding find_site_packages or_else_find
find_site_packages-first disk none root parents =
    find_two disk (root ++ chars ".venv" ∷ []) (root ++ chars "venv" ∷ []) parents
find_site_packages-first disk (some v) root parents =
    let two = find_two disk (root ++ chars ".venv" ∷ []) (root ++ chars "venv" ∷ []) parents in
    ap (or_else_find (find_site_packages_in_venv disk v)) two
    ∙ ap (λ o. or_else_find o (first (all_sites disk (environments none root))))
        (find_site_packages_in_venv-first disk v)
    ∙ first-append (sites_of disk v) (all_sites disk (environments none root))
