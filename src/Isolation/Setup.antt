-- ===== src/Isolation/Setup.antt =====
-- setup_filesystem of src/isolation.rs, as its calls of the system. Paths are absolute; `show`
-- prints a number.
use tach_core.Base.{
  ℕ, Text, chars, Bool, false, ◌==◌, Option, none, some, List, [], ◌∷◌, ◌++◌, if◌then◌else◌, nat_eq,
  list_eq,
}
use tach_core.Base.Calls.{Program, call_each, return}
use tach_core.Discovery.Types.{FilePath}

pub data Call : Type 0 where
  -- CLONE_NEWNS and CLONE_NEWNET
  unshare : Call
  mount_private : Call
  -- setup_loopback: `ip link set lo up`, which fails if it is not found or its status is not 0
  ip_link_up : Call
  create_dir_all : (dir : FilePath) → Call
  bind_root : Call
  remount_read_only : Call
  mount_tmpfs : (target : FilePath) → Call
  mount_overlay : (lower upper work target : FilePath) → Call

abbrev pub tmp : FilePath
tmp = chars "tmp" ∷ []

module _ (show : ℕ → Text) where
  abbrev pub base : ℕ → FilePath
  base worker_id = chars "run" ∷ chars "tach" ∷ (chars "worker_" ++ show worker_id) ∷ []

  abbrev pub inside : ℕ → Text → FilePath
  inside worker_id name = base worker_id ++ name ∷ []

  abbrev pub tmp_overlay : ℕ → Call
  tmp_overlay worker_id =
      mount_overlay tmp (inside worker_id (chars "tmp_upper")) (inside worker_id (chars "tmp_work"))
        tmp

  abbrev pub project_overlay : ℕ → FilePath → Call
  project_overlay worker_id project_root =
      mount_overlay project_root (inside worker_id (chars "proj_upper"))
        (inside worker_id (chars "proj_work")) project_root

  -- The calls, each of which ends the function if it fails.
  unfoldable pub setup_calls : ℕ → FilePath → List Call
  setup_calls worker_id project_root =
      unshare
      ∷ mount_private
      ∷ ip_link_up
      ∷ create_dir_all (base worker_id)
      ∷ bind_root
      ∷ remount_read_only
      ∷ mount_tmpfs (base worker_id)
      ∷ create_dir_all (inside worker_id (chars "tmp_upper"))
      ∷ create_dir_all (inside worker_id (chars "tmp_work"))
      ∷ create_dir_all (inside worker_id (chars "proj_upper"))
      ∷ create_dir_all (inside worker_id (chars "proj_work"))
      ∷ tmp_overlay worker_id
      ∷ project_overlay worker_id project_root
      ∷ []

  -- TACH_NO_ISOLATION is the variable, if it is set.
  unfoldable pub setup_filesystem : Option Text → ℕ → FilePath → Program Call (Unit {0})
  unfolding setup_calls
  setup_filesystem no_isolation worker_id project_root =
      let skip : Bool = elim no_isolation [ none ↦ false | some v ↦ v == chars "1" ] in
      if skip then return tt else call_each (setup_calls worker_id project_root)
