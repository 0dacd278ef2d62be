-- ===== src/Isolation/Mounts.antt =====
-- Which mount a path lies in after the setup, and that a failed call ends it (src/isolation.rs).
use tach_core.Base.{
  ℕ, ◌≡◌, ◌∙◌, ap, Text, Bool, true, false, Option, none, some, List, [], ◌∷◌, ◌++◌, if◌then◌else◌,
  arith, Option-cases, inl, inr,
}
use tach_core.Base.Calls.{Kernel, Ended, done, failed, Sequence, call_each-Sequence}
use tach_core.Discovery.Types.{FilePath}
use tach_core.Discovery.Walk.{strip_prefix}
use tach_core.Isolation.Setup.{
  Call, unshare, mount_private, ip_link_up, create_dir_all, bind_root, remount_read_only,
  mount_tmpfs, mount_overlay, tmp, base, tmp_overlay, project_overlay, setup_calls,
  setup_filesystem,
}

abbrev pub is_below : FilePath → FilePath → Bool
is_below dir path = elim (strip_prefix path dir) [ none ↦ false | some rest ↦ true ]

-- What decides on the accesses of a path: the root as the host has it, another mount of the host, or
-- what a call of the setup has mounted.
pub data Governor : Type 0 where
  host_root : Governor
  host_mount : (point : FilePath) → Governor
  made_by : Call → Governor

-- The last one of the host's mount points, which are in the order of their mounting, above a path.
abbrev pub last_above : List FilePath → FilePath → Option FilePath
last_above [] path = none
last_above (point ∷ points) path = elim (last_above points path) [
  | some later ↦ some later
  | none ↦ if is_below point path then some point else none
]

abbrev pub host_governor : Option FilePath → Governor
host_governor none = host_root
host_governor (some point) = host_mount point

abbrev bound : Governor → Governor
bound host_root = made_by bind_root
bound (host_mount point) = host_mount point
bound (made_by c) = made_by c

abbrev remounted : Governor → Governor
remounted host_root = made_by remount_read_only
remounted (host_mount point) = host_mount point
remounted (made_by bind_root) = made_by remount_read_only
remounted (made_by unshare) = made_by unshare
remounted (made_by mount_private) = made_by mount_private
remounted (made_by ip_link_up) = made_by ip_link_up
remounted (made_by (create_dir_all d)) = made_by (create_dir_all d)
remounted (made_by remount_read_only) = made_by remount_read_only
remounted (made_by (mount_tmpfs t)) = made_by (mount_tmpfs t)
remounted (made_by (mount_overlay l u w t)) = made_by (mount_overlay l u w t)

-- What a call changes for a path. The bind of the root is recursive, so that the mounts below it are
-- there in its copy too; the remount changes the flags of the root's mount and of no mount below it;
-- and a new mount hides what was mounted at its point and below.
abbrev governor_after : Call → FilePath → Governor → Governor
governor_after unshare path g = g
governor_after mount_private path g = g
governor_after ip_link_up path g = g
governor_after (create_dir_all dir) path g = g
governor_after bind_root path g = bound g
governor_after remount_read_only path g = remounted g
governor_after (mount_tmpfs target) path g =
    if is_below target path then made_by (mount_tmpfs target) else g
governor_after (mount_overlay lower upper work target) path g =
    if is_below target path then made_by (mount_overlay lower upper work target) else g

abbrev pub governing_from : List Call → FilePath → Governor → Governor
governing_from [] path g = g
governing_from (c ∷ cs) path g = governing_from cs path (governor_after c path g)

-- What governs a path after some calls, on a host with these mount points below its root.
abbrev pub governing : List FilePath → List Call → FilePath → Governor
governing points cs path = governing_from cs path (host_governor (last_above points path))

-- The root after the setup, or the host's mount that is above the path.
abbrev pub root_or_host : Option FilePath → Governor
root_or_host none = made_by remount_read_only
root_or_host (some point) = host_mount point

-- The calls of a setup that has ended with or without an error.
setup_filesystem-Sequence :
    (show : ℕ → Text) (kernel : Kernel Call) (worker_id : ℕ) (project_root : FilePath)
    → Sequence
        (setup_calls show worker_id project_root)
        []
        (setup_filesystem show none worker_id project_root kernel [])
unfolding setup_filesystem
setup_filesystem-Sequence show kernel worker_id project_root =
    call_each-Sequence (setup_calls show worker_id project_root) kernel []

Sequence-done :
    {C : Type 0} (cs : List C) (r : Ended C (Unit {0})) (after : List C)
    → Sequence cs [] (r, after)
    → r ≡ done tt
    → after ≡ cs
Sequence-done cs (done u) after s h = s
Sequence-done cs (failed c) after s h = cc

Sequence-failed :
    {C : Type 0} (cs : List C) (r : Ended C (Unit {0})) (after : List C) (c : C)
    → Sequence cs [] (r, after)
    → r ≡ failed c
    → (front rest : List C) × (cs ≡ front ++ c ∷ rest) × (after ≡ front ++ c ∷ [])
Sequence-failed cs (done u) after c s h = cc
Sequence-failed cs (failed d) after c (front, rest, e, k) h =
    let same : d ≡ c = cc in (front, rest, rw (← same) e, rw (← same) k)

governing-setup_calls :
    (show : ℕ → Text) (worker_id : ℕ) (project_root path : FilePath) (points : List FilePath)
    → governing points (setup_calls show worker_id project_root) path ≡ (
        if is_below project_root path
        then made_by (project_overlay show worker_id project_root)
        else if is_below tmp path
        then made_by (tmp_overlay show worker_id)
        else if is_below (base show worker_id) path
        then made_by (mount_tmpfs (base show worker_id))
        else root_or_host (last_above points path))
unfolding setup_calls
governing-setup_calls show worker_id project_root path points =
    elim (Option-cases (last_above points path)) [
      | inl e ↦ ground (arith, e)
      | inr (point, e) ↦ ground (arith, e)
    ]

-- If the setup ends without an error, a path of the project lies in the overlay of the project,
-- another one of /tmp in the overlay of /tmp, and another one of the worker's directory in its tmpfs. Every
-- other path lies in the last mount that the host has above it, with the flags that it has on the host, and
-- only if there is none in the root that is mounted read-only.
pub setup_filesystem-governing :
    (show : ℕ → Text) (kernel : Kernel Call) (worker_id : ℕ) (project_root path : FilePath)
    (points : List FilePath)
    → (setup_filesystem show none worker_id project_root kernel []).0 ≡ done tt
    → governing points (setup_filesystem show none worker_id project_root kernel []).1 path ≡ (
        if is_below project_root path
        then made_by (project_overlay show worker_id project_root)
        else if is_below tmp path
        then made_by (tmp_overlay show worker_id)
        else if is_below (base show worker_id) path
        then made_by (mount_tmpfs (base show worker_id))
        else root_or_host (last_above points path))
setup_filesystem-governing show kernel worker_id project_root path points h =
    let end = setup_filesystem show none worker_id project_root kernel [] in
    ap (λ l. governing points l path)
      (Sequence-done (setup_calls show worker_id project_root) end.0 end.1
        (setup_filesystem-Sequence show kernel worker_id project_root) h)
    ∙ governing-setup_calls show worker_id project_root path points

-- A setup that fails has made its calls in their order up to the failed one, and no further call.
setup_filesystem-failed :
    (show : ℕ → Text) (kernel : Kernel Call) (worker_id : ℕ) (project_root : FilePath) (c : Call)
    → (setup_filesystem show none worker_id project_root kernel []).0 ≡ failed c
    → (front rest : List Call) × (setup_calls show worker_id project_root ≡ front ++ c ∷ rest)
      × ((setup_filesystem show none worker_id project_root kernel []).1 ≡ front ++ c ∷ [])
setup_filesystem-failed show kernel worker_id project_root c h =
    let end = setup_filesystem show none worker_id project_root kernel [] in
    Sequence-failed (setup_calls show worker_id project_root) end.0 end.1 c
      (setup_filesystem-Sequence show kernel worker_id project_root) h
