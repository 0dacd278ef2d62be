-- ===== src/Isolation/Tests.antt =====
-- A worker of the project /home/p, whose overlay of /tmp can be mounted or not.
use tach_core.Base.{
  ℕ, ◌≡◌, refl, Text, chars, true, false, none, some, [], ◌∷◌, list_eq, nat_eq, list_beq,
}
use tach_core.Base.Calls.{Kernel, done, call_each}
use tach_core.Discovery.Types.{FilePath}
use tach_core.Discovery.Walk.{strip_prefix}
use tach_core.Isolation.Setup.{
  Call, unshare, mount_private, ip_link_up, create_dir_all, bind_root, remount_read_only,
  mount_tmpfs, mount_overlay, setup_calls, setup_filesystem,
}
use tach_core.Isolation.Mounts.{governing, host_mount, made_by}

abbrev show : ℕ → Text
show n = chars "7"

abbrev project : FilePath
project = chars "home" ∷ chars "p" ∷ []

abbrev kernel : Kernel Call
kernel made c = true

-- No overlay can be mounted.
abbrev old_kernel : Kernel Call
old_kernel made (mount_overlay a b c d) = false
old_kernel made unshare = true
old_kernel made mount_private = true
old_kernel made ip_link_up = true
old_kernel made (create_dir_all d) = true
old_kernel made bind_root = true
old_kernel made remount_read_only = true
old_kernel made (mount_tmpfs t) = true

program : Unit {0}
unfolding setup_filesystem setup_calls call_each strip_prefix list_beq
program = tt

etc_read_only :
    governing [] (setup_filesystem show none 7 project kernel []).1 (chars "etc" ∷ [])
    ≡ made_by remount_read_only
unfolding program
etc_read_only = refl

-- With /home on a file system of its own, a home directory stays as writable as it is on the host.
home_kept :
    governing
      ((chars "home" ∷ []) ∷ [])
      (setup_filesystem show none 7 project kernel []).1
      (chars "home" ∷ chars "q" ∷ [])
    ≡ host_mount (chars "home" ∷ [])
unfolding program
home_kept = refl

isolation_off : setup_filesystem show (some (chars "1")) 7 project old_kernel [] ≡ (done tt, [])
unfolding program
isolation_off = refl
