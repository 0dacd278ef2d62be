-- ===== src/Snapshot/Tests.antt =====
-- A worker with one small anonymous region and a read-only one.
use tach_core.Base.{
  arith, inr, ℕ, ◌-◌, ◌≡◌, refl, Text, chars, Bool, true, false, Option, some, List, [], ◌∷◌,
  get_elem?, get, insert, nat_eq, list_eq, keep_if, contains_text, split_once, starts_with,
  list_beq, split_char, join_char,
}
use tach_core.Discovery.Injected.{is_whitespace}
use tach_core.Snapshot.Regions.{
  MemoryRegion, snapshot_regions, parse_memory_maps, parse_lines, parse_line, should_snapshot,
  split_whitespace, from_str_radix, hex_digits, hex_digit, unwrap_or,
}
use tach_core.Snapshot.Pages.{align_to_page, page_size, split_pages, rounds, page_at}
use tach_core.Snapshot.Manager.{
  WorkerSnapshot, SnapshotManager, ok, capture_region_pages, capture_regions, register_regions,
  register_worker_with_uffd, Fill, copy, zeropage, fault_fill, handle_fault, Event, pagefault,
  other, no_event, handle_pending_faults, handle_events, restore_page, err, zeropage_refused,
}
use tach_core.Snapshot.Restore.{register_worker_with_uffd-copy, register_worker_with_uffd-zeropage}
use tach_core.Snapshot.Faults.{fault_addrs, handle_each, bare, handle_pending_faults-handle_each}

program : Unit {0}
unfolding parse_memory_maps parse_lines parse_line split_whitespace from_str_radix hex_digits
    hex_digit unwrap_or is_whitespace split_char join_char snapshot_regions should_snapshot keep_if
    contains_text split_once starts_with list_beq align_to_page split_pages rounds page_at
    capture_region_pages capture_regions register_regions register_worker_with_uffd get insert
    fault_fill handle_fault restore_page handle_events handle_pending_faults
program = tt

abbrev maps_text : Text
maps_text =
    chars "1000-1003 rw-p 00000000 00:00 0\n5000-6000 r--p 00000000 00:00 0 /lib/x\nnot a line\n"

abbrev maps : ℕ → Option Text
maps pid = some maps_text

abbrev read : ℕ → ℕ → ℕ → Option (List ℕ)
read pid base len = some (7 ∷ 8 ∷ 9 ∷ [])

abbrev register : ℕ → ℕ → ℕ → Bool
register uffd start len = true

abbrev region : MemoryRegion
region = record { start = 0x1000; «end» = 0x1003; len = 3; perms = chars "rw-p"; name = [] }

abbrev other_region : MemoryRegion
other_region = record {
  start = 0x5000;
  «end» = 0x6000;
  len = 0x1000;
  perms = chars "r--p";
  name = chars "/lib/x";
}

abbrev manager : SnapshotManager
manager = record { available = true; workers = [] }

abbrev worker : WorkerSnapshot
worker = record { uffd = 11; golden_pages = (0x1000, 7 ∷ 8 ∷ 9 ∷ []) ∷ []; regions = region ∷ [] }

abbrev registered : SnapshotManager
registered = record { available = true; workers = (42, worker) ∷ [] }

maps_parsed : parse_memory_maps (maps 42) ≡ some (region ∷ other_region ∷ [])
unfolding program
maps_parsed = refl

kept : snapshot_regions (region ∷ other_region ∷ []) ≡ region ∷ []
unfolding program
kept = refl

registers : register_worker_with_uffd maps read register manager 42 11 ≡ ok registered
unfolding program
registers = refl

fault_restored : fault_fill worker 0x1002 ≡ copy 0x1000 (7 ∷ 8 ∷ 9 ∷ [])
unfolding program
fault_restored = refl

register_worker_with_uffd-copy_example :
    (buffer bytes : List ℕ) × (read 42 0x1000 3 ≡ some buffer)
    × (fault_fill worker 0x1002 ≡ copy (align_to_page 0x1002) bytes)
    × (get_elem? bytes (0x1002 - align_to_page 0x1002) ≡ get_elem? buffer 2)
unfolding program
register_worker_with_uffd-copy_example =
    register_worker_with_uffd-copy maps read register manager registered 42 11
      (region ∷ other_region ∷ []) worker 0 0x1002 region refl maps_parsed (refl, tt) (tt, tt)
      registers refl refl (omega arith) (omega arith)

register_worker_with_uffd-zeropage_example :
    fault_fill worker 0x5001 ≡ zeropage (align_to_page 0x5001) page_size
unfolding program
register_worker_with_uffd-zeropage_example =
    register_worker_with_uffd-zeropage maps read register manager registered 42 11
      (region ∷ other_region ∷ []) worker 0x5001 refl maps_parsed registers refl
      (inr (omega arith), tt)

-- The copies succeed, the zero-filling does not.
abbrev resolve : ℕ → Fill → Bool
resolve uffd (copy page bytes) = true
resolve uffd (zeropage page len) = false

abbrev events : List Event
events = pagefault 0x1001 ∷ other ∷ pagefault 0x2001 ∷ no_event ∷ []

fault_refused : handle_pending_faults resolve registered 42 events ≡ err zeropage_refused
unfolding program
fault_refused = refl

handle_pending_faults-handle_each_example :
    handle_pending_faults resolve registered 42 events
    ≡ bare (handle_each resolve registered 42 (fault_addrs events))
unfolding program
handle_pending_faults-handle_each_example =
    handle_pending_faults-handle_each resolve registered 42 worker events refl
