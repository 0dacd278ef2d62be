-- ===== src/Zygote/Reset.antt =====
-- A worker's own side of the snapshots (src/zygote.rs, init_snapshot_mode and reset_memory). The
-- statics of the process are the state; the calls of the system are parameters.
use tach_core.Base.{
  ℕ, Text, Bool, true, false, not, ◌&&◌, Option, none, some, List, [], keep_if, map, if◌then◌else◌,
}
use tach_core.Snapshot.Regions.{MemoryRegion, should_snapshot, is_stack, parse_memory_maps}

pub record Statics : Type 0 where
  pub reset_regions : List (ℕ × ℕ)
  pub snapshot_enabled : Bool

unfoldable pub initial : Statics
initial = record { reset_regions = []; snapshot_enabled = false }

-- Whether the calls succeed, and what /proc/{pid}/maps holds. `raise` is the SIGSTOP, behind which the
-- process goes on when it is continued.
pub record Calls : Type 0 where
  pub create_uffd : Bool
  pub connect : Bool
  pub send_fd : Bool
  pub maps : Option Text
  pub raise : Bool

pub data Outcome : Type 0 where
  returned : Bool → Outcome
  -- a Python OSError
  os_error : Outcome

unfoldable pub reset_regions_of : List MemoryRegion → List (ℕ × ℕ)
reset_regions_of regions =
    map (λ r. (r.start, r.len)) (keep_if (λ r. should_snapshot r && not (is_stack r)) regions)

-- The regions are kept as they were if the maps cannot be read.
unfoldable pub cache_regions : Statics → Option (List MemoryRegion) → Statics
unfolding reset_regions_of
cache_regions s none = s
cache_regions s (some regions) = record s { reset_regions = reset_regions_of regions }

unfoldable pub init_snapshot_mode : Calls → Statics → Statics × Outcome
unfolding cache_regions
init_snapshot_mode c s =
    if c.create_uffd && (c.connect && c.send_fd)
    then (let cached = cache_regions s (parse_memory_maps c.maps) in
        if c.raise
        then (record cached { snapshot_enabled = true }, returned true)
        else (cached, os_error))
    else (s, returned false)

-- The regions that are given to madvise with MADV_DONTNEED, one after the other. A failed call is
-- reported, and the loop goes on.
unfoldable pub reset_memory : Statics → List (ℕ × ℕ)
reset_memory s = if s.snapshot_enabled then s.reset_regions else []
