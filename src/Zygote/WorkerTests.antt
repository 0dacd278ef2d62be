-- ===== src/Zygote/WorkerTests.antt =====
-- Two workers, of which one cannot be isolated, and a small reset.
use tach_core.Base.{
  ℕ, inl, ◌-◌, ◌≡◌, ◌==◌, refl, Text, chars, Bool, true, false, Option, none, some, List, [], ◌∷◌,
  length, if◌then◌else◌, nat_eq, list_eq, list_beq, get_elem?, arith, get, insert, keep_if,
  split_char, join_char, contains_text, split_once, starts_with,
}
use tach_core.Base.Calls.{call_each}
use tach_core.Discovery.Injected.{is_whitespace}
use tach_core.Discovery.Walk.{strip_prefix}
use tach_core.Isolation.Setup.{
  mount_tmpfs, tmp, base, tmp_overlay, project_overlay, setup_calls, setup_filesystem,
}
use tach_core.Isolation.Mounts.{is_below, governing, made_by, root_or_host, last_above}
use tach_core.Discovery.Types.{FilePath}
use tach_core.Protocol.Messages.{TestPayload, TestResult}
use tach_core.Protocol.Bytes.{to_le_bytes, from_le_bytes, read_exact}
use tach_core.Protocol.Frames.{frame, read_frame, encode_with_length, receive, receive_all}
use tach_core.Snapshot.Regions.{
  MemoryRegion, parse_memory_maps, parse_lines, parse_line, snapshot_regions, should_snapshot,
  is_stack, split_whitespace, from_str_radix, hex_digits, hex_digit, unwrap_or,
}
use tach_core.Snapshot.Pages.{align_to_page, split_pages, rounds, page_at}
use tach_core.Snapshot.Manager.{
  WorkerSnapshot, SnapshotManager, ok, capture_region_pages, capture_regions, register_regions,
  register_worker_with_uffd, copy, fault_fill,
}
use tach_core.Zygote.Worker.{
  Host, returned, full_node_id, run_worker, redirect, debug, send_result, after_test, after_init,
  test_actions, died, isolated, child,
}
use tach_core.Zygote.Actions.{tests_run, calls_before_test, sent}
use tach_core.Zygote.Isolated.{child-governing}
use tach_core.Zygote.Collector.{collect_worker, forward}
use tach_core.Zygote.Forward.{Forked, channel, results, receive_all-forward}
use tach_core.Zygote.Reset.{
  Statics, Calls, returned, initial, reset_regions_of, cache_regions, init_snapshot_mode,
  reset_memory,
}
use tach_core.Zygote.Snapshot.{Captured, reset_memory-copy}

program : Unit {0}
unfolding read_exact frame to_le_bytes from_le_bytes setup_filesystem setup_calls call_each
    strip_prefix list_beq full_node_id run_worker redirect debug send_result after_test after_init
    test_actions isolated child collect_worker forward encode_with_length read_frame receive
    receive_all
program = tt

abbrev payload : TestPayload
payload = record {
  test_id = 3;
  file_path = chars "t.py";
  test_name = chars "a";
  is_async = false;
  fixtures = [];
  log_fd = some 5;
  debug_socket_path = [];
}

abbrev host : Host
host = record {
  show = λ n. chars "3";
  no_isolation = none;
  current_dir = chars "p" ∷ [];
  kernel = λ made c. true;
  continued = true;
  run_test = λ file node. returned 0 [];
  elapsed_nanos = 7;
}

-- No call of the isolation succeeds here.
abbrev bare_host : Host
bare_host = record host { kernel = λ made c. false }

abbrev serialize : TestResult → Option (List ℕ)
serialize v = some (v.test_id ∷ v.status ∷ v.duration_ns ∷ v.message)

abbrev deserialize : List ℕ → Option TestResult
deserialize (a ∷ b ∷ c ∷ message) =
    some (record { test_id = a; status = b; duration_ns = c; message = message })
deserialize _ = none

-- The test does not come back, or the worker is not continued.
abbrev dying_host : Host
dying_host = record host { run_test = λ file node. died }

abbrev stopped_host : Host
stopped_host = record host { continued = false }

dying_sends_nothing : sent (child serialize dying_host payload) ≡ []
unfolding program
dying_sends_nothing = refl

bare_sends_nothing : sent (child serialize bare_host payload) ≡ []
unfolding program
bare_sends_nothing = refl

bare_runs_nothing : tests_run (child serialize bare_host payload) ≡ []
unfolding program
bare_runs_nothing = refl

one_test : tests_run (child serialize host payload) ≡ chars "t.py::a" ∷ []
unfolding program
one_test = refl

-- A host with /home on a file system of its own.
abbrev points : List FilePath
points = (chars "home" ∷ []) ∷ []

child-governing_example :
    (chars "t.py::a" ≡ full_node_id payload)
    × ◌≡◌ {A = List Text} [] []
    × (governing points (calls_before_test (child serialize host payload)) (chars "home" ∷ []) ≡ (
        if is_below (chars "p" ∷ []) (chars "home" ∷ [])
        then made_by (project_overlay host.show 3 (chars "p" ∷ []))
        else if is_below tmp (chars "home" ∷ [])
        then made_by (tmp_overlay host.show 3)
        else if is_below (base host.show 3) (chars "home" ∷ [])
        then made_by (mount_tmpfs (base host.show 3))
        else root_or_host (last_above points (chars "home" ∷ []))))
unfolding program
child-governing_example =
    child-governing serialize host payload (chars "home" ∷ []) points (chars "t.py::a") [] refl refl

abbrev workers : List Forked
workers =
    (bare_host, payload) ∷ (dying_host, payload) ∷ (host, payload) ∷ (stopped_host, payload) ∷ []

one_result : length (results workers) ≡ 1
unfolding program
one_result = refl

receive_all-forward_example :
    receive_all deserialize
      (length (results workers))
      (forward (λ w. none) [] (channel serialize workers))
    ≡ some (results workers, [])
unfolding program
receive_all-forward_example =
    receive_all-forward serialize deserialize
      (λ v bytes e.
        let same : v.test_id ∷ v.status ∷ v.duration_ns ∷ v.message ≡ bytes = cc in
        rw (← same) refl)
      workers ((3 ∷ 0 ∷ 7 ∷ [], refl, omega arith), tt)

resets : Unit {0}
unfolding parse_memory_maps parse_lines parse_line split_whitespace from_str_radix hex_digits
    hex_digit unwrap_or is_whitespace split_char join_char snapshot_regions should_snapshot is_stack
    keep_if contains_text split_once starts_with list_beq align_to_page split_pages rounds page_at
    capture_region_pages capture_regions register_regions register_worker_with_uffd get insert
    fault_fill initial reset_regions_of cache_regions init_snapshot_mode reset_memory
resets = tt

abbrev maps_text : Text
maps_text = chars "1000-1003 rw-p 00000000 00:00 0\n8000-8002 rw-p 00000000 00:00 0 [stack]\n"

abbrev maps : ℕ → Option Text
maps pid = some maps_text

abbrev read : ℕ → ℕ → ℕ → Option (List ℕ)
read pid start len = some (if len == 3 then 7 ∷ 8 ∷ 9 ∷ [] else 1 ∷ 2 ∷ [])

abbrev register : ℕ → ℕ → ℕ → Bool
register uffd start len = true

abbrev region : MemoryRegion
region = record { start = 0x1000; «end» = 0x1003; len = 3; perms = chars "rw-p"; name = [] }

abbrev calls : Calls
calls = record { create_uffd = true; connect = true; send_fd = true; maps = maps 42; raise = true }

abbrev after : Statics
after = record { reset_regions = (0x1000, 3) ∷ []; snapshot_enabled = true }

initialised : init_snapshot_mode calls initial ≡ (after, returned true)
unfolding resets
initialised = refl

abbrev manager : SnapshotManager
manager = record { available = true; workers = [] }

abbrev stack : MemoryRegion
stack = record {
  start = 0x8000;
  «end» = 0x8002;
  len = 2;
  perms = chars "rw-p";
  name = chars "[stack]";
}

abbrev worker : WorkerSnapshot
worker = record {
  uffd = 11;
  golden_pages = (0x1000, 7 ∷ 8 ∷ 9 ∷ []) ∷ (0x8000, 1 ∷ 2 ∷ []) ∷ [];
  regions = region ∷ stack ∷ [];
}

abbrev registered : SnapshotManager
registered = record { available = true; workers = (42, worker) ∷ [] }

parsed : parse_memory_maps (maps 42) ≡ some (region ∷ stack ∷ [])
unfolding resets
parsed = refl

registers : register_worker_with_uffd maps read register manager 42 11 ≡ ok registered
unfolding resets
registers = refl

reset_memory-copy_example :
    Captured (region ∷ stack ∷ []) (0x1000, 3)
    × ((buffer bytes : List ℕ) × (read 42 0x1000 3 ≡ some buffer)
        × (fault_fill worker 0x1002 ≡ copy (align_to_page 0x1002) bytes)
        × (get_elem? bytes (0x1002 - align_to_page 0x1002) ≡ get_elem? buffer 2))
unfolding resets
reset_memory-copy_example =
    reset_memory-copy calls initial after maps read register manager registered 42 11
      (region ∷ stack ∷ []) worker 0 0x1000 3 0x1002 refl refl parsed (refl, (refl, tt))
      ((inl (omega arith), tt), (tt, tt)) initialised registers refl refl (omega arith)
      (omega arith)
