-- ===== src/Snapshot/Manager.antt =====
-- The SnapshotManager of src/snapshot.rs. A process id is its number, a userfaultfd its descriptor.
use tach_core.Base.{
  ◌≡◌, refl, ◌⊎◌, inl, inr, ℕ, Text, Bool, true, false, ◌==◌, Option, none, some, List, [], ◌∷◌,
  ◌++◌, length, if◌then◌else◌, Assoc, get, insert, remove, map, nat_eq,
}
use tach_core.Snapshot.Regions.{MemoryRegion, snapshot_regions, parse_memory_maps}
use tach_core.Snapshot.Pages.{split_pages, rounds, align_to_page, page_size}

pub data SnapshotError : Type 0 where
  maps_unreadable : SnapshotError
  read_failed : SnapshotError
  partial_read : SnapshotError
  register_failed : SnapshotError
  not_registered : SnapshotError
  copy_failed : SnapshotError
  zeropage_failed : SnapshotError
  copy_refused : SnapshotError
  zeropage_refused : SnapshotError

-- anyhow's Result, with the errors told apart. `copy_failed` and `zeropage_failed` are the errors of
-- handle_fault, with its context; `copy_refused` and `zeropage_refused` are those of the calls, without.
pub data Attempt {ℓ} (V : Type ℓ) : Type ℓ where
  err : SnapshotError → Attempt V
  ok : V → Attempt V

pub Attempt-cases {ℓ} :
    {V : Type ℓ} (q : Attempt V) → ((v : V) × (q ≡ ok v)) ⊎ ((x : SnapshotError) × (q ≡ err x))
Attempt-cases (err x) = inr (x, refl)
Attempt-cases (ok v) = inl (v, refl)

pub record WorkerSnapshot : Type 0 where
  pub uffd : ℕ
  pub golden_pages : Assoc ℕ (List ℕ)
  pub regions : List MemoryRegion

pub record SnapshotManager : Type 0 where
  pub available : Bool
  pub workers : Assoc ℕ WorkerSnapshot

unfoldable pub get_worker_uffd : SnapshotManager → ℕ → Option ℕ
get_worker_uffd m pid = elim (get m.workers pid) [ none ↦ none | some w ↦ some w.uffd ]

unfoldable pub remove_worker : SnapshotManager → ℕ → SnapshotManager
remove_worker m pid = record { available = m.available; workers = remove m.workers pid }

unfoldable pub worker_pids : SnapshotManager → List ℕ
worker_pids m = map (λ (pid, _). pid) m.workers

-- process_vm_readv: the bytes of a process from a base, at most so many; `none` is an error.
module _ (process_vm_readv : ℕ → ℕ → ℕ → Option (List ℕ)) where
  -- The pages of a region, onto the ones captured before it (`golden_pages.extend(pages)`).
  unfoldable pub capture_region_pages :
      ℕ → MemoryRegion → Assoc ℕ (List ℕ) → Attempt (Assoc ℕ (List ℕ))
  capture_region_pages pid r golden = elim (process_vm_readv pid r.start r.len) [
    | none ↦ err read_failed
    | some buffer ↦
        if length buffer == r.len
        then ok (split_pages (rounds r.len) r.start buffer r.len 0 golden)
        else err partial_read
  ]

  unfoldable pub capture_regions :
      ℕ → List MemoryRegion → Assoc ℕ (List ℕ) → Attempt (Assoc ℕ (List ℕ))
  capture_regions pid [] golden = ok golden
  capture_regions pid (r ∷ rs) golden = elim (capture_region_pages pid r golden) [
    | err e ↦ err e
    | ok pages ↦ capture_regions pid rs pages
  ]

-- Uffd::register on each region; whether every one succeeds.
unfoldable pub register_regions : (ℕ → ℕ → ℕ → Bool) → ℕ → List MemoryRegion → Bool
register_regions register uffd [] = true
register_regions register uffd (r ∷ rs) = elim (register uffd r.start r.len) [
  | true ↦ register_regions register uffd rs
  | false ↦ false
]

-- `maps` is what reading /proc/{pid}/maps gives.
module _ (maps : ℕ → Option Text) (process_vm_readv : ℕ → ℕ → ℕ → Option (List ℕ))
    (register : ℕ → ℕ → ℕ → Bool) where
  unfoldable pub register_worker_with_uffd : SnapshotManager → ℕ → ℕ → Attempt SnapshotManager
  register_worker_with_uffd m pid uffd = elim m.available [
    | false ↦ ok m
    | true ↦ elim (parse_memory_maps (maps pid)) [
      | none ↦ err maps_unreadable
      | some regions ↦
          let kept = snapshot_regions regions in
          elim (capture_regions process_vm_readv pid kept []) [
            | err e ↦ err e
            | ok golden ↦
                if register_regions register uffd kept
                then ok (record {
                  available = m.available;
                  workers =
                      insert m.workers pid
                        (record { uffd = uffd; golden_pages = golden; regions = kept });
                })
                else err register_failed
          ]
    ]
  ]

-- What resolves a fault: Uffd::copy of the bytes to the page, or Uffd::zeropage of so many bytes.
pub data Fill : Type 0 where
  copy : (page : ℕ) → (bytes : List ℕ) → Fill
  zeropage : (page : ℕ) → (len : ℕ) → Fill

unfoldable pub fault_fill : WorkerSnapshot → ℕ → Fill
fault_fill w fault_addr =
    let page_start = align_to_page fault_addr in
    elim (get w.golden_pages page_start) [
      | some bytes ↦ copy page_start bytes
      | none ↦ zeropage page_start page_size
    ]

unfoldable pub failure : Fill → SnapshotError
failure (copy page bytes) = copy_failed
failure (zeropage page len) = zeropage_failed

-- `resolve` makes the call on the worker's descriptor and tells whether it succeeds.
module _ (resolve : ℕ → Fill → Bool) where
  unfoldable pub handle_fault : SnapshotManager → ℕ → ℕ → Attempt Fill
  handle_fault m pid fault_addr = elim (get m.workers pid) [
    | none ↦ err not_registered
    | some w ↦
        let fill = fault_fill w fault_addr in
        if resolve w.uffd fill then ok fill else err (failure fill)
  ]

-- What Uffd::read_event gives.
pub data Event : Type 0 where
  pagefault : (addr : ℕ) → Event
  other : Event
  no_event : Event
  read_error : Event

module _ (resolve : ℕ → Fill → Bool) where
  -- One fault of the loop, which looks the page up for itself; the call's error has no context.
  unfoldable pub restore_page : WorkerSnapshot → ℕ → Attempt Fill
  restore_page w fault_addr =
      let page_start = align_to_page fault_addr in
      elim (get w.golden_pages page_start) [
        | some data_bytes ↦
            if resolve w.uffd (copy page_start data_bytes)
            then ok (copy page_start data_bytes)
            else err copy_refused
        | none ↦
            if resolve w.uffd (zeropage page_start page_size)
            then ok (zeropage page_start page_size)
            else err zeropage_refused
      ]

  -- The loop over the events that the reads give, with the fills made so far.
  unfoldable pub handle_events : WorkerSnapshot → List Event → List Fill → Attempt (List Fill)
  handle_events w [] handled = ok handled
  handle_events w (no_event ∷ events) handled = ok handled
  handle_events w (read_error ∷ events) handled = ok handled
  handle_events w (other ∷ events) handled = handle_events w events handled
  handle_events w (pagefault addr ∷ events) handled = elim (restore_page w addr) [
    | err e ↦ err e
    | ok fill ↦ handle_events w events (handled ++ fill ∷ [])
  ]

  -- The fills, in order; the code returns their number.
  unfoldable pub handle_pending_faults : SnapshotManager → ℕ → List Event → Attempt (List Fill)
  handle_pending_faults m pid events = elim (get m.workers pid) [
    | none ↦ err not_registered
    | some w ↦ handle_events w events []
  ]
