-- ===== src/Snapshot/Restore.antt =====
-- What a registered worker's faults restore (src/snapshot.rs).
use tach_core.Base.{
  ap, sym, ◌∙◌, ℕ, ◌+◌, ◌-◌, ◌<◌, ◌≤◌, ◌≡◌, ==_refl, refl, ◌∙◌, inl, inr, Text, Bool, true, Option,
  none, some, List, [], get_elem?, All, Bool-cases, Assoc, get, insert, get-insert, nat_eq, arith,
}
use tach_core.Snapshot.Regions.{MemoryRegion, snapshot_regions, parse_memory_maps}
use tach_core.Snapshot.Pages.{page_size, align_to_page}
use tach_core.Snapshot.Manager.{
  Attempt-cases, ok, WorkerSnapshot, SnapshotManager, capture_regions, register_regions,
  register_worker_with_uffd, copy, zeropage, fault_fill,
}
use tach_core.Snapshot.Golden.{
  Outside, Aligned, Apart, capture_regions-Outside, capture_regions-Restores,
}

fault_fill-copy :
    (w : WorkerSnapshot) (a : ℕ) (bytes : List ℕ)
    → get w.golden_pages (align_to_page a) ≡ some bytes
    → fault_fill w a ≡ copy (align_to_page a) bytes
unfolding fault_fill
fault_fill-copy w a bytes e = ground (arith, e)

fault_fill-zeropage :
    (w : WorkerSnapshot) (a : ℕ)
    → get w.golden_pages (align_to_page a) ≡ none
    → fault_fill w a ≡ zeropage (align_to_page a) page_size
unfolding fault_fill
fault_fill-zeropage w a e = ground (arith, e)

get_nil : (k : ℕ) → get {V = List ℕ} [] k ≡ none
unfolding get
get_nil k = refl

-- What a successful registration with an available userfaultfd stores.
register-ok :
    (maps : ℕ → Option Text) (read : ℕ → ℕ → ℕ → Option (List ℕ)) (register : ℕ → ℕ → ℕ → Bool)
    (m n : SnapshotManager) (pid uffd : ℕ) (parsed : List MemoryRegion)
    → m.available ≡ true
    → parse_memory_maps (maps pid) ≡ some parsed
    → register_worker_with_uffd maps read register m pid uffd ≡ ok n
    → (golden : Assoc ℕ (List ℕ)) × (capture_regions read pid (snapshot_regions parsed) []
        ≡ ok golden)
      × (get n.workers pid
          ≡ some (record { uffd = uffd; golden_pages = golden; regions = snapshot_regions parsed }))
unfolding register_worker_with_uffd
register-ok maps read register m n pid uffd parsed on e h =
    let kept = snapshot_regions parsed in
    elim (Attempt-cases (capture_regions read pid kept [])) [
      | inr (x, f) ↦ absurd (ground (arith, on, e, f))
      | inl (golden, f) ↦ elim (Bool-cases (register_regions register uffd kept)) [
        | inr bad ↦ absurd (ground (arith, on, e, f, bad))
        | inl good ↦
            let w : WorkerSnapshot = record {
              uffd = uffd;
              golden_pages = golden;
              regions = kept;
            } in
            let same : insert m.workers pid w ≡ n.workers = ground (arith, on, e, f, good) in
            (golden, f, rw (← same) (ground (arith, get-insert m.workers pid pid w, ==_refl pid)))
      ]
    ]

abbrev golden_or_none : Option WorkerSnapshot → Assoc ℕ (List ℕ)
golden_or_none none = []
golden_or_none (some w) = w.golden_pages

golden_of :
    (n : SnapshotManager) (pid uffd : ℕ) (golden : Assoc ℕ (List ℕ)) (kept : List MemoryRegion)
    (w : WorkerSnapshot)
    → get n.workers pid ≡ some (record { uffd = uffd; golden_pages = golden; regions = kept })
    → get n.workers pid ≡ some w
    → golden ≡ w.golden_pages
golden_of n pid uffd golden kept w stored g = ap golden_or_none (sym stored ∙ g)

-- After a worker is registered, with userfaultfd available and captured regions that start at pages
-- and do not overlap, a fault at any address of a captured region copies to the address's page a page
-- whose byte for the address is the one that was read there when the worker was registered.
pub register_worker_with_uffd-copy :
    (maps : ℕ → Option Text) (read : ℕ → ℕ → ℕ → Option (List ℕ)) (register : ℕ → ℕ → ℕ → Bool)
    (m n : SnapshotManager) (pid uffd : ℕ) (parsed : List MemoryRegion) (w : WorkerSnapshot)
    (i a : ℕ) (r : MemoryRegion)
    → m.available ≡ true
    → parse_memory_maps (maps pid) ≡ some parsed
    → All Aligned (snapshot_regions parsed)
    → Apart (snapshot_regions parsed)
    → register_worker_with_uffd maps read register m pid uffd ≡ ok n
    → get n.workers pid ≡ some w
    → get_elem? (snapshot_regions parsed) i ≡ some r
    → r.start ≤ a
    → a < r.start + r.len
    → (buffer bytes : List ℕ) × (read pid r.start r.len ≡ some buffer)
      × (fault_fill w a ≡ copy (align_to_page a) bytes)
      × (get_elem? bytes (a - align_to_page a) ≡ get_elem? buffer (a - r.start))
register_worker_with_uffd-copy maps read register m n pid uffd parsed w i a r on e aligned apart h g
      at low high =
    let (golden, f, stored) = register-ok maps read register m n pid uffd parsed on e h in
    let same : golden ≡ w.golden_pages =
      golden_of n pid uffd golden (snapshot_regions parsed) w stored g in
    let (buffer, bytes, b, p, s) =
      capture_regions-Restores read pid (snapshot_regions parsed) [] golden i a r aligned apart f at
        low high in
    (buffer, bytes, b, fault_fill-copy w a bytes (rw (← same) p), s)

-- After a worker is registered, with userfaultfd available, a fault at an address whose page starts
-- outside all captured regions is resolved by a page of zeros.
pub register_worker_with_uffd-zeropage :
    (maps : ℕ → Option Text) (read : ℕ → ℕ → ℕ → Option (List ℕ)) (register : ℕ → ℕ → ℕ → Bool)
    (m n : SnapshotManager) (pid uffd : ℕ) (parsed : List MemoryRegion) (w : WorkerSnapshot) (a : ℕ)
    → m.available ≡ true
    → parse_memory_maps (maps pid) ≡ some parsed
    → register_worker_with_uffd maps read register m pid uffd ≡ ok n
    → get n.workers pid ≡ some w
    → All (λ r. Outside (align_to_page a) r) (snapshot_regions parsed)
    → fault_fill w a ≡ zeropage (align_to_page a) page_size
register_worker_with_uffd-zeropage maps read register m n pid uffd parsed w a on e h g out =
    let (golden, f, stored) = register-ok maps read register m n pid uffd parsed on e h in
    let same : golden ≡ w.golden_pages =
      golden_of n pid uffd golden (snapshot_regions parsed) w stored g in
    let p : get golden (align_to_page a) ≡ none =
      capture_regions-Outside read pid (snapshot_regions parsed) [] golden (align_to_page a) out f
      ∙ get_nil (align_to_page a) in
    fault_fill-zeropage w a (rw (← same) p)
