-- ===== src/Zygote/Snapshot.antt =====
-- A worker's reset and the pages that the supervisor restores (src/zygote.rs with src/snapshot.rs).
use mathlib.Core.Path.{subst}
use tach_core.Base.{
  ℕ, zero, suc, ◌-◌, ◌+◌, ◌<◌, ◌≤◌, ◌≡◌, refl, sym, ◌∙◌, ap, Text, Bool, true, not, ◌&&◌, Option,
  some, List, [], ◌∷◌, keep_if, get_elem?, get, nat_eq, ◌⊎◌, Bool-cases, inl, inr, All, arith,
}
use tach_core.Snapshot.Regions.{
  MemoryRegion, should_snapshot, is_stack, parse_memory_maps, snapshot_regions,
}
use tach_core.Snapshot.Pages.{align_to_page}
use tach_core.Snapshot.Manager.{
  SnapshotManager, WorkerSnapshot, register_worker_with_uffd, ok, copy, fault_fill,
}
use tach_core.Snapshot.Golden.{Aligned, Apart}
use tach_core.Snapshot.Restore.{register_worker_with_uffd-copy}
use tach_core.Zygote.Reset.{
  Statics, Calls, returned, reset_regions_of, cache_regions, init_snapshot_mode, reset_memory,
}

-- A reset region is one of the captured ones.
abbrev pub Captured : List MemoryRegion → ℕ × ℕ → Type 0
Captured regions (start, len) =
    (i : ℕ) × (r : MemoryRegion) × (get_elem? (snapshot_regions regions) i ≡ some r)
    × (r.start ≡ start)
    × (r.len ≡ len)

Captured-cons :
    (r : MemoryRegion) (rs : List MemoryRegion) (x : ℕ × ℕ) → Captured rs x → Captured (r ∷ rs) x
unfolding snapshot_regions keep_if
Captured-cons r rs (start, len) (i, q, at, s, l) = elim (Bool-cases (should_snapshot r)) [
  | inl e ↦ (suc i, q, rw (e, keep_if) at, s, l)
  | inr e ↦ (i, q, rw (e, keep_if) at, s, l)
]

get_elem?-cons :
    {A : Type 0} (y x : A) (ys : List A) (j : ℕ)
    → get_elem? (y ∷ ys) j ≡ some x
    → (y ≡ x) ⊎ ((k : ℕ) × (get_elem? ys k ≡ some x))
get_elem?-cons y x ys zero h = inl cc
get_elem?-cons y x ys (suc k) h = inr (k, h)

Captured-head :
    (r : MemoryRegion) (rs : List MemoryRegion)
    → should_snapshot r ≡ true
    → Captured (r ∷ rs) (r.start, r.len)
unfolding snapshot_regions keep_if
Captured-head r rs e = (0, r, rw (e, keep_if) refl, refl, refl)

reset_regions_of-Captured :
    (regions : List MemoryRegion) (j : ℕ) (x : ℕ × ℕ)
    → get_elem? (reset_regions_of regions) j ≡ some x
    → Captured regions x
unfolding reset_regions_of keep_if
reset_regions_of-Captured [] j x h = absurd (ground (arith, h))
reset_regions_of-Captured (r ∷ rs) j x h =
    elim (Bool-cases (should_snapshot r && not (is_stack r))) [
      | inr e ↦
          let rest : get_elem? (reset_regions_of rs) j ≡ some x = ground (arith, e, h) in
          Captured-cons r rs x (reset_regions_of-Captured rs j x rest)
      | inl e ↦
          let kept : should_snapshot r ≡ true = ground (arith, e) in
          let front : get_elem? ((r.start, r.len) ∷ reset_regions_of rs) j ≡ some x =
            ground (arith, e, h) in
          elim (get_elem?-cons (r.start, r.len) x (reset_regions_of rs) j front) [
            | inl same ↦ rw (← same) (Captured-head r rs kept)
            | inr (k, at) ↦ Captured-cons r rs x (reset_regions_of-Captured rs k x at)
          ]
    ]

-- What a reset gives back after an initialisation that has returned true.
reset_memory-init :
    (c : Calls) (s t : Statics) (parsed : List MemoryRegion)
    → parse_memory_maps c.maps ≡ some parsed
    → init_snapshot_mode c s ≡ (t, returned true)
    → reset_memory t ≡ reset_regions_of parsed
unfolding init_snapshot_mode reset_memory cache_regions
reset_memory-init c s t parsed e h = elim (Bool-cases (c.create_uffd && (c.connect && c.send_fd))) [
  | inr bad ↦ absurd (ground (arith, bad, h))
  | inl good ↦ elim (Bool-cases c.raise) [
    | inr bad ↦ absurd (ground (arith, good, bad, h))
    | inl up ↦
        let same : record (cache_regions s (some parsed)) { snapshot_enabled = true } ≡ t =
          ground (arith, good, up, e, h) in
        rw (← same) refl
  ]
]

-- What a fault at an address of a region restores.
abbrev Restored : (ℕ → ℕ → ℕ → Option (List ℕ)) → ℕ → WorkerSnapshot → ℕ → ℕ → ℕ → Type 0
Restored read pid w a start len =
    (buffer bytes : List ℕ) × (read pid start len ≡ some buffer)
    × (fault_fill w a ≡ copy (align_to_page a) bytes)
    × (get_elem? bytes (a - align_to_page a) ≡ get_elem? buffer (a - start))

-- Let the initialisation of a worker return true, with the memory map of the process, and let the
-- supervisor register the worker at that map, with captured regions that start at pages and do
-- not overlap. Then every region that the worker's reset gives back is among the captured ones, and
-- a later fault at any address in it copies to the address's page a page whose byte for the address is
-- the one that was read there when the worker was registered.
pub reset_memory-copy :
    (c : Calls) (s t : Statics) (maps : ℕ → Option Text) (read : ℕ → ℕ → ℕ → Option (List ℕ))
    (register : ℕ → ℕ → ℕ → Bool) (m n : SnapshotManager) (pid uffd : ℕ)
    (parsed : List MemoryRegion) (w : WorkerSnapshot) (j start len a : ℕ)
    → m.available ≡ true
    → c.maps ≡ maps pid
    → parse_memory_maps (maps pid) ≡ some parsed
    → All Aligned (snapshot_regions parsed)
    → Apart (snapshot_regions parsed)
    → init_snapshot_mode c s ≡ (t, returned true)
    → register_worker_with_uffd maps read register m pid uffd ≡ ok n
    → get n.workers pid ≡ some w
    → get_elem? (reset_memory t) j ≡ some (start, len)
    → start ≤ a
    → a < start + len
    → Captured parsed (start, len)
      × ((buffer bytes : List ℕ) × (read pid start len ≡ some buffer)
          × (fault_fill w a ≡ copy (align_to_page a) bytes)
          × (get_elem? bytes (a - align_to_page a) ≡ get_elem? buffer (a - start)))
reset_memory-copy c s t maps read register m n pid uffd parsed w j start len a on own e aligned
      apart inited h g at low high =
    let reset = reset_memory-init c s t parsed (ap parse_memory_maps own ∙ e) inited in
    let captured =
      reset_regions_of-Captured parsed j (start, len) (ap (λ l. get_elem? l j) (sym reset) ∙ at) in
    let (i, r, found, st, ln) = captured in
    (
      captured,
      subst (λ l. Restored read pid w a start l) ln
          (subst (λ b. Restored read pid w a b r.len) st
            (register_worker_with_uffd-copy maps read register m n pid uffd parsed w i a r on e
              aligned apart h g found (rw st low) (rw (st, ln) high))),
    )
