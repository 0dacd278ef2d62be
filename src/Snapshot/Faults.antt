-- ===== src/Snapshot/Faults.antt =====
-- The loop over a worker's pending faults (src/snapshot.rs, handle_pending_faults).
use tach_core.Base.{
  ℕ, ◌≡◌, sym, ap, inl, inr, Bool, some, List, [], ◌∷◌, ◌++◌, append_assoc, append-nil,
  Option-cases, get, nat_eq, arith,
}
use tach_core.Snapshot.Pages.{align_to_page}
use tach_core.Snapshot.Manager.{
  Attempt, Attempt-cases, ok, err, WorkerSnapshot, SnapshotManager, Fill, Event, pagefault, other,
  no_event, read_error, restore_page, fault_fill, failure, SnapshotError, maps_unreadable,
  read_failed, partial_read, register_failed, not_registered, copy_failed, zeropage_failed,
  copy_refused, zeropage_refused, handle_fault, handle_events, handle_pending_faults,
}

-- The addresses that fault before the reads find no event or fail.
abbrev pub fault_addrs : List Event → List ℕ
fault_addrs [] = []
fault_addrs (no_event ∷ events) = []
fault_addrs (read_error ∷ events) = []
fault_addrs (other ∷ events) = fault_addrs events
fault_addrs (pagefault addr ∷ events) = addr ∷ fault_addrs events

-- An error of a call without handle_fault's context.
abbrev pub without_context : SnapshotError → SnapshotError
without_context maps_unreadable = maps_unreadable
without_context read_failed = read_failed
without_context partial_read = partial_read
without_context register_failed = register_failed
without_context not_registered = not_registered
without_context copy_failed = copy_refused
without_context zeropage_failed = zeropage_refused
without_context copy_refused = copy_refused
without_context zeropage_refused = zeropage_refused

abbrev pub bare {ℓ} : {V : Type ℓ} → Attempt V → Attempt V
bare (ok v) = ok v
bare (err e) = err (without_context e)

module _ (resolve : ℕ → Fill → Bool) (m : SnapshotManager) (pid : ℕ) where
  -- One call of handle_fault for each address; the first error ends it.
  abbrev pub handle_each : List ℕ → Attempt (List Fill)
  handle_each [] = ok []
  handle_each (addr ∷ addrs) = elim (handle_fault resolve m pid addr) [
    | err e ↦ err e
    | ok fill ↦ elim (handle_each addrs) [ err e ↦ err e | ok fills ↦ ok (fill ∷ fills) ]
  ]

  abbrev onto : List Fill → Attempt (List Fill) → Attempt (List Fill)
  onto handled (ok fills) = ok (handled ++ fills)
  onto handled (err e) = err (without_context e)

  -- The two copies of the code for one fault.
  restore_page-handle_fault :
      (w : WorkerSnapshot) (addr : ℕ)
      → get m.workers pid ≡ some w
      → restore_page resolve w addr ≡ bare (handle_fault resolve m pid addr)
  unfolding restore_page handle_fault fault_fill failure
  restore_page-handle_fault w addr h =
      elim (Option-cases (get w.golden_pages (align_to_page addr))) [
        | inr (bytes, e) ↦ ground (arith, h, e)
        | inl e ↦ ground (arith, h, e)
      ]

  handle_events-each :
      (w : WorkerSnapshot) (events : List Event) (handled : List Fill)
      → get m.workers pid ≡ some w
      → handle_events resolve w events handled ≡ onto handled (handle_each (fault_addrs events))
  unfolding handle_events
  handle_events-each w [] handled h = ap (λ l. ok l) (sym (append-nil handled))
  handle_events-each w (no_event ∷ events) handled h = ap (λ l. ok l) (sym (append-nil handled))
  handle_events-each w (read_error ∷ events) handled h = ap (λ l. ok l) (sym (append-nil handled))
  handle_events-each w (other ∷ events) handled h = handle_events-each w events handled h
  handle_events-each w (pagefault addr ∷ events) handled h =
      let one = restore_page-handle_fault w addr h in
      elim (Attempt-cases (handle_fault resolve m pid addr)) [
        | inr (x, bad) ↦ ground (arith, one, bad)
        | inl (fill, good) ↦
            let rest = handle_events-each w events (handled ++ fill ∷ []) h in
            elim (Attempt-cases (handle_each (fault_addrs events))) [
              | inl (fills, e) ↦
                  ground (arith, one, good, e, rest, append_assoc handled (fill ∷ []) fills)
              | inr (x, e) ↦ ground (arith, one, good, e, rest)
            ]
      ]

-- For a registered worker, reading its pending events, with the loop's own copy of the lookup and the
-- calls, makes the fills that one call of handle_fault for each faulting address makes, in the order of the
-- events up to the first read without an event, other events being passed over. It fails if one of these
-- calls fails, with the error of the first that does, less the context that only handle_fault adds to it.
pub handle_pending_faults-handle_each :
    (resolve : ℕ → Fill → Bool) (m : SnapshotManager) (pid : ℕ) (w : WorkerSnapshot)
    (events : List Event)
    → get m.workers pid ≡ some w
    → handle_pending_faults resolve m pid events
      ≡ bare (handle_each resolve m pid (fault_addrs events))
unfolding handle_pending_faults
handle_pending_faults-handle_each resolve m pid w events h =
    let rest = handle_events-each resolve m pid w events [] h in
    elim (Attempt-cases (handle_each resolve m pid (fault_addrs events))) [
      | inl (fills, e) ↦ ground (arith, h, e, rest)
      | inr (x, e) ↦ ground (arith, h, e, rest)
    ]
