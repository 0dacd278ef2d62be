-- ===== src/Snapshot/Golden.antt =====
-- The captured pages of several regions (src/snapshot.rs).
use mathlib.Core.Path.{subst}
use tach_core.Base.{
  ℕ, zero, suc, ◌+◌, ◌-◌, ◌%◌, ◌<◌, ◌≤◌, ◌≡◌, ◌==◌, refl, ◌∙◌, ◌⊎◌, inl, inr, Option, some, List,
  [], ◌∷◌, length, get_elem?, All, All-map, ap, Bool-cases, Option-cases, Assoc, get, nat_eq, arith,
}
use tach_core.Snapshot.Regions.{MemoryRegion}
use tach_core.Snapshot.Pages.{
  page_size, align_to_page, page_at, split_pages, rounds, split_pages-outside, split_pages-covers,
  get_elem?-page_at, align_to_page_le, rounds_enough,
}
use tach_core.Snapshot.Manager.{Attempt-cases, ok, capture_region_pages, capture_regions}

-- A page that is no page of the region.
abbrev pub Outside : ℕ → MemoryRegion → Type 0
Outside p r = (p < r.start) ⊎ (r.start + r.len ≤ p)

abbrev pub Aligned : MemoryRegion → Type 0
Aligned r = r.start % page_size ≡ 0

-- No two regions overlap.
abbrev pub Apart : List MemoryRegion → Type 0
Apart [] = Unit
Apart (r ∷ rs) = All (λ s. (r.start + r.len ≤ s.start) ⊎ (s.start + s.len ≤ r.start)) rs × Apart rs

-- A page of one region is no page of another.
apart_page :
    (s t : MemoryRegion) (a p : ℕ)
    → (s.start + s.len ≤ t.start) ⊎ (t.start + t.len ≤ s.start)
    → s.start ≤ p
    → p < s.start + s.len
    → Outside p t
apart_page s t a p c low high = elim c [ inl x ↦ inl (omega arith) | inr x ↦ inr (omega arith) ]

module _ (read : ℕ → ℕ → ℕ → Option (List ℕ)) where
  -- The bytes that the fill of a fault at the address copies have, for the address, the byte that was read.
  abbrev pub Restores : ℕ → MemoryRegion → ℕ → Option (List ℕ) → Type 0
  Restores pid r a page =
      (buffer bytes : List ℕ) × (read pid r.start r.len ≡ some buffer)
      × (page ≡ some bytes)
      × (get_elem? bytes (a - align_to_page a) ≡ get_elem? buffer (a - r.start))

  capture_region_pages-ok :
      (pid : ℕ) (r : MemoryRegion) (golden pages : Assoc ℕ (List ℕ))
      → capture_region_pages read pid r golden ≡ ok pages
      → (buffer : List ℕ) × (read pid r.start r.len ≡ some buffer)
        × (split_pages (rounds r.len) r.start buffer r.len 0 golden ≡ pages)
  unfolding capture_region_pages
  capture_region_pages-ok pid r golden pages h = elim (Option-cases (read pid r.start r.len)) [
    | inl n ↦ absurd (ground (arith, n))
    | inr (buffer, e) ↦ elim (Bool-cases (length buffer == r.len)) [
      | inl full ↦ (buffer, e, ground (arith, e, full))
      | inr part ↦ absurd (ground (arith, e, part))
    ]
  ]

  capture_regions-cons :
      (pid : ℕ) (r : MemoryRegion) (rs : List MemoryRegion) (golden last : Assoc ℕ (List ℕ))
      → capture_regions read pid (r ∷ rs) golden ≡ ok last
      → (pages : Assoc ℕ (List ℕ)) × (capture_region_pages read pid r golden ≡ ok pages)
        × (capture_regions read pid rs pages ≡ ok last)
  unfolding capture_regions
  capture_regions-cons pid r rs golden last h =
      elim (Attempt-cases (capture_region_pages read pid r golden)) [
        | inl (pages, e) ↦ (pages, e, ground (arith, e))
        | inr (x, e) ↦ absurd (ground (arith, e))
      ]

  capture_regions-nil :
      (pid : ℕ) (golden last : Assoc ℕ (List ℕ)) (p : ℕ)
      → capture_regions read pid [] golden ≡ ok last
      → get last p ≡ get golden p
  unfolding capture_regions
  capture_regions-nil pid golden last p h = let e : golden ≡ last = ground (arith, h) in rw e refl

  -- The page of an address of the region, just after the region is captured.
  capture_region_pages-Restores :
      (pid : ℕ) (r : MemoryRegion) (golden pages : Assoc ℕ (List ℕ)) (a : ℕ)
      → Aligned r
      → capture_region_pages read pid r golden ≡ ok pages
      → r.start ≤ a
      → a < r.start + r.len
      → Restores pid r a (get pages (align_to_page a))
  capture_region_pages-Restores pid r golden pages a aligned h low high =
      let (buffer, e, s) = capture_region_pages-ok pid r golden pages h in
      let (above, below, near) = align_to_page_le r.start a aligned low in
      let offset = align_to_page a - r.start in
      let set =
        split_pages-covers (rounds r.len) r.start buffer r.len 0 golden a (omega arith)
          (rounds_enough r.len) (omega arith) high in
      let same : offset + (a - align_to_page a) ≡ a - r.start = omega arith in
      (
        buffer,
        page_at buffer r.len offset,
        e,
        rw (← s) set,
        get_elem?-page_at buffer r.len offset (a - align_to_page a) near (omega arith)
            ∙ ap (λ i. get_elem? buffer i) same,
      )

  -- A page outside of each region is kept.
  pub capture_regions-Outside :
      (pid : ℕ) (rs : List MemoryRegion) (golden last : Assoc ℕ (List ℕ)) (p : ℕ)
      → All (λ r. Outside p r) rs
      → capture_regions read pid rs golden ≡ ok last
      → get last p ≡ get golden p
  capture_regions-Outside pid [] golden last p out h = capture_regions-nil pid golden last p h
  capture_regions-Outside pid (r ∷ rs) golden last p out h =
      let (pages, e, k) = capture_regions-cons pid r rs golden last h in
      let (buffer, _, s) = capture_region_pages-ok pid r golden pages e in
      let side : (p < r.start + 0) ⊎ (r.start + r.len ≤ p) = elim (out.0) [
        | inl low ↦ inl (omega arith)
        | inr high ↦ inr high
      ] in
      capture_regions-Outside pid rs pages last p out.1 k
      ∙ ground (arith, s, split_pages-outside (rounds r.len) r.start buffer r.len 0 golden p side)

  pub capture_regions-Restores :
      (pid : ℕ) (rs : List MemoryRegion) (golden last : Assoc ℕ (List ℕ)) (i a : ℕ)
      (r : MemoryRegion)
      → All Aligned rs
      → Apart rs
      → capture_regions read pid rs golden ≡ ok last
      → get_elem? rs i ≡ some r
      → r.start ≤ a
      → a < r.start + r.len
      → Restores pid r a (get last (align_to_page a))
  capture_regions-Restores pid [] golden last i a r aligned apart h e low high = absurd (cc)
  capture_regions-Restores pid (s ∷ rs) golden last zero a r aligned apart h e low high =
      let (pages, k, l) = capture_regions-cons pid s rs golden last h in
      let same : s ≡ r = ground (arith, e) in
      let (above, below, near) = align_to_page_le r.start a (subst Aligned same aligned.0) low in
      let out : All (λ t. Outside (align_to_page a) t) rs =
        All-map (λ t. (s.start + s.len ≤ t.start) ⊎ (t.start + t.len ≤ s.start))
          (λ t. Outside (align_to_page a) t) rs
          (λ t c.
            apart_page s t a (align_to_page a) c (rw same above)
              (omega (arith, below, ap (λ x. x.start + x.len) same)))
          apart.0 in
      rw (capture_regions-Outside pid rs pages last (align_to_page a) out l) (
        capture_region_pages-Restores pid r golden pages a (subst Aligned same aligned.0)
          (subst (λ t. capture_region_pages read pid t golden ≡ ok pages) same k) low high)
  capture_regions-Restores pid (s ∷ rs) golden last (suc i) a r aligned apart h e low high =
      let (pages, k, l) = capture_regions-cons pid s rs golden last h in
      capture_regions-Restores pid rs pages last i a r aligned.1 apart.1 l e low high
