-- ===== src/Snapshot/Pages.antt =====
-- The pages of a region (src/snapshot.rs: align_to_page, capture_region_pages).
use tach_core.Base.{
  ℕ, zero, suc, ◌+◌, ◌-◌, ◌*◌, ◌/◌, ◌%◌, ◌<◌, ◌≤◌, ◌≡◌, ◌==◌, ==_iff, refl, true, false, some, List,
  [], ◌∷◌, take, drop, get_elem?, ltb, if◌then◌else◌, Bool-cases, ◌∙◌, ◌⊎◌, inl, inr, Assoc, get,
  insert, get-insert, nat_eq, arith,
}

abbrev pub page_size : ℕ
page_size = 4096

-- addr & !(PAGE_SIZE - 1)
unfoldable pub align_to_page : ℕ → ℕ
align_to_page addr = addr - addr % page_size

-- buffer[offset..page_end] of the loop's page at `offset`
unfoldable pub page_at : List ℕ → ℕ → ℕ → List ℕ
page_at buffer len offset =
    let page_end = if ltb (offset + page_size) len then offset + page_size else len in
    take (page_end - offset) (drop offset buffer)

-- The loop over the offsets, with the number of its rounds as fuel.
unfoldable pub split_pages : ℕ → ℕ → List ℕ → ℕ → ℕ → Assoc ℕ (List ℕ) → Assoc ℕ (List ℕ)
split_pages zero start buffer len offset pages = pages
split_pages (suc n) start buffer len offset pages =
    let rest =
      split_pages n start buffer len (offset + page_size)
        (insert pages (start + offset) (page_at buffer len offset)) in
    if ltb offset len then rest else pages

unfoldable pub rounds : ℕ → ℕ
rounds len = suc (len / page_size)

align-page : (p a : ℕ) → p % page_size ≡ 0 → p ≤ a → a < p + page_size → align_to_page a ≡ p
unfolding align_to_page
align-page p a aligned low high = omega arith

get_elem?-take :
    {A : Type 0} (n i : ℕ) (xs : List A) → i < n → get_elem? (take n xs) i ≡ get_elem? xs i
get_elem?-take zero i xs h = elim h [ ]
get_elem?-take (suc n) i [] h = refl
get_elem?-take (suc n) zero (x ∷ xs) h = refl
get_elem?-take (suc n) (suc i) (x ∷ xs) h = get_elem?-take n i xs (omega arith)

get_elem?-drop :
    {A : Type 0} (n i : ℕ) (xs : List A) → get_elem? (drop n xs) i ≡ get_elem? xs (n + i)
get_elem?-drop zero i xs = let e : 0 + i ≡ i = omega arith in rw e refl
get_elem?-drop (suc n) i [] = refl
get_elem?-drop (suc n) i (x ∷ xs) =
    let e : suc n + i ≡ suc (n + i) = omega arith in rw e (get_elem?-drop n i xs)

-- The page at an offset has the buffer's bytes from there, up to the next page or the end.
pub get_elem?-page_at :
    (buffer : List ℕ) (len offset i : ℕ)
    → i < page_size
    → offset + i < len
    → get_elem? (page_at buffer len offset) i ≡ get_elem? buffer (offset + i)
unfolding page_at
get_elem?-page_at buffer len offset i h k =
    let page_end = if ltb (offset + page_size) len then offset + page_size else len in
    let inside : i < page_end - offset = ground arith in
    get_elem?-take (page_end - offset) i (drop offset buffer) inside
    ∙ get_elem?-drop offset i buffer

-- The loop sets no page below its offset and none behind the region's end.
pub split_pages-outside :
    (n start : ℕ) (buffer : List ℕ) (len offset : ℕ) (pages : Assoc ℕ (List ℕ)) (p : ℕ)
    → (p < start + offset) ⊎ (start + len ≤ p)
    → get (split_pages n start buffer len offset pages) p ≡ get pages p
unfolding split_pages
split_pages-outside zero start buffer len offset pages p h = refl
split_pages-outside (suc n) start buffer len offset pages p h = elim (Bool-cases (ltb offset len)) [
  | inr e ↦ ground (arith, e)
  | inl e ↦
      let bytes = page_at buffer len offset in
      let later =
        split_pages-outside n start buffer len (offset + page_size)
          (insert pages (start + offset) bytes) p
          (elim h [ inl low ↦ inl (omega arith) | inr high ↦ inr high ]) in
      let here : (start + offset == p) ≡ false = elim h [
        | inl low ↦ ground (arith, low, ==_iff (start + offset) p)
        | inr high ↦ ground (arith, e, high, ==_iff (start + offset) p)
      ] in
      ground (arith, e, later, get-insert pages (start + offset) p bytes, here)
]

-- With a page-aligned start and enough rounds, the page of every address that is left is set, to the
-- buffer's bytes from there.
pub split_pages-covers :
    (n start : ℕ) (buffer : List ℕ) (len offset : ℕ) (pages : Assoc ℕ (List ℕ)) (a : ℕ)
    → (start + offset) % page_size ≡ 0
    → len < offset + n * page_size
    → start + offset ≤ a
    → a < start + len
    → get (split_pages n start buffer len offset pages) (align_to_page a)
      ≡ some (page_at buffer len (align_to_page a - start))
unfolding split_pages
split_pages-covers zero start buffer len offset pages a aligned enough low high =
    absurd (omega arith)
split_pages-covers (suc n) start buffer len offset pages a aligned enough low high =
    let bytes = page_at buffer len offset in
    let next = insert pages (start + offset) bytes in
    let open_ : ltb offset len ≡ true = ground arith in
    elim (Bool-cases (ltb a (start + offset + page_size))) [
      | inl near ↦
          let e : align_to_page a ≡ start + offset =
            align-page (start + offset) a aligned low (ground (arith, near)) in
          let kept =
            split_pages-outside n start buffer len (offset + page_size) next (start + offset)
              (inl (omega arith)) in
          let o : start + offset - start ≡ offset = omega arith in
          rw e (
            ground (
              arith,
              open_,
              kept,
              o,
              get-insert pages (start + offset) (start + offset) bytes,
              ==_iff (start + offset) (start + offset),
            ))
      | inr far ↦
          let later =
            split_pages-covers n start buffer len (offset + page_size) next a (omega arith)
              (omega arith) (ground (arith, far)) high in
          ground (arith, open_, later)
    ]

-- The page of an address in an aligned region starts in the region, less than a page below it.
pub align_to_page_le :
    (start a : ℕ)
    → start % page_size ≡ 0
    → start ≤ a
    → (start ≤ align_to_page a) × (align_to_page a ≤ a) × (a - align_to_page a < page_size)
unfolding align_to_page
align_to_page_le start a aligned low = (omega arith, omega arith, omega arith)

pub rounds_enough : (len : ℕ) → len < 0 + rounds len * page_size
unfolding rounds
rounds_enough len = omega arith
