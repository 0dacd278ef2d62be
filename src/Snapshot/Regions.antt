-- ===== src/Snapshot/Regions.antt =====
-- The memory regions of src/snapshot.rs: MemoryRegion and parse_memory_maps.
use tach_core.Base.{
  ℕ, ◌+◌, ◌-◌, ◌*◌, ◌%◌, ◌^◌, Text, chars, Bool, true, false, not, ◌&&◌, ◌||◌, ◌==◌, Option, none,
  some, List, [], ◌∷◌, keep_if, ltb, leb, is_empty, if◌then◌else◌, contains_text, split_char,
  join_char, nat_eq,
}
use tach_core.Discovery.Injected.{is_whitespace}

pub record MemoryRegion : Type 0 where
  pub start : ℕ
  pub «end» : ℕ
  pub len : ℕ
  pub perms : Text
  pub name : Text

-- The conditions in the code's order; the first that holds decides.
unfoldable pub should_snapshot : MemoryRegion → Bool
should_snapshot r =
    if not (contains_text r.perms (chars "w"))
    then false
    else if contains_text r.name (chars "[vdso]") || contains_text r.name (chars "[vsyscall]")
    then false
    else if contains_text r.name (chars "[heap]")
    then true
    else if contains_text r.name (chars "[stack]")
    then true
    else if contains_text r.name (chars "libpython")
    then true
    else is_empty r.name && contains_text r.perms (chars "p")

unfoldable pub is_stack : MemoryRegion → Bool
is_stack r = contains_text r.name (chars "[stack]")

-- line.split_whitespace(): the runs of characters between the spaces.
unfoldable pub split_whitespace : Text → List Text
split_whitespace [] = []
split_whitespace (c ∷ s) =
    let words = split_whitespace s in
    let continues : Bool = elim s [ [] ↦ false | d ∷ _ ↦ not (is_whitespace d) ] in
    if is_whitespace c
    then words
    else if continues
    then elim words [ [] ↦ (c ∷ []) ∷ [] | word ∷ rest ↦ (c ∷ word) ∷ rest ]
    else (c ∷ []) ∷ words

unfoldable pub hex_digit : ℕ → Option ℕ
hex_digit c =
    if leb b'0' c && leb c b'9'
    then some (c - b'0')
    else if leb b'a' c && leb c b'f'
    then some (c - b'a' + 10)
    else if leb b'A' c && leb c b'F'
    then some (c - b'A' + 10)
    else none

-- The digits from the left, onto the number read so far; a number over 64 bits is an error.
unfoldable pub hex_digits : ℕ → Text → Option ℕ
unfolding hex_digit
hex_digits n [] = some n
hex_digits n (c ∷ s) = elim (hex_digit c) [
  | none ↦ none
  | some d ↦ elim (ltb (n * 16 + d) (2 ^ 64)) [ true ↦ hex_digits (n * 16 + d) s | false ↦ none ]
]

-- usize::from_str_radix(s, 16)
unfoldable pub from_str_radix : Text → Option ℕ
unfolding hex_digits
from_str_radix [] = none
from_str_radix (c ∷ s) =
    if (c == b'+') && not (is_empty s) then hex_digits 0 s else hex_digits 0 (c ∷ s)

unfoldable pub unwrap_or : Option ℕ → ℕ → ℕ
unwrap_or none n = n
unwrap_or (some m) n = m

-- One line. `end - start` wraps as in a release build.
unfoldable pub parse_line : Text → Option MemoryRegion
unfolding split_whitespace from_str_radix unwrap_or
parse_line line = elim (split_whitespace line) [
  | range ∷ perms ∷ offset ∷ dev ∷ inode ∷ path ↦ elim (split_char b'-' range) [
    | low ∷ high ∷ [] ↦
        let start = unwrap_or (from_str_radix low) 0 in
        let end_ = unwrap_or (from_str_radix high) 0 in
        some (record {
          start = start;
          «end» = end_;
          len = (end_ + 2 ^ 64 - start) % 2 ^ 64;
          perms = perms;
          name = join_char b' ' path;
        })
    | _ ↦ none
  ]
  | _ ↦ none
]

unfoldable pub parse_lines : List Text → List MemoryRegion
unfolding parse_line
parse_lines [] = []
parse_lines (line ∷ lines) =
    let rest = parse_lines lines in elim (parse_line line) [ none ↦ rest | some r ↦ r ∷ rest ]

-- The text of /proc/{pid}/maps; `none` is a failed read. An empty last line and a carriage return
-- add no word to a line, so splitting at each line feed finds the regions that `lines` finds.
unfoldable pub parse_memory_maps : Option Text → Option (List MemoryRegion)
unfolding parse_lines
parse_memory_maps none = none
parse_memory_maps (some content) = some (parse_lines (split_char 0x0a content))

unfoldable pub snapshot_regions : List MemoryRegion → List MemoryRegion
unfolding should_snapshot
snapshot_regions = λ regions. keep_if should_snapshot regions
