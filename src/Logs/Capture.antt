-- ===== src/Logs/Capture.antt =====
-- LogCapture (src/logcapture.rs). A memory file has its bytes and the offset that all duplicates of its
-- descriptor share; the number of bytes is its size.
use tach_core.Base.{
  ℕ, zero, suc, ◌+◌, ◌*◌, ◌-◌, ◌==◌, Text, Bool, true, false, Option, none, some, List, [], ◌∷◌,
  ◌++◌, take, drop, length, if◌then◌else◌, Assoc, get, insert, nat_eq, leb,
}
use tach_core.Discovery.Injected.{is_whitespace}
use tach_core.Logs.Utf8.{from_utf8}

abbrev pub log_buffer_size : ℕ
log_buffer_size = 1024 * 1024

pub record Memfd : Type 0 where
  pub bytes : List ℕ
  pub offset : ℕ

unfoldable pub zeros : ℕ → List ℕ
zeros zero = []
zeros (suc n) = 0 ∷ zeros n

-- ftruncate: the bytes behind the size go, missing ones are zero.
unfoldable pub ftruncate : Memfd → ℕ → Memfd
unfolding zeros
ftruncate f size = record f { bytes = take size f.bytes ++ zeros (size - length f.bytes) }

unfoldable pub seek_to_start : Memfd → Memfd
seek_to_start f = record f { offset = 0 }

-- A write at the offset.
unfoldable pub write : Memfd → List ℕ → Memfd
unfolding zeros
write f data_ = record {
  bytes =
      take f.offset f.bytes
      ++ zeros (f.offset - length f.bytes)
      ++ data_
      ++ drop (f.offset + length data_) f.bytes;
  offset = f.offset + length data_;
}

-- `trim_end_matches`: the last characters that satisfy a test go.
unfoldable pub trim_end_matches : (ℕ → Bool) → Text → Text
trim_end_matches p [] = []
trim_end_matches p (c ∷ t) =
    let rest = trim_end_matches p t in
    elim rest [ [] ↦ if p c then [] else c ∷ [] | d ∷ ds ↦ c ∷ d ∷ ds ]

-- read_to_string: what is not UTF-8 leaves the string empty; the offset is at the end.
unfoldable pub read_to_string : Memfd → Text
unfolding from_utf8
read_to_string f = elim (from_utf8 (drop f.offset f.bytes)) [ none ↦ [] | some text ↦ text ]

unfoldable pub read_to_end : Memfd → Memfd
read_to_end f = record f {
  offset = if leb f.offset (length f.bytes) then length f.bytes else f.offset;
}

unfoldable pub trimmed : Text → Text
unfolding trim_end_matches
trimmed content = trim_end_matches is_whitespace (trim_end_matches (λ c. c == 0) content)

pub record LogCapture : Type 0 where
  -- the descriptors by slot
  pub fds : Assoc ℕ ℕ
  pub num_slots : ℕ

unfoldable pub get_fd : LogCapture → ℕ → Option ℕ
get_fd c slot = get c.fds slot

-- The descriptor that each memfd_create gives, and whether the buffer can be resized.
unfoldable pub create_slots : (ℕ → Option ℕ) → (ℕ → Bool) → ℕ → ℕ → Assoc ℕ ℕ → Option (Assoc ℕ ℕ)
create_slots create resize zero slot fds = some fds
create_slots create resize (suc n) slot fds = elim (create slot) [
  | none ↦ none
  | some fd ↦
      let rest = create_slots create resize n (suc slot) (insert fds slot fd) in
      if resize fd then rest else none
]

unfoldable pub new : (ℕ → Option ℕ) → (ℕ → Bool) → ℕ → Option LogCapture
unfolding create_slots
new create resize max_slots = elim (create_slots create resize max_slots 0 []) [
  | none ↦ none
  | some fds ↦ some (record { fds = fds; num_slots = max_slots })
]

-- The buffers by descriptor.
abbrev pub Files : Type 0
Files = ℕ → Memfd

unfoldable pub set_file : Files → ℕ → Memfd → Files
set_file files fd f = λ g. if g == fd then f else files g

-- read_and_clear of one buffer.
unfoldable pub clear : Memfd → Text × Memfd
unfolding seek_to_start read_to_string read_to_end ftruncate trimmed
clear f =
    let sought = seek_to_start f in
    (trimmed (read_to_string sought), ftruncate (ftruncate (read_to_end sought) 0) log_buffer_size)

-- read_and_clear: an unknown slot and a failed dup are errors. The dup fails behind the seek.
unfoldable pub read_and_clear : Bool → LogCapture → Files → ℕ → Option Text × Files
unfolding get_fd clear set_file
read_and_clear dup c files slot = elim (get_fd c slot) [
  | none ↦ (none, files)
  | some fd ↦
      let f = files fd in
      if dup
      then (some (clear f).0, set_file files fd (clear f).1)
      else (none, set_file files fd (seek_to_start f))
]

-- Where the standard output and error of a worker go; `none` is where they went at its start.
pub record Streams : Type 0 where
  pub stdout : Option ℕ
  pub stderr : Option ℕ

abbrev pub unredirected : Streams
unredirected = record { stdout = none; stderr = none }

-- redirect_output, by whether each dup2 succeeds; `none` is a negative descriptor. The result tells whether
-- there is no error.
unfoldable pub redirect_output : Bool → Bool → Option ℕ → Files → Streams → Bool × Files × Streams
unfolding seek_to_start set_file
redirect_output dup_stdout dup_stderr none files streams = (true, files, streams)
redirect_output dup_stdout dup_stderr (some fd) files streams =
    let sought = set_file files fd (seek_to_start (files fd)) in
    if dup_stdout
    then (if dup_stderr
        then (true, sought, record { stdout = some fd; stderr = some fd })
        else (false, sought, record streams { stdout = some fd }))
    else (false, sought, streams)

-- What is printed goes to the file of the standard output, if it is redirected.
unfoldable pub print_to : Option ℕ → List ℕ → Files → Files
unfolding write set_file
print_to none printed files = files
print_to (some fd) printed files = set_file files fd (write (files fd) printed)

-- A worker of a slot: it redirects its output and prints.
unfoldable pub print_log : LogCapture → Files → ℕ → List ℕ → Files
unfolding get_fd redirect_output print_to
print_log c files slot printed =
    let (ok, sought, streams) = redirect_output true true (get_fd c slot) files unredirected in
    print_to streams.stdout printed sought
