-- ===== src/Logs/Roundtrip.antt =====
-- What is printed on a slot is what is read from it, and each time only that (src/logcapture.rs).
use tach_core.Base.{
  ℕ, zero, suc, ◌+◌, ◌-◌, ◌==◌, ==_refl, ◌≡◌, refl, ◌∙◌, ap, Text, true, Option, some, List, [],
  ◌∷◌, ◌++◌, take, drop, length, All, Bool-cases, inl, inr, map, nat_eq, arith, fun_ext,
}
use tach_core.Discovery.Injected.{is_whitespace}
use tach_core.Logs.Utf8.{from_utf8, decode, next_byte, push, from_utf8-append}
use tach_core.Logs.Capture.{
  Memfd, log_buffer_size, zeros, ftruncate, seek_to_start, write, trim_end_matches, read_to_string,
  read_to_end, trimmed, LogCapture, get_fd, Files, set_file, clear, read_and_clear, redirect_output,
  print_to, print_log,
}

drop-zeros : (n k : ℕ) → drop n (zeros k) ≡ zeros (k - n)
unfolding zeros
drop-zeros zero k = let same : k ≡ k - 0 = omega arith in ap zeros same
drop-zeros (suc n) zero = let same : 0 ≡ 0 - suc n = omega arith in ap zeros same
drop-zeros (suc n) (suc k) =
    let same : k - n ≡ suc k - suc n = omega arith in drop-zeros n k ∙ ap zeros same

zeros_none : zeros 0 ≡ []
unfolding zeros
zeros_none = refl

from_utf8-zeros : (n : ℕ) → from_utf8 (zeros n) ≡ some (zeros n)
unfolding from_utf8 decode next_byte push zeros
from_utf8-zeros zero = refl
from_utf8-zeros (suc n) = ground (arith, from_utf8-zeros n)

trim_end_matches-zeros : (n : ℕ) → trim_end_matches (λ c. c == 0) (zeros n) ≡ []
unfolding trim_end_matches zeros
trim_end_matches-zeros zero = refl
trim_end_matches-zeros (suc n) = ground (arith, trim_end_matches-zeros n)

-- Zeros behind a text are trimmed.
trim_end_matches-append_zeros :
    (t : Text) (n : ℕ)
    → trim_end_matches (λ c. c == 0) (t ++ zeros n) ≡ trim_end_matches (λ c. c == 0) t
unfolding trim_end_matches
trim_end_matches-append_zeros [] n = trim_end_matches-zeros n
trim_end_matches-append_zeros (c ∷ t) n = rw (trim_end_matches-append_zeros t n) refl

take_nothing : (n : ℕ) (ys : List ℕ) → take n [] ++ ys ≡ ys
take_nothing zero ys = refl
take_nothing (suc n) ys = refl

-- A buffer that no output is left in.
abbrev pub IsFresh : Memfd → Type 0
IsFresh f = f.bytes ≡ zeros log_buffer_size

-- The file of a worker that has printed.
abbrev pub output : Memfd → List ℕ → Memfd
output f printed = write (seek_to_start f) printed

output-bytes :
    (f : Memfd) (printed : List ℕ)
    → IsFresh f
    → (output f printed).bytes ≡ printed ++ zeros (log_buffer_size - length printed)
unfolding write seek_to_start
output-bytes f printed fresh =
    let none_missing : 0 - length f.bytes ≡ 0 = omega arith in
    let same : 0 + length printed ≡ length printed = omega arith in
    ap (λ k. zeros k ++ printed ++ drop (0 + length printed) f.bytes) none_missing
    ∙ ap (λ l. l ++ printed ++ drop (0 + length printed) f.bytes) zeros_none
    ∙ ap (λ k. printed ++ drop k f.bytes) same
    ∙ ap (λ l. printed ++ drop (length printed) l) fresh
    ∙ ap (λ l. printed ++ l) (drop-zeros (length printed) log_buffer_size)

read_to_string-seek_to_start :
    (f : Memfd) (text : Text)
    → from_utf8 f.bytes ≡ some text
    → read_to_string (seek_to_start f) ≡ text
unfolding read_to_string seek_to_start
read_to_string-seek_to_start f text e = rw (e, read_to_string) refl

read_to_string-output :
    (f : Memfd) (printed : List ℕ) (text : Text)
    → IsFresh f
    → from_utf8 printed ≡ some text
    → read_to_string (seek_to_start (output f printed))
      ≡ text ++ zeros (log_buffer_size - length printed)
read_to_string-output f printed text fresh e =
    let n = log_buffer_size - length printed in
    read_to_string-seek_to_start (output f printed) (text ++ zeros n) (
      ap from_utf8 (output-bytes f printed fresh)
      ∙ from_utf8-append printed (zeros n) text (zeros n) e (from_utf8-zeros n))

clear-output :
    (f : Memfd) (printed : List ℕ) (text : Text)
    → IsFresh f
    → from_utf8 printed ≡ some text
    → (clear (output f printed)).0 ≡ trimmed text
unfolding clear trimmed
clear-output f printed text fresh e =
    ap trimmed (read_to_string-output f printed text fresh e)
    ∙ ap (λ t. trim_end_matches is_whitespace t)
        (trim_end_matches-append_zeros text (log_buffer_size - length printed))

emptied : (f : Memfd) (size : ℕ) → (ftruncate (ftruncate f 0) size).bytes ≡ zeros size
unfolding ftruncate
emptied f size =
    let gone : 0 - length f.bytes ≡ 0 = omega arith in
    let no_bytes : zeros (0 - length f.bytes) ≡ [] = ap zeros gone ∙ zeros_none in
    let all : size - 0 ≡ size = omega arith in
    ap (λ l. take size l ++ zeros (size - length l)) no_bytes
    ∙ take_nothing size (zeros (size - 0))
    ∙ ap zeros all

clear-IsFresh : (f : Memfd) → IsFresh (clear f).1
unfolding clear
clear-IsFresh f = emptied (read_to_end (seek_to_start f)) log_buffer_size

-- A slot, what is printed there, and its text.
abbrev pub Log : Type 0
Log = ℕ × List ℕ × Text

abbrev pub IsLog : LogCapture → Log → Type 0
IsLog c (slot, printed, text) =
    ((fd : ℕ) × (get_fd c slot ≡ some fd)) × (from_utf8 printed ≡ some text)

-- Tests that print on slots one after the other, and the logs that are read behind each.
abbrev pub logs : LogCapture → Files → List Log → List (Option Text)
logs c files [] = []
logs c files ((slot, printed, text) ∷ more) =
    let (log, after) = read_and_clear true c (print_log c files slot printed) slot in
    log ∷ logs c after more

set_file_same : (files : Files) (fd : ℕ) (f : Memfd) → set_file files fd f fd ≡ f
unfolding set_file
set_file_same files fd f = ground (arith, ==_refl fd)

-- The file is sought, and then written.
set_file_twice :
    (files : Files) (fd : ℕ) (f g : Memfd)
    → set_file (set_file files fd f) fd g ≡ set_file files fd g
unfolding set_file
set_file_twice files fd f g = fun_ext (λ h. elim (Bool-cases (h == fd)) [
  | inl e ↦ rw (e, set_file) refl
  | inr e ↦ rw (e, set_file) refl
])

print_log-some :
    (c : LogCapture) (files : Files) (slot fd : ℕ) (printed : List ℕ)
    → get_fd c slot ≡ some fd
    → print_log c files slot printed ≡ set_file files fd (output (files fd) printed)
unfolding print_log redirect_output print_to
print_log-some c files slot fd printed at =
    let sought = set_file files fd (seek_to_start (files fd)) in
    let redirected : print_log c files slot printed
        ≡ set_file sought fd (write (sought fd) printed) =
      rw (at, print_log, redirect_output, print_to) refl in
    redirected
    ∙ ap (λ g. set_file sought fd (write g printed))
        (set_file_same files fd (seek_to_start (files fd)))
    ∙ set_file_twice files fd (seek_to_start (files fd)) (output (files fd) printed)

read_and_clear-some :
    (c : LogCapture) (files : Files) (slot fd : ℕ)
    → get_fd c slot ≡ some fd
    → read_and_clear true c files slot
      ≡ (some (clear (files fd)).0, set_file files fd (clear (files fd)).1)
unfolding read_and_clear
read_and_clear-some c files slot fd at = ground (arith, at)

-- One test's log: what is read, and the buffers behind it.
logged :
    (c : LogCapture) (files : Files) (slot fd : ℕ) (printed : List ℕ)
    → get_fd c slot ≡ some fd
    → read_and_clear true c (print_log c files slot printed) slot ≡ (
      some (clear (output (files fd) printed)).0,
      set_file
          (set_file files fd (output (files fd) printed))
          fd
          (clear (output (files fd) printed)).1,
    )
logged c files slot fd printed at =
    let f = output (files fd) printed in
    let step = read_and_clear-some c (set_file files fd f) slot fd at in
    ap (λ g. read_and_clear true c g slot) (print_log-some c files slot fd printed at)
    ∙ step
    ∙ ap (λ g. (some (clear g).0, set_file (set_file files fd f) fd (clear g).1))
        (set_file_same files fd f)

turned-IsFresh :
    (files : Files) (fd g : ℕ) (f h : Memfd)
    → IsFresh (files g)
    → IsFresh h
    → IsFresh (set_file (set_file files fd f) fd h g)
unfolding set_file
turned-IsFresh files fd g f h old new = elim (Bool-cases (g == fd)) [
  | inl e ↦ rw (e, set_file) new
  | inr e ↦ rw (e, set_file) old
]

-- On buffers without output, tests that print UTF-8 one after the other, each on some slot of
-- the capture, and whose logs are read when they have ended, have for logs exactly what they printed,
-- without the NULs and then the white space at its end: nothing is left of an earlier test on the slot, and
-- nothing is lost, however much is printed.
pub logs-trimmed :
    (c : LogCapture) (files : Files) (prints : List Log)
    → ((slot fd : ℕ) → get_fd c slot ≡ some fd → IsFresh (files fd))
    → All (IsLog c) prints
    → logs c files prints ≡ map (λ (slot, printed, text). some (trimmed text)) prints
logs-trimmed c files [] fresh are = refl
logs-trimmed c files ((slot, printed, text) ∷ prints) fresh (((fd, at), e), are) =
    let f = output (files fd) printed in
    let after = set_file (set_file files fd f) fd (clear f).1 in
    ap (λ r. r.0 ∷ logs c r.1 prints) (logged c files slot fd printed at)
    ∙ ap (λ t. some t ∷ logs c after prints)
        (clear-output (files fd) printed text (fresh slot fd at) e)
    ∙ ap (λ l. some (trimmed text) ∷ l)
        (logs-trimmed c after prints
          (λ s g k. turned-IsFresh files fd g f (clear f).1 (fresh s g k) (clear-IsFresh f)) are)
