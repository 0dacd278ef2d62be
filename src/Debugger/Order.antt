-- ===== src/Debugger/Order.antt =====
-- What the two loops of a session copy (src/debugger.rs, handle_session).
use mathlib.Core.Path.{subst}
use tach_core.Base.{
  ℕ, zero, suc, ◌≡◌, ◌⊎◌, inl, inr, refl, sym, ◌∙◌, ap, Bool, true, false, Option, none, some, List,
  [], ◌∷◌, ◌++◌, take, drop, Bool-cases, append_assoc, append-nil, arith,
}
use tach_core.Debugger.Pipe.{
  Read, bytes, would_block, failed, Turn, of_reader, of_writer, Pipes, begun, reader_round,
  writer_round, writer_ends, turn, turns,
}

abbrev bytes_of : Read → List ℕ
bytes_of (bytes l) = l
bytes_of would_block = []
bytes_of failed = []

-- What the socket, and what the terminal, gives in some turns.
abbrev pub from_socket : List Turn → List ℕ
from_socket [] = []
from_socket (of_reader r written ∷ ts) = bytes_of r ++ from_socket ts
from_socket (of_writer r written ∷ ts) = from_socket ts

abbrev pub from_stdin : List Turn → List ℕ
from_stdin [] = []
from_stdin (of_reader r written ∷ ts) = from_stdin ts
from_stdin (of_writer r written ∷ ts) = bytes_of r ++ from_stdin ts

-- A loop that goes on has written all that was given, and one that has ended a first part of it.
abbrev pub Copies : Bool → List ℕ → List ℕ → Type 0
Copies alive written given =
    ((alive ≡ true) × (written ≡ given))
    ⊎ ((alive ≡ false) × ((rest : List ℕ) × (given ≡ written ++ rest)))

-- What is given to a loop that has ended makes no difference.
ended-Copies :
    (alive : Bool) (written given more : List ℕ)
    → alive ≡ false
    → Copies alive written given
    → Copies alive written (given ++ more)
ended-Copies alive written given more off (inl (on, e)) = absurd (cc)
ended-Copies alive written given more off (inr (e, (rest, h))) =
    inr (e, (rest ++ more, ap (λ l. l ++ more) h ∙ append_assoc written rest more))

-- A loop that ends keeps what it has written.
ends-Copies :
    (alive : Bool) (written given more : List ℕ)
    → alive ≡ true
    → Copies alive written given
    → Copies false written (given ++ more)
ends-Copies alive written given more on (inl (a, e)) =
    inr (refl, (more, ap (λ l. l ++ more) (sym e)))
ends-Copies alive written given more on (inr (a, h)) = absurd (cc)

nil-Copies :
    (alive : Bool) (written given : List ℕ)
    → Copies alive written given
    → Copies alive written (given ++ [])
nil-Copies alive written given h = rw (append-nil given) h

-- All of a read is written, or a part, which ends the loop.
write-Copies :
    (alive : Bool) (written given more : List ℕ)
    → alive ≡ true
    → Copies alive written given
    → Copies alive (written ++ more) (given ++ more)
write-Copies alive written given more on (inl (a, e)) = inl (a, ap (λ l. l ++ more) e)
write-Copies alive written given more on (inr (a, h)) = absurd (cc)

take-drop : (n : ℕ) (l : List ℕ) → l ≡ take n l ++ drop n l
take-drop zero l = refl
take-drop (suc n) [] = refl
take-drop (suc n) (x ∷ l) = ap (λ k. x ∷ k) (take-drop n l)

part-Copies :
    (alive : Bool) (written given more : List ℕ) (n : ℕ)
    → alive ≡ true
    → Copies alive written given
    → Copies false (written ++ take n more) (given ++ more)
part-Copies alive written given more n on (inl (a, e)) = inr (
  refl,
  (
    drop n more,
    ap (λ l. given ++ l) (take-drop n more)
        ∙ ap (λ l. l ++ (take n more ++ drop n more)) (sym e)
        ∙ sym (append_assoc written (take n more) (drop n more)),
  ),
)
part-Copies alive written given more n on (inr (a, h)) = absurd (cc)

reader_round-Copies :
    (r : Read) (written : Option ℕ) (p : Pipes) (given : List ℕ)
    → p.reader ≡ true
    → Copies p.reader p.stdout given
    → Copies
        (reader_round r written p).reader
        (reader_round r written p).stdout
        (given ++ bytes_of r)
unfolding reader_round
reader_round-Copies would_block written p given on h = nil-Copies p.reader p.stdout given h
reader_round-Copies failed written p given on h = ends-Copies p.reader p.stdout given [] on h
reader_round-Copies (bytes []) written p given on h = ends-Copies p.reader p.stdout given [] on h
reader_round-Copies (bytes (b ∷ bs)) none p given on h =
    write-Copies p.reader p.stdout given (b ∷ bs) on h
reader_round-Copies (bytes (b ∷ bs)) (some n) p given on h =
    part-Copies p.reader p.stdout given (b ∷ bs) n on h

writer_round-Copies :
    (r : Read) (written : Option ℕ) (p : Pipes) (given : List ℕ)
    → p.writer ≡ true
    → Copies p.writer p.socket given
    → Copies
        (writer_round r written p).writer
        (writer_round r written p).socket
        (given ++ bytes_of r)
unfolding writer_round writer_ends
writer_round-Copies would_block written p given on h = nil-Copies p.writer p.socket given h
writer_round-Copies failed written p given on h = ends-Copies p.writer p.socket given [] on h
writer_round-Copies (bytes []) written p given on h = ends-Copies p.writer p.socket given [] on h
writer_round-Copies (bytes (b ∷ bs)) none p given on h =
    write-Copies p.writer p.socket given (b ∷ bs) on h
writer_round-Copies (bytes (b ∷ bs)) (some n) p given on h =
    part-Copies p.writer p.socket given (b ∷ bs) n on h

-- Each loop leaves the other one's state but the flag.
reader_round_other :
    (r : Read) (written : Option ℕ) (p : Pipes)
    → ((reader_round r written p).writer ≡ p.writer)
      × ((reader_round r written p).socket ≡ p.socket)
unfolding reader_round
reader_round_other would_block written p = (refl, refl)
reader_round_other failed written p = (refl, refl)
reader_round_other (bytes []) written p = (refl, refl)
reader_round_other (bytes (b ∷ bs)) none p = (refl, refl)
reader_round_other (bytes (b ∷ bs)) (some n) p = (refl, refl)

writer_round_other :
    (r : Read) (written : Option ℕ) (p : Pipes)
    → ((writer_round r written p).reader ≡ p.reader)
      × ((writer_round r written p).stdout ≡ p.stdout)
unfolding writer_round writer_ends
writer_round_other would_block written p = (refl, refl)
writer_round_other failed written p = (refl, refl)
writer_round_other (bytes []) written p = (refl, refl)
writer_round_other (bytes (b ∷ bs)) none p = (refl, refl)
writer_round_other (bytes (b ∷ bs)) (some n) p = (refl, refl)

-- Both loops copy.
abbrev Both : Pipes → List ℕ → List ℕ → Type 0
Both p a b = Copies p.reader p.stdout a × Copies p.writer p.socket b

reader_off :
    (r : Read) (written : Option ℕ) (p : Pipes)
    → p.reader ≡ false
    → turn (of_reader r written) p ≡ p
unfolding turn
reader_off r written p off = ground (arith, off)

reader_stops :
    (r : Read) (written : Option ℕ) (p : Pipes)
    → p.reader ≡ true
    → p.running ≡ false
    → turn (of_reader r written) p ≡ record p { reader = false }
unfolding turn
reader_stops r written p on out = ground (arith, on, out)

reader_runs :
    (r : Read) (written : Option ℕ) (p : Pipes)
    → p.reader ≡ true
    → p.running ≡ true
    → turn (of_reader r written) p ≡ reader_round r written p
unfolding turn
reader_runs r written p on up = ground (arith, on, up)

writer_off :
    (r : Read) (written : Option ℕ) (p : Pipes)
    → p.writer ≡ false
    → turn (of_writer r written) p ≡ p
unfolding turn
writer_off r written p off = ground (arith, off)

writer_stops :
    (r : Read) (written : Option ℕ) (p : Pipes)
    → p.writer ≡ true
    → p.running ≡ false
    → turn (of_writer r written) p ≡ writer_ends p
unfolding turn
writer_stops r written p on out = ground (arith, on, out)

writer_runs :
    (r : Read) (written : Option ℕ) (p : Pipes)
    → p.writer ≡ true
    → p.running ≡ true
    → turn (of_writer r written) p ≡ writer_round r written p
unfolding turn
writer_runs r written p on up = ground (arith, on, up)

reader_turn-Both :
    (r : Read) (written : Option ℕ) (p : Pipes) (a b : List ℕ)
    → Both p a b
    → Both (turn (of_reader r written) p) (a ++ bytes_of r) b
reader_turn-Both r written p a b (h, k) = elim (Bool-cases p.reader) [
  | inr off ↦
      rw (reader_off r written p off) (ended-Copies p.reader p.stdout a (bytes_of r) off h, k)
  | inl on ↦ elim (Bool-cases p.running) [
    | inr out ↦
        rw (reader_stops r written p on out) (ends-Copies p.reader p.stdout a (bytes_of r) on h, k)
    | inl up ↦
        let (x, y) = reader_round_other r written p in
        rw (reader_runs r written p on up) (
          reader_round-Copies r written p a on h,
          subst (λ l. Copies (reader_round r written p).writer l b) (sym y)
              (subst (λ z. Copies z p.socket b) (sym x) k),
        )
  ]
]

writer_turn-Both :
    (r : Read) (written : Option ℕ) (p : Pipes) (a b : List ℕ)
    → Both p a b
    → Both (turn (of_writer r written) p) a (b ++ bytes_of r)
unfolding writer_ends
writer_turn-Both r written p a b (h, k) = elim (Bool-cases p.writer) [
  | inr off ↦
      rw (writer_off r written p off) (h, ended-Copies p.writer p.socket b (bytes_of r) off k)
  | inl on ↦ elim (Bool-cases p.running) [
    | inr out ↦
        rw (writer_stops r written p on out) (h, ends-Copies p.writer p.socket b (bytes_of r) on k)
    | inl up ↦
        let (x, y) = writer_round_other r written p in
        rw (writer_runs r written p on up) (
          subst (λ l. Copies (writer_round r written p).reader l a) (sym y)
              (subst (λ z. Copies z p.stdout a) (sym x) h),
          writer_round-Copies r written p b on k,
        )
  ]
]

turns-Both :
    (ts : List Turn) (p : Pipes) (a b : List ℕ)
    → Both p a b
    → Both (turns ts p) (a ++ from_socket ts) (b ++ from_stdin ts)
unfolding turns
turns-Both [] p a b (h, k) = (nil-Copies p.reader p.stdout a h, nil-Copies p.writer p.socket b k)
turns-Both (of_reader r written ∷ ts) p a b h =
    rw (← append_assoc a (bytes_of r) (from_socket ts)) (
      turns-Both ts (turn (of_reader r written) p) (a ++ bytes_of r) b
        (reader_turn-Both r written p a b h))
turns-Both (of_writer r written ∷ ts) p a b h = rw (← append_assoc b (bytes_of r) (from_stdin ts)) (
    turns-Both ts (turn (of_writer r written) p) a (b ++ bytes_of r)
      (writer_turn-Both r written p a b h))

-- In whatever order the two loops of a session take their rounds, and whichever reads and writes fail, the
-- standard output has what the socket gave, in order, as long as its loop goes on, and a first part of it when
-- the loop has ended; the same holds of the socket and what the standard input gave.
pub turns-Copies :
    (ts : List Turn)
    → Copies (turns ts begun).reader (turns ts begun).stdout (from_socket ts)
      × Copies (turns ts begun).writer (turns ts begun).socket (from_stdin ts)
unfolding begun
turns-Copies ts = turns-Both ts begun [] [] (inl (refl, refl), inl (refl, refl))
