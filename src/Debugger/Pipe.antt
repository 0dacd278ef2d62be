-- ===== src/Debugger/Pipe.antt =====
-- The two loops of a session (src/debugger.rs, handle_session): the thread that copies the socket to the
-- standard output, and the main thread, which copies the standard input to the socket. They take turns in
-- any order; a turn is one round of a loop.
use tach_core.Base.{
  ℕ, Bool, true, false, not, ◌&&◌, Option, none, some, List, [], ◌∷◌, ◌++◌, take, if◌then◌else◌,
}

-- What a read gives; no bytes are the end of the input.
pub data Read : Type 0 where
  bytes : List ℕ → Read
  would_block : Read
  failed : Read

-- A round: what is read, and how many of the bytes are written if the write fails.
pub data Turn : Type 0 where
  of_reader : Read → Option ℕ → Turn
  of_writer : Read → Option ℕ → Turn

pub record Pipes : Type 0 where
  pub running : Bool
  pub reader : Bool
  pub writer : Bool
  pub stdout : List ℕ
  pub socket : List ℕ

unfoldable pub begun : Pipes
begun = record { running = true; reader = true; writer = true; stdout = []; socket = [] }

-- A read of the socket. A failed write ends the thread without clearing the flag.
unfoldable pub reader_round : Read → Option ℕ → Pipes → Pipes
reader_round would_block written p = p
reader_round failed written p = record p { running = false; reader = false }
reader_round (bytes []) written p = record p { running = false; reader = false }
reader_round (bytes (b ∷ bs)) none p = record p { stdout = p.stdout ++ (b ∷ bs) }
reader_round (bytes (b ∷ bs)) (some n) p = record p {
  stdout = p.stdout ++ take n (b ∷ bs);
  reader = false;
}

-- The loop of the main thread has ended, and the flag is cleared behind it.
unfoldable pub writer_ends : Pipes → Pipes
writer_ends p = record p { running = false; writer = false }

unfoldable pub writer_round : Read → Option ℕ → Pipes → Pipes
unfolding writer_ends
writer_round would_block written p = p
writer_round failed written p = writer_ends p
writer_round (bytes []) written p = writer_ends p
writer_round (bytes (b ∷ bs)) none p = record p { socket = p.socket ++ (b ∷ bs) }
writer_round (bytes (b ∷ bs)) (some n) p =
    writer_ends (record p { socket = p.socket ++ take n (b ∷ bs) })

-- Each loop looks at the flag first.
unfoldable pub turn : Turn → Pipes → Pipes
unfolding reader_round writer_round
turn (of_reader r written) p =
    if p.reader
    then (if p.running then reader_round r written p else record p { reader = false })
    else p
turn (of_writer r written) p =
    if p.writer then (if p.running then writer_round r written p else writer_ends p) else p

unfoldable pub turns : List Turn → Pipes → Pipes
unfolding turn
turns [] p = p
turns (t ∷ ts) p = turns ts (turn t p)

-- The join of the thread: both loops have ended.
unfoldable pub ended : Pipes → Bool
ended p = not p.reader && not p.writer
