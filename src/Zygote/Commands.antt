-- ===== src/Zygote/Commands.antt =====
-- The command loop of the zygote (src/zygote.rs, entrypoint). What the supervisor writes is a list of
-- bytes, behind which the socket is at its end.
use tach_core.Base.{
  ℕ, zero, suc, ◌==◌, Bool, Option, none, some, List, [], ◌∷◌, ◌++◌, length, if◌then◌else◌, nat_eq,
}
use tach_core.Protocol.Messages.{TestPayload, cmd_exit, cmd_fork}
use tach_core.Protocol.Frames.{read_frame}

-- What the loop does for a command.
pub data Event : Type 0 where
  -- The payload is not one: no worker, and no answer.
  undecodable : Event
  -- A worker was forked and its process id written to the command socket.
  forked : TestPayload → Event
  -- No worker, and no answer.
  fork_failed : TestPayload → Event

-- How the loop ends: by an EXIT, by a failed read of a command, or by an error that is returned. A run of
-- the loop that has not ended in so many rounds is out of fuel.
pub data End : Type 0 where
  exited : End
  read_failed : End
  error_returned : End
  out_of_fuel : End

-- The choices of the environment: whether a read behind the bytes fails, or gives 0 bytes, as at the end of
-- the stream; and, by what was done before, whether a socket pair is made, a fork succeeds and a process id
-- can be written.
pub record Server : Type 0 where
  pub deserialize : List ℕ → Option TestPayload
  pub read_fails : Bool
  pub pair : List Event → Bool
  pub fork : List Event → Bool
  pub answer : List Event → Bool

pub data Next : Type 0 where
  stop : End → List Event → Next
  go : (rest : List ℕ) → (cmd_buf : ℕ) → List Event → Next

-- A payload that was read and decoded: the socket pair, the fork, and the parent's answer.
unfoldable pub fork_worker : Server → TestPayload → List ℕ → ℕ → List Event → Next
fork_worker c p rest cmd_buf events =
    if c.pair events
    then (if c.fork events
        then (if c.answer events
            then go rest cmd_buf (events ++ forked p ∷ [])
            else stop error_returned events)
        else go rest cmd_buf (events ++ fork_failed p ∷ []))
    else stop error_returned events

-- The arm of CMD_FORK.
unfoldable pub fork_command : Server → List ℕ → ℕ → List Event → Next
unfolding fork_worker
fork_command c input cmd_buf events = elim (read_frame input) [
  | none ↦ stop error_returned events
  | some (payload_buf, rest) ↦ elim (c.deserialize payload_buf) [
    | none ↦ go rest cmd_buf (events ++ undecodable ∷ [])
    | some p ↦ fork_worker c p rest cmd_buf events
  ]
]

-- One round with the byte in the buffer.
unfoldable pub handle_command : Server → List ℕ → ℕ → List Event → Next
unfolding fork_command
handle_command c input cmd_buf events =
    if cmd_buf == cmd_fork
    then fork_command c input cmd_buf events
    else if cmd_buf == cmd_exit
    then stop exited events
    else go input cmd_buf events

-- At the end of the stream a read gives 0 bytes, which is no error, and leaves the buffer as it was. A
-- read that fails leaves the loop.
unfoldable pub read_command : Server → List ℕ → ℕ → List Event → Next
unfolding handle_command
read_command c [] cmd_buf events =
    if c.read_fails then stop read_failed events else handle_command c [] cmd_buf events
read_command c (b ∷ input) cmd_buf events = handle_command c input b events

-- The loop, on fuel.
unfoldable pub command_loop : ℕ → Server → List ℕ → ℕ → List Event → End × List Event
unfolding read_command
command_loop zero c input cmd_buf events = (out_of_fuel, events)
command_loop (suc fuel) c input cmd_buf events = elim (read_command c input cmd_buf events) [
  | stop end after ↦ (end, after)
  | go rest b after ↦ command_loop fuel c rest b after
]

-- The loop from its start, with a zeroed buffer.
unfoldable pub serve : Server → List ℕ → End × List Event
unfolding command_loop
serve c input = command_loop (suc (length input)) c input 0 []
