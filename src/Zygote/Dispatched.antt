-- ===== src/Zygote/Dispatched.antt =====
-- What the scheduler writes and what the zygote forks (src/scheduler.rs with src/zygote.rs).
use tach_core.Base.{
  ℕ, zero, suc, ◌^◌, ◌<◌, ◌≤◌, ◌≡◌, refl, sym, ◌∙◌, ap, true, some, List, [], ◌∷◌, ◌++◌, length,
  All, map, append_assoc, append-nil, length-append, nat_eq, arith,
}
use tach_core.Protocol.Messages.{TestPayload, cmd_exit, cmd_fork}
use tach_core.Protocol.Frames.{frame, read_frame-frame}
use tach_core.Zygote.Commands.{
  Event, forked, exited, Server, stop, go, fork_worker, fork_command, handle_command, read_command,
  command_loop, serve,
}
use tach_core.Zygote.Served.{continue, command_loop-continue}

-- A dispatched payload with its bytes.
abbrev pub Sent : Type 0
Sent = TestPayload × List ℕ

abbrev pub fork_bytes : Sent → List ℕ
fork_bytes (p, bytes) = cmd_fork ∷ frame bytes

-- The bytes of the commands, one after the other.
abbrev pub commands_of : List Sent → List ℕ
commands_of [] = []
commands_of (x ∷ xs) = fork_bytes x ++ commands_of xs

-- The bytes decode to the payload and are less than 4 GiB.
abbrev pub Decodes : Server → Sent → Type 0
Decodes c (p, bytes) = (c.deserialize bytes ≡ some p) × (length bytes < 2 ^ 32)

-- The system makes socket pairs and workers, and the supervisor reads the answers.
pub record Obliges (c : Server) : Type 0 where
  pub pairs : (events : List Event) → c.pair events ≡ true
  pub forks : (events : List Event) → c.fork events ≡ true
  pub answers : (events : List Event) → c.answer events ≡ true

read_command-fork :
    (c : Server) (p : TestPayload) (bytes rest : List ℕ) (b : ℕ) (events : List Event)
    → Obliges c
    → c.deserialize bytes ≡ some p
    → length bytes < 2 ^ 32
    → read_command c (cmd_fork ∷ (frame bytes ++ rest)) b events
      ≡ go rest cmd_fork (events ++ forked p ∷ [])
unfolding read_command handle_command fork_command fork_worker
read_command-fork c p bytes rest b events o d h =
    ground
      (arith, read_frame-frame bytes rest h, d, o.pairs events, o.forks events, o.answers events)

read_command_exit :
    (c : Server) (b : ℕ) (events : List Event)
    → read_command c (cmd_exit ∷ []) b events ≡ stop exited events
unfolding read_command handle_command
read_command_exit c b events = ground arith

command_loop-fork :
    (c : Server) (p : TestPayload) (bytes rest : List ℕ) (fuel b : ℕ) (events : List Event)
    → Obliges c
    → Decodes c (p, bytes)
    → command_loop (suc fuel) c (fork_bytes (p, bytes) ++ rest) b events
      ≡ command_loop fuel c rest cmd_fork (events ++ forked p ∷ [])
command_loop-fork c p bytes rest fuel b events o d =
    command_loop-continue fuel c (fork_bytes (p, bytes) ++ rest) b events
    ∙ ap (λ r. continue fuel c r) (read_command-fork c p bytes rest b events o d.0 d.1)

command_loop-exit :
    (c : Server) (fuel b : ℕ) (events : List Event)
    → command_loop (suc fuel) c (cmd_exit ∷ []) b events ≡ (exited, events)
command_loop-exit c fuel b events =
    command_loop-continue fuel c (cmd_exit ∷ []) b events
    ∙ ap (λ r. continue fuel c r) (read_command_exit c b events)

abbrev forked_events : List Sent → List Event
forked_events xs = map (λ (p, bytes). forked p) xs

command_loop-commands_of :
    (c : Server) (xs : List Sent) (fuel b : ℕ) (events : List Event)
    → Obliges c
    → All (λ x. Decodes c x) xs
    → length xs < fuel
    → command_loop fuel c (commands_of xs ++ cmd_exit ∷ []) b events
      ≡ (exited, events ++ forked_events xs)
command_loop-commands_of c xs zero b events o d h = absurd (omega arith)
command_loop-commands_of c [] (suc fuel) b events o d h =
    command_loop-exit c fuel b events ∙ ap (λ l. (exited, l)) (sym (append-nil events))
command_loop-commands_of c ((p, bytes) ∷ xs) (suc fuel) b events o (d, ds) h =
    let tail = commands_of xs ++ cmd_exit ∷ [] in
    ap (λ l. command_loop (suc fuel) c l b events)
      (append_assoc (fork_bytes (p, bytes)) (commands_of xs) (cmd_exit ∷ []))
    ∙ command_loop-fork c p bytes tail fuel b events o d
    ∙ command_loop-commands_of c xs fuel cmd_fork (events ++ forked p ∷ []) o ds (omega arith)
    ∙ ap (λ l. (exited, l)) (append_assoc events (forked p ∷ []) (forked_events xs))

length-commands_of : (xs : List Sent) → length xs ≤ length (commands_of xs)
length-commands_of [] = omega arith
length-commands_of ((p, bytes) ∷ xs) =
    omega (arith, length-commands_of xs, length-append (frame bytes) (commands_of xs))

-- The commands of some payloads, with an EXIT behind them, are served by forks of those payloads.
pub serve-commands_of :
    (c : Server) (xs : List Sent)
    → Obliges c
    → All (λ x. Decodes c x) xs
    → serve c (commands_of xs ++ cmd_exit ∷ []) ≡ (exited, map (λ (p, bytes). forked p) xs)
unfolding serve
serve-commands_of c xs o d =
    command_loop-commands_of c xs (suc (length (commands_of xs ++ cmd_exit ∷ []))) 0 [] o d
      (omega (arith, length-commands_of xs, length-append (commands_of xs) (cmd_exit ∷ [])))

commands_of-append : (xs ys : List Sent) → commands_of (xs ++ ys) ≡ commands_of xs ++ commands_of ys
commands_of-append [] ys = refl
commands_of-append (x ∷ xs) ys =
    ap (λ l. fork_bytes x ++ l) (commands_of-append xs ys)
    ∙ sym (append_assoc (fork_bytes x) (commands_of xs) (commands_of ys))

pub commands_of-snoc :
    (xs : List Sent) (x : Sent) → commands_of (xs ++ x ∷ []) ≡ commands_of xs ++ fork_bytes x
commands_of-snoc xs x =
    commands_of-append xs (x ∷ []) ∙ ap (λ l. commands_of xs ++ l) (append-nil (fork_bytes x))
