-- ===== src/Zygote/Served.antt =====
-- How many rounds the command loop takes, and when it goes on for ever (src/zygote.rs, entrypoint).
use tach_core.Base.{
  ℕ, zero, suc, ◌+◌, ◌<◌, ◌≤◌, ◌≡◌, ◌≢◌, ◌==◌, ◌∙◌, ◌⊎◌, refl, sym, ap, false, List, [], ◌∷◌, ◌++◌,
  length, inl, inr, nat_eq, arith,
}
use tach_core.Protocol.Messages.{cmd_exit, cmd_fork}
use tach_core.Zygote.Commands.{
  Event, End, out_of_fuel, Server, Next, stop, go, handle_command, read_command, command_loop,
  serve,
}
use tach_core.Zygote.Rounds.{Unknown, Last, Shrinks, read_command-Shrinks}

abbrev pub continue : ℕ → Server → Next → End × List Event
continue fuel c (stop end after) = (end, after)
continue fuel c (go rest b after) = command_loop fuel c rest b after

pub command_loop-continue :
    (fuel : ℕ) (c : Server) (input : List ℕ) (b : ℕ) (events : List Event)
    → command_loop (suc fuel) c input b events ≡ continue fuel c (read_command c input b events)
unfolding command_loop
command_loop-continue fuel c input b events = ground arith

-- A stuck loop stays where it is for as many rounds as it is given.
read_command-Stuck :
    (c : Server) (b : ℕ) (events : List Event)
    → c.read_fails ≡ false
    → (b == cmd_fork) ≡ false
    → (b == cmd_exit) ≡ false
    → read_command c [] b events ≡ go [] b events
unfolding read_command handle_command
read_command-Stuck c b events h e f = ground (arith, h, e, f)

command_loop-Stuck :
    (fuel : ℕ) (c : Server) (b : ℕ) (events : List Event)
    → c.read_fails ≡ false
    → (b == cmd_fork) ≡ false
    → (b == cmd_exit) ≡ false
    → command_loop fuel c [] b events ≡ (out_of_fuel, events)
unfolding command_loop
command_loop-Stuck zero c b events h e f = refl
command_loop-Stuck (suc fuel) c b events h e f =
    command_loop-continue fuel c [] b events
    ∙ ap (λ r. continue fuel c r) (read_command-Stuck c b events h e f)
    ∙ command_loop-Stuck fuel c b events h e f

-- The loop has ended by so many rounds, or it goes on for ever behind an unknown byte.
abbrev Decided : ℕ → Server → List ℕ → ℕ → List Event → Type 0
Decided fuel c input b events =
    (((command_loop fuel c input b events).0 ≢ out_of_fuel)
      × ((more : ℕ)
          → command_loop (more + fuel) c input b events ≡ command_loop fuel c input b events))
    ⊎ ((c.read_fails ≡ false)
        × ((u : ℕ) × Unknown u × Last b input u)
        × ((rounds : ℕ) → (command_loop rounds c input b events).0 ≡ out_of_fuel))

rounds_from :
    (c : Server) (input : List ℕ) (b : ℕ) (events : List Event)
    → ((n : ℕ) → (command_loop (suc n) c input b events).0 ≡ out_of_fuel)
    → (rounds : ℕ) → (command_loop rounds c input b events).0 ≡ out_of_fuel
unfolding command_loop
rounds_from c input b events h zero = refl
rounds_from c input b events h (suc n) = h n

continue-Decided :
    (fuel : ℕ) (c : Server) (input : List ℕ) (b : ℕ) (events : List Event) (r : Next)
    → ((rest : List ℕ) (d : ℕ) (after : List Event)
        → length rest < fuel
        → Decided fuel c rest d after)
    → read_command c input b events ≡ r
    → Shrinks c input b events r
    → length input ≤ fuel
    → Decided (suc fuel) c input b events
continue-Decided fuel c input b events (stop end after) ih e s h =
    let each = λ (n : ℕ). command_loop-continue n c input b events ∙ ap (λ r. continue n c r) e in
    inl (
      λ q. s (sym (ap (λ r. r.0) (each fuel)) ∙ q),
      λ more.
          ap (λ n. command_loop n c input b events) (omega arith)
          ∙ each (more + fuel)
          ∙ sym (each fuel),
    )
continue-Decided fuel c input b events (go rest d after) ih e (inl (shorter, same)) h =
    let each = λ (n : ℕ). command_loop-continue n c input b events ∙ ap (λ r. continue n c r) e in
    elim (ih rest d after (omega (arith, shorter, h))) [
      | inl (ended, stays) ↦ inl (
        λ q. ended (sym (ap (λ r. r.0) (each fuel)) ∙ q),
        λ more.
            ap (λ n. command_loop n c input b events) (omega arith)
            ∙ each (more + fuel)
            ∙ stays more
            ∙ sym (each fuel),
      )
      | inr (reads, (u, unknown, l), goes) ↦ inr (
        reads,
        (u, unknown, same u unknown l),
        rounds_from c input b events (λ n. ap (λ r. r.0) (each n) ∙ goes n),
      )
    ]
continue-Decided fuel c input b events (go rest d after) ih e (inr (reads, empty, unknown, k, l, m))
      h =
    inr (
      reads,
      (b, unknown, inl (empty, refl)),
      λ rounds.
          ap (λ t. (command_loop rounds c t b events).0) empty
          ∙ ap (λ r. r.0) (command_loop-Stuck rounds c b events reads unknown.0 unknown.1),
    )

command_loop-Decided :
    (fuel : ℕ) (c : Server) (input : List ℕ) (b : ℕ) (events : List Event)
    → length input < fuel
    → Decided fuel c input b events
command_loop-Decided zero c input b events h = absurd (omega arith)
command_loop-Decided (suc fuel) c input b events h =
    continue-Decided fuel c input b events (read_command c input b events)
      (λ rest d after k. command_loop-Decided fuel c rest d after k) refl
      (read_command-Shrinks c input b events) (omega arith)

zero_known : (u : ℕ) → 0 ≡ u → Unknown u → ⊥
zero_known u e (f, g) = absurd (cc)

-- Whatever bytes are written and however the environment answers, either the loop ends within one round
-- for each byte and one more, and more rounds give the same; or it never ends, and then a read at the end of
-- the stream does not fail and the last byte that was written is neither FORK nor EXIT.
pub serve-decided :
    (c : Server) (input : List ℕ)
    → (((serve c input).0 ≢ out_of_fuel)
        × ((more : ℕ) → command_loop (more + suc (length input)) c input 0 [] ≡ serve c input))
      ⊎ ((c.read_fails ≡ false)
          × ((front : List ℕ) × (u : ℕ) × Unknown u × (input ≡ front ++ u ∷ []))
          × ((rounds : ℕ) → (command_loop rounds c input 0 []).0 ≡ out_of_fuel))
unfolding serve
serve-decided c input =
    elim (command_loop-Decided (suc (length input)) c input 0 [] (omega arith)) [
      | inl h ↦ inl h
      | inr (reads, (u, unknown, inr (front, e)), goes) ↦ inr (reads, (front, u, unknown, e), goes)
      | inr (reads, (u, unknown, inl (empty, zeroed)), goes) ↦ absurd (zero_known u zeroed unknown)
    ]
