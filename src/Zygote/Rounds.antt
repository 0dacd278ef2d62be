-- ===== src/Zygote/Rounds.antt =====
-- What one round of the command loop reads (src/zygote.rs, entrypoint).
use tach_core.Base.{
  ℕ, ◌<◌, ◌≡◌, ◌≢◌, ◌==◌, ◌∙◌, ◌⊎◌, refl, sym, ap, Bool, true, false, some, List, [], ◌∷◌, ◌++◌,
  append_assoc, length, length-append, Bool-cases, Option-cases, inl, inr, take, drop,
  take-append-drop, leb, nat_eq, if◌then◌else◌, arith,
}
use tach_core.Protocol.Messages.{TestPayload, cmd_exit, cmd_fork}
use tach_core.Protocol.Bytes.{read_exact, from_le_bytes}
use tach_core.Protocol.Frames.{read_frame}
use tach_core.Zygote.Commands.{
  Event, read_failed, out_of_fuel, Server, Next, stop, go, fork_worker, fork_command,
  handle_command, read_command,
}

-- A round that goes on with the same byte in the buffer has read some bytes of the input; one that ends the
-- loop has its end.
abbrev Leaves : List ℕ → ℕ → Next → Type 0
Leaves input b (stop end events) = end ≢ out_of_fuel
Leaves input b (go rest d events) = (d ≡ b) × ((front : List ℕ) × (input ≡ front ++ rest))

fork_worker-Leaves :
    (c : Server) (p : TestPayload) (input rest : List ℕ) (b : ℕ) (events : List Event)
    → (front : List ℕ) × (input ≡ front ++ rest)
    → Leaves input b (fork_worker c p rest b events)
unfolding fork_worker
fork_worker-Leaves c p input rest b events h = elim (Bool-cases (c.pair events)) [
  | inr e ↦ rw (e, fork_worker) (λ q. cc)
  | inl e ↦ elim (Bool-cases (c.fork events)) [
    | inr f ↦ rw (e, f, fork_worker) (refl, h)
    | inl f ↦ elim (Bool-cases (c.answer events)) [
      | inr g ↦ rw (e, f, g, fork_worker) (λ q. cc)
      | inl g ↦ rw (e, f, g, fork_worker) (refl, h)
    ]
  ]
]

read_exact-split :
    (n : ℕ) (s xs rest : List ℕ)
    → read_exact n s ≡ some (xs, rest)
    → (front : List ℕ) × (s ≡ front ++ rest)
unfolding read_exact
read_exact-split n s xs rest h = elim (Bool-cases (leb n (length s))) [
  | inr e ↦ absurd (ground (arith, e, h))
  | inl e ↦
      let same : drop n s ≡ rest = ground (arith, e, h) in
      (take n s, sym (take-append-drop n s) ∙ ap (λ l. take n s ++ l) same)
]

read_frame-split :
    (s payload rest : List ℕ)
    → read_frame s ≡ some (payload, rest)
    → (front : List ℕ) × (s ≡ front ++ rest)
unfolding read_frame
read_frame-split s payload rest h = elim (Option-cases (read_exact 4 s)) [
  | inl e ↦ absurd (ground (arith, e, h))
  | inr ((len_buf, behind), e) ↦
      let body : read_exact (from_le_bytes len_buf) behind ≡ some (payload, rest) =
        ground (arith, e, h) in
      let (xs, k) = read_exact-split 4 s len_buf behind e in
      let (ys, l) = read_exact-split (from_le_bytes len_buf) behind payload rest body in
      (xs ++ ys, k ∙ ap (λ t. xs ++ t) l ∙ sym (append_assoc xs ys rest))
]

fork_command-Leaves :
    (c : Server) (input : List ℕ) (b : ℕ) (events : List Event)
    → Leaves input b (fork_command c input b events)
unfolding fork_command
fork_command-Leaves c input b events = elim (Option-cases (read_frame input)) [
  | inl e ↦ rw (e, fork_command) (λ q. cc)
  | inr ((payload_buf, rest), e) ↦ elim (Option-cases (c.deserialize payload_buf)) [
    | inl f ↦ rw (e, f, fork_command) (refl, read_frame-split input payload_buf rest e)
    | inr (p, f) ↦
        rw (e, f, fork_command)
          (fork_worker-Leaves c p input rest b events (read_frame-split input payload_buf rest e))
  ]
]

-- A byte that is no command.
abbrev pub Unknown : ℕ → Type 0
Unknown b = ((b == cmd_fork) ≡ false) × ((b == cmd_exit) ≡ false)

-- The last byte, with what is in the buffer before the input.
abbrev pub Last : ℕ → List ℕ → ℕ → Type 0
Last b input u = ((input ≡ []) × (b ≡ u)) ⊎ ((front : List ℕ) × (input ≡ front ++ u ∷ []))

-- A round that goes on has read a byte, and the last byte is the same if it is unknown; or the loop
-- stands at the end of its input, and the round has changed nothing.
abbrev pub Shrinks : Server → List ℕ → ℕ → List Event → Next → Type 0
Shrinks c input b events (stop end after) = end ≢ out_of_fuel
Shrinks c input b events (go rest d after) =
    ((length rest < length input) × ((u : ℕ) → Unknown u → Last d rest u → Last b input u))
    ⊎ ((c.read_fails ≡ false) × (input ≡ []) × Unknown b × (rest ≡ []) × (d ≡ b) × (after ≡ events))

Last-cons : (b a u : ℕ) (input : List ℕ) → Last a input u → Last b (a ∷ input) u
Last-cons b a u input (inl (e, k)) = inr ([], rw (e, k) refl)
Last-cons b a u input (inr (front, e)) = inr (a ∷ front, ap (λ l. a ∷ l) e)

Last-front :
    (b d u : ℕ) (front rest : List ℕ)
    → (d == cmd_fork) ≡ true
    → Unknown u
    → Last d rest u
    → Last b (front ++ rest) u
Last-front b d u front rest e h (inl (k, same)) = absurd (cc)
Last-front b d u front rest e h (inr (more, k)) =
    inr (front ++ more, ap (λ l. front ++ l) k ∙ sym (append_assoc front more (u ∷ [])))

Leaves-Shrinks :
    (c : Server) (a : ℕ) (input : List ℕ) (b : ℕ) (events : List Event) (r : Next)
    → (a == cmd_fork) ≡ true
    → Leaves input a r
    → Shrinks c (a ∷ input) b events r
Leaves-Shrinks c a input b events (stop end after) e h = h
Leaves-Shrinks c a input b events (go rest d after) e (same, (front, k)) = inl (
  rw k (omega (arith, length-append front rest)),
  λ u unknown l.
      Last-cons b a u input
        (rw k (Last-front a d u front rest (ap (λ n. n == cmd_fork) same ∙ e) unknown l)),
)

handle_command-Shrinks :
    (c : Server) (a : ℕ) (input : List ℕ) (b : ℕ) (events : List Event)
    → Shrinks c (a ∷ input) b events (handle_command c input a events)
unfolding handle_command
handle_command-Shrinks c a input b events = elim (Bool-cases (a == cmd_fork)) [
  | inl e ↦
      rw (e, handle_command)
        (Leaves-Shrinks c a input b events (fork_command c input a events) e
          (fork_command-Leaves c input a events))
  | inr e ↦ elim (Bool-cases (a == cmd_exit)) [
    | inl f ↦ rw (e, f, handle_command) (λ q. cc)
    | inr f ↦ rw (e, f, handle_command) (inl (omega arith, λ u unknown l. Last-cons b a u input l))
  ]
]

handle_command_at_end :
    (c : Server) (b : ℕ) (events : List Event)
    → c.read_fails ≡ false
    → Shrinks c [] b events (handle_command c [] b events)
unfolding handle_command fork_command read_frame read_exact
handle_command_at_end c b events h = elim (Bool-cases (b == cmd_fork)) [
  | inl e ↦ rw (e, handle_command) (λ q. cc)
  | inr e ↦ elim (Bool-cases (b == cmd_exit)) [
    | inl f ↦ rw (e, f, handle_command) (λ q. cc)
    | inr f ↦ rw (e, f, handle_command) (inr (h, refl, (e, f), refl, refl, refl))
  ]
]

-- A round at the end of the input.
abbrev at_end : Bool → Next → Next → Next
at_end fails failure next = if fails then failure else next

at_end-Shrinks :
    (c : Server) (b : ℕ) (events : List Event) (fails : Bool)
    → c.read_fails ≡ fails
    → Shrinks c [] b events (at_end fails (stop read_failed events) (handle_command c [] b events))
at_end-Shrinks c b events true e = λ q. cc
at_end-Shrinks c b events false e = handle_command_at_end c b events e

pub read_command-Shrinks :
    (c : Server) (input : List ℕ) (b : ℕ) (events : List Event)
    → Shrinks c input b events (read_command c input b events)
unfolding read_command
read_command-Shrinks c [] b events = at_end-Shrinks c b events c.read_fails refl
read_command-Shrinks c (a ∷ input) b events = handle_command-Shrinks c a input b events
