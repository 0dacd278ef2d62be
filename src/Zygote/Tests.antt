-- ===== src/Zygote/Tests.antt =====
-- A run of one test whose payload is served by a zygote, a worker that reports it, and a small reset.
use tach_core.Base.{
  ℕ, ◌+◌, ◌⊎◌, ◌≡◌, ◌≢◌, ◌==◌, ==_iff, refl, sym, ap, chars, Bool, true, false, not, ◌&&◌, Option,
  none, some, List, [], ◌∷◌, ◌++◌, All, map, is_empty, if◌then◌else◌, Bool-cases, inl, inr, nat_eq,
  list_eq, list_beq, arith, join_char, get, insert,
}
use tach_core.Base.Calls.{call_each}
use tach_core.Discovery.Walk.{strip_prefix}
use tach_core.Isolation.Setup.{setup_calls, setup_filesystem}
use tach_core.Protocol.Messages.{TestPayload, cmd_fork, cmd_exit}
use tach_core.Protocol.Bytes.{to_le_bytes, from_le_bytes, read_exact}
use tach_core.Protocol.Frames.{frame, read_frame, encode_with_length, receive_all}
use tach_core.Resolver.Resolve.{RunnableTest}
use tach_core.Scheduler.State.{
  Setup, Scheduler, answered, cut, deliver, dispatch_test, dispatch_outcome, start_test, path_text,
  payload_of, shutdown,
}
use tach_core.Scheduler.Steps.{
  dispatching, Reaches, start, andthen, next, dispatch, enumerate, started, begins,
}
use tach_core.Zygote.Commands.{
  forked, undecodable, exited, read_failed, error_returned, out_of_fuel, Server, serve,
  command_loop, read_command, handle_command, fork_command, fork_worker,
}
use tach_core.Zygote.Rounds.{Unknown}
use tach_core.Zygote.Served.{serve-decided}
use tach_core.Zygote.Dispatched.{Sent, commands_of, Decodes, Obliges}
use tach_core.Zygote.Composed.{Dispatches, shutdown-serve}
use tach_core.Zygote.Worker.{
  full_node_id, run_worker, redirect, debug, send_result, test_actions, isolated, child,
}
use tach_core.Zygote.Collector.{collect_worker, forward}

program : Unit {0}
unfolding serve command_loop read_command handle_command fork_command fork_worker read_frame
    read_exact frame to_le_bytes from_le_bytes setup_filesystem setup_calls call_each strip_prefix
    list_beq deliver dispatch_test dispatch_outcome start_test path_text payload_of shutdown
    enumerate started join_char get insert full_node_id run_worker redirect debug send_result
    test_actions isolated child collect_worker forward encode_with_length receive_all
program = tt

abbrev payload : TestPayload
payload = record {
  test_id = 0;
  file_path = chars "t.py";
  test_name = chars "a";
  is_async = false;
  fixtures = [];
  log_fd = none;
  debug_socket_path = chars "/tmp/d";
}

-- Whether a payload is that one.
abbrev is_the_payload : TestPayload → Bool
is_the_payload p =
    p.test_id == 0
    && (p.file_path == chars "t.py"
        && (p.test_name == chars "a"
            && (not p.is_async
                && (is_empty p.fixtures
                    && (elim p.log_fd [ none ↦ true | some n ↦ false ]
                        && (p.debug_socket_path == chars "/tmp/d"))))))

abbrev serialize : TestPayload → Option (List ℕ)
serialize p = if is_the_payload p then some (9 ∷ []) else none

abbrev deserialize : List ℕ → Option TestPayload
deserialize bytes = if bytes == 9 ∷ [] then some payload else none

is_none-eq : {A : Type 0} (o : Option A) → elim o [ none ↦ true | some x ↦ false ] ≡ true → o ≡ none
is_none-eq none h = refl
is_none-eq (some x) h = absurd (cc)

is_empty-eq : {A : Type 0} (xs : List A) → is_empty xs ≡ true → xs ≡ []
is_empty-eq [] h = refl
is_empty-eq (x ∷ xs) h = absurd (cc)

payload_found : (p : TestPayload) → is_the_payload p ≡ true → payload ≡ p
payload_found p h =
    let e0 : 0 ≡ p.test_id = ground (arith, h, ==_iff p.test_id 0) in
    let e1 : chars "t.py" ≡ p.file_path = ground (arith, h, ==_iff p.file_path (chars "t.py")) in
    let e2 : chars "a" ≡ p.test_name = ground (arith, h, ==_iff p.test_name (chars "a")) in
    let e3 : false ≡ p.is_async = ground (arith, h) in
    let k4 : is_empty p.fixtures ≡ true = ground (arith, h) in
    let k5 : elim p.log_fd [ none ↦ true | some n ↦ false ] ≡ true = ground (arith, h) in
    let e4 = is_empty-eq p.fixtures k4 in
    let e5 = is_none-eq p.log_fd k5 in
    let e6 : chars "/tmp/d" ≡ p.debug_socket_path =
      ground (arith, h, ==_iff p.debug_socket_path (chars "/tmp/d")) in
    λ i. record {
      test_id = e0 i;
      file_path = e1 i;
      test_name = e2 i;
      is_async = e3 i;
      fixtures = sym e4 i;
      log_fd = sym e5 i;
      debug_socket_path = e6 i;
    }

abbrev server : Server
server = record {
  deserialize = deserialize;
  read_fails = false;
  pair = λ events. true;
  fork = λ events. true;
  answer = λ events. true;
}

server-Obliges : Obliges server
server-Obliges = record { pairs = λ events. refl; forks = λ events. refl; answers = λ events. refl }

codec : (p : TestPayload) (bytes : List ℕ) → serialize p ≡ some bytes → Decodes server (p, bytes)
unfolding list_beq
codec p bytes h = elim (Bool-cases (is_the_payload p)) [
  | inr e ↦ absurd (ground (arith, e, h))
  | inl e ↦
      let same : 9 ∷ [] ≡ bytes = ground (arith, e, h) in
      (rw (← same) (ap (λ q. some q) (payload_found p e)), rw (← same) (omega arith))
]

abbrev setup : Setup
setup = record {
  get_fd = λ slot. none;
  debug_socket_path = chars "/tmp/d";
  serialize = serialize;
  max_workers = 1;
  unnamed = λ id. chars "test_?";
}

abbrev test : RunnableTest
test = record {
  file_path = chars "t.py" ∷ [];
  test_name = chars "a";
  is_async = false;
  fixtures = [];
}

abbrev s0 : Scheduler
s0 = started begins 1

abbrev s1 : Scheduler
s1 = start_test setup s0 test 0 0 10 answered []

run : Reaches setup 1 (test ∷ []) (dispatching []) s1
unfolding program
run =
    andthen (andthen start (next 0 test [] s0)) (dispatch 0 test [] s0 10 answered [] (omega arith))

served_run : serve server (shutdown s1).commands ≡ (exited, forked payload ∷ [])
unfolding program
served_run = refl

-- A write that fails behind three bytes of the command leaves the zygote in the middle of a payload.
cut_run :
    serve server (shutdown (start_test setup s0 test 0 0 10 (cut 3) [])).commands
    ≡ (error_returned, [])
unfolding program
cut_run = refl

-- A failed read leaves the loop.
read_failure : serve (record server { read_fails = true }) (7 ∷ []) ≡ (read_failed, [])
unfolding program
read_failure = refl

undecodable_unanswered :
    serve server (cmd_fork ∷ (frame (5 ∷ []) ++ cmd_exit ∷ [])) ≡ (exited, undecodable ∷ [])
unfolding program
undecodable_unanswered = refl

shutdown-serve_example :
    (xs : List Sent) × All (λ x. Dispatches setup x) xs
    × (s1.commands ≡ commands_of xs)
    × (serve server (shutdown s1).commands ≡ (exited, map (λ (payload, bytes). forked payload) xs))
unfolding run
shutdown-serve_example =
    shutdown-serve setup server 1 (test ∷ []) (dispatching []) s1 server-Obliges codec run
      ((tt, tt), tt)

-- An unknown byte at the end of the stream is looked at for ever.
serve-decided_example :
    (((serve server (7 ∷ [])).0 ≢ out_of_fuel)
      × ((more : ℕ) → command_loop (more + 2) server (7 ∷ []) 0 [] ≡ serve server (7 ∷ [])))
    ⊎ ((false ≡ false)
        × ((front : List ℕ) × (u : ℕ) × Unknown u × (7 ∷ [] ≡ front ++ u ∷ []))
        × ((rounds : ℕ) → (command_loop rounds server (7 ∷ []) 0 []).0 ≡ out_of_fuel))
serve-decided_example = serve-decided server (7 ∷ [])
