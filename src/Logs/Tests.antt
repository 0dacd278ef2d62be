-- ===== src/Logs/Tests.antt =====
-- Two tests that print on the same slot.
use tach_core.Base.{
  ◌+◌, ◌≡◌, refl, chars, true, ◌==◌, none, some, List, [], ◌∷◌, get, insert, nat_eq, map,
}
use tach_core.Discovery.Injected.{is_whitespace}
use tach_core.Logs.Utf8.{from_utf8, decode, first_byte, next_byte, push}
use tach_core.Logs.Capture.{
  log_buffer_size, zeros, LogCapture, get_fd, Files, trimmed, trim_end_matches, create_slots, new,
}
use tach_core.Logs.Roundtrip.{Log, logs, logs-trimmed}

program : Unit {0}
unfolding from_utf8 decode first_byte next_byte push get_fd get insert trimmed trim_end_matches
    is_whitespace create_slots new
program = tt

abbrev capture : LogCapture
capture = record { fds = (0, 5) ∷ (1, 6) ∷ []; num_slots = 2 }

created : new (λ slot. some (slot + 5)) (λ fd. true) 2 ≡ some capture
unfolding program
created = refl

not_resized : new (λ slot. some (slot + 5)) (λ fd. fd == 5) 2 ≡ none
unfolding program
not_resized = refl

-- A snowman and an incomplete one.
decoded : from_utf8 (0x61 ∷ 0xe2 ∷ 0x98 ∷ 0x83 ∷ []) ≡ some (0x61 ∷ 0x2603 ∷ [])
unfolding program
decoded = refl

cut : from_utf8 (0x61 ∷ 0xe2 ∷ 0x98 ∷ []) ≡ none
unfolding program
cut = refl

trailing_space : trimmed (chars "ok\n") ≡ chars "ok"
unfolding program
trailing_space = refl

abbrev fresh_files : Files
fresh_files = λ fd. record { bytes = zeros log_buffer_size; offset = 0 }

abbrev prints : List Log
prints = (0, chars "first\n", chars "first\n") ∷ (0, chars "b", chars "b") ∷ []

logs-trimmed_example :
    logs capture fresh_files prints ≡ map (λ (slot, printed, text). some (trimmed text)) prints
unfolding program
logs-trimmed_example =
    logs-trimmed capture fresh_files prints (λ slot fd at. refl)
      (((5, refl), refl), (((5, refl), refl), tt))
