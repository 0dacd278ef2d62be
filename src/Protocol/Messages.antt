-- ===== src/Protocol/Messages.antt =====
-- The messages of src/protocol.rs. A `String` is the list of its UTF-8 bytes here, since the code
-- measures and cuts messages by bytes.
use tach_core.Base.{
  ℕ, Text, chars, Bool, false, not, ◌&&◌, ◌||◌, ◌==◌, Option, none, some, List, [], ◌++◌, take,
  length, get_elem?, ltb, leb, if◌then◌else◌, nat_eq,
}
use tach_core.Discovery.Types.{FixtureScope, function, class, «module», session}

abbrev pub cmd_exit : ℕ
cmd_exit = 0

abbrev pub cmd_fork : ℕ
cmd_fork = 1

abbrev pub msg_ready : ℕ
msg_ready = 0x42

abbrev pub status_pass : ℕ
status_pass = 0

abbrev pub status_fail : ℕ
status_fail = 1

abbrev pub status_skip : ℕ
status_skip = 2

abbrev pub status_crash : ℕ
status_crash = 3

abbrev pub status_error : ℕ
status_error = 4

abbrev pub status_harness_error : ℕ
status_harness_error = 5

pub record FixtureInfo : Type 0 where
  pub name : Text
  pub scope : Text

pub record TestPayload : Type 0 where
  pub test_id : ℕ
  pub file_path : Text
  pub test_name : Text
  pub is_async : Bool
  pub fixtures : List FixtureInfo
  -- `none` is the descriptor -1.
  pub log_fd : Option ℕ
  pub debug_socket_path : Text

-- The word that names a scope.
unfoldable pub scope_word : FixtureScope → Text
scope_word function = chars "function"
scope_word class = chars "class"
scope_word «module» = chars "module"
scope_word session = chars "session"

unfoldable pub from_scope : Text → FixtureScope → FixtureInfo
unfolding scope_word
from_scope name scope = record { name = name; scope = scope_word scope }

pub record TestResult : Type 0 where
  pub test_id : ℕ
  pub status : ℕ
  pub duration_ns : ℕ
  pub message : List ℕ

abbrev pub max_len : ℕ
max_len = 4096

-- A byte that continues a UTF-8 character.
abbrev pub is_continuation : ℕ → Bool
is_continuation b = leb 0x80 b && ltb b 0xc0

-- str::is_char_boundary
unfoldable pub is_char_boundary : List ℕ → ℕ → Bool
is_char_boundary msg i =
    (i == length msg)
    || (elim (get_elem? msg i) [ none ↦ false | some b ↦ not (is_continuation b) ])

abbrev pub truncated : List ℕ
truncated = chars "... [truncated]"

-- `&msg[..MAX_LEN]` panics inside a character; `none` is the panic.
unfoldable pub truncate_at : ℕ → List ℕ → Option (List ℕ)
truncate_at limit msg =
    if ltb limit (length msg)
    then (if is_char_boundary msg limit then some (take limit msg ++ truncated) else none)
    else some msg

unfoldable pub truncate_message : List ℕ → Option (List ℕ)
truncate_message msg = truncate_at max_len msg

unfoldable pub pass : ℕ → ℕ → TestResult
pass test_id duration_ns = record {
  test_id = test_id;
  status = status_pass;
  duration_ns = duration_ns;
  message = [];
}

unfoldable pub fail : ℕ → ℕ → List ℕ → Option TestResult
fail test_id duration_ns message = elim (truncate_message message) [
  | none ↦ none
  | some m ↦
      some
        (record { test_id = test_id; status = status_fail; duration_ns = duration_ns; message = m })
]

unfoldable pub crash : ℕ → TestResult
crash test_id = record {
  test_id = test_id;
  status = status_crash;
  duration_ns = 0;
  message = chars "Worker crashed (EOF on socket)";
}

unfoldable pub status_str : TestResult → Text
status_str r =
    if r.status == status_pass
    then chars "PASS"
    else if r.status == status_fail
    then chars "FAIL"
    else if r.status == status_skip
    then chars "SKIP"
    else if r.status == status_crash
    then chars "CRASH"
    else if r.status == status_error
    then chars "ERROR"
    else if r.status == status_harness_error
    then chars "HARNESS_ERROR"
    else chars "UNKNOWN"

-- The icons by their code points: check mark, cross, circle, collision, "!", warning sign, "?".
unfoldable pub status_icon : TestResult → ℕ
status_icon r =
    if r.status == status_pass
    then 0x2713
    else if r.status == status_fail
    then 0x2717
    else if r.status == status_skip
    then 0x25cb
    else if r.status == status_crash
    then 0x1f4a5
    else if r.status == status_error
    then b'!'
    else if r.status == status_harness_error
    then 0x26a0
    else b'?'
