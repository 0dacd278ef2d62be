-- ===== src/Reporter/Outputs.antt =====
-- The JSON and the human reporter and the broadcast to several (src/reporter.rs). What a reporter
-- does on an event is the list of its writes; serde_json and the printing of numbers are parameters.
use tach_core.Base.{
  ℕ, Text, chars, Bool, false, ◌==◌, Option, none, some, List, [], ◌∷◌, ◌++◌, is_empty, take, map,
  pop, get_last?, split_char, if◌then◌else◌, nat_eq, list_eq,
}
use tach_core.Reporter.Events.{
  MachineEvent, run_start, test_start, test_finished, run_finished, error,
}

pub data Stream : Type 0 where
  stdout : Stream
  stderr : Stream

abbrev pub Writes : Type 0
Writes = List (Stream × Text)

abbrev pub println : Text → Writes
println t = (stdout, t ++ 0x0a ∷ []) ∷ []

abbrev pub eprint : Text → Writes
eprint t = (stderr, t) ∷ []

abbrev pub eprintln : Text → Writes
eprintln t = eprint (t ++ 0x0a ∷ [])

-- The five callbacks of the JsonReporter.
unfoldable pub json_reporter : (MachineEvent → Text) → MachineEvent → Writes
json_reporter to_string e = println (to_string e)

-- A line without its carriage return.
unfoldable pub trim_return : Text → Text
unfolding get_last? pop
trim_return line = elim (get_last? line) [
  | none ↦ line
  | some c ↦ if c == 0x0d then pop line else line
]

-- msg.lines(): an empty last line is none.
unfoldable pub lines : Text → List Text
unfolding split_char get_last? pop trim_return
lines msg =
    let parts = split_char 0x0a msg in
    let ended : Bool = elim (get_last? parts) [ none ↦ false | some l ↦ is_empty l ] in
    map trim_return (if ended then pop parts else parts)

abbrev pub indented : List Text → Writes
indented [] = []
indented (line ∷ rest) = eprintln (chars "    " ++ line) ++ indented rest

unfoldable pub failure_lines : Option Text → Writes
unfolding lines
failure_lines none = []
failure_lines (some msg) = indented (take 10 (lines msg))

-- The five callbacks of the HumanReporter; `show` prints a number.
unfoldable pub human_reporter : (ℕ → Text) → MachineEvent → Writes
unfolding failure_lines
human_reporter show (run_start count) =
    eprintln (chars "[tach] Running " ++ show count ++ chars " tests...\n")
human_reporter show (test_start id file) = eprint (chars "  " ++ id ++ chars " ... ")
human_reporter show (test_finished id status duration_ms message) =
    if status == chars "pass"
    then eprintln (0x2713 ∷ chars " (" ++ show duration_ms ++ chars "ms)")
    else if status == chars "fail"
    then eprintln (0x2717 ∷ chars " (" ++ show duration_ms ++ chars "ms)") ++ failure_lines message
    else if status == chars "skip"
    then eprintln (0x2298 ∷ chars " skipped")
    else eprintln status
human_reporter show (run_finished passed failed skipped duration_ms) =
    eprintln []
    ++ eprintln (
        chars "[tach] "
        ++ show passed
        ++ chars " passed, "
        ++ show failed
        ++ chars " failed, "
        ++ show skipped
        ++ chars " skipped in "
        ++ show duration_ms
        ++ chars "ms")
human_reporter show (error message) = eprintln (chars "[tach] FATAL ERROR: " ++ message)

-- Which reporters a MultiReporter holds.
pub data Kind : Type 0 where
  json : Kind
  human : Kind

module _ (to_string : MachineEvent → Text) (show : ℕ → Text) where
  unfoldable pub reporter_of : Kind → MachineEvent → Writes
  unfolding json_reporter human_reporter
  reporter_of json e = json_reporter to_string e
  reporter_of human e = human_reporter show e

  -- The loop that each callback of the MultiReporter is.
  unfoldable pub multi_reporter : List Kind → MachineEvent → Writes
  unfolding reporter_of
  multi_reporter [] e = []
  multi_reporter (r ∷ reporters) e = reporter_of r e ++ multi_reporter reporters e

  unfoldable pub report_all : List Kind → List MachineEvent → Writes
  unfolding multi_reporter
  report_all reporters [] = []
  report_all reporters (e ∷ es) = multi_reporter reporters e ++ report_all reporters es
