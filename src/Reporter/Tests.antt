-- ===== src/Reporter/Tests.antt =====
-- A failed test, reported by a human and a JSON reporter.
use tach_core.Base.{
  ℕ, ◌≡◌, refl, Text, chars, some, List, [], ◌∷◌, list_beq, split_char, get_last?, pop,
}
use tach_core.Reporter.Events.{MachineEvent, run_start, test_finished}
use tach_core.Reporter.Outputs.{
  json, human, report_all, stderr, human_reporter, failure_lines, lines, trim_return,
}
use tach_core.Reporter.Purity.{stdout_of, all_lines, stdout_of-report_all}

abbrev to_string : MachineEvent → Text
to_string e = chars "{}"

abbrev show : ℕ → Text
show n = chars "7"

abbrev events : List MachineEvent
events =
    run_start 1 ∷ test_finished (chars "test_a") (chars "fail") 7 (some (chars "E 1\r\nE 2\n")) ∷ []

failed_test :
    human_reporter show
      (test_finished (chars "test_a") (chars "fail") 7 (some (chars "E 1\r\nE 2\n")))
    ≡ (stderr, 0x2717 ∷ chars " (7ms)\n")
      ∷ (stderr, chars "    E 1\n")
      ∷ (stderr, chars "    E 2\n")
      ∷ []
unfolding human_reporter failure_lines lines trim_return list_beq split_char get_last? pop
failed_test = refl

stdout_of-report_all_example :
    stdout_of (report_all to_string show (human ∷ json ∷ []) events)
    ≡ all_lines to_string (human ∷ json ∷ []) events
stdout_of-report_all_example = stdout_of-report_all to_string show (human ∷ json ∷ []) events
