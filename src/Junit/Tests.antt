-- ===== src/Junit/Tests.antt =====
-- A coloured message, and the report of a run without tests.
use tach_core.Base.{
  ◌≡◌, refl, chars, none, some, [], ◌∷◌, ◌++◌, length, All, starts_with, split_once, nat_eq,
  list_eq,
}
use tach_core.Reporter.Events.{run_finished}
use tach_core.Scheduler.State.{Setup, Scheduler}
use tach_core.Scheduler.Steps.{
  finished, Reaches, start, andthen, dispatched, finish, started, begins, enumerate,
}
use tach_core.Junit.Ansi.{
  strip_ansi_codes, strip_from, next_mode, keeps, Printable, escape, strip_ansi_codes_lem,
}
use tach_core.Junit.Report.{TestSuite, new, classname_of, name_of, remove_matches, notify_all}
use tach_core.Junit.Bookkeeping.{cases_of, failing, notify_all-Reaches}

red_text : strip_ansi_codes (escape ∷ chars "[1;31mred" ++ escape ∷ chars "[0m!") ≡ chars "red!"
unfolding strip_ansi_codes strip_from next_mode keeps
red_text = refl

dotted :
    (classname_of (chars "tests/test_a.py::TestX::test_b") ≡ chars "tests.test_a")
    × (name_of (chars "tests/test_a.py::TestX::test_b") ≡ chars "TestX::test_b")
unfolding classname_of name_of remove_matches split_once starts_with
dotted = (refl, refl)

strip_ansi_codes_lem_example :
    All (λ c. Printable c) (strip_ansi_codes (chars "red"))
    × (strip_ansi_codes (chars "ok ") ≡ chars "ok ")
    × (strip_ansi_codes (chars "ok " ++ (escape ∷ b'[' ∷ chars "1;31" ++ b'm' ∷ chars "red"))
        ≡ chars "ok " ++ strip_ansi_codes (chars "red"))
strip_ansi_codes_lem_example =
    strip_ansi_codes_lem (chars "ok ") (chars "1;31") (chars "red") b'm'
      ((refl, refl), ((refl, refl), ((refl, refl), tt))) (refl, (refl, (refl, (refl, tt)))) refl

abbrev setup : Setup
setup = record {
  get_fd = λ slot. none;
  debug_socket_path = [];
  serialize = λ p. none;
  max_workers = 4;
  unnamed = λ id. [];
}

abbrev s0 : Scheduler
s0 = started begins 0

abbrev s1 : Scheduler
s1 = record s0 { reported = s0.reported ++ run_finished s0.passed s0.failed 0 3 ∷ [] }

run : Reaches setup 0 [] finished s1
unfolding enumerate started
run = andthen (andthen start (dispatched s0)) (finish s0 3)

notify_all-Reaches_example :
    (suite : TestSuite) × ((notify_all new s1.reported).report ≡ some suite)
    × (suite.cases ≡ cases_of s1.reported)
    × (suite.tests ≡ length suite.cases)
    × (suite.failures ≡ failing suite.cases)
    × (suite.errors ≡ 0)
    × (suite.skipped ≡ 0)
notify_all-Reaches_example = notify_all-Reaches setup 0 [] s1 new run
