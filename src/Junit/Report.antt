-- ===== src/Junit/Report.antt =====
-- The JunitReporter of src/junit.rs. A time is its number of milliseconds, which the code divides
-- by 1000 as a float. What quick_xml writes is a parameter.
use tach_core.Base.{
  ℕ, zero, suc, ◌+◌, ◌-◌, ◌==◌, Text, chars, Bool, Option, none, some, List, [], ◌∷◌, ◌++◌, length,
  map, if◌then◌else◌, starts_with, split_once, nat_eq, list_eq,
}
use tach_core.Reporter.Events.{
  MachineEvent, run_start, test_start, test_finished, run_finished, error,
}
use tach_core.Junit.Ansi.{strip_ansi_codes}

pub record Failure : Type 0 where
  pub message : Text
  pub body : Text

pub record TestCase : Type 0 where
  pub name : Text
  pub classname : Text
  pub time : ℕ
  pub failure : Option Failure

pub record TestSuite : Type 0 where
  pub name : Text
  pub tests : ℕ
  pub failures : ℕ
  pub errors : ℕ
  pub skipped : ℕ
  pub time : ℕ
  pub cases : List TestCase

pub record JunitReporter : Type 0 where
  pub cases : List TestCase
  pub error_message : Option Text
  -- The suite of the last report.
  pub report : Option TestSuite

-- s.replace(pat, ""), from behind as many characters of a match
unfoldable pub remove_matches : Text → ℕ → Text → Text
unfolding starts_with
remove_matches pat k [] = []
remove_matches pat zero (c ∷ s) =
    let at_match = starts_with (c ∷ s) pat in
    let rest = remove_matches pat (if at_match then length pat - 1 else 0) s in
    if at_match then rest else c ∷ rest
remove_matches pat (suc k) (c ∷ s) = remove_matches pat k s

-- The part of the id before "::", as a dotted name.
unfoldable pub classname_of : Text → Text
unfolding split_once remove_matches
classname_of id =
    let path : Text = elim (split_once id (chars "::")) [ none ↦ id | some (a, b) ↦ a ] in
    remove_matches (chars ".py") 0 (map (λ c. if c == b'/' then b'.' else c) path)

-- The part behind it, or all of the id.
unfoldable pub name_of : Text → Text
unfolding split_once
name_of id = elim (split_once id (chars "::")) [ none ↦ id | some (a, b) ↦ b ]

unfoldable pub failure_of : Text → Option Text → Option Failure
unfolding strip_ansi_codes
failure_of status message =
    let raw : Text = elim message [ none ↦ chars "Test failed" | some m ↦ m ] in
    if status == chars "pass"
    then none
    else some (record { message = chars "Test failed"; body = strip_ansi_codes raw })

unfoldable pub case_of : Text → Text → ℕ → Option Text → TestCase
unfolding classname_of name_of failure_of
case_of id status duration_ms message = record {
  name = name_of id;
  classname = classname_of id;
  time = duration_ms;
  failure = failure_of status message;
}

abbrev pub new : JunitReporter
new = record { cases = []; error_message = none; report = none }

-- The callbacks, one for each event.
unfoldable pub notify : JunitReporter → MachineEvent → JunitReporter
unfolding case_of
notify r (run_start count) = record r { cases = []; error_message = none }
notify r (test_start id file) = r
notify r (test_finished id status d message) = record r {
  cases = r.cases ++ case_of id status d message ∷ [];
}
notify r (run_finished passed failed skipped d) = record r {
  cases = [];
  report = some (record {
    name = chars "tach";
    tests = passed + failed + skipped;
    failures = failed;
    errors = 0;
    skipped = skipped;
    time = d;
    cases = r.cases;
  });
}
notify r (error message) = record r { error_message = some message }

unfoldable pub notify_all : JunitReporter → List MachineEvent → JunitReporter
unfolding notify
notify_all r [] = r
notify_all r (e ∷ es) = notify_all (notify r e) es

-- What the output file has after a report: nothing is written without the file, and only the
-- declaration where the suite does not serialize.
unfoldable pub document : (TestSuite → Option Text) → Bool → TestSuite → Option Text
document to_string created suite =
    let declaration = chars "<?xml version=\"1.0\" encoding=\"UTF-8\"?>\n" in
    let xml : Text = elim (to_string suite) [ none ↦ [] | some x ↦ x ] in
    if created then some (declaration ++ xml) else none
