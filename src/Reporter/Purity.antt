-- ===== src/Reporter/Purity.antt =====
-- What reaches the standard output (src/reporter.rs, "Stdout Purity").
use tach_core.Base.{
  ℕ, ◌≡◌, refl, ◌∙◌, ap, Text, chars, ◌==◌, Option, none, some, List, [], ◌∷◌, ◌++◌, take,
  Bool-cases, inl, inr, nat_eq, list_eq,
}
use tach_core.Reporter.Events.{
  MachineEvent, run_start, test_start, test_finished, run_finished, error,
}
use tach_core.Reporter.Outputs.{
  stdout, stderr, Writes, json_reporter, human_reporter, failure_lines, indented, lines, Kind, json,
  human, reporter_of, multi_reporter, report_all,
}

-- The texts written to the standard output.
abbrev pub stdout_of : Writes → List Text
stdout_of [] = []
stdout_of ((stdout, t) ∷ ws) = t ∷ stdout_of ws
stdout_of ((stderr, t) ∷ ws) = stdout_of ws

stdout_of-append : (v w : Writes) → stdout_of (v ++ w) ≡ stdout_of v ++ stdout_of w
stdout_of-append [] w = refl
stdout_of-append ((stdout, t) ∷ v) w = rw (stdout_of-append v w) refl
stdout_of-append ((stderr, t) ∷ v) w = stdout_of-append v w

stdout_of-indented : (ls : List Text) → stdout_of (indented ls) ≡ []
stdout_of-indented [] = refl
stdout_of-indented (l ∷ ls) = stdout_of-indented ls

stdout_of-failure_lines : (m : Option Text) → stdout_of (failure_lines m) ≡ []
unfolding failure_lines
stdout_of-failure_lines none = refl
stdout_of-failure_lines (some msg) = stdout_of-indented (take 10 (lines msg))

stdout_of-human_reporter :
    (show : ℕ → Text) (e : MachineEvent) → stdout_of (human_reporter show e) ≡ []
unfolding human_reporter
stdout_of-human_reporter show (run_start n) = refl
stdout_of-human_reporter show (test_start id file) = refl
stdout_of-human_reporter show (test_finished id status d m) =
    elim (Bool-cases (status == chars "pass")) [
      | inl e ↦ rw e refl
      | inr e ↦ elim (Bool-cases (status == chars "fail")) [
        | inl f ↦ rw (e, f) (stdout_of-failure_lines m)
        | inr f ↦ elim (Bool-cases (status == chars "skip")) [
          | inl g ↦ rw (e, f, g) refl
          | inr g ↦ rw (e, f, g) refl
        ]
      ]
    ]
stdout_of-human_reporter show (run_finished a b c d) = refl
stdout_of-human_reporter show (error m) = refl

-- The line of an event, once for each JSON reporter.
abbrev pub json_lines : List Kind → Text → List Text
json_lines [] t = []
json_lines (json ∷ rs) t = t ∷ json_lines rs t
json_lines (human ∷ rs) t = json_lines rs t

abbrev pub all_lines : (MachineEvent → Text) → List Kind → List MachineEvent → List Text
all_lines to_string rs [] = []
all_lines to_string rs (e ∷ es) =
    json_lines rs (to_string e ++ 0x0a ∷ []) ++ all_lines to_string rs es

stdout_of-multi_reporter :
    (to_string : MachineEvent → Text) (show : ℕ → Text) (rs : List Kind) (e : MachineEvent)
    → stdout_of (multi_reporter to_string show rs e) ≡ json_lines rs (to_string e ++ 0x0a ∷ [])
unfolding multi_reporter reporter_of json_reporter
stdout_of-multi_reporter to_string show [] e = refl
stdout_of-multi_reporter to_string show (json ∷ rs) e =
    rw (stdout_of-multi_reporter to_string show rs e) refl
stdout_of-multi_reporter to_string show (human ∷ rs) e =
    stdout_of-append (human_reporter show e) (multi_reporter to_string show rs e)
    ∙ ap (λ l. l ++ stdout_of (multi_reporter to_string show rs e))
        (stdout_of-human_reporter show e)
    ∙ stdout_of-multi_reporter to_string show rs e

-- Whatever events JSON and human reporters are given together, the standard output has only the JSON
-- lines of these events, in order, each of them once for every JSON reporter.
pub stdout_of-report_all :
    (to_string : MachineEvent → Text) (show : ℕ → Text) (rs : List Kind) (es : List MachineEvent)
    → stdout_of (report_all to_string show rs es) ≡ all_lines to_string rs es
unfolding report_all
stdout_of-report_all to_string show rs [] = refl
stdout_of-report_all to_string show rs (e ∷ es) =
    stdout_of-append (multi_reporter to_string show rs e) (report_all to_string show rs es)
    ∙ ap (λ l. l ++ stdout_of (report_all to_string show rs es))
        (stdout_of-multi_reporter to_string show rs e)
    ∙ ap (λ l. json_lines rs (to_string e ++ 0x0a ∷ []) ++ l)
        (stdout_of-report_all to_string show rs es)
