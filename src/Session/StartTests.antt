-- ===== src/Session/StartTests.antt =====
-- Arguments, and what the workers inherit.
use tach_core.Base.{
  ◌≡◌, refl, chars, true, false, none, some, [], ◌∷◌, ◌++◌, get, insert, list_beq, join_char,
  list_eq, nat_eq, any,
}
use tach_core.Discovery.Types.{TestModule}
use tach_core.Environment.Pyproject.{human, set_each, set_var, is_settable}
use tach_core.Session.Start.{
  Cli, list, list_tests, watch_loop, mode_of, main_variables, main_mode, listed, new_run_context,
}

program : Unit {0}
unfolding get insert list_beq mode_of main_variables main_mode listed new_run_context set_each
    set_var is_settable join_char any
program = tt

abbrev cli : Cli
cli = record {
  format = human;
  junit_xml = none;
  watch = true;
  no_isolation = false;
  path = chars ".";
  command = none;
}

watches : main_mode true cli ≡ some watch_loop
unfolding program
watches = refl

-- A list is not watched.
lists : main_mode true (record cli { command = some list }) ≡ some list_tests
unfolding program
lists = refl

isolated_by_default : get (main_variables cli []) (chars "TACH_NO_ISOLATION") ≡ none
unfolding program
isolated_by_default = refl

isolation_off :
    get (main_variables (record cli { no_isolation = true }) []) (chars "TACH_NO_ISOLATION")
    ≡ some (chars "1")
unfolding program
isolation_off = refl

-- The table of a project is set behind the arguments, and can switch the isolation off.
isolation_off_by_project :
    set_each (main_variables cli []) ((chars "TACH_NO_ISOLATION", chars "1") ∷ [])
    ≡ some (main_variables cli [] ++ (chars "TACH_NO_ISOLATION", chars "1") ∷ [])
unfolding program
isolation_off_by_project = refl

no_listener :
    new_run_context (chars "u") true false (λ p. []) []
    ≡ some (
      record {
        run_dir = chars "/" ∷ chars "tmp" ∷ chars "tach_run_u" ∷ [];
        uffd_sock_path = chars "/" ∷ chars "tmp" ∷ chars "tach_run_u" ∷ chars "uffd.sock" ∷ [];
        has_listener = false;
      },
      [],
    )
unfolding program
no_listener = refl

abbrev module_a : TestModule
module_a = record {
  path = chars "a.py" ∷ [];
  tests =
      record {
        name = chars "test_a";
        dependencies = [];
        is_async = false;
        line_number = 1;
        parametrized_args = [];
      }
      ∷ [];
  fixtures = [];
}

one_listed : listed (λ p. join_char b'/' p) (module_a ∷ []) ≡ chars "a.py::test_a" ∷ []
unfolding program
one_listed = refl
