-- ===== src/Session/Start.antt =====
-- What the program does with its arguments (src/main.rs, main, handle_list_command and RunContext). The
-- parsing of the arguments is clap's.
use tach_core.Base.{
  Text, chars, Bool, Option, none, some, List, [], ◌∷◌, ◌++◌, insert, map, if◌then◌else◌, nat_eq,
  list_eq,
}
use tach_core.Discovery.Types.{FilePath, TestModule}
use tach_core.Environment.Pyproject.{OutputFormat, Variables}

pub data Commands : Type 0 where
  test : Commands
  list : Commands

pub record Cli : Type 0 where
  pub format : OutputFormat
  pub junit_xml : Option FilePath
  pub watch : Bool
  pub no_isolation : Bool
  pub path : Text
  pub command : Option Commands

pub data RunMode : Type 0 where
  list_tests : RunMode
  watch_loop : RunMode
  single_run : RunMode

unfoldable pub mode_of : Option Commands → Bool → RunMode
mode_of (some list) watch = list_tests
mode_of (some test) watch = if watch then watch_loop else single_run
mode_of none watch = if watch then watch_loop else single_run

-- The variables that main sets, which all processes of the session inherit.
unfoldable pub main_variables : Cli → Variables → Variables
unfolding insert
main_variables cli env =
    let allocator =
      insert (insert env (chars "PYTHONMALLOC") (chars "malloc")) (chars "GLIBC_TUNABLES")
        (chars "glibc.malloc.tcache_count=0") in
    let isolation =
      if cli.no_isolation
      then insert allocator (chars "TACH_NO_ISOLATION") (chars "1")
      else allocator in
    insert isolation (chars "TACH_TARGET_PATH") cli.path

-- The working directory is found, or main ends with an error.
unfoldable pub main_mode : Bool → Cli → Option RunMode
unfolding mode_of
main_mode current_dir cli = if current_dir then some (mode_of cli.command cli.watch) else none

-- The names that are listed: the module's path, as it is displayed, and the test's name.
unfoldable pub listed : (FilePath → Text) → List TestModule → List Text
listed display [] = []
listed display (m ∷ ms) =
    map (λ t. display m.path ++ chars "::" ++ t.name) m.tests ++ listed display ms

-- RunContext::new. The directory is made, or there is an error; without a listener the variable for the
-- workers is not set, and there are no snapshots.
pub record RunContext : Type 0 where
  pub run_dir : FilePath
  pub uffd_sock_path : FilePath
  pub has_listener : Bool

unfoldable pub new_run_context :
    (uuid : Text)
    → (create_dir bind : Bool) → (FilePath → Text)
    → Variables
    → Option (RunContext × Variables)
unfolding insert
new_run_context uuid create_dir bind display env =
    let run_dir = chars "/" ∷ chars "tmp" ∷ (chars "tach_run_" ++ uuid) ∷ [] in
    let sock = run_dir ++ chars "uffd.sock" ∷ [] in
    let context : RunContext = record {
      run_dir = run_dir;
      uffd_sock_path = sock;
      has_listener = bind;
    } in
    if create_dir
    then some
        (context, if bind then insert env (chars "TACH_SUPERVISOR_SOCK") (display sock) else env)
    else none
