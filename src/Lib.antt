-- ===== src/Lib.antt =====
-- A model of tach, a parallel runner for pytest suites, and of what its parts promise each other.
--
-- The program finds the tests and fixtures of a project by parsing its Python files (discovery), orders
-- for each test the fixtures it needs (resolver), and sends the runnable tests over a socket to a forked
-- interpreter that starts workers (scheduler, protocol). Results come back over a second socket and go
-- to the reporters (reporter, junit). A worker is forked by the interpreter (zygote), shuts itself off
-- from the host (isolation) and prints into a memory file (logcapture); its memory can be captured and
-- restored page by page by userfaultfd (snapshot). main puts these together, once or on each change of a
-- file (watch), with a guard that kills and removes what is left (lifecycle).
--
-- Base, with its modules, has what the others share: Boolean tests and equality as an interface, lists
-- measured by native numbers, texts as lists of code points, association lists for HashMap.
--
-- Discovery (src/discovery.rs). Ast is the part of the syntax tree that the code reads; Decorators and
-- Injected have the functions on decorators; Module has parse_module and its loops, by the names of the
-- helpers (analyze_function) or of the loop that they stand for (analyze_suite, analyze_body,
-- analyze_method); Walk has is_test_file and discover. The parser, the walk and the file reads are
-- parameters. Suite, Classes, Mocks, Injection and Kept have the proofs.
--
-- Resolver (src/resolver.rs). Registry has FixtureRegistry, from_discovery and lookup; Resolve has
-- resolve_test, resolve_fixture and resolve_all. The recursion of resolve_fixture is on fuel: one more than
-- the names of the registry, which is enough because the names on the stack are different and all in the
-- registry (Fuel). Order, Errors, Precedence, Total and Batch have the other proofs.
--
-- Protocol (src/protocol.rs). Messages has the constants, the payload, the results and the truncation;
-- strings are lists of UTF-8 bytes here, since the code cuts them by bytes. Frames has
-- encode_with_length and its reading side, with bincode as a parameter.
--
-- Scheduler (src/scheduler.rs). State has the handlers: collect for
-- try_collect_result_for_reporter and the lines behind its calls, dispatch_test, whose writes can fail within
-- the command (deliver), and crash_stale for the stale workers. Steps has run as a step relation, in which the shutdown request, the results that
-- arrive, the time and the deadline are free. The deadline may come at any time. A run that the
-- environment never lets go on has no further step.
--
-- Reporter (src/reporter.rs). Events has the events, one for each callback; Outputs has the JSON and human
-- reporters as lists of writes, and the MultiReporter. Junit (src/junit.rs): Ansi has strip_ansi_codes, whose loop with
-- its look-ahead is a scan with three modes; Report has the JunitReporter. The time in seconds is
-- kept as milliseconds.
--
-- Snapshot (src/snapshot.rs). Regions has the parsing of the memory maps and should_snapshot; Pages has
-- the split of a region into pages, whose loop runs on fuel (one more than the whole pages in the
-- region); Manager has the SnapshotManager, with the copy of handle_fault that handle_pending_faults has inline
-- (restore_page). The kernel's calls are parameters.
--
-- Loader (src/loader.rs). Registry has the ModuleRegistry; Paths has path_to_module_name and cache_path, for
-- sources below the project's root; Compile has the cache decision, compile and compile_batch over an
-- explicit state of the files; Load has load_module with the references that it owns. The trimming of
-- names runs on fuel, the length of the name.
--
-- Lifecycle (src/lifecycle.rs). Guard has the CleanupGuard and the actions of dropping it.
--
-- Watch (src/watch.rs). Events has the filter of paths and the loop, over the events and silences that the
-- channel gives; the result is the number of sessions run.
--
-- Base.Calls has programs that make calls of the system, each answered by a kernel that may look at the
-- calls before it, and that end at the first failed one.
--
-- Isolation (src/isolation.rs). Setup has setup_filesystem as such a program; Mounts tells which mount a
-- path lies in, the mounts that the host has below its root included.
--
-- Zygote (src/zygote.rs). Commands has the command loop over the bytes that the supervisor writes, behind
-- which the reads fail or the socket is at its end. The loop of the source may run for ever; it is given one
-- more round than there are bytes, by which it has ended or never ends (Rounds, Served). Worker has the
-- child of a fork as the list of its actions, and run_worker; a worker may stay stopped before its test, or
-- not come back from it. Collector has the threads that collect and forward results; Reset has
-- init_snapshot_mode and reset_memory. Composed joins the command loop with the scheduler, Isolated (with
-- Actions) the child with the isolation, Forward the results with the protocol, and Snapshot the reset
-- with the snapshots.
--
-- Logs (src/logcapture.rs). Capture has the memory files with their offsets, redirect_output and
-- read_and_clear; Utf8 is the decoder behind read_to_string.
--
-- Debugger (src/debugger.rs and src/signals.rs). Terminal has the TerminalManager and the panic hook, Pipe
-- the two loops of a session as turns in any order, Session handle_session with the calls that may
-- fail, Interrupt the routing of signals.
--
-- Environment (src/environment.rs and src/config.rs). Venv has find_site_packages, Pyproject
-- load_env_from_pyproject with the panics of set_var.
--
-- Session (src/main.rs). Start has the variables and the mode that main chooses, Select the choice of
-- reporters, files and tests, Run execute_session and run_tests with every early return; the answers of
-- the system are a parameter. A path that is absolute has "/" as its first component there. Supervised
-- joins them with the guard, Captured with the resolver, the logs and the scheduler.
--
-- Not modelled: the start of the interpreter in the zygote, the search of the loader for an interpreter, the
-- creation of the debugger's socket, which are calls of Python and of the system; the printing; the
-- Python harness.
pub mod Base
pub mod Debugger
pub mod Discovery
pub mod Environment
pub mod Isolation
pub mod Junit
pub mod Lifecycle
pub mod Loader
pub mod Logs
pub mod Protocol
pub mod Reporter
pub mod Resolver
pub mod Scheduler
pub mod Session
pub mod Snapshot
pub mod Watch
pub mod Zygote
