-- ===== src/Lib.antt =====
-- csquad sends coding tasks to background sessions of a coding agent and drives each through a flow:
-- it waits for other tasks, works, is checked, is fixed round after round, is merged, and is done. The
-- task rows live in one SQLite table, and many short processes (commands, hooks, the status line) read
-- it, decide, and write back by compare-and-set; no process stays behind.
--
-- Parts, and the code that they model:
-- - Base: texts as lists of code points, Boolean tests, lists over native numbers, and the functions of
--   strings and strconv that the program calls.
-- - Json: decoded JSON and maps with text keys, as encoding/json gives them.
-- - Engine (internal/engine/engine.go): live states, conversations and usage counts. What an engine answers
--   to the application is an argument of what asks it.
-- - Claude (internal/engine/claude): Settings is the arguments of a task (`CheckArgs`, `findSettings`),
--   Provider `taskSettings`, Start `Queue`, `WithStopHook` and `writePrivate`, Session `Start`, all of
--   launch.go; Sessions is `RawState`, `match` and `states`, and Remove `Remove` of claude.go. Paths is the
--   functions of path/filepath they call. Forwarded, Private and Verified are the proofs.
-- - Codex (internal/engine/codex): Options is args.go, Thread the state and the times of state.go, and
--   Conversation its `Messages`. Config, Written and Folded are the proofs.
-- - Verdict, Check (internal/check/check.go): Verdict is verdicts and findings, Check.Spec the value of
--   --check, and Check.Run is `Run` with each kind of check and `Parse`; Decided is the proof.
-- - Task (internal/store/store.go, internal/flow/flow.go): the row of a task, its phases and steps.
-- - Flow (internal/flow/flow.go): the decision. Next.next is `Next`, Resume.retry is `Retry`, Texts holds
--   what is sent to the worker; the other children are the proofs, each named for what it shows.
-- - Store (internal/store/store.go): Table is the table as a list of rows in key order, Ops its
--   operations (`Insert`, `Get`, `List`, the setters, `Delete`, `Transition`, `ClaimNotice`). Cas, Versions
--   and Once follow one row through any run of operations, as other processes may interleave them. Spec is
--   the store as a map from numbers to rows, and Refined that the table implements it.
-- - Mover (internal/flow/flow.go): `Mover.Apply`, the write of a move and its effect.
-- - App (internal/app): Observe, Effects and Advance are `observation`, `runEffect` and `AdvanceAll` of
--   advance.go, Check its `Check` and `checkRequest`, Commands its `Retry`, `Hook` and `maybeAdvance`; Draft
--   and Launch are `Launch` of launch.go, the flags and what follows; View is `view` and Labels `ParseLabel`
--   of app.go; Hold is `Hold` of hold.go; Notice is notify.go with internal/notify/notify.go; Wait and
--   Waiting are wait.go, one poll and the loop. Sessions, Gated, Again, Launched, Queued, Announced,
--   Confirm, Ending and Held are their proofs.
-- - Gitx (internal/gitx/gitx.go): Query is `TopLevel`, `Worktrees`, `Branches`, `IsAncestor`, `Merged`,
--   `Changes` and `TaskRefs` with the output of git as the record Shell, Parse how the output is read, and
--   Texts the functions of strings and path/filepath it calls. Merges and Status are the proofs.
-- - Finish (internal/app/finish.go): Inspect is `inspect`, Clean is `clean`, Command is `finishOne`, Cancel
--   is `Cancel` with `cancelAgain`, Gone is `clearGone` with `clearIfEmpty` and `leftovers`, Texts the
--   refusals. What git answers is the record Git, which Gitx.Query.git_of fills. Safe, Verified, Kept,
--   InGit and Emptied are the proofs.
-- - Landing (internal/app/advance.go): Merge is `landing` and `landed`: the rebase, the fast-forward, the
--   verification and the cleanup of finish. Guarded, Proven and Refused are the proofs.
-- - Statusline (internal/statusline): Width is width.go, the cells of the terminal; the others are the
--   ledger of ledger.go and the usage cell of usage.go. Ledger is the table of states and a row's entry,
--   Lines the segments, Columns a row in its column, Tries the grids and fits to try, Overflow the line
--   of hidden tasks, and Layout `Layout`. Fit, Parts, Aligned, Grids, Bounded, Fitted, Shown and Counts are
--   the proofs.
-- - Samples: small inputs, and the theorems applied to them.
--
-- How the parts meet: Advance asks Observe for what is known of a task, Flow for the move, Mover to write
-- it through Store, and Effects to run what the move asks for. Everything that comes from outside (clock,
-- locks, engines, git, the database driver's errors) is a field of the records Seen, Outside, Pass and
-- Answers, Site, Shell, Station, Runner, Desk, Starter, Machine, System, Agent,
-- Codec, Ground and Look, or an argument, and
-- the theorems hold for all of its values unless they say otherwise. Launch asks the engine to check the
-- arguments and to queue or start the session, which for Claude are `check_args`, `queue` and `start`.
--
-- Conventions: stored times are milliseconds and observed times nanoseconds, as in the source; a zero
-- `time.Time` is `none`. Numbers do not wrap: ids, rounds and times stay far below 2 ^ 63, and where the
-- source subtracts, the model's subtraction that stops at 0 is the source's clamp or cannot go below 0.
-- Columns of constants are enumerations, and the two JSON columns are the values that they encode.
-- Loops run over lists. The loop of wait takes a number of turns, and enough are given as its theorem says.
-- `AdvanceAll` makes four passes, as the source does, and `itoa` takes the number
-- itself and one more as fuel, which is more than its digits. Formatting a float is the argument `fixed`;
-- where a theorem needs more of it, its hypothesis says that it rounds to the nearest decimal.
--
-- Not modelled: opening and migrating the database file; of the engines, the deadlines and the cache of
-- `claude agents`, the inbox, the transcripts, the client of Codex's app-server and the readings of usage;
-- the desktop backends of internal/notify, the installer, process handling, the command line, the wait of
-- `csquad advance --stopped` for the end of a turn, and what is printed, which are input and output;
-- status, and the commands of internal/gitx/gitx.go that remove worktrees and branches, whose answers are
-- arguments. Paths are Unix paths.
mod Base
pub mod Json
pub mod Engine
pub mod Verdict
pub mod Task
pub mod Check
pub mod Flow
pub mod Store
pub mod Mover
pub mod App
pub mod Codex
pub mod Claude
pub mod Gitx
pub mod Landing
pub mod Finish
pub mod Statusline
mod Samples
