-- ===== src/Lib.antt =====
-- Talyvor Track's control scripts: the Python programs under scripts/ that check the repository's own
-- tests. A control harness plants a defect in a tracked file, runs a guard or a test on the tree, and puts
-- the file back; two guards watch over the harnesses themselves.
--
-- Parts, and the files that model them:
-- - Prelude: the tests, lists, sets and texts that the other modules share. A text is its list of code
--   points (`codes`); `count`, `replace`, `replace_first`, `from_find` are Python's methods on `str`.
-- - Ast: the part of Python's syntax trees that the two guards look at, and `ast.walk`.
-- - Signals: scripts/check-restore-signal-handlers.py. Detect holds its two detectors (`_restores_in_finally`,
--   `_reads_and_writes`) and `_installs_handler`, Exemptions its tables, Rules its `main`; Found, Green,
--   Scan and Accepted hold proofs.
-- - Anchors: scripts/check-control-anchors.py. Tables, Shape (`path_shaped`, `_anchor_shaped`), Harvest
--   (`harvest`), Reading (`module_level_only`), Sandbox (`_no_side_effects`), Roles (`_roles`), Bare
--   (`bare_census`, `why_unreached`), Census (`census`) and Rules (`main`); Rows, Unshared, Computes,
--   Restored, Accounted and Applied hold proofs.
-- - Harness: scripts/w644-catcher-name-controls-r7k2.py. Disk and Process are what any harness does to files:
--   a process keeps its past moments, each with the disk and the signal handler of that moment. Catcher is
--   that script; Restored, Cases and Scored hold proofs. Guard is scripts/w641-guard-controls-r7k2.py, which also
--   writes a probe script and removes it; Probed and Predicted hold proofs.
-- - Campaign: scripts/w34-upload-authz-order-controls.py (Suite is its `run`, Runner its `main`, Uploads its
--   table), and the scripts whose runner decides the same way, each with its table:
--   scripts/w34-linear-csv-dates-controls.py (LinearDates), scripts/w34-jira-api-adf-controls.py (JiraAdf),
--   scripts/w34-jira-api-resolution-controls.py (JiraResolution), scripts/w34-jobs-upload-authz-order-controls.py
--   (JobsUpload) and scripts/w34-runner-shutdown-terminal-state-controls.py (RunnerShutdown; neither of these
--   two has a scope). Verdicts, Sweeps, Restored and Caught hold proofs.
-- - Toolchain: scripts/w634-toolchain-pin-controls.py. Pins is its `JobPin`, Anchors its `anchored` and
--   `check_anchors`, Table its controls, Runner its `run` and its module level below `--check-anchors`;
--   Pinned, Matched, Blocks, Jobs, Spans and Undone hold the proofs on `JobPin`; Applies, Restored, Caught,
--   Verdicts, Scored and Unfailed those on the rest.
--   Anchored puts Harness.Catcher and `check_anchors` together.
--   AnchorCheck is scripts/w365-anchor-check-controls-r7k2.py: `load_jobpin` and `pins_by_job` in the file itself,
--   its `main` in Runs, over Catcher's loop; its Scored, Checked and Restored hold proofs.
-- - Kill: scripts/w641-sigterm-controls-r7k2.py. Lines is the edit of a script in its `run_case`, Tree its
--   `dirty_outside_scripts` and `_revert_tree`, Runs its `run_case` and `main`; Edited, Restored, Killed,
--   Scored, Recorded and Live hold proofs.
-- - Tests: runs on concrete inputs.
--
-- How they interact: the harnesses and campaigns are among the scripts that Signals and Anchors read as
-- trees; Campaign shares Harness's disk, and Toolchain and Kill its process. The exit
-- status is the result of each `main`; what is only printed is left out.
--
-- Bounds: `walk` runs level by level for as many levels as the tree is high, which reaches every node
-- (Ast.Walk). `harvest` descends nine levels, as the source does (`depth > 8`). Kill's waiting loop
-- has the turns that its deadline allows (`turns`), which Live shows to be enough where the script changes the
-- tree in time. No other loop needs fuel.
--
-- Parameters, since their code is not in the repository: Python's parser (a script arrives as a tree or as a
-- parse error), the execution of a module level or of a class's text, `sha256`, `os.path.relpath`, the walk
-- over the test files (`rglob`), `git`, the scripts that Kill starts and `go test`. The programs that Catcher
-- and Guard start as subprocesses are parameters too, so that what is said of the harness holds of any
-- version of them. A subprocess is a function from the disk to an exit code, an output and a disk; where a
-- result needs that it changes no file, it says so.
--
-- Not modelled: the wording of printed lines; the registration of a module in sys.modules; a signal in the
-- middle of one write; an OSError of a write (a handler passes over it) and a file that is no UTF-8; the bases,
-- keywords and decorators of a class among the children of a tree; the translation of line ends by `read_text` (a text is what stands in the file); the
-- other control scripts, which have tables and runners of the same kind; and all that is not Python (the
-- Go service, the frontend, the migrations and the deployment files).
pub mod Prelude
pub mod Ast
pub mod Signals
pub mod Anchors
pub mod Harness
pub mod Campaign
pub mod Toolchain
pub mod Kill
mod Tests
