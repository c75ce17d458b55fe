-- ===== src/Campaign/RunnerShutdown.antt =====
-- The table of scripts/w34-runner-shutdown-terminal-state-controls.py: a shutdown ends the running job.
-- Its rows have no scope marker.
use talyvor_track.Prelude.{String, none, List, [], ◌∷◌, codes}
use talyvor_track.Harness.Disk.{Disk}
use talyvor_track.Campaign.Suite.{Env}
use talyvor_track.Campaign.Runner.{Control, Outcome, main_with}

abbrev pub imp : String
imp = "./internal/importer/"

abbrev pub runner : String
runner = "internal/importer/runner.go"

abbrev pub test : String
test = "internal/importer/runner_shutdown_terminal_state_test.go"

abbrev pub shutdown : String
shutdown = "TestRunner_ShutdownMidImport_DoesNotLeaveTheJobRunningForever"

abbrev pub only_ws : String
only_ws = "TestRunner_WritesOnlyIntoJobWorkspace"

abbrev pub partial : String
partial = "TestRunner_PartialImport_Observable"

abbrev pub concurrent : String
concurrent = "TestRunner_ConcurrentJobs_NoCrossWorkspace"

abbrev pub runner_suite : List String
runner_suite = only_ws ∷ partial ∷ concurrent ∷ []

abbrev pub c1 : Control
c1 = record {
  cid = "C1";
  path = runner;
  anchor = codes "\tfinishCtx := context.WithoutCancel(ctx)\n";
  repl = codes "\tfinishCtx := ctx // CONTROL\n";
  must_red = shutdown ∷ [];
  must_green = runner_suite;
  pkg = imp;
  note =
      "THE DEFECT ITSELF, restored in ONE edit: every terminal write goes back through the cancellable context. PREDICTED CATCHER, stated before the run: SHUTDOWN reds at the `job.Status == JobRunning` assertion (\"a job interrupted by shutdown is recorded as %q\"), NOT at either premise check and NOT at the second-claim check. All three pre-existing runner tests must stay green — they drive RunOnce on a healthy context, which is why none of them could ever see this.";
  scope = none;
}

abbrev pub c2 : Control
c2 = record {
  cid = "C2";
  path = runner;
  anchor = codes "\tout, err := r.imp.run(ctx, job.WorkspaceID, job.TeamID, src)\n";
  repl = codes "\tout, err := r.imp.run(finishCtx, job.WorkspaceID, job.TeamID, src) // CONTROL\n";
  must_red = shutdown ∷ [];
  must_green = runner_suite;
  pkg = imp;
  note =
      "⚠ THE OVER-FIX A REVIEWER WOULD ACCEPT: detach the IMPORT as well, not just the record. A dying process then keeps writing issues and the job reports itself clean. It earns the claim that only the RECORD is detached — an import must stop when the process is going down. PREDICTED CATCHER: SHUTDOWN reds at the `job.Status != JobFailed` assertion (\"no row landed, so the job must not report otherwise\"), having passed the JobRunning and finished_at checks.";
  scope = none;
}

abbrev pub c3 : Control
c3 = record {
  cid = "C3";
  path = test;
  anchor = codes "\t\"Interrupted Issue,a description,Todo,High,bug\\n\"\n";
  repl = codes "\t\"\" // CONTROL\n";
  must_red = shutdown ∷ [];
  must_green = runner_suite;
  pkg = imp;
  note =
      "⚠ THE CONTROL THAT EARNS THE FIRST PREMISE. Empty the fixture: the source yields no rows, Create is never reached, the context is never cancelled and the job finishes cleanly. Every assertion about the FINDING would pass on an import that was never interrupted. PREDICTED CATCHER: SHUTDOWN reds at `sc.calls == 0` (\"the fixture yielded no rows … this test measured an uninterrupted import\").";
  scope = none;
}

abbrev pub c4 : Control
c4 = record {
  cid = "C4";
  path = test;
  anchor = codes "\ts.cancel()\n";
  repl = codes "\t_ = s.cancel // CONTROL — the process does NOT go down\n";
  must_red = shutdown ∷ [];
  must_green = runner_suite;
  pkg = imp;
  note =
      "⚠ THE CONTROL THAT EARNS THE SECOND PREMISE. Keep the fixture but remove the shutdown: Create runs, returns a live context's nil error, the row imports and the job succeeds. A terminal status written under a LIVE context proves nothing about the case this test exists for, and only the context-cancelled premise can say so. PREDICTED CATCHER: SHUTDOWN reds at `runCtx.Err() == nil` (\"the runner's context is still live — the shutdown this test exists for did not happen\").";
  scope = none;
}

abbrev pub controls : List Control
controls = c1 ∷ c2 ∷ c3 ∷ c4 ∷ []

unfoldable pub main : Env → Disk → Outcome
unfolding main_with
main env d = main_with env imp controls d
