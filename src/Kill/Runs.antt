-- ===== src/Kill/Runs.antt =====
-- The runs: a script is started, killed once it has changed the tree, and judged by what it leaves.
use talyvor_track.Prelude.{
  ℕ, zero, suc, String, Bool, true, false, not, Option, none, some, List, [], ◌∷◌, ◌++◌, ◌<>◌, any,
  Text, is_empty, if◌then◌else◌,
}
use talyvor_track.Harness.Disk.{Disk, Snapshot, restore, read_all}
use talyvor_track.Harness.Process.{Process, proceed, write, start}
use talyvor_track.Kill.Lines.{disabled}
use talyvor_track.Kill.Tree.{Git, dirty_outside_scripts, newly_dirty, revert_tree}

pub data Outcome : Type 0 where
  restored stranded defect : Outcome

abbrev pub targets : List String
targets =
    "w34-jira-contract-controls.py" ∷ "w34-linear-query-schema-controls.py"
    ∷ "w34-sprint-no-active-cycle-controls.py" ∷ []

-- The running script after SIGTERM: is it dead before the timeout, and the disk then.
pub record Ended : Type 0 where
  pub exited : Bool
  pub disk : Disk

-- What the harness calls. `Script` is a script that runs: it goes on between two polls, `ended` is its
-- return code, and it does what it does on SIGTERM or dies of SIGKILL. `turns` is how often the loop
-- turns before the deadline.
pub record Env (Script : Type 0) : Type 0 where
  pub git : Git
  pub spawn : String → Disk → Option Script
  pub ended : Script → Bool
  pub go_on : Script → Disk → Script × Disk
  pub terminate : Script → Disk → Ended
  pub kill : Script → Disk → Disk
  pub turns : ℕ

-- A run: its outcome, or nothing where it raised, and the harness.
pub record Run : Type 0 where
  pub outcome : Option Outcome
  pub process : Process

abbrev pub path_of : String → String
path_of script = "scripts/" <> script

module _ {Script : Type 0} (env : Env Script) (baseline : List Text) where
  -- The last part: is the tree clean after the kill?
  unfoldable pub judge : Disk → Outcome
  unfolding newly_dirty
  judge d = if is_empty (newly_dirty env.git baseline d) then restored else stranded

  -- SIGTERM, and SIGKILL where that does not end the script.
  unfoldable pub send_term : Script → Process → Run
  unfolding judge
  send_term x s =
      let e = env.terminate x s.now.disk in
      if e.exited
      then record { outcome = some (judge e.disk); process = proceed e.disk s }
      else record {
        outcome = some defect;
        process = proceed (env.kill x e.disk) (proceed e.disk s);
      }

  -- No change before the deadline: `terminate`, and `wait` raises where that does not end the script.
  unfoldable pub give_up : Script → Process → Run
  give_up x s =
      let e = env.terminate x s.now.disk in
      record { outcome = (if e.exited then some defect else none); process = proceed e.disk s }

  -- The loop that waits for a change of the tree.
  unfoldable pub wait : ℕ → Script → Process → Run
  unfolding send_term give_up newly_dirty
  wait zero x s = give_up x s
  wait (suc n) x s =
      let next = env.go_on x s.now.disk in
      let later = wait n next.0 (proceed next.1 s) in
      if env.ended x
      then record { outcome = some defect; process = s }
      else if is_empty (newly_dirty env.git baseline s.now.disk)
      then later
      else send_term x s

  -- From `Popen` on.
  unfoldable pub watch : Option Script → Process → Run
  unfolding wait
  watch none s = record { outcome = none; process = s }
  watch (some x) s = wait env.turns x s

  unfoldable pub run_disabled : String → Option Text → Process → Run
  unfolding watch write
  run_disabled script none s = record { outcome = some defect; process = s }
  run_disabled script (some src) s =
      let edited = write (path_of script) src s in
      watch (env.spawn (path_of script) edited.now.disk) edited

  -- The body of the `try`.
  unfoldable pub try_case : String → Bool → Text → Process → Run
  unfolding run_disabled watch disabled
  try_case script with_handler original s =
      if with_handler
      then watch (env.spawn (path_of script) s.now.disk) s
      else run_disabled script (disabled original) s

  -- The `finally`: the script gets its text back, and the tree goes back.
  unfoldable pub finally : String → Text → Run → Run
  unfolding write revert_tree
  finally script original r =
      let back = write (path_of script) original r.process in
      record r { process = proceed (revert_tree env.git baseline back.now.disk) back }

  unfoldable pub run_read : String → Bool → Option Text → Process → Run
  unfolding try_case finally
  run_read script with_handler none s = record { outcome = none; process = s }
  run_read script with_handler (some original) s =
      finally script original (try_case script with_handler original s)

  unfoldable pub run_case : String → Bool → Process → Run
  unfolding run_read
  run_case script with_handler s = run_read script with_handler (s.now.disk (path_of script)) s

pub data Verdict : Type 0 where
  ok control_defect unexpected : Verdict

abbrev pub is_ok : Verdict → Bool
is_ok ok = true
is_ok _ = false

unfoldable pub same_outcome : Outcome → Outcome → Bool
same_outcome restored restored = true
same_outcome stranded stranded = true
same_outcome defect defect = true
same_outcome _ _ = false

unfoldable pub verdict_of : Outcome → Outcome → Verdict
unfolding same_outcome
verdict_of outcome predicted =
    if same_outcome outcome predicted
    then ok
    else if same_outcome outcome defect
    then control_defect
    else unexpected

abbrev pub predicted : Bool → Outcome
predicted with_handler = if with_handler then restored else stranded

-- The harness so far: did it raise, its verdicts, the process.
pub record Progress : Type 0 where
  pub raised : Bool
  pub results : List Verdict
  pub process : Process

pub record Result : Type 0 where
  pub status : Option ℕ
  pub results : List Verdict
  pub process : Process

-- The two cases of a script: with its handler, and without.
abbrev pub cases_of : List String → List (String × Bool)
cases_of [] = []
cases_of (t ∷ ts) = (t, true) ∷ (t, false) ∷ cases_of ts

-- `restore_on_signal(snapshot)`, for what `BASELINE` holds from here on.
unfoldable pub restore_and_revert : Git → Snapshot → List Text → Process → Process
unfolding revert_tree
restore_and_revert git snapshot baseline s = record {
  now = record {
    disk = s.now.disk;
    on_signal = λ d. revert_tree git baseline (restore snapshot d);
  };
  past = s.now ∷ s.past;
}

module _ {Script : Type 0} (env : Env Script) where
  unfoldable pub score : Bool → Option Outcome → Progress → Progress
  unfolding verdict_of
  score with_handler none p = record p { raised = true }
  score with_handler (some outcome) p = record p {
    results = p.results ++ (verdict_of outcome (predicted with_handler) ∷ []);
  }

  unfoldable pub step_case : List Text → String → Bool → Progress → Progress
  unfolding score run_case
  step_case baseline script with_handler p =
      let r = run_case env baseline script with_handler p.process in
      score with_handler r.outcome (record p { process = r.process })

  unfoldable pub run_cases : List Text → List (String × Bool) → Progress → Progress
  unfolding step_case
  run_cases baseline [] p = p
  run_cases baseline ((script, with_handler) ∷ cs) p =
      if p.raised then p else run_cases baseline cs (step_case baseline script with_handler p)

  unfoldable pub conclude : Progress → Result
  conclude p = record {
    status =
        (if p.raised then none else some (if any (λ v. not (is_ok v)) p.results then 1 else 0));
    results = p.results;
    process = p.process;
  }

  unfoldable pub from_snapshot : List String → Option Snapshot → Disk → Result
  unfolding conclude run_cases restore_and_revert dirty_outside_scripts
  from_snapshot ts none d = record { status = none; results = []; process = start d }
  from_snapshot ts (some snapshot) d =
      let installed = restore_and_revert env.git snapshot [] (start d) in
      let baseline = dirty_outside_scripts env.git d in
      conclude (
        run_cases baseline (cases_of ts) (record {
          raised = false;
          results = [];
          process = restore_and_revert env.git snapshot baseline installed;
        }))

  -- `main`, where `scripts` lists the files of `glob("*.py")`.
  unfoldable pub main_with : (Disk → List String) → List String → Disk → Result
  unfolding from_snapshot read_all
  main_with scripts ts d = from_snapshot ts (read_all d (scripts d)) d

  unfoldable pub main : (Disk → List String) → Disk → Result
  unfolding main_with
  main scripts d = main_with scripts targets d
