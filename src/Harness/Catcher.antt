-- ===== src/Harness/Catcher.antt =====
-- scripts/w644-catcher-name-controls-r7k2.py: five controls for the anchor check of the toolchain
-- campaign. Two files are mutated, one at a time.
use talyvor_track.Prelude.{
  ℕ, String, Bool, true, false, not, ◌&&◌, ◌||◌, Option, none, some, List, [], ◌∷◌, ◌++◌, any, Text,
  codes, count, replace_first, str_eq, if◌then◌else◌, ◌==◌,
}
use talyvor_track.Harness.Disk.{Disk, Snapshot, read_all, blob_of}
use talyvor_track.Harness.Process.{Process, proceed, write, write_all, restore_on_signal, start}

abbrev pub campaign : String
campaign = "scripts/w634-toolchain-pin-controls.py"

abbrev pub guard_test : String
guard_test = "internal/migrate/toolchain_pin_test.go"

-- One run of `--check-anchors`: did it exit with 0 (nothing if running it raised), and the disk
-- that it left.
pub record Checked : Type 0 where
  pub green : Option Bool
  pub disk : Disk

-- The check is another program; `sha256` is the library's.
pub record Env : Type 0 where
  pub check : Disk → Checked
  pub sha256 : Text → String

pub record Case : Type 0 where
  pub name : String
  pub path : String
  pub find : String
  pub repl : String
  pub predict_red : Bool

abbrev pub cases : List Case
cases =
    record {
      name = "F1 an expected test is RENAMED away";
      path = guard_test;
      find = "func TestCIGoVersionPinsAreAtLeastTheToolchainFloor(";
      repl = "func TestCIGoVersionPinsAreAtLeastTheToolchainFloorRenamed(";
      predict_red = true;
    }
    ∷ record {
      name = "F2 a control names a test that never existed";
      path = campaign;
      find = "LCK = \"TestCIGoVersionPinsAreAtLeastTheToolchainFloor\"";
      repl = "LCK = \"TestThisTestHasNeverExisted\"";
      predict_red = true;
    }
    ∷ record {
      name = "F3 INVERTED: an untouched tree must stay green";
      path = campaign;
      find = "LCK = \"TestCIGoVersionPinsAreAtLeastTheToolchainFloor\"";
      repl = "LCK = \"TestCIGoVersionPinsAreAtLeastTheToolchainFloor\"";
      predict_red = false;
    }
    ∷ record {
      name = "F4 VACUITY: the source walk returns nothing";
      path = campaign;
      find = "    for f in pathlib.Path(ROOT).rglob(\"*_test.go\"):";
      repl = "    for f in pathlib.Path(ROOT).rglob(\"*_NEVERMATCH.go\"):";
      predict_red = true;
    }
    ∷ []

pub data Verdict : Type 0 where
  ok control_defect blind reds_on_correct_code mutates_the_tree : Verdict

abbrev pub is_ok : Verdict → Bool
is_ok ok = true
is_ok _ = false

-- A part of the harness: did it raise, the verdicts by name so far, and the process.
pub record Progress : Type 0 where
  pub raised : Bool
  pub results : List (String × Verdict)
  pub process : Process

abbrev pub add_result : String → Verdict → Progress → Progress
add_result name v p = record p { results = p.results ++ ((name, v) ∷ []) }

-- Does the guard behave as predicted?
unfoldable pub verdict_of : Bool → Bool → Verdict
verdict_of red predict_red =
    if (red && predict_red) || (not red && not predict_red)
    then ok
    else if not red
    then blind
    else reds_on_correct_code

-- The exit status, or nothing where an exception ends the script; what was scored; the process.
pub record Outcome : Type 0 where
  pub status : Option ℕ
  pub results : List (String × Verdict)
  pub process : Process

module _ (env : Env) where
  -- The check on the mutated file, and the inner `finally`.
  unfoldable pub judge_case : Case → Text → Option Bool → Progress → Progress
  unfolding write verdict_of
  judge_case c original none p = record p {
    raised = true;
    process = write c.path original p.process;
  }
  judge_case c original (some passed) p =
      add_result c.name (verdict_of (not passed) c.predict_red)
        (record p { process = write c.path original p.process })

  -- The mutation and the run of the check.
  unfoldable pub mutate_case : Case → Text → Progress → Progress
  unfolding judge_case write replace_first
  mutate_case c original p =
      let mutated = write c.path (replace_first (codes c.find) (codes c.repl) original) p.process in
      let checked = env.check mutated.now.disk in
      judge_case c original checked.green (record p { process = proceed checked.disk mutated })

  -- The body of the loop for a case whose file is in `originals`.
  unfoldable pub run_case : Case → Text → Progress → Progress
  unfolding mutate_case count
  run_case c original p =
      if count (codes c.find) original == 1
      then mutate_case c original p
      else add_result c.name control_defect p

  -- `originals[path]` raises where the path is not a key.
  unfoldable pub try_case : Case → Option Text → Progress → Progress
  unfolding run_case
  try_case c none p = record p { raised = true }
  try_case c (some original) p = run_case c original p

  unfoldable pub step_case : Snapshot → Case → Progress → Progress
  unfolding try_case blob_of
  step_case originals c p = try_case c (blob_of originals c.path) p

  -- The loop over the cases. An exception ends it.
  unfoldable pub run_cases : Snapshot → List Case → Progress → Progress
  unfolding step_case
  run_cases originals [] p = p
  run_cases originals (c ∷ cs) p =
      if p.raised then p else run_cases originals cs (step_case originals c p)

  -- `sha(path)`: nothing where the file is gone.
  abbrev pub sha : Disk → String → Option String
  sha d path = elim (d path) [ none ↦ none | some blob ↦ some (env.sha256 blob) ]

  -- `sha(GUARD_TEST) == pre`: nothing where one of them raises.
  abbrev pub same_sha : Option String → Option String → Option Bool
  same_sha (some a) (some b) = some (str_eq a b)
  same_sha _ _ = none

  unfoldable pub score_f5 : Option Bool → Option Bool → Progress → Progress
  score_f5 (some passed) (some same) p =
      add_result "F5 --check-anchors mutates nothing" (if same then ok else mutates_the_tree) p
  score_f5 _ _ p = record p { raised = true }

  -- F5: a run of the check leaves the test file as it is.
  unfoldable pub run_f5 : Progress → Progress
  unfolding score_f5
  run_f5 p =
      let before = p.process.now.disk in
      let checked = env.check before in
      score_f5 checked.green (same_sha (sha before guard_test) (sha checked.disk guard_test))
        (record p { process = proceed checked.disk p.process })

  -- The body of the outer `try`.
  unfoldable pub run_all : Snapshot → List Case → Progress → Progress
  unfolding run_cases run_f5
  run_all originals cs p =
      let done = run_cases originals cs p in if done.raised then done else run_f5 done

  -- The last check, and the exit status.
  unfoldable pub conclude : List (String × Verdict) → Option Bool → Process → Outcome
  conclude results none s = record { status = none; results = results; process = s }
  conclude results (some green) s = record {
    status = some (if any (λ r. not (is_ok r.1)) results || not green then 1 else 0);
    results = results;
    process = s;
  }

  -- The outer `finally`, and what follows it unless an exception goes on.
  unfoldable pub finish : Snapshot → Progress → Outcome
  unfolding write_all conclude
  finish originals p =
      let back = write_all originals p.process in
      let checked = env.check back.now.disk in
      if p.raised
      then record { status = none; results = p.results; process = back }
      else conclude p.results checked.green (proceed checked.disk back)

  -- From the baseline check on.
  unfoldable pub from_baseline : Snapshot → List Case → Option Bool → Process → Outcome
  unfolding run_all finish
  from_baseline originals cs none s = record { status = none; results = []; process = s }
  from_baseline originals cs (some false) s = record { status = some 2; results = []; process = s }
  from_baseline originals cs (some true) s =
      finish originals (run_all originals cs (record { raised = false; results = []; process = s }))

  -- The snapshot, the signal handler, the baseline.
  unfoldable pub begin : List Case → Option Snapshot → Disk → Outcome
  unfolding restore_on_signal from_baseline
  begin cs none d = record { status = none; results = []; process = start d }
  begin cs (some originals) d =
      let guarded = restore_on_signal originals (start d) in
      let checked = env.check d in
      from_baseline originals cs checked.green (proceed checked.disk guarded)

  unfoldable pub main_with : List Case → Disk → Outcome
  unfolding begin read_all
  main_with cs d = begin cs (read_all d (campaign ∷ guard_test ∷ [])) d

  unfoldable pub main : Disk → Outcome
  unfolding main_with
  main d = main_with cases d
