-- ===== src/Toolchain/Runner.antt =====
-- The campaign of scripts/w634-toolchain-pin-controls.py: its module level below `--check-anchors`.
use talyvor_track.Prelude.{
  ℕ, String, Bool, true, false, not, ◌&&◌, Option, none, some, List, [], ◌∷◌, ◌++◌, ◌<>◌, ◌+◌, Text,
  str_eq, ℤ, pos, int_eq, if◌then◌else◌, ◌==◌, length,
}
use talyvor_track.Harness.Disk.{Disk}
use talyvor_track.Harness.Process.{Process, proceed, write, restore_on_signal, start}
use talyvor_track.Campaign.Suite.{Ran}
use talyvor_track.Toolchain.Anchors.{Control, anchored}

-- What the campaign calls: `go` with these arguments, and the library's `sha256`.
pub record Env : Type 0 where
  pub go : List String → Disk → Ran
  pub sha256 : Text → String

pub data Verdict : Type 0 where
  caught missed collateral anchor_failed : Verdict

abbrev pub is_caught : Verdict → Bool
is_caught caught = true
is_caught _ = false

-- The campaign so far: did it raise, its verdicts in order, the process.
pub record Progress : Type 0 where
  pub raised : Bool
  pub results : List Verdict
  pub process : Process

abbrev pub add_verdict : Verdict → Progress → Progress
add_verdict v p = record p { results = p.results ++ (v ∷ []) }

-- The exit status, or nothing where an exception ends the script; the verdicts; the process.
pub record Outcome : Type 0 where
  pub status : Option ℕ
  pub results : List Verdict
  pub process : Process

abbrev pub command : String → List String
command test = "test" ∷ "-count=1" ∷ "-run" ∷ ("^" <> test <> "$") ∷ "./internal/migrate/" ∷ []

-- `r.returncode == 0`, or nothing where starting `go` raised.
unfoldable pub passed : Option ℤ → Option Bool
passed none = none
passed (some code) = some (int_eq code (pos 0))

-- A test's name in a pattern: `None` is written out.
unfoldable pub name_of : Option String → String
name_of none = "None"
name_of (some t) = t

unfoldable pub is_named : Option String → Bool
is_named none = false
is_named (some t) = not (str_eq t "")

-- `if not red_ok and green_ok`
unfoldable pub verdict_of : Bool → Bool → Verdict
verdict_of red_ok green_ok =
    if not red_ok && green_ok then caught else if red_ok then missed else collateral

abbrev pub baseline_tests : String
baseline_tests = "TestGoModPins|TestTheToolchainPin|TestTheRunningToolchain"

-- `{p: sha(p) for p in FILES}`, as a list of hashes.
unfoldable pub add_hash : Option String → Option (List String) → Option (List String)
add_hash (some h) (some hs) = some (h ∷ hs)
add_hash _ _ = none

abbrev pub same_hashes : List String → List String → Bool
same_hashes [] [] = true
same_hashes (a ∷ as_) (b ∷ bs) = str_eq a b && same_hashes as_ bs
same_hashes _ _ = false

-- `results.count("CAUGHT")`
unfoldable pub count_caught : List Verdict → ℕ
count_caught [] = 0
count_caught (v ∷ vs) = (if is_caught v then 1 else 0) + count_caught vs

module _ (env : Env) where
  -- A run of a test, as a verdict and a step of the process.
  unfoldable pub run : String → Process → Option Bool
  unfolding passed
  run test s = passed (env.go (command test) s.now.disk).code

  unfoldable pub run_on : String → Process → Process
  run_on test s = proceed (env.go (command test) s.now.disk).disk s

  -- The `finally`: the file gets its backup back.
  unfoldable pub finally : Control → Text → Progress → Progress
  unfolding write
  finally c backup p = record p { process = write c.path backup p.process }

  -- What follows the run of the test that must go red.
  unfoldable pub judge_green : Bool → Option Bool → Progress → Progress
  unfolding verdict_of
  judge_green red_ok none p = record p { raised = true }
  judge_green red_ok (some green_ok) p = add_verdict (verdict_of red_ok green_ok) p

  unfoldable pub judge_red : Control → Option Bool → Progress → Progress
  unfolding judge_green run run_on is_named name_of
  judge_red c none p = record p { raised = true }
  judge_red c (some red_ok) p =
      if is_named c.green
      then judge_green red_ok (run (name_of c.green) p.process)
          (record p { process = run_on (name_of c.green) p.process })
      else judge_green red_ok (some true) p

  -- A control whose test must stay green: `CAUGHT` if it does.
  unfoldable pub judge_still : Option Bool → Progress → Progress
  judge_still none p = record p { raised = true }
  judge_still (some green_ok) p = add_verdict (if green_ok then caught else missed) p

  unfoldable pub judge : Control → Option String → Progress → Progress
  unfolding judge_still judge_red run run_on name_of
  judge c none p =
      judge_still (run (name_of c.green) p.process)
        (record p { process = run_on (name_of c.green) p.process })
  judge c (some red) p =
      judge_red c (run red p.process) (record p { process = run_on red p.process })

  -- The body of the `try`, after `anchored`.
  unfoldable pub try_mutated : Control → Option Text → Progress → Progress
  unfolding judge write
  try_mutated c none p = add_verdict anchor_failed p
  try_mutated c (some text) p = judge c c.red (record p { process = write c.path text p.process })

  -- The body of the loop.
  unfoldable pub run_control : Control → Option Text → Progress → Progress
  unfolding try_mutated finally anchored restore_on_signal
  run_control c none p = record p { raised = true }
  run_control c (some backup) p = finally c backup (
      try_mutated c (anchored c.anchor c.expect backup)
        (record p { process = restore_on_signal ((c.path, backup) ∷ []) p.process }))

  unfoldable pub run_controls : List Control → Progress → Progress
  unfolding run_control
  run_controls [] p = p
  run_controls (c ∷ cs) p =
      if p.raised then p else run_controls cs (run_control c (p.process.now.disk c.path) p)

  abbrev pub sha : Disk → String → Option String
  sha d path = elim (d path) [ none ↦ none | some blob ↦ some (env.sha256 blob) ]

  unfoldable pub hashes : Disk → List String → Option (List String)
  unfolding add_hash
  hashes d [] = some []
  hashes d (p ∷ ps) = add_hash (sha d p) (hashes d ps)

  -- The last line: every control caught, the files as before, and the tests green again.
  unfoldable pub exit_status : List Verdict → List String → List String → Option Bool → Option ℕ
  unfolding count_caught
  exit_status results before after none = none
  exit_status results before after (some ok) =
      some (
        if count_caught results == length results && (same_hashes before after && ok) then 0 else 1)

  unfoldable pub close : List String → Option (List String) → Progress → Outcome
  unfolding exit_status run run_on
  close before none p = record { status = none; results = p.results; process = p.process }
  close before (some after) p = record {
    status = exit_status p.results before after (run baseline_tests p.process);
    results = p.results;
    process = run_on baseline_tests p.process;
  }

  unfoldable pub finish : List String → List String → Progress → Outcome
  unfolding hashes close
  finish files before p =
      if p.raised
      then record { status = none; results = p.results; process = p.process }
      else close before (hashes p.process.now.disk files) p

  unfoldable pub from_baseline :
      List String → List Control → List String → Option Bool → Process → Outcome
  unfolding run_controls finish
  from_baseline files cs before none s = record { status = none; results = []; process = s }
  from_baseline files cs before (some false) s = record {
    status = some 1;
    results = [];
    process = s;
  }
  from_baseline files cs before (some true) s =
      finish files before (run_controls cs (record { raised = false; results = []; process = s }))

  unfoldable pub from_hashes : List String → List Control → Option (List String) → Disk → Outcome
  unfolding from_baseline run run_on
  from_hashes files cs none d = record { status = none; results = []; process = start d }
  from_hashes files cs (some before) d =
      from_baseline files cs before (run baseline_tests (start d)) (run_on baseline_tests (start d))

  unfoldable pub campaign_with : List String → List Control → Disk → Outcome
  unfolding from_hashes hashes
  campaign_with files cs d = from_hashes files cs (hashes d files) d
