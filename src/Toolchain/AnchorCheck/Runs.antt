-- ===== src/Toolchain/AnchorCheck/Runs.antt =====
-- `main`: B7, the cases B1 to B4, B5 and B6.
use talyvor_track.Prelude.{
  ℕ, String, Bool, true, false, not, ◌&&◌, ◌||◌, Option, none, some, List, [], ◌∷◌, ◌++◌, any, map,
  Text, codes, str_eq, if◌then◌else◌,
}
use talyvor_track.Harness.Disk.{Disk, Snapshot, read_all, blob_of}
use talyvor_track.Harness.Process.{Process, proceed, write_all, restore_on_signal, start}
use talyvor_track.Harness.Catcher
use talyvor_track.Toolchain.Table.{ci}
use talyvor_track.Toolchain.AnchorCheck.{
  JobPin, Env, load_jobpin, Found, pins_by_job, is_usable, moved, is_only, jobs,
}

abbrev pub cases : List Catcher.Case
cases =
    record {
      name = "B1 a job grows a SECOND go-version pin";
      path = ci;
      find = "          go-version: \"1.26.9\"\n          cache: false\n";
      repl =
          "          go-version: \"1.26.9\"\n          go-version: \"1.26.9\"\n          cache: false\n";
      predict_red = true;
    }
    ∷ record {
      name = "B2 a pinned job is renamed";
      path = ci;
      find = "\n  vuln:\n";
      repl = "\n  vulnerability:\n";
      predict_red = true;
    }
    ∷ record {
      name = "B3 VACUITY: the control list shrinks below the floor";
      path = Catcher.campaign;
      find = "ANCHOR_FLOOR = 10";
      repl = "ANCHOR_FLOOR = 10\nCONTROLS = CONTROLS[:2]";
      predict_red = true;
    }
    ∷ record {
      name = "B4 INVERTED: an untouched tree must stay green";
      path = ci;
      find = "\n  vuln:\n";
      repl = "\n  vuln:\n";
      predict_red = false;
    }
    ∷ []

-- A case's verdict, or one of the other controls'.
pub data Verdict : Type 0 where
  case : Catcher.Verdict → Verdict
  fine job_defect wrong_job mutates reads_as_pin : Verdict

abbrev pub is_fine : Verdict → Bool
is_fine (case v) = Catcher.is_ok v
is_fine fine = true
is_fine _ = false

pub record Progress : Type 0 where
  pub raised : Bool
  pub results : List Verdict
  pub process : Process

abbrev pub add_result : Verdict → Progress → Progress
add_result v p = record p { results = p.results ++ (v ∷ []) }

pub record Outcome : Type 0 where
  pub status : Option ℕ
  pub results : List Verdict
  pub process : Process

-- One target: do the pins after its `apply` differ in that job alone?
unfoldable pub is_hit :
    String → List (String × Found) → Option (List (String × Found)) → Option Bool
unfolding moved
is_hit target base none = none
is_hit target base (some after) = some (is_only target (moved base after))

unfoldable pub pins_after : JobPin → Option Text → Option (List (String × Found))
unfolding pins_by_job
pins_after jp none = none
pins_after jp (some text) = pins_by_job jp jobs text

-- The loop over the targets, or nothing where it raises.
unfoldable pub and_hit : Option Bool → Option Bool → Option Bool
and_hit (some a) (some b) = some (a && b)
and_hit _ _ = none

unfoldable pub all_hit : JobPin → List (String × Found) → Text → List String → Option Bool
unfolding and_hit is_hit pins_after
all_hit jp base src [] = some true
all_hit jp base src (target ∷ ts) =
    and_hit (is_hit target base (pins_after jp (jp.apply target (codes "9.99") src)))
      (all_hit jp base src ts)

unfoldable pub hit_verdict : Option Bool → Option Verdict
hit_verdict none = none
hit_verdict (some hit) = some (if hit then fine else wrong_job)

unfoldable pub b7_verdict : JobPin → Text → Option (List (String × Found)) → Option Verdict
unfolding all_hit is_usable hit_verdict
b7_verdict jp src none = none
b7_verdict jp src (some base) =
    if is_usable base then hit_verdict (all_hit jp base src jobs) else some job_defect

unfoldable pub score : Option Verdict → Progress → Progress
score none p = record p { raised = true }
score (some v) p = add_result v p

unfoldable pub run_b7 : JobPin → Option Text → Progress → Progress
unfolding score b7_verdict pins_by_job
run_b7 jp none p = record p { raised = true }
run_b7 jp (some src) p = score (b7_verdict jp src (pins_by_job jp jobs src)) p

module _ (env : Env) where
  -- B1 to B4
  unfoldable pub run_cases : Snapshot → List Catcher.Case → Progress → Progress
  unfolding Catcher.run_cases
  run_cases originals cs p =
      let q =
        Catcher.run_cases env.base originals cs
          (record { raised = false; results = []; process = p.process }) in
      record {
        raised = q.raised;
        results = p.results ++ map (λ r. case r.1) q.results;
        process = q.process;
      }

  abbrev pub sha : Disk → String → Option String
  sha d path = elim (d path) [ none ↦ none | some blob ↦ some (env.base.sha256 blob) ]

  abbrev pub same_sha : Option String → Option String → Option Bool
  same_sha (some a) (some b) = some (str_eq a b)
  same_sha _ _ = none

  unfoldable pub b5_verdict : Option Bool → Option Bool → Option Bool → Option Verdict
  unfolding and_hit
  b5_verdict none a b = none
  b5_verdict (some green) a b = elim (and_hit a b) [
    | none ↦ none
    | some same ↦ some (if same then fine else mutates)
  ]

  unfoldable pub run_b5 : Progress → Progress
  unfolding score b5_verdict
  run_b5 p =
      let before = p.process.now.disk in
      let checked = env.base.check before in
      score
        (b5_verdict checked.green (same_sha (sha before ci) (sha checked.disk ci))
          (same_sha (sha before Catcher.campaign) (sha checked.disk Catcher.campaign)))
        (record p { process = proceed checked.disk p.process })

  unfoldable pub b6_verdict : Option Bool → Option Verdict
  b6_verdict none = none
  b6_verdict (some green) = some (if green then fine else reads_as_pin)

  unfoldable pub run_b6 : Progress → Progress
  unfolding score b6_verdict
  run_b6 p =
      let ran = env.go p.process.now.disk in
      score (b6_verdict ran.green) (record p { process = proceed ran.disk p.process })

  -- An exception ends the `try`.
  abbrev pub and_then : (Progress → Progress) → Progress → Progress
  and_then f p = let next = f p in if p.raised then p else next

  unfoldable pub run_all : JobPin → Snapshot → List Catcher.Case → Progress → Progress
  unfolding run_b7 run_cases run_b5 run_b6 blob_of
  run_all jp originals cs p =
      and_then run_b6
        (and_then run_b5 (and_then (run_cases originals cs) (run_b7 jp (blob_of originals ci) p)))

  unfoldable pub conclude : List Verdict → Option Bool → Process → Outcome
  conclude results none s = record { status = none; results = results; process = s }
  conclude results (some green) s = record {
    status = some (if any (λ v. not (is_fine v)) results || not green then 1 else 0);
    results = results;
    process = s;
  }

  unfoldable pub finish : Snapshot → Progress → Outcome
  unfolding write_all conclude
  finish originals p =
      let back = write_all originals p.process in
      let checked = env.base.check back.now.disk in
      if p.raised
      then record { status = none; results = p.results; process = back }
      else conclude p.results checked.green (proceed checked.disk back)

  unfoldable pub from_baseline :
      JobPin → Snapshot → List Catcher.Case → Option Bool → Process → Outcome
  unfolding run_all finish
  from_baseline jp originals cs none s = record { status = none; results = []; process = s }
  from_baseline jp originals cs (some false) s = record {
    status = some 2;
    results = [];
    process = s;
  }
  from_baseline jp originals cs (some true) s =
      finish originals
        (run_all jp originals cs (record { raised = false; results = []; process = s }))

  unfoldable pub begin : Option JobPin → List Catcher.Case → Option Snapshot → Disk → Outcome
  unfolding restore_on_signal from_baseline
  begin none cs originals d = record { status = none; results = []; process = start d }
  begin (some jp) cs none d = record { status = none; results = []; process = start d }
  begin (some jp) cs (some originals) d =
      let checked = env.base.check d in
      from_baseline jp originals cs checked.green
        (proceed checked.disk (restore_on_signal originals (start d)))

  unfoldable pub main_with : List Catcher.Case → Disk → Outcome
  unfolding begin load_jobpin read_all
  main_with cs d =
      begin (load_jobpin env (d Catcher.campaign)) cs (read_all d (ci ∷ Catcher.campaign ∷ [])) d

  unfoldable pub main : Disk → Outcome
  unfolding main_with
  main d = main_with cases d
