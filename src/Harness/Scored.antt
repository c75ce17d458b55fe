-- ===== src/Harness/Scored.antt =====
-- What an exit status of 0 says of the catcher harness's controls.
use mathlib.Core.Path.{fun_ext}
use mathlib.Core.Option.{some-injective}
use talyvor_track.Prelude.{
  String, ◌≡◌, refl, sym, ◌∙◌, Bool, true, false, Option, none, some, List, [], ◌∷◌, arith, In, inl,
  inr, Bool-cases, if◌then◌else◌, Text, str_eq, eq_iff,
}
use talyvor_track.Harness.Disk.{Disk, put, Snapshot, read_all, TakenFrom}
use talyvor_track.Harness.Process.{
  Process, proceed, write_all, restore_on_signal, start, read_all-TakenFrom,
}
use talyvor_track.Harness.Catcher.{
  Env, Case, Progress, Outcome, Verdict, campaign, guard_test, run_cases, run_f5, score_f5, sha,
  same_sha, run_all, conclude, finish, from_baseline, begin, main_with,
}
use talyvor_track.Harness.Restored.{IsReadOnly}
use talyvor_track.Harness.Cases.{
  Behaves, BehavesOn, IsClosed, IsSame, IsSame-IsClosed, Behaves-of_same, bad, bad-add,
  one_not_zero, two_not_zero, run_cases-BehavesOn,
}

-- F5: on one of the trees a run of the check went through, and what it left of its own test file has the
-- hash of what it found.
pub record KeepsTest (env : Env) (IsTree : Disk → Type 0) : Type 0 where
  pub tree : Disk
  pub fits : IsTree tree
  pub green : Bool
  pub ran : (env.check tree).green ≡ some green
  pub before : Text
  pub found : tree guard_test ≡ some before
  pub after : Text
  pub left : (env.check tree).disk guard_test ≡ some after
  pub same : env.sha256 before ≡ env.sha256 after

-- Every control of the table behaves, and F5 does.
pub record IsControlled (env : Env) (IsTree : Disk → Type 0) (d : Disk) (cs : List Case)
    : Type 0 where
  pub behaves : (c : Case) → In c cs → BehavesOn env IsTree d c
  pub keeps : KeepsTest env IsTree

module _ (env : Env) (IsTree : Disk → Type 0) (d : Disk) (closed : IsClosed env IsTree d) where
  module _ (originals : Snapshot) (taken : TakenFrom d originals) where
    score_f5-clean :
        (passed same : Option Bool) (p : Progress)
        → (score_f5 env passed same p).raised ≡ false
        → bad (score_f5 env passed same p).results ≡ false
        → (p.raised ≡ false)
          × (bad p.results ≡ false)
          × ((b : Bool) × (passed ≡ some b))
          × (same ≡ some true)
    unfolding score_f5
    score_f5-clean (some passed) (some true) p r b = (
      r,
      ground (arith, bad-add p.results "F5 --check-anchors mutates nothing" Verdict.ok),
      (passed, refl),
      refl,
    )
    score_f5-clean (some passed) (some false) p r b = absurd (
        ground
          (arith, bad-add p.results "F5 --check-anchors mutates nothing" Verdict.mutates_the_tree))
    score_f5-clean (some passed) none p r b = absurd (cc)
    score_f5-clean none same p r b = absurd (cc)

    same_sha-same :
        (before after : Option Text)
        → same_sha env
            (elim before [ none ↦ none | some blob ↦ some (env.sha256 blob) ])
            (elim after [ none ↦ none | some blob ↦ some (env.sha256 blob) ])
          ≡ some true
        → (x : Text) × (before ≡ some x)
          × ((y : Text) × (after ≡ some y) × (env.sha256 x ≡ env.sha256 y))
    same_sha-same (some x) (some y) h =
        (x, refl, (y, refl, (eq_iff (env.sha256 x) (env.sha256 y)).0 (some-injective _ true h)))
    same_sha-same (some x) none h = absurd (cc)
    same_sha-same none after h = absurd (cc)

    run_f5-KeepsTest :
        (p : Progress)
        → IsTree p.process.now.disk
        → (run_f5 env p).raised ≡ false
        → bad (run_f5 env p).results ≡ false
        → KeepsTest env IsTree
    unfolding run_f5
    run_f5-KeepsTest p fits r b =
        let before = p.process.now.disk in
        let checked = env.check before in
        let scored =
          score_f5-clean checked.green
            (same_sha env (sha env before guard_test) (sha env checked.disk guard_test))
            (record p { process = proceed checked.disk p.process }) r b in
        let (x, found, (y, left, same)) =
          same_sha-same (before guard_test) (checked.disk guard_test) (scored.3) in
        record {
          tree = before;
          fits = fits;
          green = scored.2.0;
          ran = scored.2.1;
          before = x;
          found = found;
          after = y;
          left = left;
          same = same;
        }

    run_f5-clean :
        (p : Progress)
        → (run_f5 env p).raised ≡ false
        → bad (run_f5 env p).results ≡ false
        → (p.raised ≡ false) × (bad p.results ≡ false)
    unfolding run_f5
    run_f5-clean p r b =
        let before = p.process.now.disk in
        let checked = env.check before in
        let scored =
          score_f5-clean checked.green
            (same_sha env (sha env before guard_test) (sha env checked.disk guard_test))
            (record p { process = proceed checked.disk p.process }) r b in
        (scored.0, scored.1)

    run_all-IsControlled :
        (cs : List Case) (p : Progress)
        → IsTree p.process.now.disk
        → (run_all env originals cs p).raised ≡ false
        → bad (run_all env originals cs p).results ≡ false
        → IsControlled env IsTree d cs
    unfolding run_all
    run_all-IsControlled cs p fits r b = go done.raised refl r b
      where
        done : Progress
        done = run_cases env originals cs p

        go :
            (x : Bool)
            → done.raised ≡ x
            → (if x then done else run_f5 env done).raised ≡ false
            → bad (if x then done else run_f5 env done).results ≡ false
            → IsControlled env IsTree d cs
        go true e r b = absurd (cc)
        go false e r b =
            let clean = run_f5-clean done r b in
            let (last, all) =
              run_cases-BehavesOn env IsTree d closed originals taken cs p fits clean.0 clean.1 in
            record { behaves = all; keeps = run_f5-KeepsTest done last r b }

    conclude-clean :
        (results : List (String × Verdict)) (green : Option Bool) (s : Process)
        → (conclude env results green s).status ≡ some 0
        → bad results ≡ false
    unfolding conclude
    conclude-clean results none s h = absurd (cc)
    conclude-clean results (some green) s h = elim (Bool-cases (bad results)) [
      | inl e ↦ absurd (one_not_zero (some-injective _ _ (sym (rw e refl) ∙ h)))
      | inr e ↦ e
    ]

    either-status :
        (b : Bool) (o q : Outcome)
        → o.status ≡ none
        → (if b then o else q).status ≡ some 0
        → (b ≡ false) × (q.status ≡ some 0)
    either-status true o q e h = absurd (cc)
    either-status false o q e h = (refl, h)

    finish-IsControlled :
        (cs : List Case) (p : Progress)
        → IsTree p.process.now.disk
        → (finish env originals (run_all env originals cs p)).status ≡ some 0
        → IsControlled env IsTree d cs
    unfolding finish
    finish-IsControlled cs p fits h =
        let all = run_all env originals cs p in
        let back = write_all originals all.process in
        let checked = env.check back.now.disk in
        let (r, s) =
          either-status all.raised (record { status = none; results = all.results; process = back })
            (conclude env all.results checked.green (proceed checked.disk back)) refl h in
        run_all-IsControlled cs p fits r
          (conclude-clean all.results checked.green (proceed checked.disk back) s)

    from_baseline-IsControlled :
        (cs : List Case) (green : Option Bool) (s : Process)
        → IsTree s.now.disk
        → (from_baseline env originals cs green s).status ≡ some 0
        → IsControlled env IsTree d cs
    unfolding from_baseline
    from_baseline-IsControlled cs none s fits h = absurd (cc)
    from_baseline-IsControlled cs (some false) s fits h =
        absurd (two_not_zero (some-injective _ _ h))
    from_baseline-IsControlled cs (some true) s fits h =
        finish-IsControlled cs (record { raised = false; results = []; process = s }) fits h

  begin-IsControlled :
      (cs : List Case) (s : Option Snapshot)
      → IsTree (env.check d).disk
      → read_all d (campaign ∷ guard_test ∷ []) ≡ s
      → (begin env cs s d).status ≡ some 0
      → IsControlled env IsTree d cs
  unfolding begin restore_on_signal
  begin-IsControlled cs none fits e h = absurd (cc)
  begin-IsControlled cs (some s) fits e h =
      from_baseline-IsControlled s (read_all-TakenFrom d (campaign ∷ guard_test ∷ []) s e) cs
        (env.check d).green (proceed (env.check d).disk (restore_on_signal s (start d))) fits h

-- The check changes no file but its own test file.
abbrev pub LeavesOthers : Env → Type 0
LeavesOthers env =
    (d : Disk) (q : String) → str_eq guard_test q ≡ false → (env.check d).disk q ≡ d q

-- The disk, or one that differs from it in the test file alone.
abbrev pub IsOffTest : Disk → Disk → Type 0
IsOffTest d e = (q : String) → str_eq guard_test q ≡ false → e q ≡ d q

IsOffTest-IsClosed : (env : Env) (d : Disk) → LeavesOthers env → IsClosed env (IsOffTest d) d
unfolding put
IsOffTest-IsClosed env d within e p blob mutated fits there q other =
    elim (Bool-cases (str_eq p q)) [
      | inl z ↦ ground (arith, there, eq_iff p q)
      | inr z ↦ ground (arith, within (put p mutated e) q other, fits q other)
    ]

-- If the check changes no file but its own test file and the run exits with 0, then each control of the
-- table behaves as predicted: its file is there, its needle stands there exactly once, and the check on
-- the tree with that one file mutated runs through and is red exactly if the control predicts it, where
-- the tree is the disk up to the test file. And F5 does: on such a tree the check runs through and leaves
-- its test file with the hash that it had.
pub main-IsControlled :
    (env : Env) (cs : List Case) (d : Disk)
    → LeavesOthers env
    → (main_with env cs d).status ≡ some 0
    → IsControlled env (IsOffTest d) d cs
unfolding main_with
main-IsControlled env cs d within h =
    begin-IsControlled env (IsOffTest d) d (IsOffTest-IsClosed env d within) cs
      (read_all d (campaign ∷ guard_test ∷ [])) (within d) refl h

-- If the check changes no file, the tree is the disk.
pub main-Behaves :
    (env : Env) (cs : List Case) (d : Disk)
    → IsReadOnly env
    → (main_with env cs d).status ≡ some 0
    → (c : Case) → In c cs
    → Behaves env d c
unfolding main_with
main-Behaves env cs d ro h c q = Behaves-of_same env d ro c (
    (begin-IsControlled env (IsSame env d ro) d (IsSame-IsClosed env d ro) cs
        (read_all d (campaign ∷ guard_test ∷ [])) (fun_ext (ro d)) refl h).behaves
      c q)
