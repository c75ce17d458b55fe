-- ===== src/Toolchain/Unfailed.antt =====
-- A table that `--check-anchors` passes, run by the campaign: no ANCHOR-FAILED.
use talyvor_track.Prelude.{
  String, ◌≡◌, refl, sym, ap, ◌∙◌, Bool, true, false, Option, none, some, List, [], ◌∷◌, any, In,
  inl, inr, Text, if◌then◌else◌,
}
use mathlib.Core.Path.{subst}
use talyvor_track.Harness.Disk.{Disk}
use talyvor_track.Harness.Process.{Process, start}
use talyvor_track.Toolchain.Anchors.{Control, check_anchors, test_sources}
use talyvor_track.Toolchain.Applies.{IsCurrent, check_anchors-IsSound, anchored-some}
use talyvor_track.Toolchain.Runner.{
  Env, Progress, Outcome, baseline_tests, run, run_on, run_control, run_controls, hashes, close,
  finish, from_baseline, from_hashes, campaign_with,
}
use talyvor_track.Toolchain.Restored.{
  IsReadOnly, IsQuiet, run_control-IsQuiet, run_on-IsQuiet, start-IsQuiet,
}
use talyvor_track.Toolchain.Verdicts.{is_failed, Adds, run_control-applied, Adds-unfailed}

module _ (env : Env) (d : Disk) (ro : IsReadOnly env) where
  either-unfailed :
      (b : Bool) (p q : Progress)
      → any is_failed p.results ≡ false
      → any is_failed q.results ≡ false
      → any is_failed (if b then p else q).results ≡ false
  either-unfailed true p q h k = h
  either-unfailed false p q h k = k

  run_controls-unfailed :
      (sources : Text) (cs : List Control) (p : Progress)
      → ((c : Control) → In c cs → (c.expect ≡ 1) × IsCurrent sources d c)
      → IsQuiet d p.process
      → any is_failed p.results ≡ false
      → any is_failed (run_controls env cs p).results ≡ false
  unfolding run_controls
  run_controls-unfailed sources [] p all i h = h
  run_controls-unfailed sources (c ∷ cs) p all i h =
      let file = p.process.now.disk c.path in
      let next = run_control env c file p in
      let there = sym (ap (λ (o : Disk). o c.path) i.files) in
      let (one, current) = all c (inl refl) in
      let (backup, here, (text, applied)) = anchored-some sources d c one current in
      let adds : Adds true p next =
        subst (λ (f : Option Text). Adds true p (run_control env c f p)) (sym here ∙ there)
          (run_control-applied env c backup text p applied) in
      either-unfailed p.raised p (run_controls env cs next) h (
        run_controls-unfailed sources cs next (λ x q. all x (inr q))
          (run_control-IsQuiet env d ro c file p there i) (Adds-unfailed p next adds h))

either-results :
    (b : Bool) (o q : Outcome)
    → any is_failed o.results ≡ false
    → any is_failed q.results ≡ false
    → any is_failed (if b then o else q).results ≡ false
either-results true o q h k = h
either-results false o q h k = k

module _ (env : Env) (d : Disk) (ro : IsReadOnly env) (cs : List Control) (sources : Text)
    (all : (c : Control) → In c cs → (c.expect ≡ 1) × IsCurrent sources d c) where
  close-unfailed :
      (before : List String) (after : Option (List String)) (p : Progress)
      → any is_failed p.results ≡ false
      → any is_failed (close env before after p).results ≡ false
  unfolding close
  close-unfailed before none p h = h
  close-unfailed before (some after) p h = h

  from_baseline-unfailed :
      (files before : List String) (green : Option Bool) (s : Process)
      → IsQuiet d s
      → any is_failed (from_baseline env files cs before green s).results ≡ false
  unfolding from_baseline finish
  from_baseline-unfailed files before none s i = refl
  from_baseline-unfailed files before (some false) s i = refl
  from_baseline-unfailed files before (some true) s i =
      let p = run_controls env cs (record { raised = false; results = []; process = s }) in
      let none_failed =
        run_controls-unfailed env d ro sources cs
          (record { raised = false; results = []; process = s }) all i refl in
      either-results p.raised (record { status = none; results = p.results; process = p.process })
        (close env before (hashes env p.process.now.disk files) p) none_failed
        (close-unfailed before (hashes env p.process.now.disk files) p none_failed)

  from_hashes-unfailed :
      (files : List String) (before : Option (List String))
      → any is_failed (from_hashes env files cs before d).results ≡ false
  unfolding from_hashes
  from_hashes-unfailed files none = refl
  from_hashes-unfailed files (some before) =
      from_baseline-unfailed files before (run env baseline_tests (start d))
        (run_on env baseline_tests (start d))
        (run_on-IsQuiet env d ro baseline_tests (start d) (start-IsQuiet d))

-- Where `--check-anchors` exits with 0 on a table whose anchors are each to stand once, the campaign over
-- that table and that tree, if its tests change no file, never prints ANCHOR-FAILED.
pub check_anchors-campaign :
    (walk : Disk → List String) (env : Env) (files : List String) (cs : List Control) (d : Disk)
    → IsReadOnly env
    → ((c : Control) → In c cs → c.expect ≡ 1)
    → check_anchors walk cs d ≡ some 0
    → any is_failed (campaign_with env files cs d).results ≡ false
unfolding campaign_with
check_anchors-campaign walk env files cs d ro ones h =
    let sound = (check_anchors-IsSound walk cs d).0 h in
    from_hashes-unfailed env d ro cs (test_sources walk d) (λ c q. (ones c q, sound.current c q))
      files (hashes env d files)
