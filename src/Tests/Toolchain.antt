-- ===== src/Tests/Toolchain.antt =====
-- The toolchain campaign over a small ci.yaml with two jobs, and over its own table.
use talyvor_track.Prelude.{
  String, ◌≡◌, refl, sym, ap, ◌∙◌, not, ◌==◌, ==_iff, arith, inr, true, false, inl, Option, none,
  some, List, [], ◌∷◌, ◌<>◌, codes, Text, occurs, any, In, count_from, str_eq, contains, ℤ, pos,
  if◌then◌else◌,
}
use talyvor_track.Harness.Disk.{Disk, put}
use talyvor_track.Toolchain.Pins.{count_in, apply_pin}
use talyvor_track.Toolchain.Anchors.{Control, literal, job_pin, check_anchors}
use talyvor_track.Toolchain.Table.{files, controls}
use talyvor_track.Toolchain.Runner.{Env, caught, collateral, anchor_failed, campaign_with}
use talyvor_track.Toolchain.Applies.{IsSound, check_anchors-IsSound}
use talyvor_track.Toolchain.Restored.{IsQuiet, campaign-IsQuiet}
use talyvor_track.Toolchain.Caught.{IsCaught}
use talyvor_track.Toolchain.Scored.{campaign-IsCaught}
use talyvor_track.Toolchain.Verdicts.{is_failed}
use talyvor_track.Harness.Catcher
use talyvor_track.Toolchain.Anchored.{
  Definitions, answer, load_file, anchor_check, IsDecided, main-IsDecided,
}
use talyvor_track.Toolchain.Undone.{IsUndone, apply_pin-IsUndone}
use talyvor_track.Toolchain.Unfailed.{check_anchors-campaign}

abbrev yaml_of : String → String → Text
yaml_of lint test = codes (
    "jobs:\n  lint:\n    go-version: \"" <> lint <> "\"\n  test:\n    go-version: \"" <> test
    <> "\"\n")

abbrev pub yaml : Text
yaml = yaml_of "1.26" "1.26"

one_pin : count_in "lint" yaml ≡ some 1
unfolding count_in
one_pin = refl

no_job : count_in "vuln" yaml ≡ none
unfolding count_in
no_job = refl

lint_lowered : apply_pin "lint" (codes "1.25") yaml ≡ some (yaml_of "1.25" "1.26")
unfolding apply_pin
lint_lowered = refl

test_lowered : apply_pin "test" (codes "1.25") yaml ≡ some (yaml_of "1.26" "1.25")
unfolding apply_pin
test_lowered = refl

abbrev pub tree : Disk
tree q =
    if str_eq q "ci.yaml"
    then some yaml
    else if str_eq q "pin_test.go"
    then some (codes "func TestPin(t *testing.T) {}\nfunc TestWhy(t *testing.T) {}\n")
    else none

abbrev walk : Disk → List String
walk d = "pin_test.go" ∷ []

-- `TestPin` fails unless lint's pin is 1.26; all else passes.
abbrev exit_code : List String → Option Text → ℤ
exit_code args none = pos 1
exit_code args (some text) =
    if contains args "^TestPin$"
    then if occurs (codes "lint:\n    go-version: \"1.26\"") text then pos 0 else pos 1
    else pos 0

abbrev pub env : Env
env = record {
  go = λ args d. record { code = some (exit_code args (d "ci.yaml")); out = []; disk = d };
  sha256 = λ blob. if occurs (codes "1.25") blob then "other" else "one";
}

abbrev pub lint_control : Control
lint_control = record {
  name = "lint";
  path = "ci.yaml";
  anchor = job_pin "lint" "1.25";
  red = some "TestPin";
  green = some "TestWhy";
  proves = "";
  expect = 1;
}

-- The same pin as a literal, which stands there twice.
abbrev ambiguous_control : Control
ambiguous_control = record lint_control { anchor = literal "\"1.26\"" "\"1.25\"" }

abbrev ten : Control → List Control
ten c = c ∷ c ∷ c ∷ c ∷ c ∷ c ∷ c ∷ c ∷ c ∷ c ∷ []

caught_lint : (campaign_with env ("ci.yaml" ∷ []) (lint_control ∷ []) tree).status ≡ some 0
unfolding campaign_with count_from put
caught_lint = refl

not_applied :
    (campaign_with env ("ci.yaml" ∷ []) (ambiguous_control ∷ lint_control ∷ []) tree).results
    ≡ anchor_failed ∷ caught ∷ []
unfolding campaign_with count_from put
not_applied = refl

collateral_damage :
    (campaign_with env
      ("ci.yaml" ∷ [])
      (record lint_control { green = some "TestPin" } ∷ [])
      tree).results
    ≡ collateral ∷ []
unfolding campaign_with count_from put
collateral_damage = refl

-- The shipped table over a tree without its files.
no_files : (campaign_with env files controls tree).status ≡ none
unfolding campaign_with count_from put
no_files = refl

checked : check_anchors walk (ten lint_control) tree ≡ some 0
unfolding check_anchors
checked = refl

stale_anchor : check_anchors walk (ten ambiguous_control) tree ≡ some 1
unfolding check_anchors count_from
stale_anchor = refl

check_anchors-IsSound_example : IsSound walk (ten lint_control) tree
check_anchors-IsSound_example = (check_anchors-IsSound walk (ten lint_control) tree).0 checked

campaign-IsQuiet_example :
    IsQuiet tree
      (campaign_with env ("ci.yaml" ∷ []) (ambiguous_control ∷ lint_control ∷ []) tree).process
campaign-IsQuiet_example =
    campaign-IsQuiet env ("ci.yaml" ∷ []) (ambiguous_control ∷ lint_control ∷ []) tree
      (λ args d. refl)

campaign-IsCaught_example : IsCaught env tree lint_control
campaign-IsCaught_example =
    campaign-IsCaught env ("ci.yaml" ∷ []) (lint_control ∷ []) tree (λ args d. refl) caught_lint
      lint_control (inl refl)

all_once :
    (cs : List Control)
    → any (λ c. not (c.expect == 1)) cs ≡ false
    → (c : Control) → In c cs
    → c.expect ≡ 1
all_once [] h c q = absurd q
all_once (x ∷ cs) h c (inl e) =
    sym (ap (λ (y : Control). y.expect) e) ∙ (==_iff x.expect 1).0 (ground arith)
all_once (x ∷ cs) h c (inr q) = all_once cs (ground arith) c q

check_anchors-campaign_example :
    any is_failed (campaign_with env ("ci.yaml" ∷ []) (ten lint_control) tree).results ≡ false
check_anchors-campaign_example =
    check_anchors-campaign walk env ("ci.yaml" ∷ []) (ten lint_control) tree (λ args d. refl)
      (all_once (ten lint_control) refl) checked

apply_pin-IsUndone_example : IsUndone "lint" (codes "1.25") yaml (yaml_of "1.25" "1.26")
apply_pin-IsUndone_example =
    apply_pin-IsUndone "lint" (codes "1.25") yaml (yaml_of "1.25" "1.26") refl (refl, refl, refl)
      lint_lowered

-- The catcher harness over a campaign whose ten controls name one test.
abbrev catcher_tree : Disk
catcher_tree q =
    if str_eq q Catcher.campaign
    then some (codes "LCK = 1")
    else if str_eq q Catcher.guard_test
    then some (codes "func TestPin(t *testing.T) {}")
    else none

abbrev load : Text → Option Definitions
load src =
    if occurs (codes "LCK = 1") src
    then some (record {
      walk = λ d. Catcher.guard_test ∷ [];
      controls = ten (record lint_control {
        path = Catcher.guard_test;
        anchor = literal "t *testing.T" "t";
        green = none;
      });
    })
    else none

abbrev renamed : Catcher.Case
renamed = record {
  name = "the test is renamed away";
  path = Catcher.guard_test;
  find = "func TestPin(";
  repl = "func TestPinRenamed(";
  predict_red = true;
}

abbrev untouched : Catcher.Case
untouched = record renamed { repl = "func TestPin("; predict_red = false }

predictions_hold :
    (Catcher.main_with
      (anchor_check load env.sha256)
      (renamed ∷ untouched ∷ [])
      catcher_tree).status
    ≡ some 0
unfolding Catcher.main_with check_anchors count_from put answer load_file
predictions_hold = refl

main-IsDecided_example : IsDecided load untouched catcher_tree
main-IsDecided_example =
    main-IsDecided load env.sha256 (renamed ∷ untouched ∷ []) catcher_tree predictions_hold
      untouched (inr (inl refl))
