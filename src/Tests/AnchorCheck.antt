-- ===== src/Tests/AnchorCheck.antt =====
-- The anchor-check controls over a small ci.yaml with the three jobs, with the modelled `JobPin` as the class.
use talyvor_track.Prelude.{
  String, ◌≡◌, refl, inl, Bool, true, false, Option, none, some, [], ◌∷◌, ◌<>◌, codes, Text, occurs,
  count_from, str_eq, if◌then◌else◌,
}
use talyvor_track.Harness.Disk.{Disk, put}
use talyvor_track.Harness.Process.{left_behind}
use talyvor_track.Harness.Catcher
use talyvor_track.Toolchain.Pins.{span, apply_pin}
use talyvor_track.Toolchain.Table.{ci}
use talyvor_track.Toolchain.AnchorCheck.{JobPin, Env, load_jobpin}
use talyvor_track.Toolchain.AnchorCheck.Runs.{main_with}
use talyvor_track.Toolchain.AnchorCheck.Restored.{main_with-IsSignalSafe}
use talyvor_track.Toolchain.AnchorCheck.Checked.{modelled, IsTried, main-IsTried}

-- A class that always changes the first job.
abbrev careless : JobPin
careless = record modelled { apply = λ job. apply_pin "lint" }

abbrev pin_line : String
pin_line = ":\n    go-version: \"1.2\"\n"

abbrev yaml : Text
yaml = codes ("  lint" <> (pin_line <> ("  vuln" <> (pin_line <> ("  test" <> pin_line)))))

abbrev tree : Disk
tree q =
    if str_eq q ci
    then some yaml
    else if str_eq q Catcher.campaign
    then some (codes "class JobPin:\n    pass\n\ndef anchored(p)\n")
    else none

abbrev is_green : Option Text → Bool
is_green none = false
is_green (some text) = occurs (codes "vuln:") text

abbrev env_with : JobPin → Env
env_with jp = record {
  base = record {
    check = λ d. record { green = some (is_green (d ci)); disk = d };
    sha256 = λ blob. "same";
  };
  exec = λ src. if occurs (codes "pass") src then some jp else none;
  go = λ d. record { green = some true; disk = d };
}

abbrev renamed : Catcher.Case
renamed = record {
  name = "B2";
  path = ci;
  find = "  vuln:";
  repl = "  vulnerability:";
  predict_red = true;
}

all_fine : (main_with (env_with modelled) (renamed ∷ []) tree).status ≡ some 0
unfolding main_with span apply_pin count_from put
all_fine = refl

wrong_job : (main_with (env_with careless) (renamed ∷ []) tree).status ≡ some 1
unfolding main_with span apply_pin count_from put
wrong_job = refl

main-IsTried_example : IsTried (env_with modelled) (renamed ∷ []) tree
main-IsTried_example =
    main-IsTried (env_with modelled) (renamed ∷ []) tree (λ d q. refl) (unfold load_jobpin in refl)
      all_fine

main_with-IsSignalSafe_example :
    left_behind (main_with (env_with modelled) (renamed ∷ []) tree).process.now ci ≡ some yaml
main_with-IsSignalSafe_example =
    main_with-IsSignalSafe (env_with modelled) (renamed ∷ []) tree (λ d q a b. (refl, refl))
      (main_with (env_with modelled) (renamed ∷ []) tree).process.now (inl refl) ci
