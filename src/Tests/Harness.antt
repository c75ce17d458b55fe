-- ===== src/Tests/Harness.antt =====
-- scripts/w644-catcher-name-controls-r7k2.py on two small files.
use talyvor_track.Prelude.{
  ◌≡◌, refl, ◌⊎◌, inl, Bool, true, false, Option, none, some, [], ◌∷◌, codes, Text, occurs,
  count_from, str_eq, if◌then◌else◌,
}
use talyvor_track.Harness.Disk.{Disk, SameFiles, put}
use talyvor_track.Harness.Process.{left_behind}
use talyvor_track.Harness.Catcher.{Env, Case, campaign, guard_test, main_with}
use talyvor_track.Harness.Restored.{main-IsSignalSafe, main-pristine}
use talyvor_track.Harness.Scored.{IsControlled, IsOffTest, main-IsControlled}

abbrev tree : Disk
tree q =
    if str_eq q campaign
    then some (codes "LCK = 1")
    else if str_eq q guard_test
    then some (codes "func T(")
    else none

abbrev is_green : Option Text → Bool
is_green none = false
is_green (some blob) = occurs (codes "LCK = 1") blob

-- A check that reads the campaign.
abbrev env : Env
env = record {
  check = λ d. record { green = some (is_green (d campaign)); disk = d };
  sha256 = λ blob. if occurs (codes "1") blob then "one" else "other";
}

abbrev renamed : Case
renamed = record {
  name = "the constant changes";
  path = campaign;
  find = "LCK = 1";
  repl = "LCK = 2";
  predict_red = true;
}

-- A prediction that fails is reported.
wrong_prediction :
    (main_with env (record renamed { predict_red = false } ∷ []) tree).status ≡ some 1
unfolding main_with count_from put
wrong_prediction = refl

main-IsSignalSafe_example :
    left_behind (main_with env (renamed ∷ []) tree).process.now guard_test ≡ some (codes "func T(")
main-IsSignalSafe_example =
    main-IsSignalSafe env (renamed ∷ []) tree (λ d q a b. refl)
      (main_with env (renamed ∷ []) tree).process.now (inl refl) guard_test

-- A check that writes to the file that it tests.
abbrev touching : Env
touching = record {
  check = λ d. record { green = some (is_green (d campaign)); disk = put guard_test (codes "x") d };
  sha256 = env.sha256;
}

main-pristine_example :
    SameFiles (main_with touching (renamed ∷ []) tree).process.now.disk tree
    ⊎ SameFiles (main_with touching (renamed ∷ []) tree).process.now.disk (touching.check tree).disk
main-pristine_example =
    main-pristine touching (renamed ∷ []) tree (λ d q a b. unfold put in rw b refl)

touching_zero : (main_with touching (renamed ∷ []) tree).status ≡ some 0
unfolding main_with count_from put
touching_zero = refl

-- A check that changes its test file each time.
abbrev toggled : Option Text → Text
toggled none = []
toggled (some blob) = if occurs (codes "1") blob then codes "x" else codes "1"

abbrev toggling : Env
toggling = record env {
  check = λ d. record {
    green = some (is_green (d campaign));
    disk = put guard_test (toggled (d guard_test)) d;
  };
}

-- F5 reports it.
toggling_one : (main_with toggling (renamed ∷ []) tree).status ≡ some 1
unfolding main_with count_from put
toggling_one = refl

main-IsControlled_example : IsControlled touching (IsOffTest tree) tree (renamed ∷ [])
unfolding put
main-IsControlled_example =
    main-IsControlled touching (renamed ∷ []) tree (λ d q other. rw other refl) touching_zero
