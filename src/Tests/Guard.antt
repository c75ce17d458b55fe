-- ===== src/Tests/Guard.antt =====
-- scripts/w641-guard-controls-r7k2.py over a guard that reds on any probe script.
use talyvor_track.Prelude.{
  ◌≡◌, refl, inl, Bool, true, false, Option, none, some, [], ◌∷◌, codes, Text, count_from, str_eq,
  if◌then◌else◌,
}
use talyvor_track.Harness.Disk.{Disk, put, unlink}
use talyvor_track.Harness.Guard.{Env, Control, probe_script, guard_edit, guard, probe, main_with}
use talyvor_track.Harness.Probed.{main-unlinked}
use talyvor_track.Harness.Predicted.{IsPredicted, main-IsPredicted}

abbrev tree : Disk
tree q = if str_eq q guard then some (codes "FLOOR = 1") else none

abbrev is_green : Option Text → Bool
is_green none = true
is_green (some script) = false

abbrev env : Env
env = record {
  check =
      λ d. record { green = some (is_green (d probe)); out = codes "\n  R1: probe\n"; disk = d };
}

abbrev planted : Control
planted = record {
  name = "a probe";
  payload = probe_script "x";
  rule = some "R1";
  predict_red = true;
}

abbrev unchanged : Control
unchanged = record {
  name = "an edit";
  payload = guard_edit "FLOOR = 1" "FLOOR = 2";
  rule = none;
  predict_red = false;
}

behaved : (main_with env (planted ∷ unchanged ∷ []) tree).status ≡ some 0
unfolding main_with count_from put
behaved = refl

-- The guard reds, but by another rule.
wrong_rule : (main_with env (record planted { rule = some "R2" } ∷ []) tree).status ≡ some 1
unfolding main_with count_from put
wrong_rule = refl

main-unlinked_example :
    (main_with env (planted ∷ unchanged ∷ []) tree).process.now.disk ≡ unlink probe tree
main-unlinked_example = main-unlinked env (planted ∷ unchanged ∷ []) tree (λ d. refl)

main-IsPredicted_example : IsPredicted env tree (codes "FLOOR = 1") planted
main-IsPredicted_example =
    main-IsPredicted env (planted ∷ unchanged ∷ []) tree (codes "FLOOR = 1") refl (λ d. refl)
      behaved planted (inl refl)
