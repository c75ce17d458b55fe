-- ===== src/Tests/Campaign.antt =====
-- A campaign with one control over one file.
use talyvor_track.Prelude.{
  String, ◌≡◌, refl, inl, Option, none, some, List, [], ◌∷◌, codes, Text, occurs, count_from,
  sorted, str_eq, contains, ℤ, pos, if◌then◌else◌,
}
use talyvor_track.Harness.Disk.{Disk}
use talyvor_track.Campaign.Suite.{Env, command}
use talyvor_track.Campaign.Runner.{Control, main_with, set_verdict}
use talyvor_track.Campaign.Uploads
use talyvor_track.Campaign.LinearDates
use talyvor_track.Campaign.Restored.{main-restored}
use talyvor_track.Campaign.Caught.{IsCaught, main-IsCaught}

abbrev tree : Disk
tree q = if str_eq q "a.go" then some (codes "x := 1") else none

-- A suite in which only `TestX` reads the file, and fails unless it says `x := 1`.
abbrev exit_code : List String → Option Text → ℤ
exit_code args none = pos 1
exit_code args (some blob) =
    if contains args "^(TestX)$"
    then if occurs (codes "x := 1") blob then pos 0 else pos 1
    else pos 0

abbrev env : Env
env = record {
  go = λ args d. record { code = some (exit_code args (d "a.go")); out = codes "ok"; disk = d };
  sha256 = λ blob. if occurs (codes "1") blob then "one" else "other";
  database_url = some "postgres://localhost/track";
}

abbrev planted_two : Control
planted_two = record {
  cid = "C1";
  path = "a.go";
  anchor = codes "x := 1";
  repl = codes "x := 2";
  must_red = "TestX" ∷ [];
  must_green = "TestY" ∷ [];
  pkg = "./a/";
  note = "";
  scope = none;
}

caught_one : (main_with env "./a/" (planted_two ∷ []) tree).status ≡ some 0
unfolding main_with sorted command count_from set_verdict
caught_one = refl

-- A test that does not see the edit.
missed_one :
    (main_with env "./a/" (record planted_two { must_red = "TestY" ∷ [] } ∷ []) tree).status
    ≡ some 1
unfolding main_with sorted command count_from set_verdict
missed_one = refl

-- A control whose scope marker is nowhere in the file does not run, and the campaign exits with 0.
lost_scope :
    (main_with env "./a/" (record planted_two { scope = some (codes "func Y(") } ∷ []) tree).status
    ≡ some 0
unfolding main_with sorted command count_from set_verdict
lost_scope = refl

-- The campaigns refuse to run without a database.
uploads_refused : (Uploads.main (record env { database_url = none }) tree).status ≡ some 3
unfolding Uploads.main
uploads_refused = refl

dates_refused : (LinearDates.main (record env { database_url = some "" }) tree).status ≡ some 3
unfolding LinearDates.main
dates_refused = refl

main-restored_example : (main_with env "./a/" (planted_two ∷ []) tree).disk ≡ tree
main-restored_example = main-restored env "./a/" (planted_two ∷ []) tree (λ args d. refl)

main-IsCaught_example : IsCaught env tree planted_two
main-IsCaught_example =
    main-IsCaught env "./a/" (planted_two ∷ []) tree (λ args d. refl) ((λ x q. absurd q), tt)
      caught_one planted_two (inl refl) refl
