-- ===== src/Campaign/Suite.antt =====
-- `run` of scripts/w34-upload-authz-order-controls.py and scripts/w34-linear-csv-dates-controls.py: one
-- run of `go test`, and what is read off its output.
use talyvor_track.Prelude.{
  String, Bool, not, ◌&&◌, ◌||◌, Option, none, some, List, [], ◌∷◌, ◌++◌, ◌<>◌, Text, codes, occurs,
  is_empty, ℤ, pos, int_eq, if◌then◌else◌,
}
use talyvor_track.Harness.Disk.{Disk}

-- A subprocess that ended: its return code (nothing if starting it raised), its standard output and
-- then its standard error, and the disk that it left.
pub record Ran : Type 0 where
  pub code : Option ℤ
  pub out : Text
  pub disk : Disk

-- What the campaigns call: `go` with these arguments, the library's `sha256`, and the variable
-- TRACK_TEST_DATABASE_URL of the environment.
pub record Env : Type 0 where
  pub go : List String → Disk → Ran
  pub sha256 : Text → String
  pub database_url : Option String

-- The first result of `run`: an exception, `None`, `True` or `False`.
pub data Passed : Type 0 where
  crashed unscored passed failed : Passed

-- `"|".join(targets)`
unfoldable pub joined : List String → String
joined [] = ""
joined (t ∷ []) = t
joined (t ∷ (u ∷ ts)) = t <> "|" <> joined (u ∷ ts)

unfoldable pub command : List String → String → List String
unfolding joined
command targets pkg =
    ("test" ∷ "-timeout" ∷ "300s" ∷ "-count=1" ∷ [])
    ++ (if is_empty targets then [] else "-run" ∷ ("^(" <> joined targets <> ")$") ∷ [])
    ++ (pkg ∷ [])

-- Does the output say that the mutated tree does not compile?
abbrev pub does_not_build : Text → Bool
does_not_build out =
    occurs (codes "build failed") out
    || occurs (codes "cannot use") out
    || occurs (codes "undefined:") out
    || occurs (codes "declared and not used") out

unfoldable pub classify : List String → Option ℤ → Text → Passed
classify targets none out = crashed
classify targets (some code) out =
    if does_not_build out
    then unscored
    else if not (is_empty targets) && occurs (codes "no tests to run") out
    then unscored
    else if int_eq code (pos 0)
    then passed
    else failed

module _ (env : Env) where
  -- `run(targets, pkg)`: its verdict.
  unfoldable pub run : List String → String → Disk → Passed
  unfolding classify
  run targets pkg d = let r = env.go (command targets pkg) d in classify targets r.code r.out

  -- `run(targets, pkg)`: the disk that it leaves.
  unfoldable pub run_disk : List String → String → Disk → Disk
  run_disk targets pkg d = (env.go (command targets pkg) d).disk
