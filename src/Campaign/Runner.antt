-- ===== src/Campaign/Runner.antt =====
-- `main` of scripts/w34-upload-authz-order-controls.py, which scripts/w34-linear-csv-dates-controls.py
-- repeats word for word over its own table.
use talyvor_track.Prelude.{
  ℕ, String, Bool, true, false, not, ◌&&◌, Option, none, some, List, [], ◌∷◌, ◌++◌, any, map, Text,
  codes, occurs, count, replace_first, is_prefix, is_empty, str_eq, sorted, if◌then◌else◌, ◌==◌,
}
use talyvor_track.Harness.Disk.{Disk, put}
use talyvor_track.Campaign.Suite.{Env, Passed, crashed, unscored, passed, failed, run, run_disk}

pub record Control : Type 0 where
  pub cid : String
  pub path : String
  pub anchor : Text
  pub repl : Text
  pub must_red : List String
  pub must_green : List String
  pub pkg : String
  pub note : String
  pub scope : Option Text

-- What was seen of a mutation.
pub data Score : Type 0 where
  measured_only stayed_green companion_went_red caught suspect not_caught : Score

-- The verdicts, as the script words them: `scored s restored` ends in "TREE NOT RESTORED" where
-- `restored` is false.
pub data Verdict : Type 0 where
  scope_not_found : Text → Verdict
  anchor_count : ℕ → Verdict
  edit_changed_nothing : Verdict
  scored : Score → Bool → Verdict

-- The test that `bad` applies to a verdict. The verdict on a missing scope marker quotes the marker,
-- and "NOT RESTORED" is searched for in all of it.
unfoldable pub is_bad : Verdict → Bool
is_bad (scope_not_found marker) = occurs (codes "NOT RESTORED") marker
is_bad (anchor_count n) = true
is_bad edit_changed_nothing = true
is_bad (scored s false) = true
is_bad (scored measured_only true) = false
is_bad (scored stayed_green true) = false
is_bad (scored companion_went_red true) = true
is_bad (scored caught true) = false
is_bad (scored suspect true) = true
is_bad (scored not_caught true) = true

-- `verdicts[cid] = v`
unfoldable pub set_verdict : String → Verdict → List (String × Verdict) → List (String × Verdict)
set_verdict cid v [] = (cid, v) ∷ []
set_verdict cid v ((k, w) ∷ vs) =
    let rest = set_verdict cid v vs in if str_eq k cid then (k, v) ∷ vs else (k, w) ∷ rest

-- The campaign so far: did it raise, its verdicts, the disk.
pub record Progress : Type 0 where
  pub raised : Bool
  pub verdicts : List (String × Verdict)
  pub disk : Disk

abbrev pub add_verdict : String → Verdict → Progress → Progress
add_verdict cid v p = record p { verdicts = set_verdict cid v p.verdicts }

-- One of the two loops over tests: did it raise, is every verdict as wanted so far, the disk.
pub record Sweep : Type 0 where
  pub raised : Bool
  pub ok : Bool
  pub disk : Disk

abbrev pub sweep_from : Disk → Sweep
sweep_from d = record { raised = false; ok = true; disk = d }

-- Is the verdict on a test the one that the list wants?
unfoldable pub is_wanted : Bool → Passed → Bool
is_wanted red failed = red
is_wanted red passed = not red
is_wanted red _ = false

unfoldable pub add_run : Bool → Passed → Disk → Sweep → Sweep
unfolding is_wanted
add_run red crashed d s = record { raised = true; ok = s.ok; disk = d }
add_run red p d s = record { raised = false; ok = s.ok && is_wanted red p; disk = d }

-- `src[:i]` and `src[i:]` for `i = src.find(marker)`, or nothing where that is -1.
abbrev pub on_next : ℕ → Option (Text × Text) → Option (Text × Text)
on_next c none = none
on_next c (some (head, body)) = some (c ∷ head, body)

unfoldable pub split_at : Text → Text → Option (Text × Text)
split_at marker [] = if is_prefix marker [] then some ([], []) else none
split_at marker (c ∷ src) =
    let rest = split_at marker src in
    if is_prefix marker (c ∷ src) then some ([], c ∷ src) else on_next c rest

unfoldable pub score : Bool → Bool → Bool → Bool → Score
score true true red_ok green_ok = measured_only
score true false red_ok green_ok = if green_ok then stayed_green else companion_went_red
score false no_green red_ok green_ok =
    if red_ok && green_ok then caught else if red_ok && not green_ok then suspect else not_caught

-- `{f: sha(f) for f in files}`
abbrev pub Hashes : Type 0
Hashes = List (String × String)

unfoldable pub hash_of : Hashes → String → Option String
hash_of [] q = none
hash_of ((p, h) ∷ hs) q = if str_eq p q then some h else hash_of hs q

unfoldable pub with_hash : String → Option String → Option Hashes → Option Hashes
with_hash p (some h) (some hs) = some ((p, h) ∷ hs)
with_hash p _ _ = none

-- `sha(path) == before[path]`: nothing where one of them raises.
abbrev pub same_hash : Option String → Option String → Option Bool
same_hash (some a) (some b) = some (str_eq a b)
same_hash _ _ = none

-- The exit status, or nothing where an exception ends the script; the verdicts; the disk.
pub record Outcome : Type 0 where
  pub status : Option ℕ
  pub verdicts : List (String × Verdict)
  pub disk : Disk

module _ (env : Env) where
  abbrev pub sha : Disk → String → Option String
  sha d path = elim (d path) [ none ↦ none | some blob ↦ some (env.sha256 blob) ]

  unfoldable pub hash_all : Disk → List String → Option Hashes
  unfolding with_hash
  hash_all d [] = some []
  hash_all d (p ∷ ps) = with_hash p (sha d p) (hash_all d ps)

  -- A loop over the tests that must go red (or, with false, that must stay green).
  unfoldable pub sweep : Bool → String → List String → Sweep → Sweep
  unfolding run run_disk add_run
  sweep red pkg [] s = s
  sweep red pkg (t ∷ ts) s =
      let next = add_run red (run env (t ∷ []) pkg s.disk) (run_disk env (t ∷ []) pkg s.disk) s in
      let rest = sweep red pkg ts next in if s.raised then s else rest

  -- The second loop, if the first one did not raise.
  unfoldable pub sweep_greens : Control → Sweep → Sweep
  unfolding sweep
  sweep_greens c reds =
      if reds.raised then reds else sweep false c.pkg c.must_green (sweep_from reds.disk)

  -- The verdict on a mutation, after the `finally` has put the file back.
  unfoldable pub judge : Control → Bool → Bool → Option Bool → Progress → Progress
  unfolding score
  judge c red_ok green_ok none p = record p { raised = true }
  judge c red_ok green_ok (some restored) p =
      add_verdict c.cid
        (scored (score (is_empty c.must_red) (is_empty c.must_green) red_ok green_ok) restored) p

  -- The `try` over both loops, and its `finally`.
  unfoldable pub measure : Hashes → Control → Text → Progress → Progress
  unfolding sweep sweep_greens judge hash_of put
  measure before c src p =
      let reds = sweep true c.pkg c.must_red (sweep_from p.disk) in
      let greens = sweep_greens c reds in
      let back = put c.path src greens.disk in
      if greens.raised
      then record { raised = true; verdicts = p.verdicts; disk = back }
      else judge c reds.ok greens.ok (same_hash (sha back c.path) (hash_of before c.path))
          (record p { disk = back })

  -- Did the edit change the file?
  unfoldable pub after_edit : Hashes → Control → Text → Option Bool → Progress → Progress
  unfolding measure put
  after_edit before c src none p = record p { raised = true }
  after_edit before c src (some true) p =
      add_verdict c.cid edit_changed_nothing (record p { disk = put c.path src p.disk })
  after_edit before c src (some false) p = measure before c src p

  -- The edit, where the anchor stands once in the body.
  unfoldable pub edit_control : Hashes → Control → Text → Text → Text → Progress → Progress
  unfolding after_edit put hash_of replace_first
  edit_control before c src head body p =
      let mutated = put c.path (head ++ replace_first c.anchor c.repl body) p.disk in
      after_edit before c src (same_hash (sha mutated c.path) (hash_of before c.path))
        (record p { disk = mutated })

  unfoldable pub try_anchor : Hashes → Control → Text → Text → Text → Progress → Progress
  unfolding edit_control count
  try_anchor before c src head body p =
      if count c.anchor body == 1
      then edit_control before c src head body p
      else add_verdict c.cid (anchor_count (count c.anchor body)) p

  -- The file split at its scope marker, if the control has one.
  unfoldable pub scoped_parts : Option Text → Text → Option (Text × Text)
  unfolding split_at
  scoped_parts none src = some ([], src)
  scoped_parts (some []) src = some ([], src)
  scoped_parts (some (c ∷ marker)) src = split_at (c ∷ marker) src

  abbrev pub marker_of : Option Text → Text
  marker_of none = []
  marker_of (some marker) = marker

  unfoldable pub try_parts : Hashes → Control → Text → Option (Text × Text) → Progress → Progress
  unfolding try_anchor
  try_parts before c src none p = add_verdict c.cid (scope_not_found (marker_of c.scope)) p
  try_parts before c src (some (head, body)) p = try_anchor before c src head body p

  unfoldable pub try_control : Hashes → Control → Option Text → Progress → Progress
  unfolding try_parts scoped_parts
  try_control before c none p = record p { raised = true }
  try_control before c (some src) p = try_parts before c src (scoped_parts c.scope src) p

  -- The loop over the controls. An exception ends it.
  unfoldable pub run_controls : Hashes → List Control → Progress → Progress
  unfolding try_control
  run_controls before [] p = p
  run_controls before (c ∷ cs) p =
      if p.raised then p else run_controls before cs (try_control before c (p.disk c.path) p)

  unfoldable pub summary : Progress → Outcome
  unfolding is_bad
  summary p = record {
    status = if p.raised then none else some (if any (λ v. is_bad v.1) p.verdicts then 1 else 0);
    verdicts = p.verdicts;
    disk = p.disk;
  }

  -- What follows the baseline run.
  unfoldable pub from_baseline : Hashes → List Control → Passed → Disk → Outcome
  unfolding run_controls summary
  from_baseline before cs crashed d = record { status = none; verdicts = []; disk = d }
  from_baseline before cs unscored d = record { status = some 2; verdicts = []; disk = d }
  from_baseline before cs failed d = record { status = some 2; verdicts = []; disk = d }
  from_baseline before cs passed d =
      summary (run_controls before cs (record { raised = false; verdicts = []; disk = d }))

  unfoldable pub from_hashes : Option Hashes → String → List Control → Disk → Outcome
  unfolding from_baseline run run_disk
  from_hashes none imp cs d = record { status = none; verdicts = []; disk = d }
  from_hashes (some before) imp cs d =
      from_baseline before cs (run env [] imp d) (run_disk env [] imp d)

  -- `not os.environ.get("TRACK_TEST_DATABASE_URL")`
  abbrev pub is_unset : Option String → Bool
  is_unset none = true
  is_unset (some url) = str_eq url ""

  unfoldable pub main_with : String → List Control → Disk → Outcome
  unfolding from_hashes hash_all
  main_with imp cs d =
      if is_unset env.database_url
      then record { status = some 3; verdicts = []; disk = d }
      else from_hashes (hash_all d (sorted (map (λ (c : Control). c.path) cs))) imp cs d
