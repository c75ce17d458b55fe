-- ===== src/Toolchain/Anchors.antt =====
-- `anchored` and `check_anchors`: can every control of the table still be applied, and do the tests exist
-- that it names?
use talyvor_track.Prelude.{
  ℕ, String, Bool, false, Option, none, some, List, [], ◌∷◌, ◌++◌, ◌<>◌, Text, codes, count, occurs,
  replace_first, length, ltb, str_eq, if◌then◌else◌, ◌==◌,
}
use talyvor_track.Harness.Disk.{Disk}
use talyvor_track.Toolchain.Pins.{count_in, apply_pin}

-- What a control changes: a literal and its replacement, or the pin of a job.
pub data Anchor : Type 0 where
  literal : String → String → Anchor
  job_pin : String → String → Anchor

-- A row of the table. `red` and `green` are nothing where the row says `None`.
pub record Control : Type 0 where
  pub name : String
  pub path : String
  pub anchor : Anchor
  pub red : Option String
  pub green : Option String
  pub proves : String
  pub expect : ℕ

-- How often the anchor stands in the text, or nothing where that raises.
unfoldable pub occurrences : Anchor → Text → Option ℕ
unfolding count count_in
occurrences (literal old new) text = some (count (codes old) text)
occurrences (job_pin job version) text = count_in job text

-- The mutated text, or nothing where it raises.
unfoldable pub mutated : Anchor → Text → Option Text
unfolding replace_first apply_pin
mutated (literal old new) text = some (replace_first (codes old) (codes new) text)
mutated (job_pin job version) text = apply_pin job (codes version) text

unfoldable pub is_count : ℕ → Option ℕ → Bool
is_count want none = false
is_count want (some n) = n == want

-- What `anchored` writes, or nothing where it raises an AssertionError.
unfoldable pub anchored : Anchor → ℕ → Text → Option Text
unfolding occurrences mutated is_count
anchored a want text = if is_count want (occurrences a text) then mutated a text else none

-- The lines of `bad`.
pub data Complaint : Type 0 where
  no_test_sources : Complaint
  few_controls : ℕ → Complaint
  stale : String → Option ℕ → Complaint
  no_such_test : String → String → Complaint

abbrev pub anchor_floor : ℕ
anchor_floor = 10

-- `[x for x in (ctl[4], ctl[5]) if x]`
unfoldable pub named : Option String → List String
named none = []
named (some t) = if str_eq t "" then [] else t ∷ []

-- `("func " + t + "(") in sources`
abbrev pub exists_in : Text → String → Bool
exists_in sources t = occurs (codes ("func " <> t <> "(")) sources

unfoldable pub missing_tests : String → Text → List String → List Complaint
missing_tests name sources [] = []
missing_tests name sources (t ∷ ts) =
    let rest = missing_tests name sources ts in
    if exists_in sources t then rest else no_such_test name t ∷ rest

unfoldable pub check_control : Text → Control → Text → List Complaint
unfolding occurrences is_count missing_tests named
check_control sources c text =
    (if is_count c.expect (occurrences c.anchor text)
      then []
      else stale c.name (occurrences c.anchor text) ∷ [])
    ++ missing_tests c.name sources (named c.red ++ named c.green)

unfoldable pub with_rest : List Complaint → Option (List Complaint) → Option (List Complaint)
with_rest cs none = none
with_rest cs (some rest) = some (cs ++ rest)

unfoldable pub check_file :
    Text → Control → Option Text → Option (List Complaint) → Option (List Complaint)
unfolding check_control with_rest
check_file sources c none rest = none
check_file sources c (some text) rest = with_rest (check_control sources c text) rest

-- The loop over the controls, or nothing where a file cannot be read.
unfoldable pub check_controls : Text → Disk → List Control → Option (List Complaint)
unfolding check_file
check_controls sources d [] = some []
check_controls sources d (c ∷ cs) = check_file sources c (d c.path) (check_controls sources d cs)

-- `"\n".join(out)`
unfoldable pub joined_lines : List Text → Text
joined_lines [] = []
joined_lines (t ∷ []) = t
joined_lines (t ∷ (u ∷ ts)) = t ++ b'\n' ∷ joined_lines (u ∷ ts)

-- The files that can be read.
unfoldable pub add_file : Option Text → List Text → List Text
add_file none out = out
add_file (some text) out = text ∷ out

unfoldable pub read_files : Disk → List String → List Text
unfolding add_file
read_files d [] = []
read_files d (p ∷ ps) = add_file (d p) (read_files d ps)

-- `check_anchors`, where `walk` lists the test files below the root: its exit status, or nothing where
-- an exception ends it.
module _ (walk : Disk → List String) where
  unfoldable pub test_sources : Disk → Text
  unfolding read_files joined_lines
  test_sources d = joined_lines (read_files d (walk d))

  unfoldable pub floors : Text → List Control → List Complaint
  floors sources cs =
      (if occurs (codes "func Test") sources then [] else no_test_sources ∷ [])
      ++ (if ltb (length cs) anchor_floor then few_controls (length cs) ∷ [] else [])

  unfoldable pub complaints : List Control → Disk → Option (List Complaint)
  unfolding with_rest floors check_controls test_sources
  complaints cs d = with_rest (floors (test_sources d) cs) (check_controls (test_sources d) d cs)

  unfoldable pub status_of : Option (List Complaint) → Option ℕ
  status_of none = none
  status_of (some []) = some 0
  status_of (some (b ∷ bad)) = some 1

  unfoldable pub check_anchors : List Control → Disk → Option ℕ
  unfolding complaints status_of
  check_anchors cs d = status_of (complaints cs d)
