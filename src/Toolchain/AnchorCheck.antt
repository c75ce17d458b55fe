-- ===== src/Toolchain/AnchorCheck.antt =====
-- scripts/w365-anchor-check-controls-r7k2.py: controls for `JobPin` and for `--check-anchors`. Its loop over
-- the cases, with its verdicts, is the text of the catcher harness's, and is modelled there.
pub mod Runs
pub mod Scored
pub mod Checked
pub mod Restored
use talyvor_track.Prelude.{
  ℕ, zero, suc, ◌-◌, String, Bool, true, false, not, ◌&&◌, ◌||◌, Option, none, some, List, [], ◌∷◌,
  ◌++◌, any, keep, map, Text, codes, from_find, is_prefix, occurs, is_empty, length, str_eq,
  if◌then◌else◌, ◌==◌,
}
use talyvor_track.Harness.Disk.{Disk, Snapshot, read_all, blob_of}
use talyvor_track.Harness.Process.{Process, proceed, write_all, restore_on_signal, start}
use talyvor_track.Harness.Catcher
use talyvor_track.Kill.Tree.{text_eq}
use talyvor_track.Toolchain.Pins.{Pin, width, pin_here}
use talyvor_track.Toolchain.Table.{ci}

-- The class that the harness loads from the campaign's text: `text[a:b]` of its `_span`, and its `apply`.
pub record JobPin : Type 0 where
  pub block : String → Text → Option Text
  pub apply : String → Text → Text → Option Text

-- What the harness calls: the check and `sha256`, `exec` of the class's text, and the test of B6.
pub record Env : Type 0 where
  pub base : Catcher.Env
  pub exec : Text → Option JobPin
  pub go : Disk → Catcher.Checked

-- `src[start:end]`: from the class on to the function behind it.
unfoldable pub add_code : ℕ → Option Text → Option Text
add_code c none = none
add_code c (some s) = some (c ∷ s)

unfoldable pub up_to : Text → Text → Option Text
unfolding add_code
up_to t [] = none
up_to t (c ∷ s) = let rest = up_to t s in if is_prefix t (c ∷ s) then some [] else add_code c rest

unfoldable pub class_text : Option Text → Option Text
unfolding up_to
class_text none = none
class_text (some s) = up_to (codes "\ndef anchored(") s

unfoldable pub exec_text : Env → Option Text → Option JobPin
exec_text env none = none
exec_text env (some s) = env.exec s

unfoldable pub load_jobpin : Env → Option Text → Option JobPin
unfolding class_text exec_text from_find
load_jobpin env none = none
load_jobpin env (some src) = exec_text env (class_text (from_find (codes "class JobPin:") src))

-- `PIN_RE.findall`: the versions of the pins of a block.
abbrev pub version_of : Option Pin → List Text
version_of none = []
version_of (some m) = m.version ∷ []

unfoldable pub versions_from : ℕ → Bool → Text → List Text
unfolding pin_here
versions_from skip starts [] = []
versions_from (suc k) starts (c ∷ s) = versions_from k (c == b'\n') s
versions_from zero starts (c ∷ s) =
    version_of (pin_here starts (c ∷ s))
    ++ versions_from (width (pin_here starts (c ∷ s)) - 1) (c == b'\n') s

-- A job's version, or how many pins it has where that is not one.
pub data Found : Type 0 where
  one : Text → Found
  other : ℕ → Found

unfoldable pub found : List Text → Found
found [] = other 0
found (v ∷ []) = one v
found (v ∷ (w ∷ vs)) = other (length (v ∷ w ∷ vs))

unfoldable pub add_found :
    String → Option Text → Option (List (String × Found)) → Option (List (String × Found))
unfolding versions_from found
add_found j (some block) (some out) = some ((j, found (versions_from 0 true block)) ∷ out)
add_found j _ _ = none

-- Nothing where a job is not found.
unfoldable pub pins_by_job : JobPin → List String → Text → Option (List (String × Found))
unfolding add_found
pins_by_job jp [] text = some []
pins_by_job jp (j ∷ js) text = add_found j (jp.block j text) (pins_by_job jp js text)

-- A version with a question mark reads like a number of pins.
abbrev pub has_mark : Found → Bool
has_mark (one v) = occurs (codes "?") v
has_mark (other n) = true

abbrev pub same_found : Found → Found → Bool
same_found (one v) (one w) = text_eq v w
same_found (other m) (other n) = m == n
same_found _ _ = false

-- Do the jobs each hold one pin, and all the same?
unfoldable pub is_usable : List (String × Found) → Bool
is_usable [] = false
is_usable ((j, f) ∷ rest) =
    not (any (λ p. not (same_found f p.1)) rest) && not (any (λ p. has_mark p.1) ((j, f) ∷ rest))

-- The jobs whose pin is not what it was.
unfoldable pub moved : List (String × Found) → List (String × Found) → List String
moved ((j, f) ∷ before) ((k, g) ∷ after) =
    let rest = moved before after in if same_found g f then rest else j ∷ rest
moved _ _ = []

-- `moved == [target]`
abbrev pub is_only : String → List String → Bool
is_only target [] = false
is_only target (j ∷ []) = str_eq j target
is_only target (j ∷ (k ∷ js)) = false

abbrev pub jobs : List String
jobs = "lint" ∷ "vuln" ∷ "test" ∷ []
