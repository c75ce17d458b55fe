-- ===== src/Kill/Tree.antt =====
-- What `git status` says of the tree, and how the harness puts back what a script has changed.
use talyvor_track.Prelude.{
  Bool, true, false, not, ◌&&◌, ◌||◌, List, [], ◌∷◌, any, keep, map, Text, codes, is_prefix,
  is_empty, drop, ltb, sort_by, if◌then◌else◌, ◌==◌,
}
use talyvor_track.Harness.Disk.{Disk}
use mathlib.Core.List.{reverse}
use talyvor_track.Harness.Guard.{ends_line}
use talyvor_track.Kill.Lines.{strip_left, split_lines}

abbrev pub text_eq : Text → Text → Bool
text_eq [] [] = true
text_eq (c ∷ s) (d ∷ t) = c == d && text_eq s t
text_eq _ _ = false

-- Python's order on `str`.
abbrev pub text_lt : Text → Text → Bool
text_lt [] [] = false
text_lt [] (d ∷ t) = true
text_lt (c ∷ s) [] = false
text_lt (c ∷ s) (d ∷ t) = ltb c d || (c == d && text_lt s t)

abbrev pub is_member : Text → List Text → Bool
is_member x names = any (λ y. text_eq x y) names

-- `out.splitlines()`
unfoldable pub status_lines : Text → List Text
unfolding split_lines
status_lines out = map (λ l. keep (λ c. not (ends_line c)) l) (split_lines out)

-- `line[3:].strip()`
unfoldable pub name_of_line : Text → Text
unfolding strip_left
name_of_line line = reverse (strip_left (reverse (strip_left (drop 3 line))))

abbrev pub is_skipped : Text → Bool
is_skipped line = is_empty line || is_prefix (codes "??") line

abbrev pub in_scripts : Text → Bool
in_scripts name = is_prefix (codes "scripts/") name

-- `names.add(name)`
abbrev pub add_name : Text → List Text → List Text
add_name name names = if is_member name names then names else name ∷ names

-- The set that the loop over the lines builds, as a list.
unfoldable pub dirty_names : List Text → List Text
unfolding name_of_line
dirty_names [] = []
dirty_names (l ∷ ls) =
    let rest = dirty_names ls in
    if is_skipped l || in_scripts (name_of_line l) then rest else add_name (name_of_line l) rest

-- `git`: what `status --porcelain` prints on a disk, and what `checkout --` of some paths leaves.
pub record Git : Type 0 where
  pub porcelain : Disk → Text
  pub checkout : List Text → Disk → Disk

module _ (git : Git) where
  unfoldable pub dirty_outside_scripts : Disk → List Text
  unfolding dirty_names status_lines
  dirty_outside_scripts d = dirty_names (status_lines (git.porcelain d))

  -- `dirty_outside_scripts() - baseline`
  unfoldable pub newly_dirty : List Text → Disk → List Text
  unfolding dirty_outside_scripts
  newly_dirty baseline d = keep (λ x. not (is_member x baseline)) (dirty_outside_scripts d)

  unfoldable pub checkout_some : List Text → Disk → Disk
  checkout_some [] d = d
  checkout_some (x ∷ xs) d = git.checkout (x ∷ xs) d

  unfoldable pub revert_tree : List Text → Disk → Disk
  unfolding newly_dirty checkout_some
  revert_tree baseline d = checkout_some (sort_by text_lt (newly_dirty baseline d)) d
