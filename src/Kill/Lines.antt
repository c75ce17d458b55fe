-- ===== src/Kill/Lines.antt =====
-- What the harness does to a script's text, so that the script does not install its handler.
use talyvor_track.Prelude.{
  ℕ, Bool, not, ◌&&◌, Option, none, some, List, [], ◌∷◌, ◌++◌, Text, codes, is_prefix, is_space,
  occurs, replace_first, if◌then◌else◌, ◌==◌,
}
use talyvor_track.Harness.Guard.{ends_line, add_front}

-- Does a line end here? A "\r\n" ends at its last character.
abbrev pub is_line_end : ℕ → Text → Bool
is_line_end c s = ends_line c && not (c == b'\r' && is_prefix (codes "\n") s)

-- `src.splitlines(keepends=True)`
unfoldable pub split_lines : Text → List Text
split_lines [] = []
split_lines (c ∷ s) =
    let rest = split_lines s in if is_line_end c s then (c ∷ []) ∷ rest else add_front c rest

-- `"".join(lines)`
unfoldable pub join_lines : List Text → Text
join_lines [] = []
join_lines (l ∷ ls) = l ++ join_lines ls

-- `ln.lstrip()`
unfoldable pub strip_left : Text → Text
strip_left [] = []
strip_left (c ∷ s) = let rest = strip_left s in if is_space c then rest else c ∷ s

abbrev pub call : Text
call = codes "restore_on_signal("

abbrev pub no_call : Text
no_call = codes "pass  # restore_on_signal("

abbrev pub is_call : Text → Bool
is_call l = is_prefix call (strip_left l)

unfoldable pub keep_line : Text → Option (List Text) → Option (List Text)
keep_line l none = none
keep_line l (some ls) = some (l ∷ ls)

-- The loop over the lines: the first call is commented out, or there is none.
unfoldable pub disable_lines : List Text → Option (List Text)
unfolding strip_left replace_first keep_line
disable_lines [] = none
disable_lines (l ∷ ls) =
    let rest = disable_lines ls in
    if is_call l then some (replace_first call no_call l ∷ ls) else keep_line l rest

unfoldable pub joined : Option (List Text) → Option Text
unfolding join_lines
joined none = none
joined (some ls) = some (join_lines ls)

-- The script without the installation of its handler, or nothing where it is a `defect`.
unfoldable pub disabled : Text → Option Text
unfolding joined disable_lines split_lines
disabled src = if occurs call src then joined (disable_lines (split_lines src)) else none
