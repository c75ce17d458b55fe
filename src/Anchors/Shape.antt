-- ===== src/Anchors/Shape.antt =====
-- `path_shaped` and `_anchor_shaped`: what a text looks like, whatever the disk holds.
use talyvor_track.Prelude.{
  ℕ, String, Bool, false, not, ◌&&◌, ◌||◌, any, length, ltb, leb, codes, is_suffix, is_space, ◌==◌,
  if◌then◌else◌, str_eq,
}
use talyvor_track.Anchors.Tables.{source_suffixes}

-- Does this text claim to be a source path? Shape only, never existence.
unfoldable pub path_shaped : String → Bool
path_shaped v =
    if not (not (str_eq v "") && not (any (λ c. c == 10) (codes v)) && ltb (length (codes v)) 400)
    then false
    else if not (any (λ suffix. is_suffix (codes suffix) (codes v)) source_suffixes)
    then false
    else any (λ c. c == b'/') (codes v) || not (any is_space (codes v))

-- `(){}=;:`
abbrev pub is_code_mark : ℕ → Bool
is_code_mark c =
    c == b'(' || c == b')' || c == b'{' || c == b'}' || c == b'=' || c == b';' || c == b':'

unfoldable pub anchor_shaped : String → Bool
unfolding path_shaped
anchor_shaped v =
    if path_shaped v || not (leb 12 (length (codes v)) && leb (length (codes v)) 4000)
    then false
    else any is_code_mark (codes v) || any (λ c. c == 10) (codes v)
