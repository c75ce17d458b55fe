-- ===== src/Prelude/Texts.antt =====
-- Texts walked character by character: `in`, `startswith`, `endswith`, `count`, `replace`, `find`.
use Prim.Native.Nat.{ℕ, zero, suc, ◌-◌}
use Prim.Native.Char.{code}
use Prim.Native.String.append
use Prim.Native.String.{String, ◌++◌ as ◌<>◌}
use mathlib.Core.Path.{◌≡◌, ap, ◌∙◌}
use mathlib.Core.Bool.{Bool, true, false, ◌&&◌, ◌||◌}
use mathlib.Core.Option.{Option, none, some}
use mathlib.Core.List.{List, [], ◌∷◌, ◌++◌, reverse}
use talyvor_track.Prelude.Tests.{◌==◌, leb, if◌then◌else◌}
use talyvor_track.Prelude.Lists.{length}

-- The characters of a text, as code points.
abbrev pub Text : Type 0
Text = List ℕ

abbrev pub codes : String → Text
codes String.[] = []
codes (String.◌∷◌ c s) = code c ∷ codes s

pub codes-append : (s t : String) → codes (s <> t) ≡ codes s ++ codes t
codes-append String.[] t = ap codes (append.nil t)
codes-append (String.◌∷◌ c s) t =
    ap codes (append.cons c s t) ∙ ap (λ (x : Text). code c ∷ x) (codes-append s t)

-- `s.startswith(t)`, with the test's text first.
abbrev pub is_prefix : Text → Text → Bool
is_prefix [] s = true
is_prefix (c ∷ t) [] = false
is_prefix (c ∷ t) (d ∷ s) = c == d && is_prefix t s

-- `s.endswith(t)`
abbrev pub is_suffix : Text → Text → Bool
is_suffix t s = is_prefix (reverse t) (reverse s)

-- `t in s`
abbrev pub occurs : Text → Text → Bool
occurs t [] = is_prefix t []
occurs t (c ∷ s) = is_prefix t (c ∷ s) || occurs t s

-- The scan behind `s.count(t)`: after a hit it skips the rest of the hit, so hits never overlap.
unfoldable pub count_from : Text → ℕ → Text → ℕ
count_from t skip [] = 0
count_from t (suc k) (c ∷ s) = count_from t k s
count_from t zero (c ∷ s) = elim (is_prefix t (c ∷ s)) [
  | true ↦ suc (count_from t (length t - 1) s)
  | false ↦ count_from t zero s
]

-- `s.count(t)`: the empty text occurs once between any two characters, and at both ends.
unfoldable pub count : Text → Text → ℕ
count [] s = suc (length s)
count (c ∷ t) s = count_from (c ∷ t) 0 s

-- The scan behind `s.replace(t, new)` for a text that is not empty.
unfoldable pub replace_from : Text → Text → ℕ → Text → Text
replace_from t new skip [] = []
replace_from t new (suc k) (c ∷ s) = replace_from t new k s
replace_from t new zero (c ∷ s) = elim (is_prefix t (c ∷ s)) [
  | true ↦ new ++ replace_from t new (length t - 1) s
  | false ↦ c ∷ replace_from t new zero s
]

interleave : Text → Text → Text
interleave new [] = new
interleave new (c ∷ s) = new ++ (c ∷ interleave new s)

-- `s.replace(t, new)`
unfoldable pub replace : Text → Text → Text → Text
unfolding interleave
replace [] new s = interleave new s
replace (c ∷ t) new s = replace_from (c ∷ t) new 0 s

-- `s[s.find(t):]`, or nothing where `s.find(t)` is -1.
unfoldable pub from_find : Text → Text → Option Text
from_find t [] = if is_prefix t [] then some [] else none
from_find t (c ∷ s) = let rest = from_find t s in if is_prefix t (c ∷ s) then some (c ∷ s) else rest

-- The code points for which Python's `isspace` holds, which `strip` removes.
abbrev pub is_space : ℕ → Bool
is_space c =
    (leb 9 c && leb c 13)
    || (leb 28 c && leb c 32)
    || c == 133
    || c == 160
    || c == 5760
    || (leb 8192 c && leb c 8202)
    || c == 8232
    || c == 8233
    || c == 8239
    || c == 8287
    || c == 12288

-- `s[n:]`
abbrev pub drop : ℕ → Text → Text
drop zero s = s
drop (suc n) [] = []
drop (suc n) (c ∷ s) = drop n s

-- `s.replace(t, new, 1)` from the first place where `t` stands; an empty `t` stands at the start.
unfoldable pub replace_first : Text → Text → Text → Text
replace_first t new [] = if is_prefix t [] then new else []
replace_first t new (c ∷ s) =
    let rest = replace_first t new s in
    if is_prefix t (c ∷ s) then new ++ drop (length t) (c ∷ s) else c ∷ rest
