-- ===== src/Toolchain/Pins.antt =====
-- `JobPin`: the `go-version` pin of one job of ci.yaml. Its regular expressions are matched by hand: in
-- each of them the next character decides, so nothing is ever tried twice.
use talyvor_track.Prelude.{
  ℕ, zero, suc, ◌+◌, ◌-◌, String, Bool, true, false, not, ◌&&◌, ◌||◌, Option, none, some, [], ◌∷◌,
  ◌++◌, Text, codes, is_prefix, is_space, is_empty, drop, length, leb, if◌then◌else◌, ◌==◌,
}

-- `\s*`: the spaces, and what follows them.
unfoldable pub spaces : Text → Text
spaces [] = []
spaces (c ∷ s) = let rest = spaces s in if is_space c then c ∷ rest else []

unfoldable pub past_spaces : Text → Text
past_spaces [] = []
past_spaces (c ∷ s) = let rest = past_spaces s in if is_space c then rest else c ∷ s

-- What follows a literal, where it stands.
abbrev pub past : Text → Text → Option Text
past t s = if is_prefix t s then some (drop (length t) s) else none

-- `[^"]*"`: what stands before the next quote, and what follows it.
unfoldable pub add_char : ℕ → Option (Text × Text) → Option (Text × Text)
add_char c none = none
add_char c (some (v, rest)) = some (c ∷ v, rest)

unfoldable pub to_quote : Text → Option (Text × Text)
unfolding add_char
to_quote [] = none
to_quote (c ∷ s) = let rest = to_quote s in if c == b'"' then some ([], s) else add_char c rest

-- `$` under `(?m)`
abbrev pub at_line_end : Text → Bool
at_line_end [] = true
at_line_end (c ∷ s) = c == b'\n'

-- A match of `^(\s*go-version:\s*)"[^"]+"$`: its group, the version, and the text after the match.
pub record Pin : Type 0 where
  pub group : Text
  pub version : Text
  pub after : Text

abbrev pub go_version : Text
go_version = codes "go-version:"

unfoldable pub pin_of : Text → Option (Text × Text) → Option Pin
pin_of group none = none
pin_of group (some (v, rest)) =
    if not (is_empty v) && at_line_end rest
    then some (record { group = group; version = v; after = rest })
    else none

unfoldable pub quoted : Text → Text → Option Pin
unfolding pin_of to_quote
quoted group [] = none
quoted group (c ∷ s) = if c == b'"' then pin_of group (to_quote s) else none

unfoldable pub after_name : Text → Option Text → Option Pin
unfolding quoted spaces past_spaces
after_name lead none = none
after_name lead (some s) = quoted (lead ++ (go_version ++ spaces s)) (past_spaces s)

-- The match that starts here, if there is one. Here is the start of a line.
unfoldable pub match_pin : Text → Option Pin
unfolding after_name spaces past_spaces
match_pin s = after_name (spaces s) (past go_version (past_spaces s))

abbrev pub width : Option Pin → ℕ
width none = 0
width (some m) = length m.group + length m.version + 2

-- A match needs the start of a line.
unfoldable pub pin_here : Bool → Text → Option Pin
unfolding match_pin
pin_here starts s = if starts then match_pin s else none

-- `len(_PIN.findall(block))`. The first argument is what is left of the last match, and the second says
-- whether a line starts here.
unfoldable pub count_from_pin : ℕ → Bool → Text → ℕ
unfolding pin_here
count_from_pin skip starts [] = 0
count_from_pin (suc k) starts (c ∷ s) = count_from_pin k (c == b'\n') s
count_from_pin zero starts (c ∷ s) =
    (if width (pin_here starts (c ∷ s)) == 0 then 0 else 1)
    + count_from_pin (width (pin_here starts (c ∷ s)) - 1) (c == b'\n') s

unfoldable pub count_pins : Text → ℕ
unfolding count_from_pin
count_pins block = count_from_pin 0 true block

-- The block with the version of its first match replaced.
unfoldable pub put_version : Text → Option Pin → Text → Text
put_version new none kept = kept
put_version new (some m) kept = m.group ++ b'"' ∷ (new ++ b'"' ∷ m.after)

unfoldable pub replace_pin : Text → Bool → Text → Text
unfolding pin_here put_version
replace_pin new starts [] = []
replace_pin new starts (c ∷ s) =
    put_version new (pin_here starts (c ∷ s)) (c ∷ replace_pin new (c == b'\n') s)

-- `[A-Za-z0-9_-]`
abbrev pub is_word : ℕ → Bool
is_word c =
    (leb b'A' c && leb c b'Z')
    || (leb b'a' c && leb c b'z')
    || (leb b'0' c && leb c b'9')
    || c == b'_'
    || c == b'-'

unfoldable pub past_word : Text → Text
past_word [] = []
past_word (c ∷ s) = let rest = past_word s in if is_word c then rest else c ∷ s

abbrev pub starts_word : Text → Bool
starts_word [] = false
starts_word (c ∷ s) = is_word c

-- `  [A-Za-z0-9_-]+:\n`, at the start of a line.
unfoldable pub is_job_header : Text → Bool
unfolding past_word
is_job_header s =
    is_prefix (codes "  ") s
    && starts_word (drop 2 s)
    && is_prefix (codes ":\n") (past_word (drop 2 s))

-- The text before the first header, and the text from it on.
unfoldable pub to_next_job : Bool → Text → Text × Text
unfolding is_job_header
to_next_job starts [] = ([], [])
to_next_job starts (c ∷ s) =
    let rest = to_next_job (c == b'\n') s in
    if starts && is_job_header (c ∷ s) then ([], c ∷ s) else (c ∷ rest.0, rest.1)

-- The line that opens a job.
unfoldable pub header_of : String → Text
header_of job = codes "  " ++ (codes job ++ codes ":\n")

-- The text before the job's header line, and the text after it.
unfoldable pub find_job : Text → Bool → Text → Option (Text × Text)
unfolding add_char
find_job header starts [] = none
find_job header starts (c ∷ s) =
    let rest = find_job header (c == b'\n') s in
    if starts && is_prefix header (c ∷ s)
    then some ([], drop (length header) (c ∷ s))
    else add_char c rest

-- `text[:a]`, `text[a:b]` and `text[b:]` for `a, b = self._span(text)`, or nothing where that raises.
pub record Span : Type 0 where
  pub before : Text
  pub block : Text
  pub after : Text

unfoldable pub span_from : Text → Option (Text × Text) → Option Span
unfolding to_next_job
span_from header none = none
span_from header (some (before, s)) = some (record {
  before = before;
  block = header ++ (to_next_job true s).0;
  after = (to_next_job true s).1;
})

unfoldable pub span : String → Text → Option Span
unfolding span_from find_job header_of
span job text = span_from (header_of job) (find_job (header_of job) true text)

unfoldable pub count_in_span : Option Span → Option ℕ
unfolding count_pins
count_in_span none = none
count_in_span (some p) = some (count_pins p.block)

-- `count_in(text)`, or nothing where it raises.
unfoldable pub count_in : String → Text → Option ℕ
unfolding span count_in_span
count_in job text = count_in_span (span job text)

unfoldable pub apply_in_span : Text → Option Span → Option Text
unfolding count_pins replace_pin
apply_in_span new none = none
apply_in_span new (some p) =
    if count_pins p.block == 1
    then some (p.before ++ (replace_pin new true p.block ++ p.after))
    else none

-- `apply(text)`, or nothing where it raises.
unfoldable pub apply_pin : String → Text → Text → Option Text
unfolding span apply_in_span
apply_pin job new text = apply_in_span new (span job text)
