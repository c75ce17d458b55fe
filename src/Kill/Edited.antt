-- ===== src/Kill/Edited.antt =====
-- The edit of a script: one call of `restore_on_signal`, which begins a line, is commented out.
use talyvor_track.Prelude.{
  ℕ, ◌≡◌, refl, sym, ap, ◌∙◌, true, false, Option, none, some, List, [], ◌∷◌, ◌++◌, arith, inl, inr,
  Text, is_prefix, is_space, occurs, replace_first, drop, length, Bool-cases, Bool, ◌&&◌, In,
}
use mathlib.Core.Option.{some-injective}
use talyvor_track.Prelude.Replace.{prefix_split}
use talyvor_track.Harness.Guard.{add_front}
use talyvor_track.Kill.Lines.{
  is_line_end, split_lines, join_lines, strip_left, call, no_call, is_call, keep_line,
  disable_lines, joined, disabled,
}

join_lines-add_front : (c : ℕ) (ls : List Text) → join_lines (add_front c ls) ≡ c ∷ join_lines ls
unfolding join_lines
join_lines-add_front c [] = refl
join_lines-add_front c (l ∷ ls) = refl

pub join_lines-split_lines : (s : Text) → join_lines (split_lines s) ≡ s
unfolding split_lines join_lines
join_lines-split_lines [] = refl
join_lines-split_lines (c ∷ s) = elim (Bool-cases (is_line_end c s)) [
  | inl e ↦ rw e (ap (λ (x : Text). c ∷ x) (join_lines-split_lines s))
  | inr e ↦
      rw e (
        join_lines-add_front c (split_lines s)
        ∙ ap (λ (x : Text). c ∷ x) (join_lines-split_lines s))
]

-- White space only.
abbrev pub is_white : Text → Bool
is_white [] = true
is_white (c ∷ s) = is_space c && is_white s

-- A line that begins with the call, up to white space.
pub record IsCallLine (l : Text) : Type 0 where
  pub space : Text
  pub rest : Text
  pub blank : is_white space ≡ true
  pub line : l ≡ space ++ (call ++ rest)

and_both : (a b : Bool) → (a && b) ≡ true → (a ≡ true) × (b ≡ true)
and_both true b h = (refl, h)
and_both false b h = absurd (cc)

stripped : (l : Text) → (space : Text) × (is_white space ≡ true) × (l ≡ space ++ strip_left l)
unfolding strip_left
stripped [] = ([], refl, refl)
stripped (c ∷ s) = elim (Bool-cases (is_space c)) [
  | inl e ↦
      let (space, blank, split) = stripped s in
      (c ∷ space, ground (arith, e, blank), rw e (ap (λ (x : Text). c ∷ x) split))
  | inr e ↦ ([], refl, rw e refl)
]

IsCallLine-of_is_call : (l : Text) → is_call l ≡ true → IsCallLine l
IsCallLine-of_is_call l h =
    let (space, blank, split) = stripped l in
    record {
      space = space;
      rest = drop (length call) (strip_left l);
      blank = blank;
      line = split ∙ ap (λ (x : Text). space ++ x) (prefix_split call (strip_left l) h);
    }

strip_left-blank : (space s : Text) → is_white space ≡ true → strip_left (space ++ s) ≡ strip_left s
unfolding strip_left
strip_left-blank [] s h = refl
strip_left-blank (c ∷ space) s h =
    let (e, w) = and_both (is_space c) (is_white space) h in rw e (strip_left-blank space s w)

strip_left-call : (rest : Text) → is_prefix call (strip_left (call ++ rest)) ≡ true
unfolding strip_left
strip_left-call rest = refl

is_call-of_IsCallLine : (l : Text) → IsCallLine l → is_call l ≡ true
is_call-of_IsCallLine l c =
    ap is_call c.line
    ∙ (ap (is_prefix call) (strip_left-blank c.space (call ++ c.rest) c.blank)
        ∙ strip_left-call c.rest)

no_prefix : (c : ℕ) (s : Text) → is_space c ≡ true → is_prefix call (c ∷ s) ≡ false
no_prefix c s h = ground arith

-- The first place of the call in such a line is behind the white space.
replace_first-line :
    (space rest : Text)
    → is_white space ≡ true
    → replace_first call no_call (space ++ (call ++ rest)) ≡ space ++ (no_call ++ rest)
unfolding replace_first
replace_first-line [] rest h = refl
replace_first-line (c ∷ space) rest h =
    let (e, w) = and_both (is_space c) (is_white space) h in
    rw (no_prefix c (space ++ (call ++ rest)) e)
      (ap (λ (x : Text). c ∷ x) (replace_first-line space rest w))

-- The first line that begins with the call has the comment in its place; the other lines are as they were.
pub record IsFirstCall (ls ks : List Text) : Type 0 where
  pub head : List Text
  pub tail : List Text
  pub space : Text
  pub rest : Text
  pub blank : is_white space ≡ true
  pub was : ls ≡ head ++ ((space ++ (call ++ rest)) ∷ tail)
  pub is : ks ≡ head ++ ((space ++ (no_call ++ rest)) ∷ tail)
  pub first : (l : Text) → In l head → IsCallLine l → ⊥

abbrev AreEdited : List Text → Option (List Text) → Type 0
AreEdited ls none = Unit
AreEdited ls (some ks) = IsFirstCall ls ks

keep_line-AreEdited :
    (l : Text) (ls : List Text) (o : Option (List Text))
    → is_call l ≡ false
    → AreEdited ls o
    → AreEdited (l ∷ ls) (keep_line l o)
unfolding keep_line
keep_line-AreEdited l ls none e h = tt
keep_line-AreEdited l ls (some ks) e h = record {
  head = l ∷ h.head;
  tail = h.tail;
  space = h.space;
  rest = h.rest;
  blank = h.blank;
  was = ap (λ (x : List Text). l ∷ x) h.was;
  is = ap (λ (x : List Text). l ∷ x) h.is;
  first = λ k q c. elim q [
    | inl same ↦ absurd (cc (ap is_call same, e, is_call-of_IsCallLine k c))
    | inr z ↦ h.first k z c
  ];
}

disable_lines-AreEdited : (ls : List Text) → AreEdited ls (disable_lines ls)
unfolding disable_lines
disable_lines-AreEdited [] = tt
disable_lines-AreEdited (l ∷ ls) = elim (Bool-cases (is_call l)) [
  | inl e ↦
      let c = IsCallLine-of_is_call l e in
      rw e (record {
        head = [];
        tail = ls;
        space = c.space;
        rest = c.rest;
        blank = c.blank;
        was = ap (λ (x : Text). x ∷ ls) c.line;
        is =
            ap (λ (x : Text). x ∷ ls)
              (ap (replace_first call no_call) c.line ∙ replace_first-line c.space c.rest c.blank);
        first = λ k q z. q;
      })
  | inr e ↦ rw e (keep_line-AreEdited l ls (disable_lines ls) e (disable_lines-AreEdited ls))
]

-- The lines of the one text and of the other.
pub record IsDisabled (src src' : Text) : Type 0 where
  pub edited : List Text
  pub first_call : IsFirstCall (split_lines src) edited
  pub was : src ≡ join_lines (split_lines src)
  pub is : src' ≡ join_lines edited

joined-IsDisabled :
    (src src' : Text) (o : Option (List Text))
    → AreEdited (split_lines src) o
    → joined o ≡ some src'
    → IsDisabled src src'
unfolding joined
joined-IsDisabled src src' none h j = absurd (cc)
joined-IsDisabled src src' (some ks) h j = record {
  edited = ks;
  first_call = h;
  was = sym (join_lines-split_lines src);
  is = sym (some-injective (join_lines ks) src' j);
}

-- A script that the harness runs without its handler is the script with one line changed: the first line
-- that begins with a call of `restore_on_signal`, up to white space, has `pass  # ` before the call, and all
-- of that line and of the other lines is as it was.
pub disabled-IsDisabled : (src src' : Text) → disabled src ≡ some src' → IsDisabled src src'
unfolding disabled
disabled-IsDisabled src src' h = elim (Bool-cases (occurs call src)) [
  | inl e ↦
      joined-IsDisabled src src' (disable_lines (split_lines src))
        (disable_lines-AreEdited (split_lines src)) (rw e at h)
  | inr e ↦ absurd (cc (h, e))
]
