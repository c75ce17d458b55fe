-- ===== src/Toolchain/Pinned.antt =====
-- `JobPin.apply` undone: the pin's match, with another version in its quotes.
use talyvor_track.Prelude.{
  ℕ, ◌≡◌, refl, sym, ap, Bool, true, false, not, ◌&&◌, Option, none, some, [], ◌∷◌, ◌++◌, arith,
  inl, inr, Text, is_prefix, is_empty, drop, length, Bool-cases, ◌==◌, is_none,
}
use mathlib.Core.Path.{subst}
use talyvor_track.Toolchain.Pins.{
  spaces, past_spaces, past, add_char, to_quote, at_line_end, go_version, pin_of, quoted,
  after_name, match_pin,
}

abbrev pub quote : ℕ
quote = b'"'

abbrev pub newline : ℕ
newline = b'\n'

-- The character is not in the text.
abbrev pub lacks : ℕ → Text → Bool
lacks q [] = true
lacks q (c ∷ s) = not (c == q) && lacks q s

-- The rest of a text from a version's opening quote on.
abbrev pub opened : Text → Text → Text
opened v z = quote ∷ (v ++ quote ∷ z)

-- A version that can be put into quotes.
abbrev pub IsVersion : Text → Type 0
IsVersion v = (is_empty v ≡ false) × (lacks quote v ≡ true) × (lacks newline v ≡ true)

spaces-quote : (x r : Text) → spaces (x ++ quote ∷ r) ≡ spaces x
unfolding spaces
spaces-quote [] r = refl
spaces-quote (c ∷ x) r = ground (arith, spaces-quote x r)

past_spaces-quote : (x r : Text) → past_spaces (x ++ quote ∷ r) ≡ past_spaces x ++ quote ∷ r
unfolding past_spaces
past_spaces-quote [] r = refl
past_spaces-quote (c ∷ x) r = ground (arith, past_spaces-quote x r)

pub is_prefix-quote :
    (t y r : Text) → lacks quote t ≡ true → is_prefix t (y ++ quote ∷ r) ≡ is_prefix t y
is_prefix-quote [] y r h = refl
is_prefix-quote (c ∷ t) [] r h = ground arith
is_prefix-quote (c ∷ t) (d ∷ y) r h = ground (arith, is_prefix-quote t y r)

drop-prefix :
    (t y r : Text) → is_prefix t y ≡ true → drop (length t) (y ++ r) ≡ drop (length t) y ++ r
drop-prefix [] y r h = refl
drop-prefix (c ∷ t) [] r h = absurd (cc)
drop-prefix (c ∷ t) (d ∷ y) r h = drop-prefix t y r (ground arith)

-- A text with more behind it.
abbrev and_then : Text → Option Text → Option Text
and_then r none = none
and_then r (some y) = some (y ++ r)

past-quote :
    (t y r : Text)
    → lacks quote t ≡ true
    → past t (y ++ quote ∷ r) ≡ and_then (quote ∷ r) (past t y)
past-quote t y r h = elim (Bool-cases (is_prefix t y)) [
  | inl e ↦ rw (is_prefix-quote t y r h, e) (ap some (drop-prefix t y (quote ∷ r) e))
  | inr e ↦ rw (is_prefix-quote t y r h, e) refl
]

pub to_quote-opened : (v z : Text) → lacks quote v ≡ true → to_quote (v ++ quote ∷ z) ≡ some (v, z)
unfolding to_quote
to_quote-opened [] z h = refl
to_quote-opened (c ∷ v) z h = ground (arith, to_quote-opened v z)

-- `to_quote` on a text that a quote follows.
abbrev or_here : Text → Text → Option (Text × Text) → Option (Text × Text)
or_here y r none = some (y, r)
or_here y r (some (a, b)) = some (a, b ++ quote ∷ r)

to_quote-quote : (y r : Text) → to_quote (y ++ quote ∷ r) ≡ or_here y r (to_quote y)
unfolding to_quote
to_quote-quote [] r = refl
to_quote-quote (c ∷ y) r = elim (Bool-cases (c == quote)) [
  | inl e ↦ rw e refl
  | inr e ↦ rw (e, to_quote-quote y r) (add_or_here c y r (to_quote y))
]
  where
    add_or_here :
        (c : ℕ) (y r : Text) (o : Option (Text × Text))
        → add_char c (or_here y r o) ≡ or_here (c ∷ y) r (add_char c o)
    add_or_here c y r none = refl
    add_or_here c y r (some (a, b)) = refl

-- A text that begins with a newline is at the end of a line.
line_end-version : (w r : Text) → IsVersion w → at_line_end (w ++ r) ≡ false
line_end-version [] r (a, b, c) = absurd (cc)
line_end-version (d ∷ w) r (a, b, c) = ground arith

line_end-quote : (b r : Text) → at_line_end (b ++ quote ∷ r) ≡ at_line_end (b ++ quote ∷ [])
line_end-quote [] r = refl
line_end-quote (c ∷ b) r = refl

-- No match with the one version, so none with the other.
module _ (v w z : Text) (old : lacks quote v ≡ true) (full : is_empty v ≡ false)
    (new : IsVersion w) where
  pin_of-none :
      (g y : Text) (o : Option (Text × Text))
      → is_none (pin_of g (or_here y (v ++ quote ∷ z) o)) ≡ true
      → is_none (pin_of g (or_here y (w ++ quote ∷ z) o)) ≡ true
  unfolding pin_of
  pin_of-none g y none h = ground (arith, line_end-version w (quote ∷ z) new)
  pin_of-none g y (some (a, b)) h =
      ground (arith, line_end-quote b (v ++ quote ∷ z), line_end-quote b (w ++ quote ∷ z))

  same_pin :
      (g : Text) → is_none (pin_of g (some (v, z))) ≡ true → is_none (pin_of g (some (w, z))) ≡ true
  unfolding pin_of
  same_pin g h = ground (arith, full, new)

  quoted-none :
      (g y : Text)
      → is_none (quoted g (y ++ opened v z)) ≡ true
      → is_none (quoted g (y ++ opened w z)) ≡ true
  unfolding quoted
  quoted-none g [] h =
      subst (λ (o : Option (Text × Text)). is_none (pin_of g o) ≡ true)
        (sym (to_quote-opened w z new.1))
        (same_pin g (
          subst (λ (o : Option (Text × Text)). is_none (pin_of g o) ≡ true)
            (to_quote-opened v z old) h))
  quoted-none g (c ∷ y) h = elim (Bool-cases (c == quote)) [
    | inl e ↦
        rw (e, to_quote-quote y (w ++ quote ∷ z))
          (pin_of-none g y (to_quote y) (rw (e, to_quote-quote y (v ++ quote ∷ z)) at h))
    | inr e ↦ rw e refl
  ]

  after_name-none :
      (lead : Text) (o : Option Text)
      → is_none (after_name lead (and_then (opened v z) o)) ≡ true
      → is_none (after_name lead (and_then (opened w z) o)) ≡ true
  unfolding after_name
  after_name-none lead none h = refl
  after_name-none lead (some y) h =
      rw (spaces-quote y (w ++ quote ∷ z), past_spaces-quote y (w ++ quote ∷ z))
        (quoted-none (lead ++ (go_version ++ spaces y)) (past_spaces y)
          (rw (spaces-quote y (v ++ quote ∷ z), past_spaces-quote y (v ++ quote ∷ z)) at h))

  pub match_pin-none :
      (y : Text)
      → is_none (match_pin (y ++ opened v z)) ≡ true
      → is_none (match_pin (y ++ opened w z)) ≡ true
  unfolding match_pin
  match_pin-none y h =
      rw
        (
          spaces-quote y (w ++ quote ∷ z),
          past_spaces-quote y (w ++ quote ∷ z),
          past-quote go_version (past_spaces y) (w ++ quote ∷ z) refl,
        )
        (after_name-none (spaces y) (past go_version (past_spaces y)) (
          rw
            (
              spaces-quote y (v ++ quote ∷ z),
              past_spaces-quote y (v ++ quote ∷ z),
              past-quote go_version (past_spaces y) (v ++ quote ∷ z) refl,
            )
            at h))
