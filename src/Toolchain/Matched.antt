-- ===== src/Toolchain/Matched.antt =====
-- A match of the pin's expression: what the text was, and that the same text with any other version in
-- the quotes matches too.
use talyvor_track.Prelude.{
  ℕ, ◌≡◌, refl, sym, ap, ◌∙◌, true, false, not, ◌&&◌, Option, none, some, [], ◌∷◌, ◌++◌, arith, inl,
  inr, Text, is_prefix, is_space, is_empty, drop, length, Bool-cases, ◌==◌, ==_iff,
}
use mathlib.Core.Path.{subst}
use mathlib.Core.List.{append_assoc}
use mathlib.Core.Option.{some-injective}
use talyvor_track.Prelude.Replace.{prefix_split}
use talyvor_track.Toolchain.Pins.{
  spaces, past_spaces, past, add_char, to_quote, at_line_end, Pin, go_version, pin_of, quoted,
  after_name, match_pin,
}
use talyvor_track.Toolchain.Pinned.{quote, lacks, opened, to_quote-opened}

spaces-past : (s : Text) → s ≡ spaces s ++ past_spaces s
unfolding spaces past_spaces
spaces-past [] = refl
spaces-past (c ∷ s) = elim (Bool-cases (is_space c)) [
  | inl e ↦ rw e (ap (λ (x : Text). c ∷ x) (spaces-past s))
  | inr e ↦ rw e refl
]

spaces-again :
    (s : Text) (c : ℕ) (t : Text) → is_space c ≡ false → spaces (spaces s ++ c ∷ t) ≡ spaces s
unfolding spaces
spaces-again [] c t h = rw h refl
spaces-again (d ∷ s) c t h = elim (Bool-cases (is_space d)) [
  | inl e ↦ rw (e, e) (ap (λ (x : Text). d ∷ x) (spaces-again s c t h))
  | inr e ↦ rw (e, h) refl
]

past_spaces-again :
    (s : Text) (c : ℕ) (t : Text) → is_space c ≡ false → past_spaces (spaces s ++ c ∷ t) ≡ c ∷ t
unfolding spaces past_spaces
past_spaces-again [] c t h = rw h refl
past_spaces-again (d ∷ s) c t h = elim (Bool-cases (is_space d)) [
  | inl e ↦ rw (e, e) (past_spaces-again s c t h)
  | inr e ↦ rw (e, h) refl
]

past-split : (t s r : Text) → past t s ≡ some r → s ≡ t ++ r
past-split t s r h = elim (Bool-cases (is_prefix t s)) [
  | inl e ↦
      prefix_split t s e
      ∙ ap (λ (x : Text). t ++ x) (some-injective (drop (length t) s) r (rw e at h))
  | inr e ↦ absurd (cc (e, h))
]

abbrev Splits : Text → Option (Text × Text) → Type 0
Splits s none = Unit
Splits s (some (v, r)) = (s ≡ v ++ quote ∷ r) × (lacks quote v ≡ true)

add_char-Splits :
    (c : ℕ) (s : Text) (o : Option (Text × Text))
    → (c == quote) ≡ false
    → Splits s o
    → Splits (c ∷ s) (add_char c o)
unfolding add_char
add_char-Splits c s none e h = tt
add_char-Splits c s (some (v, r)) e (h, l) = (ap (λ (x : Text). c ∷ x) h, rw e l)

to_quote-Splits : (s : Text) → Splits s (to_quote s)
unfolding to_quote
to_quote-Splits [] = tt
to_quote-Splits (c ∷ s) = elim (Bool-cases (c == quote)) [
  | inl e ↦ rw e (ap (λ (x : ℕ). x ∷ s) ((==_iff c quote).0 e), refl)
  | inr e ↦ rw e (add_char-Splits c s (to_quote s) e (to_quote-Splits s))
]

-- The text that a match was found in.
abbrev Holds : Text → Pin → Type 0
Holds s m =
    (s ≡ opened m.version m.after)
    × (is_empty m.version ≡ false)
    × (lacks quote m.version ≡ true)
    × (at_line_end m.after ≡ true)

pin_of-Holds :
    (g s : Text) (o : Option (Text × Text)) (m : Pin)
    → Splits s o
    → pin_of g o ≡ some m
    → (m.group ≡ g) × Holds (quote ∷ s) m
unfolding pin_of
pin_of-Holds g s none m h e = absurd (cc)
pin_of-Holds g s (some (v, r)) m (h, l) e = elim (Bool-cases (not (is_empty v) && at_line_end r)) [
  | inl b ↦
      let q = some-injective _ m (rw b at e) in
      subst (λ (x : Pin). (x.group ≡ g) × Holds (quote ∷ s) x) q
        (refl, (ap (λ (x : Text). quote ∷ x) h, ground arith, l, ground arith))
  | inr b ↦ absurd (cc (e, b))
]

quoted-Holds : (g s : Text) (m : Pin) → quoted g s ≡ some m → (m.group ≡ g) × Holds s m
unfolding quoted
quoted-Holds g [] m h = absurd (cc)
quoted-Holds g (c ∷ s) m h = elim (Bool-cases (c == quote)) [
  | inl e ↦
      let (same, holds) = pin_of-Holds g s (to_quote s) m (to_quote-Splits s) (rw e at h) in
      (same, subst (λ (x : ℕ). Holds (x ∷ s) m) (sym ((==_iff c quote).0 e)) holds)
  | inr e ↦ absurd (cc (h, e))
]

quoted-opened :
    (g w z : Text)
    → is_empty w ≡ false
    → lacks quote w ≡ true
    → at_line_end z ≡ true
    → quoted g (opened w z) ≡ some (record { group = g; version = w; after = z })
unfolding quoted
quoted-opened g w z full bare ends =
    subst
      (λ (o : Option (Text × Text)).
        pin_of g o ≡ some (record { group = g; version = w; after = z }))
      (sym (to_quote-opened w z bare)) (unfold pin_of in rw (full, ends) refl)

pub is_prefix-append : (t r : Text) → is_prefix t (t ++ r) ≡ true
is_prefix-append [] r = refl
is_prefix-append (c ∷ t) r = ground (arith, is_prefix-append t r)

pub drop-append : (t r : Text) → drop (length t) (t ++ r) ≡ r
drop-append [] r = refl
drop-append (c ∷ t) r = drop-append t r

past-append : (t r : Text) → past t (t ++ r) ≡ some r
past-append t r = rw (is_prefix-append t r) (ap some (drop-append t r))

regroup : (a b c r : Text) → ((a ++ (b ++ c)) ++ r) ≡ a ++ (b ++ (c ++ r))
regroup a b c r = append_assoc a (b ++ c) r ∙ ap (λ (x : Text). a ++ x) (append_assoc b c r)

-- A text that matches, with spaces before the name and after it.
again :
    (s u w z : Text)
    → is_empty w ≡ false
    → lacks quote w ≡ true
    → at_line_end z ≡ true
    → match_pin ((spaces s ++ (go_version ++ spaces u)) ++ opened w z)
      ≡ some (record { group = spaces s ++ (go_version ++ spaces u); version = w; after = z })
unfolding match_pin after_name
again s u w z full bare ends =
    let g : Text = spaces s ++ (go_version ++ spaces u) in
    let y : Text = spaces u ++ opened w z in
    let x : Text = spaces s ++ (go_version ++ y) in
    let m : Option Pin = some (record { group = g; version = w; after = z }) in
    subst (λ (t : Text). match_pin t ≡ m)
      (sym (regroup (spaces s) go_version (spaces u) (opened w z)))
      (ap (λ (a : Text). after_name a (past go_version (past_spaces x)))
          (spaces-again s b'g' _ refl)
        ∙ (ap (λ (a : Text). after_name (spaces s) (past go_version a))
              (past_spaces-again s b'g' _ refl)
            ∙ (ap (λ (o : Option Text). after_name (spaces s) o) (past-append go_version y)
                ∙ (ap (λ (a : Text). quoted (spaces s ++ (go_version ++ a)) (past_spaces y))
                      (spaces-again u quote _ refl)
                    ∙ (ap (λ (a : Text). quoted g a) (past_spaces-again u quote _ refl)
                        ∙ quoted-opened g w z full bare ends)))))

-- The text of a match, and the same text with any other version.
pub record IsPinned (s : Text) (m : Pin) : Type 0 where
  pub shape : s ≡ m.group ++ opened m.version m.after
  pub full : is_empty m.version ≡ false
  pub bare : lacks quote m.version ≡ true
  pub other :
      (w : Text)
      → is_empty w ≡ false
      → lacks quote w ≡ true
      → match_pin (m.group ++ opened w m.after)
        ≡ some (record { group = m.group; version = w; after = m.after })

after_name-IsPinned :
    (s : Text) (o : Option Text) (m : Pin)
    → past go_version (past_spaces s) ≡ o
    → after_name (spaces s) o ≡ some m
    → IsPinned s m
unfolding after_name
after_name-IsPinned s none m e h = absurd (cc)
after_name-IsPinned s (some u) m e h =
    let (same, (shape, full, bare, ends)) =
      quoted-Holds (spaces s ++ (go_version ++ spaces u)) (past_spaces u) m h in
    let split : s ≡ spaces s ++ (go_version ++ (spaces u ++ past_spaces u)) =
      spaces-past s
      ∙ ap (λ (x : Text). spaces s ++ x)
          (past-split go_version (past_spaces s) u e
            ∙ ap (λ (x : Text). go_version ++ x) (spaces-past u)) in
    record {
      shape =
          split
          ∙ (ap (λ (x : Text). spaces s ++ (go_version ++ (spaces u ++ x))) shape
              ∙ (sym (regroup (spaces s) go_version (spaces u) (opened m.version m.after))
                  ∙ ap (λ (g : Text). g ++ opened m.version m.after) (sym same)));
      full = full;
      bare = bare;
      other = λ w f b.
          subst
            (λ (g : Text).
              match_pin (g ++ opened w m.after)
              ≡ some (record { group = g; version = w; after = m.after }))
            (sym same) (again s u w m.after f b ends);
    }

pub match_pin-IsPinned : (s : Text) (m : Pin) → match_pin s ≡ some m → IsPinned s m
unfolding match_pin
match_pin-IsPinned s m h = after_name-IsPinned s (past go_version (past_spaces s)) m refl h
