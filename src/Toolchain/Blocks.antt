-- ===== src/Toolchain/Blocks.antt =====
-- The first pin of a block: its place does not move when the version in it is replaced.
use talyvor_track.Prelude.{
  ℕ, suc, ◌+◌, ◌-◌, ◌≡◌, refl, sym, ap, ◌∙◌, Bool, true, false, Option, none, some, [], ◌∷◌, ◌++◌,
  arith, inl, inr, Text, is_empty, length, Option-cases, if◌then◌else◌, ◌==◌, is_none,
}
use mathlib.Core.Path.{subst}
use mathlib.Core.List.{append_assoc}
use talyvor_track.Toolchain.Pins.{
  Pin, match_pin, pin_here, count_from_pin, put_version, replace_pin,
}
use talyvor_track.Toolchain.Pinned.{quote, newline, lacks, opened, IsVersion, match_pin-none}
use talyvor_track.Toolchain.Matched.{match_pin-IsPinned}

pin_here-some :
    (st : Bool) (s : Text) (m : Pin) → pin_here st s ≡ some m → (st ≡ true) × (match_pin s ≡ some m)
unfolding pin_here
pin_here-some true s m h = (refl, h)
pin_here-some false s m h = absurd (cc)

none_of : (o : Option Pin) → is_none o ≡ true → o ≡ none
none_of none h = refl
none_of (some m) h = absurd (cc)

pin_here-none :
    (st : Bool) (y v w z : Text)
    → is_empty v ≡ false
    → lacks quote v ≡ true
    → IsVersion w
    → pin_here st (y ++ opened v z) ≡ none
    → pin_here st (y ++ opened w z) ≡ none
unfolding pin_here
pin_here-none true y v w z full bare new h =
    none_of (match_pin (y ++ opened w z)) (match_pin-none v w z bare full new y (ap is_none h))
pin_here-none false y v w z full bare new h = refl

replace_pin-match :
    (u : Text) (st : Bool) (s : Text) (m : Pin)
    → pin_here st s ≡ some m
    → replace_pin u st s ≡ m.group ++ opened u m.after
unfolding replace_pin put_version
replace_pin-match u st [] m h = absurd (empty_none (pin_here-some st [] m h).1)
  where
    empty_none : match_pin [] ≡ some m → ⊥
    empty_none h = unfold match_pin in absurd (cc)
replace_pin-match u st (c ∷ s) m h = rw h refl

count_from_pin-skip :
    (st : Bool) (s : Text) (c : ℕ) (t : Text)
    → count_from_pin (suc (length s)) st (s ++ c ∷ t) ≡ count_from_pin 0 (c == newline) t
unfolding count_from_pin
count_from_pin-skip st [] c t = refl
count_from_pin-skip st (d ∷ s) c t = count_from_pin-skip (d == newline) s c t

length-append : (s t : Text) → length (s ++ t) ≡ length s + length t
length-append [] t = omega arith
length-append (c ∷ s) t = ground (arith, length-append s t)

not_nil : (x r : Text) → ◌≡◌ {A = Text} [] (x ++ quote ∷ r) → ⊥
not_nil [] r e = absurd (cc)
not_nil (c ∷ x) r e = absurd (cc)

counts_one : (k : ℕ) → ◌≡◌ {A = ℕ} (if k + 2 == 0 then 0 else 1) 1
counts_one k = ground arith

shifted : (k : ℕ) (f : ℕ → ℕ) → ((if k + 2 == 0 then 0 else 1) + f (k + 2 - 1)) ≡ suc (f (k + 1))
shifted k f =
    let less : k + 2 - 1 ≡ k + 1 = omega arith in
    let one = counts_one k in omega (arith, one, ap f less)

count_from_pin-some :
    (st : Bool) (c : ℕ) (s : Text) (m : Pin)
    → pin_here st (c ∷ s) ≡ some m
    → count_from_pin 0 st (c ∷ s)
      ≡ suc (count_from_pin (length m.group + length m.version + 1) (c == newline) s)
unfolding count_from_pin
count_from_pin-some st c s m h =
    rw h (shifted (length m.group + length m.version) (λ k. count_from_pin k (c == newline) s))

count_from_pin-match :
    (st : Bool) (s : Text) (m : Pin)
    → pin_here st s ≡ some m
    → s ≡ m.group ++ opened m.version m.after
    → count_from_pin 0 st s ≡ suc (count_from_pin 0 false m.after)
unfolding count_from_pin
count_from_pin-match st [] m h e = absurd (not_nil m.group _ e)
count_from_pin-match st (c ∷ s) m h e =
    let front : Text = m.group ++ quote ∷ m.version in
    let skip : ℕ = length m.group + length m.version + 1 in
    let same : suc skip ≡ suc (length front) =
      omega (arith, length-append m.group (quote ∷ m.version)) in
    let whole : ◌≡◌ {A = Text} (c ∷ s) (front ++ quote ∷ m.after) =
      e ∙ sym (append_assoc m.group (quote ∷ m.version) (quote ∷ m.after)) in
    let jump : ◌≡◌ {A = ℕ} (count_from_pin (suc skip) st (c ∷ s)) (count_from_pin 0 false m.after) =
      ap (λ (t : Text). count_from_pin (suc skip) st t) whole
      ∙ (ap (λ (k : ℕ). count_from_pin k st (front ++ quote ∷ m.after)) same
          ∙ count_from_pin-skip st front quote m.after) in
    count_from_pin-some st c s m h ∙ ap suc jump

replace_pin-none :
    (u : Text) (st : Bool) (c : ℕ) (s : Text)
    → pin_here st (c ∷ s) ≡ none
    → replace_pin u st (c ∷ s) ≡ c ∷ replace_pin u (c == newline) s
unfolding replace_pin put_version
replace_pin-none u st c s h = rw h refl

count_from_pin-none :
    (st : Bool) (c : ℕ) (s : Text)
    → pin_here st (c ∷ s) ≡ none
    → count_from_pin 0 st (c ∷ s) ≡ count_from_pin 0 (c == newline) s
unfolding count_from_pin
count_from_pin-none st c s h = rw h (omega arith)

-- A block with pins: the first one, and what happens to the block with another version in it.
pub record IsFirst (st : Bool) (b : Text) (n : ℕ) : Type 0 where
  pub front : Text
  pub version : Text
  pub back : Text
  pub shape : b ≡ front ++ opened version back
  pub full : is_empty version ≡ false
  pub bare : lacks quote version ≡ true
  pub put : (u : Text) → replace_pin u st b ≡ front ++ opened u back
  pub again :
      (w u : Text)
      → IsVersion w
      → replace_pin u st (front ++ opened w back) ≡ front ++ opened u back
  pub counted : (w : Text) → IsVersion w → count_from_pin 0 st (front ++ opened w back) ≡ suc n

match-IsFirst :
    (st : Bool) (b : Text) (m : Pin) (n : ℕ)
    → pin_here st b ≡ some m
    → count_from_pin 0 st b ≡ suc n
    → IsFirst st b n
match-IsFirst st b m n h e =
    let (starts, matched) = pin_here-some st b m h in
    let pinned = match_pin-IsPinned b m matched in
    let other : (w : Text)
        → IsVersion w
        → pin_here st (m.group ++ opened w m.after)
          ≡ some (record { group = m.group; version = w; after = m.after }) =
      λ w new. unfold pin_here in rw starts (pinned.other w new.0 new.1) in
    record {
      front = m.group;
      version = m.version;
      back = m.after;
      shape = pinned.shape;
      full = pinned.full;
      bare = pinned.bare;
      put = λ u. replace_pin-match u st b m h;
      again = λ w u new. replace_pin-match u st (m.group ++ opened w m.after) _ (other w new);
      counted = λ w new.
          count_from_pin-match st (m.group ++ opened w m.after) _ (other w new) refl
          ∙ (sym (count_from_pin-match st b m h pinned.shape) ∙ e);
    }

pub count_from_pin-IsFirst :
    (st : Bool) (b : Text) (n : ℕ) → count_from_pin 0 st b ≡ suc n → IsFirst st b n
count_from_pin-IsFirst st [] n h = unfold count_from_pin in absurd (cc)
count_from_pin-IsFirst st (c ∷ s) n h = elim (Option-cases (pin_here st (c ∷ s))) [
  | inl e ↦
      let first =
        count_from_pin-IsFirst (c == newline) s n (sym (count_from_pin-none st c s e) ∙ h) in
      let still : (w : Text)
          → IsVersion w
          → pin_here st (c ∷ (first.front ++ opened w first.back)) ≡ none =
        λ w new.
          pin_here-none st (c ∷ first.front) first.version w first.back first.full first.bare new
            (subst (λ (t : Text). pin_here st (c ∷ t) ≡ none) first.shape e) in
      record {
        front = c ∷ first.front;
        version = first.version;
        back = first.back;
        shape = ap (λ (t : Text). c ∷ t) first.shape;
        full = first.full;
        bare = first.bare;
        put = λ u. replace_pin-none u st c s e ∙ ap (λ (t : Text). c ∷ t) (first.put u);
        again = λ w u new.
            replace_pin-none u st c (first.front ++ opened w first.back) (still w new)
            ∙ ap (λ (t : Text). c ∷ t) (first.again w u new);
        counted = λ w new.
            count_from_pin-none st c (first.front ++ opened w first.back) (still w new)
            ∙ first.counted w new;
      }
  | inr (m, e) ↦ match-IsFirst st (c ∷ s) m n e h
]
