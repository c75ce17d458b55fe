-- ===== src/Toolchain/Jobs.antt =====
-- The part of ci.yaml that belongs to a job: its place does not move when the version of a pin in it is
-- replaced.
use talyvor_track.Prelude.{
  ℕ, ◌≤◌, ◌≡◌, refl, sym, ap, ◌∙◌, Bool, true, false, ◌&&◌, Option, none, some, [], ◌∷◌, ◌++◌,
  arith, inl, inr, Text, codes, is_prefix, drop, length, Bool-cases, ◌==◌,
}
use mathlib.Core.Path.{subst}
use mathlib.Core.List.{append_assoc}
use talyvor_track.Prelude.Replace.{prefix_split}
use talyvor_track.Toolchain.Matched.{is_prefix-append, drop-append}
use talyvor_track.Toolchain.Pins.{
  add_char, is_word, past_word, starts_word, is_job_header, to_next_job, find_job,
}
use talyvor_track.Toolchain.Pinned.{quote, newline, lacks, is_prefix-quote}

past_word-quote : (x r : Text) → past_word (x ++ quote ∷ r) ≡ past_word x ++ quote ∷ r
unfolding past_word
past_word-quote [] r = refl
past_word-quote (c ∷ x) r = elim (Bool-cases (is_word c)) [
  | inl e ↦ rw e (past_word-quote x r)
  | inr e ↦ rw e refl
]

starts_word-quote : (x r : Text) → starts_word (x ++ quote ∷ r) ≡ starts_word x
starts_word-quote [] r = refl
starts_word-quote (c ∷ x) r = refl

-- Whether a job's header stands here does not depend on what follows a quote.
is_job_header-quote : (x r : Text) → is_job_header (x ++ quote ∷ r) ≡ is_job_header x
unfolding is_job_header
is_job_header-quote [] r = refl
is_job_header-quote (c ∷ []) r = ground arith
is_job_header-quote (c ∷ d ∷ x) r =
    rw
      (
        starts_word-quote x r,
        past_word-quote x r,
        is_prefix-quote (codes ":\n") (past_word x) r refl,
      )
      refl

to_next_job-pass :
    (st : Bool) (c : ℕ) (s a b : Text)
    → (st && is_job_header (c ∷ s)) ≡ false
    → to_next_job (c == newline) s ≡ (a, b)
    → to_next_job st (c ∷ s) ≡ (c ∷ a, b)
unfolding to_next_job
to_next_job-pass st c s a b h e = rw (h, e) refl

-- The job goes on here.
to_next_job-on :
    (st : Bool) (c d : ℕ) (s a b : Text)
    → to_next_job st (c ∷ s) ≡ (d ∷ a, b)
    → ((st && is_job_header (c ∷ s)) ≡ false) × (to_next_job (c == newline) s ≡ (a, b))
unfolding to_next_job
to_next_job-on st c d s a b h = elim (Bool-cases (st && is_job_header (c ∷ s))) [
  | inl e ↦ absurd (cc (h, e))
  | inr e ↦ (e, ap (λ (p : Text × Text). (drop 1 p.0, p.1)) (rw e at h))
]

-- After a quoted part of the job, the job goes on as before.
to_next_job-after :
    (st : Bool) (v t z b : Text)
    → to_next_job st (v ++ quote ∷ t) ≡ (v ++ quote ∷ z, b)
    → to_next_job false t ≡ (z, b)
to_next_job-after st [] t z b h = (to_next_job-on st quote quote t z b h).1
to_next_job-after st (c ∷ v) t z b h =
    to_next_job-after (c == newline) v t z b
      (to_next_job-on st c c (v ++ quote ∷ t) (v ++ quote ∷ z) b h).1

-- A text on one line does not end the job.
to_next_job-line :
    (w t z b : Text)
    → lacks newline w ≡ true
    → to_next_job false t ≡ (z, b)
    → to_next_job false (w ++ quote ∷ t) ≡ (w ++ quote ∷ z, b)
to_next_job-line [] t z b l h = to_next_job-pass false quote t z b refl h
to_next_job-line (c ∷ w) t z b l h =
    let inside : (c == newline) ≡ false = ground arith in
    to_next_job-pass false c (w ++ quote ∷ t) (w ++ quote ∷ z) b refl (
      subst (λ (st : Bool). to_next_job st (w ++ quote ∷ t) ≡ (w ++ quote ∷ z, b)) (sym inside)
        (to_next_job-line w t z b (ground arith) h))

pub to_next_job-other :
    (st : Bool) (y v w t z b : Text)
    → lacks newline w ≡ true
    → to_next_job st (y ++ quote ∷ (v ++ quote ∷ t)) ≡ (y ++ quote ∷ (v ++ quote ∷ z), b)
    → to_next_job st (y ++ quote ∷ (w ++ quote ∷ t)) ≡ (y ++ quote ∷ (w ++ quote ∷ z), b)
to_next_job-other st [] v w t z b l h =
    let (stays, rest) = to_next_job-on st quote quote (v ++ quote ∷ t) (v ++ quote ∷ z) b h in
    to_next_job-pass st quote (w ++ quote ∷ t) (w ++ quote ∷ z) b
      (ap (λ (x : Bool). st && x)
          (is_job_header-quote [] (w ++ quote ∷ t) ∙ sym (is_job_header-quote [] (v ++ quote ∷ t)))
        ∙ stays)
      (to_next_job-line w t z b l (to_next_job-after false v t z b rest))
to_next_job-other st (c ∷ y) v w t z b l h =
    let (stays, rest) =
      to_next_job-on st c c (y ++ quote ∷ (v ++ quote ∷ t)) (y ++ quote ∷ (v ++ quote ∷ z)) b h in
    to_next_job-pass st c (y ++ quote ∷ (w ++ quote ∷ t)) (y ++ quote ∷ (w ++ quote ∷ z)) b
      (ap (λ (x : Bool). st && x)
          (is_job_header-quote (c ∷ y) (w ++ quote ∷ t)
            ∙ sym (is_job_header-quote (c ∷ y) (v ++ quote ∷ t)))
        ∙ stays)
      (to_next_job-other (c == newline) y v w t z b l rest)

-- The text from a job's start on, and what is left to show of it.
pub to_next_job-split : (st : Bool) (s : Text) → s ≡ (to_next_job st s).0 ++ (to_next_job st s).1
unfolding to_next_job
to_next_job-split st [] = refl
to_next_job-split st (c ∷ s) = elim (Bool-cases (st && is_job_header (c ∷ s))) [
  | inl e ↦ rw e refl
  | inr e ↦ rw e (ap (λ (x : Text). c ∷ x) (to_next_job-split (c == newline) s))
]

-- Where a header was found: the text around it, and that it is found there whatever follows it.
abbrev pub IsFound : Text → Bool → Text → Option (Text × Text) → Type 0
IsFound header st s none = Unit
IsFound header st s (some (b, r)) =
    (s ≡ b ++ (header ++ r)) × ((t : Text) → find_job header st (b ++ (header ++ t)) ≡ some (b, t))

is_prefix-enough :
    (p s r t : Text) → length p ≤ length s → is_prefix p (s ++ r) ≡ is_prefix p (s ++ t)
is_prefix-enough [] s r t h = refl
is_prefix-enough (c ∷ p) [] r t h = absurd (omega arith)
is_prefix-enough (c ∷ p) (d ∷ s) r t h =
    ap (λ (x : Bool). c == d && x) (is_prefix-enough p s r t (omega arith))

length-behind : (q p : Text) → length p ≤ length (q ++ p)
length-behind [] p = omega arith
length-behind (c ∷ q) p = let h = length-behind q p in omega arith

is_prefix-header : (p q r t : Text) → is_prefix p (q ++ (p ++ r)) ≡ is_prefix p (q ++ (p ++ t))
is_prefix-header p q r t =
    ap (λ (x : Text). is_prefix p x) (sym (append_assoc q p r))
    ∙ (is_prefix-enough p (q ++ p) r t (length-behind q p)
        ∙ ap (λ (x : Text). is_prefix p x) (append_assoc q p t))

module _ (k : ℕ) (head : Text) where
  find_job-stop :
      (st : Bool) (c : ℕ) (s : Text)
      → (st && is_prefix (k ∷ head) (c ∷ s)) ≡ true
      → find_job (k ∷ head) st (c ∷ s) ≡ some ([], drop (length (k ∷ head)) (c ∷ s))
  unfolding find_job
  find_job-stop st c s e = rw e refl

  find_job-pass :
      (st : Bool) (c : ℕ) (s : Text)
      → (st && is_prefix (k ∷ head) (c ∷ s)) ≡ false
      → find_job (k ∷ head) st (c ∷ s) ≡ add_char c (find_job (k ∷ head) (c == newline) s)
  unfolding find_job
  find_job-pass st c s e = rw e refl

  find_job-here :
      (st : Bool) (t : Text) → st ≡ true → find_job (k ∷ head) st (k ∷ (head ++ t)) ≡ some ([], t)
  find_job-here st t e =
      find_job-stop st k (head ++ t) (rw e (is_prefix-append (k ∷ head) t))
      ∙ ap (λ (x : Text). some ([], x)) (drop-append (k ∷ head) t)

  add_char-IsFound :
      (st : Bool) (c : ℕ) (s : Text) (o : Option (Text × Text))
      → (st && is_prefix (k ∷ head) (c ∷ s)) ≡ false
      → IsFound (k ∷ head) (c == newline) s o
      → IsFound (k ∷ head) st (c ∷ s) (add_char c o)
  unfolding add_char
  add_char-IsFound st c s none e h = tt
  add_char-IsFound st c s (some (b, r)) e (shape, again) = (
    ap (λ (x : Text). c ∷ x) shape,
    λ t.
        find_job-pass st c (b ++ (k ∷ (head ++ t))) (
          ap (λ (x : Bool). st && x)
            (is_prefix-header (k ∷ head) (c ∷ b) t r
              ∙ sym (ap (λ (x : Text). is_prefix (k ∷ head) (c ∷ x)) shape))
          ∙ e)
        ∙ ap (λ (o : Option (Text × Text)). add_char c o) (again t),
  )

  pub find_job-IsFound : (st : Bool) (s : Text) → IsFound (k ∷ head) st s (find_job (k ∷ head) st s)
  find_job-IsFound st [] = unfold find_job in tt
  find_job-IsFound st (c ∷ s) = elim (Bool-cases (st && is_prefix (k ∷ head) (c ∷ s))) [
    | inl e ↦
        subst (IsFound (k ∷ head) st (c ∷ s)) (sym (find_job-stop st c s e))
          (prefix_split (k ∷ head) (c ∷ s) (ground arith), λ t. find_job-here st t (ground arith))
    | inr e ↦ subst (IsFound (k ∷ head) st (c ∷ s)) (sym (find_job-pass st c s e)) (
        add_char-IsFound st c s (find_job (k ∷ head) (c == newline) s) e
          (find_job-IsFound (c == newline) s))
  ]
