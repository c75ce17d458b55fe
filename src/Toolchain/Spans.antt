-- ===== src/Toolchain/Spans.antt =====
-- The span of a job, and what a result of `JobPin.apply` says of the text it was given.
use talyvor_track.Prelude.{
  ℕ, String, ◌≡◌, refl, sym, ap, ◌∙◌, true, none, some, [], ◌∷◌, ◌++◌, arith, inl, inr, Text, codes,
  drop, Bool-cases, Option-cases, ◌==◌, ==_iff,
}
use mathlib.Core.Path.{subst}
use mathlib.Core.Option.{some-injective}
use talyvor_track.Toolchain.Pins.{
  to_next_job, header_of, find_job, Span, span_from, span, count_in_span, count_in, count_pins,
  replace_pin, apply_in_span, apply_pin,
}
use talyvor_track.Toolchain.Pinned.{quote, lacks}
use talyvor_track.Toolchain.Jobs.{IsFound, find_job-IsFound}

pub span-some :
    (job : String) (text b s a r : Text)
    → find_job (header_of job) true text ≡ some (b, s)
    → to_next_job true s ≡ (a, r)
    → span job text ≡ some (record { before = b; block = header_of job ++ a; after = r })
unfolding span span_from
span-some job text b s a r h e = rw (h, e) refl

span-none :
    (job : String) (text : Text) → find_job (header_of job) true text ≡ none → span job text ≡ none
unfolding span span_from
span-none job text h = rw h refl

pub apply_pin-some :
    (job : String) (u text : Text) (p : Span)
    → span job text ≡ some p
    → count_pins p.block ≡ 1
    → apply_pin job u text ≡ some (p.before ++ (replace_pin u true p.block ++ p.after))
unfolding apply_pin apply_in_span
apply_pin-some job u text p h e = rw (h, e) refl

pub count_in-some :
    (job : String) (text : Text) (p : Span)
    → span job text ≡ some p
    → count_in job text ≡ some (count_pins p.block)
unfolding count_in count_in_span
count_in-some job text p h = rw h refl

pub found :
    (job : String) (text b s : Text)
    → find_job (header_of job) true text ≡ some (b, s)
    → IsFound (header_of job) true text (some (b, s))
unfolding header_of
found job text b s e =
    subst (IsFound (header_of job) true text) e
      (find_job-IsFound b' ' (b' ' ∷ (codes job ++ codes ":\n")) true text)

-- What a result of `apply` says of the text.
pub record IsApplied (job : String) (u text text' : Text) : Type 0 where
  pub before : Text
  pub rest : Text
  pub found : find_job (header_of job) true text ≡ some (before, rest)
  pub one : count_pins (header_of job ++ (to_next_job true rest).0) ≡ 1
  pub result :
      text'
      ≡ before
        ++ (replace_pin u true (header_of job ++ (to_next_job true rest).0)
            ++ (to_next_job true rest).1)

apply_in_span-some :
    (u text' : Text) (p : Span)
    → apply_in_span u (some p) ≡ some text'
    → (count_pins p.block ≡ 1) × (text' ≡ p.before ++ (replace_pin u true p.block ++ p.after))
unfolding apply_in_span
apply_in_span-some u text' p h = elim (Bool-cases (count_pins p.block == 1)) [
  | inl e ↦ ((==_iff (count_pins p.block) 1).0 e, sym (some-injective _ text' (rw e at h)))
  | inr e ↦ absurd (cc (h, e))
]

pub apply_pin-IsApplied :
    (job : String) (u text text' : Text)
    → apply_pin job u text ≡ some text'
    → IsApplied job u text text'
apply_pin-IsApplied job u text text' h = elim (Option-cases (find_job (header_of job) true text)) [
  | inl e ↦ absurd (no_job e h)
  | inr ((b, s), e) ↦
      let there = span-some job text b s (to_next_job true s).0 (to_next_job true s).1 e refl in
      let (one, result) =
        apply_in_span-some u text' _ (sym (ap (apply_in_span u) there) ∙ applied h) in
      record { before = b; rest = s; found = e; one = one; result = result }
]
  where
    applied : apply_pin job u text ≡ some text' → apply_in_span u (span job text) ≡ some text'
    applied h = unfold apply_pin in h

    nothing : apply_in_span u none ≡ some text' → ⊥
    nothing h = unfold apply_in_span in absurd (cc)

    no_job : find_job (header_of job) true text ≡ none → apply_pin job u text ≡ some text' → ⊥
    no_job e h = nothing (sym (ap (apply_in_span u) (span-none job text e)) ∙ applied h)

abbrev first : Text → ℕ
first [] = 0
first (c ∷ s) = c

-- The first quote behind a text without one.
pub quote_behind :
    (h a x r : Text)
    → lacks quote h ≡ true
    → h ++ a ≡ x ++ quote ∷ r
    → (y : Text) × (x ≡ h ++ y) × (a ≡ y ++ quote ∷ r)
quote_behind [] a x r l e = (x, refl, e)
quote_behind (c ∷ h) a [] r l e = let same : c ≡ quote = ap first e in absurd (ground arith)
quote_behind (c ∷ h) a (d ∷ x) r l e =
    let (y, same, rest) = quote_behind h a x r (ground arith) (ap (drop 1) e) in
    (y, ap (λ (t : Text). d ∷ t) same ∙ ap (λ (k : ℕ). k ∷ (h ++ y)) (sym (ap first e)), rest)
