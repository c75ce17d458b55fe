-- ===== src/Toolchain/Undone.antt =====
-- `JobPin.apply` undone: applying the pin's old version to the result gives the text back.
use talyvor_track.Prelude.{
  ℕ, String, ◌≡◌, refl, sym, ap, ◌∙◌, true, some, [], ◌∷◌, ◌++◌, arith, Text, codes,
}
use mathlib.Core.List.{append_assoc}
use talyvor_track.Toolchain.Pins.{
  to_next_job, header_of, Span, span, count_in, count_pins, count_from_pin, replace_pin, apply_pin,
}
use talyvor_track.Toolchain.Pinned.{quote, lacks, opened, IsVersion}
use talyvor_track.Toolchain.Blocks.{IsFirst, count_from_pin-IsFirst}
use talyvor_track.Toolchain.Jobs.{to_next_job-split, to_next_job-other}
use talyvor_track.Toolchain.Spans.{
  span-some, apply_pin-some, count_in-some, found, IsApplied, apply_pin-IsApplied, quote_behind,
}

-- The old version, and that putting it back gives the text; the job still has one pin.
pub record IsUndone (job : String) (new text text' : Text) : Type 0 where
  pub old : Text
  pub front : Text
  pub back : Text
  pub was : text ≡ front ++ opened old back
  pub became : text' ≡ front ++ opened new back
  pub counted : count_in job text' ≡ some 1
  pub undone : apply_pin job old text' ≡ some text

regrouped : (x q r t : Text) → ((x ++ opened q r) ++ t) ≡ x ++ opened q (r ++ t)
regrouped x q r t =
    append_assoc x (opened q r) t ∙ ap (λ (y : Text). x ++ quote ∷ y) (append_assoc q (quote ∷ r) t)

placed : (b f q r t : Text) → (b ++ ((f ++ opened q r) ++ t)) ≡ (b ++ f) ++ opened q (r ++ t)
placed b f q r t =
    ap (λ (y : Text). b ++ y) (regrouped f q r t) ∙ sym (append_assoc b f (opened q (r ++ t)))

-- In a job that goes on behind the pin, the span is the same with another version in it.
module _ (job : String) (new text text' : Text) (fits : IsVersion new)
    (a : IsApplied job new text text')
    (first : IsFirst true (header_of job ++ (to_next_job true a.rest).0) 0) (x : Text)
    (lead : first.front ≡ header_of job ++ x)
    (tail : (to_next_job true a.rest).0 ≡ x ++ opened first.version first.back) where
  rest-pinned : a.rest ≡ x ++ opened first.version (first.back ++ (to_next_job true a.rest).1)
  rest-pinned =
      to_next_job-split true a.rest
      ∙ (ap (λ (y : Text). y ++ (to_next_job true a.rest).1) tail
          ∙ regrouped x first.version first.back (to_next_job true a.rest).1)

  goes_on :
      to_next_job true (x ++ opened new (first.back ++ (to_next_job true a.rest).1))
      ≡ (x ++ opened new first.back, (to_next_job true a.rest).1)
  goes_on =
      to_next_job-other true x first.version new (first.back ++ (to_next_job true a.rest).1)
        first.back (to_next_job true a.rest).1 fits.2
        (ap (λ (y : Text). to_next_job true y) (sym rest-pinned)
          ∙ ap (λ (y : Text). (y, (to_next_job true a.rest).1)) tail)

  became_text :
      text'
      ≡ a.before ++ (header_of job ++ (x ++ opened new (first.back ++ (to_next_job true a.rest).1)))
  became_text =
      a.result
      ∙ ap (λ (y : Text). a.before ++ y)
          (ap (λ (y : Text). y ++ (to_next_job true a.rest).1)
              (first.put new
                ∙ (ap (λ (y : Text). y ++ opened new first.back) lead
                    ∙ append_assoc (header_of job) x (opened new first.back)))
            ∙ (append_assoc (header_of job) (x ++ opened new first.back) (to_next_job true a.rest).1
                ∙ ap (λ (y : Text). header_of job ++ y)
                    (regrouped x new first.back (to_next_job true a.rest).1)))

  was_text :
      text
      ≡ a.before ++ ((header_of job ++ (to_next_job true a.rest).0) ++ (to_next_job true a.rest).1)
  was_text =
      (found job text a.before a.rest a.found).0
      ∙ ap (λ (y : Text). a.before ++ y)
          (ap (λ (y : Text). header_of job ++ y) (to_next_job-split true a.rest)
            ∙ sym (
                append_assoc (header_of job) (to_next_job true a.rest).0
                  (to_next_job true a.rest).1))

  new_span : Span
  new_span = record {
    before = a.before;
    block = header_of job ++ (x ++ opened new first.back);
    after = (to_next_job true a.rest).1;
  }

  span-new : span job text' ≡ some new_span
  unfolding new_span
  span-new =
      ap (span job) became_text
      ∙ span-some job _ a.before (x ++ opened new (first.back ++ (to_next_job true a.rest).1)) _ _
          ((found job text a.before a.rest a.found).1 _) goes_on

  block-new : new_span.block ≡ first.front ++ opened new first.back
  unfolding new_span
  block-new =
      sym (append_assoc (header_of job) x (opened new first.back))
      ∙ ap (λ (y : Text). y ++ opened new first.back) (sym lead)

  count_pins-new : count_pins new_span.block ≡ 1
  unfolding count_pins
  count_pins-new = ap (λ (y : Text). count_from_pin 0 true y) block-new ∙ first.counted new fits

  undone_text : apply_pin job first.version text' ≡ some text
  undone_text =
      apply_pin-some job first.version text' new_span span-new count_pins-new
      ∙ ap some (
          unfold new_span in
          (ap (λ (y : Text). a.before ++ (y ++ (to_next_job true a.rest).1))
              (ap (λ (y : Text). replace_pin first.version true y) block-new
                ∙ (first.again new first.version fits ∙ sym first.shape))
            ∙ sym was_text))

  pinned-IsUndone : IsUndone job new text text'
  pinned-IsUndone = record {
    old = first.version;
    front = a.before ++ first.front;
    back = first.back ++ (to_next_job true a.rest).1;
    was =
        was_text
        ∙ (ap (λ (y : Text). a.before ++ (y ++ (to_next_job true a.rest).1)) first.shape
            ∙ placed a.before first.front first.version first.back (to_next_job true a.rest).1);
    became =
        a.result
        ∙ (ap (λ (y : Text). a.before ++ (y ++ (to_next_job true a.rest).1)) (first.put new)
            ∙ placed a.before first.front new first.back (to_next_job true a.rest).1);
    counted = count_in-some job text' new_span span-new ∙ ap some count_pins-new;
    undone = undone_text;
  }

lacks-append : (q : ℕ) (s t : Text) → lacks q s ≡ true → lacks q t ≡ true → lacks q (s ++ t) ≡ true
lacks-append q [] t h k = k
lacks-append q (c ∷ s) t h k = ground (arith, lacks-append q s t)

lacks-header : (job : String) → lacks quote (codes job) ≡ true → lacks quote (header_of job) ≡ true
unfolding header_of
lacks-header job h = lacks-append quote (codes job) (codes ":\n") h refl

-- If the job's name holds no quote and the new version is not empty and holds no quote and no newline,
-- then a text that `apply` gives differs from the one it was given in the version alone, the job still has
-- exactly one pin in it, and applying the old version to it gives the first text back.
pub apply_pin-IsUndone :
    (job : String) (new text text' : Text)
    → lacks quote (codes job) ≡ true
    → IsVersion new
    → apply_pin job new text ≡ some text'
    → IsUndone job new text text'
apply_pin-IsUndone job new text text' named fits h =
    let a = apply_pin-IsApplied job new text text' h in
    let first = first_pin a in
    let (x, lead, tail) =
      quote_behind (header_of job) (to_next_job true a.rest).0 first.front _
        (lacks-header job named) first.shape in
    pinned-IsUndone job new text text' fits a first x lead tail
  where
    first_pin :
        (a : IsApplied job new text text')
        → IsFirst true (header_of job ++ (to_next_job true a.rest).0) 0
    first_pin a = count_from_pin-IsFirst true _ 0 (unfold count_pins in a.one)
