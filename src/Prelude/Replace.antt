-- ===== src/Prelude/Replace.antt =====
-- What `count` says of `replace`: nothing is changed without an occurrence, and one place with one.
use talyvor_track.Prelude.{
  ℕ, zero, suc, ◌-◌, ◌≡◌, ◌≢◌, refl, ap, ◌∙◌, inl, inr, true, [], ◌∷◌, ◌++◌, arith, length, Text,
  is_prefix, count_from, count, replace_from, replace, replace_first, drop, Bool-cases, ==_iff,
}

pub prefix_split : (t s : Text) → is_prefix t s ≡ true → s ≡ t ++ drop (length t) s
prefix_split [] s h = refl
prefix_split (c ∷ t) [] h = absurd (cc)
prefix_split (c ∷ t) (d ∷ s) h =
    rw ((==_iff c d).0 (ground arith)) (ap (λ (r : Text). d ∷ r) (prefix_split t s (ground arith)))

-- From a place where nothing more is found the scan copies what it does not skip.
replace_from-none :
    (t new : Text) (k : ℕ) (s : Text) → count_from t k s ≡ 0 → replace_from t new k s ≡ drop k s
unfolding count_from replace_from
replace_from-none t new zero [] h = refl
replace_from-none t new (suc k) [] h = refl
replace_from-none t new (suc k) (c ∷ s) h = replace_from-none t new k s h
replace_from-none t new zero (c ∷ s) h = elim (Bool-cases (is_prefix t (c ∷ s))) [
  | inl e ↦ absurd (cc (rw (e, count_from) at h))
  | inr e ↦
      rw (e, replace_from)
        (ap (λ (r : Text). c ∷ r) (replace_from-none t new zero s (rw (e, count_from) at h)))
]

-- A text with one place at which `t` stands, and the same with `new` there.
pub record IsOnePlace (t new s r : Text) : Type 0 where
  pub before : Text
  pub after : Text
  pub was : s ≡ before ++ (t ++ after)
  pub is : r ≡ before ++ (new ++ after)

only_one : {n : ℕ} → suc n ≡ 1 → n ≡ 0
only_one h = omega arith

replace_from-one :
    (t new : Text) (s : Text)
    → t ≢ []
    → count_from t zero s ≡ 1
    → IsOnePlace t new s (replace_from t new zero s)
unfolding count_from replace_from
replace_from-one t new [] ne h = absurd (cc)
replace_from-one [] new (c ∷ s) ne h = absurd (ne refl)
replace_from-one (d ∷ t) new (c ∷ s) ne h = elim (Bool-cases (is_prefix (d ∷ t) (c ∷ s))) [
  | inl e ↦ record {
    before = [];
    after = drop (length t) s;
    was = prefix_split (d ∷ t) (c ∷ s) e;
    is =
        rw (e, replace_from)
          (ap (λ (r : Text). new ++ r)
            (replace_from-none (d ∷ t) new (suc (length t) - 1) s
                (only_one (rw (e, count_from) at h))
              ∙ ap (λ k. drop k s) (omega arith)));
  }
  | inr e ↦
      let r = replace_from-one (d ∷ t) new s ne (rw (e, count_from) at h) in
      record {
        before = c ∷ r.before;
        after = r.after;
        was = ap (λ (x : Text). c ∷ x) r.was;
        is = rw (e, replace_from) (ap (λ (x : Text). c ∷ x) r.is);
      }
]

-- A text that is not empty and does not occur: replacing it changes nothing.
pub replace-none : (t new s : Text) → t ≢ [] → count t s ≡ 0 → replace t new s ≡ s
unfolding count replace
replace-none [] new s ne h = absurd (ne refl)
replace-none (c ∷ t) new s ne h = replace_from-none (c ∷ t) new zero s h

-- A text that is not empty and is counted once: replacing it changes that one place.
pub replace-one : (t new s : Text) → t ≢ [] → count t s ≡ 1 → IsOnePlace t new s (replace t new s)
unfolding count replace
replace-one [] new s ne h = absurd (ne refl)
replace-one (c ∷ t) new s ne h = replace_from-one (c ∷ t) new s ne h

replace_first-scan :
    (t new s : Text) → t ≢ [] → count_from t zero s ≡ 1 → IsOnePlace t new s (replace_first t new s)
unfolding count_from replace_first
replace_first-scan t new [] ne h = absurd (cc)
replace_first-scan [] new (c ∷ s) ne h = absurd (ne refl)
replace_first-scan (d ∷ t) new (c ∷ s) ne h = elim (Bool-cases (is_prefix (d ∷ t) (c ∷ s))) [
  | inl e ↦ record {
    before = [];
    after = drop (length t) s;
    was = prefix_split (d ∷ t) (c ∷ s) e;
    is = rw e;
  }
  | inr e ↦
      let r = replace_first-scan (d ∷ t) new s ne (rw (e, count_from) at h) in
      record {
        before = c ∷ r.before;
        after = r.after;
        was = ap (λ (x : Text). c ∷ x) r.was;
        is = rw e (ap (λ (x : Text). c ∷ x) r.is);
      }
]

-- Counted once, the first place is the only one.
pub replace_first-one :
    (t new s : Text) → t ≢ [] → count t s ≡ 1 → IsOnePlace t new s (replace_first t new s)
unfolding count
replace_first-one [] new s ne h = absurd (ne refl)
replace_first-one (c ∷ t) new s ne h = replace_first-scan (c ∷ t) new s ne h
