-- ===== src/Toolchain/Applies.antt =====
-- What `--check-anchors` says of the table: every control can be applied, and its tests exist.
use talyvor_track.Prelude.{
  ℕ, String, ◌≡◌, refl, sym, ap, ◌∙◌, ◌↔◌, Bool, true, false, Option, none, some, List, [], ◌∷◌,
  ◌++◌, arith, In, inl, inr, ◌≤◌, Text, codes, occurs, length, ltb, if◌then◌else◌, ==_iff,
  append-eq-nil,
}
use mathlib.Core.Path.{subst}
use mathlib.Core.Option.{some-injective}
use talyvor_track.Harness.Disk.{Disk}
use talyvor_track.Toolchain.Pins.{
  Span, span, count_pins, count_in_span, count_in, replace_pin, apply_in_span, apply_pin,
}
use talyvor_track.Toolchain.Anchors.{
  Anchor, literal, job_pin, Control, occurrences, mutated, is_count, anchored, Complaint,
  anchor_floor, named, exists_in, missing_tests, check_control, with_rest, check_file,
  check_controls, test_sources, floors, complaints, status_of, check_anchors,
}

-- The control's file is there, its anchor stands there as often as its row says, and each test that it
-- names is declared in the sources.
pub record IsCurrent (sources : Text) (d : Disk) (c : Control) : Type 0 where
  pub text : Text
  pub there : d c.path ≡ some text
  pub counted : occurrences c.anchor text ≡ some c.expect
  pub declared : (t : String) → In t (named c.red ++ named c.green) → exists_in sources t ≡ true

-- The test files that were read hold a test, the table is not short, and every control is current.
pub record IsSound (walk : Disk → List String) (cs : List Control) (d : Disk) : Type 0 where
  pub tests_read : occurs (codes "func Test") (test_sources walk d) ≡ true
  pub enough : anchor_floor ≤ length cs
  pub current : (c : Control) → In c cs → IsCurrent (test_sources walk d) d c

is_count_iff : (want : ℕ) (n : Option ℕ) → (is_count want n ≡ true) ↔ (n ≡ some want)
unfolding is_count
is_count_iff want none = (λ h. absurd (cc), λ h. absurd (cc))
is_count_iff want (some n) =
    (λ h. ap some ((==_iff n want).0 h), λ h. (==_iff n want).1 (some-injective n want h))

if_nil :
    {A : Type 0} (b : Bool) (a : A) (as_ : List A) → (if b then [] else a ∷ as_) ≡ [] → b ≡ true
if_nil true a as_ h = refl
if_nil false a as_ h = absurd (cc)

if_rest :
    {A : Type 0} (b : Bool) (a : A) (rest : List A)
    → (if b then rest else a ∷ rest) ≡ []
    → (b ≡ true) × (rest ≡ [])
if_rest true a rest h = (refl, h)
if_rest false a rest h = absurd (cc)

missing_tests_iff :
    (name : String) (sources : Text) (ts : List String)
    → (missing_tests name sources ts ≡ []) ↔ ((t : String) → In t ts → exists_in sources t ≡ true)
unfolding missing_tests
missing_tests_iff name sources [] = (λ h t q. absurd q, λ h. refl)
missing_tests_iff name sources (t ∷ ts) = (
  λ h u q.
      let (here, rest) =
        if_rest (exists_in sources t) (Complaint.no_such_test name t)
          (missing_tests name sources ts) h in
      elim q [
        | inl e ↦ subst (λ x. exists_in sources x ≡ true) e here
        | inr z ↦ (missing_tests_iff name sources ts).0 rest u z
      ],
  λ all. rw (all t (inl refl)) ((missing_tests_iff name sources ts).1 (λ u q. all u (inr q))),
)

check_file_iff :
    (sources : Text) (c : Control) (file : Option Text) (rest : Option (List Complaint)) (d : Disk)
    → d c.path ≡ file
    → (check_file sources c file rest ≡ some []) ↔ (IsCurrent sources d c × (rest ≡ some []))
unfolding check_file
check_file_iff sources c none rest d e =
    (λ h. absurd (cc), λ (k, r). absurd (none_some _ (sym e ∙ k.there)))
  where
    none_some : (t : Text) → none ≡ some t → ⊥
    none_some t h = absurd (cc)
check_file_iff sources c (some text) none d e =
    unfold with_rest in (λ h. absurd (cc), λ (k, r). absurd (no r))
  where
    no : ◌≡◌ {A = Option (List Complaint)} none (some []) → ⊥
    no h = absurd (cc)
check_file_iff sources c (some text) (some rest) d e =
    unfold with_rest check_control in
    (
      λ h.
          let (own, others) = append-eq-nil _ rest (some-injective _ _ h) in
          let (count, tests) =
            append-eq-nil _ (missing_tests c.name sources (named c.red ++ named c.green)) own in
          (
            record {
              text = text;
              there = e;
              counted = (is_count_iff c.expect (occurrences c.anchor text)).0 (if_nil _ _ [] count);
              declared = (missing_tests_iff c.name sources (named c.red ++ named c.green)).0 tests;
            },
            ap some others,
          ),
      λ (k, r).
          let same : text ≡ k.text = some-injective text k.text (sym e ∙ k.there) in
          let counted =
            (is_count_iff c.expect (occurrences c.anchor text)).1
              (ap (occurrences c.anchor) same ∙ k.counted) in
          rw
            (
              counted,
              (missing_tests_iff c.name sources (named c.red ++ named c.green)).1 k.declared,
            )
            r,
    )

check_controls_iff :
    (sources : Text) (d : Disk) (cs : List Control)
    → (check_controls sources d cs ≡ some []) ↔ ((c : Control) → In c cs → IsCurrent sources d c)
unfolding check_controls
check_controls_iff sources d [] = (λ h c q. absurd q, λ all. refl)
check_controls_iff sources d (k ∷ cs) =
    let step = check_file_iff sources k (d k.path) (check_controls sources d cs) d refl in
    (
      λ h c q. elim q [
        | inl e ↦ subst (IsCurrent sources d) e (step.0 h).0
        | inr z ↦ (check_controls_iff sources d cs).0 (step.0 h).1 c z
      ],
      λ all. step.1 (all k (inl refl), (check_controls_iff sources d cs).1 (λ c q. all c (inr q))),
    )

ltb-false : (a b : ℕ) → (ltb a b ≡ false) ↔ (b ≤ a)
ltb-false a b = (λ h. ground arith, λ h. ground arith)

if_cons : {A : Type 0} (b : Bool) (a : A) → (if b then a ∷ [] else []) ≡ [] → b ≡ false
if_cons true a h = absurd (cc)
if_cons false a h = refl

module _ (walk : Disk → List String) (cs : List Control) (d : Disk) where
  floors_iff :
      (sources : Text)
      → (floors walk sources cs ≡ [])
        ↔ ((occurs (codes "func Test") sources ≡ true) × (anchor_floor ≤ length cs))
  unfolding floors
  floors_iff sources = (
    λ h.
        let (read, many) = append-eq-nil _ _ h in
        (if_nil _ _ [] read, (ltb-false (length cs) anchor_floor).0 (if_cons _ _ many)),
    λ (read, many). rw (read, (ltb-false (length cs) anchor_floor).1 many) refl,
  )

  with_rest_iff :
      (xs : List Complaint) (rest : Option (List Complaint))
      → (with_rest xs rest ≡ some []) ↔ ((xs ≡ []) × (rest ≡ some []))
  unfolding with_rest
  with_rest_iff xs none = (λ h. absurd (cc), λ (e, r). absurd (no r))
    where
      no : ◌≡◌ {A = Option (List Complaint)} none (some []) → ⊥
      no h = absurd (cc)
  with_rest_iff xs (some rest) = (
    λ h. let (e, r) = append-eq-nil xs rest (some-injective _ _ h) in (e, ap some r),
    λ (e, r). rw (e, some-injective rest [] r) refl,
  )

  status_of_iff : (bad : Option (List Complaint)) → (status_of walk bad ≡ some 0) ↔ (bad ≡ some [])
  unfolding status_of
  status_of_iff none = (λ h. absurd (cc), λ h. absurd (cc))
  status_of_iff (some []) = (λ h. refl, λ h. refl)
  status_of_iff (some (b ∷ bad)) = (λ h. absurd (one_not_zero h), λ h. absurd (not_nil h))
    where
      one_not_zero : ◌≡◌ {A = Option ℕ} (some 1) (some 0) → ⊥
      one_not_zero h = ground arith

      not_nil : some (b ∷ bad) ≡ some [] → ⊥
      not_nil h = absurd (cc)

-- `--check-anchors` exits with 0 exactly if the test files that it read hold a test, the table has at
-- least ten controls, and of each control the file is there, the anchor stands there as often as the row
-- says (for a pin, the job is there), and every test that it names is declared.
pub check_anchors-IsSound :
    (walk : Disk → List String) (cs : List Control) (d : Disk)
    → (check_anchors walk cs d ≡ some 0) ↔ IsSound walk cs d
unfolding check_anchors complaints
check_anchors-IsSound walk cs d =
    let sources = test_sources walk d in
    let status = status_of_iff walk cs d (complaints walk cs d) in
    let split = with_rest_iff walk cs d (floors walk sources cs) (check_controls sources d cs) in
    let floor = floors_iff walk cs d sources in
    let controls = check_controls_iff sources d cs in
    (
      λ h.
          let (f, r) = split.0 (status.0 h) in
          record { tests_read = (floor.0 f).0; enough = (floor.0 f).1; current = controls.0 r },
      λ s. status.1 (split.1 (floor.1 (s.tests_read, s.enough), controls.1 s.current)),
    )

some_iff_one :
    (p : Option Span) (new : Text)
    → count_in_span p ≡ some 1
    → (out : Text) × (apply_in_span new p ≡ some out)
unfolding count_in_span apply_in_span
some_iff_one none new h = absurd (cc)
some_iff_one (some p) new h = (
  p.before ++ (replace_pin new true p.block ++ p.after),
  rw ((==_iff (count_pins p.block) 1).1 (some-injective _ _ h)) refl,
)

mutated-some :
    (a : Anchor) (text : Text)
    → occurrences a text ≡ some 1
    → (out : Text) × (mutated a text ≡ some out)
unfolding occurrences mutated count_in apply_pin
mutated-some (literal old new) text h = (_, refl)
mutated-some (job_pin job version) text h = some_iff_one (span job text) _ h

-- A control that is current, and whose anchor is to stand there once, is applied.
pub anchored-some :
    (sources : Text) (d : Disk) (c : Control)
    → c.expect ≡ 1
    → IsCurrent sources d c
    → (text : Text) × (d c.path ≡ some text)
      × ((out : Text) × (anchored c.anchor c.expect text ≡ some out))
unfolding anchored
anchored-some sources d c one k =
    let once : occurrences c.anchor k.text ≡ some 1 = k.counted ∙ ap some one in
    let (out, e) = mutated-some c.anchor k.text once in
    (
      k.text,
      k.there,
      (out, rw ((is_count_iff c.expect (occurrences c.anchor k.text)).1 k.counted) e),
    )
