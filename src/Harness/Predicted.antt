-- ===== src/Harness/Predicted.antt =====
-- What an exit status of 0 says of the controls for the signal guard.
use mathlib.Core.Path.{subst}
use mathlib.Core.Option.{some-injective}
use talyvor_track.Prelude.{
  ℕ, String, ◌≡◌, refl, sym, ap, ◌∙◌, Bool, true, false, not, ◌||◌, Option, none, some, List, [],
  ◌∷◌, ◌++◌, any, arith, In, inl, inr, Text, Bool-cases, if◌then◌else◌,
}
use talyvor_track.Harness.Disk.{Disk, put, unlink}
use talyvor_track.Harness.Process.{Process, proceed, write}
use talyvor_track.Harness.Guard.{
  Env, Checked, Control, Verdict, is_ok, is_named, verdict_of, Progress, Outcome, guard, probe,
  remove_probe, handle_signals, edit_of, judge_control, run_edit, run_controls, conclude, finish,
  from_baseline, begin, main_with,
}
use talyvor_track.Harness.Probed.{LeavesFiles, run_edit-disk}

-- The control does what it predicts: it has an edit, and on the tree with that edit the guard runs and
-- is red exactly if that is predicted, and then it names the control's rule.
pub record IsPredicted (env : Env) (d : Disk) (original : Text) (c : Control) : Type 0 where
  pub path : String
  pub text : Text
  pub edit : edit_of original c.payload ≡ some (path, text)
  pub verdict : (env.check (put path text (unlink probe d))).green ≡ some (not c.predict_red)
  pub rule :
      (not c.predict_red || is_named c.rule (env.check (put path text (unlink probe d))).out) ≡ true

abbrev bad : List (String × Verdict) → Bool
bad results = any (λ r. not (is_ok r.1)) results

bad-add :
    (rs : List (String × Verdict)) (name : String) (v : Verdict)
    → bad (rs ++ ((name, v) ∷ [])) ≡ (bad rs || not (is_ok v))
bad-add [] name v = ground arith
bad-add (r ∷ rs) name v = ground (arith, bad-add rs name v)

verdict_ok :
    (red predict_red named : Bool)
    → is_ok (verdict_of red predict_red named) ≡ true
    → (red ≡ predict_red) × ((not predict_red || named) ≡ true)
unfolding verdict_of
verdict_ok true true true h = (refl, refl)
verdict_ok false false named h = (refl, refl)
verdict_ok true true false h = absurd (cc)
verdict_ok true false named h = absurd (cc)
verdict_ok false true named h = absurd (cc)

not-flip : (a b : Bool) → not a ≡ b → a ≡ not b
not-flip a b h = ground arith

bad_last : (b : Bool) → (b || true) ≡ true
bad_last true = refl
bad_last false = refl

not_one : (n : ℕ) → n ≡ 1 → n ≡ 0 → ⊥
not_one n e h = omega arith

not_two : (n : ℕ) → n ≡ 2 → n ≡ 0 → ⊥
not_two n e h = omega arith

two_not_zero : ◌≡◌ {A = Option ℕ} (some 2) (some 0) → ⊥
two_not_zero h = not_two 2 refl (some-injective _ _ h)

status_clean : (b : Bool) → ◌≡◌ {A = Option ℕ} (some (if b then 1 else 0)) (some 0) → b ≡ false
status_clean true h = absurd (not_one 1 refl (some-injective _ _ h))
status_clean false h = refl

conclude-clean :
    (env : Env) (results : List (String × Verdict)) (green : Option Bool) (s : Process)
    → (conclude env results green s).status ≡ some 0
    → bad results ≡ false
unfolding conclude
conclude-clean env results none s h = absurd (cc)
conclude-clean env results (some green) s h =
    ground (arith, status_clean (bad results || not green) h)

either-status :
    (b : Bool) (o q : Outcome)
    → o.status ≡ none
    → (if b then o else q).status ≡ some 0
    → (b ≡ false) × (q.status ≡ some 0)
either-status true o q e h = absurd (cc (e, h))
either-status false o q e h = (refl, h)

module _ (env : Env) (d : Disk) (original : Text) where
  judge_control-bad :
      (c : Control) (green : Option Bool) (out : Text) (p : Progress)
      → bad (judge_control c original green out p).results ≡ false
      → bad p.results ≡ false
  unfolding judge_control
  judge_control-bad c none out p h = h
  judge_control-bad c (some passed) out p h = ground (
    arith,
    bad-add p.results c.name (verdict_of (not passed) c.predict_red (is_named c.rule out)),
  )

  judge_control-scored :
      (c : Control) (green : Option Bool) (out : Text) (p : Progress)
      → (judge_control c original green out p).raised ≡ false
      → bad (judge_control c original green out p).results ≡ false
      → (green ≡ some (not c.predict_red)) × ((not c.predict_red || is_named c.rule out) ≡ true)
  unfolding judge_control
  judge_control-scored c none out p r b = absurd (cc)
  judge_control-scored c (some passed) out p r b =
      let named = is_named c.rule out in
      let (red, rule) =
        verdict_ok (not passed) c.predict_red named (
          ground (arith, bad-add p.results c.name (verdict_of (not passed) c.predict_red named))) in
      (ap some (not-flip passed c.predict_red red), rule)

  run_edit-bad :
      (c : Control) (edit : Option (String × Text)) (p : Progress)
      → bad (run_edit env c original edit p).results ≡ false
      → bad p.results ≡ false
  unfolding run_edit
  run_edit-bad c none p h = ground (arith, bad-add p.results c.name Verdict.control_defect)
  run_edit-bad c (some (path, text)) p h =
      let mutated = write path text p.process in
      let checked = env.check mutated.now.disk in
      judge_control-bad c checked.green checked.out
        (record p { process = proceed checked.disk mutated }) h

  run_edit-IsPredicted :
      (c : Control) (edit : Option (String × Text)) (p : Progress)
      → edit_of original c.payload ≡ edit
      → p.process.now.disk ≡ unlink probe d
      → (run_edit env c original edit p).raised ≡ false
      → bad (run_edit env c original edit p).results ≡ false
      → IsPredicted env d original c
  unfolding run_edit write
  run_edit-IsPredicted c none p e same r b =
      absurd (cc (b, bad-add p.results c.name Verdict.control_defect, bad_last (bad p.results)))
  run_edit-IsPredicted c (some (path, text)) p e same r b =
      let mutated = write path text p.process in
      let checked = env.check (put path text p.process.now.disk) in
      let here : checked ≡ env.check (put path text (unlink probe d)) =
        ap (λ (x : Disk). env.check (put path text x)) same in
      let (verdict, rule) =
        judge_control-scored c checked.green checked.out
          (record p { process = proceed checked.disk mutated }) r b in
      record {
        path = path;
        text = text;
        edit = e;
        verdict = sym (ap (λ (k : Checked). k.green) here) ∙ verdict;
        rule = sym (ap (λ (k : Checked). not c.predict_red || is_named c.rule k.out) here) ∙ rule;
      }

  not_raised :
      (cs : List Control) (p : Progress)
      → (run_controls env original cs p).raised ≡ false
      → p.raised ≡ false
  unfolding run_controls
  not_raised [] p h = h
  not_raised (c ∷ cs) p h = elim (Bool-cases p.raised) [ inl e ↦ ground (arith, e) | inr e ↦ e ]

  run_controls-cons :
      (c : Control) (cs : List Control) (p : Progress)
      → p.raised ≡ false
      → run_controls env original (c ∷ cs) p
        ≡ run_controls env original cs (run_edit env c original (edit_of original c.payload) p)
  unfolding run_controls
  run_controls-cons c cs p e = rw e refl

  run_controls-bad :
      (cs : List Control) (p : Progress)
      → bad (run_controls env original cs p).results ≡ false
      → bad p.results ≡ false
  unfolding run_controls
  run_controls-bad [] p h = h
  run_controls-bad (c ∷ cs) p h = elim (Bool-cases p.raised) [
    | inl e ↦ ground (arith, e)
    | inr e ↦ run_edit-bad c (edit_of original c.payload) p (
        run_controls-bad cs (run_edit env c original (edit_of original c.payload) p)
          (ground (arith, e)))
  ]

  module _ (there : d guard ≡ some original) (files : LeavesFiles env) where
    run_controls-IsPredicted :
        (cs : List Control) (p : Progress)
        → p.process.now.disk ≡ unlink probe d
        → (run_controls env original cs p).raised ≡ false
        → bad (run_controls env original cs p).results ≡ false
        → (c : Control) → In c cs
        → IsPredicted env d original c
    run_controls-IsPredicted [] p same r b x q = absurd q
    run_controls-IsPredicted (c ∷ cs) p same r b x q =
        let edit = edit_of original c.payload in
        let next = run_edit env c original edit p in
        let e = run_controls-cons c cs p (not_raised (c ∷ cs) p r) in
        let r' = sym (ap (λ (o : Progress). o.raised) e) ∙ r in
        let b' = sym (ap (λ (o : Progress). bad o.results) e) ∙ b in
        elim q [
          | inl z ↦ subst (IsPredicted env d original) z (
              run_edit-IsPredicted c edit p refl same (not_raised cs next r')
                (run_controls-bad cs next b'))
          | inr z ↦
              run_controls-IsPredicted cs next
                (run_edit-disk env d original there files c edit p refl same) r' b' x z
        ]

    finish-clean :
        (p : Progress)
        → (finish env original p).status ≡ some 0
        → (p.raised ≡ false) × (bad p.results ≡ false)
    unfolding finish
    finish-clean p h =
        let back = remove_probe (write guard original p.process) in
        let checked = env.check back.now.disk in
        let (r, s) =
          either-status p.raised (record { status = none; results = p.results; process = back })
            (conclude env p.results checked.green (proceed checked.disk back)) refl h in
        (r, conclude-clean env p.results checked.green (proceed checked.disk back) s)

    from_baseline-IsPredicted :
        (cs : List Control) (green : Option Bool) (s : Process)
        → s.now.disk ≡ unlink probe d
        → (from_baseline env original cs green s).status ≡ some 0
        → (c : Control) → In c cs
        → IsPredicted env d original c
    unfolding from_baseline
    from_baseline-IsPredicted cs none s same h = absurd (cc)
    from_baseline-IsPredicted cs (some false) s same h = absurd (two_not_zero h)
    from_baseline-IsPredicted cs (some true) s same h =
        let (r, b) =
          finish-clean
            (run_controls env original cs (record { raised = false; results = []; process = s }))
            h in
        run_controls-IsPredicted cs (record { raised = false; results = []; process = s }) same r b

    begin-IsPredicted :
        (cs : List Control)
        → (begin env cs (some original) d).status ≡ some 0
        → (c : Control) → In c cs
        → IsPredicted env d original c
    unfolding begin handle_signals remove_probe
    begin-IsPredicted cs h =
        from_baseline-IsPredicted cs (env.check (unlink probe d)).green _ (files (unlink probe d)) h

-- If the guard script is there, its runs change no file, and the harness exits with 0, then every control
-- does what it predicts: it has an edit (for an edit of the guard, its needle stands there once), and on
-- the tree with that edit and no other probe the guard is red exactly if the control predicts it, and
-- where it is red a line of its output begins with the control's rule.
pub main-IsPredicted :
    (env : Env) (cs : List Control) (d : Disk) (original : Text)
    → d guard ≡ some original
    → LeavesFiles env
    → (main_with env cs d).status ≡ some 0
    → (c : Control) → In c cs
    → IsPredicted env d original c
unfolding main_with
main-IsPredicted env cs d original there files h =
    begin-IsPredicted env d original there files cs
      (sym (ap (λ x. (begin env cs x d).status) there) ∙ h)
