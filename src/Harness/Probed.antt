-- ===== src/Harness/Probed.antt =====
-- What the harness of the signal guard leaves of its probe and of the guard.
use mathlib.Core.Path.{subst, fun_ext}
use mathlib.Core.Option.{some-injective}
use talyvor_track.Prelude.{
  String, ◌≡◌, refl, sym, ap, ◌∙◌, Bool, true, false, ◌||◌, Option, none, some, List, [], ◌∷◌,
  arith, Text, codes, count, str_eq, eq_iff, Bool-cases, inl, inr, if◌then◌else◌, ◌==◌,
}
use talyvor_track.Harness.Disk.{Disk, put, unlink}
use talyvor_track.Harness.Process.{Process, proceed, write}
use talyvor_track.Harness.Guard.{
  Env, Control, Payload, probe_script, guard_edit, Progress, Verdict, Outcome, guard, probe,
  remove_probe, handle_signals, edit_of, put_back, judge_control, run_edit, run_controls, conclude,
  finish, from_baseline, begin, main_with,
}

-- The guard under test changes no file.
abbrev pub LeavesFiles : Env → Type 0
LeavesFiles env = (d : Disk) → (env.check d).disk ≡ d

abbrev IsOurs : String → Type 0
IsOurs p = (str_eq guard p || str_eq probe p) ≡ true

true_not_false : ◌≡◌ {A = Bool} true false → ⊥
true_not_false h = absurd (cc)

guard_not_probe : (q : String) → str_eq guard q ≡ true → str_eq probe q ≡ false
guard_not_probe q h = elim (Bool-cases (str_eq probe q)) [
  | inl e ↦
      absurd
        (true_not_false (ap (str_eq guard) ((eq_iff guard q).0 h ∙ sym ((eq_iff probe q).0 e))))
  | inr e ↦ e
]

put-unlink :
    (p : String) (text original : Text) (d : Disk)
    → IsOurs p
    → d guard ≡ some original
    → put guard original (unlink probe (put p text (unlink probe d))) ≡ unlink probe d
unfolding put unlink
put-unlink p text original d ours there = fun_ext λ q. elim (Bool-cases (str_eq guard q)) [
  | inl e ↦ ground (arith, there, eq_iff guard q, guard_not_probe q e)
  | inr e ↦ ground (arith, eq_iff guard p, eq_iff probe p, eq_iff p q, eq_iff probe q)
]

unlink-twice :
    (original : Text) (d : Disk)
    → d guard ≡ some original
    → put guard original (unlink probe (unlink probe d)) ≡ unlink probe d
unfolding put unlink
unlink-twice original d there = fun_ext λ q. elim (Bool-cases (str_eq guard q)) [
  | inl e ↦ ground (arith, there, eq_iff guard q, guard_not_probe q e)
  | inr e ↦ ground arith
]

unlink-last :
    (original : Text) (d : Disk)
    → d guard ≡ some original
    → unlink probe (put guard original (unlink probe d)) ≡ unlink probe d
unfolding put unlink
unlink-last original d there = fun_ext λ q. elim (Bool-cases (str_eq guard q)) [
  | inl e ↦ ground (arith, there, eq_iff guard q, guard_not_probe q e)
  | inr e ↦ ground arith
]

either-edit :
    (b : Bool) (x : String × Text) (p : String) (text : Text)
    → IsOurs (x.0)
    → (if b then some x else none) ≡ some (p, text)
    → IsOurs p
either-edit true x p text h e =
    subst IsOurs (ap (λ (y : String × Text). y.0) (some-injective x (p, text) e)) h
either-edit false x p text h e = absurd (cc)

edit_of-IsOurs :
    (original : Text) (payload : Payload) (p : String) (text : Text)
    → edit_of original payload ≡ some (p, text)
    → IsOurs p
unfolding edit_of
edit_of-IsOurs original (probe_script script) p text h =
    either-edit true (probe, codes script) p text refl h
edit_of-IsOurs original (guard_edit find repl) p text h =
    either-edit (count (codes find) original == 1) (guard, _) p text refl h

module _ (env : Env) (d : Disk) (original : Text) (there : d guard ≡ some original)
    (ro : LeavesFiles env) where
  judge_control-disk :
      (c : Control) (green : Option Bool) (out : Text) (p : Progress)
      → (judge_control c original green out p).process.now.disk
        ≡ put guard original (unlink probe p.process.now.disk)
  unfolding judge_control put_back write remove_probe
  judge_control-disk c none out p = refl
  judge_control-disk c (some passed) out p = refl

  pub run_edit-disk :
      (c : Control) (edit : Option (String × Text)) (p : Progress)
      → edit_of original c.payload ≡ edit
      → p.process.now.disk ≡ unlink probe d
      → (run_edit env c original edit p).process.now.disk ≡ unlink probe d
  unfolding run_edit put_back write remove_probe
  run_edit-disk c none p e h =
      ap (λ (x : Disk). put guard original (unlink probe x)) h ∙ unlink-twice original d there
  run_edit-disk c (some (path, text)) p e h =
      let mutated = write path text p.process in
      let checked = env.check mutated.now.disk in
      judge_control-disk c checked.green checked.out
        (record p { process = proceed checked.disk mutated })
      ∙ ap (λ (x : Disk). put guard original (unlink probe x))
          (ro mutated.now.disk ∙ ap (put path text) h)
      ∙ put-unlink path text original d (edit_of-IsOurs original c.payload path text e) there

  either-disk :
      (b : Bool) (p q : Progress) (e : Disk)
      → p.process.now.disk ≡ e
      → q.process.now.disk ≡ e
      → (if b then p else q).process.now.disk ≡ e
  either-disk true p q e h k = h
  either-disk false p q e h k = k

  run_controls-disk :
      (cs : List Control) (p : Progress)
      → p.process.now.disk ≡ unlink probe d
      → (run_controls env original cs p).process.now.disk ≡ unlink probe d
  unfolding run_controls
  run_controls-disk [] p h = h
  run_controls-disk (c ∷ cs) p h = either-disk p.raised p _ (unlink probe d) h (
      run_controls-disk cs (run_edit env c original (edit_of original c.payload) p)
        (run_edit-disk c (edit_of original c.payload) p refl h))

  conclude-disk :
      (results : List (String × Verdict)) (green : Option Bool) (s : Process)
      → (conclude env results green s).process ≡ s
  unfolding conclude
  conclude-disk results none s = refl
  conclude-disk results (some green) s = refl

  either-outcome :
      (b : Bool) (o q : Outcome) (e : Disk)
      → o.process.now.disk ≡ e
      → q.process.now.disk ≡ e
      → (if b then o else q).process.now.disk ≡ e
  either-outcome true o q e h k = h
  either-outcome false o q e h k = k

  finish-disk :
      (p : Progress)
      → p.process.now.disk ≡ unlink probe d
      → (finish env original p).process.now.disk ≡ unlink probe d
  unfolding finish write remove_probe
  finish-disk p h =
      let back = remove_probe (write guard original p.process) in
      let checked = env.check back.now.disk in
      let e : back.now.disk ≡ unlink probe d =
        ap (λ (x : Disk). unlink probe (put guard original x)) h ∙ unlink-last original d there in
      either-outcome p.raised (record { status = none; results = p.results; process = back })
        (conclude env p.results checked.green (proceed checked.disk back)) (unlink probe d) e
        (ap (λ (s : Process). s.now.disk)
            (conclude-disk p.results checked.green (proceed checked.disk back))
          ∙ ro back.now.disk
          ∙ e)

  from_baseline-disk :
      (cs : List Control) (green : Option Bool) (s : Process)
      → s.now.disk ≡ unlink probe d
      → (from_baseline env original cs green s).process.now.disk ≡ unlink probe d
  unfolding from_baseline
  from_baseline-disk cs none s h = h
  from_baseline-disk cs (some false) s h = h
  from_baseline-disk cs (some true) s h =
      finish-disk
        (run_controls env original cs (record { raised = false; results = []; process = s }))
        (run_controls-disk cs (record { raised = false; results = []; process = s }) h)

  begin-disk :
      (cs : List Control) → (begin env cs (some original) d).process.now.disk ≡ unlink probe d
  unfolding begin handle_signals remove_probe
  begin-disk cs = from_baseline-disk cs (env.check (unlink probe d)).green _ (ro (unlink probe d))

-- If the runs of the guard change no file and no signal ends it, then the harness, over any table of
-- controls, ends with the disk that it found, less the probe where the guard script is there: also where
-- the baseline is red, a needle is not found once, or a run of the guard raises in the middle of a control.
pub main-unlinked :
    (env : Env) (cs : List Control) (d : Disk)
    → LeavesFiles env
    → (main_with env cs d).process.now.disk
      ≡ (elim (d guard) [ none ↦ d | some x ↦ unlink probe d ])
unfolding main_with
main-unlinked env cs d ro = either (d guard) refl
  where
    either :
        (o : Option Text)
        → d guard ≡ o
        → (begin env cs o d).process.now.disk ≡ (elim o [ none ↦ d | some x ↦ unlink probe d ])
    either none h = unfold begin in refl
    either (some original) h = begin-disk env d original h ro cs
