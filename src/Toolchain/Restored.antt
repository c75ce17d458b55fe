-- ===== src/Toolchain/Restored.antt =====
-- The toolchain campaign gives the tree back: at its end, and at any moment at which a signal comes. Its
-- handler is installed anew for each control, over the file of that control only.
use talyvor_track.Prelude.{
  String, ◌≡◌, refl, sym, ap, ◌∙◌, Bool, true, false, Option, none, some, List, [], ◌∷◌, arith, inl,
  inr, Text, str_eq, eq_iff, Bool-cases, if◌then◌else◌,
}
use mathlib.Core.Path.{subst, fun_ext}
use talyvor_track.Harness.Disk.{Disk, put, Snapshot, SameFiles, covers, TakenFrom}
use talyvor_track.Harness.Process.{
  Process, Moment, left_behind, proceed, write, restore_on_signal, start, IsSignalSafe, IsGuarded,
  proceed-IsGuarded, write-IsGuarded, restore-pristine,
}
use talyvor_track.Toolchain.Anchors.{Control, anchored}
use talyvor_track.Toolchain.Runner.{
  Env, Progress, Outcome, command, baseline_tests, name_of, is_named, run, run_on, finally,
  judge_green, judge_red, judge_still, judge, try_mutated, run_control, run_controls, hashes, close,
  finish, from_baseline, from_hashes, campaign_with,
}

-- The tests change no file.
abbrev pub IsReadOnly : Env → Type 0
IsReadOnly env = (args : List String) (d : Disk) → (env.go args d).disk ≡ d

-- The tree is as it was, and so a signal would have left it until now.
pub record IsQuiet (pristine : Disk) (s : Process) : Type 0 where
  pub files : s.now.disk ≡ pristine
  pub safe : IsSignalSafe pristine s

pub start-IsQuiet : (d : Disk) → IsQuiet d (start d)
start-IsQuiet d = record {
  files = refl;
  safe = λ m q. elim q [
    | inl e ↦ subst (λ (x : Moment). SameFiles (left_behind x) d) e (λ p. refl)
    | inr z ↦ absurd z
  ];
}

-- A moment like the last one.
repeat-safe :
    (pristine e : Disk) (s : Process)
    → s.now.disk ≡ e
    → IsSignalSafe pristine s
    → IsSignalSafe pristine (proceed e s)
repeat-safe pristine e s same safe = λ m q. elim q [
  | inl k ↦
      subst (λ (x : Moment). SameFiles (left_behind x) pristine) k
        (subst (λ (x : Disk). SameFiles (s.now.on_signal x) pristine) same (safe s.now (inl refl)))
  | inr z ↦ safe m z
]

-- A new handler, over files that the tree still holds.
install-IsGuarded :
    (snapshot : Snapshot) (pristine : Disk) (s : Process)
    → TakenFrom pristine snapshot
    → IsQuiet pristine s
    → IsGuarded snapshot pristine (restore_on_signal snapshot s)
unfolding restore_on_signal
install-IsGuarded snapshot pristine s taken i = record {
  installed = refl;
  contained = λ q h. ap (λ (x : Disk). x q) i.files;
  safe = λ m q. elim q [
    | inl e ↦
        subst (λ (x : Moment). SameFiles (left_behind x) pristine) e
          (restore-pristine snapshot s.now.disk pristine taken
            (λ r h. ap (λ (x : Disk). x r) i.files))
    | inr z ↦ i.safe m z
  ];
}

module _ (env : Env) (pristine : Disk) (ro : IsReadOnly env) where
  pub run_on-IsQuiet :
      (test : String) (s : Process) → IsQuiet pristine s → IsQuiet pristine (run_on env test s)
  unfolding run_on
  run_on-IsQuiet test s i = record {
    files = ro (command test) s.now.disk ∙ i.files;
    safe =
        repeat-safe pristine (env.go (command test) s.now.disk).disk s
          (sym (ro (command test) s.now.disk)) i.safe;
  }

  module _ (c : Control) (backup : Text) (there : pristine c.path ≡ some backup) where
    abbrev own : Snapshot
    own = (c.path, backup) ∷ []

    abbrev Guarded : Progress → Type 0
    Guarded p = IsGuarded own pristine p.process

    run_on-IsGuarded :
        (test : String) (s : Process)
        → IsGuarded own pristine s
        → IsGuarded own pristine (run_on env test s)
    unfolding run_on
    run_on-IsGuarded test s g =
        proceed-IsGuarded own pristine (there, tt) (env.go (command test) s.now.disk).disk s
          (λ q h. ap (λ (x : Disk). x q) (ro (command test) s.now.disk) ∙ g.contained q h) g

    judge_green-Guarded :
        (red_ok : Bool) (green_ok : Option Bool) (p : Progress)
        → Guarded p
        → Guarded (judge_green env red_ok green_ok p)
    unfolding judge_green
    judge_green-Guarded red_ok none p g = g
    judge_green-Guarded red_ok (some green_ok) p g = g

    either-Guarded :
        (b : Bool) (p q : Progress) → Guarded p → Guarded q → Guarded (if b then p else q)
    either-Guarded true p q g h = g
    either-Guarded false p q g h = h

    judge_red-Guarded :
        (red_ok : Option Bool) (p : Progress) → Guarded p → Guarded (judge_red env c red_ok p)
    unfolding judge_red
    judge_red-Guarded none p g = g
    judge_red-Guarded (some red_ok) p g =
        either-Guarded (is_named c.green) _ _
          (judge_green-Guarded red_ok (run env (name_of c.green) p.process)
            (record p { process = run_on env (name_of c.green) p.process })
            (run_on-IsGuarded (name_of c.green) p.process g))
          (judge_green-Guarded red_ok (some true) p g)

    judge_still-Guarded :
        (green_ok : Option Bool) (p : Progress) → Guarded p → Guarded (judge_still env green_ok p)
    unfolding judge_still
    judge_still-Guarded none p g = g
    judge_still-Guarded (some green_ok) p g = g

    judge-Guarded : (red : Option String) (p : Progress) → Guarded p → Guarded (judge env c red p)
    unfolding judge
    judge-Guarded none p g =
        judge_still-Guarded (run env (name_of c.green) p.process)
          (record p { process = run_on env (name_of c.green) p.process })
          (run_on-IsGuarded (name_of c.green) p.process g)
    judge-Guarded (some red) p g =
        judge_red-Guarded (run env red p.process) (record p { process = run_on env red p.process })
          (run_on-IsGuarded red p.process g)

    own-covers : covers own c.path ≡ true
    unfolding covers
    own-covers = ground (arith, eq_iff c.path c.path)

    try_mutated-Guarded :
        (text : Option Text) (p : Progress) → Guarded p → Guarded (try_mutated env c text p)
    unfolding try_mutated
    try_mutated-Guarded none p g = g
    try_mutated-Guarded (some text) p g =
        judge-Guarded c.red (record p { process = write c.path text p.process })
          (write-IsGuarded own pristine (there, tt) c.path text p.process own-covers g)

    -- After the `finally` the tree is as it was.
    finally-IsQuiet : (p : Progress) → Guarded p → IsQuiet pristine (finally env c backup p).process
    unfolding finally
    finally-IsQuiet p g = record {
      files =
          unfold write put in
          fun_ext λ q. elim (Bool-cases (str_eq c.path q)) [
            | inl e ↦ rw e (sym there ∙ ap pristine ((eq_iff c.path q).0 e))
            | inr e ↦ rw e (g.contained q (unfold covers in rw e refl))
          ];
      safe = (write-IsGuarded own pristine (there, tt) c.path backup p.process own-covers g).safe;
    }

  pub run_control-IsQuiet :
      (c : Control) (file : Option Text) (p : Progress)
      → pristine c.path ≡ file
      → IsQuiet pristine p.process
      → IsQuiet pristine (run_control env c file p).process
  unfolding run_control
  run_control-IsQuiet c none p e i = i
  run_control-IsQuiet c (some backup) p e i =
      let installed = record p { process = restore_on_signal ((c.path, backup) ∷ []) p.process } in
      finally-IsQuiet c backup e (try_mutated env c (anchored c.anchor c.expect backup) installed) (
        try_mutated-Guarded c backup e (anchored c.anchor c.expect backup) installed
          (install-IsGuarded ((c.path, backup) ∷ []) pristine p.process (e, tt) i))

  either-IsQuiet :
      (b : Bool) (p q : Progress)
      → IsQuiet pristine p.process
      → IsQuiet pristine q.process
      → IsQuiet pristine (if b then p else q).process
  either-IsQuiet true p q i j = i
  either-IsQuiet false p q i j = j

  pub run_controls-IsQuiet :
      (cs : List Control) (p : Progress)
      → IsQuiet pristine p.process
      → IsQuiet pristine (run_controls env cs p).process
  unfolding run_controls
  run_controls-IsQuiet [] p i = i
  run_controls-IsQuiet (c ∷ cs) p i = either-IsQuiet p.raised p _ i (
      run_controls-IsQuiet cs (run_control env c (p.process.now.disk c.path) p) (
        run_control-IsQuiet c (p.process.now.disk c.path) p
          (sym (ap (λ (x : Disk). x c.path) i.files)) i))

  close-IsQuiet :
      (before : List String) (after : Option (List String)) (p : Progress)
      → IsQuiet pristine p.process
      → IsQuiet pristine (close env before after p).process
  unfolding close
  close-IsQuiet before none p i = i
  close-IsQuiet before (some after) p i = run_on-IsQuiet baseline_tests p.process i

  either-outcome :
      (b : Bool) (o q : Outcome)
      → IsQuiet pristine o.process
      → IsQuiet pristine q.process
      → IsQuiet pristine (if b then o else q).process
  either-outcome true o q i j = i
  either-outcome false o q i j = j

  from_baseline-IsQuiet :
      (files : List String) (cs : List Control) (before : List String) (green : Option Bool)
      (s : Process)
      → IsQuiet pristine s
      → IsQuiet pristine (from_baseline env files cs before green s).process
  unfolding from_baseline finish
  from_baseline-IsQuiet files cs before none s i = i
  from_baseline-IsQuiet files cs before (some false) s i = i
  from_baseline-IsQuiet files cs before (some true) s i =
      let p = run_controls env cs (record { raised = false; results = []; process = s }) in
      let quiet =
        run_controls-IsQuiet cs (record { raised = false; results = []; process = s }) i in
      either-outcome p.raised (record { status = none; results = p.results; process = p.process })
        (close env before (hashes env p.process.now.disk files) p) quiet
        (close-IsQuiet before (hashes env p.process.now.disk files) p quiet)

  from_hashes-IsQuiet :
      (files : List String) (cs : List Control) (before : Option (List String))
      → IsQuiet pristine (from_hashes env files cs before pristine).process
  unfolding from_hashes
  from_hashes-IsQuiet files cs none = start-IsQuiet pristine
  from_hashes-IsQuiet files cs (some before) =
      from_baseline-IsQuiet files cs before (run env baseline_tests (start pristine))
        (run_on env baseline_tests (start pristine))
        (run_on-IsQuiet baseline_tests (start pristine) (start-IsQuiet pristine))

-- If the tests change no file, then the campaign over any table of controls ends with the tree that it
-- found, and a signal at any moment of it, before, between and in the controls, leaves every file as it
-- was: also where a file is missing, an anchor does not apply, or starting a test raises.
pub campaign-IsQuiet :
    (env : Env) (files : List String) (cs : List Control) (d : Disk)
    → IsReadOnly env
    → IsQuiet d (campaign_with env files cs d).process
unfolding campaign_with
campaign-IsQuiet env files cs d ro = from_hashes-IsQuiet env d ro files cs (hashes env d files)
