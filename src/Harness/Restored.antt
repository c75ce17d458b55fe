-- ===== src/Harness/Restored.antt =====
-- The catcher harness gives the tree back: at its end, and at any moment at which a signal comes.
use talyvor_track.Prelude.{
  ◌⊎◌, ap, String, ◌≡◌, refl, ◌∙◌, Bool, true, false, Option, none, some, List, [], ◌∷◌, arith, inl,
  inr, Text, codes, count, str_eq, Bool-cases, if◌then◌else◌, ◌==◌,
}
use mathlib.Core.Path.{subst, fun_ext}
use talyvor_track.Harness.Disk.{
  Disk, Snapshot, read_all, SameFiles, covers, SameElsewhere, TakenFrom, blob_of,
}
use talyvor_track.Harness.Process.{
  Process, Moment, left_behind, proceed, write_all, IsSignalSafe, IsGuarded, proceed-IsGuarded,
  write-IsGuarded, write_all-IsGuarded, start-IsGuarded, write_all-pristine, read_all-TakenFrom,
}
use talyvor_track.Harness.Catcher.{
  Env, Case, Progress, Verdict, campaign, guard_test, judge_case, mutate_case, run_case, try_case,
  step_case, run_cases, run_f5, score_f5, run_all, conclude, finish, from_baseline, begin,
  main_with,
}

covers-blob_of :
    (s : Snapshot) (p : String) (blob : Text) → blob_of s p ≡ some blob → covers s p ≡ true
unfolding blob_of covers
covers-blob_of [] p blob h = absurd (cc)
covers-blob_of ((j, b) ∷ s) p blob h = ground (arith, covers-blob_of s p blob)

-- The check changes no file but those two.
abbrev pub Contains : Env → Type 0
Contains env =
    (d : Disk) (q : String)
    → str_eq campaign q ≡ false
    → str_eq guard_test q ≡ false
    → (env.check d).disk q ≡ d q

module _ (env : Env) (originals : Snapshot) (pristine : Disk) (taken : TakenFrom pristine originals)
    (within : (d : Disk) → SameElsewhere originals (env.check d).disk d) where
  checked-IsGuarded :
      (s : Process)
      → IsGuarded originals pristine s
      → IsGuarded originals pristine (proceed (env.check s.now.disk).disk s)
  checked-IsGuarded s g =
      proceed-IsGuarded originals pristine taken (env.check s.now.disk).disk s
        (λ q h. within s.now.disk q h ∙ g.contained q h) g

  judge_case-IsGuarded :
      (c : Case) (original : Text) (green : Option Bool) (p : Progress)
      → covers originals c.path ≡ true
      → IsGuarded originals pristine p.process
      → IsGuarded originals pristine (judge_case env c original green p).process
  unfolding judge_case
  judge_case-IsGuarded c original none p k g =
      write-IsGuarded originals pristine taken c.path original p.process k g
  judge_case-IsGuarded c original (some passed) p k g =
      write-IsGuarded originals pristine taken c.path original p.process k g

  run_case-IsGuarded :
      (c : Case) (original : Text) (p : Progress)
      → covers originals c.path ≡ true
      → IsGuarded originals pristine p.process
      → IsGuarded originals pristine (run_case env c original p).process
  unfolding run_case mutate_case
  run_case-IsGuarded c original p k g = elim (Bool-cases (count (codes c.find) original == 1)) [
    | inl e ↦ rw e (
        judge_case-IsGuarded c original _ _ k
          (checked-IsGuarded _ (write-IsGuarded originals pristine taken c.path _ p.process k g)))
    | inr e ↦ rw e g
  ]

  try_case-IsGuarded :
      (c : Case) (blob : Option Text) (p : Progress)
      → blob_of originals c.path ≡ blob
      → IsGuarded originals pristine p.process
      → IsGuarded originals pristine (try_case env c blob p).process
  unfolding try_case
  try_case-IsGuarded c none p e g = g
  try_case-IsGuarded c (some original) p e g =
      run_case-IsGuarded c original p (covers-blob_of originals c.path original e) g

  either-IsGuarded :
      (b : Bool) (p q : Progress)
      → IsGuarded originals pristine p.process
      → IsGuarded originals pristine q.process
      → IsGuarded originals pristine (if b then p else q).process
  either-IsGuarded true p q g h = g
  either-IsGuarded false p q g h = h

  pub run_cases-IsGuarded :
      (cs : List Case) (p : Progress)
      → IsGuarded originals pristine p.process
      → IsGuarded originals pristine (run_cases env originals cs p).process
  unfolding run_cases step_case
  run_cases-IsGuarded [] p g = g
  run_cases-IsGuarded (c ∷ cs) p g = either-IsGuarded p.raised p _ g (
      run_cases-IsGuarded cs (try_case env c (blob_of originals c.path) p)
        (try_case-IsGuarded c (blob_of originals c.path) p refl g))

  score_f5-IsGuarded :
      (passed same : Option Bool) (p : Progress)
      → IsGuarded originals pristine p.process
      → IsGuarded originals pristine (score_f5 env passed same p).process
  unfolding score_f5
  score_f5-IsGuarded (some passed) (some same) p g = g
  score_f5-IsGuarded (some passed) none p g = g
  score_f5-IsGuarded none same p g = g

  run_all-IsGuarded :
      (cs : List Case) (p : Progress)
      → IsGuarded originals pristine p.process
      → IsGuarded originals pristine (run_all env originals cs p).process
  unfolding run_all run_f5
  run_all-IsGuarded cs p g = elim (Bool-cases (run_cases env originals cs p).raised) [
    | inl e ↦ rw e (run_cases-IsGuarded cs p g)
    | inr e ↦ rw e (
        score_f5-IsGuarded _ _ _
          (checked-IsGuarded (run_cases env originals cs p).process (run_cases-IsGuarded cs p g)))
  ]

  conclude-IsGuarded :
      (results : List (String × Verdict)) (green : Option Bool) (s : Process)
      → IsGuarded originals pristine s
      → IsGuarded originals pristine (conclude env results green s).process
  unfolding conclude
  conclude-IsGuarded results none s g = g
  conclude-IsGuarded results (some green) s g = g

  finish-IsGuarded :
      (p : Progress)
      → IsGuarded originals pristine p.process
      → IsGuarded originals pristine (finish env originals p).process
  unfolding finish
  finish-IsGuarded p g = elim (Bool-cases p.raised) [
    | inl e ↦ rw e back
    | inr e ↦
        rw e (
          conclude-IsGuarded p.results _ _ (checked-IsGuarded (write_all originals p.process) back))
  ]
    where
      back : IsGuarded originals pristine (write_all originals p.process)
      back = write_all-IsGuarded originals pristine taken originals p.process (λ q h. h) g

  from_baseline-IsGuarded :
      (cs : List Case) (green : Option Bool) (s : Process)
      → IsGuarded originals pristine s
      → IsGuarded originals pristine (from_baseline env originals cs green s).process
  unfolding from_baseline
  from_baseline-IsGuarded cs none s g = g
  from_baseline-IsGuarded cs (some false) s g = g
  from_baseline-IsGuarded cs (some true) s g =
      finish-IsGuarded _
        (run_all-IsGuarded cs (record { raised = false; results = []; process = s }) g)

-- What holds once the snapshot is taken holds of the run.
begin-IsGuarded :
    (env : Env) (cs : List Case) (s : Snapshot) (d : Disk)
    → TakenFrom d s
    → ((e : Disk) → SameElsewhere s (env.check e).disk e)
    → IsGuarded s d (begin env cs (some s) d).process
unfolding begin
begin-IsGuarded env cs s d taken within =
    from_baseline-IsGuarded env s d taken within cs _ _
      (proceed-IsGuarded s d taken (env.check d).disk _ (within d) (start-IsGuarded s d taken))

-- The two files are in the snapshot.
covers_two :
    (d : Disk) (s : Snapshot) (q : String)
    → read_all d (campaign ∷ guard_test ∷ []) ≡ some s
    → covers s q ≡ false
    → (str_eq campaign q ≡ false) × (str_eq guard_test q ≡ false)
unfolding read_all covers
covers_two d s q h c = ground arith

begin-safe :
    (env : Env) (cs : List Case) (s : Option Snapshot) (d : Disk)
    → Contains env
    → read_all d (campaign ∷ guard_test ∷ []) ≡ s
    → IsSignalSafe d (begin env cs s d).process
begin-safe env cs none d c h =
    unfold begin in
    λ m q. elim q [
      | inl e ↦ subst (λ (x : Moment). SameFiles (left_behind x) d) e (λ p. refl)
      | inr z ↦ absurd z
    ]
begin-safe env cs (some s) d c h =
    (begin-IsGuarded env cs s d (read_all-TakenFrom d _ s h)
      (λ e q k. let (a, b) = covers_two d s q h k in c e q a b)).safe

-- Whatever the cases are, and whatever the check answers or raises: if the check changes no file but
-- the two that the harness snapshots, then a signal at any moment of the run, from the first
-- statement to the last, leaves every file as it was before the run.
pub main-IsSignalSafe :
    (env : Env) (cs : List Case) (d : Disk)
    → Contains env
    → IsSignalSafe d (main_with env cs d).process
unfolding main_with
main-IsSignalSafe env cs d c = begin-safe env cs (read_all d (campaign ∷ guard_test ∷ [])) d c refl

-- The check changes no file.
abbrev pub IsReadOnly : Env → Type 0
IsReadOnly env = (d : Disk) → SameFiles (env.check d).disk d

conclude-disk :
    (env : Env) (results : List (String × Verdict)) (green : Option Bool) (s : Process)
    → (conclude env results green s).process ≡ s
unfolding conclude
conclude-disk env results none s = refl
conclude-disk env results (some green) s = refl

finish-disk :
    (env : Env) (s : Snapshot) (d : Disk) (p : Progress)
    → SameFiles (write_all s p.process).now.disk d
    → SameFiles (finish env s p).process.now.disk d
      ⊎ SameFiles (finish env s p).process.now.disk (env.check d).disk
unfolding finish
finish-disk env s d p h = elim (Bool-cases p.raised) [
  | inl e ↦ rw e (inl h)
  | inr e ↦ rw (e, conclude-disk) (inr (λ q. ap (λ (x : Disk). (env.check x).disk q) (fun_ext h)))
]

module _ (env : Env) (d : Disk) (s : Snapshot)
    (within : (e : Disk) → SameElsewhere s (env.check e).disk e) (taken : TakenFrom d s) where
  from_baseline-disk :
      (cs : List Case) (green : Option Bool) (p : Process)
      → SameFiles p.now.disk (env.check d).disk
      → IsGuarded s d p
      → SameFiles (from_baseline env s cs green p).process.now.disk d
        ⊎ SameFiles (from_baseline env s cs green p).process.now.disk (env.check d).disk
  unfolding from_baseline
  from_baseline-disk cs none p h g = inr h
  from_baseline-disk cs (some false) p h g = inr h
  from_baseline-disk cs (some true) p h g = finish-disk env s d _ (
      write_all-pristine s d _ taken (
        run_all-IsGuarded env s d taken within cs
          (record { raised = false; results = []; process = p }) g))

begin-disk :
    (env : Env) (cs : List Case) (s : Option Snapshot) (d : Disk)
    → Contains env
    → read_all d (campaign ∷ guard_test ∷ []) ≡ s
    → SameFiles (begin env cs s d).process.now.disk d
      ⊎ SameFiles (begin env cs s d).process.now.disk (env.check d).disk
unfolding begin
begin-disk env cs none d c h = inl (λ q. refl)
begin-disk env cs (some s) d c h =
    let taken = read_all-TakenFrom d (campaign ∷ guard_test ∷ []) s h in
    let within : (e : Disk) → SameElsewhere s (env.check e).disk e =
      λ e q k. let (a, b) = covers_two d s q h k in c e q a b in
    from_baseline-disk env d s within taken cs _ _ (λ q. refl)
      (proceed-IsGuarded s d taken (env.check d).disk _ (within d) (start-IsGuarded s d taken))

-- If the check changes no file but the two that the harness snapshots, the run ends with every file as it
-- found it, or as one run of the check leaves what it found: nothing is left of what the controls write
-- or of what the checks between them do, where a file is missing, the baseline is red, a control lands
-- nowhere, a check raises in the middle of a mutation, or F5 finds that the check changed the tree.
pub main-pristine :
    (env : Env) (cs : List Case) (d : Disk)
    → Contains env
    → SameFiles (main_with env cs d).process.now.disk d
      ⊎ SameFiles (main_with env cs d).process.now.disk (env.check d).disk
unfolding main_with
main-pristine env cs d c = begin-disk env cs (read_all d (campaign ∷ guard_test ∷ [])) d c refl
