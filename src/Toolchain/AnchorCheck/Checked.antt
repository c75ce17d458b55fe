-- ===== src/Toolchain/AnchorCheck/Checked.antt =====
-- The run of the anchor-check controls, from its start to an exit status of 0.
use talyvor_track.Prelude.{
  ◌≡◌, refl, sym, ap, ◌∙◌, Bool, true, false, Option, none, some, List, [], ◌∷◌, In, inl, inr, Text,
  Bool-cases, if◌then◌else◌, String, codes,
}
use mathlib.Core.Path.{subst, fun_ext}
use mathlib.Core.Option.{some-injective}
use talyvor_track.Harness.Disk.{Disk, Snapshot, TakenFrom, read_all, blob_of}
use talyvor_track.Harness.Process.{
  Process, proceed, write_all, restore_on_signal, start, read_all-TakenFrom,
}
use talyvor_track.Harness.Catcher
use talyvor_track.Harness.Restored.{IsReadOnly}
use talyvor_track.Harness.Cases.{
  Behaves, one_not_zero, two_not_zero, blob_of-TakenFrom, run_cases-Behaves,
}
use talyvor_track.Toolchain.Table.{ci}
use talyvor_track.Toolchain.Pins.{Span, span, apply_pin}
use talyvor_track.Toolchain.Pinned.{quote, lacks}
use talyvor_track.Toolchain.Undone.{IsUndone, apply_pin-IsUndone}
use talyvor_track.Toolchain.AnchorCheck.{
  JobPin, Env, Found, load_jobpin, pins_by_job, is_usable, moved, jobs,
}
use talyvor_track.Toolchain.AnchorCheck.Runs.{
  Verdict, Progress, Outcome, run_b7, run_cases, run_b5, run_b6, and_then, run_all, conclude,
  finish, from_baseline, begin, main_with, pins_after,
}
use talyvor_track.Toolchain.AnchorCheck.Scored.{
  unfit, IsClean, IsTargeted, run_b7-IsClean, run_b7-disk, run_b5-IsClean, run_b6-IsClean,
  and_then-IsClean, run_cases-IsClean,
}

-- The class was loaded, it finds and changes each job's own pin, and every case behaves.
pub record IsChecked (env : Env) (cs : List Catcher.Case) (d : Disk) : Type 0 where
  pub jobpin : JobPin
  pub loaded : load_jobpin env (d Catcher.campaign) ≡ some jobpin
  pub source : Text
  pub there : d ci ≡ some source
  pub targeted : IsTargeted jobpin source
  pub behaves : (c : Catcher.Case) → In c cs → Behaves env.base d c

module _ (env : Env) (d : Disk) (ro : IsReadOnly env.base) (jp : JobPin)
    (loaded : load_jobpin env (d Catcher.campaign) ≡ some jp) (originals : Snapshot)
    (taken : TakenFrom d originals) (cs : List Catcher.Case) where
  run_all-IsChecked :
      (p : Progress)
      → p.process.now.disk ≡ d
      → IsClean (run_all env jp originals cs p)
      → IsChecked env cs d
  unfolding run_all
  run_all-IsChecked p same c =
      let b7 = run_b7 jp (blob_of originals ci) p in
      let done = and_then env (run_cases env originals cs) b7 in
      let tested = and_then-IsClean env d (run_b6 env) (and_then env (run_b5 env) done) c in
      let quiet =
        and_then-IsClean env d (run_b5 env) done
          (run_b6-IsClean env d (and_then env (run_b5 env) done) tested.1) in
      let cased =
        and_then-IsClean env d (run_cases env originals cs) b7
          (run_b5-IsClean env d done quiet.1) in
      let (unfit_before, r, b) = run_cases-IsClean env d originals cs b7 cased.1 in
      let (before, (source, there, targeted)) =
        run_b7-IsClean jp (blob_of originals ci) p (cased.0, unfit_before) in
      record {
        jobpin = jp;
        loaded = loaded;
        source = source;
        there = blob_of-TakenFrom originals d ci source taken there;
        targeted = targeted;
        behaves =
            run_cases-Behaves env.base d ro originals taken cs
              (record { raised = false; results = []; process = b7.process })
              (ap (λ (s : Process). s.now.disk) (run_b7-disk jp (blob_of originals ci) p) ∙ same) r
              b;
      }

  conclude-fit :
      (results : List Verdict) (green : Option Bool) (s : Process)
      → (conclude env results green s).status ≡ some 0
      → unfit results ≡ false
  unfolding conclude
  conclude-fit results none s h = absurd (cc)
  conclude-fit results (some green) s h = elim (Bool-cases (unfit results)) [
    | inl e ↦ absurd (one_not_zero (some-injective _ _ (sym (rw e refl) ∙ h)))
    | inr e ↦ e
  ]

  either-status :
      (b : Bool) (o q : Outcome)
      → o.status ≡ none
      → (if b then o else q).status ≡ some 0
      → (b ≡ false) × (q.status ≡ some 0)
  either-status true o q e h = absurd (cc)
  either-status false o q e h = (refl, h)

  finish-IsClean : (p : Progress) → (finish env originals p).status ≡ some 0 → IsClean p
  unfolding finish
  finish-IsClean p h =
      let back = write_all originals p.process in
      let checked = env.base.check back.now.disk in
      let (r, s) =
        either-status p.raised (record { status = none; results = p.results; process = back })
          (conclude env p.results checked.green (proceed checked.disk back)) refl h in
      (r, conclude-fit p.results checked.green (proceed checked.disk back) s)

  from_baseline-IsChecked :
      (green : Option Bool) (s : Process)
      → s.now.disk ≡ d
      → (from_baseline env jp originals cs green s).status ≡ some 0
      → IsChecked env cs d
  unfolding from_baseline
  from_baseline-IsChecked none s same h = absurd (cc)
  from_baseline-IsChecked (some false) s same h = absurd (two_not_zero (some-injective _ _ h))
  from_baseline-IsChecked (some true) s same h =
      let first : Progress = record { raised = false; results = []; process = s } in
      run_all-IsChecked first same (finish-IsClean (run_all env jp originals cs first) h)

begin-IsChecked :
    (env : Env) (jp : Option JobPin) (cs : List Catcher.Case) (s : Option Snapshot) (d : Disk)
    → IsReadOnly env.base
    → load_jobpin env (d Catcher.campaign) ≡ jp
    → read_all d (ci ∷ Catcher.campaign ∷ []) ≡ s
    → (begin env jp cs s d).status ≡ some 0
    → IsChecked env cs d
unfolding begin restore_on_signal
begin-IsChecked env none cs s d ro l e h = absurd (cc)
begin-IsChecked env (some jp) cs none d ro l e h = absurd (cc)
begin-IsChecked env (some jp) cs (some s) d ro l e h =
    from_baseline-IsChecked env d ro jp l s (read_all-TakenFrom d (ci ∷ Catcher.campaign ∷ []) s e)
      cs (env.base.check d).green (proceed (env.base.check d).disk (restore_on_signal s (start d)))
      (fun_ext (ro d)) h

-- If the check changes no file and the controls exit with 0, then the class that stands in the campaign was
-- loaded, in ci.yaml the jobs each have one pin and all the same, applying the class to any one of them
-- changes the pin of that job and of no other, and every case behaves: its needle stands once in its
-- file, and on the tree with that edit the check is red exactly if that is predicted.
pub main-IsChecked :
    (env : Env) (cs : List Catcher.Case) (d : Disk)
    → IsReadOnly env.base
    → (main_with env cs d).status ≡ some 0
    → IsChecked env cs d
unfolding main_with
main-IsChecked env cs d ro h =
    begin-IsChecked env (load_jobpin env (d Catcher.campaign)) cs
      (read_all d (ci ∷ Catcher.campaign ∷ [])) d ro refl refl h

abbrev block_of : Option Span → Option Text
block_of none = none
block_of (some p) = some p.block

-- The campaign's own class.
abbrev pub modelled : JobPin
modelled = record { block = λ job text. block_of (span job text); apply = apply_pin }

-- What a job's new pin is: the text differs in that job's version alone, and the pins of the other jobs are
-- as they were.
pub record IsOwn (base : List (String × Found)) (source : Text) (job : String) : Type 0 where
  pub text : Text
  pub applied : apply_pin job (codes "9.99") source ≡ some text
  pub undone : IsUndone job (codes "9.99") source text
  pub after : List (String × Found)
  pub pins : pins_by_job modelled jobs text ≡ some after
  pub only : moved base after ≡ job ∷ []

-- Every job has one pin and all the same, each is changed alone, and every case behaves.
pub record IsTried (env : Env) (cs : List Catcher.Case) (d : Disk) : Type 0 where
  pub source : Text
  pub there : d ci ≡ some source
  pub base : List (String × Found)
  pub before : pins_by_job modelled jobs source ≡ some base
  pub usable : is_usable base ≡ true
  pub own : (job : String) → In job jobs → IsOwn base source job
  pub behaves : (c : Catcher.Case) → In c cs → Behaves env.base d c

unquoted : (job : String) → In job jobs → lacks quote (codes job) ≡ true
unquoted job q = elim q [
  | inl e ↦ subst (λ (j : String). lacks quote (codes j) ≡ true) e refl
  | inr r ↦ elim r [
    | inl e ↦ subst (λ (j : String). lacks quote (codes j) ≡ true) e refl
    | inr t ↦ elim t [
      | inl e ↦ subst (λ (j : String). lacks quote (codes j) ≡ true) e refl
      | inr a ↦ absurd a
    ]
  ]
]

IsOwn-of_pins :
    (base : List (String × Found)) (source : Text) (job : String) (applied : Option Text)
    (after : List (String × Found))
    → In job jobs
    → apply_pin job (codes "9.99") source ≡ applied
    → pins_after modelled applied ≡ some after
    → moved base after ≡ job ∷ []
    → IsOwn base source job
unfolding pins_after
IsOwn-of_pins base source job none after q e h m = absurd (cc)
IsOwn-of_pins base source job (some text) after q e h m = record {
  text = text;
  applied = e;
  undone = apply_pin-IsUndone job (codes "9.99") source text (unquoted job q) (refl, refl, refl) e;
  after = after;
  pins = h;
  only = m;
}

-- If the check changes no file, the class that is loaded is the campaign's own, and the controls exit with
-- 0, then ci.yaml is there and its jobs each have one pin and all the same; giving a job the version 9.99
-- changes the version in that job's one pin and nothing else of the text, can be undone, and leaves the pins
-- of the other jobs; and every case behaves: its needle stands once in its file, and on the tree with that
-- edit the check is red exactly if that is predicted.
pub main-IsTried :
    (env : Env) (cs : List Catcher.Case) (d : Disk)
    → IsReadOnly env.base
    → load_jobpin env (d Catcher.campaign) ≡ some modelled
    → (main_with env cs d).status ≡ some 0
    → IsTried env cs d
main-IsTried env cs d ro loaded h =
    let k = main-IsChecked env cs d ro h in
    let same : k.jobpin ≡ modelled = some-injective k.jobpin modelled (sym k.loaded ∙ loaded) in
    let t = subst (λ (jp : JobPin). IsTargeted jp k.source) same k.targeted in
    record {
      source = k.source;
      there = k.there;
      base = t.base;
      before = t.before;
      usable = t.usable;
      own = λ job q.
          let (after, pins, only) = t.hits job q in
          IsOwn-of_pins t.base k.source job (apply_pin job (codes "9.99") k.source) after q refl
            pins only;
      behaves = k.behaves;
    }
