-- ===== src/Toolchain/AnchorCheck/Restored.antt =====
-- A signal at any moment of the anchor-check controls leaves the tree as it was.
use talyvor_track.Prelude.{
  String, ◌≡◌, refl, sym, ◌∙◌, Bool, true, false, Option, none, some, List, [], ◌∷◌, arith, inl,
  inr, str_eq, Bool-cases, if◌then◌else◌,
}
use mathlib.Core.Path.{subst}
use talyvor_track.Harness.Disk.{
  Disk, Snapshot, read_all, SameFiles, covers, SameElsewhere, TakenFrom, blob_of,
}
use talyvor_track.Harness.Process.{
  Process, Moment, left_behind, proceed, write_all, IsSignalSafe, IsGuarded, proceed-IsGuarded,
  write_all-IsGuarded, start-IsGuarded, start, read_all-TakenFrom,
}
use talyvor_track.Harness.Catcher
use talyvor_track.Harness.Restored.{run_cases-IsGuarded}
use talyvor_track.Toolchain.Table.{ci}
use talyvor_track.Toolchain.AnchorCheck.{JobPin, Env, load_jobpin}
use talyvor_track.Toolchain.AnchorCheck.Runs.{
  Verdict, Progress, run_b7, run_cases, run_b5, run_b6, score, and_then, run_all, conclude, finish,
  from_baseline, begin, main_with,
}
use talyvor_track.Toolchain.AnchorCheck.Scored.{run_b7-disk}

-- The check and the test of B6 change no file but those two.
abbrev pub Contains : Env → Type 0
Contains env =
    (d : Disk) (q : String)
    → str_eq ci q ≡ false
    → str_eq Catcher.campaign q ≡ false
    → ((env.base.check d).disk q ≡ d q) × ((env.go d).disk q ≡ d q)

score-process : (v : Option Verdict) (p : Progress) → (score v p).process ≡ p.process
unfolding score
score-process none p = refl
score-process (some v) p = refl

module _ (env : Env) (originals : Snapshot) (pristine : Disk) (taken : TakenFrom pristine originals)
    (checks : (d : Disk) → SameElsewhere originals (env.base.check d).disk d)
    (goes : (d : Disk) → SameElsewhere originals (env.go d).disk d) where
  abbrev Safe : Process → Type 0
  Safe s = IsGuarded originals pristine s

  moved_on :
      (e : Disk) (s : Process) → SameElsewhere originals e s.now.disk → Safe s → Safe (proceed e s)
  moved_on e s same g =
      proceed-IsGuarded originals pristine taken e s (λ q h. same q h ∙ g.contained q h) g

  run_b5-IsGuarded : (p : Progress) → Safe p.process → Safe (run_b5 env p).process
  unfolding run_b5
  run_b5-IsGuarded p g =
      subst Safe
        (sym (
          score-process _
            (record p { process = proceed (env.base.check p.process.now.disk).disk p.process })))
        (moved_on (env.base.check p.process.now.disk).disk p.process (checks p.process.now.disk) g)

  run_b6-IsGuarded : (p : Progress) → Safe p.process → Safe (run_b6 env p).process
  unfolding run_b6
  run_b6-IsGuarded p g =
      subst Safe
        (sym (
          score-process _
            (record p { process = proceed (env.go p.process.now.disk).disk p.process })))
        (moved_on (env.go p.process.now.disk).disk p.process (goes p.process.now.disk) g)

  cases-IsGuarded :
      (cs : List Catcher.Case) (p : Progress)
      → Safe p.process
      → Safe (run_cases env originals cs p).process
  unfolding run_cases
  cases-IsGuarded cs p g =
      run_cases-IsGuarded env.base originals pristine taken checks cs
        (record { raised = false; results = []; process = p.process }) g

  and_then-IsGuarded :
      (f : Progress → Progress) (p : Progress)
      → Safe p.process
      → (Safe p.process → Safe (f p).process)
      → Safe (and_then env f p).process
  and_then-IsGuarded f p g h = either p.raised g (h g)
    where
      either :
          (b : Bool) → Safe p.process → Safe (f p).process → Safe (if b then p else f p).process
      either true g h = g
      either false g h = h

  run_all-IsGuarded :
      (jp : JobPin) (cs : List Catcher.Case) (p : Progress)
      → Safe p.process
      → Safe (run_all env jp originals cs p).process
  unfolding run_all
  run_all-IsGuarded jp cs p g =
      let b7 = run_b7 jp (blob_of originals ci) p in
      let done = and_then env (run_cases env originals cs) b7 in
      let quiet = and_then env (run_b5 env) done in
      let here = subst Safe (sym (run_b7-disk jp (blob_of originals ci) p)) g in
      let cased = and_then-IsGuarded (run_cases env originals cs) b7 here (cases-IsGuarded cs b7) in
      let fifth = and_then-IsGuarded (run_b5 env) done cased (run_b5-IsGuarded done) in
      and_then-IsGuarded (run_b6 env) quiet fifth (run_b6-IsGuarded quiet)

  conclude-process :
      (results : List Verdict) (green : Option Bool) (s : Process)
      → (conclude env results green s).process ≡ s
  unfolding conclude
  conclude-process results none s = refl
  conclude-process results (some green) s = refl

  finish-IsGuarded : (p : Progress) → Safe p.process → Safe (finish env originals p).process
  unfolding finish
  finish-IsGuarded p g = elim (Bool-cases p.raised) [
    | inl e ↦ rw e back
    | inr e ↦ rw e (
        subst Safe (sym (conclude-process p.results _ _)) (
          moved_on _ (write_all originals p.process)
            (checks (write_all originals p.process).now.disk) back))
  ]
    where
      back : Safe (write_all originals p.process)
      back = write_all-IsGuarded originals pristine taken originals p.process (λ q h. h) g

  from_baseline-IsGuarded :
      (jp : JobPin) (cs : List Catcher.Case) (green : Option Bool) (s : Process)
      → Safe s
      → Safe (from_baseline env jp originals cs green s).process
  unfolding from_baseline
  from_baseline-IsGuarded jp cs none s g = g
  from_baseline-IsGuarded jp cs (some false) s g = g
  from_baseline-IsGuarded jp cs (some true) s g =
      finish-IsGuarded _
        (run_all-IsGuarded jp cs (record { raised = false; results = []; process = s }) g)

start-safe : (d : Disk) → IsSignalSafe d (start d)
start-safe d m q = elim q [
  | inl e ↦ subst (λ (x : Moment). SameFiles (left_behind x) d) e (λ p. refl)
  | inr z ↦ absurd z
]

covers_two :
    (d : Disk) (s : Snapshot) (q : String)
    → read_all d (ci ∷ Catcher.campaign ∷ []) ≡ some s
    → covers s q ≡ false
    → (str_eq ci q ≡ false) × (str_eq Catcher.campaign q ≡ false)
unfolding read_all covers
covers_two d s q h c = ground arith

begin-safe :
    (env : Env) (jp : Option JobPin) (cs : List Catcher.Case) (s : Option Snapshot) (d : Disk)
    → Contains env
    → read_all d (ci ∷ Catcher.campaign ∷ []) ≡ s
    → IsSignalSafe d (begin env jp cs s d).process
unfolding begin
begin-safe env none cs s d c h = start-safe d
begin-safe env (some jp) cs none d c h = start-safe d
begin-safe env (some jp) cs (some s) d c h =
    let taken = read_all-TakenFrom d (ci ∷ Catcher.campaign ∷ []) s h in
    let checks : (e : Disk) → SameElsewhere s (env.base.check e).disk e =
      λ e q k. let two = covers_two d s q h k in (c e q two.0 two.1).0 in
    let goes : (e : Disk) → SameElsewhere s (env.go e).disk e =
      λ e q k. let two = covers_two d s q h k in (c e q two.0 two.1).1 in
    (from_baseline-IsGuarded env s d taken checks goes jp cs (env.base.check d).green _ (
      moved_on env s d taken checks goes (env.base.check d).disk _ (checks d)
        (start-IsGuarded s d taken))).safe

-- If the check and the test of B6 change no file but ci.yaml and the campaign, then a signal at any moment of
-- the anchor-check controls leaves every file as it was, whatever the cases are and wherever the run
-- raises.
pub main_with-IsSignalSafe :
    (env : Env) (cs : List Catcher.Case) (d : Disk)
    → Contains env
    → IsSignalSafe d (main_with env cs d).process
unfolding main_with
main_with-IsSignalSafe env cs d c =
    begin-safe env (load_jobpin env (d Catcher.campaign)) cs
      (read_all d (ci ∷ Catcher.campaign ∷ [])) d c refl
