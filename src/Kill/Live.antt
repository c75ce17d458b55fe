-- ===== src/Kill/Live.antt =====
-- A script that changes the tree in time, and how its run ends.
use talyvor_track.Prelude.{
  ℕ, zero, suc, ◌<◌, String, ◌≡◌, refl, sym, ap, ◌∙◌, Bool, true, false, Option, none, some, List,
  ◌∷◌, arith, inl, inr, ◌⊎◌, Text, is_empty, Bool-cases, if◌then◌else◌,
}
use mathlib.Core.Path.{subst}
use talyvor_track.Harness.Disk.{Disk}
use talyvor_track.Harness.Process.{Process, Moment, proceed, write}
use talyvor_track.Kill.Tree.{newly_dirty}
use talyvor_track.Kill.Runs.{
  Env, Run, Outcome, restored, stranded, path_of, judge, send_term, wait, watch, run_disabled,
  try_case, finally, run_read, run_case,
}
use talyvor_track.Kill.Killed.{Reaches, here, later, is_defect, Starts, Confirms, run_case-Confirms}
use talyvor_track.Kill.Lines.{disabled}
use mathlib.Core.Option.{some-injective}

-- The script changes the tree within so many turns, and does not end before.
pub data Changes {Script : Type 0} (env : Env Script) (baseline : List Text)
    : ℕ → Script → Disk → Type 0 where
  now :
      {n : ℕ} {x : Script} {d : Disk}
      → env.ended x ≡ false
      → is_empty (newly_dirty env.git baseline d) ≡ false
      → Changes env baseline n x d
  soon :
      {n : ℕ} {x : Script} {d : Disk}
      → env.ended x ≡ false
      → Changes env baseline n (env.go_on x d).0 (env.go_on x d).1
      → Changes env baseline (suc n) x d

-- It dies of SIGTERM, wherever that finds it.
abbrev pub Dies : {Script : Type 0} → Env Script → Script → Disk → Type 0
Dies {Script} env x d =
    (y : Script) (e : Disk) → Reaches env x d y e → (env.terminate y e).exited ≡ true

-- The outcome says what the kill left behind.
abbrev pub IsJudged : Option Outcome → Type 0
IsJudged o = (o ≡ some restored) ⊎ (o ≡ some stranded)

module _ {Script : Type 0} (env : Env Script) (baseline : List Text) where
  judge-IsJudged : (d : Disk) → IsJudged (some (judge env baseline d))
  unfolding judge
  judge-IsJudged d = either (is_empty (newly_dirty env.git baseline d))
    where
      either : (b : Bool) → IsJudged (some (if b then restored else stranded))
      either true = inl refl
      either false = inr refl

  send_term-IsJudged :
      (x : Script) (s : Process)
      → (env.terminate x s.now.disk).exited ≡ true
      → IsJudged (send_term env baseline x s).outcome
  unfolding send_term
  send_term-IsJudged x s h = rw h (judge-IsJudged (env.terminate x s.now.disk).disk)

  wait-send_term :
      (m : ℕ) (x : Script) (s : Process)
      → env.ended x ≡ false
      → is_empty (newly_dirty env.git baseline s.now.disk) ≡ false
      → wait env baseline (suc m) x s ≡ send_term env baseline x s
  unfolding wait
  wait-send_term m x s e c = rw (e, c) refl

  wait-later :
      (m : ℕ) (x : Script) (s : Process)
      → env.ended x ≡ false
      → is_empty (newly_dirty env.git baseline s.now.disk) ≡ true
      → wait env baseline (suc m) x s
        ≡ wait env baseline m (env.go_on x s.now.disk).0 (proceed (env.go_on x s.now.disk).1 s)
  unfolding wait
  wait-later m x s e c = rw (e, c) refl

  wait-changed :
      (m : ℕ) (x : Script) (s : Process)
      → env.ended x ≡ false
      → is_empty (newly_dirty env.git baseline s.now.disk) ≡ false
      → Dies env x s.now.disk
      → IsJudged (wait env baseline (suc m) x s).outcome
  wait-changed m x s e c dies =
      subst (λ (r : Run). IsJudged r.outcome) (sym (wait-send_term m x s e c))
        (send_term-IsJudged x s (dies x s.now.disk here))

  -- Enough turns: more than the script needs to change the tree.
  wait-IsJudged :
      (n m : ℕ) (x : Script) (d : Disk) (on_signal : Disk → Disk) (past : List Moment)
      → Changes env baseline n x d
      → n < m
      → Dies env x d
      → IsJudged
          (wait env baseline m x
            (record { now = record { disk = d; on_signal = on_signal }; past = past })).outcome
  wait-IsJudged n zero x d on_signal past c h dies = absurd (omega arith)
  wait-IsJudged n (suc m) x d on_signal past (now e c) h dies = wait-changed m x _ e c dies
  wait-IsJudged n (suc m) x d on_signal past (soon {n = k} e c) h dies =
      let s : Process = record { now = record { disk = d; on_signal = on_signal }; past = past } in
      elim (Bool-cases (is_empty (newly_dirty env.git baseline d))) [
        | inl b ↦
            subst (λ (r : Run). IsJudged r.outcome) (sym (wait-later m x s e b))
              (wait-IsJudged k m (env.go_on x d).0 (env.go_on x d).1 on_signal (s.now ∷ past) c
                (omega arith) (λ y f r. dies y f (later e r)))
        | inr b ↦ wait-changed m x s e b dies
      ]

  watch-IsJudged :
      (n : ℕ) (o : Option Script) (x : Script) (s : Process)
      → o ≡ some x
      → Changes env baseline n x s.now.disk
      → n < env.turns
      → Dies env x s.now.disk
      → IsJudged (watch env baseline o s).outcome
  unfolding watch
  watch-IsJudged n o x s e c h dies =
      subst (λ (p : Option Script). IsJudged (watch env baseline p s).outcome) (sym e)
        (wait-IsJudged n env.turns x s.now.disk s.now.on_signal s.past c h dies)

  run_read-IsJudged :
      (n : ℕ) (script : String) (with_handler : Bool) (file : Option Text) (original : Text)
      (x : Script) (s : Process) (e : Disk)
      → file ≡ some original
      → s.now.disk (path_of script) ≡ some original
      → Starts env script with_handler s.now.disk x e
      → Changes env baseline n x e
      → n < env.turns
      → Dies env x e
      → IsJudged (run_read env baseline script with_handler file s).outcome
  unfolding run_read finally try_case run_disabled write
  run_read-IsJudged n script b none original x s e f there st c h dies = absurd (cc)
  run_read-IsJudged n script true (some blob) original x s e f there st c h dies =
      let run = λ (t : Disk). env.spawn (path_of script) t ≡ some x in
      watch-IsJudged n (env.spawn (path_of script) s.now.disk) x s (subst run (st.0) (st.1))
        (subst (Changes env baseline n x) (st.0) c) h (subst (Dies env x) (st.0) dies)
  run_read-IsJudged n script false (some blob) original x s e f there st c h dies =
      let (text, src, found, edit, tree, run) = st in
      let same : text ≡ blob = some-injective text blob (sym found ∙ (there ∙ sym f)) in
      let handled = sym (ap disabled same) ∙ edit in
      let edited = write (path_of script) src s in
      subst
        (λ (t : Option Text).
          IsJudged
            (finally env baseline script blob (run_disabled env baseline script t s)).outcome)
        (sym handled)
        (watch-IsJudged n (env.spawn (path_of script) edited.now.disk) x edited
          (subst (λ (t : Disk). env.spawn (path_of script) t ≡ some x) tree run)
          (subst (Changes env baseline n x) tree c) h (subst (Dies env x) tree dies))

  run_case-outcome :
      (n : ℕ) (script : String) (with_handler : Bool) (original : Text) (x : Script) (s : Process)
      (e : Disk)
      → s.now.disk (path_of script) ≡ some original
      → Starts env script with_handler s.now.disk x e
      → Changes env baseline n x e
      → n < env.turns
      → Dies env x e
      → IsJudged (run_case env baseline script with_handler s).outcome
  unfolding run_case
  run_case-outcome n script with_handler original x s e there st c h dies =
      run_read-IsJudged n script with_handler (s.now.disk (path_of script)) original x s e there
        there st c h dies

-- If the script is there, the process that the run starts (of the script as it is, or without its handler)
-- changes the tree within fewer turns of the loop than the deadline allows and does not end before, and it
-- dies of SIGTERM wherever that finds it, then the run raises nothing and is no defect: its outcome is the
-- judgement of the tree that a kill left, where the script was still running and had changed the tree.
pub run_case-IsJudged :
    {Script : Type 0} (env : Env Script) (baseline : List Text) (n : ℕ) (script : String)
    (with_handler : Bool) (original : Text) (x : Script) (s : Process) (e : Disk)
    → s.now.disk (path_of script) ≡ some original
    → Starts env script with_handler s.now.disk x e
    → Changes env baseline n x e
    → n < env.turns
    → Dies env x e
    → (o : Outcome) × ((run_case env baseline script with_handler s).outcome ≡ some o)
      × (is_defect o ≡ false)
      × Confirms env baseline script with_handler s.now.disk o
run_case-IsJudged env baseline n script with_handler original x s e there st c h dies =
    elim (run_case-outcome env baseline n script with_handler original x s e there st c h dies) [
      | inl q ↦
          (restored, q, refl, run_case-Confirms env baseline script with_handler s restored q refl)
      | inr q ↦
          (stranded, q, refl, run_case-Confirms env baseline script with_handler s stranded q refl)
    ]
