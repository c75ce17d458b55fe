-- ===== src/Kill/Scored.antt =====
-- What an exit status of 0 says of the scripts that were killed.
use talyvor_track.Prelude.{
  ℕ, String, ◌≡◌, refl, sym, ap, ◌∙◌, Bool, true, false, not, ◌||◌, Option, none, some, List, [],
  ◌∷◌, ◌++◌, any, arith, In, inl, inr, Text, Bool-cases, if◌then◌else◌,
}
use mathlib.Core.Path.{subst}
use talyvor_track.Harness.Disk.{Disk, Snapshot, read_all}
use talyvor_track.Harness.Process.{start}
use talyvor_track.Kill.Tree.{dirty_outside_scripts}
use talyvor_track.Kill.Runs.{
  Env, Outcome, restored, stranded, defect, Verdict, is_ok, same_outcome, verdict_of, predicted,
  Progress, cases_of, run_case, score, step_case, run_cases, conclude, restore_and_revert,
  from_snapshot, main_with,
}
use talyvor_track.Kill.Killed.{is_defect, Confirms, run_case-Confirms}

abbrev bad : List Verdict → Bool
bad vs = any (λ v. not (is_ok v)) vs

bad-add : (vs : List Verdict) (v : Verdict) → bad (vs ++ (v ∷ [])) ≡ (bad vs || not (is_ok v))
bad-add [] v = ground arith
bad-add (w ∷ vs) v = ground (arith, bad-add vs v)

same_outcome-eq : (o p : Outcome) → same_outcome o p ≡ true → o ≡ p
unfolding same_outcome
same_outcome-eq restored restored h = refl
same_outcome-eq stranded stranded h = refl
same_outcome-eq defect defect h = refl
same_outcome-eq restored stranded h = absurd (cc)
same_outcome-eq restored defect h = absurd (cc)
same_outcome-eq stranded restored h = absurd (cc)
same_outcome-eq stranded defect h = absurd (cc)
same_outcome-eq defect restored h = absurd (cc)
same_outcome-eq defect stranded h = absurd (cc)

verdict_ok : (o p : Outcome) → is_ok (verdict_of o p) ≡ true → o ≡ p
unfolding verdict_of
verdict_ok o p h = elim (Bool-cases (same_outcome o p)) [
  | inl e ↦ same_outcome-eq o p e
  | inr e ↦ absurd (never (same_outcome o defect) (rw e at h))
]
  where
    never : (b : Bool) → is_ok (if b then Verdict.control_defect else Verdict.unexpected) ≡ true → ⊥
    never true h = absurd (cc)
    never false h = absurd (cc)

predicted-defect : (with_handler : Bool) → is_defect (predicted with_handler) ≡ false
predicted-defect true = refl
predicted-defect false = refl

module _ {Script : Type 0} (env : Env Script) (baseline : List Text) where
  score-ok :
      (with_handler : Bool) (o : Option Outcome) (p : Progress)
      → (score env with_handler o p).raised ≡ false
      → bad (score env with_handler o p).results ≡ false
      → (bad p.results ≡ false) × (o ≡ some (predicted with_handler))
  unfolding score
  score-ok with_handler none p r b = absurd (cc)
  score-ok with_handler (some o) p r b =
      let split = bad-add p.results (verdict_of o (predicted with_handler)) in
      (
        ground (arith, split),
        ap some (verdict_ok o (predicted with_handler) (ground (arith, split))),
      )

  score-bad :
      (with_handler : Bool) (o : Option Outcome) (p : Progress)
      → bad (score env with_handler o p).results ≡ false
      → bad p.results ≡ false
  unfolding score
  score-bad with_handler none p b = b
  score-bad with_handler (some o) p b =
      ground (arith, bad-add p.results (verdict_of o (predicted with_handler)))

  step_case-Confirms :
      (script : String) (with_handler : Bool) (p : Progress)
      → (step_case env baseline script with_handler p).raised ≡ false
      → bad (step_case env baseline script with_handler p).results ≡ false
      → Confirms env baseline script with_handler p.process.now.disk (predicted with_handler)
  unfolding step_case
  step_case-Confirms script with_handler p r b =
      let run = run_case env baseline script with_handler p.process in
      run_case-Confirms env baseline script with_handler p.process (predicted with_handler)
        (score-ok with_handler run.outcome (record p { process = run.process }) r b).1
        (predicted-defect with_handler)

  step_case-bad :
      (script : String) (with_handler : Bool) (p : Progress)
      → bad (step_case env baseline script with_handler p).results ≡ false
      → bad p.results ≡ false
  unfolding step_case
  step_case-bad script with_handler p b =
      let run = run_case env baseline script with_handler p.process in
      score-bad with_handler run.outcome (record p { process = run.process }) b

  either-clean :
      (x : Bool) (p q : Progress)
      → x ≡ p.raised
      → (bad q.results ≡ false → bad p.results ≡ false)
      → (if x then p else q).raised ≡ false
      → bad (if x then p else q).results ≡ false
      → (p.raised ≡ false) × (bad p.results ≡ false)
  either-clean true p q e h r b = (r, b)
  either-clean false p q e h r b = (sym e, h b)

  either-bad :
      (x : Bool) (p q : Progress)
      → (bad q.results ≡ false → bad p.results ≡ false)
      → bad (if x then p else q).results ≡ false
      → bad p.results ≡ false
  either-bad true p q h b = b
  either-bad false p q h b = h b

  run_cases-bad :
      (cs : List (String × Bool)) (p : Progress)
      → bad (run_cases env baseline cs p).results ≡ false
      → bad p.results ≡ false
  unfolding run_cases
  run_cases-bad [] p b = b
  run_cases-bad ((script, with_handler) ∷ cs) p b =
      let next = step_case env baseline script with_handler p in
      either-bad p.raised p (run_cases env baseline cs next)
        (λ k. step_case-bad script with_handler p (run_cases-bad cs next k)) b

  run_cases-clean :
      (cs : List (String × Bool)) (p : Progress)
      → (run_cases env baseline cs p).raised ≡ false
      → bad (run_cases env baseline cs p).results ≡ false
      → (p.raised ≡ false) × (bad p.results ≡ false)
  unfolding run_cases
  run_cases-clean [] p r b = (r, b)
  run_cases-clean ((script, with_handler) ∷ cs) p r b =
      let next = step_case env baseline script with_handler p in
      either-clean p.raised p (run_cases env baseline cs next) refl
        (λ k. step_case-bad script with_handler p (run_cases-bad cs next k)) r b

  run_cases-cons :
      (script : String) (with_handler : Bool) (cs : List (String × Bool)) (p : Progress)
      → p.raised ≡ false
      → run_cases env baseline ((script, with_handler) ∷ cs) p
        ≡ run_cases env baseline cs (step_case env baseline script with_handler p)
  unfolding run_cases
  run_cases-cons script with_handler cs p e = rw e refl

  run_cases-Confirms :
      (cs : List (String × Bool)) (p : Progress)
      → (run_cases env baseline cs p).raised ≡ false
      → bad (run_cases env baseline cs p).results ≡ false
      → (c : String × Bool) → In c cs
      → (d : Disk) × Confirms env baseline c.0 c.1 d (predicted c.1)
  run_cases-Confirms [] p r b x q = absurd q
  run_cases-Confirms ((script, with_handler) ∷ cs) p r b x q =
      let next = step_case env baseline script with_handler p in
      let e =
        run_cases-cons script with_handler cs p
          (run_cases-clean ((script, with_handler) ∷ cs) p r b).0 in
      let r' = sym (ap (λ (o : Progress). o.raised) e) ∙ r in
      let b' = sym (ap (λ (o : Progress). bad o.results) e) ∙ b in
      let (quiet, clean) = run_cases-clean cs next r' b' in
      elim q [
        | inl z ↦
            subst
              (λ (c : String × Bool). (d : Disk) × Confirms env baseline c.0 c.1 d (predicted c.1))
              z (p.process.now.disk, step_case-Confirms script with_handler p quiet clean)
        | inr z ↦ run_cases-Confirms cs next r' b' x z
      ]

  conclude-clean :
      (p : Progress)
      → (conclude env p).status ≡ some 0
      → (p.raised ≡ false) × (bad p.results ≡ false)
  unfolding conclude
  conclude-clean p h = both p.raised (bad p.results) h
    where
      both :
          (x y : Bool)
          → ◌≡◌ {A = Option ℕ} (if x then none else some (if y then 1 else 0)) (some 0)
          → (x ≡ false) × (y ≡ false)
      both true y h = absurd (cc)
      both false true h = absurd (one_not_zero h)
        where
          one_not_zero : ◌≡◌ {A = Option ℕ} (some 1) (some 0) → ⊥
          one_not_zero h = ground arith
      both false false h = (refl, refl)

from_snapshot-Confirms :
    {Script : Type 0} (env : Env Script) (ts : List String) (snapshot : Option Snapshot) (d : Disk)
    → (from_snapshot env ts snapshot d).status ≡ some 0
    → (c : String × Bool) → In c (cases_of ts)
    → (e : Disk) × Confirms env (dirty_outside_scripts env.git d) c.0 c.1 e (predicted c.1)
unfolding from_snapshot
from_snapshot-Confirms env ts none d h = absurd (cc)
from_snapshot-Confirms env ts (some snapshot) d h =
    let baseline = dirty_outside_scripts env.git d in
    let first : Progress = record {
      raised = false;
      results = [];
      process =
          restore_and_revert env.git snapshot baseline
            (restore_and_revert env.git snapshot [] (start d));
    } in
    let (quiet, clean) =
      conclude-clean env baseline (run_cases env baseline (cases_of ts) first) h in
    run_cases-Confirms env baseline (cases_of ts) first quiet clean

-- If the harness exits with 0, then every script was run with its handler and without it, and each time it
-- was sent SIGTERM when it was still running and had changed the tree, and died of it: with the handler it left nothing
-- modified that was not so at the start, and without the handler, where the script was the same but for
-- one call that was commented out, it left something.
pub main-Confirms :
    {Script : Type 0} (env : Env Script) (scripts : Disk → List String) (ts : List String)
    (d : Disk)
    → (main_with env scripts ts d).status ≡ some 0
    → (c : String × Bool) → In c (cases_of ts)
    → (e : Disk) × Confirms env (dirty_outside_scripts env.git d) c.0 c.1 e (predicted c.1)
unfolding main_with
main-Confirms env scripts ts d h = from_snapshot-Confirms env ts (read_all d (scripts d)) d h
