-- ===== src/Toolchain/AnchorCheck/Scored.antt =====
-- What an exit status of 0 says of the anchor-check controls.
use talyvor_track.Prelude.{
  String, ◌≡◌, refl, sym, ap, Bool, true, false, not, ◌&&◌, ◌||◌, Option, none, some, List, [], ◌∷◌,
  ◌++◌, any, map, arith, In, inl, inr, Text, codes, eq_iff, if◌then◌else◌,
}
use mathlib.Core.Path.{subst}
use mathlib.Core.Option.{some-injective}
use talyvor_track.Harness.Disk.{Disk, Snapshot}
use talyvor_track.Harness.Process.{proceed}
use talyvor_track.Harness.Catcher
use talyvor_track.Harness.Cases.{bad}
use talyvor_track.Toolchain.AnchorCheck.{
  JobPin, Env, Found, pins_by_job, is_usable, moved, is_only, jobs,
}
use talyvor_track.Toolchain.AnchorCheck.Runs.{
  Verdict, case, job_defect, wrong_job, is_fine, Progress, is_hit, pins_after, and_hit, all_hit,
  b7_verdict, score, hit_verdict, run_b7, run_cases, run_b5, run_b6, and_then,
}

abbrev pub unfit : List Verdict → Bool
unfit vs = any (λ v. not (is_fine v)) vs

unfit-append : (vs ws : List Verdict) → unfit (vs ++ ws) ≡ (unfit vs || unfit ws)
unfit-append [] ws = refl
unfit-append (v ∷ vs) ws = ground (arith, unfit-append vs ws)

unfit-map : (rs : List (String × Catcher.Verdict)) → unfit (map (λ r. case r.1) rs) ≡ bad rs
unfit-map [] = refl
unfit-map (r ∷ rs) = ap (λ (b : Bool). not (Catcher.is_ok r.1) || b) (unfit-map rs)

-- Nothing raised, and every verdict as it should be.
abbrev pub IsClean : Progress → Type 0
IsClean p = (p.raised ≡ false) × (unfit p.results ≡ false)

score-IsClean :
    (v : Option Verdict) (p : Progress)
    → IsClean (score v p)
    → IsClean p × ((w : Verdict) × (v ≡ some w) × (is_fine w ≡ true))
unfolding score
score-IsClean none p (r, b) = absurd (cc)
score-IsClean (some v) p (r, b) =
    let split = unfit-append p.results (v ∷ []) in
    ((r, ground (arith, split)), (v, refl, ground (arith, split)))

-- The pins after each target's `apply` differ from those before in that job alone.
abbrev pub IsHit : JobPin → List (String × Found) → Text → String → Type 0
IsHit jp base src target =
    (after : List (String × Found)) × (pins_after jp (jp.apply target (codes "9.99") src)
      ≡ some after)
    × (moved base after ≡ target ∷ [])

is_only-eq : (target : String) (js : List String) → is_only target js ≡ true → js ≡ target ∷ []
is_only-eq target [] h = absurd (cc)
is_only-eq target (j ∷ []) h = ap (λ (x : String). x ∷ []) ((eq_iff j target).0 h)
is_only-eq target (j ∷ (k ∷ js)) h = absurd (cc)

is_hit-IsHit :
    (jp : JobPin) (base : List (String × Found)) (src : Text) (target : String)
    (after : Option (List (String × Found)))
    → pins_after jp (jp.apply target (codes "9.99") src) ≡ after
    → is_hit target base after ≡ some true
    → IsHit jp base src target
unfolding is_hit
is_hit-IsHit jp base src target none e h = absurd (cc)
is_hit-IsHit jp base src target (some after) e h =
    (after, e, is_only-eq target (moved base after) (some-injective _ true h))

and_hit-both : (a b : Option Bool) → and_hit a b ≡ some true → (a ≡ some true) × (b ≡ some true)
unfolding and_hit
and_hit-both none b h = absurd (cc)
and_hit-both (some a) none h = absurd (cc)
and_hit-both (some a) (some b) h =
    let e = some-injective (a && b) true h in (ap some (ground arith), ap some (ground arith))

all_hit-IsHit :
    (jp : JobPin) (base : List (String × Found)) (src : Text) (ts : List String)
    → all_hit jp base src ts ≡ some true
    → (t : String) → In t ts
    → IsHit jp base src t
unfolding all_hit
all_hit-IsHit jp base src [] h t q = absurd q
all_hit-IsHit jp base src (target ∷ ts) h t q =
    let (a, b) =
      and_hit-both (is_hit target base (pins_after jp (jp.apply target (codes "9.99") src)))
        (all_hit jp base src ts) h in
    elim q [
      | inl e ↦ subst (IsHit jp base src) e (is_hit-IsHit jp base src target _ refl a)
      | inr z ↦ all_hit-IsHit jp base src ts b t z
    ]

-- B7: each job's pin is the one that the class finds and changes.
pub record IsTargeted (jp : JobPin) (src : Text) : Type 0 where
  pub base : List (String × Found)
  pub before : pins_by_job jp jobs src ≡ some base
  pub usable : is_usable base ≡ true
  pub hits : (t : String) → In t jobs → IsHit jp base src t

fine_hit :
    (usable : Bool) (hit : Option Bool) (w : Verdict)
    → (if usable then hit_verdict hit else some job_defect) ≡ some w
    → is_fine w ≡ true
    → (usable ≡ true) × (hit ≡ some true)
unfolding hit_verdict
fine_hit true none w h f = absurd (cc)
fine_hit true (some true) w h f = (refl, refl)
fine_hit true (some false) w h f = absurd (cc (ap is_fine (some-injective wrong_job w h), f))
fine_hit false hit w h f = absurd (cc (ap is_fine (some-injective job_defect w h), f))

b7-IsTargeted :
    (jp : JobPin) (src : Text) (base : Option (List (String × Found))) (w : Verdict)
    → pins_by_job jp jobs src ≡ base
    → b7_verdict jp src base ≡ some w
    → is_fine w ≡ true
    → IsTargeted jp src
unfolding b7_verdict
b7-IsTargeted jp src none w e h f = absurd (cc)
b7-IsTargeted jp src (some base) w e h f =
    let (usable, hit) = fine_hit (is_usable base) (all_hit jp base src jobs) w h f in
    record { base = base; before = e; usable = usable; hits = all_hit-IsHit jp base src jobs hit }

pub run_b7-IsClean :
    (jp : JobPin) (src : Option Text) (p : Progress)
    → IsClean (run_b7 jp src p)
    → IsClean p × ((text : Text) × (src ≡ some text) × IsTargeted jp text)
unfolding run_b7
run_b7-IsClean jp none p (r, b) = absurd (cc)
run_b7-IsClean jp (some src) p c =
    let (before, (w, e, f)) = score-IsClean (b7_verdict jp src (pins_by_job jp jobs src)) p c in
    (before, (src, refl, b7-IsTargeted jp src (pins_by_job jp jobs src) w refl e f))

pub run_b7-disk :
    (jp : JobPin) (src : Option Text) (p : Progress) → (run_b7 jp src p).process ≡ p.process
unfolding run_b7
run_b7-disk jp none p = refl
run_b7-disk jp (some src) p = scored (b7_verdict jp src (pins_by_job jp jobs src))
  where
    scored : (v : Option Verdict) → (score v p).process ≡ p.process
    scored none = unfold score in refl
    scored (some v) = unfold score in refl

module _ (env : Env) (d : Disk) where
  pub run_b5-IsClean : (p : Progress) → IsClean (run_b5 env p) → IsClean p
  unfolding run_b5
  run_b5-IsClean p c =
      (score-IsClean _
        (record p { process = proceed (env.base.check p.process.now.disk).disk p.process }) c).0

  pub run_b6-IsClean : (p : Progress) → IsClean (run_b6 env p) → IsClean p
  unfolding run_b6
  run_b6-IsClean p c =
      (score-IsClean _ (record p { process = proceed (env.go p.process.now.disk).disk p.process })
        c).0

  either-IsClean :
      (b : Bool) (p q : Progress)
      → b ≡ p.raised
      → IsClean (if b then p else q)
      → (p.raised ≡ false) × IsClean q
  either-IsClean true p q e (r, u) = absurd (cc (e, r))
  either-IsClean false p q e c = (sym e, c)

  pub and_then-IsClean :
      (f : Progress → Progress) (p : Progress)
      → IsClean (and_then env f p)
      → (p.raised ≡ false) × IsClean (f p)
  and_then-IsClean f p c = either-IsClean p.raised p (f p) refl c

  pub run_cases-IsClean :
      (originals : Snapshot) (cs : List Catcher.Case) (p : Progress)
      → IsClean (run_cases env originals cs p)
      → (unfit p.results ≡ false)
        × ((Catcher.run_cases env.base originals cs
              (record { raised = false; results = []; process = p.process })).raised
            ≡ false)
        × (bad
              (Catcher.run_cases env.base originals cs
                (record { raised = false; results = []; process = p.process })).results
            ≡ false)
  unfolding run_cases
  run_cases-IsClean originals cs p (r, b) =
      let q =
        Catcher.run_cases env.base originals cs
          (record { raised = false; results = []; process = p.process }) in
      let split = unfit-append p.results (map (λ x. case x.1) q.results) in
      let same = unfit-map q.results in (ground (arith, split), r, ground (arith, split, same))
