-- ===== src/Toolchain/Caught.antt =====
-- What an exit status of 0 says of the toolchain campaign's controls.
use talyvor_track.Prelude.{
  String, ◌≡◌, refl, ap, Bool, true, false, ◌&&◌, Option, none, some, List, [], ◌∷◌, ◌++◌, ◌≤◌,
  arith, In, inl, inr, Text, length, Bool-cases, if◌then◌else◌,
}
use mathlib.Core.Path.{subst}
use talyvor_track.Harness.Disk.{Disk, put}
use talyvor_track.Harness.Process.{write, restore_on_signal}
use talyvor_track.Toolchain.Anchors.{Control, anchored}
use talyvor_track.Toolchain.Runner.{
  Env, Verdict, caught, missed, anchor_failed, is_caught, Progress, command, passed, name_of,
  is_named, verdict_of, count_caught, run, run_on, finally, judge_green, judge_red, judge_still,
  judge, try_mutated, run_control,
}
use talyvor_track.Toolchain.Restored.{IsReadOnly}

-- The tests that must fail, and those that must pass, on the mutated tree.
unfoldable pub reds_of : Option String → List String
reds_of none = []
reds_of (some red) = red ∷ []

unfoldable pub greens_of : Option String → Option String → List String
unfolding name_of is_named
greens_of none green = name_of green ∷ []
greens_of (some red) green = if is_named green then name_of green ∷ [] else []

-- The control is applied, and on the mutated tree its tests go as its row says.
pub record IsCaught (env : Env) (d : Disk) (c : Control) : Type 0 where
  pub original : Text
  pub there : d c.path ≡ some original
  pub text : Text
  pub applied : anchored c.anchor c.expect original ≡ some text
  pub reds :
      (t : String)
      → In t (reds_of c.red)
      → passed (env.go (command t) (put c.path text d)).code ≡ some false
  pub greens :
      (t : String)
      → In t (greens_of c.red c.green)
      → passed (env.go (command t) (put c.path text d)).code ≡ some true

-- Is every verdict `CAUGHT`?
unfoldable pub all_caught : List Verdict → Bool
all_caught [] = true
all_caught (v ∷ vs) = is_caught v && all_caught vs

pub all_caught-add :
    (vs : List Verdict) (v : Verdict) → all_caught (vs ++ (v ∷ [])) ≡ (all_caught vs && is_caught v)
unfolding all_caught
all_caught-add [] v = ground arith
all_caught-add (w ∷ vs) v = ground (arith, all_caught-add vs v)

count_caught-le : (vs : List Verdict) → count_caught vs ≤ length vs
unfolding count_caught
count_caught-le [] = omega arith
count_caught-le (v ∷ vs) = ground (arith, count_caught-le vs)

pub all_caught_of : (vs : List Verdict) → count_caught vs ≡ length vs → all_caught vs ≡ true
unfolding count_caught all_caught
all_caught_of [] h = refl
all_caught_of (v ∷ vs) h = ground (arith, count_caught-le vs, all_caught_of vs)

verdict_caught :
    (red_ok green_ok : Bool)
    → is_caught (verdict_of red_ok green_ok) ≡ true
    → (red_ok ≡ false) × (green_ok ≡ true)
unfolding verdict_of
verdict_caught false true h = (refl, refl)
verdict_caught false false h = absurd (cc)
verdict_caught true green_ok h = absurd (cc)

if_caught : (b : Bool) → is_caught (if b then caught else missed) ≡ true → b ≡ true
if_caught true h = refl
if_caught false h = absurd (cc)

-- A single test.
only : (P : String → Type 0) (t : String) → P t → (u : String) → In u (t ∷ []) → P u
only P t p u q = elim q [ inl e ↦ subst P e p | inr z ↦ absurd z ]

module _ (env : Env) (ro : IsReadOnly env) where
  judge_green-caught :
      (red_ok : Bool) (green_ok : Option Bool) (p : Progress)
      → (judge_green env red_ok green_ok p).raised ≡ false
      → all_caught (judge_green env red_ok green_ok p).results ≡ true
      → (red_ok ≡ false) × (green_ok ≡ some true)
  unfolding judge_green
  judge_green-caught red_ok none p r a = absurd (cc)
  judge_green-caught red_ok (some green_ok) p r a =
      let (e, f) =
        verdict_caught red_ok green_ok
          (ground (arith, all_caught-add p.results (verdict_of red_ok green_ok))) in
      (e, ap some f)

  either-caught :
      {P Q : Type 0} (b : Bool) (p q : Progress)
      → (b ≡ true → p.raised ≡ false → all_caught p.results ≡ true → P)
      → (b ≡ false → q.raised ≡ false → all_caught q.results ≡ true → Q)
      → (if b then p else q).raised ≡ false
      → all_caught (if b then p else q).results ≡ true
      → (b ≡ true → P) × (b ≡ false → Q)
  either-caught true p q h k r a = (λ e. h refl r a, λ e. absurd (cc))
  either-caught false p q h k r a = (λ e. absurd (cc), λ e. k refl r a)

  judge_red-caught :
      (c : Control) (red_ok : Option Bool) (p : Progress)
      → (judge_red env c red_ok p).raised ≡ false
      → all_caught (judge_red env c red_ok p).results ≡ true
      → (red_ok ≡ some false)
        × (is_named c.green ≡ true → run env (name_of c.green) p.process ≡ some true)
  unfolding judge_red
  judge_red-caught c none p r a = absurd (cc)
  judge_red-caught c (some red_ok) p r a =
      let after = record p { process = run_on env (name_of c.green) p.process } in
      let (named, unnamed) =
        either-caught {P = (red_ok ≡ false) × (run env (name_of c.green) p.process ≡ some true)}
          {Q = (red_ok ≡ false) × (some true ≡ some true)} (is_named c.green)
          (judge_green env red_ok (run env (name_of c.green) p.process) after)
          (judge_green env red_ok (some true) p)
          (λ e. judge_green-caught red_ok (run env (name_of c.green) p.process) after)
          (λ e. judge_green-caught red_ok (some true) p) r a in
      (
        elim (Bool-cases (is_named c.green)) [
          | inl e ↦ ap some (named e).0
          | inr e ↦ ap some (unnamed e).0
        ],
        λ e. (named e).1,
      )

  judge_still-caught :
      (green_ok : Option Bool) (p : Progress)
      → (judge_still env green_ok p).raised ≡ false
      → all_caught (judge_still env green_ok p).results ≡ true
      → green_ok ≡ some true
  unfolding judge_still
  judge_still-caught none p r a = absurd (cc)
  judge_still-caught (some green_ok) p r a = ap some (
      if_caught green_ok
        (ground (arith, all_caught-add p.results (if green_ok then caught else missed))))

  judge-caught :
      (c : Control) (red : Option String) (p : Progress)
      → (judge env c red p).raised ≡ false
      → all_caught (judge env c red p).results ≡ true
      → ((t : String) → In t (reds_of red) → run env t p.process ≡ some false)
        × ((t : String) → In t (greens_of red c.green) → run env t p.process ≡ some true)
  unfolding judge reds_of greens_of
  judge-caught c none p r a =
      let after = record p { process = run_on env (name_of c.green) p.process } in
      (
        λ t q. absurd q,
        only (λ t. run env t p.process ≡ some true) (name_of c.green)
            (judge_still-caught (run env (name_of c.green) p.process) after r a),
      )
  judge-caught c (some red) p r a =
      let after = record p { process = run_on env red p.process } in
      let (failed, greens) = judge_red-caught c (run env red p.process) after r a in
      (
        only (λ t. run env t p.process ≡ some false) red failed,
        λ t q. elim (Bool-cases (is_named c.green)) [
          | inl e ↦
              only (λ u. run env u p.process ≡ some true) (name_of c.green)
                (unfold run run_on in
                  subst
                    (λ (x : Disk). passed (env.go (command (name_of c.green)) x).code ≡ some true)
                    (ro (command red) p.process.now.disk) (greens e))
                t (in_if (is_named c.green) (name_of c.green) t e q)
          | inr e ↦ absurd (not_in_if (is_named c.green) (name_of c.green) t e q)
        ],
      )
    where
      in_if : (b : Bool) (x t : String) → b ≡ true → In t (if b then x ∷ [] else []) → In t (x ∷ [])
      in_if true x t e q = q
      in_if false x t e q = absurd q

      not_in_if : (b : Bool) (x t : String) → b ≡ false → In t (if b then x ∷ [] else []) → ⊥
      not_in_if true x t e q = absurd (cc)
      not_in_if false x t e q = q

  try_mutated-IsCaught :
      (d : Disk) (c : Control) (original : Text) (text : Option Text) (p : Progress)
      → d c.path ≡ some original
      → anchored c.anchor c.expect original ≡ text
      → p.process.now.disk ≡ d
      → (try_mutated env c text p).raised ≡ false
      → all_caught (try_mutated env c text p).results ≡ true
      → IsCaught env d c
  unfolding try_mutated
  try_mutated-IsCaught d c original none p there e same r a =
      absurd (failed (all_caught p.results) (all_caught-add p.results anchor_failed) a)
    where
      failed :
          (b : Bool)
          → all_caught (p.results ++ (anchor_failed ∷ [])) ≡ (b && false)
          → all_caught (p.results ++ (anchor_failed ∷ [])) ≡ true
          → ⊥
      failed b h k = ground arith
  try_mutated-IsCaught d c original (some text) p there e same r a =
      let planted = record p { process = write c.path text p.process } in
      let (reds, greens) = judge-caught c c.red planted r a in
      let tree : planted.process.now.disk ≡ put c.path text d =
        unfold write in ap (put c.path text) same in
      record {
        original = original;
        there = there;
        text = text;
        applied = e;
        reds = λ t q.
            subst (λ (x : Disk). passed (env.go (command t) x).code ≡ some false) tree
              (unfold run in reds t q);
        greens = λ t q.
            subst (λ (x : Disk). passed (env.go (command t) x).code ≡ some true) tree
              (unfold run in greens t q);
      }

  pub run_control-IsCaught :
      (d : Disk) (c : Control) (file : Option Text) (p : Progress)
      → d c.path ≡ file
      → p.process.now.disk ≡ d
      → (run_control env c file p).raised ≡ false
      → all_caught (run_control env c file p).results ≡ true
      → IsCaught env d c
  unfolding run_control finally restore_on_signal
  run_control-IsCaught d c none p e same r a = absurd (cc)
  run_control-IsCaught d c (some backup) p e same r a =
      try_mutated-IsCaught d c backup (anchored c.anchor c.expect backup)
        (record p { process = restore_on_signal ((c.path, backup) ∷ []) p.process }) e refl same r a
