-- ===== src/Toolchain/Verdicts.antt =====
-- The verdicts of a campaign: each control adds at most one, and one that applies adds no ANCHOR-FAILED.
use talyvor_track.Prelude.{
  String, ◌≡◌, refl, sym, ap, ◌∙◌, Bool, true, false, ◌&&◌, ◌||◌, Option, none, some, List, [], ◌∷◌,
  ◌++◌, any, arith, inl, inr, ◌⊎◌, Text, if◌then◌else◌,
}
use mathlib.Core.Path.{subst}
use talyvor_track.Harness.Process.{write, restore_on_signal}
use talyvor_track.Toolchain.Anchors.{Control, anchored}
use talyvor_track.Toolchain.Runner.{
  Env, Verdict, caught, missed, anchor_failed, Progress, name_of, is_named, verdict_of, run, run_on,
  finally, judge_green, judge_red, judge_still, judge, try_mutated, run_control,
}
use talyvor_track.Toolchain.Caught.{all_caught, all_caught-add}

abbrev pub is_failed : Verdict → Bool
is_failed anchor_failed = true
is_failed _ = false

-- One verdict more at most, and not ANCHOR-FAILED where `b` holds.
abbrev pub Adds : Bool → Progress → Progress → Type 0
Adds b p q =
    (q.results ≡ p.results)
    ⊎ ((v : Verdict) × ((b && is_failed v) ≡ false) × (q.results ≡ p.results ++ (v ∷ [])))

verdict_not_failed : (red_ok green_ok : Bool) → is_failed (verdict_of red_ok green_ok) ≡ false
unfolding verdict_of
verdict_not_failed true true = refl
verdict_not_failed true false = refl
verdict_not_failed false true = refl
verdict_not_failed false false = refl

still_not_failed : (green_ok : Bool) → is_failed (if green_ok then caught else missed) ≡ false
still_not_failed true = refl
still_not_failed false = refl

module _ (env : Env) where
  judge_green-Adds :
      (red_ok : Bool) (green_ok : Option Bool) (p : Progress)
      → Adds true p (judge_green env red_ok green_ok p)
  unfolding judge_green
  judge_green-Adds red_ok none p = inl refl
  judge_green-Adds red_ok (some green_ok) p =
      inr (verdict_of red_ok green_ok, verdict_not_failed red_ok green_ok, refl)

  either-Adds :
      (b : Bool) (p q o : Progress)
      → Adds true p q
      → Adds true p o
      → Adds true p (if b then q else o)
  either-Adds true p q o g h = g
  either-Adds false p q o g h = h

  judge_red-Adds :
      (c : Control) (red_ok : Option Bool) (p : Progress) → Adds true p (judge_red env c red_ok p)
  unfolding judge_red
  judge_red-Adds c none p = inl refl
  judge_red-Adds c (some red_ok) p =
      let after = record p { process = run_on env (name_of c.green) p.process } in
      either-Adds (is_named c.green) p
        (judge_green env red_ok (run env (name_of c.green) p.process) after)
        (judge_green env red_ok (some true) p)
        (judge_green-Adds red_ok (run env (name_of c.green) p.process) after)
        (judge_green-Adds red_ok (some true) p)

  judge_still-Adds :
      (green_ok : Option Bool) (p : Progress) → Adds true p (judge_still env green_ok p)
  unfolding judge_still
  judge_still-Adds none p = inl refl
  judge_still-Adds (some green_ok) p =
      inr (if green_ok then caught else missed, still_not_failed green_ok, refl)

  judge-Adds : (c : Control) (red : Option String) (p : Progress) → Adds true p (judge env c red p)
  unfolding judge
  judge-Adds c none p =
      judge_still-Adds (run env (name_of c.green) p.process)
        (record p { process = run_on env (name_of c.green) p.process })
  judge-Adds c (some red) p =
      judge_red-Adds c (run env red p.process) (record p { process = run_on env red p.process })

  weaken : (p q : Progress) → Adds true p q → Adds false p q
  weaken p q a = elim a [ inl e ↦ inl e | inr (v, f, e) ↦ inr (v, refl, e) ]

  pub run_control-Adds :
      (c : Control) (file : Option Text) (p : Progress) → Adds false p (run_control env c file p)
  unfolding run_control finally
  run_control-Adds c none p = inl refl
  run_control-Adds c (some backup) p =
      try_mutated-Adds (anchored c.anchor c.expect backup)
        (record p { process = restore_on_signal ((c.path, backup) ∷ []) p.process })
    where
      try_mutated-Adds :
          (text : Option Text) (p : Progress) → Adds false p (try_mutated env c text p)
      try_mutated-Adds none p = unfold try_mutated in inr (anchor_failed, refl, refl)
      try_mutated-Adds (some text) p =
          unfold try_mutated in
          weaken (record p { process = write c.path text p.process })
            (judge env c c.red (record p { process = write c.path text p.process }))
            (judge-Adds c c.red (record p { process = write c.path text p.process }))

  pub run_control-applied :
      (c : Control) (backup text : Text) (p : Progress)
      → anchored c.anchor c.expect backup ≡ some text
      → Adds true p (run_control env c (some backup) p)
  unfolding run_control finally
  run_control-applied c backup text p e =
      let installed = record p { process = restore_on_signal ((c.path, backup) ∷ []) p.process } in
      subst (λ (t : Option Text). Adds true p (try_mutated env c t installed)) (sym e)
        (unfold try_mutated in
          judge-Adds c c.red (record installed { process = write c.path text installed.process }))

any-add :
    (vs : List Verdict) (v : Verdict)
    → any is_failed (vs ++ (v ∷ [])) ≡ (any is_failed vs || is_failed v)
any-add [] v = ground arith
any-add (w ∷ vs) v = ground (arith, any-add vs v)

pub Adds-caught :
    (b : Bool) (p q : Progress)
    → Adds b p q
    → all_caught q.results ≡ true
    → all_caught p.results ≡ true
Adds-caught b p q a h = elim a [
  | inl e ↦ sym (ap all_caught e) ∙ h
  | inr (v, f, e) ↦ ground (arith, ap all_caught e, all_caught-add p.results v)
]

pub Adds-unfailed :
    (p q : Progress)
    → Adds true p q
    → any is_failed p.results ≡ false
    → any is_failed q.results ≡ false
Adds-unfailed p q a h = elim a [
  | inl e ↦ ap (λ (x : List Verdict). any is_failed x) e ∙ h
  | inr (v, f, e) ↦ ap (λ (x : List Verdict). any is_failed x) e ∙ (any-add p.results v ∙ (rw h f))
]
