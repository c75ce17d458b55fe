-- ===== src/Campaign/Sweeps.antt =====
-- What the two loops over tests, and the score of a mutation, say of each test.
use mathlib.Core.Path.{subst}
use talyvor_track.Prelude.{
  String, ◌≡◌, refl, ◌∙◌, Bool, true, false, List, [], ◌∷◌, arith, In, inl, inr, Bool-cases,
  if◌then◌else◌, is_empty,
}
use talyvor_track.Harness.Disk.{Disk}
use talyvor_track.Campaign.Suite.{
  Env, Passed, crashed, unscored, passed, failed, run, run_disk, command,
}
use talyvor_track.Campaign.Runner.{
  Control, Verdict, is_bad, Sweep, sweep_from, is_wanted, add_run, sweep, sweep_greens, score,
}
use talyvor_track.Campaign.Restored.{IsReadOnly}

unfoldable pub wanted : Bool → Passed
wanted true = failed
wanted false = passed

is_wanted-wanted : (red : Bool) (p : Passed) → is_wanted red p ≡ true → p ≡ wanted red
unfolding is_wanted wanted
is_wanted-wanted true failed h = refl
is_wanted-wanted false passed h = refl
is_wanted-wanted false failed h = absurd (cc)
is_wanted-wanted true passed h = absurd (cc)
is_wanted-wanted red crashed h = absurd (cc)
is_wanted-wanted red unscored h = absurd (cc)

add_run-wanted :
    (red : Bool) (p : Passed) (e : Disk) (s : Sweep)
    → (add_run red p e s).raised ≡ false
    → (add_run red p e s).ok ≡ true
    → (s.ok ≡ true) × (p ≡ wanted red)
unfolding add_run
add_run-wanted red crashed e s r o = absurd (cc)
add_run-wanted red unscored e s r o = (ground arith, is_wanted-wanted red unscored (ground arith))
add_run-wanted red passed e s r o = (ground arith, is_wanted-wanted red passed (ground arith))
add_run-wanted red failed e s r o = (ground arith, is_wanted-wanted red failed (ground arith))

add_run-left : (red : Bool) (p : Passed) (e : Disk) (s : Sweep) → (add_run red p e s).disk ≡ e
unfolding add_run
add_run-left red crashed e s = refl
add_run-left red unscored e s = refl
add_run-left red passed e s = refl
add_run-left red failed e s = refl

either-sweep :
    (b : Bool) (s t : Sweep)
    → s.raised ≡ b
    → (if b then s else t).raised ≡ false
    → (if b then s else t).ok ≡ true
    → (b ≡ false) × ((t.raised ≡ false) × (t.ok ≡ true))
either-sweep true s t e r o = absurd (cc (e, r))
either-sweep false s t e r o = (refl, (r, o))

module _ (env : Env) (ro : IsReadOnly env) where
  -- A loop that ends well: it began well, and every test went as wanted.
  pub sweep-wanted :
      (red : Bool) (pkg : String) (ts : List String) (s : Sweep)
      → (sweep env red pkg ts s).raised ≡ false
      → (sweep env red pkg ts s).ok ≡ true
      → ((s.raised ≡ false) × (s.ok ≡ true))
        × ((t : String) → In t ts → run env (t ∷ []) pkg s.disk ≡ wanted red)
  unfolding sweep run_disk
  sweep-wanted red pkg [] s r o = ((r, o), λ t q. absurd q)
  sweep-wanted red pkg (t ∷ ts) s r o =
      let ran = run env (t ∷ []) pkg s.disk in
      let left = (env.go (command (t ∷ []) pkg) s.disk).disk in
      let next = add_run red ran left s in
      let (quiet, (r', o')) = either-sweep s.raised s (sweep env red pkg ts next) refl r o in
      let ((r'', o''), rest) = sweep-wanted red pkg ts next r' o' in
      let (ok, here) = add_run-wanted red ran left s r'' o'' in
      let same : next.disk ≡ s.disk =
        add_run-left red ran left s ∙ ro (command (t ∷ []) pkg) s.disk in
      (
        (quiet, ok),
        λ u q. elim q [
          | inl e ↦ subst (λ x. run env (x ∷ []) pkg s.disk ≡ wanted red) e here
          | inr z ↦ subst (λ x. run env (u ∷ []) pkg x ≡ wanted red) same (rest u z)
        ],
      )

  pub sweep_greens-quiet :
      (c : Control) (reds : Sweep) → (sweep_greens env c reds).raised ≡ false → reds.raised ≡ false
  unfolding sweep_greens
  sweep_greens-quiet c reds r = elim (Bool-cases reds.raised) [
    | inl e ↦ ground (arith, e)
    | inr e ↦ e
  ]

  pub sweep_greens-wanted :
      (c : Control) (reds : Sweep)
      → (sweep_greens env c reds).raised ≡ false
      → (sweep_greens env c reds).ok ≡ true
      → (t : String) → In t c.must_green
      → run env (t ∷ []) c.pkg reds.disk ≡ passed
  unfolding sweep_greens wanted
  sweep_greens-wanted c reds r o =
      let rest = sweep env false c.pkg c.must_green (sweep_from reds.disk) in
      let (quiet, (r', o')) = either-sweep reds.raised reds rest refl r o in
      (sweep-wanted false c.pkg c.must_green (sweep_from reds.disk) r' o').1

pub not_empty : (ts : List String) (t : String) → In t ts → is_empty ts ≡ false
not_empty [] t q = absurd q
not_empty (u ∷ ts) t q = refl

pub score-red :
    (no_red no_green red_ok green_ok restored : Bool)
    → is_bad (Verdict.scored (score no_red no_green red_ok green_ok) restored) ≡ false
    → no_red ≡ false
    → red_ok ≡ true
unfolding is_bad score
score-red false no_green true green_ok restored h e = refl
score-red false no_green false green_ok true h e = absurd (cc)
score-red false no_green false green_ok false h e = absurd (cc)
score-red true no_green red_ok green_ok restored h e = absurd (cc)

pub score-green :
    (no_red no_green red_ok green_ok restored : Bool)
    → is_bad (Verdict.scored (score no_red no_green red_ok green_ok) restored) ≡ false
    → no_green ≡ false
    → green_ok ≡ true
unfolding is_bad score
score-green no_red no_green red_ok true restored h e = refl
score-green false no_green true false true h e = absurd (cc)
score-green false no_green true false false h e = absurd (cc)
score-green false no_green false false true h e = absurd (cc)
score-green false no_green false false false h e = absurd (cc)
score-green true true red_ok false restored h e = absurd (cc)
score-green true false red_ok false true h e = absurd (cc)
score-green true false red_ok false false h e = absurd (cc)
