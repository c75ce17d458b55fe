-- ===== src/Kill/Killed.antt =====
-- Where a run of a script got to when it was killed, and what its outcome says.
use talyvor_track.Prelude.{
  ℕ, zero, suc, String, ◌≡◌, refl, ap, Bool, true, false, Option, none, some, List, inl, inr, Text,
  is_empty, Bool-cases,
}
use mathlib.Core.Path.{subst}
use mathlib.Core.Option.{some-injective}
use talyvor_track.Harness.Disk.{Disk, put}
use talyvor_track.Harness.Process.{Process, proceed, write}
use talyvor_track.Kill.Lines.{disabled}
use talyvor_track.Kill.Tree.{newly_dirty}
use talyvor_track.Kill.Runs.{
  Env, Outcome, defect, path_of, judge, send_term, give_up, wait, watch, run_disabled, try_case,
  finally, run_read, run_case,
}

-- A running script and its disk, some turns of the loop later, where it had not ended at any of them.
pub data Reaches {Script : Type 0} (env : Env Script) : Script → Disk → Script → Disk → Type 0 where
  here : {x : Script} {d : Disk} → Reaches env x d x d
  later :
      {x : Script} {d : Disk} {y : Script} {e : Disk}
      → env.ended x ≡ false
      → Reaches env (env.go_on x d).0 (env.go_on x d).1 y e
      → Reaches env x d y e

-- The script was still running when it was killed, it had changed the tree, it died of SIGTERM, and this is
-- what was found then.
pub record IsKilled {Script : Type 0} (env : Env Script) (baseline : List Text) (x : Script)
    (d : Disk) (o : Outcome) : Type 0 where
  pub script : Script
  pub disk : Disk
  pub reached : Reaches env x d script disk
  pub alive : env.ended script ≡ false
  pub changed : is_empty (newly_dirty env.git baseline disk) ≡ false
  pub died : (env.terminate script disk).exited ≡ true
  pub found : judge env baseline (env.terminate script disk).disk ≡ o

abbrev pub is_defect : Outcome → Bool
is_defect defect = true
is_defect _ = false

module _ {Script : Type 0} (env : Env Script) (baseline : List Text) where
  -- What a result is if the script was not found a defect.
  abbrev Tells : Script → Disk → Option Outcome → Type 0
  Tells x d none = Unit
  Tells x d (some o) = is_defect o ≡ false → IsKilled env baseline x d o

  send_term-Tells :
      (x : Script) (s : Process)
      → env.ended x ≡ false
      → is_empty (newly_dirty env.git baseline s.now.disk) ≡ false
      → Tells x s.now.disk (send_term env baseline x s).outcome
  unfolding send_term
  send_term-Tells x s a h = elim (Bool-cases (env.terminate x s.now.disk).exited) [
    | inl e ↦ rw e (λ o. record {
      script = x;
      disk = s.now.disk;
      reached = here;
      alive = a;
      changed = h;
      died = e;
      found = refl;
    })
    | inr e ↦ rw e (λ o. absurd (cc))
  ]

  give_up-Tells : (x : Script) (s : Process) → Tells x s.now.disk (give_up env baseline x s).outcome
  unfolding give_up
  give_up-Tells x s = elim (Bool-cases (env.terminate x s.now.disk).exited) [
    | inl e ↦ rw e (λ o. absurd (cc))
    | inr e ↦ rw e tt
  ]

  later-Tells :
      (x : Script) (d : Disk) (o : Option Outcome)
      → env.ended x ≡ false
      → Tells (env.go_on x d).0 (env.go_on x d).1 o
      → Tells x d o
  later-Tells x d none a h = tt
  later-Tells x d (some o) a h = λ n.
      let k = h n in
      record {
        script = k.script;
        disk = k.disk;
        reached = later a k.reached;
        alive = k.alive;
        changed = k.changed;
        died = k.died;
        found = k.found;
      }

  wait-Tells :
      (n : ℕ) (x : Script) (s : Process) → Tells x s.now.disk (wait env baseline n x s).outcome
  unfolding wait
  wait-Tells zero x s = give_up-Tells x s
  wait-Tells (suc n) x s =
      let next = env.go_on x s.now.disk in
      elim (Bool-cases (env.ended x)) [
        | inl e ↦ rw e (λ o. absurd (cc))
        | inr e ↦ rw e (elim (Bool-cases (is_empty (newly_dirty env.git baseline s.now.disk))) [
          | inl b ↦ rw b (
              later-Tells x s.now.disk (wait env baseline n next.0 (proceed next.1 s)).outcome e
                (wait-Tells n next.0 (proceed next.1 s)))
          | inr b ↦ rw b (send_term-Tells x s e b)
        ])
      ]

  watch-Tells :
      (o : Option Script) (s : Process) (out : Outcome)
      → (watch env baseline o s).outcome ≡ some out
      → is_defect out ≡ false
      → (x : Script) × (o ≡ some x) × IsKilled env baseline x s.now.disk out
  unfolding watch
  watch-Tells none s out h n = absurd (cc)
  watch-Tells (some x) s out h n =
      (x, refl, subst (Tells x s.now.disk) h (wait-Tells env.turns x s) n)

-- How a run starts: the script as it is, or without its handler.
abbrev pub Starts : {Script : Type 0} → Env Script → String → Bool → Disk → Script → Disk → Type 0
Starts env script true d x e = (e ≡ d) × (env.spawn (path_of script) e ≡ some x)
Starts env script false d x e =
    (original : Text) × (src : Text) × (d (path_of script) ≡ some original)
    × (disabled original ≡ some src)
    × (e ≡ put (path_of script) src d)
    × (env.spawn (path_of script) e ≡ some x)

-- A run that was not found a defect, from its start to the kill.
pub record Confirms {Script : Type 0} (env : Env Script) (baseline : List Text) (script : String)
    (with_handler : Bool) (d : Disk) (o : Outcome) : Type 0 where
  pub started : Script
  pub tree : Disk
  pub starts : Starts env script with_handler d started tree
  pub killed : IsKilled env baseline started tree o

module _ {Script : Type 0} (env : Env Script) (baseline : List Text) (script : String) where
  run_disabled-Confirms :
      (original : Text) (edited : Option Text) (s : Process) (o : Outcome)
      → s.now.disk (path_of script) ≡ some original
      → disabled original ≡ edited
      → (run_disabled env baseline script edited s).outcome ≡ some o
      → is_defect o ≡ false
      → Confirms env baseline script false s.now.disk o
  unfolding run_disabled write
  run_disabled-Confirms original none s o there e h n =
      absurd (cc (ap is_defect (some-injective defect o h), n))
  run_disabled-Confirms original (some src) s o there e h n =
      let edited = write (path_of script) src s in
      let (x, spawned, killed) =
        watch-Tells env baseline (env.spawn (path_of script) edited.now.disk) edited o h n in
      record {
        started = x;
        tree = edited.now.disk;
        starts = (original, src, there, e, refl, spawned);
        killed = killed;
      }

  try_case-Confirms :
      (with_handler : Bool) (original : Text) (s : Process) (o : Outcome)
      → s.now.disk (path_of script) ≡ some original
      → (try_case env baseline script with_handler original s).outcome ≡ some o
      → is_defect o ≡ false
      → Confirms env baseline script with_handler s.now.disk o
  unfolding try_case
  try_case-Confirms true original s o there h n =
      let (x, spawned, killed) =
        watch-Tells env baseline (env.spawn (path_of script) s.now.disk) s o h n in
      record { started = x; tree = s.now.disk; starts = (refl, spawned); killed = killed }
  try_case-Confirms false original s o there h n =
      run_disabled-Confirms original (disabled original) s o there refl h n

  run_read-Confirms :
      (with_handler : Bool) (file : Option Text) (s : Process) (o : Outcome)
      → s.now.disk (path_of script) ≡ file
      → (run_read env baseline script with_handler file s).outcome ≡ some o
      → is_defect o ≡ false
      → Confirms env baseline script with_handler s.now.disk o
  unfolding run_read finally
  run_read-Confirms with_handler none s o there h n = absurd (cc)
  run_read-Confirms with_handler (some original) s o there h n =
      try_case-Confirms with_handler original s o there h n

  pub run_case-Confirms :
      (with_handler : Bool) (s : Process) (o : Outcome)
      → (run_case env baseline script with_handler s).outcome ≡ some o
      → is_defect o ≡ false
      → Confirms env baseline script with_handler s.now.disk o
  unfolding run_case
  run_case-Confirms with_handler s o h n =
      run_read-Confirms with_handler (s.now.disk (path_of script)) s o refl h n
