-- ===== src/Toolchain/Scored.antt =====
-- A campaign that exits with 0: every control of its table was caught.
use talyvor_track.Prelude.{
  ℕ, String, ◌≡◌, refl, sym, ap, ◌∙◌, Bool, true, false, ◌&&◌, Option, none, some, List, [], ◌∷◌,
  arith, In, inl, inr, length, Bool-cases, if◌then◌else◌, ◌==◌, ==_iff,
}
use mathlib.Core.Path.{subst}
use talyvor_track.Harness.Disk.{Disk}
use talyvor_track.Harness.Process.{Process, start}
use talyvor_track.Toolchain.Anchors.{Control}
use talyvor_track.Toolchain.Runner.{
  Env, Verdict, Progress, Outcome, baseline_tests, count_caught, same_hashes, run, run_on,
  run_control, run_controls, hashes, exit_status, close, finish, from_baseline, from_hashes,
  campaign_with,
}
use talyvor_track.Toolchain.Restored.{
  IsReadOnly, IsQuiet, run_control-IsQuiet, run_on-IsQuiet, start-IsQuiet,
}
use talyvor_track.Toolchain.Caught.{all_caught, all_caught_of, IsCaught, run_control-IsCaught}
use talyvor_track.Toolchain.Verdicts.{run_control-Adds, Adds-caught}

module _ (env : Env) (d : Disk) (ro : IsReadOnly env) where
  not_raised :
      (cs : List Control) (p : Progress) → (run_controls env cs p).raised ≡ false → p.raised ≡ false
  unfolding run_controls
  not_raised [] p h = h
  not_raised (c ∷ cs) p h = elim (Bool-cases p.raised) [ inl e ↦ ground (arith, e) | inr e ↦ e ]

  run_controls-cons :
      (c : Control) (cs : List Control) (p : Progress)
      → p.raised ≡ false
      → run_controls env (c ∷ cs) p
        ≡ run_controls env cs (run_control env c (p.process.now.disk c.path) p)
  unfolding run_controls
  run_controls-cons c cs p e = rw e refl

  either-all_caught :
      (b : Bool) (p q : Progress)
      → (all_caught q.results ≡ true → all_caught p.results ≡ true)
      → all_caught (if b then p else q).results ≡ true
      → all_caught p.results ≡ true
  either-all_caught true p q h a = a
  either-all_caught false p q h a = h a

  run_controls-caught :
      (cs : List Control) (p : Progress)
      → all_caught (run_controls env cs p).results ≡ true
      → all_caught p.results ≡ true
  unfolding run_controls
  run_controls-caught [] p h = h
  run_controls-caught (c ∷ cs) p h =
      let next = run_control env c (p.process.now.disk c.path) p in
      either-all_caught p.raised p (run_controls env cs next)
        (λ a.
          Adds-caught false p next (run_control-Adds env c (p.process.now.disk c.path) p)
            (run_controls-caught cs next a))
        h

  run_controls-IsCaught :
      (cs : List Control) (p : Progress)
      → IsQuiet d p.process
      → (run_controls env cs p).raised ≡ false
      → all_caught (run_controls env cs p).results ≡ true
      → (c : Control) → In c cs
      → IsCaught env d c
  run_controls-IsCaught [] p i r a x q = absurd q
  run_controls-IsCaught (c ∷ cs) p i r a x q =
      let next = run_control env c (p.process.now.disk c.path) p in
      let e = run_controls-cons c cs p (not_raised (c ∷ cs) p r) in
      let r' = sym (ap (λ (o : Progress). o.raised) e) ∙ r in
      let a' = sym (ap (λ (o : Progress). all_caught o.results) e) ∙ a in
      let there = sym (ap (λ (o : Disk). o c.path) i.files) in
      elim q [
        | inl z ↦ subst (IsCaught env d) z (
            run_control-IsCaught env ro d c (p.process.now.disk c.path) p there i.files
              (not_raised cs next r') (run_controls-caught cs next a'))
        | inr z ↦
            run_controls-IsCaught cs next
              (run_control-IsQuiet env d ro c (p.process.now.disk c.path) p there i) r' a' x z
      ]

  status-caught :
      (results : List Verdict) (before after : List String) (ok : Option Bool)
      → exit_status env results before after ok ≡ some 0
      → all_caught results ≡ true
  unfolding exit_status
  status-caught results before after none h = absurd (cc)
  status-caught results before after (some ok) h = all_caught_of results (
      (==_iff _ _).0
        (first (count_caught results == length results) (same_hashes before after && ok) h))
    where
      first : (a b : Bool) → ◌≡◌ {A = Option ℕ} (some (if a && b then 0 else 1)) (some 0) → a ≡ true
      first true b h = refl
      first false b h = absurd (one_not_zero h)
        where
          one_not_zero : ◌≡◌ {A = Option ℕ} (some 1) (some 0) → ⊥
          one_not_zero h = ground arith

  close-caught :
      (before : List String) (after : Option (List String)) (p : Progress)
      → (close env before after p).status ≡ some 0
      → all_caught p.results ≡ true
  unfolding close
  close-caught before none p h = absurd (cc)
  close-caught before (some after) p h =
      status-caught p.results before after (run env baseline_tests p.process) h

  either-status :
      (b : Bool) (o q : Outcome)
      → o.status ≡ none
      → (if b then o else q).status ≡ some 0
      → (b ≡ false) × (q.status ≡ some 0)
  either-status true o q e h = absurd (cc (e, h))
  either-status false o q e h = (refl, h)

  from_baseline-IsCaught :
      (files : List String) (cs : List Control) (before : List String) (green : Option Bool)
      (s : Process)
      → IsQuiet d s
      → (from_baseline env files cs before green s).status ≡ some 0
      → (c : Control) → In c cs
      → IsCaught env d c
  unfolding from_baseline finish
  from_baseline-IsCaught files cs before none s i h = absurd (cc)
  from_baseline-IsCaught files cs before (some false) s i h = absurd (one_not_zero h)
    where
      one_not_zero : ◌≡◌ {A = Option ℕ} (some 1) (some 0) → ⊥
      one_not_zero h = ground arith
  from_baseline-IsCaught files cs before (some true) s i h =
      let p = run_controls env cs (record { raised = false; results = []; process = s }) in
      let (quiet, closed) =
        either-status p.raised (record { status = none; results = p.results; process = p.process })
          (close env before (hashes env p.process.now.disk files) p) refl h in
      run_controls-IsCaught cs (record { raised = false; results = []; process = s }) i quiet
        (close-caught before (hashes env p.process.now.disk files) p closed)

  from_hashes-IsCaught :
      (files : List String) (cs : List Control) (before : Option (List String))
      → (from_hashes env files cs before d).status ≡ some 0
      → (c : Control) → In c cs
      → IsCaught env d c
  unfolding from_hashes
  from_hashes-IsCaught files cs none h = absurd (cc)
  from_hashes-IsCaught files cs (some before) h =
      from_baseline-IsCaught files cs before (run env baseline_tests (start d))
        (run_on env baseline_tests (start d))
        (run_on-IsQuiet env d ro baseline_tests (start d) (start-IsQuiet d)) h

-- If the tests change no file and the campaign exits with 0, then every control is applied to its file,
-- and on the tree with that one edit the test that must go red fails (where the row names one), and the
-- test that must stay green passes.
pub campaign-IsCaught :
    (env : Env) (files : List String) (cs : List Control) (d : Disk)
    → IsReadOnly env
    → (campaign_with env files cs d).status ≡ some 0
    → (c : Control) → In c cs
    → IsCaught env d c
unfolding campaign_with
campaign-IsCaught env files cs d ro h =
    from_hashes-IsCaught env d ro files cs (hashes env d files) h
