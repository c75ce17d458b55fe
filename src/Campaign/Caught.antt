-- ===== src/Campaign/Caught.antt =====
-- What an exit status of 0 says of the controls of a campaign.
use mathlib.Core.Path.{subst}
use mathlib.Core.Option.{some-injective}
use talyvor_track.Prelude.{
  ℕ, String, ◌≡◌, refl, sym, ap, ◌∙◌, Bool, true, false, Option, none, some, List, [], ◌∷◌, map,
  any, arith, In, inl, inr, Text, count, replace_first, sorted, str_eq, Bool-cases, if◌then◌else◌,
  ◌==◌, ==_iff, is_empty,
}
use talyvor_track.Harness.Disk.{Disk, put}
use talyvor_track.Campaign.Suite.{
  Env, Passed, crashed, unscored, passed, failed, run, run_disk, command,
}
use talyvor_track.Campaign.Runner.{
  Control, Verdict, is_bad, add_verdict, Progress, sweep_from, Outcome, Hashes, hash_of, same_hash,
  sha, hash_all, sweep, sweep_greens, score, judge, measure, after_edit, edit_control, try_anchor,
  scoped_parts, try_parts, try_control, run_controls, summary, from_baseline, from_hashes, is_unset,
  main_with,
}
use talyvor_track.Campaign.Restored.{
  IsReadOnly, Knows, Knows-all, same_hash-some, sweep-disk, try_control-disk,
}
use talyvor_track.Campaign.Sweeps.{
  wanted, sweep-wanted, sweep_greens-quiet, sweep_greens-wanted, not_empty, score-red, score-green,
}
use talyvor_track.Campaign.Verdicts.{is_fine, is_fine-any, is_fine-set, run_controls-same}

-- The tree with one control planted.
abbrev pub planted : Disk → Control → Text → Disk
planted d c original = put c.path (replace_first c.anchor c.repl original) d

-- The control does what its table row says: its file is there, its anchor stands there once, the edit
-- changes the file, and on the tree with the edit each test of `must_red` runs and fails and each test
-- of `must_green` runs and passes.
pub record IsCaught (env : Env) (d : Disk) (c : Control) : Type 0 where
  pub original : Text
  pub there : d c.path ≡ some original
  pub once : count c.anchor original ≡ 1
  pub changed :
      str_eq (env.sha256 (replace_first c.anchor c.repl original)) (env.sha256 original) ≡ false
  pub reds : (t : String) → In t c.must_red → run env (t ∷ []) c.pkg (planted d c original) ≡ failed
  pub greens :
      (t : String) → In t c.must_green → run env (t ∷ []) c.pkg (planted d c original) ≡ passed

-- No two rows of a table have the same id.
abbrev pub HasUniqueIds : List Control → Type 0
HasUniqueIds [] = Unit
HasUniqueIds (c ∷ cs) = ((x : Control) → In x cs → str_eq x.cid c.cid ≡ false) × HasUniqueIds cs

either-fine :
    (b : Bool) (p q : Progress) (k : String)
    → p.raised ≡ true
    → (if b then p else q).raised ≡ false
    → is_fine (if b then p else q).verdicts k ≡ true
    → (b ≡ false) × ((q.raised ≡ false) × (is_fine q.verdicts k ≡ true))
either-fine true p q k e r f = absurd (cc (e, r))
either-fine false p q k e r f = (refl, (r, f))

module _ (env : Env) (ro : IsReadOnly env) (d : Disk) (before : Hashes) (c : Control) where
  judge-fine :
      (red_ok green_ok : Bool) (same : Option Bool) (p : Progress)
      → (judge env c red_ok green_ok same p).raised ≡ false
      → is_fine (judge env c red_ok green_ok same p).verdicts c.cid ≡ true
      → ((t : String) → In t c.must_red → red_ok ≡ true)
        × ((t : String) → In t c.must_green → green_ok ≡ true)
  unfolding judge
  judge-fine red_ok green_ok none p r f = absurd (cc)
  judge-fine red_ok green_ok (some restored) p r f =
      let v =
        Verdict.scored (score (is_empty c.must_red) (is_empty c.must_green) red_ok green_ok)
          restored in
      let good : is_bad v ≡ false = ground (arith, is_fine-set c.cid v p.verdicts) in
      (
        λ t q. score-red _ _ red_ok green_ok restored good (not_empty c.must_red t q),
        λ t q. score-green _ _ red_ok green_ok restored good (not_empty c.must_green t q),
      )

  measure-fine :
      (src : Text) (p : Progress)
      → (measure env before c src p).raised ≡ false
      → is_fine (measure env before c src p).verdicts c.cid ≡ true
      → ((t : String) → In t c.must_red → run env (t ∷ []) c.pkg p.disk ≡ failed)
        × ((t : String) → In t c.must_green → run env (t ∷ []) c.pkg p.disk ≡ passed)
  unfolding measure wanted
  measure-fine src p r f =
      let reds = sweep env true c.pkg c.must_red (sweep_from p.disk) in
      let greens = sweep_greens env c reds in
      let back = put c.path src greens.disk in
      let same = same_hash (sha env back c.path) (hash_of before c.path) in
      let judged = judge env c reds.ok greens.ok same (record p { disk = back }) in
      let (quiet, (r', f')) =
        either-fine greens.raised (record { raised = true; verdicts = p.verdicts; disk = back })
          judged c.cid refl r f in
      let (red_ok, green_ok) = judge-fine reds.ok greens.ok same (record p { disk = back }) r' f' in
      (
        λ t q.
            (sweep-wanted env ro true c.pkg c.must_red (sweep_from p.disk)
                (sweep_greens-quiet env ro c reds quiet) (red_ok t q)).1
              t q,
        λ t q.
            subst (λ x. run env (t ∷ []) c.pkg x ≡ passed)
              (sweep-disk env p.disk ro true c.pkg c.must_red (sweep_from p.disk))
              (sweep_greens-wanted env ro c reds quiet (green_ok t q) t q),
      )

  after_edit-fine :
      (src : Text) (same : Bool) (p : Progress)
      → (after_edit env before c src (some same) p).raised ≡ false
      → is_fine (after_edit env before c src (some same) p).verdicts c.cid ≡ true
      → (same ≡ false)
        × ((t : String) → In t c.must_red → run env (t ∷ []) c.pkg p.disk ≡ failed)
        × ((t : String) → In t c.must_green → run env (t ∷ []) c.pkg p.disk ≡ passed)
  unfolding after_edit is_bad
  after_edit-fine src true p r f =
      absurd (cc (f, is_fine-set c.cid Verdict.edit_changed_nothing p.verdicts))
  after_edit-fine src false p r f =
      let (reds, greens) = measure-fine src p r f in (refl, reds, greens)

  edit_control-IsCaught :
      (src : Text) (p : Progress)
      → Knows env d before c
      → d c.path ≡ some src
      → p.disk ≡ d
      → count c.anchor src ≡ 1
      → (edit_control env before c src [] src p).raised ≡ false
      → is_fine (edit_control env before c src [] src p).verdicts c.cid ≡ true
      → IsCaught env d c
  unfolding edit_control
  edit_control-IsCaught src p k there same once r f =
      let new = replace_first c.anchor c.repl src in
      let mutated = put c.path new p.disk in
      let e : mutated ≡ planted d c src = ap (put c.path new) same in
      let hashes : same_hash (sha env mutated c.path) (hash_of before c.path)
          ≡ some (str_eq (env.sha256 new) (env.sha256 src)) =
        ap (λ (x : Disk). same_hash (sha env x c.path) (hash_of before c.path)) e
        ∙ same_hash-some env d ro before c src new k there in
      let step = λ (h : Option Bool). after_edit env before c src h (record p { disk = mutated }) in
      let (changed, reds, greens) =
        after_edit-fine src (str_eq (env.sha256 new) (env.sha256 src)) (record p { disk = mutated })
          (sym (ap (λ h. (step h).raised) hashes) ∙ r)
          (sym (ap (λ h. is_fine (step h).verdicts c.cid) hashes) ∙ f) in
      record {
        original = src;
        there = there;
        once = once;
        changed = changed;
        reds = λ t q. subst (λ x. run env (t ∷ []) c.pkg x ≡ failed) e (reds t q);
        greens = λ t q. subst (λ x. run env (t ∷ []) c.pkg x ≡ passed) e (greens t q);
      }

  either-anchor :
      (b : Bool) (p q : Progress)
      → (b ≡ true → p.raised ≡ false → is_fine p.verdicts c.cid ≡ true → IsCaught env d c)
      → (b ≡ false → is_fine q.verdicts c.cid ≡ false)
      → (if b then p else q).raised ≡ false
      → is_fine (if b then p else q).verdicts c.cid ≡ true
      → IsCaught env d c
  either-anchor true p q h k r f = h refl r f
  either-anchor false p q h k r f = absurd (cc (k refl, f))

  try_anchor-IsCaught :
      (src : Text) (p : Progress)
      → Knows env d before c
      → d c.path ≡ some src
      → p.disk ≡ d
      → (try_anchor env before c src [] src p).raised ≡ false
      → is_fine (try_anchor env before c src [] src p).verdicts c.cid ≡ true
      → IsCaught env d c
  unfolding try_anchor is_bad
  try_anchor-IsCaught src p k there same r f =
      either-anchor (count c.anchor src == 1) (edit_control env before c src [] src p)
        (add_verdict c.cid (Verdict.anchor_count (count c.anchor src)) p)
        (λ e r' f'. edit_control-IsCaught src p k there same ((==_iff _ 1).0 e) r' f')
        (λ e. is_fine-set c.cid (Verdict.anchor_count (count c.anchor src)) p.verdicts) r f

  try_control-IsCaught :
      (file : Option Text) (p : Progress)
      → Knows env d before c
      → d c.path ≡ file
      → p.disk ≡ d
      → c.scope ≡ none
      → (try_control env before c file p).raised ≡ false
      → is_fine (try_control env before c file p).verdicts c.cid ≡ true
      → IsCaught env d c
  unfolding try_control
  try_control-IsCaught none p k there same s r f = absurd (cc)
  try_control-IsCaught (some src) p k there same s r f =
      let e : scoped_parts env c.scope src ≡ some ([], src) =
        ap (λ x. scoped_parts env x src) s ∙ (unfold scoped_parts in refl) in
      let step = λ (h : Option (Text × Text)). try_parts env before c src h p in
      unfold try_parts in
      try_anchor-IsCaught src p k there same (sym (ap (λ h. (step h).raised) e) ∙ r)
        (sym (ap (λ h. is_fine (step h).verdicts c.cid) e) ∙ f)

module _ (env : Env) (ro : IsReadOnly env) (d : Disk) (before : Hashes) where
  not_raised :
      (cs : List Control) (p : Progress)
      → (run_controls env before cs p).raised ≡ false
      → p.raised ≡ false
  unfolding run_controls
  not_raised [] p h = h
  not_raised (c ∷ cs) p h = elim (Bool-cases p.raised) [ inl e ↦ ground (arith, e) | inr e ↦ e ]

  run_controls-cons :
      (c : Control) (cs : List Control) (p : Progress)
      → p.raised ≡ false
      → run_controls env before (c ∷ cs) p
        ≡ run_controls env before cs (try_control env before c (p.disk c.path) p)
  unfolding run_controls
  run_controls-cons c cs p e = rw e refl

  run_controls-IsCaught :
      (cs : List Control) (p : Progress)
      → HasUniqueIds cs
      → ((c : Control) → In c cs → Knows env d before c)
      → p.disk ≡ d
      → (run_controls env before cs p).raised ≡ false
      → ((k : String) → is_fine (run_controls env before cs p).verdicts k ≡ true)
      → (c : Control) → In c cs
      → c.scope ≡ none
      → IsCaught env d c
  run_controls-IsCaught [] p u k same r f x q s = absurd q
  run_controls-IsCaught (c ∷ cs) p (apart, u) k same r f x q s =
      let next = try_control env before c (p.disk c.path) p in
      let e = run_controls-cons c cs p (not_raised (c ∷ cs) p r) in
      let there = sym (ap (λ (o : Disk). o c.path) same) in
      let r' = sym (ap (λ (o : Progress). o.raised) e) ∙ r in
      let f' = λ (i : String). sym (ap (λ (o : Progress). is_fine o.verdicts i) e) ∙ f i in
      elim q [
        | inl z ↦
            subst (λ y. y.scope ≡ none → IsCaught env d y) z
              (λ s'.
                try_control-IsCaught env ro d before c (p.disk c.path) p (k c (inl refl)) there same
                  s' (not_raised cs next r')
                  (sym (run_controls-same env before c.cid cs next apart) ∙ f' c.cid))
              s
        | inr z ↦
            run_controls-IsCaught cs next u (λ y w. k y (inr w))
              (try_control-disk env d ro before c (p.disk c.path) p (k c (inl refl)) there same) r'
              f' x z s
      ]

status-clean :
    (raised bad : Bool)
    → ◌≡◌ {A = Option ℕ} (if raised then none else some (if bad then 1 else 0)) (some 0)
    → (raised ≡ false) × (bad ≡ false)
status-clean true bad h = absurd (cc)
status-clean false false h = (refl, refl)
status-clean false true h = absurd (not_zero 1 refl (some-injective _ _ h))
  where
    not_zero : (n : ℕ) → n ≡ 1 → n ≡ 0 → ⊥
    not_zero n e h = omega arith

two_not_zero : ◌≡◌ {A = Option ℕ} (some 2) (some 0) → ⊥
two_not_zero h = not_zero 2 refl (some-injective _ _ h)
  where
    not_zero : (n : ℕ) → n ≡ 2 → n ≡ 0 → ⊥
    not_zero n e h = omega arith

module _ (env : Env) (ro : IsReadOnly env) (d : Disk) (cs : List Control)
    (unique : HasUniqueIds cs) where
  from_baseline-IsCaught :
      (before : Hashes) (b : Passed) (e : Disk)
      → ((c : Control) → In c cs → Knows env d before c)
      → e ≡ d
      → (from_baseline env before cs b e).status ≡ some 0
      → (c : Control) → In c cs
      → c.scope ≡ none
      → IsCaught env d c
  unfolding from_baseline summary
  from_baseline-IsCaught before crashed e k same h = absurd (cc)
  from_baseline-IsCaught before unscored e k same h = absurd (two_not_zero h)
  from_baseline-IsCaught before failed e k same h = absurd (two_not_zero h)
  from_baseline-IsCaught before passed e k same h =
      let p = run_controls env before cs (record { raised = false; verdicts = []; disk = e }) in
      let (quiet, good) = status-clean p.raised (any (λ v. is_bad v.1) p.verdicts) h in
      run_controls-IsCaught env ro d before cs (record { raised = false; verdicts = []; disk = e })
        unique k same quiet (λ i. is_fine-any p.verdicts i good)

  from_hashes-IsCaught :
      (hs : Option Hashes) (imp : String)
      → hash_all env d (sorted (map (λ (x : Control). x.path) cs)) ≡ hs
      → (from_hashes env hs imp cs d).status ≡ some 0
      → (c : Control) → In c cs
      → c.scope ≡ none
      → IsCaught env d c
  unfolding from_hashes run_disk
  from_hashes-IsCaught none imp e h = absurd (cc)
  from_hashes-IsCaught (some before) imp e h =
      from_baseline-IsCaught before (run env [] imp d) _ (Knows-all env cs d before e)
        (ro (command [] imp) d) h

either-status :
    (b : Bool) (o q : Outcome)
    → o.status ≡ some 3
    → (if b then o else q).status ≡ some 0
    → q.status ≡ some 0
either-status true o q e h = absurd (not_zero 3 refl (some-injective _ _ (sym e ∙ h)))
  where
    not_zero : (n : ℕ) → n ≡ 3 → n ≡ 0 → ⊥
    not_zero n e h = omega arith
either-status false o q e h = h

-- If the tests change no file, the ids of the table differ, and the campaign exits with 0, then every
-- control that has no scope marker is caught: its file is there, its anchor stands there exactly once,
-- the edit changes the file's hash, and on the tree with that one edit each test that must go red runs
-- and fails, and each test that must stay green runs and passes.
pub main-IsCaught :
    (env : Env) (imp : String) (cs : List Control) (d : Disk)
    → IsReadOnly env
    → HasUniqueIds cs
    → (main_with env imp cs d).status ≡ some 0
    → (c : Control) → In c cs
    → c.scope ≡ none
    → IsCaught env d c
unfolding main_with
main-IsCaught env imp cs d ro unique h =
    let paths = sorted (map (λ (x : Control). x.path) cs) in
    let start : Outcome = record { status = some 3; verdicts = []; disk = d } in
    from_hashes-IsCaught env ro d cs unique (hash_all env d paths) imp refl (
      either-status (is_unset env env.database_url) start
        (from_hashes env (hash_all env d paths) imp cs d) refl h)
