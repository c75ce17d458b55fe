-- ===== src/Campaign/Restored.antt =====
-- What a campaign leaves of the tree.
use talyvor_track.Prelude.{
  String, ◌≡◌, refl, sym, ap, ◌∙◌, Bool, true, false, Option, none, some, List, [], ◌∷◌, ◌++◌, map,
  arith, In, inl, inr, Text, count, replace_first, contains, contains_of_In, contains-sorted,
  sorted, str_eq, eq_iff, Bool-cases, if◌then◌else◌, ◌==◌,
}
use mathlib.Core.Path.{subst, fun_ext}
use mathlib.Core.Option.{some-injective}
use talyvor_track.Harness.Disk.{Disk, put}
use talyvor_track.Campaign.Suite.{
  Env, Passed, crashed, unscored, passed, failed, run, run_disk, command,
}
use talyvor_track.Campaign.Runner.{
  Control, Progress, Sweep, sweep_from, Outcome, Hashes, hash_of, with_hash, same_hash, sha,
  hash_all, add_run, sweep, sweep_greens, judge, measure, after_edit, edit_control, try_anchor,
  scoped_parts, try_parts, try_control, run_controls, summary, from_baseline, from_hashes, is_unset,
  main_with,
}

-- The tests change no file of the tree.
abbrev pub IsReadOnly : Env → Type 0
IsReadOnly env = (args : List String) (d : Disk) → (env.go args d).disk ≡ d

-- What stood in a file is put back.
pub put-put :
    (p : String) (src new : Text) (d : Disk) → d p ≡ some src → put p src (put p new d) ≡ d
unfolding put
put-put p src new d there = fun_ext λ q. elim (Bool-cases (str_eq p q)) [
  | inl e ↦ ground (arith, there, eq_iff p q)
  | inr e ↦ ground arith
]

pub put-here : (p : String) (src : Text) (d : Disk) → put p src d p ≡ some src
unfolding put
put-here p src d = ground (arith, eq_iff p p)

module _ (env : Env) where
  with_hash-value :
      (d : Disk) (p q : String) (h : Option String) (rest : Option Hashes) (hs : Hashes)
      → sha env d p ≡ h
      → (str_eq p q ≡ false → (r : Hashes) → rest ≡ some r → hash_of r q ≡ sha env d q)
      → with_hash p h rest ≡ some hs
      → hash_of hs q ≡ sha env d q
  unfolding with_hash
  with_hash-value d p q (some h) (some r) hs here there e =
      unfold hash_of in
      subst (λ (x : Hashes). hash_of x q ≡ sha env d q) (some-injective ((p, h) ∷ r) hs e)
        (elim (Bool-cases (str_eq p q)) [
          | inl k ↦ rw k (sym here ∙ ap (sha env d) ((eq_iff p q).0 k))
          | inr k ↦ rw k (there k r refl)
        ])
  with_hash-value d p q (some h) none hs here there e = absurd (cc)
  with_hash-value d p q none rest hs here there e = absurd (cc)

  -- The hashes are those of the files.
  hash_all-value :
      (d : Disk) (ps : List String) (hs : Hashes) (q : String)
      → contains ps q ≡ true
      → hash_all env d ps ≡ some hs
      → hash_of hs q ≡ sha env d q
  unfolding hash_all
  hash_all-value d [] hs q c h = absurd (cc)
  hash_all-value d (p ∷ ps) hs q c h =
      with_hash-value d p q (sha env d p) (hash_all env d ps) hs refl
        (λ e r k. hash_all-value d ps r q (ground (arith, eq_iff p q)) k) h

-- The hashes that `main` compares with.
abbrev pub Knows : Env → Disk → Hashes → Control → Type 0
Knows env d before c = hash_of before c.path ≡ sha env d c.path

In-paths :
    (cs : List Control) (c : Control) → In c cs → In c.path (map (λ (x : Control). x.path) cs)
In-paths [] c q = absurd q
In-paths (k ∷ cs) c q = elim q [
  | inl e ↦ inl (ap (λ (x : Control). x.path) e)
  | inr z ↦ inr (In-paths cs c z)
]

pub Knows-all :
    (env : Env) (cs : List Control) (d : Disk) (hs : Hashes)
    → hash_all env d (sorted (map (λ (x : Control). x.path) cs)) ≡ some hs
    → (c : Control) → In c cs
    → Knows env d hs c
Knows-all env cs d hs h c q =
    hash_all-value env d (sorted (map (λ (x : Control). x.path) cs)) hs c.path
      (contains-sorted (map (λ (x : Control). x.path) cs) c.path
        ∙ contains_of_In (map (λ (x : Control). x.path) cs) c.path (In-paths cs c q))
      h

module _ (env : Env) (d : Disk) (ro : IsReadOnly env) where
  add_run-disk : (red : Bool) (p : Passed) (e : Disk) (s : Sweep) → (add_run red p e s).disk ≡ e
  unfolding add_run
  add_run-disk red crashed e s = refl
  add_run-disk red unscored e s = refl
  add_run-disk red passed e s = refl
  add_run-disk red failed e s = refl

  either-disk :
      (b : Bool) (s t : Sweep) (e : Disk) → s.disk ≡ e → t.disk ≡ e → (if b then s else t).disk ≡ e
  either-disk true s t e h k = h
  either-disk false s t e h k = k

  pub sweep-disk :
      (red : Bool) (pkg : String) (ts : List String) (s : Sweep)
      → (sweep env red pkg ts s).disk ≡ s.disk
  unfolding sweep run_disk
  sweep-disk red pkg [] s = refl
  sweep-disk red pkg (t ∷ ts) s =
      let next =
        add_run red (run env (t ∷ []) pkg s.disk) (env.go (command (t ∷ []) pkg) s.disk).disk s in
      either-disk s.raised s (sweep env red pkg ts next) s.disk refl (
        sweep-disk red pkg ts next
        ∙ add_run-disk red (run env (t ∷ []) pkg s.disk) (env.go (command (t ∷ []) pkg) s.disk).disk
            s
        ∙ ro (command (t ∷ []) pkg) s.disk)

  pub sweep_greens-disk : (c : Control) (reds : Sweep) → (sweep_greens env c reds).disk ≡ reds.disk
  unfolding sweep_greens
  sweep_greens-disk c reds =
      either-disk reds.raised reds (sweep env false c.pkg c.must_green (sweep_from reds.disk))
        reds.disk refl (sweep-disk false c.pkg c.must_green (sweep_from reds.disk))

  judge-disk :
      (c : Control) (red_ok green_ok : Bool) (same : Option Bool) (p : Progress)
      → (judge env c red_ok green_ok same p).disk ≡ p.disk
  unfolding judge
  judge-disk c red_ok green_ok none p = refl
  judge-disk c red_ok green_ok (some restored) p = refl

  either-progress :
      (b : Bool) (p q : Progress) (e : Disk)
      → p.disk ≡ e
      → q.disk ≡ e
      → (if b then p else q).disk ≡ e
  either-progress true p q e h k = h
  either-progress false p q e h k = k

  measure-disk :
      (before : Hashes) (c : Control) (src new : Text) (p : Progress)
      → d c.path ≡ some src
      → p.disk ≡ put c.path new d
      → (measure env before c src p).disk ≡ d
  unfolding measure
  measure-disk before c src new p there h =
      let reds = sweep env true c.pkg c.must_red (sweep_from p.disk) in
      let greens = sweep_greens env c reds in
      let back = put c.path src greens.disk in
      let e : back ≡ d =
        ap (put c.path src)
          (sweep_greens-disk c reds ∙ sweep-disk true c.pkg c.must_red (sweep_from p.disk) ∙ h)
        ∙ put-put c.path src new d there in
      either-progress greens.raised (record { raised = true; verdicts = p.verdicts; disk = back }) _
        d e
        (judge-disk c reds.ok greens.ok (same_hash (sha env back c.path) (hash_of before c.path))
            (record p { disk = back })
          ∙ e)

  after_edit-disk :
      (before : Hashes) (c : Control) (src new : Text) (same : Bool) (p : Progress)
      → d c.path ≡ some src
      → p.disk ≡ put c.path new d
      → (after_edit env before c src (some same) p).disk ≡ d
  unfolding after_edit
  after_edit-disk before c src new true p there h =
      ap (put c.path src) h ∙ put-put c.path src new d there
  after_edit-disk before c src new false p there h = measure-disk before c src new p there h

  sha-some :
      (e : Disk) (q : String) (blob : Text) → e q ≡ some blob → sha env e q ≡ some (env.sha256 blob)
  sha-some e q blob h = rw (sha, h) refl

  -- Both files are there when an edit is compared.
  pub same_hash-some :
      (before : Hashes) (c : Control) (src new : Text)
      → Knows env d before c
      → d c.path ≡ some src
      → same_hash (sha env (put c.path new d) c.path) (hash_of before c.path)
        ≡ some (str_eq (env.sha256 new) (env.sha256 src))
  same_hash-some before c src new k there =
      rw
        (
          sha-some (put c.path new d) c.path new (put-here c.path new d),
          k ∙ sha-some d c.path src there,
        )
        refl

  edit_control-disk :
      (before : Hashes) (c : Control) (src head body : Text) (p : Progress)
      → Knows env d before c
      → d c.path ≡ some src
      → p.disk ≡ d
      → (edit_control env before c src head body p).disk ≡ d
  unfolding edit_control
  edit_control-disk before c src head body p k there h =
      let new = head ++ replace_first c.anchor c.repl body in
      let e = ap (put c.path new) h in
      rw
        (ap (λ (x : Disk). same_hash (sha env x c.path) (hash_of before c.path)) e
          ∙ same_hash-some before c src new k there)
        (after_edit-disk before c src new (str_eq (env.sha256 new) (env.sha256 src))
          (record p { disk = put c.path new p.disk }) there e)

  try_parts-disk :
      (before : Hashes) (c : Control) (src : Text) (parts : Option (Text × Text)) (p : Progress)
      → Knows env d before c
      → d c.path ≡ some src
      → p.disk ≡ d
      → (try_parts env before c src parts p).disk ≡ d
  unfolding try_parts try_anchor
  try_parts-disk before c src none p k there h = h
  try_parts-disk before c src (some (head, body)) p k there h =
      either-progress (count c.anchor body == 1) (edit_control env before c src head body p) _ d
        (edit_control-disk before c src head body p k there h) h

  pub try_control-disk :
      (before : Hashes) (c : Control) (file : Option Text) (p : Progress)
      → Knows env d before c
      → d c.path ≡ file
      → p.disk ≡ d
      → (try_control env before c file p).disk ≡ d
  unfolding try_control
  try_control-disk before c none p k there h = h
  try_control-disk before c (some src) p k there h =
      try_parts-disk before c src (scoped_parts env c.scope src) p k there h

  run_controls-disk :
      (before : Hashes) (cs : List Control) (p : Progress)
      → ((c : Control) → In c cs → Knows env d before c)
      → p.disk ≡ d
      → (run_controls env before cs p).disk ≡ d
  unfolding run_controls
  run_controls-disk before [] p k h = h
  run_controls-disk before (c ∷ cs) p k h = either-progress p.raised p _ d h (
      run_controls-disk before cs (try_control env before c (p.disk c.path) p) (λ x q. k x (inr q))
        (try_control-disk before c (p.disk c.path) p (k c (inl refl))
          (sym (ap (λ (x : Disk). x c.path) h)) h))

  from_baseline-disk :
      (before : Hashes) (cs : List Control) (b : Passed) (e : Disk)
      → ((c : Control) → In c cs → Knows env d before c)
      → e ≡ d
      → (from_baseline env before cs b e).disk ≡ d
  unfolding from_baseline summary
  from_baseline-disk before cs crashed e k h = h
  from_baseline-disk before cs unscored e k h = h
  from_baseline-disk before cs failed e k h = h
  from_baseline-disk before cs passed e k h =
      run_controls-disk before cs (record { raised = false; verdicts = []; disk = e }) k h

  from_hashes-disk :
      (hs : Option Hashes) (imp : String) (cs : List Control)
      → hash_all env d (sorted (map (λ (x : Control). x.path) cs)) ≡ hs
      → (from_hashes env hs imp cs d).disk ≡ d
  unfolding from_hashes run_disk
  from_hashes-disk none imp cs h = refl
  from_hashes-disk (some before) imp cs h =
      from_baseline-disk before cs (run env [] imp d) _ (Knows-all env cs d before h)
        (ro (command [] imp) d)

  either-outcome :
      (b : Bool) (p q : Outcome) (e : Disk)
      → p.disk ≡ e
      → q.disk ≡ e
      → (if b then p else q).disk ≡ e
  either-outcome true p q e h k = h
  either-outcome false p q e h k = k

-- If the tests themselves change no file and no signal ends it, a campaign over any table of controls ends
-- with the disk that it found, also where the database is not set, a file is missing, the baseline is red, an anchor or a scope
-- marker is not found, an edit changes nothing, or starting a test raises in the middle of a mutation.
pub main-restored :
    (env : Env) (imp : String) (cs : List Control) (d : Disk)
    → IsReadOnly env
    → (main_with env imp cs d).disk ≡ d
unfolding main_with
main-restored env imp cs d ro =
    either-outcome env d ro (is_unset env env.database_url)
      (record { status = some 3; verdicts = []; disk = d })
      (from_hashes env (hash_all env d (sorted (map (λ (c : Control). c.path) cs))) imp cs d) d refl
      (from_hashes-disk env d ro (hash_all env d (sorted (map (λ (c : Control). c.path) cs))) imp cs
        refl)
