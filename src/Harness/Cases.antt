-- ===== src/Harness/Cases.antt =====
-- What the loop over the catcher harness's controls says of each of them.
use mathlib.Core.Path.{subst, fun_ext}
use talyvor_track.Prelude.{
  ℕ, String, ◌≡◌, refl, sym, ap, ◌∙◌, Bool, true, false, not, ◌||◌, Option, none, some, List, [],
  ◌∷◌, ◌++◌, any, arith, In, inl, inr, Text, codes, count, replace_first, str_eq, eq_iff,
  Bool-cases, if◌then◌else◌, ◌==◌, ==_iff,
}
use talyvor_track.Harness.Disk.{Disk, put, Snapshot, TakenFrom, blob_of}
use talyvor_track.Harness.Process.{proceed, write}
use talyvor_track.Harness.Catcher.{
  Env, Case, Progress, Verdict, is_ok, verdict_of, add_result, judge_case, mutate_case, run_case,
  try_case, step_case, run_cases,
}
use talyvor_track.Harness.Restored.{IsReadOnly}

-- The control behaves: its file is there, its needle stands there once, and on the mutated tree the
-- check runs and is red exactly if that was predicted.
pub record Behaves (env : Env) (d : Disk) (c : Case) : Type 0 where
  pub original : Text
  pub there : d c.path ≡ some original
  pub once : count (codes c.find) original ≡ 1
  pub verdict :
      (env.check (put c.path (replace_first (codes c.find) (codes c.repl) original) d)).green
      ≡ some (not c.predict_red)

abbrev pub bad : List (String × Verdict) → Bool
bad results = any (λ r. not (is_ok r.1)) results

pub bad-add :
    (rs : List (String × Verdict)) (name : String) (v : Verdict)
    → bad (rs ++ ((name, v) ∷ [])) ≡ (bad rs || not (is_ok v))
bad-add [] name v = ground arith
bad-add (r ∷ rs) name v = ground (arith, bad-add rs name v)

pub one_not_zero : ◌≡◌ {A = ℕ} 1 0 → ⊥
one_not_zero h = omega arith

pub two_not_zero : ◌≡◌ {A = ℕ} 2 0 → ⊥
two_not_zero h = omega arith

verdict_ok :
    (red predict_red : Bool) → is_ok (verdict_of red predict_red) ≡ true → red ≡ predict_red
unfolding verdict_of
verdict_ok true true h = refl
verdict_ok false false h = refl
verdict_ok true false h = absurd (cc)
verdict_ok false true h = absurd (cc)

pub blob_of-TakenFrom :
    (s : Snapshot) (d : Disk) (p : String) (blob : Text)
    → TakenFrom d s
    → blob_of s p ≡ some blob
    → d p ≡ some blob
unfolding blob_of
blob_of-TakenFrom [] d p blob t h = absurd (cc)
blob_of-TakenFrom ((j, b) ∷ s) d p blob t h = elim (Bool-cases (str_eq j p)) [
  | inl e ↦ ground (arith, t.0, eq_iff j p)
  | inr e ↦ blob_of-TakenFrom s d p blob t.1 (ground arith)
]

-- The same on a tree that may differ from the harness's own in what the check itself writes: what the
-- trees are that the controls run on is a predicate.
pub record BehavesOn (env : Env) (IsTree : Disk → Type 0) (d : Disk) (c : Case) : Type 0 where
  pub original : Text
  pub there : d c.path ≡ some original
  pub once : count (codes c.find) original ≡ 1
  pub tree : Disk
  pub fits : IsTree tree
  pub verdict :
      (env.check (put c.path (replace_first (codes c.find) (codes c.repl) original) tree)).green
      ≡ some (not c.predict_red)

-- A control that is put back leaves one of the trees.
abbrev pub IsClosed : Env → (Disk → Type 0) → Disk → Type 0
IsClosed env IsTree d =
    (e : Disk) (p : String) (blob mutated : Text)
    → IsTree e
    → d p ≡ some blob
    → IsTree (put p blob (env.check (put p mutated e)).disk)

-- What a piece of the run has done, if it did not raise and every verdict is as predicted.
record Went (env : Env) (IsTree : Disk → Type 0) (d : Disk) (cs : List Case) (p q : Progress)
    : Type 0 where
  clean : bad p.results ≡ false
  disk : IsTree q.process.now.disk
  all : (c : Case) → In c cs → BehavesOn env IsTree d c

module _ (env : Env) (IsTree : Disk → Type 0) (d : Disk) (closed : IsClosed env IsTree d) where
  judge_case-scored :
      (c : Case) (original mutated : Text) (green : Option Bool) (p : Progress) (e : Disk)
      → IsTree e
      → d c.path ≡ some original
      → p.process.now.disk ≡ (env.check (put c.path mutated e)).disk
      → (judge_case env c original green p).raised ≡ false
      → bad (judge_case env c original green p).results ≡ false
      → (bad p.results ≡ false)
        × IsTree (judge_case env c original green p).process.now.disk
        × (green ≡ some (not c.predict_red))
  unfolding judge_case write
  judge_case-scored c original mutated none p e t there same r b = absurd (cc)
  judge_case-scored c original mutated (some passed) p e t there same r b =
      let split = bad-add p.results c.name (verdict_of (not passed) c.predict_red) in
      let agree = verdict_ok (not passed) c.predict_red (ground (arith, split)) in
      (
        ground (arith, split),
        subst IsTree (sym (ap (put c.path original) same))
            (closed e c.path original mutated t there),
        ground (arith, agree),
      )

  mutate_case-Went :
      (c : Case) (original : Text) (p : Progress)
      → IsTree p.process.now.disk
      → d c.path ≡ some original
      → count (codes c.find) original ≡ 1
      → (mutate_case env c original p).raised ≡ false
      → bad (mutate_case env c original p).results ≡ false
      → Went env IsTree d (c ∷ []) p (mutate_case env c original p)
  unfolding mutate_case write
  mutate_case-Went c original p fits there once r b =
      let mutated = replace_first (codes c.find) (codes c.repl) original in
      let (clean, back, red) =
        judge_case-scored c original mutated
          (env.check (put c.path mutated p.process.now.disk)).green
          (record p {
            process =
                proceed (env.check (put c.path mutated p.process.now.disk)).disk
                  (write c.path mutated p.process);
          })
          p.process.now.disk fits there refl r b in
      record {
        clean = clean;
        disk = back;
        all = λ x q. elim q [
          | inl e ↦ subst (BehavesOn env IsTree d) e (record {
            original = original;
            there = there;
            once = once;
            tree = p.process.now.disk;
            fits = fits;
            verdict = red;
          })
          | inr z ↦ absurd z
        ];
      }

  either-Went :
      (b : Bool) (c : Case) (p q o : Progress)
      → (b ≡ true → q.raised ≡ false → bad q.results ≡ false → Went env IsTree d (c ∷ []) p q)
      → (b ≡ false → bad o.results ≡ true)
      → (if b then q else o).raised ≡ false
      → bad (if b then q else o).results ≡ false
      → Went env IsTree d (c ∷ []) p (if b then q else o)
  either-Went true c p q o h k r g = h refl r g
  either-Went false c p q o h k r g = absurd (cc (k refl))

  run_case-Went :
      (c : Case) (original : Text) (p : Progress)
      → IsTree p.process.now.disk
      → d c.path ≡ some original
      → (run_case env c original p).raised ≡ false
      → bad (run_case env c original p).results ≡ false
      → Went env IsTree d (c ∷ []) p (run_case env c original p)
  unfolding run_case
  run_case-Went c original p fits there r b =
      either-Went (count (codes c.find) original == 1) c p (mutate_case env c original p)
        (add_result c.name Verdict.control_defect p)
        (λ e r' b'. mutate_case-Went c original p fits there ((==_iff _ 1).0 e) r' b')
        (λ e. ground (arith, bad-add p.results c.name Verdict.control_defect)) r b

  judge_case-bad :
      (c : Case) (original : Text) (green : Option Bool) (p : Progress)
      → bad (judge_case env c original green p).results ≡ false
      → bad p.results ≡ false
  unfolding judge_case
  judge_case-bad c original none p h = h
  judge_case-bad c original (some passed) p h =
      ground (arith, bad-add p.results c.name (verdict_of (not passed) c.predict_red))

  mutate_case-bad :
      (c : Case) (original : Text) (p : Progress)
      → bad (mutate_case env c original p).results ≡ false
      → bad p.results ≡ false
  unfolding mutate_case
  mutate_case-bad c original p h =
      let mutated = write c.path (replace_first (codes c.find) (codes c.repl) original) p.process in
      let checked = env.check mutated.now.disk in
      judge_case-bad c original checked.green (record p { process = proceed checked.disk mutated })
        h

  either-bad :
      (b : Bool) (p q o : Progress)
      → (bad q.results ≡ false → bad p.results ≡ false)
      → (bad o.results ≡ false → bad p.results ≡ false)
      → bad (if b then q else o).results ≡ false
      → bad p.results ≡ false
  either-bad true p q o f g h = f h
  either-bad false p q o f g h = g h

  run_case-bad :
      (c : Case) (original : Text) (p : Progress)
      → bad (run_case env c original p).results ≡ false
      → bad p.results ≡ false
  unfolding run_case
  run_case-bad c original p h =
      either-bad (count (codes c.find) original == 1) p _
        (add_result c.name Verdict.control_defect p) (λ k. mutate_case-bad c original p k)
        (λ k. ground (arith, bad-add p.results c.name Verdict.control_defect)) h

  try_case-bad :
      (c : Case) (blob : Option Text) (p : Progress)
      → bad (try_case env c blob p).results ≡ false
      → bad p.results ≡ false
  unfolding try_case
  try_case-bad c none p h = h
  try_case-bad c (some original) p h = run_case-bad c original p h

  step_case-bad :
      (originals : Snapshot) (c : Case) (p : Progress)
      → bad (step_case env originals c p).results ≡ false
      → bad p.results ≡ false
  unfolding step_case
  step_case-bad originals c p h = try_case-bad c (blob_of originals c.path) p h

  module _ (originals : Snapshot) (taken : TakenFrom d originals) where
    try_case-Went :
        (c : Case) (blob : Option Text) (p : Progress)
        → blob_of originals c.path ≡ blob
        → IsTree p.process.now.disk
        → (try_case env c blob p).raised ≡ false
        → bad (try_case env c blob p).results ≡ false
        → Went env IsTree d (c ∷ []) p (try_case env c blob p)
    unfolding try_case
    try_case-Went c none p e fits r b = absurd (cc)
    try_case-Went c (some original) p e fits r b =
        run_case-Went c original p fits (blob_of-TakenFrom originals d c.path original taken e) r b

    -- An exception is not forgotten, and neither is a verdict that is not as predicted.
    not_raised :
        (cs : List Case) (p : Progress)
        → (run_cases env originals cs p).raised ≡ false
        → p.raised ≡ false
    unfolding run_cases
    not_raised [] p h = h
    not_raised (c ∷ cs) p h = elim (Bool-cases p.raised) [ inl e ↦ ground (arith, e) | inr e ↦ e ]

    run_cases-bad :
        (cs : List Case) (p : Progress)
        → bad (run_cases env originals cs p).results ≡ false
        → bad p.results ≡ false
    unfolding run_cases
    run_cases-bad [] p h = h
    run_cases-bad (c ∷ cs) p h = elim (Bool-cases p.raised) [
      | inl e ↦ ground (arith, e)
      | inr e ↦
          step_case-bad originals c p
            (run_cases-bad cs (step_case env originals c p) (ground (arith, e)))
    ]

    run_cases-cons :
        (c : Case) (cs : List Case) (p : Progress)
        → p.raised ≡ false
        → run_cases env originals (c ∷ cs) p
          ≡ run_cases env originals cs (try_case env c (blob_of originals c.path) p)
    unfolding run_cases step_case
    run_cases-cons c cs p e = rw e refl

    -- Each case behaves, and the loop ends on one of the trees.
    pub run_cases-BehavesOn :
        (cs : List Case) (p : Progress)
        → IsTree p.process.now.disk
        → (run_cases env originals cs p).raised ≡ false
        → bad (run_cases env originals cs p).results ≡ false
        → IsTree (run_cases env originals cs p).process.now.disk
          × ((c : Case) → In c cs → BehavesOn env IsTree d c)
    unfolding run_cases
    run_cases-BehavesOn [] p fits r b = (fits, λ x q. absurd q)
    run_cases-BehavesOn (c ∷ cs) p fits r b =
        let next = try_case env c (blob_of originals c.path) p in
        let e = run_cases-cons c cs p (not_raised (c ∷ cs) p r) in
        let r' = sym (ap (λ (o : Progress). o.raised) e) ∙ r in
        let b' = sym (ap (λ (o : Progress). bad o.results) e) ∙ b in
        let went =
          try_case-Went c (blob_of originals c.path) p refl fits (not_raised cs next r')
            (run_cases-bad cs next b') in
        let (last, rest) = run_cases-BehavesOn cs next went.disk r' b' in
        (
          subst (λ (o : Progress). IsTree o.process.now.disk) (sym e) last,
          λ x q. elim q [ inl z ↦ went.all x (inl z) | inr z ↦ rest x z ],
        )

module _ (env : Env) (d : Disk) (ro : IsReadOnly env) where
  -- The mutated disk, checked and put back, is the disk.
  put_back :
      (p : String) (blob mutated : Text)
      → d p ≡ some blob
      → put p blob (env.check (put p mutated d)).disk ≡ d
  unfolding put
  put_back p blob mutated there = fun_ext λ q. elim (Bool-cases (str_eq p q)) [
    | inl e ↦ ground (arith, there, eq_iff p q)
    | inr e ↦ ground (arith, ro (put p mutated d) q)
  ]

  abbrev pub IsSame : Disk → Type 0
  IsSame e = e ≡ d

  pub IsSame-IsClosed : IsClosed env IsSame d
  IsSame-IsClosed e p blob mutated same there =
      ap (λ (x : Disk). put p blob (env.check (put p mutated x)).disk) same
      ∙ put_back p blob mutated there

  pub Behaves-of_same : (c : Case) → BehavesOn env IsSame d c → Behaves env d c
  Behaves-of_same c b = record {
    original = b.original;
    there = b.there;
    once = b.once;
    verdict =
        ap
          (λ (x : Disk).
            (env.check
              (put c.path (replace_first (codes c.find) (codes c.repl) b.original) x)).green)
          (sym b.fits)
        ∙ b.verdict;
  }

  -- If the check changes no file, each case behaves on the harness's own tree.
  pub run_cases-Behaves :
      (originals : Snapshot) (taken : TakenFrom d originals) (cs : List Case) (p : Progress)
      → p.process.now.disk ≡ d
      → (run_cases env originals cs p).raised ≡ false
      → bad (run_cases env originals cs p).results ≡ false
      → (c : Case) → In c cs
      → Behaves env d c
  run_cases-Behaves originals taken cs p same r b c q =
      Behaves-of_same c
        ((run_cases-BehavesOn env IsSame d IsSame-IsClosed originals taken cs p same r b).1 c q)
