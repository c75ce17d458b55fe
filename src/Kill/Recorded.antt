-- ===== src/Kill/Recorded.antt =====
-- A script whose every moment is safe from signals, and its run with the handler.
use talyvor_track.Prelude.{
  ℕ, String, ◌≡◌, ◌≢◌, refl, sym, ap, ◌∙◌, Bool, true, false, some, List, [], ◌∷◌, In, inl, inr,
  In-append, Text, is_empty,
}
use mathlib.Core.Path.{subst, fun_ext}
use mathlib.Core.List.{reverse, reverse-cons}
use mathlib.Core.Option.{some-injective}
use talyvor_track.Harness.Disk.{Disk, SameFiles}
use talyvor_track.Harness.Process.{Process, Moment, left_behind, moments, IsSignalSafe}
use talyvor_track.Kill.Tree.{Git, newly_dirty}
use talyvor_track.Kill.Runs.{Env, Ended, restored, stranded, path_of, judge, run_case}
use talyvor_track.Kill.Killed.{Reaches, here, later, run_case-Confirms}

-- A script that runs: the moments that it has still to go through, the first of them being now.
abbrev go_on : List Moment → Disk → List Moment × Disk
go_on [] d = ([], d)
go_on (m ∷ []) d = ([], d)
go_on (m ∷ (n ∷ ms)) d = (n ∷ ms, n.disk)

-- SIGTERM, now.
abbrev terminate : List Moment → Disk → Ended
terminate [] d = record { exited = false; disk = d }
terminate (m ∷ ms) d = record { exited = true; disk = left_behind m }

abbrev ended : List Moment → Bool
ended ms = is_empty ms

-- The harness, where the scripts that it starts go through the moments of `program`.
abbrev pub recorded : Git → (String → Disk → Process) → ℕ → Env (List Moment)
recorded git program turns = record {
  git = git;
  spawn = λ path d. some (reverse (moments (program path d)));
  ended = ended;
  go_on = go_on;
  terminate = terminate;
  kill = λ ms d. d;
  turns = turns;
}

reverse-In : (m : Moment) (ms : List Moment) → In m (reverse ms) → In m ms
reverse-In m [] q = absurd q
reverse-In m (n ∷ ms) q =
    elim (In-append m (reverse ms) (n ∷ []) (subst (In m) (reverse-cons n ms) q)) [
      | inl z ↦ inr (reverse-In m ms z)
      | inr z ↦ elim z [ inl e ↦ inl e | inr a ↦ absurd a ]
    ]

module _ (git : Git) (program : String → Disk → Process) (turns : ℕ) (pristine : Disk) where
  abbrev AreSafe : List Moment → Type 0
  AreSafe ms = (m : Moment) → In m ms → SameFiles (left_behind m) pristine

  terminate-safe :
      (ms : List Moment) (d : Disk)
      → AreSafe ms
      → (terminate ms d).exited ≡ true
      → (terminate ms d).disk ≡ pristine
  terminate-safe [] d safe h = absurd (cc)
  terminate-safe (m ∷ ms) d safe h = fun_ext (safe m (inl refl))

  go_on-safe : (ms : List Moment) (d : Disk) → AreSafe ms → AreSafe (go_on ms d).0
  go_on-safe [] d safe = safe
  go_on-safe (m ∷ []) d safe = λ n q. absurd q
  go_on-safe (m ∷ (n ∷ ms)) d safe = λ k q. safe k (inr q)

  -- Whatever it has reached, what a signal leaves there is the tree.
  Reaches-safe :
      {x : List Moment} {d : Disk} {y : List Moment} {e : Disk}
      → Reaches (recorded git program turns) x d y e
      → AreSafe x
      → AreSafe y
  Reaches-safe here safe = safe
  Reaches-safe (later {x} {d} a r) safe = Reaches-safe r (go_on-safe x d safe)

-- What the two controls of signal handling say of each other: a script whose every moment is safe from
-- signals never leaves the tree modified in the run with its handler, wherever the signal finds it, if
-- nothing but what was so at the start is modified when the run begins.
pub recorded-restored :
    (git : Git) (program : String → Disk → Process) (turns : ℕ) (baseline : List Text)
    (script : String) (s : Process)
    → IsSignalSafe s.now.disk (program (path_of script) s.now.disk)
    → is_empty (newly_dirty git baseline s.now.disk) ≡ true
    → (run_case (recorded git program turns) baseline script true s).outcome ≢ some stranded
recorded-restored git program turns baseline script s safe clean h =
    let env = recorded git program turns in
    let c = run_case-Confirms env baseline script true s stranded h refl in
    let safe_start = started-safe c.started c.tree (c.starts.0) (c.starts.1) in
    let k = c.killed in
    let same =
      terminate-safe git program turns s.now.disk k.script k.disk
        (Reaches-safe git program turns s.now.disk k.reached safe_start) k.died in
    not_stranded (sym (ap (judge env baseline) same) ∙ k.found)
  where
    started-safe :
        (x : List Moment) (tree : Disk)
        → tree ≡ s.now.disk
        → some (reverse (moments (program (path_of script) tree))) ≡ some x
        → AreSafe git program turns s.now.disk x
    started-safe x tree e q m i = safe m (
        subst (λ (d : Disk). In m (moments (program (path_of script) d))) e
          (reverse-In m (moments (program (path_of script) tree)) (
            subst (In m)
              (sym (some-injective (reverse (moments (program (path_of script) tree))) x q)) i)))

    not_stranded : judge (recorded git program turns) baseline s.now.disk ≡ stranded → ⊥
    not_stranded q = differ (sym clean_verdict ∙ q)
      where
        clean_verdict : judge (recorded git program turns) baseline s.now.disk ≡ restored
        clean_verdict = unfold judge in rw clean refl

        differ : restored ≡ stranded → ⊥
        differ e = absurd (cc)
