-- ===== src/Tests/Kill.antt =====
-- The kill harness over one script, and over the toolchain campaign.
use talyvor_track.Prelude.{
  ℕ, String, ◌≡◌, ◌≢◌, refl, sym, ap, ◌∙◌, Bool, true, false, ◌&&◌, ==_iff, arith, inl, inr, Option,
  none, some, [], ◌∷◌, any-eq-true, sort_by, codes, Text, occurs, is_empty, str_eq, if◌then◌else◌,
  Bool-cases,
}
use talyvor_track.Harness.Disk.{Disk, put, restore}
use talyvor_track.Harness.Process.{Process, left_behind, write, restore_on_signal, start}
use talyvor_track.Kill.Lines.{no_call, disabled}
use talyvor_track.Kill.Tree.{Git, text_eq, is_member, dirty_outside_scripts, newly_dirty}
use talyvor_track.Kill.Runs.{
  Env, Outcome, restored, stranded, defect, path_of, run_case, restore_and_revert, main_with,
}
use talyvor_track.Kill.Edited.{IsDisabled, disabled-IsDisabled}
use talyvor_track.Kill.Restored.{IsScoped, run_case-kept}
use talyvor_track.Kill.Killed.{is_defect, Confirms}
use talyvor_track.Kill.Scored.{main-Confirms}
use talyvor_track.Kill.Live.{Changes, now, soon, run_case-IsJudged}
use talyvor_track.Kill.Recorded.{recorded, recorded-restored}
use talyvor_track.Toolchain.Restored.{campaign-IsQuiet}
use talyvor_track.Toolchain.Runner.{campaign_with}
use talyvor_track.Tests.Toolchain

abbrev script : Text
script = codes "import os\n  restore_on_signal({})\nmain()\n"

abbrev unhandled : Text
unhandled = codes "import os\n  pass  # restore_on_signal({})\nmain()\n"

edited : disabled script ≡ some unhandled
unfolding disabled
edited = refl

-- A call that does not begin a line.
no_statement : disabled (codes "x = restore_on_signal(s)\n") ≡ none
unfolding disabled
no_statement = refl

abbrev tree : Disk
tree q =
    if str_eq q "scripts/a.py"
    then some script
    else if str_eq q "go.mod"
    then some (codes "go")
    else none

abbrev is_tracked : Option Text → Bool
is_tracked none = false
is_tracked (some blob) = text_eq blob (codes "go")

-- `git` over one tracked file.
abbrev git : Git
git = record {
  porcelain = λ d.
      if is_tracked (d "go.mod") then codes "?? new.txt\n" else codes " M go.mod\n?? new.txt\n";
  checkout = λ names d q.
      if str_eq q "go.mod" && is_member (codes q) names then some (codes "go") else d q;
}

dirty : dirty_outside_scripts git (put "go.mod" [] tree) ≡ codes "go.mod" ∷ []
unfolding dirty_outside_scripts put
dirty = refl

abbrev is_unhandled : Option Text → Bool
is_unhandled none = false
is_unhandled (some src) = occurs no_call src

-- A script that empties go.mod, with its handler if its text installs one.
abbrev program : String → Disk → Process
program path d = write "go.mod" [] (
    if is_unhandled (d path)
    then start d
    else restore_on_signal (("go.mod", codes "go") ∷ []) (start d))

killed :
    (main_with (recorded git program 5) (λ d. "scripts/a.py" ∷ []) ("a.py" ∷ []) tree).status
    ≡ some 0
unfolding main_with put restore_on_signal sort_by restore
killed = refl

-- Without enough turns the change is not seen.
not_seen : (run_case (recorded git program 1) [] "a.py" true (start tree)).outcome ≡ some defect
unfolding run_case put restore_on_signal
not_seen = refl

-- A file that was modified before the harness began.
abbrev modified : Disk
modified q = if str_eq q "go.mod" then some (codes "my edit") else tree q

-- A signal after the handler is installed and before `BASELINE` is set reverts it,
early_signal :
    left_behind (restore_and_revert git [] [] (start modified)).now "go.mod" ≡ some (codes "go")
unfolding restore_and_revert restore sort_by
early_signal = refl

-- and a later one does not.
late_signal :
    left_behind (restore_and_revert git [] (codes "go.mod" ∷ []) (start modified)).now "go.mod"
    ≡ some (codes "my edit")
unfolding restore_and_revert restore sort_by
late_signal = refl

text_eq-eq : (s t : Text) → text_eq s t ≡ true → s ≡ t
text_eq-eq [] [] h = refl
text_eq-eq [] (d ∷ t) h = absurd (cc)
text_eq-eq (c ∷ s) [] h = absurd (cc)
text_eq-eq (c ∷ s) (d ∷ t) h =
    ap (λ (x : ℕ). x ∷ s) ((==_iff c d).0 (ground arith))
    ∙ ap (λ (x : Text). d ∷ x) (text_eq-eq s t (ground arith))

git-IsScoped : IsScoped git
git-IsScoped names d q f = elim (Bool-cases (is_member (codes q) names)) [
  | inl e ↦
      let (x, there, same) = any-eq-true (λ y. text_eq (codes q) y) names e in
      absurd (f x there (sym (text_eq-eq (codes q) x same)))
  | inr e ↦ unnamed (str_eq q "go.mod") (is_member (codes q) names) e
]
  where
    unnamed : (a b : Bool) → b ≡ false → (if a && b then some (codes "go") else d q) ≡ d q
    unnamed true b e = rw e refl
    unnamed false b e = refl

disabled-IsDisabled_example : IsDisabled script unhandled
disabled-IsDisabled_example = disabled-IsDisabled script unhandled edited

run_case-kept_example :
    (run_case (recorded git program 5) [] "a.py" false (start tree)).process.now.disk
      (path_of "a.py")
    ≡ some script
run_case-kept_example =
    run_case-kept (recorded git program 5) [] "a.py" false (start tree) git-IsScoped

main-Confirms_example :
    (e : Disk) × Confirms
      (recorded git program 5)
      (dirty_outside_scripts git tree)
      "a.py"
      false
      e
      stranded
main-Confirms_example =
    main-Confirms (recorded git program 5) (λ d. "scripts/a.py" ∷ []) ("a.py" ∷ []) tree killed
      ("a.py", false) (inr (inl refl))

abbrev text_of : Option Text → Text
text_of none = []
text_of (some blob) = blob

-- `git` over ci.yaml.
abbrev ci_git : Git
ci_git = record {
  porcelain =
      λ d. if occurs (codes "1.25") (text_of (d "ci.yaml")) then codes " M ci.yaml\n" else [];
  checkout = λ names d. d;
}

-- The toolchain campaign, killed in the middle of its control.
abbrev campaign : String → Disk → Process
campaign path d =
    (campaign_with Toolchain.env ("ci.yaml" ∷ []) (Toolchain.lint_control ∷ []) d).process

-- The tree of the campaign, and the campaign's own script in it.
abbrev ci_tree : Disk
ci_tree q =
    if str_eq q "scripts/w634-toolchain-pin-controls.py"
    then some (codes "main()\n")
    else Toolchain.tree q

clean_start : is_empty (newly_dirty ci_git [] ci_tree) ≡ true
unfolding newly_dirty
clean_start = refl

-- The campaign is killed in the middle of its control, and its handler gives the tree back.
ci_restored :
    (run_case
      (recorded ci_git campaign 9)
      []
      "w634-toolchain-pin-controls.py"
      true
      (start ci_tree)).outcome
    ≡ some restored
unfolding run_case campaign_with put restore
ci_restored = refl

recorded-restored_example :
    (run_case
      (recorded ci_git campaign 9)
      []
      "w634-toolchain-pin-controls.py"
      true
      (start ci_tree)).outcome
    ≢ some stranded
recorded-restored_example =
    recorded-restored ci_git campaign 9 [] "w634-toolchain-pin-controls.py" (start ci_tree)
      (campaign-IsQuiet Toolchain.env ("ci.yaml" ∷ []) (Toolchain.lint_control ∷ []) ci_tree
        (λ args d. refl)).safe
      clean_start

-- A script that empties go.mod in its first turn, and puts it back when it is told to end.
abbrev emptying : Env Bool
emptying = record {
  git = git;
  spawn = λ path d. some true;
  ended = λ x. false;
  go_on = λ x d. (x, put "go.mod" [] d);
  terminate = λ x d. record { exited = true; disk = put "go.mod" (codes "go") d };
  kill = λ x d. d;
  turns = 2;
}

emptied : Changes emptying [] 1 true (put (path_of "a.py") unhandled tree)
unfolding newly_dirty put
emptied = soon refl (now refl refl)

run_case-IsJudged_example :
    (o : Outcome) × ((run_case emptying [] "a.py" false (start tree)).outcome ≡ some o)
    × (is_defect o ≡ false)
    × Confirms emptying [] "a.py" false tree o
run_case-IsJudged_example =
    run_case-IsJudged emptying [] 1 "a.py" false script true (start tree)
      (put (path_of "a.py") unhandled tree) refl (script, unhandled, refl, edited, refl, refl)
      emptied (omega arith) (λ y e r. refl)
