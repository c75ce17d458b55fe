-- ===== src/Kill/Restored.antt =====
-- After each run the script that was run has its text back.
use talyvor_track.Prelude.{
  String, ◌≡◌, refl, sym, ap, ◌∙◌, Bool, true, false, ◌||◌, Option, none, some, List, [], ◌∷◌,
  arith, In, inl, inr, Text, codes, keep-In, codes-append, sort_by, sort_by-In, eq_iff,
  if◌then◌else◌,
}
use talyvor_track.Harness.Disk.{Disk, put}
use talyvor_track.Harness.Process.{Process, write}
use talyvor_track.Kill.Tree.{
  is_member, text_lt, in_scripts, is_skipped, name_of_line, add_name, dirty_names, status_lines,
  Git, dirty_outside_scripts, newly_dirty, checkout_some, revert_tree,
}
use talyvor_track.Kill.Runs.{Env, Run, path_of, try_case, finally, run_read, run_case}

-- `git checkout -- names` changes no file but those named.
abbrev pub IsScoped : Git → Type 0
IsScoped git =
    (names : List Text) (d : Disk) (q : String)
    → ((x : Text) → In x names → x ≡ codes q → ⊥)
    → git.checkout names d q ≡ d q

either-outside :
    (b : Bool) (xs ys : List Text)
    → ((x : Text) → In x xs → in_scripts x ≡ false)
    → (b ≡ false → (x : Text) → In x ys → in_scripts x ≡ false)
    → (x : Text) → In x (if b then xs else ys)
    → in_scripts x ≡ false
either-outside true xs ys f g = f
either-outside false xs ys f g = g refl

add_name-outside :
    (n : Text) (xs : List Text)
    → in_scripts n ≡ false
    → ((x : Text) → In x xs → in_scripts x ≡ false)
    → (x : Text) → In x (add_name n xs)
    → in_scripts x ≡ false
add_name-outside n xs e f =
    either-outside (is_member n xs) xs (n ∷ xs) f
      (λ h x q. elim q [ inl z ↦ ap in_scripts (sym z) ∙ e | inr z ↦ f x z ])

dirty_names-outside : (ls : List Text) (x : Text) → In x (dirty_names ls) → in_scripts x ≡ false
unfolding dirty_names
dirty_names-outside [] x q = absurd q
dirty_names-outside (l ∷ ls) x q =
    either-outside (is_skipped l || in_scripts (name_of_line l)) (dirty_names ls)
      (add_name (name_of_line l) (dirty_names ls)) (dirty_names-outside ls)
      (λ e.
        add_name-outside (name_of_line l) (dirty_names ls) (ground (arith, e))
          (dirty_names-outside ls))
      x q

newly_dirty-outside :
    (git : Git) (baseline : List Text) (d : Disk) (x : Text)
    → In x (newly_dirty git baseline d)
    → in_scripts x ≡ false
unfolding newly_dirty dirty_outside_scripts
newly_dirty-outside git baseline d x q =
    dirty_names-outside (status_lines (git.porcelain d)) x (keep-In _ _ x q).0

in_scripts-path_of : (script : String) → in_scripts (codes (path_of script)) ≡ true
in_scripts-path_of script = ap in_scripts (codes-append "scripts/" script)

-- Putting the tree back touches no script.
revert_tree-script :
    (git : Git) (baseline : List Text) (d : Disk) (script : String)
    → IsScoped git
    → revert_tree git baseline d (path_of script) ≡ d (path_of script)
unfolding revert_tree
revert_tree-script git baseline d script scoped =
    checkout_some-script (sort_by text_lt (newly_dirty git baseline d)) (λ x q.
      newly_dirty-outside git baseline d x (sort_by-In text_lt x (newly_dirty git baseline d) q))
  where
    checkout_some-script :
        (names : List Text)
        → ((x : Text) → In x names → in_scripts x ≡ false)
        → checkout_some git names d (path_of script) ≡ d (path_of script)
    checkout_some-script [] f = unfold checkout_some in refl
    checkout_some-script (n ∷ ns) f =
        unfold checkout_some in
        scoped (n ∷ ns) d (path_of script)
          (λ x q e. absurd (cc (f x q, ap in_scripts e, in_scripts-path_of script)))

put-same : (p : String) (blob : Text) (d : Disk) → put p blob d p ≡ some blob
unfolding put
put-same p blob d = ground (arith, eq_iff p p)

module _ {Script : Type 0} (env : Env Script) (baseline : List Text)
    (scoped : IsScoped env.git) where
  finally-kept :
      (script : String) (original : Text) (r : Run)
      → (finally env baseline script original r).process.now.disk (path_of script) ≡ some original
  unfolding finally write
  finally-kept script original r =
      revert_tree-script env.git baseline (put (path_of script) original r.process.now.disk) script
        scoped
      ∙ put-same (path_of script) original r.process.now.disk

  run_read-kept :
      (script : String) (with_handler : Bool) (file : Option Text) (s : Process)
      → s.now.disk (path_of script) ≡ file
      → (run_read env baseline script with_handler file s).process.now.disk (path_of script) ≡ file
  unfolding run_read
  run_read-kept script with_handler none s h = h
  run_read-kept script with_handler (some original) s h =
      finally-kept script original (try_case env baseline script with_handler original s)

-- If `git checkout` changes no file but those that it is given, then after a run, with the handler or
-- without, the script has the text that it had before: also where it exits early, where it never changes
-- the tree, where it does not die of SIGTERM, and where starting it or waiting for it raises, and whatever
-- the script itself does to its own file.
pub run_case-kept :
    {Script : Type 0} (env : Env Script) (baseline : List Text) (script : String)
    (with_handler : Bool) (s : Process)
    → IsScoped env.git
    → (run_case env baseline script with_handler s).process.now.disk (path_of script)
      ≡ s.now.disk (path_of script)
unfolding run_case
run_case-kept env baseline script with_handler s scoped =
    run_read-kept env baseline scoped script with_handler (s.now.disk (path_of script)) s refl
