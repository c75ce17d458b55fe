-- ===== src/Signals/Accepted.antt =====
-- What a green run of scripts/check-restore-signal-handlers.py says of the directory, told without the
-- populations that its loop collects.
use talyvor_track.Prelude.{
  suc, ◌+◌, String, ◌≤◌, ◌≡◌, refl, ap, ◌↔◌, inl, inr, Bool, true, false, not, ◌&&◌, ◌||◌, List, [],
  ◌∷◌, ◌++◌, arith, In, contains, contains-insert, insert, length, eq_iff, if◌then◌else◌,
}
use text.Mathlib.TextEquality.{path_by_compare}
use talyvor_track.Ast.{Node, Source, parsed, unparsed}
use talyvor_track.Signals.Detect.{restores_in_finally, reads_and_writes, installs_handler}
use talyvor_track.Signals.Exemptions.{Exemptions}
use talyvor_track.Signals.Rules.{
  Directory, Populations, classify, scan, nothing, main, not_checked, keys, is_blank,
}
use talyvor_track.Signals.Green.{IsGreen, main-IsGreen}
use talyvor_track.Signals.Scan.{HasUniqueNames, Fresh, Fresh-In}

-- The names of the scripts that were read and whose tree passes a test.
abbrev pub having : (Node → Bool) → Directory → List String
having test [] = []
having test ((k, parsed tree) ∷ dir) = if test tree then k ∷ having test dir else having test dir
having test ((k, unparsed why) ∷ dir) = having test dir

abbrev pub is_handled : Node → Bool
is_handled tree = (restores_in_finally tree || reads_and_writes tree) && installs_handler tree

-- What the guard promises of the directory that it accepts.
pub record IsAccepted (x : Exemptions) (dir : Directory) : Type 0 where
  -- every script was read
  pub all_parsed : (k why : String) → In (k, unparsed why) dir → ⊥
  -- neither detector has stopped to recognise its shape
  pub narrow_enough : x.narrow_floor ≤ length (having restores_in_finally dir)
  pub wide_enough : x.wide_floor ≤ length (having reads_and_writes dir)
  -- UNPROTECTED is the set of restoring scripts without a handler, no more and no less
  pub unprotected_exact :
      (k : String)
      → contains x.unprotected k
        ≡ (contains (having restores_in_finally dir) k && not (contains (having is_handled dir) k))
  pub happy_path_listed :
      (k : String)
      → (contains (having reads_and_writes dir) k
          && not (contains (having restores_in_finally dir) k)
          && not (contains (keys x.not_mutators) k))
        ≡ true
      → contains x.happy_path_only k ≡ true
  pub happy_path_current :
      (k : String)
      → contains x.happy_path_only k ≡ true
      → (contains (having reads_and_writes dir) k
          && not (contains (having restores_in_finally dir) k))
        ≡ true
  pub not_mutators_current :
      (k : String)
      → contains (keys x.not_mutators) k ≡ true
      → contains (having reads_and_writes dir) k ≡ true
  pub explained : (k why : String) → In (k, why) x.not_mutators → is_blank why ≡ false

length-insert :
    (k : String) (js : List String) → contains js k ≡ false → length (insert k js) ≡ suc (length js)
unfolding insert
length-insert k [] h = refl
length-insert k (j ∷ js) h = ground (arith, length-insert k js, path_by_compare j k)

-- No name of the directory is collected yet.
abbrev IsApart : Directory → Populations → Type 0
IsApart dir p =
    (k : String) (s : Source)
    → In (k, s) dir
    → (contains p.narrow k ≡ false) × (contains p.wide k ≡ false) × (contains p.protected k ≡ false)

classify-IsApart :
    (j : String) (tree : Node) (dir : Directory) (p : Populations)
    → Fresh j dir
    → IsApart ((j, parsed tree) ∷ dir) p
    → IsApart dir (classify j tree p)
unfolding classify
classify-IsApart j tree dir p fresh apart k s q =
    let ne = Fresh-In dir j k s fresh q in
    let (a, b, c) = apart k s (inr q) in
    (
      ground (arith, contains-insert j p.narrow k),
      ground (arith, contains-insert j p.wide k),
      ground (arith, contains-insert j p.protected k),
    )

-- What the populations hold once the directory is read: what they held, and the names of the directory.
abbrev Holds : Directory → Populations → Populations → String → Type 0
Holds dir p r k =
    (contains r.narrow k ≡ (contains p.narrow k || contains (having restores_in_finally dir) k))
    × (contains r.wide k ≡ (contains p.wide k || contains (having reads_and_writes dir) k))
    × (contains r.protected k ≡ (contains p.protected k || contains (having is_handled dir) k))

classify-Holds :
    (j : String) (tree : Node) (p : Populations) (k : String)
    → (contains p.narrow j ≡ false) × (contains p.wide j ≡ false)
    → Holds ((j, parsed tree) ∷ []) p (classify j tree p) k
unfolding classify
classify-Holds j tree p k (a, b) = (
  ground (arith, contains-insert j p.narrow k),
  ground (arith, contains-insert j p.wide k),
  ground (
    arith,
    contains-insert j p.narrow j,
    contains-insert j p.wide j,
    contains-insert j p.protected k,
    eq_iff j j,
  ),
)

contains-having :
    (test : Node → Bool) (j : String) (tree : Node) (dir : Directory) (k : String)
    → contains (having test ((j, parsed tree) ∷ dir)) k
      ≡ (contains (having test ((j, parsed tree) ∷ [])) k || contains (having test dir) k)
contains-having test j tree dir k = ground arith

scan-Holds :
    (dir : Directory) (p : Populations) (k : String)
    → HasUniqueNames dir
    → IsApart dir p
    → Holds dir p (scan dir p) k
unfolding scan
scan-Holds [] p k u apart = (ground arith, ground arith, ground arith)
scan-Holds ((j, parsed tree) ∷ dir) p k u apart =
    let (a, b, c) = apart j (parsed tree) (inl refl) in
    let (n, w, g) = classify-Holds j tree p k (a, b) in
    let (n', w', g') =
      scan-Holds dir (classify j tree p) k u.1 (classify-IsApart j tree dir p u.0 apart) in
    (
      ground (arith, n, n', contains-having restores_in_finally j tree dir k),
      ground (arith, w, w', contains-having reads_and_writes j tree dir k),
      ground (arith, g, g', contains-having is_handled j tree dir k),
    )
scan-Holds ((j, unparsed why) ∷ dir) p k u apart =
    scan-Holds dir (record p { errors = p.errors ++ (not_checked j why ∷ []) }) k u.1
      (λ i s q. apart i s (inr q))

scan-length :
    (dir : Directory) (p : Populations)
    → HasUniqueNames dir
    → IsApart dir p
    → (length (scan dir p).narrow ≡ length p.narrow + length (having restores_in_finally dir))
      × (length (scan dir p).wide ≡ length p.wide + length (having reads_and_writes dir))
unfolding scan classify
scan-length [] p u apart = (omega arith, omega arith)
scan-length ((j, parsed tree) ∷ dir) p u apart =
    let (a, b, c) = apart j (parsed tree) (inl refl) in
    let (n, w) =
      scan-length dir (classify j tree p) u.1 (classify-IsApart j tree dir p u.0 apart) in
    (ground (arith, n, length-insert j p.narrow), ground (arith, w, length-insert j p.wide))
scan-length ((j, unparsed why) ∷ dir) p u apart =
    scan-length dir (record p { errors = p.errors ++ (not_checked j why ∷ []) }) u.1
      (λ i s q. apart i s (inr q))

true_not_false : ◌≡◌ {A = Bool} true false → ⊥
true_not_false h = absurd (cc)

not_nil : {A : Type 0} (a : A) (xs : List A) → xs ++ (a ∷ []) ≡ [] → ⊥
not_nil a [] h = absurd (cc)
not_nil a (y ∷ xs) h = absurd (cc)

scan-errors :
    (dir : Directory) (p : Populations)
    → (scan dir p).errors ≡ []
    → (p.errors ≡ []) × ((k why : String) → In (k, unparsed why) dir → ⊥)
unfolding scan classify
scan-errors [] p h = (h, λ k why q. q)
scan-errors ((j, parsed tree) ∷ dir) p h =
    let (a, b) = scan-errors dir (classify j tree p) h in
    (a, λ k why q. elim q [ inl e ↦ absurd (read_not_unread e) | inr z ↦ b k why z ])
  where
    is_read : Source → Bool
    is_read (parsed t) = true
    is_read (unparsed w) = false

    read_not_unread :
        {k why : String} → ◌≡◌ {A = String × Source} (j, parsed tree) (k, unparsed why) → ⊥
    read_not_unread e = true_not_false (ap (λ (r : String × Source). is_read r.1) e)
scan-errors ((j, unparsed why) ∷ dir) p h =
    let q = (scan-errors dir (record p { errors = p.errors ++ (not_checked j why ∷ []) }) h).0 in
    absurd (not_nil (not_checked j why) p.errors q)

scan-no_errors :
    (dir : Directory) (p : Populations)
    → p.errors ≡ []
    → ((k why : String) → In (k, unparsed why) dir → ⊥)
    → (scan dir p).errors ≡ []
unfolding scan classify
scan-no_errors [] p h none = h
scan-no_errors ((j, parsed tree) ∷ dir) p h none =
    scan-no_errors dir (classify j tree p) h (λ k why q. none k why (inr q))
scan-no_errors ((j, unparsed why) ∷ dir) p h none = absurd (none j why (inl refl))

module _ (x : Exemptions) (dir : Directory) (u : HasUniqueNames dir) where
  apart : IsApart dir nothing
  apart k s q = (refl, refl, refl)

  found : (k : String) → Holds dir nothing (scan dir nothing) k
  found k = scan-Holds dir nothing k u apart

  IsGreen-IsAccepted : IsGreen x (scan dir nothing) → IsAccepted x dir
  IsGreen-IsAccepted g =
      let (n, w) = scan-length dir nothing u apart in
      record {
        all_parsed = (scan-errors dir nothing g.all_parsed).1;
        narrow_enough = ground (arith, n, g.narrow_enough);
        wide_enough = ground (arith, w, g.wide_enough);
        unprotected_exact = λ k. ground (arith, g.unprotected_exact k, found k);
        happy_path_listed = λ k q. g.happy_path_listed k (ground (arith, found k));
        happy_path_current = λ k q. ground (arith, g.happy_path_current k q, found k);
        not_mutators_current = λ k q. ground (arith, g.not_mutators_current k q, found k);
        explained = g.explained;
      }

  IsAccepted-IsGreen : IsAccepted x dir → IsGreen x (scan dir nothing)
  IsAccepted-IsGreen g =
      let (n, w) = scan-length dir nothing u apart in
      record {
        all_parsed = scan-no_errors dir nothing refl g.all_parsed;
        narrow_enough = ground (arith, n, g.narrow_enough);
        wide_enough = ground (arith, w, g.wide_enough);
        unprotected_exact = λ k. ground (arith, g.unprotected_exact k, found k);
        happy_path_listed = λ k q. g.happy_path_listed k (ground (arith, found k));
        happy_path_current = λ k q. ground (arith, g.happy_path_current k q, found k);
        not_mutators_current = λ k q. ground (arith, g.not_mutators_current k q, found k);
        explained = g.explained;
      }

-- Over scripts with distinct names the guard exits with 0 exactly when every script of the directory was
-- read, as many scripts restore in a `finally` and as many read and write back as the floors say,
-- UNPROTECTED is exactly the set of restoring scripts without a handler, the other two lists hold no stale
-- entry and leave no read-and-write script unaccounted for, and each exemption has a reason.
pub main-IsAccepted :
    (x : Exemptions) (dir : Directory)
    → HasUniqueNames dir
    → ((main x dir).status ≡ 0) ↔ IsAccepted x dir
main-IsAccepted x dir u = (
  λ h. IsGreen-IsAccepted x dir u ((main-IsGreen x dir).0 h),
  λ a. (main-IsGreen x dir).1 (IsAccepted-IsGreen x dir u a),
)
