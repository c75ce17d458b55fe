-- ===== src/Signals/Scan.antt =====
-- The populations that the loop of `main` collects, script by script, and what a green run says of
-- each script.
use talyvor_track.Prelude.{
  String, ◌≡◌, refl, sym, ap, inl, inr, Bool, false, not, ◌&&◌, ◌||◌, [], ◌∷◌, ◌++◌, arith, In,
  contains, contains-insert, str_eq, eq_iff,
}
use mathlib.Core.Path.{subst}
use talyvor_track.Ast.{Node, Source, parsed, unparsed}
use talyvor_track.Signals.Detect.{
  restores_in_finally, reads_and_writes, installs_handler, handler_call,
}
use talyvor_track.Signals.Found.{Restores, Has, restores_in_finally_iff, installs_handler_iff}
use talyvor_track.Signals.Exemptions.{Exemptions}
use talyvor_track.Signals.Rules.{Directory, Populations, classify, scan, nothing, main, not_checked}
use talyvor_track.Signals.Green.{main-IsGreen}

-- No script is named `k`.
abbrev pub Fresh : String → Directory → Type 0
Fresh k [] = Unit
Fresh k ((j, s) ∷ dir) = (str_eq j k ≡ false) × Fresh k dir

-- The names of a directory differ.
abbrev pub HasUniqueNames : Directory → Type 0
HasUniqueNames [] = Unit
HasUniqueNames ((k, s) ∷ dir) = Fresh k dir × HasUniqueNames dir

-- What the populations say of one name.
abbrev Says : Populations → String → Bool → Bool → Bool → Type 0
Says p k n w g = (contains p.narrow k ≡ n) × (contains p.wide k ≡ w) × (contains p.protected k ≡ g)

classify_ne :
    (j k : String) (tree : Node) (p : Populations) (n w g : Bool)
    → str_eq j k ≡ false
    → Says p k n w g
    → Says (classify j tree p) k n w g
unfolding classify
classify_ne j k tree p n w g ne (a, b, c) = (
  ground (arith, contains-insert j p.narrow k),
  ground (arith, contains-insert j p.wide k),
  ground (arith, contains-insert j p.protected k),
)

scan-Fresh :
    (dir : Directory) (k : String) (p : Populations) (n w g : Bool)
    → Fresh k dir
    → Says p k n w g
    → Says (scan dir p) k n w g
unfolding scan
scan-Fresh [] k p n w g f s = s
scan-Fresh ((j, parsed tree) ∷ dir) k p n w g f s =
    scan-Fresh dir k (classify j tree p) n w g f.1 (classify_ne j k tree p n w g f.0 s)
scan-Fresh ((j, unparsed why) ∷ dir) k p n w g f s =
    scan-Fresh dir k (record p { errors = p.errors ++ (not_checked j why ∷ []) }) n w g f.1 s

-- A script's name lands in each population by the script's own tree.
abbrev pub Sorted : Populations → String → Node → Type 0
Sorted p k tree =
    Says p k (restores_in_finally tree) (reads_and_writes tree)
      ((restores_in_finally tree || reads_and_writes tree) && installs_handler tree)

classify_self :
    (k : String) (tree : Node) (p : Populations)
    → Says p k false false false
    → Sorted (classify k tree p) k tree
unfolding classify
classify_self k tree p (a, b, c) = (
  ground (arith, contains-insert k p.narrow k, eq_iff k k),
  ground (arith, contains-insert k p.wide k, eq_iff k k),
  ground (
    arith,
    contains-insert k p.narrow k,
    contains-insert k p.wide k,
    contains-insert k p.protected k,
    eq_iff k k,
  ),
)

pub Fresh-In :
    (dir : Directory) (j k : String) (s : Source) → Fresh j dir → In (k, s) dir → str_eq j k ≡ false
Fresh-In [] j k s f q = elim q [ ]
Fresh-In ((i, t) ∷ dir) j k s f (inl e) =
    let same : i ≡ k = ap (λ (r : String × Source). r.0) e in
    ground (arith, f.0, eq_iff i j, eq_iff j k)
Fresh-In ((i, t) ∷ dir) j k s f (inr q) = Fresh-In dir j k s f.1 q

scan_self :
    (dir : Directory) (k : String) (tree : Node) (p : Populations)
    → HasUniqueNames dir
    → In (k, parsed tree) dir
    → Says p k false false false
    → Sorted (scan dir p) k tree
unfolding scan
scan_self [] k tree p u q s = elim q [ ]
scan_self ((j, t) ∷ dir) k tree p u (inl e) s =
    subst (λ (r : String × Source). Sorted (scan (r ∷ dir) p) k tree) (sym e)
      (scan-Fresh dir k (classify k tree p) _ _ _
        (subst (λ i. Fresh i dir) (ap (λ (r : String × Source). r.0) e) u.0)
        (classify_self k tree p s))
scan_self ((j, parsed t) ∷ dir) k tree p u (inr q) s =
    scan_self dir k tree (classify j t p) u.1 q
      (classify_ne j k t p false false false (Fresh-In dir j k (parsed tree) u.0 q) s)
scan_self ((j, unparsed why) ∷ dir) k tree p u (inr q) s =
    scan_self dir k tree (record p { errors = p.errors ++ (not_checked j why ∷ []) }) u.1 q s

-- A script is in a population exactly if its own tree passes the detector, and is protected if
-- besides it installs a handler.
pub scan-Sorted :
    (dir : Directory) (k : String) (tree : Node)
    → HasUniqueNames dir
    → In (k, parsed tree) dir
    → Sorted (scan dir nothing) k tree
scan-Sorted dir k tree u q = scan_self dir k tree nothing u q (refl, refl, refl)

module _ (x : Exemptions) (dir : Directory) (k : String) (tree : Node) where
  -- In a green run over scripts with distinct names, a script that was read is listed in
  -- UNPROTECTED exactly if it restores in a `finally` and installs no handler.
  pub main-listed_exactly :
      HasUniqueNames dir
      → In (k, parsed tree) dir
      → (main x dir).status ≡ 0
      → contains x.unprotected k ≡ (restores_in_finally tree && not (installs_handler tree))
  main-listed_exactly u q h =
      let g = (main-IsGreen x dir).0 h in
      ground (arith, g.unprotected_exact k, scan-Sorted dir k tree u q)

  -- In a green run over scripts with distinct names, every script that was read and that restores
  -- what it mutated (by a `with` block, by git, by a write or by a helper in a `finally`) holds a
  -- call of `signal.signal`, unless its name is in UNPROTECTED.
  pub main-handled :
      HasUniqueNames dir
      → In (k, parsed tree) dir
      → (main x dir).status ≡ 0
      → contains x.unprotected k ≡ false
      → Restores tree
      → Has handler_call tree
  main-handled u q h unlisted r =
      (installs_handler_iff tree).0
        (ground (arith, main-listed_exactly u q h, (restores_in_finally_iff tree).1 r))
