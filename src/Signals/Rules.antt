-- ===== src/Signals/Rules.antt =====
-- `main` of scripts/check-restore-signal-handlers.py: the populations and the rules R1 to R7.
use mathlib.Core.Bool.{◌&&◌, ◌||◌, not}
use talyvor_track.Prelude.{
  ℕ, String, Bool, List, [], ◌∷◌, ◌++◌, map, length, contains, insert, sorted, minus, meet, ltb,
  codes, any, is_space, if◌then◌else◌,
}
use talyvor_track.Ast.{Node, Source, parsed, unparsed}
use talyvor_track.Signals.Detect.{restores_in_finally, reads_and_writes, installs_handler}
use talyvor_track.Signals.Exemptions.{Exemptions}

-- `sorted(SCRIPTS.glob("*.py"))`, each path by its name.
abbrev pub Directory : Type 0
Directory = List (String × Source)

-- What `main` appends to `fail`, one constructor for each rule.
pub data Failure : Type 0 where
  not_checked : String → String → Failure
  narrow_below_floor : ℕ → Failure
  wide_below_floor : ℕ → Failure
  strands_on_signal : String → Failure
  strands_on_exception : String → Failure
  now_protected : String → Failure
  now_in_finally : String → Failure
  stale_unprotected : String → Failure
  stale_happy_path : String → Failure
  stale_not_mutator : String → Failure
  no_reason : String → Failure

-- The sets `narrow`, `wide` and `protected`, and the list `errors`.
pub record Populations : Type 0 where
  pub narrow : List String
  pub wide : List String
  pub protected : List String
  pub errors : List Failure

-- The body of the loop for a script that was parsed.
unfoldable pub classify : String → Node → Populations → Populations
unfolding restores_in_finally reads_and_writes installs_handler insert
classify name tree p =
    let narrow = if restores_in_finally tree then insert name p.narrow else p.narrow in
    let wide = if reads_and_writes tree then insert name p.wide else p.wide in
    record p {
      narrow = narrow;
      wide = wide;
      protected =
          if (contains narrow name || contains wide name) && installs_handler tree
          then insert name p.protected
          else p.protected;
    }

-- The loop over the directory.
unfoldable pub scan : Directory → Populations → Populations
unfolding classify
scan [] p = p
scan ((name, parsed tree) ∷ rest) p = scan rest (classify name tree p)
scan ((name, unparsed why) ∷ rest) p =
    scan rest (record p { errors = p.errors ++ (not_checked name why ∷ []) })

abbrev pub nothing : Populations
nothing = record { narrow = []; wide = []; protected = []; errors = [] }

-- The keys of a dict.
abbrev pub keys : List (String × String) → List String
keys [] = []
keys ((k, v) ∷ d) = k ∷ keys d

-- `not why.strip()`: every character is white space.
unfoldable pub is_blank : String → Bool
is_blank why = not (any (λ c. not (is_space c)) (codes why))

unfoldable pub unexplained : List (String × String) → List String
unfolding is_blank
unexplained [] = []
unexplained ((k, why) ∷ d) = let rest = unexplained d in if is_blank why then k ∷ rest else rest

module _ (x : Exemptions) where
  -- `narrow - protected - UNPROTECTED`
  abbrev pub unaccounted : Populations → List String
  unaccounted p = minus (minus p.narrow p.protected) x.unprotected

  -- `wide - narrow - NOT_MUTATORS.keys() - HAPPY_PATH_ONLY`
  abbrev pub only_happy : Populations → List String
  only_happy p = minus (minus (minus p.wide p.narrow) (keys x.not_mutators)) x.happy_path_only

  unfoldable pub floors : Populations → List Failure
  floors p =
      (if ltb (length p.narrow) x.narrow_floor
        then narrow_below_floor (length p.narrow) ∷ []
        else [])
      ++ (if ltb (length p.wide) x.wide_floor then wide_below_floor (length p.wide) ∷ [] else [])

  -- The list `fail`, in the order in which the rules append to it.
  unfoldable pub failures : Populations → List Failure
  unfolding floors sorted unexplained
  failures p =
      p.errors
      ++ (floors p
          ++ (map strands_on_signal (sorted (unaccounted p))
              ++ (map strands_on_exception (sorted (only_happy p))
                  ++ (map now_protected (sorted (meet x.unprotected p.protected))
                      ++ (map now_in_finally (sorted (meet x.happy_path_only p.narrow))
                          ++ (map stale_unprotected (sorted (minus x.unprotected p.narrow))
                              ++ (map stale_happy_path (sorted (minus x.happy_path_only p.wide))
                                  ++ (map stale_not_mutator
                                        (sorted (minus (keys x.not_mutators) p.wide))
                                      ++ map no_reason (sorted (unexplained x.not_mutators))))))))))

  -- The exit status and what is printed, less the wording.
  abbrev pub Report : Type 0
  Report = record { status : ℕ; fail : List Failure; found : Populations }

  unfoldable pub main : Directory → Report
  unfolding scan failures
  main dir =
      let p = scan dir nothing in
      let fail = failures p in
      record { status = elim fail [ [] ↦ 0 | f ∷ fs ↦ 1 ]; fail = fail; found = p }
