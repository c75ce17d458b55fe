-- ===== src/Anchors/Rules.antt =====
-- `main` of scripts/check-control-anchors.py: the rules R1 to R9 over the census.
use Prim.Native.Nat.{Ordering}
use Prim.Native.String.{compare}
use talyvor_track.Prelude.{
  ℕ, String, Bool, true, false, not, ◌&&◌, Option, none, some, List, [], ◌∷◌, ◌++◌, map, any,
  is_empty, keep, length, insert, sort_by, ltb, str_eq, if◌then◌else◌,
}
use talyvor_track.Ast.{Node, Source}
use talyvor_track.Anchors.Tables.{
  Key, row_schema, scoped, not_anchors, known_dead, scripts_floor, anchors_floor,
  bare_scripts_floor, bare_anchors_floor,
}
use talyvor_track.Anchors.Bare.{World, Verdict, Finding}
use talyvor_track.Anchors.Census.{Run, Schemas, key_eq, Tally, census}

-- The module-level tables and floors that `main` reads.
pub record Accounts : Type 0 where
  pub schemas : Schemas
  pub open schemas use *
  pub not_anchors : List Key
  -- each with what moved and when
  pub known_dead : List (Key × String)
  pub scripts_floor : ℕ
  pub anchors_floor : ℕ
  pub bare_scripts_floor : ℕ
  pub bare_anchors_floor : ℕ

abbrev pub shipped : Accounts
shipped = record {
  schemas = record { row_schema = row_schema; scoped = scoped };
  not_anchors = not_anchors;
  known_dead = known_dead;
  scripts_floor = scripts_floor;
  anchors_floor = anchors_floor;
  bare_scripts_floor = bare_scripts_floor;
  bare_anchors_floor = bare_anchors_floor;
}

-- What `main` appends to `failures`, one constructor for each rule, R2 with two.
pub data Failure : Type 0 where
  unaccounted : ℕ → Failure
  dead_vanished : Key → Failure
  dead_resolves : Key → String → Failure
  non_anchor_vanished : Key → Failure
  schema_yields_nothing : String → Failure
  scope_vanished : Key → Failure
  few_scripts : ℕ → Failure
  few_anchors : ℕ → Failure
  few_bare_scripts : ℕ → Failure
  few_bare_anchors : ℕ → Failure

abbrev pub is_ok : Finding → Bool
is_ok r = elim r.verdict [ Verdict.ok ↦ true | _ ↦ false ]

-- `(r["script"], r["sha"])`
abbrev pub key_of : Finding → Key
key_of r = (r.script, r.sha)

abbrev pub has_key : Key → List Key → Bool
has_key k keys = any (λ j. key_eq j k) keys

abbrev pub keys_of {ℓ} : {V : Type ℓ} → List (Key × V) → List Key
keys_of [] = []
keys_of ((k, v) ∷ d) = k ∷ keys_of d

-- `keyed.get(key)` for `keyed = {(r["script"], r["sha"]): r for r in results}`: of the results with
-- one key the last counts.
unfoldable pub keyed : List Finding → Key → Option Finding
keyed [] k = none
keyed (r ∷ rs) k = elim (keyed rs k) [
  | some later ↦ some later
  | none ↦ if key_eq (key_of r) k then some r else none
]

-- The order of keys under `sorted`.
unfoldable pub key_before : Key → Key → Bool
key_before a b = elim (compare a.0 b.0) [
  | Ordering.lt ↦ true
  | Ordering.gt ↦ false
  | Ordering.eq ↦ elim (compare a.1 b.1) [ Ordering.lt ↦ true | _ ↦ false ]
]

-- `set(r["script"] for r in results)`
unfoldable pub scripts_of : List Finding → List String
unfolding insert
scripts_of [] = []
scripts_of (r ∷ rs) = insert r.script (scripts_of rs)

abbrev pub r1 : List Finding → List Failure
r1 [] = []
r1 (r ∷ rs) = unaccounted (length (r ∷ rs)) ∷ []

-- R2 for one entry of KNOWN_DEAD.
unfoldable pub r2_entry : List Finding → Key → String → List Failure
unfolding keyed
r2_entry results k why = elim (keyed results k) [
  | none ↦ dead_vanished k ∷ []
  | some row ↦ if is_ok row then dead_resolves k why ∷ [] else []
]

unfoldable pub r2 : List Finding → List (Key × String) → List Failure
unfolding r2_entry
r2 results [] = []
r2 results ((k, why) ∷ dead) = r2_entry results k why ++ r2 results dead

abbrev pub appears : List Finding → Key → Bool
appears results k = any (λ r. key_eq (key_of r) k) results

abbrev pub yields : List Finding → String → Bool
yields results script = any (λ r. str_eq r.script script) results

-- `if measured < floor: failures.append(failure)`
abbrev pub floor : ℕ → ℕ → (ℕ → Failure) → List Failure
floor measured least failure = if ltb measured least then failure measured ∷ [] else []

module _ (x : Accounts) where
  -- The rows that are not ok and that nobody has accounted for.
  unfoldable pub unaccounted_rows : List Finding → List Finding
  unaccounted_rows results =
      keep
        (λ r.
          not (has_key (key_of r) x.not_anchors) && not (has_key (key_of r) (keys_of x.known_dead)))
        (keep (λ r. not (is_ok r)) results)

  unfoldable pub floors : Tally → List Failure
  unfolding scripts_of
  floors t =
      floor (length (scripts_of t.results)) x.scripts_floor few_scripts
      ++ (floor (length t.results) x.anchors_floor few_anchors
          ++ (floor t.bare_scripts x.bare_scripts_floor few_bare_scripts
              ++ floor t.bare_anchors x.bare_anchors_floor few_bare_anchors))

  -- The list `failures`, in the order in which the rules append to it.
  unfoldable pub failures : Tally → List Failure
  unfolding unaccounted_rows r2 sort_by key_before floors
  failures t =
      r1 (unaccounted_rows t.results)
      ++ (r2 t.results (sort_by (λ a b. key_before a.0 b.0) x.known_dead)
          ++ (map non_anchor_vanished
                (sort_by key_before (keep (λ k. not (appears t.results k)) x.not_anchors))
              ++ (map schema_yields_nothing (
                    sort_by (λ a b. elim (compare a b) [ Ordering.lt ↦ true | _ ↦ false ])
                      (keep (λ s. not (yields t.results s)) (map (λ e. e.0) x.row_schema)))
                  ++ (map scope_vanished (
                        sort_by key_before
                          (keep (λ k. not (appears t.results k)) (keys_of x.scoped)))
                      ++ floors t))))

  -- The exit status and the failures that are printed.
  abbrev pub Report : Type 0
  Report = record { status : ℕ; failures : List Failure; tally : Tally; population : ℕ }

  abbrev pub report : Bool → Tally → ℕ → Report
  report ci t population =
      let fs = failures t in
      record {
        status = if is_empty fs then 0 else if ci then 1 else 0;
        failures = fs;
        tally = t;
        population = population;
      }

  module _ (w : World) (self : String) (exec : String → List Node → Run) where
    unfoldable pub main : Bool → List (String × Source) → Report
    unfolding census failures
    main ci dir = let (t, population) = census w x.schemas self exec dir in report ci t population
