-- ===== src/Anchors/Census.antt =====
-- `census`: the verdict on every anchor of every control script.
use talyvor_track.Prelude.{
  ℕ, ◌+◌, ◌-◌, ℤ, pos, int_eq, String, Bool, true, false, ◌&&◌, Option, none, some, List, [], ◌∷◌,
  ◌++◌, any, is_empty, length, Text, codes, count, from_find, str_eq, if◌then◌else◌, ◌==◌,
}
use talyvor_track.Ast.{Node, Source, parsed, unparsed}
use talyvor_track.Anchors.Tables.{Key}
use talyvor_track.Anchors.Harvest.{Row, harvest, max_levels}
use talyvor_track.Anchors.Reading.{module_level_only}
use talyvor_track.Anchors.Bare.{
  World, Verdict, ok, inert, ambiguous, drifted, target_missing, scope_marker_missing, Finding,
  Namespace, is_dunder, located, bare_census, Why, exec_failed, why_unreached,
}

-- What the execution of the kept statements ends with: the namespace, or an exception.
pub data Run : Type 0 where
  namespace : Namespace → Run
  raised : String → Run

-- `dict.get` on a table whose keys are texts, or pairs of them.
unfoldable pub get {ℓ} : {V : Type ℓ} → String → List (String × V) → Option V
get k [] = none
get k ((j, v) ∷ d) = if str_eq j k then some v else get k d

abbrev pub key_eq : Key → Key → Bool
key_eq a b = str_eq a.0 b.0 && str_eq a.1 b.1

unfoldable pub get_key {ℓ} : {V : Type ℓ} → Key → List (Key × V) → Option V
get_key k [] = none
get_key k ((j, v) ∷ d) = if key_eq j k then some v else get_key k d

-- The tables that `census` reads.
pub record Schemas : Type 0 where
  pub row_schema : List (String × (ℕ × String))
  pub scoped : List (Key × (String × String))

-- `ROW_SCHEMA.get(name, (1, ""))[0]`
abbrev pub offset_of : Option (ℕ × String) → ℕ
offset_of none = 1
offset_of (some r) = r.0

abbrev pub is_declared : Option (ℕ × String) → Bool
is_declared none = false
is_declared (some r) = true

-- `harvest` over every name of the namespace.
unfoldable pub harvest_namespace : ℕ → Bool → Namespace → List Row → List Row
unfolding harvest
harvest_namespace off declared [] rows = rows
harvest_namespace off declared ((k, v) ∷ ns) rows = harvest_namespace off declared ns (
    if is_dunder k
    then rows
    else (harvest off declared v max_levels (record { seen = []; out = rows })).out)

abbrev pub want_eq : Option ℤ → Option ℤ → Bool
want_eq none none = true
want_eq (some a) (some b) = int_eq a b
want_eq _ _ = false

abbrev pub row_eq : Row → Row → Bool
row_eq r q = str_eq r.path q.path && (str_eq r.old q.old && want_eq r.want q.want)

-- The rows with each (path, old, want) once: the first stays.
unfoldable pub unique : List Row → List Row → List Row
unique uniq [] = uniq
unique uniq (r ∷ rows) = unique (if any (row_eq r) uniq then uniq else uniq ++ (r ∷ [])) rows

-- The verdict on `n` occurrences where the row may say how many there are.
unfoldable pub judge : Option ℤ → ℕ → Verdict
judge none n = if n == 0 then inert else if n == 1 then ok else ambiguous
judge (some want) n = if int_eq (pos n) want then ok else if n == 0 then inert else drifted

-- The results, the unreached scripts, and the three statistics of the bare detector.
pub record Tally : Type 0 where
  pub results : List Finding
  pub unreached : List (String × Why)
  pub bare_scripts : ℕ
  pub bare_anchors : ℕ
  pub bare_unclassified : ℕ

abbrev pub no_tally : Tally
no_tally = record {
  results = [];
  unreached = [];
  bare_scripts = 0;
  bare_anchors = 0;
  bare_unclassified = 0;
}

module _ (w : World) (x : Schemas) where
  abbrev pub finding : String → Row → Option ℕ → Verdict → Finding
  finding script r n verdict = record {
    script = script;
    path = w.relpath (located w.repo r.path);
    want = r.want;
    old = r.old;
    sha = w.anchor_sha r.old;
    count = n;
    verdict = verdict;
  }

  abbrev pub counted : String → Row → Text → Finding
  counted script r body =
      let n = count (codes r.old) body in finding script r (some n) (judge r.want n)

  -- The count in the target's text, from the marker on where SCOPED names one.
  abbrev pub scoped_count : String → Row → Text → Option (String × String) → Finding
  scoped_count script r body none = counted script r body
  scoped_count script r body (some (marker, why)) = elim (from_find (codes marker) body) [
    | none ↦ finding script r none scope_marker_missing
    | some rest ↦ counted script r rest
  ]

  -- What is recorded of a target that is there, or is not.
  abbrev pub check_target : String → Row → Option Text → Finding
  check_target script r none = finding script r none target_missing
  check_target script r (some body) =
      scoped_count script r body (get_key (script, w.anchor_sha r.old) x.scoped)

  -- The record of one row.
  unfoldable pub check_row : String → Row → Finding
  unfolding judge count from_find located get_key
  check_row script r = check_target script r (w.file (located w.repo r.path))

  unfoldable pub check_rows : String → List Row → List Finding
  unfolding check_row
  check_rows script [] = []
  check_rows script (r ∷ rows) = check_row script r ∷ check_rows script rows

  -- A script with no row: its bare constants.
  unfoldable pub tally_bare : String → Node → Namespace → Tally → Tally
  unfolding bare_census why_unreached
  tally_bare script tree ns t =
      let b = bare_census w script ns tree in
      record {
        results = t.results ++ b.rows;
        unreached =
            if b.considered == 0
            then t.unreached ++ ((script, why_unreached tree ns) ∷ [])
            else t.unreached;
        bare_scripts = if b.considered == 0 then t.bare_scripts else t.bare_scripts + 1;
        bare_anchors = t.bare_anchors + b.considered;
        bare_unclassified = t.bare_unclassified + b.unclassified;
      }

  -- The rows of a script, read by its schema if it has one.
  unfoldable pub rows_of : String → Namespace → List Row
  unfolding harvest_namespace unique get
  rows_of script ns =
      let schema = get script x.row_schema in
      unique [] (harvest_namespace (offset_of schema) (is_declared schema) ns [])

  -- A script that ran.
  unfoldable pub tally_ran : String → Node → Namespace → Tally → Tally
  unfolding rows_of check_rows tally_bare
  tally_ran script tree ns t =
      let uniq = rows_of script ns in
      if is_empty uniq
      then tally_bare script tree ns t
      else record t { results = t.results ++ check_rows script uniq }

  abbrev pub tally_failed : String → String → Tally → Tally
  tally_failed script why t = record t {
    unreached = t.unreached ++ ((script, exec_failed why) ∷ []);
  }

  -- What the execution of a script ended with.
  unfoldable pub tally_run : Run → String → Node → Tally → Tally
  unfolding tally_ran
  tally_run (raised why) script tree t = tally_failed script why t
  tally_run (namespace ns) script tree t = tally_ran script tree ns t

  module _ (self : String) (exec : String → List Node → Run) where
    -- The body of the loop. The file of the census itself is passed over.
    unfoldable pub tally_script : String → Source → Tally → Tally
    unfolding tally_run module_level_only
    tally_script script (unparsed why) t =
        if str_eq script self then t else tally_failed script why t
    tally_script script (parsed tree) t =
        if str_eq script self
        then t
        else tally_run (exec script (module_level_only tree)) script tree t

    unfoldable pub tally_all : List (String × Source) → Tally → Tally
    unfolding tally_script
    tally_all [] t = t
    tally_all ((script, source) ∷ rest) t = tally_all rest (tally_script script source t)

    -- The tally, and the population: all scripts but this one.
    unfoldable pub census : List (String × Source) → Tally × ℕ
    unfolding tally_all
    census dir = (tally_all dir no_tally, length dir - 1)
