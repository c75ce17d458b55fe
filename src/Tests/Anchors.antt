-- ===== src/Tests/Anchors.antt =====
-- scripts/check-control-anchors.py on a repository with one control script.
use talyvor_track.Prelude.{
  String, ◌≡◌, refl, inl, inr, true, false, Option, none, some, List, [], ◌∷◌, codes, Text, In,
  str_eq, if◌then◌else◌, replace, count_from, arith,
}
use talyvor_track.Prelude.Replace.{IsOnePlace}
use talyvor_track.Ast.{
  Node, nil, cons, call, attribute, name, text_constant, assign, import_names, Source, parsed,
}
use talyvor_track.Anchors.Shape.{path_shaped}
use talyvor_track.Anchors.Harvest.{Value, text, int, seq, Values, Row, harvest, empty, max_levels}
use talyvor_track.Anchors.Harvest
use talyvor_track.Anchors.Rows.{IsRow, harvest-IsRow}
use talyvor_track.Anchors.Unshared.{IsUnshared, rows, harvest-eq-rows, ids}
use talyvor_track.Anchors.Reading.{module_level_only, calls_only_compute}
use talyvor_track.Anchors.Bare.{World, located}
use talyvor_track.Anchors.Census.{Run, namespace, census, rows_of, get_key}
use talyvor_track.Anchors.Rules.{Accounts, unaccounted, main}
use talyvor_track.Anchors.Accounted.{IsSound, main-IsSound}
use talyvor_track.Anchors.Applied.{main-applies}
use talyvor_track.Tests.Trees.{tree_of}

abbrev pub values : List Value → Values
values [] = Harvest.nil
values (v ∷ vs) = Harvest.cons v (values vs)

-- `("A1", "a.go", "x := 1", "x := 2")`
abbrev arm : Value
arm = seq 2 (values (text "A1" ∷ text "a.go" ∷ text "x := 1" ∷ text "x := 2" ∷ []))

abbrev controls : Value
controls = seq 1 (values (arm ∷ []))

abbrev row : Row
row = record { path = "a.go"; old = "x := 1"; want = none }

harvested : (harvest 1 false controls max_levels empty).out ≡ row ∷ []
unfolding harvest Harvest.enter Harvest.or_elements Harvest.first_row Harvest.to_list path_shaped
harvested = refl

harvest-IsRow_example : IsRow row
harvest-IsRow_example = harvest-IsRow 1 false controls row (
    unfold harvest Harvest.enter Harvest.or_elements Harvest.first_row Harvest.to_list
      path_shaped in
    inl refl)

-- `ok, failed = run()`, and `best = max(ok)`, between two assignments that compute.
abbrev bind : String → Node → Node
bind k value = assign (cons (name k) nil) value

abbrev campaign : Node
campaign = call (name "run") nil nil

abbrev script : Node
script = tree_of (
    import_names
    ∷ bind "controls" (text_constant "rows")
    ∷ bind "ok" campaign
    ∷ bind "best" (call (name "max") (cons (name "ok") nil) nil)
    ∷ [])

kept_statements :
    module_level_only script ≡ import_names ∷ bind "controls" (text_constant "rows") ∷ []
unfolding module_level_only
kept_statements = refl

-- `os.replace` renames a file, and passes as the text method of that name.
os_replace : Node
os_replace = call (attribute (name "os") "replace") (cons (name "a") (cons (name "b") nil)) nil

os_replace_passes : calls_only_compute os_replace ≡ true
unfolding calls_only_compute os_replace
os_replace_passes = refl

-- So does `shutil.copy`, as the method of that name.
shutil_copy : Node
shutil_copy = call (attribute (name "shutil") "copy") (cons (name "a") (cons (name "b") nil)) nil

shutil_copy_passes : calls_only_compute shutil_copy ≡ true
unfolding calls_only_compute shutil_copy
shutil_copy_passes = refl

abbrev disk : String → Option Text
disk p = if str_eq p "/repo/a.go" then some (codes "var x := 1;") else none

abbrev world : World
world = record { repo = "/repo"; file = disk; relpath = λ p. p; anchor_sha = λ s. s }

abbrev exec : String → List Node → Run
exec k kept = namespace (("CONTROLS", controls) ∷ [])

abbrev accounts : Accounts
accounts = record {
  schemas = record { row_schema = []; scoped = [] };
  not_anchors = [];
  known_dead = [];
  scripts_floor = 1;
  anchors_floor = 1;
  bare_scripts_floor = 0;
  bare_anchors_floor = 0;
}

abbrev scripts : List (String × Source)
scripts = ("check.py", parsed script) ∷ ("controls.py", parsed script) ∷ []

accepted : (main accounts world "check.py" exec true scripts).status ≡ 0
unfolding main Harvest.enter Harvest.or_elements Harvest.first_row Harvest.to_list path_shaped
    count_from
accepted = refl

-- The edit that killed the anchor reddens the run.
killed :
    (main accounts
      (record world { file = λ p. some (codes "var y := 1;") })
      "check.py"
      exec
      true
      scripts).failures
    ≡ unaccounted 1 ∷ []
unfolding main Harvest.enter Harvest.or_elements Harvest.first_row Harvest.to_list path_shaped
    count_from
killed = refl

main-IsSound_example : IsSound accounts (census world accounts.schemas "check.py" exec scripts).0
main-IsSound_example = (main-IsSound accounts world "check.py" exec scripts).0 accepted

row_read : In row (rows_of world accounts.schemas "controls.py" (("CONTROLS", controls) ∷ []))
unfolding rows_of Harvest.enter Harvest.or_elements Harvest.first_row Harvest.to_list path_shaped
row_read = inl refl

main-applies_example :
    (body : Text) × (world.file "/repo/a.go" ≡ some body)
    × IsOnePlace
        (codes "x := 1")
        (codes "x := 2")
        body
        (replace (codes "x := 1") (codes "x := 2") body)
unfolding located
main-applies_example =
    main-applies accounts world "check.py" exec scripts "controls.py" script
      (("CONTROLS", controls) ∷ []) row (codes "x := 2") (inr (inl refl)) refl refl row_read
      (unfold get_key in refl) refl refl accepted

controls-IsUnshared : IsUnshared controls
unfolding IsUnshared ids
controls-IsUnshared = (
  λ i q r. elim q [ inl e ↦ elim r [ inl f ↦ omega arith | inr z ↦ z ] | inr z ↦ z ],
  (
    (λ i q r. r, (tt, (tt, (tt, (tt, tt, λ i q r. q), λ i q r. q), λ i q r. q), λ i q r. q)),
    tt,
    λ i q r. r,
  ),
)

harvest-eq-rows_example : (harvest 1 false controls max_levels empty).out ≡ rows 1 false controls 9
harvest-eq-rows_example = harvest-eq-rows 1 false controls controls-IsUnshared
