-- ===== src/Campaign/JiraResolution.antt =====
-- The table of scripts/w34-jira-api-resolution-controls.py: abandoned work is no delivered work.
use talyvor_track.Prelude.{none, List, [], ◌∷◌, codes}
use talyvor_track.Harness.Disk.{Disk}
use talyvor_track.Campaign.Suite.{Env}
use talyvor_track.Campaign.Runner.{Control, Outcome, main_with}

abbrev pub c1 : Control
c1 = record {
  cid = "C1";
  path = "internal/importer/jira.go";
  anchor = codes "jiraAPIUpdatedField, jiraAPIResolutionField}";
  repl = codes "jiraAPIUpdatedField}";
  must_red = "TestJiraRequest_AsksForTheResolutionField" ∷ [];
  must_green = "TestJiraAPIResolution_AbandonedWorkImportsAsCancelledWithNoCompletionTime" ∷ [];
  pkg = "./internal/importer/";
  note = "the shipped Jira request stops asking for `resolution` (HTTP 200, key silently absent)";
  scope = none;
}

abbrev pub c1b : Control
c1b = record {
  cid = "C1b";
  path = "internal/importer/jira.go";
  anchor = codes "jiraAPIUpdatedField, jiraAPIResolutionField}";
  repl = codes "jiraAPIUpdatedField}";
  must_red = [];
  must_green = "TestJobRow_JiraAPI_AbandonedWorkLandsCancelledAndUncountedInPostgres" ∷ [];
  pkg = "./internal/importer/";
  note = "DOCUMENTED-INERT: the canned server ignores `fields`, so the job test cannot see this";
  scope = none;
}

abbrev pub c2 : Control
c2 = record {
  cid = "C2";
  path = "internal/importer/api_resolution.go";
  anchor = codes "jiraAPIResolutionField = \"resolution\"";
  repl = codes "jiraAPIResolutionField = \"resolutions\"";
  must_red = "TestJiraRequest_AsksForTheResolutionField" ∷ [];
  must_green = "TestJiraAPIResolution_AbandonedWorkImportsAsCancelledWithNoCompletionTime" ∷ [];
  pkg = "./internal/importer/";
  note = "the constant is misspelt — a self-comparing wire test would stay green here";
  scope = none;
}

abbrev pub c3 : Control
c3 = record {
  cid = "C3";
  path = "internal/importer/jira.go";
  anchor =
      codes
        "\t\tstatus, resolutionNotes := jiraAPIResolution(it.Fields.Resolution, status)\n\t\tdue, dueNotes := jiraDueDate(it.Fields.DueDate)\n\t\tcompleted, completedNotes := jiraCompletedAt(it.Fields.ResolutionDate, status)";
  repl =
      codes
        "\t\tdue, dueNotes := jiraDueDate(it.Fields.DueDate)\n\t\tcompleted, completedNotes := jiraCompletedAt(it.Fields.ResolutionDate, status)\n\t\tstatus, resolutionNotes := jiraAPIResolution(it.Fields.Resolution, status)";
  must_red =
      "TestJobRow_JiraAPI_AbandonedWorkLandsCancelledAndUncountedInPostgres"
      ∷ "TestJiraAPIResolution_AbandonedWorkImportsAsCancelledWithNoCompletionTime" ∷ [];
  must_green = "TestJobRow_JiraCSV_AbandonedWorkLandsCancelledAndUndatedInPostgres" ∷ [];
  pkg = "./internal/importer/";
  note =
      "THE ORDERING: the rule runs AFTER the completion-time gate, so the cancelled row keeps its date";
  scope = none;
}

abbrev pub c4 : Control
c4 = record {
  cid = "C4";
  path = "internal/importer/jira.go";
  anchor = codes "\t\tstatus, resolutionNotes := jiraAPIResolution(it.Fields.Resolution, status)";
  repl =
      codes
        "\t\tnameOnly, _ := mapJiraStatus(it.Fields.Status.Name)\n\t\tmutated, resolutionNotes := jiraAPIResolution(it.Fields.Resolution, nameOnly)\n\t\tif mutated != nameOnly {\n\t\t\tstatus = mutated\n\t\t}";
  must_red = "TestJiraAPIResolution_TheCategoryRouteOntoDoneIsCoveredToo" ∷ [];
  must_green = "TestJiraAPIResolution_AbandonedWorkImportsAsCancelledWithNoCompletionTime" ∷ [];
  pkg = "./internal/importer/";
  note = "THE POSITION: the rule reads the NAME-mapped status, so the category route is unexamined";
  scope = none;
}

abbrev pub c5 : Control
c5 = record {
  cid = "C5";
  path = "internal/importer/api_resolution.go";
  anchor =
      codes
        "func reportOnDone(status model.IssueStatus, n FieldNote) []FieldNote {\n\tif status != model.StatusDone {";
  repl =
      codes
        "func reportOnDone(status model.IssueStatus, n FieldNote) []FieldNote {\n\tif false && status != model.StatusDone {";
  must_red = "TestJiraAPIResolution_AnAbsentFieldIsReportedOnEveryDoneRow" ∷ [];
  must_green = "TestJiraAPIResolution_AbandonedWorkImportsAsCancelledWithNoCompletionTime" ∷ [];
  pkg = "./internal/importer/";
  note = "the report gate is blinded — an open row is told its resolution field went missing";
  scope = none;
}

abbrev pub c5b : Control
c5b = record {
  cid = "C5b";
  path = "internal/importer/jira_csv_resolution.go";
  anchor = codes "\tif raw == \"\" || status != model.StatusDone {";
  repl = codes "\tif raw == \"\" {";
  must_red =
      "TestJiraAPIResolution_ARowThatDidNotImportAsDoneIsUntouched"
      ∷ "TestJiraCSVResolution_OnlyEverActsOnADoneRow" ∷ [];
  must_green = "TestJiraAPIResolution_AbandonedWorkImportsAsCancelledWithNoCompletionTime" ∷ [];
  pkg = "./internal/importer/";
  note =
      "the SHARED rule's done-only gate is blinded — #82's invariant, now load-bearing for two transports";
  scope = none;
}

abbrev pub c6 : Control
c6 = record {
  cid = "C6";
  path = "internal/importer/api_resolution.go";
  anchor = codes "\tif len(raw) == 0 {\n\t\treturn status, reportOnDone(status, FieldNote{";
  repl = codes "\tif false && len(raw) == 0 {\n\t\treturn status, reportOnDone(status, FieldNote{";
  must_red =
      "TestJiraAPIResolution_AnAbsentFieldIsReportedOnEveryDoneRow"
      ∷ "TestJobRow_JiraAPI_AResponseWithNoResolutionFieldSaysSoInTheJobRow" ∷ [];
  must_green = "TestJiraAPIResolution_AbandonedWorkImportsAsCancelledWithNoCompletionTime" ∷ [];
  pkg = "./internal/importer/";
  note = "an ABSENT `resolution` key stops being reported — the rule goes silently inert";
  scope = none;
}

abbrev pub c7 : Control
c7 = record {
  cid = "C7";
  path = "internal/importer/api_resolution.go";
  anchor = codes "\tif len(raw) == 0 {";
  repl = codes "\tif len(raw) == 0 || string(raw) == \"null\" {";
  must_red = "TestJiraAPIResolution_ANullResolutionIsNotALoss" ∷ [];
  must_green = "TestJiraAPIResolution_AbandonedWorkImportsAsCancelledWithNoCompletionTime" ∷ [];
  pkg = "./internal/importer/";
  note = "an UNRESOLVED issue is reported as a broken response — absent and null conflated";
  scope = none;
}

abbrev pub c8 : Control
c8 = record {
  cid = "C8";
  path = "internal/importer/api_resolution.go";
  anchor =
      codes
        "\tif err := json.Unmarshal(raw, &res); err != nil {\n\t\t// A shape this decoder cannot read";
  repl =
      codes
        "\tif err := json.Unmarshal(raw, &res); err != nil && false {\n\t\t// A shape this decoder cannot read";
  must_red = "TestJiraAPIResolution_AnUnexpectedShapeIsReportedNotDropped" ∷ [];
  must_green = "TestJiraAPIResolution_AbandonedWorkImportsAsCancelledWithNoCompletionTime" ∷ [];
  pkg = "./internal/importer/";
  note = "a `resolution` in a shape the decoder cannot read is dropped in silence";
  scope = none;
}

abbrev pub c9 : Control
c9 = record {
  cid = "C9";
  path = "internal/importer/jira_csv_resolution.go";
  anchor = codes "\tmeaning, _ := mapJiraStatus(raw)";
  repl =
      codes
        "\tif raw == \"Duplicate\" {\n\t\treturn model.StatusCancelled, nil\n\t}\n\tmeaning, _ := mapJiraStatus(raw)";
  must_red =
      "TestSourceDerived_TheResolutionRuleOwnsNoVocabulary"
      ∷ "TestJiraAPIResolution_UnreadableResolutionIsReportedAndChangesNothing" ∷ [];
  must_green = "TestJiraAPIResolution_AbandonedWorkImportsAsCancelledWithNoCompletionTime" ∷ [];
  pkg = "./internal/importer/";
  note = "the shared rule grows its OWN vocabulary — the refusal #82 and #76 both left standing";
  scope = none;
}

abbrev pub c10 : Control
c10 = record {
  cid = "C10";
  path = "internal/importer/jira.go";
  anchor = codes "jiraAPIResolution(it.Fields.Resolution, status)";
  repl = codes "jiraAPIResolution(nil, status)";
  must_red = "TestJobRow_JiraAPI_AbandonedWorkLandsCancelledAndUncountedInPostgres" ∷ [];
  must_green = "TestJobRow_JiraCSV_AbandonedWorkLandsCancelledAndUndatedInPostgres" ∷ [];
  pkg = "./internal/importer/";
  note = "REACHABILITY PROBE for C1b: the mapper reads nothing, and the job test must see THAT";
  scope = none;
}

abbrev pub c11 : Control
c11 = record {
  cid = "C11";
  path = "internal/importer/api_resolution.go";
  anchor = codes "// api_resolution.go — whether closed work was FINISHED or ABANDONED";
  repl = codes "// api_resolution.go — whether closed work was finished or abandoned";
  must_red = [];
  must_green =
      "TestJiraAPIResolution_AbandonedWorkImportsAsCancelledWithNoCompletionTime"
      ∷ "TestJobRow_JiraAPI_AbandonedWorkLandsCancelledAndUncountedInPostgres" ∷ [];
  pkg = "./internal/importer/";
  note = "MUST-STAY-GREEN: a comment reworded in the file every other control edits";
  scope = none;
}

abbrev pub controls : List Control
controls = c1 ∷ c1b ∷ c2 ∷ c3 ∷ c4 ∷ c5 ∷ c5b ∷ c6 ∷ c7 ∷ c8 ∷ c9 ∷ c10 ∷ c11 ∷ []

unfoldable pub main : Env → Disk → Outcome
unfolding main_with
main env d = main_with env "./internal/importer/" controls d
