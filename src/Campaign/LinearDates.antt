-- ===== src/Campaign/LinearDates.antt =====
-- The table of scripts/w34-linear-csv-dates-controls.py: the two date columns of a Linear export.
use talyvor_track.Prelude.{String, none, List, [], ◌∷◌, codes}
use talyvor_track.Harness.Disk.{Disk}
use talyvor_track.Campaign.Suite.{Env}
use talyvor_track.Campaign.Runner.{Control, Outcome, main_with}

abbrev pub imp : String
imp = "./internal/importer/"

abbrev pub dates : String
dates = "internal/importer/linear_csv_dates.go"

abbrev pub csv : String
csv = "internal/importer/csv.go"

abbrev pub jira_created : String
jira_created = "internal/importer/jira_csv_created.go"

abbrev pub created_lands : String
created_lands = "TestLinearCSV_CreatedLandsOnTheIssue"

abbrev pub no_col : String
no_col = "TestLinearCSV_MissingCreatedColumnIsReported"

abbrev pub empty_cell : String
empty_cell = "TestLinearCSV_EmptyCreatedValueIsReportedApartFromTheMissingColumn"

abbrev pub bad_created : String
bad_created = "TestLinearCSV_UnparseableCreatedIsReportedNotSilentlyDefaulted"

abbrev pub completed_lands : String
completed_lands = "TestLinearCSV_CompletedLandsOnADoneIssue"

abbrev pub refused : String
refused = "TestLinearCSV_CompletedIsRefusedAndReportedWhenTheIssueIsNotDone"

abbrev pub bad_completed : String
bad_completed = "TestLinearCSV_UnparseableCompletedIsReported"

abbrev pub clean : String
clean = "TestLinearCSV_AFullyReadableRowAddsNoWarning"

abbrev pub no_completed_col : String
no_completed_col = "TestLinearCSV_AnAbsentCompletedColumnIsNotAWarning"

abbrev pub mapper_pin : String
mapper_pin = "TestLinearCSVMapper_ReadsTheDocumentedDatesAndInventsNoOthers"

abbrev pub job_dates : String
job_dates = "TestJobRow_LinearCSV_ImportedIssueKeepsTheDatesLinearRecorded"

abbrev pub job_cycle : String
job_cycle = "TestJobRow_LinearCSV_CycleTimeOfAnImportedIssueIsRealAndPositive"

abbrev pub job_warn : String
job_warn = "TestJobRow_LinearCSV_ADatelessExportSaysSoInTheJobROW"

abbrev pub jira_created_wired : String
jira_created_wired = "TestJiraCSVCreated_Rule2_TheMeasuredBytes"

abbrev pub c1 : Control
c1 = record {
  cid = "C1";
  path = dates;
  anchor = codes "func linearCSVCreated(ci columnIndex, row []string) (time.Time, []FieldNote) {\n";
  repl =
      codes
        "func linearCSVCreated(ci columnIndex, row []string) (time.Time, []FieldNote) {\n\treturn time.Time{}, nil // CONTROL\n";
  must_red =
      created_lands ∷ no_col ∷ empty_cell ∷ bad_created ∷ mapper_pin ∷ job_dates ∷ job_cycle
      ∷ job_warn ∷ [];
  must_green = completed_lands ∷ refused ∷ clean ∷ no_completed_col ∷ [];
  pkg = imp;
  note =
      "THE DEFECT ITSELF, created half — the exact pre-merge behaviour. ⚠ THE VERDICT TO READ HERE IS JOB_CYCLE's MESSAGE, not its exit code: with Completed read and Created not, the median goes NEGATIVE rather than to zero. That is #83's defect reproduced on this transport, and it is what earns the Created half SEPARATELY from the Completed half.";
  scope = none;
}

abbrev pub c2 : Control
c2 = record {
  cid = "C2";
  path = dates;
  anchor =
      codes
        "func linearCSVCompleted(raw string, status model.IssueStatus) (*time.Time, []FieldNote) {\n";
  repl =
      codes
        "func linearCSVCompleted(raw string, status model.IssueStatus) (*time.Time, []FieldNote) {\n\treturn nil, nil // CONTROL\n";
  must_red = completed_lands ∷ refused ∷ bad_completed ∷ mapper_pin ∷ job_dates ∷ job_cycle ∷ [];
  must_green = created_lands ∷ no_col ∷ clean ∷ no_completed_col ∷ [];
  pkg = imp;
  note =
      "THE DEFECT ITSELF, completed half. JOB_CYCLE reds with median = 0 rather than negative: no row satisfies analytics' `completed_at IS NOT NULL`, so the finished history is not wrong in the report, it is ABSENT from it. The two halves hide each other, which is why both are here.";
  scope = none;
}

abbrev pub c3 : Control
c3 = record {
  cid = "C3";
  path = dates;
  anchor = codes "\tlinearCSVCreatedColumn   = \"Created\"";
  repl = codes "\tlinearCSVCreatedColumn   = \"Created At\"";
  must_red = created_lands ∷ empty_cell ∷ mapper_pin ∷ job_dates ∷ job_cycle ∷ [];
  must_green = completed_lands ∷ refused ∷ no_completed_col ∷ [];
  pkg = imp;
  note =
      "A PLAUSIBLE WRONG SPELLING — `Created At` is what anybody writing from memory of the GraphQL field `createdAt` reaches for. ⚠ NO_COL IS DELIBERATELY NOT A COMPANION HERE: under this mutation it stays green FOR THE WRONG REASON (the column really is not found), and EMPTY_CELL is the test that tells the two absences apart. Listing NO_COL as must-green would have recorded a pass that means nothing.";
  scope = none;
}

abbrev pub c4 : Control
c4 = record {
  cid = "C4";
  path = dates;
  anchor = codes "\tlinearCSVCompletedColumn = \"Completed\"";
  repl = codes "\tlinearCSVCompletedColumn = \"Completed At\"";
  must_red = completed_lands ∷ refused ∷ bad_completed ∷ mapper_pin ∷ job_dates ∷ job_cycle ∷ [];
  must_green = created_lands ∷ no_col ∷ clean ∷ no_completed_col ∷ [];
  pkg = imp;
  note =
      "The same wrong spelling on the other column. It is a separate control because the two columns have separate consumers: this one empties the resolution report, C3 corrupts the window every analytics query filters on.";
  scope = none;
}

abbrev pub c5 : Control
c5 = record {
  cid = "C5";
  path = dates;
  anchor =
      codes
        "\tif status != model.StatusDone {\n\t\treturn nil, []FieldNote{{Field: fieldCompletionTime, Value: raw, Mapped: string(status), Via: viaStatusNotDone}}\n\t}\n";
  repl = codes "";
  must_red = refused ∷ [];
  must_green = completed_lands ∷ created_lands ∷ clean ∷ job_dates ∷ [];
  pkg = imp;
  note =
      "DROP THE GATE. #74's decision is inherited by this transport rather than re-litigated, and this is the mutation that makes it a decision rather than a copied line: analytics' resolution query has NO status predicate, so a CANCELLED Linear issue carrying a Completed date is counted as delivered work. mapLinearStatus reads 'Cancelled' natively, so the row this control creates is an ordinary export line.";
  scope = none;
}

abbrev pub c6 : Control
c6 = record {
  cid = "C6";
  path = dates;
  anchor =
      codes
        "\t\treturn time.Time{}, []FieldNote{{Field: fieldCreated, Value: raw, Via: viaUnparseableDate}}\n";
  repl = codes "\t\treturn time.Time{}, nil // CONTROL\n";
  must_red = bad_created ∷ [];
  must_green = created_lands ∷ no_col ∷ empty_cell ∷ clean ∷ [];
  pkg = imp;
  note =
      "⚠ THE CONTROL THAT EARNS THE HONESTY OF A LIST NOBODY COULD MEASURE. It keeps the column READ and kills only the REPORT of a value no pinned layout accepts. linearCSVTimeLayouts is the weakest-provenance list in this package — no credential here can produce a Linear export — and the refusal being REPORTED is the entire reason shipping it is honest rather than a guess. Silently defaulted, a tenant whose serialisation differs gets a column of import-instant timestamps that reads as a working import.";
  scope = none;
}

abbrev pub c7 : Control
c7 = record {
  cid = "C7";
  path = csv;
  anchor = codes "concatNotes(createdNotes, completedNotes)...";
  repl = codes "concatNotes(createdNotes, completedNotes[:0])...";
  must_red = refused ∷ bad_completed ∷ [];
  must_green = completed_lands ∷ created_lands ∷ no_col ∷ clean ∷ [];
  pkg = imp;
  note =
      "CUT THE REPORT CHANNEL AT THE WIRING rather than at the mapper. #88's C7 found its hole here: a fix that lands the VALUE while silently swallowing the REFUSAL passes every value assertion. The must-green list is what says the values still land.\n     ⚠ THE FIRST DRAFT SCORED NOT CAUGHT AND IT WAS THE CONTROL'S FAULT, NOT THE CODE'S — dropping the argument left `completedNotes` declared and not used, a BUILD FAILURE, which the runner correctly refuses to score as a catch (#88's C9, recurring in my own harness). Emptying the slice keeps the variable used and cuts exactly the channel.";
  scope = none;
}

abbrev pub c8 : Control
c8 = record {
  cid = "C8";
  path = dates;
  anchor =
      codes
        "\t\"2006-01-02\", // the shape this package's fixtures have always carried, and what Linear's docs call a \"created date\"\n";
  repl = codes "";
  must_red = created_lands ∷ completed_lands ∷ clean ∷ mapper_pin ∷ job_dates ∷ job_cycle ∷ [];
  must_green = no_col ∷ no_completed_col ∷ [];
  pkg = imp;
  note =
      "⚠ THE CONTROL THAT EARNS A TEST THAT COULD NOT HAVE BEEN RED. Remove the only layout that accepts the documented shape and every clean row starts reporting a warning — so TestLinearCSV_AFullyReadableRowAddsNoWarning, green on the first run and therefore suspect, is a live guard rather than a vacuous one. It is also the mutation a real Linear export would cause if its serialisation differs, which is exactly the residual risk this merge ships with.";
  scope = none;
}

abbrev pub c9 : Control
c9 = record {
  cid = "C9";
  path = dates;
  anchor = codes "\tif strings.TrimSpace(raw) == \"\" {\n\t\treturn nil, nil\n\t}\n";
  repl =
      codes
        "\tif strings.TrimSpace(raw) == \"\" {\n\t\treturn nil, []FieldNote{{Field: fieldCompletionTime, Via: viaUnparseableDate}} // CONTROL\n\t}\n";
  must_red = no_completed_col ∷ [];
  must_green = clean ∷ completed_lands ∷ created_lands ∷ job_dates ∷ [];
  pkg = imp;
  note =
      "⚠ THE CONTROL THAT EARNS THE SECOND FIRST-RUN-GREEN TEST, AND THE ASYMMETRY IT PINS. Report an absent Completed as a loss and the warnings channel fills with lines an operator cannot act on — in the one channel the Created line has to be read in. An unread Created is a WRONG value that looks right; an absent Completed is an honest NULL. Only this control separates 'reports the losses' from 'reports everything'.";
  scope = none;
}

abbrev pub c10 : Control
c10 = record {
  cid = "C10";
  path = csv;
  anchor = codes "\tcase n.Via == viaNoLinearCreatedColumn:\n";
  repl = codes "\tcase n.Via == viaNoLinearCreatedColumn && false:\n";
  must_red = no_col ∷ job_warn ∷ [];
  must_green = empty_cell ∷ created_lands ∷ clean ∷ completed_lands ∷ [];
  pkg = imp;
  note =
      "BLIND THE RENDERED SENTENCE while leaving the note itself in the tally. The structural-zero line is the only thing that distinguishes 'Track read your Created column' from 'Track recorded every one of these as opened today', and JOB_WARN is the assertion that it reaches import_jobs.warnings — the channel an operator actually reads — rather than only the in-process ImportResult.";
  scope = none;
}

abbrev pub c11 : Control
c11 = record {
  cid = "C11";
  path = jira_created;
  anchor = codes "const jiraCSVCreatedColumn = \"Created\"";
  repl = codes "const jiraCSVCreatedColumn = \"Created At\"";
  must_red = jira_created_wired ∷ [];
  must_green = created_lands ∷ no_col ∷ empty_cell ∷ job_dates ∷ job_warn ∷ [];
  pkg = imp;
  note =
      "⚠ THE CONTROL THAT EARNS A SEPARATE CONSTANT FOR A COLUMN SPELLED THE SAME ON BOTH PROVIDERS. `Created` is `Created` on a Jira export and a Linear one, so reusing jiraCSVCreatedColumn would have compiled, passed, and read fine — and tied two facts about two different products together forever. This breaks the JIRA constant and the whole LINEAR set must stay green. If any Linear target reds here, the two transports are coupled.";
  scope = none;
}

abbrev pub c12 : Control
c12 = record {
  cid = "C12";
  path = csv;
  anchor =
      codes
        "\t\t\tLabels:      splitLabelColumns(ci.getAll(row, \"Labels\")),\n\t\t\tCompletedAt: completed,\n\t\t\tCreatedAt:   created,\n";
  repl =
      codes
        "\t\t\tLabels:      splitLabelColumns(ci.getAll(row, \"Labels\")),\n\t\t\tCompletedAt: completed,\n\t\t\tCreatedAt:   created,\n\t\t\tDueDate:     completed, // CONTROL\n";
  must_red = mapper_pin ∷ [];
  must_green = created_lands ∷ completed_lands ∷ no_col ∷ clean ∷ job_dates ∷ [];
  pkg = imp;
  note =
      "⚠ THE CONTROL THAT EARNS THE HALF OF A PREDECESSOR GUARD THIS MERGE KEPT. TestLinearCSVMapper_ReadsTheDocumentedDatesAndInventsNoOthers replaced a test that pinned the WHOLE Linear date gap as unmeasured; the surviving half is that Linear's documented export carries NO due-date column, so a DueDate on this transport is INVENTED. Nothing else in the suite would notice one appearing. The mutation is the wrong-field-in-a-struct-literal slip this item has already paid for four times, and the must-green list says both real dates still land while it happens.\n     ⚠ ITS FIRST ANCHOR MATCHED TWICE — jiraRowMapper's literal carries the same two lines — and the harness REFUSED TO RUN rather than edit the wrong mapper. The anchor now includes the Labels line, which is where the two literals differ.";
  scope = none;
}

abbrev pub controls : List Control
controls = c1 ∷ c2 ∷ c3 ∷ c4 ∷ c5 ∷ c6 ∷ c7 ∷ c8 ∷ c9 ∷ c10 ∷ c11 ∷ c12 ∷ []

unfoldable pub main : Env → Disk → Outcome
unfolding main_with
main env d = main_with env imp controls d
