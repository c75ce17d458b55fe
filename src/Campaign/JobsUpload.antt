-- ===== src/Campaign/JobsUpload.antt =====
-- The table of scripts/w34-jobs-upload-authz-order-controls.py: is a job's upload read before its sender
-- is authorized? Its rows have no scope marker.
use talyvor_track.Prelude.{String, none, List, [], ◌∷◌, ◌++◌, ◌<>◌, codes}
use talyvor_track.Harness.Disk.{Disk}
use talyvor_track.Campaign.Suite.{Env}
use talyvor_track.Campaign.Runner.{Control, Outcome, main_with}

abbrev pub imp : String
imp = "./internal/importer/"

abbrev pub handler : String
handler = "internal/importer/job_handler.go"

abbrev pub test : String
test = "internal/importer/jobs_upload_authz_order_test.go"

abbrev pub fixture : String
fixture = "internal/importer/upload_authz_order_test.go"

abbrev pub order : String
order = "TestJobHandler_NonMemberUploadIsNotRead"

abbrev pub api_tenancy : String
api_tenancy = "TestAPIEnqueue_Tenancy"

abbrev pub cross_team : String
cross_team = "TestJobCreate_CrossWorkspaceTeam_400"

abbrev pub status_tenancy : String
status_tenancy = "TestJobStatus_TenancyScoped"

abbrev pub payload_atomic : String
payload_atomic = "TestJob_PayloadAtomicityAndCascade"

abbrev pub async_suite : List String
async_suite = api_tenancy ∷ cross_team ∷ status_tenancy ∷ payload_atomic ∷ []

abbrev pub params : String
params =
    "\tworkspaceID := r.URL.Query().Get(\"workspace_id\")\n\tteamID := r.URL.Query().Get(\"team_id\")\n\tsourceType := r.URL.Query().Get(\"source_type\")\n\tif workspaceID == \"\" || teamID == \"\" || sourceType == \"\" {\n\t\twriteErr(w, http.StatusBadRequest, \"BAD_PARAMS\", \"workspace_id, team_id, source_type are required (query string)\")\n\t\treturn\n\t}\n\tif !validSourceTypes[sourceType] {\n\t\twriteErr(w, http.StatusBadRequest, \"BAD_SOURCE_TYPE\", \"source_type must be linear_csv or jira_csv\")\n\t\treturn\n\t}\n"

abbrev pub comment : String
comment =
    "\t// SAME tenancy gate as the sync path: authorize the caller-supplied workspace against memberships; the\n\t// workspace persisted below is the server-resolved membership row (m.WorkspaceID), never the query alone.\n"

abbrev pub authz : String
authz =
    "\tm, ok := authz.AuthorizeWorkspace(r.Context(), workspaceID)\n\tif !ok {\n\t\twriteErr(w, http.StatusForbidden, \"FORBIDDEN\", \"not a member of this workspace\")\n\t\treturn\n\t}\n"

abbrev pub parse : String
parse =
    "\tif err := r.ParseMultipartForm(h.maxUpload); err != nil {\n\t\twriteErr(w, http.StatusBadRequest, \"BAD_UPLOAD\", err.Error())\n\t\treturn\n\t}\n"

abbrev pub c1 : Control
c1 = record {
  cid = "C1";
  path = handler;
  anchor = codes (((params <> comment) <> authz) <> parse);
  repl = codes (((parse <> params) <> comment) <> authz);
  must_red = order ∷ [];
  must_green = async_suite;
  pkg = imp;
  note =
      "THE DEFECT ITSELF — the exact pre-merge order of job_handler.create, restored as ONE contiguous move so the harness cannot apply half of it. PREDICTED CATCHER, stated before the run: ORDER reds at the `cb.n != 0` assertion (\"server read N bytes … of a NON-MEMBER's upload\"), NOT at the 403 check and NOT at any member-half assertion — the status code is 403 with or without this mutation, which is exactly why all four pre-existing async tests must stay green. Read the red@file:line below against that claim.";
  scope = none;
}

abbrev pub c2 : Control
c2 = record {
  cid = "C2";
  path = handler;
  anchor = codes (((params <> comment) <> authz) <> parse);
  repl = codes (((params <> parse) <> comment) <> authz);
  must_red = order ∷ [];
  must_green = async_suite;
  pkg = imp;
  note =
      "THE HALF-FIX: hoist the cheap query-parameter and source-type checks above the parse but leave the MEMBERSHIP check below it. This is the shape a reviewer would accept as 'the ordering is fixed', and it is not: a non-member still supplies workspace_id, team_id and a valid source_type, so the parse still runs and the whole body is still read before the 403. It earns the claim that AuthorizeWorkspace specifically, not merely 'something cheap', had to move. PREDICTED CATCHER: ORDER reds at `cb.n != 0`.";
  scope = none;
}

abbrev pub c3 : Control
c3 = record {
  cid = "C3";
  path = fixture;
  anchor = codes "\tfor written := 0; written < uploadPayload; written += len(filler) {\n";
  repl = codes "\tfor written := 0; written < 0; written += len(filler) { // CONTROL\n";
  must_red = order ∷ [];
  must_green = async_suite;
  pkg = imp;
  note =
      "⚠ THE CONTROL THAT EARNS THE MEMBER HALF OF THE GUARD. Empty the filler so the upload is a bare one-row CSV. The non-member assertion (`cb.n != 0`) then PASSES — vacuously, because there was nothing to read — and the only thing that can notice is the member half. PREDICTED CATCHER: ORDER reds at `okCB.n < uploadPayload` (\"the fixture is not producing the payload, so the non-member's zero above proves nothing\"), not at the non-member assertion. ⚠ #90's TestImporter_NonMemberUploadIsNotRead reds here too and is deliberately NOT in the must-green list: importUpload is one shared fixture.";
  scope = none;
}

abbrev pub c4 : Control
c4 = record {
  cid = "C4";
  path = handler;
  anchor =
      codes
        "\tjobID, err := h.jobs.Create(r.Context(), m.WorkspaceID, teamID, sourceType, payload)\n";
  repl =
      codes
        "\tjobID, err := h.jobs.Create(r.Context(), m.WorkspaceID, teamID, sourceType, []byte{}) // CONTROL\n";
  must_red = order ∷ [];
  must_green = async_suite;
  pkg = imp;
  note =
      "⚠ THE CONTROL THAT EARNS THE PAYLOAD-LENGTH ASSERTION. Persist an EMPTY payload: the member half still gets 202, still returns a job_id, still writes exactly one import_jobs row, and the byte counter still sees the whole body — every other assertion in the test passes. Only `octet_length(payload)` can tell that the upload did not survive the handler. It matters because a member half that 202s on a dropped file is a fixture that cannot vouch for the non-member's zero. PREDICTED CATCHER: ORDER reds at the `jobPayloadLen(...) < uploadPayload` assertion. ⚠ NOT REDUNDANT, and that is checked rather than assumed: createReq (jobs_integration_test.go) is used by exactly ONE test and it expects a 400, so before this merge NO test in this repo posted a valid CSV through the async handler and looked at what was stored.";
  scope = none;
}

abbrev pub c5 : Control
c5 = record {
  cid = "C5";
  path = handler;
  anchor = codes parse;
  repl = codes "";
  must_red = [];
  must_green = (order ∷ []) ++ async_suite;
  pkg = imp;
  note =
      "⚠ SHIPPED AS A DOCUMENTED-INERT CONTROL: it is EXPECTED to catch nothing and the verdict to read is STAYED GREEN. Delete the explicit ParseMultipartForm and r.FormFile parses implicitly with net/http's 32 MiB defaultMaxMemory — the ordering property this merge fixes still holds (the implicit parse is still below the authz check), so ORDER is correctly green, but jobMaxUploadBytes' role as the heap/disk spill point silently changes with NOTHING in this repo noticing. #90's C4 recorded exactly this limit for the SYNC handler; this run is what makes the same statement true of the async one rather than inherited from it.";
  scope = none;
}

abbrev pub controls : List Control
controls = c1 ∷ c2 ∷ c3 ∷ c4 ∷ c5 ∷ []

unfoldable pub main : Env → Disk → Outcome
unfolding main_with
main env d = main_with env imp controls d
