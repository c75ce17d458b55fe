-- ===== src/Campaign/Uploads.antt =====
-- The table of scripts/w34-upload-authz-order-controls.py: is an upload read before its sender is
-- authorized?
use talyvor_track.Prelude.{String, none, List, [], ◌∷◌, ◌++◌, ◌<>◌, codes}
use talyvor_track.Harness.Disk.{Disk}
use talyvor_track.Campaign.Suite.{Env}
use talyvor_track.Campaign.Runner.{Control, Outcome, main_with}

abbrev pub imp : String
imp = "./internal/importer/"

abbrev pub handler : String
handler = "internal/importer/handler.go"

abbrev pub test : String
test = "internal/importer/upload_authz_order_test.go"

abbrev pub order : String
order = "TestImporter_NonMemberUploadIsNotRead"

abbrev pub member_ab : String
member_ab = "TestImporter_MemberOfA_CannotImportIntoB"

abbrev pub no_membership : String
no_membership = "TestImporter_NoMembership_403"

abbrev pub other_team : String
other_team = "TestImporter_TeamFromOtherWorkspace_RejectedByStore"

abbrev pub authz_suite : List String
authz_suite = member_ab ∷ no_membership ∷ other_team ∷ []

abbrev pub params : String
params =
    "\tworkspaceID := r.URL.Query().Get(\"workspace_id\")\n\tteamID := r.URL.Query().Get(\"team_id\")\n\tif workspaceID == \"\" || teamID == \"\" {\n\t\twriteErr(w, http.StatusBadRequest, \"BAD_PARAMS\", \"workspace_id and team_id are required (query string)\")\n\t\treturn\n\t}\n"

abbrev pub authz : String
authz =
    "\tm, ok := authz.AuthorizeWorkspace(r.Context(), workspaceID)\n\tif !ok {\n\t\twriteErr(w, http.StatusForbidden, \"FORBIDDEN\", \"not a member of this workspace\")\n\t\treturn\n\t}\n"

abbrev pub parse : String
parse =
    "\tif err := r.ParseMultipartForm(maxUploadBytes); err != nil {\n\t\twriteErr(w, http.StatusBadRequest, \"BAD_UPLOAD\", err.Error())\n\t\treturn\n\t}\n"

abbrev pub comment : String
comment =
    "\t// This is a flat /v1/import/* route (no path {wsID}), so T10 resolved the caller's\n\t// memberships but authorized no single workspace. Authorize the caller-supplied\n\t// workspace_id against those memberships — not a member → 403. The workspace then comes\n\t// from the membership row (server-resolved), never trusted from the query alone.\n"

abbrev pub c1 : Control
c1 = record {
  cid = "C1";
  path = handler;
  anchor = codes (((params <> comment) <> authz) <> parse);
  repl = codes (((parse <> params) <> comment) <> authz);
  must_red = order ∷ [];
  must_green = authz_suite;
  pkg = imp;
  note =
      "THE DEFECT ITSELF — the exact pre-merge order, restored as one contiguous move so the harness cannot apply half of it. PREDICTED CATCHER, stated before the run: ORDER reds at the `cb.n != 0` assertion (\"server read N bytes … of a NON-MEMBER's upload\"), NOT at the 403 check and NOT at either member-half assertion — the status code is 403 with or without this mutation, which is precisely why the pre-existing authz suite must stay green. Read the red@file:line below against that claim.";
  scope = none;
}

abbrev pub c2 : Control
c2 = record {
  cid = "C2";
  path = handler;
  anchor = codes (((params <> comment) <> authz) <> parse);
  repl = codes (((params <> parse) <> comment) <> authz);
  must_red = order ∷ [];
  must_green = authz_suite;
  pkg = imp;
  note =
      "THE HALF-FIX: hoist the cheap query-parameter check above the parse but leave the MEMBERSHIP check below it. This is the shape a reviewer would accept as 'the ordering is fixed' — and it is not: a non-member still supplies workspace_id and team_id, so the parse still runs and the whole body is still read before the 403. It earns the claim that AuthorizeWorkspace specifically, not merely 'something cheap', had to move.";
  scope = none;
}

abbrev pub c3 : Control
c3 = record {
  cid = "C3";
  path = test;
  anchor = codes "\tfor written := 0; written < uploadPayload; written += len(filler) {\n";
  repl = codes "\tfor written := 0; written < 0; written += len(filler) { // CONTROL\n";
  must_red = order ∷ [];
  must_green = authz_suite;
  pkg = imp;
  note =
      "⚠ THE CONTROL THAT EARNS THE MEMBER HALF OF THE GUARD. Empty the filler so the upload is a bare one-row CSV. The non-member assertion (`cb.n != 0`) then PASSES — vacuously, because there was nothing to read — and the only thing that can notice is the member half. PREDICTED CATCHER: ORDER reds at `okCB.n < uploadPayload` (\"the fixture is not producing the payload, so the non-member's zero above proves nothing\"), not at the non-member assertion. This is the difference between a guard that measures refusal and a guard that measures an empty pipe.";
  scope = none;
}

abbrev pub c4 : Control
c4 = record {
  cid = "C4";
  path = handler;
  anchor = codes parse;
  repl = codes "";
  must_red = [];
  must_green = (order ∷ []) ++ authz_suite;
  pkg = imp;
  note =
      "⚠ SHIPPED AS A DOCUMENTED-INERT CONTROL: it is EXPECTED to catch nothing, and the verdict to read is STAYED GREEN. Delete the explicit ParseMultipartForm call and r.FormFile parses implicitly with net/http's 32 MiB defaultMaxMemory — the ordering property this merge fixes still holds (the implicit parse is still below the authz check), so ORDER is correctly green, but maxUploadBytes becomes dead and the in-memory buffer silently halves with NOTHING in this repo noticing. That is a real limit of this suite recorded as a run rather than as a sentence: no test in talyvor-track pins how much of an upload is held in heap. A green sweep here is the evidence for that claim, not a failure of it.";
  scope = none;
}

abbrev pub controls : List Control
controls = c1 ∷ c2 ∷ c3 ∷ c4 ∷ []

unfoldable pub main : Env → Disk → Outcome
unfolding main_with
main env d = main_with env imp controls d
