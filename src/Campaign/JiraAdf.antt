-- ===== src/Campaign/JiraAdf.antt =====
-- The table of scripts/w34-jira-api-adf-controls.py: what of a Jira description reaches an issue.
use talyvor_track.Prelude.{String, none, List, [], ◌∷◌, codes}
use talyvor_track.Harness.Disk.{Disk}
use talyvor_track.Campaign.Suite.{Env}
use talyvor_track.Campaign.Runner.{Control, Outcome, main_with}

abbrev pub imp : String
imp = "./internal/importer/"

abbrev pub url_text : String
url_text = "TestJiraAPI_AnInlineCardsURLReachesTheDescription"

abbrev pub only_link : String
only_link = "TestJiraAPI_ADescriptionThatIsOnlyALinkIsNotEmpty"

abbrev pub mention : String
mention = "TestJiraAPI_AMentionAndAnEmojiKeepTheirText"

abbrev pub attachment : String
attachment = "TestJiraAPI_AnAttachmentInTheDescriptionIsReported"

abbrev pub three : String
three = "TestJiraAPI_ThreeAttachmentsOnOneIssueAreOneNote"

abbrev pub two_types : String
two_types = "TestJiraAPI_TwoDifferentDroppedTypesAreTwoNotes"

abbrev pub structural : String
structural = "TestJiraAPI_EmptyStructuralNodesAreNotReportedAsLost"

abbrev pub missing_attr : String
missing_attr = "TestJiraAPI_ANodeWhosePinnedAttributeIsMissingIsReported"

abbrev pub plain : String
plain = "TestJiraAPI_APlainStringDescriptionStillImports"

abbrev pub warning : String
warning = "TestJiraAPI_TheDroppedNodeWarningNamesTheNodeAndTheLoss"

abbrev pub job : String
job = "TestJobRow_JiraAPI_ALinkedURLIsInThePostgresSearchIndex"

abbrev pub old_adf : String
old_adf = "TestADFToText"

abbrev pub c1 : Control
c1 = record {
  cid = "C1";
  path = "internal/importer/adf_attrs.go";
  anchor = codes "\t\"inlineCard\": \"url\",\n";
  repl = codes "";
  must_red = url_text ∷ only_link ∷ job ∷ [];
  must_green = plain ∷ attachment ∷ structural ∷ [];
  pkg = imp;
  note =
      "THE DEFECT ITSELF, one node type at a time: with inlineCard unpinned a link contributes nothing, exactly as it did before this merge — 753 of them across 1,828 real descriptions.";
  scope = none;
}

abbrev pub c2 : Control
c2 = record {
  cid = "C2";
  path = "internal/importer/adf_attrs.go";
  anchor = codes "\"inlineCard\": \"url\",";
  repl = codes "\"inlineCard\": \"href\",";
  must_red = url_text ∷ job ∷ [];
  must_green = attachment ∷ structural ∷ [];
  pkg = imp;
  note =
      "A PLAUSIBLE WRONG ATTRIBUTE. `href` is what anybody who has written HTML reaches for and it is not what ADF sends. This is why the tests name the attribute's VALUE rather than merely checking the node type is handled — and it is the one mutation the probe ALSO catches (RENDERED_AS), which matters because the probe is not in CI and this is.";
  scope = none;
}

abbrev pub c3 : Control
c3 = record {
  cid = "C3";
  path = "internal/importer/adf_attrs.go";
  anchor = codes "\"mention\":    \"text\",";
  repl = codes "\"mention\":    \"id\",";
  must_red = mention ∷ [];
  must_green = url_text ∷ attachment ∷ [];
  pkg = imp;
  note =
      "The account id instead of the name. attrs.id is RIGHT THERE and is the wrong string — an operator would read `557058:aafa2e9a-…` in their description. Both halves of the mention assertion exist for this: the name must arrive AND the id must not.";
  scope = none;
}

abbrev pub c4 : Control
c4 = record {
  cid = "C4";
  path = "internal/importer/adf_attrs.go";
  anchor = codes "\t\"media\":       {},\n";
  repl = codes "";
  must_red = attachment ∷ three ∷ job ∷ [];
  must_green = structural ∷ url_text ∷ [];
  pkg = imp;
  note =
      "Unpin the attachment. An attachment has no text equivalent, so the ONLY honest thing this importer can do about it is say so — this removes the saying.";
  scope = none;
}

abbrev pub c5 : Control
c5 = record {
  cid = "C5";
  path = "internal/importer/jira.go";
  anchor = codes "\tif _, ok := adfNoTextEquivalent[n.Type]; ok {\n\t\tdropped.add(n.Type)\n\t}\n";
  repl =
      codes
        "\tif _, placed := adfAttrText[n.Type]; !placed &&\n\t\tn.Text == \"\" && len(n.Content) == 0 && len(n.Attrs) > 0 {\n\t\tdropped.add(n.Type)\n\t}\n";
  must_red = structural ∷ [];
  must_green = attachment ∷ url_text ∷ two_types ∷ [];
  pkg = imp;
  note =
      "⚠ THE CONTROL THAT EARNS A TEST THAT PASSED ON ITS FIRST RUN. It REPLACES the adfNoTextEquivalent table with the general rule adf_attrs.go rejects — 'report any leaf carrying attrs that we did not place' — which needs no table and survives unseen node types, and which fires on empty paragraphs, rules and empty headings carrying attrs.localId: 109 invented warnings over 2,000 real issues. Nothing else in this package can see it.\n     ⚠ THE FIRST DRAFT SCORED SUSPECT AND THAT WAS THE CONTROL'S FAULT, NOT THE CODE'S. It ADDED the general rule alongside the table instead of replacing it, so it also reported every inlineCard the mapper had just PLACED — the URL companion went red and the verdict became ambiguous. A control has to isolate the predicate the target governs, and this one now does: attachments are still reported, links are still placed, and only the invented warnings move.";
  scope = none;
}

abbrev pub c6 : Control
c6 = record {
  cid = "C6";
  path = "internal/importer/adf_attrs.go";
  anchor = codes "\tif d.seen[nodeType] {\n\t\treturn\n\t}\n";
  repl = codes "";
  must_red = three ∷ [];
  must_green = attachment ∷ two_types ∷ [];
  pkg = imp;
  note =
      "Drop the per-description dedup. The pipeline COUNTS notes, so three attachments on ONE issue become a warning that says '3 issue(s)' about one issue — a wrong number in the one channel an operator reads to size the loss.";
  scope = none;
}

abbrev pub c7 : Control
c7 = record {
  cid = "C7";
  path = "internal/importer/adf_attrs.go";
  anchor =
      codes
        "\tfor _, nodeType := range d.order {\n\t\tout = append(out, FieldNote{Field: fieldDescription, Value: nodeType, Via: viaADFNodeDropped})\n\t}\n\treturn out\n";
  repl =
      codes
        "\tfor _, nodeType := range d.order {\n\t\tout = append(out, FieldNote{Field: fieldDescription, Value: nodeType, Via: viaADFNodeDropped})\n\t}\n\treturn nil\n";
  must_red = attachment ∷ three ∷ job ∷ [];
  must_green = url_text ∷ only_link ∷ structural ∷ [];
  pkg = imp;
  note =
      "Kill the REPORT channel while leaving the TEXT mapping intact. This is what separates the two halves of the merge: a fix that places links but silently swallows attachments would pass every assertion about description text.";
  scope = none;
}

abbrev pub c8 : Control
c8 = record {
  cid = "C8";
  path = "internal/importer/csv.go";
  anchor = codes "\tcase n.Via == viaADFNodeDropped:";
  repl = codes "\tcase n.Via == \"adf-node-dropped-unreachable\":";
  must_red = warning ∷ job ∷ [];
  must_green = attachment ∷ url_text ∷ [];
  pkg = imp;
  note =
      "⚠ THIS CONTROL CORRECTED THE MERGE RATHER THAN THE CODE. Making the branch unreachable drops the line into render's DEFAULT, which emits `unrecognised description \"media\" on 1 issue(s) — imported as \"\"`. The job test's first draft asserted only that the words `\"media\"` and `1 issue(s)` appeared, and BOTH are in that sentence — it stayed GREEN on a mutation that removes the only line an operator can act on. It now asserts the sentence. #87's lesson (2), one field over.";
  scope = none;
}

abbrev pub c9 : Control
c9 = record {
  cid = "C9";
  path = "internal/importer/jira.go";
  anchor = codes "append(updatedNotes, descriptionNotes...)";
  repl = codes "append(updatedNotes, descriptionNotes[:0]...)";
  must_red = attachment ∷ three ∷ job ∷ [];
  must_green = url_text ∷ structural ∷ [];
  pkg = imp;
  note =
      "The WIRING. adfToText can be perfect and mapJiraIssues can still drop its notes on the floor — the mapper builds five other note slices in the same expression and one more is easy to lose.\n     ⚠ THE FIRST DRAFT WAS `append(updatedNotes, []FieldNote{}...)`, WHICH LEFT descriptionNotes DECLARED AND NOT USED — a BUILD FAILURE, which the runner correctly refuses to score as CAUGHT. `[:0]` keeps the variable live and drops every note, which is the mutation this control was for.";
  scope = none;
}

abbrev pub c10 : Control
c10 = record {
  cid = "C10";
  path = "internal/importer/jira.go";
  anchor =
      codes
        "\t\tif s := adfAttrString(n.Attrs, attr); s != \"\" {\n\t\t\tb.WriteString(s)\n\t\t} else {\n\t\t\tdropped.add(n.Type)\n\t\t}\n";
  repl =
      codes
        "\t\tif s := adfAttrString(n.Attrs, attr); s != \"\" {\n\t\t\tb.WriteString(s)\n\t\t}\n";
  must_red = missing_attr ∷ [];
  must_green = url_text ∷ attachment ∷ structural ∷ [];
  pkg = imp;
  note =
      "A PINNED NODE TYPE WHOSE ATTRIBUTE IS ABSENT. Without the else arm, a pinned type that stops carrying its attribute — the exact shape C2 mutates into — imports as nothing AND reports nothing, which is the defect this merge fixed, hiding inside the fix.";
  scope = none;
}

abbrev pub c11 : Control
c11 = record {
  cid = "C11";
  path = "internal/importer/adf_attrs.go";
  anchor =
      codes
        "\tvar s string\n\tif json.Unmarshal(raw, &s) != nil {\n\t\treturn \"\"\n\t}\n\treturn s\n";
  repl = codes "\treturn string(raw)\n";
  must_red = url_text ∷ [];
  must_green = attachment ∷ structural ∷ old_adf ∷ [];
  pkg = imp;
  note =
      "⚠ A MUTATION THE FIRST DRAFT OF THE URL TEST COULD NOT SEE. Emitting the raw JSON puts `\"https://…\"` — quotes and all — into the description, and `strings.Contains(desc, url)` is TRUE of the quoted form. The assertion is now the whole rendered sentence, which is what Jira itself produces.";
  scope = none;
}

abbrev pub c12 : Control
c12 = record {
  cid = "C12";
  path = "internal/issue/store.go";
  anchor =
      codes
        "to_tsvector('english', title || ' ' || description)\n              @@ websearch_to_tsquery('english', $2)";
  repl =
      codes "to_tsvector('english', title)\n              @@ websearch_to_tsquery('english', $2)";
  must_red = job ∷ [];
  must_green = url_text ∷ attachment ∷ [];
  pkg = imp;
  note =
      "⚠ THE CONTROL ON THE JOB TEST'S OWN INSTRUMENT. PROJ-CONTROL carries the search term as ORDINARY TEXT precisely so a red on PROJ-LINK alone is the product defect while a red on both is a broken instrument. Blinding Search's description column must trip the INSTRUMENT branch and its message, not the product one — an in-test positive control nobody has watched fire is an in-test positive control nobody knows works.";
  scope = none;
}

abbrev pub controls : List Control
controls = c1 ∷ c2 ∷ c3 ∷ c4 ∷ c5 ∷ c6 ∷ c7 ∷ c8 ∷ c9 ∷ c10 ∷ c11 ∷ c12 ∷ []

unfoldable pub main : Env → Disk → Outcome
unfolding main_with
main env d = main_with env imp controls d
