-- ===== src/Anchors/Tables.antt =====
-- The module-level constants of scripts/check-control-anchors.py.
use talyvor_track.Prelude.{ℕ, String, List, [], ◌∷◌}

-- The key of an entry: the script, and the first twelve digits of the anchor's SHA-256.
abbrev pub Key : Type 0
Key = String × String

abbrev pub source_suffixes : List String
source_suffixes =
    ".go" ∷ ".ts" ∷ ".tsx" ∷ ".js" ∷ ".jsx" ∷ ".sql" ∷ ".yaml" ∷ ".yml" ∷ ".mod" ∷ ".sum" ∷ ".py"
    ∷ ".sh" ∷ ".json" ∷ ".css" ∷ ".html" ∷ ".md" ∷ []

abbrev pub scripts_floor : ℕ
scripts_floor = 33

abbrev pub anchors_floor : ℕ
anchors_floor = 223

abbrev pub bare_scripts_floor : ℕ
bare_scripts_floor = 9

abbrev pub bare_anchors_floor : ℕ
bare_anchors_floor = 29

-- The column past the path where the anchor stands, and why.
abbrev pub row_schema : List (String × (ℕ × String))
row_schema =
    (
      "w34-inert-ownergate-census-7k2p.py",
      (2, "col 2 is the go-test package path; the anchor is col 3"),
    )
    ∷ (
      "w34-report-ordering-controls-8f3d.py",
      (2, "col 2 is the predicted verdict; the anchor is col 3"),
    )
    ∷ []

-- The marker from which the owning script counts, and why.
abbrev pub scoped : List (Key × (String × String))
scoped =
    (
      ("w34-api-updated-controls.py", "fd16aee09a61"),
      (
        "func (s *Store) UpsertByIdentifier",
        "C3: the script scopes this arm to UpsertByIdentifier",
      ),
    )
    ∷ (
      ("w34-api-updated-controls.py", "e15a47616b3e"),
      (
        "func (s *Store) UpsertByIdentifier",
        "C6: the script scopes this arm to UpsertByIdentifier",
      ),
    )
    ∷ []

abbrev pub not_anchors : List Key
not_anchors = []

abbrev pub known_dead : List (Key × String)
known_dead =
    (
      ("w34-api-updated-controls.py", "a8f4fd1aed4b"),
      "INERT 9746f13ae 2026-08-10: importer: the Jira API transport imported abandoned work as delivered (#87) (count 1 -> 0, 173 commits ago)",
    )
    ∷ (
      ("w34-burndown-ontrack-controls-3d9e.py", "e561e94b166a"),
      "INERT 622bc9948 2026-08-20: analytics+cycle: the burndown day boundary is exclusive, so the final second o (count 1 -> 0, 66 commits ago)",
    )
    ∷ (
      ("w34-burndown-ordering-controls-3d9e.py", "0223285a895f"),
      "INERT 622bc9948 2026-08-20: analytics+cycle: the burndown day boundary is exclusive, so the final second o (count 1 -> 0, 66 commits ago)",
    )
    ∷ (
      ("w34-burndown-ordering-controls-3d9e.py", "415fc5e3b440"),
      "INERT 622bc9948 2026-08-20: analytics+cycle: the burndown day boundary is exclusive, so the final second o (count 1 -> 0, 66 commits ago)",
    )
    ∷ (
      ("w34-burndown-ordering-controls-3d9e.py", "636305778d0c"),
      "INERT 622bc9948 2026-08-20: analytics+cycle: the burndown day boundary is exclusive, so the final second o (count 1 -> 0, 66 commits ago)",
    )
    ∷ (
      ("w34-burndown-ordering-controls-3d9e.py", "87a175df7d7b"),
      "INERT 622bc9948 2026-08-20: analytics+cycle: the burndown day boundary is exclusive, so the final second o (count 1 -> 0, 66 commits ago)",
    )
    ∷ (
      ("w34-jira-api-resolution-controls.py", "3730e8370c79"),
      "INERT 8b1f39f16 2026-08-10: importer: the resolution that means delivered was reported as unreadable (W3.4 (count 1 -> 0, 164 commits ago)",
    )
    ∷ (
      ("w34-jira-csv-created-controls.py", "343b9d8e912a"),
      "INERT b532e563e 2026-08-13: fix(issues): the roadmap's per-milestone counters were structurally zero — no  (count 1 -> 0, 129 commits ago)",
    )
    ∷ (
      ("w34-jira-csv-created-controls.py", "579d7f29e367"),
      "INERT b532e563e 2026-08-13: fix(issues): the roadmap's per-milestone counters were structurally zero — no  (count 2 -> 0, 129 commits ago)",
    )
    ∷ (
      ("w34-jira-csv-created-controls.py", "d10a0a0d6496"),
      "AMBIGUOUS d3aaacace 2026-08-10: importer: the API transports recorded every imported issue as opened today (#8 (count 1 -> 2, 176 commits ago)",
    )
    ∷ (
      ("w34-jira-csv-created-controls.py", "f03f537b7aed"),
      "INERT 666ce7a2a 2026-08-10: importer: a Linear CSV import recorded every issue as opened at import time an (count 1 -> 0, 171 commits ago)",
    )
    ∷ (
      ("w34-jira-csv-created-controls.py", "f8536dce1452"),
      "AMBIGUOUS 666ce7a2a 2026-08-10: importer: a Linear CSV import recorded every issue as opened at import time an (count 1 -> 2, 171 commits ago)",
    )
    ∷ (
      ("w34-jira-csv-resolution-controls.py", "10f648f2cd09"),
      "INERT 9746f13ae 2026-08-10: importer: the Jira API transport imported abandoned work as delivered (#87) (count 1 -> 0, 173 commits ago)",
    )
    ∷ (
      ("w34-jira-csv-resolution-controls.py", "7fa5167790c5"),
      "INERT 8b1f39f16 2026-08-10: importer: the resolution that means delivered was reported as unreadable (W3.4 (count 1 -> 0, 164 commits ago)",
    )
    ∷ (
      ("w34-jira-csv-resolution-controls.py", "aa1498223573"),
      "INERT 8b1f39f16 2026-08-10: importer: the resolution that means delivered was reported as unreadable (W3.4 (count 1 -> 0, 164 commits ago)",
    )
    ∷ (
      ("w34-jira-csv-resolution-controls.py", "efa68e8d71bb"),
      "INERT 9746f13ae 2026-08-10: importer: the Jira API transport imported abandoned work as delivered (#87) (count 1 -> 0, 173 commits ago)",
    )
    ∷ (
      ("w34-jira-csv-updated-controls.py", "9ea4968b975c"),
      "AMBIGUOUS 313ce8094 2026-08-10: importer: the API transports recorded every imported issue as touched at the m (count 1 -> 2, 174 commits ago)",
    )
    ∷ (
      ("w34-jira-csv-updated-controls.py", "ed65f6be282a"),
      "AMBIGUOUS 85b3e1721 2026-08-10: importer: a Linear CSV export says when Linear last touched the issue and the  (count 1 -> 2, 160 commits ago)",
    )
    ∷ (
      ("w34-linear-csv-dates-controls.py", "1bf26b711aac"),
      "INERT d67f98052 2026-08-11: importer: `Due Date` is in 45 of 45 real Linear exports and this was the one t (count 1 -> 0, 151 commits ago)",
    )
    ∷ (
      ("w34-linear-csv-dates-controls.py", "245da2393c29"),
      "INERT 85b3e1721 2026-08-10: importer: a Linear CSV export says when Linear last touched the issue and the  (count 1 -> 0, 160 commits ago)",
    )
    ∷ (
      ("w34-linear-csv-dates-controls.py", "9fb64b447745"),
      "INERT 9e7156eab 2026-08-10: importer: a quarter of real Linear CSV exports lose Created and Updated to a d (count 1 -> 0, 152 commits ago)",
    )
    ∷ (
      ("w39-summary-empty-population-controls-m5x8.py", "1a0376880446"),
      "INERT d677e876a 2026-08-27: the scoring summary counted issues and scores from different populations (count 1 -> 0, 28 commits ago)",
    )
    ∷ (
      ("w39-summary-empty-population-controls-m5x8.py", "34e1eec4a154"),
      "INERT d677e876a 2026-08-27: the scoring summary counted issues and scores from different populations (count 1 -> 0, 28 commits ago)",
    )
    ∷ (
      ("w34-member-email-identity-controls-r8x2.py", "a1f70477041c"),
      "DEAD B18.32 2026-09-27: authz now matches members.email lower-cased and trimmed, so the byte-equality resolver this arm canonicalised is gone and email_identity_measured_test.go (which pinned it) was replaced by email_identity_test.go",
    )
    ∷ (
      ("w34-member-email-identity-controls-r8x2.py", "c6c9334a7c0a"),
      "DEAD B18.32 2026-09-27: internal/member/email_identity_measured_test.go was replaced by email_identity_test.go, which asserts the case-insensitive rule directly",
    )
    ∷ (
      ("w34-aicost-arithmetic-controls-9a7c.py", "b54d36755784"),
      "DEAD B18.33 2026-09-27: GetAICostTrends reads ai_spend_events by charge date (W3.17) instead of issues.ai_cost_usd by updated_at; this arm mutated the old issues query, and aicost_counting_realpg_test.go now pins the same arithmetic over the ledger",
    )
    ∷ (
      ("w34-aicost-arithmetic-controls-9a7c.py", "ec3f2095081b"),
      "DEAD B18.33 2026-09-27: GetAICostTrends reads ai_spend_events by charge date (W3.17) instead of issues.ai_cost_usd by updated_at; this arm mutated the old issues query, and aicost_counting_realpg_test.go now pins the same arithmetic over the ledger",
    )
    ∷ (
      ("w34-aicost-arithmetic-controls-9a7c.py", "15df5136ba81"),
      "DEAD B18.33 2026-09-27: GetAICostTrends reads ai_spend_events by charge date (W3.17) instead of issues.ai_cost_usd by updated_at; this arm mutated the old issues query, and aicost_counting_realpg_test.go now pins the same arithmetic over the ledger",
    )
    ∷ (
      ("w34-aicost-arithmetic-controls-9a7c.py", "1c77e258a458"),
      "DEAD B18.33 2026-09-27: GetAICostTrends reads ai_spend_events by charge date (W3.17) instead of issues.ai_cost_usd by updated_at; this arm mutated the old issues query, and aicost_counting_realpg_test.go now pins the same arithmetic over the ledger",
    )
    ∷ (
      ("w34-aicost-arithmetic-controls-9a7c.py", "3cc09066caab"),
      "DEAD B18.33 2026-09-27: GetAICostTrends reads ai_spend_events by charge date (W3.17) instead of issues.ai_cost_usd by updated_at; this arm mutated the old issues query, and aicost_counting_realpg_test.go now pins the same arithmetic over the ledger",
    )
    ∷ (
      ("w34-aicost-arithmetic-controls-9a7c.py", "a92501dea45a"),
      "DEAD B18.33 2026-09-27: GetAICostTrends reads ai_spend_events by charge date (W3.17) instead of issues.ai_cost_usd by updated_at; this arm mutated the old issues query, and aicost_counting_realpg_test.go now pins the same arithmetic over the ledger",
    )
    ∷ []

abbrev pub blocked : List Key
blocked =
    ("subprocess", "run")
    ∷ ("subprocess", "Popen")
    ∷ ("subprocess", "call")
    ∷ ("subprocess", "check_call")
    ∷ ("subprocess", "check_output")
    ∷ ("subprocess", "getoutput")
    ∷ ("os", "system")
    ∷ ("os", "popen")
    ∷ ("os", "remove")
    ∷ ("os", "unlink")
    ∷ ("os", "rename")
    ∷ ("os", "replace")
    ∷ ("os", "rmdir")
    ∷ ("os", "makedirs")
    ∷ ("shutil", "copy")
    ∷ ("shutil", "copy2")
    ∷ ("shutil", "copyfile")
    ∷ ("shutil", "move")
    ∷ ("shutil", "rmtree")
    ∷ ("pathlib.Path", "write_text")
    ∷ ("pathlib.Path", "write_bytes")
    ∷ ("pathlib.Path", "unlink")
    ∷ ("pathlib.Path", "rename")
    ∷ ("pathlib.Path", "mkdir")
    ∷ []

abbrev pub safe_call_prefixes : List String
safe_call_prefixes =
    "os.path." ∷ "os.environ.get" ∷ "os.getenv" ∷ "os.sep" ∷ "re.compile" ∷ "re.escape"
    ∷ "pathlib.Path" ∷ "Path" ∷ "textwrap.dedent" ∷ "json.loads" ∷ "collections." ∷ []

abbrev pub safe_call_names : List String
safe_call_names =
    "str" ∷ "int" ∷ "float" ∷ "bool" ∷ "bytes" ∷ "list" ∷ "tuple" ∷ "set" ∷ "frozenset" ∷ "dict"
    ∷ "sorted" ∷ "reversed" ∷ "len" ∷ "range" ∷ "enumerate" ∷ "zip" ∷ "map" ∷ "filter" ∷ "sum"
    ∷ "min" ∷ "max" ∷ "abs" ∷ "round" ∷ "repr" ∷ "chr" ∷ "ord" ∷ "any" ∷ "all" ∷ "type" ∷ []

abbrev pub safe_methods : List String
safe_methods =
    "join" ∷ "split" ∷ "rsplit" ∷ "splitlines" ∷ "strip" ∷ "lstrip" ∷ "rstrip" ∷ "replace"
    ∷ "format" ∷ "lower" ∷ "upper" ∷ "title" ∷ "encode" ∷ "decode" ∷ "startswith" ∷ "endswith"
    ∷ "count" ∷ "index" ∷ "find" ∷ "get" ∷ "keys" ∷ "values" ∷ "items" ∷ "copy" ∷ "dedent"
    ∷ "read_text" ∷ "read_bytes" ∷ "hexdigest" ∷ "group" ∷ "groups" ∷ "findall" ∷ "sub" ∷ "match"
    ∷ "search" ∷ "expanduser" ∷ "resolve" ∷ "as_posix" ∷ "removeprefix" ∷ "removesuffix" ∷ []

abbrev pub anchor_methods : List String
anchor_methods = "count" ∷ "index" ∷ "find" ∷ "rfind" ∷ "startswith" ∷ "endswith" ∷ "split" ∷ []
