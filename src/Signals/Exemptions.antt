-- ===== src/Signals/Exemptions.antt =====
-- The accounted-for lists and the floors of scripts/check-restore-signal-handlers.py.
use talyvor_track.Prelude.{ℕ, String, List, [], ◌∷◌}

-- The module-level constants that `main` reads.
pub record Exemptions : Type 0 where
  pub unprotected : List String
  pub happy_path_only : List String
  -- each with its reason
  pub not_mutators : List (String × String)
  pub narrow_floor : ℕ
  pub wide_floor : ℕ

abbrev unprotected : List String
unprotected =
    "w310-scoring-tenancy-controls-m5x8.py" ∷ "w34-adf-blockcard-controls.py"
    ∷ "w34-aicost-arithmetic-controls-9a7c.py" ∷ "w34-aicost-leaderboard-window-controls.py"
    ∷ "w34-aicost-null-series-controls.py" ∷ "w34-aicost-ordering-controls-b9d7.py"
    ∷ "w34-aicosts-scope-controls-7b2c.py" ∷ "w34-analytics-index-claims-controls.py"
    ∷ "w34-analytics-scope-wiring-controls-2q7v.py" ∷ "w34-analytics-window-controls.py"
    ∷ "w34-api-created-controls.py" ∷ "w34-api-updated-controls.py"
    ∷ "w34-burndown-final-second-controls-9m4x.py" ∷ "w34-burndown-ontrack-controls-3d9e.py"
    ∷ "w34-burndown-ordering-controls-3d9e.py" ∷ "w34-childinsert-exemption-controls-8x2m.py"
    ∷ "w34-column-index-trim-controls-r8x2.py" ∷ "w34-completed-at-controls-7c4d.py"
    ∷ "w34-completed-divergence-controls.py" ∷ "w34-corpus-copies-controls.py"
    ∷ "w34-create-refs-controls-8x2m.py" ∷ "w34-crossteam-identifier-controls.py"
    ∷ "w34-csv-clobbered-columns-controls.py" ∷ "w34-csv-clobbered-columns-same-import-controls.py"
    ∷ "w34-csv-column-reach-controls-2q7v.py" ∷ "w34-date-controls.py"
    ∷ "w34-default-window-controls-5b91.py" ∷ "w34-distribution-counting-controls-8f5c.py"
    ∷ "w34-expectquery-behaviour-census-9a7c.py" ∷ "w34-expectquery-fingerprint-census-8f3d.py"
    ∷ "w34-getall-trim-controls-r8x2.py" ∷ "w34-groupby-gate-controls-5b91.py"
    ∷ "w34-guest-inert-controls-8x2m.py" ∷ "w34-helper-wiring-controls-9m4x.py"
    ∷ "w34-inert-ownergate-census-7k2p.py" ∷ "w34-jira-api-adf-controls.py"
    ∷ "w34-jira-api-resolution-controls.py" ∷ "w34-jira-csv-bom-controls.py"
    ∷ "w34-jira-csv-date-controls.py" ∷ "w34-jira-csv-issue-key-controls.py"
    ∷ "w34-jira-csv-labels-controls.py" ∷ "w34-jira-csv-resolution-controls.py"
    ∷ "w34-jira-csv-status-category-controls.py" ∷ "w34-jira-csv-updated-controls.py"
    ∷ "w34-jobs-upload-authz-order-controls.py" ∷ "w34-linear-csv-dates-controls.py"
    ∷ "w34-linear-csv-due-date-controls.py" ∷ "w34-linear-csv-short-row-controls.py"
    ∷ "w34-linear-csv-tostring-controls.py" ∷ "w34-linear-csv-updated-controls.py"
    ∷ "w34-linear-date-controls.py" ∷ "w34-linear-description-controls-2q7v.py"
    ∷ "w34-linear-null-team-controls.py" ∷ "w34-linear-state-type-controls.py"
    ∷ "w34-member-email-identity-controls-r8x2.py" ∷ "w34-midnight-boundary-controls-8x2m.py"
    ∷ "w34-mount-shrinkage-controls-8x2m.py" ∷ "w34-operate-by-id-exemption-controls-8x2m.py"
    ∷ "w34-ownergate-lock-controls-3w9m.py" ∷ "w34-pagination-termination-controls.py"
    ∷ "w34-payload-lifetime-controls-r8kw.py" ∷ "w34-readme-transit-proof-controls-p3n7.py"
    ∷ "w34-refguard-inert-controls-8x2m.py" ∷ "w34-refguard-semgrep-census-m3r8.py"
    ∷ "w34-refused-rows-controls.py" ∷ "w34-report-ordering-controls-8f3d.py"
    ∷ "w34-resolution-arithmetic-controls-8d3f.py" ∷ "w34-resolution-scope-controls-7b2c.py"
    ∷ "w34-resolvedws-controls-8j5q.py" ∷ "w34-runner-shutdown-terminal-state-controls.py"
    ∷ "w34-suppression-census-controls-8x2m.py" ∷ "w34-template-assignee-controls-8f3b.py"
    ∷ "w34-template-assignee-lock-controls-8f3b.py" ∷ "w34-tenancy-lock-visibility-controls.py"
    ∷ "w34-terminal-write-controls-7a3e.py" ∷ "w34-update-allowlist-controls-7c4d.py"
    ∷ "w34-updated-metric-controls-6b4d.py" ∷ "w34-upload-authz-order-controls.py"
    ∷ "w34-velocity-counting-controls-8f5c.py" ∷ "w34-via-render-population-controls.py"
    ∷ "w34-warning-bound-controls.py" ∷ "w34-window-clamp-wiring-controls-6c1a.py"
    ∷ "w34-wire-contract-controls.py" ∷ "w34-workload-counting-controls-4c8e.py"
    ∷ "w34-workload-tenancy-controls-b9d7.py" ∷ "w35-spend-alert-keys-controls-p3n7.py"
    ∷ "w36-by-identifier-controls-p3n7.py" ∷ "w39-summary-empty-population-controls-m5x8.py"
    ∷ "w632-exempt-route-census-controls.py" ∷ []

abbrev happy_path_only : List String
happy_path_only = []

abbrev not_mutators : List (String × String)
not_mutators =
    (
      "w34-jira-contract-snapshot.py",
      "refreshes internal/importer/testdata/jira_search_contract.json from Atlassian's published v3 spec; the read is a diff-for-reporting, the write is the product",
    )
    ∷ (
      "w34-linear-schema-snapshot.py",
      "refreshes internal/importer/testdata/linear_schema_snapshot.json from the real Linear API; same shape as the Jira one",
    )
    ∷ []

abbrev pub shipped : Exemptions
shipped = record {
  unprotected = unprotected;
  happy_path_only = happy_path_only;
  not_mutators = not_mutators;
  narrow_floor = 92;
  wide_floor = 38;
}
