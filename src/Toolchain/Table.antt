-- ===== src/Toolchain/Table.antt =====
-- The files and the controls of scripts/w634-toolchain-pin-controls.py.
use talyvor_track.Prelude.{String, none, some, List, [], ◌∷◌}
use talyvor_track.Toolchain.Anchors.{Control, literal, job_pin}

abbrev pub gomod : String
gomod = "go.mod"

abbrev pub test : String
test = "internal/migrate/toolchain_pin_test.go"

abbrev pub ci : String
ci = ".github/workflows/ci.yaml"

abbrev pub files : List String
files = gomod ∷ test ∷ ci ∷ []

abbrev pub pin : String
pin = "TestGoModPinsTheToolchainAtOrAboveTheSecurityFloor"

abbrev pub why : String
why = "TestTheToolchainPinCarriesItsReason"

abbrev pub run : String
run = "TestTheRunningToolchainActuallyHonoursThePin"

abbrev pub lck : String
lck = "TestCIGoVersionPinsAreAtLeastTheToolchainFloor"

abbrev pub v1 : Control
v1 = record {
  name = "V1 the toolchain directive deleted";
  path = gomod;
  anchor = literal "\ntoolchain go1.26.9\n" "\n";
  red = some pin;
  green = some why;
  proves = "removing the pin silently restores eight reachable stdlib advisories";
  expect = 1;
}

abbrev pub v2 : Control
v2 = record {
  name = "V2 the pin lowered below the floor";
  path = gomod;
  anchor = literal "toolchain go1.26.9" "toolchain go1.26.5";
  red = some pin;
  green = some why;
  proves = "1.26.5 leaves GO-2026-{6218,6091,6090,6089,6088,5972,5026} reachable";
  expect = 1;
}

abbrev pub v3 : Control
v3 = record {
  name = "V3 the floor lowered below the real pin";
  path = test;
  anchor =
      literal "const wantMajor, wantMinor, wantPatch = 1, 26, 6"
        "const wantMajor, wantMinor, wantPatch = 1, 25, 0";
  red = none;
  green = some pin;
  proves = "a pin ABOVE the floor must PASS — it is a floor, not an equality check";
  expect = 1;
}

abbrev pub v4 : Control
v4 = record {
  name = "V4 the rationale stripped";
  path = gomod;
  anchor =
      literal
        "GO-2026-6218, GO-2026-6091, GO-2026-6090, GO-2026-6089,\n// GO-2026-6088, GO-2026-5972 and GO-2026-5026;"
        "(rationale removed);";
  red = some why;
  green = some pin;
  proves = "a security floor with no advisory ids reads as a preference";
  expect = 1;
}

abbrev pub v5 : Control
v5 = record {
  name = "V5 the version regex stops matching";
  path = test;
  anchor =
      literal "regexp.MustCompile(`(?m)^toolchain go(\\d+)\\.(\\d+)\\.(\\d+)$`)"
        "regexp.MustCompile(`(?m)^NEVERMATCH go(\\d+)\\.(\\d+)\\.(\\d+)$`)";
  red = some pin;
  green = none;
  proves = "a parse that finds nothing must fail loudly, not report a pinned repo";
  expect = 1;
}

abbrev pub v7a : Control
v7a = record {
  name = "V7a the lint job's pin dropped below the floor";
  path = ci;
  anchor = job_pin "lint" "1.25";
  red = some lck;
  green = some pin;
  proves =
      "golangci-lint REFUSES TO START when built with a Go older than the module's target — this pin is the one whose failure CI actually produced";
  expect = 1;
}

abbrev pub v7b : Control
v7b = record {
  name = "V7b the vuln job's pin dropped below the floor";
  path = ci;
  anchor = job_pin "vuln" "1.25";
  red = some lck;
  green = some pin;
  proves =
      "govulncheck grades the STDLIB against the toolchain it runs under, so this pin decides what the vulnerability report is even about";
  expect = 1;
}

abbrev pub v7c : Control
v7c = record {
  name = "V7c the test job's pin dropped below the floor";
  path = ci;
  anchor = job_pin "test" "1.25";
  red = some lck;
  green = some pin;
  proves =
      "setup-go exports GOTOOLCHAIN=local, so this pin — not go.mod's directive — is the runtime the suite actually exercises";
  expect = 1;
}

abbrev pub v8 : Control
v8 = record {
  name = "V8 the ci.yaml pin parse finds nothing";
  path = test;
  anchor =
      literal "regexp.MustCompile(`go-version:\\s*\"(\\d+)\\.(\\d+)(\\.\\d+)?\"`)"
        "regexp.MustCompile(`NEVERMATCH:\\s*\"(\\d+)\\.(\\d+)(\\.\\d+)?\"`)";
  red = some lck;
  green = some pin;
  proves = "a parse that finds no pins must fail, not report perfect lockstep";
  expect = 1;
}

abbrev pub v6 : Control
v6 = record {
  name = "V6 the floor comparison inverted";
  path = test;
  anchor = literal "\tolder := major < wantMajor ||" "\tolder := false && major < wantMajor ||";
  red = none;
  green = some pin;
  proves =
      "with the comparison disabled the guard still passes on a CORRECT pin — so V2 is what proves the comparison, and this shows V2 is load-bearing";
  expect = 1;
}

abbrev pub controls : List Control
controls = v1 ∷ v2 ∷ v3 ∷ v4 ∷ v5 ∷ v7a ∷ v7b ∷ v7c ∷ v8 ∷ v6 ∷ []
