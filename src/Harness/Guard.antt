-- ===== src/Harness/Guard.antt =====
-- scripts/w641-guard-controls-r7k2.py: nine controls for the guard of the signal handlers. Each writes a
-- probe script, or edits the guard, and names the rule that must speak.
use talyvor_track.Prelude.{
  ℕ, String, Bool, true, false, not, ◌&&◌, ◌||◌, Option, none, some, List, [], ◌∷◌, ◌++◌, ◌<>◌, any,
  Text, codes, count, replace_first, is_prefix, is_space, if◌then◌else◌, ◌==◌, leb,
}
use talyvor_track.Harness.Disk.{Disk, unlink, Snapshot, restore}
use talyvor_track.Harness.Process.{Process, proceed, write, start}

abbrev pub guard : String
guard = "scripts/check-restore-signal-handlers.py"

abbrev pub probe : String
probe = "scripts/w641-probe-generated.py"

-- One run of the guard: did it exit with 0 (nothing if running it raised), its standard output and then
-- its standard error, and the disk that it left.
pub record Checked : Type 0 where
  pub green : Option Bool
  pub out : Text
  pub disk : Disk

-- What a control does: write the probe script, or edit the guard.
pub data Payload : Type 0 where
  probe_script : String → Payload
  guard_edit : String → String → Payload

pub record Control : Type 0 where
  pub name : String
  pub payload : Payload
  pub rule : Option String
  pub predict_red : Bool

abbrev pub indirect : String
indirect =
    "import pathlib\np = pathlib.Path(\"x\")\noriginal = \"\"\ndef restore():\n    p.write_text(original)\ntry:\n    original = p.read_text()\n    p.write_text(\"mutated\")\nfinally:\n    restore()\n"

abbrev pub context_manager : String
context_manager =
    "import pathlib\nclass Keeper:\n    def __enter__(self):\n        self.p = pathlib.Path(\"x\")\n        self.orig = self.p.read_text()\n        return self\n    def __exit__(self, *exc):\n        self.p.write_text(self.orig)\nwith Keeper() as k:\n    k.p.write_text(\"mutated\")\n"

abbrev pub git_finally : String
git_finally =
    "import pathlib, subprocess\np = pathlib.Path(\"x\")\ntry:\n    original = p.read_text()\n    p.write_text(\"mutated\")\nfinally:\n    subprocess.run([\"git\", \"checkout\", \"--\", \"x\"])\n"

abbrev pub commented_handler : String
commented_handler =
    "import pathlib\n# Protected: this script calls signal.signal(signal.SIGTERM, handler) at startup, and\n# signal.signal(signal.SIGINT, handler) too, so a signal cannot strand the tree.\np = pathlib.Path(\"x\")\ntry:\n    original = p.read_text()\n    p.write_text(\"mutated\")\nfinally:\n    p.write_text(original)\n"

abbrev pub good : String
good =
    "import pathlib, signal\nsignal.signal(signal.SIGTERM, lambda *a: None)\np = pathlib.Path(\"x\")\ntry:\n    original = p.read_text()\n    p.write_text(\"mutated\")\nfinally:\n    p.write_text(original)\n"

abbrev pub controls : List Control
controls =
    (record {
      name = "G1 WIDENING: an INDIRECT restore (`finally: restore()`)";
      payload = probe_script indirect;
      rule = some "R1";
      predict_red = true;
    })
    ∷ (record {
      name = "G2 WIDENING: a CONTEXT MANAGER restore";
      payload = probe_script context_manager;
      rule = some "R1";
      predict_red = true;
    })
    ∷ (record {
      name = "G3 WIDENING: a `finally` that shells out to `git checkout`";
      payload = probe_script git_finally;
      rule = some "R1";
      predict_red = true;
    })
    ∷ (record {
      name = "G4 VACUITY: the narrow detector blinded";
      payload =
          guard_edit
            "def _restores_in_finally(tree: ast.AST) -> bool:\n    if _restores_via_context_manager(tree):"
            "def _restores_in_finally(tree: ast.AST) -> bool:\n    return False\n    if _restores_via_context_manager(tree):";
      rule = some "R3";
      predict_red = true;
    })
    ∷ (record {
      name = "G5 VACUITY: the wide detector blinded";
      payload =
          guard_edit "    return reads and any(_write_call(n) for n in ast.walk(tree))"
            "    return False";
      rule = some "R3b";
      predict_red = true;
    })
    ∷ (record {
      name = "G6 a fixed script left listed in UNPROTECTED";
      payload =
          guard_edit "UNPROTECTED = {\n"
            "UNPROTECTED = {\n    \"w34-jira-contract-controls.py\",\n";
      rule = some "R2";
      predict_red = true;
    })
    ∷ (record {
      name = "G7 NOT_MUTATORS entry with no reason";
      payload =
          guard_edit "    \"w34-jira-contract-snapshot.py\":\n"
            "    \"w34-jira-contract-snapshot.py\": \"\",\n    \"_unused\":\n";
      rule = some "R7";
      predict_red = true;
    })
    ∷ (record {
      name = "G8 INVERTED: signal.signal in a COMMENT is not a handler";
      payload = probe_script commented_handler;
      rule = some "R1";
      predict_red = true;
    })
    ∷ (record {
      name = "G9 INVERTED: a correctly converted script must NOT red";
      payload = probe_script good;
      rule = none;
      predict_red = false;
    })
    ∷ []

pub data Verdict : Type 0 where
  ok control_defect blind wrong_rule : Verdict

abbrev pub is_ok : Verdict → Bool
is_ok ok = true
is_ok _ = false

-- The characters at which `splitlines` ends a line.
abbrev pub ends_line : ℕ → Bool
ends_line c = (leb 10 c && leb c 13) || (leb 28 c && leb c 30) || c == 133 || c == 8232 || c == 8233

abbrev pub add_front : ℕ → List Text → List Text
add_front c [] = (c ∷ []) ∷ []
add_front c (l ∷ ls) = (c ∷ l) ∷ ls

-- `out.splitlines()`, with one more empty line inside each "\r\n", which no rule begins.
unfoldable pub lines : Text → List Text
lines [] = []
lines (c ∷ s) = let rest = lines s in if ends_line c then [] ∷ rest else add_front c rest

-- `l.strip()`, as far as the beginning of the line.
unfoldable pub strip_front : Text → Text
strip_front [] = []
strip_front (c ∷ s) = let rest = strip_front s in if is_space c then rest else c ∷ s

-- Does a line of the output begin with the rule?
unfoldable pub is_named : Option String → Text → Bool
unfolding lines strip_front
is_named none out = true
is_named (some rule) out = any (λ l. is_prefix (codes (rule <> ":")) (strip_front l)) (lines out)

unfoldable pub verdict_of : Bool → Bool → Bool → Verdict
verdict_of red predict_red named =
    if ((red && predict_red) || (not red && not predict_red)) && (not red || named)
    then ok
    else if not red
    then blind
    else wrong_rule

-- A part of the harness: did it raise, the verdicts by name so far, and the process.
pub record Progress : Type 0 where
  pub raised : Bool
  pub results : List (String × Verdict)
  pub process : Process

abbrev pub add_result : String → Verdict → Progress → Progress
add_result name v p = record p { results = p.results ++ ((name, v) ∷ []) }

-- The exit status, or nothing where an exception ends the script; what was scored; the process.
pub record Outcome : Type 0 where
  pub status : Option ℕ
  pub results : List (String × Verdict)
  pub process : Process

-- `PROBE.unlink(missing_ok=True)`
unfoldable pub remove_probe : Process → Process
unfolding unlink
remove_probe s = proceed (unlink probe s.now.disk) s

-- `restore_on_signal(snapshot)`: from here on a signal writes the guard back and removes the probe.
unfoldable pub handle_signals : Snapshot → Process → Process
unfolding restore unlink
handle_signals snapshot s = record {
  now = record { disk = s.now.disk; on_signal = λ d. unlink probe (restore snapshot d) };
  past = s.now ∷ s.past;
}

-- The file that a control writes, or nothing where its needle does not stand in the guard once.
unfoldable pub edit_of : Text → Payload → Option (String × Text)
unfolding count replace_first
edit_of original (probe_script text) = some (probe, codes text)
edit_of original (guard_edit find repl) =
    if count (codes find) original == 1
    then some (guard, replace_first (codes find) (codes repl) original)
    else none

-- The inner `finally`.
unfoldable pub put_back : Text → Process → Process
unfolding write remove_probe
put_back original s = write guard original (remove_probe s)

-- The verdict, and the inner `finally`.
unfoldable pub judge_control : Control → Text → Option Bool → Text → Progress → Progress
unfolding put_back verdict_of is_named
judge_control c original none out p = record p {
  raised = true;
  process = put_back original p.process;
}
judge_control c original (some passed) out p =
    add_result c.name (verdict_of (not passed) c.predict_red (is_named c.rule out))
      (record p { process = put_back original p.process })

pub record Env : Type 0 where
  pub check : Disk → Checked

module _ (env : Env) where
  unfoldable pub run_edit : Control → Text → Option (String × Text) → Progress → Progress
  unfolding judge_control write put_back
  run_edit c original none p =
      add_result c.name control_defect (record p { process = put_back original p.process })
  run_edit c original (some (path, text)) p =
      let mutated = write path text p.process in
      let checked = env.check mutated.now.disk in
      judge_control c original checked.green checked.out
        (record p { process = proceed checked.disk mutated })

  -- The loop over the controls. An exception ends it.
  unfoldable pub run_controls : Text → List Control → Progress → Progress
  unfolding run_edit edit_of
  run_controls original [] p = p
  run_controls original (c ∷ cs) p =
      if p.raised
      then p
      else run_controls original cs (run_edit c original (edit_of original c.payload) p)

  unfoldable pub conclude : List (String × Verdict) → Option Bool → Process → Outcome
  conclude results none s = record { status = none; results = results; process = s }
  conclude results (some green) s = record {
    status = some (if any (λ r. not (is_ok r.1)) results || not green then 1 else 0);
    results = results;
    process = s;
  }

  -- The outer `finally`, and what follows it unless an exception goes on.
  unfoldable pub finish : Text → Progress → Outcome
  unfolding write remove_probe conclude
  finish original p =
      let back = remove_probe (write guard original p.process) in
      let checked = env.check back.now.disk in
      if p.raised
      then record { status = none; results = p.results; process = back }
      else conclude p.results checked.green (proceed checked.disk back)

  unfoldable pub from_baseline : Text → List Control → Option Bool → Process → Outcome
  unfolding run_controls finish
  from_baseline original cs none s = record { status = none; results = []; process = s }
  from_baseline original cs (some false) s = record { status = some 2; results = []; process = s }
  from_baseline original cs (some true) s =
      finish original
        (run_controls original cs (record { raised = false; results = []; process = s }))

  unfoldable pub begin : List Control → Option Text → Disk → Outcome
  unfolding handle_signals remove_probe from_baseline
  begin cs none d = record { status = none; results = []; process = start d }
  begin cs (some original) d =
      let ready = remove_probe (handle_signals ((guard, original) ∷ []) (start d)) in
      let checked = env.check ready.now.disk in
      from_baseline original cs checked.green (proceed checked.disk ready)

  unfoldable pub main_with : List Control → Disk → Outcome
  unfolding begin
  main_with cs d = begin cs (d guard) d

  unfoldable pub main : Disk → Outcome
  unfolding main_with
  main d = main_with controls d
