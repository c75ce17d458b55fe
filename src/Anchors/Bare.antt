-- ===== src/Anchors/Bare.antt =====
-- `bare_census` and `why_unreached`: anchors kept in bare module-level constants.
use talyvor_track.Prelude.{
  ℕ, suc, ◌+◌, ℤ, String, ◌<>◌, Bool, false, not, ◌&&◌, ◌||◌, Option, none, some, List, [], ◌∷◌,
  any, is_empty, length, contains, Text, codes, count, starts_with, if◌then◌else◌, ◌==◌,
}
use talyvor_track.Ast.{Node, call, attribute, walk}
use talyvor_track.Anchors.Shape.{path_shaped, anchor_shaped}
use talyvor_track.Anchors.Harvest.{Value, text}
use talyvor_track.Anchors.Roles.{Roles, anchor, has_role, roles_of}

-- What the operating system and the library answer: the repository's path, the text of a file
-- (nothing where `os.path.isfile` is false), `os.path.relpath(p, REPO)`, and the first twelve
-- digits of a text's SHA-256.
pub record World : Type 0 where
  pub repo : String
  pub file : String → Option Text
  pub relpath : String → String
  pub anchor_sha : String → String

pub data Verdict : Type 0 where
  ok inert ambiguous drifted target_missing scope_marker_missing : Verdict

pub record Finding : Type 0 where
  pub script : String
  pub path : String
  pub want : Option ℤ
  pub old : String
  pub sha : String
  pub count : Option ℕ
  pub verdict : Verdict

-- The module-level names of a script with their values, after the execution.
abbrev pub Namespace : Type 0
Namespace = List (String × Value)

abbrev pub is_dunder : String → Bool
is_dunder k = starts_with k "__"

-- The path-shaped constants, and the anchor-shaped ones with their names.
unfoldable pub path_constants : Namespace → List String
path_constants [] = []
path_constants ((k, text v) ∷ ns) =
    let rest = path_constants ns in if not (is_dunder k) && path_shaped v then v ∷ rest else rest
path_constants (_ ∷ ns) = path_constants ns

unfoldable pub anchor_constants : Namespace → List (String × String)
anchor_constants [] = []
anchor_constants ((k, text v) ∷ ns) =
    let rest = anchor_constants ns in
    if not (is_dunder k) && (not (path_shaped v) && anchor_shaped v) then (k, v) ∷ rest else rest
anchor_constants (_ ∷ ns) = anchor_constants ns

-- What `bare_census` returns: the rows, how many constants were considered, how many had no role.
pub record Bare : Type 0 where
  pub rows : List Finding
  pub considered : ℕ
  pub unclassified : ℕ

abbrev pub no_bare : Bare
no_bare = record { rows = []; considered = 0; unclassified = 0 }

-- `p if os.path.isabs(p) else os.path.join(REPO, p)`
unfoldable pub located : String → String → String
located repo p = if starts_with p "/" then p else (repo <> "/") <> p

-- `sum(tx.count(av) for _, tx in targets)`
unfoldable pub total_count : Text → List (String × Text) → ℕ
unfolding count
total_count t [] = 0
total_count t ((p, tx) ∷ targets) = count t tx + total_count t targets

-- `" | ".join(t for t, _ in targets)`
unfoldable pub joined : List (String × Text) → String
joined [] = ""
joined ((p, tx) ∷ []) = p
joined ((p, tx) ∷ targets) = p <> (" | " <> joined targets)

module _ (w : World) where
  unfoldable pub targets_of : List String → List (String × Text)
  unfolding located
  targets_of [] = []
  targets_of (p ∷ ps) = elim (w.file (located w.repo p)) [
    | none ↦ targets_of ps
    | some tx ↦ (w.relpath (located w.repo p), tx) ∷ targets_of ps
  ]

  module _ (script : String) (targets : List (String × Text)) (roles : Roles) where
    abbrev pub bare_finding : String → Finding
    bare_finding av = record {
      script = script;
      path = joined targets;
      want = none;
      old = av;
      sha = w.anchor_sha av;
      count = some 0;
      verdict = inert;
    }

    -- The loop over the candidates.
    unfoldable pub bare_rows : List (String × String) → Bare
    unfolding total_count joined has_role
    bare_rows [] = no_bare
    bare_rows ((k, av) ∷ cands) =
        let r = bare_rows cands in
        if not (has_role roles k anchor)
        then record r { unclassified = suc r.unclassified }
        else if total_count (codes av) targets == 0
        then record r { considered = suc r.considered; rows = bare_finding av ∷ r.rows }
        else record r { considered = suc r.considered }

  unfoldable pub bare_census : String → Namespace → Node → Bare
  unfolding path_constants anchor_constants targets_of bare_rows roles_of
  bare_census script ns tree =
      let targets = targets_of (path_constants ns) in
      let cands = anchor_constants ns in
      if is_empty targets || is_empty cands
      then no_bare
      else bare_rows script targets (roles_of tree) cands

-- A reason for a script that no detector reached.
pub data Why : Type 0 where
  exec_failed : String → Why
  not_a_mutator : Why
  no_module_level_target : Why
  no_module_level_anchor : Why
  anchors_but_no_role : ℕ → Why

abbrev pub mutating_call : Node → Bool
mutating_call (call (attribute value attr) args keywords) =
    contains ("replace" ∷ "write_text" ∷ "write_bytes" ∷ "write" ∷ []) attr
mutating_call _ = false

-- `sum(1 for k, v in ns.items() if not k.startswith("__") and _anchor_shaped(v))`
unfoldable pub count_anchors : Namespace → ℕ
count_anchors [] = 0
count_anchors ((k, text v) ∷ ns) =
    let rest = count_anchors ns in if not (is_dunder k) && anchor_shaped v then suc rest else rest
count_anchors (_ ∷ ns) = count_anchors ns

unfoldable pub why_unreached : Node → Namespace → Why
unfolding path_constants count_anchors walk
why_unreached tree ns =
    if not (any mutating_call (walk tree))
    then not_a_mutator
    else if length (path_constants ns) == 0
    then no_module_level_target
    else if count_anchors ns == 0
    then no_module_level_anchor
    else anchors_but_no_role (count_anchors ns)
