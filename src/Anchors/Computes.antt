-- ===== src/Anchors/Computes.antt =====
-- What the census executes: only definitions, and assignments whose values merely compute and
-- read no name that was dropped.
use talyvor_track.Prelude.{
  String, ◌≡◌, Bool, true, false, List, [], ◌∷◌, In, contains, keep, not, ◌&&◌, str_eq,
}
use talyvor_track.Ast.{
  Node, call, attribute, name, function_def, class_def, assign, ann_assign, import_names, Nodes,
  nil, cons,
}
use talyvor_track.Ast.Walk.{Within}
use talyvor_track.Anchors.Tables.{Key, blocked}
use talyvor_track.Anchors.Reading.{is_safe_function, Fate, unsafe, fate, update, assigned_names}

-- Every call at any depth of the value is one that merely computes, and no name of the set is read.
pub record IsInert (dropped : List String) (value : Node) : Type 0 where
  pub calls :
      (func : Node) (args keywords : Nodes)
      → Within (call func args keywords) value
      → is_safe_function func ≡ true
  pub reads : (id : String) → Within (name id) value → contains dropped id ≡ false

-- What may be executed once these names are dropped.
pub data IsDefinition (dropped : List String) : Node → Type 0 where
  imports : IsDefinition dropped import_names
  function :
      (a : Bool) (f : String) (params : List String) (arguments : Node) (body rest : Nodes)
      → IsDefinition dropped (function_def a f params arguments body rest)
  class : (c : String) (body : Nodes) → IsDefinition dropped (class_def c body)
  assignment :
      (targets : Nodes) (value : Node)
      → IsInert dropped value
      → IsDefinition dropped (assign targets value)
  declaration : (target annotation : Node) → IsDefinition dropped (ann_assign target annotation nil)
  annotated :
      (target annotation value : Node) (vs : Nodes)
      → IsInert dropped value
      → IsDefinition dropped (ann_assign target annotation (cons value vs))

-- Every name of the one set is in the other.
abbrev Subset : List String → List String → Type 0
Subset xs ys = (k : String) → contains xs k ≡ true → contains ys k ≡ true

-- The names that are dropped after these statements.
turn_names : Fate → List String → Node → List String
turn_names unsafe dropped n = update dropped (assigned_names n)
turn_names _ dropped n = dropped

dropped_by : List String → List Node → List String
dropped_by dropped [] = dropped
dropped_by dropped (n ∷ ns) = dropped_by (turn_names (fate dropped n) dropped n) ns

-- The functions of the sandbox's table that are called by a module's name, without `os.replace` and
-- `shutil.copy`, which pass as the methods `replace` and `copy`.
abbrev pub effects : List Key
effects =
    keep (λ q. not (str_eq q.0 "pathlib.Path") && not (contains ("replace" ∷ "copy" ∷ []) q.1))
      blocked

abbrev pub effect_names : List String
effect_names = "open" ∷ "exec" ∷ "eval" ∷ "__import__" ∷ "print" ∷ "main" ∷ []

-- No call in the value is of one of those functions.
pub record IsHarmless (value : Node) : Type 0 where
  pub no_effect :
      (q : Key) (args keywords : Nodes)
      → In q effects
      → Within (call (attribute (name q.0) q.1) args keywords) value
      → ⊥
  pub no_builtin :
      (f : String) (args keywords : Nodes)
      → In f effect_names
      → Within (call (name f) args keywords) value
      → ⊥

-- A statement that defines, and whose value is harmless where it is an assignment.
pub data IsQuiet : Node → Type 0 where
  imports : IsQuiet import_names
  function :
      (a : Bool) (f : String) (params : List String) (arguments : Node) (body rest : Nodes)
      → IsQuiet (function_def a f params arguments body rest)
  class : (c : String) (body : Nodes) → IsQuiet (class_def c body)
  assignment : (targets : Nodes) (value : Node) → IsHarmless value → IsQuiet (assign targets value)
  declaration : (target annotation : Node) → IsQuiet (ann_assign target annotation nil)
  annotated :
      (target annotation value : Node) (vs : Nodes)
      → IsHarmless value
      → IsQuiet (ann_assign target annotation (cons value vs))
