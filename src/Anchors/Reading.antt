-- ===== src/Anchors/Reading.antt =====
-- `module_level_only`: which statements of a control script the census executes.
use talyvor_track.Prelude.{
  String, ◌<>◌, Bool, true, false, not, Option, none, some, List, [], ◌∷◌, any, contains, insert,
  starts_with, if◌then◌else◌,
}
use talyvor_track.Ast.{
  Node, call, attribute, name, function_def, class_def, assign, ann_assign, import_names, nil, cons,
  to_list, walk, children,
}
use talyvor_track.Anchors.Tables.{safe_call_prefixes, safe_call_names, safe_methods}

-- The loop of `_dotted`: `parts` joined so far, innermost name first.
unfoldable pub dotted_from : Node → Option String → Option String
dotted_from (attribute value attr) none = dotted_from value (some attr)
dotted_from (attribute value attr) (some parts) = dotted_from value (some (attr <> ("." <> parts)))
dotted_from (name id) none = some id
dotted_from (name id) (some parts) = some (id <> ("." <> parts))
dotted_from _ parts = parts

-- `os.path.join` gives "os.path.join"; a chain on anything but a name gives the attributes alone.
unfoldable pub dotted : Node → Option String
unfolding dotted_from
dotted n = dotted_from n none

unfoldable pub add_names : List Node → List String → List String
unfolding insert
add_names [] out = out
add_names (name id ∷ ns) out = add_names ns (insert id out)
add_names (_ ∷ ns) out = add_names ns out

-- Every bare name that an assignment binds, including tuple targets.
unfoldable pub add_targets : List Node → List String → List String
unfolding add_names walk
add_targets [] out = out
add_targets (t ∷ ts) out = add_targets ts (add_names (walk t) out)

unfoldable pub assigned_names : Node → List String
unfolding add_targets to_list
assigned_names (assign targets value) = add_targets (to_list targets) []
assigned_names (ann_assign target annotation value) = add_targets (target ∷ []) []
assigned_names _ = []

-- A method call is judged by the method's name.
abbrev pub is_safe_method : Node → Bool
is_safe_method (attribute value attr) = contains safe_methods attr
is_safe_method _ = false

-- Does a call of this function merely compute?
unfoldable pub is_safe_function : Node → Bool
unfolding dotted
is_safe_function func = elim (dotted func) [
  | none ↦ false
  | some f ↦
      if contains safe_call_names f
      then true
      else if any (λ prefix. starts_with f prefix) safe_call_prefixes
      then true
      else is_safe_method func
]

unfoldable pub unsafe_call : Node → Bool
unfolding is_safe_function
unsafe_call (call func args keywords) = not (is_safe_function func)
unsafe_call _ = false

-- True if every call inside this expression is one that merely computes a value.
unfoldable pub calls_only_compute : Node → Bool
unfolding unsafe_call walk
calls_only_compute value = not (any unsafe_call (walk value))

abbrev pub reads_one_of : List String → Node → Bool
reads_one_of dropped (name id) = contains dropped id
reads_one_of dropped _ = false

-- What the loop over the module's body does with a statement.
pub data Fate : Type 0 where
  kept : Fate
  -- the assignment is dropped with the names that it binds
  unsafe : Fate
  -- neither a definition nor an assignment
  skipped : Fate

-- The two tests on an assignment's value.
unfoldable pub fate_of_value : List String → Node → Fate
unfolding calls_only_compute walk
fate_of_value dropped value =
    if any (reads_one_of dropped) (walk value)
    then unsafe
    else if not (calls_only_compute value)
    then unsafe
    else kept

unfoldable pub fate : List String → Node → Fate
unfolding fate_of_value
fate dropped import_names = kept
fate dropped (function_def a f params arguments body rest) = kept
fate dropped (class_def c body) = kept
fate dropped (assign targets value) = fate_of_value dropped value
fate dropped (ann_assign target annotation nil) = kept
fate dropped (ann_assign target annotation (cons value vs)) = fate_of_value dropped value
fate dropped _ = skipped

-- `dropped.update(names)`
unfoldable pub update : List String → List String → List String
unfolding insert
update dropped [] = dropped
update dropped (k ∷ ks) = update (insert k dropped) ks

-- One turn of the loop; `rest` is the loop over the statements that follow.
unfoldable pub turn : Fate → List String → Node → (List String → List Node) → List Node
unfolding update assigned_names
turn kept dropped n rest = n ∷ rest dropped
turn unsafe dropped n rest = rest (update dropped (assigned_names n))
turn skipped dropped n rest = rest dropped

-- The loop over `tree.body` from a set of dropped names.
unfoldable pub keep_from : List String → List Node → List Node
unfolding fate turn
keep_from dropped [] = []
keep_from dropped (n ∷ ns) = turn (fate dropped n) dropped n (λ d. keep_from d ns)

-- The statements that are compiled and executed.
unfoldable pub module_level_only : Node → List Node
unfolding keep_from children
module_level_only tree = keep_from [] (children tree)
