-- ===== src/Ast.antt =====
-- Python's syntax trees, as far as scripts/check-restore-signal-handlers.py and
-- scripts/check-control-anchors.py look at them, and `ast.walk`.
pub mod Walk
use talyvor_track.Prelude.{ℕ, zero, suc, String, Bool, List, [], ◌∷◌, ◌++◌}
use Prim.Native.Nat.{max}

-- Every node class that an `isinstance` test names has a constructor with the fields that are
-- read; all others are `other`, with their child nodes in the order of `_fields`. Nodes without
-- children (operators, contexts) are left out: no test sees them.
mutual
  pub data Node : Type 0 where
    -- `func`, `args`, then the keywords
    call : Node → Nodes → Nodes → Node
    attribute : Node → String → Node
    name : String → Node
    -- a `Constant` whose value is a `str`
    text_constant : String → Node
    -- `left`, is there an `In` or a `NotIn` among `ops`, and how many `ops`; the comparators
    compare_chain : Node → List Bool → Nodes → Node
    -- is it async, the name, the names of `args.args`, the `arguments` node, the body, the rest
    function_def : Bool → String → List String → Node → Nodes → Nodes → Node
    class_def : String → Nodes → Node
    -- is it async, the items, the body
    with_block : Bool → Nodes → Nodes → Node
    -- `body`, `handlers`, `orelse`, `finalbody`
    try_block : Nodes → Nodes → Nodes → Nodes → Node
    assign : Nodes → Node → Node
    -- the target, the annotation, the value if there is one
    ann_assign : Node → Node → Nodes → Node
    -- `Import` or `ImportFrom`
    import_names : Node
    other : Nodes → Node

  pub data Nodes : Type 0 where
    nil : Nodes
    cons : Node → Nodes → Nodes

-- What `ast.parse` makes of a file: the tree of its module, or an exception with its message.
pub data Source : Type 0 where
  parsed : Node → Source
  unparsed : String → Source

unfoldable pub to_list : Nodes → List Node
to_list nil = []
to_list (cons n ns) = n ∷ to_list ns

unfoldable pub of_list : List Node → Nodes
of_list [] = nil
of_list (n ∷ ns) = cons n (of_list ns)

-- `ast.iter_child_nodes`
unfoldable pub children : Node → List Node
unfolding to_list
children (call f args keywords) = f ∷ (to_list args ++ to_list keywords)
children (attribute value attr) = value ∷ []
children (name id) = []
children (text_constant s) = []
children (compare_chain left ops comparators) = left ∷ to_list comparators
children (function_def a f params arguments body rest) = arguments ∷ (to_list body ++ to_list rest)
children (class_def c body) = to_list body
children (with_block a items body) = to_list items ++ to_list body
children (try_block body handlers orelse finalbody) =
    to_list body ++ (to_list handlers ++ (to_list orelse ++ to_list finalbody))
children (assign targets value) = to_list targets ++ (value ∷ [])
children (ann_assign target annotation value) = target ∷ annotation ∷ to_list value
children import_names = []
children (other ns) = to_list ns

-- The height of a tree: the number of rounds after which `walk`'s queue is empty.
unfoldable mutual
  pub height : Node → ℕ
  height (call f args keywords) = suc (max (height f) (max (height_all args) (height_all keywords)))
  height (attribute value attr) = suc (height value)
  height (name id) = 1
  height (text_constant s) = 1
  height (compare_chain left ops comparators) = suc (max (height left) (height_all comparators))
  height (function_def a f params arguments body rest) =
      suc (max (height arguments) (max (height_all body) (height_all rest)))
  height (class_def c body) = suc (height_all body)
  height (with_block a items body) = suc (max (height_all items) (height_all body))
  height (try_block body handlers orelse finalbody) = suc (
      max (height_all body)
        (max (height_all handlers) (max (height_all orelse) (height_all finalbody))))
  height (assign targets value) = suc (max (height_all targets) (height value))
  height (ann_assign target annotation value) =
      suc (max (height target) (max (height annotation) (height_all value)))
  height import_names = 1
  height (other ns) = suc (height_all ns)

  pub height_all : Nodes → ℕ
  height_all nil = 0
  height_all (cons n ns) = max (height n) (height_all ns)

unfoldable pub all_children : List Node → List Node
unfolding children
all_children [] = []
all_children (n ∷ ns) = children n ++ all_children ns

-- The queue of `ast.walk` holds a whole level before the next one begins.
unfoldable pub levels : ℕ → List Node → List Node
unfolding all_children
levels zero ns = []
levels (suc rounds) ns = ns ++ levels rounds (all_children ns)

-- `ast.walk(node)`: the node and all its descendants, breadth first.
unfoldable pub walk : Node → List Node
unfolding levels height
walk n = levels (height n) (n ∷ [])

-- `ast.walk(ast.Module(body=body, type_ignores=[]))`. Python wraps a list of statements so, to
-- walk them all.
unfoldable pub walk_body : Nodes → List Node
unfolding walk
walk_body body = walk (other body)
