-- ===== src/Tests/Trees.antt =====
-- Syntax trees of small scripts, after the probes of scripts/w641-guard-controls-r7k2.py.
use talyvor_track.Prelude.{false, List, [], ◌∷◌}
use talyvor_track.Ast.{
  Node, call, attribute, name, text_constant, function_def, try_block, assign, import_names, other,
  Nodes, nil, cons,
}

abbrev pub block : List Node → Nodes
block [] = nil
block (n ∷ ns) = cons n (block ns)

-- `p.write_text(arg)`
abbrev pub write_text : Node → Node
write_text arg = call (attribute (name "p") "write_text") (cons arg nil) nil

abbrev pub read_text : Node
read_text = call (attribute (name "p") "read_text") nil nil

abbrev pub mutation : Nodes
mutation = block (
    assign (cons (name "original") nil) read_text
    ∷ other (cons (write_text (text_constant "mutated")) nil)
    ∷ [])

abbrev pub tree_of : List Node → Node
tree_of body = other (block body)

-- `def restore(): p.write_text(original)`, and a `finally` that calls it.
abbrev pub indirect : Node
indirect = tree_of (
    import_names
    ∷ function_def false "restore" [] (other nil)
        (cons (other (cons (write_text (name "original")) nil)) nil) nil
    ∷ try_block mutation nil nil (cons (other (cons (call (name "restore") nil nil) nil)) nil)
    ∷ [])

-- The same with `signal.signal(signal.SIGTERM, handler)`.
abbrev pub good : Node
good = tree_of (
    import_names
    ∷ other (
        cons
          (call (attribute (name "signal") "signal")
            (block (attribute (name "signal") "SIGTERM" ∷ name "handler" ∷ [])) nil)
          nil)
    ∷ try_block mutation nil nil (cons (other (cons (write_text (name "original")) nil)) nil)
    ∷ [])
