-- ===== src/Signals/Detect.antt =====
-- The detectors of scripts/check-restore-signal-handlers.py, over syntax trees.
use talyvor_track.Prelude.{
  String, Bool, true, false, ◌&&◌, ◌||◌, List, [], ◌∷◌, any, contains, insert, occurs, codes,
  str_eq, if◌then◌else◌,
}
use talyvor_track.Ast.{
  Node, call, attribute, name, text_constant, function_def, with_block, try_block, Nodes, nil, cons,
  walk, walk_body,
}

abbrev pub write_attrs : List String
write_attrs = "write_text" ∷ "write_bytes" ∷ "writelines" ∷ "write" ∷ []

abbrev pub copy_funcs : List String
copy_funcs = "copy" ∷ "copy2" ∷ "copyfile" ∷ "move" ∷ []

abbrev pub read_attrs : List String
read_attrs = "read_text" ∷ "read_bytes" ∷ []

-- `isinstance(n, ast.Name) and n.id in ids`
abbrev pub is_name_in : Node → List String → Bool
is_name_in (name id) ids = contains ids id
is_name_in _ ids = false

unfoldable pub write_call : Node → Bool
write_call (call (attribute value attr) args keywords) =
    if contains write_attrs attr
    then true
    else contains copy_funcs attr && is_name_in value ("shutil" ∷ "os" ∷ [])
write_call _ = false

-- True if this statement list performs a filesystem write.
unfoldable pub writes : Nodes → Bool
unfolding write_call walk_body
writes body = any write_call (walk_body body)

unfoldable pub read_call : Node → Bool
read_call (call (attribute value attr) args keywords) = contains read_attrs attr
read_call _ = false

-- The wide net: the script both reads file content and writes it.
unfoldable pub reads_and_writes : Node → Bool
unfolding read_call write_call walk
reads_and_writes tree = any read_call (walk tree) && any write_call (walk tree)

-- The name of a function whose body writes.
unfoldable pub add_writer : Node → List String → List String
unfolding writes insert
add_writer (function_def a f params arguments body rest) out =
    if writes body then insert f out else out
add_writer _ out = out

unfoldable pub collect_writers : List Node → List String
unfolding add_writer
collect_writers [] = []
collect_writers (n ∷ ns) = add_writer n (collect_writers ns)

-- Names of functions defined in this module whose body performs a write.
unfoldable pub writing_functions : Node → List String
unfolding collect_writers walk
writing_functions tree = collect_writers (walk tree)

unfoldable pub writing_exit : Node → Bool
unfolding writes
writing_exit (function_def a f params arguments body rest) = str_eq f "__exit__" && writes body
writing_exit _ = false

abbrev pub is_with : Node → Bool
is_with (with_block a items body) = true
is_with _ = false

-- A class whose `__exit__` writes, and a `with` that could be using it.
unfoldable pub restores_via_context_manager : Node → Bool
unfolding writing_exit walk
restores_via_context_manager tree = any writing_exit (walk tree) && any is_with (walk tree)

-- A string literal that satisfies a test.
abbrev pub literal_with : (String → Bool) → Node → Bool
literal_with p (text_constant s) = p s
literal_with p _ = false

abbrev pub mentions : String → String → Bool
mentions word s = occurs (codes word) (codes s)

-- A call with a literal that mentions `git` and one that mentions `checkout` or `restore`.
unfoldable pub git_call : Node → Bool
unfolding walk
git_call (call f args keywords) =
    any (literal_with (mentions "git")) (walk (call f args keywords))
    && any (literal_with (λ s. mentions "checkout" s || mentions "restore" s))
        (walk (call f args keywords))
git_call _ = false

-- A `finally` that shells out to `git checkout -- <path>`.
unfoldable pub restores_via_git : Nodes → Bool
unfolding git_call walk_body
restores_via_git finalbody = any git_call (walk_body finalbody)

-- `isinstance(n, ast.Try) and n.finalbody and p(n.finalbody)`
abbrev pub try_with : (Nodes → Bool) → Node → Bool
try_with p (try_block body handlers orelse nil) = false
try_with p (try_block body handlers orelse (cons s ss)) = p (cons s ss)
try_with p _ = false

-- A call of one of the functions in `writers`, by its name or as a method.
unfoldable pub calls_one_of : List String → Node → Bool
calls_one_of writers (call (name id) args keywords) = contains writers id
calls_one_of writers (call (attribute value attr) args keywords) = contains writers attr
calls_one_of writers _ = false

-- The `finally` writes, or calls a function defined here that writes.
unfoldable pub restores_directly : List String → Nodes → Bool
unfolding writes calls_one_of walk_body
restores_directly writers finalbody =
    if writes finalbody then true else any (calls_one_of writers) (walk_body finalbody)

unfoldable pub restores_in_finally : Node → Bool
unfolding restores_via_context_manager restores_via_git restores_directly writing_functions walk
restores_in_finally tree =
    if restores_via_context_manager tree
    then true
    else if any (try_with restores_via_git) (walk tree)
    then true
    else any (try_with (restores_directly (writing_functions tree))) (walk tree)

-- A call to `signal.signal(...)`.
unfoldable pub handler_call : Node → Bool
handler_call (call (attribute value attr) args keywords) =
    str_eq attr "signal" && is_name_in value ("signal" ∷ [])
handler_call _ = false

unfoldable pub installs_handler : Node → Bool
unfolding handler_call walk
installs_handler tree = any handler_call (walk tree)
