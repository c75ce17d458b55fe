-- ===== src/Anchors/Roles.antt =====
-- `_direct_roles` and `_roles`: in which argument positions a name is used.
use talyvor_track.Prelude.{
  String, Bool, true, false, ◌&&◌, Option, none, some, List, [], ◌∷◌, any, contains, str_eq,
  if◌then◌else◌,
}
use talyvor_track.Ast.{
  Node, call, attribute, name, compare_chain, function_def, Nodes, nil, cons, walk,
}
use talyvor_track.Anchors.Tables.{anchor_methods}

pub data Role : Type 0 where
  anchor replacement : Role

-- A dict of sets: the roles that each name was seen in, as pairs.
abbrev pub Roles : Type 0
Roles = List (String × Role)

abbrev pub role_eq : Role → Role → Bool
role_eq anchor anchor = true
role_eq replacement replacement = true
role_eq _ _ = false

-- `role in roles.get(k, set())`
unfoldable pub has_role : Roles → String → Role → Bool
has_role roles k role = any (λ r. str_eq r.0 k && role_eq r.1 role) roles

-- `for n in ast.walk(node): if isinstance(n, ast.Name): roles.setdefault(n.id, set()).add(role)`
unfoldable pub add_names : Role → List Node → Roles → Roles
add_names role [] roles = roles
add_names role (name id ∷ ns) roles = (id, role) ∷ add_names role ns roles
add_names role (_ ∷ ns) roles = add_names role ns roles

unfoldable pub add_role : Role → Node → Roles → Roles
unfolding add_names walk
add_role role n roles = add_names role (walk n) roles

-- A `.replace` call: its first argument is an anchor, its second a replacement.
unfoldable pub replace_roles : Nodes → Roles → Roles
unfolding add_role
replace_roles nil roles = roles
replace_roles (cons old nil) roles = add_role anchor old roles
replace_roles (cons old (cons new rest)) roles =
    add_role replacement new (add_role anchor old roles)

-- The first argument of any other method that looks for a text is an anchor.
unfoldable pub method_roles : String → Nodes → Roles → Roles
unfolding replace_roles
method_roles attr nil roles = roles
method_roles attr (cons old rest) roles =
    if str_eq attr "replace"
    then replace_roles (cons old rest) roles
    else if contains anchor_methods attr
    then add_role anchor old roles
    else roles

-- The body of the loop: method calls, and a name on the left of `in` or `not in`.
unfoldable pub node_roles : Node → Roles → Roles
unfolding method_roles
node_roles (call (attribute value attr) args keywords) roles = method_roles attr args roles
node_roles (compare_chain (name id) ops comparators) roles =
    if any (λ is_in. is_in) ops then (id, anchor) ∷ roles else roles
node_roles _ roles = roles

unfoldable pub all_roles : List Node → Roles → Roles
unfolding node_roles
all_roles [] roles = roles
all_roles (n ∷ ns) roles = all_roles ns (node_roles n roles)

unfoldable pub direct_roles : Node → Roles
unfolding all_roles walk
direct_roles tree = all_roles (walk tree) []

-- The one role of a parameter, if it has exactly one.
unfoldable pub single_role : Roles → String → Option Role
unfolding has_role
single_role roles k =
    if has_role roles k anchor
    then (if has_role roles k replacement then none else some anchor)
    else if has_role roles k replacement
    then some replacement
    else none

unfoldable pub parameter_roles : Roles → List String → List (Option Role)
unfolding single_role
parameter_roles inner [] = []
parameter_roles inner (a ∷ params) = single_role inner a ∷ parameter_roles inner params

abbrev pub is_some {ℓ} : {A : Type ℓ} → Option A → Bool
is_some none = false
is_some (some a) = true

-- `sigs`: for each function with a parameter that has a role, the roles by position. The function
-- that the walk meets last is first here, so it is the one that counts.
abbrev pub Signatures : Type 0
Signatures = List (String × List (Option Role))

unfoldable pub add_signature : Node → Signatures → Signatures
unfolding direct_roles parameter_roles
add_signature (function_def a f params arguments body rest) sigs =
    let m = parameter_roles (direct_roles (function_def a f params arguments body rest)) params in
    if any is_some m then (f, m) ∷ sigs else sigs
add_signature _ sigs = sigs

unfoldable pub signatures : List Node → Signatures → Signatures
unfolding add_signature
signatures [] sigs = sigs
signatures (n ∷ ns) sigs = signatures ns (add_signature n sigs)

-- `sigs[f]`, or nothing.
unfoldable pub signature_of : Signatures → String → List (Option Role)
signature_of [] f = []
signature_of ((g, m) ∷ sigs) f = if str_eq g f then m else signature_of sigs f

-- Each argument adds its names to the role of its position.
unfoldable pub argument_roles : Nodes → List (Option Role) → Roles → Roles
unfolding add_role
argument_roles nil m roles = roles
argument_roles (cons arg args) [] roles = roles
argument_roles (cons arg args) (none ∷ m) roles = argument_roles args m roles
argument_roles (cons arg args) (some role ∷ m) roles =
    argument_roles args m (add_role role arg roles)

unfoldable pub call_roles : Signatures → List Node → Roles → Roles
unfolding signature_of argument_roles
call_roles sigs [] roles = roles
call_roles sigs (call (name f) args keywords ∷ ns) roles =
    call_roles sigs ns (argument_roles args (signature_of sigs f) roles)
call_roles sigs (_ ∷ ns) roles = call_roles sigs ns roles

-- The observed roles of each name, resolving one hop of the script's own functions.
unfoldable pub roles_of : Node → Roles
unfolding call_roles signatures direct_roles
roles_of tree = call_roles (signatures (walk tree) []) (walk tree) (direct_roles tree)
