-- ===== src/Signals/Found.antt =====
-- What the detectors find, said of the tree and not of the walk.
use talyvor_track.Prelude.{
  String, Bool, true, ◌≡◌, refl, sym, str_eq, ◌⊎◌, inl, inr, ◌↔◌, List, [], ◌∷◌, arith, any,
  any-eq-true, and_true, any_of_In, contains, contains-insert, In, Bool-cases, eq_iff,
}
use mathlib.Core.Path.{subst}
use talyvor_track.Ast.{
  name, attribute, Node, call, function_def, try_block, Nodes, cons, other, walk, walk_body,
}
use talyvor_track.Ast.Walk.{Within, In-walk, walk-In}
use talyvor_track.Signals.Detect.{
  write_call, writes, writing_exit, is_with, restores_via_context_manager, restores_via_git,
  try_with, restores_directly, restores_in_finally, writing_functions, calls_one_of, handler_call,
  installs_handler, add_writer, collect_writers, reads_and_writes, read_call, git_call,
}

-- Somewhere in the tree stands a node that passes the test.
pub record Has (p : Node → Bool) (tree : Node) : Type 0 where
  pub node : Node
  pub within : Within node tree
  pub passes : p node ≡ true

pub any-walk : (p : Node → Bool) (tree : Node) → (any p (walk tree) ≡ true) ↔ Has p tree
any-walk p tree = (
  λ h.
      let (n, q, e) = any-eq-true p (walk tree) h in
      record { node = n; within = walk-In tree n q; passes = e },
  λ r. any_of_In p (walk tree) r.node (In-walk tree r.node r.within) r.passes,
)

-- A function of the module, by name, whose body holds a write.
pub record IsWriter (tree : Node) (f : String) : Type 0 where
  pub is_async : Bool
  pub params : List String
  pub arguments : Node
  pub body : Nodes
  pub rest : Nodes
  pub within : Within (function_def is_async f params arguments body rest) tree
  pub write : Has write_call (other body)

IsWriter-add :
    (n : Node) (tree : Node) (out : List String) (f : String)
    → Within n tree
    → contains (add_writer n out) f ≡ true
    → IsWriter tree f ⊎ (contains out f ≡ true)
unfolding add_writer writes
IsWriter-add (function_def a g params arguments body rest) tree out f w h =
    elim (Bool-cases (writes body)) [
      | inl e ↦ elim (Bool-cases (str_eq g f)) [
        | inl same ↦ inl (
            subst (IsWriter tree) ((eq_iff g f).0 same) (record {
              is_async = a;
              params = params;
              arguments = arguments;
              body = body;
              rest = rest;
              within = w;
              write = (any-walk write_call (other body)).0 (unfold walk_body in e);
            }))
        | inr distinct ↦ inr (ground (arith, contains-insert g out f))
      ]
      | inr e ↦ inr (ground arith)
    ]
IsWriter-add _ tree out f w h = inr h

collect_writers-IsWriter :
    (ns : List Node) (tree : Node) (f : String)
    → ((n : Node) → In n ns → Within n tree)
    → contains (collect_writers ns) f ≡ true
    → IsWriter tree f
unfolding collect_writers
collect_writers-IsWriter [] tree f w h = ground arith
collect_writers-IsWriter (n ∷ ns) tree f w h =
    elim (IsWriter-add n tree (collect_writers ns) f (w n (inl refl)) h) [
      | inl r ↦ r
      | inr later ↦ collect_writers-IsWriter ns tree f (λ m q. w m (inr q)) later
    ]

add_writer-keeps :
    (n : Node) (out : List String) (f : String)
    → contains out f ≡ true
    → contains (add_writer n out) f ≡ true
unfolding add_writer
add_writer-keeps (function_def a g params arguments body rest) out f h =
    ground (arith, contains-insert g out f)
add_writer-keeps _ out f h = h

collect_writers_complete :
    (ns : List Node) (n : Node) (f : String)
    → In n ns
    → ((out : List String) → contains (add_writer n out) f ≡ true)
    → contains (collect_writers ns) f ≡ true
unfolding collect_writers
collect_writers_complete [] n f h k = elim h [ ]
collect_writers_complete (m ∷ ns) n f (inl e) k =
    subst (λ x. contains (add_writer x (collect_writers ns)) f ≡ true) (sym e)
      (k (collect_writers ns))
collect_writers_complete (m ∷ ns) n f (inr q) k =
    add_writer-keeps m (collect_writers ns) f (collect_writers_complete ns n f q k)

-- `writing_functions` holds exactly the functions of the module that write.
pub writing_functions_iff :
    (tree : Node) (f : String) → (contains (writing_functions tree) f ≡ true) ↔ IsWriter tree f
unfolding writing_functions
writing_functions_iff tree f = (
  λ h. collect_writers-IsWriter (walk tree) tree f (λ n q. walk-In tree n q) h,
  λ r. collect_writers_complete (walk tree) _ f (In-walk tree _ r.within) (λ out.
      (unfold add_writer writes walk_body in
        rw ((any-walk write_call (other r.body)).1 r.write)
          (ground (arith, contains-insert f out f, eq_iff f f)))),
)

-- A `try` of the tree with a `finally`.
pub record HasFinally (p : Nodes → Type 0) (tree : Node) : Type 0 where
  pub body : Nodes
  pub handlers : Nodes
  pub orelse : Nodes
  pub first : Node
  pub others : Nodes
  pub within : Within (try_block body handlers orelse (cons first others)) tree
  pub restores : p (cons first others)

HasFinally-of_try :
    (p : Nodes → Bool) (n tree : Node)
    → Within n tree
    → try_with p n ≡ true
    → HasFinally (λ ss. p ss ≡ true) tree
HasFinally-of_try p (try_block b h o (cons s ss)) tree w e = record {
  body = b;
  handlers = h;
  orelse = o;
  first = s;
  others = ss;
  within = w;
  restores = e;
}
HasFinally-of_try p _ tree w e = ground arith

pub any-try_with :
    (p : Nodes → Bool) (tree : Node)
    → (any (try_with p) (walk tree) ≡ true) ↔ HasFinally (λ ss. p ss ≡ true) tree
any-try_with p tree = (
  λ h.
      let r = (any-walk (try_with p) tree).0 h in HasFinally-of_try p r.node tree r.within r.passes,
  λ r.
      any_of_In (try_with p) (walk tree)
        (try_block r.body r.handlers r.orelse (cons r.first r.others)) (In-walk tree _ r.within)
        r.restores,
)

calls_one_of-split :
    (ws : List String) (n : Node)
    → calls_one_of ws n ≡ true
    → (w : String) × (contains ws w ≡ true) × (calls_one_of (w ∷ []) n ≡ true)
unfolding calls_one_of
calls_one_of-split ws (call (name id) args keywords) h = (id, h, ground (arith, eq_iff id id))
calls_one_of-split ws (call (attribute value attr) args keywords) h =
    (attr, h, ground (arith, eq_iff attr attr))
calls_one_of-split ws _ h = cc

calls_one_of-join :
    (ws : List String) (w : String) (n : Node)
    → contains ws w ≡ true
    → calls_one_of (w ∷ []) n ≡ true
    → calls_one_of ws n ≡ true
unfolding calls_one_of
calls_one_of-join ws w (call (name id) args keywords) k h = rw ((eq_iff w id).0 (ground arith)) at k
calls_one_of-join ws w (call (attribute value attr) args keywords) k h =
    rw ((eq_iff w attr).0 (ground arith)) at k
calls_one_of-join ws w _ k h = cc

-- The four ways in which a script restores what it mutated, whatever the exception.
pub data Restores (tree : Node) : Type 0 where
  by_manager : Has writing_exit tree → Has is_with tree → Restores tree
  by_git : HasFinally (λ ss. Has git_call (other ss)) tree → Restores tree
  by_write : HasFinally (λ ss. Has write_call (other ss)) tree → Restores tree
  by_helper :
      (w : String)
      → IsWriter tree w
      → HasFinally (λ ss. Has (calls_one_of (w ∷ [])) (other ss)) tree
      → Restores tree

HasFinally-map :
    {p q : Nodes → Type 0} (tree : Node)
    → ((ss : Nodes) → p ss → q ss)
    → HasFinally p tree
    → HasFinally q tree
HasFinally-map tree f r = record {
  body = r.body;
  handlers = r.handlers;
  orelse = r.orelse;
  first = r.first;
  others = r.others;
  within = r.within;
  restores = f _ r.restores;
}

Restores-of_direct :
    (tree : Node)
    → HasFinally (λ ss. restores_directly (writing_functions tree) ss ≡ true) tree
    → Restores tree
unfolding restores_directly writes walk_body
Restores-of_direct tree r = elim (Bool-cases (writes (cons r.first r.others))) [
  | inl e ↦ by_write (record {
    body = r.body;
    handlers = r.handlers;
    orelse = r.orelse;
    first = r.first;
    others = r.others;
    within = r.within;
    restores = (any-walk write_call (other (cons r.first r.others))).0 e;
  })
  | inr e ↦
      let s =
        (any-walk (calls_one_of (writing_functions tree)) (other (cons r.first r.others))).0
          (rw e at r.restores) in
      let (w, k, c) = calls_one_of-split (writing_functions tree) s.node s.passes in
      by_helper w ((writing_functions_iff tree w).0 k) (record {
        body = r.body;
        handlers = r.handlers;
        orelse = r.orelse;
        first = r.first;
        others = r.others;
        within = r.within;
        restores = record { node = s.node; within = s.within; passes = c };
      })
]

Restores-sound : (tree : Node) → restores_in_finally tree ≡ true → Restores tree
unfolding restores_in_finally restores_via_context_manager restores_via_git walk_body
Restores-sound tree h = elim (Bool-cases (restores_via_context_manager tree)) [
  | inl e ↦
      by_manager ((any-walk writing_exit tree).0 (and_true e).0)
        ((any-walk is_with tree).0 (and_true e).1)
  | inr e ↦ elim (Bool-cases (any (try_with restores_via_git) (walk tree))) [
    | inl g ↦ by_git (
        HasFinally-map tree (λ ss q. (any-walk git_call (other ss)).0 q)
          ((any-try_with restores_via_git tree).0 g))
    | inr g ↦
        Restores-of_direct tree
          ((any-try_with (restores_directly (writing_functions tree)) tree).0 (ground arith))
  ]
]

-- The last of the three tests of `restores_in_finally`.
direct_complete :
    (tree : Node)
    → HasFinally (λ ss. restores_directly (writing_functions tree) ss ≡ true) tree
    → restores_in_finally tree ≡ true
unfolding restores_in_finally
direct_complete tree r =
    ground (arith, (any-try_with (restores_directly (writing_functions tree)) tree).1 r)

Restores-complete : (tree : Node) → Restores tree → restores_in_finally tree ≡ true
unfolding restores_in_finally restores_via_context_manager restores_via_git restores_directly writes
    walk_body
Restores-complete tree (by_manager x w) =
    ground (arith, (any-walk writing_exit tree).1 x, (any-walk is_with tree).1 w)
Restores-complete tree (by_git r) = ground (
  arith,
  (any-try_with restores_via_git tree).1
      (HasFinally-map tree (λ ss q. (any-walk git_call (other ss)).1 q) r),
)
Restores-complete tree (by_write r) =
    direct_complete tree
      (HasFinally-map tree (λ ss q. rw ((any-walk write_call (other ss)).1 q) refl) r)
Restores-complete tree (by_helper w k r) = direct_complete tree (
    HasFinally-map tree
      (λ ss q. ground (
        arith,
        (any-walk (calls_one_of (writing_functions tree)) (other ss)).1 (record {
          node = q.node;
          within = q.within;
          passes =
              calls_one_of-join (writing_functions tree) w q.node
                ((writing_functions_iff tree w).1 k) q.passes;
        }),
      ))
      r)

-- The narrow detector finds exactly the scripts that restore in one of the four ways.
pub restores_in_finally_iff : (tree : Node) → (restores_in_finally tree ≡ true) ↔ Restores tree
restores_in_finally_iff tree = (Restores-sound tree, Restores-complete tree)

-- The wide detector finds exactly the scripts that hold a read and a write.
pub reads_and_writes_iff :
    (tree : Node) → (reads_and_writes tree ≡ true) ↔ (Has read_call tree × Has write_call tree)
unfolding reads_and_writes
reads_and_writes_iff tree = (
  λ h. ((any-walk read_call tree).0 (and_true h).0, (any-walk write_call tree).0 (and_true h).1),
  λ r. ground (arith, (any-walk read_call tree).1 r.0, (any-walk write_call tree).1 r.1),
)

pub installs_handler_iff : (tree : Node) → (installs_handler tree ≡ true) ↔ Has handler_call tree
unfolding installs_handler
installs_handler_iff tree = any-walk handler_call tree
