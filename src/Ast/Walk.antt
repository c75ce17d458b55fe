-- ===== src/Ast/Walk.antt =====
-- `walk` yields exactly the descendants of a node: its rounds are enough for the height.
use Prim.Native.Nat.{max}
use mathlib.Core.Path.{subst}
use talyvor_track.Prelude.{
  ℕ, zero, suc, ◌≤◌, ◌≡◌, refl, sym, inl, inr, List, [], ◌∷◌, ◌++◌, arith, In, In-append,
  In-append_left, In-append_right,
}
use talyvor_track.Ast.{
  Node, call, Nodes, nil, cons, to_list, children, height, height_all, all_children, levels, walk,
}

-- `Within n m`: the node `m` is `n`, or stands below it.
pub data Within (m : Node) : Node → Type 0 where
  here : Within m m
  below : {n c : Node} → In c (children n) → Within m c → Within m n

height-pos : (n : Node) → 1 ≤ height n
unfolding height
height-pos (call f args keywords) = omega arith
height-pos _ = omega arith

height_list : List Node → ℕ
height_list [] = 0
height_list (n ∷ ns) = max (height n) (height_list ns)

height_list-append :
    (xs ys : List Node) → height_list (xs ++ ys) ≡ max (height_list xs) (height_list ys)
unfolding height_list
height_list-append [] ys = omega arith
height_list-append (x ∷ xs) ys = omega (arith, height_list-append xs ys)

height_list-to_list : (ns : Nodes) → height_list (to_list ns) ≡ height_all ns
unfolding height_list to_list height
height_list-to_list nil = refl
height_list-to_list (cons n ns) = omega (arith, height_list-to_list ns)

height-le-height_list : (ns : List Node) (c : Node) → In c ns → height c ≤ height_list ns
unfolding height_list
height-le-height_list [] c h = elim h [ ]
height-le-height_list (n ∷ ns) c (inl e) = rw (← e) (omega arith)
height-le-height_list (n ∷ ns) c (inr h) = omega (arith, height-le-height_list ns c h)

ruleset heights = (arith, height_list-append, height_list-to_list)

-- The height of a node is one more than the height of its children.
height-children : (n : Node) → height n ≡ suc (height_list (children n))
unfolding children height height_list
height-children (call f args keywords) = omega heights
height-children _ = omega heights

height_list-all_children :
    (ns : List Node) (k : ℕ) → height_list ns ≤ suc k → height_list (all_children ns) ≤ k
unfolding all_children height_list
height_list-all_children [] k h = omega arith
height_list-all_children (n ∷ ns) k h =
    omega (heights, height-children n, height_list-all_children ns k (omega arith))

In-all_children :
    (ns : List Node) (n c : Node) → In n ns → In c (children n) → In c (all_children ns)
unfolding all_children
In-all_children [] n c h q = elim h [ ]
In-all_children (x ∷ ns) n c (inl e) q = In-append_left c (children x) (all_children ns) (rw e q)
In-all_children (x ∷ ns) n c (inr h) q =
    In-append_right c (children x) _ (In-all_children ns n c h q)

all_children-In :
    (ns : List Node) (c : Node) → In c (all_children ns) → (n : Node) × In n ns × In c (children n)
unfolding all_children
all_children-In [] c h = elim h [ ]
all_children-In (x ∷ ns) c h = elim (In-append c (children x) (all_children ns) h) [
  | inl q ↦ (x, inl refl, q)
  | inr q ↦ let (n, r, w) = all_children-In ns c q in (n, inr r, w)
]

In-levels :
    (k : ℕ) (ns : List Node) (n m : Node)
    → In n ns
    → height_list ns ≤ k
    → Within m n
    → In m (levels k ns)
unfolding levels
In-levels zero ns n m h fits w = absurd (omega (arith, height-pos n, height-le-height_list ns n h))
In-levels (suc k) ns n m h fits here = In-append_left n ns _ h
In-levels (suc k) ns n m h fits (below {c = c} q w) = In-append_right m ns _ (
    In-levels k (all_children ns) c m (In-all_children ns n c h q)
      (height_list-all_children ns k fits) w)

levels-In :
    (k : ℕ) (ns : List Node) (m : Node) → In m (levels k ns) → (n : Node) × In n ns × Within m n
unfolding levels
levels-In zero ns m h = elim h [ ]
levels-In (suc k) ns m h = elim (In-append m ns (levels k (all_children ns)) h) [
  | inl q ↦ (m, q, here)
  | inr q ↦
      let (c, r, w) = levels-In k (all_children ns) m q in
      let (n, u, v) = all_children-In ns c r in (n, u, below v w)
]

-- Nothing below the node is missed, at any depth.
pub In-walk : (n m : Node) → Within m n → In m (walk n)
unfolding walk height_list
In-walk n m w = In-levels (height n) (n ∷ []) n m (inl refl) (omega arith) w

-- Nothing else is yielded.
pub walk-In : (n m : Node) → In m (walk n) → Within m n
unfolding walk
walk-In n m h =
    let (x, q, w) = levels-In (height n) (n ∷ []) m h in
    elim q [ inl e ↦ subst (λ y. Within m y) (sym e) w | inr r ↦ absurd r ]
