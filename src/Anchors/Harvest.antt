-- ===== src/Anchors/Harvest.antt =====
-- `harvest`: the (…, path, old, new, …) rows inside a module-level value.
use talyvor_track.Prelude.{
  ℕ, suc, ◌+◌, ℤ, String, Bool, false, not, ◌&&◌, ◌||◌, Option, none, some, List, [], ◌∷◌, ◌++◌,
  any, get_elem?, ◌==◌, if◌then◌else◌, str_eq,
}
use talyvor_track.Anchors.Shape.{path_shaped}

-- A Python value as the census looks at it. A container has its `id`; since `harvest` stops below
-- depth 8, a value that contains itself is given by its unrolling, with the same `id`s.
mutual
  pub data Value : Type 0 where
    text : String → Value
    int : ℤ → Value
    bool : Bool → Value
    -- a list or a tuple
    seq : ℕ → Values → Value
    -- a dict, by its values
    dict : ℕ → Values → Value
    opaque : Value

  pub data Values : Type 0 where
    nil : Values
    cons : Value → Values → Values

unfoldable pub to_list : Values → List Value
to_list nil = []
to_list (cons v vs) = v ∷ to_list vs

pub record Row : Type 0 where
  pub path : String
  pub old : String
  pub want : Option ℤ

-- `isinstance(old, str) and old and not path_shaped(old)`
unfoldable pub is_old : Value → Bool
is_old (text s) = not (str_eq s "") && not (path_shaped s)
is_old _ = false

-- `isinstance(new, str) and not path_shaped(new)`
unfoldable pub is_new : Value → Bool
is_new (text s) = not (path_shaped s)
is_new _ = false

-- The count after `new`, if there is one and it is an `int` and no `bool`.
abbrev pub as_count : Option Value → Option ℤ
as_count (some (int n)) = some n
as_count _ = none

-- `old` and `new` at their columns past the path `p`, if they are what a row has there.
unfoldable pub row_of : Bool → String → Value → Value → Option Value → Option Row
unfolding is_old is_new
row_of declared p (text old) new want =
    if is_old (text old) && (declared || is_new new)
    then some (record { path = p; old = old; want = as_count want })
    else none
row_of declared p _ new want = none

-- The columns at `off` and `off + 1` must be there.
unfoldable pub row_at : Bool → String → Option Value → Option Value → Option Value → Option Row
unfolding row_of
row_at declared p (some old) (some new) want = row_of declared p old new want
row_at declared p _ _ want = none

-- The row with its path at the head of this suffix, `off` columns before its anchor.
unfoldable pub row_here : ℕ → Bool → Value → List Value → Option Row
unfolding row_at
row_here off declared (text p) rest =
    let columns = text p ∷ rest in
    if path_shaped p
    then row_at declared p (get_elem? columns off) (get_elem? columns (off + 1))
        (get_elem? columns (off + 2))
    else none
row_here off declared _ rest = none

-- The loop over `range(len(obj) - 1 - off)`: the first position that gives a row.
unfoldable pub first_row : ℕ → Bool → List Value → Option Row
unfolding row_here
first_row off declared [] = none
first_row off declared (v ∷ vs) = elim (row_here off declared v vs) [
  | some r ↦ some r
  | none ↦ first_row off declared vs
]

-- The ids in `seen`, and the rows in `out`.
pub record State : Type 0 where
  pub seen : List ℕ
  pub out : List Row

abbrev pub is_seen : ℕ → List ℕ → Bool
is_seen i ids = any (λ j. i == j) ids

abbrev pub empty : State
empty = record { seen = []; out = [] }

-- A container that was met before is left alone; any other is marked, and then looked at.
unfoldable pub enter : ℕ → (State → State) → State → State
enter i look s = if is_seen i s.seen then s else look (record s { seen = i ∷ s.seen })

-- A row ends the look at its container; without one the elements are next.
unfoldable pub or_elements : Option Row → (State → State) → State → State
or_elements (some r) elements s = record s { out = s.out ++ (r ∷ []) }
or_elements none elements s = elements s

module _ (off : ℕ) (declared : Bool) where
  unfoldable mutual
    -- `depth` is what is left of the levels. A value that is no container adds nothing.
    pub harvest : Value → ℕ → State → State
    harvest (dict i vs) (suc depth) s = enter i (harvest_all vs depth) s
    harvest (seq i vs) (suc depth) s =
        enter i (or_elements (first_row off declared (to_list vs)) (harvest_all vs depth)) s
    harvest v depth s = s

    pub harvest_all : Values → ℕ → State → State
    harvest_all nil depth s = s
    harvest_all (cons v vs) depth s = harvest_all vs depth (harvest v depth s)

-- `harvest(val, rows, ...)` at depth 0: nine levels, 0 to 8.
abbrev pub max_levels : ℕ
max_levels = 9
