-- ===== src/Anchors/Rows.antt =====
-- What `harvest` collects: only rows of the right shape.
use talyvor_track.Prelude.{
  ℕ, zero, suc, ◌+◌, ◌≡◌, refl, inl, inr, String, Bool, true, false, Option, none, some, List, [],
  ◌∷◌, ◌++◌, arith, get_elem?, In, str_eq, Option-cases, Bool-cases,
}
use talyvor_track.Anchors.Shape.{path_shaped}
use talyvor_track.Anchors.Harvest.{
  Value, text, int, bool, seq, dict, opaque, Values, nil, cons, to_list, Row, row_of, row_at,
  row_here, first_row, State, is_seen, enter, or_elements, harvest, harvest_all, empty, max_levels,
}

none≢some : {A : Type 0} {a : A} → none ≡ some a → ⊥
none≢some h = cc

-- A row names a path-shaped target, and its anchor is a text that is neither empty nor a path.
pub record IsRow (r : Row) : Type 0 where
  pub target : path_shaped r.path ≡ true
  pub anchor : path_shaped r.old ≡ false
  pub filled : str_eq r.old "" ≡ false

row_of-IsRow :
    (declared : Bool) (p : String) (old new : Value) (want : Option Value) (r : Row)
    → path_shaped p ≡ true
    → row_of declared p old new want ≡ some r
    → IsRow r
unfolding row_of
row_of-IsRow declared p (text s) new want r e h = ground arith
row_of-IsRow declared p _ new want r e h = ground arith

row_at-IsRow :
    (declared : Bool) (p : String) (old new want : Option Value) (r : Row)
    → path_shaped p ≡ true
    → row_at declared p old new want ≡ some r
    → IsRow r
row_at-IsRow declared p (some old) (some new) want r e h =
    row_of-IsRow declared p old new want r e (unfold row_at in h)
row_at-IsRow declared p _ _ want r e h = unfold row_at in ground arith

row_here-IsRow :
    (off : ℕ) (declared : Bool) (v : Value) (rest : List Value) (r : Row)
    → row_here off declared v rest ≡ some r
    → IsRow r
unfolding row_here
row_here-IsRow off declared (text p) rest r h = elim (Bool-cases (path_shaped p)) [
  | inl e ↦
      row_at-IsRow declared p (get_elem? (text p ∷ rest) off) (get_elem? (text p ∷ rest) (off + 1))
        (get_elem? (text p ∷ rest) (off + 2)) r e (rw e at h)
  | inr e ↦ absurd (none≢some (rw e at h))
]
row_here-IsRow off declared _ rest r h = ground arith

first_row-IsRow :
    (off : ℕ) (declared : Bool) (vs : List Value) (r : Row)
    → first_row off declared vs ≡ some r
    → IsRow r
unfolding first_row
first_row-IsRow off declared [] r h = ground arith
first_row-IsRow off declared (v ∷ vs) r h = elim (Option-cases (row_here off declared v vs)) [
  | inl e ↦ first_row-IsRow off declared vs r (ground (arith, e))
  | inr f ↦ row_here-IsRow off declared v vs r (ground (arith, f.1))
]

abbrev pub All : List Row → Type 0
All [] = Unit
All (r ∷ rs) = IsRow r × All rs

pub All-In : (rs : List Row) (r : Row) → All rs → In r rs → IsRow r
All-In [] r h q = elim q [ ]
All-In (x ∷ rs) r h (inl e) = rw (← e) h.0
All-In (x ∷ rs) r h (inr q) = All-In rs r h.1 q

pub All-add : (rs : List Row) (r : Row) → All rs → IsRow r → All (rs ++ (r ∷ []))
All-add [] r h k = (k, tt)
All-add (x ∷ rs) r h k = (h.0, All-add rs r h.1 k)

enter-All :
    (i : ℕ) (look : State → State) (s : State)
    → ((s' : State) → All s'.out → All (look s').out)
    → All s.out
    → All (enter i look s).out
unfolding enter
enter-All i look s keep h = elim (Bool-cases (is_seen i s.seen)) [
  | inl e ↦ ground (arith, e)
  | inr e ↦ ground (arith, keep (record s { seen = i ∷ s.seen }) h)
]

or_elements-All :
    (found : Option Row) (elements : State → State) (s : State)
    → ((r : Row) → found ≡ some r → IsRow r)
    → ((s' : State) → All s'.out → All (elements s').out)
    → All s.out
    → All (or_elements found elements s).out
unfolding or_elements
or_elements-All (some r) elements s row keep h = All-add s.out r h (row r refl)
or_elements-All none elements s row keep h = keep s h

module _ (off : ℕ) (declared : Bool) where
  mutual
    unfolding harvest

    pub harvest_all-All :
        (vs : Values) (depth : ℕ) (s : State)
        → All s.out
        → All (harvest_all off declared vs depth s).out
    harvest_all-All nil depth s h = h
    harvest_all-All (cons v vs) depth s h =
        harvest_all-All vs depth (harvest off declared v depth s) (harvest-All v depth s h)

    pub harvest-All :
        (v : Value) (depth : ℕ) (s : State) → All s.out → All (harvest off declared v depth s).out
    harvest-All (dict i vs) zero s h = h
    harvest-All (dict i vs) (suc depth) s h = enter-All i _ s (harvest_all-All vs depth) h
    harvest-All (seq i vs) zero s h = h
    harvest-All (seq i vs) (suc depth) s h =
        enter-All i _ s
          (λ s'.
            or_elements-All (first_row off declared (to_list vs)) _ s'
              (first_row-IsRow off declared (to_list vs)) (harvest_all-All vs depth))
          h
    harvest-All (text x) depth s h = h
    harvest-All (int x) depth s h = h
    harvest-All (bool x) depth s h = h
    harvest-All opaque depth s h = h

  -- Every row of a module-level value names a path-shaped target and a text that may be an anchor.
  pub harvest-IsRow :
      (v : Value) (r : Row) → In r (harvest off declared v max_levels empty).out → IsRow r
  harvest-IsRow v r q = All-In _ r (harvest-All v max_levels empty tt) q
