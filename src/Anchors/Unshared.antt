-- ===== src/Anchors/Unshared.antt =====
-- `harvest` against a walk that keeps no state: in a value that shares no container they agree.
use mathlib.Core.List.{append-nil, append_assoc}
use talyvor_track.Prelude.{
  ℕ, zero, suc, ◌≡◌, refl, sym, ◌∙◌, ◌⊎◌, inl, inr, Bool, true, false, Option, none, some, List, [],
  ◌∷◌, ◌++◌, arith, In, In-append_left, In-append_right, ==_iff, ◌==◌, Bool-cases,
}
use talyvor_track.Anchors.Harvest.{
  Value, text, int, bool, seq, dict, opaque, Values, nil, cons, to_list, Row, first_row, State,
  is_seen, enter, or_elements, harvest, harvest_all, empty, max_levels,
}

unfoldable mutual
  -- The containers of a value, by their ids.
  pub ids : Value → List ℕ
  ids (seq i vs) = i ∷ ids_all vs
  ids (dict i vs) = i ∷ ids_all vs
  ids v = []

  pub ids_all : Values → List ℕ
  ids_all nil = []
  ids_all (cons v vs) = ids v ++ ids_all vs

abbrev Apart : List ℕ → List ℕ → Type 0
Apart xs ys = (i : ℕ) → In i xs → In i ys → ⊥

-- No container stands at two places of the value.
unfoldable mutual
  pub IsUnshared : Value → Type 0
  IsUnshared (seq i vs) = Apart (i ∷ []) (ids_all vs) × AreUnshared vs
  IsUnshared (dict i vs) = Apart (i ∷ []) (ids_all vs) × AreUnshared vs
  IsUnshared v = Unit

  pub AreUnshared : Values → Type 0
  AreUnshared nil = Unit
  AreUnshared (cons v vs) = IsUnshared v × AreUnshared vs × Apart (ids v) (ids_all vs)

abbrev row_or : Option Row → List Row → List Row
row_or (some r) elements = r ∷ []
row_or none elements = elements

module _ (off : ℕ) (declared : Bool) where
  -- The outermost rows down to a depth: below a row nothing more is looked for.
  unfoldable mutual
    pub rows : Value → ℕ → List Row
    rows (dict i vs) (suc depth) = rows_all vs depth
    rows (seq i vs) (suc depth) = row_or (first_row off declared (to_list vs)) (rows_all vs depth)
    rows v depth = []

    pub rows_all : Values → ℕ → List Row
    rows_all nil depth = []
    rows_all (cons v vs) depth = rows v depth ++ rows_all vs depth

abbrev Unseen : List ℕ → State → Type 0
Unseen xs s = (i : ℕ) → In i xs → is_seen i s.seen ≡ false

-- What a step adds: these rows, and no container but these.
record Adds (xs : List ℕ) (rs : List Row) (s t : State) : Type 0 where
  rows_added : t.out ≡ s.out ++ rs
  only : (i : ℕ) → is_seen i t.seen ≡ true → (is_seen i s.seen ≡ true) ⊎ In i xs

Adds-nothing : (xs : List ℕ) (s : State) → Adds xs [] s s
Adds-nothing xs s = record { rows_added = sym (append-nil s.out); only = λ i h. inl h }

Adds-append :
    (xs ys : List ℕ) (rs qs : List Row) (s t u : State)
    → Adds xs rs s t
    → Adds ys qs t u
    → Adds (xs ++ ys) (rs ++ qs) s u
Adds-append xs ys rs qs s t u a b = record {
  rows_added = b.rows_added ∙ (rw a.rows_added (append_assoc s.out rs qs));
  only = λ i h. elim (b.only i h) [
    | inl g ↦ elim (a.only i g) [ inl f ↦ inl f | inr f ↦ inr (In-append_left i xs ys f) ]
    | inr g ↦ inr (In-append_right i xs ys g)
  ];
}

enter-Adds :
    (i : ℕ) (xs : List ℕ) (rs : List Row) (look : State → State) (s : State)
    → is_seen i s.seen ≡ false
    → Adds xs rs (record s { seen = i ∷ s.seen }) (look (record s { seen = i ∷ s.seen }))
    → Adds (i ∷ xs) rs s (enter i look s)
unfolding enter
enter-Adds i xs rs look s new a =
    rw (new, enter)
      (record {
        rows_added = a.rows_added;
        only = λ j h. elim (a.only j h) [
          | inl g ↦ elim (Bool-cases (j == i)) [
            | inl e ↦ inr (inl (sym ((==_iff j i).0 e)))
            | inr e ↦ inl (ground (arith, e))
          ]
          | inr g ↦ inr (inr g)
        ];
      })

or_elements-Adds :
    (found : Option Row) (xs : List ℕ) (rs : List Row) (elements : State → State) (s : State)
    → Adds xs rs s (elements s)
    → Adds xs (row_or found rs) s (or_elements found elements s)
unfolding or_elements
or_elements-Adds (some r) xs rs elements s a = record { rows_added = refl; only = λ i h. inl h }
or_elements-Adds none xs rs elements s a = a

-- Marking `i` hides no container that differs from it.
Unseen-mark :
    (i : ℕ) (xs : List ℕ) (s : State)
    → Apart (i ∷ []) xs
    → Unseen (i ∷ xs) s
    → Unseen xs (record s { seen = i ∷ s.seen })
Unseen-mark i xs s apart new j q = elim (Bool-cases (j == i)) [
  | inl e ↦ absurd (apart j (inl (sym ((==_iff j i).0 e))) q)
  | inr e ↦ ground (arith, e, new j (inr q))
]

Unseen-after :
    (xs ys : List ℕ) (rs : List Row) (s t : State)
    → Apart xs ys
    → Unseen (xs ++ ys) s
    → Adds xs rs s t
    → Unseen ys t
Unseen-after xs ys rs s t apart new a i q = elim (Bool-cases (is_seen i t.seen)) [
  | inl e ↦ elim (a.only i e) [
    | inl f ↦ absurd (cc (f, new i (In-append_right i xs ys q)))
    | inr f ↦ absurd (apart i f q)
  ]
  | inr e ↦ e
]

module _ (off : ℕ) (declared : Bool) where
  mutual
    unfolding harvest rows ids IsUnshared

    harvest_all-Adds :
        (vs : Values) (depth : ℕ) (s : State)
        → AreUnshared vs
        → Unseen (ids_all vs) s
        → Adds (ids_all vs) (rows_all off declared vs depth) s (harvest_all off declared vs depth s)
    harvest_all-Adds nil depth s u new = Adds-nothing [] s
    harvest_all-Adds (cons v vs) depth s u new =
        let first =
          harvest-Adds v depth s u.0 (λ i q. new i (In-append_left i (ids v) (ids_all vs) q)) in
        Adds-append (ids v) (ids_all vs) (rows off declared v depth)
          (rows_all off declared vs depth) s (harvest off declared v depth s)
          (harvest_all off declared (cons v vs) depth s) first
          (harvest_all-Adds vs depth (harvest off declared v depth s) u.1 (
            Unseen-after (ids v) (ids_all vs) (rows off declared v depth) s
              (harvest off declared v depth s) u.2 new first))

    harvest-Adds :
        (v : Value) (depth : ℕ) (s : State)
        → IsUnshared v
        → Unseen (ids v) s
        → Adds (ids v) (rows off declared v depth) s (harvest off declared v depth s)
    harvest-Adds (dict i vs) zero s u new = Adds-nothing (i ∷ ids_all vs) s
    harvest-Adds (dict i vs) (suc depth) s u new =
        enter-Adds i (ids_all vs) (rows_all off declared vs depth) _ s (new i (inl refl)) (
          harvest_all-Adds vs depth (record s { seen = i ∷ s.seen }) u.1
            (Unseen-mark i (ids_all vs) s u.0 new))
    harvest-Adds (seq i vs) zero s u new = Adds-nothing (i ∷ ids_all vs) s
    harvest-Adds (seq i vs) (suc depth) s u new =
        enter-Adds i (ids_all vs) (rows off declared (seq i vs) (suc depth)) _ s (new i (inl refl))
          (or_elements-Adds (first_row off declared (to_list vs)) (ids_all vs)
            (rows_all off declared vs depth) _ (record s { seen = i ∷ s.seen })
            (harvest_all-Adds vs depth (record s { seen = i ∷ s.seen }) u.1
              (Unseen-mark i (ids_all vs) s u.0 new)))
    harvest-Adds (text x) depth s u new = Adds-nothing [] s
    harvest-Adds (int x) depth s u new = Adds-nothing [] s
    harvest-Adds (bool x) depth s u new = Adds-nothing [] s
    harvest-Adds opaque depth s u new = Adds-nothing [] s

  -- In a value that shares no container, `harvest` finds exactly the outermost rows of the first
  -- nine levels, in order.
  pub harvest-eq-rows :
      (v : Value)
      → IsUnshared v
      → (harvest off declared v max_levels empty).out ≡ rows off declared v 9
  harvest-eq-rows v u = (harvest-Adds v max_levels empty u (λ i q. refl)).rows_added
