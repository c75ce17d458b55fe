-- ===== src/Prelude/Lists.antt =====
-- Lists of Booleans tests, texts used as sets, and positions, under the library's names.
use Prim.Native.Nat.{ℕ, zero, suc}
use Prim.Native.String.{String}
use mathlib.Core.Path.{◌≡◌, refl}
use mathlib.Core.Logic.{◌⊎◌, inl, inr}
use mathlib.Core.Bool.{Bool, true, false, not, ◌&&◌, ◌||◌}
use mathlib.Core.Option.{Option, none, some}
use mathlib.Core.List.{List, [], ◌∷◌, ◌++◌, map}
use native.Mathlib.Omega.{arith}
use text.Mathlib.Text.{◌==◌}
use Prim.Native.Nat.{Ordering}
use Prim.Native.String.{compare}
use text.Mathlib.TextEquality.{eq_iff, path_by_compare}
use talyvor_track.Prelude.Tests.{if◌then◌else◌, Bool-cases}

module _ {ℓ} {A : Type ℓ} where
  abbrev pub length : List A → ℕ
  length [] = 0
  length (x ∷ xs) = suc (length xs)

  abbrev pub get_elem? : List A → ℕ → Option A
  get_elem? [] i = none
  get_elem? (x ∷ xs) zero = some x
  get_elem? (x ∷ xs) (suc i) = get_elem? xs i

  -- `not xs`
  abbrev pub is_empty : List A → Bool
  is_empty [] = true
  is_empty (x ∷ xs) = false

  -- Python's `any(p(x) for x in xs)` and `[x for x in xs if p(x)]`.
  abbrev pub any : (A → Bool) → List A → Bool
  any p [] = false
  any p (x ∷ xs) = p x || any p xs

  abbrev pub keep : (A → Bool) → List A → List A
  keep p [] = []
  keep p (x ∷ xs) = let rest = keep p xs in if p x then x ∷ rest else rest

module _ {A : Type 0} where
  -- Membership with its witness kept, as a family by recursion.
  abbrev pub In : A → List A → Type 0
  In a [] = ⊥
  In a (x ∷ xs) = (x ≡ a) ⊎ In a xs

  pub In-append_left : (a : A) (xs ys : List A) → In a xs → In a (xs ++ ys)
  In-append_left a [] ys h = elim h [ ]
  In-append_left a (x ∷ xs) ys (inl e) = inl e
  In-append_left a (x ∷ xs) ys (inr h) = inr (In-append_left a xs ys h)

  pub In-append_right : (a : A) (xs ys : List A) → In a ys → In a (xs ++ ys)
  In-append_right a [] ys h = h
  In-append_right a (x ∷ xs) ys h = inr (In-append_right a xs ys h)

  pub In-append : (a : A) (xs ys : List A) → In a (xs ++ ys) → In a xs ⊎ In a ys
  In-append a [] ys h = inr h
  In-append a (x ∷ xs) ys (inl e) = inl (inl e)
  In-append a (x ∷ xs) ys (inr h) = elim (In-append a xs ys h) [
    | inl l ↦ inl (inr l)
    | inr r ↦ inr r
  ]

module _ {A : Type 0} (p : A → Bool) where
  pub any-eq-true : (xs : List A) → any p xs ≡ true → (a : A) × In a xs × (p a ≡ true)
  any-eq-true [] h = ground arith
  any-eq-true (x ∷ xs) h = elim (Bool-cases (p x)) [
    | inl e ↦ (x, inl refl, e)
    | inr e ↦ let (a, q, w) = any-eq-true xs (ground arith) in (a, inr q, w)
  ]

  pub any_of_In : (xs : List A) (a : A) → In a xs → p a ≡ true → any p xs ≡ true
  any_of_In [] a h e = elim h [ ]
  any_of_In (x ∷ xs) a (inl q) e = ground arith
  any_of_In (x ∷ xs) a (inr q) e = ground (arith, any_of_In xs a q e)

  pub In-keep : (xs : List A) (a : A) → In a xs → p a ≡ true → In a (keep p xs)
  In-keep [] a h e = elim h [ ]
  In-keep (x ∷ xs) a (inl q) e = ground arith
  In-keep (x ∷ xs) a (inr q) e = ground (arith, In-keep xs a q e)

  pub keep-In : (xs : List A) (a : A) → In a (keep p xs) → In a xs × (p a ≡ true)
  keep-In [] a h = elim h [ ]
  keep-In (x ∷ xs) a h = elim (Bool-cases (p x)) [
    | inl e ↦ elim (rw e at h) [
      | inl q ↦ (inl q, rw (← q) e)
      | inr q ↦ let (r, w) = keep-In xs a q in (inr r, w)
    ]
    | inr e ↦ let (r, w) = keep-In xs a (rw e at h) in (inr r, w)
  ]

  pub keep-nil : (xs : List A) → keep p xs ≡ [] → (a : A) → In a xs → p a ≡ false
  keep-nil [] h a q = elim q [ ]
  keep-nil (x ∷ xs) h a (inl q) = ground arith
  keep-nil (x ∷ xs) h a (inr q) = keep-nil xs (ground arith) a q

  pub keep-eq-nil : (xs : List A) → ((a : A) → In a xs → p a ≡ false) → keep p xs ≡ []
  keep-eq-nil [] h = refl
  keep-eq-nil (x ∷ xs) h = ground (arith, h x (inl refl), keep-eq-nil xs (λ a q. h a (inr q)))

-- A Python set of texts: the order and the repetitions of the list are never observed.
abbrev pub contains : List String → String → Bool
contains [] k = false
contains (j ∷ js) k = j == k || contains js k

-- A set keeps its texts in ascending order, as `sorted` reads them.
unfoldable pub insert : String → List String → List String
insert k [] = k ∷ []
insert k (j ∷ js) = elim (compare j k) [
  | Ordering.lt ↦ j ∷ insert k js
  | Ordering.eq ↦ j ∷ js
  | Ordering.gt ↦ k ∷ j ∷ js
]

-- `sorted(set(names))`
unfoldable pub sorted : List String → List String
unfolding insert
sorted [] = []
sorted (j ∷ js) = insert j (sorted js)

pub In-of_contains : (js : List String) (k : String) → contains js k ≡ true → In k js
In-of_contains [] k h = ground arith
In-of_contains (j ∷ js) k h = elim (Bool-cases (j == k)) [
  | inl e ↦ inl ((eq_iff j k).0 e)
  | inr e ↦ inr (In-of_contains js k (ground arith))
]

pub contains_of_In : (js : List String) (k : String) → In k js → contains js k ≡ true
contains_of_In [] k h = elim h [ ]
contains_of_In (j ∷ js) k (inl e) = ground (arith, eq_iff j k)
contains_of_In (j ∷ js) k (inr q) = ground (arith, contains_of_In js k q)

pub contains-insert :
    (k : String) (js : List String) (a : String)
    → contains (insert k js) a ≡ (k == a || contains js a)
unfolding insert
contains-insert k [] a = refl
contains-insert k (j ∷ js) a = ground (arith, contains-insert k js a, path_by_compare j k)

pub contains-sorted : (js : List String) (a : String) → contains (sorted js) a ≡ contains js a
unfolding sorted
contains-sorted [] a = refl
contains-sorted (j ∷ js) a = rw (contains-insert, contains-sorted js a)

-- `xs - ys` on sets of texts.
abbrev pub minus : List String → List String → List String
minus xs ys = keep (λ k. not (contains ys k)) xs

-- `xs & ys` on sets of texts.
abbrev pub meet : List String → List String → List String
meet xs ys = keep (λ k. contains ys k) xs

pub contains-keep :
    (p : String → Bool) (xs : List String) (k : String)
    → contains (keep p xs) k ≡ (contains xs k && p k)
contains-keep p [] k = refl
contains-keep p (x ∷ xs) k = elim (Bool-cases (x == k)) [
  | inl e ↦ rw ((eq_iff x k).0 e) (ground (arith, contains-keep p xs k, eq_iff k k))
  | inr e ↦ ground (arith, contains-keep p xs k)
]

pub nil_of_none : (xs : List String) → ((k : String) → contains xs k ≡ false) → xs ≡ []
nil_of_none [] h = refl
nil_of_none (x ∷ xs) h = ground (arith, h x, eq_iff x x)

module _ {A : Type 0} (f : String → A) (xs : List String) where
  -- One entry for each text of a set: none exactly if the set is empty.
  pub none_of_map-sorted : map f (sorted xs) ≡ [] → (k : String) → contains xs k ≡ false
  none_of_map-sorted h k = rw (← contains-sorted xs k) (rw (nil_of_map (sorted xs) h))
    where
      nil_of_map : (ys : List String) → map f ys ≡ [] → ys ≡ []
      nil_of_map [] q = refl
      nil_of_map (y ∷ ys) q = cc

  pub map-sorted_of_none : ((k : String) → contains xs k ≡ false) → map f (sorted xs) ≡ []
  map-sorted_of_none h = rw (nil_of_none (sorted xs) (λ k. rw contains-sorted (h k)))

pub append-eq-nil : {A : Type 0} (xs ys : List A) → xs ++ ys ≡ [] → (xs ≡ []) × (ys ≡ [])
append-eq-nil [] ys h = (refl, h)
append-eq-nil (x ∷ xs) ys h = absurd (cc)

module _ {A : Type 0} (before : A → A → Bool) where
  -- `sorted(xs, key=…)`, given the test of the keys' order.
  unfoldable pub insert_by : A → List A → List A
  insert_by x [] = x ∷ []
  insert_by x (y ∷ ys) = let rest = insert_by x ys in if before y x then y ∷ rest else x ∷ y ∷ ys

  unfoldable pub sort_by : List A → List A
  unfolding insert_by
  sort_by [] = []
  sort_by (x ∷ xs) = insert_by x (sort_by xs)

  In-insert_by : (a x : A) (ys : List A) → (x ≡ a) ⊎ In a ys → In a (insert_by x ys)
  unfolding insert_by
  In-insert_by a x [] h = h
  In-insert_by a x (y ∷ ys) h = elim (Bool-cases (before y x)) [
    | inl e ↦
        rw (e, insert_by)
          (elim h [
            | inl q ↦ inr (In-insert_by a x ys (inl q))
            | inr q ↦ elim q [ inl r ↦ inl r | inr r ↦ inr (In-insert_by a x ys (inr r)) ]
          ])
    | inr e ↦ rw (e, insert_by) h
  ]

  insert_by-In : (a x : A) (ys : List A) → In a (insert_by x ys) → (x ≡ a) ⊎ In a ys
  unfolding insert_by
  insert_by-In a x [] h = h
  insert_by-In a x (y ∷ ys) h = elim (Bool-cases (before y x)) [
    | inl e ↦ elim (rw (e, insert_by) at h) [
      | inl q ↦ inr (inl q)
      | inr q ↦ elim (insert_by-In a x ys q) [ inl r ↦ inl r | inr r ↦ inr (inr r) ]
    ]
    | inr e ↦ rw (e, insert_by) at h
  ]

  -- Sorting keeps the elements.
  pub In-sort_by : (a : A) (xs : List A) → In a xs → In a (sort_by xs)
  unfolding sort_by
  In-sort_by a [] h = h
  In-sort_by a (x ∷ xs) (inl e) = In-insert_by a x (sort_by xs) (inl e)
  In-sort_by a (x ∷ xs) (inr q) = In-insert_by a x (sort_by xs) (inr (In-sort_by a xs q))

  pub sort_by-In : (a : A) (xs : List A) → In a (sort_by xs) → In a xs
  unfolding sort_by
  sort_by-In a [] h = h
  sort_by-In a (x ∷ xs) h = elim (insert_by-In a x (sort_by xs) h) [
    | inl e ↦ inl e
    | inr q ↦ inr (sort_by-In a xs q)
  ]

-- A list without elements.
pub nil_of_no_In : {A : Type 0} (xs : List A) → ((a : A) → In a xs → ⊥) → xs ≡ []
nil_of_no_In [] h = refl
nil_of_no_In (x ∷ xs) h = absurd (h x (inl refl))

pub map-nil : {A B : Type 0} (f : A → B) (xs : List A) → map f xs ≡ [] → xs ≡ []
map-nil f [] h = refl
map-nil f (x ∷ xs) h = absurd (cc)
