-- ===== src/Anchors/Accounted.antt =====
-- When the census is green, and what a green run says of the tables.
use talyvor_track.Prelude.{
  String, ◌≤◌, ◌≡◌, refl, ◌↔◌, inl, inr, Bool, true, false, not, ◌||◌, some, List, [], ◌∷◌, map,
  arith, keep, In, sort_by, In-sort_by, sort_by-In, In-keep, keep-In, map-nil, append-eq-nil,
  length, Bool-cases, Option-cases, keep-nil, keep-eq-nil,
}
use Prim.Native.Nat.{Ordering}
use Prim.Native.String.{compare}
use mathlib.Core.Path.{subst}
use talyvor_track.Ast.{Node, Source}
use talyvor_track.Anchors.Tables.{Key}
use talyvor_track.Anchors.Bare.{World, Finding}
use talyvor_track.Anchors.Census.{Tally, Run, census}
use talyvor_track.Anchors.Rules.{
  Accounts, is_ok, key_of, has_key, keys_of, keyed, key_before, scripts_of, unaccounted_rows, r1,
  r2, r2_entry, appears, yields, floors, failures, non_anchor_vanished, schema_yields_nothing,
  scope_vanished, main,
}

-- What the census promises of the repository that it accepts.
pub record IsSound (x : Accounts) (t : Tally) : Type 0 where
  -- every anchor that cannot be applied is accounted for
  pub accounted :
      (r : Finding)
      → In r t.results
      → is_ok r ≡ false
      → (has_key (key_of r) x.not_anchors || has_key (key_of r) (keys_of x.known_dead)) ≡ true
  -- the known-dead list only shrinks: each entry is still there, and still dead
  pub still_dead :
      (k : Key) (why : String)
      → In (k, why) x.known_dead
      → (r : Finding) × (keyed t.results k ≡ some r) × (is_ok r ≡ false)
  pub non_anchors_current : (k : Key) → In k x.not_anchors → appears t.results k ≡ true
  pub schemas_current :
      (s : String) → In s (map (λ e. e.0) x.row_schema) → yields t.results s ≡ true
  pub scopes_current : (k : Key) → In k (keys_of x.scoped) → appears t.results k ≡ true
  pub enough_scripts : x.scripts_floor ≤ length (scripts_of t.results)
  pub enough_anchors : x.anchors_floor ≤ length t.results
  pub enough_bare_scripts : x.bare_scripts_floor ≤ t.bare_scripts
  pub enough_bare_anchors : x.bare_anchors_floor ≤ t.bare_anchors

-- One failure for each entry that fails a test: none exactly if all pass it.
module _ {A B : Type 0} (f : A → B) (before : A → A → Bool) (passes : A → Bool) where
  all_pass :
      (xs : List A)
      → map f (sort_by before (keep (λ a. not (passes a)) xs)) ≡ []
      → (a : A) → In a xs
      → passes a ≡ true
  all_pass xs h a q = elim (Bool-cases (passes a)) [
    | inl e ↦ e
    | inr e ↦ absurd (
        nothing_left (
          In-sort_by before a (keep (λ b. not (passes b)) xs)
            (In-keep (λ b. not (passes b)) xs a q (rw e refl))))
  ]
    where
      nothing_left : In a (sort_by before (keep (λ b. not (passes b)) xs)) → ⊥
      nothing_left r = elim (subst (In a) (map-nil f _ h) r) [ ]

  silent_if_all_pass :
      (xs : List A)
      → ((a : A) → In a xs → passes a ≡ true)
      → map f (sort_by before (keep (λ a. not (passes a)) xs)) ≡ []
  unfolding sort_by
  silent_if_all_pass xs h = rw (keep-eq-nil (λ a. not (passes a)) xs (λ a q. rw (h a q) refl))

r1-nil : (rs : List Finding) → r1 rs ≡ [] → rs ≡ []
r1-nil [] h = refl
r1-nil (r ∷ rs) h = absurd (cc)

r2_entry-nil :
    (results : List Finding) (k : Key) (why : String)
    → (r2_entry results k why ≡ [])
      ↔ ((r : Finding) × (keyed results k ≡ some r) × (is_ok r ≡ false))
unfolding r2_entry
r2_entry-nil results k why = (to, λ (r, e, dead). rw (e, r2_entry) (rw dead))
  where
    to :
        r2_entry results k why ≡ [] → (r : Finding) × (keyed results k ≡ some r) × (is_ok r ≡ false)
    to h = elim (Option-cases (keyed results k)) [
      | inl e ↦ absurd (cc (rw (e, r2_entry) at h))
      | inr found ↦ (found.0, found.1, ground (arith, found.1))
    ]

r2-nil :
    (results : List Finding) (dead : List (Key × String))
    → r2 results dead ≡ []
    → (k : Key) (why : String) → In (k, why) dead
    → r2_entry results k why ≡ []
unfolding r2
r2-nil results [] h k why q = elim q [ ]
r2-nil results ((j, w) ∷ dead) h k why (inl e) =
    subst (λ (d : Key × String). r2_entry results d.0 d.1 ≡ []) e
      (append-eq-nil (r2_entry results j w) (r2 results dead) h).0
r2-nil results ((j, w) ∷ dead) h k why (inr q) =
    r2-nil results dead (append-eq-nil (r2_entry results j w) (r2 results dead) h).1 k why q

nil-r2 :
    (results : List Finding) (dead : List (Key × String))
    → ((k : Key) (why : String) → In (k, why) dead → r2_entry results k why ≡ [])
    → r2 results dead ≡ []
unfolding r2
nil-r2 results [] h = refl
nil-r2 results ((j, w) ∷ dead) h =
    rw (h j w (inl refl)) (nil-r2 results dead (λ k why q. h k why (inr q)))

module _ (x : Accounts) where
  accounted_rows :
      (results : List Finding)
      → unaccounted_rows x results ≡ []
      → (r : Finding) → In r results
      → is_ok r ≡ false
      → (has_key (key_of r) x.not_anchors || has_key (key_of r) (keys_of x.known_dead)) ≡ true
  unfolding unaccounted_rows
  accounted_rows results h r q e =
      let out =
        keep-nil _ (keep (λ a. not (is_ok a)) results) h r
          (In-keep (λ a. not (is_ok a)) results r q (rw e refl)) in
      ground (arith, out)

  rows_accounted :
      (results : List Finding)
      → ((r : Finding)
          → In r results
          → is_ok r ≡ false
          → (has_key (key_of r) x.not_anchors || has_key (key_of r) (keys_of x.known_dead)) ≡ true)
      → unaccounted_rows x results ≡ []
  unfolding unaccounted_rows
  rows_accounted results h = keep-eq-nil _ (keep (λ a. not (is_ok a)) results) (λ r q.
      let (inside, bad) = keep-In (λ a. not (is_ok a)) results r q in
      ground (arith, h r inside (ground arith)))

  floors-nil :
      (t : Tally)
      → (floors x t ≡ []) ↔ (
          (x.scripts_floor ≤ length (scripts_of t.results))
          × (x.anchors_floor ≤ length t.results)
          × (x.bare_scripts_floor ≤ t.bare_scripts)
          × (x.bare_anchors_floor ≤ t.bare_anchors))
  unfolding floors
  floors-nil t = (λ h. (ground arith, ground arith, ground arith, ground arith), λ h. ground arith)

module _ (x : Accounts) (t : Tally) where
  IsSound-of_silent : failures x t ≡ [] → IsSound x t
  unfolding failures
  IsSound-of_silent h =
      let (e1, h1) = append-eq-nil (r1 (unaccounted_rows x t.results)) _ h in
      let (e2, h2) =
        append-eq-nil (r2 t.results (sort_by (λ a b. key_before a.0 b.0) x.known_dead)) _ h1 in
      let (e3, h3) = append-eq-nil _ _ h2 in
      let (e8, h8) = append-eq-nil _ _ h3 in
      let (e9, h9) = append-eq-nil _ _ h8 in
      let (f1, f2, f3, f4) = (floors-nil x t).0 h9 in
      record {
        accounted = accounted_rows x t.results (r1-nil _ e1);
        still_dead = λ k why q. (r2_entry-nil t.results k why).0 (
            r2-nil t.results (sort_by (λ a b. key_before a.0 b.0) x.known_dead) e2 k why
              (In-sort_by _ (k, why) x.known_dead q));
        non_anchors_current =
            all_pass non_anchor_vanished key_before (appears t.results) x.not_anchors e3;
        schemas_current =
            all_pass schema_yields_nothing _ (yields t.results) (map (λ e. e.0) x.row_schema) e8;
        scopes_current =
            all_pass scope_vanished key_before (appears t.results) (keys_of x.scoped) e9;
        enough_scripts = f1;
        enough_anchors = f2;
        enough_bare_scripts = f3;
        enough_bare_anchors = f4;
      }

  silent_of_sound : IsSound x t → failures x t ≡ []
  unfolding failures
  silent_of_sound g = simp (
    rows_accounted x t.results g.accounted,
    nil-r2 t.results (sort_by (λ a b. key_before a.0 b.0) x.known_dead) (λ k why q.
        (r2_entry-nil t.results k why).1
          (g.still_dead k why (sort_by-In _ (k, why) x.known_dead q))),
    silent_if_all_pass non_anchor_vanished key_before (appears t.results) x.not_anchors
        g.non_anchors_current,
    silent_if_all_pass schema_yields_nothing
        (λ a b. elim (compare a b) [ Ordering.lt ↦ true | _ ↦ false ]) (yields t.results)
        (map (λ e. e.0) x.row_schema) g.schemas_current,
    silent_if_all_pass scope_vanished key_before (appears t.results) (keys_of x.scoped)
        g.scopes_current,
    (floors-nil x t).1
        (g.enough_scripts, g.enough_anchors, g.enough_bare_scripts, g.enough_bare_anchors),
  )

-- With `--ci` the census exits with 0 exactly when every anchor that cannot be applied is accounted
-- for, every entry of KNOWN_DEAD is still found and still dead, the entries of the other three
-- tables are still found, and all four floors are reached.
pub main-IsSound :
    (x : Accounts) (w : World) (self : String) (exec : String → List Node → Run)
    (dir : List (String × Source))
    → ((main x w self exec true dir).status ≡ 0) ↔ IsSound x (census w x.schemas self exec dir).0
unfolding main
main-IsSound x w self exec dir = (
  λ h. IsSound-of_silent x (census w x.schemas self exec dir).0 (ground arith),
  λ g. ground (arith, silent_of_sound x (census w x.schemas self exec dir).0 g),
)
