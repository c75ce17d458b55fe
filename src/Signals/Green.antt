-- ===== src/Signals/Green.antt =====
-- When the guard is green, and what a green run says of the lists.
use talyvor_track.Prelude.{
  String, ◌≤◌, ◌≡◌, refl, ap, ◌↔◌, inl, inr, true, false, not, ◌&&◌, List, [], ◌∷◌, arith, In,
  contains, contains-keep, none_of_map-sorted, map-sorted_of_none, nil_of_none, append-eq-nil,
  length, minus, meet,
}
use talyvor_track.Signals.Exemptions.{Exemptions}
use talyvor_track.Signals.Rules.{
  Populations, strands_on_signal, strands_on_exception, now_protected, now_in_finally,
  stale_unprotected, stale_happy_path, stale_not_mutator, no_reason, keys, is_blank, unexplained,
  unaccounted, only_happy, floors, failures, main, Directory, nothing, scan,
}

-- What the guard promises of the tree that it accepts.
pub record IsGreen (x : Exemptions) (p : Populations) : Type 0 where
  -- the loop collected no error
  pub all_parsed : p.errors ≡ []
  -- neither detector has stopped to recognise its shape
  pub narrow_enough : x.narrow_floor ≤ length p.narrow
  pub wide_enough : x.wide_floor ≤ length p.wide
  -- UNPROTECTED is the set of restoring scripts without a handler, no more and no less
  pub unprotected_exact :
      (k : String)
      → contains x.unprotected k ≡ (contains p.narrow k && not (contains p.protected k))
  pub happy_path_listed :
      (k : String)
      → (contains p.wide k && not (contains p.narrow k) && not (contains (keys x.not_mutators) k))
        ≡ true
      → contains x.happy_path_only k ≡ true
  pub happy_path_current :
      (k : String)
      → contains x.happy_path_only k ≡ true
      → (contains p.wide k && not (contains p.narrow k)) ≡ true
  pub not_mutators_current :
      (k : String) → contains (keys x.not_mutators) k ≡ true → contains p.wide k ≡ true
  pub explained : (k why : String) → In (k, why) x.not_mutators → is_blank why ≡ false

unexplained-none :
    (d : List (String × String)) (k why : String)
    → unexplained d ≡ []
    → In (k, why) d
    → is_blank why ≡ false
unfolding unexplained
unexplained-none [] k why h q = elim q [ ]
unexplained-none ((j, v) ∷ d) k why h (inl e) =
    rw (← ap (λ (r : String × String). r.1) e) (ground arith)
unexplained-none ((j, v) ∷ d) k why h (inr q) = unexplained-none d k why (ground arith) q

none-unexplained :
    (d : List (String × String))
    → ((k why : String) → In (k, why) d → is_blank why ≡ false)
    → unexplained d ≡ []
unfolding unexplained
none-unexplained [] h = refl
none-unexplained ((j, v) ∷ d) h =
    ground (arith, h j v (inl refl), none-unexplained d (λ k why q. h k why (inr q)))

floors-nil :
    (x : Exemptions) (p : Populations)
    → (floors x p ≡ []) ↔ ((x.narrow_floor ≤ length p.narrow) × (x.wide_floor ≤ length p.wide))
unfolding floors
floors-nil x p = (λ h. (ground arith, ground arith), λ r. ground arith)

module _ (x : Exemptions) (p : Populations) where
  -- The rules R1, R2 and R4 together pin the list: it is the difference of the two populations.
  pinned :
      ((k : String) → contains (unaccounted x p) k ≡ false)
      → ((k : String) → contains (meet x.unprotected p.protected) k ≡ false)
      → ((k : String) → contains (minus x.unprotected p.narrow) k ≡ false)
      → (k : String)
      → contains x.unprotected k ≡ (contains p.narrow k && not (contains p.protected k))
  pinned r1 r2 r4 k = ground (
    arith,
    r1 k,
    r2 k,
    r4 k,
    contains-keep (λ j. not (contains x.unprotected j)) (minus p.narrow p.protected) k,
    contains-keep (λ j. not (contains p.protected j)) p.narrow k,
    contains-keep (λ j. contains p.protected j) x.unprotected k,
    contains-keep (λ j. not (contains p.narrow j)) x.unprotected k,
  )

  contains-only_happy :
      (k : String)
      → contains (only_happy x p) k ≡ (
          contains p.wide k
          && not (contains p.narrow k)
          && not (contains (keys x.not_mutators) k)
          && not (contains x.happy_path_only k))
  contains-only_happy k = ground (
    arith,
    contains-keep (λ j. not (contains x.happy_path_only j))
        (minus (minus p.wide p.narrow) (keys x.not_mutators)) k,
    contains-keep (λ j. not (contains (keys x.not_mutators) j)) (minus p.wide p.narrow) k,
    contains-keep (λ j. not (contains p.narrow j)) p.wide k,
  )

  IsGreen-of_silent : failures x p ≡ [] → IsGreen x p
  unfolding failures
  IsGreen-of_silent h =
      let (e0, h1) = append-eq-nil _ _ h in
      let (e1, h2) = append-eq-nil _ _ h1 in
      let (e2, h3) = append-eq-nil _ _ h2 in
      let (e3, h4) = append-eq-nil _ _ h3 in
      let (e4, h5) = append-eq-nil _ _ h4 in
      let (e5, h6) = append-eq-nil _ _ h5 in
      let (e6, h7) = append-eq-nil _ _ h6 in
      let (e7, h8) = append-eq-nil _ _ h7 in
      let (e8, e9) = append-eq-nil _ _ h8 in
      let r6 = none_of_map-sorted strands_on_exception (only_happy x p) e3 in
      let r2b = none_of_map-sorted now_in_finally (meet x.happy_path_only p.narrow) e5 in
      let r4b = none_of_map-sorted stale_happy_path (minus x.happy_path_only p.wide) e7 in
      let r4c = none_of_map-sorted stale_not_mutator (minus (keys x.not_mutators) p.wide) e8 in
      record {
        all_parsed = e0;
        narrow_enough = ((floors-nil x p).0 e1).0;
        wide_enough = ((floors-nil x p).0 e1).1;
        unprotected_exact =
            pinned (none_of_map-sorted strands_on_signal (unaccounted x p) e2)
              (none_of_map-sorted now_protected (meet x.unprotected p.protected) e4)
              (none_of_map-sorted stale_unprotected (minus x.unprotected p.narrow) e6);
        happy_path_listed = λ k q. ground (arith, r6 k, contains-only_happy k);
        happy_path_current = λ k q. ground (
          arith,
          r2b k,
          r4b k,
          contains-keep (λ j. contains p.narrow j) x.happy_path_only k,
          contains-keep (λ j. not (contains p.wide j)) x.happy_path_only k,
        );
        not_mutators_current = λ k q.
            ground
              (arith, r4c k, contains-keep (λ j. not (contains p.wide j)) (keys x.not_mutators) k);
        explained = λ k why q.
            unexplained-none x.not_mutators k why
              (nil_of_none _ (none_of_map-sorted no_reason (unexplained x.not_mutators) e9)) q;
      }

  silent_of_green : IsGreen x p → failures x p ≡ []
  unfolding failures
  silent_of_green g = simp (
    g.all_parsed,
    (floors-nil x p).1 (g.narrow_enough, g.wide_enough),
    map-sorted_of_none strands_on_signal (unaccounted x p) (λ k. ground (
      arith,
      g.unprotected_exact k,
      contains-keep (λ j. not (contains x.unprotected j)) (minus p.narrow p.protected) k,
      contains-keep (λ j. not (contains p.protected j)) p.narrow k,
    )),
    map-sorted_of_none strands_on_exception (only_happy x p)
        (λ k. ground (arith, g.happy_path_listed k, contains-only_happy k)),
    map-sorted_of_none now_protected (meet x.unprotected p.protected) (λ k. ground (
      arith,
      g.unprotected_exact k,
      contains-keep (λ j. contains p.protected j) x.unprotected k,
    )),
    map-sorted_of_none now_in_finally (meet x.happy_path_only p.narrow) (λ k. ground (
      arith,
      g.happy_path_current k,
      contains-keep (λ j. contains p.narrow j) x.happy_path_only k,
    )),
    map-sorted_of_none stale_unprotected (minus x.unprotected p.narrow) (λ k. ground (
      arith,
      g.unprotected_exact k,
      contains-keep (λ j. not (contains p.narrow j)) x.unprotected k,
    )),
    map-sorted_of_none stale_happy_path (minus x.happy_path_only p.wide) (λ k. ground (
      arith,
      g.happy_path_current k,
      contains-keep (λ j. not (contains p.wide j)) x.happy_path_only k,
    )),
    map-sorted_of_none stale_not_mutator (minus (keys x.not_mutators) p.wide) (λ k. ground (
      arith,
      g.not_mutators_current k,
      contains-keep (λ j. not (contains p.wide j)) (keys x.not_mutators) k,
    )),
    map-sorted_of_none no_reason (unexplained x.not_mutators)
        (λ k. rw (none-unexplained x.not_mutators g.explained)),
  )

-- The guard exits with 0 exactly when the loop collected no error, both detectors reach their floors,
-- UNPROTECTED is exactly the set of restoring scripts without a handler, the other two lists hold
-- no stale entry and leave no read-and-write script unaccounted for, and each exemption has a reason.
pub main-IsGreen :
    (x : Exemptions) (dir : Directory) → ((main x dir).status ≡ 0) ↔ IsGreen x (scan dir nothing)
unfolding main
main-IsGreen x dir = (
  λ h. IsGreen-of_silent x (scan dir nothing) (ground arith),
  λ g. ground (arith, silent_of_green x (scan dir nothing) g),
)
