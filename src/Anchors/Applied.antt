-- ===== src/Anchors/Applied.antt =====
-- From the exit status of the census to the files: an anchor that nobody has accounted for stands at
-- exactly one place of its target.
use talyvor_track.Prelude.{
  ℕ, String, ◌≡◌, ◌≢◌, refl, sym, ap, ◌∙◌, inl, inr, Bool, true, false, ◌||◌, Option, none, some,
  List, [], ◌∷◌, ◌++◌, arith, any, is_empty, In, In-append_left, In-append_right, Text, codes,
  count, replace, str_eq, Bool-cases,
}
use talyvor_track.Prelude.Replace.{IsOnePlace, replace-one}
use mathlib.Core.Path.{subst}
use talyvor_track.Ast.{Node, Source, parsed, unparsed}
use talyvor_track.Anchors.Harvest.{Row, max_levels}
use talyvor_track.Anchors.Reading.{module_level_only}
use talyvor_track.Anchors.Rows.{All, All-In, All-add, harvest-All}
use talyvor_track.Anchors.Bare.{World, Verdict, Finding, Namespace, is_dunder, located}
use talyvor_track.Anchors.Census.{
  Run, namespace, raised, Schemas, Tally, get_key, judge, unique, row_eq, harvest_namespace,
  rows_of, check_row, check_rows, tally_bare, tally_ran, tally_run, tally_script, tally_all, census,
  counted, check_target, scoped_count, no_tally,
}
use talyvor_track.Anchors.Rules.{Accounts, is_ok, key_of, has_key, keys_of, main}
use talyvor_track.Anchors.Accounted.{main-IsSound}

harvest_namespace-All :
    (off : ℕ) (declared : Bool) (ns : Namespace) (rows : List Row)
    → All rows
    → All (harvest_namespace off declared ns rows)
unfolding harvest_namespace
harvest_namespace-All off declared [] rows h = h
harvest_namespace-All off declared ((k, v) ∷ ns) rows h = elim (Bool-cases (is_dunder k)) [
  | inl e ↦ rw e (harvest_namespace-All off declared ns rows h)
  | inr e ↦ rw e (
      harvest_namespace-All off declared ns _
        (harvest-All off declared v max_levels (record { seen = []; out = rows }) h))
]

unique-All : (uniq rows : List Row) → All uniq → All rows → All (unique uniq rows)
unfolding unique
unique-All uniq [] h k = h
unique-All uniq (r ∷ rows) h k = elim (Bool-cases (any (row_eq r) uniq)) [
  | inl e ↦ rw e (unique-All uniq rows h k.1)
  | inr e ↦ rw e (unique-All (uniq ++ (r ∷ [])) rows (All-add uniq r h k.0) k.1)
]

module _ (w : World) (x : Schemas) where
  rows_of-All : (script : String) (ns : Namespace) → All (rows_of w x script ns)
  unfolding rows_of
  rows_of-All script ns = unique-All [] _ tt (harvest_namespace-All _ _ ns [] tt)

  In-check_rows :
      (script : String) (rows : List Row) (r : Row)
      → In r rows
      → In (check_row w x script r) (check_rows w x script rows)
  unfolding check_rows
  In-check_rows script [] r q = elim q [ ]
  In-check_rows script (y ∷ rows) r (inl e) = inl (ap (check_row w x script) e)
  In-check_rows script (y ∷ rows) r (inr q) = inr (In-check_rows script rows r q)

  In-tally_ran :
      (script : String) (tree : Node) (ns : Namespace) (t : Tally) (f : Finding)
      → In f t.results
      → In f (tally_ran w x script tree ns t).results
  unfolding tally_ran tally_bare
  In-tally_ran script tree ns t f q = elim (Bool-cases (is_empty (rows_of w x script ns))) [
    | inl e ↦ rw e (In-append_left f t.results _ q)
    | inr e ↦ rw e (In-append_left f t.results _ q)
  ]

  not_empty : (rows : List Row) (r : Row) → In r rows → is_empty rows ≡ false
  not_empty [] r q = elim q [ ]
  not_empty (y ∷ rows) r q = refl

  tally_ran-checks :
      (script : String) (tree : Node) (ns : Namespace) (t : Tally) (r : Row)
      → In r (rows_of w x script ns)
      → In (check_row w x script r) (tally_ran w x script tree ns t).results
  unfolding tally_ran
  tally_ran-checks script tree ns t r q =
      rw (not_empty (rows_of w x script ns) r q)
        (In-append_right _ t.results _ (In-check_rows script (rows_of w x script ns) r q))

  In-tally_run :
      (run : Run) (script : String) (tree : Node) (t : Tally) (f : Finding)
      → In f t.results
      → In f (tally_run w x run script tree t).results
  unfolding tally_run
  In-tally_run (raised why) script tree t f q = q
  In-tally_run (namespace ns) script tree t f q = In-tally_ran script tree ns t f q

  module _ (self : String) (exec : String → List Node → Run) where
    In-tally_script :
        (script : String) (source : Source) (t : Tally) (f : Finding)
        → In f t.results
        → In f (tally_script w x self exec script source t).results
    unfolding tally_script
    In-tally_script script (unparsed why) t f q = elim (Bool-cases (str_eq script self)) [
      | inl e ↦ rw e q
      | inr e ↦ rw e q
    ]
    In-tally_script script (parsed tree) t f q = elim (Bool-cases (str_eq script self)) [
      | inl e ↦ rw e q
      | inr e ↦ rw e (In-tally_run (exec script (module_level_only tree)) script tree t f q)
    ]

    In-tally_all :
        (dir : List (String × Source)) (t : Tally) (f : Finding)
        → In f t.results
        → In f (tally_all w x self exec dir t).results
    unfolding tally_all
    In-tally_all [] t f q = q
    In-tally_all ((script, source) ∷ dir) t f q =
        In-tally_all dir (tally_script w x self exec script source t) f
          (In-tally_script script source t f q)

    -- A script that ran has each of its rows checked.
    tally_all-checks :
        (dir : List (String × Source)) (t : Tally) (script : String) (tree : Node) (ns : Namespace)
        (r : Row)
        → In (script, parsed tree) dir
        → str_eq script self ≡ false
        → exec script (module_level_only tree) ≡ namespace ns
        → In r (rows_of w x script ns)
        → In (check_row w x script r) (tally_all w x self exec dir t).results
    unfolding tally_all
    tally_all-checks [] t script tree ns r q other ran row = elim q [ ]
    tally_all-checks ((j, source) ∷ dir) t script tree ns r (inl e) other ran row =
        subst
          (λ (entry : String × Source).
            In (check_row w x script r) (tally_all w x self exec (entry ∷ dir) t).results)
          (sym e)
          (In-tally_all dir (tally_script w x self exec script (parsed tree) t) _ (
            unfold tally_script tally_run in
            rw (other, ran) (tally_ran-checks script tree ns t r row)))
    tally_all-checks ((j, source) ∷ dir) t script tree ns r (inr q) other ran row =
        tally_all-checks dir (tally_script w x self exec j source t) script tree ns r q other ran
          row

codes-ne-nil : (s : String) → str_eq s "" ≡ false → codes s ≢ []
codes-ne-nil String.[] h e = absurd (cc)
codes-ne-nil (String.◌∷◌ c s) h e = absurd (cc)

judge_ok : (n : ℕ) → judge none n ≡ Verdict.ok → n ≡ 1
unfolding judge
judge_ok n h = ground arith

module _ (w : World) (x : Schemas) where
  -- The check of a row whose target is there and is not narrowed by SCOPED.
  check_row_plain :
      (script : String) (r : Row) (body : Text)
      → w.file (located w.repo r.path) ≡ some body
      → get_key (script, w.anchor_sha r.old) x.scoped ≡ none
      → check_row w x script r ≡ counted w x script r body
  unfolding check_row
  check_row_plain script r body there unscoped =
      ap (check_target w x script r) there ∙ ap (scoped_count w x script r body) unscoped

  -- The check of a row whose target is missing.
  check_row_missing :
      (script : String) (r : Row)
      → w.file (located w.repo r.path) ≡ none
      → check_row w x script r ≡ check_target w x script r none
  unfolding check_row
  check_row_missing script r h = ap (check_target w x script r) h

  counted_once :
      (script : String) (r : Row) (body : Text)
      → r.want ≡ none
      → is_ok (counted w x script r body) ≡ true
      → count (codes r.old) body ≡ 1
  counted_once script r body unsaid h = judge_ok (count (codes r.old) body) (
      ok_verdict (judge none (count (codes r.old) body)) (
        subst
          (λ want.
            (elim (judge want (count (codes r.old) body)) [ Verdict.ok ↦ true | _ ↦ false ]) ≡ true)
          unsaid h))
    where
      ok_verdict :
          (v : Verdict) → (elim v [ Verdict.ok ↦ true | _ ↦ false ]) ≡ true → v ≡ Verdict.ok
      ok_verdict Verdict.ok e = refl
      ok_verdict _ e = absurd (cc)

module _ (x : Accounts) (w : World) (self : String) (exec : String → List Node → Run)
    (dir : List (String × Source)) (script : String) (tree : Node) (ns : Namespace) (r : Row) where
  -- If the census exits with 0 under `--ci`, then a row that it reads in a script which runs, and
  -- which neither declares a count, nor is narrowed by SCOPED, nor is listed in NOT_ANCHORS or
  -- KNOWN_DEAD, can be applied: the row's target is a file, the anchor stands at one place of it,
  -- and replacing the anchor changes that place and nothing else.
  pub main-applies :
      (new : Text)
      → In (script, parsed tree) dir
      → str_eq script self ≡ false
      → exec script (module_level_only tree) ≡ namespace ns
      → In r (rows_of w x.schemas script ns)
      → get_key (script, w.anchor_sha r.old) x.scoped ≡ none
      → r.want ≡ none
      → (has_key (script, w.anchor_sha r.old) x.not_anchors
          || has_key (script, w.anchor_sha r.old) (keys_of x.known_dead))
        ≡ false
      → (main x w self exec true dir).status ≡ 0
      → (body : Text) × (w.file (located w.repo r.path) ≡ some body)
        × IsOnePlace (codes r.old) new body (replace (codes r.old) new body)
  main-applies new q other ran row unscoped unsaid unlisted green =
      either (w.file (located w.repo r.path)) refl
    where
      missing_not_ok : ◌≡◌ {A = Bool} false true → ⊥
      missing_not_ok e = absurd (cc)

      checked : In (check_row w x.schemas script r) (census w x.schemas self exec dir).0.results
      checked =
          unfold census in
          tally_all-checks w x.schemas self exec dir no_tally script tree ns r q other ran row

      -- What is recorded of the row is `ok`, since the row is not listed.
      all_ok :
          (f : Finding)
          → check_row w x.schemas script r ≡ f
          → key_of f ≡ (script, w.anchor_sha r.old)
          → is_ok f ≡ true
      all_ok f same key = elim (Bool-cases (is_ok f)) [
        | inl e ↦ e
        | inr e ↦ absurd (
            cc (
              unlisted,
              subst (λ k. (has_key k x.not_anchors || has_key k (keys_of x.known_dead)) ≡ true) key
                  (((main-IsSound x w self exec dir).0 green).accounted f
                    (subst (λ g. In g (census w x.schemas self exec dir).0.results) same checked)
                    e),
            ))
      ]

      either :
          (file : Option Text)
          → w.file (located w.repo r.path) ≡ file
          → (body : Text) × (file ≡ some body)
            × IsOnePlace (codes r.old) new body (replace (codes r.old) new body)
      either none h =
          absurd (missing_not_ok (all_ok _ (check_row_missing w x.schemas script r h) refl))
      either (some body) h = (
        body,
        refl,
        replace-one (codes r.old) new body
            (codes-ne-nil r.old (All-In _ r (rows_of-All w x.schemas script ns) row).filled)
            (counted_once w x.schemas script r body unsaid
              (all_ok _ (check_row_plain w x.schemas script r body h unscoped) refl)),
      )
