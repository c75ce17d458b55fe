-- ===== src/Toolchain/Anchored.antt =====
-- The catcher harness over the modelled `--check-anchors`: Harness and Toolchain put together.
use talyvor_track.Prelude.{
  ℕ, String, ◌≡◌, refl, sym, ap, ◌∙◌, Bool, true, false, not, Option, none, some, List, In, Text,
  codes, replace_first, ◌==◌, ==_iff, ◌↔◌,
}
use mathlib.Core.Option.{some-injective}
use talyvor_track.Harness.Disk.{Disk, put}
use talyvor_track.Harness.Catcher.{Env, Case, campaign, main_with}
use talyvor_track.Harness.Scored.{main-Behaves}
use talyvor_track.Toolchain.Anchors.{Control, check_anchors}
use talyvor_track.Toolchain.Applies.{IsSound, check_anchors-IsSound}

-- What a campaign's text defines: its walk over the test files, and its table.
pub record Definitions : Type 0 where
  pub walk : Disk → List String
  pub controls : List Control

-- `returncode == 0`
unfoldable pub is_zero : Option ℕ → Bool
is_zero none = false
is_zero (some n) = n == 0

-- A text that does not load ends with another status.
unfoldable pub answer : Option Definitions → Disk → Bool
unfolding is_zero check_anchors
answer none d = false
answer (some defs) d = is_zero (check_anchors defs.walk defs.controls d)

module _ (load : Text → Option Definitions) where
  unfoldable pub load_file : Option Text → Option Definitions
  load_file none = none
  load_file (some src) = load src

  -- The catcher harness's check: the campaign of the tree, run with `--check-anchors`.
  abbrev pub anchor_check : (Text → String) → Env
  anchor_check sha256 = record {
    check = λ d. record { green = some (answer (load_file (d campaign)) d); disk = d };
    sha256 = sha256;
  }

  -- The campaign of the tree loads, and what its `--check-anchors` checks holds of the tree.
  pub record Passes (d : Disk) : Type 0 where
    pub source : Text
    pub there : d campaign ≡ some source
    pub definitions : Definitions
    pub loaded : load source ≡ some definitions
    pub sound : IsSound definitions.walk definitions.controls d

  is_zero_iff : (n : Option ℕ) → (is_zero n ≡ true) ↔ (n ≡ some 0)
  unfolding is_zero
  is_zero_iff none = (λ h. absurd (cc), λ h. absurd (cc))
  is_zero_iff (some n) =
      (λ h. ap some ((==_iff n 0).0 h), λ h. (==_iff n 0).1 (some-injective n 0 h))

  answer-Passes : (d : Disk) → answer (load_file (d campaign)) d ≡ true → Passes d
  answer-Passes d h = of_file (d campaign) refl h
    where
      of_load :
          (src : Text) (o : Option Definitions)
          → d campaign ≡ some src
          → load src ≡ o
          → answer o d ≡ true
          → Passes d
      of_load src none e l h = unfold answer in absurd (cc)
      of_load src (some defs) e l h = record {
        source = src;
        there = e;
        definitions = defs;
        loaded = l;
        sound =
            (check_anchors-IsSound defs.walk defs.controls d).0
              ((is_zero_iff (check_anchors defs.walk defs.controls d)).0 (unfold answer in h));
      }

      of_file :
          (file : Option Text) → d campaign ≡ file → answer (load_file file) d ≡ true → Passes d
      of_file none e h = unfold load_file in unfold answer in absurd (cc)
      of_file (some src) e h = of_load src (load src) e refl (unfold load_file in h)

  Passes-answer : (d : Disk) → Passes d → answer (load_file (d campaign)) d ≡ true
  unfolding answer load_file
  Passes-answer d p =
      ap (λ (f : Option Text). answer (load_file f) d) p.there
      ∙ (ap (λ (o : Option Definitions). answer o d) p.loaded
          ∙ (is_zero_iff (check_anchors p.definitions.walk p.definitions.controls d)).1
              ((check_anchors-IsSound p.definitions.walk p.definitions.controls d).1 p.sound))

  abbrev pub mutated : Case → Text → Disk → Disk
  mutated c original d = put c.path (replace_first (codes c.find) (codes c.repl) original) d

  -- The tree with the case's edit meets the check exactly if the case predicts green.
  pub record IsDecided (c : Case) (d : Disk) : Type 0 where
    pub original : Text
    pub there : d c.path ≡ some original
    pub decides : (c.predict_red ≡ false) ↔ Passes (mutated c original d)

-- If the catcher harness, with the campaign's own `--check-anchors` as its check, exits with 0, then for each
-- of its cases the tree with that edit has a campaign that loads, enough controls and every control
-- current, exactly if the case predicts green.
pub main-IsDecided :
    (load : Text → Option Definitions) (sha256 : Text → String) (cs : List Case) (d : Disk)
    → (main_with (anchor_check load sha256) cs d).status ≡ some 0
    → (c : Case) → In c cs
    → IsDecided load c d
main-IsDecided load sha256 cs d h c q =
    let b = main-Behaves (anchor_check load sha256) cs d (λ e p. refl) h c q in
    let e = mutated load c b.original d in
    let says =
      some-injective (answer (load_file load (e campaign)) e) (not c.predict_red) b.verdict in
    record {
      original = b.original;
      there = b.there;
      decides = (
        λ green. answer-Passes load e (says ∙ ap not green),
        λ p. red_not c.predict_red (sym says ∙ Passes-answer load e p),
      );
    }
  where
    red_not : (b : Bool) → not b ≡ true → b ≡ false
    red_not true h = absurd (cc)
    red_not false h = refl
