-- ===== src/Tests/Signals.antt =====
-- scripts/check-restore-signal-handlers.py on two scripts.
use talyvor_track.Prelude.{◌≡◌, refl, inl, inr, true, false, not, ◌&&◌, [], ◌∷◌, contains}
use talyvor_track.Ast.{parsed, unparsed}
use talyvor_track.Signals.Detect.{restores_in_finally, installs_handler, handler_call}
use talyvor_track.Signals.Found.{Has, Restores, restores_in_finally_iff}
use talyvor_track.Signals.Exemptions.{Exemptions}
use talyvor_track.Signals.Rules.{Directory, strands_on_signal, not_checked, main}
use talyvor_track.Signals.Accepted.{IsAccepted, main-IsAccepted}
use talyvor_track.Signals.Scan.{main-listed_exactly, main-handled}
use talyvor_track.Tests.Trees.{indirect, good}

abbrev scripts : Directory
scripts = ("good.py", parsed good) ∷ ("indirect.py", parsed indirect) ∷ []

abbrev lists : Exemptions
lists = record {
  unprotected = "indirect.py" ∷ [];
  happy_path_only = [];
  not_mutators = [];
  narrow_floor = 2;
  wide_floor = 1;
}

indirect_found : restores_in_finally indirect ≡ true
unfolding restores_in_finally
indirect_found = refl

indirect_unhandled : installs_handler indirect ≡ false
unfolding installs_handler
indirect_unhandled = refl

accepted : (main lists scripts).status ≡ 0
unfolding main
accepted = refl

unlisted_fails :
    (main (record lists { unprotected = [] }) scripts).fail ≡ strands_on_signal "indirect.py" ∷ []
unfolding main
unlisted_fails = refl

unparsed_fails :
    (main lists (("bad.py", unparsed "invalid syntax") ∷ scripts)).fail
    ≡ not_checked "bad.py" "invalid syntax" ∷ []
unfolding main
unparsed_fails = refl

restores_in_finally_iff_example : Restores indirect
restores_in_finally_iff_example = (restores_in_finally_iff indirect).0 indirect_found

main-IsAccepted_example : IsAccepted lists scripts
main-IsAccepted_example = (main-IsAccepted lists scripts ((refl, tt), (tt, tt))).0 accepted

main-listed_exactly_example :
    contains lists.unprotected "indirect.py"
    ≡ (restores_in_finally indirect && not (installs_handler indirect))
main-listed_exactly_example =
    main-listed_exactly lists scripts "indirect.py" indirect ((refl, tt), (tt, tt)) (inr (inl refl))
      accepted

good-Restores : Restores good
good-Restores = (restores_in_finally_iff good).0 (unfold restores_in_finally in refl)

main-handled_example : Has handler_call good
main-handled_example =
    main-handled lists scripts "good.py" good ((refl, tt), (tt, tt)) (inl refl) accepted refl
      good-Restores
