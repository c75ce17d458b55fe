-- ===== src/Tests/Sandbox.antt =====
-- `_no_side_effects` around a module level that takes everything away.
use talyvor_track.Prelude.{ℕ, ◌≡◌, refl, inl, inr, none, some, codes, In}
use talyvor_track.Anchors.Tables.{Key, blocked}
use talyvor_track.Anchors.Sandbox.{native, stub, Interpreter, open_with, entered, no_side_effects}
use talyvor_track.Anchors.Restored.{entered-blocks, no_side_effects-restores, no_side_effects-keeps}

abbrev python : Interpreter ℕ
python = record { attrs = λ q. some (native 7); opener = native 1 }

abbrev wrecks : Interpreter ℕ → Interpreter ℕ
wrecks i = record { attrs = λ q. none; opener = native 9 }

reads : open_with (entered python).opener (codes "rb") ≡ some 1
unfolding entered open_with
reads = refl

writes : open_with (entered python).opener (codes "r+") ≡ none
unfolding entered open_with
writes = refl

abbrev system : Key
system = ("os", "system")

system-blocked : In system blocked
system-blocked = inr (inr (inr (inr (inr (inr (inl refl))))))

entered-blocks_example :
    ((entered python).attrs system ≡ some (stub "os.system"))
    × (open_with (entered python).opener (codes "ab") ≡ none)
entered-blocks_example = entered-blocks python system (native 7) (codes "ab") system-blocked refl

no_side_effects-restores_example :
    ((no_side_effects wrecks python).opener ≡ native 1)
    × ((no_side_effects wrecks python).attrs system ≡ some (native 7))
no_side_effects-restores_example =
    no_side_effects-restores wrecks python system (native 7) system-blocked refl

untouched : (entered python).attrs ("os", "getpid") ≡ some (native 7)
unfolding entered
untouched = refl

no_side_effects-keeps_example :
    (no_side_effects (λ i. i) python).attrs ("os", "getpid") ≡ some (native 7)
no_side_effects-keeps_example = no_side_effects-keeps (λ i. i) python ("os", "getpid") untouched
