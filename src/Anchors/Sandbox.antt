-- ===== src/Anchors/Sandbox.antt =====
-- `_no_side_effects` of scripts/check-control-anchors.py: while a control script's module level is
-- executed, the functions that change files or start processes are replaced by ones that raise.
use talyvor_track.Prelude.{
  String, Bool, ◌&&◌, ◌||◌, Option, none, some, List, [], ◌∷◌, ◌++◌, ◌<>◌, any, Text, ◌==◌, str_eq,
  if◌then◌else◌,
}
use talyvor_track.Anchors.Tables.{Key, blocked}

-- What an attribute can hold: a function of Python's own, `blocked(label)`, which raises on every call,
-- or `guarded_open` over the `open` that it saved.
pub data Callable (F : Type 0) : Type 0 where
  native : F → Callable F
  stub : String → Callable F
  guarded : Callable F → Callable F

-- The attributes of `subprocess`, `os`, `shutil` and `pathlib.Path`, and the built-in `open`.
pub record Interpreter (F : Type 0) : Type 0 where
  pub attrs : Key → Option (Callable F)
  pub opener : Callable F

-- Is one of w, x, a and + in the mode?
unfoldable pub writes_mode : Text → Bool
writes_mode mode = any (λ c. c == 119 || c == 120 || c == 97 || c == 43) mode

-- A call of an opener with a mode: the function of Python's own that it reaches, or nothing where it
-- raises.
unfoldable pub open_with : {F : Type 0} → Callable F → Text → Option F
unfolding writes_mode
open_with (native f) mode = some f
open_with (stub label) mode = none
open_with (guarded saved) mode =
    let reached = open_with saved mode in if writes_mode mode then none else reached

abbrev pub same_key : Key → Key → Bool
same_key (m, a) (n, b) = str_eq m n && str_eq a b

-- `saved`, and the attributes.
pub record Patch (F : Type 0) : Type 0 where
  pub saved : List (Key × Callable F)
  pub attrs : Key → Option (Callable F)

module _ {F : Type 0} where
  -- `setattr(obj, attr, f)`
  unfoldable pub set_attr :
      Key → Callable F → (Key → Option (Callable F)) → Key → Option (Callable F)
  set_attr k f attrs q = if same_key k q then some f else attrs q

  unfoldable pub block_one : Key → Option (Callable F) → Patch F → Patch F
  unfolding set_attr
  block_one k none p = p
  block_one (m, a) (some f) p = record {
    saved = p.saved ++ (((m, a), f) ∷ []);
    attrs = set_attr (m, a) (stub (m <> "." <> a)) p.attrs;
  }

  -- The loop over the table, with `hasattr` where the attribute is read.
  unfoldable pub block_all : List Key → Patch F → Patch F
  unfolding block_one
  block_all [] p = p
  block_all (k ∷ ks) p = block_all ks (block_one k (p.attrs k) p)

  -- The loop in the `finally`.
  unfoldable pub unblock :
      List (Key × Callable F) → (Key → Option (Callable F)) → Key → Option (Callable F)
  unfolding set_attr
  unblock [] attrs = attrs
  unblock ((k, f) ∷ saved) attrs = unblock saved (set_attr k f attrs)

  unfoldable pub blocking : Interpreter F → Patch F
  unfolding block_all
  blocking i = block_all blocked (record { saved = []; attrs = i.attrs })

  -- What the body of the `with` runs in.
  unfoldable pub entered : Interpreter F → Interpreter F
  unfolding blocking
  entered i = record { attrs = (blocking i).attrs; opener = guarded i.opener }

  -- The whole `with`. The body gives the interpreter back as it left it, raised or not.
  unfoldable pub no_side_effects : (Interpreter F → Interpreter F) → Interpreter F → Interpreter F
  unfolding entered blocking unblock
  no_side_effects body i =
      let left = body (entered i) in
      record { attrs = unblock (blocking i).saved left.attrs; opener = i.opener }
