-- ===== src/Harness/Disk.antt =====
-- The files that a harness can see, and what it does to them in one step.
use talyvor_track.Prelude.{
  ◌≡◌, String, Bool, true, false, Option, none, some, List, [], ◌∷◌, Text, str_eq, if◌then◌else◌,
}

-- The contents of each path, or nothing where there is no file.
abbrev pub Disk : Type 0
Disk = String → Option Text

-- `path.write_bytes(blob)`
unfoldable pub put : String → Text → Disk → Disk
put p blob d q = if str_eq p q then some blob else d q

-- `path.unlink(missing_ok=True)`
unfoldable pub unlink : String → Disk → Disk
unlink p d q = if str_eq p q then none else d q

-- `{p: p.read_bytes() for p in …}`
abbrev pub Snapshot : Type 0
Snapshot = List (String × Text)

-- One more file, unless one of them cannot be read.
unfoldable pub with_file : String → Option Text → Option Snapshot → Option Snapshot
with_file p (some blob) (some s) = some ((p, blob) ∷ s)
with_file p _ _ = none

-- A snapshot of these files, or nothing where one of them cannot be read.
unfoldable pub read_all : Disk → List String → Option Snapshot
unfolding with_file
read_all d [] = some []
read_all d (p ∷ ps) = with_file p (d p) (read_all d ps)

-- `originals[path]`
unfoldable pub blob_of : Snapshot → String → Option Text
blob_of [] q = none
blob_of ((p, blob) ∷ s) q = if str_eq p q then some blob else blob_of s q

-- `for p, b in originals.items(): p.write_bytes(b)`
unfoldable pub restore : Snapshot → Disk → Disk
unfolding put
restore [] d = d
restore ((p, blob) ∷ s) d = restore s (put p blob d)

-- Two disks with the same files.
abbrev pub SameFiles : Disk → Disk → Type 0
SameFiles a b = (q : String) → a q ≡ b q

-- `path in snapshot`
unfoldable pub covers : Snapshot → String → Bool
covers [] q = false
covers ((p, blob) ∷ s) q = if str_eq p q then true else covers s q

-- Two disks that differ at most on the files of a snapshot.
abbrev pub SameElsewhere : Snapshot → Disk → Disk → Type 0
SameElsewhere s a b = (q : String) → covers s q ≡ false → a q ≡ b q

-- The snapshot holds what the disk holds.
abbrev pub TakenFrom : Disk → Snapshot → Type 0
TakenFrom d [] = Unit
TakenFrom d ((p, blob) ∷ s) = (d p ≡ some blob) × TakenFrom d s
