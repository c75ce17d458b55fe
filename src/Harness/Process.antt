-- ===== src/Harness/Process.antt =====
-- A running harness: its disk, what a signal would make it do, and every moment at which a signal
-- could have found it.
use talyvor_track.Prelude.{
  ◌≡◌, refl, sym, String, true, Option, none, some, List, [], ◌∷◌, arith, In, inl, inr, Text,
  str_eq, eq_iff, Bool-cases,
}
use mathlib.Core.Path.{subst}
use mathlib.Core.Option.{some-injective}
use talyvor_track.Harness.Disk.{
  Disk, put, Snapshot, with_file, read_all, restore, SameFiles, covers, SameElsewhere, TakenFrom,
}

-- The disk and the handler at one moment. A signal runs the handler, and then the process dies of
-- it: no `finally` runs.
pub record Moment : Type 0 where
  pub disk : Disk
  pub on_signal : Disk → Disk

-- What a signal at this moment leaves behind.
abbrev pub left_behind : Moment → Disk
left_behind m = m.on_signal m.disk

pub record Process : Type 0 where
  pub now : Moment
  pub past : List Moment

-- The process goes on to a moment with another disk.
abbrev pub proceed : Disk → Process → Process
proceed d s = record {
  now = record { disk = d; on_signal = s.now.on_signal };
  past = s.now ∷ s.past;
}

unfoldable pub write : String → Text → Process → Process
write p blob s = proceed (put p blob s.now.disk) s

-- A whole `for` loop of writes, one moment for each.
unfoldable pub write_all : Snapshot → Process → Process
unfolding write
write_all [] s = s
write_all ((p, blob) ∷ rest) s = write_all rest (write p blob s)

-- `restore_on_signal(snapshot)`: from here on a signal writes every snapshotted file back.
unfoldable pub restore_on_signal : Snapshot → Process → Process
restore_on_signal snapshot s = record {
  now = record { disk = s.now.disk; on_signal = restore snapshot };
  past = s.now ∷ s.past;
}

-- A process that starts on a disk with no handler: a signal kills it as it stands.
abbrev pub start : Disk → Process
start d = record { now = record { disk = d; on_signal = λ e. e }; past = [] }

-- All moments, the present one included.
abbrev pub moments : Process → List Moment
moments s = s.now ∷ s.past

-- Whenever the signal comes, it leaves the files of `pristine`.
abbrev pub IsSignalSafe : Disk → Process → Type 0
IsSignalSafe pristine s = (m : Moment) → In m (moments s) → SameFiles (left_behind m) pristine

restore-covered :
    (snapshot : Snapshot) (a b : Disk) (q : String)
    → a q ≡ b q
    → restore snapshot a q ≡ restore snapshot b q
unfolding restore put
restore-covered [] a b q h = h
restore-covered ((p, blob) ∷ s) a b q h =
    restore-covered s (put p blob a) (put p blob b) q (ground arith)

restore-kept :
    (snapshot : Snapshot) (d pristine : Disk) (q : String)
    → TakenFrom pristine snapshot
    → d q ≡ pristine q
    → restore snapshot d q ≡ pristine q
unfolding restore put
restore-kept [] d pristine q t h = h
restore-kept ((p, blob) ∷ s) d pristine q t h =
    restore-kept s (put p blob d) pristine q t.1 (ground (arith, t.0, eq_iff p q))

-- Restoring undoes every change to the files of the snapshot.
pub restore-pristine :
    (snapshot : Snapshot) (d pristine : Disk)
    → TakenFrom pristine snapshot
    → SameElsewhere snapshot d pristine
    → SameFiles (restore snapshot d) pristine
unfolding restore put covers
restore-pristine [] d pristine t h q = h q refl
restore-pristine ((p, blob) ∷ s) d pristine t h q = elim (Bool-cases (str_eq p q)) [
  | inl e ↦ restore-kept s (put p blob d) pristine q t.1 (ground (arith, t.0, eq_iff p q))
  | inr e ↦
      restore-pristine s (put p blob d) pristine t.1
        (λ r c. elim (Bool-cases (str_eq p r)) [
          | inl f ↦ ground (arith, t.0, eq_iff p r)
          | inr f ↦ ground (arith, h r (ground arith))
        ])
        q
]

-- A process whose handler is installed, and that has touched the files of its snapshot at most.
pub record IsGuarded (snapshot : Snapshot) (pristine : Disk) (s : Process) : Type 0 where
  pub installed : s.now.on_signal ≡ restore snapshot
  pub contained : SameElsewhere snapshot s.now.disk pristine
  pub safe : IsSignalSafe pristine s

module _ (snapshot : Snapshot) (pristine : Disk) (taken : TakenFrom pristine snapshot) where
  pub proceed-IsGuarded :
      (d : Disk) (s : Process)
      → SameElsewhere snapshot d pristine
      → IsGuarded snapshot pristine s
      → IsGuarded snapshot pristine (proceed d s)
  proceed-IsGuarded d s same g = record {
    installed = g.installed;
    contained = same;
    safe = λ m q. elim q [
      | inl e ↦
          subst (λ (x : Moment). SameFiles (left_behind x) pristine) e
            (subst (λ h. SameFiles (h d) pristine) (sym g.installed)
              (restore-pristine snapshot d pristine taken same))
      | inr r ↦ g.safe m r
    ];
  }

  pub write-IsGuarded :
      (p : String) (blob : Text) (s : Process)
      → covers snapshot p ≡ true
      → IsGuarded snapshot pristine s
      → IsGuarded snapshot pristine (write p blob s)
  unfolding write put
  write-IsGuarded p blob s c g =
      proceed-IsGuarded (put p blob s.now.disk) s
        (λ q h. elim (Bool-cases (str_eq p q)) [
          | inl e ↦ absurd (cc (c, h, (eq_iff p q).0 e))
          | inr e ↦ ground (arith, g.contained q h)
        ])
        g

  pub start-IsGuarded : IsGuarded snapshot pristine (restore_on_signal snapshot (start pristine))
  unfolding restore_on_signal
  start-IsGuarded = record {
    installed = refl;
    contained = λ q h. refl;
    safe = λ m q. elim q [
      | inl e ↦
          subst (λ (x : Moment). SameFiles (left_behind x) pristine) e
            (restore-pristine snapshot pristine pristine taken (λ r h. refl))
      | inr r ↦ elim r [
        | inl e ↦ subst (λ (x : Moment). SameFiles (left_behind x) pristine) e (λ p. refl)
        | inr z ↦ absurd z
      ]
    ];
  }

  -- Every text of the rest is one of the snapshot's.
  pub write_all-IsGuarded :
      (rest : Snapshot) (s : Process)
      → ((q : String) → covers rest q ≡ true → covers snapshot q ≡ true)
      → IsGuarded snapshot pristine s
      → IsGuarded snapshot pristine (write_all rest s)
  unfolding write_all covers
  write_all-IsGuarded [] s sub g = g
  write_all-IsGuarded ((p, blob) ∷ rest) s sub g =
      write_all-IsGuarded rest (write p blob s) (λ q c. sub q (ground arith))
        (write-IsGuarded p blob s (sub p (ground (arith, eq_iff p p))) g)

-- The loop of writes leaves the disk that `restore` describes.
pub write_all-disk :
    (rest : Snapshot) (s : Process) → (write_all rest s).now.disk ≡ restore rest s.now.disk
unfolding write_all write restore
write_all-disk [] s = refl
write_all-disk ((p, blob) ∷ rest) s = write_all-disk rest (write p blob s)

-- After the `finally` a guarded process has the files of `pristine`.
pub write_all-pristine :
    (snapshot : Snapshot) (pristine : Disk) (s : Process)
    → TakenFrom pristine snapshot
    → IsGuarded snapshot pristine s
    → SameFiles (write_all snapshot s).now.disk pristine
write_all-pristine snapshot pristine s taken g =
    subst (λ d. SameFiles d pristine) (sym (write_all-disk snapshot s))
      (restore-pristine snapshot s.now.disk pristine taken g.contained)

with_file-TakenFrom :
    (d : Disk) (p : String) (blob : Option Text) (rest : Option Snapshot) (s : Snapshot)
    → d p ≡ blob
    → ((r : Snapshot) → rest ≡ some r → TakenFrom d r)
    → with_file p blob rest ≡ some s
    → TakenFrom d s
unfolding with_file
with_file-TakenFrom d p (some blob) (some r) s here there h =
    subst (TakenFrom d) (some-injective ((p, blob) ∷ r) s h) (here, there r refl)
with_file-TakenFrom d p (some blob) none s here there h = absurd (cc)
with_file-TakenFrom d p none rest s here there h = absurd (cc)

pub read_all-TakenFrom :
    (d : Disk) (ps : List String) (s : Snapshot) → read_all d ps ≡ some s → TakenFrom d s
unfolding read_all
read_all-TakenFrom d [] s h = subst (TakenFrom d) (some-injective [] s h) tt
read_all-TakenFrom d (p ∷ ps) s h =
    with_file-TakenFrom d p (d p) (read_all d ps) s refl (λ r e. read_all-TakenFrom d ps r e) h
