-- ===== src/Anchors/Restored.antt =====
-- The census gives the interpreter back as it found it, and nothing of the table gets through while a
-- module level is executed.
use talyvor_track.Prelude.{
  ◌≡◌, refl, sym, ap, ◌∙◌, Bool, true, false, not, ◌&&◌, ◌||◌, Option, Text, none, some, List, [],
  ◌∷◌, ◌++◌, ◌<>◌, any, arith, In, inl, inr, str_eq, eq_iff, Bool-cases, codes, occurs,
  if◌then◌else◌,
}
use mathlib.Core.Path.{subst}
use talyvor_track.Anchors.Tables.{Key, blocked}
use talyvor_track.Anchors.Sandbox.{
  Callable, Interpreter, open_with, writes_mode, same_key, set_attr, Patch, block_one, block_all,
  unblock, blocking, entered, no_side_effects, stub,
}

same_key_eq : (a b : Key) → same_key a b ≡ true → a ≡ b
same_key_eq (m, a) (n, b) h = elim (Bool-cases (str_eq m n)) [
  | inl e ↦ cc ((eq_iff m n).0 e, (eq_iff a b).0 (ground arith))
  | inr e ↦ absurd (ground arith)
]

same_key_refl : (a : Key) → same_key a a ≡ true
same_key_refl (m, a) = ground (arith, eq_iff m m, eq_iff a a)

or_none : (b : Bool) → (b || false) ≡ b
or_none true = refl
or_none false = refl

or_last : (b : Bool) → (b || true) ≡ true
or_last true = refl
or_last false = refl

same_key_sym : (a b : Key) → same_key a b ≡ false → same_key b a ≡ false
same_key_sym a b h = elim (Bool-cases (same_key b a)) [
  | inl e ↦ absurd (cc (h, same_key_refl a, same_key_eq b a e))
  | inr e ↦ e
]

abbrev is_distinct : List Key → Bool
is_distinct [] = true
is_distinct (k ∷ ks) = not (any (same_key k) ks) && is_distinct ks

not_any : (k q : Key) (ks : List Key) → any (same_key k) ks ≡ false → In q ks → same_key k q ≡ false
not_any k q [] h i = absurd i
not_any k q (j ∷ ks) h i = elim i [
  | inl e ↦ ground (arith, ap (same_key k) e)
  | inr z ↦ not_any k q ks (ground arith) z
]

module _ {F : Type 0} (orig : Key → Option (Callable F)) where
  -- What was saved is what stood there.
  abbrev Agrees : List (Key × Callable F) → Type 0
  Agrees [] = Unit
  Agrees ((k, f) ∷ saved) = (orig k ≡ some f) × Agrees saved

  abbrev is_saved : List (Key × Callable F) → Key → Bool
  is_saved [] q = false
  is_saved ((k, f) ∷ saved) q = same_key k q || is_saved saved q

  Agrees-add :
      (saved : List (Key × Callable F)) (k : Key) (f : Callable F)
      → Agrees saved
      → orig k ≡ some f
      → Agrees (saved ++ ((k, f) ∷ []))
  Agrees-add [] k f g h = (h, tt)
  Agrees-add ((j, b) ∷ saved) k f (e, g) h = (e, Agrees-add saved k f g h)

  is_saved-add :
      (saved : List (Key × Callable F)) (k : Key) (f : Callable F) (q : Key)
      → is_saved (saved ++ ((k, f) ∷ [])) q ≡ (is_saved saved q || same_key k q)
  is_saved-add [] k f q = or_none (same_key k q)
  is_saved-add ((j, b) ∷ saved) k f q = ground (arith, is_saved-add saved k f q)

  unblock-kept :
      (saved : List (Key × Callable F)) (a : Key → Option (Callable F)) (q : Key)
      → Agrees saved
      → a q ≡ orig q
      → unblock saved a q ≡ orig q
  unfolding unblock set_attr
  unblock-kept [] a q g h = h
  unblock-kept ((k, f) ∷ saved) a q (e, g) h =
      unblock-kept saved (set_attr k f a) q g (elim (Bool-cases (same_key k q)) [
        | inl s ↦ rw s (sym e ∙ ap orig (same_key_eq k q s))
        | inr s ↦ rw s h
      ])

  unblock-saved :
      (saved : List (Key × Callable F)) (a : Key → Option (Callable F)) (q : Key)
      → Agrees saved
      → is_saved saved q ≡ true
      → unblock saved a q ≡ orig q
  unfolding unblock set_attr
  unblock-saved [] a q g h = absurd (cc)
  unblock-saved ((k, f) ∷ saved) a q (e, g) h = elim (Bool-cases (same_key k q)) [
    | inl s ↦ unblock-kept saved (set_attr k f a) q g (rw s (sym e ∙ ap orig (same_key_eq k q s)))
    | inr s ↦ unblock-saved saved (set_attr k f a) q g (ground arith)
  ]

  block_one-other :
      (k : Key) (f : Option (Callable F)) (p : Patch F) (q : Key)
      → same_key k q ≡ false
      → (block_one k f p).attrs q ≡ p.attrs q
  unfolding block_one set_attr
  block_one-other (m, a) none p q h = refl
  block_one-other (m, a) (some f) p q h = rw h refl

  block_all-other :
      (ks : List Key) (p : Patch F) (q : Key)
      → ((k : Key) → In k ks → same_key k q ≡ false)
      → (block_all ks p).attrs q ≡ p.attrs q
  unfolding block_all
  block_all-other [] p q h = refl
  block_all-other (k ∷ ks) p q h =
      block_all-other ks (block_one k (p.attrs k) p) q (λ x z. h x (inr z))
      ∙ block_one-other k (p.attrs k) p q (h k (inl refl))

  -- While the rest of the table is still to come, its attributes are as they were.
  record IsPatched (ks : List Key) (p : Patch F) : Type 0 where
    agrees : Agrees p.saved
    untouched : (q : Key) → In q ks → p.attrs q ≡ orig q

  block_one-IsPatched :
      (k : Key) (ks : List Key) (f : Option (Callable F)) (p : Patch F)
      → orig k ≡ f
      → any (same_key k) ks ≡ false
      → IsPatched (k ∷ ks) p
      → IsPatched ks (block_one k f p)
  unfolding block_one
  block_one-IsPatched (m, a) ks none p h d i = record {
    agrees = i.agrees;
    untouched = λ q z. i.untouched q (inr z);
  }
  block_one-IsPatched (m, a) ks (some f) p h d i = record {
    agrees = Agrees-add p.saved (m, a) f i.agrees h;
    untouched = λ q z.
        block_one-other (m, a) (some f) p q (not_any (m, a) q ks d z) ∙ i.untouched q (inr z);
  }

  block_all-Agrees :
      (ks : List Key) (p : Patch F)
      → is_distinct ks ≡ true
      → IsPatched ks p
      → Agrees (block_all ks p).saved
  unfolding block_all
  block_all-Agrees [] p d i = i.agrees
  block_all-Agrees (k ∷ ks) p d i =
      block_all-Agrees ks (block_one k (p.attrs k) p) (ground arith)
        (block_one-IsPatched k ks (p.attrs k) p (sym (i.untouched k (inl refl))) (ground arith) i)

  block_one-kept :
      (k : Key) (f : Option (Callable F)) (p : Patch F) (q : Key)
      → is_saved p.saved q ≡ true
      → is_saved (block_one k f p).saved q ≡ true
  unfolding block_one
  block_one-kept (m, a) none p q h = h
  block_one-kept (m, a) (some f) p q h = rw (is_saved-add p.saved (m, a) f q, h) refl

  block_all-kept :
      (ks : List Key) (p : Patch F) (q : Key)
      → is_saved p.saved q ≡ true
      → is_saved (block_all ks p).saved q ≡ true
  unfolding block_all
  block_all-kept [] p q h = h
  block_all-kept (k ∷ ks) p q h =
      block_all-kept ks (block_one k (p.attrs k) p) q (block_one-kept k (p.attrs k) p q h)

  block_one-saved :
      (k : Key) (f : Callable F) (p : Patch F) → is_saved (block_one k (some f) p).saved k ≡ true
  unfolding block_one
  block_one-saved (m, a) f p =
      is_saved-add p.saved (m, a) f (m, a)
      ∙ (rw (same_key_refl (m, a)) (or_last (is_saved p.saved (m, a))))

  -- Each attribute of the table that is there is saved.
  block_all-saved :
      (ks : List Key) (p : Patch F) (q : Key) (f : Callable F)
      → is_distinct ks ≡ true
      → IsPatched ks p
      → In q ks
      → orig q ≡ some f
      → is_saved (block_all ks p).saved q ≡ true
  unfolding block_all
  block_all-saved [] p q f d i z h = absurd z
  block_all-saved (k ∷ ks) p q f d i z h = elim z [
    | inl e ↦ block_all-kept ks (block_one k (p.attrs k) p) q (
        subst (λ x. is_saved (block_one k (p.attrs k) p).saved x ≡ true) e
          (rw (i.untouched k (inl refl) ∙ ap orig e ∙ h) (block_one-saved k f p)))
    | inr w ↦
        block_all-saved ks (block_one k (p.attrs k) p) q f (ground arith)
          (block_one-IsPatched k ks (p.attrs k) p (sym (i.untouched k (inl refl))) (ground arith) i)
          w h
  ]

  block_one-stub :
      (k : Key) (f : Callable F) (p : Patch F)
      → (block_one k (some f) p).attrs k ≡ some (stub (k.0 <> "." <> k.1))
  unfolding block_one set_attr
  block_one-stub (m, a) f p = rw (same_key_refl (m, a)) refl

  -- Each attribute of the table that is there raises.
  block_all-stub :
      (ks : List Key) (p : Patch F) (q : Key) (f : Callable F)
      → is_distinct ks ≡ true
      → ((k : Key) → In k ks → p.attrs k ≡ orig k)
      → In q ks
      → orig q ≡ some f
      → (block_all ks p).attrs q ≡ some (stub (q.0 <> "." <> q.1))
  unfolding block_all
  block_all-stub [] p q f d u z h = absurd z
  block_all-stub (k ∷ ks) p q f d u z h = elim z [
    | inl e ↦
        subst
          (λ x.
            (block_all ks (block_one k (p.attrs k) p)).attrs x ≡ some (stub (x.0 <> "." <> x.1)))
          e
          (block_all-other ks (block_one k (p.attrs k) p) k
              (λ x w. same_key_sym k x (not_any k x ks (ground arith) w))
            ∙ (rw (u k (inl refl) ∙ ap orig e ∙ h) (block_one-stub k f p)))
    | inr w ↦
        block_all-stub ks (block_one k (p.attrs k) p) q f (ground arith)
          (λ x v. block_one-other k (p.attrs k) p x (not_any k x ks (ground arith) v) ∙ u x (inr v))
          w h
  ]

blocked_distinct : is_distinct blocked ≡ true
blocked_distinct = refl

-- A mode that writes holds one of the four letters, and no other does.
writes_mode-occurs :
    (mode : Text)
    → writes_mode mode ≡ (
        occurs (codes "w") mode
        || occurs (codes "x") mode
        || occurs (codes "a") mode
        || occurs (codes "+") mode)
unfolding writes_mode
writes_mode-occurs [] = refl
writes_mode-occurs (c ∷ mode) = ground (arith, writes_mode-occurs mode)

-- While a module level is executed, a function of the table that the interpreter has is replaced by the
-- stub that raises under its name, and `open` raises on each mode that holds a "w", an "x", an "a" or
-- a "+", and reaches what it reached before on every other.
pub entered-blocks :
    {F : Type 0} (i : Interpreter F) (q : Key) (f : Callable F) (mode : Text)
    → In q blocked
    → i.attrs q ≡ some f
    → ((entered i).attrs q ≡ some (stub (q.0 <> "." <> q.1)))
      × (open_with (entered i).opener mode ≡ (
          if occurs (codes "w") mode
            || occurs (codes "x") mode
            || occurs (codes "a") mode
            || occurs (codes "+") mode
          then none
          else open_with i.opener mode))
unfolding entered blocking open_with
entered-blocks i q f mode z h = (
  block_all-stub i.attrs blocked (record { saved = []; attrs = i.attrs }) q f blocked_distinct
      (λ k w. refl) z h,
  ap (λ (b : Bool). if b then none else open_with i.opener mode) (writes_mode-occurs mode),
)

-- Whatever a module level does, raising or not: after it `open` is as it was before, and a function of
-- the table that was there before is there again.
pub no_side_effects-restores :
    {F : Type 0} (body : Interpreter F → Interpreter F) (i : Interpreter F) (q : Key)
    (f : Callable F)
    → In q blocked
    → i.attrs q ≡ some f
    → ((no_side_effects body i).opener ≡ i.opener) × ((no_side_effects body i).attrs q ≡ some f)
unfolding no_side_effects blocking
no_side_effects-restores {F = F} body i q f z h =
    let p : Patch F = record { saved = []; attrs = i.attrs } in
    let patched : IsPatched i.attrs blocked p = record { agrees = tt; untouched = λ q z. refl } in
    (
      refl,
      unblock-saved i.attrs (block_all blocked p).saved (body (entered i)).attrs q
            (block_all-Agrees i.attrs blocked p blocked_distinct patched)
            (block_all-saved i.attrs blocked p q f blocked_distinct patched z h)
          ∙ h,
    )

-- An attribute that the module level leaves as it was before the `with` is so after it, whether or not
-- it is in the table.
pub no_side_effects-keeps :
    {F : Type 0} (body : Interpreter F → Interpreter F) (i : Interpreter F) (q : Key)
    → (body (entered i)).attrs q ≡ i.attrs q
    → (no_side_effects body i).attrs q ≡ i.attrs q
unfolding no_side_effects blocking
no_side_effects-keeps {F = F} body i q h =
    let p : Patch F = record { saved = []; attrs = i.attrs } in
    unblock-kept i.attrs (block_all blocked p).saved (body (entered i)).attrs q
      (block_all-Agrees i.attrs blocked p blocked_distinct
        (record { agrees = tt; untouched = λ q z. refl }))
      h
