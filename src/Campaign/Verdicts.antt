-- ===== src/Campaign/Verdicts.antt =====
-- The dictionary of verdicts: what a campaign's exit status says of the verdict on one control.
use talyvor_track.Prelude.{
  String, ◌≡◌, refl, ◌∙◌, Bool, true, false, not, Option, none, some, List, [], ◌∷◌, any, arith, In,
  inl, inr, Text, str_eq, eq_iff, Bool-cases, if◌then◌else◌,
}
use talyvor_track.Campaign.Suite.{Env}
use talyvor_track.Campaign.Runner.{
  Control, Verdict, is_bad, set_verdict, Progress, Hashes, judge, measure, after_edit, edit_control,
  try_anchor, scoped_parts, try_parts, try_control, run_controls,
}

-- Is the verdict on this control one that the exit status passes over?
unfoldable pub is_fine : List (String × Verdict) → String → Bool
is_fine [] k = true
is_fine ((j, v) ∷ vs) k = if str_eq j k then not (is_bad v) else is_fine vs k

pub is_fine-any :
    (vs : List (String × Verdict)) (k : String)
    → any (λ v. is_bad v.1) vs ≡ false
    → is_fine vs k ≡ true
unfolding is_fine
is_fine-any [] k h = refl
is_fine-any ((j, v) ∷ vs) k h = ground (arith, is_fine-any vs k)

pub is_fine-set :
    (cid : String) (v : Verdict) (vs : List (String × Verdict))
    → is_fine (set_verdict cid v vs) cid ≡ not (is_bad v)
unfolding is_fine set_verdict
is_fine-set cid v [] = ground (arith, eq_iff cid cid)
is_fine-set cid v ((j, w) ∷ vs) = ground (arith, is_fine-set cid v vs, eq_iff j cid)

pub is_fine-other :
    (cid k : String) (v : Verdict) (vs : List (String × Verdict))
    → str_eq cid k ≡ false
    → is_fine (set_verdict cid v vs) k ≡ is_fine vs k
unfolding is_fine set_verdict
is_fine-other cid k v [] h = ground arith
is_fine-other cid k v ((j, w) ∷ vs) h = elim (Bool-cases (str_eq j cid)) [
  | inl e ↦ rw (e, (eq_iff j cid).0 e, h) refl
  | inr e ↦ rw (e, is_fine-other cid k v vs h) refl
]

module _ (env : Env) (before : Hashes) (k : String) where
  either-same :
      (b : Bool) (p q : Progress) (x : Bool)
      → is_fine p.verdicts k ≡ x
      → is_fine q.verdicts k ≡ x
      → is_fine (if b then p else q).verdicts k ≡ x
  either-same true p q x h i = h
  either-same false p q x h i = i

  judge-same :
      (c : Control) (red_ok green_ok : Bool) (same : Option Bool) (p : Progress)
      → str_eq c.cid k ≡ false
      → is_fine (judge env c red_ok green_ok same p).verdicts k ≡ is_fine p.verdicts k
  unfolding judge
  judge-same c red_ok green_ok none p h = refl
  judge-same c red_ok green_ok (some restored) p h = is_fine-other c.cid k _ p.verdicts h

  measure-same :
      (c : Control) (src : Text) (p : Progress)
      → str_eq c.cid k ≡ false
      → is_fine (measure env before c src p).verdicts k ≡ is_fine p.verdicts k
  unfolding measure
  measure-same c src p h = either-same _ _ _ _ refl (judge-same c _ _ _ _ h)

  after_edit-same :
      (c : Control) (src : Text) (same : Option Bool) (p : Progress)
      → str_eq c.cid k ≡ false
      → is_fine (after_edit env before c src same p).verdicts k ≡ is_fine p.verdicts k
  unfolding after_edit
  after_edit-same c src none p h = refl
  after_edit-same c src (some true) p h = is_fine-other c.cid k _ p.verdicts h
  after_edit-same c src (some false) p h = measure-same c src p h

  try_parts-same :
      (c : Control) (src : Text) (parts : Option (Text × Text)) (p : Progress)
      → str_eq c.cid k ≡ false
      → is_fine (try_parts env before c src parts p).verdicts k ≡ is_fine p.verdicts k
  unfolding try_parts try_anchor edit_control
  try_parts-same c src none p h = is_fine-other c.cid k _ p.verdicts h
  try_parts-same c src (some (head, body)) p h =
      either-same _ _ _ _ (after_edit-same c src _ _ h) (is_fine-other c.cid k _ p.verdicts h)

  -- A control leaves the verdicts on the others alone.
  try_control-same :
      (c : Control) (file : Option Text) (p : Progress)
      → str_eq c.cid k ≡ false
      → is_fine (try_control env before c file p).verdicts k ≡ is_fine p.verdicts k
  unfolding try_control
  try_control-same c none p h = refl
  try_control-same c (some src) p h = try_parts-same c src (scoped_parts env c.scope src) p h

  pub run_controls-same :
      (cs : List Control) (p : Progress)
      → ((c : Control) → In c cs → str_eq c.cid k ≡ false)
      → is_fine (run_controls env before cs p).verdicts k ≡ is_fine p.verdicts k
  unfolding run_controls
  run_controls-same [] p h = refl
  run_controls-same (c ∷ cs) p h =
      either-same p.raised p
        (run_controls env before cs (try_control env before c (p.disk c.path) p)) _ refl
        (run_controls-same cs (try_control env before c (p.disk c.path) p) (λ x q. h x (inr q))
          ∙ try_control-same c (p.disk c.path) p (h c (inl refl)))
