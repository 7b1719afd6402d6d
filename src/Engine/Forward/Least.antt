-- ===== src/Engine/Forward/Least.antt =====
-- The bounds of sto/core/engine/forward.py are no greater than what honours every edge: `_bounds` from
-- above.
use sto_scheduler_tracker_re.Prelude.{
  ℕ, ◌≤◌, ◌≡◌, refl, sym, ◌∙◌, subst, List, [], ◌∷◌, ◌++◌, Bool, false, arith, All, Option, some,
  none, any, Bool-cases, inl, inr, if◌then◌else◌,
}
use sto_scheduler_tracker_re.Engine.Outcome.{ok, >>=-eq-ok, ok-inj}
use sto_scheduler_tracker_re.Engine.Model.{
  PlannedActivity, PlannedRelationship, bounds_successor_start,
}
use sto_scheduler_tracker_re.Engine.Place.{
  start_limit, finish_limit, ActivityTimes, Bound, raise_bound, landing, bounds_loop, floored,
  bounds, Limits, calendar_floor,
}
use sto_scheduler_tracker_re.Engine.Forward.Bounds.{AtLeast, side, Lands, loop-Lands}
use sto_scheduler_tracker_re.Engine.Forward.Logic.{Honours, landing-keeps}

-- The bound, where there is one, lies at `k` or before.
abbrev pub AtMost : ℕ → Option ℕ → Type 0
AtMost k none = Unit
AtMost k (some x) = x ≤ k

raise_bound-AtMost :
    (b : Bound) (shifted uid k : ℕ)
    → shifted ≤ k
    → AtMost k b.at
    → AtMost k (raise_bound b shifted uid).at
unfolding raise_bound
raise_bound-AtMost b shifted uid k le h = ground arith

start_limit-AtMost :
    (b : Bound) (unbounded floor k : ℕ) (at : Option ℕ)
    → AtMost k at
    → (at ≡ none → unbounded ≤ k)
    → floor ≤ k
    → (start_limit b unbounded floor at).0 ≤ k
start_limit-AtMost b unbounded floor k none m free h = free refl
start_limit-AtMost b unbounded floor k (some x) m free h = ground arith

finish_limit-AtMost :
    (b : Bound) (floor k : ℕ) (at : Option ℕ)
    → AtMost k at
    → floor ≤ k
    → (finish_limit b floor at).0 ≤ k
finish_limit-AtMost b floor k none m h = h
finish_limit-AtMost b floor k (some x) m h = ground arith

-- Some relationship bounds the start.
abbrev pub bounds_start : List PlannedRelationship → Bool
bounds_start rows = any (λ (r : PlannedRelationship). bounds_successor_start r) rows

module _ (a : PlannedActivity) (before rest : List ActivityTimes) (ks kf : ℕ) where
  loop-AtMost :
      (rows : List PlannedRelationship) (start finish s f : Bound)
      → All (Honours (before ++ rest) a ks kf) rows
      → bounds_loop a rows before start finish ≡ ok (s, f)
      → AtMost ks start.at
      → AtMost kf finish.at
      → AtMost ks s.at × AtMost kf f.at
  unfolding bounds_loop
  loop-AtMost [] start finish s f h e hs hf =
      let same = ok-inj e in
      (
        subst (λ (p : Bound × Bound). AtMost ks p.0.at) same hs,
        subst (λ (p : Bound × Bound). AtMost kf p.1.at) same hf,
      )
  loop-AtMost (r ∷ rows) start finish s f ((v, landed, early), h) e hs hf =
      let onto = bounds_successor_start r in
      let (shifted, here, later) =
        >>=-eq-ok (landing a before r)
          (λ shifted.
            bounds_loop a rows before (if onto then raise_bound start shifted r.uid else start)
              (if onto then finish else raise_bound finish shifted r.uid))
          e in
      let same : shifted ≡ v = ok-inj (sym (landing-keeps a before rest r here) ∙ landed) in
      let le : shifted ≤ (if onto then ks else kf) =
        subst (λ x. x ≤ (if onto then ks else kf)) (sym same) early in
      loop-AtMost rows (if onto then raise_bound start shifted r.uid else start)
        (if onto then finish else raise_bound finish shifted r.uid) s f h later
        (elim (Bool-cases onto) [
          | inl onto_it ↦ rw onto_it (
              raise_bound-AtMost start shifted r.uid ks
                (subst (λ b. shifted ≤ (if b then ks else kf)) onto_it le) hs)
          | inr off_it ↦ rw off_it hs
        ])
        (elim (Bool-cases onto) [
          | inl onto_it ↦ rw onto_it hf
          | inr off_it ↦ rw off_it (
              raise_bound-AtMost finish shifted r.uid kf
                (subst (λ b. shifted ≤ (if b then ks else kf)) off_it le) hf)
        ])

  bounds_start-none :
      (rows : List PlannedRelationship) (s f : Bound)
      → All (Lands a before (λ v r. AtLeast v (side s f r))) rows
      → s.at ≡ none
      → bounds_start rows ≡ false
  bounds_start-none [] s f h e = refl
  bounds_start-none (r ∷ rows) s f ((v, landed, there), h) e =
      elim (Bool-cases (bounds_successor_start r)) [
        | inl onto ↦ let (x, at, _) = subst (λ b. AtLeast v (if b then s else f)) onto there in cc
        | inr ends ↦ rw ends (bounds_start-none rows s f h e)
      ]

  -- Whatever dates honour each relationship and respect the floors lie at or behind the bounds.
  pub bounds-Least :
      (rows : List PlannedRelationship) (base : Option ℕ) (unbounded : ℕ) (l : Limits)
      → All (Honours (before ++ rest) a ks kf) rows
      → bounds a rows before base unbounded ≡ ok l
      → AtMost ks base
      → AtMost kf base
      → (bounds_start rows ≡ false → unbounded ≤ ks)
      → calendar_floor a ≤ ks
      → calendar_floor a ≤ kf
      → (l.start_bound ≤ ks) × (l.finish_bound ≤ kf)
  unfolding bounds floored
  bounds-Least rows base unbounded l h e bs bf free fs ff =
      let b : Bound = record { at = base; driver = none } in
      let ((s, f), looped, done) =
        >>=-eq-ok (bounds_loop a rows before b b) (λ p. ok (floored a unbounded p.0 p.1)) e in
      let (ms, mf) = loop-AtMost rows b b s f h looped bs bf in
      let open_start = bounds_start-none rows s f (loop-Lands a before rows b b s f looped) in
      let le_start : (floored a unbounded s f).start_bound ≤ ks =
        start_limit-AtMost s unbounded (calendar_floor a) ks s.at ms
          (λ none_there. free (open_start none_there)) fs in
      let le_finish : (floored a unbounded s f).finish_bound ≤ kf =
        finish_limit-AtMost f (calendar_floor a) kf f.at mf ff in
      subst (λ (m : Limits). (m.start_bound ≤ ks) × (m.finish_bound ≤ kf)) (ok-inj done)
        (le_start, le_finish)
