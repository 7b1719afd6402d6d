-- ===== src/Engine/Forward/Bounds.antt =====
-- The bounds of sto/core/engine/forward.py lie at or beyond the landing of every edge they were taken
-- from, and constraints raise them only.
use sto_scheduler_tracker_re.Prelude.{
  ℕ, ◌≤◌, ◌≡◌, refl, subst, List, [], ◌∷◌, Bool, true, false, arith, All, Option, some, none, max,
  Bool-cases, inl, inr, if◌then◌else◌,
}
use sto_scheduler_tracker_re.Engine.Outcome.{ok, >>=-eq-ok}
use sto_scheduler_tracker_re.Engine.Model.{
  ConstraintType, snet, mso, mfo, PlannedActivity, PlannedRelationship, bounds_successor_start,
}
use sto_scheduler_tracker_re.Engine.Place.{
  ActivityTimes, Bound, raise_bound, landing, bounds_loop, floored, bounds, Limits,
}
use sto_scheduler_tracker_re.Engine.Untouched.{constrain}

-- The bound is there and lies at `v` or later.
abbrev pub AtLeast : ℕ → Bound → Type 0
AtLeast v b = (x : ℕ) × (b.at ≡ some x) × (v ≤ x)

raise_bound_self : (b : Bound) (shifted uid : ℕ) → AtLeast shifted (raise_bound b shifted uid)
unfolding raise_bound
raise_bound_self b shifted uid = go b.at refl
  where
    go : (o : Option ℕ) → b.at ≡ o → AtLeast shifted (raise_bound b shifted uid)
    go none e = (shifted, ground arith, omega arith)
    go (some x) e = (max x shifted, ground arith, omega arith)

raise_bound_keeps :
    (b : Bound) (shifted uid v : ℕ) → AtLeast v b → AtLeast v (raise_bound b shifted uid)
unfolding raise_bound
raise_bound_keeps b shifted uid v (x, e, h) = (max x shifted, ground arith, omega arith)

abbrev pub side : Bound → Bound → PlannedRelationship → Bound
side start finish r = if bounds_successor_start r then start else finish

module _ (activity : PlannedActivity) (placed : List ActivityTimes) where
  loop_keeps :
      (rows : List PlannedRelationship) (start finish s f : Bound) (v : ℕ)
      → bounds_loop activity rows placed start finish ≡ ok (s, f)
      → (AtLeast v start → AtLeast v s) × (AtLeast v finish → AtLeast v f)
  unfolding bounds_loop
  loop_keeps [] start finish s f v e =
      let same : (start ≡ s) × (finish ≡ f) = (ground arith, ground arith) in
      (subst (AtLeast v) same.0, subst (AtLeast v) same.1)
  loop_keeps (r ∷ rest) start finish s f v e =
      let (shifted, here, later) =
        >>=-eq-ok (landing activity placed r)
          (λ shifted.
            bounds_loop activity rest placed
              (if bounds_successor_start r then raise_bound start shifted r.uid else start)
              (if bounds_successor_start r then finish else raise_bound finish shifted r.uid))
          e in
      let (on_start, on_finish) =
        loop_keeps rest
          (if bounds_successor_start r then raise_bound start shifted r.uid else start)
          (if bounds_successor_start r then finish else raise_bound finish shifted r.uid) s f v
          later in
      elim (Bool-cases (bounds_successor_start r)) [
        | inl onto ↦ (
          λ h. on_start (rw onto (raise_bound_keeps start shifted r.uid v h)),
          λ h. on_finish (rw onto h),
        )
        | inr ends ↦ (
          λ h. on_start (rw ends h),
          λ h. on_finish (rw ends (raise_bound_keeps finish shifted r.uid v h)),
        )
      ]

  -- Each edge lands, at or before the bound of its side.
  abbrev pub Lands : (ℕ → PlannedRelationship → Type 0) → PlannedRelationship → Type 0
  Lands P r = (v : ℕ) × (landing activity placed r ≡ ok v) × P v r

  pub loop-Lands :
      (rows : List PlannedRelationship) (start finish s f : Bound)
      → bounds_loop activity rows placed start finish ≡ ok (s, f)
      → All (Lands (λ v r. AtLeast v (side s f r))) rows
  unfolding bounds_loop
  loop-Lands [] start finish s f e = tt
  loop-Lands (r ∷ rest) start finish s f e =
      let (shifted, here, later) =
        >>=-eq-ok (landing activity placed r)
          (λ shifted.
            bounds_loop activity rest placed
              (if bounds_successor_start r then raise_bound start shifted r.uid else start)
              (if bounds_successor_start r then finish else raise_bound finish shifted r.uid))
          e in
      let start' = (if bounds_successor_start r then raise_bound start shifted r.uid else start) in
      let finish' =
        (if bounds_successor_start r then finish else raise_bound finish shifted r.uid) in
      let (on_start, on_finish) = loop_keeps rest start' finish' s f shifted later in
      (
        (
          shifted,
          here,
          elim (Bool-cases (bounds_successor_start r)) [
            | inl onto ↦ rw onto (on_start (rw onto (raise_bound_self start shifted r.uid)))
            | inr ends ↦ rw ends (on_finish (rw ends (raise_bound_self finish shifted r.uid)))
          ],
        ),
        loop-Lands rest start' finish' s f later,
      )

  -- The bound of the side that the relationship bounds.
  abbrev pub limit : Limits → PlannedRelationship → ℕ
  limit l r = if bounds_successor_start r then l.start_bound else l.finish_bound

  floored_keeps :
      (unbounded v : ℕ) (s f : Bound) (r : PlannedRelationship)
      → AtLeast v (side s f r)
      → v ≤ limit (floored activity unbounded s f) r
  unfolding floored
  floored_keeps unbounded v s f r h = elim (Bool-cases (bounds_successor_start r)) [
    | inl onto ↦
        rw onto (
          let h' : AtLeast v s = subst (λ b. AtLeast v (if b then s else f)) onto h in ground arith)
    | inr ends ↦
        rw ends (
          let h' : AtLeast v f = subst (λ b. AtLeast v (if b then s else f)) ends h in ground arith)
  ]

  floored-All :
      (unbounded : ℕ) (s f : Bound) (rows : List PlannedRelationship)
      → All (Lands (λ v r. AtLeast v (side s f r))) rows
      → All (Lands (λ v r. v ≤ limit (floored activity unbounded s f) r)) rows
  floored-All unbounded s f [] h = tt
  floored-All unbounded s f (r ∷ rest) ((v, e, h), hs) =
      ((v, e, floored_keeps unbounded v s f r h), floored-All unbounded s f rest hs)

  pub bounds_land :
      (rows : List PlannedRelationship) (base : Option ℕ) (unbounded : ℕ) (l : Limits)
      → bounds activity rows placed base unbounded ≡ ok l
      → All (Lands (λ v r. v ≤ limit l r)) rows
  unfolding bounds
  bounds_land rows base unbounded l e =
      let b : Bound = record { at = base; driver = none } in
      let ((s, f), looped, done) =
        >>=-eq-ok (bounds_loop activity rows placed b b)
          (λ p. ok (floored activity unbounded p.0 p.1)) e in
      let same : floored activity unbounded s f ≡ l = ground arith in
      subst (λ m. All (Lands (λ v r. v ≤ limit m r)) rows) same
        (floored-All unbounded s f rows (loop-Lands rows b b s f looped))

-- A must-start-on or must-finish-on date.
abbrev pub is_hard : ConstraintType → Bool
is_hard mso = true
is_hard mfo = true
is_hard _ = false

pub constrain_raises :
    (c : ConstraintType) (at : Option ℕ) (l : Limits) (fallback : Bool)
    → is_hard c ≡ false
    → ((constrain c at l fallback).pinned ≡ none)
      × (l.start_bound ≤ (constrain c at l fallback).limits.start_bound)
      × (l.finish_bound ≤ (constrain c at l fallback).limits.finish_bound)
unfolding constrain
constrain_raises snet at l fallback h = ground arith
constrain_raises _ at l fallback h = ground arith
