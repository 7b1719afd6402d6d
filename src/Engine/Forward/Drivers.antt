-- ===== src/Engine/Forward/Drivers.antt =====
-- The driving relationship that a row of `forward_pass` in sto/core/engine/forward.py names.
use sto_scheduler_tracker_re.Prelude.{
  ℕ, ◌<◌, ◌≡◌, refl, ◌∙◌, ap, subst, List, [], ◌∷◌, Bool, true, false, arith, All, Option, some,
  none, inl, inr, ◌≤◌, ℤ, ◌⊎◌, Bool-cases, default, is_some, ◌||◌,
}
use sto_scheduler_tracker_re.Calendar.Intervals.{Intervals}
use sto_scheduler_tracker_re.Calendar.Compiled.{of}
use sto_scheduler_tracker_re.Engine.Outcome.{ok}
use sto_scheduler_tracker_re.Engine.Model.{
  ConstraintType, PlannedActivity, PlannedRelationship, Network, activity_by_uid, predecessors,
  remaining,
}
use sto_scheduler_tracker_re.Engine.Progress.{ProgressPolicy, not_started, state_of}
use sto_scheduler_tracker_re.Engine.Place.{ActivityTimes, placed_at, Limits, bounds, calendar_floor}
use sto_scheduler_tracker_re.Engine.Placement.{place, place_row, place_free, driver}
use sto_scheduler_tracker_re.Engine.Untouched.{Constrained, constrain, held_by}
use sto_scheduler_tracker_re.Engine.Forward.{ForwardPass, forward_pass, base_of}
use sto_scheduler_tracker_re.Engine.Forward.Bounds.{Lands, limit, bounds_land}
use sto_scheduler_tracker_re.Engine.Forward.Unstarted.{IsUnstarted, IsUnstarted-at, free-span}
use sto_scheduler_tracker_re.Engine.Forward.Replay.{driver-Decides}
use sto_scheduler_tracker_re.Engine.Forward.Driven.{Some, Drives, bounds-NamesEdges}
use sto_scheduler_tracker_re.Engine.Forward.Undriven.{bounds-undriven, bounds-keeps}

-- The relationship decided the dates of the row. The bounds are those of the dates in the pass, and
-- no relationship lands beyond them; `start` and `finish` are the dates that the activity would have by
-- its start bound alone. The relationship lands on the start bound, and these are the dates of the row,
-- or on the finish bound, and without it the row would finish earlier.
pub record IsDecisive (network : Network) (snap : Bool) (times : List ActivityTimes)
    (a : PlannedActivity) (row : ActivityTimes) (u : ℕ) : Type 0 where
  pub limits : Limits
  pub bounded : bounds a (predecessors network a.uid) times none network.project_start ≡ ok limits
  pub tightest :
      All (Lands a times (λ v r. v ≤ limit a times limits r)) (predecessors network a.uid)
  pub start : ℕ
  pub finish : ℕ
  pub alone :
      place a (remaining a) limits.start_bound (calendar_floor a) network.horizon snap none none
      ≡ ok (start, finish)
  pub decided :
      (Some (Drives a times true u limits.start_bound) (predecessors network a.uid)
        × (start ≡ row.early_start)
        × (finish ≡ row.early_finish))
      ⊎ (Some (Drives a times false u limits.finish_bound) (predecessors network a.uid)
          × (finish < row.early_finish))

-- A driver is named by rows that their constraint neither pins nor bounds.
held_by-driver :
    (a : PlannedActivity) (c : Constrained) (floor : ℕ) (network : Network) (snap : Bool) (u : ℕ)
    → (held_by a c floor network snap).0 ≡ some u
    → ((is_some c.pinned || c.constrained) ≡ false)
      × (driver a
            (remaining a)
            c.limits.start_bound
            c.limits.finish_bound
            c.limits.start_driver
            c.limits.finish_driver
            floor
            network.horizon
            snap
          ≡ some u)
unfolding held_by
held_by-driver a c floor network snap u e = elim (Bool-cases (is_some c.pinned || c.constrained)) [
  | inl fixed ↦ ground arith
  | inr free ↦ (free, ground arith)
]

constrain-idle :
    (ct : ConstraintType) (at : Option ℕ) (l : Limits) (fallback : Bool)
    → (is_some (constrain ct at l fallback).pinned || (constrain ct at l fallback).constrained)
      ≡ false
    → ((constrain ct at l fallback).limits ≡ l) × ((constrain ct at l fallback).pinned ≡ none)
unfolding constrain
constrain-idle ct at l fallback h = (ground arith, ground arith)

driver-named :
    (a : PlannedActivity) (d : ℤ) (sb fb : ℕ) (sd fd : Option ℕ) (floor h : ℕ) (snap : Bool) (u : ℕ)
    → driver a d sb fb sd fd floor h snap ≡ some u
    → (v : ℕ) × ((sd ≡ some v) ⊎ (fd ≡ some v))
unfolding driver
driver-named a d sb fb sd none floor h snap u e = (u, inl e)
driver-named a d sb fb sd (some v) floor h snap u e = (v, inr refl)

-- Where an edge is there, the loop begins without a bound.
Some-base :
    (P : PlannedRelationship → Type 0) (a : PlannedActivity) (network : Network)
    (rows : List PlannedRelationship)
    → Some P rows
    → base_of a not_started rows network ≡ none
Some-base P a network [] h = absurd h
Some-base P a network (r ∷ rows) h = refl

-- The base of the bounds, once a driver is named.
named-base :
    (network : Network) (a : PlannedActivity) (before : List ActivityTimes) (l : Limits) (v : ℕ)
    → bounds a
        (predecessors network a.uid)
        before
        (base_of a not_started (predecessors network a.uid) network)
        network.project_start
      ≡ ok l
    → (l.start_driver ≡ some v) ⊎ (l.finish_driver ≡ some v)
    → base_of a not_started (predecessors network a.uid) network ≡ none
named-base network a before l v bounded named =
    let incoming = predecessors network a.uid in
    let (starts, ends) =
      bounds-NamesEdges a before incoming (base_of a not_started incoming network)
        network.project_start l bounded in
    elim named [
      | inl start ↦
          Some-base (Drives a before true v l.start_bound) a network incoming (starts v start)
      | inr finish ↦
          Some-base (Drives a before false v l.finish_bound) a network incoming (ends v finish)
    ]

place-free :
    (a : PlannedActivity) (d : ℤ) (sb fb h : ℕ) (snap : Bool) (at : Option ℕ)
    → a.assignment_envelope ≡ none
    → place a d sb fb h snap none at ≡ place_free a d sb fb h snap
unfolding place
place-free a d sb fb h snap at whole = ap (λ env. place_row a env d sb fb h snap none at) whole

module _ (network : Network) (snap : Bool) (policy : ProgressPolicy) {pass : ForwardPass}
    (a : PlannedActivity) (row : ActivityTimes) (raw : Intervals) (u : ℕ) where
  -- The row rests on its relationships alone.
  rests :
      (un : IsUnstarted network snap pass a row)
      → row.driving_relationship_uid ≡ some u
      → ((constrain a.constraint_type a.constraint_coordinate un.limits un.fallback).limits
          ≡ un.limits)
        × ((constrain a.constraint_type a.constraint_coordinate un.limits un.fallback).pinned
            ≡ none)
        × (base_of a not_started (predecessors network a.uid) network ≡ none)
        × (driver a
              (remaining a)
              un.limits.start_bound
              un.limits.finish_bound
              un.limits.start_driver
              un.limits.finish_driver
              (calendar_floor a)
              network.horizon
              snap
            ≡ some u)
  rests un named =
      let l = un.limits in
      let c = constrain a.constraint_type a.constraint_coordinate l un.fallback in
      let based = base_of a not_started (predecessors network a.uid) network in
      let (idle, held) =
        held_by-driver a c (default (calendar_floor a) based) network snap u (un.driven ∙ named) in
      let (same, unpinned) =
        constrain-idle a.constraint_type a.constraint_coordinate l un.fallback idle in
      let held' : driver a (remaining a) l.start_bound l.finish_bound l.start_driver l.finish_driver
            (default (calendar_floor a) based) network.horizon snap
          ≡ some u =
        subst
          (λ (m : Limits).
            driver a (remaining a) m.start_bound m.finish_bound m.start_driver m.finish_driver
              (default (calendar_floor a) based) network.horizon snap
            ≡ some u)
          same held in
      let (v, claimed) =
        driver-named a (remaining a) l.start_bound l.finish_bound l.start_driver l.finish_driver
          (default (calendar_floor a) based) network.horizon snap u held' in
      let unbased = named-base network a un.before l v un.bounded claimed in
      (
        same,
        unpinned,
        unbased,
        subst
            (λ b.
              driver a (remaining a) l.start_bound l.finish_bound l.start_driver l.finish_driver
                (default (calendar_floor a) b) network.horizon snap
              ≡ some u)
            unbased held',
      )

  decides :
      of raw ≡ a.calendar
      → a.assignment_envelope ≡ none
      → IsUnstarted network snap pass a row
      → row.driving_relationship_uid ≡ some u
      → IsDecisive network snap pass.times a row u
  decides cal whole un named =
      let incoming = predecessors network a.uid in
      let l = un.limits in
      let (same, unpinned, unbased, held) = rests un named in
      let there : bounds a incoming pass.times none network.project_start ≡ ok l =
        subst (λ ts. bounds a incoming ts none network.project_start ≡ ok l) un.standing
          (bounds-keeps a un.before un.rest incoming none network.project_start (
            subst (λ b. bounds a incoming un.before b network.project_start ≡ ok l) unbased
              un.bounded)) in
      let (low, free) = bounds-undriven a pass.times incoming network.project_start l there in
      let (s, f, alone, choice) =
        driver-Decides a raw (remaining a) l.start_bound l.finish_bound l.start_driver
          l.finish_driver (calendar_floor a) network.horizon snap row.early_start row.early_finish u
          cal low free (free-span network snap policy a row un l whole same unpinned) held in
      let (starts, ends) =
        bounds-NamesEdges a pass.times incoming none network.project_start l there in
      record {
        limits = l;
        bounded = there;
        tightest = bounds_land a pass.times incoming none network.project_start l there;
        start = s;
        finish = f;
        alone =
            place-free a (remaining a) l.start_bound (calendar_floor a) network.horizon snap none
              whole
            ∙ alone;
        decided = elim choice [
          | inl (drove, starts_same, ends_same) ↦ inl (starts u drove, starts_same, ends_same)
          | inr (drove, shorter) ↦ inr (ends u drove, shorter)
        ];
      }

  -- In a pass that is returned, over calendars built by `CompiledIntervals.of`, the driving
  -- relationship that a row names, for an activity that has not started and that no envelope holds,
  -- decides its dates. It is a relationship into the activity
  -- that lands exactly on one of the bounds: on the start bound, and then the start bound alone gives
  -- the dates of the row, or on the finish bound, and then the start bound alone gives an earlier
  -- finish. No relationship lands beyond the bound of its side.
  pub forward_pass-drivers :
      of raw ≡ a.calendar
      → a.assignment_envelope ≡ none
      → forward_pass network snap policy ≡ ok pass
      → activity_by_uid network a.uid ≡ some a
      → placed_at pass.times a.uid ≡ some row
      → state_of a ≡ not_started
      → row.driving_relationship_uid ≡ some u
      → IsDecisive network snap pass.times a row u
  forward_pass-drivers cal whole e found at fresh named =
      decides cal whole (IsUnstarted-at network snap policy a row e found at fresh) named
