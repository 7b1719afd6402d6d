-- ===== src/Engine/Backward/Honours.antt =====
-- `backward_pass` of sto/core/engine/backward.py and the logic of the network.
use sto_scheduler_tracker_re.Prelude.{
  ℕ, ◌≤◌, ◌≡◌, sym, ap, subst, List, [], ◌∷◌, Bool, false, arith, All, All-find, Option, some, none,
  ◌⊎◌, inl, inr, default, elem, filter, ◌==◌, Bool-cases,
}
use sto_scheduler_tracker_re.Engine.Outcome.{ok, >>=-eq-ok, ok-inj}
use sto_scheduler_tracker_re.Engine.Model.{
  ConstraintType, PlannedActivity, PlannedRelationship, Network, activity_by_uid, successors,
  remaining,
}
use sto_scheduler_tracker_re.Engine.Progress.{ProgressPolicy, not_started, in_progress, state_of}
use sto_scheduler_tracker_re.Engine.Forward.{forward_pass}
use sto_scheduler_tracker_re.Engine.Forward.Bounds.{is_hard}
use sto_scheduler_tracker_re.Engine.Forward.Spans.{IsCompiled}
use sto_scheduler_tracker_re.Engine.Forward.Answer.{forward_pass-IsPassOf}
use sto_scheduler_tracker_re.Engine.Late.{
  ActivityLateTimes, late_at, UpperBound, selected, lower_all, late_bounds,
}
use sto_scheduler_tracker_re.Engine.Late.Placement.{place_late, constrain_late, set_by}
use sto_scheduler_tracker_re.Engine.Backward.{
  BackwardPass, LateContext, LateRequest, context_of, place_late_open, place_late_state,
  backward_pass,
}
use sto_scheduler_tracker_re.Engine.Backward.Rounds.{open-inv, late_row-under_way}
use sto_scheduler_tracker_re.Engine.Backward.Guards.{bound_of}
use sto_scheduler_tracker_re.Engine.Backward.Answer.{placing_at, backward_pass-IsLatePassOf}
use sto_scheduler_tracker_re.Engine.Place.{ActivityTimes}
use sto_scheduler_tracker_re.Engine.Backward.Placing.{place_late-Ahead}
use sto_scheduler_tracker_re.Engine.Backward.Bounds.{Retreats, lower_all-le, lower_all-Retreats}
use sto_scheduler_tracker_re.Engine.Backward.Selection.{selected-kept}
use sto_scheduler_tracker_re.Engine.Backward.Targets.{
  HasLagCalendar, AreCompiled, Yields, Retreats-Yields,
}

-- Constraints lower the bounds only.
pub constrain_late-lowers :
    (c : ConstraintType) (at : Option ℕ) (start finish : UpperBound)
    → is_hard c ≡ false
    → ((constrain_late c at start finish).pinned ≡ none)
      × ((constrain_late c at start finish).start.at ≤ start.at)
      × ((constrain_late c at start finish).finish.at ≤ finish.at)
unfolding constrain_late
constrain_late-lowers c at start finish h = (ground arith, ground arith, ground arith)

-- What the late pass may still move: an activity that has not started and that no hard date pins, and
-- the remaining work of one under way.
abbrev pub IsMovable : PlannedActivity → Type 0
IsMovable a =
    ((state_of a ≡ not_started) × (is_hard a.constraint_type ≡ false)) ⊎ (state_of a ≡ in_progress)

-- The latest start of what is still to be done.
abbrev pub late_begin : ActivityLateTimes → ℕ
late_begin row = default row.late_start row.remaining_start

pub late_bounds-inv :
    (c : LateContext) (before : List ActivityLateTimes) (a : PlannedActivity)
    {b : UpperBound × UpperBound}
    → late_bounds c.network c.early before (successors c.network a.uid) c.late_finish c.released
      ≡ ok b
    → (edges : List PlannedRelationship) × (selected before (successors c.network a.uid) c.released
        ≡ ok edges)
      × (lower_all c.network c.early before edges (set_by c.late_finish) (set_by c.late_finish)
          ≡ ok b)
unfolding late_bounds
late_bounds-inv c before a e =
    >>=-eq-ok (selected before (successors c.network a.uid) c.released)
      (λ edges.
        lower_all c.network c.early before edges (set_by c.late_finish) (set_by c.late_finish))
      e

-- The dates of a row that may move lie at or before its bounds.
pub movable-Ahead :
    (c : LateContext) (before : List ActivityLateTimes) (a : PlannedActivity)
    (row : ActivityLateTimes)
    → IsCompiled a.calendar
    → IsMovable a
    → place_late_state c before a (state_of a) ≡ ok row
    → (b : UpperBound × UpperBound) × (late_bounds c.network c.early before
          (successors c.network a.uid)
          c.late_finish
          c.released
        ≡ ok b)
      × (late_begin row ≤ b.0.at)
      × (row.late_finish ≤ b.1.at)
unfolding place_late_state
movable-Ahead c before a row cal (inl (fresh, soft)) e =
    let e' : place_late_open c before a not_started ≡ ok row =
      subst (λ st. place_late_state c before a st ≡ ok row) fresh e in
    let (b, (s, f), bounded, placed, last) = open-inv c before a not_started e' in
    let l = constrain_late a.constraint_type a.constraint_coordinate b.0 b.1 in
    let (free, lower_start, lower_finish) =
      constrain_late-lowers a.constraint_type a.constraint_coordinate b.0 b.1 soft in
    let (ahead_start, ahead_finish) =
      place_late-Ahead a (remaining a) l.start.at l.finish.at c.snap a.constraint_coordinate s f cal
        (subst
          (λ pin.
            place_late a (remaining a) l.start.at l.finish.at c.snap pin a.constraint_coordinate
            ≡ ok (s, f))
          free placed) in
    let begins : s ≡ late_begin row = ap late_begin (ok-inj last) in
    let ends : f ≡ row.late_finish = ap (λ (r : ActivityLateTimes). r.late_finish) (ok-inj last) in
    (b, bounded, omega arith, omega arith)
movable-Ahead c before a row cal (inr going) e =
    let e' : place_late_open c before a in_progress ≡ ok row =
      subst (λ st. place_late_state c before a st ≡ ok row) going e in
    let (b, (s, f), bounded, placed, last) = open-inv c before a in_progress e' in
    let (ahead_start, ahead_finish) =
      place_late-Ahead a (remaining a) b.0.at b.1.at c.snap a.constraint_coordinate s f cal
        placed in
    let (began, _, same) = late_row-under_way a (s, f) _ last in
    let begins : s ≡ late_begin row = ap late_begin same in
    let ends : f ≡ row.late_finish = ap (λ (r : ActivityLateTimes). r.late_finish) same in
    (b, bounded, omega arith, omega arith)

-- A relationship that the pass neither released nor put in an inactive boundary.
abbrev pub IsOrdinary : List ℕ → PlannedRelationship → Type 0
IsOrdinary released r = (elem r.uid released ≡ false) × (r.inactive_boundary_uid ≡ none)

pub All-successors :
    (P : PlannedRelationship → Type 0) (network : Network) (u : ℕ)
    → All P network.relationships
    → All P (successors network u)
unfolding successors
All-successors P network u h = go network.relationships h
  where
    go :
        (rows : List PlannedRelationship)
        → All P rows
        → All P (filter (λ (r : PlannedRelationship). r.predecessor_uid == u) rows)
    go [] h = tt
    go (r ∷ rows) (h, hs) = elim (Bool-cases (r.predecessor_uid == u)) [
      | inl out ↦ rw out (h, go rows hs)
      | inr other ↦ rw other (go rows hs)
    ]

pub All-map :
    (P Q : PlannedRelationship → Type 0) (rows : List PlannedRelationship)
    → ((r : PlannedRelationship) → P r → Q r)
    → All P rows
    → All Q rows
All-map P Q [] f h = tt
All-map P Q (r ∷ rows) f (h, hs) = (f r h, All-map P Q rows f hs)

pub All-map2 :
    (P Q R : PlannedRelationship → Type 0) (rows : List PlannedRelationship)
    → ((r : PlannedRelationship) → P r → Q r → R r)
    → All P rows
    → All Q rows
    → All R rows
All-map2 P Q R [] f p q = tt
All-map2 P Q R (r ∷ rows) f (p, ps) (q, qs) = (f r p q, All-map2 P Q R rows f ps qs)

Retreats-earlier :
    (network : Network) (early : List ActivityTimes) (before : List ActivityLateTimes)
    (start finish start' finish' : ℕ) (r : PlannedRelationship)
    → start' ≤ start
    → finish' ≤ finish
    → Retreats network early before start finish r
    → Retreats network early before start' finish' r
Retreats-earlier network early before start finish start' finish' r hs hf (x, back, le) =
    (x, back, ground arith)

module _ (fingerprint : Network → ℕ) (network : Network) (q : LateRequest) {pass : BackwardPass}
    (snap : Bool) (policy : ProgressPolicy) where
  -- In a backward pass that is returned for a forward pass of the network, an activity that has not
  -- started and that no hard date pins, and the remaining work of one under way, starts and finishes
  -- by the pass's bound and honours each relationship out of it that is not released and of no
  -- inactive boundary: its successor has a row, and the lag carries the late finish (of FS and FF) or
  -- the late start (of SS and SF) no further than the date of that row which the relationship bounds.
  -- The calendars are built by `CompiledIntervals.of`.
  pub backward_pass-Yields :
      (a : PlannedActivity) (row : ActivityLateTimes)
      → AreCompiled network
      → forward_pass network snap policy ≡ ok q.forward
      → backward_pass fingerprint network q ≡ ok pass
      → activity_by_uid network a.uid ≡ some a
      → late_at pass.times a.uid ≡ some row
      → IsMovable a
      → (late_begin row ≤ pass.project_late_finish)
        × (row.late_finish ≤ pass.project_late_finish)
        × All
            (λ r.
              IsOrdinary pass.overridden_relationships r
              → Yields network q.forward.times pass.times (late_begin row) row.late_finish r)
            (successors network a.uid)
  unfolding activity_by_uid
  backward_pass-Yields a row compiled forwards e found at movable =
      let distinct = (forward_pass-IsPassOf network snap policy forwards).ordered.distinct in
      let round = placing_at fingerprint network q a row distinct e found at in
      let c = context_of network q pass.overridden_relationships in
      let (cal, _) =
        All-find _ (λ (b : PlannedActivity). b.uid) a.uid network.activities a compiled.activities
          found in
      let (b, bounded, by_start, by_finish) =
        movable-Ahead c round.before a row cal movable round.placed in
      let (edges, chosen, lowered) = late_bounds-inv c round.before a bounded in
      let (top_start, top_finish) =
        lower_all-le network q.forward.times round.before edges (set_by c.late_finish)
          (set_by c.late_finish) b.0 b.1 lowered in
      let finish : bound_of q ≡ pass.project_late_finish =
        sym (backward_pass-IsLatePassOf fingerprint network q e).finish in
      let top : ((b.0).at ≤ pass.project_late_finish) × ((b.1).at ≤ pass.project_late_finish) =
        subst (λ m. ((b.0).at ≤ m) × ((b.1).at ≤ m)) finish (top_start, top_finish) in
      let back =
        selected-kept (Retreats network q.forward.times round.before (b.0).at (b.1).at) round.before
          (successors network a.uid) pass.overridden_relationships
          (lower_all-Retreats network q.forward.times round.before edges (set_by c.late_finish)
            (set_by c.late_finish) b.0 b.1 lowered)
          chosen in
      (
        omega (arith, top.0),
        omega (arith, top.1),
        All-map2 _ HasLagCalendar _ (successors network a.uid)
            (λ r retreats lagged ordinary.
              Retreats-Yields network q.forward.times round.before pass.times (late_begin row)
                row.late_finish r compiled.activities lagged round.kept
                (Retreats-earlier network q.forward.times round.before (b.0).at (b.1).at
                  (late_begin row) row.late_finish r by_start by_finish
                  (retreats ordinary.0 ordinary.1)))
            back (All-successors HasLagCalendar network a.uid compiled.relationships),
      )
