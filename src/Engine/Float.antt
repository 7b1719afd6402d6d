-- ===== src/Engine/Float.antt =====
-- Slack by activity: `signed_working`, `span_float`, `_free_float` and the rows of
-- sto/core/engine/criticality.py.
pub mod Measure
pub mod Permitted
use sto_scheduler_tracker_re.Prelude.{
  ℕ, List, [], ◌∷◌, Option, none, some, Bool, true, false, ◌&&◌, ◌||◌, not, leb, elem, find,
  if◌then◌else◌, ℤ, pos, sub_ℕ, neg_ℕ, min_ℤ, default,
}
use sto_scheduler_tracker_re.Calendar.Compiled.{
  CompiledIntervals, working_between, prev_working_start,
}
use sto_scheduler_tracker_re.Engine.Outcome.{Result, ok, ◌>>=◌, present, key_error, lag_unreachable}
use sto_scheduler_tracker_re.Engine.Model.{
  FloatBasis, elapsed, PlannedActivity, PlannedRelationship, Network, activity_by_uid,
  float_calendar, anchors_predecessor_finish, bounds_successor_start,
}
use sto_scheduler_tracker_re.Engine.Lag.{lag_calendar_for, unshift_lag}
use sto_scheduler_tracker_re.Engine.Place.{ActivityTimes, placed_at}

pub record ActivityFloat : Type 0 where
  pub uid : ℕ
  pub total_float : ℤ
  pub free_float : ℤ
  pub critical : Bool
  pub start_float : ℤ
  pub finish_float : ℤ
  pub complete : Bool

unfoldable pub signed_working : CompiledIntervals → ℕ → ℕ → ℤ
unfolding working_between
signed_working calendar start finish =
    if leb start finish
    then pos (working_between calendar start finish)
    else neg_ℕ (working_between calendar finish start)

unfoldable pub span_float : ℕ → ℕ → ℤ
span_float early late = sub_ℕ late early

-- `measure`, in the activity's own basis.
unfoldable pub measure : FloatBasis → CompiledIntervals → ℕ → ℕ → ℤ
unfolding span_float signed_working
measure elapsed calendar start finish = span_float start finish
measure _ calendar start finish = signed_working calendar start finish

-- The sets and the limits that `float_analysis` gathers for `_free_float`.
pub record FloatContext : Type 0 where
  pub network : Network
  pub early : List ActivityTimes
  pub movement_limits : List (ℕ × ℕ × ℕ)
  pub snapped_zero_spans : List ℕ
  pub calendar_placed_starts : List ℕ
  pub immovable : List ℕ
  pub project_late_finish : ℕ

-- `available_spans`
abbrev pub available : ActivityTimes → (onto : Bool) → ℕ
available row true = default row.early_start row.remaining_start
available row false = row.early_finish

-- The test for the pull back to where the predecessor can be placed.
abbrev pub must_snap : FloatContext → ℕ → (from_finish : Bool) → Bool
must_snap c u from_finish =
    (elem u c.snapped_zero_spans && from_finish)
    || (not from_finish && elem u c.calendar_placed_starts)

-- The coordinate up to which the edge lets its predecessor move.
unfoldable pub permitted : FloatContext → PlannedActivity → PlannedRelationship → Result ℕ
unfolding placed_at activity_by_uid lag_calendar_for unshift_lag bounds_successor_start
    anchors_predecessor_finish
permitted c a r = do
  scheduled ← present (activity_by_uid c.network r.successor_uid) key_error (some r.successor_uid)
  successor ← present (placed_at c.early r.successor_uid) key_error (some r.successor_uid)
  (_, start_limit, finish_limit) ←
      present (find (λ (l : ℕ × ℕ × ℕ). l.0) a.uid c.movement_limits) key_error (some a.uid)
  at ←
      present
        (unshift_lag (lag_calendar_for r scheduled.calendar)
          (available successor (bounds_successor_start r)) r.lag
          (some (if anchors_predecessor_finish r then finish_limit else start_limit)))
        lag_unreachable (some r.uid)
  present
      (if must_snap c a.uid (anchors_predecessor_finish r)
        then prev_working_start a.calendar at
        else some at)
      lag_unreachable (some r.uid)

abbrev pub edge_slack_of :
    FloatContext
    → PlannedActivity
    → ActivityTimes
    → PlannedRelationship
    → (boundary : Option ℕ) → Result ℤ
edge_slack_of c a row r (some boundary) = ok (pos 0)
edge_slack_of c a row r none = do
  at ← permitted c a r
  ok (
      measure a.float_basis (float_calendar a)
        (if anchors_predecessor_finish r then row.early_finish else row.early_start) at)

-- One round of the loop of `_free_float`.
unfoldable pub edge_slack :
    FloatContext → PlannedActivity → ActivityTimes → PlannedRelationship → Result ℤ
unfolding permitted measure float_calendar anchors_predecessor_finish
edge_slack c a row r = edge_slack_of c a row r r.inactive_boundary_uid

-- The loop, with `min(slacks)` taken on the way.
unfoldable pub least_slack :
    FloatContext
    → PlannedActivity
    → ActivityTimes
    → PlannedRelationship
    → List PlannedRelationship
    → Result ℤ
unfolding edge_slack
least_slack c a row r [] = edge_slack c a row r
least_slack c a row r (other ∷ rest) = do
  slack ← edge_slack c a row r
  others ← least_slack c a row other rest
  ok (min_ℤ slack others)

abbrev pub movable_float :
    FloatContext → PlannedActivity → ActivityTimes → List PlannedRelationship → Result ℤ
movable_float c a row [] =
    ok (measure a.float_basis (float_calendar a) row.early_finish c.project_late_finish)
movable_float c a row (r ∷ rest) = least_slack c a row r rest

-- `_free_float`
unfoldable pub free_float :
    FloatContext → PlannedActivity → ActivityTimes → List PlannedRelationship → Result ℤ
unfolding least_slack measure float_calendar
free_float c a row outgoing =
    let movable = movable_float c a row outgoing in
    if elem a.uid c.immovable then ok (pos 0) else movable
