-- ===== src/Engine/Place.antt =====
-- The bounds of one activity: `ActivityTimes`, `_bounds` and `_calendar_floor` of
-- sto/core/engine/forward.py.
use sto_scheduler_tracker_re.Prelude.{
  ℕ, List, [], ◌∷◌, Option, none, some, Bool, true, ◌&&◌, ◌||◌, not, ltb, ◌==◌, if◌then◌else◌, find,
  is_some, default,
}
use sto_scheduler_tracker_re.Calendar.Compiled.{first}
use sto_scheduler_tracker_re.Engine.Outcome.{Result, ok, ◌>>=◌, present, lag_unreachable, key_error}
use sto_scheduler_tracker_re.Engine.Model.{
  PlannedActivity, PlannedRelationship, anchors_predecessor_finish, bounds_successor_start,
}
use sto_scheduler_tracker_re.Engine.Lag.{lag_calendar_for, shift_lag}
use sto_scheduler_tracker_re.Engine.Progress.{ProgressState}

pub data Source : Type 0 where
  from_project_start from_relationship from_constraint from_actuals from_status_time : Source

pub record ActivityTimes : Type 0 where
  pub uid : ℕ
  pub early_start : ℕ
  pub early_finish : ℕ
  pub driving_relationship_uid : Option ℕ
  pub source : Source
  pub state : ProgressState
  pub remaining_start : Option ℕ

-- The dictionary `placed`.
unfoldable pub placed_at : List ActivityTimes → ℕ → Option ActivityTimes
placed_at placed u = find (λ row. row.uid) u placed

-- A bound, where there is one, and the relationship that drives it.
pub record Bound : Type 0 where
  pub at : Option ℕ
  pub driver : Option ℕ

-- `bound is None or shifted > bound or (driver is None and shifted == bound)`
abbrev pub takes : Option ℕ → Option ℕ → ℕ → Bool
takes none driver shifted = true
takes (some b) driver shifted = ltb b shifted || (not (is_some driver) && shifted == b)

unfoldable pub raise_bound : Bound → ℕ → ℕ → Bound
raise_bound b shifted uid =
    if takes b.at b.driver shifted then record { at = some shifted; driver = some uid } else b

-- Where the relationship carries its predecessor's coordinate.
unfoldable pub landing : PlannedActivity → List ActivityTimes → PlannedRelationship → Result ℕ
unfolding placed_at anchors_predecessor_finish lag_calendar_for shift_lag
landing activity placed r = do
  predecessor ← present (placed_at placed r.predecessor_uid) key_error (some r.predecessor_uid)
  present
      (shift_lag (lag_calendar_for r activity.calendar)
        (if anchors_predecessor_finish r then predecessor.early_finish else predecessor.early_start)
        r.lag)
      lag_unreachable (some r.uid)

-- The loop of `_bounds`: the bounds on the start and on the finish.
unfoldable pub bounds_loop :
    PlannedActivity
    → List PlannedRelationship
    → List ActivityTimes
    → Bound
    → Bound
    → Result (Bound × Bound)
unfolding landing raise_bound bounds_successor_start
bounds_loop activity [] placed start finish = ok (start, finish)
bounds_loop activity (r ∷ rest) placed start finish = do
  shifted ← landing activity placed r
  (let onto = bounds_successor_start r in
      bounds_loop activity rest placed (if onto then raise_bound start shifted r.uid else start)
        (if onto then finish else raise_bound finish shifted r.uid))

unfoldable pub calendar_floor : PlannedActivity → ℕ
calendar_floor activity = default 0 (first activity.calendar)

pub record Limits : Type 0 where
  pub start_bound : ℕ
  pub finish_bound : ℕ
  pub start_driver : Option ℕ
  pub finish_driver : Option ℕ

-- What `_bounds` makes of a side that no edge reached, or that lies below the calendar.
abbrev pub start_limit : Bound → (unbounded_floor floor : ℕ) → Option ℕ → ℕ × Option ℕ
start_limit b unbounded_floor floor none = (unbounded_floor, none)
start_limit b unbounded_floor floor (some at) =
    if ltb at floor then (floor, none) else (at, b.driver)

abbrev pub finish_limit : Bound → ℕ → Option ℕ → ℕ × Option ℕ
finish_limit b floor none = (floor, none)
finish_limit b floor (some at) = if ltb at floor then (floor, none) else (at, b.driver)

unfoldable pub floored : PlannedActivity → ℕ → Bound → Bound → Limits
unfolding calendar_floor
floored activity unbounded_floor start finish =
    let s = start_limit start unbounded_floor (calendar_floor activity) start.at in
    let f = finish_limit finish (calendar_floor activity) finish.at in
    record { start_bound = s.0; finish_bound = f.0; start_driver = s.1; finish_driver = f.1 }

unfoldable pub bounds :
    PlannedActivity → List PlannedRelationship → List ActivityTimes → Option ℕ → ℕ → Result Limits
unfolding bounds_loop floored
bounds activity incoming placed base unbounded_floor = do
  (start, finish) ←
      bounds_loop activity incoming placed (record { at = base; driver = none })
        (record { at = base; driver = none })
  ok (floored activity unbounded_floor start finish)
