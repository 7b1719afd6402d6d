-- ===== src/Engine/Late/Placement.antt =====
-- `_place` and `_driver` of sto/core/engine/backward.py, and the constraints that its loop reads.
use sto_scheduler_tracker_re.Prelude.{
  ℕ, zero, min, List, [], ◌∷◌, Option, none, some, Bool, true, false, ◌||◌, not, ltb, leb,
  if◌then◌else◌, ℤ, pos, is_some, default,
}
use sto_scheduler_tracker_re.Calendar.Compiled.{CompiledIntervals, first, prev_working_start}
use sto_scheduler_tracker_re.Calendar.Spans.{Span, latest_span}
use sto_scheduler_tracker_re.Engine.Outcome.{
  Result, ok, ◌>>=◌, ◌>>◌, raise_if, present, floor_exceeded, assignment_envelope_unmeasured_bound,
  constraint_incomplete,
}
use sto_scheduler_tracker_re.Engine.Model.{
  AssignmentPlacement, ConstraintType, snlt, fnlt, mso, mfo, PlannedActivity, is_zero, remaining,
}
use sto_scheduler_tracker_re.Engine.Lag.{add_working, sub_working}
use sto_scheduler_tracker_re.Engine.Place.{calendar_floor}
use sto_scheduler_tracker_re.Engine.Placement.{Pin, on_start, on_finish, same_int, hull_of}
use sto_scheduler_tracker_re.Engine.Late.{
  LateSource, project_finish, relationship, constraint, UpperBound,
}

-- `spans`, where none of them is missing.
unfoldable pub late_spans :
    (start_bound finish_bound : ℕ) → List AssignmentPlacement → Option (List Span)
unfolding first latest_span
late_spans start_bound finish_bound [] = some []
late_spans start_bound finish_bound (row ∷ rest) =
    elim (latest_span row.calendar start_bound finish_bound row.work_duration
      (default 0 (first row.calendar))) [
        | none ↦ none
        | some span ↦ elim (late_spans start_bound finish_bound rest) [
          | none ↦ none
          | some spans ↦ some (span ∷ spans)
        ]
      ]

unfoldable pub place_late_envelope :
    PlannedActivity
    → List AssignmentPlacement
    → ℤ
    → (start_bound finish_bound : ℕ) → Option Pin
    → Result Span
unfolding late_spans
place_late_envelope activity rows duration start_bound finish_bound pinned = do
  raise_if (is_some pinned || not (same_int duration activity.duration))
      assignment_envelope_unmeasured_bound (some activity.uid)
  spans ← present (late_spans start_bound finish_bound rows) floor_exceeded (some activity.uid)
  (s, f) ← hull_of spans
  raise_if (ltb start_bound s || ltb finish_bound f) assignment_envelope_unmeasured_bound
      (some activity.uid)
  ok (s, f)

-- A must-start-on or must-finish-on date.
unfoldable pub place_late_pinned : PlannedActivity → ℤ → Pin → ℕ → Result Span
unfolding add_working sub_working calendar_floor
place_late_pinned activity duration on_start coordinate = do
  found ←
      (if is_zero duration
        then ok (some coordinate)
        else add_working activity.calendar coordinate duration)
  f ← present found floor_exceeded (some activity.uid)
  raise_if (ltb coordinate (calendar_floor activity)) floor_exceeded (some activity.uid)
  ok (coordinate, f)
place_late_pinned activity duration on_finish coordinate = do
  found ←
      (if is_zero duration
        then ok (some coordinate)
        else sub_working activity.calendar coordinate duration)
  s ← present found floor_exceeded (some activity.uid)
  raise_if (ltb s (calendar_floor activity)) floor_exceeded (some activity.uid)
  ok (s, coordinate)

-- `prev_working_start` where milestones snap.
abbrev pub snapped_back : Bool → CompiledIntervals → ℕ → Option ℕ
snapped_back snap calendar moment = if snap then prev_working_start calendar moment else some moment

unfoldable pub place_late_free :
    PlannedActivity → ℤ → (start_bound finish_bound : ℕ) → Bool → Result Span
unfolding calendar_floor latest_span
place_late_free activity (pos zero) start_bound finish_bound snap = do
  moment ←
      present (snapped_back snap activity.calendar (min start_bound finish_bound)) floor_exceeded
        (some activity.uid)
  raise_if (ltb moment (calendar_floor activity)) floor_exceeded (some activity.uid)
  ok (moment, moment)
place_late_free activity duration start_bound finish_bound snap =
    present
      (latest_span activity.calendar start_bound finish_bound duration (calendar_floor activity))
      floor_exceeded (some activity.uid)

abbrev pub place_late_row :
    PlannedActivity
    → Option (List AssignmentPlacement)
    → ℤ
    → (start_bound finish_bound : ℕ) → Bool
    → Option Pin
    → Option ℕ
    → Result Span
place_late_row activity (some rows) duration start_bound finish_bound snap pinned coordinate =
    place_late_envelope activity rows duration start_bound finish_bound pinned
place_late_row activity none duration start_bound finish_bound snap none coordinate =
    place_late_free activity duration start_bound finish_bound snap
place_late_row activity none duration start_bound finish_bound snap (some pin) coordinate = do
  at ← present coordinate constraint_incomplete (some activity.uid)
  place_late_pinned activity duration pin at

-- `_place`
unfoldable pub place_late :
    PlannedActivity
    → ℤ
    → (start_bound finish_bound : ℕ) → Bool
    → Option Pin
    → Option ℕ
    → Result Span
unfolding place_late_envelope place_late_pinned place_late_free
place_late activity duration start_bound finish_bound snap pinned coordinate =
    place_late_row activity activity.assignment_envelope duration start_bound finish_bound snap
      pinned coordinate

abbrev pub begins_by : ℕ → Option Span → Bool
begins_by start_bound none = false
begins_by start_bound (some (s, f)) = leb s start_bound

-- `_driver`
unfoldable pub late_driver :
    PlannedActivity
    → ℤ
    → (start_bound finish_bound : ℕ) → (start_driver finish_driver : Option ℕ)
    → (project_late_finish : ℕ) → Option ℕ
unfolding latest_span calendar_floor
late_driver a duration start_bound finish_bound none finish_driver project_late_finish =
    finish_driver
late_driver a duration start_bound finish_bound (some uid) none project_late_finish = some uid
late_driver a duration start_bound finish_bound (some uid) (some other) project_late_finish =
    if begins_by start_bound
      (latest_span a.calendar project_late_finish finish_bound duration (calendar_floor a))
    then some other
    else some uid

-- The bounds once the constraint of a row that has not started is read.
pub record LateLimits : Type 0 where
  pub start : UpperBound
  pub finish : UpperBound
  pub pinned : Option Pin
  pub constrained : Bool

abbrev pub unconstrained : UpperBound → UpperBound → LateLimits
unconstrained start finish = record {
  start = start;
  finish = finish;
  pinned = none;
  constrained = false;
}

-- `start_bound, start_driver, constrained = coordinate, None, True`
abbrev pub set_by : ℕ → UpperBound
set_by coordinate = record { at = coordinate; driver = none }

unfoldable pub constrain_late : ConstraintType → Option ℕ → UpperBound → UpperBound → LateLimits
constrain_late snlt (some c) start finish =
    if ltb c start.at
    then record (unconstrained start finish) { start = set_by c; constrained = true }
    else unconstrained start finish
constrain_late fnlt (some c) start finish =
    if ltb c finish.at
    then record (unconstrained start finish) { finish = set_by c; constrained = true }
    else unconstrained start finish
constrain_late mso (some c) start finish = record (unconstrained start finish) {
  pinned = some on_start;
}
constrain_late mfo (some c) start finish = record (unconstrained start finish) {
  pinned = some on_finish;
}
constrain_late _ _ start finish = unconstrained start finish

-- The driver and the source of a row.
unfoldable pub late_held_by :
    PlannedActivity → LateLimits → (project_late_finish : ℕ) → Option ℕ × LateSource
unfolding late_driver remaining
late_held_by a l project_late_finish =
    let held =
      late_driver a (remaining a) l.start.at l.finish.at l.start.driver l.finish.driver
        project_late_finish in
    if is_some l.pinned || l.constrained
    then (none, constraint)
    else (held, if is_some held then relationship else project_finish)
