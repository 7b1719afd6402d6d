-- ===== src/Engine/Placement.antt =====
-- `_place` and `_driver` of sto/core/engine/forward.py.
use sto_scheduler_tracker_re.Prelude.{
  ℕ, zero, min, max, List, [], ◌∷◌, Option, none, some, Bool, false, ◌||◌, not, ltb, leb, ◌==◌,
  if◌then◌else◌, ℤ, pos, negsuc, is_some,
}
use sto_scheduler_tracker_re.Calendar.Compiled.{CompiledIntervals, next_working}
use sto_scheduler_tracker_re.Calendar.Spans.{Span, earliest_span}
use sto_scheduler_tracker_re.Engine.Outcome.{
  Result, ok, raise, ◌>>=◌, ◌>>◌, raise_if, present, horizon_exceeded, value_error,
  assignment_envelope_unmeasured_bound, constraint_incomplete,
}
use sto_scheduler_tracker_re.Engine.Model.{AssignmentPlacement, PlannedActivity, is_zero}
use sto_scheduler_tracker_re.Engine.Lag.{add_working, sub_working}

-- `pinned`
pub data Pin : Type 0 where
  on_start on_finish : Pin

abbrev pub same_int : ℤ → ℤ → Bool
same_int (pos a) (pos b) = a == b
same_int (negsuc a) (negsuc b) = a == b
same_int _ _ = false

-- `spans`, where none of them is missing.
unfoldable pub envelope_spans :
    (start_bound horizon : ℕ) → List AssignmentPlacement → Option (List Span)
envelope_spans start_bound horizon [] = some []
envelope_spans start_bound horizon (row ∷ rest) =
    elim (earliest_span row.calendar start_bound start_bound row.work_duration horizon) [
      | none ↦ none
      | some span ↦ elim (envelope_spans start_bound horizon rest) [
        | none ↦ none
        | some spans ↦ some (span ∷ spans)
      ]
    ]

-- `min(...)` of the starts and `max(...)` of the finishes, from the first span on.
unfoldable pub hull : Span → List Span → Span
hull span [] = span
hull (s, f) ((s', f') ∷ rest) = hull (min s s', max f f') rest

abbrev pub hull_of : List Span → Result Span
hull_of [] = raise value_error none
hull_of (span ∷ rest) = ok (hull span rest)

unfoldable pub place_envelope :
    PlannedActivity
    → List AssignmentPlacement
    → ℤ
    → (start_bound finish_bound horizon : ℕ) → Option Pin
    → Result Span
unfolding envelope_spans hull
place_envelope activity rows duration start_bound finish_bound horizon pinned = do
  raise_if
      (is_some pinned || not (same_int duration activity.duration) || ltb start_bound finish_bound)
      assignment_envelope_unmeasured_bound (some activity.uid)
  spans ← present (envelope_spans start_bound horizon rows) horizon_exceeded (some activity.uid)
  (s, f) ← hull_of spans
  raise_if (ltb f finish_bound) assignment_envelope_unmeasured_bound (some activity.uid)
  ok (s, f)

-- A must-start-on or must-finish-on date.
unfoldable pub place_pinned : PlannedActivity → ℤ → ℕ → Pin → ℕ → Result Span
unfolding add_working sub_working
place_pinned activity duration horizon on_start coordinate = do
  found ←
      (if is_zero duration
        then ok (some coordinate)
        else add_working activity.calendar coordinate duration)
  f ← present found horizon_exceeded (some activity.uid)
  raise_if (ltb horizon f) horizon_exceeded (some activity.uid)
  ok (coordinate, f)
place_pinned activity duration horizon on_finish coordinate = do
  found ←
      (if is_zero duration
        then ok (some coordinate)
        else sub_working activity.calendar coordinate duration)
  s ← present found horizon_exceeded (some activity.uid)
  raise_if (ltb horizon coordinate) horizon_exceeded (some activity.uid)
  ok (s, coordinate)

-- `next_working` where milestones snap.
abbrev pub snapped : Bool → CompiledIntervals → ℕ → Option ℕ
snapped snap calendar moment = if snap then next_working calendar moment else some moment

unfoldable pub place_free :
    PlannedActivity → ℤ → (start_bound finish_bound horizon : ℕ) → Bool → Result Span
place_free activity (pos zero) start_bound finish_bound horizon snap = do
  moment ←
      present (snapped snap activity.calendar (max start_bound finish_bound)) horizon_exceeded
        (some activity.uid)
  raise_if (ltb horizon moment) horizon_exceeded (some activity.uid)
  ok (moment, moment)
place_free activity duration start_bound finish_bound horizon snap =
    present (earliest_span activity.calendar start_bound finish_bound duration horizon)
      horizon_exceeded (some activity.uid)

abbrev pub place_row :
    PlannedActivity
    → Option (List AssignmentPlacement)
    → ℤ
    → (start_bound finish_bound horizon : ℕ) → Bool
    → Option Pin
    → Option ℕ
    → Result Span
place_row activity (some rows) duration start_bound finish_bound horizon snap pinned coordinate =
    place_envelope activity rows duration start_bound finish_bound horizon pinned
place_row activity none duration start_bound finish_bound horizon snap none coordinate =
    place_free activity duration start_bound finish_bound horizon snap
place_row activity none duration start_bound finish_bound horizon snap (some pin) coordinate = do
  at ← present coordinate constraint_incomplete (some activity.uid)
  place_pinned activity duration horizon pin at

unfoldable pub place :
    PlannedActivity
    → ℤ
    → (start_bound finish_bound horizon : ℕ) → Bool
    → Option Pin
    → Option ℕ
    → Result Span
unfolding place_envelope place_pinned place_free
place activity duration start_bound finish_bound horizon snap pinned coordinate =
    place_row activity activity.assignment_envelope duration start_bound finish_bound horizon snap
      pinned coordinate

abbrev pub milestone_at : Option ℕ → Option Span
milestone_at none = none
milestone_at (some moment) = some (moment, moment)

-- The replay of `_driver` without the finish bound.
unfoldable pub without_finish :
    PlannedActivity → ℤ → (start_bound floor horizon : ℕ) → Bool → Option Span
without_finish activity (pos zero) start_bound floor horizon snap =
    milestone_at (snapped snap activity.calendar (max start_bound floor))
without_finish activity duration start_bound floor horizon snap =
    earliest_span activity.calendar start_bound floor duration horizon

abbrev pub reaches : ℕ → Option Span → Bool
reaches finish_bound none = false
reaches finish_bound (some (s, f)) = leb finish_bound f

unfoldable pub driver :
    PlannedActivity
    → ℤ
    → (start_bound finish_bound : ℕ) → (start_driver finish_driver : Option ℕ) → (floor horizon : ℕ)
    → Bool
    → Option ℕ
unfolding without_finish
driver activity duration start_bound finish_bound start_driver none floor horizon snap =
    start_driver
driver activity duration start_bound finish_bound start_driver (some uid) floor horizon snap =
    if reaches finish_bound (without_finish activity duration start_bound floor horizon snap)
    then start_driver
    else some uid
