-- ===== src/Engine/Validate.antt =====
-- `Network.validate` of sto/core/engine/network.py: each loop is a function over the rows left, with
-- the sets and dictionaries that it fills. `float_basis` has no third value here, so its check is
-- the type's.
pub mod Sound
pub mod Whole
use sto_scheduler_tracker_re.Prelude.{
  ℕ, List, [], ◌∷◌, ◌++◌, Option, none, some, Bool, true, false, ◌&&◌, ◌||◌, not, ltb, leb, ◌==◌,
  if◌then◌else◌, ℤ, pos, negsuc, any, elem, is_some, length, map,
}
use sto_scheduler_tracker_re.Calendar.Intervals.{Intervals}
use sto_scheduler_tracker_re.Engine.Outcome.{
  Result, ok, ◌>>◌, raise_if, present, horizon_invalid, status_time_invalid, duplicate_activity,
  duration_negative, calendar_empty, measure_calendar_empty, assignment_envelope_invalid,
  constraint_incomplete, remaining_negative, actual_finish_without_start, remaining_unknown,
  actuals_inverted, duplicate_relationship, unknown_activity, self_relationship,
  inactive_boundary_unsupported, key_error, ◌>>=◌,
}
use sto_scheduler_tracker_re.Engine.Model.{
  RelationshipType, AssignmentPlacement, PlannedActivity, PlannedRelationship, Network, is_dated,
  is_asap, is_zero, float_calendar, has_started, is_complete, activity_by_uid,
}

abbrev pub is_empty : Intervals → Bool
is_empty [] = true
is_empty (_ ∷ _) = false

abbrev pub is_negative : ℤ → Bool
is_negative (pos _) = false
is_negative (negsuc _) = true

-- `value is not None and value < 0`
abbrev pub negative_if_known : Option ℤ → Bool
negative_if_known none = false
negative_if_known (some v) = is_negative v

-- `work_duration <= 0 or not placement.calendar.intervals`
unfoldable pub bad_placement : AssignmentPlacement → Bool
bad_placement p =
    is_negative p.work_duration || is_zero p.work_duration || is_empty p.calendar.intervals

unfoldable pub bad_envelope : PlannedActivity → Option (List AssignmentPlacement) → Bool
unfolding bad_placement has_started
bad_envelope a none = false
bad_envelope a (some placements) =
    ltb (length placements) 2
    || has_started a
    || not (is_asap a.constraint_type)
    || any bad_placement placements

-- Both dates are reported, and the finish lies before the start.
abbrev pub inverted : Option ℕ → Option ℕ → Bool
inverted (some start) (some finish) = ltb finish start
inverted _ _ = false

unfoldable pub validate_activity : List ℕ → PlannedActivity → Result (Unit {0})
unfolding bad_envelope float_calendar has_started is_complete
validate_activity seen a = do
  raise_if (elem a.uid seen) duplicate_activity (some a.uid)
  raise_if (is_negative a.duration) duration_negative (some a.uid)
  raise_if (is_empty a.calendar.intervals) calendar_empty (some a.uid)
  raise_if (is_empty (float_calendar a).intervals) measure_calendar_empty (some a.uid)
  raise_if (bad_envelope a a.assignment_envelope) assignment_envelope_invalid (some a.uid)
  raise_if (is_dated a.constraint_type && not (is_some a.constraint_coordinate))
      constraint_incomplete (some a.uid)
  raise_if (negative_if_known a.remaining_duration) remaining_negative (some a.uid)
  raise_if (is_some a.actual_finish && not (is_some a.actual_start)) actual_finish_without_start
      (some a.uid)
  raise_if (has_started a && not (is_complete a) && not (is_some a.remaining_duration))
      remaining_unknown (some a.uid)
  raise_if (inverted a.actual_start a.actual_finish) actuals_inverted (some a.uid)

unfoldable pub validate_activities : List ℕ → List PlannedActivity → Result (Unit {0})
unfolding validate_activity
validate_activities seen [] = ok tt
validate_activities seen (a ∷ rest) =
    validate_activity seen a >> validate_activities (a.uid ∷ seen) rest

-- The dictionaries that the loop over the relationships fills.
pub record Edges : Type 0 where
  pub seen : List ℕ
  pub boundary_of : List (ℕ × ℕ)
  pub boundaries : List (ℕ × List PlannedRelationship)

abbrev pub is_fs : RelationshipType → Bool
is_fs RelationshipType.fs = true
is_fs _ = false

-- `setdefault(boundary, []).append(row)`
unfoldable pub add_row :
    ℕ
    → PlannedRelationship
    → List (ℕ × List PlannedRelationship)
    → List (ℕ × List PlannedRelationship)
add_row u row [] = (u, row ∷ []) ∷ []
add_row u row ((v, rows) ∷ rest) =
    let others = add_row u row rest in
    if v == u then (v, rows ++ row ∷ []) ∷ rest else (v, rows) ∷ others

abbrev pub boundary_for : ℕ → List (ℕ × ℕ) → Option ℕ
boundary_for u [] = none
boundary_for u ((p, b) ∷ rest) = if p == u then some b else boundary_for u rest

-- `setdefault` on the predecessor, the check of what it held before, and the new row.
unfoldable pub record_boundary : Edges → PlannedRelationship → ℕ → Option ℕ → Result Edges
unfolding add_row
record_boundary edges r boundary none = ok (record edges {
  boundary_of = (r.predecessor_uid, boundary) ∷ edges.boundary_of;
  boundaries = add_row boundary r edges.boundaries;
})
record_boundary edges r boundary (some previous) = do
  raise_if (not (previous == boundary)) inactive_boundary_unsupported (some r.predecessor_uid)
  ok (record edges { boundaries = add_row boundary r edges.boundaries })

-- The part of the loop's body for an edge of an inactive boundary.
unfoldable pub validate_boundary : Network → Edges → PlannedRelationship → ℕ → Result Edges
unfolding record_boundary activity_by_uid has_started
validate_boundary network edges r boundary = do
  raise_if (not (is_fs r.type) || not (is_zero r.lag) || is_some r.lag_calendar)
      inactive_boundary_unsupported (some boundary)
  predecessor ←
      present (activity_by_uid network r.predecessor_uid) key_error (some r.predecessor_uid)
  successor ← present (activity_by_uid network r.successor_uid) key_error (some r.successor_uid)
  raise_if (has_started predecessor || has_started successor) inactive_boundary_unsupported
      (some boundary)
  record_boundary edges r boundary (boundary_for r.predecessor_uid edges.boundary_of)

abbrev pub boundary_step : Network → Edges → PlannedRelationship → Option ℕ → Result Edges
boundary_step network edges r none = ok edges
boundary_step network edges r (some boundary) = validate_boundary network edges r boundary

unfoldable pub validate_relationship : Network → Edges → PlannedRelationship → Result Edges
unfolding validate_boundary
validate_relationship network edges r = do
  raise_if (elem r.uid edges.seen) duplicate_relationship (some r.uid)
  let known = map (λ (a : PlannedActivity). a.uid) network.activities
  raise_if (not (elem r.predecessor_uid known) || not (elem r.successor_uid known)) unknown_activity
      (some r.uid)
  raise_if (r.predecessor_uid == r.successor_uid) self_relationship (some r.uid)
  boundary_step network (record edges { seen = r.uid ∷ edges.seen }) r r.inactive_boundary_uid

unfoldable pub validate_relationships : Network → Edges → List PlannedRelationship → Result Edges
unfolding validate_relationship
validate_relationships network edges [] = ok edges
validate_relationships network edges (r ∷ rest) = do
  edges' ← validate_relationship network edges r
  validate_relationships network edges' rest

-- `len({row.successor_uid for row in rows}) != len(rows)`
abbrev pub repeats : (PlannedRelationship → ℕ) → List PlannedRelationship → Bool
repeats key [] = false
repeats key (r ∷ rest) =
    if any (λ (s : PlannedRelationship). key s == key r) rest then true else repeats key rest

-- `len({row.predecessor_uid for row in rows}) != 1`
abbrev pub differ : (PlannedRelationship → ℕ) → List PlannedRelationship → Bool
differ key [] = true
differ key (r ∷ rest) = any (λ (s : PlannedRelationship). not (key s == key r)) rest

unfoldable pub validate_groups : List (ℕ × List PlannedRelationship) → Result (Unit {0})
validate_groups [] = ok tt
validate_groups ((boundary, rows) ∷ rest) = do
  raise_if (not (length rows == 1) && not (length rows == 2)) inactive_boundary_unsupported
      (some boundary)
  raise_if (differ (λ r. r.predecessor_uid) rows) inactive_boundary_unsupported (some boundary)
  raise_if (repeats (λ r. r.successor_uid) rows) inactive_boundary_unsupported (some boundary)
  validate_groups rest

-- `not (project_start <= status_time <= horizon)`, where there is a status time.
abbrev pub outside : Network → Option ℕ → Bool
outside network none = false
outside network (some t) = not (leb network.project_start t && leb t network.horizon)

unfoldable pub validate : Network → Result (Unit {0})
unfolding validate_activities validate_relationships validate_groups
validate network = do
  raise_if (leb network.horizon network.project_start) horizon_invalid none
  raise_if (outside network network.status_time) status_time_invalid none
  validate_activities [] network.activities
  edges ←
      validate_relationships network (record { seen = []; boundary_of = []; boundaries = [] })
        network.relationships
  validate_groups edges.boundaries
