-- ===== src/Tests/Samples.antt =====
-- Small inputs for the tests: two working days of eight units with a break in each, and two networks.
use sto_scheduler_tracker_re.Prelude.{ℕ, [], ◌∷◌, Option, none, some, true, ℤ, pos, negsuc}
use sto_scheduler_tracker_re.Calendar.Intervals.{Intervals}
use sto_scheduler_tracker_re.Calendar.Compiled.{CompiledIntervals, of}
use sto_scheduler_tracker_re.Engine.Model.{
  ConstraintType, asap, snet, mso, fs, ss, ff, working, PlannedActivity, PlannedRelationship,
  RelationshipType, Network,
}
use sto_scheduler_tracker_re.Engine.Progress.{
  none_declared, retained_logic, ProgressState, not_started, in_progress, complete,
}
use sto_scheduler_tracker_re.Engine.Forward.{ForwardPass}
use sto_scheduler_tracker_re.Engine.Place.{
  Source, from_project_start, from_relationship, from_constraint, from_actuals, from_status_time,
  ActivityTimes,
}

-- Out of order, with two intervals that touch and an empty one.
abbrev pub raw : Intervals
raw = (32, 36) ∷ (8, 10) ∷ (10, 12) ∷ (13, 17) ∷ (20, 20) ∷ (37, 41) ∷ []

abbrev pub days : CompiledIntervals
days = of raw

abbrev pub task : ℕ → ℕ → ConstraintType → Option ℕ → PlannedActivity
task u d ct at = record {
  uid = u;
  duration = pos d;
  calendar = days;
  constraint_type = ct;
  constraint_coordinate = at;
  actual_start = none;
  actual_finish = none;
  remaining_duration = none;
  measure_calendar = none;
  float_basis = working;
  assignment_envelope = none;
}

abbrev pub edge : ℕ → ℕ → ℕ → RelationshipType → ℤ → PlannedRelationship
edge u p s t lag = record {
  uid = u;
  predecessor_uid = p;
  successor_uid = s;
  type = t;
  lag = lag;
  lag_calendar = none;
  inactive_boundary_uid = none;
}

-- A chain with a lag and a lead, and a row that a must-start-on date moves before its logic.
abbrev pub planned : Network
planned = record {
  activities =
      task 1 4 asap none
      ∷ task 2 6 asap none
      ∷ task 3 2 mso (some 14)
      ∷ task 4 0 snet (some 38)
      ∷ [];
  relationships =
      edge 21 1 2 fs (pos 1)
      ∷ edge 22 2 3 fs (negsuc 0)
      ∷ edge 23 2 4 ff (pos 0)
      ∷ edge 24 1 4 ss (pos 2)
      ∷ [];
  project_start = 8;
  horizon = 41;
  status_time = none;
}

-- The same work in progress: the first row is complete and the second under way.
abbrev pub reported : Network
reported = record planned {
  activities =
      record (task 1 4 asap none) { actual_start = some 8; actual_finish = some 13 }
      ∷ record (task 2 6 asap none) { actual_start = some 12; remaining_duration = some (pos 5) }
      ∷ task 5 2 asap none
      ∷ [];
  relationships = edge 21 1 2 fs (pos 1) ∷ edge 25 2 5 fs (pos 0) ∷ [];
  status_time = some 15;
}

abbrev pub row_of : ℕ → ℕ → ℕ → Option ℕ → Source → ProgressState → Option ℕ → ActivityTimes
row_of u s f held source state remaining_start = record {
  uid = u;
  early_start = s;
  early_finish = f;
  driving_relationship_uid = held;
  source = source;
  state = state;
  remaining_start = remaining_start;
}

abbrev pub planned_pass : ForwardPass
planned_pass = record {
  times =
      row_of 1 8 12 none from_project_start not_started none
      ∷ row_of 2 14 35 (some 21) from_relationship not_started none
      ∷ row_of 3 14 16 none from_constraint not_started none
      ∷ row_of 4 38 38 none from_constraint not_started none
      ∷ [];
  order = 1 ∷ 2 ∷ 3 ∷ 4 ∷ [];
  project_start = 8;
  project_finish = 38;
  deferred_constraints = [];
  constraint_violations =
      record { activity_uid = 3; type = mso; coordinate = 14; logic_required = 34 } ∷ [];
  unbounded_starts = [];
  progress_policy = none_declared;
  snap_milestones = true;
}

abbrev pub reported_pass : ForwardPass
reported_pass = record {
  times =
      row_of 1 8 13 none from_actuals complete none
      ∷ row_of 2 12 35 none from_status_time in_progress (some 15)
      ∷ row_of 5 35 38 (some 25) from_relationship not_started none
      ∷ [];
  order = 1 ∷ 2 ∷ 5 ∷ [];
  project_start = 8;
  project_finish = 38;
  deferred_constraints = [];
  constraint_violations = [];
  unbounded_starts = [];
  progress_policy = retained_logic;
  snap_milestones = true;
}
