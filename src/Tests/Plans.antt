-- ===== src/Tests/Plans.antt =====
-- Inputs for the tests of the late dates and of the floats, and what the passes make of them.
use sto_scheduler_tracker_re.Prelude.{ℕ, ℤ, leb_ℤ, [], ◌∷◌, none, some, true, false, pos, Option}
use sto_scheduler_tracker_re.Engine.Model.{asap, alap, snet, snlt, Network}
use sto_scheduler_tracker_re.Engine.Progress.{none_declared, retained_logic, not_started}
use sto_scheduler_tracker_re.Engine.Forward.{ForwardPass}
use sto_scheduler_tracker_re.Engine.Backward.{LateRequest, BackwardPass}
use sto_scheduler_tracker_re.Engine.Late.{
  LateSource, relationship, project_finish, constraint, actuals, ActivityLateTimes,
}
use sto_scheduler_tracker_re.Engine.Criticality.{FloatAnalysis, FloatRequest}
use sto_scheduler_tracker_re.Tests.Samples.{planned, reported_pass, task, row_of}
use sto_scheduler_tracker_re.Engine.Place.{from_project_start, from_relationship, from_constraint}
use sto_scheduler_tracker_re.Engine.Float.{ActivityFloat}

-- The first sample network without its must-start-on date.
abbrev pub eased : Network
eased = record planned {
  activities =
      task 1 4 asap none ∷ task 2 6 alap none ∷ task 3 2 asap none ∷ task 4 0 snet (some 38) ∷ [];
}

abbrev pub request : ForwardPass → LateRequest
request pass = record {
  forward = pass;
  network_fingerprint = 7;
  snap_milestones = none;
  project_late_finish = none;
  progress_policy = none;
}

abbrev pub eased_pass : ForwardPass
eased_pass = record {
  times =
      row_of 1 8 12 none from_project_start not_started none
      ∷ row_of 2 14 35 (some 21) from_relationship not_started none
      ∷ row_of 3 34 36 (some 22) from_relationship not_started none
      ∷ row_of 4 38 38 none from_constraint not_started none
      ∷ [];
  order = 1 ∷ 2 ∷ 3 ∷ 4 ∷ [];
  project_start = 8;
  project_finish = 38;
  deferred_constraints = record { activity_uid = 2; type = alap } ∷ [];
  constraint_violations = [];
  unbounded_starts = [];
  progress_policy = none_declared;
  snap_milestones = true;
}

abbrev pub late_row_of : ℕ → ℕ → ℕ → Option ℕ → LateSource → Option ℕ → ActivityLateTimes
late_row_of u s f held source remaining_start = record {
  uid = u;
  late_start = s;
  late_finish = f;
  driving_relationship_uid = held;
  source = source;
  remaining_start = remaining_start;
}

abbrev pub late_two : ActivityLateTimes
late_two = late_row_of 2 15 36 (some 22) relationship none

abbrev pub eased_late : BackwardPass
eased_late = record {
  times =
      late_row_of 1 9 14 (some 21) relationship none
      ∷ late_two
      ∷ late_row_of 3 35 38 none project_finish none
      ∷ late_row_of 4 38 38 none project_finish none
      ∷ [];
  order = 4 ∷ 3 ∷ 2 ∷ 1 ∷ [];
  project_late_finish = 38;
  deferred_constraints = record { activity_uid = 2; type = alap } ∷ [];
  overridden_relationships = [];
  network_fingerprint = 7;
  progress_policy = none_declared;
  snap_milestones = true;
  project_late_finish_explicit = false;
}

abbrev pub float_request : FloatRequest
float_request = record {
  forward = eased_pass;
  forward_fingerprint = 7;
  backward = eased_late;
  threshold = pos 0;
}

abbrev pub float_row_of : ℕ → ℤ → ℤ → ActivityFloat
float_row_of u total free = record {
  uid = u;
  total_float = total;
  free_float = free;
  critical = leb_ℤ total (pos 0);
  start_float = total;
  finish_float = total;
  complete = false;
}

abbrev pub eased_float : FloatAnalysis
eased_float = record {
  rows =
      float_row_of 1 (pos 1) (pos 0)
      ∷ float_row_of 2 (pos 1) (pos 0)
      ∷ float_row_of 3 (pos 1) (pos 1)
      ∷ float_row_of 4 (pos 0) (pos 0)
      ∷ [];
  threshold = pos 0;
  project_late_finish = 38;
}

-- The same network with a date that its third row must start by.
abbrev pub limited : Network
limited = record eased {
  activities =
      task 1 4 asap none
      ∷ task 2 6 alap none
      ∷ task 3 2 snlt (some 34)
      ∷ task 4 0 snet (some 38)
      ∷ [];
}

abbrev pub limited_pass : ForwardPass
limited_pass = record eased_pass {
  deferred_constraints =
      record { activity_uid = 2; type = alap } ∷ record { activity_uid = 3; type = snlt } ∷ [];
}

abbrev pub limited_late : BackwardPass
limited_late = record eased_late {
  times =
      late_row_of 1 8 12 (some 21) relationship none
      ∷ late_row_of 2 14 35 (some 22) relationship none
      ∷ late_row_of 3 34 36 none constraint none
      ∷ late_row_of 4 38 38 none project_finish none
      ∷ [];
}

-- The late dates of the second sample network.
abbrev pub reported_late : BackwardPass
reported_late = record {
  times =
      late_row_of 1 8 13 none actuals none
      ∷ late_row_of 2 12 35 (some 25) relationship (some 15)
      ∷ late_row_of 5 35 38 none project_finish none
      ∷ [];
  order = 5 ∷ 2 ∷ 1 ∷ [];
  project_late_finish = 38;
  deferred_constraints = [];
  overridden_relationships = [];
  network_fingerprint = 7;
  progress_policy = retained_logic;
  snap_milestones = true;
  project_late_finish_explicit = false;
}

abbrev pub reported_request : FloatRequest
reported_request = record {
  forward = reported_pass;
  forward_fingerprint = 7;
  backward = reported_late;
  threshold = pos 0;
}

abbrev pub done_float : ActivityFloat
done_float = record (float_row_of 1 (pos 0) (pos 0)) { critical = false; complete = true }

abbrev pub reported_float : FloatAnalysis
reported_float = record {
  rows = done_float ∷ float_row_of 2 (pos 0) (pos 0) ∷ float_row_of 5 (pos 0) (pos 0) ∷ [];
  threshold = pos 0;
  project_late_finish = 38;
}
