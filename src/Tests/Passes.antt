-- ===== src/Tests/Passes.antt =====
-- The forward pass of sto/core/engine/forward.py on the two sample networks, and its theorems at their
-- rows.
use sto_scheduler_tracker_re.Prelude.{
  ℕ, ◌≡◌, ◌≤◌, refl, Option, none, some, true, All, ◌⊎◌, pos, elem, any, arith, [], ◌∷◌,
}
use sto_scheduler_tracker_re.Calendar.Compiled.{
  of, first, next_working, add_productive, sub_productive, normalise,
}
use sto_scheduler_tracker_re.Calendar.Spans.{earliest_span}
use sto_scheduler_tracker_re.Engine.Outcome.{ok}
use sto_scheduler_tracker_re.Engine.Model.{
  Network, ff, asap, snet, mso, PlannedActivity, predecessors, activity_by_uid, remaining,
  bounds_successor_start,
}
use sto_scheduler_tracker_re.Engine.Progress.{
  none_declared, retained_logic, not_started, in_progress, complete, state_of,
}
use sto_scheduler_tracker_re.Engine.Place.{
  placed_at, from_project_start, from_relationship, from_constraint, from_actuals, from_status_time,
  landing, ActivityTimes,
}
use sto_scheduler_tracker_re.Engine.Forward.{ForwardPass, forward_pass}
use sto_scheduler_tracker_re.Engine.Forward.Spans.{HasCalendars}
use sto_scheduler_tracker_re.Engine.Forward.Logic.{Honours}
use sto_scheduler_tracker_re.Engine.Forward.Honours.{forward_pass-Honours}
use sto_scheduler_tracker_re.Engine.Forward.Reported.{
  forward_pass-keeps_actuals, Resumes, forward_pass-Resumes,
}
use sto_scheduler_tracker_re.Engine.Forward.Rounds.{violated}
use sto_scheduler_tracker_re.Engine.Forward.Answer.{IsPassOf, forward_pass-IsPassOf}
use sto_scheduler_tracker_re.Engine.Forward.Dated.{Dates, forward_pass-Dates}
use sto_scheduler_tracker_re.Engine.Forward.Violations.{HonoursPinned, forward_pass-records}
use sto_scheduler_tracker_re.Engine.Forward.Early.{IsAllowed, forward_pass-Least}
use sto_scheduler_tracker_re.Engine.Forward.Drivers.{IsDecisive, forward_pass-drivers}
use sto_scheduler_tracker_re.Engine.Results.{
  driving_relationships, drives, driving_relationships-lists,
}
use sto_scheduler_tracker_re.Engine.Topology.Sets.{IsDistinct}
use sto_scheduler_tracker_re.Calendar.Reference.{
  contains_coordinate, consume_loop, consume_duration,
}
use sto_scheduler_tracker_re.Engine.Forward.Within.{forward_pass-Within}
use sto_scheduler_tracker_re.Tests.Samples.{
  raw, task, edge, planned, reported, row_of, planned_pass, reported_pass,
}

pub planned-runs : forward_pass planned true none_declared ≡ ok planned_pass
unfolding forward_pass of first next_working earliest_span add_productive sub_productive
planned-runs = refl

pub reported-runs : forward_pass reported true retained_logic ≡ ok reported_pass
unfolding forward_pass of first next_working earliest_span add_productive sub_productive
reported-runs = refl

abbrev pub done : PlannedActivity
done = record (task 1 4 asap none) { actual_start = some 8; actual_finish = some 13 }

abbrev under_way : PlannedActivity
under_way = record (task 2 6 asap none) {
  actual_start = some 12;
  remaining_duration = some (pos 5);
}

planned-calendars : All HasCalendars planned.activities
planned-calendars =
    (((raw, refl), tt), (((raw, refl), tt), (((raw, refl), tt), (((raw, refl), tt), tt))))

pub reported-calendars : All HasCalendars reported.activities
reported-calendars = (((raw, refl), tt), (((raw, refl), tt), (((raw, refl), tt), tt)))

forward_pass-Honours_example :
    All (Honours planned_pass.times (task 2 6 asap none) 14 35) (predecessors planned 2)
unfolding activity_by_uid placed_at state_of
forward_pass-Honours_example =
    forward_pass-Honours planned true none_declared (task 2 6 asap none)
      (row_of 2 14 35 (some 21) from_relationship not_started none) planned-calendars planned-runs
      refl refl refl refl

forward_pass-IsPassOf_example : IsPassOf planned planned_pass
forward_pass-IsPassOf_example = forward_pass-IsPassOf planned true none_declared planned-runs

forward_pass-Dates_example : Dates snet (some 38) 38 38
unfolding activity_by_uid placed_at state_of
forward_pass-Dates_example =
    forward_pass-Dates planned true none_declared (task 4 0 snet (some 38))
      (row_of 4 38 38 none from_constraint not_started none) planned-calendars planned-runs refl
      refl refl

forward_pass-records_example :
    All
      (HonoursPinned true planned_pass.times (task 3 2 mso (some 14)) 14 16)
      (predecessors planned 3)
    ⊎ (violated planned_pass.constraint_violations 3 ≡ true)
unfolding activity_by_uid placed_at state_of
forward_pass-records_example =
    forward_pass-records planned true none_declared (task 3 2 mso (some 14))
      (row_of 3 14 16 none from_constraint not_started none) planned-runs refl refl refl refl

forward_pass-Within_example : 35 ≤ 41
unfolding activity_by_uid placed_at state_of
forward_pass-Within_example =
    forward_pass-Within planned true none_declared (task 2 6 asap none)
      (row_of 2 14 35 (some 21) from_relationship not_started none) planned-calendars planned-runs
      refl refl (λ same. cc)

forward_pass-keeps_actuals_example :
    (done.actual_start ≡ some 8) × (done.actual_finish ≡ some 13) × (◌≡◌ {A = Option ℕ} none none)
unfolding activity_by_uid placed_at state_of
forward_pass-keeps_actuals_example =
    forward_pass-keeps_actuals reported true retained_logic done
      (row_of 1 8 13 none from_actuals complete none) reported-runs refl refl refl

forward_pass-Resumes_example :
    Resumes reported retained_logic reported_pass.times under_way
      (row_of 2 12 35 none from_status_time in_progress (some 15))
unfolding activity_by_uid placed_at state_of
forward_pass-Resumes_example =
    forward_pass-Resumes reported true retained_logic under_way
      (row_of 2 12 35 none from_status_time in_progress (some 15)) reported-calendars reported-runs
      refl refl refl

-- Dates one unit behind those of the second row.
second-IsAllowed : IsAllowed planned planned_pass.times (task 2 6 asap none) raw 6 15 36
unfolding consume_duration contains_coordinate consume_loop normalise predecessors landing
    sub_productive add_productive of bounds_successor_start
second-IsAllowed = record {
  spans = refl;
  honours = ((14, refl, omega arith), tt);
  opened = λ h. cc;
  within = omega arith;
}

forward_pass-Least_example : (14 ≤ 15) × (35 ≤ 36)
unfolding activity_by_uid placed_at state_of remaining
forward_pass-Least_example =
    forward_pass-Least planned true none_declared (task 2 6 asap none)
      (row_of 2 14 35 (some 21) from_relationship not_started none) raw 5 refl refl refl refl
      planned-runs refl refl refl 15 36 second-IsAllowed

drivers_of_the_plan : driving_relationships planned_pass ≡ 21 ∷ []
unfolding driving_relationships
drivers_of_the_plan = refl

driving_relationships-lists_example :
    IsDistinct (driving_relationships planned_pass)
    × ((v : ℕ)
        → elem v (driving_relationships planned_pass)
          ≡ any (λ (row : ActivityTimes). drives v row.driving_relationship_uid) planned_pass.times)
driving_relationships-lists_example = driving_relationships-lists planned_pass

-- A relationship between the finishes moves its successor away from the project start.
abbrev pulled : Network
pulled = record planned {
  activities = task 1 4 asap none ∷ task 2 2 asap none ∷ [];
  relationships = edge 21 1 2 ff (pos 1) ∷ [];
}

abbrev pulled_pass : ForwardPass
pulled_pass = record planned_pass {
  times =
      row_of 1 8 12 none from_project_start not_started none
      ∷ row_of 2 11 14 (some 21) from_relationship not_started none
      ∷ [];
  order = 1 ∷ 2 ∷ [];
  project_finish = 14;
  constraint_violations = [];
}

pulled-runs : forward_pass pulled true none_declared ≡ ok pulled_pass
unfolding forward_pass of first next_working earliest_span add_productive sub_productive
pulled-runs = refl

forward_pass-drivers_example :
    IsDecisive pulled true pulled_pass.times
      (task 2 2 asap none)
      (row_of 2 11 14 (some 21) from_relationship not_started none)
      21
unfolding activity_by_uid placed_at state_of
forward_pass-drivers_example =
    forward_pass-drivers pulled true none_declared (task 2 2 asap none)
      (row_of 2 11 14 (some 21) from_relationship not_started none) raw 21 refl refl pulled-runs
      refl refl refl refl
