-- ===== src/Engine/Reporting.antt =====
-- `_place_reported` of sto/core/engine/forward.py: the rows of work that is complete or under way.
use sto_scheduler_tracker_re.Prelude.{
  ℕ, List, [], ◌∷◌, Option, none, some, Bool, false, ltb, leb, if◌then◌else◌,
}
use sto_scheduler_tracker_re.Calendar.Spans.{Span}
use sto_scheduler_tracker_re.Engine.Outcome.{
  Result, ok, ◌>>=◌, present, actual_finish_without_start, actuals_incoherent,
}
use sto_scheduler_tracker_re.Engine.Model.{
  ConstraintType, PlannedActivity, Network, is_asap, remaining,
}
use sto_scheduler_tracker_re.Engine.Progress.{
  ProgressPolicy, progress_override, ProgressState, in_progress, complete, remaining_bound,
}
use sto_scheduler_tracker_re.Engine.Place.{
  Source, from_relationship, from_actuals, from_status_time, ActivityTimes, Limits,
}
use sto_scheduler_tracker_re.Engine.Placement.{place, driver}

pub record DeferredConstraint : Type 0 where
  pub activity_uid : ℕ
  pub type : ConstraintType

pub record ConstraintViolation : Type 0 where
  pub activity_uid : ℕ
  pub type : ConstraintType
  pub coordinate : ℕ
  pub logic_required : ℕ

-- What one round of the loop adds to the pass.
pub record Placed : Type 0 where
  pub row : ActivityTimes
  pub deferred : List DeferredConstraint
  pub violations : List ConstraintViolation
  pub unbounded : List ℕ

-- `value is not None and value > bound`, the test that drops a driver.
abbrev pub overtakes : ℕ → Option ℕ → Bool
overtakes bound none = false
overtakes bound (some t) = ltb bound t

-- The drivers that are left once the policy and the status time are read.
abbrev pub kept_driver : ProgressPolicy → ℕ → Option ℕ → Option ℕ → Option ℕ
kept_driver progress_override bound status_time driver = none
kept_driver _ bound status_time driver = if overtakes bound status_time then none else driver

abbrev pub reported_source : Option ℕ → Option ℕ → ℕ → Source
reported_source (some uid) status_time actual_start = from_relationship
reported_source none none actual_start = from_actuals
reported_source none (some t) actual_start =
    if leb actual_start t then from_status_time else from_actuals

abbrev pub complete_row : PlannedActivity → (start finish : ℕ) → ActivityTimes
complete_row a start finish = record {
  uid = a.uid;
  early_start = start;
  early_finish = finish;
  driving_relationship_uid = none;
  source = from_actuals;
  state = complete;
  remaining_start = none;
}

unfoldable pub place_complete : PlannedActivity → Result ActivityTimes
place_complete a = do
  start ← present a.actual_start actual_finish_without_start (some a.uid)
  finish ← present a.actual_finish actual_finish_without_start (some a.uid)
  ok (complete_row a start finish)

-- `start_floor` and `finish_floor`: where the policy lets the remaining work begin and end.
unfoldable pub start_floor : Limits → Network → ProgressPolicy → (actual_start : ℕ) → ℕ
unfolding remaining_bound
start_floor limits network policy began =
    remaining_bound in_progress policy limits.start_bound network.status_time (some began)

unfoldable pub finish_floor : Limits → Network → ProgressPolicy → (actual_start : ℕ) → ℕ
unfolding remaining_bound
finish_floor limits network policy began =
    remaining_bound in_progress policy limits.finish_bound network.status_time (some began)

-- The driver of a row under way.
unfoldable pub reported_driver :
    PlannedActivity → Limits → Network → Bool → ProgressPolicy → (actual_start : ℕ) → Option ℕ
unfolding driver remaining start_floor finish_floor
reported_driver a limits network snap policy began =
    driver a (remaining a) (start_floor limits network policy began)
      (finish_floor limits network policy began)
      (kept_driver policy limits.start_bound network.status_time limits.start_driver)
      (kept_driver policy limits.finish_bound network.status_time limits.finish_driver) began
      network.horizon snap

abbrev pub in_progress_row :
    PlannedActivity → Option ℕ → Option ℕ → (actual_start : ℕ) → Span → ActivityTimes
in_progress_row a held status_time began (remaining_start, finish) = record {
  uid = a.uid;
  early_start = began;
  early_finish = finish;
  driving_relationship_uid = held;
  source = reported_source held status_time began;
  state = in_progress;
  remaining_start = some remaining_start;
}

unfoldable pub place_in_progress :
    PlannedActivity → Limits → Network → Bool → ProgressPolicy → Result ActivityTimes
unfolding remaining place reported_driver start_floor finish_floor
place_in_progress a limits network snap policy = do
  began ← present a.actual_start actuals_incoherent (some a.uid)
  span ←
      place a (remaining a) (start_floor limits network policy began)
        (finish_floor limits network policy began) network.horizon snap none none
  ok (
      in_progress_row a (reported_driver a limits network snap policy began) network.status_time
        began span)

-- A reported row, with the constraint that it does not apply.
abbrev pub reported : PlannedActivity → ActivityTimes → Placed
reported a row = record {
  row = row;
  deferred =
      if is_asap a.constraint_type
      then []
      else record { activity_uid = a.uid; type = a.constraint_type } ∷ [];
  violations = [];
  unbounded = [];
}

-- `_place_reported`
unfoldable pub place_reported :
    PlannedActivity → ProgressState → Limits → Network → Bool → ProgressPolicy → Result Placed
unfolding place_complete place_in_progress
place_reported a complete limits network snap policy = do
  row ← place_complete a
  ok (reported a row)
place_reported a state limits network snap policy = do
  row ← place_in_progress a limits network snap policy
  ok (reported a row)
