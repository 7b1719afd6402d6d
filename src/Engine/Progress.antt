-- ===== src/Engine/Progress.antt =====
-- Reported progress: sto/core/engine/progress.py.
use sto_scheduler_tracker_re.Prelude.{
  ℕ, max, Option, none, some, Bool, true, false, ◌&&◌, not, if◌then◌else◌, is_some,
}
use sto_scheduler_tracker_re.Engine.Outcome.{Result, raise_if, policy_not_evidenced}
use sto_scheduler_tracker_re.Engine.Model.{PlannedActivity, has_started, is_complete}

-- `ProgressPolicy` of sto/core/model/enums.py: `none_declared` is NONE.
pub data ProgressPolicy : Type 0 where
  none_declared retained_logic progress_override actual_dates : ProgressPolicy

pub data ProgressState : Type 0 where
  not_started in_progress complete : ProgressState

unfoldable pub state_of : PlannedActivity → ProgressState
unfolding is_complete has_started
state_of a = if is_complete a then complete else if has_started a then in_progress else not_started

abbrev pub is_actual_dates : ProgressPolicy → Bool
is_actual_dates actual_dates = true
is_actual_dates _ = false

unfoldable pub require_supported : ProgressPolicy → Bool → Result (Unit {0})
require_supported policy progressed =
    raise_if (is_actual_dates policy && progressed) policy_not_evidenced none

-- The bound that the status time and the policy give to work under way.
abbrev pub status_bound : ProgressPolicy → ℕ → Option ℕ → ℕ
status_bound policy logic_bound none = logic_bound
status_bound progress_override logic_bound (some status_time) = status_time
status_bound _ logic_bound (some status_time) = max logic_bound status_time

abbrev pub raised_to : Option ℕ → ℕ → ℕ
raised_to none bound = bound
raised_to (some actual_start) bound = max bound actual_start

unfoldable pub remaining_bound : ProgressState → ProgressPolicy → ℕ → Option ℕ → Option ℕ → ℕ
remaining_bound in_progress policy logic_bound status_time actual_start =
    raised_to actual_start (status_bound policy logic_bound status_time)
remaining_bound _ policy logic_bound status_time actual_start = logic_bound

unfoldable pub relationship_binds : ProgressPolicy → ProgressState → Option ℕ → Bool
relationship_binds policy complete status_time = false
relationship_binds progress_override in_progress status_time = not (is_some status_time)
relationship_binds policy state status_time = true
