-- ===== src/Engine/Forward.antt =====
-- `forward_pass` of sto/core/engine/forward.py: one round of its loop, the loop, and the pass. The two
-- fingerprints of the result are left out.
pub mod Bounds
pub mod Spans
pub mod Placing
pub mod Steps
pub mod Rounds
pub mod Logic
pub mod Honours
pub mod Unstarted
pub mod Reported
pub mod Answer
pub mod Dated
pub mod Violations
pub mod Within
pub mod Least
pub mod Early
pub mod Driven
pub mod Undriven
pub mod Replay
pub mod Drivers
pub mod Spanned
use sto_scheduler_tracker_re.Prelude.{
  ℕ, max, List, [], ◌∷◌, ◌++◌, Option, none, some, Bool, true, false, ◌&&◌, not, ◌==◌,
  if◌then◌else◌, is_some, default,
}
use sto_scheduler_tracker_re.Engine.Outcome.{Result, ok, present, key_error, ◌>>=◌, ◌>>◌}
use sto_scheduler_tracker_re.Engine.Model.{
  PlannedActivity, PlannedRelationship, Network, activity_by_uid, predecessors, is_progressed,
}
use sto_scheduler_tracker_re.Engine.Progress.{
  ProgressPolicy, ProgressState, not_started, state_of, require_supported, relationship_binds,
}
use sto_scheduler_tracker_re.Engine.Validate.{validate}
use sto_scheduler_tracker_re.Engine.Topology.{topological_order}
use sto_scheduler_tracker_re.Engine.Place.{ActivityTimes, Limits, bounds, calendar_floor}
use sto_scheduler_tracker_re.Engine.Reporting.{
  DeferredConstraint, ConstraintViolation, Placed, place_reported,
}
use sto_scheduler_tracker_re.Engine.Untouched.{place_untouched}

pub record ForwardPass : Type 0 where
  pub times : List ActivityTimes
  pub order : List ℕ
  pub project_start : ℕ
  pub project_finish : ℕ
  pub deferred_constraints : List DeferredConstraint
  pub constraint_violations : List ConstraintViolation
  pub unbounded_starts : List ℕ
  pub progress_policy : ProgressPolicy
  pub snap_milestones : Bool

abbrev pub no_edges : List PlannedRelationship → Bool
no_edges [] = true
no_edges (_ ∷ _) = false

-- `base`: where the bounds begin before any predecessor is read.
abbrev pub base_of : PlannedActivity → ProgressState → List PlannedRelationship → Network → Option ℕ
base_of a not_started incoming network =
    if no_edges incoming then some network.project_start else none
base_of a _ incoming network = a.actual_start

abbrev pub place_by_state :
    PlannedActivity
    → ProgressState
    → Limits
    → (floor : ℕ) → (bound : Bool) → Network
    → Bool
    → ProgressPolicy
    → Result Placed
place_by_state a not_started limits floor bound network snap policy =
    place_untouched a limits floor
      (bound && not (is_some limits.start_driver) && limits.start_bound == network.project_start)
      network snap
place_by_state a state limits floor bound network snap policy =
    place_reported a state limits network snap policy

-- One round of the loop of `forward_pass`.
unfoldable pub place_activity :
    Network → Bool → ProgressPolicy → List ActivityTimes → PlannedActivity → Result Placed
unfolding state_of predecessors relationship_binds bounds calendar_floor place_untouched
    place_reported
place_activity network snap policy placed a = do
  let state = state_of a
  let incoming = predecessors network a.uid
  let base = base_of a state incoming network
  let binding = if relationship_binds policy state network.status_time then incoming else []
  limits ← bounds a binding placed base (default network.project_start base)
  place_by_state a state limits (default (calendar_floor a) base) (not (no_edges binding)) network
      snap policy

-- The state of the loop, with the rows in the order in which they are placed.
pub record Loop : Type 0 where
  pub placed : List ActivityTimes
  pub deferred : List DeferredConstraint
  pub violations : List ConstraintViolation
  pub unbounded : List ℕ

abbrev pub extend : Loop → Placed → Loop
extend s p = record {
  placed = s.placed ++ p.row ∷ [];
  deferred = s.deferred ++ p.deferred;
  violations = s.violations ++ p.violations;
  unbounded = s.unbounded ++ p.unbounded;
}

unfoldable pub place_all : Network → Bool → ProgressPolicy → List ℕ → Loop → Result Loop
unfolding place_activity activity_by_uid
place_all network snap policy [] s = ok s
place_all network snap policy (u ∷ rest) s = do
  a ← present (activity_by_uid network u) key_error (some u)
  p ← place_activity network snap policy s.placed a
  place_all network snap policy rest (extend s p)

-- `max(..., default=project_start)`
unfoldable pub latest_finish : ℕ → List ActivityTimes → ℕ
latest_finish project_start [] = project_start
latest_finish project_start (row ∷ []) = row.early_finish
latest_finish project_start (row ∷ other ∷ rest) =
    max row.early_finish (latest_finish project_start (other ∷ rest))

abbrev pub no_rows : Loop
no_rows = record { placed = []; deferred = []; violations = []; unbounded = [] }

unfoldable pub pass_of : Network → Bool → ProgressPolicy → List ℕ → Loop → ForwardPass
unfolding latest_finish
pass_of network snap policy order loop = record {
  times = loop.placed;
  order = order;
  project_start = network.project_start;
  project_finish = latest_finish network.project_start loop.placed;
  deferred_constraints = loop.deferred;
  constraint_violations = loop.violations;
  unbounded_starts = loop.unbounded;
  progress_policy = policy;
  snap_milestones = snap;
}

unfoldable pub forward_pass : Network → Bool → ProgressPolicy → Result ForwardPass
unfolding validate require_supported is_progressed topological_order place_all pass_of
forward_pass network snap policy = do
  validate network
  require_supported policy (is_progressed network)
  order ← topological_order network
  loop ← place_all network snap policy order no_rows
  ok (pass_of network snap policy order loop)
