-- ===== src/Engine/Backward.antt =====
-- `backward_pass` of sto/core/engine/backward.py: one round of its loop, the loop, and the pass. The
-- fingerprint of the answer is left out.
pub mod Keys
pub mod Rounds
pub mod Guards
pub mod Answer
pub mod Bounds
pub mod Selection
pub mod Targets
pub mod Honours
pub mod Greatest
pub mod Dated
pub mod Edges
pub mod Slack
pub mod Placing
use sto_scheduler_tracker_re.Prelude.{
  ℕ, List, [], ◌∷◌, ◌++◌, reverse, Option, none, some, Bool, true, false, not, ltb, ◌==◌,
  if◌then◌else◌, is_some, default,
}
use sto_scheduler_tracker_re.Calendar.Spans.{Span}
use sto_scheduler_tracker_re.Engine.Outcome.{
  Result, ok, ◌>>=◌, ◌>>◌, raise_if, present, key_error, actual_finish_without_start, pass_mismatch,
  policy_mismatch, progress_state_incomplete, horizon_exceeded,
}
use sto_scheduler_tracker_re.Engine.Model.{
  ConstraintType, alap, PlannedActivity, PlannedRelationship, Network, activity_by_uid, successors,
  is_asap, remaining,
}
use sto_scheduler_tracker_re.Engine.Progress.{
  ProgressPolicy, none_declared, retained_logic, progress_override, actual_dates, ProgressState,
  not_started, in_progress, complete, state_of, relationship_binds,
}
use sto_scheduler_tracker_re.Engine.Validate.{validate}
use sto_scheduler_tracker_re.Engine.Place.{ActivityTimes}
use sto_scheduler_tracker_re.Engine.Forward.{ForwardPass}
use sto_scheduler_tracker_re.Engine.Late.{
  LateSource, actuals, ActivityLateTimes, late_at, UpperBound, late_bounds,
}
use sto_scheduler_tracker_re.Engine.Late.Placement.{
  place_late, LateLimits, unconstrained, constrain_late, late_held_by,
}

pub record DeferredLateConstraint : Type 0 where
  pub activity_uid : ℕ
  pub type : ConstraintType

pub record BackwardPass : Type 0 where
  pub times : List ActivityLateTimes
  pub order : List ℕ
  pub project_late_finish : ℕ
  pub deferred_constraints : List DeferredLateConstraint
  pub overridden_relationships : List ℕ
  pub network_fingerprint : ℕ
  pub progress_policy : ProgressPolicy
  pub snap_milestones : Bool
  pub project_late_finish_explicit : Bool

-- What the loop reads besides the rows that it has placed.
pub record LateContext : Type 0 where
  pub network : Network
  pub early : List ActivityTimes
  pub late_finish : ℕ
  pub released : List ℕ
  pub snap : Bool

-- The row of one round, and the constraint that it sets aside.
pub record PlacedLate : Type 0 where
  pub row : ActivityLateTimes
  pub deferred : List DeferredLateConstraint

abbrev pub is_alap : ConstraintType → Bool
is_alap alap = true
is_alap _ = false

abbrev pub deferred_if : Bool → PlannedActivity → List DeferredLateConstraint
deferred_if false a = []
deferred_if true a = record { activity_uid = a.uid; type = a.constraint_type } ∷ []

abbrev pub late_deferred : PlannedActivity → ProgressState → List DeferredLateConstraint
late_deferred a not_started = deferred_if (is_alap a.constraint_type) a
late_deferred a _ = deferred_if (not (is_asap a.constraint_type)) a

abbrev pub late_complete_row : PlannedActivity → (start finish : ℕ) → ActivityLateTimes
late_complete_row a start finish = record {
  uid = a.uid;
  late_start = start;
  late_finish = finish;
  driving_relationship_uid = none;
  source = actuals;
  remaining_start = none;
}

abbrev pub late_limits : PlannedActivity → ProgressState → UpperBound × UpperBound → LateLimits
late_limits a not_started (start, finish) =
    constrain_late a.constraint_type a.constraint_coordinate start finish
late_limits a _ (start, finish) = unconstrained start finish

abbrev pub late_open_row : PlannedActivity → Span → Option ℕ × LateSource → ActivityLateTimes
late_open_row a (s, f) (held, source) = record {
  uid = a.uid;
  late_start = s;
  late_finish = f;
  driving_relationship_uid = held;
  source = source;
  remaining_start = none;
}

abbrev pub late_row :
    PlannedActivity → ProgressState → Span → Option ℕ × LateSource → Result ActivityLateTimes
late_row a in_progress (s, f) held = do
  began ← present a.actual_start progress_state_incomplete (some a.uid)
  ok (record (late_open_row a (s, f) held) { late_start = began; remaining_start = some s })
late_row a _ span held = ok (late_open_row a span held)

-- The row of an activity that is not complete.
unfoldable pub place_late_open :
    LateContext
    → List ActivityLateTimes
    → PlannedActivity
    → ProgressState
    → Result ActivityLateTimes
unfolding late_bounds successors constrain_late place_late remaining late_held_by
place_late_open c placed a state = do
  bounds ←
      late_bounds c.network c.early placed (successors c.network a.uid) c.late_finish c.released
  let l = late_limits a state bounds
  span ← place_late a (remaining a) l.start.at l.finish.at c.snap l.pinned a.constraint_coordinate
  late_row a state span (late_held_by a l c.late_finish)

unfoldable pub place_late_state :
    LateContext
    → List ActivityLateTimes
    → PlannedActivity
    → ProgressState
    → Result ActivityLateTimes
unfolding place_late_open
place_late_state c placed a complete = do
  start ← present a.actual_start actual_finish_without_start (some a.uid)
  finish ← present a.actual_finish actual_finish_without_start (some a.uid)
  ok (late_complete_row a start finish)
place_late_state c placed a state = place_late_open c placed a state

-- The state of the loop, the newest row first.
pub record LateLoop : Type 0 where
  pub placed : List ActivityLateTimes
  pub deferred : List DeferredLateConstraint

abbrev pub add_late : LateLoop → PlannedActivity → ActivityLateTimes → LateLoop
add_late s a row = record {
  placed = row ∷ s.placed;
  deferred = s.deferred ++ late_deferred a (state_of a);
}

unfoldable pub place_late_all : LateContext → List ℕ → LateLoop → Result LateLoop
unfolding activity_by_uid state_of place_late_state
place_late_all c [] s = ok s
place_late_all c (u ∷ rest) s = do
  a ← present (activity_by_uid c.network u) key_error (some u)
  row ← place_late_state c s.placed a (state_of a)
  place_late_all c rest (add_late s a row)

-- `overridden`
unfoldable pub overridden : Network → ProgressPolicy → List PlannedRelationship → Result (List ℕ)
unfolding activity_by_uid state_of relationship_binds
overridden network policy [] = ok []
overridden network policy (r ∷ rest) = do
  successor ← present (activity_by_uid network r.successor_uid) key_error (some r.successor_uid)
  others ← overridden network policy rest
  ok (
      if relationship_binds policy (state_of successor) network.status_time
      then others
      else r.uid ∷ others)

-- `tuple(placed[uid] for uid in forward.order)`
unfoldable pub rows_of : List ActivityLateTimes → List ℕ → Result (List ActivityLateTimes)
unfolding late_at
rows_of placed [] = ok []
rows_of placed (u ∷ rest) = do
  row ← present (late_at placed u) key_error (some u)
  others ← rows_of placed rest
  ok (row ∷ others)

abbrev pub same_policy : ProgressPolicy → ProgressPolicy → Bool
same_policy none_declared none_declared = true
same_policy retained_logic retained_logic = true
same_policy progress_override progress_override = true
same_policy actual_dates actual_dates = true
same_policy _ _ = false

abbrev pub same_flag : Bool → Bool → Bool
same_flag true b = b
same_flag false b = not b

-- A keyword that names a value other than the forward pass's.
abbrev pub differs {ℓ} : {A : Type ℓ} → (A → A → Bool) → A → Option A → Bool
differs same own none = false
differs same own (some named) = not (same named own)

-- The arguments of `backward_pass` beside the network: the forward pass, the fingerprint that it
-- carries, and the keywords.
pub record LateRequest : Type 0 where
  pub forward : ForwardPass
  pub network_fingerprint : ℕ
  pub snap_milestones : Option Bool
  pub project_late_finish : Option ℕ
  pub progress_policy : Option ProgressPolicy

abbrev pub context_of : Network → LateRequest → List ℕ → LateContext
context_of network q released = record {
  network = network;
  early = q.forward.times;
  late_finish = default q.forward.project_finish q.project_late_finish;
  released = released;
  snap = q.forward.snap_milestones;
}

abbrev pub late_pass_of :
    (fingerprint : ℕ) → LateRequest → List ℕ → LateLoop → List ActivityLateTimes → BackwardPass
late_pass_of fingerprint q released loop times = record {
  times = times;
  order = reverse q.forward.order;
  project_late_finish = default q.forward.project_finish q.project_late_finish;
  deferred_constraints = loop.deferred;
  overridden_relationships = released;
  network_fingerprint = fingerprint;
  progress_policy = q.forward.progress_policy;
  snap_milestones = q.forward.snap_milestones;
  project_late_finish_explicit = is_some q.project_late_finish;
}

abbrev pub no_late_rows : LateLoop
no_late_rows = record { placed = []; deferred = [] }

-- The guards of `backward_pass`.
unfoldable pub admit : (fingerprint : ℕ) → Network → LateRequest → Result (Unit {0})
unfolding validate
admit fingerprint network q = do
  validate network
  raise_if (not (q.network_fingerprint == fingerprint)) pass_mismatch none
  raise_if (differs same_policy q.forward.progress_policy q.progress_policy) policy_mismatch none
  raise_if (differs same_flag q.forward.snap_milestones q.snap_milestones) policy_mismatch none
  raise_if (ltb network.horizon (default q.forward.project_finish q.project_late_finish))
      horizon_exceeded none

unfoldable pub late_loop : Network → LateRequest → List ℕ → Result LateLoop
unfolding place_late_all
late_loop network q released =
    place_late_all (context_of network q released) (reverse q.forward.order) no_late_rows

-- `fingerprint` stands for `Network.fingerprint`, a SHA-256 digest.
unfoldable pub backward_pass : (Network → ℕ) → Network → LateRequest → Result BackwardPass
unfolding admit overridden late_loop rows_of
backward_pass fingerprint network q = do
  admit (fingerprint network) network q
  released ← overridden network q.forward.progress_policy network.relationships
  loop ← late_loop network q released
  times ← rows_of loop.placed q.forward.order
  ok (late_pass_of (fingerprint network) q released loop times)
