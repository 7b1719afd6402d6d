-- ===== src/Engine/Model.antt =====
-- The rows of sto/core/engine/network.py, and the enumerations of sto/core/model/enums.py that they
-- read. An identity (UUID) is the number that it is; coordinates are numbers, and a duration or a lag
-- keeps its sign.
use sto_scheduler_tracker_re.Prelude.{
  ℕ, zero, List, Option, Bool, true, false, ◌||◌, ℤ, pos, any, filter, find, ◌==◌, if◌then◌else◌,
  default, is_some,
}
use sto_scheduler_tracker_re.Calendar.Compiled.{CompiledIntervals}

pub data ConstraintType : Type 0 where
  asap alap snet snlt fnet fnlt mso mfo : ConstraintType

pub data RelationshipType : Type 0 where
  fs ss ff sf : RelationshipType

-- FORWARD_CONSTRAINTS, DEFERRED_CONSTRAINTS and _DATED_CONSTRAINTS
abbrev pub is_deferred : ConstraintType → Bool
is_deferred alap = true
is_deferred snlt = true
is_deferred fnlt = true
is_deferred _ = false

abbrev pub is_dated : ConstraintType → Bool
is_dated asap = false
is_dated alap = false
is_dated _ = true

abbrev pub is_asap : ConstraintType → Bool
is_asap asap = true
is_asap _ = false

pub record AssignmentPlacement : Type 0 where
  pub uid : ℕ
  pub resource_uid : ℕ
  pub calendar : CompiledIntervals
  pub work_duration : ℤ

pub data FloatBasis : Type 0 where
  working elapsed : FloatBasis

pub record PlannedActivity : Type 0 where
  pub uid : ℕ
  pub duration : ℤ
  pub calendar : CompiledIntervals
  pub constraint_type : ConstraintType
  pub constraint_coordinate : Option ℕ
  pub actual_start : Option ℕ
  pub actual_finish : Option ℕ
  pub remaining_duration : Option ℤ
  pub measure_calendar : Option CompiledIntervals
  pub float_basis : FloatBasis
  pub assignment_envelope : Option (List AssignmentPlacement)

unfoldable pub float_calendar : PlannedActivity → CompiledIntervals
float_calendar a = default a.calendar a.measure_calendar

unfoldable pub has_started : PlannedActivity → Bool
has_started a = is_some a.actual_start

unfoldable pub is_complete : PlannedActivity → Bool
is_complete a = is_some a.actual_finish

abbrev pub is_zero : ℤ → Bool
is_zero (pos zero) = true
is_zero _ = false

unfoldable pub is_milestone : PlannedActivity → Bool
is_milestone a = is_zero a.duration

unfoldable pub remaining : PlannedActivity → ℤ
unfolding is_complete
remaining a = if is_complete a then pos 0 else default a.duration a.remaining_duration

pub record PlannedRelationship : Type 0 where
  pub uid : ℕ
  pub predecessor_uid : ℕ
  pub successor_uid : ℕ
  pub type : RelationshipType
  pub lag : ℤ
  pub lag_calendar : Option CompiledIntervals
  pub inactive_boundary_uid : Option ℕ

abbrev pub from_finish : RelationshipType → Bool
from_finish fs = true
from_finish ff = true
from_finish _ = false

abbrev pub onto_start : RelationshipType → Bool
onto_start fs = true
onto_start ss = true
onto_start _ = false

unfoldable pub anchors_predecessor_finish : PlannedRelationship → Bool
anchors_predecessor_finish r = from_finish r.type

unfoldable pub bounds_successor_start : PlannedRelationship → Bool
bounds_successor_start r = onto_start r.type

pub record Network : Type 0 where
  pub activities : List PlannedActivity
  pub relationships : List PlannedRelationship
  pub project_start : ℕ
  pub horizon : ℕ
  pub status_time : Option ℕ

unfoldable pub is_progressed : Network → Bool
unfolding has_started is_complete
is_progressed network = any (λ a. has_started a || is_complete a) network.activities

-- A lookup in the dictionary that `activity_by_uid` builds.
unfoldable pub activity_by_uid : Network → ℕ → Option PlannedActivity
activity_by_uid network u = find (λ a. a.uid) u network.activities

-- Lookups in the dictionaries that `predecessors` and `successors` build.
unfoldable pub predecessors : Network → ℕ → List PlannedRelationship
predecessors network u = filter (λ r. r.successor_uid == u) network.relationships

unfoldable pub successors : Network → ℕ → List PlannedRelationship
successors network u = filter (λ r. r.predecessor_uid == u) network.relationships
