-- ===== src/Engine/Validate/Sound.antt =====
-- What a network that `Network.validate` of sto/core/engine/network.py accepts is sure to be.
use sto_scheduler_tracker_re.Prelude.{
  ℕ, ◌<◌, ◌≡◌, ◌≢◌, subst, List, [], ◌∷◌, true, false, ◌==◌, elem, map, arith, All, is_some,
  Bool-cases, inl, inr, ==_iff,
}
use sto_scheduler_tracker_re.Engine.Outcome.{ok, ◌>>=◌, >>=-eq-ok}
use sto_scheduler_tracker_re.Engine.Model.{
  PlannedActivity, PlannedRelationship, Network, is_dated, float_calendar, has_started, is_complete,
}
use sto_scheduler_tracker_re.Engine.Validate.{
  Edges, is_negative, negative_if_known, is_empty, inverted, outside, validate_activity,
  validate_activities, validate_relationship, validate_relationships, validate_groups, validate,
  bad_envelope,
}
use sto_scheduler_tracker_re.Engine.Topology.{uids}
use sto_scheduler_tracker_re.Engine.Topology.Sets.{IsDistinct}
use sto_scheduler_tracker_re.Engine.Topology.Invariant.{IsWellKeyed}

pub record IsValidActivity (a : PlannedActivity) : Type 0 where
  pub duration : is_negative a.duration ≡ false
  pub calendar : is_empty a.calendar.intervals ≡ false
  pub measured : is_empty (float_calendar a).intervals ≡ false
  pub envelope : bad_envelope a a.assignment_envelope ≡ false
  pub dated : is_dated a.constraint_type ≡ true → is_some a.constraint_coordinate ≡ true
  pub remaining : negative_if_known a.remaining_duration ≡ false
  pub finished : is_some a.actual_finish ≡ true → is_some a.actual_start ≡ true
  pub under_way : has_started a ≡ true → is_complete a ≡ false → is_some a.remaining_duration ≡ true
  pub in_order : inverted a.actual_start a.actual_finish ≡ false

pub record IsValidRelationship (network : Network) (r : PlannedRelationship) : Type 0 where
  pub predecessor : elem r.predecessor_uid (uids network) ≡ true
  pub successor : elem r.successor_uid (uids network) ≡ true
  pub two_rows : r.predecessor_uid ≢ r.successor_uid

pub record IsValidNetwork (network : Network) : Type 0 where
  pub window : network.project_start < network.horizon
  pub status : outside network network.status_time ≡ false
  pub distinct : IsDistinct (uids network)
  pub activities : All IsValidActivity network.activities
  pub relationships : All (IsValidRelationship network) network.relationships

module _ (seen : List ℕ) (a : PlannedActivity) (e : validate_activity seen a ≡ ok tt) where
  activity_fresh : elem a.uid seen ≡ false
  unfolding validate_activity
  activity_fresh = ground arith

  activity-IsValid : IsValidActivity a
  unfolding validate_activity
  activity-IsValid = record {
    duration = ground arith;
    calendar = ground arith;
    measured = ground arith;
    envelope = ground arith;
    dated = λ h. ground arith;
    remaining = ground arith;
    finished = λ h. ground arith;
    under_way = λ h k. ground arith;
    in_order = ground arith;
  }

abbrev Checked : List ℕ → List PlannedActivity → Type 0
Checked seen rows =
    All IsValidActivity rows
    × IsDistinct (map (λ (a : PlannedActivity). a.uid) rows)
    × ((v : ℕ) → elem v (map (λ (a : PlannedActivity). a.uid) rows) ≡ true → elem v seen ≡ false)

activities-IsValid :
    (seen : List ℕ) (rows : List PlannedActivity)
    → validate_activities seen rows ≡ ok tt
    → Checked seen rows
unfolding validate_activities
activities-IsValid seen [] e = (tt, tt, λ v m. cc)
activities-IsValid seen (a ∷ rest) e =
    let (u, here, later) =
      >>=-eq-ok (validate_activity seen a) (λ _. validate_activities (a.uid ∷ seen) rest) e in
    let (valid, distinct, apart) = activities-IsValid (a.uid ∷ seen) rest later in
    (
      (activity-IsValid seen a here, valid),
      (
        (elim (Bool-cases (elem a.uid (map (λ (b : PlannedActivity). b.uid) rest))) [
          | inl again ↦ ground (arith, apart a.uid again, ==_iff a.uid a.uid)
          | inr fresh ↦ fresh
        ]),
        distinct,
      ),
      λ v m. elim (Bool-cases (a.uid == v)) [
        | inl same ↦
            subst (λ x. elem x seen ≡ false) ((==_iff a.uid v).0 same) (activity_fresh seen a here)
        | inr other ↦ ground (arith, apart v)
      ],
    )

relationship-IsValid :
    (network : Network) (edges : Edges) (r : PlannedRelationship) {edges' : Edges}
    → validate_relationship network edges r ≡ ok edges'
    → IsValidRelationship network r
unfolding validate_relationship
relationship-IsValid network edges r e = record {
  predecessor = ground arith;
  successor = ground arith;
  two_rows = λ same. ground (arith, ==_iff r.predecessor_uid r.successor_uid);
}

relationships-IsValid :
    (network : Network) (edges : Edges) (rows : List PlannedRelationship) {edges' : Edges}
    → validate_relationships network edges rows ≡ ok edges'
    → All (IsValidRelationship network) rows
unfolding validate_relationships
relationships-IsValid network edges [] e = tt
relationships-IsValid network edges (r ∷ rest) e =
    let (edges', here, later) =
      >>=-eq-ok (validate_relationship network edges r)
        (λ edges'. validate_relationships network edges' rest) e in
    (relationship-IsValid network edges r here, relationships-IsValid network edges' rest later)

module _ (network : Network) (e : validate network ≡ ok tt) where
  abbrev start : Edges
  start = record { seen = []; boundary_of = []; boundaries = [] }

  window-IsValid :
      (network.project_start < network.horizon) × (outside network network.status_time ≡ false)
  unfolding validate
  window-IsValid = (ground arith, ground arith)

  steps :
      (validate_activities [] network.activities ≡ ok tt)
      × ((edges : Edges) × (validate_relationships network start network.relationships ≡ ok edges))
  unfolding validate
  steps =
      let (u, a, rest) =
        >>=-eq-ok (validate_activities [] network.activities)
          (λ _. validate_relationships network start network.relationships >>= λ edges.
            validate_groups edges.boundaries)
          (ground (arith, window-IsValid)) in
      let (edges, r, _) =
        >>=-eq-ok (validate_relationships network start network.relationships)
          (λ edges. validate_groups edges.boundaries) rest in
      (a, (edges, r))

  -- A network that `validate` accepts has its horizon behind the project start and its status time
  -- between them, distinct activities that are each well formed (no negative duration, calendars with
  -- working time, a date for a dated constraint, coherent actual dates), and relationships that join
  -- two different activities of it.
  pub validate-IsValid : IsValidNetwork network
  validate-IsValid =
      let (window, status) = window-IsValid in
      let (a, (edges, r)) = steps in
      let (valid, distinct, _) = activities-IsValid [] network.activities a in
      record {
        window = window;
        status = status;
        distinct = distinct;
        activities = valid;
        relationships = relationships-IsValid network start network.relationships r;
      }

  known_successors :
      (rows : List PlannedRelationship)
      → All (IsValidRelationship network) rows
      → All (λ r. elem r.successor_uid (uids network) ≡ true) rows
  known_successors [] v = tt
  known_successors (r ∷ rest) v = (v.0.successor, known_successors rest v.1)

  pub validate-IsWellKeyed : IsWellKeyed network
  validate-IsWellKeyed = record {
    distinct = validate-IsValid.distinct;
    known = known_successors network.relationships validate-IsValid.relationships;
  }
