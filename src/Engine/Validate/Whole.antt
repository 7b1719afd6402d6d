-- ===== src/Engine/Validate/Whole.antt =====
-- `Network.validate` of sto/core/engine/network.py refuses no valid network that is free of inactive
-- boundaries.
use sto_scheduler_tracker_re.Prelude.{
  ℕ, ◌≡◌, refl, subst, List, [], ◌∷◌, map, true, false, arith, All, none, elem, leb, lt→leb, ◌==◌,
  ==_iff, Bool-cases, inl, inr,
}
use sto_scheduler_tracker_re.Engine.Outcome.{ok}
use sto_scheduler_tracker_re.Engine.Model.{PlannedActivity, PlannedRelationship, Network}
use sto_scheduler_tracker_re.Engine.Validate.{
  validate, validate_activity, validate_activities, Edges, validate_relationship,
  validate_relationships,
}
use sto_scheduler_tracker_re.Engine.Validate.Sound.{
  IsValidActivity, IsValidRelationship, IsValidNetwork,
}
use sto_scheduler_tracker_re.Engine.Topology.Sets.{IsDistinct}

activity-accepted :
    (seen : List ℕ) (a : PlannedActivity)
    → IsValidActivity a
    → elem a.uid seen ≡ false
    → validate_activity seen a ≡ ok tt
unfolding validate_activity
activity-accepted seen a v fresh = ground (
  arith, v.duration, v.calendar, v.measured, v.envelope, v.dated, v.remaining, v.finished,
  v.under_way, v.in_order,
)

activities-accepted :
    (seen : List ℕ) (rows : List PlannedActivity)
    → All IsValidActivity rows
    → IsDistinct (map (λ (a : PlannedActivity). a.uid) rows)
    → ((u : ℕ) → elem u (map (λ (a : PlannedActivity). a.uid) rows) ≡ true → elem u seen ≡ false)
    → validate_activities seen rows ≡ ok tt
unfolding validate_activities
activities-accepted seen [] v d apart = refl
activities-accepted seen (a ∷ rest) (v, vs) (d, ds) apart =
    rw (activity-accepted seen a v (apart a.uid (ground (arith, ==_iff a.uid a.uid)))) (
      activities-accepted (a.uid ∷ seen) rest vs ds (λ u m. elim (Bool-cases (a.uid == u)) [
        | inl same ↦
            let d' =
              subst (λ w. elem w (map (λ (b : PlannedActivity). b.uid) rest) ≡ false)
                ((==_iff a.uid u).0 same) d in
            cc
        | inr other ↦ ground (arith, apart u)
      ]))

-- The relationship belongs to no inactive boundary.
abbrev pub HasNoBoundary : PlannedRelationship → Type 0
HasNoBoundary r = r.inactive_boundary_uid ≡ none

abbrev pub edge_uids : List PlannedRelationship → List ℕ
edge_uids rows = map (λ (r : PlannedRelationship). r.uid) rows

relationship-accepted :
    (network : Network) (edges : Edges) (r : PlannedRelationship)
    → IsValidRelationship network r
    → HasNoBoundary r
    → elem r.uid edges.seen ≡ false
    → validate_relationship network edges r ≡ ok (record edges { seen = r.uid ∷ edges.seen })
unfolding validate_relationship
relationship-accepted network edges r v alone fresh =
    let apart : (r.predecessor_uid == r.successor_uid) ≡ false =
      elim (Bool-cases (r.predecessor_uid == r.successor_uid)) [
        | inl same ↦ absurd (v.two_rows ((==_iff r.predecessor_uid r.successor_uid).0 same))
        | inr two ↦ two
      ] in
    rw (fresh, v.predecessor, v.successor, apart, alone) refl

relationships-accepted :
    (network : Network) (edges : Edges) (rows : List PlannedRelationship)
    → All (IsValidRelationship network) rows
    → All HasNoBoundary rows
    → IsDistinct (edge_uids rows)
    → ((u : ℕ) → elem u (edge_uids rows) ≡ true → elem u edges.seen ≡ false)
    → (edges' : Edges) × (validate_relationships network edges rows ≡ ok edges')
      × (edges'.boundaries ≡ edges.boundaries)
unfolding validate_relationships
relationships-accepted network edges [] v b d apart = (edges, refl, refl)
relationships-accepted network edges (r ∷ rest) (v, vs) (b, bs) (d, ds) apart =
    let next : Edges = record edges { seen = r.uid ∷ edges.seen } in
    let here =
      relationship-accepted network edges r v b
        (apart r.uid (ground (arith, ==_iff r.uid r.uid))) in
    let (last, done, kept) = relationships-accepted network next rest vs bs ds (λ u m.
      elim (Bool-cases (r.uid == u)) [
        | inl same ↦
            let d' = subst (λ w. elem w (edge_uids rest) ≡ false) ((==_iff r.uid u).0 same) d in cc
        | inr other ↦ ground (arith, apart u)
      ]) in
    (last, rw here done, kept)

-- A valid network is accepted where its relationships have distinct identities and belong to no
-- inactive boundary.
pub validate-accepts :
    (network : Network)
    → IsValidNetwork network
    → IsDistinct (edge_uids network.relationships)
    → All HasNoBoundary network.relationships
    → validate network ≡ ok tt
unfolding validate
validate-accepts network v distinct alone =
    let window : leb network.horizon network.project_start ≡ false =
      lt→leb network.horizon network.project_start v.window in
    let acts = activities-accepted [] network.activities v.activities v.distinct (λ u m. refl) in
    let (last, done, kept) =
      relationships-accepted network (record { seen = []; boundary_of = []; boundaries = [] })
        network.relationships v.relationships alone distinct (λ u m. refl) in
    rw (window, v.status, acts, done, kept) refl
