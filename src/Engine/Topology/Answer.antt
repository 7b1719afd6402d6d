-- ===== src/Engine/Topology/Answer.antt =====
-- What `_topological_order` of sto/core/engine/forward.py answers.
use sto_scheduler_tracker_re.Prelude.{
  ℕ, ◌≡◌, ◌≢◌, refl, sym, ◌∙◌, ap, List, [], ◌∷◌, ◌++◌, true, subst, ◌==◌, elem, arith, Bool-cases,
  inl, inr, ==_iff, length,
}
use mathlib.Core.List.{append-nil}
use sto_scheduler_tracker_re.Engine.Outcome.{Result, ok, raise, cycle}
use sto_scheduler_tracker_re.Engine.Model.{PlannedRelationship, Network}
use sto_scheduler_tracker_re.Engine.Topology.{uids, run, topological_order}
use sto_scheduler_tracker_re.Engine.Topology.Degrees.{open_into, elem-append}
use sto_scheduler_tracker_re.Engine.Topology.Sets.{
  IsDistinct, Within, IsDistinct-append_left, length-le-Within, Within-full,
}
use sto_scheduler_tracker_re.Engine.Topology.Invariant.{Follows, RespectsEdges, IsWellKeyed}
use sto_scheduler_tracker_re.Engine.Topology.Ends.{length-uids, run_ends}
use sto_scheduler_tracker_re.Engine.Topology.Rounds.{run-IsSound}

-- An order of the network: each activity once, behind the predecessors of its edges.
pub record IsOrderOf (network : Network) (order : List ℕ) : Type 0 where
  pub respects : RespectsEdges network.relationships [] order
  pub distinct : IsDistinct order
  pub all : (v : ℕ) → elem v order ≡ elem v (uids network)

abbrev pub Answers : Network → Result (List ℕ) → Type 0
Answers network (ok order) = IsOrderOf network order
Answers network (raise code uid) = (code ≡ cycle) × ((order : List ℕ) → ¬ IsOrderOf network order)

open_into_zero :
    (order seen : List ℕ) (u : ℕ) (rows : List PlannedRelationship)
    → Within seen order
    → Follows seen u rows
    → open_into order u rows ≡ 0
unfolding open_into
open_into_zero order seen u [] w f = refl
open_into_zero order seen u (r ∷ rest) w f = elim (Bool-cases (r.successor_uid == u)) [
  | inr other ↦ rw other (open_into_zero order seen u rest w f.1)
  | inl same ↦
      let placed = w r.predecessor_uid (f.0 ((==_iff r.successor_uid u).0 same)) in
      rw (same, placed) (open_into_zero order seen u rest w f.1)
]

module _ (network : Network) (keyed : IsWellKeyed network) where
  done : Within ((run network).order ++ (run network).ready) (run network).order
  done v m =
      let empty = run_ends network keyed in
      subst (λ l. elem v l ≡ true)
        (ap (λ l. (run network).order ++ l) empty ∙ append-nil (run network).order) m

  -- Along any order of the network, each row is one that Kahn's loop placed.
  placed_along :
      (seen rest : List ℕ)
      → RespectsEdges network.relationships seen rest
      → Within seen (run network).order
      → Within rest (uids network)
      → Within rest (run network).order
  placed_along seen [] r w k v m = cc
  placed_along seen (u ∷ rest) r w k v m =
      let sound = run-IsSound network keyed in
      let zero_degree =
        sound.counts u ∙ open_into_zero (run network).order seen u network.relationships w r.0 in
      let here : elem u (run network).order ≡ true =
        done u (sound.complete u (k u (ground (arith, ==_iff u u))) zero_degree) in
      elim (Bool-cases (u == v)) [
        | inl same ↦ subst (λ x. elem x (run network).order ≡ true) ((==_iff u v).0 same) here
        | inr other ↦
            placed_along (seen ++ u ∷ []) rest r.1
              (λ z p. elim (Bool-cases (u == z)) [
                | inl same ↦
                    subst (λ x. elem x (run network).order ≡ true) ((==_iff u z).0 same) here
                | inr apart ↦ w z (ground (arith, elem-append z seen (u ∷ [])))
              ])
              (λ z p. k z (ground arith)) v (ground arith)
      ]

  full_order :
      length (run network).order ≡ length network.activities → IsOrderOf network (run network).order
  full_order e =
      let sound = run-IsSound network keyed in
      let distinct =
        IsDistinct-append_left (run network).order (run network).ready sound.distinct in
      let within : Within (run network).order (uids network) = λ v m.
        sound.within v (ground (arith, elem-append v (run network).order (run network).ready)) in
      record {
        respects = sound.topological;
        distinct = distinct;
        all = λ v.
            let back =
              Within-full (run network).order (uids network) distinct within
                (e ∙ sym (length-uids network.activities)) in
            elim (Bool-cases (elem v (run network).order)) [
              | inl placed ↦ placed ∙ sym (within v placed)
              | inr absent ↦ elim (Bool-cases (elem v (uids network))) [
                | inl known ↦ cc (back v known)
                | inr unknown ↦ absent ∙ sym unknown
              ]
            ];
      }

  no_order :
      length (run network).order ≢ length network.activities
      → (order : List ℕ) → ¬ IsOrderOf network order
  no_order short order o =
      let sound = run-IsSound network keyed in
      let back : Within (uids network) (run network).order = λ v m.
        placed_along [] order o.respects (λ z p. cc) (λ z p. sym (o.all z) ∙ p) v (o.all v ∙ m) in
      let within : Within (run network).order (uids network) = λ v m.
        sound.within v (ground (arith, elem-append v (run network).order (run network).ready)) in
      let distinct =
        IsDistinct-append_left (run network).order (run network).ready sound.distinct in
      short (
        omega (
          arith,
          length-le-Within (run network).order (uids network) distinct within,
          length-le-Within (uids network) (run network).order keyed.distinct back,
          length-uids network.activities,
        ))

  -- With distinct identities and known successors, `_topological_order` answers an order that holds each
  -- activity once, behind all predecessors of its relationships; and it refuses, with the code for a
  -- cycle, only a network that has no such order.
  pub topological_order-Answers : Answers network (topological_order network)
  unfolding topological_order
  topological_order-Answers =
      elim (Bool-cases (length (run network).order == length network.activities)) [
        | inl full ↦ rw full (full_order ((==_iff _ _).0 full))
        | inr short ↦ rw short (refl, no_order (λ e. cc ((==_iff _ _).1 e)))
      ]
