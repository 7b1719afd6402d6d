-- ===== src/Engine/Topology/Invariant.antt =====
-- What holds between the rounds of `_topological_order` in sto/core/engine/forward.py.
use sto_scheduler_tracker_re.Prelude.{
  ℕ, ◌+◌, ◌-◌, ◌≤◌, ◌<◌, ◌≡◌, sym, ◌∙◌, List, [], ◌∷◌, ◌++◌, true, subst, false, ◌||◌, ◌==◌, elem,
  filter, arith, Bool-cases, inl, inr, ==_iff, All,
}
use mathlib.Core.List.{append_assoc, append-nil}
use sto_scheduler_tracker_re.Engine.Model.{PlannedRelationship, Network}
use sto_scheduler_tracker_re.Engine.Topology.{Kahn, uids, position, sorted_by, release}
use sto_scheduler_tracker_re.Engine.Topology.Degrees.{
  edges_into, open_into, elem-append, open_into-snoc, release_degree,
}
use sto_scheduler_tracker_re.Engine.Topology.Sets.{
  IsDistinct, Within, IsDistinct-apart, elem-sorted_by,
}
use sto_scheduler_tracker_re.Engine.Topology.Released.{Covers, released_by}

-- Each edge into `u` comes from a row of `seen`.
abbrev pub Follows : List ℕ → ℕ → List PlannedRelationship → Type 0
Follows seen u rows = All (λ r. r.successor_uid ≡ u → elem r.predecessor_uid seen ≡ true) rows

-- Each row of the order stands behind its predecessors; `seen` comes before all of it.
abbrev pub RespectsEdges : List PlannedRelationship → List ℕ → List ℕ → Type 0
RespectsEdges rows seen [] = Unit
RespectsEdges rows seen (u ∷ rest) = Follows seen u rows × RespectsEdges rows (seen ++ u ∷ []) rest

-- The identities are distinct and every edge ends at one of them.
pub record IsWellKeyed (network : Network) : Type 0 where
  pub distinct : IsDistinct (uids network)
  pub known : All (λ r. elem r.successor_uid (uids network) ≡ true) network.relationships

pub record IsSound (network : Network) (s : Kahn) : Type 0 where
  pub counts : (v : ℕ) → s.indegree v ≡ open_into s.order v network.relationships
  pub ready_zero : (v : ℕ) → elem v s.ready ≡ true → s.indegree v ≡ 0
  pub order_zero : (v : ℕ) → elem v s.order ≡ true → s.indegree v ≡ 0
  pub distinct : IsDistinct (s.order ++ s.ready)
  pub topological : RespectsEdges network.relationships [] s.order
  pub within : Within (s.order ++ s.ready) (uids network)
  pub complete :
      (v : ℕ) → elem v (uids network) ≡ true → s.indegree v ≡ 0 → elem v (s.order ++ s.ready) ≡ true

pub Follows-of_zero :
    (order : List ℕ) (u : ℕ) (rows : List PlannedRelationship)
    → open_into order u rows ≡ 0
    → Follows order u rows
unfolding open_into
Follows-of_zero order u [] z = tt
Follows-of_zero order u (r ∷ rest) z =
    (λ e. ground (arith, ==_iff r.successor_uid u), Follows-of_zero order u rest (ground arith))

pub RespectsEdges-snoc :
    (rows : List PlannedRelationship) (seen order : List ℕ) (u : ℕ)
    → RespectsEdges rows seen order
    → Follows (seen ++ order) u rows
    → RespectsEdges rows seen (order ++ u ∷ [])
RespectsEdges-snoc rows seen [] u r f = (subst (λ l. Follows l u rows) (append-nil seen) f, tt)
RespectsEdges-snoc rows seen (x ∷ order) u r f = (
  r.0,
  RespectsEdges-snoc rows (seen ++ x ∷ []) order u r.1
      (subst (λ l. Follows l u rows) (sym (append_assoc seen (x ∷ []) order)) f),
)

pub edges_into_known :
    (v : ℕ) (rows : List PlannedRelationship) (names : List ℕ)
    → All (λ r. elem r.successor_uid names ≡ true) rows
    → 0 < edges_into v rows
    → elem v names ≡ true
unfolding edges_into
edges_into_known v [] names k h = absurd (omega arith)
edges_into_known v (r ∷ rest) names k h = elim (Bool-cases (r.successor_uid == v)) [
  | inl same ↦ subst (λ u. elem u names ≡ true) ((==_iff r.successor_uid v).0 same) k.0
  | inr other ↦ edges_into_known v rest names k.1 (ground arith)
]

pub open_into-le :
    (order : List ℕ) (v : ℕ) (rows : List PlannedRelationship)
    → open_into order v rows ≤ edges_into v rows
unfolding open_into edges_into
open_into-le order v [] = omega arith
open_into-le order v (r ∷ rest) = ground (arith, open_into-le order v rest)

module _ (network : Network) (keyed : IsWellKeyed network) (s : Kahn) (sound : IsSound network s)
    (u : ℕ) (ready : List ℕ) (popped : s.ready ≡ u ∷ ready) where
  abbrev pub out_of : List PlannedRelationship
  out_of = filter (λ r. r.predecessor_uid == u) network.relationships

  abbrev pub released : (ℕ → ℕ) × List ℕ
  released = release out_of s.indegree []

  pub in_ready : elem u s.ready ≡ true
  in_ready = rw popped (ground (arith, ==_iff u u))

  pub fresh : elem u s.order ≡ false
  fresh =
      IsDistinct-apart s.order u ready
        (subst (λ l. IsDistinct (s.order ++ l)) popped sound.distinct)

  pub closes :
      (v : ℕ)
      → open_into (s.order ++ u ∷ []) v network.relationships + edges_into v out_of ≡ s.indegree v
  closes v = open_into-snoc s.order u v network.relationships fresh ∙ sym (sound.counts v)

  pub covers : Covers out_of s.indegree
  covers v = omega (arith, closes v)

  pub old_or_new :
      (v : ℕ)
      → elem v ((s.order ++ u ∷ []) ++ (ready ++ sorted_by (position (uids network)) released.1))
        ≡ elem v (s.order ++ s.ready) || elem v released.1
  old_or_new v = ground (
    arith,
    popped,
    elem-append v s.order s.ready,
    elem-append v (s.order ++ u ∷ []) (ready ++ sorted_by (position (uids network)) released.1),
    elem-append v s.order (u ∷ []),
    elem-append v ready (sorted_by (position (uids network)) released.1),
    elem-sorted_by (position (uids network)) v released.1,
  )

  -- A released row had open edges, which this round closes.
  pub newly :
      (v : ℕ) → elem v released.1 ≡ true → (0 < s.indegree v) × (s.indegree v ≡ edges_into v out_of)
  newly v m = elim (released_by out_of s.indegree [] v covers m) [ inl before ↦ cc | inr now ↦ now ]

  pub old_zero : (v : ℕ) → elem v (s.order ++ s.ready) ≡ true → s.indegree v ≡ 0
  old_zero v m = elim (Bool-cases (elem v s.order)) [
    | inl placed ↦ sound.order_zero v placed
    | inr not_placed ↦ sound.ready_zero v (ground (arith, elem-append v s.order s.ready))
  ]

  pub lowered : (v : ℕ) → released.0 v ≡ s.indegree v - edges_into v out_of
  lowered v = release_degree out_of s.indegree [] v
