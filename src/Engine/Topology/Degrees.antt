-- ===== src/Engine/Topology/Degrees.antt =====
-- The degrees of Kahn's algorithm in sto/core/engine/forward.py: what counting and releasing do to them.
use sto_scheduler_tracker_re.Prelude.{
  ℕ, ◌+◌, ◌-◌, ◌≡◌, refl, List, [], ◌∷◌, ◌++◌, true, false, not, ◌&&◌, ◌||◌, ◌==◌, if◌then◌else◌,
  filter, elem, arith, ==_iff,
}
use sto_scheduler_tracker_re.Engine.Model.{PlannedRelationship}
use sto_scheduler_tracker_re.Engine.Topology.{count_in, adjust, release}

-- The edges into `v`.
unfoldable pub edges_into : ℕ → List PlannedRelationship → ℕ
edges_into v [] = 0
edges_into v (r ∷ rest) = if r.successor_uid == v then edges_into v rest + 1 else edges_into v rest

-- The edges into `v` whose predecessor is not in `order`.
unfoldable pub open_into : List ℕ → ℕ → List PlannedRelationship → ℕ
open_into order v [] = 0
open_into order v (r ∷ rest) =
    if r.successor_uid == v && not (elem r.predecessor_uid order)
    then open_into order v rest + 1
    else open_into order v rest

pub elem-append : (u : ℕ) (xs ys : List ℕ) → elem u (xs ++ ys) ≡ elem u xs || elem u ys
elem-append u [] ys = refl
elem-append u (x ∷ xs) ys = ground (arith, elem-append u xs ys)

pub count_in_lem :
    (rows : List PlannedRelationship) (f : ℕ → ℕ) (v : ℕ)
    → count_in rows f v ≡ f v + edges_into v rows
unfolding count_in edges_into
count_in_lem [] f v = omega arith
count_in_lem (r ∷ rest) f v =
    ground (arith, count_in_lem rest (adjust f r.successor_uid (λ n. n + 1)) v)

pub open_into-nil :
    (v : ℕ) (rows : List PlannedRelationship) → open_into [] v rows ≡ edges_into v rows
unfolding open_into edges_into
open_into-nil v [] = refl
open_into-nil v (r ∷ rest) = ground (arith, open_into-nil v rest)

-- One more row in the order closes the edges out of it.
pub open_into-snoc :
    (order : List ℕ) (u v : ℕ) (rows : List PlannedRelationship)
    → elem u order ≡ false
    → open_into (order ++ u ∷ []) v rows + edges_into v (filter (λ r. r.predecessor_uid == u) rows)
      ≡ open_into order v rows
unfolding open_into edges_into
open_into-snoc order u v [] h = omega arith
open_into-snoc order u v (r ∷ rest) h = ground (
  arith,
  elem-append r.predecessor_uid order (u ∷ []),
  ==_iff r.predecessor_uid u,
  open_into-snoc order u v rest h,
)

-- A row with no open edge has each of its predecessors in the order.
pub open_into-zero :
    (order : List ℕ) (v : ℕ) (rows : List PlannedRelationship) (r : PlannedRelationship)
    → open_into order v (r ∷ rows) ≡ 0
    → r.successor_uid ≡ v
    → elem r.predecessor_uid order ≡ true
unfolding open_into
open_into-zero order v rows r z e = ground (arith, ==_iff r.successor_uid v)

-- Every degree falls by the number of edges released into the row.
pub release_degree :
    (rows : List PlannedRelationship) (f : ℕ → ℕ) (out : List ℕ) (v : ℕ)
    → (release rows f out).0 v ≡ f v - edges_into v rows
unfolding release edges_into
release_degree [] f out v = omega arith
release_degree (r ∷ rest) f out v =
    ground (arith, release_degree rest (adjust f r.successor_uid (λ n. n - 1)) (next f r out) v)
  where
    next : (ℕ → ℕ) → PlannedRelationship → List ℕ → List ℕ
    next f r out = if f r.successor_uid - 1 == 0 then out ++ r.successor_uid ∷ [] else out
