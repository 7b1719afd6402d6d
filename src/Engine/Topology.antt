-- ===== src/Engine/Topology.antt =====
-- `_topological_order` of sto/core/engine/forward.py: Kahn's algorithm over the network. The `while`
-- loop takes fuel, and returns its state, so that what is left in `ready` shows whether it ended.
pub mod Degrees
pub mod Sets
pub mod Released
pub mod Invariant
pub mod Rounds
pub mod Ends
pub mod Answer
use sto_scheduler_tracker_re.Prelude.{
  ℕ, zero, suc, ◌+◌, ◌-◌, List, [], ◌∷◌, ◌++◌, Option, none, some, ltb, leb, ◌==◌, if◌then◌else◌,
  filter, length, map,
}
use sto_scheduler_tracker_re.Engine.Outcome.{Result, ok, raise, cycle}
use sto_scheduler_tracker_re.Engine.Model.{
  PlannedActivity, PlannedRelationship, Network, successors,
}

abbrev pub uids : Network → List ℕ
uids network = map (λ (a : PlannedActivity). a.uid) network.activities

-- The index in the list of identities.
unfoldable pub position : List ℕ → ℕ → ℕ
position [] u = 0
position (x ∷ xs) u = if x == u then 0 else suc (position xs u)

unfoldable pub insert_by : (ℕ → ℕ) → ℕ → List ℕ → List ℕ
insert_by key x [] = x ∷ []
insert_by key x (y ∷ ys) =
    let rest = insert_by key x ys in if leb (key x) (key y) then x ∷ y ∷ ys else y ∷ rest

-- `sorted(rows, key=...)`, which keeps the order of equal keys.
unfoldable pub sorted_by : (ℕ → ℕ) → List ℕ → List ℕ
unfolding insert_by
sorted_by key [] = []
sorted_by key (x ∷ xs) = insert_by key x (sorted_by key xs)

-- The dictionary `indegree` as a function.
abbrev pub adjust : (ℕ → ℕ) → ℕ → (ℕ → ℕ) → ℕ → ℕ
adjust indegree u f v = if v == u then f (indegree v) else indegree v

unfoldable pub count_in : List PlannedRelationship → (ℕ → ℕ) → ℕ → ℕ
count_in [] indegree = indegree
count_in (r ∷ rest) indegree = count_in rest (adjust indegree r.successor_uid (λ n. n + 1))

pub record Kahn : Type 0 where
  pub indegree : ℕ → ℕ
  pub ready : List ℕ
  pub order : List ℕ

-- The `for` loop over the edges out of the row that was popped: the new degrees and `released`.
unfoldable pub release : List PlannedRelationship → (ℕ → ℕ) → List ℕ → (ℕ → ℕ) × List ℕ
release [] indegree released = (indegree, released)
release (r ∷ rest) indegree released =
    let lower = adjust indegree r.successor_uid (λ n. n - 1) in
    release rest lower
      (if lower r.successor_uid == 0 then released ++ r.successor_uid ∷ [] else released)

-- One round of the `while` loop, for a row `u` popped from the left of `ready`.
unfoldable pub pop : Network → ℕ → List ℕ → Kahn → Kahn
unfolding release sorted_by position successors
pop network u ready s =
    let (indegree, released) = release (successors network u) s.indegree [] in
    record {
      indegree = indegree;
      ready = ready ++ sorted_by (position (uids network)) released;
      order = s.order ++ u ∷ [];
    }

abbrev pub round : Network → List ℕ → Kahn → Kahn
round network [] s = s
round network (u ∷ ready) s = pop network u ready s

unfoldable pub kahn : ℕ → Network → Kahn → Kahn
unfolding pop
kahn zero network s = s
kahn (suc fuel) network s = kahn fuel network (round network s.ready s)

unfoldable pub initial : Network → Kahn
unfolding count_in sorted_by position
initial network =
    let indegree = count_in network.relationships (λ u. 0) in
    record {
      indegree = indegree;
      ready = sorted_by (position (uids network)) (filter (λ u. indegree u == 0) (uids network));
      order = [];
    }

-- `unresolved[0] if unresolved else None`
abbrev pub head? : List ℕ → Option ℕ
head? [] = none
head? (u ∷ rest) = some u

unfoldable pub run : Network → Kahn
unfolding kahn initial
run network = kahn (length network.activities) network (initial network)

unfoldable pub topological_order : Network → Result (List ℕ)
unfolding run
topological_order network =
    let s = run network in
    if length s.order == length network.activities
    then ok s.order
    else raise cycle (
        head?
          (sorted_by (position (uids network)) (filter (λ u. ltb 0 (s.indegree u)) (uids network))))
