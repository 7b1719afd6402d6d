-- ===== src/Engine/Backward/Edges.antt =====
-- One edge, seen from both of its ends, for the proofs that relate the two passes of sto/core/engine.
use sto_scheduler_tracker_re.Prelude.{
  ℕ, ◌≡◌, refl, sym, ap, subst, List, [], ◌∷◌, map, true, All, arith, some, elem, find, filter,
  ◌==◌, ==_iff, ◌⊎◌, inl, inr, Bool-cases, if◌then◌else◌,
}
use sto_scheduler_tracker_re.Engine.Model.{
  PlannedActivity, PlannedRelationship, Network, activity_by_uid, predecessors, successors,
}
use sto_scheduler_tracker_re.Engine.Place.{ActivityTimes, placed_at}
use sto_scheduler_tracker_re.Engine.Topology.{uids}

-- The relationship stands in the list.
abbrev pub Among : PlannedRelationship → List PlannedRelationship → Type 0
Among r [] = ⊥
Among r (x ∷ xs) = (r ≡ x) ⊎ Among r xs

pub All-Among :
    (P : PlannedRelationship → Type 0) (r : PlannedRelationship) (rows : List PlannedRelationship)
    → All P rows
    → Among r rows
    → P r
All-Among P r [] h m = absurd m
All-Among P r (x ∷ xs) (h, hs) (inl same) = subst P (sym same) h
All-Among P r (x ∷ xs) (h, hs) (inr m) = All-Among P r xs hs m

pub Among-All :
    (P : PlannedRelationship → Type 0) (rows : List PlannedRelationship)
    → ((r : PlannedRelationship) → Among r rows → P r)
    → All P rows
Among-All P [] f = tt
Among-All P (x ∷ xs) f = (f x (inl refl), Among-All P xs (λ r m. f r (inr m)))

Among-left :
    (u : ℕ) (r : PlannedRelationship) (rows : List PlannedRelationship)
    → Among r (filter (λ (x : PlannedRelationship). x.predecessor_uid == u) rows)
    → Among r rows × (r.predecessor_uid ≡ u)
Among-left u r [] m = absurd m
Among-left u r (x ∷ xs) m = elim (Bool-cases (x.predecessor_uid == u)) [
  | inl out ↦
      elim (subst
        (λ b. Among r (
          if b
          then x ∷ filter (λ (x : PlannedRelationship). x.predecessor_uid == u) xs
          else filter (λ (x : PlannedRelationship). x.predecessor_uid == u) xs))
        out m) [
          | inl same ↦ (
            inl same,
            subst (λ (z : PlannedRelationship). z.predecessor_uid ≡ u) (sym same)
                ((==_iff x.predecessor_uid u).0 out),
          )
          | inr later ↦ let (there, from) = Among-left u r xs later in (inr there, from)
        ]
  | inr other ↦
      let (there, from) = Among-left u r xs (
        subst
          (λ b. Among r (
            if b
            then x ∷ filter (λ (x : PlannedRelationship). x.predecessor_uid == u) xs
            else filter (λ (x : PlannedRelationship). x.predecessor_uid == u) xs))
          other m) in
      (inr there, from)
]

Among-right :
    (r : PlannedRelationship) (rows : List PlannedRelationship)
    → Among r rows
    → Among r (filter (λ (x : PlannedRelationship). x.successor_uid == r.successor_uid) rows)
Among-right r [] m = absurd m
Among-right r (x ∷ xs) (inl same) =
    let onto : (x.successor_uid == r.successor_uid) ≡ true =
      (==_iff x.successor_uid r.successor_uid).1
        (ap (λ (z : PlannedRelationship). z.successor_uid) (sym same)) in
    rw onto (inl same)
Among-right r (x ∷ xs) (inr m) = elim (Bool-cases (x.successor_uid == r.successor_uid)) [
  | inl onto ↦ rw onto (inr (Among-right r xs m))
  | inr other ↦ rw other (Among-right r xs m)
]

-- An edge out of the activity is one into its successor.
pub successors-predecessors :
    (network : Network) (u : ℕ) (r : PlannedRelationship)
    → Among r (successors network u)
    → (r.predecessor_uid ≡ u) × Among r (predecessors network r.successor_uid)
unfolding successors predecessors
successors-predecessors network u r m =
    let (there, from) = Among-left u r network.relationships m in
    (from, Among-right r network.relationships there)

-- A row stands for each identity that the rows list.
pub placed_at-listed :
    (rows : List ActivityTimes) (v : ℕ)
    → elem v (map (λ (row : ActivityTimes). row.uid) rows) ≡ true
    → (row : ActivityTimes) × (placed_at rows v ≡ some row)
unfolding placed_at
placed_at-listed [] v m = cc
placed_at-listed (x ∷ xs) v m = elim (Bool-cases (x.uid == v)) [
  | inl same ↦ (x, ground arith)
  | inr other ↦ let (row, at) = placed_at-listed xs v (ground arith) in (row, ground arith)
]

pub activity_by_uid-listed :
    (network : Network) (v : ℕ) (a : PlannedActivity)
    → activity_by_uid network v ≡ some a
    → elem v (uids network) ≡ true
unfolding activity_by_uid
activity_by_uid-listed network v a e = go network.activities e
  where
    go :
        (rows : List PlannedActivity)
        → find (λ (b : PlannedActivity). b.uid) v rows ≡ some a
        → elem v (map (λ (b : PlannedActivity). b.uid) rows) ≡ true
    go [] e = cc
    go (x ∷ xs) e = elim (Bool-cases (x.uid == v)) [
      | inl same ↦ rw same refl
      | inr other ↦ rw other (go xs (ground arith))
    ]
