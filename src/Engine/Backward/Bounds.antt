-- ===== src/Engine/Backward/Bounds.antt =====
-- The bounds of sto/core/engine/backward.py beside the edges that they are taken from.
use sto_scheduler_tracker_re.Prelude.{ℕ, ◌≤◌, ◌≡◌, List, [], ◌∷◌, arith, All, if◌then◌else◌}
use sto_scheduler_tracker_re.Engine.Outcome.{ok, >>=-eq-ok}
use sto_scheduler_tracker_re.Engine.Model.{PlannedRelationship, Network, anchors_predecessor_finish}
use sto_scheduler_tracker_re.Engine.Place.{ActivityTimes}
use sto_scheduler_tracker_re.Engine.Late.{
  ActivityLateTimes, UpperBound, lower_bound, retreat, lower_all,
}

lower_bound-le :
    (b : UpperBound) (shifted uid : ℕ)
    → ((lower_bound b shifted uid).at ≤ b.at) × ((lower_bound b shifted uid).at ≤ shifted)
unfolding lower_bound
lower_bound-le b shifted uid = ground arith

lower_bound-ge :
    (b : UpperBound) (shifted uid k : ℕ)
    → k ≤ b.at
    → k ≤ shifted
    → k ≤ (lower_bound b shifted uid).at
unfolding lower_bound
lower_bound-ge b shifted uid k h h' = ground arith

-- The bound of the side that the relationship bounds.
abbrev pub upper : PlannedRelationship → (start finish : ℕ) → ℕ
upper r start finish = if anchors_predecessor_finish r then finish else start

module _ (network : Network) (early : List ActivityTimes) (placed : List ActivityLateTimes) where
  -- The edge leads back to a coordinate, at or behind the date of its side.
  abbrev pub Retreats : (start finish : ℕ) → PlannedRelationship → Type 0
  Retreats start finish r =
      (x : ℕ) × (retreat network early placed r ≡ ok x) × (upper r start finish ≤ x)

  lower_all-cons :
      (r : PlannedRelationship) (rows : List PlannedRelationship) (start finish s f : UpperBound)
      → lower_all network early placed (r ∷ rows) start finish ≡ ok (s, f)
      → (x : ℕ) × (retreat network early placed r ≡ ok x)
        × (lower_all network early placed rows
              (if anchors_predecessor_finish r then start else lower_bound start x r.uid)
              (if anchors_predecessor_finish r then lower_bound finish x r.uid else finish)
            ≡ ok (s, f))
  unfolding lower_all
  lower_all-cons r rows start finish s f e =
      >>=-eq-ok (retreat network early placed r)
        (λ x.
          lower_all network early placed rows
            (if anchors_predecessor_finish r then start else lower_bound start x r.uid)
            (if anchors_predecessor_finish r then lower_bound finish x r.uid else finish))
        e

  pub lower_all-le :
      (rows : List PlannedRelationship) (start finish s f : UpperBound)
      → lower_all network early placed rows start finish ≡ ok (s, f)
      → (s.at ≤ start.at) × (f.at ≤ finish.at)
  unfolding lower_all
  lower_all-le [] start finish s f e = ground arith
  lower_all-le (r ∷ rows) start finish s f e =
      let from = anchors_predecessor_finish r in
      let (x, _, later) = lower_all-cons r rows start finish s f e in
      let (hs, hf) =
        lower_all-le rows (if from then start else lower_bound start x r.uid)
          (if from then lower_bound finish x r.uid else finish) s f later in
      ground (arith, lower_bound-le start x r.uid, lower_bound-le finish x r.uid)

  pub lower_all-Retreats :
      (rows : List PlannedRelationship) (start finish s f : UpperBound)
      → lower_all network early placed rows start finish ≡ ok (s, f)
      → All (Retreats s.at f.at) rows
  unfolding lower_all
  lower_all-Retreats [] start finish s f e = tt
  lower_all-Retreats (r ∷ rows) start finish s f e =
      let from = anchors_predecessor_finish r in
      let (x, back, later) = lower_all-cons r rows start finish s f e in
      let start' = (if from then start else lower_bound start x r.uid) in
      let finish' = (if from then lower_bound finish x r.uid else finish) in
      let (hs, hf) = lower_all-le rows start' finish' s f later in
      let (_, by_start) = lower_bound-le start x r.uid in
      let (_, by_finish) = lower_bound-le finish x r.uid in
      ((x, back, ground arith), lower_all-Retreats rows start' finish' s f later)

  -- Whatever dates lie at or before every retreat lie at or before the bounds.
  pub lower_all-Greatest :
      (rows : List PlannedRelationship) (start finish s f : UpperBound) (ks kf : ℕ)
      → lower_all network early placed rows start finish ≡ ok (s, f)
      → All (λ r. (x : ℕ) → retreat network early placed r ≡ ok x → upper r ks kf ≤ x) rows
      → ks ≤ start.at
      → kf ≤ finish.at
      → (ks ≤ s.at) × (kf ≤ f.at)
  unfolding lower_all
  lower_all-Greatest [] start finish s f ks kf e h hs hf = ground arith
  lower_all-Greatest (r ∷ rows) start finish s f ks kf e (h, more) hs hf =
      let from = anchors_predecessor_finish r in
      let (x, back, later) = lower_all-cons r rows start finish s f e in
      let le = h x back in
      let ge_start = lower_bound-ge start x r.uid ks hs in
      let ge_finish = lower_bound-ge finish x r.uid kf hf in
      lower_all-Greatest rows (if from then start else lower_bound start x r.uid)
        (if from then lower_bound finish x r.uid else finish) s f ks kf later more (ground arith)
        (ground arith)
