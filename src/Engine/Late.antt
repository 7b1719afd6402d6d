-- ===== src/Engine/Late.antt =====
-- Bounds from the successors: `ActivityLateTimes` and `_bounds` of sto/core/engine/backward.py.
pub mod Placement
use sto_scheduler_tracker_re.Prelude.{
  ℕ, max, List, [], ◌∷◌, ◌++◌, Option, none, some, Bool, true, false, ◌&&◌, ◌||◌, not, ltb, ◌==◌,
  if◌then◌else◌, elem, find, is_some, default,
}
use sto_scheduler_tracker_re.Calendar.Compiled.{CompiledIntervals}
use sto_scheduler_tracker_re.Engine.Outcome.{
  Result, ok, raise, ◌>>=◌, present, lag_unreachable, key_error, inactive_boundary_late_tie,
}
use sto_scheduler_tracker_re.Engine.Model.{
  PlannedRelationship, Network, anchors_predecessor_finish, bounds_successor_start, activity_by_uid,
}
use sto_scheduler_tracker_re.Engine.Lag.{lag_calendar_for, shift_lag, unshift_lag}
use sto_scheduler_tracker_re.Engine.Place.{ActivityTimes, placed_at}

-- FROM_PROJECT_FINISH, FROM_RELATIONSHIP, FROM_CONSTRAINT and FROM_ACTUALS.
pub data LateSource : Type 0 where
  project_finish relationship constraint actuals : LateSource

pub record ActivityLateTimes : Type 0 where
  pub uid : ℕ
  pub late_start : ℕ
  pub late_finish : ℕ
  pub driving_relationship_uid : Option ℕ
  pub source : LateSource
  pub remaining_start : Option ℕ

-- The dictionary `placed`, a row added in front.
unfoldable pub late_at : List ActivityLateTimes → ℕ → Option ActivityLateTimes
late_at placed u = find (λ row. row.uid) u placed

-- A bound and the relationship that drives it.
pub record UpperBound : Type 0 where
  pub at : ℕ
  pub driver : Option ℕ

-- `shifted < bound or (driver is None and shifted == bound)`
unfoldable pub lower_bound : UpperBound → ℕ → ℕ → UpperBound
lower_bound b shifted uid =
    if ltb shifted b.at || (not (is_some b.driver) && shifted == b.at)
    then record { at = shifted; driver = some uid }
    else b

-- `boundary_groups.setdefault(u, []).append(r)`
unfoldable pub join_group :
    ℕ
    → PlannedRelationship
    → List (ℕ × List PlannedRelationship)
    → List (ℕ × List PlannedRelationship)
join_group u r [] = (u, r ∷ []) ∷ []
join_group u r ((v, rows) ∷ groups) =
    if v == u then (v, rows ++ r ∷ []) ∷ groups else (v, rows) ∷ join_group u r groups

abbrev pub sorted_into :
    Option ℕ
    → PlannedRelationship
    → List PlannedRelationship × List (ℕ × List PlannedRelationship)
    → List PlannedRelationship × List (ℕ × List PlannedRelationship)
sorted_into none r (ordinary, groups) = (ordinary ++ r ∷ [], groups)
sorted_into (some u) r (ordinary, groups) = (ordinary, join_group u r groups)

-- The first loop of `_bounds`: the edges that are not released, apart from those of each inactive
-- boundary.
unfoldable pub sort_edges :
    List PlannedRelationship
    → (released : List ℕ) → List PlannedRelationship × List (ℕ × List PlannedRelationship)
    → List PlannedRelationship × List (ℕ × List PlannedRelationship)
unfolding join_group
sort_edges [] released sorted = sorted
sort_edges (r ∷ rest) released sorted =
    let skipped = sort_edges rest released sorted in
    let taken = sort_edges rest released (sorted_into r.inactive_boundary_uid r sorted) in
    if elem r.uid released then skipped else taken

-- `candidates`
unfoldable pub candidates :
    List ActivityLateTimes → List PlannedRelationship → Result (List (ℕ × PlannedRelationship))
unfolding late_at bounds_successor_start
candidates placed [] = ok []
candidates placed (r ∷ rest) = do
  successor ← present (late_at placed r.successor_uid) key_error (some r.successor_uid)
  others ← candidates placed rest
  ok (
      (
        if bounds_successor_start r
            then default successor.late_start successor.remaining_start
            else successor.late_finish,
        r,
      )
      ∷ others)

abbrev pub latest : List (ℕ × PlannedRelationship) → ℕ
latest [] = 0
latest ((anchor, r) ∷ rest) = max anchor (latest rest)

-- `winners`
abbrev pub winners : ℕ → List (ℕ × PlannedRelationship) → List PlannedRelationship
winners at [] = []
winners at ((anchor, r) ∷ rest) = if anchor == at then r ∷ winners at rest else winners at rest

abbrev pub only : ℕ → List PlannedRelationship → Result PlannedRelationship
only u (r ∷ []) = ok r
only u _ = raise inactive_boundary_late_tie (some u)

-- The one edge that an inactive boundary lets bind.
unfoldable pub elect :
    List ActivityLateTimes → ℕ × List PlannedRelationship → Result PlannedRelationship
unfolding candidates
elect placed (u, r ∷ []) = ok r
elect placed (u, rows) = do rated ← candidates placed rows; only u (winners (latest rated) rated)

unfoldable pub elect_all :
    List ActivityLateTimes → List (ℕ × List PlannedRelationship) → Result (List PlannedRelationship)
unfolding elect
elect_all placed [] = ok []
elect_all placed (group ∷ groups) = do
  r ← elect placed group
  others ← elect_all placed groups
  ok (r ∷ others)

-- `selected`
unfoldable pub selected :
    List ActivityLateTimes
    → List PlannedRelationship
    → (released : List ℕ) → Result (List PlannedRelationship)
unfolding sort_edges elect_all
selected placed outgoing released =
    let (ordinary, groups) = sort_edges outgoing released ([], []) in
    (do elected ← elect_all placed groups; ok (ordinary ++ elected))

-- `landed is None or landed > successor.late_start`
abbrev pub is_outstanding : Option ℕ → ℕ → Bool
is_outstanding none late_start = true
is_outstanding (some landed) late_start = ltb late_start landed

-- The coordinate of the successor that the edge bounds. Of a successor under way it is the remaining
-- start where the edge was not yet satisfied when the work began.
unfoldable pub anchor_of :
    CompiledIntervals
    → List ActivityTimes
    → ActivityLateTimes
    → PlannedRelationship
    → (onto : Bool) → (remaining_start : Option ℕ) → Result ℕ
unfolding placed_at anchors_predecessor_finish shift_lag
anchor_of calendar early successor r false remaining_start = ok successor.late_finish
anchor_of calendar early successor r true none = ok successor.late_start
anchor_of calendar early successor r true (some remaining_start) = do
  predecessor ← present (placed_at early r.predecessor_uid) key_error (some r.predecessor_uid)
  let before =
      if anchors_predecessor_finish r then predecessor.early_finish else predecessor.early_start
  ok (
      if is_outstanding (shift_lag calendar before r.lag) successor.late_start
      then remaining_start
      else successor.late_start)

-- The successor's coordinate, and the calendar that the lag is read on.
unfoldable pub target :
    Network
    → List ActivityTimes
    → List ActivityLateTimes
    → PlannedRelationship
    → Result (CompiledIntervals × ℕ)
unfolding late_at activity_by_uid lag_calendar_for anchor_of bounds_successor_start
target network early placed r = do
  successor ← present (late_at placed r.successor_uid) key_error (some r.successor_uid)
  scheduled ← present (activity_by_uid network r.successor_uid) key_error (some r.successor_uid)
  anchor ←
      anchor_of (lag_calendar_for r scheduled.calendar) early successor r (bounds_successor_start r)
        successor.remaining_start
  ok (lag_calendar_for r scheduled.calendar, anchor)

-- Where the relationship carries its successor's coordinate back to.
unfoldable pub retreat :
    Network → List ActivityTimes → List ActivityLateTimes → PlannedRelationship → Result ℕ
unfolding target unshift_lag
retreat network early placed r = do
  (calendar, anchor) ← target network early placed r
  present (unshift_lag calendar anchor r.lag (some network.horizon)) lag_unreachable (some r.uid)

-- The last loop of `_bounds`.
unfoldable pub lower_all :
    Network
    → List ActivityTimes
    → List ActivityLateTimes
    → List PlannedRelationship
    → (start finish : UpperBound) → Result (UpperBound × UpperBound)
unfolding retreat lower_bound anchors_predecessor_finish
lower_all network early placed [] start finish = ok (start, finish)
lower_all network early placed (r ∷ rest) start finish = do
  shifted ← retreat network early placed r
  (let from = anchors_predecessor_finish r in
      lower_all network early placed rest (if from then start else lower_bound start shifted r.uid)
        (if from then lower_bound finish shifted r.uid else finish))

unfoldable pub late_bounds :
    Network
    → List ActivityTimes
    → List ActivityLateTimes
    → (outgoing : List PlannedRelationship) (project_late_finish : ℕ) (released : List ℕ)
    → Result (UpperBound × UpperBound)
unfolding selected lower_all
late_bounds network early placed outgoing project_late_finish released = do
  edges ← selected placed outgoing released
  lower_all network early placed edges (record { at = project_late_finish; driver = none })
      (record { at = project_late_finish; driver = none })
