-- ===== src/Engine/Backward/Greatest.antt =====
-- The late dates of sto/core/engine/backward.py among the spans that the network allows.
use sto_scheduler_tracker_re.Prelude.{
  ℕ, suc, ◌≤◌, ◌≡◌, sym, ◌∙◌, ap, subst, List, Bool, true, false, arith, All, Option, some, none,
  elem, default, pos, Bool-cases, inl, inr,
}
use sto_scheduler_tracker_re.Calendar.Intervals.{Intervals}
use sto_scheduler_tracker_re.Calendar.Reference.{consume_duration}
use sto_scheduler_tracker_re.Calendar.Compiled.{CompiledIntervals, of, normalise, first}
use sto_scheduler_tracker_re.Calendar.Spans.{latest_span}
use sto_scheduler_tracker_re.Engine.Outcome.{ok, present-eq-ok, ok-inj}
use sto_scheduler_tracker_re.Engine.Model.{
  ConstraintType, asap, alap, snet, fnet, PlannedActivity, PlannedRelationship, Network,
  activity_by_uid, successors, remaining, anchors_predecessor_finish,
}
use sto_scheduler_tracker_re.Engine.Lag.{shift_lag}
use sto_scheduler_tracker_re.Engine.Progress.{ProgressPolicy, not_started, state_of}
use sto_scheduler_tracker_re.Engine.Place.{ActivityTimes, calendar_floor}
use sto_scheduler_tracker_re.Engine.Forward.{forward_pass}
use sto_scheduler_tracker_re.Engine.Forward.Early.{span-lies}
use sto_scheduler_tracker_re.Engine.Forward.Answer.{forward_pass-IsPassOf}
use sto_scheduler_tracker_re.Engine.Late.{
  ActivityLateTimes, late_at, UpperBound, target, retreat, late_bounds,
}
use sto_scheduler_tracker_re.Engine.Late.Placement.{
  place_late, place_late_row, place_late_free, constrain_late, unconstrained, LateLimits, set_by,
}
use sto_scheduler_tracker_re.Engine.Backward.{
  BackwardPass, LateContext, LateRequest, context_of, place_late_open, place_late_state,
  backward_pass,
}
use sto_scheduler_tracker_re.Engine.Backward.Rounds.{open-inv}
use sto_scheduler_tracker_re.Engine.Backward.Guards.{bound_of}
use sto_scheduler_tracker_re.Engine.Backward.Answer.{placing_at, backward_pass-IsLatePassOf}
use sto_scheduler_tracker_re.Engine.Backward.Placing.{IsLatest-on}
use sto_scheduler_tracker_re.Engine.Backward.Bounds.{upper, lower_all-Greatest}
use sto_scheduler_tracker_re.Engine.Backward.Selection.{selected-All}
use sto_scheduler_tracker_re.Engine.Backward.Targets.{
  HasLagCalendar, AreCompiled, target-keeps, retreat-IsGreatest,
}
use sto_scheduler_tracker_re.Engine.Backward.Honours.{
  All-successors, All-map, All-map2, late_bounds-inv,
}

-- Of an edge out of a row with these dates: the lag carries the date that it starts from to a
-- coordinate, which lies no further than what the relationship bounds.
abbrev pub Receives :
    Network
    → List ActivityTimes
    → List ActivityLateTimes
    → (start finish : ℕ) → PlannedRelationship
    → Type 0
Receives network early times start finish r =
    (cal : CompiledIntervals) (anchor : ℕ)
    → target network early times r ≡ ok (cal, anchor)
    → (v : ℕ) × (shift_lag cal (upper r start finish) r.lag ≡ some v) × (v ≤ anchor)

-- Dates that every edge receives lie at or before the edge's retreat.
Receives-retreat :
    (network : Network) (early : List ActivityTimes) (before : List ActivityLateTimes)
    (start finish : ℕ) (r : PlannedRelationship)
    → AreCompiled network
    → HasLagCalendar r
    → start ≤ network.horizon
    → finish ≤ network.horizon
    → Receives network early before start finish r
    → (x : ℕ) → retreat network early before r ≡ ok x
    → upper r start finish ≤ x
unfolding of
Receives-retreat network early before start finish r compiled lagged hs hf receives x back =
    let (raw, cal, anchor, same, at, (_, _, greatest)) =
      retreat-IsGreatest network early before r compiled.activities lagged back in
    let (v, shifted, le) = receives cal anchor at in
    greatest (upper r start finish) (upper_within r)
      (v, ap (λ k. shift_lag k (upper r start finish) r.lag) same ∙ shifted, le)
  where
    upper_within : (r : PlannedRelationship) → upper r start finish ≤ network.horizon
    upper_within r = elim (Bool-cases (anchors_predecessor_finish r)) [
      | inl from ↦ rw from hf
      | inr onto ↦ rw onto hs
    ]

-- Whatever dates the edges receive, up to the bound of the pass, lie at or before the row's bounds.
pub late_bounds-Greatest :
    (c : LateContext) (before : List ActivityLateTimes) (a : PlannedActivity)
    {b : UpperBound × UpperBound} (start finish : ℕ)
    → AreCompiled c.network
    → c.late_finish ≤ c.network.horizon
    → late_bounds c.network c.early before (successors c.network a.uid) c.late_finish c.released
      ≡ ok b
    → All
        (λ r. elem r.uid c.released ≡ false → Receives c.network c.early before start finish r)
        (successors c.network a.uid)
    → start ≤ c.late_finish
    → finish ≤ c.late_finish
    → (start ≤ b.0.at) × (finish ≤ b.1.at)
late_bounds-Greatest c before a {b} start finish compiled within bounded receives hs hf =
    let (edges, chosen, lowered) = late_bounds-inv c before a bounded in
    let back : All
        (λ r.
          elem r.uid c.released ≡ false
          → (x : ℕ) → retreat c.network c.early before r ≡ ok x
          → upper r start finish ≤ x)
        (successors c.network a.uid) =
      All-map2 _ HasLagCalendar _ (successors c.network a.uid)
        (λ r received lagged kept.
          Receives-retreat c.network c.early before start finish r compiled lagged (omega arith)
            (omega arith) (received kept))
        receives (All-successors HasLagCalendar c.network a.uid compiled.relationships) in
    lower_all-Greatest c.network c.early before edges (set_by c.late_finish) (set_by c.late_finish)
      b.0 b.1 start finish lowered
      (selected-All _ before (successors c.network a.uid) c.released back chosen) hs hf

-- The constraint types that ask nothing of a backward pass.
abbrev pub is_late_free : ConstraintType → Bool
is_late_free asap = true
is_late_free alap = true
is_late_free snet = true
is_late_free fnet = true
is_late_free _ = false

pub constrain_late-free :
    (ct : ConstraintType) (at : Option ℕ) (start finish : UpperBound)
    → is_late_free ct ≡ true
    → constrain_late ct at start finish ≡ unconstrained start finish
unfolding constrain_late
constrain_late-free ct at start finish h = ground arith

-- The round of an activity that has not started and carries no constraint of this pass.
pub free-inv :
    (c : LateContext) (before : List ActivityLateTimes) (a : PlannedActivity)
    {row : ActivityLateTimes}
    → is_late_free a.constraint_type ≡ true
    → state_of a ≡ not_started
    → place_late_state c before a (state_of a) ≡ ok row
    → (b : UpperBound × UpperBound) × (late_bounds c.network c.early before
          (successors c.network a.uid)
          c.late_finish
          c.released
        ≡ ok b)
      × (place_late a (remaining a) b.0.at b.1.at c.snap none a.constraint_coordinate
          ≡ ok (row.late_start, row.late_finish))
      × (row.remaining_start ≡ none)
unfolding place_late_state
free-inv c before a {row} free fresh e =
    let e' : place_late_open c before a not_started ≡ ok row =
      subst (λ st. place_late_state c before a st ≡ ok row) fresh e in
    let (b, (s, f), bounded, placed, last) = open-inv c before a not_started e' in
    let same = ok-inj last in
    let plain = constrain_late-free a.constraint_type a.constraint_coordinate b.0 b.1 free in
    (
      b,
      bounded,
      subst
          (λ (l : LateLimits).
            place_late a (remaining a) l.start.at l.finish.at c.snap l.pinned
              a.constraint_coordinate
            ≡ ok (row.late_start, row.late_finish))
          plain (placed ∙ ap (λ (r : ActivityLateTimes). ok (r.late_start, r.late_finish)) same),
      ap (λ (r : ActivityLateTimes). r.remaining_start) (sym same),
    )

-- A row that nothing pins and no envelope holds is placed at the latest span in its bounds.
pub place_late-Latest :
    (a : PlannedActivity) (raw : Intervals) (d sb fb : ℕ) (snap : Bool) (at : Option ℕ) (s f : ℕ)
    → of raw ≡ a.calendar
    → a.assignment_envelope ≡ none
    → place_late a (pos (suc d)) sb fb snap none at ≡ ok (s, f)
    → (s' f' : ℕ) → consume_duration s' (pos (suc d)) (normalise raw) ≡ some f'
    → s' ≤ sb
    → f' ≤ fb
    → (s' ≤ s) × (f' ≤ f)
unfolding place_late place_late_free calendar_floor
place_late-Latest a raw d sb fb snap at s f cal free e s' f' spans hs hf =
    let at_row =
      subst (λ env. place_late_row a env (pos (suc d)) sb fb snap none at ≡ ok (s, f)) free e in
    let found =
      present-eq-ok (latest_span a.calendar sb fb (pos (suc d)) (calendar_floor a)) _ _ at_row in
    let (low, _) = span-lies raw d s' f' spans in
    (IsLatest-on raw a.calendar sb fb (suc d) (calendar_floor a) s f cal found).1 s' f'
      (spans, hs, hf, subst (λ k. default 0 (first k) ≤ s') cal low)

-- Dates that the network would allow the activity in this direction: a span of its duration on its
-- calendar, by the pass's bound, that every relationship out of it receives, the released ones apart.
pub record IsLateAllowed (network : Network) (early : List ActivityTimes) (pass : BackwardPass)
    (a : PlannedActivity) (raw : Intervals) (d start finish : ℕ) : Type 0 where
  pub spans : consume_duration start (pos d) (normalise raw) ≡ some finish
  pub by : finish ≤ pass.project_late_finish
  pub received :
      All
        (λ r.
          elem r.uid pass.overridden_relationships ≡ false
          → Receives network early pass.times start finish r)
        (successors network a.uid)

module _ (fingerprint : Network → ℕ) (network : Network) (q : LateRequest) {pass : BackwardPass}
    (snap : Bool) (policy : ProgressPolicy) where
  -- In a backward pass that is returned for a forward pass of the network, the late dates of an
  -- activity that has not started, with a positive duration, no envelope, and a constraint type that
  -- this pass does not apply, are the latest that `IsLateAllowed` admits: no allowed dates start or
  -- finish after them. The calendars are built by `CompiledIntervals.of`.
  pub backward_pass-Greatest :
      (a : PlannedActivity) (row : ActivityLateTimes) (raw : Intervals) (d : ℕ)
      → AreCompiled network
      → of raw ≡ a.calendar
      → a.assignment_envelope ≡ none
      → is_late_free a.constraint_type ≡ true
      → remaining a ≡ pos (suc d)
      → forward_pass network snap policy ≡ ok q.forward
      → backward_pass fingerprint network q ≡ ok pass
      → activity_by_uid network a.uid ≡ some a
      → late_at pass.times a.uid ≡ some row
      → state_of a ≡ not_started
      → (start finish : ℕ) → IsLateAllowed network q.forward.times pass a raw (suc d) start finish
      → (start ≤ row.late_start) × (finish ≤ row.late_finish)
  backward_pass-Greatest a row raw d compiled cal whole free works forwards e found at fresh start
        finish allowed =
      let distinct = (forward_pass-IsPassOf network snap policy forwards).ordered.distinct in
      let round = placing_at fingerprint network q a row distinct e found at in
      let c = context_of network q pass.overridden_relationships in
      let about = backward_pass-IsLatePassOf fingerprint network q e in
      let (b, bounded, placed, _) = free-inv c round.before a free fresh round.placed in
      let (_, ordered) = span-lies raw d start finish allowed.spans in
      let until : finish ≤ bound_of q = subst (λ m. finish ≤ m) about.finish allowed.by in
      let received : All
          (λ r.
            elem r.uid c.released ≡ false
            → Receives network q.forward.times round.before start finish r)
          (successors network a.uid) =
        All-map _ _ (successors network a.uid)
          (λ r receives kept k anchor there.
            receives kept k anchor
              (target-keeps network q.forward.times round.before pass.times r round.kept there))
          allowed.received in
      let (hs, hf) =
        late_bounds-Greatest c round.before a start finish compiled about.admissible.within bounded
          received (omega arith) until in
      place_late-Latest a raw d b.0.at b.1.at c.snap a.constraint_coordinate row.late_start
        row.late_finish cal whole
        (subst
          (λ k.
            place_late a k b.0.at b.1.at c.snap none a.constraint_coordinate
            ≡ ok (row.late_start, row.late_finish))
          works placed)
        start finish allowed.spans hs hf
