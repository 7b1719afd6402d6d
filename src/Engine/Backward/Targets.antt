-- ===== src/Engine/Backward/Targets.antt =====
-- Where an edge leads back to, in `_bounds` of sto/core/engine/backward.py.
use sto_scheduler_tracker_re.Prelude.{
  ℕ, ◌≤◌, ◌≡◌, refl, ◌∙◌, ap, subst, List, All, All-find, Option, some, none, default,
}
use sto_scheduler_tracker_re.Calendar.Compiled.{CompiledIntervals, of, normalise}
use sto_scheduler_tracker_re.Engine.Outcome.{
  ok, ◌>>=◌, present, present-eq-ok, >>=-eq-ok, ok-inj, key_error, lag_unreachable,
}
use sto_scheduler_tracker_re.Engine.Model.{
  PlannedActivity, PlannedRelationship, Network, activity_by_uid, bounds_successor_start,
}
use sto_scheduler_tracker_re.Engine.Lag.{lag_calendar_for, shift_lag, unshift_lag}
use sto_scheduler_tracker_re.Engine.Lag.Landing.{IsGreatest}
use sto_scheduler_tracker_re.Engine.Lag.Greatest.{unshift_lag-IsGreatest}
use sto_scheduler_tracker_re.Engine.Lag.Before.{shift_lag-earlier}
use sto_scheduler_tracker_re.Engine.Place.{ActivityTimes}
use sto_scheduler_tracker_re.Engine.Forward.Spans.{IsCompiled, HasCalendars}
use sto_scheduler_tracker_re.Engine.Late.{ActivityLateTimes, late_at, anchor_of, target, retreat}
use sto_scheduler_tracker_re.Engine.Backward.Bounds.{upper, Retreats}

-- The lag calendar of the relationship, where it has one, is built by `CompiledIntervals.of`.
abbrev pub HasLag : Option CompiledIntervals → Type 0
HasLag none = Unit
HasLag (some cal) = IsCompiled cal

abbrev pub HasLagCalendar : PlannedRelationship → Type 0
HasLagCalendar r = HasLag r.lag_calendar

-- Every calendar of the network is built by `CompiledIntervals.of`.
pub record AreCompiled (network : Network) : Type 0 where
  pub activities : All HasCalendars network.activities
  pub relationships : All HasLagCalendar network.relationships

pub default-IsCompiled :
    (own : Option CompiledIntervals) (cal : CompiledIntervals)
    → IsCompiled cal
    → HasLag own
    → IsCompiled (default cal own)
default-IsCompiled none cal c h = c
default-IsCompiled (some k) cal c h = h

module _ (network : Network) (early : List ActivityTimes) (placed : List ActivityLateTimes) where
  -- The edge names a successor with a row and an activity, and bounds a coordinate of theirs.
  pub target-inv :
      (r : PlannedRelationship) {cal : CompiledIntervals} {anchor : ℕ}
      → target network early placed r ≡ ok (cal, anchor)
      → (successor : ActivityLateTimes) × (b : PlannedActivity) × (late_at placed r.successor_uid
          ≡ some successor)
        × (activity_by_uid network r.successor_uid ≡ some b)
        × (lag_calendar_for r b.calendar ≡ cal)
        × (anchor_of
              (lag_calendar_for r b.calendar)
              early
              successor
              r
              (bounds_successor_start r)
              successor.remaining_start
            ≡ ok anchor)
  unfolding target
  target-inv r e =
      let anchored : ActivityLateTimes → PlannedActivity → _ = λ successor b.
        anchor_of (lag_calendar_for r b.calendar) early successor r (bounds_successor_start r)
          successor.remaining_start in
      let (successor, there, later) =
        >>=-eq-ok (present (late_at placed r.successor_uid) key_error (some r.successor_uid))
          (λ successor.
            present (activity_by_uid network r.successor_uid) key_error (some r.successor_uid)
            >>= λ b. anchored successor b >>= λ anchor. ok (lag_calendar_for r b.calendar, anchor))
          e in
      let (b, known, rest) =
        >>=-eq-ok
          (present (activity_by_uid network r.successor_uid) key_error (some r.successor_uid))
          (λ b. anchored successor b >>= λ anchor. ok (lag_calendar_for r b.calendar, anchor))
          later in
      let (anchor, at, last) =
        >>=-eq-ok (anchored successor b) (λ anchor. ok (lag_calendar_for r b.calendar, anchor))
          rest in
      let same = ok-inj last in
      (
        successor,
        b,
        present-eq-ok (late_at placed r.successor_uid) _ _ there,
        present-eq-ok (activity_by_uid network r.successor_uid) _ _ known,
        ap (λ (p : CompiledIntervals × ℕ). p.0) same,
        at ∙ ap (λ (p : CompiledIntervals × ℕ). ok p.1) same,
      )

  pub target-built :
      (r : PlannedRelationship) (successor : ActivityLateTimes) (b : PlannedActivity) {anchor : ℕ}
      → late_at placed r.successor_uid ≡ some successor
      → activity_by_uid network r.successor_uid ≡ some b
      → anchor_of
          (lag_calendar_for r b.calendar)
          early
          successor
          r
          (bounds_successor_start r)
          successor.remaining_start
        ≡ ok anchor
      → target network early placed r ≡ ok (lag_calendar_for r b.calendar, anchor)
  unfolding target
  target-built r successor b there known at = rw (there, known, at) refl

  pub retreat-inv :
      (r : PlannedRelationship) {x : ℕ}
      → retreat network early placed r ≡ ok x
      → (cal : CompiledIntervals) × (anchor : ℕ) × (target network early placed r
          ≡ ok (cal, anchor))
        × (unshift_lag cal anchor r.lag (some network.horizon) ≡ some x)
  unfolding retreat
  retreat-inv r e =
      let ((cal, anchor), at, back) =
        >>=-eq-ok (target network early placed r)
          (λ p.
            present (unshift_lag p.0 p.1 r.lag (some network.horizon)) lag_unreachable (some r.uid))
          e in
      (cal, anchor, at, present-eq-ok _ _ _ back)

  pub target-IsCompiled :
      (r : PlannedRelationship) {cal : CompiledIntervals} {anchor : ℕ}
      → All HasCalendars network.activities
      → HasLagCalendar r
      → target network early placed r ≡ ok (cal, anchor)
      → IsCompiled cal
  unfolding activity_by_uid lag_calendar_for
  target-IsCompiled r calendars lagged e =
      let (successor, b, _, known, same, _) = target-inv r e in
      let (own, _) =
        All-find HasCalendars (λ b. b.uid) r.successor_uid network.activities b calendars known in
      subst IsCompiled same (default-IsCompiled r.lag_calendar b.calendar own lagged)

  -- The greatest coordinate that the edge lets its predecessor have.
  pub retreat-IsGreatest :
      (r : PlannedRelationship) {x : ℕ}
      → All HasCalendars network.activities
      → HasLagCalendar r
      → retreat network early placed r ≡ ok x
      → (raw : _) × (cal : CompiledIntervals) × (anchor : ℕ) × (of raw ≡ cal)
        × (target network early placed r ≡ ok (cal, anchor))
        × IsGreatest (normalise raw) anchor r.lag network.horizon (some x)
  retreat-IsGreatest r calendars lagged e =
      let (cal, anchor, at, back) = retreat-inv r e in
      let (raw, same) = target-IsCompiled r calendars lagged at in
      (
        raw,
        cal,
        anchor,
        same,
        at,
        subst (IsGreatest (normalise raw) anchor r.lag network.horizon)
            (ap (λ k. unshift_lag k anchor r.lag (some network.horizon)) same ∙ back)
            (unshift_lag-IsGreatest raw anchor r.lag network.horizon),
      )

-- What the edge bounds does not change when rows are added behind.
pub target-keeps :
    (network : Network) (early : List ActivityTimes) (before times : List ActivityLateTimes)
    (r : PlannedRelationship) {p : CompiledIntervals × ℕ}
    → ((v : ℕ) (row : ActivityLateTimes) → late_at before v ≡ some row → late_at times v ≡ some row)
    → target network early before r ≡ ok p
    → target network early times r ≡ ok p
target-keeps network early before times r {p} kept e =
    let (successor, b, there, known, same, at) = target-inv network early before r e in
    target-built network early times r successor b (kept r.successor_uid successor there) known at
    ∙ ap (λ cal. ok (cal, p.1)) same

-- The edge out of a row with these dates: the lag carries the date that it starts from no further than
-- the coordinate of the successor that it bounds.
abbrev pub Yields :
    Network
    → List ActivityTimes
    → List ActivityLateTimes
    → (start finish : ℕ) → PlannedRelationship
    → Type 0
Yields network early times start finish r =
    (cal : CompiledIntervals) × (anchor : ℕ) × (target network early times r ≡ ok (cal, anchor))
    × ((v : ℕ) → shift_lag cal (upper r start finish) r.lag ≡ some v → v ≤ anchor)

pub Retreats-Yields :
    (network : Network) (early : List ActivityTimes) (before times : List ActivityLateTimes)
    (start finish : ℕ) (r : PlannedRelationship)
    → All HasCalendars network.activities
    → HasLagCalendar r
    → ((v : ℕ) (row : ActivityLateTimes) → late_at before v ≡ some row → late_at times v ≡ some row)
    → Retreats network early before start finish r
    → Yields network early times start finish r
Retreats-Yields network early before times start finish r calendars lagged kept (x, back, le) =
    let (raw, cal, anchor, same, at, (_, lands, _)) =
      retreat-IsGreatest network early before r calendars lagged back in
    (
      cal,
      anchor,
      target-keeps network early before times r kept at,
      λ v e. shift_lag-earlier raw cal anchor r.lag x (upper r start finish) v same lands le e,
    )
