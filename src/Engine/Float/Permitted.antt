-- ===== src/Engine/Float/Permitted.antt =====
-- How far `_free_float` of sto/core/engine/criticality.py lets an edge move its predecessor.
use sto_scheduler_tracker_re.Prelude.{
  ℕ, ◌≤◌, ◌≡◌, ◌∙◌, ap, subst, true, false, arith, some, find, if◌then◌else◌, All, All-find,
}
use sto_scheduler_tracker_re.Calendar.Intervals.{Intervals, Working}
use sto_scheduler_tracker_re.Calendar.Compiled.{
  CompiledIntervals, of, normalise, prev_working_start,
}
use sto_scheduler_tracker_re.Engine.Outcome.{
  ok, ◌>>=◌, present, present-eq-ok, >>=-eq-ok, key_error, lag_unreachable,
}
use sto_scheduler_tracker_re.Engine.Model.{
  PlannedActivity, PlannedRelationship, activity_by_uid, anchors_predecessor_finish,
  bounds_successor_start,
}
use sto_scheduler_tracker_re.Engine.Lag.{lag_calendar_for, shift_lag, unshift_lag}
use sto_scheduler_tracker_re.Engine.Lag.Landing.{IsGreatest}
use sto_scheduler_tracker_re.Engine.Lag.Greatest.{unshift_lag-IsGreatest}
use sto_scheduler_tracker_re.Engine.Forward.Spans.{IsCompiled, HasCalendars}
use sto_scheduler_tracker_re.Engine.Backward.Targets.{HasLagCalendar, default-IsCompiled}
use sto_scheduler_tracker_re.Engine.Backward.Placing.{prev_working_start-on}
use sto_scheduler_tracker_re.Engine.Place.{ActivityTimes, placed_at}
use sto_scheduler_tracker_re.Engine.Float.{FloatContext, available, must_snap, permitted}

-- The last coordinate up to the limit that the lag carries no further than the successor's date.
abbrev pub IsLastMove :
    CompiledIntervals → (reach : ℕ) (r : PlannedRelationship) (limit at : ℕ) → Type 0
IsLastMove cal reach r limit at =
    (at ≤ limit)
    × ((v : ℕ) × (shift_lag cal at r.lag ≡ some v) × (v ≤ reach))
    × ((other : ℕ) (v : ℕ)
        → other ≤ limit
        → shift_lag cal other r.lag ≡ some v
        → v ≤ reach
        → other ≤ at)

-- What the coordinate is: the last move, or, where the predecessor must be placed on its own calendar,
-- the last working coordinate up to it.
pub record IsPermitted (c : FloatContext) (a : PlannedActivity) (raw : Intervals)
    (r : PlannedRelationship) (at : ℕ) : Type 0 where
  pub scheduled : PlannedActivity
  pub successor : ActivityTimes
  pub limits : ℕ × ℕ × ℕ
  pub move : ℕ
  pub known : activity_by_uid c.network r.successor_uid ≡ some scheduled
  pub placed : placed_at c.early r.successor_uid ≡ some successor
  pub limited : find (λ (l : ℕ × ℕ × ℕ). l.0) a.uid c.movement_limits ≡ some limits
  pub last :
      IsLastMove
        (lag_calendar_for r scheduled.calendar)
        (available successor (bounds_successor_start r))
        r
        (if anchors_predecessor_finish r then limits.2 else limits.1)
        move
  pub free : must_snap c a.uid (anchors_predecessor_finish r) ≡ false → at ≡ move
  pub snapped :
      must_snap c a.uid (anchors_predecessor_finish r) ≡ true
      → (at ≤ move)
        × Working at (normalise raw)
        × ((w : ℕ) → Working w (normalise raw) → w ≤ move → w ≤ at)

IsLastMove-unshift :
    (cal : CompiledIntervals) (reach : ℕ) (r : PlannedRelationship) (limit at : ℕ)
    → IsCompiled cal
    → unshift_lag cal reach r.lag (some limit) ≡ some at
    → IsLastMove cal reach r limit at
unfolding of
IsLastMove-unshift cal reach r limit at (raw, same) e =
    let greatest : IsGreatest (normalise raw) reach r.lag limit (some at) =
      subst (IsGreatest (normalise raw) reach r.lag limit)
        (ap (λ k. unshift_lag k reach r.lag (some limit)) same ∙ e)
        (unshift_lag-IsGreatest raw reach r.lag limit) in
    subst (λ k. IsLastMove k reach r limit at) same
      (
        greatest.0,
        greatest.1,
        λ other v within shifted le. greatest.2 other within (v, shifted, le),
      )

-- In a network whose calendars are built by `CompiledIntervals.of`, the coordinate up to which an edge
-- lets its predecessor move is exact: it lies within the movement limit, the lag carries it no further
-- than the successor's early date, and no later coordinate within the limit does as well; a predecessor
-- that must be placed on its own calendar gets the last working coordinate up to there.
pub permitted-IsPermitted :
    (c : FloatContext) (a : PlannedActivity) (raw : Intervals) (r : PlannedRelationship) (at : ℕ)
    → All HasCalendars c.network.activities
    → HasLagCalendar r
    → of raw ≡ a.calendar
    → permitted c a r ≡ ok at
    → IsPermitted c a raw r at
unfolding permitted activity_by_uid lag_calendar_for
permitted-IsPermitted c a raw r at calendars lagged own e =
    let snap = must_snap c a.uid (anchors_predecessor_finish r) in
    let moved : PlannedActivity → ActivityTimes → ℕ × ℕ × ℕ → _ = λ b s limits.
      present
        (unshift_lag (lag_calendar_for r b.calendar) (available s (bounds_successor_start r)) r.lag
          (some (if anchors_predecessor_finish r then limits.2 else limits.1)))
        lag_unreachable (some r.uid) in
    let snapped_to : ℕ → _ = λ x.
      present (if snap then prev_working_start a.calendar x else some x) lag_unreachable
        (some r.uid) in
    let limits_of =
      present (find (λ (l : ℕ × ℕ × ℕ). l.0) a.uid c.movement_limits) key_error (some a.uid) in
    let (b, known, e1) =
      >>=-eq-ok
        (present (activity_by_uid c.network r.successor_uid) key_error (some r.successor_uid))
        (λ b. present (placed_at c.early r.successor_uid) key_error (some r.successor_uid) >>= λ s.
          limits_of >>= λ limits. moved b s limits >>= snapped_to)
        e in
    let (s, placed, e2) =
      >>=-eq-ok (present (placed_at c.early r.successor_uid) key_error (some r.successor_uid))
        (λ s. limits_of >>= λ limits. moved b s limits >>= snapped_to) e1 in
    let (limits, limited, e3) =
      >>=-eq-ok limits_of (λ limits. moved b s limits >>= snapped_to) e2 in
    let (x, unshifted, e4) = >>=-eq-ok (moved b s limits) snapped_to e3 in
    let there = present-eq-ok (activity_by_uid c.network r.successor_uid) _ _ known in
    let (cal, _) =
      All-find HasCalendars (λ (b : PlannedActivity). b.uid) r.successor_uid c.network.activities b
        calendars there in
    let found = present-eq-ok (if snap then prev_working_start a.calendar x else some x) _ _ e4 in
    record {
      scheduled = b;
      successor = s;
      limits = limits;
      move = x;
      known = there;
      placed = present-eq-ok (placed_at c.early r.successor_uid) _ _ placed;
      limited = present-eq-ok _ _ _ limited;
      last =
          IsLastMove-unshift (lag_calendar_for r b.calendar) _ r _ x
            (default-IsCompiled r.lag_calendar b.calendar cal lagged)
            (present-eq-ok _ _ _ unshifted);
      free = λ off.
          let same : some x ≡ some at =
            subst (λ k. (if k then prev_working_start a.calendar x else some x) ≡ some at) off
              found in
          ground arith;
      snapped = λ on.
          prev_working_start-on raw a.calendar x at own (
            subst (λ k. (if k then prev_working_start a.calendar x else some x) ≡ some at) on
              found);
    }
