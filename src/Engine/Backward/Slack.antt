-- ===== src/Engine/Backward/Slack.antt =====
-- The two passes of sto/core/engine together: activities that nothing bounds from above, and late rows
-- that lie at or behind the early ones.
pub mod Spans
pub mod Answer
use sto_scheduler_tracker_re.Prelude.{
  ℕ, ◌≤◌, ◌≡◌, List, Bool, true, false, arith, Option, some, none, if◌then◌else◌,
}
use sto_scheduler_tracker_re.Calendar.Compiled.{CompiledIntervals, of}
use sto_scheduler_tracker_re.Engine.Outcome.{
  ok, present, present-eq-ok, >>=-eq-ok, key_error, lag_unreachable,
}
use sto_scheduler_tracker_re.Engine.Model.{ConstraintType, PlannedActivity, PlannedRelationship}
use sto_scheduler_tracker_re.Engine.Lag.{lag_calendar_for, shift_lag}
use sto_scheduler_tracker_re.Engine.Progress.{not_started, state_of}
use sto_scheduler_tracker_re.Engine.Place.{ActivityTimes, placed_at, landing}
use sto_scheduler_tracker_re.Engine.Forward.Bounds.{is_hard}
use sto_scheduler_tracker_re.Engine.Late.{ActivityLateTimes, anchor_of}
use sto_scheduler_tracker_re.Engine.Backward.Bounds.{upper}
use sto_scheduler_tracker_re.Engine.Backward.Greatest.{is_late_free}

-- An activity that has not started, with no date that bounds it from above and no envelope.
pub record IsOpen (a : PlannedActivity) : Type 0 where
  pub fresh : state_of a ≡ not_started
  pub free : is_late_free a.constraint_type ≡ true
  pub whole : a.assignment_envelope ≡ none

pub is_late_free-soft : (ct : ConstraintType) → is_late_free ct ≡ true → is_hard ct ≡ false
is_late_free-soft ct h = ground arith

-- The late row lies at or behind the early one.
abbrev pub InSlack : List ActivityTimes → ActivityLateTimes → Type 0
InSlack early row =
    (row.remaining_start ≡ none)
    × ((e : ActivityTimes)
        → placed_at early row.uid ≡ some e
        → (e.early_start ≤ row.late_start) × (e.early_finish ≤ row.late_finish))

pub landing-inv :
    (b : PlannedActivity) (rows : List ActivityTimes) (r : PlannedRelationship) {v : ℕ}
    → landing b rows r ≡ ok v
    → (p : ActivityTimes) × (placed_at rows r.predecessor_uid ≡ some p)
      × (shift_lag (lag_calendar_for r b.calendar) (upper r p.early_start p.early_finish) r.lag
          ≡ some v)
unfolding landing
landing-inv b rows r e =
    let (p, there, later) =
      >>=-eq-ok (present (placed_at rows r.predecessor_uid) key_error (some r.predecessor_uid))
        (λ (p : ActivityTimes).
          present
            (shift_lag (lag_calendar_for r b.calendar) (upper r p.early_start p.early_finish) r.lag)
            lag_unreachable (some r.uid))
        e in
    (p, present-eq-ok _ _ _ there, present-eq-ok _ _ _ later)

-- The coordinate that an edge bounds, of a successor in slack.
pub anchor-InSlack :
    (cal : CompiledIntervals) (early : List ActivityTimes) (s : ActivityLateTimes)
    (r : PlannedRelationship) (onto : Bool) (remaining_start : Option ℕ) (es ef : ℕ) {anchor : ℕ}
    → remaining_start ≡ none
    → anchor_of cal early s r onto remaining_start ≡ ok anchor
    → es ≤ s.late_start
    → ef ≤ s.late_finish
    → (if onto then es else ef) ≤ anchor
unfolding anchor_of
anchor-InSlack cal early s r false rs es ef bare e hs hf = ground arith
anchor-InSlack cal early s r true none es ef bare e hs hf = ground arith
anchor-InSlack cal early s r true (some x) es ef bare e hs hf = cc
