-- ===== src/Calendar/Compile.antt =====
-- `_validate_intervals` of sto/core/calendar/compile.py: the working windows of one day. The refusals
-- name the calendar; their text is left out.
pub mod Merged
use sto_scheduler_tracker_re.Prelude.{
  ℕ, List, [], ◌∷◌, some, ◌&&◌, not, ltb, leb, ◌==◌, if◌then◌else◌, ℤ, pos,
}
use sto_scheduler_tracker_re.Calendar.Intervals.{Interval, Intervals}
use sto_scheduler_tracker_re.Calendar.Compiled.{sorted}
use sto_scheduler_tracker_re.Engine.Outcome.{
  Result, ok, raise, raise_if, calendar_interval_invalid, ◌>>=◌, ◌>>◌,
}

abbrev pub seconds_per_day : ℕ
seconds_per_day = 86400

-- Seconds from midnight, half-open: `TimeInterval` of sto/core/model/entities.py.
pub record TimeInterval : Type 0 where
  pub start_second : ℤ
  pub finish_second : ℤ

-- A finish at midnight is the end of the day.
abbrev pub finish_in_day : ℕ → ℕ
finish_in_day finish = if finish == 0 then seconds_per_day else finish

-- The three guards of the first loop. Where an endpoint is negative, one of them refuses it.
unfoldable pub window : ℕ → (start finish : ℤ) → Result Interval
window uid (pos start) (pos finish) = do
  let finish' = finish_in_day finish
  raise_if (start == finish') calendar_interval_invalid (some uid)
  raise_if (ltb finish' start) calendar_interval_invalid (some uid)
  raise_if (not (ltb start seconds_per_day && (ltb 0 finish' && leb finish' seconds_per_day)))
      calendar_interval_invalid (some uid)
  ok (start, finish')
window uid _ _ = raise calendar_interval_invalid (some uid)

unfoldable pub windows : ℕ → List TimeInterval → Result Intervals
unfolding window
windows uid [] = ok []
windows uid (interval ∷ rest) = do
  here ← window uid interval.start_second interval.finish_second
  others ← windows uid rest
  ok (here ∷ others)

-- The second loop, once `merged` is not empty: (ms, mf) is `merged[-1]`.
unfoldable pub merge_touching : ℕ → (ms mf : ℕ) → Intervals → Result Intervals
merge_touching uid ms mf [] = ok ((ms, mf) ∷ [])
merge_touching uid ms mf ((start, finish) ∷ rest) = do
  let joined = merge_touching uid ms finish rest
  let apart = merge_touching uid start finish rest
  raise_if (ltb start mf) calendar_interval_invalid (some uid)
  if start == mf then joined else (do more ← apart; ok ((ms, mf) ∷ more))

abbrev pub merge_windows : ℕ → Intervals → Result Intervals
merge_windows uid [] = ok []
merge_windows uid ((start, finish) ∷ rest) = merge_touching uid start finish rest

unfoldable pub validate_intervals : List TimeInterval → (calendar_uid : ℕ) → Result Intervals
unfolding windows merge_touching
validate_intervals raw calendar_uid = do
  out ← windows calendar_uid raw
  merge_windows calendar_uid (sorted out)
