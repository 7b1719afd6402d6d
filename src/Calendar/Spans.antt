-- ===== src/Calendar/Spans.antt =====
-- Placing a whole span: `earliest_span` and `latest_span` of sto/core/calendar/arithmetic.py.
use sto_scheduler_tracker_re.Prelude.{
  ℕ, zero, suc, ◌+◌, min, max, Option, none, some, ltb, leb, ◌&&◌, if◌then◌else◌, length, get_or, ℤ,
  pos, negsuc,
}
use sto_scheduler_tracker_re.Prelude.Maybe.{◌>>=◌, ◌>>◌, require}
use sto_scheduler_tracker_re.Calendar.Compiled.{
  CompiledIntervals, bisect_right, bisect_left, next_working, prev_working, prev_working_start,
  add_productive, sub_productive,
}

abbrev pub Span : Type 0
Span = ℕ × ℕ

-- One second into the interval at the index that `bisect_left` found.
unfoldable pub reach_into : CompiledIntervals → ℕ → Option ℕ
reach_into cal j = if leb (length cal.starts) j then none else some (get_or cal.starts j 0 + 1)

-- `reach`: the smallest finish at or beyond the bound.
unfoldable pub finish_reach : CompiledIntervals → ℕ → Option ℕ
unfolding reach_into bisect_right bisect_left
finish_reach cal bound = elim (bisect_right cal.starts bound) [
  | zero ↦ reach_into cal (bisect_left cal.starts bound)
  | suc i ↦
      if ltb (get_or cal.starts i 0) bound && leb bound (get_or cal.finishes i 0)
      then some bound
      else reach_into cal (bisect_left cal.starts bound)
]

-- The branch of `earliest_span` for a finish before its bound.
unfoldable pub reach_span : CompiledIntervals → (lower finish_bound duration : ℕ) → Option Span
unfolding finish_reach
reach_span cal lower finish_bound duration = do
  reach ← finish_reach cal finish_bound
  start ← sub_productive cal reach duration
  require (leb lower start)
  start' ← next_working cal start
  finish ← add_productive cal start' duration
  some (start', finish)

abbrev pub up_to : ℕ → Span → Option Span
up_to horizon (start, finish) = if ltb horizon finish then none else some (start, finish)

unfoldable pub earliest_span :
    CompiledIntervals → (start_bound finish_bound : ℕ) → ℤ → (horizon : ℕ) → Option Span
unfolding reach_span
earliest_span cal start_bound finish_bound (negsuc _) horizon = none
earliest_span cal start_bound finish_bound (pos zero) horizon = do
  start ← next_working cal (max (max 0 start_bound) finish_bound)
  if ltb horizon start then none else some (start, start)
earliest_span cal start_bound finish_bound (pos (suc d)) horizon = do
  let lower = max 0 start_bound
  start ← next_working cal lower
  finish ← add_productive cal start (suc d)
  span ←
      (if ltb finish finish_bound
        then reach_span cal lower finish_bound (suc d)
        else some (start, finish))
  up_to horizon span

-- The branch of `latest_span` for a start beyond its bound.
unfoldable pub pull_span : CompiledIntervals → (start_bound duration : ℕ) → Option Span
pull_span cal start_bound duration = do
  start ← prev_working_start cal start_bound
  finish ← add_productive cal start duration
  some (start, finish)

abbrev pub down_to : ℕ → Span → Option Span
down_to floor (start, finish) = if ltb start floor then none else some (start, finish)

unfoldable pub latest_span :
    CompiledIntervals → (start_bound finish_bound : ℕ) → ℤ → (floor : ℕ) → Option Span
unfolding pull_span
latest_span cal start_bound finish_bound (negsuc _) floor = none
latest_span cal start_bound finish_bound (pos zero) floor = do
  moment ← prev_working_start cal (min start_bound finish_bound)
  if ltb moment floor then none else some (moment, moment)
latest_span cal start_bound finish_bound (pos (suc d)) floor = do
  finish ← prev_working cal finish_bound
  start ← sub_productive cal finish (suc d)
  span ← (if ltb start_bound start then pull_span cal start_bound (suc d) else some (start, finish))
  down_to floor span
