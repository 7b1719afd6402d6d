-- ===== src/Engine/Lag.antt =====
-- Lags: `lag_calendar_for`, `shift_lag` and `unshift_lag` of sto/core/engine/network.py, and the guards
-- of `add_working` and `sub_working` in sto/core/calendar/arithmetic.py.
pub mod Shift
pub mod Landing
pub mod Unshift
pub mod Greatest
pub mod Before
pub mod RoundTrip
use sto_scheduler_tracker_re.Prelude.{
  ℕ, zero, suc, Option, none, some, Bool, leb, if◌then◌else◌, ℤ, pos, negsuc, default, is_some,
}
use sto_scheduler_tracker_re.Prelude.Maybe.{◌>>=◌, ◌>>◌, require}
use sto_scheduler_tracker_re.Calendar.Compiled.{
  CompiledIntervals, add_productive, sub_productive, total_work, last, next_working,
  prev_working_start,
}
use sto_scheduler_tracker_re.Engine.Outcome.{Result, ok, raise, value_error}
use sto_scheduler_tracker_re.Engine.Model.{PlannedRelationship}

unfoldable pub add_working : CompiledIntervals → ℕ → ℤ → Result (Option ℕ)
add_working cal coordinate (pos d) = ok (add_productive cal coordinate d)
add_working cal coordinate (negsuc _) = raise value_error none

unfoldable pub sub_working : CompiledIntervals → ℕ → ℤ → Result (Option ℕ)
sub_working cal coordinate (pos d) = ok (sub_productive cal coordinate d)
sub_working cal coordinate (negsuc _) = raise value_error none

unfoldable pub lag_calendar_for : PlannedRelationship → CompiledIntervals → CompiledIntervals
lag_calendar_for relationship successor_calendar =
    default successor_calendar relationship.lag_calendar

unfoldable pub shift_lag : CompiledIntervals → ℕ → ℤ → Option ℕ
shift_lag cal anchor (pos zero) = some anchor
shift_lag cal anchor (pos (suc d)) = add_productive cal anchor (suc d)
shift_lag cal anchor (negsuc d) = sub_productive cal anchor (suc d)

-- `value is not None and value <= bound`
abbrev pub at_most : ℕ → Option ℕ → Bool
at_most bound none = Bool.false
at_most bound (some v) = leb v bound

-- The branch of `unshift_lag` for a lead, a lag of `- lead`.
unfoldable pub unshift_lead : CompiledIntervals → (anchor lead limit : ℕ) → Option ℕ
unfolding shift_lag
unshift_lead cal anchor zero limit = none
unshift_lead cal anchor (suc d) limit = do
  require (leb (suc d) (total_work cal))
  landing ← prev_working_start cal anchor
  moved ← add_productive cal landing (suc d)
  let answer = default moved (next_working cal moved)
  require (leb answer limit)
  require (at_most anchor (shift_lag cal answer (negsuc d)))
  some answer

-- After the limit is known and found too late.
unfoldable pub unshift_within : CompiledIntervals → ℕ → ℤ → ℕ → Option ℕ
unfolding unshift_lead
unshift_within cal anchor (pos zero) limit = some anchor
unshift_within cal anchor (pos (suc d)) limit = do
  answer ← sub_productive cal anchor (suc d)
  require (leb answer limit)
  some answer
unshift_within cal anchor (negsuc d) limit = unshift_lead cal anchor (suc d) limit

abbrev pub zero_lag : ℤ → ℕ → Option ℕ
zero_lag (pos zero) anchor = some anchor
zero_lag _ anchor = none

unfoldable pub unshift_lag : CompiledIntervals → ℕ → ℤ → Option ℕ → Option ℕ
unfolding unshift_within shift_lag
unshift_lag cal anchor lag ceiling = elim (if is_some ceiling then ceiling else last cal) [
  | none ↦ zero_lag lag anchor
  | some limit ↦
      if at_most anchor (shift_lag cal limit lag)
      then some limit
      else unshift_within cal anchor lag limit
]
