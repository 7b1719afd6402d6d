-- ===== src/Engine/Lag/Shift.antt =====
-- `shift_lag` of sto/core/engine/network.py is the reference's `shift_working_time`.
use sto_scheduler_tracker_re.Prelude.{ℕ, zero, suc, ◌≡◌, refl, sym, ◌∙◌, ℤ, pos, negsuc, arith}
use sto_scheduler_tracker_re.Calendar.Intervals.{Intervals}
use sto_scheduler_tracker_re.Calendar.Reference.{shift_working_time}
use sto_scheduler_tracker_re.Calendar.Compiled.{of, normalise}
use sto_scheduler_tracker_re.Calendar.Normalise.{normalise-IsOrdered}
use sto_scheduler_tracker_re.Calendar.Later.{add_productive-finish_at, shift_later-finish_at}
use sto_scheduler_tracker_re.Calendar.Earlier.{sub_productive-start_at, shift_earlier-start_at}
use sto_scheduler_tracker_re.Engine.Lag.{shift_lag}

-- On any calendar, anchor and signed lag, the indexed `shift_lag` (by `add_working` and `sub_working`)
-- gives the answer of the scan `shift_working_time` over the normalised intervals, none included.
pub shift_lag-shift_working_time :
    (raw : Intervals) (anchor : ℕ) (lag : ℤ)
    → shift_lag (of raw) anchor lag ≡ shift_working_time anchor lag (normalise raw)
unfolding shift_lag shift_working_time of
shift_lag-shift_working_time raw anchor (pos zero) = refl
shift_lag-shift_working_time raw anchor (pos (suc d)) =
    let o = normalise-IsOrdered raw in
    add_productive-finish_at (normalise raw) 0 anchor d o
    ∙ sym (shift_later-finish_at (normalise raw) 0 (suc d) anchor o (omega arith))
shift_lag-shift_working_time raw anchor (negsuc d) =
    let o = normalise-IsOrdered raw in
    sub_productive-start_at (normalise raw) 0 anchor d o
    ∙ sym (shift_earlier-start_at (normalise raw) 0 (suc d) anchor o (omega arith))
