-- ===== src/Tests/Calendars.antt =====
-- The theorems on sto/core/calendar/arithmetic.py at the sample calendar.
use sto_scheduler_tracker_re.Prelude.{
  List, ℕ, ◌≡◌, ◌≤◌, refl, [], ◌∷◌, none, some, ◌&&◌, pos, negsuc, arith,
}
use sto_scheduler_tracker_re.Calendar.Intervals.{Intervals, IsOrdered}
use sto_scheduler_tracker_re.Calendar.Reference.{
  contains_coordinate, intersect_intervals, shift_working_time,
}
use sto_scheduler_tracker_re.Calendar.Compiled.{
  of, normalise, next_working, prev_working, working_between, add_productive, sub_productive,
  sorted,
}
use sto_scheduler_tracker_re.Calendar.Spans.{earliest_span, latest_span}
use sto_scheduler_tracker_re.Calendar.Earliest.{IsEarliest}
use sto_scheduler_tracker_re.Calendar.Earliest.Answer.{earliest_span-IsEarliest}
use sto_scheduler_tracker_re.Calendar.Latest.{IsLatest}
use sto_scheduler_tracker_re.Calendar.Latest.Answer.{latest_span-IsLatest}
use sto_scheduler_tracker_re.Calendar.Normalise.{normalise-canonical}
use sto_scheduler_tracker_re.Calendar.Queries.{
  IsNext, IsWorking, AnswersBefore, next_working-IsNext, prev_working-AnswersBefore,
}
use sto_scheduler_tracker_re.Calendar.Counting.{count, working_between-count}
use sto_scheduler_tracker_re.Calendar.Compile.{TimeInterval, validate_intervals}
use sto_scheduler_tracker_re.Calendar.Compile.Merged.{IsDayOf, validate_intervals-IsDayOf}
use sto_scheduler_tracker_re.Engine.Outcome.{ok, raise, calendar_interval_invalid}
use sto_scheduler_tracker_re.Calendar.Intersect.{intersect_intervals-both}
use sto_scheduler_tracker_re.Engine.Lag.{shift_lag, unshift_lag}
use sto_scheduler_tracker_re.Engine.Lag.Shift.{shift_lag-shift_working_time}
use sto_scheduler_tracker_re.Engine.Lag.Landing.{IsGreatest}
use sto_scheduler_tracker_re.Engine.Lag.RoundTrip.{unshift_lag-shift_lag}
use sto_scheduler_tracker_re.Engine.Lag.Greatest.{unshift_lag-IsGreatest}
use sto_scheduler_tracker_re.Tests.Samples.{raw, days}

normalised : normalise raw ≡ (8, 12) ∷ (13, 17) ∷ (32, 36) ∷ (37, 41) ∷ []
unfolding normalise
normalised = refl

spans_a_break : earliest_span days 11 0 (pos 3) 100 ≡ some (11, 15)
unfolding earliest_span of next_working add_productive sub_productive
spans_a_break = refl

waits_for_its_finish : earliest_span days 8 34 (pos 3) 100 ≡ some (16, 34)
unfolding earliest_span of next_working add_productive sub_productive
waits_for_its_finish = refl

beyond_the_horizon : earliest_span days 11 0 (pos 3) 14 ≡ none
unfolding earliest_span of next_working add_productive sub_productive
beyond_the_horizon = refl

ends_at_its_bound : latest_span days 100 20 (pos 5) 0 ≡ some (11, 17)
unfolding latest_span of prev_working sub_productive
ends_at_its_bound = refl

counts_both_days : working_between days 10 34 ≡ 8
unfolding working_between of
counts_both_days = refl

leads_back : shift_lag days 33 (negsuc 2) ≡ some 15
unfolding shift_lag of sub_productive
leads_back = refl

normalise-canonical_example :
    IsOrdered 0 (normalise raw)
    × ((c : ℕ) → contains_coordinate c (normalise raw) ≡ contains_coordinate c raw)
    × (IsOrdered 0 raw → normalise raw ≡ raw)
normalise-canonical_example = normalise-canonical raw

earliest_span-IsEarliest_example :
    IsEarliest (normalise raw) 8 34 3 100 (earliest_span (of raw) 8 34 (pos 3) 100)
earliest_span-IsEarliest_example = earliest_span-IsEarliest raw 8 34 3 100

latest_span-IsLatest_example :
    IsLatest (normalise raw) 100 20 5 0 (latest_span (of raw) 100 20 (pos 5) 0)
latest_span-IsLatest_example = latest_span-IsLatest raw 100 20 5 0

next_working-IsNext_example : IsNext (IsWorking raw) 12 (next_working (of raw) 12)
next_working-IsNext_example = next_working-IsNext raw 12

prev_working-AnswersBefore_example : AnswersBefore raw 20
prev_working-AnswersBefore_example = prev_working-AnswersBefore raw 20

working_between-count_example : working_between (of raw) 10 34 ≡ count raw 10 24
working_between-count_example = working_between-count raw 10 34

abbrev night : Intervals
night = (10, 14) ∷ (16, 40) ∷ []

abbrev shift : Intervals
shift = (8, 12) ∷ (13, 17) ∷ []

shared_hours : intersect_intervals night shift ≡ (10, 12) ∷ (13, 14) ∷ (16, 17) ∷ []
unfolding intersect_intervals
shared_hours = refl

intersect_intervals-both_example :
    IsOrdered 0 (intersect_intervals night shift)
    × ((c : ℕ)
        → contains_coordinate c (intersect_intervals night shift)
          ≡ (contains_coordinate c night && contains_coordinate c shift))
intersect_intervals-both_example =
    intersect_intervals-both night shift (omega arith, omega arith, (omega arith, omega arith, tt))
      (omega arith, omega arith, (omega arith, omega arith, tt))

shift_lag-shift_working_time_example :
    shift_lag (of raw) 33 (negsuc 2) ≡ shift_working_time 33 (negsuc 2) (normalise raw)
shift_lag-shift_working_time_example = shift_lag-shift_working_time raw 33 (negsuc 2)

unshift_lag-IsGreatest_example :
    IsGreatest (normalise raw) 15 (negsuc 2) 40 (unshift_lag (of raw) 15 (negsuc 2) (some 40))
unshift_lag-IsGreatest_example = unshift_lag-IsGreatest raw 15 (negsuc 2) 40

-- A night window up to midnight, and two that touch.
abbrev windows_of_a_day : List TimeInterval
windows_of_a_day =
    record { start_second = pos 68400; finish_second = pos 0 }
    ∷ record { start_second = pos 28800; finish_second = pos 36000 }
    ∷ record { start_second = pos 36000; finish_second = pos 43200 }
    ∷ []

merges_windows : validate_intervals windows_of_a_day 7 ≡ ok ((28800, 43200) ∷ (68400, 86400) ∷ [])
unfolding validate_intervals sorted
merges_windows = refl

refuses_an_overlap :
    validate_intervals
      (record { start_second = pos 28800; finish_second = pos 36000 }
        ∷ record { start_second = pos 30000; finish_second = pos 43200 }
        ∷ [])
      7
    ≡ raise calendar_interval_invalid (some 7)
unfolding validate_intervals sorted
refuses_an_overlap = refl

refuses_a_night_shift :
    validate_intervals (record { start_second = pos 68400; finish_second = pos 21600 } ∷ []) 7
    ≡ raise calendar_interval_invalid (some 7)
unfolding validate_intervals
refuses_a_night_shift = refl

validate_intervals-IsDayOf_example :
    IsDayOf 7 windows_of_a_day ((28800, 43200) ∷ (68400, 86400) ∷ [])
validate_intervals-IsDayOf_example = validate_intervals-IsDayOf windows_of_a_day 7 merges_windows

unshift_lag-shift_lag_example :
    (back : ℕ) × (unshift_lag (of raw) 14 (pos 1) (some 41) ≡ some back)
    × (12 ≤ back)
    × (shift_lag (of raw) back (pos 1) ≡ some 14)
unfolding of add_productive shift_lag
unshift_lag-shift_lag_example = unshift_lag-shift_lag raw (pos 1) 41 12 14 (omega arith) refl
