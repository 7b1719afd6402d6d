-- ===== src/Calendar/Reference.antt =====
-- The reference layer of sto/core/calendar/arithmetic.py. Each `for` loop is a function of its own
-- over the variables that it changes.
use sto_scheduler_tracker_re.Prelude.{
  ℕ, zero, suc, ◌+◌, ◌-◌, min, max, [], ◌∷◌, Option, none, some, Bool, ltb, leb, ◌&&◌, any,
  if◌then◌else◌, reverse, ℤ, pos, negsuc,
}
use sto_scheduler_tracker_re.Calendar.Intervals.{Intervals}

-- The two indices into the lists are what is left of the lists.
unfoldable pub intersect_intervals : Intervals → Intervals → Intervals
intersect_intervals [] right = []
intersect_intervals (l ∷ left) [] = []
intersect_intervals ((ls, lf) ∷ left) ((rs, rf) ∷ right) =
    let start = max ls rs in
    let finish = min lf rf in
    let next_left = intersect_intervals left ((rs, rf) ∷ right) in
    let next_right = intersect_intervals ((ls, lf) ∷ left) right in
    let rest = if leb lf rf then next_left else next_right in
    if ltb start finish then (start, finish) ∷ rest else rest

unfoldable pub contains_coordinate : ℕ → Intervals → Bool
contains_coordinate coordinate intervals =
    any (λ (start, finish). leb start coordinate && ltb coordinate finish) intervals

unfoldable pub consume_loop : (remaining cursor : ℕ) → Intervals → Option ℕ
consume_loop remaining cursor [] = none
consume_loop remaining cursor ((start, finish) ∷ rest) =
    let skip = consume_loop remaining cursor rest in
    let cursor' = if ltb cursor start then start else cursor in
    let available = finish - cursor' in
    let more = consume_loop (remaining - available) finish rest in
    if leb finish cursor
    then skip
    else if leb remaining available
    then some (cursor' + remaining)
    else more

unfoldable pub consume_duration : ℕ → ℤ → Intervals → Option ℕ
consume_duration start (negsuc _) intervals = none
consume_duration start (pos zero) intervals =
    if contains_coordinate start intervals then some start else none
consume_duration start (pos (suc d)) intervals =
    if contains_coordinate start intervals then consume_loop (suc d) start intervals else none

unfoldable pub shift_later : (remaining cursor : ℕ) → Intervals → Option ℕ
shift_later remaining cursor [] = none
shift_later remaining cursor ((start, finish) ∷ rest) =
    let skip = shift_later remaining cursor rest in
    let position = max cursor start in
    let available = finish - position in
    let more = shift_later (remaining - available) finish rest in
    if leb finish cursor
    then skip
    else if leb remaining available
    then some (position + remaining)
    else more

-- Over the reversed intervals.
unfoldable pub shift_earlier : (remaining cursor : ℕ) → Intervals → Option ℕ
shift_earlier remaining cursor [] = none
shift_earlier remaining cursor ((start, finish) ∷ rest) =
    let skip = shift_earlier remaining cursor rest in
    let position = min cursor finish in
    let available = position - start in
    let more = shift_earlier (remaining - available) start rest in
    if leb cursor start
    then skip
    else if leb remaining available
    then some (position - remaining)
    else more

unfoldable pub shift_working_time : ℕ → ℤ → Intervals → Option ℕ
shift_working_time anchor (pos zero) intervals = some anchor
shift_working_time anchor (pos (suc d)) intervals = shift_later (suc d) anchor intervals
shift_working_time anchor (negsuc d) intervals = shift_earlier (suc d) anchor (reverse intervals)

unfoldable pub productive_segments : ℕ → ℕ → Intervals → Intervals
productive_segments start finish [] = []
productive_segments start finish ((s, f) ∷ rest) =
    let segments = productive_segments start finish rest in
    if ltb (max start s) (min finish f) then (max start s, min finish f) ∷ segments else segments
