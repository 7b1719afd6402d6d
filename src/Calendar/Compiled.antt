-- ===== src/Calendar/Compiled.antt =====
-- The indexed layer of sto/core/calendar/arithmetic.py: `normalise`, `CompiledIntervals` and the
-- queries on it. Python's `bisect` functions are given by what they document on a sorted list, the
-- number of leading elements that are at most (below) the value, and `sorted` by insertion.
use sto_scheduler_tracker_re.Prelude.{
  ℕ, zero, suc, ◌+◌, ◌-◌, min, max, List, [], ◌∷◌, map, Option, none, some, Bool, ltb, leb, ◌==◌,
  ◌&&◌, ◌||◌, if◌then◌else◌, length, get_or, last_or,
}
use sto_scheduler_tracker_re.Calendar.Intervals.{Interval, Intervals}

-- The order of Python's tuples.
abbrev pub tuple_le : Interval → Interval → Bool
tuple_le (a, b) (c, d) = ltb a c || (a == c && leb b d)

unfoldable pub insert_sorted : Interval → Intervals → Intervals
insert_sorted x [] = x ∷ []
insert_sorted x (y ∷ ys) =
    let rest = insert_sorted x ys in if tuple_le x y then x ∷ y ∷ ys else y ∷ rest

unfoldable pub sorted : Intervals → Intervals
unfolding insert_sorted
sorted [] = []
sorted (x ∷ xs) = insert_sorted x (sorted xs)

-- The loop of `normalise` once `merged` is not empty: (ms, mf) is `merged[-1]`.
unfoldable pub merge_into : ℕ → ℕ → Intervals → Intervals
merge_into ms mf [] = (ms, mf) ∷ []
merge_into ms mf ((start, finish) ∷ rest) =
    let dropped = merge_into ms mf rest in
    let joined = merge_into ms (max mf finish) rest in
    let appended = merge_into start finish rest in
    if leb finish start then dropped else if leb start mf then joined else (ms, mf) ∷ appended

unfoldable pub merge_sorted : Intervals → Intervals
unfolding merge_into
merge_sorted [] = []
merge_sorted ((start, finish) ∷ rest) =
    let dropped = merge_sorted rest in
    if leb finish start then dropped else merge_into start finish rest

unfoldable pub normalise : Intervals → Intervals
unfolding sorted merge_sorted
normalise intervals = merge_sorted (sorted intervals)

pub record CompiledIntervals : Type 0 where
  pub intervals : Intervals
  pub starts : List ℕ
  pub finishes : List ℕ
  pub work_before : List ℕ

-- The loop that fills `before`.
unfoldable pub running_total : ℕ → Intervals → List ℕ
running_total total [] = []
running_total total ((start, finish) ∷ rest) = total ∷ running_total (total + (finish - start)) rest

abbrev pub compiled : Intervals → CompiledIntervals
compiled clean = record {
  intervals = clean;
  starts = map (λ (s, f). s) clean;
  finishes = map (λ (s, f). f) clean;
  work_before = running_total 0 clean;
}

-- `CompiledIntervals.of`
unfoldable pub of : Intervals → CompiledIntervals
unfolding normalise running_total
of intervals = compiled (normalise intervals)

unfoldable pub bisect_right : List ℕ → ℕ → ℕ
bisect_right [] c = 0
bisect_right (x ∷ xs) c = let rest = bisect_right xs c in if leb x c then suc rest else 0

unfoldable pub bisect_left : List ℕ → ℕ → ℕ
bisect_left [] c = 0
bisect_left (x ∷ xs) c = let rest = bisect_left xs c in if ltb x c then suc rest else 0

-- `work_before[-1] + (finishes[-1] - starts[-1])`
unfoldable pub total_work : CompiledIntervals → ℕ
total_work cal = elim cal.intervals [
  | [] ↦ 0
  | _ ∷ _ ↦ last_or cal.work_before 0 + (last_or cal.finishes 0 - last_or cal.starts 0)
]

unfoldable pub first : CompiledIntervals → Option ℕ
first cal = elim cal.starts [ [] ↦ none | s ∷ _ ↦ some s ]

unfoldable pub last : CompiledIntervals → Option ℕ
last cal = elim cal.finishes [ [] ↦ none | f ∷ rest ↦ some (last_or rest f) ]

-- The index, or `none` for -1. `zero` is `i < 0`.
unfoldable pub index_at : CompiledIntervals → ℕ → Option ℕ
unfolding bisect_right
index_at cal coordinate = elim (bisect_right cal.starts coordinate) [
  | zero ↦ none
  | suc i ↦ if ltb coordinate (get_or cal.finishes i 0) then some i else none
]

unfoldable pub work_until : CompiledIntervals → ℕ → ℕ
unfolding bisect_right
work_until cal coordinate = elim (bisect_right cal.starts coordinate) [
  | zero ↦ 0
  | suc i ↦
      get_or cal.work_before i 0 + min coordinate (get_or cal.finishes i 0) - get_or cal.starts i 0
]

unfoldable pub start_after : CompiledIntervals → ℕ → Option ℕ
start_after cal j = if ltb j (length cal.starts) then some (get_or cal.starts j 0) else none

unfoldable pub next_working : CompiledIntervals → ℕ → Option ℕ
unfolding index_at start_after
next_working cal coordinate = elim (index_at cal coordinate) [
  | some i ↦ some coordinate
  | none ↦ start_after cal (bisect_right cal.starts coordinate)
]

-- The `while` loop of `prev_working`, on `i + 1`.
unfoldable pub prev_loop : CompiledIntervals → ℕ → ℕ → Option ℕ
prev_loop cal coordinate zero = none
prev_loop cal coordinate (suc i) =
    let rest = prev_loop cal coordinate i in
    if ltb (get_or cal.starts i 0) coordinate
    then some (min coordinate (get_or cal.finishes i 0))
    else rest

unfoldable pub prev_working : CompiledIntervals → ℕ → Option ℕ
unfolding bisect_right prev_loop
prev_working cal coordinate = prev_loop cal coordinate (bisect_right cal.starts coordinate)

unfoldable pub prev_working_start : CompiledIntervals → ℕ → Option ℕ
unfolding index_at
prev_working_start cal bound = elim (index_at cal bound) [
  | some i ↦ some bound
  | none ↦ elim (bisect_right cal.starts bound) [
    | zero ↦ none
    | suc i ↦ some (get_or cal.finishes i 0 - 1)
  ]
]

-- `starts[i] + (target - work_before[i])`
unfoldable pub coordinate_of : CompiledIntervals → ℕ → ℕ → ℕ
coordinate_of cal i target = get_or cal.starts i 0 + (target - get_or cal.work_before i 0)

-- `add_working` after its guard on the sign of `duration`.
unfoldable pub add_productive : CompiledIntervals → ℕ → ℕ → Option ℕ
unfolding next_working work_until total_work bisect_left coordinate_of
add_productive cal coordinate zero = some coordinate
add_productive cal coordinate (suc d) = elim (next_working cal coordinate) [
  | none ↦ none
  | some origin ↦
      let target = work_until cal origin + suc d in
      if ltb (total_work cal) target
      then none
      else some (coordinate_of cal (bisect_left cal.work_before target - 1) target)
]

-- `sub_working` after its guard on the sign of `duration`.
unfoldable pub sub_productive : CompiledIntervals → ℕ → ℕ → Option ℕ
unfolding prev_working work_until bisect_right coordinate_of
sub_productive cal coordinate zero = some coordinate
sub_productive cal coordinate (suc d) = elim (prev_working cal coordinate) [
  | none ↦ none
  | some origin ↦
      let target = work_until cal origin - suc d in
      if ltb (work_until cal origin) (suc d)
      then none
      else elim (bisect_right cal.work_before target) [
        | zero ↦ none
        | suc i ↦ some (coordinate_of cal i target)
      ]
]

unfoldable pub working_between : CompiledIntervals → ℕ → ℕ → ℕ
unfolding work_until
working_between cal start finish =
    if leb finish start then 0 else work_until cal finish - work_until cal start
