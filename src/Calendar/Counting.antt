-- ===== src/Calendar/Counting.antt =====
-- `working_between` and `productive_segments` of sto/core/calendar/arithmetic.py, by counting.
use sto_scheduler_tracker_re.Prelude.{
  ℕ, zero, suc, ◌+◌, ◌-◌, ◌<◌, ◌≡◌, refl, ap, [], ◌∷◌, Bool, false, arith, if◌then◌else◌, inl, inr,
  le_or_gt,
}
use sto_scheduler_tracker_re.Calendar.Intervals.{Intervals, IsOrdered, work, work-eq-zero}
use sto_scheduler_tracker_re.Calendar.Reference.{contains_coordinate}
use sto_scheduler_tracker_re.Calendar.Compiled.{of, normalise, working_between}
use sto_scheduler_tracker_re.Calendar.Normalise.{contains-normalise, normalise-IsOrdered}
use sto_scheduler_tracker_re.Calendar.Work.{work_until-compiled}

abbrev pub unit : Bool → ℕ
unit b = if b then 1 else 0

-- How many of the `n` coordinates from `start` on are working ones.
abbrev pub count : Intervals → (start n : ℕ) → ℕ
count raw start zero = 0
count raw start (suc n) = unit (contains_coordinate start raw) + count raw (suc start) n

pub contains-before :
    (xs : Intervals) (low c : ℕ) → IsOrdered low xs → c < low → contains_coordinate c xs ≡ false
unfolding contains_coordinate
contains-before [] low c o h = refl
contains-before ((s, f) ∷ rest) low c o h = ground (arith, contains-before rest (f + 1) c o.2)

work-suc :
    (xs : Intervals) (low c : ℕ)
    → IsOrdered low xs
    → work xs (suc c) ≡ work xs c + unit (contains_coordinate c xs)
unfolding work contains_coordinate
work-suc [] low c o = refl
work-suc ((s, f) ∷ rest) low c o = ground (
  arith,
  work-suc rest (f + 1) c o.2,
  contains-before rest (f + 1) c o.2,
  work-eq-zero rest (f + 1) c o.2,
  work-eq-zero rest (f + 1) (suc c) o.2,
)

work-count :
    (raw : Intervals) (n start : ℕ)
    → work (normalise raw) (start + n) ≡ work (normalise raw) start + count raw start n
work-count raw zero start =
    let same : start + 0 ≡ start = omega arith in
    let moved = ap (λ c. work (normalise raw) c) same in omega (arith, moved)
work-count raw (suc n) start =
    let here = work-suc (normalise raw) 0 start (normalise-IsOrdered raw) in
    let counted = ap unit (contains-normalise raw start) in
    let same : start + suc n ≡ suc start + n = omega arith in
    let moved = ap (λ c. work (normalise raw) c) same in
    omega (arith, here, counted, moved, work-count raw n (suc start))

-- On a calendar built from any intervals, `working_between` is the number of coordinates from the start
-- up to the finish that lie in one of them.
pub working_between-count :
    (raw : Intervals) (start finish : ℕ)
    → working_between (of raw) start finish ≡ count raw start (finish - start)
unfolding of working_between
working_between-count raw start finish =
    let xs = normalise raw in
    let started = work_until-compiled xs 0 start (normalise-IsOrdered raw) in
    let finished = work_until-compiled xs 0 finish (normalise-IsOrdered raw) in
    elim (le_or_gt finish start) [
      | inl empty ↦
          let length : finish - start ≡ 0 = omega arith in
          let counted = ap (count raw start) length in ground (arith, counted)
      | inr some_left ↦
          let end : start + (finish - start) ≡ finish = omega arith in
          let moved = ap (λ c. work xs c) end in
          let counted = work-count raw (finish - start) start in
          ground (arith, started, finished, moved, counted)
    ]
