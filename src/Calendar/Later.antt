-- ===== src/Calendar/Later.antt =====
-- Forward shifts: the bisection of `add_working` and the scan of `shift_working_time` both land where
-- the work done so far and the duration are done together.
use sto_scheduler_tracker_re.Prelude.{
  ℕ, suc, ◌+◌, ◌-◌, ◌<◌, max, ◌≡◌, refl, [], ◌∷◌, arith, inl, inr, Option-cases,
}
use sto_scheduler_tracker_re.Calendar.Intervals.{
  Intervals, IsOrdered, work, finish_at, work-eq-zero,
}
use sto_scheduler_tracker_re.Calendar.Reference.{shift_later}
use sto_scheduler_tracker_re.Calendar.Compiled.{compiled, add_productive}
use sto_scheduler_tracker_re.Calendar.Work.{work_until-compiled}
use sto_scheduler_tracker_re.Calendar.Locate.{total_work-compiled, finish_at-none, finish_at-bisect}
use sto_scheduler_tracker_re.Calendar.Next.{
  next_at, next_working-compiled, next_at-none, work-next_at,
}

pub shift_later-finish_at :
    (xs : Intervals) (low d c : ℕ)
    → IsOrdered low xs
    → 0 < d
    → shift_later d c xs ≡ finish_at xs (work xs c + d)
unfolding shift_later finish_at work
shift_later-finish_at [] low d c o h = refl
shift_later-finish_at ((s, f) ∷ rest) low d c o h = ground (
  arith,
  shift_later-finish_at rest (f + 1) d c o.2,
  shift_later-finish_at rest (f + 1) (d - (f - max c s)) f o.2,
  work-eq-zero rest (f + 1) c o.2,
  work-eq-zero rest (f + 1) f o.2,
)

pub add_productive-finish_at :
    (xs : Intervals) (low c d : ℕ)
    → IsOrdered low xs
    → add_productive (compiled xs) c (suc d) ≡ finish_at xs (work xs c + suc d)
unfolding add_productive
add_productive-finish_at xs low c d o = elim (Option-cases (next_at xs c)) [
  | inl e ↦ ground (
    arith,
    next_working-compiled xs low c o,
    finish_at-none xs (work xs c + suc d),
    next_at-none xs c e,
  )
  | inr (origin, e) ↦ ground (
    arith,
    next_working-compiled xs low c o,
    work-next_at xs low c origin o e,
    work_until-compiled xs low origin o,
    total_work-compiled xs,
    finish_at-none xs (work xs c + suc d),
    finish_at-bisect xs 0 (work xs c + suc d) (work xs c + suc d),
  )
]
