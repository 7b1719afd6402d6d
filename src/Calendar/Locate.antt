-- ===== src/Calendar/Locate.antt =====
-- The two bisections over the prefix sums find the coordinate at which a given amount of work is done.
use sto_scheduler_tracker_re.Prelude.{
  ℕ, suc, ◌+◌, ◌-◌, ◌≤◌, ◌<◌, ◌≡◌, refl, [], ◌∷◌, arith, inl, inr, get_or, last_or, some, none,
  le_or_gt,
}
use sto_scheduler_tracker_re.Calendar.Intervals.{Intervals, total, finish_at, start_at}
use sto_scheduler_tracker_re.Calendar.Compiled.{
  compiled, running_total, bisect_right, bisect_left, total_work,
}
use sto_scheduler_tracker_re.Calendar.Work.{starts_of, finishes_of}

last_total :
    (s f t : ℕ) (rest : Intervals)
    → last_or (running_total (t + (f - s)) rest) t
        + (last_or (finishes_of rest) f - last_or (starts_of rest) s)
      ≡ t + (f - s + total rest)
unfolding running_total total
last_total s f t [] = omega arith
last_total s f t ((s', f') ∷ rest) = omega (arith, last_total s' f' (t + (f - s)) rest)

pub total_work-compiled : (xs : Intervals) → total_work (compiled xs) ≡ total xs
unfolding total_work running_total total
total_work-compiled [] = refl
total_work-compiled ((s, f) ∷ rest) = omega (arith, last_total s f 0 rest)

pub finish_at-none : (xs : Intervals) (target : ℕ) → total xs < target → finish_at xs target ≡ none
unfolding finish_at total
finish_at-none [] target h = refl
finish_at-none ((s, f) ∷ rest) target h = ground (arith, finish_at-none rest (target - (f - s)))

pub finish_at-bisect :
    (xs : Intervals) (t target u : ℕ)
    → 0 < target
    → target ≤ total xs
    → u ≡ t + target
    → finish_at xs target
      ≡ some (
          get_or (starts_of xs) (bisect_left (running_total t xs) u - 1) 0
          + (u - get_or (running_total t xs) (bisect_left (running_total t xs) u - 1) 0))
unfolding finish_at total bisect_left running_total
finish_at-bisect [] t target u p h e = absurd (omega arith)
finish_at-bisect ((s, f) ∷ []) t target u p h e = ground arith
finish_at-bisect ((s, f) ∷ (s', f') ∷ rest) t target u p h e =
    ground (arith, finish_at-bisect ((s', f') ∷ rest) (t + (f - s)) (target - (f - s)) u)

pub start_at-bisect :
    (xs : Intervals) (t target u : ℕ)
    → target < total xs
    → u ≡ t + target
    → (i : ℕ) × (bisect_right (running_total t xs) u ≡ suc i)
      × (start_at xs target
          ≡ some (get_or (starts_of xs) i 0 + (u - get_or (running_total t xs) i 0)))
unfolding start_at total bisect_right running_total
start_at-bisect [] t target u h e = absurd (omega arith)
start_at-bisect ((s, f) ∷ []) t target u h e = (0, ground arith, ground arith)
start_at-bisect ((s, f) ∷ (s', f') ∷ rest) t target u h e = elim (le_or_gt (f - s) target) [
  | inl far ↦
      let (i, p, q) =
        start_at-bisect ((s', f') ∷ rest) (t + (f - s)) (target - (f - s)) u (omega arith)
          (omega arith) in
      (suc i, ground arith, ground arith)
  | inr near ↦ (0, ground arith, ground arith)
]
