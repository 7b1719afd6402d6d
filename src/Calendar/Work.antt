-- ===== src/Calendar/Work.antt =====
-- The prefix sums of a compiled calendar count productive time.
use sto_scheduler_tracker_re.Prelude.{
  ℕ, zero, suc, ◌+◌, ◌-◌, ◌≤◌, min, ◌≡◌, refl, List, [], ◌∷◌, map, arith, get_or,
}
use sto_scheduler_tracker_re.Calendar.Intervals.{Intervals, IsOrdered, work, work-eq-zero}
use sto_scheduler_tracker_re.Calendar.Compiled.{compiled, running_total, bisect_right, work_until}

abbrev pub starts_of : Intervals → List ℕ
starts_of xs = map (λ (s, f). s) xs

abbrev pub finishes_of : Intervals → List ℕ
finishes_of xs = map (λ (s, f). f) xs

-- No interval has started.
pub bisect-zero_work :
    (xs : Intervals) (low c : ℕ)
    → IsOrdered low xs
    → bisect_right (starts_of xs) c ≡ 0
    → work xs c ≡ 0
unfolding bisect_right work
bisect-zero_work [] low c o e = refl
bisect-zero_work ((s, f) ∷ rest) low c o e = ground (arith, work-eq-zero rest (f + 1) c o.2)

-- An interval that has started lies behind `low`.
pub bisect-suc_low :
    (xs : Intervals) (low c i : ℕ)
    → IsOrdered low xs
    → bisect_right (starts_of xs) c ≡ suc i
    → low ≤ c
unfolding bisect_right
bisect-suc_low [] low c i o e = cc
bisect-suc_low ((s, f) ∷ rest) low c i o e = ground arith

-- The formula of `work_until` at the interval that the bisection finds.
lookup_work :
    (xs : Intervals) (t low c i : ℕ)
    → IsOrdered low xs
    → bisect_right (starts_of xs) c ≡ suc i
    → get_or (running_total t xs) i 0
        + min c (get_or (finishes_of xs) i 0)
        - get_or (starts_of xs) i 0
      ≡ t + work xs c
unfolding bisect_right running_total work
lookup_work [] t low c i o e = cc
lookup_work ((s, f) ∷ rest) t low c zero o e = ground (arith, bisect-zero_work rest (f + 1) c o.2)
lookup_work ((s, f) ∷ rest) t low c (suc i) o e =
    ground
      (arith, lookup_work rest (t + (f - s)) (f + 1) c i o.2, bisect-suc_low rest (f + 1) c i o.2)

pub work_until-compiled :
    (xs : Intervals) (low c : ℕ) → IsOrdered low xs → work_until (compiled xs) c ≡ work xs c
unfolding work_until
work_until-compiled xs low c o = go (bisect_right (starts_of xs) c) refl
  where
    go : (k : ℕ) → bisect_right (starts_of xs) c ≡ k → work_until (compiled xs) c ≡ work xs c
    go zero e = ground (arith, bisect-zero_work xs low c o)
    go (suc i) e = ground (arith, lookup_work xs 0 low c i o)
