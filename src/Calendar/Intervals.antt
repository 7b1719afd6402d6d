-- ===== src/Calendar/Intervals.antt =====
-- Intervals of working time and what the proofs say of them: arithmetic.py keeps them as sorted,
-- half-open, non-adjacent pairs of coordinates.
use sto_scheduler_tracker_re.Prelude.{
  ℕ, ◌+◌, ◌-◌, ◌≤◌, ◌<◌, min, ◌≡◌, refl, List, [], ◌∷◌, Option, none, some, ltb, leb, if◌then◌else◌,
  arith, ◌⊎◌,
}

abbrev pub Interval : Type 0
Interval = ℕ × ℕ

abbrev pub Intervals : Type 0
Intervals = List Interval

-- Sorted, none empty, a gap between each and the next, and the first at `low` or later.
abbrev pub IsOrdered : ℕ → Intervals → Type 0
IsOrdered low [] = Unit
IsOrdered low ((s, f) ∷ rest) = (low ≤ s) × (s < f) × IsOrdered (f + 1) rest

-- Productive time before a coordinate.
unfoldable pub work : Intervals → ℕ → ℕ
work [] c = 0
work ((s, f) ∷ rest) c = min c f - s + work rest c

-- All productive time.
unfoldable pub total : Intervals → ℕ
total [] = 0
total ((s, f) ∷ rest) = f - s + total rest

-- The coordinate by which `target` units of work are done, as a finish: in some (start, finish].
unfoldable pub finish_at : Intervals → ℕ → Option ℕ
finish_at [] target = none
finish_at ((s, f) ∷ rest) target =
    let later = finish_at rest (target - (f - s)) in
    if leb target (f - s) then some (s + target) else later

-- The coordinate after `target` units of work, as a start: in some [start, finish).
unfoldable pub start_at : Intervals → ℕ → Option ℕ
start_at [] target = none
start_at ((s, f) ∷ rest) target =
    let later = start_at rest (target - (f - s)) in
    if ltb target (f - s) then some (s + target) else later

-- Whether a coordinate is a working one, and whether work can end there.
abbrev pub Working : ℕ → Intervals → Type 0
Working c [] = ⊥
Working c ((s, f) ∷ rest) = ((s ≤ c) × (c < f)) ⊎ Working c rest

abbrev pub Finishing : ℕ → Intervals → Type 0
Finishing c [] = ⊥
Finishing c ((s, f) ∷ rest) = ((s < c) × (c ≤ f)) ⊎ Finishing c rest

pub work-eq-zero : (xs : Intervals) (low c : ℕ) → IsOrdered low xs → c ≤ low → work xs c ≡ 0
unfolding work
work-eq-zero [] low c o h = refl
work-eq-zero ((s, f) ∷ rest) low c o h =
    omega (arith, work-eq-zero rest (f + 1) c o.2 (omega arith))

pub work-le-total : (xs : Intervals) (c : ℕ) → work xs c ≤ total xs
unfolding work total
work-le-total [] c = omega arith
work-le-total ((s, f) ∷ rest) c = omega (arith, work-le-total rest c)

pub work_mono : (xs : Intervals) (c d : ℕ) → c ≤ d → work xs c ≤ work xs d
unfolding work
work_mono [] c d h = omega arith
work_mono ((s, f) ∷ rest) c d h = omega (arith, work_mono rest c d h)
