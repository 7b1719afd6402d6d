-- ===== src/Calendar/Consume.antt =====
-- `consume_duration`, the reference for a span of work that starts at a working coordinate.
use sto_scheduler_tracker_re.Prelude.{
  ℕ, zero, suc, ◌+◌, ◌-◌, ◌<◌, ◌≡◌, refl, [], ◌∷◌, arith, inl, inr, some, true, pos, ltb,
  if◌then◌else◌,
}
use sto_scheduler_tracker_re.Calendar.Intervals.{
  Intervals, IsOrdered, Working, work, finish_at, work-eq-zero,
}
use sto_scheduler_tracker_re.Calendar.Reference.{
  contains_coordinate, consume_loop, consume_duration,
}

pub contains→Working : (c : ℕ) (xs : Intervals) → contains_coordinate c xs ≡ true → Working c xs
unfolding contains_coordinate
contains→Working c [] e = cc
contains→Working c ((s, f) ∷ rest) e = ground (arith, contains→Working c rest)

pub Working→contains : (c : ℕ) (xs : Intervals) → Working c xs → contains_coordinate c xs ≡ true
unfolding contains_coordinate
Working→contains c [] w = elim w [ ]
Working→contains c ((s, f) ∷ rest) (inl h) = ground arith
Working→contains c ((s, f) ∷ rest) (inr w) = ground (arith, Working→contains c rest w)

consume_loop-finish_at :
    (xs : Intervals) (low d c : ℕ)
    → IsOrdered low xs
    → 0 < d
    → consume_loop d c xs ≡ finish_at xs (work xs c + d)
unfolding consume_loop finish_at work
consume_loop-finish_at [] low d c o h = refl
consume_loop-finish_at ((s, f) ∷ rest) low d c o h = ground (
  arith,
  consume_loop-finish_at rest (f + 1) d c o.2,
  consume_loop-finish_at rest (f + 1) (d - (f - (if ltb c s then s else c))) f o.2,
  work-eq-zero rest (f + 1) c o.2,
  work-eq-zero rest (f + 1) f o.2,
)

-- From a working coordinate, the work done by then and the duration are done together.
pub consume-Working :
    (xs : Intervals) (low c d : ℕ)
    → IsOrdered low xs
    → Working c xs
    → consume_duration c (pos (suc d)) xs ≡ finish_at xs (work xs c + suc d)
unfolding consume_duration
consume-Working xs low c d o w =
    rw (Working→contains c xs w) (consume_loop-finish_at xs low (suc d) c o (omega arith))

-- A span that the reference allows starts at a working coordinate.
pub consume→Working :
    (xs : Intervals) (c d p : ℕ) → consume_duration c (pos d) xs ≡ some p → Working c xs
unfolding consume_duration
consume→Working xs c zero p e = contains→Working c xs (ground arith)
consume→Working xs c (suc d) p e = contains→Working c xs (ground arith)

pub consume-zero : (xs : Intervals) (c : ℕ) → Working c xs → consume_duration c (pos 0) xs ≡ some c
unfolding consume_duration
consume-zero xs c w = rw (Working→contains c xs w)

pub consume_zero-eq : (xs : Intervals) (c p : ℕ) → consume_duration c (pos 0) xs ≡ some p → p ≡ c
unfolding consume_duration
consume_zero-eq xs c p e = ground arith
