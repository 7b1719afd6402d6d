-- ===== src/Calendar/Next.antt =====
-- `next_working` finds the smallest working coordinate at or after the one given.
use sto_scheduler_tracker_re.Prelude.{
  ℕ, zero, suc, ◌+◌, ◌≤◌, max, ◌≡◌, refl, [], ◌∷◌, arith, get_or, some, none, Option, ltb,
  if◌then◌else◌, length,
}
use sto_scheduler_tracker_re.Calendar.Intervals.{Intervals, IsOrdered, work, total, work-eq-zero}
use sto_scheduler_tracker_re.Calendar.Compiled.{compiled, bisect_right, next_working}
use sto_scheduler_tracker_re.Calendar.Work.{starts_of, finishes_of, bisect-suc_low}

unfoldable pub next_at : Intervals → ℕ → Option ℕ
next_at [] c = none
next_at ((s, f) ∷ rest) c = let later = next_at rest c in if ltb c f then some (max c s) else later

next_at-first :
    (xs : Intervals) (low c : ℕ)
    → IsOrdered low xs
    → bisect_right (starts_of xs) c ≡ 0
    → next_at xs c
      ≡ (if ltb 0 (length (starts_of xs)) then some (get_or (starts_of xs) 0 0) else none)
unfolding next_at bisect_right
next_at-first [] low c o e = refl
next_at-first ((s, f) ∷ rest) low c o e = ground arith

next_at-bisect :
    (xs : Intervals) (low c i : ℕ)
    → IsOrdered low xs
    → bisect_right (starts_of xs) c ≡ suc i
    → next_at xs c ≡ (
        if ltb c (get_or (finishes_of xs) i 0)
        then some c
        else if ltb (suc i) (length (starts_of xs))
        then some (get_or (starts_of xs) (suc i) 0)
        else none)
unfolding next_at bisect_right
next_at-bisect [] low c i o e = cc
next_at-bisect ((s, f) ∷ rest) low c zero o e = ground (arith, next_at-first rest (f + 1) c o.2)
next_at-bisect ((s, f) ∷ rest) low c (suc i) o e =
    ground (arith, next_at-bisect rest (f + 1) c i o.2, bisect-suc_low rest (f + 1) c i o.2)

pub next_working-compiled :
    (xs : Intervals) (low c : ℕ) → IsOrdered low xs → next_working (compiled xs) c ≡ next_at xs c
unfolding next_working
next_working-compiled xs low c o = go (bisect_right (starts_of xs) c) refl
  where
    go : (k : ℕ) → bisect_right (starts_of xs) c ≡ k → next_working (compiled xs) c ≡ next_at xs c
    go zero e = ground (arith, next_at-first xs low c o)
    go (suc i) e = ground (arith, next_at-bisect xs low c i o)

-- Where the next working coordinate is missing, all work is done.
pub next_at-none : (xs : Intervals) (c : ℕ) → next_at xs c ≡ none → work xs c ≡ total xs
unfolding next_at work total
next_at-none [] c e = refl
next_at-none ((s, f) ∷ rest) c e = ground (arith, next_at-none rest c)

pub work-next_at :
    (xs : Intervals) (low c o : ℕ)
    → IsOrdered low xs
    → next_at xs c ≡ some o
    → work xs o ≡ work xs c
unfolding next_at work
work-next_at [] low c o h e = cc
work-next_at ((s, f) ∷ rest) low c o h e = ground (
  arith,
  work-next_at rest (f + 1) c o h.2,
  work-eq-zero rest (f + 1) c h.2,
  work-eq-zero rest (f + 1) o h.2,
  next_at-ge rest (f + 1) c o h.2,
)
  where
    next_at-ge : (ys : Intervals) (low c o : ℕ) → IsOrdered low ys → next_at ys c ≡ some o → c ≤ o
    next_at-ge [] low c o h e = cc
    next_at-ge ((s, f) ∷ ys) low c o h e = ground (arith, next_at-ge ys (f + 1) c o h.2)
