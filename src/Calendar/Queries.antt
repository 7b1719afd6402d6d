-- ===== src/Calendar/Queries.antt =====
-- `next_working`, `prev_working` and `prev_working_start` of sto/core/calendar/arithmetic.py against
-- the coordinates that `contains_coordinate` allows.
use sto_scheduler_tracker_re.Prelude.{
  ℕ, suc, ◌-◌, ◌≤◌, ◌≡◌, sym, ◌∙◌, subst, [], ◌∷◌, Option, none, some, true, arith, inl, inr,
}
use sto_scheduler_tracker_re.Calendar.Intervals.{Intervals, IsOrdered, Working, Finishing}
use sto_scheduler_tracker_re.Calendar.Reference.{contains_coordinate}
use sto_scheduler_tracker_re.Calendar.Compiled.{
  of, normalise, next_working, prev_working, prev_working_start,
}
use sto_scheduler_tracker_re.Calendar.Order.{next_at-some, next_at-least}
use sto_scheduler_tracker_re.Calendar.Next.{next_at, next_working-compiled}
use sto_scheduler_tracker_re.Calendar.Consume.{contains→Working, Working→contains}
use sto_scheduler_tracker_re.Calendar.Normalise.{contains-normalise, normalise-IsOrdered}
use sto_scheduler_tracker_re.Calendar.Earlier.{prev_at, prev_working-compiled}
use sto_scheduler_tracker_re.Calendar.Latest.{
  prev_start_at, prev_working_start-compiled, prev_start_at-some, prev_start_at-greatest,
  prev_at-some, prev_at-greatest,
}

-- The smallest coordinate from `c` on that meets the predicate, if there is one.
abbrev pub IsNext : (ℕ → Type 0) → ℕ → Option ℕ → Type 0
IsNext P c none = (w : ℕ) → c ≤ w → ¬ P w
IsNext P c (some o) = (c ≤ o) × P o × ((w : ℕ) → c ≤ w → P w → o ≤ w)

-- The greatest coordinate up to `c` that meets the predicate, if there is one.
abbrev pub IsPrevious : (ℕ → Type 0) → ℕ → Option ℕ → Type 0
IsPrevious P c none = (w : ℕ) → w ≤ c → ¬ P w
IsPrevious P c (some o) = (o ≤ c) × P o × ((w : ℕ) → w ≤ c → P w → w ≤ o)

module _ (P : ℕ → Type 0) (Q : ℕ → Type 0) (there : (w : ℕ) → P w → Q w)
    (back : (w : ℕ) → Q w → P w) where
  IsNext-transfers : (c : ℕ) (o : Option ℕ) → IsNext P c o → IsNext Q c o
  IsNext-transfers c none h = λ w l q. h w l (back w q)
  IsNext-transfers c (some o) (l, p, least) = (l, there o p, λ w m q. least w m (back w q))

  IsPrevious-transfers : (c : ℕ) (o : Option ℕ) → IsPrevious P c o → IsPrevious Q c o
  IsPrevious-transfers c none h = λ w l q. h w l (back w q)
  IsPrevious-transfers c (some o) (l, p, greatest) =
      (l, there o p, λ w m q. greatest w m (back w q))

module _ (xs : Intervals) (c : ℕ) (o : IsOrdered 0 xs) where
  next_at-IsNext : (answer : Option ℕ) → next_at xs c ≡ answer → IsNext (λ w. Working w xs) c answer
  next_at-IsNext none e = λ w l k. let (n, found, _) = next_at-least xs 0 c w o k l in cc
  next_at-IsNext (some p) e =
      let (l, k) = next_at-some xs 0 c p o e in
      (
        l,
        k,
        λ w m k'.
            let (n, found, least) = next_at-least xs 0 c w o k' m in
            let same : n ≡ p = ground arith in omega arith,
      )

  prev_at-IsPrevious :
      (answer : Option ℕ) → prev_at xs c ≡ answer → IsPrevious (λ w. Finishing w xs) c answer
  prev_at-IsPrevious none e = λ w l k. let (n, found, _) = prev_at-greatest xs 0 c w o k l in cc
  prev_at-IsPrevious (some p) e =
      let (l, k) = prev_at-some xs 0 c p o e in
      (
        l,
        k,
        λ w m k'.
            let (n, found, greatest) = prev_at-greatest xs 0 c w o k' m in
            let same : n ≡ p = ground arith in omega arith,
      )

  prev_start_at-IsPrevious :
      (answer : Option ℕ) → prev_start_at xs c ≡ answer → IsPrevious (λ w. Working w xs) c answer
  prev_start_at-IsPrevious none e =
      λ w l k. let (n, found, _) = prev_start_at-greatest xs 0 c w o k l in cc
  prev_start_at-IsPrevious (some p) e =
      let (l, k) = prev_start_at-some xs 0 c p o e in
      (
        l,
        k,
        λ w m k'.
            let (n, found, greatest) = prev_start_at-greatest xs 0 c w o k' m in
            let same : n ≡ p = ground arith in omega arith,
      )

-- The calendar's intervals, as they were given, hold the coordinate.
abbrev pub IsWorking : Intervals → ℕ → Type 0
IsWorking raw w = contains_coordinate w raw ≡ true

-- Work can end at the coordinate: the last unit before it is a working one.
abbrev pub EndsWork : Intervals → ℕ → Type 0
EndsWork raw w = (v : ℕ) × (w ≡ suc v) × IsWorking raw v

Finishing→Working : (xs : Intervals) (w : ℕ) → Finishing w xs → (v : ℕ) × (w ≡ suc v) × Working v xs
Finishing→Working [] w k = elim k [ ]
Finishing→Working ((s, f) ∷ rest) w (inl k) = (w - 1, omega arith, inl (omega arith))
Finishing→Working ((s, f) ∷ rest) w (inr k) =
    let (v, e, h) = Finishing→Working rest w k in (v, e, inr h)

Working→Finishing : (xs : Intervals) (v : ℕ) → Working v xs → Finishing (suc v) xs
Working→Finishing [] v k = elim k [ ]
Working→Finishing ((s, f) ∷ rest) v (inl k) = inl (omega arith)
Working→Finishing ((s, f) ∷ rest) v (inr k) = inr (Working→Finishing rest v k)

module _ (raw : Intervals) where
  compiled-Working : (w : ℕ) → Working w (normalise raw) → IsWorking raw w
  compiled-Working w k = sym (contains-normalise raw w) ∙ Working→contains w (normalise raw) k

  Working-compiled : (w : ℕ) → IsWorking raw w → Working w (normalise raw)
  Working-compiled w k = contains→Working w (normalise raw) (contains-normalise raw w ∙ k)

  compiled-ends : (w : ℕ) → Finishing w (normalise raw) → EndsWork raw w
  compiled-ends w k =
      let (v, e, h) = Finishing→Working (normalise raw) w k in (v, e, compiled-Working v h)

  ends-compiled : (w : ℕ) → EndsWork raw w → Finishing w (normalise raw)
  ends-compiled w (v, e, h) =
      subst (λ x. Finishing x (normalise raw)) (sym e)
        (Working→Finishing (normalise raw) v (Working-compiled v h))

  -- On a calendar built from any intervals, `next_working` answers the smallest working coordinate at
  -- or after the one given, and none exactly when there is none.
  pub next_working-IsNext : (c : ℕ) → IsNext (IsWorking raw) c (next_working (of raw) c)
  unfolding of
  next_working-IsNext c =
      IsNext-transfers (λ w. Working w (normalise raw)) (IsWorking raw) compiled-Working
        Working-compiled c (next_working (of raw) c)
        (next_at-IsNext (normalise raw) c (normalise-IsOrdered raw) (next_working (of raw) c)
          (sym (next_working-compiled (normalise raw) 0 c (normalise-IsOrdered raw))))

  -- What `prev_working` and `prev_working_start` answer: the greatest coordinate, at or before the one
  -- given, at which work can end and which is a working one.
  abbrev pub AnswersBefore : ℕ → Type 0
  AnswersBefore c =
      IsPrevious (EndsWork raw) c (prev_working (of raw) c)
      × IsPrevious (IsWorking raw) c (prev_working_start (of raw) c)

  -- On a calendar built from any intervals, `prev_working` answers the greatest coordinate, at or
  -- before the one given, at which work can end, and `prev_working_start` the greatest that is a
  -- working one; each answers none exactly when there is none.
  pub prev_working-AnswersBefore : (c : ℕ) → AnswersBefore c
  unfolding of
  prev_working-AnswersBefore c = (
    IsPrevious-transfers (λ w. Finishing w (normalise raw)) (EndsWork raw) compiled-ends
        ends-compiled c (prev_working (of raw) c)
        (prev_at-IsPrevious (normalise raw) c (normalise-IsOrdered raw) (prev_working (of raw) c)
          (sym (prev_working-compiled (normalise raw) 0 c (normalise-IsOrdered raw)))),
    IsPrevious-transfers (λ w. Working w (normalise raw)) (IsWorking raw) compiled-Working
        Working-compiled c (prev_working_start (of raw) c)
        (prev_start_at-IsPrevious (normalise raw) c (normalise-IsOrdered raw)
          (prev_working_start (of raw) c)
          (sym (prev_working_start-compiled (normalise raw) 0 c (normalise-IsOrdered raw)))),
  )
