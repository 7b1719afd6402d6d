-- ===== src/Calendar/Order.antt =====
-- How work grows with the coordinate, and where the coordinates of given work lie.
use sto_scheduler_tracker_re.Prelude.{
  ℕ, ◌+◌, ◌-◌, ◌≤◌, ◌<◌, max, ◌≡◌, [], ◌∷◌, arith, ◌⊎◌, inl, inr, some, le_or_gt,
}
use sto_scheduler_tracker_re.Calendar.Intervals.{
  Intervals, IsOrdered, Working, Finishing, work, total, finish_at, start_at, work-eq-zero,
  work-le-total, work_mono,
}
use sto_scheduler_tracker_re.Calendar.Next.{next_at}

pub Working-ge : (xs : Intervals) (low p : ℕ) → IsOrdered low xs → Working p xs → low ≤ p
Working-ge [] low p o w = elim w [ ]
Working-ge ((s, f) ∷ rest) low p o (inl h) = omega arith
Working-ge ((s, f) ∷ rest) low p o (inr w) = omega (arith, Working-ge rest (f + 1) p o.2 w)

pub Finishing-gt : (xs : Intervals) (low p : ℕ) → IsOrdered low xs → Finishing p xs → low < p
Finishing-gt [] low p o w = elim w [ ]
Finishing-gt ((s, f) ∷ rest) low p o (inl h) = omega arith
Finishing-gt ((s, f) ∷ rest) low p o (inr w) = omega (arith, Finishing-gt rest (f + 1) p o.2 w)

pub work-lt-Working :
    (xs : Intervals) (low p q : ℕ) → IsOrdered low xs → Working p xs → p < q → work xs p < work xs q
unfolding work
work-lt-Working [] low p q o w h = elim w [ ]
work-lt-Working ((s, f) ∷ rest) low p q o (inl w) h =
    omega (arith, work_mono rest p q (omega arith))
work-lt-Working ((s, f) ∷ rest) low p q o (inr w) h =
    omega (arith, work-lt-Working rest (f + 1) p q o.2 w h)

pub work-lt-Finishing :
    (xs : Intervals) (low p q : ℕ)
    → IsOrdered low xs
    → Finishing q xs
    → p < q
    → work xs p < work xs q
unfolding work
work-lt-Finishing [] low p q o w h = elim w [ ]
work-lt-Finishing ((s, f) ∷ rest) low p q o (inl w) h =
    omega (arith, work_mono rest p q (omega arith))
work-lt-Finishing ((s, f) ∷ rest) low p q o (inr w) h =
    omega (arith, work-lt-Finishing rest (f + 1) p q o.2 w h)

pub finish_at-some :
    (xs : Intervals) (low t p : ℕ)
    → IsOrdered low xs
    → 0 < t
    → finish_at xs t ≡ some p
    → Finishing p xs × (work xs p ≡ t)
unfolding finish_at work
finish_at-some [] low t p o h e = cc
finish_at-some ((s, f) ∷ rest) low t p o h e = elim (le_or_gt t (f - s)) [
  | inl here ↦
      let at : p ≡ s + t = ground arith in
      (inl (omega arith), omega (arith, work-eq-zero rest (f + 1) p o.2 (omega arith)))
  | inr beyond ↦
      let (fin, w) = finish_at-some rest (f + 1) (t - (f - s)) p o.2 (omega arith) (ground arith) in
      (inr fin, omega (arith, Finishing-gt rest (f + 1) p o.2 fin))
]

pub finish_at-total :
    (xs : Intervals) (t : ℕ) → 0 < t → t ≤ total xs → (p : ℕ) × (finish_at xs t ≡ some p)
unfolding finish_at total
finish_at-total [] t h k = absurd (omega arith)
finish_at-total ((s, f) ∷ rest) t h k = elim (le_or_gt t (f - s)) [
  | inl here ↦ (s + t, ground arith)
  | inr beyond ↦
      let (p, e) = finish_at-total rest (t - (f - s)) (omega arith) (omega arith) in
      (p, ground arith)
]

pub start_at-some :
    (xs : Intervals) (low t p : ℕ)
    → IsOrdered low xs
    → start_at xs t ≡ some p
    → Working p xs × (work xs p ≡ t)
unfolding start_at work
start_at-some [] low t p o e = cc
start_at-some ((s, f) ∷ rest) low t p o e = elim (le_or_gt (f - s) t) [
  | inr here ↦
      let at : p ≡ s + t = ground arith in
      (inl (omega arith), omega (arith, work-eq-zero rest (f + 1) p o.2 (omega arith)))
  | inl beyond ↦
      let (fin, w) = start_at-some rest (f + 1) (t - (f - s)) p o.2 (ground arith) in
      (inr fin, omega (arith, Working-ge rest (f + 1) p o.2 fin))
]

pub start_at-total : (xs : Intervals) (t : ℕ) → t < total xs → (p : ℕ) × (start_at xs t ≡ some p)
unfolding start_at total
start_at-total [] t k = absurd (omega arith)
start_at-total ((s, f) ∷ rest) t k = elim (le_or_gt (f - s) t) [
  | inr here ↦ (s + t, ground arith)
  | inl beyond ↦ let (p, e) = start_at-total rest (t - (f - s)) (omega arith) in (p, ground arith)
]

pub next_at-least :
    (xs : Intervals) (low c w : ℕ)
    → IsOrdered low xs
    → Working w xs
    → c ≤ w
    → (o : ℕ) × (next_at xs c ≡ some o) × (o ≤ w)
unfolding next_at
next_at-least [] low c w o k h = elim k [ ]
next_at-least ((s, f) ∷ rest) low c w o (inl k) h = (max c s, ground arith, omega arith)
next_at-least ((s, f) ∷ rest) low c w o (inr k) h = elim (le_or_gt f c) [
  | inl past ↦ let (n, e, l) = next_at-least rest (f + 1) c w o.2 k h in (n, ground arith, l)
  | inr now ↦ (max c s, ground arith, omega (arith, Working-ge rest (f + 1) w o.2 k))
]

pub next_at-some :
    (xs : Intervals) (low c p : ℕ)
    → IsOrdered low xs
    → next_at xs c ≡ some p
    → (c ≤ p) × Working p xs
unfolding next_at
next_at-some [] low c p o e = cc
next_at-some ((s, f) ∷ rest) low c p o e = elim (le_or_gt f c) [
  | inl past ↦ let (l, w) = next_at-some rest (f + 1) c p o.2 (ground arith) in (l, inr w)
  | inr now ↦ let at : p ≡ max c s = ground arith in (omega arith, inl (omega arith))
]

pub next_at-Working :
    (xs : Intervals) (low p : ℕ) → IsOrdered low xs → Working p xs → next_at xs p ≡ some p
next_at-Working xs low p o w =
    let (q, e, l) = next_at-least xs low p p o w (omega arith) in
    let (k, w') = next_at-some xs low p q o e in let same : q ≡ p = omega arith in ground arith

pub finish_at-Finishing :
    (xs : Intervals) (low p : ℕ)
    → IsOrdered low xs
    → Finishing p xs
    → 0 < work xs p
    → finish_at xs (work xs p) ≡ some p
finish_at-Finishing xs low p o w h =
    let (q, e) = finish_at-total xs (work xs p) h (work-le-total xs p) in
    let (w', eq) = finish_at-some xs low (work xs p) q o h e in
    elim (lt_cases q p) [
      | inl lt ↦ absurd (omega (arith, work-lt-Finishing xs low q p o w lt))
      | inr (inl gt) ↦ absurd (omega (arith, work-lt-Finishing xs low p q o w' gt))
      | inr (inr same) ↦ ground arith
    ]
  where
    lt_cases : (a b : ℕ) → (a < b) ⊎ ((b < a) ⊎ (a ≡ b))
    lt_cases a b = omega arith
