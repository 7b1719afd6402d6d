-- ===== src/Calendar/Earlier.antt =====
-- Backward shifts: the bisection of `sub_working` and the scan of `shift_working_time` over the
-- reversed intervals agree.
use mathlib.Core.List.{reverse-cons, append_assoc, append-nil}
use sto_scheduler_tracker_re.Prelude.{
  ℕ, zero, suc, ◌+◌, ◌-◌, ◌≤◌, ◌<◌, min, ◌≡◌, refl, ◌∙◌, [], ◌∷◌, ◌++◌, reverse, arith, inl, inr,
  some, none, Option, Option-cases, le_or_gt, le→leb, lt→leb, leb, ltb, if◌then◌else◌,
}
use sto_scheduler_tracker_re.Calendar.Intervals.{
  Intervals, IsOrdered, work, start_at, work-eq-zero, work-le-total,
}
use sto_scheduler_tracker_re.Calendar.Reference.{shift_earlier}
use sto_scheduler_tracker_re.Calendar.Compiled.{
  compiled, bisect_right, prev_loop, prev_working, sub_productive,
}
use sto_scheduler_tracker_re.Calendar.Work.{starts_of, work_until-compiled}
use sto_scheduler_tracker_re.Calendar.Locate.{start_at-bisect}

-- The intervals that the scan meets next end before `low`.
abbrev Below : ℕ → Intervals → Type 0
Below low [] = Unit
Below low ((s, f) ∷ rest) = (s < f) × (f < low)

-- A cursor in the gap above an interval has the interval's whole work below it.
scan_gap :
    (zs : Intervals) (low d c : ℕ)
    → Below low zs
    → low ≤ c
    → shift_earlier d low zs ≡ shift_earlier d c zs
unfolding shift_earlier
scan_gap [] low d c b h = refl
scan_gap ((s, f) ∷ rest) low d c b h = ground arith

Below-mono : (zs : Intervals) (low low' : ℕ) → low ≤ low' → Below low zs → Below low' zs
Below-mono [] low low' h b = tt
Below-mono ((s, f) ∷ rest) low low' h b = (b.0, omega arith)

-- One more interval, where `w` is the work that the scan has found above it.
module _ (s f d c w : ℕ) (rest zs : Intervals) (lt : s < f) (b : Below s zs) (h : 0 < d)
    (above : c ≤ f → w ≡ 0) where
  step_inside : d ≤ w → start_at rest (w - d) ≡ start_at ((s, f) ∷ rest) (min c f - s + w - d)
  unfolding start_at
  step_inside e = elim (le_or_gt c f) [
    | inl near ↦ absurd (omega (arith, above near))
    | inr far ↦ ground arith
  ]

  step_below :
      w < d
      → shift_earlier (d - w) c ((s, f) ∷ zs) ≡ (
          if leb d (min c f - s + w)
          then start_at ((s, f) ∷ rest) (min c f - s + w - d)
          else shift_earlier (d - (min c f - s + w)) c zs)
  unfolding start_at shift_earlier
  step_below e = elim (le_or_gt c s) [
    | inl outside ↦ ground (arith, above (omega arith))
    | inr inside ↦
        let left : d - w - (min c f - s) ≡ d - (min c f - s + w) = omega arith in
        ground (arith, scan_gap zs s (d - w - (min c f - s)) c)
  ]

  scan_step : (if leb d w then start_at rest (w - d) else shift_earlier (d - w) c ((s, f) ∷ zs)) ≡ (
      if leb d (min c f - s + w)
      then start_at ((s, f) ∷ rest) (min c f - s + w - d)
      else shift_earlier (d - (min c f - s + w)) c zs)
  scan_step = elim (le_or_gt d w) [
    | inl e ↦ rw (le→leb d w e, le→leb d (min c f - s + w) (omega arith)) (step_inside e)
    | inr e ↦ rw (lt→leb d w e) (step_below e)
  ]

-- Once it has gone through `xs`, the scan goes on below with what is left of the duration.
scan_reverse :
    (xs zs : Intervals) (low d c : ℕ)
    → IsOrdered low xs
    → Below low zs
    → 0 < d
    → shift_earlier d c (reverse xs ++ zs) ≡ (
        if leb d (work xs c)
        then start_at xs (work xs c - d)
        else shift_earlier (d - work xs c) c zs)
unfolding work
scan_reverse [] zs low d c o b h = ground arith
scan_reverse ((s, f) ∷ rest) zs low d c o b h =
    rw (reverse-cons (s, f) rest, append_assoc)
      (scan_reverse rest ((s, f) ∷ zs) (f + 1) d c o.2 (o.1, omega arith) h
        ∙ scan_step s f d c (work rest c) rest zs o.1 (Below-mono zs low s o.0 b) h
            (λ near. work-eq-zero rest (f + 1) c o.2 (omega arith)))

pub shift_earlier-start_at :
    (xs : Intervals) (low d c : ℕ)
    → IsOrdered low xs
    → 0 < d
    → shift_earlier d c (reverse xs)
      ≡ (if leb d (work xs c) then start_at xs (work xs c - d) else none)
unfolding shift_earlier
shift_earlier-start_at xs low d c o h =
    rw (← append-nil (reverse xs)) (scan_reverse xs [] low d c o tt h)

-- The last coordinate at or before `c` at which work can finish.
unfoldable pub prev_at : Intervals → ℕ → Option ℕ
prev_at [] c = none
prev_at ((s, f) ∷ rest) c = elim (prev_at rest c) [
  | some o ↦ some o
  | none ↦ if ltb s c then some (min c f) else none
]

prev_loop-cons :
    (s f c : ℕ) (rest : Intervals) (k : ℕ)
    → prev_loop (compiled ((s, f) ∷ rest)) c (suc k) ≡ elim (prev_loop (compiled rest) c k) [
      | some o ↦ some o
      | none ↦ if ltb s c then some (min c f) else none
    ]
unfolding prev_loop
prev_loop-cons s f c rest zero = refl
prev_loop-cons s f c rest (suc k) = ground (arith, prev_loop-cons s f c rest k)

prev_at-none : (xs : Intervals) (low c : ℕ) → IsOrdered low xs → c ≤ low → prev_at xs c ≡ none
unfolding prev_at
prev_at-none [] low c o h = refl
prev_at-none ((s, f) ∷ rest) low c o h = ground (arith, prev_at-none rest (f + 1) c o.2)

pub prev_working-compiled :
    (xs : Intervals) (low c : ℕ) → IsOrdered low xs → prev_working (compiled xs) c ≡ prev_at xs c
unfolding prev_working prev_at
prev_working-compiled [] low c o = refl
prev_working-compiled ((s, f) ∷ rest) low c o = elim (le_or_gt s c) [
  | inl started ↦ ground (
    arith,
    prev_loop-cons s f c rest (bisect_right (starts_of rest) c),
    prev_working-compiled rest (f + 1) c o.2,
  )
  | inr later ↦ ground (arith, prev_at-none rest (f + 1) c o.2)
]

-- Where no such coordinate exists, no work is done.
pub prev_at-empty :
    (xs : Intervals) (low c : ℕ) → IsOrdered low xs → prev_at xs c ≡ none → work xs c ≡ 0
unfolding prev_at work
prev_at-empty [] low c o e = refl
prev_at-empty ((s, f) ∷ rest) low c o e = ground (arith, prev_at-empty rest (f + 1) c o.2)

prev_at-low : (xs : Intervals) (low c o : ℕ) → IsOrdered low xs → prev_at xs c ≡ some o → low < o
unfolding prev_at
prev_at-low [] low c o h e = cc
prev_at-low ((s, f) ∷ rest) low c o h e = ground (arith, prev_at-low rest (f + 1) c o h.2)

prev_at-le : (xs : Intervals) (c o : ℕ) → prev_at xs c ≡ some o → o ≤ c
unfolding prev_at
prev_at-le [] c o e = cc
prev_at-le ((s, f) ∷ rest) c o e = ground (arith, prev_at-le rest c o)

pub prev_at-work :
    (xs : Intervals) (low c o : ℕ)
    → IsOrdered low xs
    → prev_at xs c ≡ some o
    → work xs o ≡ work xs c
unfolding prev_at work
prev_at-work [] low c o h e = cc
prev_at-work ((s, f) ∷ rest) low c o h e = elim (Option-cases (prev_at rest c)) [
  | inl missing ↦ ground (arith, prev_at-empty rest (f + 1) c h.2, work-eq-zero rest (f + 1) o h.2)
  | inr (p, found) ↦ ground (
    arith,
    prev_at-work rest (f + 1) c o h.2,
    prev_at-low rest (f + 1) c o h.2,
    prev_at-le rest c o,
  )
]

pub sub_productive-start_at :
    (xs : Intervals) (low c d : ℕ)
    → IsOrdered low xs
    → sub_productive (compiled xs) c (suc d)
      ≡ (if leb (suc d) (work xs c) then start_at xs (work xs c - suc d) else none)
unfolding sub_productive
sub_productive-start_at xs low c d o = elim (Option-cases (prev_at xs c)) [
  | inl missing ↦ ground (arith, prev_working-compiled xs low c o, prev_at-empty xs low c o)
  | inr (origin, e) ↦ elim (le_or_gt (suc d) (work xs c)) [
    | inl enough ↦
        let (i, p, q) =
          start_at-bisect xs 0 (work xs c - suc d) (work xs c - suc d)
            (omega (arith, work-le-total xs c)) (omega arith) in
        ground (
          arith,
          prev_working-compiled xs low c o,
          work_until-compiled xs low origin o,
          prev_at-work xs low c origin o e,
        )
    | inr short ↦ ground (
      arith,
      prev_working-compiled xs low c o,
      work_until-compiled xs low origin o,
      prev_at-work xs low c origin o e,
    )
  ]
]
