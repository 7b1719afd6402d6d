-- ===== src/Calendar/Latest.antt =====
-- `latest_span` against the reference: the greatest of the spans that `consume_duration` allows.
pub mod Pulled
pub mod Answer
use sto_scheduler_tracker_re.Prelude.{
  ℕ, zero, suc, ◌+◌, ◌-◌, ◌≤◌, ◌<◌, min, ◌≡◌, refl, inl, inr, some, none, Option, pos, arith, [],
  ◌∷◌, Option-cases, le_or_gt, ltb, if◌then◌else◌, get_or,
}
use sto_scheduler_tracker_re.Calendar.Intervals.{Intervals, IsOrdered, Working, Finishing}
use sto_scheduler_tracker_re.Calendar.Reference.{consume_duration}
use sto_scheduler_tracker_re.Calendar.Compiled.{compiled, bisect_right, prev_working_start}
use sto_scheduler_tracker_re.Calendar.Spans.{Span}
use sto_scheduler_tracker_re.Calendar.Work.{starts_of, finishes_of}
use sto_scheduler_tracker_re.Calendar.Order.{Working-ge, Finishing-gt}
use sto_scheduler_tracker_re.Calendar.Earlier.{prev_at}

-- A span of `d` units that respects both bounds and the floor.
abbrev pub FitsBefore : Intervals → (start_bound finish_bound d floor start finish : ℕ) → Type 0
FitsBefore xs sb fb d floor start finish =
    (consume_duration start (pos d) xs ≡ some finish)
    × (start ≤ sb)
    × (finish ≤ fb)
    × (floor ≤ start)

-- The answer is the latest such span, in start and in finish, or there is none.
abbrev pub IsLatest : Intervals → (start_bound finish_bound d floor : ℕ) → Option Span → Type 0
IsLatest xs sb fb d floor none = (start finish : ℕ) → ¬ FitsBefore xs sb fb d floor start finish
IsLatest xs sb fb d floor (some (s, f)) =
    FitsBefore xs sb fb d floor s f
    × ((start finish : ℕ) → FitsBefore xs sb fb d floor start finish → (start ≤ s) × (finish ≤ f))

-- The last working coordinate at or before `c`.
unfoldable pub prev_start_at : Intervals → ℕ → Option ℕ
prev_start_at [] c = none
prev_start_at ((s, f) ∷ rest) c = elim (prev_start_at rest c) [
  | some p ↦ some p
  | none ↦ if ltb c s then none else if ltb c f then some c else some (f - 1)
]

prev_start_at-before :
    (xs : Intervals) (low c : ℕ)
    → IsOrdered low xs
    → bisect_right (starts_of xs) c ≡ 0
    → prev_start_at xs c ≡ none
unfolding prev_start_at bisect_right
prev_start_at-before [] low c o e = refl
prev_start_at-before ((s, f) ∷ []) low c o e = ground arith
prev_start_at-before ((s, f) ∷ (s', f') ∷ rest) low c o e =
    ground (arith, prev_start_at-before ((s', f') ∷ rest) (f + 1) c o.2)

prev_start_at-bisect :
    (xs : Intervals) (low c i : ℕ)
    → IsOrdered low xs
    → bisect_right (starts_of xs) c ≡ suc i
    → prev_start_at xs c ≡ (
        if ltb c (get_or (finishes_of xs) i 0)
        then some c
        else some (get_or (finishes_of xs) i 0 - 1))
unfolding prev_start_at bisect_right
prev_start_at-bisect [] low c i o e = cc
prev_start_at-bisect ((s, f) ∷ rest) low c zero o e =
    ground (arith, prev_start_at-before rest (f + 1) c o.2)
prev_start_at-bisect ((s, f) ∷ rest) low c (suc i) o e =
    ground (arith, prev_start_at-bisect rest (f + 1) c i o.2)

pub prev_working_start-compiled :
    (xs : Intervals) (low c : ℕ)
    → IsOrdered low xs
    → prev_working_start (compiled xs) c ≡ prev_start_at xs c
unfolding prev_working_start
prev_working_start-compiled xs low c o = go (bisect_right (starts_of xs) c) refl
  where
    go :
        (k : ℕ)
        → bisect_right (starts_of xs) c ≡ k
        → prev_working_start (compiled xs) c ≡ prev_start_at xs c
    go zero e = ground (arith, prev_start_at-before xs low c o)
    go (suc i) e = ground (arith, prev_start_at-bisect xs low c i o)

pub prev_start_at-some :
    (xs : Intervals) (low c p : ℕ)
    → IsOrdered low xs
    → prev_start_at xs c ≡ some p
    → (p ≤ c) × Working p xs
unfolding prev_start_at
prev_start_at-some [] low c p o e = cc
prev_start_at-some ((s, f) ∷ rest) low c p o e = elim (Option-cases (prev_start_at rest c)) [
  | inr (q, found) ↦
      let same : q ≡ p = ground arith in
      let (l, w) = prev_start_at-some rest (f + 1) c p o.2 (ground arith) in (l, inr w)
  | inl missing ↦
      let here : (s ≤ c) × (p ≤ c) × (s ≤ p) × (p < f) = ground arith in
      (here.1, inl (here.2, here.3))
]

pub prev_start_at-greatest :
    (xs : Intervals) (low c w : ℕ)
    → IsOrdered low xs
    → Working w xs
    → w ≤ c
    → (p : ℕ) × (prev_start_at xs c ≡ some p) × (w ≤ p)
unfolding prev_start_at
prev_start_at-greatest [] low c w o k h = elim k [ ]
prev_start_at-greatest ((s, f) ∷ rest) low c w o (inl k) h =
    elim (Option-cases (prev_start_at rest c)) [
      | inr (q, found) ↦ (
        q,
        ground arith,
        omega (
          arith,
          Working-ge rest (f + 1) q o.2 (prev_start_at-some rest (f + 1) c q o.2 found).1,
        ),
      )
      | inl missing ↦ elim (le_or_gt f c) [
        | inl past ↦ (f - 1, ground arith, omega arith)
        | inr inside ↦ (c, ground arith, h)
      ]
    ]
prev_start_at-greatest ((s, f) ∷ rest) low c w o (inr k) h =
    let (q, found, l) = prev_start_at-greatest rest (f + 1) c w o.2 k h in (q, ground arith, l)

pub prev_at-some :
    (xs : Intervals) (low c p : ℕ)
    → IsOrdered low xs
    → prev_at xs c ≡ some p
    → (p ≤ c) × Finishing p xs
unfolding prev_at
prev_at-some [] low c p o e = cc
prev_at-some ((s, f) ∷ rest) low c p o e = elim (Option-cases (prev_at rest c)) [
  | inr (q, found) ↦
      let same : q ≡ p = ground arith in
      let (l, w) = prev_at-some rest (f + 1) c p o.2 (ground arith) in (l, inr w)
  | inl missing ↦
      let here : (p ≤ c) × (s < p) × (p ≤ f) = ground arith in (here.0, inl (here.1, here.2))
]

pub prev_at-greatest :
    (xs : Intervals) (low c w : ℕ)
    → IsOrdered low xs
    → Finishing w xs
    → w ≤ c
    → (p : ℕ) × (prev_at xs c ≡ some p) × (w ≤ p)
unfolding prev_at
prev_at-greatest [] low c w o k h = elim k [ ]
prev_at-greatest ((s, f) ∷ rest) low c w o (inl k) h = elim (Option-cases (prev_at rest c)) [
  | inr (q, found) ↦ (
    q,
    ground arith,
    omega (arith, Finishing-gt rest (f + 1) q o.2 (prev_at-some rest (f + 1) c q o.2 found).1),
  )
  | inl missing ↦ (min c f, ground arith, omega arith)
]
prev_at-greatest ((s, f) ∷ rest) low c w o (inr k) h =
    let (q, found, l) = prev_at-greatest rest (f + 1) c w o.2 k h in (q, ground arith, l)
