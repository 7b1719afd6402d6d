-- ===== src/Engine/Forward/Spans.antt =====
-- `_place` of sto/core/engine/forward.py respects the bounds of a row that no hard date pins.
use sto_scheduler_tracker_re.Prelude.{
  ℕ, ◌≤◌, ◌<◌, ◌≡◌, sym, subst, List, [], ◌∷◌, arith, All, Option, some, none, min, max,
  Option-cases, inl, inr, ℤ, pos, negsuc, get_or, length,
}
use sto_scheduler_tracker_re.Calendar.Intervals.{Intervals}
use sto_scheduler_tracker_re.Calendar.Compiled.{
  CompiledIntervals, of, normalise, next_working, index_at, start_after, bisect_right,
}
use sto_scheduler_tracker_re.Calendar.Spans.{Span, earliest_span}
use sto_scheduler_tracker_re.Calendar.Earliest.{IsEarliest}
use sto_scheduler_tracker_re.Calendar.Earliest.Answer.{earliest_span-IsEarliest}
use sto_scheduler_tracker_re.Engine.Outcome.{ok}
use sto_scheduler_tracker_re.Engine.Model.{AssignmentPlacement, PlannedActivity}
use sto_scheduler_tracker_re.Engine.Placement.{envelope_spans, hull, hull_of}

-- A calendar is built by `CompiledIntervals.of`.
abbrev pub IsCompiled : CompiledIntervals → Type 0
IsCompiled cal = (raw : Intervals) × (of raw ≡ cal)

abbrev pub HasPlacements : Option (List AssignmentPlacement) → Type 0
HasPlacements none = Unit
HasPlacements (some rows) = All (λ row. IsCompiled row.calendar) rows

abbrev pub HasCalendars : PlannedActivity → Type 0
HasCalendars a = IsCompiled a.calendar × HasPlacements a.assignment_envelope

abbrev pub Behind : (start_bound finish_bound : ℕ) → Span → Type 0
Behind sb fb (s, f) = (sb ≤ s) × (fb ≤ f)

least-Behind :
    (xs : Intervals) (sb fb d h s f : ℕ) (answer : Option Span)
    → IsEarliest xs sb fb d h answer
    → answer ≡ some (s, f)
    → (sb ≤ s) × (fb ≤ f)
least-Behind xs sb fb d h s f none least e = cc
least-Behind xs sb fb d h s f (some (s', f')) least e =
    let same : (s' ≡ s) × (f' ≡ f) = (ground arith, ground arith) in
    let (_, after, until, _) = least.0 in omega arith

pub earliest_span-Behind :
    (cal : CompiledIntervals) (sb fb : ℕ) (d : ℤ) (h s f : ℕ)
    → IsCompiled cal
    → earliest_span cal sb fb d h ≡ some (s, f)
    → (sb ≤ s) × (fb ≤ f)
earliest_span-Behind cal sb fb (negsuc d) h s f c e = unfold earliest_span in cc
earliest_span-Behind cal sb fb (pos d) h s f (raw, same) e =
    least-Behind (normalise raw) sb fb d h s f (earliest_span (of raw) sb fb (pos d) h)
      (earliest_span-IsEarliest raw sb fb d h)
      (subst (λ k. earliest_span k sb fb (pos d) h ≡ some (s, f)) (sym same) e)

-- The coordinates from the index that `bisect_right` finds lie beyond the one given.
bisect-after :
    (xs : List ℕ) (c : ℕ) → bisect_right xs c < length xs → c < get_or xs (bisect_right xs c) 0
unfolding bisect_right
bisect-after [] c h = absurd (omega arith)
bisect-after (x ∷ xs) c h = ground (arith, bisect-after xs c)

pub next_working-ge : (cal : CompiledIntervals) (c o : ℕ) → next_working cal c ≡ some o → c ≤ o
unfolding next_working start_after
next_working-ge cal c o e = elim (Option-cases (index_at cal c)) [
  | inl outside ↦ ground (arith, bisect-after cal.starts c)
  | inr (i, inside) ↦ ground arith
]

pub spans-Behind :
    (sb h : ℕ) (rows : List AssignmentPlacement) (spans : List Span)
    → All (λ (row : AssignmentPlacement). IsCompiled row.calendar) rows
    → envelope_spans sb h rows ≡ some spans
    → All (λ span. Behind sb 0 span) spans
unfolding envelope_spans
spans-Behind sb h [] spans c e =
    let same : [] ≡ spans = ground arith in subst (All (λ span. Behind sb 0 span)) same tt
spans-Behind sb h (row ∷ rest) spans (c, cs) e =
    elim (Option-cases (earliest_span row.calendar sb sb row.work_duration h)) [
      | inl missing ↦ ground arith
      | inr ((s, f), found) ↦ elim (Option-cases (envelope_spans sb h rest)) [
        | inl missing ↦ ground arith
        | inr (others, more) ↦
            let same : (s, f) ∷ others ≡ spans = ground arith in
            let (after, _) =
              earliest_span-Behind row.calendar sb sb row.work_duration h s f c found in
            subst (All (λ span. Behind sb 0 span)) same
              ((after, omega arith), spans-Behind sb h rest others cs more)
      ]
    ]

hull-Behind :
    (sb s f : ℕ) (spans : List Span)
    → sb ≤ s
    → All (λ span. Behind sb 0 span) spans
    → sb ≤ (hull (s, f) spans).0
unfolding hull
hull-Behind sb s f [] h b = h
hull-Behind sb s f ((s', f') ∷ rest) h (b, bs) =
    hull-Behind sb (min s s') (max f f') rest (omega (arith, b.0)) bs

pub hull_of-Behind :
    (sb : ℕ) (spans : List Span) (s f : ℕ)
    → All (λ span. Behind sb 0 span) spans
    → hull_of spans ≡ ok (s, f)
    → sb ≤ s
hull_of-Behind sb [] s f b e = cc
hull_of-Behind sb ((s', f') ∷ rest) s f (b, bs) e =
    let same : hull (s', f') rest ≡ (s, f) = ground arith in
    subst (λ (p : Span). sb ≤ p.0) same (hull-Behind sb s' f' rest b.0 bs)
