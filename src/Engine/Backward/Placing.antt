-- ===== src/Engine/Backward/Placing.antt =====
-- `_place` of sto/core/engine/backward.py beside the bounds that it is given.
use sto_scheduler_tracker_re.Prelude.{
  ℕ, zero, suc, ◌≤◌, ◌≡◌, sym, ◌∙◌, ap, subst, List, Bool, true, false, arith, Option, some, none,
  min, Option-cases, inl, inr, ℤ, pos, negsuc,
}
use sto_scheduler_tracker_re.Calendar.Compiled.{
  CompiledIntervals, of, normalise, prev_working_start,
}
use sto_scheduler_tracker_re.Calendar.Intervals.{Intervals, Working}
use sto_scheduler_tracker_re.Calendar.Normalise.{normalise-IsOrdered}
use sto_scheduler_tracker_re.Calendar.Spans.{latest_span}
use sto_scheduler_tracker_re.Calendar.Latest.{
  IsLatest, prev_start_at-some, prev_start_at-greatest, prev_working_start-compiled,
}
use sto_scheduler_tracker_re.Calendar.Latest.Answer.{latest_span-IsLatest}
use sto_scheduler_tracker_re.Engine.Outcome.{ok, present-eq-ok}
use sto_scheduler_tracker_re.Engine.Model.{AssignmentPlacement, PlannedActivity}
use sto_scheduler_tracker_re.Engine.Place.{calendar_floor}
use sto_scheduler_tracker_re.Engine.Forward.Spans.{IsCompiled}
use sto_scheduler_tracker_re.Engine.Late.Placement.{
  late_spans, place_late_envelope, snapped_back, place_late_free, place_late_row, place_late,
}

-- The latest span on a compiled calendar, seen from the intervals that it was built from.
pub IsLatest-on :
    (raw : Intervals) (cal : CompiledIntervals) (sb fb d floor s f : ℕ)
    → of raw ≡ cal
    → latest_span cal sb fb (pos d) floor ≡ some (s, f)
    → IsLatest (normalise raw) sb fb d floor (some (s, f))
IsLatest-on raw cal sb fb d floor s f same e =
    subst (IsLatest (normalise raw) sb fb d floor)
      (ap (λ k. latest_span k sb fb (pos d) floor) same ∙ e)
      (latest_span-IsLatest raw sb fb d floor)

latest_span-Ahead :
    (cal : CompiledIntervals) (sb fb : ℕ) (d : ℤ) (floor s f : ℕ)
    → IsCompiled cal
    → latest_span cal sb fb d floor ≡ some (s, f)
    → (s ≤ sb) × (f ≤ fb)
latest_span-Ahead cal sb fb (negsuc d) floor s f c e = unfold latest_span in cc
latest_span-Ahead cal sb fb (pos d) floor s f (raw, same) e =
    let ((_, before, until, _), _) = IsLatest-on raw cal sb fb d floor s f same e in (before, until)

-- `prev_working_start` on a compiled calendar: the last working coordinate up to the one given.
pub prev_working_start-on :
    (raw : Intervals) (cal : CompiledIntervals) (c p : ℕ)
    → of raw ≡ cal
    → prev_working_start cal c ≡ some p
    → (p ≤ c) × Working p (normalise raw) × ((w : ℕ) → Working w (normalise raw) → w ≤ c → w ≤ p)
unfolding of
prev_working_start-on raw cal c p same e =
    let xs = normalise raw in
    let o = normalise-IsOrdered raw in
    let found =
      sym (prev_working_start-compiled xs 0 c o) ∙ ap (λ k. prev_working_start k c) same ∙ e in
    let (le, w) = prev_start_at-some xs 0 c p o found in
    (
      le,
      w,
      λ v works before.
          let (q, at, m) = prev_start_at-greatest xs 0 c v o works before in
          let eq : q ≡ p = ground arith in omega arith,
    )

snapped_back-le :
    (cal : CompiledIntervals) (snap : Bool) (moment m : ℕ)
    → IsCompiled cal
    → snapped_back snap cal moment ≡ some m
    → m ≤ moment
snapped_back-le cal true moment m (raw, same) e = (prev_working_start-on raw cal moment m same e).0
snapped_back-le cal false moment m c e = ground arith

-- A milestone stands at the moment that its bounds and the snap leave.
pub place_late-moment :
    (a : PlannedActivity) (sb fb : ℕ) (snap : Bool) (s f : ℕ)
    → place_late_free a (pos zero) sb fb snap ≡ ok (s, f)
    → (snapped_back snap a.calendar (min sb fb) ≡ some s) × (s ≡ f) × (calendar_floor a ≤ s)
unfolding place_late_free
place_late-moment a sb fb snap s f e =
    elim (Option-cases (snapped_back snap a.calendar (min sb fb))) [
      | inl missing ↦ ground arith
      | inr (m, found) ↦
          let same : (m ≡ s) × (s ≡ f) × (calendar_floor a ≤ m) = ground arith in
          (found ∙ ap some same.0, same.1, omega arith)
    ]

place_late_free-Ahead :
    (a : PlannedActivity) (d : ℤ) (sb fb : ℕ) (snap : Bool) (s f : ℕ)
    → IsCompiled a.calendar
    → place_late_free a d sb fb snap ≡ ok (s, f)
    → (s ≤ sb) × (f ≤ fb)
unfolding place_late_free
place_late_free-Ahead a (pos zero) sb fb snap s f c e =
    let (at, same, _) = place_late-moment a sb fb snap s f e in
    let back = snapped_back-le a.calendar snap (min sb fb) s c at in omega arith
place_late_free-Ahead a (pos (suc d)) sb fb snap s f c e =
    latest_span-Ahead a.calendar sb fb (pos (suc d)) (calendar_floor a) s f c
      (present-eq-ok (latest_span a.calendar sb fb (pos (suc d)) (calendar_floor a)) _ _ e)
place_late_free-Ahead a (negsuc d) sb fb snap s f c e =
    latest_span-Ahead a.calendar sb fb (negsuc d) (calendar_floor a) s f c
      (present-eq-ok (latest_span a.calendar sb fb (negsuc d) (calendar_floor a)) _ _ e)

place_late_envelope-Ahead :
    (a : PlannedActivity) (rows : List AssignmentPlacement) (d : ℤ) (sb fb s f : ℕ)
    → place_late_envelope a rows d sb fb none ≡ ok (s, f)
    → (s ≤ sb) × (f ≤ fb)
unfolding place_late_envelope
place_late_envelope-Ahead a rows d sb fb s f e = elim (Option-cases (late_spans sb fb rows)) [
  | inl missing ↦ ground arith
  | inr (spans, found) ↦ ground arith
]

place_late_row-Ahead :
    (a : PlannedActivity) (envelope : Option (List AssignmentPlacement)) (d : ℤ) (sb fb : ℕ)
    (snap : Bool) (at : Option ℕ) (s f : ℕ)
    → IsCompiled a.calendar
    → place_late_row a envelope d sb fb snap none at ≡ ok (s, f)
    → (s ≤ sb) × (f ≤ fb)
place_late_row-Ahead a none d sb fb snap at s f c e = place_late_free-Ahead a d sb fb snap s f c e
place_late_row-Ahead a (some rows) d sb fb snap at s f c e =
    place_late_envelope-Ahead a rows d sb fb s f e

pub place_late-Ahead :
    (a : PlannedActivity) (d : ℤ) (sb fb : ℕ) (snap : Bool) (at : Option ℕ) (s f : ℕ)
    → IsCompiled a.calendar
    → place_late a d sb fb snap none at ≡ ok (s, f)
    → (s ≤ sb) × (f ≤ fb)
unfolding place_late
place_late-Ahead a d sb fb snap at s f c e =
    place_late_row-Ahead a a.assignment_envelope d sb fb snap at s f c e
