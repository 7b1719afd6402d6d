-- ===== src/Engine/Forward/Placing.antt =====
-- `_place` of sto/core/engine/forward.py, on every branch that no hard date pins.
use sto_scheduler_tracker_re.Prelude.{
  ℕ, zero, suc, ◌≤◌, ◌≡◌, List, Bool, true, false, arith, All, Option, some, none, max,
  Option-cases, inl, inr, ℤ, pos, negsuc,
}
use sto_scheduler_tracker_re.Calendar.Spans.{Span, earliest_span}
use sto_scheduler_tracker_re.Engine.Outcome.{ok, present, horizon_exceeded}
use sto_scheduler_tracker_re.Engine.Model.{AssignmentPlacement, PlannedActivity}
use sto_scheduler_tracker_re.Engine.Placement.{
  envelope_spans, hull_of, place_envelope, place_free, place_row, place, snapped,
}
use sto_scheduler_tracker_re.Engine.Forward.Spans.{
  IsCompiled, HasPlacements, HasCalendars, earliest_span-Behind, next_working-ge, spans-Behind,
  hull_of-Behind,
}

snapped-ge :
    (a : PlannedActivity) (snap : Bool) (moment m : ℕ)
    → snapped snap a.calendar moment ≡ some m
    → moment ≤ m
snapped-ge a true moment m e = next_working-ge a.calendar moment m e
snapped-ge a false moment m e = ground arith

present-ok :
    (found : Option Span) (a : PlannedActivity) (s f : ℕ)
    → present found horizon_exceeded (some a.uid) ≡ ok (s, f)
    → found ≡ some (s, f)
present-ok none a s f e = cc
present-ok (some span) a s f e = ground arith

place_free-Behind :
    (a : PlannedActivity) (d : ℤ) (sb fb h : ℕ) (snap : Bool) (s f : ℕ)
    → IsCompiled a.calendar
    → place_free a d sb fb h snap ≡ ok (s, f)
    → (sb ≤ s) × (fb ≤ f)
unfolding place_free
place_free-Behind a (pos zero) sb fb h snap s f c e =
    elim (Option-cases (snapped snap a.calendar (max sb fb))) [
      | inl missing ↦ ground arith
      | inr (m, found) ↦
          let past = snapped-ge a snap (max sb fb) m found in
          let same : (s ≡ m) × (f ≡ m) = (ground arith, ground arith) in omega arith
    ]
place_free-Behind a (pos (suc d)) sb fb h snap s f c e =
    earliest_span-Behind a.calendar sb fb (pos (suc d)) h s f c
      (present-ok (earliest_span a.calendar sb fb (pos (suc d)) h) a s f e)
place_free-Behind a (negsuc d) sb fb h snap s f c e =
    earliest_span-Behind a.calendar sb fb (negsuc d) h s f c
      (present-ok (earliest_span a.calendar sb fb (negsuc d) h) a s f e)

place_envelope-Behind :
    (a : PlannedActivity) (rows : List AssignmentPlacement) (d : ℤ) (sb fb h s f : ℕ)
    → All (λ (row : AssignmentPlacement). IsCompiled row.calendar) rows
    → place_envelope a rows d sb fb h none ≡ ok (s, f)
    → (sb ≤ s) × (fb ≤ f)
unfolding place_envelope
place_envelope-Behind a rows d sb fb h s f c e = elim (Option-cases (envelope_spans sb h rows)) [
  | inl missing ↦ ground arith
  | inr (spans, found) ↦
      let hulled : hull_of spans ≡ ok (s, f) = ground arith in
      (hull_of-Behind sb spans s f (spans-Behind sb h rows spans c found) hulled, ground arith)
]

place_row-Behind :
    (a : PlannedActivity) (envelope : Option (List AssignmentPlacement)) (d : ℤ) (sb fb h : ℕ)
    (snap : Bool) (at : Option ℕ) (s f : ℕ)
    → IsCompiled a.calendar
    → HasPlacements envelope
    → place_row a envelope d sb fb h snap none at ≡ ok (s, f)
    → (sb ≤ s) × (fb ≤ f)
place_row-Behind a none d sb fb h snap at s f c p e = place_free-Behind a d sb fb h snap s f c e
place_row-Behind a (some rows) d sb fb h snap at s f c p e =
    place_envelope-Behind a rows d sb fb h s f p e

pub place-Behind :
    (a : PlannedActivity) (d : ℤ) (sb fb h : ℕ) (snap : Bool) (at : Option ℕ) (s f : ℕ)
    → HasCalendars a
    → place a d sb fb h snap none at ≡ ok (s, f)
    → (sb ≤ s) × (fb ≤ f)
unfolding place
place-Behind a d sb fb h snap at s f c e =
    place_row-Behind a a.assignment_envelope d sb fb h snap at s f c.0 c.1 e
