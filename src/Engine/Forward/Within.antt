-- ===== src/Engine/Forward/Within.antt =====
-- No span that `_place` of sto/core/engine/forward.py answers ends beyond the horizon.
use sto_scheduler_tracker_re.Prelude.{
  ℕ, zero, suc, ◌≤◌, ◌≡◌, ◌≢◌, refl, sym, subst, List, [], ◌∷◌, Bool, arith, All, All-find, Option,
  some, none, min, max, Option-cases, inl, inr, ℤ, pos, negsuc, default, not, is_some, ◌==◌, ◌&&◌,
}
use sto_scheduler_tracker_re.Calendar.Intervals.{Intervals}
use sto_scheduler_tracker_re.Calendar.Compiled.{CompiledIntervals, of, normalise}
use sto_scheduler_tracker_re.Calendar.Spans.{Span, earliest_span}
use sto_scheduler_tracker_re.Calendar.Earliest.{IsEarliest}
use sto_scheduler_tracker_re.Calendar.Earliest.Answer.{earliest_span-IsEarliest}
use sto_scheduler_tracker_re.Engine.Outcome.{ok, present-eq-ok}
use sto_scheduler_tracker_re.Engine.Model.{
  AssignmentPlacement, PlannedActivity, Network, activity_by_uid, remaining,
}
use sto_scheduler_tracker_re.Engine.Progress.{
  ProgressPolicy, ProgressState, not_started, in_progress, complete, state_of,
}
use sto_scheduler_tracker_re.Engine.Place.{ActivityTimes, placed_at, Limits, calendar_floor}
use sto_scheduler_tracker_re.Engine.Placement.{
  Pin, on_start, on_finish, envelope_spans, hull, hull_of, place_envelope, place_pinned, place_free,
  place_row, place,
}
use sto_scheduler_tracker_re.Engine.Reporting.{Placed, start_floor, finish_floor}
use sto_scheduler_tracker_re.Engine.Untouched.{constrain, place_untouched}
use sto_scheduler_tracker_re.Engine.Forward.{ForwardPass, place_by_state, forward_pass, no_edges}
use sto_scheduler_tracker_re.Engine.Forward.Spans.{IsCompiled, HasPlacements, HasCalendars}
use sto_scheduler_tracker_re.Engine.Forward.Steps.{constrained-inv, in_progress-inv}
use sto_scheduler_tracker_re.Engine.Forward.Rounds.{binding, base}
use sto_scheduler_tracker_re.Engine.Forward.Honours.{pass-at}

least-Within :
    (xs : Intervals) (sb fb d h s f : ℕ) (answer : Option Span)
    → IsEarliest xs sb fb d h answer
    → answer ≡ some (s, f)
    → f ≤ h
least-Within xs sb fb d h s f none least e = cc
least-Within xs sb fb d h s f (some (s', f')) least e =
    let same : f' ≡ f = ground arith in let (_, _, _, within) = least.0 in omega arith

pub earliest_span-Within :
    (cal : CompiledIntervals) (sb fb : ℕ) (d : ℤ) (h s f : ℕ)
    → IsCompiled cal
    → earliest_span cal sb fb d h ≡ some (s, f)
    → f ≤ h
earliest_span-Within cal sb fb (negsuc d) h s f c e = unfold earliest_span in cc
earliest_span-Within cal sb fb (pos d) h s f (raw, same) e =
    least-Within (normalise raw) sb fb d h s f (earliest_span (of raw) sb fb (pos d) h)
      (earliest_span-IsEarliest raw sb fb d h)
      (subst (λ k. earliest_span k sb fb (pos d) h ≡ some (s, f)) (sym same) e)

abbrev EndsBy : ℕ → Span → Type 0
EndsBy h (s, f) = f ≤ h

spans-Within :
    (sb h : ℕ) (rows : List AssignmentPlacement) (spans : List Span)
    → All (λ (row : AssignmentPlacement). IsCompiled row.calendar) rows
    → envelope_spans sb h rows ≡ some spans
    → All (EndsBy h) spans
unfolding envelope_spans
spans-Within sb h [] spans c e =
    let same : [] ≡ spans = ground arith in subst (All (EndsBy h)) same tt
spans-Within sb h (row ∷ rest) spans (c, cs) e =
    elim (Option-cases (earliest_span row.calendar sb sb row.work_duration h)) [
      | inl missing ↦ ground arith
      | inr ((s, f), found) ↦ elim (Option-cases (envelope_spans sb h rest)) [
        | inl missing ↦ ground arith
        | inr (others, more) ↦
            let same : (s, f) ∷ others ≡ spans = ground arith in
            subst (All (EndsBy h)) same (
              earliest_span-Within row.calendar sb sb row.work_duration h s f c found,
              spans-Within sb h rest others cs more,
            )
      ]
    ]

hull-Within :
    (h s f : ℕ) (spans : List Span) → f ≤ h → All (EndsBy h) spans → (hull (s, f) spans).1 ≤ h
unfolding hull
hull-Within h s f [] w b = w
hull-Within h s f ((s', f') ∷ rest) w (b, bs) =
    hull-Within h (min s s') (max f f') rest (omega (arith, b)) bs

hull_of-Within :
    (h : ℕ) (spans : List Span) (s f : ℕ) → All (EndsBy h) spans → hull_of spans ≡ ok (s, f) → f ≤ h
hull_of-Within h [] s f b e = cc
hull_of-Within h ((s', f') ∷ rest) s f (b, bs) e =
    let same : hull (s', f') rest ≡ (s, f) = ground arith in
    subst (λ (p : Span). p.1 ≤ h) same (hull-Within h s' f' rest b bs)

row-Within :
    (a : PlannedActivity) (envelope : Option (List AssignmentPlacement)) (d : ℤ) (sb fb h : ℕ)
    (snap : Bool) (pin : Option Pin) (at : Option ℕ) (s f : ℕ)
    → IsCompiled a.calendar
    → HasPlacements envelope
    → place_row a envelope d sb fb h snap pin at ≡ ok (s, f)
    → f ≤ h
unfolding place_envelope place_free place_pinned
row-Within a (some rows) d sb fb h snap pin at s f c p e =
    elim (Option-cases (envelope_spans sb h rows)) [
      | inl missing ↦ ground arith
      | inr (spans, found) ↦
          let hulled : hull_of spans ≡ ok (s, f) = ground arith in
          hull_of-Within h spans s f (spans-Within sb h rows spans p found) hulled
    ]
row-Within a none d sb fb h snap (some on_start) at s f c p e = ground arith
row-Within a none d sb fb h snap (some on_finish) at s f c p e = ground arith
row-Within a none (pos zero) sb fb h snap none at s f c p e = ground arith
row-Within a none (pos (suc d)) sb fb h snap none at s f c p e =
    earliest_span-Within a.calendar sb fb (pos (suc d)) h s f c
      (present-eq-ok (earliest_span a.calendar sb fb (pos (suc d)) h) _ _ e)
row-Within a none (negsuc d) sb fb h snap none at s f c p e =
    earliest_span-Within a.calendar sb fb (negsuc d) h s f c
      (present-eq-ok (earliest_span a.calendar sb fb (negsuc d) h) _ _ e)

pub place-Within :
    (a : PlannedActivity) (d : ℤ) (sb fb h : ℕ) (snap : Bool) (pin : Option Pin) (at : Option ℕ)
    (s f : ℕ)
    → HasCalendars a
    → place a d sb fb h snap pin at ≡ ok (s, f)
    → f ≤ h
unfolding place
place-Within a d sb fb h snap pin at s f c e =
    row-Within a a.assignment_envelope d sb fb h snap pin at s f c.0 c.1 e

module _ (network : Network) (snap : Bool) (policy : ProgressPolicy) (a : PlannedActivity)
    (l : Limits) (floor : ℕ) (bound : Bool) {p : Placed} (calendars : HasCalendars a) where
  round-Within :
      (state : ProgressState)
      → place_by_state a state l floor bound network snap policy ≡ ok p
      → state ≢ complete
      → p.row.early_finish ≤ network.horizon
  unfolding place_untouched
  round-Within not_started e unfinished =
      let c =
        constrain a.constraint_type a.constraint_coordinate l
          (bound && not (is_some l.start_driver) && l.start_bound == network.project_start) in
      let (s, f, _, spanned, same) = constrained-inv network snap policy a l c floor e in
      subst (λ (p : Placed). p.row.early_finish ≤ network.horizon) same
        (place-Within a (remaining a) c.limits.start_bound c.limits.finish_bound network.horizon
          snap c.pinned a.constraint_coordinate s f calendars spanned)
  round-Within in_progress e unfinished =
      let (began, s, f, _, spanned, same) = in_progress-inv network snap policy a l e in
      subst (λ (p : Placed). p.row.early_finish ≤ network.horizon) same
        (place-Within a (remaining a) (start_floor l network policy began)
          (finish_floor l network policy began) network.horizon snap none none s f calendars
          spanned)
  round-Within complete e unfinished = absurd (unfinished refl)

-- In a pass that is returned, every activity that is not complete finishes by the horizon. The
-- calendars are built by `CompiledIntervals.of`.
pub forward_pass-Within :
    (network : Network) (snap : Bool) (policy : ProgressPolicy) {pass : ForwardPass}
    (a : PlannedActivity) (row : ActivityTimes)
    → All HasCalendars network.activities
    → forward_pass network snap policy ≡ ok pass
    → activity_by_uid network a.uid ≡ some a
    → placed_at pass.times a.uid ≡ some row
    → state_of a ≢ complete
    → row.early_finish ≤ network.horizon
unfolding activity_by_uid
forward_pass-Within network snap policy a row calendars e found at unfinished =
    let (before, rest, l, p, bounded, placed, rowed, standing, _) =
      pass-at network snap policy a row e found at in
    subst (λ (r : ActivityTimes). r.early_finish ≤ network.horizon) rowed
      (round-Within network snap policy a l
        (default (calendar_floor a) (base network snap policy a))
        (not (no_edges (binding network snap policy a)))
        (All-find HasCalendars (λ b. b.uid) a.uid network.activities a calendars found) (state_of a)
        placed unfinished)
