-- ===== src/Engine/Forward/Dated.antt =====
-- What `forward_pass` of sto/core/engine/forward.py makes of constraint dates.
use sto_scheduler_tracker_re.Prelude.{
  ℕ, ◌≤◌, ◌≡◌, subst, List, Bool, arith, Option, some, none, All, All-find, ℤ,
}
use sto_scheduler_tracker_re.Calendar.Spans.{Span}
use sto_scheduler_tracker_re.Engine.Outcome.{ok}
use sto_scheduler_tracker_re.Engine.Model.{
  ConstraintType, snet, fnet, mso, mfo, PlannedActivity, AssignmentPlacement, Network,
  activity_by_uid, remaining,
}
use sto_scheduler_tracker_re.Engine.Progress.{ProgressPolicy, not_started, state_of}
use sto_scheduler_tracker_re.Engine.Place.{ActivityTimes, placed_at, Limits}
use sto_scheduler_tracker_re.Engine.Placement.{
  Pin, on_start, on_finish, place, place_row, place_pinned, place_envelope,
}
use sto_scheduler_tracker_re.Engine.Untouched.{constrain}
use sto_scheduler_tracker_re.Engine.Forward.{ForwardPass, forward_pass}
use sto_scheduler_tracker_re.Engine.Forward.Spans.{HasCalendars}
use sto_scheduler_tracker_re.Engine.Forward.Unstarted.{IsUnstarted-at}
use sto_scheduler_tracker_re.Engine.Forward.Placing.{place-Behind}

-- The side that a hard date pins lies at it.
abbrev pub Pinned : Pin → ℕ → Span → Type 0
Pinned on_start c (s, f) = s ≡ c
Pinned on_finish c (s, f) = f ≡ c

Pinned-row :
    (a : PlannedActivity) (envelope : Option (List AssignmentPlacement)) (d : ℤ) (sb fb h : ℕ)
    (snap : Bool) (pin : Pin) (c s f : ℕ)
    → place_row a envelope d sb fb h snap (some pin) (some c) ≡ ok (s, f)
    → Pinned pin c (s, f)
unfolding place_pinned place_envelope
Pinned-row a (some rows) d sb fb h snap pin c s f e = ground arith
Pinned-row a none d sb fb h snap on_start c s f e = ground arith
Pinned-row a none d sb fb h snap on_finish c s f e = ground arith

pub place-Pinned :
    (a : PlannedActivity) (d : ℤ) (sb fb h : ℕ) (snap : Bool) (pin : Pin) (c s f : ℕ)
    → place a d sb fb h snap (some pin) (some c) ≡ ok (s, f)
    → Pinned pin c (s, f)
unfolding place
place-Pinned a d sb fb h snap pin c s f e =
    Pinned-row a a.assignment_envelope d sb fb h snap pin c s f e

-- What each constraint type asks of a span. The deferred types and ASAP ask nothing of this pass.
abbrev pub Dates : ConstraintType → Option ℕ → (start finish : ℕ) → Type 0
Dates snet (some c) start finish = c ≤ start
Dates fnet (some c) start finish = c ≤ finish
Dates mso (some c) start finish = start ≡ c
Dates mfo (some c) start finish = finish ≡ c
Dates _ _ start finish = Unit

module _ (a : PlannedActivity) (d : ℤ) (h : ℕ) (snap : Bool) (calendars : HasCalendars a)
    (l : Limits) (fallback : Bool) (s f : ℕ) where
  abbrev Spans : ConstraintType → Option ℕ → Type 0
  Spans ct at =
      place a d (constrain ct at l fallback).limits.start_bound
        (constrain ct at l fallback).limits.finish_bound h snap (constrain ct at l fallback).pinned
        at
      ≡ ok (s, f)

  free-Behind :
      (ct : ConstraintType) (at : Option ℕ)
      → (constrain ct at l fallback).pinned ≡ none
      → Spans ct at
      → ((constrain ct at l fallback).limits.start_bound ≤ s)
        × ((constrain ct at l fallback).limits.finish_bound ≤ f)
  free-Behind ct at free e =
      let c = constrain ct at l fallback in
      place-Behind a d c.limits.start_bound c.limits.finish_bound h snap at s f calendars (
        subst
          (λ pin. place a d c.limits.start_bound c.limits.finish_bound h snap pin at ≡ ok (s, f))
          free e)

  constrained-Dates : (ct : ConstraintType) (at : Option ℕ) → Spans ct at → Dates ct at s f
  unfolding constrain
  constrained-Dates snet (some c) e =
      let (after, _) = free-Behind snet (some c) (ground arith) e in ground arith
  constrained-Dates fnet (some c) e =
      let (_, until) = free-Behind fnet (some c) (ground arith) e in ground arith
  constrained-Dates mso (some c) e =
      place-Pinned a d l.start_bound l.finish_bound h snap on_start c s f e
  constrained-Dates mfo (some c) e =
      place-Pinned a d l.start_bound l.finish_bound h snap on_finish c s f e
  constrained-Dates _ _ e = tt

module _ (network : Network) (snap : Bool) (policy : ProgressPolicy) {pass : ForwardPass}
    (a : PlannedActivity) (row : ActivityTimes) where
  -- In a pass that is returned, the row of an activity that has not started keeps its constraint's
  -- date: SNET and FNET from below, MSO and MFO exactly. The calendars are built by
  -- `CompiledIntervals.of`.
  pub forward_pass-Dates :
      All HasCalendars network.activities
      → forward_pass network snap policy ≡ ok pass
      → activity_by_uid network a.uid ≡ some a
      → placed_at pass.times a.uid ≡ some row
      → state_of a ≡ not_started
      → Dates a.constraint_type a.constraint_coordinate row.early_start row.early_finish
  unfolding activity_by_uid
  forward_pass-Dates calendars e found at fresh =
      let u = IsUnstarted-at network snap policy a row e found at fresh in
      constrained-Dates a (remaining a) network.horizon snap
        (All-find HasCalendars (λ b. b.uid) a.uid network.activities a calendars found) u.limits
        u.fallback row.early_start row.early_finish a.constraint_type a.constraint_coordinate
        u.spanned
