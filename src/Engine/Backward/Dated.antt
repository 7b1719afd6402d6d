-- ===== src/Engine/Backward/Dated.antt =====
-- What `backward_pass` of sto/core/engine/backward.py makes of constraint dates and of reported dates.
use sto_scheduler_tracker_re.Prelude.{
  ℕ, ◌≤◌, ◌≡◌, sym, ◌∙◌, ap, subst, List, Bool, arith, All-find, Option, some, none, ℤ,
}
use sto_scheduler_tracker_re.Engine.Outcome.{ok, ok-inj}
use sto_scheduler_tracker_re.Engine.Model.{
  AssignmentPlacement, ConstraintType, snlt, fnlt, mso, mfo, PlannedActivity, Network,
  activity_by_uid, remaining,
}
use sto_scheduler_tracker_re.Engine.Progress.{
  ProgressPolicy, ProgressState, not_started, in_progress, complete, state_of,
}
use sto_scheduler_tracker_re.Engine.Placement.{Pin, on_start, on_finish}
use sto_scheduler_tracker_re.Engine.Forward.{forward_pass}
use sto_scheduler_tracker_re.Engine.Forward.Dated.{Pinned}
use sto_scheduler_tracker_re.Engine.Forward.Spans.{IsCompiled}
use sto_scheduler_tracker_re.Engine.Forward.Answer.{forward_pass-IsPassOf}
use sto_scheduler_tracker_re.Engine.Late.{ActivityLateTimes, late_at, UpperBound}
use sto_scheduler_tracker_re.Engine.Late.Placement.{
  place_late, place_late_row, place_late_pinned, place_late_envelope, constrain_late,
}
use sto_scheduler_tracker_re.Engine.Backward.{
  BackwardPass, LateContext, LateRequest, context_of, place_late_open, place_late_state,
  backward_pass,
}
use sto_scheduler_tracker_re.Engine.Backward.Rounds.{
  open-inv, late_complete-inv, late_row-under_way,
}
use sto_scheduler_tracker_re.Engine.Backward.Answer.{placing_at}
use sto_scheduler_tracker_re.Engine.Backward.Placing.{place_late-Ahead}
use sto_scheduler_tracker_re.Engine.Backward.Targets.{AreCompiled}

place_late-Pinned :
    (a : PlannedActivity) (envelope : Option (List AssignmentPlacement)) (d : ℤ) (sb fb : ℕ)
    (snap : Bool) (pin : Pin) (c s f : ℕ)
    → place_late_row a envelope d sb fb snap (some pin) (some c) ≡ ok (s, f)
    → Pinned pin c (s, f)
unfolding place_late_envelope place_late_pinned
place_late-Pinned a (some rows) d sb fb snap pin c s f e = ground arith
place_late-Pinned a none d sb fb snap on_start c s f e = ground arith
place_late-Pinned a none d sb fb snap on_finish c s f e = ground arith

-- What each constraint type asks of a late span. The other types ask nothing of this pass.
abbrev pub LateDates : ConstraintType → Option ℕ → (start finish : ℕ) → Type 0
LateDates snlt (some c) start finish = start ≤ c
LateDates fnlt (some c) start finish = finish ≤ c
LateDates mso (some c) start finish = start ≡ c
LateDates mfo (some c) start finish = finish ≡ c
LateDates _ _ start finish = Unit

module _ (a : PlannedActivity) (d : ℤ) (snap : Bool) (cal : IsCompiled a.calendar)
    (start finish : UpperBound) (s f : ℕ) where
  abbrev LateSpans : ConstraintType → Option ℕ → Type 0
  LateSpans ct at =
      place_late a d (constrain_late ct at start finish).start.at
        (constrain_late ct at start finish).finish.at snap
        (constrain_late ct at start finish).pinned at
      ≡ ok (s, f)

  late_free-Ahead :
      (ct : ConstraintType) (at : Option ℕ)
      → (constrain_late ct at start finish).pinned ≡ none
      → LateSpans ct at
      → (s ≤ (constrain_late ct at start finish).start.at)
        × (f ≤ (constrain_late ct at start finish).finish.at)
  late_free-Ahead ct at free e =
      let l = constrain_late ct at start finish in
      place_late-Ahead a d l.start.at l.finish.at snap at s f cal
        (subst (λ pin. place_late a d l.start.at l.finish.at snap pin at ≡ ok (s, f)) free e)

  spans-LateDates : (ct : ConstraintType) (at : Option ℕ) → LateSpans ct at → LateDates ct at s f
  unfolding constrain_late place_late
  spans-LateDates snlt (some c) e =
      let (before, _) = late_free-Ahead snlt (some c) (ground arith) e in ground arith
  spans-LateDates fnlt (some c) e =
      let (_, until) = late_free-Ahead fnlt (some c) (ground arith) e in ground arith
  spans-LateDates mso (some c) e =
      place_late-Pinned a a.assignment_envelope d start.at finish.at snap on_start c s f e
  spans-LateDates mfo (some c) e =
      place_late-Pinned a a.assignment_envelope d start.at finish.at snap on_finish c s f e
  spans-LateDates _ _ e = tt

-- What the late row of an activity owes to its reported dates.
abbrev pub KeepsActuals : PlannedActivity → ActivityLateTimes → ProgressState → Type 0
KeepsActuals a row not_started = row.remaining_start ≡ none
KeepsActuals a row in_progress =
    (a.actual_start ≡ some row.late_start) × ((s : ℕ) × (row.remaining_start ≡ some s))
KeepsActuals a row complete =
    (a.actual_start ≡ some row.late_start)
    × (a.actual_finish ≡ some row.late_finish)
    × (row.remaining_start ≡ none)

state-KeepsActuals :
    (c : LateContext) (before : List ActivityLateTimes) (a : PlannedActivity) (st : ProgressState)
    {row : ActivityLateTimes}
    → place_late_state c before a st ≡ ok row
    → KeepsActuals a row st
unfolding place_late_state
state-KeepsActuals c before a not_started e =
    let (_, _, _, _, last) = open-inv c before a not_started e in
    ap (λ (r : ActivityLateTimes). r.remaining_start) (sym (ok-inj last))
state-KeepsActuals c before a in_progress e =
    let (_, span, _, _, last) = open-inv c before a in_progress e in
    let (began, started, same) = late_row-under_way a span _ last in
    (
      started ∙ ap (λ (r : ActivityLateTimes). some r.late_start) same,
      (span.0, ap (λ (r : ActivityLateTimes). r.remaining_start) (sym same)),
    )
state-KeepsActuals c before a complete e =
    let (s, f, started, ended, same) = late_complete-inv c before a e in
    (
      started ∙ ap (λ (r : ActivityLateTimes). some r.late_start) same,
      ended ∙ ap (λ (r : ActivityLateTimes). some r.late_finish) same,
      ap (λ (r : ActivityLateTimes). r.remaining_start) (sym same),
    )

module _ (fingerprint : Network → ℕ) (network : Network) (q : LateRequest) {pass : BackwardPass}
    (snap : Bool) (policy : ProgressPolicy) (a : PlannedActivity) (row : ActivityLateTimes) where
  -- In a backward pass that is returned for a forward pass of the network, the late row of a complete
  -- activity holds its actual dates, that of one under way its actual start beside the start of its
  -- remaining work, and one that has not started has no remaining start.
  pub backward_pass-KeepsActuals :
      forward_pass network snap policy ≡ ok q.forward
      → backward_pass fingerprint network q ≡ ok pass
      → activity_by_uid network a.uid ≡ some a
      → late_at pass.times a.uid ≡ some row
      → KeepsActuals a row (state_of a)
  backward_pass-KeepsActuals forwards e found at =
      let distinct = (forward_pass-IsPassOf network snap policy forwards).ordered.distinct in
      let round = placing_at fingerprint network q a row distinct e found at in
      state-KeepsActuals (context_of network q pass.overridden_relationships) round.before a
        (state_of a) round.placed

  -- In a backward pass that is returned for a forward pass of the network, the late row of an activity
  -- that has not started keeps its constraint's date: SNLT and FNLT from above, MSO and MFO exactly.
  -- The calendars are built by `CompiledIntervals.of`.
  pub backward_pass-LateDates :
      AreCompiled network
      → forward_pass network snap policy ≡ ok q.forward
      → backward_pass fingerprint network q ≡ ok pass
      → activity_by_uid network a.uid ≡ some a
      → late_at pass.times a.uid ≡ some row
      → state_of a ≡ not_started
      → LateDates a.constraint_type a.constraint_coordinate row.late_start row.late_finish
  unfolding activity_by_uid place_late_state
  backward_pass-LateDates compiled forwards e found at fresh =
      let distinct = (forward_pass-IsPassOf network snap policy forwards).ordered.distinct in
      let round = placing_at fingerprint network q a row distinct e found at in
      let c = context_of network q pass.overridden_relationships in
      let (cal, _) =
        All-find _ (λ (b : PlannedActivity). b.uid) a.uid network.activities a compiled.activities
          found in
      let e' : place_late_open c round.before a not_started ≡ ok row =
        subst (λ st. place_late_state c round.before a st ≡ ok row) fresh round.placed in
      let (b, (s, f), bounded, placed, last) = open-inv c round.before a not_started e' in
      subst
        (λ (r : ActivityLateTimes).
          LateDates a.constraint_type a.constraint_coordinate r.late_start r.late_finish)
        (ok-inj last)
        (spans-LateDates a (remaining a) c.snap cal b.0 b.1 s f a.constraint_type
          a.constraint_coordinate placed)
