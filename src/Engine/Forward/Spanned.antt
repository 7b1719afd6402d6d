-- ===== src/Engine/Forward/Spanned.antt =====
-- The early dates of sto/core/engine/forward.py as a span on the activity's calendar.
use sto_scheduler_tracker_re.Prelude.{
  ℕ, zero, suc, ◌≡◌, refl, sym, ◌∙◌, subst, Bool, true, false, arith, some, none, max, Option-cases,
  inl, inr, ℤ, pos, negsuc,
}
use sto_scheduler_tracker_re.Calendar.Intervals.{Intervals, Working}
use sto_scheduler_tracker_re.Calendar.Reference.{consume_duration}
use sto_scheduler_tracker_re.Calendar.Compiled.{of, normalise, next_working}
use sto_scheduler_tracker_re.Calendar.Next.{next_working-compiled}
use sto_scheduler_tracker_re.Calendar.Order.{next_at-some}
use sto_scheduler_tracker_re.Calendar.Normalise.{normalise-IsOrdered}
use sto_scheduler_tracker_re.Calendar.Spans.{earliest_span}
use sto_scheduler_tracker_re.Calendar.Earliest.{IsEarliest}
use sto_scheduler_tracker_re.Calendar.Earliest.Answer.{earliest_span-IsEarliest}
use sto_scheduler_tracker_re.Engine.Outcome.{ok, present-eq-ok}
use sto_scheduler_tracker_re.Engine.Model.{PlannedActivity, Network, activity_by_uid, remaining}
use sto_scheduler_tracker_re.Engine.Progress.{ProgressPolicy, not_started, state_of}
use sto_scheduler_tracker_re.Engine.Place.{ActivityTimes, placed_at}
use sto_scheduler_tracker_re.Engine.Placement.{place, place_free, snapped}
use sto_scheduler_tracker_re.Engine.Untouched.{constrain}
use sto_scheduler_tracker_re.Engine.Forward.{ForwardPass, forward_pass}
use sto_scheduler_tracker_re.Engine.Forward.Bounds.{is_hard, constrain_raises}
use sto_scheduler_tracker_re.Engine.Forward.Unstarted.{IsUnstarted-at, free-span}

-- The span holds the duration on the calendar. One without duration is a moment, and a working one
-- where milestones snap.
abbrev pub IsSpanOf : Intervals → Bool → ℤ → (start finish : ℕ) → Type 0
IsSpanOf raw snap (pos zero) start finish =
    (start ≡ finish) × (snap ≡ true → Working start (normalise raw))
IsSpanOf raw snap (pos (suc d)) start finish =
    consume_duration start (pos (suc d)) (normalise raw) ≡ some finish
IsSpanOf raw snap (negsuc d) start finish = ⊥

earliest_span-consumes :
    (raw : Intervals) (sb fb d h : ℕ) (s f : ℕ)
    → earliest_span (of raw) sb fb (pos d) h ≡ some (s, f)
    → consume_duration s (pos d) (normalise raw) ≡ some f
earliest_span-consumes raw sb fb d h s f e =
    let least : IsEarliest (normalise raw) sb fb d h (some (s, f)) =
      subst (IsEarliest (normalise raw) sb fb d h) e (earliest_span-IsEarliest raw sb fb d h) in
    least.0.0

snapped-Working :
    (raw : Intervals) (moment m : ℕ)
    → next_working (of raw) moment ≡ some m
    → Working m (normalise raw)
unfolding of
snapped-Working raw moment m e =
    (next_at-some (normalise raw) 0 moment m (normalise-IsOrdered raw)
      (sym (next_working-compiled (normalise raw) 0 moment (normalise-IsOrdered raw)) ∙ e)).1

free-IsSpanOf :
    (a : PlannedActivity) (raw : Intervals) (d : ℤ) (sb fb h : ℕ) (snap : Bool) (s f : ℕ)
    → of raw ≡ a.calendar
    → place_free a d sb fb h snap ≡ ok (s, f)
    → IsSpanOf raw snap d s f
unfolding place_free
free-IsSpanOf a raw (pos zero) sb fb h snap s f cal e =
    elim (Option-cases (snapped snap a.calendar (max sb fb))) [
      | inl missing ↦ ground arith
      | inr (m, found) ↦
          let same : (m ≡ s) × (m ≡ f) = ground arith in
          (
            sym same.0 ∙ same.1,
            λ on.
                let at : next_working (of raw) (max sb fb) ≡ some m =
                  subst (λ k. next_working k (max sb fb) ≡ some m) (sym cal)
                    (subst (λ b. snapped b a.calendar (max sb fb) ≡ some m) on found) in
                subst (λ z. Working z (normalise raw)) same.0
                  (snapped-Working raw (max sb fb) m at),
          )
    ]
free-IsSpanOf a raw (pos (suc d)) sb fb h snap s f cal e =
    earliest_span-consumes raw sb fb (suc d) h s f (
      subst (λ k. earliest_span k sb fb (pos (suc d)) h ≡ some (s, f)) (sym cal)
        (present-eq-ok (earliest_span a.calendar sb fb (pos (suc d)) h) _ _ e))
free-IsSpanOf a raw (negsuc d) sb fb h snap s f cal e =
    let found = present-eq-ok (earliest_span a.calendar sb fb (negsuc d) h) _ _ e in
    unfold earliest_span in cc

module _ (network : Network) (snap : Bool) (policy : ProgressPolicy) {pass : ForwardPass}
    (a : PlannedActivity) (row : ActivityTimes) (raw : Intervals) where
  -- In a pass that is returned, the early dates of an activity that has not started, with no hard
  -- date and no envelope, are a span of its remaining duration on its calendar.
  pub forward_pass-IsSpanOf :
      of raw ≡ a.calendar
      → a.assignment_envelope ≡ none
      → is_hard a.constraint_type ≡ false
      → forward_pass network snap policy ≡ ok pass
      → activity_by_uid network a.uid ≡ some a
      → placed_at pass.times a.uid ≡ some row
      → state_of a ≡ not_started
      → IsSpanOf raw snap (remaining a) row.early_start row.early_finish
  unfolding place
  forward_pass-IsSpanOf cal whole soft e found at fresh =
      let u = IsUnstarted-at network snap policy a row e found at fresh in
      let c = constrain a.constraint_type a.constraint_coordinate u.limits u.fallback in
      let (free, _, _) =
        constrain_raises a.constraint_type a.constraint_coordinate u.limits u.fallback soft in
      free-IsSpanOf a raw (remaining a) c.limits.start_bound c.limits.finish_bound network.horizon
        snap row.early_start row.early_finish cal
        (free-span network snap policy a row u c.limits whole refl free)
