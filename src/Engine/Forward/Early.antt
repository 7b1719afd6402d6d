-- ===== src/Engine/Forward/Early.antt =====
-- The early dates of sto/core/engine/forward.py are the earliest that the logic of the network allows.
use sto_scheduler_tracker_re.Prelude.{
  ℕ, suc, ◌≤◌, ◌≡◌, refl, sym, subst, List, [], ◌∷◌, Bool, true, false, arith, All, Option, some,
  none, default, inl, inr, le_or_gt, pos,
}
use sto_scheduler_tracker_re.Calendar.Intervals.{Intervals, IsOrdered, Working, work_mono}
use sto_scheduler_tracker_re.Calendar.Reference.{consume_duration}
use sto_scheduler_tracker_re.Calendar.Compiled.{compiled, of, normalise, first}
use sto_scheduler_tracker_re.Calendar.Spans.{earliest_span}
use sto_scheduler_tracker_re.Calendar.Order.{Working-ge}
use sto_scheduler_tracker_re.Calendar.Normalise.{normalise-IsOrdered}
use sto_scheduler_tracker_re.Calendar.Earliest.{IsEarliest, FitsAfter, consume-IsSpan}
use sto_scheduler_tracker_re.Calendar.Earliest.Answer.{earliest_span-IsEarliest}
use sto_scheduler_tracker_re.Engine.Outcome.{ok, present-eq-ok}
use sto_scheduler_tracker_re.Engine.Model.{
  ConstraintType, asap, alap, snlt, fnlt, PlannedActivity, PlannedRelationship, Network,
  activity_by_uid, predecessors, remaining,
}
use sto_scheduler_tracker_re.Engine.Progress.{ProgressPolicy, not_started, state_of}
use sto_scheduler_tracker_re.Engine.Place.{ActivityTimes, placed_at, Limits, calendar_floor}
use sto_scheduler_tracker_re.Engine.Placement.{place_free}
use sto_scheduler_tracker_re.Engine.Untouched.{constrain}
use sto_scheduler_tracker_re.Engine.Forward.{ForwardPass, forward_pass, base_of}
use sto_scheduler_tracker_re.Engine.Forward.Logic.{Honours}
use sto_scheduler_tracker_re.Engine.Forward.Unstarted.{IsUnstarted-at, free-span}
use sto_scheduler_tracker_re.Engine.Forward.Least.{bounds_start, bounds-Least, AtMost}

floor-first :
    (xs : Intervals) (low p : ℕ)
    → IsOrdered low xs
    → Working p xs
    → default 0 (first (compiled xs)) ≤ p
unfolding first
floor-first [] low p o w = omega arith
floor-first ((s, f) ∷ xs) low p o w = Working-ge ((s, f) ∷ xs) s p (omega arith, o.1, o.2) w

-- A span that the reference allows begins behind the calendar's floor and ends after it begins.
pub span-lies :
    (raw : Intervals) (d s f : ℕ)
    → consume_duration s (pos (suc d)) (normalise raw) ≡ some f
    → (default 0 (first (of raw)) ≤ s) × (s ≤ f)
unfolding of
span-lies raw d s f e =
    let xs = normalise raw in
    let o = normalise-IsOrdered raw in
    let span = consume-IsSpan xs 0 d s f o e in
    (
      floor-first xs 0 s o span.starts,
      elim (le_or_gt s f) [
        | inl fine ↦ fine
        | inr back ↦ absurd (omega (arith, span.works, work_mono xs f s (omega arith)))
      ],
    )

-- The placement of a row that nothing pins and no envelope holds is the earliest span in its bounds.
place-Earliest :
    (a : PlannedActivity) (raw : Intervals) (d sb fb h : ℕ) (snap : Bool) (s f : ℕ)
    → of raw ≡ a.calendar
    → place_free a (pos (suc d)) sb fb h snap ≡ ok (s, f)
    → (s' f' : ℕ) → FitsAfter (normalise raw) sb fb (suc d) h s' f'
    → (s ≤ s') × (f ≤ f')
unfolding place_free
place-Earliest a raw d sb fb h snap s f cal e s' f' fits =
    let found = present-eq-ok (earliest_span a.calendar sb fb (pos (suc d)) h) _ _ e in
    let here : earliest_span (of raw) sb fb (pos (suc d)) h ≡ some (s, f) =
      subst (λ c. earliest_span c sb fb (pos (suc d)) h ≡ some (s, f)) (sym cal) found in
    let least : IsEarliest (normalise raw) sb fb (suc d) h (some (s, f)) =
      subst (IsEarliest (normalise raw) sb fb (suc d) h) here
        (earliest_span-IsEarliest raw sb fb (suc d) h) in
    least.1 s' f' fits

-- The constraint types that ask nothing of a forward pass.
abbrev pub is_free : ConstraintType → Bool
is_free asap = true
is_free alap = true
is_free snlt = true
is_free fnlt = true
is_free _ = false

constrain-free :
    (ct : ConstraintType) (at : Option ℕ) (l : Limits) (fallback : Bool)
    → is_free ct ≡ true
    → ((constrain ct at l fallback).limits ≡ l) × ((constrain ct at l fallback).pinned ≡ none)
unfolding constrain
constrain-free ct at l fallback h = (ground arith, ground arith)

-- Dates that the network would allow the activity: a span of its duration on its calendar that honours
-- each relationship into it and ends by the horizon, and that no project start forbids.
pub record IsAllowed (network : Network) (times : List ActivityTimes) (a : PlannedActivity)
    (raw : Intervals) (d start finish : ℕ) : Type 0 where
  pub spans : consume_duration start (pos d) (normalise raw) ≡ some finish
  pub honours : All (Honours times a start finish) (predecessors network a.uid)
  pub opened : bounds_start (predecessors network a.uid) ≡ false → network.project_start ≤ start
  pub within : finish ≤ network.horizon

base-AtMost :
    (network : Network) (a : PlannedActivity) (incoming : List PlannedRelationship) (k : ℕ)
    → (bounds_start incoming ≡ false → network.project_start ≤ k)
    → AtMost k (base_of a not_started incoming network)
base-AtMost network a [] k h = h refl
base-AtMost network a (r ∷ rows) k h = tt

module _ (network : Network) (snap : Bool) (policy : ProgressPolicy) {pass : ForwardPass}
    (a : PlannedActivity) (row : ActivityTimes) (raw : Intervals) (d : ℕ) where
  -- In a pass that is returned, the early dates of an activity that has not started, on a calendar
  -- built by `CompiledIntervals.of`, with a positive duration, no envelope, and a constraint type that
  -- this pass does not apply, are the earliest that `IsAllowed` admits: no allowed dates start or
  -- finish before them.
  pub forward_pass-Least :
      of raw ≡ a.calendar
      → a.assignment_envelope ≡ none
      → is_free a.constraint_type ≡ true
      → remaining a ≡ pos (suc d)
      → forward_pass network snap policy ≡ ok pass
      → activity_by_uid network a.uid ≡ some a
      → placed_at pass.times a.uid ≡ some row
      → state_of a ≡ not_started
      → (start finish : ℕ) → IsAllowed network pass.times a raw (suc d) start finish
      → (row.early_start ≤ start) × (row.early_finish ≤ finish)
  unfolding calendar_floor
  forward_pass-Least cal whole free works e found at fresh start finish allowed =
      let u = IsUnstarted-at network snap policy a row e found at fresh in
      let incoming = predecessors network a.uid in
      let (limits, unpinned) =
        constrain-free a.constraint_type a.constraint_coordinate u.limits u.fallback free in
      let spanned : place_free a (pos (suc d)) u.limits.start_bound u.limits.finish_bound
            network.horizon snap
          ≡ ok (row.early_start, row.early_finish) =
        subst
          (λ k.
            place_free a k u.limits.start_bound u.limits.finish_bound network.horizon snap
            ≡ ok (row.early_start, row.early_finish))
          works (free-span network snap policy a row u u.limits whole limits unpinned) in
      let (floored, ordered) = span-lies raw d start finish allowed.spans in
      let low : calendar_floor a ≤ start = subst (λ k. default 0 (first k) ≤ start) cal floored in
      let (le_start, le_finish) =
        bounds-Least a u.before u.rest start finish incoming
          (base_of a not_started incoming network) network.project_start u.limits
          (subst (λ ts. All (Honours ts a start finish) incoming) (sym u.standing) allowed.honours)
          u.bounded (base-AtMost network a incoming start allowed.opened)
          (base-AtMost network a incoming finish (λ h. omega (arith, allowed.opened h)))
          allowed.opened low (omega arith) in
      place-Earliest a raw d u.limits.start_bound u.limits.finish_bound network.horizon snap
        row.early_start row.early_finish cal spanned start finish
        (allowed.spans, le_start, le_finish, allowed.within)
