-- ===== src/Engine/Forward/Honours.antt =====
-- `forward_pass` of sto/core/engine/forward.py honours the logic of the network.
use sto_scheduler_tracker_re.Prelude.{
  ℕ, ◌≤◌, ◌≡◌, ◌≢◌, refl, sym, ◌∙◌, ap, subst, List, ◌++◌, Bool, true, false, arith, Option, some,
  none, inl, inr, default, All, All-find, ◌==◌, ◌&&◌, not, is_some,
}
use sto_scheduler_tracker_re.Engine.Outcome.{ok}
use sto_scheduler_tracker_re.Engine.Model.{
  PlannedActivity, Network, activity_by_uid, predecessors, remaining,
}
use sto_scheduler_tracker_re.Engine.Progress.{
  ProgressPolicy, progress_override, not_started, in_progress, state_of, relationship_binds,
}
use sto_scheduler_tracker_re.Engine.Placement.{place}
use sto_scheduler_tracker_re.Engine.Place.{ActivityTimes, placed_at, Limits, bounds, calendar_floor}
use sto_scheduler_tracker_re.Engine.Reporting.{Placed, start_floor, finish_floor}
use sto_scheduler_tracker_re.Engine.Untouched.{constrain, place_untouched}
use sto_scheduler_tracker_re.Engine.Forward.{
  ForwardPass, pass_of, place_by_state, place_activity, forward_pass, no_edges, Loop, no_rows,
}
use sto_scheduler_tracker_re.Engine.Forward.Bounds.{bounds_land, is_hard, constrain_raises}
use sto_scheduler_tracker_re.Engine.Forward.Spans.{HasCalendars}
use sto_scheduler_tracker_re.Engine.Forward.Placing.{place-Behind}
use sto_scheduler_tracker_re.Engine.Forward.Steps.{constrained-inv, in_progress-inv}
use sto_scheduler_tracker_re.Engine.Forward.Rounds.{
  Round, Noted, activity-inv, all-Round, binding, base,
}
use sto_scheduler_tracker_re.Engine.Forward.Logic.{Honours, Lands-Honours, forward-inv}

pub binds_untouched :
    (policy : ProgressPolicy) (status_time : Option ℕ)
    → relationship_binds policy not_started status_time ≡ true
unfolding relationship_binds
binds_untouched policy status_time = ground arith

pub binds_under_way :
    (policy : ProgressPolicy) (status_time : Option ℕ)
    → policy ≢ progress_override
    → relationship_binds policy in_progress status_time ≡ true
unfolding relationship_binds
binds_under_way progress_override status_time h = absurd (h refl)
binds_under_way _ status_time h = ground arith

module _ (network : Network) (snap : Bool) (policy : ProgressPolicy) (a : PlannedActivity)
    (l : Limits) (floor : ℕ) (bound : Bool) {p : Placed} (calendars : HasCalendars a) where
  -- A row that has not started, and that no hard date pins, lies at or behind its bounds.
  pub untouched-Behind :
      place_by_state a not_started l floor bound network snap policy ≡ ok p
      → is_hard a.constraint_type ≡ false
      → (l.start_bound ≤ p.row.early_start) × (l.finish_bound ≤ p.row.early_finish)
  unfolding place_untouched
  untouched-Behind e soft =
      let fallback =
        bound && not (is_some l.start_driver) && l.start_bound == network.project_start in
      let c = constrain a.constraint_type a.constraint_coordinate l fallback in
      let (s, f, _, spanned, same) = constrained-inv network snap policy a l c floor e in
      let (free, raised_start, raised_finish) =
        constrain_raises a.constraint_type a.constraint_coordinate l fallback soft in
      let unpinned =
        subst
          (λ pin.
            place a (remaining a) c.limits.start_bound c.limits.finish_bound network.horizon snap
              pin a.constraint_coordinate
            ≡ ok (s, f))
          free spanned in
      let (after, until) =
        place-Behind a (remaining a) c.limits.start_bound c.limits.finish_bound network.horizon snap
          a.constraint_coordinate s f calendars unpinned in
      let starts : s ≡ p.row.early_start = ap (λ (p : Placed). p.row.early_start) same in
      let ends : f ≡ p.row.early_finish = ap (λ (p : Placed). p.row.early_finish) same in
      (omega arith, omega arith)

  -- The remaining work of a row under way lies at or behind its floors.
  pub under_way-Behind :
      place_by_state a in_progress l floor bound network snap policy ≡ ok p
      → (began rs : ℕ) × (a.actual_start ≡ some began)
        × (p.row.early_start ≡ began)
        × (p.row.remaining_start ≡ some rs)
        × (start_floor l network policy began ≤ rs)
        × (finish_floor l network policy began ≤ p.row.early_finish)
  under_way-Behind e =
      let (began, s, f, started, spanned, same) = in_progress-inv network snap policy a l e in
      let (after, until) =
        place-Behind a (remaining a) (start_floor l network policy began)
          (finish_floor l network policy began) network.horizon snap none s f calendars spanned in
      (
        began,
        s,
        started,
        ap (λ (p : Placed). p.row.early_start) (sym same),
        ap (λ (p : Placed). p.row.remaining_start) (sym same),
        after,
        subst (λ (p : Placed). finish_floor l network policy began ≤ p.row.early_finish) same until,
      )

module _ (network : Network) (snap : Bool) (policy : ProgressPolicy) {pass : ForwardPass} where
  -- Each row of a pass was placed by a round.
  pub pass-Round :
      (u : ℕ) (row : ActivityTimes)
      → forward_pass network snap policy ≡ ok pass
      → placed_at pass.times u ≡ some row
      → (loop : Loop) × (loop.placed ≡ pass.times)
        × (loop.violations ≡ pass.constraint_violations)
        × Round network snap policy loop u row
  unfolding placed_at pass_of
  pass-Round u row e at =
      let (_, order, loop, _, placing, same) = forward-inv network snap policy e in
      let times : loop.placed ≡ pass.times = ap (λ (p : ForwardPass). p.times) same in
      elim (all-Round network snap policy order no_rows u row placing
        (subst (λ ts. placed_at ts u ≡ some row) (sym times) at)) [
          | inl before ↦ ground arith
          | inr round ↦ (loop, times, ap (λ (p : ForwardPass). p.constraint_violations) same, round)
        ]

  -- What the round of a known activity was.
  pub pass-at :
      (a : PlannedActivity) (row : ActivityTimes)
      → forward_pass network snap policy ≡ ok pass
      → activity_by_uid network a.uid ≡ some a
      → placed_at pass.times a.uid ≡ some row
      → (before rest : List ActivityTimes) × (l : Limits) × (p : Placed) × (bounds a
            (binding network snap policy a)
            before
            (base network snap policy a)
            (default network.project_start (base network snap policy a))
          ≡ ok l)
        × (place_by_state a
              (state_of a)
              l
              (default (calendar_floor a) (base network snap policy a))
              (not (no_edges (binding network snap policy a)))
              network
              snap
              policy
            ≡ ok p)
        × (p.row ≡ row)
        × (before ++ rest ≡ pass.times)
        × Noted p.violations pass.constraint_violations
  pass-at a row e found at =
      let (loop, times, violations, r) = pass-Round a.uid row e at in
      let same : r.activity ≡ a = ground (arith, r.found) in
      let (l, bounded, placed) =
        activity-inv network snap policy r.before a
          (subst (λ b. place_activity network snap policy r.before b ≡ ok r.round) same r.placed) in
      (
        r.before,
        r.rest,
        l,
        r.round,
        bounded,
        placed,
        r.rowed,
        r.standing ∙ times,
        subst (λ vs. Noted r.round.violations vs) violations r.noted,
      )

  -- In a pass that is returned, an activity that has not started, and that no hard date pins, honours
  -- each relationship of which it is the successor: its predecessor has a row, the lag carries that
  -- row's date to a coordinate, and the early start (of FS and SS) or the early finish (of FF and SF)
  -- does not lie before it. The calendars are built by `CompiledIntervals.of`.
  pub forward_pass-Honours :
      (a : PlannedActivity) (row : ActivityTimes)
      → All HasCalendars network.activities
      → forward_pass network snap policy ≡ ok pass
      → activity_by_uid network a.uid ≡ some a
      → placed_at pass.times a.uid ≡ some row
      → state_of a ≡ not_started
      → is_hard a.constraint_type ≡ false
      → All (Honours pass.times a row.early_start row.early_finish) (predecessors network a.uid)
  unfolding activity_by_uid
  forward_pass-Honours a row calendars e found at untouched soft =
      let (before, rest, l, p, bounded, placed, rowed, standing, _) = pass-at a row e found at in
      let floor = default (calendar_floor a) (base network snap policy a) in
      let bound = not (no_edges (binding network snap policy a)) in
      let (after, until) =
        untouched-Behind network snap policy a l floor bound
          (All-find HasCalendars (λ b. b.uid) a.uid network.activities a calendars found)
          (subst (λ st. place_by_state a st l floor bound network snap policy ≡ ok p) untouched
            placed)
          soft in
      let binds : binding network snap policy a ≡ predecessors network a.uid =
        rw (untouched, binds_untouched policy network.status_time) refl in
      let lands =
        bounds_land a before (binding network snap policy a) (base network snap policy a)
          (default network.project_start (base network snap policy a)) l bounded in
      subst
        (λ (row : ActivityTimes).
          All (Honours pass.times a row.early_start row.early_finish) (predecessors network a.uid))
        rowed
        (subst
          (λ ts.
            All (Honours ts a p.row.early_start p.row.early_finish) (predecessors network a.uid))
          standing
          (subst
            (λ rows. All (Honours (before ++ rest) a p.row.early_start p.row.early_finish) rows)
            binds
            (Lands-Honours a before rest l p.row.early_start p.row.early_finish
              (binding network snap policy a) after until lands)))
