-- ===== src/Engine/Forward/Unstarted.antt =====
-- What the loop of `forward_pass` in sto/core/engine/forward.py makes of an activity that has not
-- started: its bounds, its constraint and its span.
use sto_scheduler_tracker_re.Prelude.{
  ◌≡◌, refl, sym, ◌∙◌, ap, subst, List, [], ◌∷◌, ◌++◌, Bool, some, none, default, not, is_some,
  ◌==◌, ◌&&◌,
}
use sto_scheduler_tracker_re.Engine.Outcome.{ok}
use sto_scheduler_tracker_re.Engine.Model.{
  PlannedActivity, PlannedRelationship, Network, activity_by_uid, predecessors, remaining,
}
use sto_scheduler_tracker_re.Engine.Progress.{ProgressPolicy, not_started, state_of}
use sto_scheduler_tracker_re.Engine.Place.{ActivityTimes, placed_at, Limits, bounds, calendar_floor}
use sto_scheduler_tracker_re.Engine.Placement.{place, place_row, place_free}
use sto_scheduler_tracker_re.Engine.Reporting.{Placed}
use sto_scheduler_tracker_re.Engine.Untouched.{constrain, violation, held_by, place_untouched}
use sto_scheduler_tracker_re.Engine.Forward.{
  ForwardPass, place_by_state, forward_pass, no_edges, base_of,
}
use sto_scheduler_tracker_re.Engine.Forward.Steps.{constrained-inv}
use sto_scheduler_tracker_re.Engine.Forward.Rounds.{Noted, binding, base}
use sto_scheduler_tracker_re.Engine.Forward.Honours.{binds_untouched, pass-at}

-- The round of the activity, in terms of the pass.
pub record IsUnstarted (network : Network) (snap : Bool) (pass : ForwardPass) (a : PlannedActivity)
    (row : ActivityTimes) : Type 0 where
  pub before : List ActivityTimes
  pub rest : List ActivityTimes
  pub limits : Limits
  pub fallback : Bool
  pub standing : before ++ rest ≡ pass.times
  pub bounded :
      bounds a
        (predecessors network a.uid)
        before
        (base_of a not_started (predecessors network a.uid) network)
        network.project_start
      ≡ ok limits
  pub spanned :
      (let c = constrain a.constraint_type a.constraint_coordinate limits fallback in
        place a
          (remaining a)
          c.limits.start_bound
          c.limits.finish_bound
          network.horizon
          snap
          c.pinned
          a.constraint_coordinate)
      ≡ ok (row.early_start, row.early_finish)
  pub recorded :
      Noted
        (violation a limits
          (row.early_start, row.early_finish)
          (constrain a.constraint_type a.constraint_coordinate limits fallback).pinned
          a.constraint_coordinate)
        pass.constraint_violations
  pub driven :
      (held_by a
        (constrain a.constraint_type a.constraint_coordinate limits fallback)
        (default (calendar_floor a) (base_of a not_started (predecessors network a.uid) network))
        network
        snap).0
      ≡ row.driving_relationship_uid

base-start :
    (network : Network) (a : PlannedActivity) (incoming : List PlannedRelationship)
    → default network.project_start (base_of a not_started incoming network) ≡ network.project_start
base-start network a [] = refl
base-start network a (r ∷ rows) = refl

module _ (network : Network) (snap : Bool) (policy : ProgressPolicy) {pass : ForwardPass}
    (a : PlannedActivity) (row : ActivityTimes) where
  pub IsUnstarted-at :
      forward_pass network snap policy ≡ ok pass
      → activity_by_uid network a.uid ≡ some a
      → placed_at pass.times a.uid ≡ some row
      → state_of a ≡ not_started
      → IsUnstarted network snap pass a row
  unfolding place_untouched
  IsUnstarted-at e found at fresh =
      let (before, rest, l, p, bounded, placed, rowed, standing, noted) =
        pass-at network snap policy a row e found at in
      let incoming = predecessors network a.uid in
      let floor = default (calendar_floor a) (base network snap policy a) in
      let bound = not (no_edges (binding network snap policy a)) in
      let fallback =
        bound && not (is_some l.start_driver) && l.start_bound == network.project_start in
      let c = constrain a.constraint_type a.constraint_coordinate l fallback in
      let (s, f, _, spanned, same) =
        constrained-inv network snap policy a l c floor (
          subst (λ st. place_by_state a st l floor bound network snap policy ≡ ok p) fresh
            placed) in
      let binds : binding network snap policy a ≡ incoming =
        rw (fresh, binds_untouched policy network.status_time) refl in
      let based : base network snap policy a ≡ base_of a not_started incoming network =
        ap (λ st. base_of a st incoming network) fresh in
      let kept : Noted (violation a l (s, f) c.pinned a.constraint_coordinate)
          pass.constraint_violations =
        subst (λ (p : Placed). Noted p.violations pass.constraint_violations) (sym same) noted in
      subst (IsUnstarted network snap pass a) (ap (λ (p : Placed). p.row) same ∙ rowed) (record {
        before = before;
        rest = rest;
        limits = l;
        fallback = fallback;
        standing = standing;
        bounded =
            subst (λ u. bounds a incoming before (base_of a not_started incoming network) u ≡ ok l)
              (base-start network a incoming)
              (subst (λ b. bounds a incoming before b (default network.project_start b) ≡ ok l)
                based
                (subst
                  (λ rows.
                    bounds a rows before (base network snap policy a)
                      (default network.project_start (base network snap policy a))
                    ≡ ok l)
                  binds bounded));
        spanned = spanned;
        recorded = kept;
        driven = ap (λ b. (held_by a c (default (calendar_floor a) b) network snap).0) (sym based);
      })

  -- The span of a row that nothing pins and no envelope holds, where its constraint makes of the
  -- bounds what `m` says.
  pub free-span :
      (un : IsUnstarted network snap pass a row) (m : Limits)
      → a.assignment_envelope ≡ none
      → (constrain a.constraint_type a.constraint_coordinate un.limits un.fallback).limits ≡ m
      → (constrain a.constraint_type a.constraint_coordinate un.limits un.fallback).pinned ≡ none
      → place_free a (remaining a) m.start_bound m.finish_bound network.horizon snap
        ≡ ok (row.early_start, row.early_finish)
  unfolding place
  free-span un m whole same unpinned =
      subst
        (λ (k : Limits).
          place_free a (remaining a) k.start_bound k.finish_bound network.horizon snap
          ≡ ok (row.early_start, row.early_finish))
        same
        (subst
          (λ pin.
            place_row a none (remaining a)
              (constrain a.constraint_type a.constraint_coordinate un.limits
                un.fallback).limits.start_bound
              (constrain a.constraint_type a.constraint_coordinate un.limits
                un.fallback).limits.finish_bound
              network.horizon snap pin a.constraint_coordinate
            ≡ ok (row.early_start, row.early_finish))
          unpinned
          (subst
            (λ env.
              place_row a env (remaining a)
                (constrain a.constraint_type a.constraint_coordinate un.limits
                  un.fallback).limits.start_bound
                (constrain a.constraint_type a.constraint_coordinate un.limits
                  un.fallback).limits.finish_bound
                network.horizon snap
                (constrain a.constraint_type a.constraint_coordinate un.limits un.fallback).pinned
                a.constraint_coordinate
              ≡ ok (row.early_start, row.early_finish))
            whole un.spanned))
