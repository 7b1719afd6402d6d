-- ===== src/Engine/Forward/Logic.antt =====
-- What `forward_pass` of sto/core/engine/forward.py promises on the relationships of a network.
use sto_scheduler_tracker_re.Prelude.{
  ℕ, ◌≤◌, ◌≡◌, List, [], ◌∷◌, ◌++◌, Bool, arith, some, inl, inr, All, if◌then◌else◌, Bool-cases,
}
use sto_scheduler_tracker_re.Engine.Outcome.{
  Result, ok, ◌>>=◌, ◌>>◌, present, present-eq-ok, >>=-eq-ok, ok-inj, key_error, lag_unreachable,
}
use sto_scheduler_tracker_re.Engine.Model.{
  PlannedActivity, PlannedRelationship, Network, bounds_successor_start, is_progressed,
  anchors_predecessor_finish,
}
use sto_scheduler_tracker_re.Engine.Lag.{lag_calendar_for, shift_lag}
use sto_scheduler_tracker_re.Engine.Progress.{ProgressPolicy, require_supported}
use sto_scheduler_tracker_re.Engine.Validate.{validate}
use sto_scheduler_tracker_re.Engine.Topology.{topological_order}
use sto_scheduler_tracker_re.Engine.Place.{ActivityTimes, placed_at, Limits, landing}
use sto_scheduler_tracker_re.Engine.Forward.{
  ForwardPass, Loop, place_all, no_rows, pass_of, forward_pass,
}
use sto_scheduler_tracker_re.Engine.Forward.Bounds.{Lands, limit}
use sto_scheduler_tracker_re.Engine.Forward.Steps.{placed_at-keeps}

-- The order and the rows of the pass come from `topological_order` and from the loop.
pub forward-inv :
    (network : Network) (snap : Bool) (policy : ProgressPolicy) {pass : ForwardPass}
    → forward_pass network snap policy ≡ ok pass
    → (validate network ≡ ok tt)
      × (order : List ℕ) × (loop : Loop) × (topological_order network ≡ ok order)
      × (place_all network snap policy order no_rows ≡ ok loop)
      × (pass_of network snap policy order loop ≡ pass)
unfolding forward_pass
forward-inv network snap policy e =
    let looped : List ℕ → Result ForwardPass = λ order.
      place_all network snap policy order no_rows >>= λ loop.
      ok (pass_of network snap policy order loop) in
    let (_, valid, later) =
      >>=-eq-ok (validate network)
        (λ _.
          require_supported policy (is_progressed network)
          >> (topological_order network >>= looped))
        e in
    let (_, _, ordering) =
      >>=-eq-ok (require_supported policy (is_progressed network))
        (λ _. topological_order network >>= looped) later in
    let (order, ordered, placing) = >>=-eq-ok (topological_order network) looped ordering in
    let (loop, placed, same) =
      >>=-eq-ok (place_all network snap policy order no_rows)
        (λ loop. ok (pass_of network snap policy order loop)) placing in
    (valid, order, loop, ordered, placed, ok-inj same)

pub landing-keeps :
    (a : PlannedActivity) (before rest : List ActivityTimes) (r : PlannedRelationship) {v : ℕ}
    → landing a before r ≡ ok v
    → landing a (before ++ rest) r ≡ ok v
unfolding landing
landing-keeps a before rest r {v} e =
    let (row, found, later) =
      >>=-eq-ok (present (placed_at before r.predecessor_uid) key_error (some r.predecessor_uid))
        (λ (row : ActivityTimes).
          present
            (shift_lag (lag_calendar_for r a.calendar)
              (if anchors_predecessor_finish r then row.early_finish else row.early_start) r.lag)
            lag_unreachable (some r.uid))
        e in
    rw (placed_at-keeps before rest r.predecessor_uid row (present-eq-ok _ _ _ found)) later

-- The predecessor's dates, shifted by the lag, do not lie behind the dates of the row.
abbrev pub Honours :
    List ActivityTimes → PlannedActivity → (start finish : ℕ) → PlannedRelationship → Type 0
Honours times a start finish r =
    (v : ℕ) × (landing a times r ≡ ok v)
    × (v ≤ (if bounds_successor_start r then start else finish))

pub Lands-Honours :
    (a : PlannedActivity) (before rest : List ActivityTimes) (l : Limits) (start finish : ℕ)
    (rows : List PlannedRelationship)
    → l.start_bound ≤ start
    → l.finish_bound ≤ finish
    → All (Lands a before (λ v r. v ≤ limit a before l r)) rows
    → All (Honours (before ++ rest) a start finish) rows
Lands-Honours a before rest l start finish [] s f h = tt
Lands-Honours a before rest l start finish (r ∷ rows) s f ((v, landed, early), h) = (
  (
    v,
    landing-keeps a before rest r landed,
    elim (Bool-cases (bounds_successor_start r)) [
      | inl onto ↦ ground arith
      | inr ends ↦ ground arith
    ],
  ),
  Lands-Honours a before rest l start finish rows s f h,
)
