-- ===== src/Engine/Forward/Violations.antt =====
-- The constraint violations of `forward_pass` in sto/core/engine/forward.py: what a hard date displaces
-- is recorded.
use sto_scheduler_tracker_re.Prelude.{
  ℕ, ◌≤◌, ◌≡◌, subst, List, [], ◌∷◌, ◌++◌, Bool, true, false, arith, Option, some, inl, inr, ◌⊎◌,
  All, All-find, if◌then◌else◌, Bool-cases, is_some, ltb, ==_iff,
}
use sto_scheduler_tracker_re.Engine.Outcome.{ok}
use sto_scheduler_tracker_re.Engine.Model.{
  ConstraintType, is_dated, mso, mfo, PlannedActivity, PlannedRelationship, Network,
  activity_by_uid, predecessors, bounds_successor_start,
}
use sto_scheduler_tracker_re.Engine.Progress.{ProgressPolicy, not_started, state_of}
use sto_scheduler_tracker_re.Engine.Place.{ActivityTimes, placed_at, Limits}
use sto_scheduler_tracker_re.Engine.Untouched.{constrain, violation}
use sto_scheduler_tracker_re.Engine.Forward.Unstarted.{IsUnstarted-at}
use sto_scheduler_tracker_re.Engine.Forward.{ForwardPass, forward_pass, base_of}
use sto_scheduler_tracker_re.Engine.Forward.Bounds.{Lands, bounds_land, limit, is_hard}
use sto_scheduler_tracker_re.Engine.Forward.Rounds.{violated}
use sto_scheduler_tracker_re.Engine.Forward.Logic.{Honours, landing-keeps, forward-inv}
use sto_scheduler_tracker_re.Engine.Validate.Sound.{IsValidActivity, validate-IsValid}

-- The relationships that bound the start are those that a must-start-on date can displace, and those
-- that bound the finish are those that a must-finish-on date can.
abbrev pub pins_start : ConstraintType → Bool
pins_start mso = true
pins_start _ = false

-- The relationship, where it bounds the pinned side, is honoured.
abbrev pub HonoursPinned :
    Bool → List ActivityTimes → PlannedActivity → (start finish : ℕ) → PlannedRelationship → Type 0
HonoursPinned start_side times a start finish r =
    bounds_successor_start r ≡ start_side → Honours times a start finish r

abbrev pinned_limit : Bool → Limits → ℕ
pinned_limit start_side l = if start_side then l.start_bound else l.finish_bound

Lands-HonoursPinned :
    (a : PlannedActivity) (before rest : List ActivityTimes) (l : Limits) (start finish : ℕ)
    (start_side : Bool) (rows : List PlannedRelationship)
    → pinned_limit start_side l ≤ (if start_side then start else finish)
    → All (Lands a before (λ v r. v ≤ limit a before l r)) rows
    → All (HonoursPinned start_side (before ++ rest) a start finish) rows
Lands-HonoursPinned a before rest l start finish start_side [] s h = tt
Lands-HonoursPinned a before rest l start finish start_side (r ∷ rows) s ((v, landed, early), h) = (
  λ same. (
    v,
    landing-keeps a before rest r landed,
    rw same (
        let early' : v ≤ pinned_limit start_side l =
          subst (λ b. v ≤ (if b then l.start_bound else l.finish_bound)) same early in
        omega arith),
  ),
  Lands-HonoursPinned a before rest l start finish start_side rows s h,
)

-- Either the pinned side lies at or behind its bound, or the round records the violation.
recorded :
    (a : PlannedActivity) (l : Limits) (fallback : Bool) (ct : ConstraintType) (at : Option ℕ)
    (s f : ℕ)
    → is_hard ct ≡ true
    → is_some at ≡ true
    → (pinned_limit (pins_start ct) l ≤ (if pins_start ct then s else f))
      ⊎ (violated (violation a l (s, f) (constrain ct at l fallback).pinned at) a.uid ≡ true)
unfolding constrain
recorded a l fallback mso (some c) s f h k = elim (Bool-cases (ltb s l.start_bound)) [
  | inl early ↦ inr (ground (arith, ==_iff a.uid a.uid))
  | inr fine ↦ inl (ground arith)
]
recorded a l fallback mfo (some c) s f h k = elim (Bool-cases (ltb f l.finish_bound)) [
  | inl early ↦ inr (ground (arith, ==_iff a.uid a.uid))
  | inr fine ↦ inl (ground arith)
]
recorded a l fallback _ at s f h k = cc

hard-dated : (ct : ConstraintType) → is_hard ct ≡ true → is_dated ct ≡ true
hard-dated ct h = ground arith

module _ (network : Network) (snap : Bool) (policy : ProgressPolicy) {pass : ForwardPass}
    (a : PlannedActivity) (row : ActivityTimes) where
  -- In a pass that is returned, for an activity that has not started and that an MSO or MFO date
  -- pins: either each relationship that bounds the pinned side is honoured, or the pass lists a
  -- violation of the activity. (A relationship that bounds the other side is not compared.)
  pub forward_pass-records :
      forward_pass network snap policy ≡ ok pass
      → activity_by_uid network a.uid ≡ some a
      → placed_at pass.times a.uid ≡ some row
      → state_of a ≡ not_started
      → is_hard a.constraint_type ≡ true
      → All
          (HonoursPinned
            (pins_start a.constraint_type)
            pass.times
            a
            row.early_start
            row.early_finish)
          (predecessors network a.uid)
        ⊎ (violated pass.constraint_violations a.uid ≡ true)
  unfolding activity_by_uid
  forward_pass-records e found at fresh hard =
      let u = IsUnstarted-at network snap policy a row e found at fresh in
      let side = pins_start a.constraint_type in
      let (valid, _, _, _, _, _) = forward-inv network snap policy e in
      let row_valid =
        All-find IsValidActivity (λ b. b.uid) a.uid network.activities a
          (validate-IsValid network valid).activities found in
      let dated = row_valid.dated (hard-dated a.constraint_type hard) in
      elim (recorded a u.limits u.fallback a.constraint_type a.constraint_coordinate row.early_start
        row.early_finish hard dated) [
          | inr listed ↦ inr (u.recorded a.uid listed)
          | inl kept ↦ inl (
              subst
                (λ ts.
                  All (HonoursPinned side ts a row.early_start row.early_finish)
                    (predecessors network a.uid))
                u.standing
                (Lands-HonoursPinned a u.before u.rest u.limits row.early_start row.early_finish
                  side (predecessors network a.uid) kept
                  (bounds_land a u.before (predecessors network a.uid)
                    (base_of a not_started (predecessors network a.uid) network)
                    network.project_start u.limits u.bounded)))
        ]
