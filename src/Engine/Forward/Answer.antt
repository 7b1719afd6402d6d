-- ===== src/Engine/Forward/Answer.antt =====
-- What a pass that `forward_pass` of sto/core/engine/forward.py returns is, as a whole.
use sto_scheduler_tracker_re.Prelude.{
  ℕ, ◌≤◌, ◌≡◌, refl, sym, ◌∙◌, ap, subst, List, [], ◌∷◌, map, Bool, arith, All, ◌⊎◌, inl, inr, max,
  le_or_gt,
}
use sto_scheduler_tracker_re.Engine.Outcome.{ok}
use sto_scheduler_tracker_re.Engine.Model.{Network}
use sto_scheduler_tracker_re.Engine.Progress.{ProgressPolicy}
use sto_scheduler_tracker_re.Engine.Validate.Sound.{
  IsValidNetwork, validate-IsValid, validate-IsWellKeyed,
}
use sto_scheduler_tracker_re.Engine.Topology.Answer.{IsOrderOf, Answers, topological_order-Answers}
use sto_scheduler_tracker_re.Engine.Place.{ActivityTimes}
use sto_scheduler_tracker_re.Engine.Forward.{
  ForwardPass, no_rows, pass_of, latest_finish, forward_pass,
}
use sto_scheduler_tracker_re.Engine.Forward.Rounds.{all-extends}
use sto_scheduler_tracker_re.Engine.Forward.Logic.{forward-inv}

-- One of the rows finishes at the coordinate.
abbrev pub Attains : List ActivityTimes → ℕ → Type 0
Attains [] at = ⊥
Attains (row ∷ rest) at = (row.early_finish ≡ at) ⊎ Attains rest at

-- The coordinate is the last finish of the rows, and the project start where there are none.
abbrev pub IsFinishOf : ℕ → List ActivityTimes → ℕ → Type 0
IsFinishOf project_start [] at = at ≡ project_start
IsFinishOf project_start (row ∷ rest) at =
    All (λ (r : ActivityTimes). r.early_finish ≤ at) (row ∷ rest) × Attains (row ∷ rest) at

rows_before :
    (rows : List ActivityTimes) (at later : ℕ)
    → at ≤ later
    → All (λ (r : ActivityTimes). r.early_finish ≤ at) rows
    → All (λ (r : ActivityTimes). r.early_finish ≤ later) rows
rows_before [] at later h all = tt
rows_before (r ∷ rest) at later h (one, all) = (omega arith, rows_before rest at later h all)

pub latest_finish-IsFinishOf :
    (project_start : ℕ) (rows : List ActivityTimes)
    → IsFinishOf project_start rows (latest_finish project_start rows)
unfolding latest_finish
latest_finish-IsFinishOf p [] = refl
latest_finish-IsFinishOf p (row ∷ []) = ((omega arith, tt), inl refl)
latest_finish-IsFinishOf p (row ∷ other ∷ rest) =
    let later = latest_finish p (other ∷ rest) in
    let (all, attained) = latest_finish-IsFinishOf p (other ∷ rest) in
    (
      (
        omega arith,
        rows_before (other ∷ rest) later (max row.early_finish later) (omega arith) all,
      ),
      elim (le_or_gt row.early_finish later) [
        | inl behind ↦
            let last : max row.early_finish later ≡ later = omega arith in
            inr (subst (Attains (other ∷ rest)) (sym last) attained)
        | inr last ↦ inl (omega arith)
      ],
    )

-- A pass over a valid network, in an order that its relationships allow, with one row for each
-- activity in that order, which says the project's own start and its last finish.
pub record IsPassOf (network : Network) (pass : ForwardPass) : Type 0 where
  pub valid : IsValidNetwork network
  pub ordered : IsOrderOf network pass.order
  pub rows : map (λ (row : ActivityTimes). row.uid) pass.times ≡ pass.order
  pub start : pass.project_start ≡ network.project_start
  pub finish : IsFinishOf network.project_start pass.times pass.project_finish

-- Whatever `forward_pass` returns is a pass of the network in the sense of `IsPassOf`: the network is
-- valid, the order holds each activity once and behind its predecessors, there is one row for each
-- activity in that order, and the project finish is the last early finish.
pub forward_pass-IsPassOf :
    (network : Network) (snap : Bool) (policy : ProgressPolicy) {pass : ForwardPass}
    → forward_pass network snap policy ≡ ok pass
    → IsPassOf network pass
unfolding pass_of
forward_pass-IsPassOf network snap policy e =
    let (valid, order, loop, ordered, placing, same) = forward-inv network snap policy e in
    let (rest, grown, uids, _) = all-extends network snap policy order no_rows placing in
    subst (IsPassOf network) same (record {
      valid = validate-IsValid network valid;
      ordered =
          subst (Answers network) ordered
            (topological_order-Answers network (validate-IsWellKeyed network valid));
      rows = ap (map (λ (row : ActivityTimes). row.uid)) (sym grown) ∙ uids;
      start = refl;
      finish = latest_finish-IsFinishOf network.project_start loop.placed;
    })
