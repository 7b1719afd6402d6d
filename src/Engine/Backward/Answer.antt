-- ===== src/Engine/Backward/Answer.antt =====
-- What a pass that `backward_pass` of sto/core/engine/backward.py returns is, as a whole.
use sto_scheduler_tracker_re.Prelude.{
  ℕ, ◌≡◌, refl, sym, ◌∙◌, ap, subst, List, [], reverse, map, true, elem, arith, some, Bool-cases,
  inl, inr,
}
use mathlib.Core.List.{reverse_aux-reverse_aux-nil}
use sto_scheduler_tracker_re.Engine.Outcome.{Result, ok, ◌>>=◌, >>=-eq-ok, ok-inj}
use sto_scheduler_tracker_re.Engine.Model.{PlannedActivity, Network, activity_by_uid}
use sto_scheduler_tracker_re.Engine.Progress.{state_of}
use sto_scheduler_tracker_re.Engine.Topology.Sets.{IsDistinct}
use sto_scheduler_tracker_re.Engine.Late.{ActivityLateTimes, late_at}
use sto_scheduler_tracker_re.Engine.Backward.{
  BackwardPass, LateLoop, LateRequest, context_of, late_pass_of, no_late_rows, admit, overridden,
  late_loop, place_late_all, LateContext, rows_of, place_late_state, backward_pass,
}
use sto_scheduler_tracker_re.Engine.Backward.Keys.{
  elem-reverse, IsDistinct-reverse, rows_of-uids, rows_of-at, rows_of-elem,
}
use sto_scheduler_tracker_re.Engine.Backward.Guards.{bound_of, IsAdmissible, admit-IsAdmissible}
use sto_scheduler_tracker_re.Engine.Backward.Rounds.{late_all-keeps, late_all-Round}

-- The parts of a pass that is returned.
pub backward-inv :
    (fingerprint : Network → ℕ) (network : Network) (q : LateRequest) {pass : BackwardPass}
    → backward_pass fingerprint network q ≡ ok pass
    → (released : List ℕ) × (loop : LateLoop) × (times : List ActivityLateTimes) × (admit
          (fingerprint network)
          network
          q
        ≡ ok tt)
      × (overridden network q.forward.progress_policy network.relationships ≡ ok released)
      × (late_loop network q released ≡ ok loop)
      × (rows_of loop.placed q.forward.order ≡ ok times)
      × (late_pass_of (fingerprint network) q released loop times ≡ pass)
unfolding backward_pass
backward-inv fingerprint network q e =
    let answer : List ℕ → LateLoop → List ActivityLateTimes → Result BackwardPass =
      λ released loop times. ok (late_pass_of (fingerprint network) q released loop times) in
    let listed : List ℕ → LateLoop → Result BackwardPass =
      λ released loop. rows_of loop.placed q.forward.order >>= answer released loop in
    let looped : List ℕ → Result BackwardPass =
      λ released. late_loop network q released >>= listed released in
    let (_, admitted, later) =
      >>=-eq-ok (admit (fingerprint network) network q)
        (λ _. overridden network q.forward.progress_policy network.relationships >>= looped) e in
    let (released, skipped, looping) =
      >>=-eq-ok (overridden network q.forward.progress_policy network.relationships) looped later in
    let (loop, placed, listing) =
      >>=-eq-ok (late_loop network q released) (listed released) looping in
    let (times, rows, last) =
      >>=-eq-ok (rows_of loop.placed q.forward.order) (answer released loop) listing in
    (released, loop, times, admitted, skipped, placed, rows, ok-inj last)

-- A pass over the network of an admissible request, which lists the activities in the order of the
-- forward pass and was placed in the reversed one.
pub record IsLatePassOf (fingerprint : ℕ) (network : Network) (q : LateRequest)
    (pass : BackwardPass) : Type 0 where
  pub admissible : IsAdmissible fingerprint network q
  pub rows : map (λ (row : ActivityLateTimes). row.uid) pass.times ≡ q.forward.order
  pub order : reverse pass.order ≡ q.forward.order
  pub finish : pass.project_late_finish ≡ bound_of q
  pub policy : pass.progress_policy ≡ q.forward.progress_policy
  pub snap : pass.snap_milestones ≡ q.forward.snap_milestones
  pub origin : pass.network_fingerprint ≡ fingerprint

-- Whatever `backward_pass` returns is a pass of an admissible request in the sense of `IsLatePassOf`:
-- one row for each activity in the order of the forward pass, the order reversed, the bound that was
-- asked for, and the policies of the forward pass.
pub backward_pass-IsLatePassOf :
    (fingerprint : Network → ℕ) (network : Network) (q : LateRequest) {pass : BackwardPass}
    → backward_pass fingerprint network q ≡ ok pass
    → IsLatePassOf (fingerprint network) network q pass
backward_pass-IsLatePassOf fingerprint network q e =
    let (released, loop, times, admitted, _, _, listed, same) =
      backward-inv fingerprint network q e in
    subst (IsLatePassOf (fingerprint network) network q) same (record {
      admissible = (admit-IsAdmissible (fingerprint network) network q).0 admitted;
      rows = rows_of-uids loop.placed q.forward.order listed;
      order = reverse_aux-reverse_aux-nil q.forward.order [];
      finish = refl;
      policy = refl;
      snap = refl;
      origin = refl;
    })

no_rows : (v : ℕ) (r : ActivityLateTimes) → ¬ (late_at [] v ≡ some r)
unfolding late_at
no_rows v r e = cc

-- What the round of a known activity was.
pub record LatePlacing (network : Network) (q : LateRequest) (pass : BackwardPass)
    (a : PlannedActivity) (row : ActivityLateTimes) : Type 0 where
  pub before : List ActivityLateTimes
  pub placed :
      place_late_state (context_of network q pass.overridden_relationships) before a (state_of a)
      ≡ ok row
  pub kept :
      (v : ℕ) (r : ActivityLateTimes) → late_at before v ≡ some r → late_at pass.times v ≡ some r

-- The rows that the loop leaves are of the activities in the order.
in_order :
    (c : LateContext) (us : List ℕ) {loop : LateLoop} (v : ℕ) (r : ActivityLateTimes)
    → place_late_all c (reverse us) no_late_rows ≡ ok loop
    → late_at loop.placed v ≡ some r
    → elem v us ≡ true
in_order c us v r looped there = elim (Bool-cases (elem v us)) [
  | inl listed ↦ listed
  | inr absent ↦ absurd (
      no_rows v r (
        sym (late_all-keeps c (reverse us) no_late_rows v looped (elem-reverse v us ∙ absent))
        ∙ there))
]

module _ (fingerprint : Network → ℕ) (network : Network) (q : LateRequest)
    {pass : BackwardPass} where
  -- What the answer takes from the loop.
  answer-parts :
      (released : List ℕ) (loop : LateLoop) (times : List ActivityLateTimes)
      → late_pass_of (fingerprint network) q released loop times ≡ pass
      → (times ≡ pass.times) × (released ≡ pass.overridden_relationships)
  answer-parts released loop times same = (
    ap (λ (p : BackwardPass). p.times) same,
    ap (λ (p : BackwardPass). p.overridden_relationships) same,
  )

  pub placing_at :
      (a : PlannedActivity) (row : ActivityLateTimes)
      → IsDistinct q.forward.order
      → backward_pass fingerprint network q ≡ ok pass
      → activity_by_uid network a.uid ≡ some a
      → late_at pass.times a.uid ≡ some row
      → LatePlacing network q pass a row
  unfolding late_loop
  placing_at a row d e found at =
      let (released, loop, times, _, skipped, looped, listed, same) =
        backward-inv fingerprint network q e in
      let c = context_of network q released in
      let (timed, skips) = answer-parts released loop times same in
      let at' : late_at times a.uid ≡ some row =
        subst (λ ts. late_at ts a.uid ≡ some row) (sym timed) at in
      let ordered = rows_of-elem loop.placed q.forward.order a.uid row listed at' in
      let round =
        late_all-Round c (reverse q.forward.order) no_late_rows a.uid row
          (IsDistinct-reverse q.forward.order d) (λ v r there. absurd (no_rows v r there)) looped
          (elem-reverse a.uid q.forward.order ∙ ordered)
          (sym (rows_of-at loop.placed q.forward.order a.uid listed ordered) ∙ at') in
      let is_a : round.activity ≡ a = ground (arith, round.found) in
      let placed : place_late_state c round.before a (state_of a) ≡ ok row =
        subst (λ b. place_late_state c round.before b (state_of b) ≡ ok row) is_a round.placed in
      record {
        before = round.before;
        placed =
            subst
              (λ us.
                place_late_state (context_of network q us) round.before a (state_of a) ≡ ok row)
              skips placed;
        kept = λ v r there.
            let in_loop = round.kept v r there in
            subst (λ ts. late_at ts v ≡ some r) timed
              (rows_of-at loop.placed q.forward.order v listed
                  (in_order c q.forward.order v r looped in_loop)
                ∙ in_loop);
      }
