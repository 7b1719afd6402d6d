-- ===== src/Engine/Backward/Slack/Answer.antt =====
-- `backward_pass` of sto/core/engine/backward.py beside `forward_pass`, for a plan that nothing bounds
-- from above.
use sto_scheduler_tracker_re.Prelude.{
  ℕ, ◌≤◌, ◌≡◌, sym, ◌∙◌, ap, subst, List, [], ◌∷◌, reverse, Bool, arith, All, All-find, some, none,
  elem,
}
use sto_scheduler_tracker_re.Engine.Outcome.{ok, ok-inj}
use sto_scheduler_tracker_re.Engine.Model.{
  PlannedActivity, PlannedRelationship, Network, activity_by_uid, predecessors, successors,
  remaining, bounds_successor_start,
}
use sto_scheduler_tracker_re.Engine.Lag.{lag_calendar_for, shift_lag}
use sto_scheduler_tracker_re.Engine.Progress.{ProgressPolicy, state_of}
use sto_scheduler_tracker_re.Engine.Place.{ActivityTimes, placed_at}
use sto_scheduler_tracker_re.Engine.Forward.{ForwardPass, pass_of, forward_pass}
use sto_scheduler_tracker_re.Engine.Forward.Steps.{activity_by_uid-uid}
use sto_scheduler_tracker_re.Engine.Forward.Honours.{forward_pass-Honours}
use sto_scheduler_tracker_re.Engine.Forward.Logic.{Honours, forward-inv}
use sto_scheduler_tracker_re.Engine.Forward.Answer.{forward_pass-IsPassOf}
use sto_scheduler_tracker_re.Engine.Forward.Spanned.{forward_pass-IsSpanOf}
use sto_scheduler_tracker_re.Engine.Late.{ActivityLateTimes, late_at}
use sto_scheduler_tracker_re.Engine.Late.Placement.{place_late}
use sto_scheduler_tracker_re.Engine.Forward.Spans.{HasCalendars}
use sto_scheduler_tracker_re.Engine.Backward.{
  BackwardPass, LateContext, LateLoop, LateRequest, add_late, place_late_state, place_late_all,
  late_loop, no_late_rows, backward_pass,
}
use sto_scheduler_tracker_re.Engine.Backward.Keys.{late_at-uid, rows_of-at, rows_of-elem}
use sto_scheduler_tracker_re.Engine.Backward.Rounds.{late_all-inv}
use sto_scheduler_tracker_re.Engine.Backward.Guards.{bound_of}
use sto_scheduler_tracker_re.Engine.Backward.Answer.{backward-inv, backward_pass-IsLatePassOf}
use sto_scheduler_tracker_re.Engine.Backward.Bounds.{upper}
use sto_scheduler_tracker_re.Engine.Backward.Targets.{AreCompiled, target-inv}
use sto_scheduler_tracker_re.Engine.Backward.Greatest.{Receives, late_bounds-Greatest, free-inv}
use sto_scheduler_tracker_re.Engine.Backward.Edges.{
  Among, All-Among, Among-All, successors-predecessors, placed_at-listed, activity_by_uid-listed,
}
use sto_scheduler_tracker_re.Engine.Backward.Slack.{
  IsOpen, is_late_free-soft, InSlack, landing-inv, anchor-InSlack,
}
use sto_scheduler_tracker_re.Engine.Backward.Slack.Spans.{span-Latest, span-ordered, finish-last}

-- What the loop of the backward pass reads.
abbrev context : Network → ForwardPass → (late_finish : ℕ) → List ℕ → LateContext
context network forward late_finish released = record {
  network = network;
  early = forward.times;
  late_finish = late_finish;
  released = released;
  snap = forward.snap_milestones;
}

snap_of :
    (network : Network) (snap : Bool) (policy : ProgressPolicy) {forward : ForwardPass}
    → forward_pass network snap policy ≡ ok forward
    → forward.snap_milestones ≡ snap
unfolding pass_of
snap_of network snap policy e =
    let (_, _, _, _, _, same) = forward-inv network snap policy e in
    ap (λ (p : ForwardPass). p.snap_milestones) (sym same)

module _ (network : Network) (snap : Bool) (policy : ProgressPolicy) {forward : ForwardPass}
    (compiled : AreCompiled network) (open_all : All IsOpen network.activities)
    (forwards : forward_pass network snap policy ≡ ok forward) where
  known-IsOpen : (u : ℕ) (a : PlannedActivity) → activity_by_uid network u ≡ some a → IsOpen a
  unfolding activity_by_uid
  known-IsOpen u a found = All-find IsOpen (λ b. b.uid) u network.activities a open_all found

  early_row :
      (u : ℕ) (a : PlannedActivity)
      → activity_by_uid network u ≡ some a
      → (e : ActivityTimes) × (placed_at forward.times u ≡ some e)
  early_row u a found =
      let about = forward_pass-IsPassOf network snap policy forwards in
      placed_at-listed forward.times u
        (ap (elem u) about.rows ∙ about.ordered.all u ∙ activity_by_uid-listed network u a found)

  -- The edges out of an activity receive its early dates, where the rows that are placed are in slack.
  early-Receives :
      (before : List ActivityLateTimes) (a : PlannedActivity) (e : ActivityTimes)
      (r : PlannedRelationship)
      → All (InSlack forward.times) before
      → placed_at forward.times a.uid ≡ some e
      → Among r (successors network a.uid)
      → Receives network forward.times before e.early_start e.early_finish r
  unfolding late_at
  early-Receives before a e r slack there m cal anchor at =
      let (s, b, behind, known, same, anchored) = target-inv network forward.times before r at in
      let (from, into) = successors-predecessors network a.uid r m in
      let named = activity_by_uid-uid network r.successor_uid b known in
      let (es, placed) = early_row r.successor_uid b known in
      let o = known-IsOpen r.successor_uid b known in
      let honoured =
        forward_pass-Honours network snap policy b es compiled.activities forwards
          (subst (λ u. activity_by_uid network u ≡ some b) (sym named) known)
          (subst (λ u. placed_at forward.times u ≡ some es) (sym named) placed) o.fresh
          (is_late_free-soft b.constraint_type o.free) in
      let (v, landed, le) =
        All-Among (Honours forward.times b es.early_start es.early_finish) r _ honoured
          (subst (λ u. Among r (predecessors network u)) (sym named) into) in
      let (p, pred, shifted) = landing-inv b forward.times r landed in
      let is_e : p ≡ e = ground (arith, from) in
      let (bare, order) =
        All-find (InSlack forward.times) (λ (x : ActivityLateTimes). x.uid) r.successor_uid before s
          slack behind in
      let keyed = late_at-uid before r.successor_uid s behind in
      let (hs, hf) =
        order es (subst (λ u. placed_at forward.times u ≡ some es) (sym keyed) placed) in
      let reach =
        anchor-InSlack (lag_calendar_for r b.calendar) forward.times s r (bounds_successor_start r)
          s.remaining_start es.early_start es.early_finish bare anchored hs hf in
      (
        v,
        subst
            (λ (x : ActivityTimes).
              shift_lag cal (upper r x.early_start x.early_finish) r.lag ≡ some v)
            is_e
            (subst (λ k. shift_lag k (upper r p.early_start p.early_finish) r.lag ≡ some v) same
              shifted),
        omega arith,
      )

  -- One round keeps the rows in slack.
  round-InSlack :
      (late_finish : ℕ) (released : List ℕ) (before : List ActivityLateTimes) (u : ℕ)
      (a : PlannedActivity) (row : ActivityLateTimes)
      → late_finish ≤ network.horizon
      → forward.project_finish ≤ late_finish
      → All (InSlack forward.times) before
      → activity_by_uid network u ≡ some a
      → place_late_state (context network forward late_finish released) before a (state_of a)
        ≡ ok row
      → row.uid ≡ u
      → InSlack forward.times row
  unfolding activity_by_uid
  round-InSlack late_finish released before u a row within covered slack found placed keyed =
      let c = context network forward late_finish released in
      let o = known-IsOpen u a found in
      let named = activity_by_uid-uid network u a found in
      let about = forward_pass-IsPassOf network snap policy forwards in
      let (b, bounded, spanned, bare) = free-inv c before a o.free o.fresh placed in
      let ((raw, cal), _) =
        All-find HasCalendars (λ (x : PlannedActivity). x.uid) u network.activities a
          compiled.activities found in
      (
        bare,
        λ e there.
            let at : placed_at forward.times a.uid ≡ some e =
              subst (λ v. placed_at forward.times v ≡ some e) (keyed ∙ sym named) there in
            let spans =
              forward_pass-IsSpanOf network snap policy a e raw cal o.whole
                (is_late_free-soft a.constraint_type o.free) forwards
                (subst (λ v. activity_by_uid network v ≡ some a) (sym named) found) at o.fresh in
            let ordered = span-ordered raw snap (remaining a) e.early_start e.early_finish spans in
            let last =
              finish-last network.project_start forward.times forward.project_finish a.uid e
                about.finish at in
            let (hs, hf) =
              late_bounds-Greatest c before a e.early_start e.early_finish compiled within bounded
                (Among-All _ (successors network a.uid)
                  (λ r m kept. early-Receives before a e r slack at m))
                (omega arith) (omega arith) in
            span-Latest a raw (remaining a) b.0.at b.1.at snap a.constraint_coordinate
              row.late_start row.late_finish e.early_start e.early_finish cal o.whole
              (subst
                (λ sn.
                  place_late a (remaining a) b.0.at b.1.at sn none a.constraint_coordinate
                  ≡ ok (row.late_start, row.late_finish))
                (snap_of network snap policy forwards) spanned)
              spans hs hf,
      )

  loop-InSlack :
      (late_finish : ℕ) (released : List ℕ) (us : List ℕ) (s : LateLoop) {s' : LateLoop}
      → late_finish ≤ network.horizon
      → forward.project_finish ≤ late_finish
      → All (InSlack forward.times) s.placed
      → place_late_all (context network forward late_finish released) us s ≡ ok s'
      → All (InSlack forward.times) s'.placed
  unfolding place_late_all
  loop-InSlack late_finish released [] s within covered slack e =
      subst (λ (t : LateLoop). All (InSlack forward.times) t.placed) (ok-inj e) slack
  loop-InSlack late_finish released (u ∷ us) s within covered slack e =
      let c = context network forward late_finish released in
      let (a, row, found, placed, keyed, later) = late_all-inv c u us s e in
      loop-InSlack late_finish released us (add_late s a row) within covered
        (
          round-InSlack late_finish released s.placed u a row within covered slack found placed
              keyed,
          slack,
        )
        later

module _ (fingerprint : Network → ℕ) (network : Network) (q : LateRequest) {pass : BackwardPass}
    (snap : Bool) (policy : ProgressPolicy) where
  -- In a network where no activity has started, none carries a date that bounds it from above (SNLT,
  -- FNLT, MSO or MFO) and none an assignment envelope, a backward pass that is returned for a forward
  -- pass of it, with a bound at or behind the project finish, puts no late date before the early one.
  -- The calendars are built by `CompiledIntervals.of`.
  pub backward_pass-InSlack :
      (a : PlannedActivity) (e : ActivityTimes) (row : ActivityLateTimes)
      → AreCompiled network
      → All IsOpen network.activities
      → forward_pass network snap policy ≡ ok q.forward
      → backward_pass fingerprint network q ≡ ok pass
      → q.forward.project_finish ≤ pass.project_late_finish
      → activity_by_uid network a.uid ≡ some a
      → placed_at q.forward.times a.uid ≡ some e
      → late_at pass.times a.uid ≡ some row
      → (e.early_start ≤ row.late_start) × (e.early_finish ≤ row.late_finish)
  unfolding late_loop late_at
  backward_pass-InSlack a e row compiled open_all forwards runs covered found early at =
      let (released, loop, times, _, _, looped, listed, same) =
        backward-inv fingerprint network q runs in
      let about = backward_pass-IsLatePassOf fingerprint network q runs in
      let timed : times ≡ pass.times = ap (λ (p : BackwardPass). p.times) same in
      let at' : late_at times a.uid ≡ some row =
        subst (λ ts. late_at ts a.uid ≡ some row) (sym timed) at in
      let ordered = rows_of-elem loop.placed q.forward.order a.uid row listed at' in
      let in_loop = sym (rows_of-at loop.placed q.forward.order a.uid listed ordered) ∙ at' in
      let slack =
        loop-InSlack network snap policy compiled open_all forwards (bound_of q) released
          (reverse q.forward.order) no_late_rows about.admissible.within
          (subst (λ m. q.forward.project_finish ≤ m) about.finish covered) tt looped in
      let keyed = late_at-uid loop.placed a.uid row in_loop in
      (All-find (InSlack q.forward.times) (λ (x : ActivityLateTimes). x.uid) a.uid loop.placed row
          slack in_loop).1
        e (subst (λ u. placed_at q.forward.times u ≡ some e) (sym keyed) early)
