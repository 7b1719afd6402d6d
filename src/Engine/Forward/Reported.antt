-- ===== src/Engine/Forward/Reported.antt =====
-- What `forward_pass` of sto/core/engine/forward.py makes of reported progress.
use sto_scheduler_tracker_re.Prelude.{
  ℕ, ◌≤◌, ◌≡◌, ◌≢◌, refl, sym, ◌∙◌, ap, subst, List, ◌++◌, Bool, arith, Option, some, none, default,
  All, All-find, not,
}
use sto_scheduler_tracker_re.Engine.Outcome.{ok}
use sto_scheduler_tracker_re.Engine.Model.{PlannedActivity, Network, activity_by_uid, predecessors}
use sto_scheduler_tracker_re.Engine.Progress.{
  ProgressPolicy, progress_override, none_declared, retained_logic, actual_dates, in_progress,
  complete, state_of, remaining_bound,
}
use sto_scheduler_tracker_re.Engine.Place.{ActivityTimes, placed_at, calendar_floor}
use sto_scheduler_tracker_re.Engine.Reporting.{Placed, start_floor, finish_floor}
use sto_scheduler_tracker_re.Engine.Forward.{ForwardPass, place_by_state, forward_pass, no_edges}
use sto_scheduler_tracker_re.Engine.Forward.Bounds.{bounds_land}
use sto_scheduler_tracker_re.Engine.Forward.Spans.{HasCalendars}
use sto_scheduler_tracker_re.Engine.Forward.Steps.{complete-inv}
use sto_scheduler_tracker_re.Engine.Forward.Rounds.{binding, base}
use sto_scheduler_tracker_re.Engine.Forward.Logic.{Honours, Lands-Honours}
use sto_scheduler_tracker_re.Engine.Forward.Honours.{binds_under_way, under_way-Behind, pass-at}

-- The status time, where one is reported, does not lie behind the coordinate.
abbrev pub Reached : Option ℕ → ℕ → Type 0
Reached none at = Unit
Reached (some status_time) at = status_time ≤ at

-- The floor lies at or behind the actual start and the status time, and, unless the policy overrides
-- the logic, at or behind the bound of the logic.
floor-lies :
    (policy : ProgressPolicy) (logic began : ℕ) (status_time : Option ℕ) (at : ℕ)
    → remaining_bound in_progress policy logic status_time (some began) ≤ at
    → (began ≤ at) × Reached status_time at × (policy ≢ progress_override → logic ≤ at)
unfolding remaining_bound
floor-lies none_declared logic began none at h = (omega arith, tt, λ _. omega arith)
floor-lies none_declared logic began (some t) at h = (omega arith, omega arith, λ _. omega arith)
floor-lies retained_logic logic began none at h = (omega arith, tt, λ _. omega arith)
floor-lies retained_logic logic began (some t) at h = (omega arith, omega arith, λ _. omega arith)
floor-lies progress_override logic began none at h = (omega arith, tt, λ n. absurd (n refl))
floor-lies progress_override logic began (some t) at h =
    (omega arith, omega arith, λ n. absurd (n refl))
floor-lies actual_dates logic began none at h = (omega arith, tt, λ _. omega arith)
floor-lies actual_dates logic began (some t) at h = (omega arith, omega arith, λ _. omega arith)

-- What is due of an activity under way: it keeps its actual start; its remaining work begins no
-- earlier than that and than the status time; and, unless progress overrides the logic, the remaining
-- work honours each relationship into it.
pub record Resumes (network : Network) (policy : ProgressPolicy) (times : List ActivityTimes)
    (a : PlannedActivity) (row : ActivityTimes) : Type 0 where
  pub resumed_at : ℕ
  pub remaining : row.remaining_start ≡ some resumed_at
  pub started : a.actual_start ≡ some row.early_start
  pub after_start : row.early_start ≤ resumed_at
  pub after_status : Reached network.status_time resumed_at
  pub retained :
      policy ≢ progress_override
      → All (Honours times a resumed_at row.early_finish) (predecessors network a.uid)

module _ (network : Network) (snap : Bool) (policy : ProgressPolicy) {pass : ForwardPass}
    (a : PlannedActivity) (row : ActivityTimes) where
  -- In a pass that is returned, a complete activity keeps its actual start and its actual finish.
  pub forward_pass-keeps_actuals :
      forward_pass network snap policy ≡ ok pass
      → activity_by_uid network a.uid ≡ some a
      → placed_at pass.times a.uid ≡ some row
      → state_of a ≡ complete
      → (a.actual_start ≡ some row.early_start)
        × (a.actual_finish ≡ some row.early_finish)
        × (row.remaining_start ≡ none)
  forward_pass-keeps_actuals e found at finished =
      let (before, rest, l, p, bounded, placed, rowed, standing, _) =
        pass-at network snap policy a row e found at in
      let floor = default (calendar_floor a) (base network snap policy a) in
      let bound = not (no_edges (binding network snap policy a)) in
      let (s, f, started, ended, same) = complete-inv network snap policy a l (
        subst (λ st. place_by_state a st l floor bound network snap policy ≡ ok p) finished
          placed) in
      let whole = ap (λ (p : Placed). p.row) same ∙ rowed in
      (
        started ∙ ap (λ (r : ActivityTimes). some r.early_start) whole,
        ended ∙ ap (λ (r : ActivityTimes). some r.early_finish) whole,
        ap (λ (r : ActivityTimes). r.remaining_start) (sym whole),
      )

  -- In a pass that is returned, the row of an activity under way meets `Resumes`. The calendars are
  -- built by `CompiledIntervals.of`.
  pub forward_pass-Resumes :
      All HasCalendars network.activities
      → forward_pass network snap policy ≡ ok pass
      → activity_by_uid network a.uid ≡ some a
      → placed_at pass.times a.uid ≡ some row
      → state_of a ≡ in_progress
      → Resumes network policy pass.times a row
  unfolding activity_by_uid remaining_bound start_floor finish_floor
  forward_pass-Resumes calendars e found at under_way =
      let (before, rest, l, p, bounded, placed, rowed, standing, _) =
        pass-at network snap policy a row e found at in
      let floor = default (calendar_floor a) (base network snap policy a) in
      let bound = not (no_edges (binding network snap policy a)) in
      let (began, rs, started, kept, resumed, after, until) =
        under_way-Behind network snap policy a l floor bound
          (All-find HasCalendars (λ b. b.uid) a.uid network.activities a calendars found)
          (subst (λ st. place_by_state a st l floor bound network snap policy ≡ ok p) under_way
            placed) in
      let (past_start, past_status, past_logic) =
        floor-lies policy l.start_bound began network.status_time rs after in
      let (_, _, past_finish) =
        floor-lies policy l.finish_bound began network.status_time p.row.early_finish until in
      let starts : began ≡ row.early_start =
        sym kept ∙ ap (λ (r : ActivityTimes). r.early_start) rowed in
      record {
        resumed_at = rs;
        remaining = ap (λ (r : ActivityTimes). r.remaining_start) (sym rowed) ∙ resumed;
        started = started ∙ ap (λ t. some t) starts;
        after_start = omega arith;
        after_status = past_status;
        retained = λ bound_by.
            let binds : binding network snap policy a ≡ predecessors network a.uid =
              rw (under_way, binds_under_way policy network.status_time bound_by) refl in
            let lands =
              bounds_land a before (binding network snap policy a) (base network snap policy a)
                (default network.project_start (base network snap policy a)) l bounded in
            subst
              (λ (r : ActivityTimes).
                All (Honours pass.times a rs r.early_finish) (predecessors network a.uid))
              rowed
              (subst (λ ts. All (Honours ts a rs p.row.early_finish) (predecessors network a.uid))
                standing
                (subst (λ rows. All (Honours (before ++ rest) a rs p.row.early_finish) rows) binds
                  (Lands-Honours a before rest l rs p.row.early_finish
                    (binding network snap policy a) (past_logic bound_by) (past_finish bound_by)
                    lands)));
      }
