-- ===== src/Tests/Floats.antt =====
-- The analysis of sto/core/engine/criticality.py on sample networks, and its theorems at their rows.
use sto_scheduler_tracker_re.Prelude.{
  ℕ, ◌≡◌, refl, [], ◌∷◌, none, true, false, pos, negsuc, ◌+ℤ◌, neg_ℤ, All, elem, arith, leb_ℤ,
}
use sto_scheduler_tracker_re.Calendar.Compiled.{
  of, first, add_productive, sub_productive, prev_working_start, prev_working, total_work,
}
use sto_scheduler_tracker_re.Calendar.Spans.{latest_span}
use sto_scheduler_tracker_re.Engine.Outcome.{ok}
use sto_scheduler_tracker_re.Engine.Model.{asap, alap, fs, activity_by_uid}
use sto_scheduler_tracker_re.Engine.Progress.{none_declared, retained_logic, state_of}
use sto_scheduler_tracker_re.Engine.Criticality.{float_analysis, critical_activities}
use sto_scheduler_tracker_re.Engine.Criticality.Analysis.{float_at}
use sto_scheduler_tracker_re.Engine.Float.Measure.{signed_working_additive}
use sto_scheduler_tracker_re.Engine.Criticality.Slack.{
  HasFloatCalendar, float_analysis-complete, float_analysis_nonnegative,
}
use sto_scheduler_tracker_re.Engine.Criticality.Critical.{float_analysis_has_critical}
use sto_scheduler_tracker_re.Engine.Float.{signed_working, FloatContext, permitted}
use sto_scheduler_tracker_re.Engine.Float.Permitted.{IsPermitted, permitted-IsPermitted}
use sto_scheduler_tracker_re.Tests.Samples.{raw, task, edge, reported, reported_pass}
use sto_scheduler_tracker_re.Tests.Passes.{reported-runs, done}
use sto_scheduler_tracker_re.Tests.Plans.{
  eased, eased_pass, request, float_request, float_row_of, eased_float, reported_request,
  done_float, reported_float,
}
use sto_scheduler_tracker_re.Tests.LatePasses.{
  eased-runs, eased-runs_late, reported-runs_late, eased-AreCompiled, eased-IsOpen,
}

eased-analysed : float_analysis (λ _. 7) eased float_request ≡ ok eased_float
unfolding float_analysis of first latest_span prev_working_start prev_working sub_productive
    total_work add_productive
eased-analysed = refl

reported-analysed : float_analysis (λ _. 7) reported reported_request ≡ ok reported_float
unfolding float_analysis of first latest_span prev_working_start prev_working sub_productive
    total_work add_productive
reported-analysed = refl

eased-HasFloatCalendar : All HasFloatCalendar eased.activities
eased-HasFloatCalendar =
    (((raw, refl), tt), (((raw, refl), tt), (((raw, refl), tt), (((raw, refl), tt), tt))))

reported-HasFloatCalendar : All HasFloatCalendar reported.activities
reported-HasFloatCalendar = (((raw, refl), tt), (((raw, refl), tt), (((raw, refl), tt), tt)))

critical_row_of_the_plan : critical_activities eased_float ≡ 4 ∷ []
unfolding critical_activities
critical_row_of_the_plan = refl

-- Forwards, and back over a break to a coordinate before the first one.
signed_working_additive_example :
    (signed_working (of raw) 14 34 +ℤ signed_working (of raw) 34 9 ≡ signed_working (of raw) 14 9)
    × (neg_ℤ (signed_working (of raw) 14 34) ≡ signed_working (of raw) 34 14)
signed_working_additive_example = signed_working_additive raw 14 34 9

float_analysis_nonnegative_example :
    (leb_ℤ (pos 0) (pos 1) ≡ true) × (leb_ℤ (pos 0) (pos 1) ≡ true) × (leb_ℤ (pos 0) (pos 1) ≡ true)
unfolding activity_by_uid float_at
float_analysis_nonnegative_example =
    float_analysis_nonnegative (λ _. 7) eased true none_declared (request eased_pass) float_request
      eased-HasFloatCalendar refl eased-runs eased-runs_late eased-analysed (task 2 6 alap none)
      (float_row_of 2 (pos 1) (pos 0)) eased-AreCompiled eased-IsOpen (omega arith) refl refl

float_analysis_has_critical_example : (u : ℕ) × (elem u (critical_activities eased_float) ≡ true)
unfolding activity_by_uid
float_analysis_has_critical_example =
    float_analysis_has_critical (λ _. 7) eased true none_declared (request eased_pass) float_request
      eased-HasFloatCalendar eased-AreCompiled eased-IsOpen refl eased-runs eased-runs_late
      eased-analysed refl refl (task 1 4 asap none) refl

float_analysis-complete_example :
    (done_float.total_float ≡ pos 0)
    × (done_float.free_float ≡ pos 0)
    × (done_float.complete ≡ true)
    × (done_float.critical ≡ false)
unfolding activity_by_uid float_at state_of
float_analysis-complete_example =
    float_analysis-complete (λ _. 7) reported true retained_logic (request reported_pass)
      reported_request reported-HasFloatCalendar refl reported-runs reported-runs_late
      reported-analysed done done_float refl refl refl

abbrev context : FloatContext
context = record {
  network = eased;
  early = eased_pass.times;
  movement_limits = (1, 36, 41) ∷ (2, 34, 41) ∷ (3, 39, 41) ∷ (4, 40, 40) ∷ [];
  snapped_zero_spans = 4 ∷ [];
  calendar_placed_starts = 1 ∷ 2 ∷ 3 ∷ 4 ∷ [];
  immovable = [];
  project_late_finish = 38;
}

-- The lead lets the second row finish after its successor starts.
permitted-IsPermitted_example :
    IsPermitted context (task 2 6 alap none) raw (edge 22 2 3 fs (negsuc 0)) 35
unfolding permitted of prev_working_start prev_working sub_productive total_work add_productive
permitted-IsPermitted_example =
    permitted-IsPermitted context (task 2 6 alap none) raw (edge 22 2 3 fs (negsuc 0)) 35
      eased-AreCompiled.activities tt refl refl
