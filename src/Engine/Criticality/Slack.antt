-- ===== src/Engine/Criticality/Slack.antt =====
-- Floats over the two passes, in `float_analysis` of sto/core/engine/criticality.py: of complete work,
-- and in plans that nothing bounds from above.
use sto_scheduler_tracker_re.Prelude.{
  ℕ, ◌≤◌, ◌≡◌, refl, sym, ◌∙◌, ap, subst, List, [], ◌∷◌, Bool, true, false, ◌&&◌, not, arith, some,
  All, All-find, elem, ℤ, pos, leb_ℤ, min_ℤ,
}
use sto_scheduler_tracker_re.Calendar.Compiled.{CompiledIntervals, of}
use sto_scheduler_tracker_re.Engine.Outcome.{ok}
use sto_scheduler_tracker_re.Engine.Model.{
  FloatBasis, PlannedActivity, PlannedRelationship, Network, activity_by_uid, float_calendar,
}
use sto_scheduler_tracker_re.Engine.Progress.{ProgressPolicy, complete, state_of}
use sto_scheduler_tracker_re.Engine.Place.{ActivityTimes, placed_at}
use sto_scheduler_tracker_re.Engine.Forward.{ForwardPass, forward_pass}
use sto_scheduler_tracker_re.Engine.Forward.Spans.{IsCompiled}
use sto_scheduler_tracker_re.Engine.Forward.Reported.{forward_pass-keeps_actuals}
use sto_scheduler_tracker_re.Engine.Late.{ActivityLateTimes, late_at}
use sto_scheduler_tracker_re.Engine.Backward.{LateRequest, backward_pass}
use sto_scheduler_tracker_re.Engine.Backward.Targets.{HasLag, AreCompiled, default-IsCompiled}
use sto_scheduler_tracker_re.Engine.Backward.Dated.{KeepsActuals, backward_pass-KeepsActuals}
use sto_scheduler_tracker_re.Engine.Backward.Slack.{IsOpen}
use sto_scheduler_tracker_re.Engine.Backward.Slack.Answer.{backward_pass-InSlack}
use sto_scheduler_tracker_re.Engine.Float.{ActivityFloat, measure, FloatContext, free_float}
use sto_scheduler_tracker_re.Engine.Float.Measure.{
  measure_nonnegative, measure_self, min_ℤ_nonnegative,
}
use sto_scheduler_tracker_re.Engine.Criticality.{
  FloatAnalysis, FloatRequest, float_analysis, early_begin, late_begin_of, held_edges,
}
use sto_scheduler_tracker_re.Engine.Criticality.Fresh.{
  IsFreshRow, IsFresh, pass-IsFreshRow, pass-complete, complete_activities-listed,
}
use sto_scheduler_tracker_re.Engine.Results.{complete_activities}
use sto_scheduler_tracker_re.Engine.Criticality.Analysis.{
  float_at, float_analysis-IsAnalysis, at-IsFloatRow,
}

-- The calendars that slack is measured on are built by `CompiledIntervals.of`.
abbrev pub HasFloatCalendar : PlannedActivity → Type 0
HasFloatCalendar a = IsCompiled a.calendar × HasLag a.measure_calendar

measure-on :
    (basis : FloatBasis) (cal : CompiledIntervals) (early late : ℕ)
    → IsCompiled cal
    → early ≤ late
    → leb_ℤ (pos 0) (measure basis cal early late) ≡ true
measure-on basis cal early late (raw, same) h =
    subst (λ k. leb_ℤ (pos 0) (measure basis k early late) ≡ true) same
      (measure_nonnegative basis raw early late h)

pub measure_nothing :
    (basis : FloatBasis) (cal : CompiledIntervals) (early late : ℕ)
    → IsCompiled cal
    → early ≡ late
    → measure basis cal early late ≡ pos 0
measure_nothing basis cal early late (raw, same) h =
    subst (λ k. measure basis k early late ≡ pos 0) same
      (subst (λ z. measure basis (of raw) early z ≡ pos 0) h (measure_self basis raw early))

some-inj : {x y : ℕ} → some x ≡ some y → x ≡ y
some-inj e = cc

and_false : (b : Bool) → (b && not true) ≡ false
and_false b = ground arith

pub open-IsFresh : (rows : List PlannedActivity) → All IsOpen rows → All IsFresh rows
open-IsFresh [] h = tt
open-IsFresh (a ∷ rows) (o, h) = (o.fresh, open-IsFresh rows h)

-- The rows of the three results for one activity.
pub record Met (network : Network) (q : LateRequest) (f : FloatRequest) (a : PlannedActivity)
    (row : ActivityFloat) : Type 0 where
  pub early : ActivityTimes
  pub late : ActivityLateTimes
  pub placed : placed_at q.forward.times a.uid ≡ some early
  pub placed_late : late_at f.backward.times a.uid ≡ some late
  pub cal : IsCompiled (float_calendar a)
  pub start :
      row.start_float
      ≡ measure a.float_basis (float_calendar a) (early_begin early) (late_begin_of late)
  pub finish :
      row.finish_float
      ≡ measure a.float_basis (float_calendar a) early.early_finish late.late_finish
  pub total : row.total_float ≡ min_ℤ row.start_float row.finish_float
  pub done : row.complete ≡ elem a.uid (complete_activities q.forward)
  pub decided : row.critical ≡ (leb_ℤ row.total_float f.threshold && not row.complete)
  pub free : elem a.uid (complete_activities q.forward) ≡ true → row.free_float ≡ pos 0

free_float-done :
    (c : FloatContext) (a : PlannedActivity) (early : ActivityTimes)
    (edges : List PlannedRelationship) {free : ℤ}
    → free_float c a early edges ≡ ok free
    → elem a.uid c.immovable ≡ true
    → free ≡ pos 0
unfolding free_float
free_float-done c a early edges e done = ground arith

module _ (fingerprint : Network → ℕ) (network : Network) (snap : Bool) (policy : ProgressPolicy)
    (q : LateRequest) (f : FloatRequest) {analysis : FloatAnalysis}
    (calendars : All HasFloatCalendar network.activities) (same_forward : f.forward ≡ q.forward)
    (forwards : forward_pass network snap policy ≡ ok q.forward)
    (backwards : backward_pass fingerprint network q ≡ ok f.backward)
    (analysed : float_analysis fingerprint network f ≡ ok analysis) where
  pub meet :
      (a : PlannedActivity) (row : ActivityFloat)
      → activity_by_uid network a.uid ≡ some a
      → float_at analysis.rows a.uid ≡ some row
      → Met network q f a row
  unfolding activity_by_uid float_calendar
  meet a row found at =
      let about = float_analysis-IsAnalysis fingerprint network f analysed in
      let r = at-IsFloatRow about.context f f.forward.order analysis.rows a.uid row about.rows at in
      let known = subst (λ n. activity_by_uid n a.uid ≡ some r.activity) about.network_of r.known in
      let is_a : r.activity ≡ a = ground arith in
      let (own, measured) =
        All-find HasFloatCalendar (λ b. b.uid) a.uid network.activities a calendars found in
      let listed : about.context.immovable ≡ complete_activities q.forward =
        about.done_of ∙ ap complete_activities same_forward in
      record {
        early = r.early;
        late = r.late;
        placed =
            subst (λ ts. placed_at ts a.uid ≡ some r.early)
              (about.early_of ∙ ap (λ (p : ForwardPass). p.times) same_forward) r.placed;
        placed_late = r.placed_late;
        cal = default-IsCompiled a.measure_calendar a.calendar own measured;
        start =
            subst
              (λ (b : PlannedActivity).
                row.start_float
                ≡ measure b.float_basis (float_calendar b) (early_begin r.early)
                    (late_begin_of r.late))
              is_a r.start;
        finish =
            subst
              (λ (b : PlannedActivity).
                row.finish_float
                ≡ measure b.float_basis (float_calendar b) r.early.early_finish r.late.late_finish)
              is_a r.finish;
        total = r.total;
        done = r.done ∙ ap (elem a.uid) listed;
        decided = r.decided;
        free = λ finished.
            free_float-done about.context a r.early
              (held_edges about.context.network f.backward.overridden_relationships a.uid)
              (subst
                (λ b.
                  free_float about.context b r.early
                    (held_edges about.context.network f.backward.overridden_relationships a.uid)
                  ≡ ok row.free_float)
                is_a r.free)
              (ap (elem a.uid) listed ∙ finished);
      }

  -- Over a forward pass, its backward pass and their analysis, a complete activity has no float of
  -- any kind and is not critical. The calendars are built by `CompiledIntervals.of`.
  pub float_analysis-complete :
      (a : PlannedActivity) (row : ActivityFloat)
      → activity_by_uid network a.uid ≡ some a
      → float_at analysis.rows a.uid ≡ some row
      → state_of a ≡ complete
      → (row.total_float ≡ pos 0)
        × (row.free_float ≡ pos 0)
        × (row.complete ≡ true)
        × (row.critical ≡ false)
  float_analysis-complete a row found at finished =
      let m = meet a row found at in
      let (began, ended, bare) =
        forward_pass-keeps_actuals network snap policy a m.early forwards found m.placed finished in
      let (late_began, late_ended, late_bare) = subst (KeepsActuals a m.late) finished (
        backward_pass-KeepsActuals fingerprint network q snap policy a m.late forwards backwards
          found m.placed_late) in
      let same_start : early_begin m.early ≡ late_begin_of m.late =
        rw (bare, late_bare) (some-inj (sym began ∙ late_began)) in
      let same_finish : m.early.early_finish ≡ m.late.late_finish =
        some-inj (sym ended ∙ late_ended) in
      let listed =
        complete_activities-listed q.forward a.uid m.early m.placed
          (pass-complete network snap policy a m.early forwards found m.placed finished) in
      let no_start =
        m.start ∙ measure_nothing a.float_basis (float_calendar a) _ _ m.cal same_start in
      let no_finish =
        m.finish ∙ measure_nothing a.float_basis (float_calendar a) _ _ m.cal same_finish in
      let done = m.done ∙ listed in
      (
        m.total ∙ rw (no_start, no_finish) refl,
        m.free listed,
        done,
        m.decided ∙ rw done (and_false (leb_ℤ row.total_float f.threshold)),
      )

  -- Over a forward pass, its backward pass and their analysis, in a network where no activity has
  -- started, none carries a date that bounds it from above (SNLT, FNLT, MSO or MFO) and none an
  -- assignment envelope, and for a bound at or behind the project finish, no start float, no finish
  -- float and no total float is negative. The calendars are built by `CompiledIntervals.of`.
  pub float_analysis_nonnegative :
      (a : PlannedActivity) (row : ActivityFloat)
      → AreCompiled network
      → All IsOpen network.activities
      → q.forward.project_finish ≤ f.backward.project_late_finish
      → activity_by_uid network a.uid ≡ some a
      → float_at analysis.rows a.uid ≡ some row
      → (leb_ℤ (pos 0) row.start_float ≡ true)
        × (leb_ℤ (pos 0) row.finish_float ≡ true)
        × (leb_ℤ (pos 0) row.total_float ≡ true)
  unfolding activity_by_uid placed_at
  float_analysis_nonnegative a row compiled open_all covered found at =
      let m = meet a row found at in
      let (hs, hf) =
        backward_pass-InSlack fingerprint network q snap policy a m.early m.late compiled open_all
          forwards backwards covered found m.placed m.placed_late in
      let o = All-find IsOpen (λ b. b.uid) a.uid network.activities a open_all found in
      let (_, bare) =
        All-find IsFreshRow (λ (r : ActivityTimes). r.uid) a.uid q.forward.times m.early
          (pass-IsFreshRow network snap policy (open-IsFresh network.activities open_all) forwards)
          m.placed in
      let late_bare = subst (KeepsActuals a m.late) o.fresh (
        backward_pass-KeepsActuals fingerprint network q snap policy a m.late forwards backwards
          found m.placed_late) in
      let begins : early_begin m.early ≤ late_begin_of m.late = rw (bare, late_bare) hs in
      let start =
        subst (λ x. leb_ℤ (pos 0) x ≡ true) (sym m.start)
          (measure-on a.float_basis (float_calendar a) _ _ m.cal begins) in
      let finish =
        subst (λ x. leb_ℤ (pos 0) x ≡ true) (sym m.finish)
          (measure-on a.float_basis (float_calendar a) _ _ m.cal hf) in
      (
        start,
        finish,
        subst (λ x. leb_ℤ (pos 0) x ≡ true) (sym m.total)
            (min_ℤ_nonnegative row.start_float row.finish_float start finish),
      )
