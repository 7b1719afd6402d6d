-- ===== src/Engine/Criticality/Critical.antt =====
-- `critical_activities` of sto/core/engine/criticality.py, for a plan that nothing bounds from above.
use sto_scheduler_tracker_re.Prelude.{
  ℕ, ◌≡◌, refl, sym, ◌∙◌, ap, subst, List, [], ◌∷◌, map, filter, Bool, true, false, arith, some,
  All, All-find, elem, find, ◌==◌, ==_iff, Bool-cases, inl, inr, pos, leb_ℤ, min_ℤ,
}
use sto_scheduler_tracker_re.Engine.Outcome.{ok}
use sto_scheduler_tracker_re.Engine.Model.{
  PlannedActivity, Network, activity_by_uid, float_calendar,
}
use sto_scheduler_tracker_re.Engine.Progress.{ProgressPolicy}
use sto_scheduler_tracker_re.Engine.Topology.Sets.{IsDistinct}
use sto_scheduler_tracker_re.Engine.Place.{ActivityTimes, placed_at}
use sto_scheduler_tracker_re.Engine.Forward.{ForwardPass, forward_pass}
use sto_scheduler_tracker_re.Engine.Forward.Answer.{Attains, IsFinishOf, forward_pass-IsPassOf}
use sto_scheduler_tracker_re.Engine.Forward.Steps.{activity_by_uid-uid}
use sto_scheduler_tracker_re.Engine.Backward.{LateRequest, backward_pass}
use sto_scheduler_tracker_re.Engine.Backward.Targets.{AreCompiled}
use sto_scheduler_tracker_re.Engine.Backward.Edges.{placed_at-listed, activity_by_uid-listed}
use sto_scheduler_tracker_re.Engine.Backward.Honours.{backward_pass-Yields}
use sto_scheduler_tracker_re.Engine.Backward.Slack.{IsOpen, is_late_free-soft}
use sto_scheduler_tracker_re.Engine.Backward.Slack.Answer.{backward_pass-InSlack}
use sto_scheduler_tracker_re.Engine.Float.{ActivityFloat, FloatContext}
use sto_scheduler_tracker_re.Engine.Float.Measure.{min_ℤ-zero}
use sto_scheduler_tracker_re.Engine.Criticality.{
  FloatAnalysis, FloatRequest, float_analysis, critical_activities,
}
use sto_scheduler_tracker_re.Engine.Criticality.Analysis.{
  float_at, AreFloatRows, float_analysis-IsAnalysis,
}
use sto_scheduler_tracker_re.Engine.Criticality.Fresh.{pass-IsFreshRow, complete_activities-none}
use sto_scheduler_tracker_re.Engine.Criticality.Slack.{
  HasFloatCalendar, measure_nothing, meet, open-IsFresh, float_analysis_nonnegative,
}

placed_at-elem :
    (rows : List ActivityTimes) (u : ℕ) (e : ActivityTimes)
    → placed_at rows u ≡ some e
    → elem u (map (λ (r : ActivityTimes). r.uid) rows) ≡ true
unfolding placed_at
placed_at-elem [] u e at = cc
placed_at-elem (x ∷ xs) u e at = elim (Bool-cases (x.uid == u)) [
  | inl same ↦ rw same refl
  | inr other ↦ rw other (placed_at-elem xs u e (ground arith))
]

some-row : {x y : ActivityTimes} → some x ≡ some y → x ≡ y
some-row e = cc

-- The row that attains a finish is the one under its identity.
Attains-row :
    (rows : List ActivityTimes) (at : ℕ)
    → IsDistinct (map (λ (r : ActivityTimes). r.uid) rows)
    → Attains rows at
    → (u : ℕ) × (e : ActivityTimes) × (placed_at rows u ≡ some e) × (e.early_finish ≡ at)
unfolding placed_at
Attains-row [] at d h = absurd h
Attains-row (x ∷ xs) at d (inl here) = (x.uid, x, ground (arith, ==_iff x.uid x.uid), here)
Attains-row (x ∷ xs) at d (inr later) =
    let (u, e, there, finish) = Attains-row xs at d.1 later in
    let listed = placed_at-elem xs u e there in
    (u, e, ground (arith, d.0, listed, ==_iff x.uid u), finish)

last-Attains :
    (start : ℕ) (rows : List ActivityTimes) (at u : ℕ) (e : ActivityTimes)
    → IsFinishOf start rows at
    → placed_at rows u ≡ some e
    → Attains rows at
unfolding placed_at
last-Attains start [] at u e h there = cc
last-Attains start (x ∷ xs) at u e h there = h.1

find-listed :
    (rows : List PlannedActivity) (u : ℕ)
    → elem u (map (λ (a : PlannedActivity). a.uid) rows) ≡ true
    → (a : PlannedActivity) × (find (λ (b : PlannedActivity). b.uid) u rows ≡ some a)
find-listed [] u h = cc
find-listed (x ∷ xs) u h = elim (Bool-cases (x.uid == u)) [
  | inl same ↦ (x, rw same refl)
  | inr other ↦ let (a, at) = find-listed xs u (ground arith) in (a, rw other at)
]

float_at-listed :
    (c : FloatContext) (q : FloatRequest) (us : List ℕ) (rows : List ActivityFloat) (u : ℕ)
    → AreFloatRows c q us rows
    → elem u us ≡ true
    → (row : ActivityFloat) × (float_at rows u ≡ some row)
unfolding float_at
float_at-listed c q [] rows u h m = cc
float_at-listed c q (v ∷ vs) [] u h m = absurd h
float_at-listed c q (v ∷ vs) (x ∷ xs) u (h, hs) m = elim (Bool-cases (x.uid == u)) [
  | inl same ↦ (x, rw same refl)
  | inr other ↦
      let named = h.keyed in
      let (row, at) = float_at-listed c q vs xs u hs (ground arith) in (row, rw other at)
]

critical-listed :
    (rows : List ActivityFloat) (u : ℕ) (row : ActivityFloat)
    → float_at rows u ≡ some row
    → row.critical ≡ true
    → elem u (map (λ (r : ActivityFloat). r.uid) (filter (λ (r : ActivityFloat). r.critical) rows))
      ≡ true
unfolding float_at
critical-listed [] u row e h = cc
critical-listed (x ∷ xs) u row e h = elim (Bool-cases (x.uid == u)) [
  | inl same ↦
      let is_row : x ≡ row = ground arith in
      let on : x.critical ≡ true = ap (λ (r : ActivityFloat). r.critical) is_row ∙ h in
      rw (on, same) refl
  | inr other ↦ elim (Bool-cases x.critical) [
    | inl on ↦ rw (on, other) (critical-listed xs u row (ground arith) h)
    | inr off ↦ rw off (critical-listed xs u row (ground arith) h)
  ]
]

module _ (fingerprint : Network → ℕ) (network : Network) (snap : Bool) (policy : ProgressPolicy)
    (q : LateRequest) (f : FloatRequest) {analysis : FloatAnalysis}
    (calendars : All HasFloatCalendar network.activities) (compiled : AreCompiled network)
    (open_all : All IsOpen network.activities) (same_forward : f.forward ≡ q.forward)
    (forwards : forward_pass network snap policy ≡ ok q.forward)
    (backwards : backward_pass fingerprint network q ≡ ok f.backward)
    (analysed : float_analysis fingerprint network f ≡ ok analysis)
    (bound : f.backward.project_late_finish ≡ q.forward.project_finish)
    (positive : leb_ℤ (pos 0) f.threshold ≡ true) where
  -- An activity that finishes last has no float, and is critical.
  last-critical :
      (b : PlannedActivity) (e : ActivityTimes) (row : ActivityFloat)
      → activity_by_uid network b.uid ≡ some b
      → placed_at q.forward.times b.uid ≡ some e
      → e.early_finish ≡ q.forward.project_finish
      → float_at analysis.rows b.uid ≡ some row
      → row.critical ≡ true
  unfolding activity_by_uid
  last-critical b e row found placed last at =
      let m =
        meet fingerprint network snap policy q f calendars same_forward forwards backwards analysed
          b row found at in
      let o = All-find IsOpen (λ x. x.uid) b.uid network.activities b open_all found in
      let (start, _, _) =
        float_analysis_nonnegative fingerprint network snap policy q f calendars same_forward
          forwards backwards analysed b row compiled open_all (omega arith) found at in
      let (_, until, _) =
        backward_pass-Yields fingerprint network q snap policy b m.late compiled forwards backwards
          found m.placed_late (inl (o.fresh, is_late_free-soft b.constraint_type o.free)) in
      let (_, behind) =
        backward_pass-InSlack fingerprint network q snap policy b m.early m.late compiled open_all
          forwards backwards (omega arith) found m.placed m.placed_late in
      let is_e : m.early ≡ e = some-row (sym m.placed ∙ placed) in
      let early_last : m.early.early_finish ≡ q.forward.project_finish =
        ap (λ (r : ActivityTimes). r.early_finish) is_e ∙ last in
      let same : m.early.early_finish ≡ m.late.late_finish = omega arith in
      let no_finish = m.finish ∙ measure_nothing b.float_basis (float_calendar b) _ _ m.cal same in
      let no_total : row.total_float ≡ pos 0 =
        m.total ∙ ap (min_ℤ row.start_float) no_finish ∙ min_ℤ-zero row.start_float start in
      let fresh =
        pass-IsFreshRow network snap policy (open-IsFresh network.activities open_all) forwards in
      let unfinished : row.complete ≡ false =
        m.done ∙ ap (elem b.uid) (complete_activities-none q.forward fresh) in
      m.decided ∙ rw (no_total, unfinished, positive) refl

  -- Over a forward pass, its backward pass and their analysis, in a network where no activity has
  -- started, none carries a date that bounds it from above (SNLT, FNLT, MSO or MFO) and none an
  -- assignment envelope, for the project finish as the bound and a threshold that is not negative,
  -- some activity is critical, as soon as the network has one. The calendars are built by
  -- `CompiledIntervals.of`.
  pub float_analysis_has_critical :
      (a : PlannedActivity)
      → activity_by_uid network a.uid ≡ some a
      → (u : ℕ) × (elem u (critical_activities analysis) ≡ true)
  unfolding critical_activities activity_by_uid
  float_analysis_has_critical a known =
      let about = forward_pass-IsPassOf network snap policy forwards in
      let results = float_analysis-IsAnalysis fingerprint network f analysed in
      let (first_row, first_at) = placed_at-listed q.forward.times a.uid (
        ap (elem a.uid) about.rows
        ∙ about.ordered.all a.uid
        ∙ activity_by_uid-listed network a.uid a known) in
      let (u, e, placed, last) =
        Attains-row q.forward.times q.forward.project_finish
          (subst IsDistinct (sym about.rows) about.ordered.distinct)
          (last-Attains network.project_start q.forward.times q.forward.project_finish a.uid
            first_row about.finish first_at) in
      let ordered : elem u q.forward.order ≡ true =
        ap (elem u) (sym about.rows) ∙ placed_at-elem q.forward.times u e placed in
      let (b, found) = find-listed network.activities u (sym (about.ordered.all u) ∙ ordered) in
      let named = activity_by_uid-uid network u b found in
      let (row, at) =
        float_at-listed results.context f f.forward.order analysis.rows u results.rows
          (ap (λ (p : ForwardPass). elem u p.order) same_forward ∙ ordered) in
      (
        u,
        critical-listed analysis.rows u row at (
            last-critical b e row
              (subst (λ v. activity_by_uid network v ≡ some b) (sym named) found)
              (subst (λ v. placed_at q.forward.times v ≡ some e) (sym named) placed) last
              (subst (λ v. float_at analysis.rows v ≡ some row) (sym named) at)),
      )
