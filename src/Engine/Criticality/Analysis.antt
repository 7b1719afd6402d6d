-- ===== src/Engine/Criticality/Analysis.antt =====
-- What an analysis that `float_analysis` of sto/core/engine/criticality.py returns is.
use sto_scheduler_tracker_re.Prelude.{
  ℕ, ◌≡◌, refl, sym, ◌∙◌, subst, List, [], ◌∷◌, ◌&&◌, not, elem, find, arith, Option, some, ◌==◌,
  ==_iff, Bool-cases, inl, inr, min_ℤ, leb_ℤ,
}
use sto_scheduler_tracker_re.Engine.Outcome.{
  Result, ok, ◌>>=◌, present, present-eq-ok, >>=-eq-ok, ok-inj, key_error,
}
use sto_scheduler_tracker_re.Engine.Model.{
  PlannedActivity, Network, activity_by_uid, float_calendar,
}
use sto_scheduler_tracker_re.Engine.Place.{ActivityTimes, placed_at}
use sto_scheduler_tracker_re.Engine.Results.{complete_activities}
use sto_scheduler_tracker_re.Engine.Forward.Steps.{activity_by_uid-uid}
use sto_scheduler_tracker_re.Engine.Late.{ActivityLateTimes, late_at}
use sto_scheduler_tracker_re.Engine.Float.{ActivityFloat, measure, FloatContext, free_float}
use sto_scheduler_tracker_re.Engine.Criticality.{
  FloatAnalysis, FloatRequest, Paired, pair_rows, movement_limits, snapped_zero_spans, float_row,
  held_edges, analyse, analyse_all, admit_float, float_context, analysis_of, float_analysis,
  early_begin, late_begin_of,
}

-- The row of an activity in the answer.
unfoldable pub float_at : List ActivityFloat → ℕ → Option ActivityFloat
float_at rows u = find (λ row. row.uid) u rows

analysis-inv :
    (fingerprint : Network → ℕ) (network : Network) (q : FloatRequest) {analysis : FloatAnalysis}
    → float_analysis fingerprint network q ≡ ok analysis
    → (pairs : List Paired) × (limits : List (ℕ × ℕ × ℕ)) × (rows : List ActivityFloat)
      × (admit_float (fingerprint network) q ≡ ok tt)
      × (pair_rows q.forward.times network.activities ≡ ok pairs)
      × (movement_limits network (snapped_zero_spans q.forward.snap_milestones pairs) pairs
          ≡ ok limits)
      × (analyse_all (float_context network q pairs limits) q q.forward.order ≡ ok rows)
      × (analysis_of q rows ≡ analysis)
unfolding float_analysis
analysis-inv fingerprint network q e =
    let limited : List Paired → Result (List (ℕ × ℕ × ℕ)) =
      λ pairs. movement_limits network (snapped_zero_spans q.forward.snap_milestones pairs) pairs in
    let listed : List Paired → List (ℕ × ℕ × ℕ) → Result FloatAnalysis = λ pairs limits.
      analyse_all (float_context network q pairs limits) q q.forward.order >>= λ rows.
      ok (analysis_of q rows) in
    let (_, admitted, e1) =
      >>=-eq-ok (admit_float (fingerprint network) q)
        (λ _.
          pair_rows q.forward.times network.activities >>= λ pairs. limited pairs >>= listed pairs)
        e in
    let (pairs, paired, e2) =
      >>=-eq-ok (pair_rows q.forward.times network.activities)
        (λ pairs. limited pairs >>= listed pairs) e1 in
    let (limits, moved, e3) = >>=-eq-ok (limited pairs) (listed pairs) e2 in
    let (rows, analysed, e4) =
      >>=-eq-ok (analyse_all (float_context network q pairs limits) q q.forward.order)
        (λ rows. ok (analysis_of q rows)) e3 in
    (pairs, limits, rows, admitted, paired, moved, analysed, ok-inj e4)

-- A row of the answer: the two floats between the early and the late dates, in the activity's own
-- basis and calendar, the total as the smaller, and what they decide.
pub record IsFloatRow (c : FloatContext) (q : FloatRequest) (u : ℕ) (row : ActivityFloat)
    : Type 0 where
  pub activity : PlannedActivity
  pub early : ActivityTimes
  pub late : ActivityLateTimes
  pub known : activity_by_uid c.network u ≡ some activity
  pub placed : placed_at c.early u ≡ some early
  pub placed_late : late_at q.backward.times u ≡ some late
  pub free :
      free_float c activity early (held_edges c.network q.backward.overridden_relationships u)
      ≡ ok row.free_float
  pub start :
      row.start_float
      ≡ measure activity.float_basis
          (float_calendar activity)
          (early_begin early)
          (late_begin_of late)
  pub finish :
      row.finish_float
      ≡ measure activity.float_basis (float_calendar activity) early.early_finish late.late_finish
  pub total : row.total_float ≡ min_ℤ row.start_float row.finish_float
  pub done : row.complete ≡ elem u c.immovable
  pub decided : row.critical ≡ (leb_ℤ row.total_float q.threshold && not row.complete)
  pub keyed : row.uid ≡ u

analyse-IsFloatRow :
    (c : FloatContext) (q : FloatRequest) (u : ℕ) {row : ActivityFloat}
    → analyse c q u ≡ ok row
    → IsFloatRow c q u row
unfolding analyse float_row
analyse-IsFloatRow c q u {row} e =
    let edges = held_edges c.network q.backward.overridden_relationships u in
    let rated : PlannedActivity → ActivityTimes → ActivityLateTimes → Result ActivityFloat =
      λ a early late. free_float c a early edges >>= λ free.
      ok (float_row a early late q.threshold (elem u c.immovable) free) in
    let (a, known, e1) =
      >>=-eq-ok (present (activity_by_uid c.network u) key_error (some u))
        (λ a. present (placed_at c.early u) key_error (some u) >>= λ early.
          present (late_at q.backward.times u) key_error (some u) >>= rated a early)
        e in
    let (early, placed, e2) =
      >>=-eq-ok (present (placed_at c.early u) key_error (some u))
        (λ early. present (late_at q.backward.times u) key_error (some u) >>= rated a early) e1 in
    let (late, placed_late, e3) =
      >>=-eq-ok (present (late_at q.backward.times u) key_error (some u)) (rated a early) e2 in
    let (free, freed, e4) =
      >>=-eq-ok (free_float c a early edges)
        (λ free. ok (float_row a early late q.threshold (elem u c.immovable) free)) e3 in
    let there = present-eq-ok (activity_by_uid c.network u) _ _ known in
    subst (IsFloatRow c q u) (ok-inj e4) (record {
      activity = a;
      early = early;
      late = late;
      known = there;
      placed = present-eq-ok (placed_at c.early u) _ _ placed;
      placed_late = present-eq-ok (late_at q.backward.times u) _ _ placed_late;
      free = freed;
      start = refl;
      finish = refl;
      total = refl;
      done = refl;
      decided = refl;
      keyed = activity_by_uid-uid c.network u a there;
    })

-- Rows for a list of identities, one for each, in its order.
abbrev pub AreFloatRows : FloatContext → FloatRequest → List ℕ → List ActivityFloat → Type 0
AreFloatRows c q [] [] = Unit
AreFloatRows c q (u ∷ us) (row ∷ rows) = IsFloatRow c q u row × AreFloatRows c q us rows
AreFloatRows c q _ _ = ⊥

all-AreFloatRows :
    (c : FloatContext) (q : FloatRequest) (us : List ℕ) {rows : List ActivityFloat}
    → analyse_all c q us ≡ ok rows
    → AreFloatRows c q us rows
unfolding analyse_all
all-AreFloatRows c q [] e = subst (AreFloatRows c q []) (ok-inj e) tt
all-AreFloatRows c q (u ∷ us) e =
    let (row, one, later) =
      >>=-eq-ok (analyse c q u) (λ row. analyse_all c q us >>= λ others. ok (row ∷ others)) e in
    let (others, rest, last) = >>=-eq-ok (analyse_all c q us) (λ others. ok (row ∷ others)) later in
    subst (AreFloatRows c q (u ∷ us)) (ok-inj last)
      (analyse-IsFloatRow c q u one, all-AreFloatRows c q us rest)

-- What an analysis is made of.
pub record IsAnalysis (network : Network) (q : FloatRequest) (analysis : FloatAnalysis)
    : Type 0 where
  pub context : FloatContext
  pub network_of : context.network ≡ network
  pub early_of : context.early ≡ q.forward.times
  pub done_of : context.immovable ≡ complete_activities q.forward
  pub bound_by : context.project_late_finish ≡ q.backward.project_late_finish
  pub rows : AreFloatRows context q q.forward.order analysis.rows
  pub threshold : analysis.threshold ≡ q.threshold
  pub finish : analysis.project_late_finish ≡ q.backward.project_late_finish

-- Whatever `float_analysis` returns has one row for each activity in the order of the forward pass:
-- the start float and the finish float between its early and its late dates, in the activity's basis
-- and on its float calendar, the total as the smaller of the two, complete as the forward pass reports
-- it, and critical exactly where the total is at most the threshold and the activity is not complete.
pub float_analysis-IsAnalysis :
    (fingerprint : Network → ℕ) (network : Network) (q : FloatRequest) {analysis : FloatAnalysis}
    → float_analysis fingerprint network q ≡ ok analysis
    → IsAnalysis network q analysis
float_analysis-IsAnalysis fingerprint network q e =
    let (pairs, limits, rows, _, _, _, analysed, same) = analysis-inv fingerprint network q e in
    let c = float_context network q pairs limits in
    subst (IsAnalysis network q) same (record {
      context = c;
      network_of = refl;
      early_of = refl;
      done_of = refl;
      bound_by = refl;
      rows = all-AreFloatRows c q q.forward.order analysed;
      threshold = refl;
      finish = refl;
    })

-- A row that is looked up is a row of the analysis.
pub at-IsFloatRow :
    (c : FloatContext) (q : FloatRequest) (us : List ℕ) (rows : List ActivityFloat) (u : ℕ)
    (row : ActivityFloat)
    → AreFloatRows c q us rows
    → float_at rows u ≡ some row
    → IsFloatRow c q u row
unfolding float_at
at-IsFloatRow c q [] [] u row h e = cc
at-IsFloatRow c q [] (x ∷ xs) u row h e = absurd h
at-IsFloatRow c q (v ∷ vs) [] u row h e = absurd h
at-IsFloatRow c q (v ∷ vs) (x ∷ xs) u row (h, hs) e = elim (Bool-cases (x.uid == u)) [
  | inl same ↦
      let is_row : x ≡ row = ground arith in
      subst (λ z. IsFloatRow c q z row) (sym h.keyed ∙ (==_iff x.uid u).0 same)
        (subst (IsFloatRow c q v) is_row h)
  | inr other ↦ at-IsFloatRow c q vs xs u row hs (ground arith)
]
