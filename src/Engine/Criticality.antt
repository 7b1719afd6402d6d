-- ===== src/Engine/Criticality.antt =====
-- `float_analysis` of sto/core/engine/criticality.py. The fingerprint of the answer is left out.
pub mod Analysis
pub mod Fresh
pub mod Slack
pub mod Critical
use sto_scheduler_tracker_re.Prelude.{
  ℕ, List, [], ◌∷◌, map, Option, none, some, Bool, true, false, ◌&&◌, ◌||◌, not, ◌==◌, elem, filter,
  if◌then◌else◌, ℤ, pos, min_ℤ, leb_ℤ, default,
}
use sto_scheduler_tracker_re.Calendar.Compiled.{first, prev_working_start}
use sto_scheduler_tracker_re.Calendar.Spans.{Span, latest_span}
use sto_scheduler_tracker_re.Engine.Outcome.{
  Result, ok, ◌>>=◌, ◌>>◌, raise_if, present, key_error, pass_mismatch, policy_mismatch,
  horizon_exceeded,
}
use sto_scheduler_tracker_re.Engine.Model.{
  PlannedActivity, PlannedRelationship, Network, activity_by_uid, successors, float_calendar,
  has_started, is_zero, remaining,
}
use sto_scheduler_tracker_re.Engine.Progress.{ProgressState, not_started, complete}
use sto_scheduler_tracker_re.Engine.Place.{ActivityTimes, placed_at}
use sto_scheduler_tracker_re.Engine.Forward.{ForwardPass}
use sto_scheduler_tracker_re.Engine.Forward.Bounds.{is_hard}
use sto_scheduler_tracker_re.Engine.Results.{same_state, complete_activities}
use sto_scheduler_tracker_re.Engine.Late.{ActivityLateTimes, late_at}
use sto_scheduler_tracker_re.Engine.Backward.{BackwardPass, same_policy, same_flag}
use sto_scheduler_tracker_re.Engine.Float.{ActivityFloat, measure, FloatContext, free_float}

pub record FloatAnalysis : Type 0 where
  pub rows : List ActivityFloat
  pub threshold : ℤ
  pub project_late_finish : ℕ

-- An activity beside its early row.
abbrev pub Paired : Type 0
Paired = PlannedActivity × ActivityTimes

-- `early[activity.uid]`, for every activity of the network.
unfoldable pub pair_rows : List ActivityTimes → List PlannedActivity → Result (List Paired)
unfolding placed_at
pair_rows early [] = ok []
pair_rows early (a ∷ rest) = do
  row ← present (placed_at early a.uid) key_error (some a.uid)
  others ← pair_rows early rest
  ok ((a, row) ∷ others)

abbrev pub uids_where : (Paired → Bool) → List Paired → List ℕ
uids_where test rows = map (λ (p : Paired). p.0.uid) (filter test rows)

abbrev pub in_state : ProgressState → Paired → Bool
in_state state (a, row) = same_state row.state state

unfoldable pub exactly_pinned : List Paired → List ℕ
exactly_pinned rows = uids_where (λ p. in_state not_started p && is_hard (p.0).constraint_type) rows

unfoldable pub snapped_zero_spans : (snap : Bool) → List Paired → List ℕ
unfolding exactly_pinned remaining
snapped_zero_spans snap rows =
    uids_where
      (λ p.
        snap
        && is_zero (remaining p.0)
        && not (in_state complete p)
        && not (elem (p.0).uid (exactly_pinned rows)))
      rows

abbrev pub is_positive : ℤ → Bool
is_positive d = leb_ℤ (pos 1) d

unfoldable pub calendar_placed_starts : (snap : Bool) → List Paired → List ℕ
unfolding exactly_pinned snapped_zero_spans remaining
calendar_placed_starts snap rows =
    uids_where
      (λ p.
        in_state not_started p
        && not (elem (p.0).uid (exactly_pinned rows))
        && (is_positive (remaining p.0) || elem (p.0).uid (snapped_zero_spans snap rows)))
      rows

-- The latest complete span within the horizon.
abbrev pub last_span : PlannedActivity → (horizon : ℕ) → Option ℕ → Option Span
last_span a horizon none = none
last_span a horizon (some floor) = latest_span a.calendar horizon horizon (remaining a) floor

abbrev pub start_limit_of : PlannedActivity → ActivityTimes → ℕ → ℕ
start_limit_of a row limit = if has_started a then row.early_start else limit

abbrev pub open_limit :
    Network → (snapped : List ℕ) → PlannedActivity → ActivityTimes → (zero : Bool) → Result (ℕ × ℕ)
open_limit network snapped a row true = do
  limit ←
      present
        (if elem a.uid snapped
          then prev_working_start a.calendar network.horizon
          else some network.horizon)
        horizon_exceeded (some a.uid)
  ok (start_limit_of a row limit, limit)
open_limit network snapped a row false = do
  (s, f) ← present (last_span a network.horizon (first a.calendar)) horizon_exceeded (some a.uid)
  ok (start_limit_of a row s, f)

-- The entry of `movement_limits` for an activity.
unfoldable pub movement_limit : Network → (snapped : List ℕ) → Paired → Result (ℕ × ℕ)
unfolding first latest_span remaining has_started
movement_limit network snapped (a, row) =
    let open_row = open_limit network snapped a row (is_zero (remaining a)) in
    if in_state complete (a, row) then ok (row.early_start, row.early_finish) else open_row

unfoldable pub movement_limits :
    Network → (snapped : List ℕ) → List Paired → Result (List (ℕ × ℕ × ℕ))
unfolding movement_limit
movement_limits network snapped [] = ok []
movement_limits network snapped ((a, row) ∷ rest) = do
  (start_limit, finish_limit) ← movement_limit network snapped (a, row)
  others ← movement_limits network snapped rest
  ok ((a.uid, start_limit, finish_limit) ∷ others)

-- The start of what is still to be done.
abbrev pub early_begin : ActivityTimes → ℕ
early_begin row = default row.early_start row.remaining_start

abbrev pub late_begin_of : ActivityLateTimes → ℕ
late_begin_of row = default row.late_start row.remaining_start

-- A row of the answer, once its free float is known.
unfoldable pub float_row :
    PlannedActivity
    → ActivityTimes
    → ActivityLateTimes
    → (threshold : ℤ) (done : Bool) → (free : ℤ) → ActivityFloat
unfolding measure float_calendar
float_row a early late threshold done free =
    let start_float =
      measure a.float_basis (float_calendar a) (early_begin early) (late_begin_of late) in
    let finish_float =
      measure a.float_basis (float_calendar a) early.early_finish late.late_finish in
    record {
      uid = a.uid;
      total_float = min_ℤ start_float finish_float;
      free_float = free;
      critical = leb_ℤ (min_ℤ start_float finish_float) threshold && not done;
      start_float = start_float;
      finish_float = finish_float;
      complete = done;
    }

-- The arguments of `float_analysis` beside the network, with the fingerprint that the forward pass
-- carries.
pub record FloatRequest : Type 0 where
  pub forward : ForwardPass
  pub forward_fingerprint : ℕ
  pub backward : BackwardPass
  pub threshold : ℤ

-- The edges out of an activity that are not released.
unfoldable pub held_edges : Network → (released : List ℕ) → ℕ → List PlannedRelationship
unfolding successors
held_edges network released u =
    filter (λ (r : PlannedRelationship). not (elem r.uid released)) (successors network u)

-- One round of the loop of `float_analysis`.
unfoldable pub analyse : FloatContext → FloatRequest → ℕ → Result ActivityFloat
unfolding activity_by_uid placed_at late_at held_edges free_float float_row
analyse c q u = do
  a ← present (activity_by_uid c.network u) key_error (some u)
  early ← present (placed_at c.early u) key_error (some u)
  late ← present (late_at q.backward.times u) key_error (some u)
  free ← free_float c a early (held_edges c.network q.backward.overridden_relationships u)
  ok (float_row a early late q.threshold (elem u c.immovable) free)

unfoldable pub analyse_all : FloatContext → FloatRequest → List ℕ → Result (List ActivityFloat)
unfolding analyse
analyse_all c q [] = ok []
analyse_all c q (u ∷ rest) = do
  row ← analyse c q u
  others ← analyse_all c q rest
  ok (row ∷ others)

-- The guards of `float_analysis`.
unfoldable pub admit_float : (fingerprint : ℕ) → FloatRequest → Result (Unit {0})
admit_float fingerprint q = do
  raise_if
      (not (q.forward_fingerprint == fingerprint)
        || not (q.backward.network_fingerprint == fingerprint))
      pass_mismatch none
  raise_if (not (same_policy q.forward.progress_policy q.backward.progress_policy)) policy_mismatch
      none
  raise_if (not (same_flag q.forward.snap_milestones q.backward.snap_milestones)) policy_mismatch
      none

abbrev pub float_context : Network → FloatRequest → List Paired → List (ℕ × ℕ × ℕ) → FloatContext
float_context network q rows limits = record {
  network = network;
  early = q.forward.times;
  movement_limits = limits;
  snapped_zero_spans = snapped_zero_spans q.forward.snap_milestones rows;
  calendar_placed_starts = calendar_placed_starts q.forward.snap_milestones rows;
  immovable = complete_activities q.forward;
  project_late_finish = q.backward.project_late_finish;
}

abbrev pub analysis_of : FloatRequest → List ActivityFloat → FloatAnalysis
analysis_of q rows = record {
  rows = rows;
  threshold = q.threshold;
  project_late_finish = q.backward.project_late_finish;
}

-- `fingerprint` stands for `Network.fingerprint`, a SHA-256 digest.
unfoldable pub float_analysis : (Network → ℕ) → Network → FloatRequest → Result FloatAnalysis
unfolding admit_float pair_rows movement_limits snapped_zero_spans calendar_placed_starts
    complete_activities analyse_all
float_analysis fingerprint network q = do
  admit_float (fingerprint network) q
  pairs ← pair_rows q.forward.times network.activities
  limits ← movement_limits network (snapped_zero_spans q.forward.snap_milestones pairs) pairs
  rows ← analyse_all (float_context network q pairs limits) q q.forward.order
  ok (analysis_of q rows)

-- The queries of `FloatAnalysis` and of its rows.
unfoldable pub critical_activities : FloatAnalysis → List ℕ
critical_activities analysis =
    map (λ (row : ActivityFloat). row.uid)
      (filter (λ (row : ActivityFloat). row.critical) analysis.rows)

unfoldable pub is_negative : ActivityFloat → Bool
is_negative row = leb_ℤ row.total_float (ℤ.negsuc 0)

unfoldable pub negative_float_activities : FloatAnalysis → List ℕ
unfolding is_negative
negative_float_activities analysis =
    map (λ (row : ActivityFloat). row.uid)
      (filter (λ (row : ActivityFloat). is_negative row) analysis.rows)
