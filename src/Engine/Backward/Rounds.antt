-- ===== src/Engine/Backward/Rounds.antt =====
-- The rounds of the loop of `backward_pass` in sto/core/engine/backward.py, and the rows that they place.
use sto_scheduler_tracker_re.Prelude.{
  ℕ, ◌≡◌, sym, ◌∙◌, ap, subst, List, [], ◌∷◌, true, false, ◌==◌, elem, arith, Option, some,
  Bool-cases, inl, inr, ==_iff,
}
use sto_scheduler_tracker_re.Engine.Outcome.{
  Result, ok, ◌>>=◌, present, present-eq-ok, >>=-eq-ok, ok-inj, key_error,
  actual_finish_without_start, progress_state_incomplete,
}
use sto_scheduler_tracker_re.Engine.Model.{PlannedActivity, activity_by_uid, successors, remaining}
use sto_scheduler_tracker_re.Engine.Progress.{
  ProgressState, not_started, in_progress, complete, state_of,
}
use sto_scheduler_tracker_re.Calendar.Spans.{Span}
use sto_scheduler_tracker_re.Engine.Topology.Sets.{IsDistinct}
use sto_scheduler_tracker_re.Engine.Forward.Steps.{activity_by_uid-uid}
use sto_scheduler_tracker_re.Engine.Late.{
  LateSource, ActivityLateTimes, late_at, UpperBound, late_bounds,
}
use sto_scheduler_tracker_re.Engine.Late.Placement.{place_late, late_held_by}
use sto_scheduler_tracker_re.Engine.Backward.{
  LateContext, LateLoop, add_late, late_complete_row, late_limits, late_row, late_open_row,
  place_late_open, place_late_state, place_late_all,
}
use sto_scheduler_tracker_re.Engine.Backward.Keys.{late_at-here, late_at-there}

-- The row of an open activity: its bounds, its span, and what is made of them.
pub open-inv :
    (c : LateContext) (placed : List ActivityLateTimes) (a : PlannedActivity)
    (state : ProgressState) {row : ActivityLateTimes}
    → place_late_open c placed a state ≡ ok row
    → (b : UpperBound × UpperBound) × (span : Span) × (late_bounds c.network c.early placed
          (successors c.network a.uid)
          c.late_finish
          c.released
        ≡ ok b)
      × (place_late a
            (remaining a)
            (late_limits a state b).start.at
            (late_limits a state b).finish.at
            c.snap
            (late_limits a state b).pinned
            a.constraint_coordinate
          ≡ ok span)
      × (late_row a state span (late_held_by a (late_limits a state b) c.late_finish) ≡ ok row)
unfolding place_late_open
open-inv c placed a state e =
    let spanned : UpperBound × UpperBound → Result Span = λ b.
      place_late a (remaining a) (late_limits a state b).start.at (late_limits a state b).finish.at
        c.snap (late_limits a state b).pinned a.constraint_coordinate in
    let rowed : UpperBound × UpperBound → Span → Result ActivityLateTimes =
      λ b span. late_row a state span (late_held_by a (late_limits a state b) c.late_finish) in
    let (b, bounded, later) =
      >>=-eq-ok
        (late_bounds c.network c.early placed (successors c.network a.uid) c.late_finish c.released)
        (λ b. spanned b >>= λ span. rowed b span) e in
    let (span, placed_it, last) = >>=-eq-ok (spanned b) (λ span. rowed b span) later in
    (b, span, bounded, placed_it, last)

-- The row of a complete activity holds its actual dates.
pub late_complete-inv :
    (c : LateContext) (placed : List ActivityLateTimes) (a : PlannedActivity)
    {row : ActivityLateTimes}
    → place_late_state c placed a complete ≡ ok row
    → (s f : ℕ) × (a.actual_start ≡ some s)
      × (a.actual_finish ≡ some f)
      × (late_complete_row a s f ≡ row)
unfolding place_late_state
late_complete-inv c placed a e =
    let (s, started, later) =
      >>=-eq-ok (present a.actual_start actual_finish_without_start (some a.uid))
        (λ s. present a.actual_finish actual_finish_without_start (some a.uid) >>= λ f.
          ok (late_complete_row a s f))
        e in
    let (f, ended, last) =
      >>=-eq-ok (present a.actual_finish actual_finish_without_start (some a.uid))
        (λ f. ok (late_complete_row a s f)) later in
    (
      s,
      f,
      present-eq-ok a.actual_start _ _ started,
      present-eq-ok a.actual_finish _ _ ended,
      ok-inj last,
    )

-- The row of an activity under way keeps its actual start.
pub late_row-under_way :
    (a : PlannedActivity) (span : Span) (held : Option ℕ × LateSource) {row : ActivityLateTimes}
    → late_row a in_progress span held ≡ ok row
    → (began : ℕ) × (a.actual_start ≡ some began)
      × (record (late_open_row a span held) { late_start = began; remaining_start = some span.0 }
          ≡ row)
late_row-under_way a span held e =
    let (began, started, last) =
      >>=-eq-ok (present a.actual_start progress_state_incomplete (some a.uid))
        (λ began. ok (record (late_open_row a span held) {
          late_start = began;
          remaining_start = some span.0;
        }))
        e in
    (began, present-eq-ok a.actual_start _ _ started, ok-inj last)

module _ (c : LateContext) where
  late_state-uid :
      (placed : List ActivityLateTimes) (a : PlannedActivity) (state : ProgressState)
      {row : ActivityLateTimes}
      → place_late_state c placed a state ≡ ok row
      → row.uid ≡ a.uid
  unfolding place_late_state
  late_state-uid placed a not_started e =
      let (b, span, _, _, last) = open-inv c placed a not_started e in
      ap (λ (r : ActivityLateTimes). r.uid) (sym (ok-inj last))
  late_state-uid placed a in_progress e =
      let (b, span, _, _, last) = open-inv c placed a in_progress e in
      let (began, _, same) = late_row-under_way a span _ last in
      ap (λ (r : ActivityLateTimes). r.uid) (sym same)
  late_state-uid placed a complete e =
      let (s, f, _, _, same) = late_complete-inv c placed a e in
      ap (λ (r : ActivityLateTimes). r.uid) (sym same)

  -- One round of the loop.
  pub late_all-inv :
      (u : ℕ) (us : List ℕ) (s : LateLoop) {s' : LateLoop}
      → place_late_all c (u ∷ us) s ≡ ok s'
      → (a : PlannedActivity) × (row : ActivityLateTimes) × (activity_by_uid c.network u ≡ some a)
        × (place_late_state c s.placed a (state_of a) ≡ ok row)
        × (row.uid ≡ u)
        × (place_late_all c us (add_late s a row) ≡ ok s')
  unfolding place_late_all
  late_all-inv u us s e =
      let (a, found, later) =
        >>=-eq-ok (present (activity_by_uid c.network u) key_error (some u))
          (λ a. place_late_state c s.placed a (state_of a) >>= λ row.
            place_late_all c us (add_late s a row))
          e in
      let (row, placed, last) =
        >>=-eq-ok (place_late_state c s.placed a (state_of a))
          (λ row. place_late_all c us (add_late s a row)) later in
      let there = present-eq-ok (activity_by_uid c.network u) _ _ found in
      (
        a,
        row,
        there,
        placed,
        late_state-uid s.placed a (state_of a) placed ∙ activity_by_uid-uid c.network u a there,
        last,
      )

  -- The rounds to come do not touch the rows of other activities.
  pub late_all-keeps :
      (us : List ℕ) (s : LateLoop) {s' : LateLoop} (v : ℕ)
      → place_late_all c us s ≡ ok s'
      → elem v us ≡ false
      → late_at s'.placed v ≡ late_at s.placed v
  unfolding place_late_all
  late_all-keeps [] s v e m = ap (λ (t : LateLoop). late_at t.placed v) (sym (ok-inj e))
  late_all-keeps (u ∷ us) s v e m =
      let (a, row, found, placed, named, later) = late_all-inv u us s e in
      elim (Bool-cases (u == v)) [
        | inl same ↦ ground arith
        | inr other ↦
            late_all-keeps us (add_late s a row) v later (ground arith)
            ∙ late_at-there row s.placed v (rw named other)
      ]

  -- The row stands among those that the loop leaves because a round placed it, and the rows that this
  -- round read stand there too.
  pub record LateRound (rows : List ActivityLateTimes) (u : ℕ) (row : ActivityLateTimes)
      : Type 0 where
    pub activity : PlannedActivity
    pub before : List ActivityLateTimes
    pub found : activity_by_uid c.network u ≡ some activity
    pub placed : place_late_state c before activity (state_of activity) ≡ ok row
    pub kept : (v : ℕ) (r : ActivityLateTimes) → late_at before v ≡ some r → late_at rows v ≡ some r

  -- No row is placed yet for the rounds to come.
  abbrev pub Awaits : List ℕ → LateLoop → Type 0
  Awaits us s = (v : ℕ) (r : ActivityLateTimes) → late_at s.placed v ≡ some r → elem v us ≡ false

  pub late_all-Round :
      (us : List ℕ) (s : LateLoop) {s' : LateLoop} (u : ℕ) (row : ActivityLateTimes)
      → IsDistinct us
      → Awaits us s
      → place_late_all c us s ≡ ok s'
      → elem u us ≡ true
      → late_at s'.placed u ≡ some row
      → LateRound s'.placed u row
  late_all-Round [] s u row d w e m at = cc
  late_all-Round (x ∷ us) s {s'} u row d w e m at =
      let (a, new, found, placed, named, later) = late_all-inv x us s e in
      elim (Bool-cases (x == u)) [
        | inl same ↦
            let eq : x ≡ u = (==_iff x u).0 same in
            let kept : late_at s'.placed x ≡ some new =
              late_all-keeps us (add_late s a new) x later d.0
              ∙ late_at-here new s.placed x named in
            let is_row : new ≡ row = ground arith in
            record {
              activity = a;
              before = s.placed;
              found = subst (λ v. activity_by_uid c.network v ≡ some a) eq found;
              placed = subst (λ r. place_late_state c s.placed a (state_of a) ≡ ok r) is_row placed;
              kept = λ v r there.
                  let apart = w v r there in late_all-keeps (x ∷ us) s v e apart ∙ there;
            }
        | inr other ↦
            late_all-Round us (add_late s a new) u row d.1
              (λ v r there. elim (Bool-cases (x == v)) [
                | inl same ↦ subst (λ z. elem z us ≡ false) ((==_iff x v).0 same) d.0
                | inr apart ↦
                    let before =
                      w v r (sym (late_at-there new s.placed v (rw named apart)) ∙ there) in
                    ground arith
              ])
              later (ground arith) at
      ]
