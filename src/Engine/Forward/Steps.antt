-- ===== src/Engine/Forward/Steps.antt =====
-- The loop of `forward_pass` in sto/core/engine/forward.py: each row of its result was placed by one
-- round, from the rows before it.
use sto_scheduler_tracker_re.Prelude.{
  ℕ, ◌≡◌, sym, ◌∙◌, ap, List, [], ◌∷◌, ◌++◌, Bool, arith, some, none, Bool-cases, inl, inr, ◌⊎◌,
  ==_iff, ◌==◌, find, ◌&&◌, not, is_some,
}
use sto_scheduler_tracker_re.Engine.Outcome.{
  Result, ok, ◌>>=◌, present, present-eq-ok, ok-inj, >>=-eq-ok, actuals_incoherent,
  actual_finish_without_start,
}
use sto_scheduler_tracker_re.Engine.Model.{PlannedActivity, Network, remaining, activity_by_uid}
use sto_scheduler_tracker_re.Engine.Progress.{
  ProgressPolicy, ProgressState, not_started, in_progress, complete,
}
use sto_scheduler_tracker_re.Engine.Place.{ActivityTimes, placed_at, Limits}
use sto_scheduler_tracker_re.Calendar.Spans.{Span}
use sto_scheduler_tracker_re.Engine.Placement.{place}
use sto_scheduler_tracker_re.Engine.Reporting.{
  Placed, reported, start_floor, finish_floor, reported_driver, in_progress_row, complete_row,
  place_complete, place_in_progress, place_reported,
}
use sto_scheduler_tracker_re.Engine.Untouched.{
  Constrained, constrain, held_by, fallback_decides, untouched, place_constrained, place_untouched,
}
use sto_scheduler_tracker_re.Engine.Forward.{place_by_state}

pub placed_at-append :
    (xs ys : List ActivityTimes) (u : ℕ) (row : ActivityTimes)
    → placed_at (xs ++ ys) u ≡ some row
    → (placed_at xs u ≡ some row) ⊎ (placed_at ys u ≡ some row)
unfolding placed_at
placed_at-append [] ys u row e = inr e
placed_at-append (x ∷ xs) ys u row e = elim (Bool-cases (x.uid == u)) [
  | inl same ↦ inl (ground arith)
  | inr other ↦ elim (placed_at-append xs ys u row (ground arith)) [
    | inl found ↦ inl (ground arith)
    | inr found ↦ inr found
  ]
]

pub placed_at-keeps :
    (xs ys : List ActivityTimes) (u : ℕ) (row : ActivityTimes)
    → placed_at xs u ≡ some row
    → placed_at (xs ++ ys) u ≡ some row
unfolding placed_at
placed_at-keeps [] ys u row e = cc
placed_at-keeps (x ∷ xs) ys u row e = elim (Bool-cases (x.uid == u)) [
  | inl same ↦ ground arith
  | inr other ↦ rw other (placed_at-keeps xs ys u row (ground arith))
]

pub placed_at-single :
    (x : ActivityTimes) (u : ℕ) (row : ActivityTimes)
    → placed_at (x ∷ []) u ≡ some row
    → (x.uid ≡ u) × (x ≡ row)
unfolding placed_at
placed_at-single x u row e = elim (Bool-cases (x.uid == u)) [
  | inl same ↦ ((==_iff x.uid u).0 same, ground arith)
  | inr other ↦ ground arith
]

find-key :
    (rows : List PlannedActivity) (u : ℕ) (a : PlannedActivity)
    → find (λ (row : PlannedActivity). row.uid) u rows ≡ some a
    → a.uid ≡ u
find-key [] u a e = cc
find-key (x ∷ xs) u a e = elim (Bool-cases (x.uid == u)) [
  | inl same ↦ ground (arith, ==_iff x.uid u)
  | inr other ↦ find-key xs u a (ground arith)
]

pub activity_by_uid-uid :
    (network : Network) (u : ℕ) (a : PlannedActivity)
    → activity_by_uid network u ≡ some a
    → a.uid ≡ u
unfolding activity_by_uid
activity_by_uid-uid network u a e = find-key network.activities u a e

module _ (network : Network) (snap : Bool) (policy : ProgressPolicy) where
  -- The dates of a row that has not started come from `_place`, within its constrained bounds.
  pub constrained-inv :
      (a : PlannedActivity) (l : Limits) (c : Constrained) (floor : ℕ) {p : Placed}
      → place_constrained a l c floor network snap ≡ ok p
      → (s f : ℕ) × (unbounded : List ℕ) × (place a
            (remaining a)
            c.limits.start_bound
            c.limits.finish_bound
            network.horizon
            snap
            c.pinned
            a.constraint_coordinate
          ≡ ok (s, f))
        × (untouched a l c (held_by a c floor network snap) (s, f) unbounded ≡ p)
  unfolding place_constrained
  constrained-inv a l c floor {p} e =
      let held = held_by a c floor network snap in
      let ((s, f), spanned, later) =
        >>=-eq-ok
          (place a (remaining a) c.limits.start_bound c.limits.finish_bound network.horizon snap
            c.pinned a.constraint_coordinate)
          (λ span.
            fallback_decides a c network snap span >>= λ ub. ok (untouched a l c held span ub))
          e in
      let (ub, _, last) =
        >>=-eq-ok (fallback_decides a c network snap (s, f))
          (λ ub. ok (untouched a l c held (s, f) ub)) later in
      (s, f, ub, spanned, ok-inj last)

  -- The dates of a row under way: its reported start, and a finish from `_place`.
  pub in_progress-inv :
      (a : PlannedActivity) (l : Limits) {p : Placed}
      → place_reported a in_progress l network snap policy ≡ ok p
      → (began s f : ℕ) × (a.actual_start ≡ some began)
        × (place a
              (remaining a)
              (start_floor l network policy began)
              (finish_floor l network policy began)
              network.horizon
              snap
              none
              none
            ≡ ok (s, f))
        × (reported a (
              in_progress_row a
                (reported_driver a l network snap policy began)
                network.status_time
                began
                (s, f))
            ≡ p)
  unfolding place_reported place_in_progress
  in_progress-inv a l {p} e =
      let (row, rowed, last) =
        >>=-eq-ok (place_in_progress a l network snap policy) (λ row. ok (reported a row)) e in
      let spans : ℕ → Result Span = λ began.
        place a (remaining a) (start_floor l network policy began)
          (finish_floor l network policy began) network.horizon snap none none in
      let done : ℕ → Span → ActivityTimes = λ began span.
        in_progress_row a (reported_driver a l network snap policy began) network.status_time began
          span in
      let (began, started, later) =
        >>=-eq-ok (present a.actual_start actuals_incoherent (some a.uid))
          (λ began. spans began >>= λ span. ok (done began span)) rowed in
      let ((s, f), spanned, same) = >>=-eq-ok (spans began) (λ span. ok (done began span)) later in
      (
        began,
        s,
        f,
        present-eq-ok a.actual_start _ _ started,
        spanned,
        (ap (reported a) (ok-inj same)) ∙ ok-inj last,
      )

  pub complete-inv :
      (a : PlannedActivity) (l : Limits) {p : Placed}
      → place_reported a complete l network snap policy ≡ ok p
      → (s f : ℕ) × (a.actual_start ≡ some s)
        × (a.actual_finish ≡ some f)
        × (reported a (complete_row a s f) ≡ p)
  unfolding place_reported place_complete
  complete-inv a l {p} e =
      let (row, rowed, last) = >>=-eq-ok (place_complete a) (λ row. ok (reported a row)) e in
      let (s, started, later) =
        >>=-eq-ok (present a.actual_start actual_finish_without_start (some a.uid))
          (λ s. present a.actual_finish actual_finish_without_start (some a.uid) >>= λ f.
            ok (complete_row a s f))
          rowed in
      let (f, finished, same) =
        >>=-eq-ok (present a.actual_finish actual_finish_without_start (some a.uid))
          (λ f. ok (complete_row a s f)) later in
      (
        s,
        f,
        present-eq-ok a.actual_start _ _ started,
        present-eq-ok a.actual_finish _ _ finished,
        ap (reported a) (ok-inj same) ∙ ok-inj last,
      )

  -- A round places the row of its own activity.
  pub placed_state-uid :
      (a : PlannedActivity) (state : ProgressState) (l : Limits) (floor : ℕ) (bound : Bool)
      {p : Placed}
      → place_by_state a state l floor bound network snap policy ≡ ok p
      → p.row.uid ≡ a.uid
  unfolding place_untouched
  placed_state-uid a not_started l floor bound e =
      let (_, _, _, _, same) =
        constrained-inv a l
          (constrain a.constraint_type a.constraint_coordinate l
            (bound && not (is_some l.start_driver) && l.start_bound == network.project_start))
          floor e in
      ap (λ (p : Placed). p.row.uid) (sym same)
  placed_state-uid a in_progress l floor bound e =
      let (_, _, _, _, _, same) = in_progress-inv a l e in ap (λ (p : Placed). p.row.uid) (sym same)
  placed_state-uid a complete l floor bound e =
      let (_, _, _, _, same) = complete-inv a l e in ap (λ (p : Placed). p.row.uid) (sym same)
