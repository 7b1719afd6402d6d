-- ===== src/Engine/Criticality/Fresh.antt =====
-- The rows of `forward_pass` in sto/core/engine/forward.py for activities that have not started or are
-- complete, as sto/core/engine/criticality.py reads them.
use sto_scheduler_tracker_re.Prelude.{
  ℕ, ◌≡◌, refl, sym, ◌∙◌, ap, subst, List, [], ◌∷◌, map, filter, Bool, true, arith, some, none, All,
  All-find, default, elem, not, is_some, ◌==◌, ◌&&◌, Bool-cases, inl, inr,
}
use sto_scheduler_tracker_re.Engine.Outcome.{ok, ok-inj}
use sto_scheduler_tracker_re.Engine.Model.{PlannedActivity, Network, activity_by_uid}
use sto_scheduler_tracker_re.Engine.Progress.{ProgressPolicy, not_started, complete, state_of}
use sto_scheduler_tracker_re.Engine.Place.{ActivityTimes, placed_at, calendar_floor}
use sto_scheduler_tracker_re.Engine.Reporting.{Placed}
use sto_scheduler_tracker_re.Engine.Untouched.{constrain, place_untouched}
use sto_scheduler_tracker_re.Engine.Forward.{
  ForwardPass, Loop, extend, no_rows, pass_of, place_by_state, place_activity, place_all, no_edges,
  forward_pass,
}
use sto_scheduler_tracker_re.Engine.Forward.Steps.{constrained-inv, complete-inv}
use sto_scheduler_tracker_re.Engine.Forward.Rounds.{binding, base, activity-inv, all-inv}
use sto_scheduler_tracker_re.Engine.Forward.Logic.{forward-inv}
use sto_scheduler_tracker_re.Engine.Forward.Honours.{pass-at}
use sto_scheduler_tracker_re.Engine.Results.{same_state, complete_activities}
use sto_scheduler_tracker_re.Engine.Backward.Selection.{All-append}

-- A row of an activity that has not started.
abbrev pub IsFreshRow : ActivityTimes → Type 0
IsFreshRow row = (row.state ≡ not_started) × (row.remaining_start ≡ none)

abbrev pub IsFresh : PlannedActivity → Type 0
IsFresh a = state_of a ≡ not_started

module _ (network : Network) (snap : Bool) (policy : ProgressPolicy) where
  round-IsFreshRow :
      (before : List ActivityTimes) (a : PlannedActivity) {p : Placed}
      → IsFresh a
      → place_activity network snap policy before a ≡ ok p
      → IsFreshRow p.row
  unfolding place_untouched
  round-IsFreshRow before a {p} fresh e =
      let (l, bounded, placed) = activity-inv network snap policy before a e in
      let floor = default (calendar_floor a) (base network snap policy a) in
      let bound = not (no_edges (binding network snap policy a)) in
      let fallback =
        bound && not (is_some l.start_driver) && l.start_bound == network.project_start in
      let c = constrain a.constraint_type a.constraint_coordinate l fallback in
      let (s, f, _, _, same) =
        constrained-inv network snap policy a l c floor (
          subst (λ st. place_by_state a st l floor bound network snap policy ≡ ok p) fresh
            placed) in
      (
        ap (λ (p : Placed). p.row.state) (sym same),
        ap (λ (p : Placed). p.row.remaining_start) (sym same),
      )

  loop-IsFreshRow :
      (us : List ℕ) (s : Loop) {s' : Loop}
      → All IsFresh network.activities
      → All IsFreshRow s.placed
      → place_all network snap policy us s ≡ ok s'
      → All IsFreshRow s'.placed
  unfolding place_all activity_by_uid
  loop-IsFreshRow [] s fresh h e = subst (λ (t : Loop). All IsFreshRow t.placed) (ok-inj e) h
  loop-IsFreshRow (u ∷ us) s fresh h e =
      let (a, p, found, placed, later) = all-inv network snap policy u us s e in
      let one =
        All-find IsFresh (λ (b : PlannedActivity). b.uid) u network.activities a fresh found in
      loop-IsFreshRow us (extend s p) fresh
        (All-append IsFreshRow s.placed (p.row ∷ []) h (round-IsFreshRow s.placed a one placed, tt))
        later

  -- Where no activity has started, no row says that one has.
  pub pass-IsFreshRow :
      {pass : ForwardPass}
      → All IsFresh network.activities
      → forward_pass network snap policy ≡ ok pass
      → All IsFreshRow pass.times
  unfolding pass_of
  pass-IsFreshRow fresh e =
      let (_, order, loop, _, placing, same) = forward-inv network snap policy e in
      subst (λ (p : ForwardPass). All IsFreshRow p.times) same
        (loop-IsFreshRow order no_rows fresh tt placing)

  -- The row of a complete activity says so.
  pub pass-complete :
      {pass : ForwardPass} (a : PlannedActivity) (row : ActivityTimes)
      → forward_pass network snap policy ≡ ok pass
      → activity_by_uid network a.uid ≡ some a
      → placed_at pass.times a.uid ≡ some row
      → state_of a ≡ complete
      → row.state ≡ complete
  pass-complete a row e found at finished =
      let (before, rest, l, p, bounded, placed, rowed, standing, _) =
        pass-at network snap policy a row e found at in
      let floor = default (calendar_floor a) (base network snap policy a) in
      let bound = not (no_edges (binding network snap policy a)) in
      let (s, f, started, ended, same) = complete-inv network snap policy a l (
        subst (λ st. place_by_state a st l floor bound network snap policy ≡ ok p) finished
          placed) in
      sym (ap (λ (r : ActivityTimes). r.state) (ap (λ (p : Placed). p.row) same ∙ rowed))

nothing-complete :
    (rows : List ActivityTimes)
    → All IsFreshRow rows
    → filter (λ (row : ActivityTimes). same_state row.state complete) rows ≡ []
nothing-complete [] h = refl
nothing-complete (x ∷ xs) ((fresh, _), hs) = rw fresh (nothing-complete xs hs)

pub complete_activities-none :
    (pass : ForwardPass) → All IsFreshRow pass.times → complete_activities pass ≡ []
unfolding complete_activities
complete_activities-none pass h = rw (nothing-complete pass.times h) refl

complete-listed :
    (rows : List ActivityTimes) (u : ℕ) (row : ActivityTimes)
    → placed_at rows u ≡ some row
    → row.state ≡ complete
    → elem u (
        map
          (λ (r : ActivityTimes). r.uid)
          (filter (λ (r : ActivityTimes). same_state r.state complete) rows))
      ≡ true
unfolding placed_at
complete-listed [] u row e h = cc
complete-listed (x ∷ xs) u row e h = elim (Bool-cases (x.uid == u)) [
  | inl same ↦
      let is_row : x ≡ row = ground arith in
      let state : x.state ≡ complete = ap (λ (r : ActivityTimes). r.state) is_row ∙ h in
      rw (state, same) refl
  | inr other ↦ elim (Bool-cases (same_state x.state complete)) [
    | inl done ↦ rw (done, other) (complete-listed xs u row (ground arith) h)
    | inr left ↦ rw left (complete-listed xs u row (ground arith) h)
  ]
]

pub complete_activities-listed :
    (pass : ForwardPass) (u : ℕ) (row : ActivityTimes)
    → placed_at pass.times u ≡ some row
    → row.state ≡ complete
    → elem u (complete_activities pass) ≡ true
unfolding complete_activities
complete_activities-listed pass u row e h = complete-listed pass.times u row e h
