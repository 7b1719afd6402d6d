-- ===== src/Engine/Forward/Rounds.antt =====
-- The loop of `forward_pass` in sto/core/engine/forward.py: each row of its result was placed by one
-- round, from the rows before it.
use sto_scheduler_tracker_re.Prelude.{
  ℕ, ◌≡◌, refl, sym, ◌∙◌, ap, subst, List, [], ◌∷◌, ◌++◌, map, Bool, true, arith, Option, some, ◌⊎◌,
  inl, inr, default, not, ◌==◌, any, any-append_left, any-append_right, if◌then◌else◌,
}
use mathlib.Core.List.{append_assoc, append-nil}
use sto_scheduler_tracker_re.Engine.Outcome.{
  ok, ◌>>=◌, present, present-eq-ok, >>=-eq-ok, ok-inj, key_error,
}
use sto_scheduler_tracker_re.Engine.Model.{
  PlannedActivity, PlannedRelationship, Network, activity_by_uid, predecessors,
}
use sto_scheduler_tracker_re.Engine.Progress.{ProgressPolicy, state_of, relationship_binds}
use sto_scheduler_tracker_re.Engine.Place.{ActivityTimes, placed_at, Limits, bounds, calendar_floor}
use sto_scheduler_tracker_re.Engine.Reporting.{ConstraintViolation, Placed}
use sto_scheduler_tracker_re.Engine.Forward.{
  Loop, extend, place_by_state, place_activity, base_of, no_edges, place_all,
}
use sto_scheduler_tracker_re.Engine.Forward.Steps.{
  placed_state-uid, placed_at-append, placed_at-single, activity_by_uid-uid,
}

-- The activity has a row in the list of violations.
abbrev pub violated : List ConstraintViolation → ℕ → Bool
violated rows u = any (λ (x : ConstraintViolation). x.activity_uid == u) rows

abbrev pub Noted : List ConstraintViolation → List ConstraintViolation → Type 0
Noted some_rows rows = (u : ℕ) → violated some_rows u ≡ true → violated rows u ≡ true

module _ (network : Network) (snap : Bool) (policy : ProgressPolicy) where
  -- The relationships that bind the activity, and where its bounds begin.
  abbrev pub binding : PlannedActivity → List PlannedRelationship
  binding a =
      if relationship_binds policy (state_of a) network.status_time
      then predecessors network a.uid
      else []

  abbrev pub base : PlannedActivity → Option ℕ
  base a = base_of a (state_of a) (predecessors network a.uid) network

  pub activity-inv :
      (before : List ActivityTimes) (a : PlannedActivity) {p : Placed}
      → place_activity network snap policy before a ≡ ok p
      → (l : Limits) × (bounds a
            (binding a)
            before
            (base a)
            (default network.project_start (base a))
          ≡ ok l)
        × (place_by_state a
              (state_of a)
              l
              (default (calendar_floor a) (base a))
              (not (no_edges (binding a)))
              network
              snap
              policy
            ≡ ok p)
  unfolding place_activity
  activity-inv before a e =
      >>=-eq-ok (bounds a (binding a) before (base a) (default network.project_start (base a)))
        (λ l.
          place_by_state a (state_of a) l (default (calendar_floor a) (base a))
            (not (no_edges (binding a))) network snap policy)
        e

  activity-uid :
      (before : List ActivityTimes) (a : PlannedActivity) {p : Placed}
      → place_activity network snap policy before a ≡ ok p
      → p.row.uid ≡ a.uid
  activity-uid before a e =
      let (l, _, placed) = activity-inv before a e in
      placed_state-uid network snap policy a (state_of a) l (default (calendar_floor a) (base a))
        (not (no_edges (binding a))) placed

  -- The row stands in the loop's list because a round placed it, from the rows that stand before it.
  pub record Round (loop : Loop) (u : ℕ) (row : ActivityTimes) : Type 0 where
    pub activity : PlannedActivity
    pub before : List ActivityTimes
    pub rest : List ActivityTimes
    pub round : Placed
    pub found : activity_by_uid network u ≡ some activity
    pub placed : place_activity network snap policy before activity ≡ ok round
    pub rowed : round.row ≡ row
    pub standing : before ++ rest ≡ loop.placed
    pub noted : Noted round.violations loop.violations

  -- One round of `place_all`.
  pub all-inv :
      (u : ℕ) (us : List ℕ) (s : Loop) {s' : Loop}
      → place_all network snap policy (u ∷ us) s ≡ ok s'
      → (a : PlannedActivity) × (p : Placed) × (activity_by_uid network u ≡ some a)
        × (place_activity network snap policy s.placed a ≡ ok p)
        × (place_all network snap policy us (extend s p) ≡ ok s')
  unfolding place_all
  all-inv u us s e =
      let (a, found, later) =
        >>=-eq-ok (present (activity_by_uid network u) key_error (some u))
          (λ a. place_activity network snap policy s.placed a >>= λ p.
            place_all network snap policy us (extend s p))
          e in
      let (p, placed, last) =
        >>=-eq-ok (place_activity network snap policy s.placed a)
          (λ p. place_all network snap policy us (extend s p)) later in
      (a, p, present-eq-ok (activity_by_uid network u) _ _ found, placed, last)

  pub all-extends :
      (us : List ℕ) (s : Loop) {s' : Loop}
      → place_all network snap policy us s ≡ ok s'
      → (rest : List ActivityTimes) × (s.placed ++ rest ≡ s'.placed)
        × (map (λ (row : ActivityTimes). row.uid) rest ≡ us)
        × Noted s.violations s'.violations
  unfolding place_all
  all-extends [] s e = (
    [],
    append-nil s.placed ∙ ap (λ (t : Loop). t.placed) (ok-inj e),
    refl,
    λ u h. subst (λ (t : Loop). violated t.violations u ≡ true) (ok-inj e) h,
  )
  all-extends (u ∷ us) s e =
      let (a, p, found, placed, later) = all-inv u us s e in
      let (rest, grown, uids, kept) = all-extends us (extend s p) later in
      (
        p.row ∷ rest,
        sym (append_assoc s.placed (p.row ∷ []) rest) ∙ grown,
        ground (arith, uids, activity-uid s.placed a placed, activity_by_uid-uid network u a found),
        λ v h. kept v (
            any-append_left (λ (x : ConstraintViolation). x.activity_uid == v) s.violations
              p.violations h),
      )

  pub all-Round :
      (us : List ℕ) (s : Loop) {s' : Loop} (u : ℕ) (row : ActivityTimes)
      → place_all network snap policy us s ≡ ok s'
      → placed_at s'.placed u ≡ some row
      → (placed_at s.placed u ≡ some row) ⊎ Round s' u row
  unfolding place_all placed_at
  all-Round [] s u row e at = inl (ap (λ (t : Loop). placed_at t.placed u) (ok-inj e) ∙ at)
  all-Round (x ∷ us) s {s'} u row e at =
      let (a, p, found, placed, later) = all-inv x us s e in
      elim (all-Round us (extend s p) u row later at) [
        | inr round ↦ inr round
        | inl early ↦ elim (placed_at-append s.placed (p.row ∷ []) u row early) [
          | inl before ↦ inl before
          | inr now ↦
              let (key, same) = placed_at-single p.row u row now in
              let named : x ≡ u =
                sym (activity_by_uid-uid network x a found)
                ∙ sym (activity-uid s.placed a placed)
                ∙ key in
              let (rest, grown, _, kept) = all-extends us (extend s p) later in
              inr (record {
                activity = a;
                before = s.placed;
                rest = p.row ∷ rest;
                round = p;
                found = subst (λ v. activity_by_uid network v ≡ some a) named found;
                placed = placed;
                rowed = same;
                standing = sym (append_assoc s.placed (p.row ∷ []) rest) ∙ grown;
                noted = λ v h. kept v (
                    any-append_right (λ (x : ConstraintViolation). x.activity_uid == v) s.violations
                      p.violations h);
              })
        ]
      ]
