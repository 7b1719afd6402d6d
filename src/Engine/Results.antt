-- ===== src/Engine/Results.antt =====
-- The queries of `ForwardPass` in sto/core/engine/forward.py, with what they answer.
use sto_scheduler_tracker_re.Prelude.{
  ℕ, ◌≡◌, refl, subst, List, [], ◌∷◌, ◌++◌, map, Option, some, none, Bool, true, false, ◌||◌, arith,
  any, filter, elem, ◌==◌, ==_iff, if◌then◌else◌, Bool-cases, inl, inr,
}
use sto_scheduler_tracker_re.Engine.Progress.{ProgressState, not_started, in_progress, complete}
use sto_scheduler_tracker_re.Engine.Place.{ActivityTimes, placed_at}
use sto_scheduler_tracker_re.Engine.Topology.Degrees.{elem-append}
use sto_scheduler_tracker_re.Engine.Topology.Sets.{IsDistinct, IsDistinct-append}
use sto_scheduler_tracker_re.Engine.Forward.{ForwardPass}

-- A lookup in the dictionary that `by_uid` builds.
unfoldable pub by_uid : ForwardPass → ℕ → Option ActivityTimes
unfolding placed_at
by_uid pass u = placed_at pass.times u

abbrev pub note_driver : Option ℕ → List ℕ → List ℕ
note_driver none seen = seen
note_driver (some uid) seen = if elem uid seen then seen else seen ++ uid ∷ []

unfoldable pub note_drivers : List ActivityTimes → List ℕ → List ℕ
note_drivers [] seen = seen
note_drivers (row ∷ rest) seen = note_drivers rest (note_driver row.driving_relationship_uid seen)

unfoldable pub driving_relationships : ForwardPass → List ℕ
unfolding note_drivers
driving_relationships pass = note_drivers pass.times []

abbrev pub same_state : ProgressState → ProgressState → Bool
same_state not_started not_started = true
same_state in_progress in_progress = true
same_state complete complete = true
same_state _ _ = false

-- The entry of `by_state` for a state.
unfoldable pub by_state : ForwardPass → ProgressState → List ℕ
by_state pass state =
    map (λ (row : ActivityTimes). row.uid)
      (filter (λ (row : ActivityTimes). same_state row.state state) pass.times)

unfoldable pub complete_activities : ForwardPass → List ℕ
complete_activities pass =
    map (λ (row : ActivityTimes). row.uid)
      (filter (λ (row : ActivityTimes). same_state row.state complete) pass.times)

-- The relationship drives the row.
abbrev pub drives : ℕ → Option ℕ → Bool
drives v none = false
drives v (some u) = u == v

elem-note_driver :
    (v : ℕ) (driver : Option ℕ) (seen : List ℕ)
    → elem v (note_driver driver seen) ≡ (elem v seen || drives v driver)
elem-note_driver v none seen = ground arith
elem-note_driver v (some u) seen = elim (Bool-cases (elem u seen)) [
  | inl known ↦ elim (Bool-cases (u == v)) [
    | inl same ↦
        let known' = subst (λ w. elem w seen ≡ true) ((==_iff u v).0 same) known in ground arith
    | inr other ↦ ground arith
  ]
  | inr fresh ↦ ground (arith, elem-append v seen (u ∷ []))
]

note_driver-IsDistinct :
    (driver : Option ℕ) (seen : List ℕ) → IsDistinct seen → IsDistinct (note_driver driver seen)
note_driver-IsDistinct none seen d = d
note_driver-IsDistinct (some u) seen d = elim (Bool-cases (elem u seen)) [
  | inl known ↦ rw known d
  | inr fresh ↦ rw fresh (
      IsDistinct-append seen (u ∷ []) d (refl, tt)
        (λ v m. elim (Bool-cases (u == v)) [
          | inl same ↦
              let fresh' = subst (λ w. elem w seen ≡ false) ((==_iff u v).0 same) fresh in cc
          | inr other ↦ ground arith
        ]))
]

note_drivers-lists :
    (v : ℕ) (rows : List ActivityTimes) (seen : List ℕ)
    → elem v (note_drivers rows seen)
      ≡ (elem v seen || any (λ (row : ActivityTimes). drives v row.driving_relationship_uid) rows)
unfolding note_drivers
note_drivers-lists v [] seen = ground arith
note_drivers-lists v (row ∷ rest) seen = ground (
  arith,
  note_drivers-lists v rest (note_driver row.driving_relationship_uid seen),
  elem-note_driver v row.driving_relationship_uid seen,
)

note_drivers-IsDistinct :
    (rows : List ActivityTimes) (seen : List ℕ)
    → IsDistinct seen
    → IsDistinct (note_drivers rows seen)
unfolding note_drivers
note_drivers-IsDistinct [] seen d = d
note_drivers-IsDistinct (row ∷ rest) seen d =
    note_drivers-IsDistinct rest (note_driver row.driving_relationship_uid seen)
      (note_driver-IsDistinct row.driving_relationship_uid seen d)

-- `driving_relationships` lists each relationship once, and exactly those that drive a row of the pass.
pub driving_relationships-lists :
    (pass : ForwardPass)
    → IsDistinct (driving_relationships pass)
      × ((v : ℕ)
          → elem v (driving_relationships pass)
            ≡ any (λ (row : ActivityTimes). drives v row.driving_relationship_uid) pass.times)
unfolding driving_relationships
driving_relationships-lists pass =
    (note_drivers-IsDistinct pass.times [] tt, λ v. note_drivers-lists v pass.times [])
