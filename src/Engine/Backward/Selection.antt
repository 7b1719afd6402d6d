-- ===== src/Engine/Backward/Selection.antt =====
-- Which edges `_bounds` of sto/core/engine/backward.py selects.
use sto_scheduler_tracker_re.Prelude.{
  ℕ, ◌≡◌, sym, subst, List, [], ◌∷◌, ◌++◌, false, All, Option, some, none, elem, default,
  Bool-cases, Option-cases, inl, inr, if◌then◌else◌, ◌==◌,
}
use sto_scheduler_tracker_re.Engine.Outcome.{ok, ◌>>=◌, present, key_error, >>=-eq-ok, ok-inj}
use sto_scheduler_tracker_re.Engine.Model.{PlannedRelationship, bounds_successor_start}
use sto_scheduler_tracker_re.Engine.Late.{
  ActivityLateTimes, late_at, join_group, sorted_into, sort_edges, candidates, latest, winners,
  only, elect, elect_all, selected,
}

pub All-append {ℓ} :
    {A : Type ℓ} (P : A → Type 0) (xs ys : List A) → All P xs → All P ys → All P (xs ++ ys)
All-append P [] ys h k = k
All-append P (x ∷ xs) ys (h, hs) k = (h, All-append P xs ys hs k)

pub All-left {ℓ} : {A : Type ℓ} (P : A → Type 0) (xs ys : List A) → All P (xs ++ ys) → All P xs
All-left P [] ys h = tt
All-left P (x ∷ xs) ys (h, hs) = (h, All-left P xs ys hs)

abbrev Sorted : Type 0
Sorted = List PlannedRelationship × List (ℕ × List PlannedRelationship)

module _ (P : PlannedRelationship → Type 0) where
  abbrev AllSorted : Sorted → Type 0
  AllSorted (ordinary, groups) =
      All P ordinary × All (λ (g : ℕ × List PlannedRelationship). All P g.1) groups

  join_group-All :
      (u : ℕ) (r : PlannedRelationship) (groups : List (ℕ × List PlannedRelationship))
      → P r
      → All (λ (g : ℕ × List PlannedRelationship). All P g.1) groups
      → All (λ (g : ℕ × List PlannedRelationship). All P g.1) (join_group u r groups)
  unfolding join_group
  join_group-All u r [] p h = ((p, tt), tt)
  join_group-All u r ((v, rows) ∷ groups) p (h, hs) = elim (Bool-cases (v == u)) [
    | inl same ↦ rw same (All-append P rows (r ∷ []) h (p, tt), hs)
    | inr other ↦ rw other (h, join_group-All u r groups p hs)
  ]

  sorted_into-All :
      (boundary : Option ℕ) (r : PlannedRelationship) (s : Sorted)
      → P r
      → AllSorted s
      → AllSorted (sorted_into boundary r s)
  sorted_into-All none r (ordinary, groups) p (h, g) = (All-append P ordinary (r ∷ []) h (p, tt), g)
  sorted_into-All (some u) r (ordinary, groups) p (h, g) = (h, join_group-All u r groups p g)

  sort_edges-All :
      (rows : List PlannedRelationship) (released : List ℕ) (s : Sorted)
      → All (λ r. elem r.uid released ≡ false → P r) rows
      → AllSorted s
      → AllSorted (sort_edges rows released s)
  unfolding sort_edges
  sort_edges-All [] released s h k = k
  sort_edges-All (r ∷ rows) released s (h, hs) k = elim (Bool-cases (elem r.uid released)) [
    | inl out ↦ rw out (sort_edges-All rows released s hs k)
    | inr kept ↦ rw kept (
        sort_edges-All rows released (sorted_into r.inactive_boundary_uid r s) hs
          (sorted_into-All r.inactive_boundary_uid r s (h kept) k))
  ]

  candidates-All :
      (placed : List ActivityLateTimes) (rows : List PlannedRelationship)
      {rated : List (ℕ × PlannedRelationship)}
      → All P rows
      → candidates placed rows ≡ ok rated
      → All (λ (p : ℕ × PlannedRelationship). P p.1) rated
  unfolding candidates
  candidates-All placed [] h e = subst (All (λ (p : ℕ × PlannedRelationship). P p.1)) (ok-inj e) tt
  candidates-All placed (r ∷ rows) (h, hs) e =
      let rate : ActivityLateTimes → ℕ = λ (successor : ActivityLateTimes).
        if bounds_successor_start r
        then default successor.late_start successor.remaining_start
        else successor.late_finish in
      let (successor, _, later) =
        >>=-eq-ok (present (late_at placed r.successor_uid) key_error (some r.successor_uid))
          (λ successor. candidates placed rows >>= λ others. ok ((rate successor, r) ∷ others)) e in
      let (others, rated, last) =
        >>=-eq-ok (candidates placed rows) (λ others. ok ((rate successor, r) ∷ others)) later in
      subst (All (λ (p : ℕ × PlannedRelationship). P p.1)) (ok-inj last)
        (h, candidates-All placed rows hs rated)

  winners-All :
      (at : ℕ) (rated : List (ℕ × PlannedRelationship))
      → All (λ (p : ℕ × PlannedRelationship). P p.1) rated
      → All P (winners at rated)
  winners-All at [] h = tt
  winners-All at ((anchor, r) ∷ rest) (h, hs) = elim (Bool-cases (anchor == at)) [
    | inl wins ↦ rw wins (h, winners-All at rest hs)
    | inr loses ↦ rw loses (winners-All at rest hs)
  ]

  only-All :
      (u : ℕ) (rows : List PlannedRelationship) {r : PlannedRelationship}
      → All P rows
      → only u rows ≡ ok r
      → P r
  only-All u [] h e = cc
  only-All u (x ∷ []) (h, _) e = subst P (ok-inj e) h
  only-All u (x ∷ y ∷ rows) h e = cc

  contested-All :
      (placed : List ActivityLateTimes) (u : ℕ) (rows : List PlannedRelationship)
      {r : PlannedRelationship}
      → All P rows
      → (candidates placed rows >>= λ rated. only u (winners (latest rated) rated)) ≡ ok r
      → P r
  contested-All placed u rows h e =
      let (rated, there, last) =
        >>=-eq-ok (candidates placed rows) (λ rated. only u (winners (latest rated) rated)) e in
      only-All u (winners (latest rated) rated)
        (winners-All (latest rated) rated (candidates-All placed rows h there)) last

  elect-All :
      (placed : List ActivityLateTimes) (u : ℕ) (rows : List PlannedRelationship)
      {r : PlannedRelationship}
      → All P rows
      → elect placed (u, rows) ≡ ok r
      → P r
  unfolding elect
  elect-All placed u [] h e = contested-All placed u [] h e
  elect-All placed u (x ∷ []) h e = subst P (ok-inj e) h.0
  elect-All placed u (x ∷ y ∷ rows) h e = contested-All placed u (x ∷ y ∷ rows) h e

  elect_all-All :
      (placed : List ActivityLateTimes) (groups : List (ℕ × List PlannedRelationship))
      {edges : List PlannedRelationship}
      → All (λ (g : ℕ × List PlannedRelationship). All P g.1) groups
      → elect_all placed groups ≡ ok edges
      → All P edges
  unfolding elect_all
  elect_all-All placed [] h e = subst (All P) (ok-inj e) tt
  elect_all-All placed ((u, rows) ∷ groups) (h, hs) e =
      let (r, there, later) =
        >>=-eq-ok (elect placed (u, rows))
          (λ r. elect_all placed groups >>= λ others. ok (r ∷ others)) e in
      let (others, rest, last) =
        >>=-eq-ok (elect_all placed groups) (λ others. ok (r ∷ others)) later in
      subst (All P) (ok-inj last)
        (elect-All placed u rows h there, elect_all-All placed groups hs rest)

  selected-inv :
      (placed : List ActivityLateTimes) (outgoing : List PlannedRelationship) (released : List ℕ)
      {edges : List PlannedRelationship}
      → selected placed outgoing released ≡ ok edges
      → (elected : List PlannedRelationship) × (elect_all placed
            (sort_edges outgoing released ([], [])).1
          ≡ ok elected)
        × ((sort_edges outgoing released ([], [])).0 ++ elected ≡ edges)
  unfolding selected
  selected-inv placed outgoing released e =
      let sorted = sort_edges outgoing released ([], []) in
      let (elected, there, last) =
        >>=-eq-ok (elect_all placed sorted.1) (λ elected. ok (sorted.0 ++ elected)) e in
      (elected, there, ok-inj last)

  -- Every selected edge leaves the activity and is not released.
  pub selected-All :
      (placed : List ActivityLateTimes) (outgoing : List PlannedRelationship) (released : List ℕ)
      {edges : List PlannedRelationship}
      → All (λ r. elem r.uid released ≡ false → P r) outgoing
      → selected placed outgoing released ≡ ok edges
      → All P edges
  selected-All placed outgoing released h e =
      let sorted = sort_edges outgoing released ([], []) in
      let (elected, there, last) = selected-inv placed outgoing released e in
      let (o, g) = sort_edges-All outgoing released ([], []) h (tt, tt) in
      subst (All P) last (All-append P sorted.0 elected o (elect_all-All placed sorted.1 g there))

  -- An edge that is neither released nor of an inactive boundary is selected.
  abbrev Ordinary : List ℕ → PlannedRelationship → Type 0
  Ordinary released r = elem r.uid released ≡ false → r.inactive_boundary_uid ≡ none → P r

  sort_edges-kept :
      (rows : List PlannedRelationship) (released : List ℕ) (s : Sorted)
      → All P (sort_edges rows released s).0
      → All P s.0 × All (Ordinary released) rows
  unfolding sort_edges
  sort_edges-kept [] released s h = (h, tt)
  sort_edges-kept (r ∷ rows) released s h = elim (Bool-cases (elem r.uid released)) [
    | inl out ↦
        let (k, ks) = sort_edges-kept rows released s (
          subst
            (λ b.
              All P
                (if b
                  then sort_edges rows released s
                  else sort_edges rows released (sorted_into r.inactive_boundary_uid r s)).0)
            out h) in
        (k, ((λ kept. cc), ks))
    | inr kept ↦
        let (k, ks) = sort_edges-kept rows released (sorted_into r.inactive_boundary_uid r s) (
          subst
            (λ b.
              All P
                (if b
                  then sort_edges rows released s
                  else sort_edges rows released (sorted_into r.inactive_boundary_uid r s)).0)
            kept h) in
        elim (Option-cases r.inactive_boundary_uid) [
          | inl plain ↦
              let both = subst (λ b. All P (sorted_into b r s).0) plain k in
              (All-left P s.0 (r ∷ []) both, ((λ _ _. (last_of s.0 both)), ks))
          | inr (u, grouped) ↦
              (subst (λ b. All P (sorted_into b r s).0) grouped k, ((λ _ bare. cc), ks))
        ]
  ]
    where
      last_of : (xs : List PlannedRelationship) → All P (xs ++ r ∷ []) → P r
      last_of [] h = h.0
      last_of (x ∷ xs) h = last_of xs h.1

  pub selected-kept :
      (placed : List ActivityLateTimes) (outgoing : List PlannedRelationship) (released : List ℕ)
      {edges : List PlannedRelationship}
      → All P edges
      → selected placed outgoing released ≡ ok edges
      → All (Ordinary released) outgoing
  selected-kept placed outgoing released h e =
      let sorted = sort_edges outgoing released ([], []) in
      let (elected, there, last) = selected-inv placed outgoing released e in
      (sort_edges-kept outgoing released ([], [])
        (All-left P sorted.0 elected (subst (All P) (sym last) h))).1
