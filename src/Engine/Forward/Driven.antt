-- ===== src/Engine/Forward/Driven.antt =====
-- The driving relationships of sto/core/engine/forward.py: `_bounds` names the edge that a bound was
-- taken from.
use sto_scheduler_tracker_re.Prelude.{
  ℕ, ◌≡◌, refl, sym, ◌∙◌, ap, subst, List, [], ◌∷◌, Bool, true, false, arith, Option, some, none,
  inl, inr, ◌⊎◌, Bool-cases, if◌then◌else◌, ltb,
}
use sto_scheduler_tracker_re.Engine.Outcome.{ok, >>=-eq-ok, ok-inj}
use sto_scheduler_tracker_re.Engine.Model.{
  PlannedActivity, PlannedRelationship, bounds_successor_start,
}
use sto_scheduler_tracker_re.Engine.Place.{
  ActivityTimes, Bound, takes, raise_bound, landing, bounds_loop, start_limit, finish_limit,
  floored, bounds, Limits, calendar_floor,
}

-- One of the elements meets the predicate.
abbrev pub Some : (PlannedRelationship → Type 0) → List PlannedRelationship → Type 0
Some P [] = ⊥
Some P (r ∷ rows) = P r ⊎ Some P rows

-- The relationship has the identity, bounds that side, and lands on the bound.
abbrev pub Drives :
    PlannedActivity
    → List ActivityTimes
    → (start_side : Bool) → (u at : ℕ) → PlannedRelationship
    → Type 0
Drives a placed start_side u at r =
    (r.uid ≡ u) × (bounds_successor_start r ≡ start_side) × (landing a placed r ≡ ok at)

-- Where a driver is named, the bound was taken from an edge, or stands as it stood.
abbrev From :
    PlannedActivity → List ActivityTimes → Bool → List PlannedRelationship → Bound → Bound → Type 0
From a placed start_side rows was b =
    (u : ℕ)
    → b.driver ≡ some u
    → ((was.driver ≡ some u) × (was.at ≡ b.at))
      ⊎ ((at : ℕ) × (b.at ≡ some at) × Some (Drives a placed start_side u at) rows)

pub raised-or-kept :
    (b : Bound) (shifted uid : ℕ)
    → (raise_bound b shifted uid ≡ record { at = some shifted; driver = some uid })
      ⊎ (raise_bound b shifted uid ≡ b)
unfolding raise_bound
raised-or-kept b shifted uid = elim (Bool-cases (takes b.at b.driver shifted)) [
  | inl raised ↦ inl (rw raised refl)
  | inr kept ↦ inr (rw kept refl)
]

module _ (a : PlannedActivity) (placed : List ActivityTimes) where
  -- One round, for the side that the edge bounds.
  From-raised :
      (start_side : Bool) (r : PlannedRelationship) (rows : List PlannedRelationship)
      (b last : Bound) (shifted : ℕ)
      → landing a placed r ≡ ok shifted
      → bounds_successor_start r ≡ start_side
      → From a placed start_side rows (raise_bound b shifted r.uid) last
      → From a placed start_side (r ∷ rows) b last
  From-raised side r rows b last shifted landed onto h u named = elim (h u named) [
    | inr (at, there, some_row) ↦ inr (at, there, inr some_row)
    | inl (held, stood) ↦ elim (raised-or-kept b shifted r.uid) [
      | inl raised ↦
          let both : some r.uid ≡ some u = ap (λ (k : Bound). k.driver) (sym raised) ∙ held in
          let mine : r.uid ≡ u = ground arith in
          let at : last.at ≡ some shifted = sym stood ∙ ap (λ (k : Bound). k.at) raised in
          inr (shifted, at, inl (mine, onto, landed))
      | inr kept ↦ inl (
        ap (λ (k : Bound). k.driver) (sym kept) ∙ held,
        ap (λ (k : Bound). k.at) (sym kept) ∙ stood,
      )
    ]
  ]

  From-past :
      (start_side : Bool) (r : PlannedRelationship) (rows : List PlannedRelationship)
      (b last : Bound)
      → From a placed start_side rows b last
      → From a placed start_side (r ∷ rows) b last
  From-past side r rows b last h u named = elim (h u named) [
    | inl stood ↦ inl stood
    | inr (at, there, some_row) ↦ inr (at, there, inr some_row)
  ]

  loop-From :
      (rows : List PlannedRelationship) (start finish s f : Bound)
      → bounds_loop a rows placed start finish ≡ ok (s, f)
      → From a placed true rows start s × From a placed false rows finish f
  unfolding bounds_loop
  loop-From [] start finish s f e =
      let same = ok-inj e in
      (
        λ u named. inl (
          ap (λ (p : Bound × Bound). p.0.driver) same ∙ named,
          ap (λ (p : Bound × Bound). p.0.at) same,
        ),
        λ u named. inl (
          ap (λ (p : Bound × Bound). p.1.driver) same ∙ named,
          ap (λ (p : Bound × Bound). p.1.at) same,
        ),
      )
  loop-From (r ∷ rows) start finish s f e =
      let (shifted, here, later) =
        >>=-eq-ok (landing a placed r)
          (λ shifted.
            bounds_loop a rows placed
              (if bounds_successor_start r then raise_bound start shifted r.uid else start)
              (if bounds_successor_start r then finish else raise_bound finish shifted r.uid))
          e in
      let (hs, hf) =
        loop-From rows (if bounds_successor_start r then raise_bound start shifted r.uid else start)
          (if bounds_successor_start r then finish else raise_bound finish shifted r.uid) s f
          later in
      elim (Bool-cases (bounds_successor_start r)) [
        | inl onto ↦ (
          From-raised true r rows start s shifted here onto (
              subst
                (λ b.
                  From a placed true rows (if b then raise_bound start shifted r.uid else start) s)
                onto hs),
          From-past false r rows finish f (
              subst
                (λ b.
                  From a placed false rows (if b then finish else raise_bound finish shifted r.uid)
                    f)
                onto hf),
        )
        | inr ends ↦ (
          From-past true r rows start s (
              subst
                (λ b.
                  From a placed true rows (if b then raise_bound start shifted r.uid else start) s)
                ends hs),
          From-raised false r rows finish f shifted here ends (
              subst
                (λ b.
                  From a placed false rows (if b then finish else raise_bound finish shifted r.uid)
                    f)
                ends hf),
        )
      ]

  start_limit-driver :
      (b : Bound) (unbounded floor : ℕ) (at : Option ℕ) (u : ℕ)
      → (start_limit b unbounded floor at).1 ≡ some u
      → (b.driver ≡ some u) × (at ≡ some (start_limit b unbounded floor at).0)
  start_limit-driver b unbounded floor none u e = cc
  start_limit-driver b unbounded floor (some x) u e = elim (Bool-cases (ltb x floor)) [
    | inl early ↦ ground arith
    | inr kept ↦ (ground arith, ground arith)
  ]

  finish_limit-driver :
      (b : Bound) (floor : ℕ) (at : Option ℕ) (u : ℕ)
      → (finish_limit b floor at).1 ≡ some u
      → (b.driver ≡ some u) × (at ≡ some (finish_limit b floor at).0)
  finish_limit-driver b floor none u e = cc
  finish_limit-driver b floor (some x) u e = elim (Bool-cases (ltb x floor)) [
    | inl early ↦ ground arith
    | inr kept ↦ (ground arith, ground arith)
  ]

  -- An edge that drives one side lands exactly on its bound.
  abbrev pub NamesEdges : List PlannedRelationship → Limits → Type 0
  NamesEdges rows l =
      ((u : ℕ) → l.start_driver ≡ some u → Some (Drives a placed true u l.start_bound) rows)
      × ((u : ℕ) → l.finish_driver ≡ some u → Some (Drives a placed false u l.finish_bound) rows)

  From-edge :
      (side : Bool) (rows : List PlannedRelationship) (base : Option ℕ) (b : Bound) (bound u : ℕ)
      → From a placed side rows (record { at = base; driver = none }) b
      → b.driver ≡ some u
      → b.at ≡ some bound
      → Some (Drives a placed side u bound) rows
  From-edge side rows base b bound u from named there = elim (from u named) [
    | inl (stood, _) ↦ cc
    | inr (at, at_there, edge) ↦
        let same : at ≡ bound = ground arith in
        subst (λ k. Some (Drives a placed side u k) rows) same edge
  ]

  pub bounds-NamesEdges :
      (rows : List PlannedRelationship) (base : Option ℕ) (unbounded : ℕ) (l : Limits)
      → bounds a rows placed base unbounded ≡ ok l
      → NamesEdges rows l
  unfolding bounds floored
  bounds-NamesEdges rows base unbounded l e =
      let b : Bound = record { at = base; driver = none } in
      let ((s, f), looped, done) =
        >>=-eq-ok (bounds_loop a rows placed b b)
          (λ (p : Bound × Bound). ok (floored a unbounded p.0 p.1)) e in
      let (hs, hf) = loop-From rows b b s f looped in
      subst (NamesEdges rows) (ok-inj done) (
        λ u named.
            let (held, there) = start_limit-driver s unbounded (calendar_floor a) s.at u named in
            From-edge true rows base s (floored a unbounded s f).start_bound u hs held there,
        λ u named.
            let (held, there) = finish_limit-driver f (calendar_floor a) f.at u named in
            From-edge false rows base f (floored a unbounded s f).finish_bound u hf held there,
      )
