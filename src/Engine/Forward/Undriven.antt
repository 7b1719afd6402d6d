-- ===== src/Engine/Forward/Undriven.antt =====
-- The bounds of sto/core/engine/forward.py that no edge drives, and the rows that move no bound.
use sto_scheduler_tracker_re.Prelude.{
  ℕ, ◌≡◌, ◌≤◌, refl, sym, ap, subst, List, [], ◌∷◌, ◌++◌, arith, Option, some, none, inl, inr, ◌⊎◌,
  Bool-cases, if◌then◌else◌, ltb,
}
use sto_scheduler_tracker_re.Engine.Outcome.{ok, >>=-eq-ok, ok-inj}
use sto_scheduler_tracker_re.Engine.Model.{
  PlannedActivity, PlannedRelationship, bounds_successor_start,
}
use sto_scheduler_tracker_re.Engine.Place.{
  ActivityTimes, Bound, raise_bound, landing, bounds_loop, finish_limit, floored, bounds, Limits,
  calendar_floor,
}
use sto_scheduler_tracker_re.Engine.Forward.Logic.{landing-keeps}
use sto_scheduler_tracker_re.Engine.Forward.Driven.{raised-or-kept}

module _ (a : PlannedActivity) (placed : List ActivityTimes) where
  -- A side that no edge drives was reached by none.
  abbrev Claimed : Bound → Type 0
  Claimed b = (b.at ≡ none) ⊎ ((u : ℕ) × (b.driver ≡ some u))

  raise_bound-Claimed :
      (b : Bound) (shifted uid : ℕ) → Claimed b → Claimed (raise_bound b shifted uid)
  raise_bound-Claimed b shifted uid h = elim (raised-or-kept b shifted uid) [
    | inl raised ↦ inr (uid, ap (λ (k : Bound). k.driver) raised)
    | inr kept ↦ subst Claimed (sym kept) h
  ]

  loop-Claimed :
      (rows : List PlannedRelationship) (start finish s f : Bound)
      → bounds_loop a rows placed start finish ≡ ok (s, f)
      → Claimed finish
      → Claimed f
  unfolding bounds_loop
  loop-Claimed [] start finish s f e h =
      subst Claimed (ap (λ (p : Bound × Bound). p.1) (ok-inj e)) h
  loop-Claimed (r ∷ rows) start finish s f e h =
      let (shifted, here, later) =
        >>=-eq-ok (landing a placed r)
          (λ shifted.
            bounds_loop a rows placed
              (if bounds_successor_start r then raise_bound start shifted r.uid else start)
              (if bounds_successor_start r then finish else raise_bound finish shifted r.uid))
          e in
      loop-Claimed rows
        (if bounds_successor_start r then raise_bound start shifted r.uid else start)
        (if bounds_successor_start r then finish else raise_bound finish shifted r.uid) s f later
        (elim (Bool-cases (bounds_successor_start r)) [
          | inl onto ↦ rw onto h
          | inr ends ↦ rw ends (raise_bound-Claimed finish shifted r.uid h)
        ])

  finish_limit-undriven :
      (b : Bound) (floor : ℕ) (at : Option ℕ)
      → b.at ≡ at
      → Claimed b
      → (floor ≤ (finish_limit b floor at).0)
        × ((finish_limit b floor at).1 ≡ none → (finish_limit b floor at).0 ≡ floor)
  finish_limit-undriven b floor none there h = (omega arith, λ free. refl)
  finish_limit-undriven b floor (some x) there (inl missing) = cc
  finish_limit-undriven b floor (some x) there (inr (u, driven)) = elim (Bool-cases (ltb x floor)) [
    | inl early ↦ (ground arith, λ free. ground arith)
    | inr kept ↦ (ground arith, λ free. ground arith)
  ]

  -- The finish bound lies at the calendar's floor or behind it, and at it where no edge drives it.
  pub bounds-undriven :
      (rows : List PlannedRelationship) (unbounded : ℕ) (l : Limits)
      → bounds a rows placed none unbounded ≡ ok l
      → (calendar_floor a ≤ l.finish_bound)
        × (l.finish_driver ≡ none → l.finish_bound ≡ calendar_floor a)
  unfolding bounds floored
  bounds-undriven rows unbounded l e =
      let b : Bound = record { at = none; driver = none } in
      let ((s, f), looped, done) =
        >>=-eq-ok (bounds_loop a rows placed b b)
          (λ (p : Bound × Bound). ok (floored a unbounded p.0 p.1)) e in
      subst
        (λ (m : Limits).
          (calendar_floor a ≤ m.finish_bound)
          × (m.finish_driver ≡ none → m.finish_bound ≡ calendar_floor a))
        (ok-inj done)
        (finish_limit-undriven f (calendar_floor a) f.at refl
          (loop-Claimed rows b b s f looped (inl refl)))

-- The rows that are placed later move no bound.
loop-keeps :
    (a : PlannedActivity) (before rest : List ActivityTimes) (rows : List PlannedRelationship)
    (start finish : Bound) {p : Bound × Bound}
    → bounds_loop a rows before start finish ≡ ok p
    → bounds_loop a rows (before ++ rest) start finish ≡ ok p
unfolding bounds_loop
loop-keeps a before rest [] start finish e = e
loop-keeps a before rest (r ∷ rows) start finish e =
    let (shifted, here, later) =
      >>=-eq-ok (landing a before r)
        (λ shifted.
          bounds_loop a rows before
            (if bounds_successor_start r then raise_bound start shifted r.uid else start)
            (if bounds_successor_start r then finish else raise_bound finish shifted r.uid))
        e in
    rw (landing-keeps a before rest r here) (
      loop-keeps a before rest rows
        (if bounds_successor_start r then raise_bound start shifted r.uid else start)
        (if bounds_successor_start r then finish else raise_bound finish shifted r.uid) later)

pub bounds-keeps :
    (a : PlannedActivity) (before rest : List ActivityTimes) (rows : List PlannedRelationship)
    (base : Option ℕ) (unbounded : ℕ) {l : Limits}
    → bounds a rows before base unbounded ≡ ok l
    → bounds a rows (before ++ rest) base unbounded ≡ ok l
unfolding bounds
bounds-keeps a before rest rows base unbounded e =
    let b : Bound = record { at = base; driver = none } in
    let ((s, f), looped, done) =
      >>=-eq-ok (bounds_loop a rows before b b)
        (λ (p : Bound × Bound). ok (floored a unbounded p.0 p.1)) e in
    rw (loop-keeps a before rest rows b b looped) done
