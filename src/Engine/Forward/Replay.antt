-- ===== src/Engine/Forward/Replay.antt =====
-- The replay of `_driver` in sto/core/engine/forward.py against `_place`: what the start bound alone
-- makes of an activity.
use sto_scheduler_tracker_re.Prelude.{
  ℕ, zero, suc, ◌≤◌, ◌<◌, ◌≡◌, refl, sym, subst, Bool, true, false, arith, Option, some, none, max,
  Option-cases, inl, inr, ◌⊎◌, ℤ, pos, negsuc, le_or_gt,
}
use sto_scheduler_tracker_re.Calendar.Intervals.{Intervals}
use sto_scheduler_tracker_re.Calendar.Compiled.{of, normalise, next_working}
use sto_scheduler_tracker_re.Calendar.Queries.{IsWorking, IsNext, next_working-IsNext}
use sto_scheduler_tracker_re.Calendar.Spans.{earliest_span}
use sto_scheduler_tracker_re.Calendar.Earliest.{IsEarliest}
use sto_scheduler_tracker_re.Calendar.Earliest.Answer.{earliest_span-IsEarliest}
use sto_scheduler_tracker_re.Engine.Outcome.{ok, present-eq-ok}
use sto_scheduler_tracker_re.Engine.Model.{PlannedActivity}
use sto_scheduler_tracker_re.Engine.Placement.{place_free, snapped, without_finish, reaches, driver}

-- The second answer is the one of the lower bound. It lies no later, and is the first one where it
-- reaches the finish bound of that.
abbrev Lowered : (finish_bound s f s' f' : ℕ) → Type 0
Lowered fb s f s' f' = (fb ≤ f) × (f' ≤ f) × (fb ≤ f' → (s' ≡ s) × (f' ≡ f))

earliest-Lowered :
    (raw : Intervals) (sb fb floor d h s f : ℕ)
    → floor ≤ fb
    → earliest_span (of raw) sb fb (pos d) h ≡ some (s, f)
    → (s' f' : ℕ) × (earliest_span (of raw) sb floor (pos d) h ≡ some (s', f'))
      × Lowered fb s f s' f'
earliest-Lowered raw sb fb floor d h s f low e =
    let xs = normalise raw in
    let upper : IsEarliest xs sb fb d h (some (s, f)) =
      subst (IsEarliest xs sb fb d h) e (earliest_span-IsEarliest raw sb fb d h) in
    let (spans, after, until, inside) = upper.0 in
    elim (Option-cases (earliest_span (of raw) sb floor (pos d) h)) [
      | inl missing ↦
          let lower : IsEarliest xs sb floor d h none =
            subst (IsEarliest xs sb floor d h) missing
              (earliest_span-IsEarliest raw sb floor d h) in
          absurd (lower s f (spans, after, omega arith, inside))
      | inr ((s', f'), found) ↦
          let lower : IsEarliest xs sb floor d h (some (s', f')) =
            subst (IsEarliest xs sb floor d h) found (earliest_span-IsEarliest raw sb floor d h) in
          let (spans', after', until', inside') = lower.0 in
          let (sooner, ends) = lower.1 s f (spans, after, omega arith, inside) in
          (
            s',
            f',
            found,
            (
              until,
              ends,
              λ reached.
                  let (later, ends') = upper.1 s' f' (spans', after', reached, inside') in
                  (omega arith, omega arith),
            ),
          )
    ]

snapped-Lowered :
    (a : PlannedActivity) (raw : Intervals) (snap : Bool) (sb fb floor m : ℕ)
    → of raw ≡ a.calendar
    → floor ≤ fb
    → snapped snap a.calendar (max sb fb) ≡ some m
    → (m' : ℕ) × (snapped snap a.calendar (max sb floor) ≡ some m') × Lowered fb m m m' m'
snapped-Lowered a raw false sb fb floor m cal low e =
    let same : max sb fb ≡ m = ground arith in
    (max sb floor, refl, (omega arith, omega arith, λ reached. (omega arith, omega arith)))
snapped-Lowered a raw true sb fb floor m cal low e =
    let upper : IsNext (IsWorking raw) (max sb fb) (some m) =
      subst (IsNext (IsWorking raw) (max sb fb))
        (subst (λ k. next_working k (max sb fb) ≡ some m) (sym cal) e)
        (next_working-IsNext raw (max sb fb)) in
    let (after, works, least) = upper in
    elim (Option-cases (next_working (of raw) (max sb floor))) [
      | inl missing ↦
          let lower : IsNext (IsWorking raw) (max sb floor) none =
            subst (IsNext (IsWorking raw) (max sb floor)) missing
              (next_working-IsNext raw (max sb floor)) in
          absurd (lower m (omega arith) works)
      | inr (m', found) ↦
          let lower : IsNext (IsWorking raw) (max sb floor) (some m') =
            subst (IsNext (IsWorking raw) (max sb floor)) found
              (next_working-IsNext raw (max sb floor)) in
          let (after', works', least') = lower in
          let sooner : m' ≤ m = least' m (omega arith) works in
          (
            m',
            subst (λ k. next_working k (max sb floor) ≡ some m') cal found,
            (
              omega arith,
              sooner,
              λ reached.
                  let later : m ≤ m' = least m' (omega arith) works' in (omega arith, omega arith),
            ),
          )
    ]

replayed :
    (a : PlannedActivity) (raw : Intervals) (d : ℤ) (sb fb floor h : ℕ) (snap : Bool) (s f : ℕ)
    → of raw ≡ a.calendar
    → floor ≤ fb
    → place_free a d sb fb h snap ≡ ok (s, f)
    → (s' f' : ℕ) × (without_finish a d sb floor h snap ≡ some (s', f'))
      × (place_free a d sb floor h snap ≡ ok (s', f'))
      × Lowered fb s f s' f'
unfolding place_free without_finish
replayed a raw (pos zero) sb fb floor h snap s f cal low e =
    elim (Option-cases (snapped snap a.calendar (max sb fb))) [
      | inl missing ↦ ground arith
      | inr (m, found) ↦
          let (m', found', lowered) = snapped-Lowered a raw snap sb fb floor m cal low found in
          let same : (m ≡ s) × (m ≡ f) × (m ≤ h) = (ground arith, ground arith, ground arith) in
          let inside : m' ≤ h = omega (arith, lowered.1) in
          (
            m',
            m',
            ground arith,
            ground arith,
            subst (λ z. Lowered fb z f m' m') same.0
                (subst (λ z. Lowered fb m z m' m') same.1 lowered),
          )
    ]
replayed a raw (pos (suc d)) sb fb floor h snap s f cal low e =
    let found = present-eq-ok (earliest_span a.calendar sb fb (pos (suc d)) h) _ _ e in
    let (s', f', found', lowered) =
      earliest-Lowered raw sb fb floor (suc d) h s f low
        (subst (λ k. earliest_span k sb fb (pos (suc d)) h ≡ some (s, f)) (sym cal) found) in
    let here : earliest_span a.calendar sb floor (pos (suc d)) h ≡ some (s', f') =
      subst (λ k. earliest_span k sb floor (pos (suc d)) h ≡ some (s', f')) cal found' in
    (s', f', here, ground arith, lowered)
replayed a raw (negsuc d) sb fb floor h snap s f cal low e =
    let found = present-eq-ok (earliest_span a.calendar sb fb (negsuc d) h) _ _ e in
    unfold earliest_span in cc

-- The start driver, where the start bound alone makes the same span, or the finish driver, where it
-- makes one that finishes earlier.
abbrev pub Decides : (start_driver finish_driver : Option ℕ) → (u s f s' f' : ℕ) → Type 0
Decides start_driver finish_driver u s f s' f' =
    ((start_driver ≡ some u) × (s' ≡ s) × (f' ≡ f)) ⊎ ((finish_driver ≡ some u) × (f' < f))

pub driver-Decides :
    (a : PlannedActivity) (raw : Intervals) (d : ℤ) (sb fb : ℕ) (sd fd : Option ℕ) (floor h : ℕ)
    (snap : Bool) (s f u : ℕ)
    → of raw ≡ a.calendar
    → floor ≤ fb
    → (fd ≡ none → fb ≡ floor)
    → place_free a d sb fb h snap ≡ ok (s, f)
    → driver a d sb fb sd fd floor h snap ≡ some u
    → (s' f' : ℕ) × (place_free a d sb floor h snap ≡ ok (s', f')) × Decides sd fd u s f s' f'
unfolding driver
driver-Decides a raw d sb fb sd none floor h snap s f u cal low free e named = (
  s,
  f,
  subst (λ b. place_free a d sb b h snap ≡ ok (s, f)) (free refl) e,
  inl (named, refl, refl),
)
driver-Decides a raw d sb fb sd (some v) floor h snap s f u cal low free e named =
    let (s', f', alone, placed, (until, ends, reached)) =
      replayed a raw d sb fb floor h snap s f cal low e in
    elim (le_or_gt fb f') [
      | inl enough ↦
          let test : reaches fb (without_finish a d sb floor h snap) ≡ true = ground arith in
          (s', f', placed, inl (ground arith, (reached enough).0, (reached enough).1))
      | inr short ↦
          let test : reaches fb (without_finish a d sb floor h snap) ≡ false = ground arith in
          (s', f', placed, inr (ground arith, omega arith))
    ]
