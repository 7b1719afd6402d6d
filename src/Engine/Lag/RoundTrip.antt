-- ===== src/Engine/Lag/RoundTrip.antt =====
-- `unshift_lag` after `shift_lag`, of sto/core/engine/network.py.
use sto_scheduler_tracker_re.Prelude.{
  ℕ, ◌≤◌, ◌≡◌, subst, refl, some, ℤ, arith, Option-cases, inl, inr,
}
use sto_scheduler_tracker_re.Calendar.Intervals.{Intervals}
use sto_scheduler_tracker_re.Calendar.Compiled.{of, normalise}
use sto_scheduler_tracker_re.Engine.Lag.{shift_lag, unshift_lag}
use sto_scheduler_tracker_re.Engine.Lag.Landing.{IsGreatest}
use sto_scheduler_tracker_re.Engine.Lag.Greatest.{unshift_lag-IsGreatest}
use sto_scheduler_tracker_re.Engine.Lag.Before.{shift_lag-earlier}

-- On any calendar, where the lag carries a coordinate up to the ceiling to a landing, the landing is
-- carried back to that coordinate or one behind it, and from there the lag leads to the same landing.
pub unshift_lag-shift_lag :
    (raw : Intervals) (lag : ℤ) (ceiling at landing : ℕ)
    → at ≤ ceiling
    → shift_lag (of raw) at lag ≡ some landing
    → (back : ℕ) × (unshift_lag (of raw) landing lag (some ceiling) ≡ some back)
      × (at ≤ back)
      × (shift_lag (of raw) back lag ≡ some landing)
unfolding of
unshift_lag-shift_lag raw lag ceiling at landing within e =
    let answer = unshift_lag-IsGreatest raw landing lag ceiling in
    elim (Option-cases (unshift_lag (of raw) landing lag (some ceiling))) [
      | inl missing ↦ absurd (
          subst (IsGreatest (normalise raw) landing lag ceiling) missing answer at within
            (landing, e, omega arith))
      | inr (back, found) ↦
          let (_, (there, lands, le), greatest) =
            subst (IsGreatest (normalise raw) landing lag ceiling) found answer in
          let behind = greatest at within (landing, e, omega arith) in
          let past : landing ≤ there =
            shift_lag-earlier raw (of raw) there lag back at landing refl
              (there, lands, omega arith) behind e in
          let same : there ≡ landing = omega arith in
          (back, found, behind, subst (λ v. shift_lag (of raw) back lag ≡ some v) same lands)
    ]
