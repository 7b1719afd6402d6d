-- ===== src/Calendar/Latest/Answer.antt =====
-- All branches of `latest_span` of sto/core/calendar/arithmetic.py together.
use sto_scheduler_tracker_re.Prelude.{
  ℕ, zero, suc, ◌-◌, ◌≤◌, ◌<◌, min, ◌≡◌, inl, inr, some, pos, arith, Option-cases, le_or_gt,
}
use sto_scheduler_tracker_re.Calendar.Intervals.{
  Intervals, IsOrdered, work, start_at, work-le-total,
}
use sto_scheduler_tracker_re.Calendar.Compiled.{compiled, of, normalise}
use sto_scheduler_tracker_re.Calendar.Spans.{pull_span, latest_span, down_to}
use sto_scheduler_tracker_re.Calendar.Order.{start_at-total}
use sto_scheduler_tracker_re.Calendar.Earlier.{
  prev_at, prev_working-compiled, sub_productive-start_at,
}
use sto_scheduler_tracker_re.Calendar.Consume.{consume→Working, consume-zero, consume_zero-eq}
use sto_scheduler_tracker_re.Calendar.Earliest.{consume-IsSpan}
use sto_scheduler_tracker_re.Calendar.Normalise.{normalise-IsOrdered}
use sto_scheduler_tracker_re.Calendar.Latest.{
  FitsBefore, IsLatest, prev_start_at, prev_working_start-compiled, prev_start_at-some,
  prev_start_at-greatest, prev_at-some,
}
use sto_scheduler_tracker_re.Calendar.Latest.Pulled.{
  none-IsLatest, answer, bounded, no_finish, enough, plain, plain_greatest, reached_case,
}

module _ (xs : Intervals) (low sb fb d floor : ℕ) (o : IsOrdered low xs) (f : ℕ)
    (ends : prev_at xs fb ≡ some f) where
  abbrev Reply : Type 0
  Reply = IsLatest xs sb fb (suc d) floor (answer xs low sb fb d floor o)

  short_case : work xs f < suc d → Reply
  unfolding latest_span
  short_case short =
      none-IsLatest xs sb fb (suc d) floor (answer xs low sb fb d floor o)
        (ground (arith, prev_working-compiled xs low fb o, sub_productive-start_at xs low f d o))
        (λ start finish fit. omega (arith, enough xs low sb fb d floor o f ends start finish fit))

  late_case :
      suc d ≤ work xs f → (s : ℕ) → start_at xs (work xs f - suc d) ≡ some s → sb < s → Reply
  unfolding latest_span pull_span
  late_case room s starts late = elim (Option-cases (prev_start_at xs sb)) [
    | inl missing ↦
        none-IsLatest xs sb fb (suc d) floor (answer xs low sb fb d floor o)
          (ground (
            arith,
            prev_working-compiled xs low fb o,
            sub_productive-start_at xs low f d o,
            prev_working_start-compiled xs low sb o,
          ))
          (λ start finish fit.
            let other = consume-IsSpan xs low d start finish o fit.0 in
            let (q, found, m) = prev_start_at-greatest xs low sb start o other.starts fit.1 in cc)
    | inr (r, reached) ↦ reached_case xs low sb fb d floor o f ends room s starts late r reached
  ]

  full_case : suc d ≤ work xs f → Reply
  unfolding latest_span
  full_case room =
      let (s, starts) = start_at-total xs (work xs f - suc d) (omega (arith, work-le-total xs f)) in
      elim (le_or_gt s sb) [
        | inl inside ↦
            let same : answer xs low sb fb d floor o ≡ down_to floor (s, f) =
              ground
                (arith, prev_working-compiled xs low fb o, sub_productive-start_at xs low f d o) in
            rw same (
              bounded xs low sb fb d floor o s f (plain xs low sb fb d floor o f ends room s starts)
                inside (prev_at-some xs low fb f o ends).0
                (plain_greatest xs low sb fb d floor o f ends room s starts))
        | inr late ↦ late_case room s starts late
      ]

positive_case :
    (xs : Intervals) (low sb fb d floor : ℕ) (o : IsOrdered low xs)
    → IsLatest xs sb fb (suc d) floor (latest_span (compiled xs) sb fb (pos (suc d)) floor)
unfolding latest_span
positive_case xs low sb fb d floor o = elim (Option-cases (prev_at xs fb)) [
  | inl missing ↦
      none-IsLatest xs sb fb (suc d) floor (answer xs low sb fb d floor o)
        (ground (arith, prev_working-compiled xs low fb o))
        (no_finish xs low sb fb d floor o missing)
  | inr (f, ends) ↦ elim (le_or_gt (suc d) (work xs f)) [
    | inl room ↦ full_case xs low sb fb d floor o f ends room
    | inr short ↦ short_case xs low sb fb d floor o f ends short
  ]
]

zero_case :
    (xs : Intervals) (low sb fb floor : ℕ)
    → IsOrdered low xs
    → IsLatest xs sb fb 0 floor (latest_span (compiled xs) sb fb (pos 0) floor)
unfolding latest_span
zero_case xs low sb fb floor o = elim (Option-cases (prev_start_at xs (min sb fb))) [
  | inl missing ↦
      none-IsLatest xs sb fb 0 floor (latest_span (compiled xs) sb fb (pos 0) floor)
        (ground (arith, prev_working_start-compiled xs low (min sb fb) o))
        (λ start finish fit. let (p, found, l) = greatest start finish fit in cc)
  | inr (s, last) ↦
      let (before, w) = prev_start_at-some xs low (min sb fb) s o last in
      let later : (start finish : ℕ) → FitsBefore xs sb fb 0 floor start finish → start ≤ s =
        λ start finish fit.
          let (p, found, l) = greatest start finish fit in
          let same : p ≡ s = ground arith in omega arith in
      elim (le_or_gt floor s) [
        | inl inside ↦
            let same : latest_span (compiled xs) sb fb (pos 0) floor ≡ some (s, s) =
              ground (arith, prev_working_start-compiled xs low (min sb fb) o) in
            rw same (
              (consume-zero xs s w, omega arith, omega arith, inside),
              λ start finish fit. (
                later start finish fit,
                omega (arith, later start finish fit, consume_zero-eq xs start finish fit.0),
              ),
            )
        | inr outside ↦
            none-IsLatest xs sb fb 0 floor (latest_span (compiled xs) sb fb (pos 0) floor)
              (ground (arith, prev_working_start-compiled xs low (min sb fb) o))
              (λ start finish fit. omega (arith, later start finish fit, fit.3))
      ]
]
  where
    greatest :
        (start finish : ℕ)
        → FitsBefore xs sb fb 0 floor start finish
        → (p : ℕ) × (prev_start_at xs (min sb fb) ≡ some p) × (start ≤ p)
    greatest start finish fit =
        prev_start_at-greatest xs low (min sb fb) start o (consume→Working xs start 0 finish fit.0)
          (omega (arith, consume_zero-eq xs start finish fit.0, fit.1, fit.2))

compiled-IsLatest :
    (xs : Intervals) (low sb fb d floor : ℕ)
    → IsOrdered low xs
    → IsLatest xs sb fb d floor (latest_span (compiled xs) sb fb (pos d) floor)
compiled-IsLatest xs low sb fb zero floor o = zero_case xs low sb fb floor o
compiled-IsLatest xs low sb fb (suc d) floor o = positive_case xs low sb fb d floor o

-- On any calendar, with any bounds, duration and floor, `latest_span` answers a span that the
-- reference `consume_duration` allows, that respects both bounds and the floor, and that starts and
-- ends no earlier than any other such span; it answers none exactly when no span does.
pub latest_span-IsLatest :
    (raw : Intervals) (start_bound finish_bound d floor : ℕ)
    → IsLatest
        (normalise raw)
        start_bound
        finish_bound
        d
        floor
        (latest_span (of raw) start_bound finish_bound (pos d) floor)
unfolding of
latest_span-IsLatest raw sb fb d floor =
    compiled-IsLatest (normalise raw) 0 sb fb d floor (normalise-IsOrdered raw)
