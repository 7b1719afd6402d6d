-- ===== src/Calendar/Earliest/Answer.antt =====
-- All branches of `earliest_span` of sto/core/calendar/arithmetic.py together.
use sto_scheduler_tracker_re.Prelude.{
  ℕ, zero, suc, ◌+◌, ◌≤◌, ◌<◌, max, ◌≡◌, inl, inr, some, none, Option, pos, arith, Option-cases,
  le_or_gt,
}
use sto_scheduler_tracker_re.Calendar.Intervals.{Intervals, IsOrdered, work, finish_at}
use sto_scheduler_tracker_re.Calendar.Compiled.{compiled, of, normalise}
use sto_scheduler_tracker_re.Calendar.Spans.{Span, reach_span, earliest_span, up_to}
use sto_scheduler_tracker_re.Calendar.Order.{next_at-least, next_at-some}
use sto_scheduler_tracker_re.Calendar.Next.{next_at, next_working-compiled}
use sto_scheduler_tracker_re.Calendar.Later.{add_productive-finish_at}
use sto_scheduler_tracker_re.Calendar.Consume.{consume→Working, consume-zero, consume_zero-eq}
use sto_scheduler_tracker_re.Calendar.Reach.{reach_at, finish_reach-compiled}
use sto_scheduler_tracker_re.Calendar.Normalise.{normalise-IsOrdered}
use sto_scheduler_tracker_re.Calendar.Earliest.{
  FitsAfter, IsEarliest, bounded, no_start, no_finish, plain, plain_least, no_reach,
}
use sto_scheduler_tracker_re.Calendar.Earliest.Reached.{reached_case}

-- An answer that is an empty one.
none-IsEarliest :
    (xs : Intervals) (sb fb d h : ℕ) (answer : Option Span)
    → answer ≡ none
    → ((start finish : ℕ) → ¬ FitsAfter xs sb fb d h start finish)
    → IsEarliest xs sb fb d h answer
none-IsEarliest xs sb fb d h answer e empty = rw e empty

module _ (xs : Intervals) (low sb fb d h : ℕ) (o : IsOrdered low xs) where
  abbrev answer : Option Span
  answer = earliest_span (compiled xs) sb fb (pos (suc d)) h

  short_case :
      (s f : ℕ)
      → next_at xs sb ≡ some s
      → finish_at xs (work xs s + suc d) ≡ some f
      → f < fb
      → IsEarliest xs sb fb (suc d) h answer
  unfolding earliest_span reach_span
  short_case s f first ends short = elim (Option-cases (reach_at xs fb)) [
    | inl missing ↦
        none-IsEarliest xs sb fb (suc d) h answer
          (ground (
            arith,
            next_working-compiled xs low sb o,
            add_productive-finish_at xs low s d o,
            finish_reach-compiled xs low fb o,
          ))
          (no_reach xs low sb fb d h o s first f ends missing)
    | inr (r, reached) ↦ reached_case xs low sb fb d h o s f r first ends short reached
  ]

  positive_case : IsEarliest xs sb fb (suc d) h answer
  unfolding earliest_span
  positive_case = elim (Option-cases (next_at xs sb)) [
    | inl missing ↦
        none-IsEarliest xs sb fb (suc d) h answer
          (ground (arith, next_working-compiled xs low sb o)) (no_start xs low sb fb d h o missing)
    | inr (s, first) ↦ elim (Option-cases (finish_at xs (work xs s + suc d))) [
      | inl missing ↦
          none-IsEarliest xs sb fb (suc d) h answer
            (ground
              (arith, next_working-compiled xs low sb o, add_productive-finish_at xs low s d o))
            (no_finish xs low sb fb d h o s first missing)
      | inr (f, ends) ↦ elim (le_or_gt fb f) [
        | inl long ↦
            let same : answer ≡ up_to h (s, f) =
              ground
                (arith, next_working-compiled xs low sb o, add_productive-finish_at xs low s d o) in
            rw same (
              bounded xs low sb fb d h o s f (plain xs low sb fb d h o s first f ends)
                (next_at-some xs low sb s o first).0 long
                (plain_least xs low sb fb d h o s first f ends))
        | inr short ↦ short_case s f first ends short
      ]
    ]
  ]

zero_case :
    (xs : Intervals) (low sb fb h : ℕ)
    → IsOrdered low xs
    → IsEarliest xs sb fb 0 h (earliest_span (compiled xs) sb fb (pos 0) h)
unfolding earliest_span
zero_case xs low sb fb h o = elim (Option-cases (next_at xs (max sb fb))) [
  | inl missing ↦
      none-IsEarliest xs sb fb 0 h (earliest_span (compiled xs) sb fb (pos 0) h)
        (ground (arith, next_working-compiled xs low (max sb fb) o))
        (λ start finish fit. let (p, found, l) = least start finish fit in cc)
  | inr (s, first) ↦
      let (past, w) = next_at-some xs low (max sb fb) s o first in
      let earlier : (start finish : ℕ) → FitsAfter xs sb fb 0 h start finish → s ≤ start =
        λ start finish fit.
          let (p, found, l) = least start finish fit in
          let same : p ≡ s = ground arith in omega arith in
      elim (le_or_gt s h) [
        | inl inside ↦
            let same : earliest_span (compiled xs) sb fb (pos 0) h ≡ some (s, s) =
              ground (arith, next_working-compiled xs low (max sb fb) o) in
            rw same (
              (consume-zero xs s w, omega arith, omega arith, inside),
              λ start finish fit. (
                earlier start finish fit,
                omega (arith, earlier start finish fit, consume_zero-eq xs start finish fit.0),
              ),
            )
        | inr outside ↦
            none-IsEarliest xs sb fb 0 h (earliest_span (compiled xs) sb fb (pos 0) h)
              (ground (arith, next_working-compiled xs low (max sb fb) o))
              (λ start finish fit.
                omega
                  (arith, earlier start finish fit, consume_zero-eq xs start finish fit.0, fit.3))
      ]
]
  where
    least :
        (start finish : ℕ)
        → FitsAfter xs sb fb 0 h start finish
        → (p : ℕ) × (next_at xs (max sb fb) ≡ some p) × (p ≤ start)
    least start finish fit =
        next_at-least xs low (max sb fb) start o (consume→Working xs start 0 finish fit.0)
          (omega (arith, consume_zero-eq xs start finish fit.0, fit.1, fit.2))

compiled-IsEarliest :
    (xs : Intervals) (low sb fb d h : ℕ)
    → IsOrdered low xs
    → IsEarliest xs sb fb d h (earliest_span (compiled xs) sb fb (pos d) h)
compiled-IsEarliest xs low sb fb zero h o = zero_case xs low sb fb h o
compiled-IsEarliest xs low sb fb (suc d) h o = positive_case xs low sb fb d h o

-- On any calendar, with any bounds, duration and horizon, `earliest_span` answers a span that the
-- reference `consume_duration` allows, that respects both bounds and the horizon, and that starts and
-- ends no later than any other such span; it answers none exactly when no span does.
pub earliest_span-IsEarliest :
    (raw : Intervals) (start_bound finish_bound d horizon : ℕ)
    → IsEarliest
        (normalise raw)
        start_bound
        finish_bound
        d
        horizon
        (earliest_span (of raw) start_bound finish_bound (pos d) horizon)
unfolding of
earliest_span-IsEarliest raw sb fb d h =
    compiled-IsEarliest (normalise raw) 0 sb fb d h (normalise-IsOrdered raw)
