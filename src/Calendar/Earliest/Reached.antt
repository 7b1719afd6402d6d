-- ===== src/Calendar/Earliest/Reached.antt =====
-- `earliest_span` of sto/core/calendar/arithmetic.py, branch by branch.
use sto_scheduler_tracker_re.Prelude.{ℕ, suc, ◌+◌, ◌-◌, ◌≤◌, ◌<◌, ◌≡◌, ◌∙◌, some, pos, arith}
use sto_scheduler_tracker_re.Calendar.Intervals.{
  Intervals, IsOrdered, work, finish_at, start_at, work_mono,
}
use sto_scheduler_tracker_re.Calendar.Reference.{consume_duration}
use sto_scheduler_tracker_re.Calendar.Compiled.{compiled}
use sto_scheduler_tracker_re.Calendar.Spans.{reach_span, earliest_span, up_to}
use sto_scheduler_tracker_re.Calendar.Order.{
  start_at-some, next_at-some, next_at-Working, finish_at-Finishing,
}
use sto_scheduler_tracker_re.Calendar.Next.{next_at, next_working-compiled}
use sto_scheduler_tracker_re.Calendar.Later.{add_productive-finish_at}
use sto_scheduler_tracker_re.Calendar.Earlier.{sub_productive-start_at}
use sto_scheduler_tracker_re.Calendar.Consume.{consume-Working}
use sto_scheduler_tracker_re.Calendar.Reach.{
  reach_at, finish_reach-compiled, reach_at-some, reach_at-least,
}
use sto_scheduler_tracker_re.Calendar.Earliest.{
  FitsAfter, IsEarliest, consume-IsSpan, start_le, bounded, enough, pulled,
}

module _ (xs : Intervals) (low sb fb d h : ℕ) (o : IsOrdered low xs) (s f r : ℕ)
    (first : next_at xs sb ≡ some s) (ends : finish_at xs (work xs s + suc d) ≡ some f)
    (short : f < fb) (reached : reach_at xs fb ≡ some r) where
  -- The span that ends at the reached finish.
  reached_span :
      (p : ℕ)
      → start_at xs (work xs r - suc d) ≡ some p
      → (sb ≤ p)
        × (consume_duration p (pos (suc d)) xs ≡ some r)
        × (finish_at xs (work xs p + suc d) ≡ some r)
        × (next_at xs p ≡ some p)
  reached_span p e =
      let (w, works) = start_at-some xs low (work xs r - suc d) p o e in
      let room = enough xs low sb fb d h o s first f ends short r reached in
      let target : work xs p + suc d ≡ work xs r = omega arith in
      let stops =
        finish_at-Finishing xs low r o (reach_at-some xs low fb r o reached).1 (omega arith) in
      let start : s ≤ p = start_le xs low s p o w (omega arith) in
      let at : finish_at xs (work xs p + suc d) ≡ some r = rw target stops in
      (
        omega (arith, (next_at-some xs low sb s o first).0),
        consume-Working xs low p d o w ∙ at,
        at,
        next_at-Working xs low p o w,
      )

  reached_least :
      (p start finish : ℕ)
      → start_at xs (work xs r - suc d) ≡ some p
      → FitsAfter xs sb fb (suc d) h start finish
      → (p ≤ start) × (r ≤ finish)
  reached_least p start finish e fit =
      let span = consume-IsSpan xs low d start finish o fit.0 in
      let works = (start_at-some xs low (work xs r - suc d) p o e).1 in
      let (q, found, l) = reach_at-least xs low fb finish o span.ends fit.2 in
      let same : q ≡ r = ground arith in
      let grows : work xs r ≤ work xs finish = work_mono xs r finish (omega arith) in
      (start_le xs low p start o span.starts (omega (arith, span.works)), omega arith)

  reach_span-compiled :
      (p : ℕ)
      → start_at xs (work xs r - suc d) ≡ some p
      → reach_span (compiled xs) sb fb (suc d) ≡ some (p, r)
  unfolding reach_span
  reach_span-compiled p e =
      let (after, _, at, stays) = reached_span p e in
      let room = enough xs low sb fb d h o s first f ends short r reached in
      ground (
        arith,
        finish_reach-compiled xs low fb o,
        sub_productive-start_at xs low r d o,
        next_working-compiled xs low p o,
        add_productive-finish_at xs low p d o,
      )

  pub reached_case :
      IsEarliest xs sb fb (suc d) h (earliest_span (compiled xs) sb fb (pos (suc d)) h)
  unfolding earliest_span
  reached_case =
      let (p, e) = pulled xs low sb fb d h o s first f ends short r reached in
      let (after, span, _, _) = reached_span p e in
      let answer : earliest_span (compiled xs) sb fb (pos (suc d)) h ≡ up_to h (p, r) = ground (
        arith,
        next_working-compiled xs low sb o,
        add_productive-finish_at xs low s d o,
        reach_span-compiled p e,
      ) in
      rw answer (
        bounded xs low sb fb d h o p r span after (reach_at-some xs low fb r o reached).0
          (λ start finish fit. reached_least p start finish e fit))
