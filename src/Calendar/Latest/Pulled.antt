-- ===== src/Calendar/Latest/Pulled.antt =====
-- The cases of `latest_span` of sto/core/calendar/arithmetic.py: what each step of it finds.
use sto_scheduler_tracker_re.Prelude.{
  ℕ, suc, ◌+◌, ◌-◌, ◌≤◌, ◌<◌, ◌≡◌, ◌∙◌, inl, inr, some, none, Option, pos, arith, le_or_gt, le→ltb,
  lt→ltb,
}
use sto_scheduler_tracker_re.Calendar.Intervals.{
  Intervals, IsOrdered, work, finish_at, start_at, work-le-total, work_mono,
}
use sto_scheduler_tracker_re.Calendar.Reference.{consume_duration}
use sto_scheduler_tracker_re.Calendar.Compiled.{compiled}
use sto_scheduler_tracker_re.Calendar.Spans.{Span, latest_span, down_to}
use sto_scheduler_tracker_re.Calendar.Order.{
  start_at-some, finish_at-some, finish_at-total, finish_at-Finishing,
}
use sto_scheduler_tracker_re.Calendar.Later.{add_productive-finish_at}
use sto_scheduler_tracker_re.Calendar.Earlier.{
  prev_at, prev_working-compiled, sub_productive-start_at,
}
use sto_scheduler_tracker_re.Calendar.Consume.{consume-Working}
use sto_scheduler_tracker_re.Calendar.Earliest.{consume-IsSpan, start_le, finish_le}
use sto_scheduler_tracker_re.Calendar.Latest.{
  FitsBefore, IsLatest, prev_start_at, prev_working_start-compiled, prev_start_at-some,
  prev_start_at-greatest, prev_at-some, prev_at-greatest,
}

pub none-IsLatest :
    (xs : Intervals) (sb fb d floor : ℕ) (answer : Option Span)
    → answer ≡ none
    → ((start finish : ℕ) → ¬ FitsBefore xs sb fb d floor start finish)
    → IsLatest xs sb fb d floor answer
none-IsLatest xs sb fb d floor answer e empty = rw e empty

module _ (xs : Intervals) (low sb fb d floor : ℕ) (o : IsOrdered low xs) where
  abbrev pub Fits : ℕ → ℕ → Type 0
  Fits = FitsBefore xs sb fb (suc d) floor

  abbrev pub answer : Option Span
  answer = latest_span (compiled xs) sb fb (pos (suc d)) floor

  pub bounded :
      (s f : ℕ)
      → consume_duration s (pos (suc d)) xs ≡ some f
      → s ≤ sb
      → f ≤ fb
      → ((start finish : ℕ) → Fits start finish → (start ≤ s) × (finish ≤ f))
      → IsLatest xs sb fb (suc d) floor (down_to floor (s, f))
  bounded s f e hs hf greatest = elim (le_or_gt floor s) [
    | inl inside ↦ rw (le→ltb s floor inside) ((e, hs, hf, inside), greatest)
    | inr outside ↦
        rw (lt→ltb s floor outside)
          (λ start finish fit. omega (arith, (greatest start finish fit).0, fit.3))
  ]

  pub no_finish : prev_at xs fb ≡ none → (start finish : ℕ) → ¬ Fits start finish
  no_finish e start finish fit =
      let span = consume-IsSpan xs low d start finish o fit.0 in
      let (p, found, l) = prev_at-greatest xs low fb finish o span.ends fit.2 in cc

  module _ (f : ℕ) (ends : prev_at xs fb ≡ some f) where
    finish_greatest : (start finish : ℕ) → Fits start finish → finish ≤ f
    finish_greatest start finish fit =
        let span = consume-IsSpan xs low d start finish o fit.0 in
        let (p, found, l) = prev_at-greatest xs low fb finish o span.ends fit.2 in
        let same : p ≡ f = ground arith in omega arith

    pub enough : (start finish : ℕ) → Fits start finish → work xs start + suc d ≤ work xs f
    enough start finish fit =
        let span = consume-IsSpan xs low d start finish o fit.0 in
        omega (arith, span.works, work_mono xs finish f (finish_greatest start finish fit))

    module _ (room : suc d ≤ work xs f) (s : ℕ)
        (starts : start_at xs (work xs f - suc d) ≡ some s) where
      pub plain : consume_duration s (pos (suc d)) xs ≡ some f
      plain =
          let (w, works) = start_at-some xs low (work xs f - suc d) s o starts in
          let target : work xs s + suc d ≡ work xs f = omega arith in
          let at : finish_at xs (work xs s + suc d) ≡ some f =
            rw target
              (finish_at-Finishing xs low f o (prev_at-some xs low fb f o ends).1 (omega arith)) in
          consume-Working xs low s d o w ∙ at

      pub plain_greatest : (start finish : ℕ) → Fits start finish → (start ≤ s) × (finish ≤ f)
      plain_greatest start finish fit =
          let (w, works) = start_at-some xs low (work xs f - suc d) s o starts in
          (
            start_le xs low start s o w (omega (arith, enough start finish fit, works)),
            finish_greatest start finish fit,
          )

      module _ (late : sb < s) (r : ℕ) (reached : prev_start_at xs sb ≡ some r) where
        pulled : (p : ℕ) × (finish_at xs (work xs r + suc d) ≡ some p) × (p ≤ f)
        pulled =
            let here = consume-IsSpan xs low d s f o plain in
            let (l, w) = prev_start_at-some xs low sb r o reached in
            let before : work xs r ≤ work xs s = work_mono xs r s (omega arith) in
            let (p, e) =
              finish_at-total xs (work xs r + suc d) (omega arith)
                (omega (arith, here.works, work-le-total xs f)) in
            let (ends_p, works) = finish_at-some xs low (work xs r + suc d) p o (omega arith) e in
            (p, e, finish_le xs low p f o ends_p (omega (arith, here.works)))

        pub reached_case : IsLatest xs sb fb (suc d) floor answer
        unfolding latest_span
        reached_case =
            let (p, e, le) = pulled in
            let (l, w) = prev_start_at-some xs low sb r o reached in
            let span : consume_duration r (pos (suc d)) xs ≡ some p =
              consume-Working xs low r d o w ∙ e in
            let here = consume-IsSpan xs low d r p o span in
            let same : answer ≡ down_to floor (r, p) = ground (
              arith,
              prev_working-compiled xs low fb o,
              sub_productive-start_at xs low f d o,
              prev_working_start-compiled xs low sb o,
              add_productive-finish_at xs low r d o,
            ) in
            let last_start : (start finish : ℕ) → Fits start finish → start ≤ r =
              λ start finish fit.
                let other = consume-IsSpan xs low d start finish o fit.0 in
                let (q, found, m) = prev_start_at-greatest xs low sb start o other.starts fit.1 in
                let eq : q ≡ r = ground arith in omega arith in
            rw same (
              bounded r p span l (omega (arith, (prev_at-some xs low fb f o ends).0))
                (λ start finish fit.
                  let other = consume-IsSpan xs low d start finish o fit.0 in
                  let m = last_start start finish fit in
                  (
                    m,
                    finish_le xs low finish p o other.ends
                        (omega (arith, other.works, here.works, work_mono xs start r m)),
                  )))
