-- ===== src/Calendar/Earliest.antt =====
-- `earliest_span` against the reference: the least of the spans that `consume_duration` allows.
pub mod Reached
pub mod Answer
use sto_scheduler_tracker_re.Prelude.{
  ℕ, suc, ◌+◌, ◌-◌, ◌≤◌, ◌<◌, ◌≡◌, sym, ◌∙◌, inl, inr, some, none, Option, pos, arith, le_or_gt,
  ltb, le→ltb, lt→ltb,
}
use sto_scheduler_tracker_re.Calendar.Intervals.{
  Intervals, IsOrdered, Working, Finishing, work, finish_at, start_at, work-le-total, work_mono,
}
use sto_scheduler_tracker_re.Calendar.Reference.{consume_duration}
use sto_scheduler_tracker_re.Calendar.Spans.{Span, earliest_span, up_to}
use sto_scheduler_tracker_re.Calendar.Order.{
  work-lt-Working, work-lt-Finishing, finish_at-some, finish_at-total, start_at-total,
  next_at-least, next_at-some,
}
use sto_scheduler_tracker_re.Calendar.Next.{next_at}
use sto_scheduler_tracker_re.Calendar.Consume.{consume-Working, consume→Working}
use sto_scheduler_tracker_re.Calendar.Reach.{reach_at, reach_at-some, reach_at-least}

-- A span of `d` units that respects both bounds and the horizon.
abbrev pub FitsAfter : Intervals → (start_bound finish_bound d horizon start finish : ℕ) → Type 0
FitsAfter xs sb fb d h start finish =
    (consume_duration start (pos d) xs ≡ some finish) × (sb ≤ start) × (fb ≤ finish) × (finish ≤ h)

-- The answer is the earliest such span, in start and in finish, or there is none.
abbrev pub IsEarliest : Intervals → (start_bound finish_bound d horizon : ℕ) → Option Span → Type 0
IsEarliest xs sb fb d h none = (start finish : ℕ) → ¬ FitsAfter xs sb fb d h start finish
IsEarliest xs sb fb d h (some (s, f)) =
    FitsAfter xs sb fb d h s f
    × ((start finish : ℕ) → FitsAfter xs sb fb d h start finish → (s ≤ start) × (f ≤ finish))

-- What the reference says of a span of positive duration.
pub record IsSpan (xs : Intervals) (d start finish : ℕ) : Type 0 where
  pub starts : Working start xs
  pub ends : Finishing finish xs
  pub works : work xs finish ≡ work xs start + suc d

pub consume-IsSpan :
    (xs : Intervals) (low d start finish : ℕ)
    → IsOrdered low xs
    → consume_duration start (pos (suc d)) xs ≡ some finish
    → IsSpan xs d start finish
consume-IsSpan xs low d start finish o e =
    let w = consume→Working xs start (suc d) finish e in
    let (ends, works) =
      finish_at-some xs low (work xs start + suc d) finish o (omega arith)
        (sym (consume-Working xs low start d o w) ∙ e) in
    record { starts = w; ends = ends; works = works }

-- Work decides the order of starts and of finishes.
pub start_le :
    (xs : Intervals) (low s s' : ℕ)
    → IsOrdered low xs
    → Working s' xs
    → work xs s ≤ work xs s'
    → s ≤ s'
start_le xs low s s' o w h = elim (le_or_gt s s') [
  | inl le ↦ le
  | inr gt ↦ absurd (omega (arith, work-lt-Working xs low s' s o w gt))
]

pub finish_le :
    (xs : Intervals) (low f f' : ℕ)
    → IsOrdered low xs
    → Finishing f xs
    → work xs f ≤ work xs f'
    → f ≤ f'
finish_le xs low f f' o w h = elim (le_or_gt f f') [
  | inl le ↦ le
  | inr gt ↦ absurd (omega (arith, work-lt-Finishing xs low f' f o w gt))
]

module _ (xs : Intervals) (low sb fb d h : ℕ) (o : IsOrdered low xs) where
  abbrev pub Fits : ℕ → ℕ → Type 0
  Fits = FitsAfter xs sb fb (suc d) h

  -- The answer as the code computes it, once the span is found.
  pub bounded :
      (s f : ℕ)
      → consume_duration s (pos (suc d)) xs ≡ some f
      → sb ≤ s
      → fb ≤ f
      → ((start finish : ℕ) → Fits start finish → (s ≤ start) × (f ≤ finish))
      → IsEarliest xs sb fb (suc d) h (up_to h (s, f))
  bounded s f e hs hf least = elim (le_or_gt f h) [
    | inl inside ↦ rw (le→ltb h f inside) ((e, hs, hf, inside), least)
    | inr outside ↦
        rw (lt→ltb h f outside)
          (λ start finish fit. omega (arith, (least start finish fit).1, fit.3))
  ]

  pub no_start : next_at xs sb ≡ none → (start finish : ℕ) → ¬ Fits start finish
  no_start e start finish fit =
      let (p, found, l) =
        next_at-least xs low sb start o (consume→Working xs start (suc d) finish fit.0) fit.1 in
      cc

  module _ (s : ℕ) (first : next_at xs sb ≡ some s) where
    pub start_least : (start finish : ℕ) → Fits start finish → s ≤ start
    start_least start finish fit =
        let (p, found, l) =
          next_at-least xs low sb start o (consume→Working xs start (suc d) finish fit.0) fit.1 in
        let same : p ≡ s = ground arith in omega arith

    pub no_finish :
        finish_at xs (work xs s + suc d) ≡ none → (start finish : ℕ) → ¬ Fits start finish
    no_finish e start finish fit =
        let span = consume-IsSpan xs low d start finish o fit.0 in
        let later = start_least start finish fit in
        let (p, found) =
          finish_at-total xs (work xs s + suc d) (omega arith)
            (omega (arith, span.works, work_mono xs s start later, work-le-total xs finish)) in
        cc

    pub starts_here : Working s xs
    starts_here = (next_at-some xs low sb s o first).1

    module _ (f : ℕ) (ends : finish_at xs (work xs s + suc d) ≡ some f) where
      pub plain : consume_duration s (pos (suc d)) xs ≡ some f
      plain = consume-Working xs low s d o starts_here ∙ ends

      pub plain_least : (start finish : ℕ) → Fits start finish → (s ≤ start) × (f ≤ finish)
      plain_least start finish fit =
          let span = consume-IsSpan xs low d start finish o fit.0 in
          let here = consume-IsSpan xs low d s f o plain in
          let later = start_least start finish fit in
          (
            later,
            finish_le xs low f finish o here.ends
                (omega (arith, span.works, here.works, work_mono xs s start later)),
          )

      pub no_reach : reach_at xs fb ≡ none → (start finish : ℕ) → ¬ Fits start finish
      no_reach e start finish fit =
          let span = consume-IsSpan xs low d start finish o fit.0 in
          let (p, found, l) = reach_at-least xs low fb finish o span.ends fit.2 in cc

      module _ (short : f < fb) (r : ℕ) (reached : reach_at xs fb ≡ some r) where
        pub enough : work xs s + suc d < work xs r
        enough =
            let here = consume-IsSpan xs low d s f o plain in
            let (past, ends_there) = reach_at-some xs low fb r o reached in
            omega (arith, here.works, work-lt-Finishing xs low f r o ends_there (omega arith))

        pub pulled : (p : ℕ) × (start_at xs (work xs r - suc d) ≡ some p)
        pulled = start_at-total xs (work xs r - suc d) (omega (arith, enough, work-le-total xs r))
