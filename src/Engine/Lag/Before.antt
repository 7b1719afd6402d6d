-- ===== src/Engine/Lag/Before.antt =====
-- `shift_lag` of sto/core/engine/network.py on a coordinate and on an earlier one.
use sto_scheduler_tracker_re.Prelude.{
  ℕ, zero, suc, ◌≤◌, ◌≡◌, ◌∙◌, ap, some, ℤ, pos, negsuc, arith, Option-cases, inl, inr,
}
use sto_scheduler_tracker_re.Calendar.Intervals.{Intervals, IsOrdered, work_mono}
use sto_scheduler_tracker_re.Calendar.Compiled.{CompiledIntervals, of, compiled, normalise}
use sto_scheduler_tracker_re.Calendar.Latest.{prev_start_at}
use sto_scheduler_tracker_re.Calendar.Normalise.{normalise-IsOrdered}
use sto_scheduler_tracker_re.Engine.Lag.{shift_lag}
use sto_scheduler_tracker_re.Engine.Lag.Landing.{
  Lands, Lands-pos, pos_Lands, Lands-neg, neg_Lands, no_Lands_neg, Lands-neg_enough,
}

Lands-earlier :
    (xs : Intervals) (low anchor : ℕ) (lag : ℤ) (x c v : ℕ)
    → IsOrdered low xs
    → Lands xs anchor lag x
    → c ≤ x
    → shift_lag (compiled xs) c lag ≡ some v
    → v ≤ anchor
unfolding shift_lag
Lands-earlier xs low anchor (pos zero) x c v o lands le e = ground (arith, lands.1)
Lands-earlier xs low anchor (pos (suc d)) x c v o lands le e =
    let room = Lands-pos xs low anchor d o x lands in
    let (w, at, by) = pos_Lands xs low anchor d o c (omega (arith, room, work_mono xs c x le)) in
    let same : w ≡ v = ground arith in omega arith
Lands-earlier xs low anchor (negsuc d) x c v o lands le e =
    elim (Option-cases (prev_start_at xs anchor)) [
      | inl missing ↦ absurd (no_Lands_neg xs low anchor d o missing x lands)
      | inr (l, last) ↦
          let (_, far) = Lands-neg xs low anchor d o l x last lands in
          let enough = Lands-neg_enough xs low v d o c (v, e, omega arith) in
          let (w, at, by) =
            neg_Lands xs low anchor d o l c last enough (omega (arith, far, work_mono xs c x le)) in
          let same : w ≡ v = ground arith in omega arith
    ]

-- What lands by the anchor from a coordinate lands there from every earlier one that it moves.
pub shift_lag-earlier :
    (raw : Intervals) (cal : CompiledIntervals) (anchor : ℕ) (lag : ℤ) (x c v : ℕ)
    → of raw ≡ cal
    → Lands (normalise raw) anchor lag x
    → c ≤ x
    → shift_lag cal c lag ≡ some v
    → v ≤ anchor
unfolding of
shift_lag-earlier raw cal anchor lag x c v same lands le e =
    Lands-earlier (normalise raw) 0 anchor lag x c v (normalise-IsOrdered raw) lands le
      (ap (λ k. shift_lag k c lag) same ∙ e)
