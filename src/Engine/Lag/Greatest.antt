-- ===== src/Engine/Lag/Greatest.antt =====
-- `unshift_lag` of sto/core/engine/network.py, all branches together.
use sto_scheduler_tracker_re.Prelude.{
  ℕ, zero, suc, ◌+◌, ◌≤◌, ◌<◌, ◌≡◌, ◌∙◌, inl, inr, some, none, ℤ, pos, negsuc, arith, Option-cases,
  Bool-cases, le_or_gt,
}
use sto_scheduler_tracker_re.Calendar.Intervals.{
  Intervals, IsOrdered, work, total, finish_at, work-le-total, work_mono,
}
use sto_scheduler_tracker_re.Calendar.Compiled.{compiled, of, normalise}
use sto_scheduler_tracker_re.Calendar.Order.{finish_at-some, finish_at-total, next_at-some}
use sto_scheduler_tracker_re.Calendar.Next.{next_at, next_at-none, work-next_at}
use sto_scheduler_tracker_re.Calendar.Locate.{total_work-compiled}
use sto_scheduler_tracker_re.Calendar.Later.{add_productive-finish_at}
use sto_scheduler_tracker_re.Calendar.Earliest.{start_le}
use sto_scheduler_tracker_re.Calendar.Latest.{prev_start_at, prev_working_start-compiled}
use sto_scheduler_tracker_re.Calendar.Normalise.{normalise-IsOrdered}
use sto_scheduler_tracker_re.Engine.Lag.{
  shift_lag, at_most, unshift_lead, unshift_within, unshift_lag,
}
use sto_scheduler_tracker_re.Engine.Lag.Landing.{
  Lands, IsGreatest, at_most→Lands, Lands→at_most, neg_Lands, no_Lands_neg, Lands-neg_enough,
}
use sto_scheduler_tracker_re.Engine.Lag.Unshift.{
  within_zero, within_pos, answer, empty, too_early, lead_from,
}

module _ (xs : Intervals) (low anchor limit : ℕ) (o : IsOrdered low xs) (d : ℕ)
    (late : ¬ Lands xs anchor (negsuc d) limit) where
  abbrev Reply : Type 0
  Reply = IsGreatest xs anchor (negsuc d) limit (answer xs low anchor limit o d late)

  lead_within :
      (l m : ℕ)
      → prev_start_at xs anchor ≡ some l
      → suc d ≤ total xs
      → finish_at xs (work xs l + suc d) ≡ some m
      → Reply
  lead_within l m last room moved =
      let (ends, works) = finish_at-some xs low (work xs l + suc d) m o (omega arith) moved in
      elim (Option-cases (next_at xs m)) [
        | inl missing ↦
            lead_from xs low anchor limit o d late l last m m moved (rw missing) works room
              (λ c h le. elim (le_or_gt limit m) [
                | inl before ↦ omega arith
                | inr past ↦
                    let all = next_at-none xs m missing in
                    absurd (
                      late (
                        neg_Lands xs low anchor d o l limit last
                          (omega (arith, work_mono xs m limit (omega arith)))
                          (omega (arith, work-le-total xs limit))))
              ])
        | inr (p, found) ↦
            let works_p = work-next_at xs low m p o found in
            let (past, w) = next_at-some xs low m p o found in
            lead_from xs low anchor limit o d late l last m p moved (rw found) (works_p ∙ works)
              room (λ c h le. start_le xs low c p o w h)
      ]

  lead_case : Reply
  unfolding unshift_lead
  lead_case = elim (le_or_gt (suc d) (total xs)) [
    | inr short ↦
        empty xs low anchor limit o d late (ground (arith, total_work-compiled xs)) (λ c h lands.
          omega (arith, Lands-neg_enough xs low anchor d o c lands, work-le-total xs c))
    | inl room ↦ elim (Option-cases (prev_start_at xs anchor)) [
      | inl missing ↦
          empty xs low anchor limit o d late
            (ground (arith, total_work-compiled xs, prev_working_start-compiled xs low anchor o))
            (λ c h lands. no_Lands_neg xs low anchor d o missing c lands)
      | inr (l, last) ↦ elim (Option-cases (finish_at xs (work xs l + suc d))) [
        | inr (m, moved) ↦ lead_within l m last room moved
        | inl missing ↦
            let beyond : total xs < work xs l + suc d = past_total l missing in
            empty xs low anchor limit o d late
              (ground (
                arith,
                total_work-compiled xs,
                prev_working_start-compiled xs low anchor o,
                add_productive-finish_at xs low l d o,
              ))
              (too_early xs low anchor limit o d late l last
                (omega (arith, work-le-total xs limit)))
      ]
    ]
  ]
    where
      past_total : (l : ℕ) → finish_at xs (work xs l + suc d) ≡ none → total xs < work xs l + suc d
      past_total l missing = elim (le_or_gt (work xs l + suc d) (total xs)) [
        | inl inside ↦
            let (p, e) = finish_at-total xs (work xs l + suc d) (omega arith) inside in cc
        | inr past ↦ past
      ]

within_case :
    (xs : Intervals) (low anchor : ℕ) (lag : ℤ) (limit : ℕ)
    → IsOrdered low xs
    → ¬ Lands xs anchor lag limit
    → IsGreatest xs anchor lag limit (unshift_within (compiled xs) anchor lag limit)
unfolding unshift_within
within_case xs low anchor (pos zero) limit o late = within_zero xs low anchor limit o late
within_case xs low anchor (pos (suc d)) limit o late = within_pos xs low anchor limit o d late
within_case xs low anchor (negsuc d) limit o late = lead_case xs low anchor limit o d late

unshift_lag-compiled :
    (xs : Intervals) (low anchor : ℕ) (lag : ℤ) (limit : ℕ)
    → IsOrdered low xs
    → IsGreatest xs anchor lag limit (unshift_lag (compiled xs) anchor lag (some limit))
unfolding unshift_lag
unshift_lag-compiled xs low anchor lag limit o =
    elim (Bool-cases (at_most anchor (shift_lag (compiled xs) limit lag))) [
      | inl fits ↦ rw fits (omega arith, at_most→Lands xs anchor lag limit fits, λ c h l. h)
      | inr late ↦ rw late (
          within_case xs low anchor lag limit o
            (λ lands. cc (Lands→at_most xs anchor lag limit lands)))
    ]

-- On any calendar, anchor, signed lag and ceiling, `unshift_lag` answers a coordinate up to the ceiling
-- that `shift_lag` carries to the anchor or before it, and no greater coordinate up to the ceiling is
-- carried so; it answers none exactly when no coordinate up to the ceiling is.
pub unshift_lag-IsGreatest :
    (raw : Intervals) (anchor : ℕ) (lag : ℤ) (ceiling : ℕ)
    → IsGreatest (normalise raw) anchor lag ceiling (unshift_lag (of raw) anchor lag (some ceiling))
unfolding of
unshift_lag-IsGreatest raw anchor lag ceiling =
    unshift_lag-compiled (normalise raw) 0 anchor lag ceiling (normalise-IsOrdered raw)
