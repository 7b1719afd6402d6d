-- ===== src/Engine/Lag/Unshift.antt =====
-- `unshift_lag` of sto/core/engine/network.py, branch by branch.
use sto_scheduler_tracker_re.Prelude.{
  ℕ, suc, ◌+◌, ◌-◌, ◌≤◌, ◌≡◌, refl, inl, inr, some, none, Option, ℤ, pos, negsuc, arith, le_or_gt,
  default,
}
use sto_scheduler_tracker_re.Calendar.Intervals.{
  Intervals, IsOrdered, work, total, finish_at, work-le-total, work_mono,
}
use sto_scheduler_tracker_re.Calendar.Compiled.{compiled}
use sto_scheduler_tracker_re.Calendar.Order.{start_at-some, start_at-total}
use sto_scheduler_tracker_re.Calendar.Next.{next_at, next_working-compiled}
use sto_scheduler_tracker_re.Calendar.Locate.{total_work-compiled}
use sto_scheduler_tracker_re.Calendar.Later.{add_productive-finish_at}
use sto_scheduler_tracker_re.Calendar.Earlier.{sub_productive-start_at}
use sto_scheduler_tracker_re.Calendar.Earliest.{start_le}
use sto_scheduler_tracker_re.Calendar.Latest.{prev_start_at, prev_working_start-compiled}
use sto_scheduler_tracker_re.Engine.Lag.{shift_lag, unshift_lead, unshift_within}
use sto_scheduler_tracker_re.Engine.Lag.Landing.{
  Lands, IsGreatest, Lands→at_most, Lands-pos, pos_Lands, Lands-neg, neg_Lands, Lands-neg_enough,
}

pub none-IsGreatest :
    (xs : Intervals) (anchor : ℕ) (lag : ℤ) (limit : ℕ) (answer : Option ℕ)
    → answer ≡ none
    → ((c : ℕ) → c ≤ limit → ¬ Lands xs anchor lag c)
    → IsGreatest xs anchor lag limit answer
none-IsGreatest xs anchor lag limit answer e empty = rw e empty

pub some-IsGreatest :
    (xs : Intervals) (anchor : ℕ) (lag : ℤ) (limit : ℕ) (answer : Option ℕ) (a : ℕ)
    → answer ≡ some a
    → IsGreatest xs anchor lag limit (some a)
    → IsGreatest xs anchor lag limit answer
some-IsGreatest xs anchor lag limit answer a e g = rw e g

-- The limit itself is too late.
module _ (xs : Intervals) (low anchor limit : ℕ) (o : IsOrdered low xs) where
  pub within_zero :
      ¬ Lands xs anchor (pos 0) limit
      → IsGreatest xs anchor (pos 0) limit (unshift_within (compiled xs) anchor (pos 0) limit)
  unfolding unshift_within shift_lag
  within_zero late = elim (le_or_gt limit anchor) [
    | inl le ↦ absurd (late (limit, refl, le))
    | inr gt ↦ (omega arith, (anchor, refl, omega arith), λ c h (v, e, le). ground arith)
  ]

  pub within_pos :
      (d : ℕ)
      → ¬ Lands xs anchor (pos (suc d)) limit
      → IsGreatest xs anchor
          (pos (suc d))
          limit
          (unshift_within (compiled xs) anchor (pos (suc d)) limit)
  unfolding unshift_within
  within_pos d late = elim (le_or_gt (suc d) (work xs anchor)) [
    | inr short ↦
        none-IsGreatest xs anchor (pos (suc d)) limit
          (unshift_within (compiled xs) anchor (pos (suc d)) limit)
          (ground (arith, sub_productive-start_at xs low anchor d o))
          (λ c h l. omega (arith, Lands-pos xs low anchor d o c l))
    | inl enough ↦
        let (a, e) =
          start_at-total xs (work xs anchor - suc d) (omega (arith, work-le-total xs anchor)) in
        let (w, works) = start_at-some xs low (work xs anchor - suc d) a o e in
        elim (le_or_gt a limit) [
          | inl inside ↦
              some-IsGreatest xs anchor (pos (suc d)) limit
                (unshift_within (compiled xs) anchor (pos (suc d)) limit) a
                (ground (arith, sub_productive-start_at xs low anchor d o))
                (
                  inside,
                  pos_Lands xs low anchor d o a (omega arith),
                  λ c h l. start_le xs low c a o w (omega (arith, Lands-pos xs low anchor d o c l)),
                )
          | inr outside ↦ absurd (
              late (
                pos_Lands xs low anchor d o limit
                  (omega (arith, work_mono xs limit a (omega arith)))))
        ]
  ]

  module _ (d : ℕ) (late : ¬ Lands xs anchor (negsuc d) limit) where
    abbrev pub answer : Option ℕ
    answer = unshift_lead (compiled xs) anchor (suc d) limit

    pub empty :
        answer ≡ none
        → ((c : ℕ) → c ≤ limit → ¬ Lands xs anchor (negsuc d) c)
        → IsGreatest xs anchor (negsuc d) limit answer
    empty = none-IsGreatest xs anchor (negsuc d) limit answer

    module _ (l : ℕ) (last : prev_start_at xs anchor ≡ some l) where
      -- A limit by which no more work is done than the landing and the lead allow is itself too early
      -- for the lead.
      pub too_early :
          work xs limit ≤ work xs l + suc d → (c : ℕ) → c ≤ limit → ¬ Lands xs anchor (negsuc d) c
      too_early h c le lands =
          let enough = Lands-neg_enough xs low anchor d o c lands in
          late (
            neg_Lands xs low anchor d o l limit last
              (omega (arith, enough, work_mono xs c limit le)) h)

      -- Where the landing and the lead end, and how the code goes on from there.
      pub lead_from :
          (m a : ℕ)
          → finish_at xs (work xs l + suc d) ≡ some m
          → default m (next_at xs m) ≡ a
          → work xs a ≡ work xs l + suc d
          → suc d ≤ total xs
          → ((c : ℕ) → work xs c ≤ work xs a → c ≤ limit → c ≤ a)
          → IsGreatest xs anchor (negsuc d) limit answer
      unfolding unshift_lead
      lead_from m a moved opened works room greatest = elim (le_or_gt a limit) [
        | inr outside ↦
            empty
              (ground (
                arith,
                total_work-compiled xs,
                prev_working_start-compiled xs low anchor o,
                add_productive-finish_at xs low l d o,
                next_working-compiled xs low m o,
              ))
              (too_early (omega (arith, work_mono xs limit a (omega arith))))
        | inl inside ↦
            let lands = neg_Lands xs low anchor d o l a last (omega arith) (omega arith) in
            some-IsGreatest xs anchor (negsuc d) limit answer a
              (ground (
                arith,
                total_work-compiled xs,
                prev_working_start-compiled xs low anchor o,
                add_productive-finish_at xs low l d o,
                next_working-compiled xs low m o,
                Lands→at_most xs anchor (negsuc d) a lands,
              ))
              (
                inside,
                lands,
                λ c h lc. greatest c (omega (arith, (Lands-neg xs low anchor d o l c last lc).1)) h,
              )
      ]
