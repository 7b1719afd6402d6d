-- ===== src/Engine/Lag/Landing.antt =====
-- Which coordinates `shift_lag` of sto/core/engine/network.py carries to an anchor or before it,
-- in terms of the work done.
use sto_scheduler_tracker_re.Prelude.{
  ℕ, suc, ◌+◌, ◌-◌, ◌≤◌, ◌≡◌, sym, ap, ◌∙◌, inl, inr, some, none, Option, true, ℤ, pos, negsuc,
  arith, Option-cases, le_or_gt, le→leb, lt→leb, leb→le,
}
use sto_scheduler_tracker_re.Calendar.Intervals.{
  Intervals, IsOrdered, work, start_at, work-le-total, work_mono,
}
use sto_scheduler_tracker_re.Calendar.Compiled.{compiled}
use sto_scheduler_tracker_re.Calendar.Order.{
  start_at-some, start_at-total, finish_at-some, finish_at-total, work-lt-Finishing,
}
use sto_scheduler_tracker_re.Calendar.Later.{add_productive-finish_at}
use sto_scheduler_tracker_re.Calendar.Earlier.{sub_productive-start_at}
use sto_scheduler_tracker_re.Calendar.Earliest.{start_le}
use sto_scheduler_tracker_re.Calendar.Latest.{
  prev_start_at, prev_start_at-some, prev_start_at-greatest,
}
use sto_scheduler_tracker_re.Engine.Lag.{shift_lag, at_most}

-- Shifted by the lag, the coordinate lands at or before the anchor.
abbrev pub Lands : Intervals → (anchor : ℕ) (lag : ℤ) (c : ℕ) → Type 0
Lands xs anchor lag c = (v : ℕ) × (shift_lag (compiled xs) c lag ≡ some v) × (v ≤ anchor)

abbrev pub IsGreatest : Intervals → (anchor : ℕ) (lag : ℤ) (ceiling : ℕ) → Option ℕ → Type 0
IsGreatest xs anchor lag ceiling none = (c : ℕ) → c ≤ ceiling → ¬ Lands xs anchor lag c
IsGreatest xs anchor lag ceiling (some a) =
    (a ≤ ceiling) × Lands xs anchor lag a × ((c : ℕ) → c ≤ ceiling → Lands xs anchor lag c → c ≤ a)

pub at_most→Lands :
    (xs : Intervals) (anchor : ℕ) (lag : ℤ) (c : ℕ)
    → at_most anchor (shift_lag (compiled xs) c lag) ≡ true
    → Lands xs anchor lag c
at_most→Lands xs anchor lag c e = elim (Option-cases (shift_lag (compiled xs) c lag)) [
  | inl missing ↦ cc (ap (at_most anchor) missing)
  | inr (v, found) ↦ (v, found, leb→le v anchor (sym (ap (at_most anchor) found) ∙ e))
]

pub Lands→at_most :
    (xs : Intervals) (anchor : ℕ) (lag : ℤ) (c : ℕ)
    → Lands xs anchor lag c
    → at_most anchor (shift_lag (compiled xs) c lag) ≡ true
Lands→at_most xs anchor lag c (v, e, h) = rw e (le→leb v anchor h)

module _ (xs : Intervals) (low anchor d : ℕ) (o : IsOrdered low xs) where
  pub Lands-pos : (c : ℕ) → Lands xs anchor (pos (suc d)) c → work xs c + suc d ≤ work xs anchor
  unfolding shift_lag
  Lands-pos c (v, e, h) =
      let (ends, works) =
        finish_at-some xs low (work xs c + suc d) v o (omega arith)
          (sym (add_productive-finish_at xs low c d o) ∙ e) in
      omega (arith, work_mono xs v anchor h)

  pub pos_Lands : (c : ℕ) → work xs c + suc d ≤ work xs anchor → Lands xs anchor (pos (suc d)) c
  unfolding shift_lag
  pos_Lands c h =
      let (p, e) =
        finish_at-total xs (work xs c + suc d) (omega arith)
          (omega (arith, work-le-total xs anchor)) in
      let (ends, works) = finish_at-some xs low (work xs c + suc d) p o (omega arith) e in
      (
        p,
        add_productive-finish_at xs low c d o ∙ e,
        elim (le_or_gt p anchor) [
          | inl le ↦ le
          | inr gt ↦ absurd (omega (arith, work-lt-Finishing xs low anchor p o ends gt))
        ],
      )

  pub Lands-neg :
      (l c : ℕ)
      → prev_start_at xs anchor ≡ some l
      → Lands xs anchor (negsuc d) c
      → (suc d ≤ work xs c) × (work xs c ≤ work xs l + suc d)
  unfolding shift_lag
  Lands-neg l c last (v, e, h) = elim (le_or_gt (suc d) (work xs c)) [
    | inl enough ↦
        let found : start_at xs (work xs c - suc d) ≡ some v =
          ground (arith, sub_productive-start_at xs low c d o) in
        let (w, works) = start_at-some xs low (work xs c - suc d) v o found in
        let (q, eq, m) = prev_start_at-greatest xs low anchor v o w h in
        let same : q ≡ l = ground arith in (enough, omega (arith, work_mono xs v l (omega arith)))
    | inr short ↦ cc (sub_productive-start_at xs low c d o, lt→leb (suc d) (work xs c) short)
  ]

  pub neg_Lands :
      (l c : ℕ)
      → prev_start_at xs anchor ≡ some l
      → suc d ≤ work xs c
      → work xs c ≤ work xs l + suc d
      → Lands xs anchor (negsuc d) c
  unfolding shift_lag
  neg_Lands l c last enough within =
      let (le, w) = prev_start_at-some xs low anchor l o last in
      let (p, e) = start_at-total xs (work xs c - suc d) (omega (arith, work-le-total xs c)) in
      let (wp, works) = start_at-some xs low (work xs c - suc d) p o e in
      (
        p,
        ground (arith, sub_productive-start_at xs low c d o),
        omega (arith, start_le xs low p l o w (omega arith)),
      )

  pub no_Lands_neg : prev_start_at xs anchor ≡ none → (c : ℕ) → ¬ Lands xs anchor (negsuc d) c
  unfolding shift_lag
  no_Lands_neg missing c (v, e, h) = elim (le_or_gt (suc d) (work xs c)) [
    | inl enough ↦
        let found : start_at xs (work xs c - suc d) ≡ some v =
          ground (arith, sub_productive-start_at xs low c d o) in
        let (w, works) = start_at-some xs low (work xs c - suc d) v o found in
        let (q, eq, m) = prev_start_at-greatest xs low anchor v o w h in cc
    | inr short ↦ cc (sub_productive-start_at xs low c d o, lt→leb (suc d) (work xs c) short)
  ]

  pub Lands-neg_enough : (c : ℕ) → Lands xs anchor (negsuc d) c → suc d ≤ work xs c
  unfolding shift_lag
  Lands-neg_enough c (v, e, h) = elim (le_or_gt (suc d) (work xs c)) [
    | inl enough ↦ enough
    | inr short ↦ cc (sub_productive-start_at xs low c d o, lt→leb (suc d) (work xs c) short)
  ]
