-- ===== src/Calendar/Reach.antt =====
-- `reach` of `earliest_span`: the smallest coordinate, at or beyond a bound, at which work can finish.
use sto_scheduler_tracker_re.Prelude.{
  ℕ, zero, suc, ◌+◌, ◌≤◌, ◌<◌, ◌≡◌, refl, [], ◌∷◌, arith, inl, inr, some, none, Option, ltb, leb,
  ◌&&◌, if◌then◌else◌, get_or, length, le_or_gt,
}
use sto_scheduler_tracker_re.Calendar.Intervals.{Intervals, IsOrdered, Finishing}
use sto_scheduler_tracker_re.Calendar.Compiled.{compiled, bisect_right, bisect_left}
use sto_scheduler_tracker_re.Calendar.Spans.{finish_reach}
use sto_scheduler_tracker_re.Calendar.Work.{starts_of, finishes_of, bisect-suc_low}
use sto_scheduler_tracker_re.Calendar.Order.{Finishing-gt}

pub reach_at : Intervals → ℕ → Option ℕ
reach_at [] b = none
reach_at ((s, f) ∷ rest) b =
    let later = reach_at rest b in
    if leb b s then some (s + 1) else if leb b f then some b else later

-- The answer when the bound lies in no (start, finish].
abbrev into : Intervals → ℕ → Option ℕ
into xs b =
    if leb (length (starts_of xs)) (bisect_left (starts_of xs) b)
    then none
    else some (get_or (starts_of xs) (bisect_left (starts_of xs) b) 0 + 1)

reach_at-zero :
    (xs : Intervals) (low b : ℕ)
    → IsOrdered low xs
    → bisect_right (starts_of xs) b ≡ 0
    → reach_at xs b ≡ into xs b
unfolding reach_at bisect_right bisect_left
reach_at-zero [] low b o e = refl
reach_at-zero ((s, f) ∷ rest) low b o e = ground arith

reach_at-suc :
    (xs : Intervals) (low b i : ℕ)
    → IsOrdered low xs
    → bisect_right (starts_of xs) b ≡ suc i
    → reach_at xs b ≡ (
        if ltb (get_or (starts_of xs) i 0) b && leb b (get_or (finishes_of xs) i 0)
        then some b
        else into xs b)
unfolding reach_at bisect_right bisect_left
reach_at-suc [] low b i o e = cc
reach_at-suc ((s, f) ∷ rest) low b zero o e = ground (arith, reach_at-zero rest (f + 1) b o.2)
reach_at-suc ((s, f) ∷ rest) low b (suc i) o e =
    ground (arith, reach_at-suc rest (f + 1) b i o.2, bisect-suc_low rest (f + 1) b i o.2)

pub finish_reach-compiled :
    (xs : Intervals) (low b : ℕ) → IsOrdered low xs → finish_reach (compiled xs) b ≡ reach_at xs b
unfolding finish_reach
finish_reach-compiled xs low b o = go (bisect_right (starts_of xs) b) refl
  where
    go : (k : ℕ) → bisect_right (starts_of xs) b ≡ k → finish_reach (compiled xs) b ≡ reach_at xs b
    go zero e = ground (arith, reach_at-zero xs low b o)
    go (suc i) e = ground (arith, reach_at-suc xs low b i o)

pub reach_at-some :
    (xs : Intervals) (low b p : ℕ)
    → IsOrdered low xs
    → reach_at xs b ≡ some p
    → (b ≤ p) × Finishing p xs
unfolding reach_at
reach_at-some [] low b p o e = cc
reach_at-some ((s, f) ∷ rest) low b p o e = elim (le_or_gt b s) [
  | inl before ↦ let at : p ≡ s + 1 = ground arith in (omega arith, inl (omega arith))
  | inr behind ↦ elim (le_or_gt b f) [
    | inl inside ↦ let at : p ≡ b = ground arith in (omega arith, inl (omega arith))
    | inr past ↦ let (l, w) = reach_at-some rest (f + 1) b p o.2 (ground arith) in (l, inr w)
  ]
]

pub reach_at-least :
    (xs : Intervals) (low b w : ℕ)
    → IsOrdered low xs
    → Finishing w xs
    → b ≤ w
    → (p : ℕ) × (reach_at xs b ≡ some p) × (p ≤ w)
unfolding reach_at
reach_at-least [] low b w o k h = elim k [ ]
reach_at-least ((s, f) ∷ rest) low b w o k h = elim (le_or_gt b s) [
  | inl before ↦ (
    s + 1,
    ground arith,
    omega (arith, Finishing-gt ((s, f) ∷ rest) s w (omega arith, o.1, o.2) k),
  )
  | inr behind ↦ elim (le_or_gt b f) [
    | inl inside ↦ (b, ground arith, h)
    | inr past ↦
        let (p, e, l) = reach_at-least rest (f + 1) b w o.2 (later k past) h in (p, ground arith, l)
  ]
]
  where
    later : Finishing w ((s, f) ∷ rest) → f < b → Finishing w rest
    later (inl here) past = absurd (omega arith)
    later (inr there) past = there
