-- ===== src/Calendar/Intersect.antt =====
-- `intersect_intervals` of sto/core/calendar/arithmetic.py.
use sto_scheduler_tracker_re.Prelude.{
  ℕ, ◌+◌, ◌≤◌, ◌<◌, min, max, ◌≡◌, refl, ap, ◌∙◌, ◌||◌, ltb→lt, leb→le, leb→lt, [], ◌∷◌, Bool, true,
  false, ◌&&◌, arith, ltb, leb, if◌then◌else◌, Bool-cases, inl, inr,
}
use sto_scheduler_tracker_re.Calendar.Intervals.{Interval, Intervals, IsOrdered}
use sto_scheduler_tracker_re.Calendar.Reference.{contains_coordinate, intersect_intervals}
use sto_scheduler_tracker_re.Calendar.Counting.{contains-before}

IsOrdered-from : (xs : Intervals) (low high : ℕ) → low ≤ high → IsOrdered high xs → IsOrdered low xs
IsOrdered-from [] low high h o = tt
IsOrdered-from ((s, f) ∷ rest) low high h (l, m, o) = (omega arith, m, o)

-- What one round of the loop adds to the rest.
abbrev cut : Interval → Interval → Intervals → Intervals
cut (ls, lf) (rs, rf) rest =
    if ltb (max ls rs) (min lf rf) then (max ls rs, min lf rf) ∷ rest else rest

cut-IsOrdered :
    (ls lf rs rf low : ℕ) (rest : Intervals)
    → low ≤ max ls rs
    → IsOrdered (min lf rf + 1) rest
    → IsOrdered low rest
    → IsOrdered low (cut (ls, lf) (rs, rf) rest)
cut-IsOrdered ls lf rs rf low rest h o p = elim (Bool-cases (ltb (max ls rs) (min lf rf))) [
  | inl part ↦ rw part (h, ltb→lt (max ls rs) (min lf rf) part, o)
  | inr apart ↦ rw apart p
]

intersect-IsOrdered :
    (left right : Intervals) (l r : ℕ)
    → IsOrdered l left
    → IsOrdered r right
    → IsOrdered (max l r) (intersect_intervals left right)
unfolding intersect_intervals
intersect-IsOrdered [] right l r o p = tt
intersect-IsOrdered (x ∷ left) [] l r o p = tt
intersect-IsOrdered ((ls, lf) ∷ left) ((rs, rf) ∷ right) l r (ol, om, o) (pl, pm, p) =
    elim (Bool-cases (leb lf rf)) [
      | inl before ↦
          let here = leb→le lf rf before in
          let next = intersect_intervals left ((rs, rf) ∷ right) in
          let k = intersect-IsOrdered left ((rs, rf) ∷ right) (lf + 1) rs o (omega arith, pm, p) in
          rw before (
            cut-IsOrdered ls lf rs rf (max l r) next (omega arith)
              (IsOrdered-from next (min lf rf + 1) (max (lf + 1) rs) (omega arith) k)
              (IsOrdered-from next (max l r) (max (lf + 1) rs) (omega arith) k))
      | inr after ↦
          let here = leb→lt lf rf after in
          let next = intersect_intervals ((ls, lf) ∷ left) right in
          let k = intersect-IsOrdered ((ls, lf) ∷ left) right ls (rf + 1) (omega arith, om, o) p in
          rw after (
            cut-IsOrdered ls lf rs rf (max l r) next (omega arith)
              (IsOrdered-from next (min lf rf + 1) (max ls (rf + 1)) (omega arith) k)
              (IsOrdered-from next (max l r) (max ls (rf + 1)) (omega arith) k))
    ]

contains-cut :
    (c ls lf rs rf : ℕ) (rest : Intervals)
    → contains_coordinate c (cut (ls, lf) (rs, rf) rest)
      ≡ ((leb ls c && ltb c lf) && (leb rs c && ltb c rf) || contains_coordinate c rest)
unfolding contains_coordinate
contains-cut c ls lf rs rf rest = ground arith

-- Left of both finishes, only the interval that ends first can be left behind.
left-behind :
    (c ls lf rs rf : ℕ) (in_left in_right : Bool)
    → lf ≤ rf
    → (c < rf + 1 → in_right ≡ false)
    → ((leb ls c && ltb c lf) && (leb rs c && ltb c rf)
        || (in_left && (if leb rs c && ltb c rf then true else in_right)))
      ≡ ((if leb ls c && ltb c lf then true else in_left)
          && (if leb rs c && ltb c rf then true else in_right))
left-behind c ls lf rs rf in_left in_right h k = ground arith

right-behind :
    (c ls lf rs rf : ℕ) (in_left in_right : Bool)
    → rf < lf
    → (c < lf + 1 → in_left ≡ false)
    → ((leb ls c && ltb c lf) && (leb rs c && ltb c rf)
        || ((if leb ls c && ltb c lf then true else in_left) && in_right))
      ≡ ((if leb ls c && ltb c lf then true else in_left)
          && (if leb rs c && ltb c rf then true else in_right))
right-behind c ls lf rs rf in_left in_right h k = ground arith

contains-intersect :
    (c : ℕ) (left right : Intervals) (l r : ℕ)
    → IsOrdered l left
    → IsOrdered r right
    → contains_coordinate c (intersect_intervals left right)
      ≡ (contains_coordinate c left && contains_coordinate c right)
unfolding intersect_intervals contains_coordinate
contains-intersect c [] right l r o p = refl
contains-intersect c (x ∷ left) [] l r o p = ground arith
contains-intersect c ((ls, lf) ∷ left) ((rs, rf) ∷ right) l r (ol, om, o) (pl, pm, p) =
    elim (Bool-cases (leb lf rf)) [
      | inl before ↦ rw before (
          contains-cut c ls lf rs rf (intersect_intervals left ((rs, rf) ∷ right))
          ∙ ap (λ b. (leb ls c && ltb c lf) && (leb rs c && ltb c rf) || b)
              (contains-intersect c left ((rs, rf) ∷ right) (lf + 1) r o (pl, pm, p))
          ∙ left-behind c ls lf rs rf (contains_coordinate c left) (contains_coordinate c right)
              (leb→le lf rf before) (contains-before right (rf + 1) c p))
      | inr after ↦ rw after (
          contains-cut c ls lf rs rf (intersect_intervals ((ls, lf) ∷ left) right)
          ∙ ap (λ b. (leb ls c && ltb c lf) && (leb rs c && ltb c rf) || b)
              (contains-intersect c ((ls, lf) ∷ left) right l (rf + 1) (ol, om, o) p)
          ∙ right-behind c ls lf rs rf (contains_coordinate c left) (contains_coordinate c right)
              (leb→lt lf rf after) (contains-before left (lf + 1) c o))
    ]

-- The intersection of two ordered lists of intervals is ordered, and holds exactly the coordinates that
-- both hold.
pub intersect_intervals-both :
    (left right : Intervals)
    → IsOrdered 0 left
    → IsOrdered 0 right
    → IsOrdered 0 (intersect_intervals left right)
      × ((c : ℕ)
          → contains_coordinate c (intersect_intervals left right)
            ≡ (contains_coordinate c left && contains_coordinate c right))
intersect_intervals-both left right o p =
    (intersect-IsOrdered left right 0 0 o p, λ c. contains-intersect c left right 0 0 o p)
