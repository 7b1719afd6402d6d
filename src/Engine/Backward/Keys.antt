-- ===== src/Engine/Backward/Keys.antt =====
-- Rows by their identities, for the proofs about the loop of `backward_pass` in
-- sto/core/engine/backward.py, which adds them at the front.
use sto_scheduler_tracker_re.Prelude.{
  ℕ, ◌≡◌, refl, sym, ap, ◌∙◌, subst, List, [], ◌∷◌, map, true, false, ◌||◌, ◌==◌, elem, arith, some,
  Bool-cases, inl, inr, ==_iff, reverse,
}
use mathlib.Core.List.{reverse_aux}
use sto_scheduler_tracker_re.Engine.Outcome.{
  ok, ◌>>=◌, present, present-eq-ok, >>=-eq-ok, ok-inj, key_error,
}
use sto_scheduler_tracker_re.Engine.Topology.Sets.{IsDistinct}
use sto_scheduler_tracker_re.Engine.Late.{ActivityLateTimes, late_at}
use sto_scheduler_tracker_re.Engine.Backward.{rows_of}

elem-reverse_aux : (v : ℕ) (xs r : List ℕ) → elem v (reverse_aux xs r) ≡ elem v xs || elem v r
elem-reverse_aux v [] r = refl
elem-reverse_aux v (x ∷ xs) r = ground (arith, elem-reverse_aux v xs (x ∷ r))

pub elem-reverse : (v : ℕ) (xs : List ℕ) → elem v (reverse xs) ≡ elem v xs
elem-reverse v xs = ground (arith, elem-reverse_aux v xs [])

IsDistinct-reverse_aux :
    (xs r : List ℕ)
    → IsDistinct xs
    → IsDistinct r
    → ((v : ℕ) → elem v xs ≡ true → elem v r ≡ false)
    → IsDistinct (reverse_aux xs r)
IsDistinct-reverse_aux [] r d e apart = e
IsDistinct-reverse_aux (x ∷ xs) r d e apart =
    IsDistinct-reverse_aux xs (x ∷ r) d.1 (ground (arith, apart x, ==_iff x x), e)
      (λ v m. ground (arith, apart v, ==_iff x v))

pub IsDistinct-reverse : (xs : List ℕ) → IsDistinct xs → IsDistinct (reverse xs)
IsDistinct-reverse xs d = IsDistinct-reverse_aux xs [] d tt (λ v m. refl)

-- Looking a row up in the loop's rows.
pub late_at-uid :
    (rows : List ActivityLateTimes) (u : ℕ) (row : ActivityLateTimes)
    → late_at rows u ≡ some row
    → row.uid ≡ u
unfolding late_at
late_at-uid [] u row e = cc
late_at-uid (x ∷ xs) u row e = elim (Bool-cases (x.uid == u)) [
  | inl same ↦ ground (arith, ==_iff x.uid u)
  | inr other ↦ late_at-uid xs u row (ground arith)
]

pub late_at-here :
    (row : ActivityLateTimes) (rows : List ActivityLateTimes) (u : ℕ)
    → row.uid ≡ u
    → late_at (row ∷ rows) u ≡ some row
unfolding late_at
late_at-here row rows u e = rw ((==_iff row.uid u).1 e) refl

pub late_at-there :
    (row : ActivityLateTimes) (rows : List ActivityLateTimes) (u : ℕ)
    → (row.uid == u) ≡ false
    → late_at (row ∷ rows) u ≡ late_at rows u
unfolding late_at
late_at-there row rows u e = rw e refl

rows_of-cons :
    (placed : List ActivityLateTimes) (u : ℕ) (us : List ℕ) {times : List ActivityLateTimes}
    → rows_of placed (u ∷ us) ≡ ok times
    → (row : ActivityLateTimes) × (others : List ActivityLateTimes) × (late_at placed u ≡ some row)
      × (row.uid ≡ u)
      × (rows_of placed us ≡ ok others)
      × (row ∷ others ≡ times)
unfolding rows_of
rows_of-cons placed u us e =
    let (row, found, later) =
      >>=-eq-ok (present (late_at placed u) key_error (some u))
        (λ row. rows_of placed us >>= λ others. ok (row ∷ others)) e in
    let (others, rest, last) = >>=-eq-ok (rows_of placed us) (λ others. ok (row ∷ others)) later in
    let there = present-eq-ok (late_at placed u) key_error (some u) found in
    (row, others, there, late_at-uid placed u row there, rest, ok-inj last)

-- The rows that `rows_of` lists, in the order.
pub rows_of-uids :
    (placed : List ActivityLateTimes) (us : List ℕ) {times : List ActivityLateTimes}
    → rows_of placed us ≡ ok times
    → map (λ (row : ActivityLateTimes). row.uid) times ≡ us
unfolding rows_of
rows_of-uids placed [] e = ground arith
rows_of-uids placed (u ∷ us) e =
    let (row, others, there, named, rest, last) = rows_of-cons placed u us e in
    rw (← last, named, rows_of-uids placed us rest) refl

-- A row of the list is the one that the loop placed.
pub rows_of-at :
    (placed : List ActivityLateTimes) (us : List ℕ) {times : List ActivityLateTimes} (v : ℕ)
    → rows_of placed us ≡ ok times
    → elem v us ≡ true
    → late_at times v ≡ late_at placed v
unfolding rows_of
rows_of-at placed [] v e m = cc
rows_of-at placed (u ∷ us) v e m =
    let (row, others, there, named, rest, last) = rows_of-cons placed u us e in
    elim (Bool-cases (u == v)) [
      | inl same ↦
          let eq = (==_iff u v).0 same in
          subst (λ ts. late_at ts v ≡ late_at placed v) last
            (late_at-here row others v (named ∙ eq) ∙ sym (ap (late_at placed) (sym eq) ∙ there))
      | inr other ↦
          subst (λ ts. late_at ts v ≡ late_at placed v) last
            (late_at-there row others v (rw named other)
              ∙ rows_of-at placed us v rest (ground arith))
    ]

pub rows_of-elem :
    (placed : List ActivityLateTimes) (us : List ℕ) {times : List ActivityLateTimes} (v : ℕ)
    (row : ActivityLateTimes)
    → rows_of placed us ≡ ok times
    → late_at times v ≡ some row
    → elem v us ≡ true
unfolding rows_of late_at
rows_of-elem placed [] v row e at =
    let none_there : [] ≡ _ = ok-inj e in cc (ap (λ ts. late_at ts v) none_there)
rows_of-elem placed (u ∷ us) v row e at =
    let (first, others, there, named, rest, last) = rows_of-cons placed u us e in
    elim (Bool-cases (u == v)) [
      | inl same ↦ rw same refl
      | inr other ↦ rw other (
          rows_of-elem placed us v row rest (
            sym (late_at-there first others v (rw named other))
            ∙ ap (λ ts. late_at ts v) last
            ∙ at))
    ]
