-- ===== src/Engine/Topology/Sets.antt =====
-- Lists of identities as sets, for the proofs about `_topological_order`.
use sto_scheduler_tracker_re.Prelude.{
  ℕ, suc, ◌≤◌, ◌≡◌, refl, ◌∙◌, List, [], ◌∷◌, ◌++◌, Bool, true, false, ◌&&◌, ◌==◌, if◌then◌else◌,
  filter, elem, arith, Bool-cases, inl, inr, ==_iff, length,
}
use sto_scheduler_tracker_re.Engine.Topology.{insert_by, sorted_by}
use sto_scheduler_tracker_re.Engine.Topology.Degrees.{elem-append}

abbrev pub IsDistinct : List ℕ → Type 0
IsDistinct [] = Unit
IsDistinct (x ∷ xs) = (elem x xs ≡ false) × IsDistinct xs

abbrev pub Within : List ℕ → List ℕ → Type 0
Within xs ys = (v : ℕ) → elem v xs ≡ true → elem v ys ≡ true

pub IsDistinct-append :
    (xs ys : List ℕ)
    → IsDistinct xs
    → IsDistinct ys
    → ((v : ℕ) → elem v xs ≡ true → elem v ys ≡ false)
    → IsDistinct (xs ++ ys)
IsDistinct-append [] ys d e apart = e
IsDistinct-append (x ∷ xs) ys d e apart = (
  ground (arith, elem-append x xs ys, apart x, ==_iff x x),
  IsDistinct-append xs ys d.1 e (λ v m. apart v (ground arith)),
)

pub IsDistinct-append_left : (xs ys : List ℕ) → IsDistinct (xs ++ ys) → IsDistinct xs
IsDistinct-append_left [] ys d = tt
IsDistinct-append_left (x ∷ xs) ys d =
    (ground (arith, elem-append x xs ys), IsDistinct-append_left xs ys d.1)

-- In a list without repetition, what stands behind is not before.
pub IsDistinct-apart :
    (xs : List ℕ) (u : ℕ) (ys : List ℕ) → IsDistinct (xs ++ u ∷ ys) → elem u xs ≡ false
IsDistinct-apart [] u ys d = refl
IsDistinct-apart (x ∷ xs) u ys d =
    ground (arith, elem-append x xs (u ∷ ys), IsDistinct-apart xs u ys d.1, ==_iff x u, ==_iff u x)

pub elem-insert_by :
    (key : ℕ → ℕ) (v x : ℕ) (ys : List ℕ) → elem v (insert_by key x ys) ≡ elem v (x ∷ ys)
unfolding insert_by
elem-insert_by key v x [] = refl
elem-insert_by key v x (y ∷ ys) = ground (arith, elem-insert_by key v x ys)

pub elem-sorted_by : (key : ℕ → ℕ) (v : ℕ) (xs : List ℕ) → elem v (sorted_by key xs) ≡ elem v xs
unfolding sorted_by
elem-sorted_by key v [] = refl
elem-sorted_by key v (x ∷ xs) =
    ground (arith, elem-insert_by key v x (sorted_by key xs), elem-sorted_by key v xs)

IsDistinct-insert_by :
    (key : ℕ → ℕ) (x : ℕ) (ys : List ℕ)
    → elem x ys ≡ false
    → IsDistinct ys
    → IsDistinct (insert_by key x ys)
unfolding insert_by
IsDistinct-insert_by key x [] h d = (refl, tt)
IsDistinct-insert_by key x (y ∷ ys) h d =
    ground (arith, IsDistinct-insert_by key x ys, elem-insert_by key y x ys, ==_iff x y, ==_iff y x)

pub IsDistinct-sorted_by :
    (key : ℕ → ℕ) (xs : List ℕ) → IsDistinct xs → IsDistinct (sorted_by key xs)
unfolding sorted_by
IsDistinct-sorted_by key [] d = tt
IsDistinct-sorted_by key (x ∷ xs) d =
    IsDistinct-insert_by key x (sorted_by key xs) (elem-sorted_by key x xs ∙ d.0)
      (IsDistinct-sorted_by key xs d.1)

pub elem-filter : (p : ℕ → Bool) (v : ℕ) (xs : List ℕ) → elem v (filter p xs) ≡ elem v xs && p v
elem-filter p v [] = refl
elem-filter p v (x ∷ xs) = elim (Bool-cases (x == v)) [
  | inl same ↦
      let eq = (==_iff x v).0 same in
      rw same (elim (Bool-cases (p x)) [
        | inl kept ↦ rw (kept, same, ← eq, kept)
        | inr dropped ↦ rw (dropped, elem-filter p v xs, ← eq, dropped) (elim_and (elem x xs))
      ])
  | inr other ↦ rw other (elim (Bool-cases (p x)) [
    | inl kept ↦ rw (kept, other) (elem-filter p v xs)
    | inr dropped ↦ rw dropped (elem-filter p v xs)
  ])
]
  where
    elim_and : (b : Bool) → (b && false) ≡ false
    elim_and true = refl
    elim_and false = refl

pub IsDistinct-filter : (p : ℕ → Bool) (xs : List ℕ) → IsDistinct xs → IsDistinct (filter p xs)
IsDistinct-filter p [] d = tt
IsDistinct-filter p (x ∷ xs) d = elim (Bool-cases (p x)) [
  | inl kept ↦ rw kept (rw (elem-filter p x xs, d.0), IsDistinct-filter p xs d.1)
  | inr dropped ↦ rw dropped (IsDistinct-filter p xs d.1)
]

-- All but the first occurrence.
remove : ℕ → List ℕ → List ℕ
remove u [] = []
remove u (x ∷ xs) = let rest = remove u xs in if x == u then xs else x ∷ rest

length-remove : (u : ℕ) (xs : List ℕ) → elem u xs ≡ true → length xs ≡ suc (length (remove u xs))
unfolding remove
length-remove u [] e = cc
length-remove u (x ∷ xs) e = ground (arith, length-remove u xs)

elem-remove :
    (u v : ℕ) (xs : List ℕ) → elem v xs ≡ true → (u == v) ≡ false → elem v (remove u xs) ≡ true
unfolding remove
elem-remove u v [] e n = cc
elem-remove u v (x ∷ xs) e n =
    ground (arith, elem-remove u v xs, ==_iff x u, ==_iff x v, ==_iff u v)

elem_of_remove : (u v : ℕ) (xs : List ℕ) → elem v (remove u xs) ≡ true → elem v xs ≡ true
unfolding remove
elem_of_remove u v [] e = cc
elem_of_remove u v (x ∷ xs) e = ground (arith, elem_of_remove u v xs)

pub length-le-Within : (xs ys : List ℕ) → IsDistinct xs → Within xs ys → length xs ≤ length ys
length-le-Within [] ys d w = omega arith
length-le-Within (x ∷ xs) ys d w =
    let here = w x (ground (arith, ==_iff x x)) in
    omega (
      arith,
      length-remove x ys here,
      length-le-Within xs (remove x ys) d.1
          (λ v m. elem-remove x v ys (w v (ground arith)) (ground (arith, ==_iff x v, d.0))),
    )

-- A list without repetition that fills another of its length holds all of it.
pub Within-full :
    (xs ys : List ℕ) → IsDistinct xs → Within xs ys → length xs ≡ length ys → Within ys xs
Within-full [] [] d w e v m = m
Within-full [] (y ∷ ys) d w e v m = absurd (omega arith)
Within-full (x ∷ xs) ys d w e v m =
    let here = w x (ground (arith, ==_iff x x)) in
    elim (Bool-cases (x == v)) [
      | inl same ↦ ground arith
      | inr other ↦
          let rest =
            Within-full xs (remove x ys) d.1
              (λ z k. elem-remove x z ys (w z (ground arith)) (ground (arith, ==_iff x z, d.0)))
              (omega (arith, length-remove x ys here)) v (elem-remove x v ys m other) in
          ground arith
    ]
