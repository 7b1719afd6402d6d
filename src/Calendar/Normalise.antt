-- ===== src/Calendar/Normalise.antt =====
-- `normalise` sorts and merges, and changes no working coordinate.
use sto_scheduler_tracker_re.Prelude.{ℕ, ◌+◌, ◌≤◌, ◌<◌, max, ◌≡◌, refl, [], ◌∷◌, arith, ◌∙◌}
use sto_scheduler_tracker_re.Calendar.Intervals.{Intervals, IsOrdered}
use sto_scheduler_tracker_re.Calendar.Reference.{contains_coordinate}
use sto_scheduler_tracker_re.Calendar.Compiled.{
  insert_sorted, sorted, merge_into, merge_sorted, normalise,
}

-- Starts in order, from `low` up.
abbrev StartsFrom : ℕ → Intervals → Type 0
StartsFrom low [] = Unit
StartsFrom low ((s, f) ∷ rest) = (low ≤ s) × StartsFrom s rest

StartsFrom-weaken : (a b : ℕ) (ys : Intervals) → a ≤ b → StartsFrom b ys → StartsFrom a ys
StartsFrom-weaken a b [] h o = tt
StartsFrom-weaken a b ((s, f) ∷ ys) h o = (omega arith, o.1)

StartsFrom-insert :
    (s f low : ℕ) (ys : Intervals)
    → low ≤ s
    → StartsFrom low ys
    → StartsFrom low (insert_sorted (s, f) ys)
unfolding insert_sorted
StartsFrom-insert s f low [] h o = omega arith
StartsFrom-insert s f low ((s', f') ∷ ys) h o = ground (arith, StartsFrom-insert s f s' ys)

StartsFrom-sorted : (xs : Intervals) → StartsFrom 0 (sorted xs)
unfolding sorted
StartsFrom-sorted [] = tt
StartsFrom-sorted ((s, f) ∷ xs) =
    StartsFrom-insert s f 0 (sorted xs) (omega arith) (StartsFrom-sorted xs)

contains-insert :
    (c s f : ℕ) (ys : Intervals)
    → contains_coordinate c (insert_sorted (s, f) ys) ≡ contains_coordinate c ((s, f) ∷ ys)
unfolding insert_sorted contains_coordinate
contains-insert c s f [] = refl
contains-insert c s f ((s', f') ∷ ys) = ground (arith, contains-insert c s f ys)

contains-sorted :
    (c : ℕ) (xs : Intervals) → contains_coordinate c (sorted xs) ≡ contains_coordinate c xs
unfolding sorted contains_coordinate
contains-sorted c [] = refl
contains-sorted c ((s, f) ∷ xs) =
    ground (arith, contains-insert c s f (sorted xs), contains-sorted c xs)

contains-merge_into :
    (c ms mf : ℕ) (xs : Intervals)
    → StartsFrom ms xs
    → ms < mf
    → contains_coordinate c (merge_into ms mf xs) ≡ contains_coordinate c ((ms, mf) ∷ xs)
unfolding merge_into contains_coordinate
contains-merge_into c ms mf [] o h = refl
contains-merge_into c ms mf ((s, f) ∷ xs) o h = ground (
  arith,
  contains-merge_into c ms mf xs,
  contains-merge_into c ms (max mf f) xs,
  contains-merge_into c s f xs,
  StartsFrom-weaken ms s xs,
)

contains-merge_sorted :
    (c low : ℕ) (xs : Intervals)
    → StartsFrom low xs
    → contains_coordinate c (merge_sorted xs) ≡ contains_coordinate c xs
unfolding merge_sorted contains_coordinate
contains-merge_sorted c low [] o = refl
contains-merge_sorted c low ((s, f) ∷ xs) o =
    ground (arith, contains-merge_sorted c s xs, contains-merge_into c s f xs)

pub contains-normalise :
    (xs : Intervals) (c : ℕ) → contains_coordinate c (normalise xs) ≡ contains_coordinate c xs
unfolding normalise
contains-normalise xs c =
    contains-merge_sorted c 0 (sorted xs) (StartsFrom-sorted xs) ∙ contains-sorted c xs

merge_into-IsOrdered :
    (low ms mf : ℕ) (xs : Intervals)
    → StartsFrom ms xs
    → low ≤ ms
    → ms < mf
    → IsOrdered low (merge_into ms mf xs)
unfolding merge_into
merge_into-IsOrdered low ms mf [] o h lt = (h, lt, tt)
merge_into-IsOrdered low ms mf ((s, f) ∷ xs) o h lt = ground (
  arith,
  merge_into-IsOrdered low ms mf xs (StartsFrom-weaken ms s xs o.0 o.1),
  merge_into-IsOrdered low ms (max mf f) xs (StartsFrom-weaken ms s xs o.0 o.1),
  merge_into-IsOrdered (mf + 1) s f xs o.1,
)

merge_sorted-IsOrdered :
    (low : ℕ) (xs : Intervals) → StartsFrom low xs → IsOrdered low (merge_sorted xs)
unfolding merge_sorted
merge_sorted-IsOrdered low [] o = tt
merge_sorted-IsOrdered low ((s, f) ∷ xs) o = ground (
  arith,
  merge_sorted-IsOrdered low xs (StartsFrom-weaken low s xs o.0 o.1),
  merge_into-IsOrdered low s f xs o.1,
)

pub normalise-IsOrdered : (xs : Intervals) → IsOrdered 0 (normalise xs)
unfolding normalise
normalise-IsOrdered xs = merge_sorted-IsOrdered 0 (sorted xs) (StartsFrom-sorted xs)

insert_sorted-IsOrdered :
    (s f low : ℕ) (ys : Intervals)
    → s < f
    → low ≤ s
    → IsOrdered (f + 1) ys
    → insert_sorted (s, f) ys ≡ (s, f) ∷ ys
unfolding insert_sorted
insert_sorted-IsOrdered s f low [] lt h o = refl
insert_sorted-IsOrdered s f low ((s', f') ∷ ys) lt h o = ground arith

sorted-IsOrdered : (xs : Intervals) (low : ℕ) → IsOrdered low xs → sorted xs ≡ xs
unfolding sorted
sorted-IsOrdered [] low o = refl
sorted-IsOrdered ((s, f) ∷ xs) low o =
    rw (sorted-IsOrdered xs (f + 1) o.2) (insert_sorted-IsOrdered s f low xs o.1 o.0 o.2)

merge_into-fixed :
    (s f : ℕ) (xs : Intervals) → s < f → IsOrdered (f + 1) xs → merge_into s f xs ≡ (s, f) ∷ xs
unfolding merge_into
merge_into-fixed s f [] h o = refl
merge_into-fixed s f ((s', f') ∷ xs) h o = ground (arith, merge_into-fixed s' f' xs o.1 o.2)

-- What is in order already stays as it is.
pub normalise-fixed : (xs : Intervals) → IsOrdered 0 xs → normalise xs ≡ xs
unfolding normalise
normalise-fixed xs o = rw (sorted-IsOrdered xs 0 o) (merged xs o)
  where
    merged : (ys : Intervals) → IsOrdered 0 ys → merge_sorted ys ≡ ys
    merged [] o = refl
    merged ((s, f) ∷ ys) o = ground (arith, merge_into-fixed s f ys)

-- On any intervals, `normalise` answers sorted, non-empty, non-adjacent intervals, that hold the same
-- coordinates; and intervals that are so already stay as they are.
pub normalise-canonical :
    (xs : Intervals)
    → IsOrdered 0 (normalise xs)
      × ((c : ℕ) → contains_coordinate c (normalise xs) ≡ contains_coordinate c xs)
      × (IsOrdered 0 xs → normalise xs ≡ xs)
normalise-canonical xs = (normalise-IsOrdered xs, contains-normalise xs, normalise-fixed xs)
