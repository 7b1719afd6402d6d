-- ===== src/Prelude/Dict.antt =====
-- Sets and dictionaries keyed by identities, as lists.
use Prim.Native.Nat.{ℕ}
use mathlib.Core.Bool.{Bool, true, false}
use mathlib.Core.List.{List, [], ◌∷◌}
use mathlib.Core.Option.{Option, none, some}
use mathlib.Core.Path.{◌≡◌, subst}
use mathlib.Core.Logic.{inl, inr}
use native.Mathlib.Omega.{arith}
use sto_scheduler_tracker_re.Prelude.Tests.{◌==◌, if◌then◌else◌, Bool-cases}
use sto_scheduler_tracker_re.Prelude.Lists.{All}

-- `u in set`
abbrev pub elem : ℕ → List ℕ → Bool
elem u [] = false
elem u (x ∷ xs) = if x == u then true else elem u xs

module _ {ℓ} {A : Type ℓ} where
  abbrev pub filter : (A → Bool) → List A → List A
  filter p [] = []
  filter p (x ∷ xs) = if p x then x ∷ filter p xs else filter p xs

  -- The first row with the key.
  abbrev pub find : (A → ℕ) → ℕ → List A → Option A
  find key u [] = none
  find key u (x ∷ xs) = if key x == u then some x else find key u xs

  abbrev pub default : A → Option A → A
  default d none = d
  default d (some a) = a

  -- What holds of all rows holds of the one that is found.
  pub All-find {κ} :
      (P : A → Type κ) (key : A → ℕ) (u : ℕ) (rows : List A) (a : A)
      → All P rows
      → find key u rows ≡ some a
      → P a
  All-find P key u [] a h e = cc
  All-find P key u (x ∷ xs) a (h, hs) e = elim (Bool-cases (key x == u)) [
    | inl same ↦ subst P {x = x} {y = a} (ground arith) h
    | inr other ↦ All-find P key u xs a hs (ground arith)
  ]
