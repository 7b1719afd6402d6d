-- ===== src/Engine/Topology/Released.antt =====
-- Which rows a round of Kahn's algorithm releases: those whose last open edges it closes.
use sto_scheduler_tracker_re.Prelude.{
  ℕ, ◌-◌, ◌≤◌, ◌<◌, ◌≡◌, refl, List, [], ◌∷◌, ◌++◌, true, ◌&&◌, ◌||◌, ◌==◌, if◌then◌else◌, elem,
  arith, Bool-cases, inl, inr, ◌⊎◌, ==_iff,
}
use sto_scheduler_tracker_re.Engine.Model.{PlannedRelationship}
use sto_scheduler_tracker_re.Engine.Topology.{adjust, release}
use sto_scheduler_tracker_re.Engine.Topology.Degrees.{edges_into, elem-append}
use sto_scheduler_tracker_re.Engine.Topology.Sets.{IsDistinct, IsDistinct-append}

-- Each row has at least the edges that are to be released into it.
abbrev pub Covers : List PlannedRelationship → (ℕ → ℕ) → Type 0
Covers rows f = (v : ℕ) → edges_into v rows ≤ f v

abbrev lower : (ℕ → ℕ) → PlannedRelationship → ℕ → ℕ
lower f r = adjust f r.successor_uid (λ n. n - 1)

abbrev out_next : (ℕ → ℕ) → PlannedRelationship → List ℕ → List ℕ
out_next f r out = if lower f r r.successor_uid == 0 then out ++ r.successor_uid ∷ [] else out

Covers-lower :
    (r : PlannedRelationship) (rest : List PlannedRelationship) (f : ℕ → ℕ)
    → Covers (r ∷ rest) f
    → Covers rest (lower f r)
unfolding edges_into
Covers-lower r rest f c v = ground (arith, c v)

elem-out_next :
    (f : ℕ → ℕ) (r : PlannedRelationship) (out : List ℕ) (v : ℕ)
    → elem v (out_next f r out)
      ≡ elem v out || (r.successor_uid == v && lower f r r.successor_uid == 0)
elem-out_next f r out v = ground (arith, elem-append v out (r.successor_uid ∷ []))

-- A released row had open edges, and exactly those that were released into it.
pub released_by :
    (rows : List PlannedRelationship) (f : ℕ → ℕ) (out : List ℕ) (v : ℕ)
    → Covers rows f
    → elem v (release rows f out).1 ≡ true
    → (elem v out ≡ true) ⊎ ((0 < f v) × (f v ≡ edges_into v rows))
unfolding release edges_into
released_by [] f out v c m = inl m
released_by (r ∷ rest) f out v c m = ground (
  arith,
  released_by rest (lower f r) (out_next f r out) v (Covers-lower r rest f c) m,
  elem-out_next f r out v,
  ==_iff r.successor_uid v,
  c v,
  Covers-lower r rest f c v,
)

pub released_keeps :
    (rows : List PlannedRelationship) (f : ℕ → ℕ) (out : List ℕ) (v : ℕ)
    → elem v out ≡ true
    → elem v (release rows f out).1 ≡ true
unfolding release
released_keeps [] f out v m = m
released_keeps (r ∷ rest) f out v m =
    released_keeps rest (lower f r) (out_next f r out) v (ground (arith, elem-out_next f r out v))

-- Every such row is released.
pub released_all :
    (rows : List PlannedRelationship) (f : ℕ → ℕ) (out : List ℕ) (v : ℕ)
    → Covers rows f
    → 0 < f v
    → f v ≡ edges_into v rows
    → elem v (release rows f out).1 ≡ true
unfolding release edges_into
released_all [] f out v c h e = absurd (omega arith)
released_all (r ∷ rest) f out v c h e = elim (Bool-cases (r.successor_uid == v)) [
  | inr other ↦
      released_all rest (lower f r) (out_next f r out) v (Covers-lower r rest f c) (ground arith)
        (ground arith)
  | inl same ↦
      let eq = (==_iff r.successor_uid v).0 same in
      elim (Bool-cases (f v == 1)) [
        | inl one ↦
            released_keeps rest (lower f r) (out_next f r out) v
              (ground (arith, elem-out_next f r out v))
        | inr more ↦
            released_all rest (lower f r) (out_next f r out) v (Covers-lower r rest f c)
              (ground arith) (ground arith)
      ]
]

pub released-IsDistinct :
    (rows : List PlannedRelationship) (f : ℕ → ℕ) (out : List ℕ)
    → Covers rows f
    → IsDistinct out
    → ((v : ℕ) → elem v out ≡ true → f v ≡ 0)
    → IsDistinct (release rows f out).1
unfolding release
released-IsDistinct [] f out c d z = d
released-IsDistinct (r ∷ rest) f out c d z =
    released-IsDistinct rest (lower f r) (out_next f r out) (Covers-lower r rest f c) distinct zeros
  where
    positive : 0 < f r.successor_uid
    positive =
        unfold edges_into in
        ground (arith, c r.successor_uid, ==_iff r.successor_uid r.successor_uid)

    distinct : IsDistinct (out_next f r out)
    distinct = elim (Bool-cases (lower f r r.successor_uid == 0)) [
      | inr more ↦ rw more d
      | inl last ↦ rw last (
          IsDistinct-append out (r.successor_uid ∷ []) d (refl, tt)
            (λ v m. ground (arith, z v m, ==_iff r.successor_uid v, positive)))
    ]

    zeros : (v : ℕ) → elem v (out_next f r out) ≡ true → lower f r v ≡ 0
    zeros v m = ground (arith, elem-out_next f r out v, z v, ==_iff r.successor_uid v)
