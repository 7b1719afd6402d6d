-- ===== src/Engine/Topology/Ends.antt =====
-- The `while` loop of `_topological_order` in sto/core/engine/forward.py ends.
use sto_scheduler_tracker_re.Prelude.{
  ℕ, zero, suc, ◌+◌, ◌≡◌, refl, sym, ap, List, [], ◌∷◌, ◌++◌, subst, length-append, arith, inl, inr,
  ◌⊎◌, length, map,
}
use sto_scheduler_tracker_re.Engine.Model.{PlannedActivity, Network}
use sto_scheduler_tracker_re.Engine.Topology.{Kahn, uids, pop, round, kahn, initial, run}
use sto_scheduler_tracker_re.Engine.Topology.Sets.{length-le-Within}
use sto_scheduler_tracker_re.Engine.Topology.Invariant.{IsWellKeyed}
use sto_scheduler_tracker_re.Engine.Topology.Rounds.{run-IsSound}

round_idle :
    (network : Network) (ready : List ℕ) (s : Kahn) → ready ≡ [] → round network ready s ≡ s
round_idle network [] s e = refl
round_idle network (u ∷ ready) s e = cc

kahn_idle :
    (network : Network) (fuel : ℕ) (s : Kahn) → s.ready ≡ [] → (kahn fuel network s).ready ≡ []
unfolding kahn
kahn_idle network zero s e = e
kahn_idle network (suc fuel) s e =
    subst (λ t. (kahn fuel network t).ready ≡ []) (sym (round_idle network s.ready s e))
      (kahn_idle network fuel s e)

-- Either the loop has ended, or each round has placed a row.
abbrev Progressed : Network → ℕ → ℕ → Kahn → Type 0
Progressed network fuel placed s =
    ((kahn fuel network s).ready ≡ []) ⊎ (length (kahn fuel network s).order ≡ placed + fuel)

progress_step :
    (network : Network) (fuel : ℕ) (s : Kahn) (ready : List ℕ)
    → s.ready ≡ ready
    → ((t : Kahn) → Progressed network fuel (length t.order) t)
    → Progressed network fuel (length s.order + 1) (round network ready s)
progress_step network fuel s [] e ih = inl (kahn_idle network fuel s e)
progress_step network fuel s (u ∷ ready) e ih =
    subst (λ n. Progressed network fuel n (pop network u ready s)) grows
      (ih (pop network u ready s))
  where
    grows : length (pop network u ready s).order ≡ length s.order + 1
    grows = unfold pop in length-append s.order (u ∷ [])

kahn_progress :
    (network : Network) (fuel : ℕ) (s : Kahn) → Progressed network fuel (length s.order) s
unfolding kahn
kahn_progress network zero s = inr (omega arith)
kahn_progress network (suc fuel) s =
    elim (progress_step network fuel s s.ready refl (λ t. kahn_progress network fuel t)) [
      | inl done ↦ inl done
      | inr more ↦ inr (omega arith)
    ]

pub length-uids :
    (rows : List PlannedActivity) → length (map (λ (a : PlannedActivity). a.uid) rows) ≡ length rows
length-uids [] = refl
length-uids (a ∷ rows) = ap suc (length-uids rows)

length-zero : (xs : List ℕ) → length xs ≡ 0 → xs ≡ []
length-zero [] e = refl
length-zero (x ∷ xs) e = absurd (omega arith)

run_progress :
    (network : Network)
    → ((run network).ready ≡ []) ⊎ (length (run network).order ≡ length network.activities)
unfolding run initial
run_progress network = elim (kahn_progress network (length network.activities) (initial network)) [
  | inl done ↦ inl done
  | inr full ↦ inr (omega arith)
]

-- A round for each activity is enough fuel: with distinct identities and known successors, Kahn's loop
-- has emptied `ready` by then.
pub run_ends : (network : Network) → IsWellKeyed network → (run network).ready ≡ []
run_ends network keyed =
    let sound = run-IsSound network keyed in
    elim (run_progress network) [
      | inl done ↦ done
      | inr full ↦ length-zero (run network).ready (
          omega (
            arith,
            length-uids network.activities,
            length-append (run network).order (run network).ready,
            length-le-Within ((run network).order ++ (run network).ready) (uids network)
                sound.distinct sound.within,
          ))
    ]
