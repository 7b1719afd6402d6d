-- ===== src/Engine/Topology/Rounds.antt =====
-- Every round of `_topological_order` in sto/core/engine/forward.py keeps the invariant.
use sto_scheduler_tracker_re.Prelude.{
  ℕ, zero, suc, ◌≡◌, refl, sym, ◌∙◌, ap, List, [], ◌∷◌, ◌++◌, true, false, ◌==◌, elem, filter,
  arith, Bool-cases, inl, inr, ==_iff, length,
}
use mathlib.Core.List.{append_assoc}
use sto_scheduler_tracker_re.Engine.Model.{Network}
use sto_scheduler_tracker_re.Engine.Topology.{
  Kahn, uids, position, sorted_by, pop, round, kahn, initial, count_in, run,
}
use sto_scheduler_tracker_re.Engine.Topology.Degrees.{elem-append, count_in_lem, open_into-nil}
use sto_scheduler_tracker_re.Engine.Topology.Sets.{
  IsDistinct, IsDistinct-append, elem-sorted_by, IsDistinct-sorted_by, elem-filter,
  IsDistinct-filter,
}
use sto_scheduler_tracker_re.Engine.Topology.Released.{released_all, released-IsDistinct}
use sto_scheduler_tracker_re.Engine.Topology.Invariant.{
  IsWellKeyed, IsSound, Follows-of_zero, RespectsEdges-snoc, edges_into_known, open_into-le, out_of,
  released, in_ready, closes, covers, old_or_new, newly, old_zero, lowered,
}

module _ (network : Network) (keyed : IsWellKeyed network) (s : Kahn) (sound : IsSound network s)
    (u : ℕ) (ready : List ℕ) (popped : s.ready ≡ u ∷ ready) where
  abbrev fresh_rows : List ℕ
  fresh_rows = sorted_by (position (uids network)) (released network keyed s sound u ready popped).1

  regroup : (s.order ++ u ∷ []) ++ (ready ++ fresh_rows) ≡ (s.order ++ s.ready) ++ fresh_rows
  regroup = rw (popped, append_assoc) (append_assoc' s.order u ready fresh_rows)
    where
      append_assoc' : (a : List ℕ) (x : ℕ) (b c : List ℕ) → a ++ (x ∷ (b ++ c)) ≡ (a ++ x ∷ b) ++ c
      append_assoc' a x b c = sym (append_assoc a (x ∷ b) c)

  new_unplaced : (v : ℕ) → elem v (s.order ++ s.ready) ≡ true → elem v fresh_rows ≡ false
  new_unplaced v m =
      let z = old_zero network keyed s sound u ready popped v m in
      elim (Bool-cases (elem v fresh_rows)) [
        | inr absent ↦ absent
        | inl present ↦
            let (h, _) = newly network keyed s sound u ready popped v (
              sym (
                elem-sorted_by (position (uids network)) v
                  (released network keyed s sound u ready popped).1)
              ∙ present) in
            absurd (omega arith)
      ]

  IsDistinct-after : IsDistinct ((s.order ++ u ∷ []) ++ (ready ++ fresh_rows))
  IsDistinct-after = rw regroup (
      IsDistinct-append (s.order ++ s.ready) fresh_rows sound.distinct
        (IsDistinct-sorted_by (position (uids network))
          (released network keyed s sound u ready popped).1
          (released-IsDistinct (out_of network keyed s sound u ready popped) s.indegree []
            (covers network keyed s sound u ready popped) tt (λ v m. cc)))
        new_unplaced)

  new_known :
      (v : ℕ)
      → elem v (released network keyed s sound u ready popped).1 ≡ true
      → elem v (uids network) ≡ true
  new_known v m =
      let (h, e) = newly network keyed s sound u ready popped v m in
      edges_into_known v network.relationships (uids network) keyed.known
        (omega (arith, sound.counts v, open_into-le s.order v network.relationships))

  pop-IsSound : IsSound network (pop network u ready s)
  unfolding pop
  pop-IsSound = record {
    counts = λ v. omega (
      arith,
      lowered network keyed s sound u ready popped v,
      closes network keyed s sound u ready popped v,
    );
    ready_zero = λ v m. ground (
      arith,
      lowered network keyed s sound u ready popped v,
      newly network keyed s sound u ready popped v,
      elem-append v ready fresh_rows,
      elem-sorted_by (position (uids network)) v (released network keyed s sound u ready popped).1,
      sound.ready_zero v,
      ap (elem v) popped,
    );
    order_zero = λ v m. ground (
      arith,
      lowered network keyed s sound u ready popped v,
      elem-append v s.order (u ∷ []),
      ==_iff u v,
      sound.order_zero v,
      sound.ready_zero u (in_ready network keyed s sound u ready popped),
    );
    distinct = IsDistinct-after;
    topological = RespectsEdges-snoc network.relationships [] s.order u sound.topological (
        Follows-of_zero s.order u network.relationships (
          sym (sound.counts u)
          ∙ sound.ready_zero u (in_ready network keyed s sound u ready popped)));
    within = λ v m. elim (Bool-cases (elem v (s.order ++ s.ready))) [
      | inl before ↦ sound.within v before
      | inr after ↦ new_known v (ground (arith, old_or_new network keyed s sound u ready popped v))
    ];
    complete = λ v k z. elim (Bool-cases (elem v (s.order ++ s.ready))) [
      | inl before ↦ ground (arith, old_or_new network keyed s sound u ready popped v)
      | inr after ↦ ground (
        arith,
        old_or_new network keyed s sound u ready popped v,
        lowered network keyed s sound u ready popped v,
        sound.complete v k,
        covers network keyed s sound u ready popped v,
        released_all (out_of network keyed s sound u ready popped) s.indegree [] v
            (covers network keyed s sound u ready popped),
      )
    ];
  }

pub kahn-IsSound :
    (network : Network) (fuel : ℕ) (s : Kahn)
    → IsWellKeyed network
    → IsSound network s
    → IsSound network (kahn fuel network s)
unfolding kahn
kahn-IsSound network zero s keyed sound = sound
kahn-IsSound network (suc fuel) s keyed sound =
    kahn-IsSound network fuel (round network s.ready s) keyed (next s.ready refl)
  where
    next : (ready : List ℕ) → s.ready ≡ ready → IsSound network (round network ready s)
    next [] e = sound
    next (u ∷ ready) e = pop-IsSound network keyed s sound u ready e

initial-IsSound : (network : Network) → IsWellKeyed network → IsSound network (initial network)
unfolding initial
initial-IsSound network keyed =
    let degree = λ (v : ℕ). count_in_lem network.relationships (λ u. 0) v in
    let at = position (uids network) in
    let indegree : ℕ → ℕ = count_in network.relationships (λ u. 0) in
    let start = filter (λ u. indegree u == 0) (uids network) in
    record {
      counts = λ v. omega (arith, degree v, open_into-nil v network.relationships);
      ready_zero = λ v m.
          ground
            (arith, elem-sorted_by at v start, elem-filter (λ u. indegree u == 0) v (uids network));
      order_zero = λ v m. cc;
      distinct =
          IsDistinct-sorted_by at start
            (IsDistinct-filter (λ u. indegree u == 0) (uids network) keyed.distinct);
      topological = tt;
      within = λ v m.
          ground
            (arith, elem-sorted_by at v start, elem-filter (λ u. indegree u == 0) v (uids network));
      complete = λ v k z.
          ground
            (arith, elem-sorted_by at v start, elem-filter (λ u. indegree u == 0) v (uids network));
    }

pub run-IsSound : (network : Network) → IsWellKeyed network → IsSound network (run network)
unfolding run
run-IsSound network keyed =
    kahn-IsSound network (length network.activities) (initial network) keyed
      (initial-IsSound network keyed)
