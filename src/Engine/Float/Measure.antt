-- ===== src/Engine/Float/Measure.antt =====
-- What `signed_working` and `span_float` of sto/core/engine/criticality.py measure.
use sto_scheduler_tracker_re.Prelude.{
  ℕ, ◌≤◌, ◌≡◌, ◌∙◌, arith, inl, inr, le_or_gt, true, ℤ, pos, leb_ℤ, min_ℤ, sub_ℕ, neg_ℤ, ◌+ℤ◌,
  sub_ℕ-chain, neg_ℤ-sub_ℕ, sub_ℕ-self,
}
use sto_scheduler_tracker_re.Calendar.Intervals.{Intervals, work, work_mono}
use sto_scheduler_tracker_re.Calendar.Compiled.{of, normalise, working_between}
use sto_scheduler_tracker_re.Calendar.Work.{work_until-compiled}
use sto_scheduler_tracker_re.Calendar.Normalise.{normalise-IsOrdered}
use sto_scheduler_tracker_re.Engine.Model.{FloatBasis, working, elapsed}
use sto_scheduler_tracker_re.Engine.Float.{signed_working, span_float, measure}

-- The work before the finish less the work before the start.
pub signed_working-work :
    (raw : Intervals) (start finish : ℕ)
    → signed_working (of raw) start finish
      ≡ sub_ℕ (work (normalise raw) finish) (work (normalise raw) start)
unfolding signed_working working_between of
signed_working-work raw start finish =
    let xs = normalise raw in
    let o = normalise-IsOrdered raw in
    let started = work_until-compiled xs 0 start o in
    let finished = work_until-compiled xs 0 finish o in
    elim (le_or_gt start finish) [
      | inl on ↦ ground (arith, work_mono xs start finish on)
      | inr back ↦ ground (arith, work_mono xs finish start (omega arith))
    ]

-- On a calendar built from any intervals, `signed_working` adds up along any three coordinates, in
-- whatever order they lie, and changes its sign with the direction.
pub signed_working_additive :
    (raw : Intervals) (a b c : ℕ)
    → (signed_working (of raw) a b +ℤ signed_working (of raw) b c ≡ signed_working (of raw) a c)
      × (neg_ℤ (signed_working (of raw) a b) ≡ signed_working (of raw) b a)
signed_working_additive raw a b c =
    let w = work (normalise raw) in
    (
      rw (signed_working-work raw a b, signed_working-work raw b c, signed_working-work raw a c)
          (sub_ℕ-chain (w a) (w b) (w c)),
      rw (signed_working-work raw a b, signed_working-work raw b a) (neg_ℤ-sub_ℕ (w b) (w a)),
    )

-- Neither basis measures a date against an earlier or equal one as negative.
pub measure_nonnegative :
    (basis : FloatBasis) (raw : Intervals) (early late : ℕ)
    → early ≤ late
    → leb_ℤ (pos 0) (measure basis (of raw) early late) ≡ true
unfolding measure signed_working span_float
measure_nonnegative working raw early late h = ground arith
measure_nonnegative elapsed raw early late h = ground arith

pub measure_self :
    (basis : FloatBasis) (raw : Intervals) (at : ℕ) → measure basis (of raw) at at ≡ pos 0
unfolding measure span_float
measure_self working raw at = signed_working-work raw at at ∙ sub_ℕ-self (work (normalise raw) at)
measure_self elapsed raw at = sub_ℕ-self at

pub min_ℤ_nonnegative :
    (a b : ℤ) → leb_ℤ (pos 0) a ≡ true → leb_ℤ (pos 0) b ≡ true → leb_ℤ (pos 0) (min_ℤ a b) ≡ true
min_ℤ_nonnegative a b h k = ground arith

pub min_ℤ-zero : (a : ℤ) → leb_ℤ (pos 0) a ≡ true → min_ℤ a (pos 0) ≡ pos 0
min_ℤ-zero a h = ground arith
