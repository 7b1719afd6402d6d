-- ===== src/Engine/Backward/Slack/Spans.antt =====
-- The span that `_place` of sto/core/engine/backward.py answers, among those within its bounds.
use sto_scheduler_tracker_re.Prelude.{
  ℕ, zero, suc, ◌≤◌, ◌≡◌, refl, subst, List, [], ◌∷◌, Bool, arith, All-find, Option, some, none,
  min, ℤ, pos, negsuc, Bool-cases, inl, inr,
}
use sto_scheduler_tracker_re.Calendar.Intervals.{Intervals}
use sto_scheduler_tracker_re.Calendar.Compiled.{of}
use sto_scheduler_tracker_re.Engine.Outcome.{ok}
use sto_scheduler_tracker_re.Engine.Model.{PlannedActivity}
use sto_scheduler_tracker_re.Engine.Place.{ActivityTimes, placed_at}
use sto_scheduler_tracker_re.Engine.Forward.Answer.{IsFinishOf}
use sto_scheduler_tracker_re.Engine.Forward.Early.{span-lies}
use sto_scheduler_tracker_re.Engine.Forward.Spanned.{IsSpanOf}
use sto_scheduler_tracker_re.Engine.Late.Placement.{
  place_late, place_late_row, place_late_free, snapped_back,
}
use sto_scheduler_tracker_re.Engine.Backward.Placing.{place_late-moment, prev_working_start-on}
use sto_scheduler_tracker_re.Engine.Backward.Greatest.{place_late-Latest}

-- A moment that the milestone rule allows lies at or before the late one.
moment-Latest :
    (a : PlannedActivity) (raw : Intervals) (sb fb : ℕ) (snap : Bool) (s f m : ℕ)
    → of raw ≡ a.calendar
    → place_late_free a (pos zero) sb fb snap ≡ ok (s, f)
    → IsSpanOf raw snap (pos zero) m m
    → m ≤ sb
    → m ≤ fb
    → (m ≤ s) × (m ≤ f)
moment-Latest a raw sb fb snap s f m cal e (_, works) hs hf =
    let (at, same, _) = place_late-moment a sb fb snap s f e in
    elim (Bool-cases snap) [
      | inl on ↦
          let found = subst (λ b. snapped_back b a.calendar (min sb fb) ≡ some s) on at in
          let (_, _, greatest) = prev_working_start-on raw a.calendar (min sb fb) s cal found in
          let le = greatest m (works on) (omega arith) in omega arith
      | inr off ↦
          let found = subst (λ b. snapped_back b a.calendar (min sb fb) ≡ some s) off at in
          let is_min : min sb fb ≡ s = ground arith in omega arith
    ]

pub span-Latest :
    (a : PlannedActivity) (raw : Intervals) (d : ℤ) (sb fb : ℕ) (snap : Bool) (at : Option ℕ)
    (s f es ef : ℕ)
    → of raw ≡ a.calendar
    → a.assignment_envelope ≡ none
    → place_late a d sb fb snap none at ≡ ok (s, f)
    → IsSpanOf raw snap d es ef
    → es ≤ sb
    → ef ≤ fb
    → (es ≤ s) × (ef ≤ f)
unfolding place_late
span-Latest a raw (pos zero) sb fb snap at s f es ef cal whole e (same, works) hs hf =
    let placed : place_late_free a (pos zero) sb fb snap ≡ ok (s, f) =
      subst (λ env. place_late_row a env (pos zero) sb fb snap none at ≡ ok (s, f)) whole e in
    let (ls, lf) =
      moment-Latest a raw sb fb snap s f es cal placed (refl, works) hs (omega arith) in
    (ls, omega arith)
span-Latest a raw (pos (suc d)) sb fb snap at s f es ef cal whole e spans hs hf =
    place_late-Latest a raw d sb fb snap at s f cal whole e es ef spans hs hf
span-Latest a raw (negsuc d) sb fb snap at s f es ef cal whole e spans hs hf = absurd spans

pub span-ordered :
    (raw : Intervals) (snap : Bool) (d : ℤ) (s f : ℕ) → IsSpanOf raw snap d s f → s ≤ f
span-ordered raw snap (pos zero) s f (same, _) = omega arith
span-ordered raw snap (pos (suc d)) s f spans = (span-lies raw d s f spans).1
span-ordered raw snap (negsuc d) s f spans = absurd spans

pub finish-last :
    (start : ℕ) (rows : List ActivityTimes) (at u : ℕ) (e : ActivityTimes)
    → IsFinishOf start rows at
    → placed_at rows u ≡ some e
    → e.early_finish ≤ at
unfolding placed_at
finish-last start [] at u e h there = cc
finish-last start (x ∷ xs) at u e h there =
    All-find (λ (r : ActivityTimes). r.early_finish ≤ at) (λ r. r.uid) u (x ∷ xs) e h.0 there
