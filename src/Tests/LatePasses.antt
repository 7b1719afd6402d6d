-- ===== src/Tests/LatePasses.antt =====
-- The backward pass of sto/core/engine/backward.py on sample networks, and its theorems at their rows.
use sto_scheduler_tracker_re.Prelude.{
  ℕ, ◌≡◌, ◌≤◌, ◌↔◌, refl, sym, subst, [], none, some, true, pos, negsuc, ◌∙◌, All, inl, arith,
}
use sto_scheduler_tracker_re.Calendar.Compiled.{
  CompiledIntervals, of, first, next_working, add_productive, sub_productive, normalise,
  prev_working_start, prev_working, total_work,
}
use sto_scheduler_tracker_re.Calendar.Spans.{earliest_span}
use sto_scheduler_tracker_re.Calendar.Reference.{
  contains_coordinate, consume_loop, consume_duration,
}
use sto_scheduler_tracker_re.Engine.Outcome.{ok, ok-inj}
use sto_scheduler_tracker_re.Engine.Model.{
  alap, snlt, fs, ff, PlannedRelationship, successors, activity_by_uid, remaining,
}
use sto_scheduler_tracker_re.Engine.Progress.{
  none_declared, retained_logic, not_started, complete, state_of,
}
use sto_scheduler_tracker_re.Engine.Lag.{shift_lag}
use sto_scheduler_tracker_re.Engine.Place.{placed_at, from_relationship}
use sto_scheduler_tracker_re.Engine.Forward.{forward_pass}
use sto_scheduler_tracker_re.Engine.Late.{late_at, target, actuals, constraint}
use sto_scheduler_tracker_re.Engine.Backward.{admit, backward_pass}
use sto_scheduler_tracker_re.Engine.Backward.Guards.{IsAdmissible, admit-IsAdmissible}
use sto_scheduler_tracker_re.Engine.Backward.Answer.{IsLatePassOf, backward_pass-IsLatePassOf}
use sto_scheduler_tracker_re.Engine.Backward.Targets.{AreCompiled, Yields}
use sto_scheduler_tracker_re.Engine.Backward.Honours.{IsOrdinary, backward_pass-Yields}
use sto_scheduler_tracker_re.Engine.Backward.Greatest.{IsLateAllowed, backward_pass-Greatest}
use sto_scheduler_tracker_re.Engine.Backward.Dated.{
  KeepsActuals, LateDates, backward_pass-KeepsActuals, backward_pass-LateDates,
}
use sto_scheduler_tracker_re.Engine.Backward.Slack.{IsOpen}
use sto_scheduler_tracker_re.Engine.Backward.Slack.Answer.{backward_pass-InSlack}
use sto_scheduler_tracker_re.Tests.Samples.{raw, days, task, reported, reported_pass, row_of, edge}
use sto_scheduler_tracker_re.Tests.Passes.{reported-runs, done}
use sto_scheduler_tracker_re.Tests.Plans.{
  eased, eased_pass, request, eased_late, late_two, late_row_of, limited, limited_pass,
  limited_late, reported_late,
}

pub eased-runs : forward_pass eased true none_declared ≡ ok eased_pass
unfolding forward_pass of first next_working earliest_span add_productive sub_productive
eased-runs = refl

pub eased-runs_late : backward_pass (λ _. 7) eased (request eased_pass) ≡ ok eased_late
unfolding backward_pass of prev_working_start prev_working sub_productive total_work add_productive
eased-runs_late = refl

limited-runs : forward_pass limited true none_declared ≡ ok limited_pass
unfolding forward_pass of first next_working earliest_span add_productive sub_productive
limited-runs = refl

limited-runs_late : backward_pass (λ _. 7) limited (request limited_pass) ≡ ok limited_late
unfolding backward_pass of prev_working_start prev_working sub_productive total_work add_productive
limited-runs_late = refl

pub reported-runs_late : backward_pass (λ _. 7) reported (request reported_pass) ≡ ok reported_late
unfolding backward_pass of prev_working_start prev_working sub_productive total_work add_productive
reported-runs_late = refl

pub eased-AreCompiled : AreCompiled eased
eased-AreCompiled = record {
  activities =
      (((raw, refl), tt), (((raw, refl), tt), (((raw, refl), tt), (((raw, refl), tt), tt))));
  relationships = (tt, (tt, (tt, (tt, tt))));
}

limited-AreCompiled : AreCompiled limited
limited-AreCompiled = record {
  activities =
      (((raw, refl), tt), (((raw, refl), tt), (((raw, refl), tt), (((raw, refl), tt), tt))));
  relationships = (tt, (tt, (tt, (tt, tt))));
}

pub eased-IsOpen : All IsOpen eased.activities
unfolding state_of
eased-IsOpen = (
  record { fresh = refl; free = refl; whole = refl },
  (
    record { fresh = refl; free = refl; whole = refl },
    (
      record { fresh = refl; free = refl; whole = refl },
      (record { fresh = refl; free = refl; whole = refl }, tt),
    ),
  ),
)

backward_pass-InSlack_example : (14 ≤ 15) × (35 ≤ 36)
unfolding activity_by_uid placed_at late_at
backward_pass-InSlack_example =
    backward_pass-InSlack (λ _. 7) eased (request eased_pass) true none_declared
      (task 2 6 alap none) (row_of 2 14 35 (some 21) from_relationship not_started none) late_two
      eased-AreCompiled eased-IsOpen eased-runs eased-runs_late (omega arith) refl refl refl

backward_pass-Yields_example :
    (15 ≤ 38)
    × (36 ≤ 38)
    × All
        (λ r. IsOrdinary [] r → Yields eased eased_pass.times eased_late.times 15 36 r)
        (successors eased 2)
unfolding activity_by_uid late_at state_of
backward_pass-Yields_example =
    backward_pass-Yields (λ _. 7) eased (request eased_pass) true none_declared (task 2 6 alap none)
      late_two eased-AreCompiled eased-runs eased-runs_late refl refl (inl (refl, refl))

-- The early dates of the second row are allowed in the other direction too.
receives_at :
    (r : PlannedRelationship) (v : ℕ) (p : CompiledIntervals × ℕ)
    → target eased eased_pass.times eased_late.times r ≡ ok p
    → shift_lag p.0 35 r.lag ≡ some v
    → v ≤ p.1
    → (cal : CompiledIntervals) (anchor : ℕ)
    → target eased eased_pass.times eased_late.times r ≡ ok (cal, anchor)
    → (w : ℕ) × (shift_lag cal 35 r.lag ≡ some w) × (w ≤ anchor)
receives_at r v p there shifted le cal anchor e =
    subst (λ (p : CompiledIntervals × ℕ). (w : ℕ) × (shift_lag p.0 35 r.lag ≡ some w) × (w ≤ p.1))
      (ok-inj (sym there ∙ e)) (v, shifted, le)

second-IsLateAllowed :
    IsLateAllowed eased eased_pass.times eased_late (task 2 6 alap none) raw 6 14 35
unfolding consume_duration contains_coordinate consume_loop normalise successors target shift_lag
    sub_productive add_productive of
second-IsLateAllowed = record {
  spans = refl;
  by = omega arith;
  received = (
    λ kept. receives_at (edge 22 2 3 fs (negsuc 0)) 34 (days, 35) refl refl (omega arith),
    (λ kept. receives_at (edge 23 2 4 ff (pos 0)) 35 (days, 38) refl refl (omega arith), tt),
  );
}

backward_pass-Greatest_example : (14 ≤ 15) × (35 ≤ 36)
unfolding activity_by_uid late_at state_of remaining
backward_pass-Greatest_example =
    backward_pass-Greatest (λ _. 7) eased (request eased_pass) true none_declared
      (task 2 6 alap none) late_two raw 5 eased-AreCompiled refl refl refl refl eased-runs
      eased-runs_late refl refl refl 14 35 second-IsLateAllowed

backward_pass-IsLatePassOf_example : IsLatePassOf 7 eased (request eased_pass) eased_late
backward_pass-IsLatePassOf_example =
    backward_pass-IsLatePassOf (λ _. 7) eased (request eased_pass) eased-runs_late

admit-IsAdmissible_example :
    (admit 7 eased (request eased_pass) ≡ ok tt) ↔ IsAdmissible 7 eased (request eased_pass)
admit-IsAdmissible_example = admit-IsAdmissible 7 eased (request eased_pass)

backward_pass-KeepsActuals_example :
    KeepsActuals done (late_row_of 1 8 13 none actuals none) complete
unfolding activity_by_uid late_at state_of
backward_pass-KeepsActuals_example =
    backward_pass-KeepsActuals (λ _. 7) reported (request reported_pass) true retained_logic done
      (late_row_of 1 8 13 none actuals none) reported-runs reported-runs_late refl refl

backward_pass-LateDates_example : LateDates snlt (some 34) 34 36
unfolding activity_by_uid late_at state_of
backward_pass-LateDates_example =
    backward_pass-LateDates (λ _. 7) limited (request limited_pass) true none_declared
      (task 3 2 snlt (some 34)) (late_row_of 3 34 36 none constraint none) limited-AreCompiled
      limited-runs limited-runs_late refl refl refl
