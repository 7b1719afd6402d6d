-- ===== src/Tests/Networks.antt =====
-- Validation and order, of sto/core/engine/network.py and forward.py, on small networks.
use sto_scheduler_tracker_re.Prelude.{◌≡◌, refl, [], ◌∷◌, none, some, pos}
use sto_scheduler_tracker_re.Calendar.Compiled.{of}
use sto_scheduler_tracker_re.Engine.Outcome.{
  ok, raise, duplicate_activity, self_relationship, unknown_activity, horizon_invalid, cycle,
}
use sto_scheduler_tracker_re.Engine.Model.{fs, asap, Network}
use sto_scheduler_tracker_re.Engine.Validate.{validate}
use sto_scheduler_tracker_re.Engine.Validate.Sound.{
  IsValidNetwork, validate-IsValid, validate-IsWellKeyed,
}
use sto_scheduler_tracker_re.Engine.Validate.Whole.{validate-accepts}
use sto_scheduler_tracker_re.Engine.Topology.{run, topological_order}
use sto_scheduler_tracker_re.Engine.Topology.Ends.{run_ends}
use sto_scheduler_tracker_re.Engine.Topology.Answer.{Answers, topological_order-Answers}
use sto_scheduler_tracker_re.Tests.Samples.{planned, task, edge}

planned-valid : validate planned ≡ ok tt
unfolding validate of
planned-valid = refl

abbrev looped : Network
looped = record planned { relationships = edge 21 1 2 fs (pos 1) ∷ edge 22 2 1 fs (pos 0) ∷ [] }

refuses_a_repeated_activity :
    validate (record planned { activities = task 1 4 asap none ∷ task 1 2 asap none ∷ [] })
    ≡ raise duplicate_activity (some 1)
unfolding validate of
refuses_a_repeated_activity = refl

refuses_a_self_relationship :
    validate (record planned { relationships = edge 21 1 1 fs (pos 0) ∷ [] })
    ≡ raise self_relationship (some 21)
unfolding validate of
refuses_a_self_relationship = refl

refuses_an_unknown_activity :
    validate (record planned { relationships = edge 21 9 1 fs (pos 0) ∷ [] })
    ≡ raise unknown_activity (some 21)
unfolding validate of
refuses_an_unknown_activity = refl

refuses_an_empty_window : validate (record planned { horizon = 8 }) ≡ raise horizon_invalid none
unfolding validate
refuses_an_empty_window = refl

orders_by_position : topological_order planned ≡ ok (1 ∷ 2 ∷ 3 ∷ 4 ∷ [])
unfolding topological_order
orders_by_position = refl

refuses_a_cycle : topological_order looped ≡ raise cycle (some 1)
unfolding topological_order
refuses_a_cycle = refl

validate-IsValid_example : IsValidNetwork planned
validate-IsValid_example = validate-IsValid planned planned-valid

run_ends_example : (run planned).ready ≡ []
run_ends_example = run_ends planned (validate-IsWellKeyed planned planned-valid)

topological_order-Answers_example : Answers planned (topological_order planned)
topological_order-Answers_example =
    topological_order-Answers planned (validate-IsWellKeyed planned planned-valid)

validate-accepts_example : validate planned ≡ ok tt
validate-accepts_example =
    validate-accepts planned (validate-IsValid planned planned-valid)
      (refl, (refl, (refl, (refl, tt)))) (refl, (refl, (refl, (refl, tt))))
