-- ===== src/Engine/Untouched.antt =====
-- The rows of work that has not started, and what their constraints ask: the second half of the loop of
-- `forward_pass` in sto/core/engine/forward.py.
use sto_scheduler_tracker_re.Prelude.{
  ℕ, List, [], ◌∷◌, Option, none, some, Bool, true, false, ◌&&◌, ◌||◌, ltb, ◌==◌, if◌then◌else◌,
  is_some,
}
use sto_scheduler_tracker_re.Calendar.Spans.{Span}
use sto_scheduler_tracker_re.Engine.Outcome.{Result, ok, ◌>>=◌}
use sto_scheduler_tracker_re.Engine.Model.{
  ConstraintType, snet, fnet, mso, mfo, PlannedActivity, Network, is_deferred, remaining,
}
use sto_scheduler_tracker_re.Engine.Progress.{not_started}
use sto_scheduler_tracker_re.Engine.Place.{
  Source, from_project_start, from_relationship, from_constraint, Limits, calendar_floor,
}
use sto_scheduler_tracker_re.Engine.Placement.{Pin, on_start, on_finish, place, driver}
use sto_scheduler_tracker_re.Engine.Reporting.{ConstraintViolation, Placed}

-- The bounds once the constraint of an untouched row is read.
pub record Constrained : Type 0 where
  pub limits : Limits
  pub pinned : Option Pin
  pub constrained : Bool
  pub on_fallback : Bool

unfoldable pub constrain : ConstraintType → Option ℕ → Limits → Bool → Constrained
constrain snet (some c) l fallback =
    if ltb l.start_bound c
    then record {
      limits = record l { start_bound = c; start_driver = none };
      pinned = none;
      constrained = true;
      on_fallback = false;
    }
    else record { limits = l; pinned = none; constrained = false; on_fallback = fallback }
constrain fnet (some c) l fallback =
    if ltb l.finish_bound c
    then record {
      limits = record l { finish_bound = c; finish_driver = none };
      pinned = none;
      constrained = true;
      on_fallback = fallback;
    }
    else record { limits = l; pinned = none; constrained = false; on_fallback = fallback }
constrain mso (some c) l fallback = record {
  limits = l;
  pinned = some on_start;
  constrained = false;
  on_fallback = false;
}
constrain mfo (some c) l fallback = record {
  limits = l;
  pinned = some on_finish;
  constrained = false;
  on_fallback = false;
}
constrain _ _ l fallback = record {
  limits = l;
  pinned = none;
  constrained = false;
  on_fallback = fallback;
}

-- The driver and the source of an untouched row.
unfoldable pub held_by :
    PlannedActivity → Constrained → (floor : ℕ) → Network → Bool → Option ℕ × Source
unfolding driver remaining
held_by a c floor network snap =
    let held =
      driver a (remaining a) c.limits.start_bound c.limits.finish_bound c.limits.start_driver
        c.limits.finish_driver floor network.horizon snap in
    if is_some c.pinned || c.constrained
    then (none, from_constraint)
    else (held, if is_some held then from_relationship else from_project_start)

-- A hard constraint that starts or finishes the row before what its logic requires.
abbrev pub violation :
    PlannedActivity → Limits → Span → Option Pin → Option ℕ → List ConstraintViolation
violation a logic (s, f) (some on_start) (some c) =
    if ltb s logic.start_bound
    then record {
      activity_uid = a.uid;
      type = a.constraint_type;
      coordinate = c;
      logic_required = logic.start_bound;
    }
      ∷ []
    else []
violation a logic (s, f) (some on_finish) (some c) =
    if ltb f logic.finish_bound
    then record {
      activity_uid = a.uid;
      type = a.constraint_type;
      coordinate = c;
      logic_required = logic.finish_bound;
    }
      ∷ []
    else []
violation a logic span _ _ = []

abbrev pub same_span : Span → Span → Bool
same_span (s, f) (s', f') = s == s' && f == f'

-- The second placement of a row that rests on the fallback.
unfoldable pub fallback_decides :
    PlannedActivity → Constrained → Network → Bool → Span → Result (List ℕ)
unfolding place remaining calendar_floor
fallback_decides a c network snap span =
    let again =
      place a (remaining a) (calendar_floor a) c.limits.finish_bound network.horizon snap c.pinned
        a.constraint_coordinate in
    if c.on_fallback
    then (do elsewhere ← again; ok (if same_span elsewhere span then [] else a.uid ∷ []))
    else ok []

-- What the round makes of the span of an activity that has not started.
abbrev pub untouched :
    PlannedActivity → Limits → Constrained → Option ℕ × Source → Span → List ℕ → Placed
untouched a limits c held (s, f) unbounded = record {
  row = record {
    uid = a.uid;
    early_start = s;
    early_finish = f;
    driving_relationship_uid = held.0;
    source = held.1;
    state = not_started;
    remaining_start = none;
  };
  deferred =
      if is_deferred a.constraint_type
      then record { activity_uid = a.uid; type = a.constraint_type } ∷ []
      else [];
  violations = violation a limits (s, f) c.pinned a.constraint_coordinate;
  unbounded = unbounded;
}

-- The round for an activity that has not started, once its constraint is read.
unfoldable pub place_constrained :
    PlannedActivity → Limits → Constrained → (floor : ℕ) → Network → Bool → Result Placed
unfolding place remaining held_by fallback_decides
place_constrained a limits c floor network snap = do
  span ←
      place a (remaining a) c.limits.start_bound c.limits.finish_bound network.horizon snap c.pinned
        a.constraint_coordinate
  unbounded ← fallback_decides a c network snap span
  ok (untouched a limits c (held_by a c floor network snap) span unbounded)

unfoldable pub place_untouched :
    PlannedActivity → (limits : Limits) → (floor : ℕ) → Bool → Network → Bool → Result Placed
unfolding constrain place_constrained
place_untouched a limits floor fallback network snap =
    place_constrained a limits (constrain a.constraint_type a.constraint_coordinate limits fallback)
      floor network snap
