-- ===== src/Engine/Outcome.antt =====
-- Refusals by code: `NetworkError` and its subclasses in sto/core/engine/network.py, progress.py and
-- criticality.py. The message is left out; the code and the row that it names are kept.
use sto_scheduler_tracker_re.Prelude.{ℕ, ◌≡◌, refl, Option, Bool, true, false}

pub data Code : Type 0 where
  horizon_invalid status_time_invalid duplicate_activity duration_negative calendar_empty : Code
  measure_calendar_empty assignment_envelope_invalid constraint_incomplete : Code
  remaining_negative actual_finish_without_start remaining_unknown actuals_inverted : Code
  duplicate_relationship unknown_activity self_relationship inactive_boundary_unsupported : Code
  cycle lag_unreachable horizon_exceeded assignment_envelope_unmeasured_bound : Code
  actuals_incoherent policy_not_evidenced pass_mismatch policy_mismatch floor_exceeded : Code
  inactive_boundary_late_tie progress_state_incomplete : Code
  -- `CalendarCompileError` of sto/core/calendar/compile.py.
  calendar_interval_invalid : Code
  -- Python's own `ValueError` of the calendar arithmetic, and `KeyError` of a dictionary.
  value_error key_error : Code

pub record NetworkError : Type 0 where
  pub code : Code
  pub uid : Option ℕ

pub data Result {ℓ} (A : Type ℓ) : Type ℓ where
  ok : A → Result A
  raise : Code → Option ℕ → Result A

-- `if b: raise ...`
abbrev pub raise_if : Bool → Code → Option ℕ → Result (Unit {0})
raise_if false code uid = ok tt
raise_if true code uid = raise code uid

-- `if x is None: raise ...`
abbrev pub present {ℓ} : {X : Type ℓ} → Option X → Code → Option ℕ → Result X
present (Option.some x) code uid = ok x
present Option.none code uid = raise code uid

-- What comes after a `raise` is not run.
infixl 5 ◌>>=◌
abbrev pub ◌>>=◌ {ℓ ℓ'} : {X : Type ℓ} {Y : Type ℓ'} → Result X → (X → Result Y) → Result Y
raise code uid >>= next = raise code uid
ok x >>= next = next x

infixl 5 ◌>>◌
abbrev pub ◌>>◌ {ℓ} : {Y : Type ℓ} → Result (Unit {0}) → Result Y → Result Y
check >> next = check >>= λ done. next

pub >>=-eq-ok {ℓ ℓ'} :
    {X : Type ℓ} {Y : Type ℓ'} (first : Result X) (next : X → Result Y) {y : Y}
    → (first >>= next) ≡ ok y
    → (x : X) × (first ≡ ok x) × (next x ≡ ok y)
>>=-eq-ok (raise code uid) next e = cc
>>=-eq-ok (ok x) next e = (x, refl, e)

pub present-eq-ok {ℓ} :
    {X : Type ℓ} (value : Option X) (code : Code) (uid : Option ℕ) {x : X}
    → present value code uid ≡ ok x
    → value ≡ Option.some x
present-eq-ok Option.none code uid e = cc
present-eq-ok (Option.some z) code uid e = cc

pub ok-inj {ℓ} : {X : Type ℓ} {x z : X} → ok x ≡ ok z → x ≡ z
ok-inj e = cc
