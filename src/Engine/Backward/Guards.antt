-- ===== src/Engine/Backward/Guards.antt =====
-- The guards of `backward_pass` in sto/core/engine/backward.py.
use sto_scheduler_tracker_re.Prelude.{
  ℕ, ◌≤◌, ◌≡◌, refl, ap, Bool, true, false, not, ltb, ◌==◌, arith, Option, none, some, default, ◌⊎◌,
  inl, inr, ◌↔◌,
}
use sto_scheduler_tracker_re.Engine.Outcome.{
  Result, Code, ok, raise, ◌>>◌, raise_if, pass_mismatch, policy_mismatch, horizon_exceeded,
}
use sto_scheduler_tracker_re.Engine.Model.{Network}
use sto_scheduler_tracker_re.Engine.Progress.{ProgressPolicy}
use sto_scheduler_tracker_re.Engine.Validate.{validate}
use sto_scheduler_tracker_re.Engine.Backward.{LateRequest, differs, same_policy, same_flag, admit}

-- The keyword is left out, or repeats the forward pass's own value.
abbrev pub Agrees {ℓ} : {A : Type ℓ} → A → Option A → Type ℓ
Agrees own named = (named ≡ none) ⊎ (named ≡ some own)

same_policy_iff : (x y : ProgressPolicy) → (same_policy x y ≡ true) ↔ (x ≡ y)
same_policy_iff x y = ground arith

same_flag_iff : (x y : Bool) → (same_flag x y ≡ true) ↔ (x ≡ y)
same_flag_iff x y = ground arith

differs-Agrees {ℓ} :
    {A : Type ℓ} (same : A → A → Bool) (own : A) (named : Option A)
    → ((x y : A) → (same x y ≡ true) ↔ (x ≡ y))
    → (differs same own named ≡ false) ↔ Agrees own named
differs-Agrees same own none h = (λ e. inl refl, λ g. refl)
differs-Agrees same own (some x) h = (
  λ e. inr (ap some ((h x own).0 (ground arith))),
  λ g. elim g [ inl e ↦ cc | inr e ↦ let eq : x ≡ own = ground arith in rw ((h x own).1 eq) refl ],
)

raise_if-ok :
    (b : Bool) (code : Code) (uid : Option ℕ) → (raise_if b code uid ≡ ok tt) ↔ (b ≡ false)
raise_if-ok true code uid = (λ e. cc, λ e. cc)
raise_if-ok false code uid = (λ e. refl, λ e. refl)

>>-ok :
    (first second : Result (Unit {0}))
    → ((first >> second) ≡ ok tt) ↔ ((first ≡ ok tt) × (second ≡ ok tt))
>>-ok (raise code uid) second = (λ e. cc, λ e. cc)
>>-ok (ok tt) second = (λ e. (refl, e), λ e. e.1)

-- The date that the late dates are bounded by.
abbrev pub bound_of : LateRequest → ℕ
bound_of q = default q.forward.project_finish q.project_late_finish

-- What the guards ask of a request: a valid network, the fingerprint of the forward pass's own network,
-- its own policies, and a bound within the horizon.
pub record IsAdmissible (fingerprint : ℕ) (network : Network) (q : LateRequest) : Type 0 where
  pub valid : validate network ≡ ok tt
  pub same_network : q.network_fingerprint ≡ fingerprint
  pub policy : Agrees q.forward.progress_policy q.progress_policy
  pub snap : Agrees q.forward.snap_milestones q.snap_milestones
  pub within : bound_of q ≤ network.horizon

-- The guards of `backward_pass` let exactly the admissible requests through.
pub admit-IsAdmissible :
    (fingerprint : ℕ) (network : Network) (q : LateRequest)
    → (admit fingerprint network q ≡ ok tt) ↔ IsAdmissible fingerprint network q
unfolding admit
admit-IsAdmissible fingerprint network q =
    let named = differs same_policy q.forward.progress_policy q.progress_policy in
    let flagged = differs same_flag q.forward.snap_milestones q.snap_milestones in
    let policies =
      differs-Agrees same_policy q.forward.progress_policy q.progress_policy same_policy_iff in
    let flags =
      differs-Agrees same_flag q.forward.snap_milestones q.snap_milestones same_flag_iff in
    let third = raise_if flagged policy_mismatch none in
    let fourth = raise_if (ltb network.horizon (bound_of q)) horizon_exceeded none in
    let second = raise_if named policy_mismatch none in
    let first = raise_if (not (q.network_fingerprint == fingerprint)) pass_mismatch none in
    (
      λ e.
          let (valid, e1) =
            (>>-ok (validate network) (first >> (second >> (third >> fourth)))).0 e in
          let (f1, e2) = (>>-ok first (second >> (third >> fourth))).0 e1 in
          let (f2, e3) = (>>-ok second (third >> fourth)).0 e2 in
          let (f3, f4) = (>>-ok third fourth).0 e3 in
          record {
            valid = valid;
            same_network = ground (
              arith,
              (raise_if-ok (not (q.network_fingerprint == fingerprint)) pass_mismatch none).0 f1,
            );
            policy = policies.0 ((raise_if-ok named policy_mismatch none).0 f2);
            snap = flags.0 ((raise_if-ok flagged policy_mismatch none).0 f3);
            within = ground (
              arith,
              (raise_if-ok (ltb network.horizon (bound_of q)) horizon_exceeded none).0 f4,
            );
          },
      λ h.
          let f4 : fourth ≡ ok tt = ground (arith, h.within) in
          let f3 : third ≡ ok tt = (raise_if-ok flagged policy_mismatch none).1 (flags.1 h.snap) in
          let f2 : second ≡ ok tt =
            (raise_if-ok named policy_mismatch none).1 (policies.1 h.policy) in
          let f1 : first ≡ ok tt = ground (arith, h.same_network) in
          (>>-ok (validate network) (first >> (second >> (third >> fourth)))).1 (
            h.valid,
            (>>-ok first (second >> (third >> fourth))).1
                (f1, (>>-ok second (third >> fourth)).1 (f2, (>>-ok third fourth).1 (f3, f4))),
          ),
    )
