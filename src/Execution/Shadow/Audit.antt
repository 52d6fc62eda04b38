-- ===== src/Execution/Shadow/Audit.antt =====
-- `AuditEvent.to_dict`, and what the audit trail of an assessment says.
use Prim.Native.String.{String}
use hedp.Prelude.{
  ◌≡◌, ◌↔◌, refl, subst, Bool, false, Option, none, some, List, [], ◌∷◌, arith, All, map, ok,
}
use hedp.Prelude.Int.{ℤ}
use hedp.Execution.Shadow.{
  GateStatus, pass, blocked, expired, unavailable, ShadowResult, would_dispatch, would_block,
  indeterminate, Reason, unknown_capability, target_mismatch, owner_mismatch, desired_state_invalid,
  request_time_invalid, intent_expired, state_missing, state_quality_insufficient,
  state_time_invalid, state_not_fresh, manual_override_active, duplicate_operation_id,
  conditions_satisfied, Phase, received, gate_checking, finished, DateTime, CapabilityDescriptor,
  Intent, StateEvidence, AuditEvent, ShadowAssessment,
}
use hedp.Execution.Shadow.Checks.{check_event, check_assessment}
use hedp.Execution.Shadow.Gate.{
  Registry, Verdict, find_capability, verification_of, result_of, judge_state, judge_intent,
  judge_request, finish, assess,
}
use hedp.Execution.Shadow.Decision.{assess-ok}

abbrev pub status_text : GateStatus → String
status_text pass = "pass"
status_text blocked = "blocked"
status_text expired = "expired"
status_text unavailable = "unavailable"

abbrev pub result_text : ShadowResult → String
result_text would_dispatch = "would_dispatch"
result_text would_block = "would_block"
result_text indeterminate = "indeterminate"

abbrev pub phase_text : Phase → String
phase_text received = "received"
phase_text gate_checking = "gate_checking"
phase_text finished = "finished"

abbrev pub reason_text : Reason → String
reason_text unknown_capability = "unknown_capability"
reason_text target_mismatch = "target_mismatch"
reason_text owner_mismatch = "owner_mismatch"
reason_text desired_state_invalid = "desired_state_invalid"
reason_text request_time_invalid = "request_time_invalid"
reason_text intent_expired = "intent_expired"
reason_text state_missing = "state_missing"
reason_text state_quality_insufficient = "state_quality_insufficient"
reason_text state_time_invalid = "state_time_invalid"
reason_text state_not_fresh = "state_not_fresh"
reason_text manual_override_active = "manual_override_active"
reason_text duplicate_operation_id = "duplicate_operation_id"
reason_text conditions_satisfied = "conditions_satisfied"

-- The values of the dict: `str | bool | None`.
pub data Field : Type 0 where
  text : String → Field
  flag : Bool → Field
  null : Field

abbrev text? : {A : Type 0} → (A → String) → Option A → Field
text? show none = null
text? show (some a) = text (show a)

unfoldable pub to_dict : AuditEvent → List (String × Field)
to_dict e =
    ("schema_version", text "1")
    ∷ ("phase", text (phase_text e.phase))
    ∷ ("operation_id", text e.operation_id)
    ∷ ("correlation_id", text e.correlation_id)
    ∷ ("target_alias", text e.target_alias)
    ∷ ("control_owner", text e.control_owner)
    ∷ ("verification_method", text? (λ s. s) e.verification_method)
    ∷ ("gate_status", text? status_text e.gate_status)
    ∷ ("reason_code", text? reason_text e.reason_code)
    ∷ ("shadow_result", text? result_text e.shadow_result)
    ∷ ("dispatch_attempted", flag false)
    ∷ []

-- The status that belongs to a reason.
abbrev pub status_of : Reason → GateStatus
status_of conditions_satisfied = pass
status_of intent_expired = expired
status_of state_missing = unavailable
status_of state_quality_insufficient = unavailable
status_of state_time_invalid = unavailable
status_of state_not_fresh = unavailable
status_of _ = blocked

module _ {V : Type 0} (same : V → V → Bool) (i : Intent V) (now : DateTime) (cooldown : ℤ)
    (registry : Registry) where
  judge_state-status :
      (c : CapabilityDescriptor V) (e : StateEvidence V)
      → let v = judge_state c i e now cooldown registry in v.status ≡ status_of v.reason_code
  unfolding judge_state
  judge_state-status c e = ground arith

  judge_request-status :
      (c : Option (CapabilityDescriptor V)) (e : Option (StateEvidence V))
      → let v = judge_request same c i e now cooldown registry in v.status ≡ status_of v.reason_code
  unfolding judge_request judge_intent
  judge_request-status none e = refl
  judge_request-status (some c) none = ground arith
  judge_request-status (some c) (some e) = ground (arith, judge_state-status c e)

abbrev outcome : AuditEvent → Option GateStatus × Option Reason × Option ShadowResult
outcome e = (e.gate_status, e.reason_code, e.shadow_result)

abbrev Concerns : {V : Type 0} → Intent V → AuditEvent → Type 0
Concerns i e = (e.operation_id ≡ i.operation_id) × (e.correlation_id ≡ i.correlation_id)

-- An audit trail of three events in order, each for the intent and none of a dispatch, whose last
-- reports the gate's status and reason and the result.
pub record IsAudited {V : Type 0} (i : Intent V) (a : ShadowAssessment) : Type 0 where
  pub phases :
      map (λ (e : AuditEvent). e.phase) a.audit_events ≡ received ∷ gate_checking ∷ finished ∷ []
  pub ours : All (Concerns i) a.audit_events
  pub allowed : All (λ (e : AuditEvent). check_event e ≡ ok tt) a.audit_events
  pub safe : check_assessment a ≡ ok tt
  pub outcomes :
      map outcome a.audit_events
      ≡ (none, none, none)
        ∷ (none, none, none)
        ∷ (some a.gate.status, some a.gate.reason_code, some a.result)
        ∷ []
  pub explained : a.gate.status ≡ status_of a.gate.reason_code
  pub dispatched : (a.result ≡ would_dispatch) ↔ (a.gate.status ≡ pass)
  pub undecided : (a.result ≡ indeterminate) ↔ (a.gate.status ≡ unavailable)

result_of-dispatched : (s : GateStatus) → (result_of s ≡ would_dispatch) ↔ (s ≡ pass)
result_of-dispatched s = ground arith

result_of-undecided : (s : GateStatus) → (result_of s ≡ indeterminate) ↔ (s ≡ unavailable)
result_of-undecided s = ground arith

finish-IsAudited :
    {V : Type 0} (i : Intent V) (verification : Option String) (v : Verdict V) (registry : Registry)
    → v.status ≡ status_of v.reason_code
    → IsAudited i (finish i verification v registry).0
unfolding finish check_event check_assessment
finish-IsAudited i verification v registry h = record {
  phases = refl;
  ours = ((refl, refl), ((refl, refl), ((refl, refl), tt)));
  allowed = (refl, (refl, (refl, tt)));
  safe = refl;
  outcomes = refl;
  explained = h;
  dispatched = result_of-dispatched v.status;
  undecided = result_of-undecided v.status;
}

-- Every assessment that is returned is audited by three events, received, gate_checking and
-- finished, each about the intent and none of a dispatch; only the last carries an outcome, the
-- gate's status and reason and the result. The reason determines the status, and the status the
-- result: would_dispatch for pass, indeterminate for unavailable, would_block otherwise.
pub assess-IsAudited :
    {V : Type 0} (same : V → V → Bool) (capabilities : List (CapabilityDescriptor V)) (i : Intent V)
    (e : Option (StateEvidence V)) (now : DateTime) (cooldown : ℤ) (registry registry' : Registry)
    (a : ShadowAssessment)
    → assess same capabilities i e now cooldown registry ≡ ok (a, registry')
    → IsAudited i a
assess-IsAudited same capabilities i e now cooldown registry registry' a h =
    let c = find_capability capabilities i.capability in
    subst (λ (p : ShadowAssessment × Registry). IsAudited i p.0)
      (assess-ok same capabilities i e now cooldown registry registry' a h).2
      (finish-IsAudited i (verification_of c) (judge_request same c i e now cooldown registry)
        registry (judge_request-status same i now cooldown registry c e))
