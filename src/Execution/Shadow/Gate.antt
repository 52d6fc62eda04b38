-- ===== src/Execution/Shadow/Gate.antt =====
-- `ShadowExecutionGate`: its construction, and `assess` as a function of the registry.
use Prim.Native.String.{String}
use hedp.Prelude.{
  Bool, true, false, not, ◌&&◌, Option, none, some, List, [], ◌∷◌, ltb, leb, if◌then◌else◌, any,
  Result, ok, raise_if, ◌>>◌,
}
use hedp.Prelude.Int.{ℤ, pos, ltb_ℤ}
use hedp.Prelude.Texts.{str_eq}
use hedp.Execution.Shadow.{
  GateStatus, pass, blocked, expired, unavailable, ShadowResult, would_dispatch, would_block,
  indeterminate, EvidenceQuality, good, stale, missing, invalid, estimated, unknown, Reason,
  unknown_capability, target_mismatch, owner_mismatch, desired_state_invalid, request_time_invalid,
  intent_expired, state_missing, state_quality_insufficient, state_time_invalid, state_not_fresh,
  manual_override_active, duplicate_operation_id, conditions_satisfied, Phase, received,
  gate_checking, finished, ShadowError, capabilities_not_unique, negative_cooldown, DateTime,
  elapsed, CapabilityDescriptor, Intent, StateEvidence, AuditEvent, ShadowAssessment,
}
use hedp.Execution.Shadow.Checks.{require_aware}

-- `ShadowOperationRegistry.operation_ids`, a set.
abbrev pub Registry : Type 0
Registry = List String

unfoldable pub contains : Registry → String → Bool
contains registry operation_id = any (str_eq operation_id) registry

unfoldable pub record_id : Registry → String → Registry
unfolding contains
record_id registry operation_id =
    if contains registry operation_id then registry else operation_id ∷ registry

abbrev pub same_quality : EvidenceQuality → EvidenceQuality → Bool
same_quality good good = true
same_quality stale stale = true
same_quality missing missing = true
same_quality invalid invalid = true
same_quality estimated estimated = true
same_quality unknown unknown = true
same_quality _ _ = false

-- Whether a manual override lies within its cooldown.
abbrev pub overridden : Option DateTime → DateTime → ℤ → Bool
overridden none now cooldown = false
overridden (some t) now cooldown = ltb_ℤ (elapsed now t) cooldown

-- The branch that `assess` leaves by: the arguments of its call of `_finish`.
pub record Verdict (V : Type 0) : Type 0 where
  pub status : GateStatus
  pub reason_code : Reason
  pub evidence : Option (StateEvidence V)
  pub recorded : Bool

module _ {V : Type 0} where
  unfoldable pub find_capability :
      List (CapabilityDescriptor V) → String → Option (CapabilityDescriptor V)
  find_capability [] name = none
  find_capability (c ∷ cs) name =
      if str_eq c.capability name then some c else find_capability cs name

  -- Keys of a dict are unique, so the dict is shorter than the tuple exactly when a name repeats.
  unfoldable pub unique_names : List (CapabilityDescriptor V) → Bool
  unfolding find_capability
  unique_names [] = true
  unique_names (c ∷ cs) = not (any (λ d. str_eq d.capability c.capability) cs) && unique_names cs

  -- `__init__`: the dict of the capabilities by name.
  unfoldable pub make_gate :
      List (CapabilityDescriptor V) → Result ShadowError (List (CapabilityDescriptor V))
  unfolding unique_names
  make_gate capabilities = do
    raise_if (not (unique_names capabilities)) capabilities_not_unique
    ok capabilities

  abbrev refuse : GateStatus → Reason → Verdict V
  refuse status reason = record {
    status = status;
    reason_code = reason;
    evidence = none;
    recorded = true;
  }

  abbrev judge : GateStatus → Reason → StateEvidence V → Verdict V
  judge status reason e = record {
    status = status;
    reason_code = reason;
    evidence = some e;
    recorded = true;
  }

  -- The tests of `assess` on the state evidence and the registry.
  unfoldable pub judge_state :
      CapabilityDescriptor V → Intent V → StateEvidence V → DateTime → ℤ → Registry → Verdict V
  judge_state capability intent e now cooldown registry =
      if not (any (same_quality e.quality) capability.accepted_qualities)
      then judge unavailable state_quality_insufficient e
      else if ltb now.instant e.observed_at.instant
      then judge unavailable state_time_invalid e
      else if ltb_ℤ capability.maximum_state_age (elapsed now e.observed_at)
      then judge unavailable state_not_fresh e
      else if overridden e.manual_override_at now cooldown
      then judge blocked manual_override_active e
      else if contains registry intent.operation_id
      then record {
        status = blocked;
        reason_code = duplicate_operation_id;
        evidence = some e;
        recorded = false;
      }
      else judge pass conditions_satisfied e

module _ {V : Type 0} (same : V → V → Bool) where
  -- The tests of `assess` that come before the evidence is looked at.
  unfoldable pub judge_intent :
      CapabilityDescriptor V
      → Intent V
      → Option (StateEvidence V)
      → DateTime
      → ℤ
      → Registry
      → Verdict V
  judge_intent capability intent evidence now cooldown registry =
      if not (str_eq capability.target_alias intent.target_alias)
      then refuse blocked target_mismatch
      else if not (str_eq capability.control_owner intent.control_owner)
      then refuse blocked owner_mismatch
      else if not (any (same intent.desired_state) capability.allowed_desired_states)
      then refuse blocked desired_state_invalid
      else if ltb now.instant intent.requested_at.instant
      then refuse blocked request_time_invalid
      else if leb intent.expires_at.instant now.instant
      then refuse expired intent_expired
      else elim evidence [
        | none ↦ refuse unavailable state_missing
        | some e ↦ judge_state capability intent e now cooldown registry
      ]

  unfoldable pub judge_request :
      Option (CapabilityDescriptor V)
      → Intent V
      → Option (StateEvidence V)
      → DateTime
      → ℤ
      → Registry
      → Verdict V
  judge_request none intent evidence now cooldown registry = refuse blocked unknown_capability
  judge_request (some c) intent evidence now cooldown registry =
      judge_intent c intent evidence now cooldown registry

abbrev pub result_of : GateStatus → ShadowResult
result_of pass = would_dispatch
result_of unavailable = indeterminate
result_of _ = would_block

module _ {V : Type 0} where
  -- `_event`
  abbrev pub event :
      Phase
      → Intent V
      → Option String
      → Option GateStatus
      → Option Reason
      → Option ShadowResult
      → AuditEvent
  event phase intent verification status reason result = record {
    phase = phase;
    operation_id = intent.operation_id;
    correlation_id = intent.correlation_id;
    target_alias = intent.target_alias;
    control_owner = intent.control_owner;
    verification_method = verification;
    gate_status = status;
    reason_code = reason;
    shadow_result = result;
    dispatch_attempted = false;
  }

  abbrev pub observed? : Option (StateEvidence V) → Option DateTime
  observed? none = none
  observed? (some e) = some e.observed_at

  abbrev pub quality? : Option (StateEvidence V) → Option EvidenceQuality
  quality? none = none
  quality? (some e) = some e.quality

  -- `_finish`, with the two events that `assess` has logged before it.
  unfoldable pub finish :
      Intent V → Option String → Verdict V → Registry → ShadowAssessment × Registry
  finish intent verification v registry = (
    record {
      gate = record {
        status = v.status;
        reason_code = v.reason_code;
        state_observed_at = observed? v.evidence;
        state_quality = quality? v.evidence;
      };
      result = result_of v.status;
      audit_events =
          event received intent verification none none none
          ∷ event gate_checking intent verification none none none
          ∷ event finished intent verification (some v.status) (some v.reason_code)
              (some (result_of v.status))
          ∷ [];
      dispatch_attempted = false;
    },
    if v.recorded then record_id registry intent.operation_id else registry,
  )

  abbrev pub verification_of : Option (CapabilityDescriptor V) → Option String
  verification_of none = none
  verification_of (some c) = some c.verification_method

-- An exception leaves the registry as it was.
unfoldable pub assess :
    {V : Type 0}
    → (V → V → Bool)
    → List (CapabilityDescriptor V)
    → Intent V
    → Option (StateEvidence V)
    → DateTime
    → ℤ
    → Registry
    → Result ShadowError (ShadowAssessment × Registry)
assess same capabilities intent evidence now cooldown registry = do
  require_aware now
  raise_if (ltb_ℤ cooldown (pos 0)) negative_cooldown
  let capability = find_capability capabilities intent.capability
  ok (
      finish intent (verification_of capability)
        (judge_request same capability intent evidence now cooldown registry) registry)
