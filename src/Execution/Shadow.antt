-- ===== src/Execution/Shadow.antt =====
-- src/hedp/operations/shadow_execution.py: the gate that judges an intent without dispatching it.
-- `Any` (desired and current states) is a type `V` with the caller's equality `same`, type test
-- included. Instants are microseconds from an origin before every date; a `timedelta` is an integer
-- of microseconds.
mod Checks
pub mod Gate
pub mod Decision
pub mod Replay
pub mod Audit
mod Examples
use hedp.Prelude.{ℕ, ◌-◌, Bool, true, false, Option, none, some, List, [], ◌∷◌}
use hedp.Prelude.Int.{ℤ, sub_ℕ}
use Prim.Native.String.{String}

pub data GateStatus : Type 0 where
  pass blocked expired unavailable : GateStatus

pub data ShadowResult : Type 0 where
  would_dispatch would_block indeterminate : ShadowResult

pub data EvidenceQuality : Type 0 where
  good stale missing invalid estimated unknown : EvidenceQuality

-- The `reason_code` strings.
pub data Reason : Type 0 where
  unknown_capability target_mismatch owner_mismatch desired_state_invalid : Reason
  request_time_invalid intent_expired state_missing state_quality_insufficient : Reason
  state_time_invalid state_not_fresh manual_override_active duplicate_operation_id : Reason
  conditions_satisfied : Reason

pub data Phase : Type 0 where
  received gate_checking finished : Phase

-- The exceptions of the constructors and of `assess`.
pub data ShadowError : Type 0 where
  unsafe_name not_aware not_shadow_only no_desired_states age_not_positive : ShadowError
  no_qualities expires_too_early empty_reason dispatches capabilities_not_unique : ShadowError
  negative_cooldown : ShadowError

pub record DateTime : Type 0 where
  pub instant : ℕ
  pub aware : Bool

-- `a - b` of two aware datetimes.
abbrev pub elapsed : DateTime → DateTime → ℤ
elapsed a b = sub_ℕ a.instant b.instant

pub record CapabilityDescriptor (V : Type 0) : Type 0 where
  pub target_alias : String
  pub capability : String
  pub control_owner : String
  pub allowed_desired_states : List V
  pub verification_method : String
  pub maximum_state_age : ℤ
  pub accepted_qualities : List EvidenceQuality
  pub shadow_only : Bool

pub record Intent (V : Type 0) : Type 0 where
  pub operation_id : String
  pub requested_at : DateTime
  pub expires_at : DateTime
  pub requester : String
  pub reason : String
  pub target_alias : String
  pub capability : String
  pub desired_state : V
  pub priority : ℤ
  pub control_owner : String
  pub correlation_id : String

pub record StateEvidence (V : Type 0) : Type 0 where
  pub observed_at : DateTime
  pub quality : EvidenceQuality
  pub current_state : V
  pub manual_override_at : Option DateTime

pub record GateResult : Type 0 where
  pub status : GateStatus
  pub reason_code : Reason
  pub state_observed_at : Option DateTime
  pub state_quality : Option EvidenceQuality

pub record AuditEvent : Type 0 where
  pub phase : Phase
  pub operation_id : String
  pub correlation_id : String
  pub target_alias : String
  pub control_owner : String
  pub verification_method : Option String
  pub gate_status : Option GateStatus
  pub reason_code : Option Reason
  pub shadow_result : Option ShadowResult
  pub dispatch_attempted : Bool

pub record ShadowAssessment : Type 0 where
  pub gate : GateResult
  pub result : ShadowResult
  pub audit_events : List AuditEvent
  pub dispatch_attempted : Bool
