-- ===== src/Execution/Shadow/Checks.antt =====
-- The `__post_init__` checks of the records: what a constructed record is known to satisfy.
use Prim.Native.String.{String}
use hedp.Prelude.{
  ℕ, Bool, true, false, not, ◌&&◌, ◌||◌, Option, none, some, List, [], ◌∷◌, leb, ◌==◌, length, all,
  Result, ok, raise_if, ◌>>◌,
}
use hedp.Prelude.Int.{pos, leb_ℤ}
use hedp.Prelude.Texts.{codes, is_blank}
use hedp.Execution.Shadow.{
  ShadowError, unsafe_name, not_aware, not_shadow_only, no_desired_states, age_not_positive,
  no_qualities, expires_too_early, empty_reason, dispatches, DateTime, CapabilityDescriptor, Intent,
  StateEvidence, AuditEvent, ShadowAssessment,
}

-- `[a-z0-9]`
abbrev pub is_name_start : ℕ → Bool
is_name_start c = (leb b'a' c && leb c b'z') || (leb b'0' c && leb c b'9')

-- `[a-z0-9_-]`
abbrev pub is_name_char : ℕ → Bool
is_name_char c = is_name_start c || c == b'_' || c == b'-'

abbrev pub safe_codes : List ℕ → Bool
safe_codes [] = false
safe_codes (c ∷ rest) = is_name_start c && all is_name_char rest && leb (length rest) 63

-- `_SAFE_NAME.fullmatch(value) is not None`
unfoldable pub is_safe_name : String → Bool
is_safe_name s = safe_codes (codes s)

unfoldable pub require_safe_name : String → Result ShadowError (Unit {0})
unfolding is_safe_name
require_safe_name s = raise_if (not (is_safe_name s)) unsafe_name

unfoldable pub require_safe_names : List String → Result ShadowError (Unit {0})
unfolding require_safe_name
require_safe_names [] = ok tt
require_safe_names (s ∷ rest) = do require_safe_name s; require_safe_names rest

unfoldable pub require_aware : DateTime → Result ShadowError (Unit {0})
require_aware t = raise_if (not t.aware) not_aware

abbrev is_empty : {A : Type 0} → List A → Bool
is_empty [] = true
is_empty (_ ∷ _) = false

-- The check of a field that may be `None`.
abbrev require_aware? : Option DateTime → Result ShadowError (Unit {0})
require_aware? none = ok tt
require_aware? (some t) = require_aware t

module _ {V : Type 0} where
  unfoldable pub check_capability : CapabilityDescriptor V → Result ShadowError (Unit {0})
  unfolding require_safe_names
  check_capability c = do
    require_safe_names
        (c.target_alias ∷ c.capability ∷ c.control_owner ∷ c.verification_method ∷ [])
    raise_if (not c.shadow_only) not_shadow_only
    raise_if (is_empty c.allowed_desired_states) no_desired_states
    raise_if (leb_ℤ c.maximum_state_age (pos 0)) age_not_positive
    raise_if (is_empty c.accepted_qualities) no_qualities

  unfoldable pub check_intent : Intent V → Result ShadowError (Unit {0})
  unfolding require_safe_names require_aware
  check_intent i = do
    require_safe_names (
        i.operation_id ∷ i.requester ∷ i.target_alias ∷ i.capability ∷ i.control_owner
        ∷ i.correlation_id ∷ [])
    require_aware i.requested_at
    require_aware i.expires_at
    raise_if (leb i.expires_at.instant i.requested_at.instant) expires_too_early
    raise_if (is_blank (codes i.reason)) empty_reason

  unfoldable pub check_evidence : StateEvidence V → Result ShadowError (Unit {0})
  unfolding require_aware
  check_evidence e = do require_aware e.observed_at; require_aware? e.manual_override_at

unfoldable pub check_event : AuditEvent → Result ShadowError (Unit {0})
check_event e = raise_if e.dispatch_attempted dispatches

unfoldable pub check_assessment : ShadowAssessment → Result ShadowError (Unit {0})
check_assessment a = raise_if a.dispatch_attempted dispatches
