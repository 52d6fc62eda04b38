-- ===== src/Execution/Shadow/Examples.antt =====
-- Runs of the gate on one capability, and its theorems at those runs.
use hedp.Prelude.{
  ℕ, ◌≡◌, ◌↔◌, refl, true, false, Option, none, some, List, [], ◌∷◌, ◌==◌, Result, ok, err,
}
use hedp.Prelude.Int.{pos}
use hedp.Prelude.Texts.{is_blank}
use hedp.Execution.Shadow.{
  GateStatus, pass, blocked, expired, unavailable, good, DateTime, CapabilityDescriptor, Intent,
  StateEvidence, ShadowAssessment, conditions_satisfied, ShadowError,
}
use hedp.Execution.Shadow.Checks.{
  check_capability, check_intent, check_evidence, is_safe_name, require_aware,
}
use hedp.Execution.Shadow.Gate.{
  Registry, contains, record_id, find_capability, judge_state, judge_intent, judge_request, finish,
  assess,
}
use hedp.Execution.Shadow.Decision.{IsAdmissible, assess-pass_iff}
use hedp.Execution.Shadow.Replay.{Request, passed, AllDiffer, passed-AllDiffer}
use hedp.Execution.Shadow.Audit.{IsAudited, assess-IsAudited}

abbrev at : ℕ → DateTime
at t = record { instant = t; aware = true }

abbrev blinds : CapabilityDescriptor ℕ
blinds = record {
  target_alias = "blind-1";
  capability = "set_position";
  control_owner = "hedp";
  allowed_desired_states = 0 ∷ 50 ∷ 100 ∷ [];
  verification_method = "readback";
  maximum_state_age = pos 60;
  accepted_qualities = good ∷ [];
  shadow_only = true;
}

abbrev close_blinds : Intent ℕ
close_blinds = record {
  operation_id = "op-1";
  requested_at = at 1000;
  expires_at = at 1100;
  requester = "planner";
  reason = "sun";
  target_alias = "blind-1";
  capability = "set_position";
  desired_state = 50;
  priority = pos 1;
  control_owner = "hedp";
  correlation_id = "c-1";
}

abbrev seen : StateEvidence ℕ
seen = record { observed_at = at 990; quality = good; current_state = 0; manual_override_at = none }

checked :
    (check_capability blinds ≡ ok tt)
    × (check_intent close_blinds ≡ ok tt)
    × (check_evidence seen ≡ ok tt)
unfolding check_capability check_intent check_evidence is_blank
checked = (refl, refl, refl)

unsafe_names :
    (is_safe_name "" ≡ false)
    × (is_safe_name "Op" ≡ false)
    × (is_safe_name "_x" ≡ false)
    × (is_safe_name "x_1-" ≡ true)
unfolding is_safe_name
unsafe_names = (refl, refl, refl, refl)

abbrev status : Result ShadowError (ShadowAssessment × Registry) → Option GateStatus
status (ok (a, _)) = some a.gate.status
status (err _) = none

abbrev run : Intent ℕ → ℕ → Registry → Result ShadowError (ShadowAssessment × Registry)
run i t registry = assess ◌==◌ (blinds ∷ []) i (some seen) (at t) (pos 0) registry

runs :
    (status (run close_blinds 1010 []) ≡ some pass)
    × (status (run close_blinds 1010 ("op-1" ∷ [])) ≡ some blocked)
    × (status (run close_blinds 1100 []) ≡ some expired)
    × (status (run close_blinds 1060 []) ≡ some unavailable)
    × (status (run close_blinds 999 []) ≡ some blocked)
unfolding assess require_aware finish judge_request judge_intent judge_state find_capability
    contains record_id
runs = (refl, refl, refl, refl, refl)

abbrev passing : ShadowAssessment
passing =
    (finish close_blinds (some "readback")
      (record {
        status = pass;
        reason_code = conditions_satisfied;
        evidence = some seen;
        recorded = true;
      })
      []).0

run-passing : run close_blinds 1010 [] ≡ ok (passing, "op-1" ∷ [])
unfolding assess require_aware finish judge_request judge_intent judge_state find_capability
    contains record_id
run-passing = refl

assess-pass_iff_example :
    (passing.gate.status ≡ pass)
    ↔ IsAdmissible ◌==◌
        (find_capability (blinds ∷ []) "set_position")
        close_blinds
        (some seen)
        (at 1010)
        (pos 0)
        []
assess-pass_iff_example =
    assess-pass_iff ◌==◌ (blinds ∷ []) close_blinds (some seen) (at 1010) (pos 0) [] ("op-1" ∷ [])
      passing run-passing

abbrev twice : List (Request ℕ)
twice =
    record { intent = close_blinds; evidence = some seen; evaluated_at = at 1010; cooldown = pos 0 }
    ∷ record {
      intent = close_blinds;
      evidence = some seen;
      evaluated_at = at 1011;
      cooldown = pos 0;
    }
    ∷ []

passed-AllDiffer_example : AllDiffer (passed ◌==◌ (blinds ∷ []) [] twice)
passed-AllDiffer_example = passed-AllDiffer ◌==◌ (blinds ∷ []) twice []

assess-IsAudited_example : IsAudited close_blinds passing
assess-IsAudited_example =
    assess-IsAudited ◌==◌ (blinds ∷ []) close_blinds (some seen) (at 1010) (pos 0) [] ("op-1" ∷ [])
      passing run-passing
