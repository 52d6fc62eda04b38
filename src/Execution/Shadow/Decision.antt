-- ===== src/Execution/Shadow/Decision.antt =====
-- When the gate lets an intent pass, written as a specification of its own.
use Prim.Native.String.{String}
use hedp.Prelude.{
  ℕ, ◌≤◌, ◌<◌, ◌≡◌, ◌≢◌, ◌↔◌, refl, sym, ap, ◌∙◌, inl, inr, Bool, Bool-cases, true, false, Option,
  none, some, List, arith, get_elem?, any, Has, any→Has, Has→any, ok,
}
use hedp.Prelude.Int.{ℤ, pos, ◌≤ℤ◌}
use hedp.Prelude.Texts.{str_eq, str_eq_iff}
use hedp.Execution.Shadow.{
  pass, DateTime, elapsed, CapabilityDescriptor, Intent, StateEvidence, ShadowAssessment,
}
use hedp.Execution.Shadow.Checks.{require_aware}
use hedp.Execution.Shadow.Gate.{
  Registry, contains, same_quality, overridden, find_capability, judge_state, judge_intent,
  judge_request, finish, verification_of, assess,
}

-- A manual override, if there is one, is at least the cooldown ago.
abbrev pub IsReleased : Option DateTime → DateTime → ℤ → Type 0
IsReleased none now cooldown = Unit
IsReleased (some t) now cooldown = cooldown ≤ℤ elapsed now t

-- The evidence is of an accepted quality, not from the future, young enough, and no manual
-- override is more recent than the cooldown.
pub record IsTrusted {V : Type 0} (c : CapabilityDescriptor V) (e : StateEvidence V)
    (now : DateTime) (cooldown : ℤ) : Type 0 where
  pub accepted : Has (same_quality e.quality) c.accepted_qualities
  pub past : e.observed_at.instant ≤ now.instant
  pub fresh : elapsed now e.observed_at ≤ℤ c.maximum_state_age
  pub released : IsReleased e.manual_override_at now cooldown

-- The intent names the capability's target and owner, asks for an allowed state, and is in force.
pub record IsInForce {V : Type 0} (same : V → V → Bool) (c : CapabilityDescriptor V) (i : Intent V)
    (now : DateTime) : Type 0 where
  pub target : c.target_alias ≡ i.target_alias
  pub owner : c.control_owner ≡ i.control_owner
  pub allowed : Has (same i.desired_state) c.allowed_desired_states
  pub requested : i.requested_at.instant ≤ now.instant
  pub live : now.instant < i.expires_at.instant

-- No operation of this ID has been recorded.
abbrev pub IsNew : Registry → String → Type 0
IsNew registry id = (n : ℕ) → get_elem? registry n ≢ some id

pub contains-IsNew :
    (registry : Registry) (id : String) → (contains registry id ≡ false) ↔ IsNew registry id
unfolding contains
contains-IsNew registry id = (
  λ h n at. let seen = Has→any (str_eq id) registry (n, id, at, (str_eq_iff id id).1 refl) in cc,
  λ h. elim (Bool-cases (any (str_eq id) registry)) [
    | inl seen ↦
        let (n, a, at, same) = any→Has (str_eq id) registry seen in
        absurd (h n (at ∙ ap some (sym ((str_eq_iff id a).0 same))))
    | inr fresh ↦ fresh
  ],
)

override-IsReleased :
    (o : Option DateTime) (now : DateTime) (cooldown : ℤ)
    → (overridden o now cooldown ≡ false) ↔ IsReleased o now cooldown
override-IsReleased none now cooldown = (λ h. tt, λ h. refl)
override-IsReleased (some u) now cooldown = (λ h. ground arith, λ h. ground arith)

module _ {V : Type 0} (c : CapabilityDescriptor V) (i : Intent V) (e : StateEvidence V)
    (now : DateTime) (cooldown : ℤ) (registry : Registry) where
  judge_state-pass :
      ((judge_state c i e now cooldown registry).status ≡ pass)
      → IsTrusted c e now cooldown × IsNew registry i.operation_id
  unfolding judge_state
  judge_state-pass h = (
    record {
      accepted = any→Has (same_quality e.quality) c.accepted_qualities (ground arith);
      past = ground arith;
      fresh = ground arith;
      released = (override-IsReleased e.manual_override_at now cooldown).0 (ground arith);
    },
    (contains-IsNew registry i.operation_id).0 (ground arith),
  )

  pass-judge_state :
      IsTrusted c e now cooldown
      → IsNew registry i.operation_id
      → (judge_state c i e now cooldown registry).status ≡ pass
  unfolding judge_state
  pass-judge_state t new = ground (
    arith,
    Has→any (same_quality e.quality) c.accepted_qualities t.accepted,
    t.past,
    t.fresh,
    (override-IsReleased e.manual_override_at now cooldown).1 t.released,
    (contains-IsNew registry i.operation_id).1 new,
  )

module _ {V : Type 0} (same : V → V → Bool) (c : CapabilityDescriptor V) (i : Intent V)
    (now : DateTime) (cooldown : ℤ) (registry : Registry) where
  abbrev IsAdmitted : StateEvidence V → Type 0
  IsAdmitted e = IsInForce same c i now × IsTrusted c e now cooldown × IsNew registry i.operation_id

  judge_intent-pass :
      (e : StateEvidence V)
      → (judge_intent same c i (some e) now cooldown registry).status ≡ pass
      → IsAdmitted e
  unfolding judge_intent
  judge_intent-pass e h =
      let tests = judge_state-pass c i e now cooldown registry (ground arith) in
      (
        record {
          target = (str_eq_iff c.target_alias i.target_alias).0 (ground arith);
          owner = (str_eq_iff c.control_owner i.control_owner).0 (ground arith);
          allowed = any→Has (same i.desired_state) c.allowed_desired_states (ground arith);
          requested = ground arith;
          live = ground arith;
        },
        tests.0,
        tests.1,
      )

  pass-judge_intent :
      (e : StateEvidence V)
      → IsAdmitted e
      → (judge_intent same c i (some e) now cooldown registry).status ≡ pass
  unfolding judge_intent
  pass-judge_intent e (force, trusted, new) = ground (
    arith,
    (str_eq_iff c.target_alias i.target_alias).1 force.target,
    (str_eq_iff c.control_owner i.control_owner).1 force.owner,
    Has→any (same i.desired_state) c.allowed_desired_states force.allowed,
    force.requested,
    force.live,
    pass-judge_state c i e now cooldown registry trusted new,
  )

  no_evidence-blocks : (judge_intent same c i none now cooldown registry).status ≢ pass
  unfolding judge_intent
  no_evidence-blocks h = ground arith

-- The capability and the evidence that a passing intent rests on.
abbrev pub IsAdmissible :
    {V : Type 0}
    → (V → V → Bool)
    → Option (CapabilityDescriptor V)
    → Intent V
    → Option (StateEvidence V)
    → DateTime
    → ℤ
    → Registry
    → Type 0
IsAdmissible same (some c) i (some e) now cooldown registry =
    IsInForce same c i now × IsTrusted c e now cooldown × IsNew registry i.operation_id
IsAdmissible same _ i _ now cooldown registry = ⊥

judge_request-pass_iff :
    {V : Type 0} (same : V → V → Bool) (c : Option (CapabilityDescriptor V)) (i : Intent V)
    (e : Option (StateEvidence V)) (now : DateTime) (cooldown : ℤ) (registry : Registry)
    → ((judge_request same c i e now cooldown registry).status ≡ pass)
      ↔ IsAdmissible same c i e now cooldown registry
unfolding judge_request
judge_request-pass_iff same (some c) i (some e) now cooldown registry = (
  judge_intent-pass same c i now cooldown registry e,
  pass-judge_intent same c i now cooldown registry e,
)
judge_request-pass_iff same (some c) i none now cooldown registry =
    (no_evidence-blocks same c i now cooldown registry, absurd)
judge_request-pass_iff same none i e now cooldown registry = (λ h. cc, absurd)

-- A returned assessment is that of the verdict, for an aware instant and a cooldown from 0 on.
pub assess-ok :
    {V : Type 0} (same : V → V → Bool) (capabilities : List (CapabilityDescriptor V)) (i : Intent V)
    (e : Option (StateEvidence V)) (now : DateTime) (cooldown : ℤ) (registry registry' : Registry)
    (a : ShadowAssessment)
    → assess same capabilities i e now cooldown registry ≡ ok (a, registry')
    → (now.aware ≡ true)
      × (pos 0 ≤ℤ cooldown)
      × (finish i
            (verification_of (find_capability capabilities i.capability))
            (judge_request same
              (find_capability capabilities i.capability)
              i
              e
              now
              cooldown
              registry)
            registry
          ≡ (a, registry'))
unfolding assess require_aware
assess-ok same capabilities i e now cooldown registry registry' a h = ground arith

-- An assessment that is returned passes the gate exactly if the registered capability of that name
-- has the intent's target and owner and allows its desired state, the intent is in force, there is
-- trusted evidence of the state, and the operation ID has not been recorded.
pub assess-pass_iff :
    {V : Type 0} (same : V → V → Bool) (capabilities : List (CapabilityDescriptor V)) (i : Intent V)
    (e : Option (StateEvidence V)) (now : DateTime) (cooldown : ℤ) (registry registry' : Registry)
    (a : ShadowAssessment)
    → assess same capabilities i e now cooldown registry ≡ ok (a, registry')
    → (a.gate.status ≡ pass)
      ↔ IsAdmissible same (find_capability capabilities i.capability) i e now cooldown registry
unfolding finish
assess-pass_iff same capabilities i e now cooldown registry registry' a h =
    let c = find_capability capabilities i.capability in
    let status : (judge_request same c i e now cooldown registry).status ≡ a.gate.status =
      ap (λ (p : ShadowAssessment × Registry). p.0.gate.status)
        (assess-ok same capabilities i e now cooldown registry registry' a h).2 in
    rw (← status) (judge_request-pass_iff same c i e now cooldown registry)
