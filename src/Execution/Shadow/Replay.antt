-- ===== src/Execution/Shadow/Replay.antt =====
-- The registry over a sequence of assessments: replay protection.
use Prim.Native.String.{String}
use hedp.Prelude.{
  ◌≡◌, ◌≢◌, refl, ap, ◌∙◌, Bool, true, false, ◌||◌, Option, none, some, List, [], ◌∷◌, arith,
  Bool-cases, inl, inr, if◌then◌else◌, All, Result, ok, err, Result-cases,
}
use hedp.Prelude.Int.{ℤ}
use hedp.Prelude.Texts.{str_eq, str_eq_iff}
use hedp.Execution.Shadow.{
  ShadowError, GateStatus, pass, DateTime, CapabilityDescriptor, Intent, StateEvidence,
  ShadowAssessment,
}
use hedp.Execution.Shadow.Gate.{
  Registry, contains, record_id, find_capability, judge_state, judge_intent, judge_request, finish,
  assess,
}
use hedp.Execution.Shadow.Decision.{assess-ok, assess-pass_iff, IsAdmissible, contains-IsNew}

contains-record_id :
    (registry : Registry) (id j : String)
    → contains (record_id registry id) j ≡ (str_eq j id || contains registry j)
unfolding contains record_id
contains-record_id registry id j = ground (arith, str_eq_iff j id, str_eq_iff id id)

contains-after :
    (recorded : Bool) (registry : Registry) (id j : String)
    → (recorded ≡ false → contains registry id ≡ true)
    → contains (if recorded then record_id registry id else registry) j
      ≡ (str_eq j id || contains registry j)
contains-after true registry id j h = contains-record_id registry id j
contains-after false registry id j h = elim (Bool-cases (str_eq j id)) [
  | inl same ↦ rw (same, (str_eq_iff j id).0 same) (h refl)
  | inr other ↦ rw other
]

module _ {V : Type 0} (same : V → V → Bool) (i : Intent V) (now : DateTime) (cooldown : ℤ)
    (registry : Registry) where
  judge_state-recorded :
      (c : CapabilityDescriptor V) (e : StateEvidence V)
      → (judge_state c i e now cooldown registry).recorded ≡ false
      → contains registry i.operation_id ≡ true
  unfolding judge_state
  judge_state-recorded c e h = ground arith

  judge_intent-recorded :
      (c : CapabilityDescriptor V) (e : Option (StateEvidence V))
      → (judge_intent same c i e now cooldown registry).recorded ≡ false
      → contains registry i.operation_id ≡ true
  unfolding judge_intent
  judge_intent-recorded c none h = ground arith
  judge_intent-recorded c (some e) h = ground (arith, judge_state-recorded c e)

  judge_request-recorded :
      (c : Option (CapabilityDescriptor V)) (e : Option (StateEvidence V))
      → (judge_request same c i e now cooldown registry).recorded ≡ false
      → contains registry i.operation_id ≡ true
  unfolding judge_request
  judge_request-recorded none e h = cc
  judge_request-recorded (some c) e h = judge_intent-recorded c e h

-- Whatever the verdict, an assessment that is returned adds the intent's operation ID to the
-- registry and changes nothing else in it.
pub contains-assess :
    {V : Type 0} (same : V → V → Bool) (capabilities : List (CapabilityDescriptor V)) (i : Intent V)
    (e : Option (StateEvidence V)) (now : DateTime) (cooldown : ℤ) (registry registry' : Registry)
    (a : ShadowAssessment) (j : String)
    → assess same capabilities i e now cooldown registry ≡ ok (a, registry')
    → contains registry' j ≡ (str_eq j i.operation_id || contains registry j)
unfolding finish
contains-assess same capabilities i e now cooldown registry registry' a j h =
    let c = find_capability capabilities i.capability in
    let v = judge_request same c i e now cooldown registry in
    let after =
      ap (λ (p : ShadowAssessment × Registry). p.1)
        (assess-ok same capabilities i e now cooldown registry registry' a h).2 in
    rw (← after) (
      contains-after v.recorded registry i.operation_id j
        (judge_request-recorded same i now cooldown registry c e))

-- One call of `assess` on a shared registry.
pub record Request (V : Type 0) : Type 0 where
  pub intent : Intent V
  pub evidence : Option (StateEvidence V)
  pub evaluated_at : DateTime
  pub cooldown : ℤ

abbrev pub AllDiffer : List String → Type 0
AllDiffer [] = Unit
AllDiffer (id ∷ ids) = All (λ j. id ≢ j) ids × AllDiffer ids

abbrev pub is_pass : GateStatus → Bool
is_pass pass = true
is_pass _ = false

module _ {V : Type 0} (same : V → V → Bool) (capabilities : List (CapabilityDescriptor V)) where
  abbrev pub call : Request V → Registry → Result ShadowError (ShadowAssessment × Registry)
  call q registry = assess same capabilities q.intent q.evidence q.evaluated_at q.cooldown registry

  -- The operation IDs that pass in a sequence of calls, each on the registry that the last left.
  pub passed : Registry → List (Request V) → List String
  passed registry [] = []
  passed registry (q ∷ qs) = elim (call q registry) [
    | err _ ↦ passed registry qs
    | ok (a, registry') ↦
        let rest = passed registry' qs in
        if is_pass a.gate.status then q.intent.operation_id ∷ rest else rest
  ]

  passed-err :
      (q : Request V) (qs : List (Request V)) (registry : Registry) (x : ShadowError)
      → call q registry ≡ err x
      → passed registry (q ∷ qs) ≡ passed registry qs
  unfolding passed
  passed-err q qs registry x e = rw (e, passed)

  passed-ok :
      (q : Request V) (qs : List (Request V)) (registry registry' : Registry) (a : ShadowAssessment)
      → call q registry ≡ ok (a, registry')
      → passed registry (q ∷ qs) ≡ (
          if is_pass a.gate.status
          then q.intent.operation_id ∷ passed registry' qs
          else passed registry' qs)
  unfolding passed
  passed-ok q qs registry registry' a e = rw (e, passed)

  admitted_new :
      (c : Option (CapabilityDescriptor V)) (i : Intent V) (e : Option (StateEvidence V))
      (now : DateTime) (cooldown : ℤ) (registry : Registry)
      → IsAdmissible same c i e now cooldown registry
      → contains registry i.operation_id ≡ false
  admitted_new none i e now cooldown registry h = absurd h
  admitted_new (some c) i none now cooldown registry h = absurd h
  admitted_new (some c) i (some e) now cooldown registry h =
      (contains-IsNew registry i.operation_id).1 h.2

  module _ (q : Request V) (registry registry' : Registry) (a : ShadowAssessment) where
    pass_new :
        call q registry ≡ ok (a, registry')
        → is_pass a.gate.status ≡ true
        → contains registry q.intent.operation_id ≡ false
    pass_new e h =
        admitted_new (find_capability capabilities q.intent.capability) q.intent q.evidence
          q.evaluated_at q.cooldown registry
          ((assess-pass_iff same capabilities q.intent q.evidence q.evaluated_at q.cooldown registry
              registry' a e).0
            (ground arith))

    contains-call :
        (j : String)
        → call q registry ≡ ok (a, registry')
        → contains registry' j ≡ (str_eq j q.intent.operation_id || contains registry j)
    contains-call j e =
        contains-assess same capabilities q.intent q.evidence q.evaluated_at q.cooldown registry
          registry' a j e

  -- What has been recorded does not pass any more.
  passed_new :
      (qs : List (Request V)) (registry : Registry) (id : String)
      → contains registry id ≡ true
      → All (λ j. id ≢ j) (passed registry qs)
  passed_new [] registry id h = unfold passed in tt
  passed_new (q ∷ qs) registry id h = elim (Result-cases (call q registry)) [
    | inl (x, e) ↦ rw (passed-err q qs registry x e) (passed_new qs registry id h)
    | inr ((a, registry'), e) ↦
        let rest =
          passed_new qs registry' id (ground (arith, contains-call q registry registry' a id e)) in
        rw (passed-ok q qs registry registry' a e)
          (ground (arith, pass_new q registry registry' a e, str_eq_iff id q.intent.operation_id))
  ]

  -- In any sequence of assessments on one registry, from any start, no operation ID passes twice.
  pub passed-AllDiffer :
      (qs : List (Request V)) (registry : Registry) → AllDiffer (passed registry qs)
  passed-AllDiffer [] registry = unfold passed in tt
  passed-AllDiffer (q ∷ qs) registry = elim (Result-cases (call q registry)) [
    | inl (x, e) ↦ rw (passed-err q qs registry x e) (passed-AllDiffer qs registry)
    | inr ((a, registry'), e) ↦
        let rest = passed-AllDiffer qs registry' in
        let id = q.intent.operation_id in
        let later = passed_new qs registry' id (
          contains-call q registry registry' a id e
          ∙ ap (λ b. b || contains registry id) ((str_eq_iff id id).1 refl)) in
        rw (passed-ok q qs registry registry' a e) (ground arith)
  ]
