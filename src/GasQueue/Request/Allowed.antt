-- ===== src/GasQueue/Request/Allowed.antt =====
-- src/hedp/adapters/fusionsolar/gas_queue_importer.py: what a request may ask for.
use Prim.Native.String.{String}
use hedp.Prelude.{
  ◌≡◌, refl, ap, Bool, true, false, not, ◌||◌, [], ◌∷◌, arith, ok, raise_if, raise_if-passed,
  Ensures, bind-Ensures, Ensures-returned,
}
use hedp.Prelude.Texts.{str_eq_iff}
use hedp.Prelude.Json.{Json, text, object, Members, get, is_text, key_set_is}
use hedp.GasQueue.{
  GasQueueError, request_not_allowed, request_dimension_not_allowed, unexpected_request_field,
}
use hedp.GasQueue.Request.{
  Source, fusionsolar, fusionsolar_energy_balance, validate_members, validate_request,
  allowed_method, allowed_endpoint, allowed_key, allowed_value,
}

-- The request of each source, with no other key: its report of the day's stations, or its energy balance.
abbrev pub IsAllowedMembers : Source → Members → Type 0
IsAllowedMembers fusionsolar ms =
    (get ms "method" ≡ text "POST")
    × (get ms "endpoint" ≡ text "/rest/pvms/web/report/v1/station/station-kpi-list")
    × (get ms "statDim" ≡ text "2")
    × (key_set_is ms ("method" ∷ "endpoint" ∷ "statDim" ∷ []) ≡ true)
IsAllowedMembers fusionsolar_energy_balance ms =
    (get ms "method" ≡ text "GET")
    × (get ms "endpoint" ≡ text "/rest/pvms/web/station/v1/overview/energy-balance")
    × (get ms "timeDim" ≡ text "2")
    × (key_set_is ms ("method" ∷ "endpoint" ∷ "timeDim" ∷ []) ≡ true)

abbrev pub IsAllowed : Source → Json → Type 0
IsAllowed source value = (ms : Members) × (value ≡ object ms) × IsAllowedMembers source ms

is_text_sound : (value : Json) (t : String) → is_text value t ≡ true → value ≡ text t
is_text_sound (text s) t same = ap text ((str_eq_iff s t).0 same)
is_text_sound _ t same = cc

raise_if-Ensures :
    (test : Bool) (e : GasQueueError) (P : Type 0)
    → (test ≡ false → P)
    → Ensures (λ (_ : Unit {0}). P) (raise_if test e)
raise_if-Ensures true e P passed = tt
raise_if-Ensures false e P passed = passed refl

not-false : (b : Bool) → not b ≡ false → b ≡ true
not-false true h = refl
not-false false h = cc

-- What has been tested of the members.
abbrev AllTested : Source → Members → Type 0
AllTested source ms =
    (get ms "method" ≡ text (allowed_method source))
    × (get ms "endpoint" ≡ text (allowed_endpoint source))
    × (get ms (allowed_key source) ≡ text (allowed_value source))
    × (key_set_is ms ("method" ∷ "endpoint" ∷ allowed_key source ∷ []) ≡ true)

validate_members-AllTested :
    (source : Source) (ms : Members)
    → Ensures (λ _. AllTested source ms) (validate_members source ms)
unfolding validate_members
validate_members-AllTested source ms =
    let other =
      not (is_text (get ms "method") (allowed_method source))
      || not (is_text (get ms "endpoint") (allowed_endpoint source)) in
    let dimension = not (is_text (get ms (allowed_key source)) (allowed_value source)) in
    let keys = not (key_set_is ms ("method" ∷ "endpoint" ∷ allowed_key source ∷ [])) in
    bind-Ensures _ (raise_if other request_not_allowed) _ λ u is_request.
      bind-Ensures _ (raise_if dimension request_dimension_not_allowed) _ λ v is_dimension.
        raise_if-Ensures keys unexpected_request_field (AllTested source ms) λ kept.
          let agrees = raise_if-passed other request_not_allowed u is_request in
          let allowed = raise_if-passed dimension request_dimension_not_allowed v is_dimension in
          (
            is_text_sound (get ms "method") (allowed_method source) (ground arith),
            is_text_sound (get ms "endpoint") (allowed_endpoint source) (ground arith),
            is_text_sound (get ms (allowed_key source)) (allowed_value source) (ground arith),
            not-false (key_set_is ms ("method" ∷ "endpoint" ∷ allowed_key source ∷ [])) kept,
          )

AllTested-allowed :
    (source : Source) (ms : Members) → AllTested source ms → IsAllowedMembers source ms
AllTested-allowed fusionsolar ms tested = tested
AllTested-allowed fusionsolar_energy_balance ms tested = tested

pub validate_request-IsAllowed :
    (source : Source) (value : Json) (u : Unit {0})
    → validate_request source value ≡ ok u
    → IsAllowed source value
unfolding validate_request
validate_request-IsAllowed source (object ms) u passed = (
  ms,
  refl,
  AllTested-allowed source ms (
      Ensures-returned (λ _. AllTested source ms) (validate_members source ms) u
        (validate_members-AllTested source ms) passed),
)
validate_request-IsAllowed source _ u passed = cc
