-- ===== src/GasQueue/Request.antt =====
-- src/hedp/adapters/fusionsolar/gas_queue_importer.py: what an envelope may say of its request, and
-- the search for secrets. `str.lower` is an argument.
pub mod Secrets
pub mod Allowed
use Prim.Native.String.{String}
use hedp.Prelude.{
  ℕ, Bool, true, false, not, ◌&&◌, ◌||◌, List, [], ◌∷◌, map, ◌==◌, if◌then◌else◌, any, all, Result,
  ok, err, raise_if, ◌>>=◌, ◌>>◌,
}
use hedp.Prelude.Texts.{codes, str_eq}
use hedp.Prelude.Json.{
  Json, null, boolean, integer, float, text, array, object, Elements, no_elements, element, Members,
  no_members, member, get, is_text, key_set_is,
}
use hedp.GasQueue.{
  GasQueueError, invalid_request, request_not_allowed, request_dimension_not_allowed,
  unexpected_request_field, sensitive_field_present,
}

abbrev pub Text : Type 0
Text = List ℕ

abbrev pub starts_with : Text → Text → Bool
starts_with [] t = true
starts_with (c ∷ s) [] = false
starts_with (c ∷ s) (d ∷ t) = c == d && starts_with s t

-- `word in text`
abbrev pub occurs : Text → Text → Bool
occurs word [] = starts_with word []
occurs word (c ∷ t) = starts_with word (c ∷ t) || occurs word t

abbrev pub secret_words : List Text
secret_words = map codes ("authorization" ∷ "cookie" ∷ "password" ∷ "secret" ∷ "token" ∷ [])

module _ (lower : String → Text) where
  unfoldable pub is_secret : String → Bool
  is_secret key = any (λ word. occurs word (lower key)) secret_words

  unfoldable mutual
    -- `_reject_secrets`
    pub reject_secrets : Json → Result GasQueueError (Unit {0})
    reject_secrets null = ok tt
    reject_secrets (boolean _) = ok tt
    reject_secrets (integer _) = ok tt
    reject_secrets (float _) = ok tt
    reject_secrets (text _) = ok tt
    reject_secrets (array vs) = reject_elements vs
    reject_secrets (object ms) = reject_members ms

    pub reject_elements : Elements → Result GasQueueError (Unit {0})
    reject_elements no_elements = ok tt
    reject_elements (element v vs) = reject_secrets v >> reject_elements vs

    pub reject_members : Members → Result GasQueueError (Unit {0})
    reject_members no_members = ok tt
    reject_members (member key v ms) =
        raise_if (is_secret key) sensitive_field_present >> (reject_secrets v >> reject_members ms)

pub data Source : Type 0 where
  fusionsolar fusionsolar_energy_balance : Source

-- The text of a source, and the method, the endpoint, and the key and value of the dimension that
-- are allowed for it.
abbrev pub source_text : Source → String
source_text fusionsolar = "fusionsolar"
source_text fusionsolar_energy_balance = "fusionsolar_energy_balance"

abbrev pub allowed_method : Source → String
allowed_method fusionsolar = "POST"
allowed_method fusionsolar_energy_balance = "GET"

abbrev pub allowed_endpoint : Source → String
allowed_endpoint fusionsolar = "/rest/pvms/web/report/v1/station/station-kpi-list"
allowed_endpoint fusionsolar_energy_balance = "/rest/pvms/web/station/v1/overview/energy-balance"

abbrev pub allowed_key : Source → String
allowed_key fusionsolar = "statDim"
allowed_key fusionsolar_energy_balance = "timeDim"

abbrev pub allowed_value : Source → String
allowed_value _ = "2"

-- `_validate_request` of a mapping
unfoldable pub validate_members : Source → Members → Result GasQueueError (Unit {0})
validate_members source ms = do
  raise_if
      (not (is_text (get ms "method") (allowed_method source))
        || not (is_text (get ms "endpoint") (allowed_endpoint source)))
      request_not_allowed
  raise_if (not (is_text (get ms (allowed_key source)) (allowed_value source)))
      request_dimension_not_allowed
  raise_if (not (key_set_is ms ("method" ∷ "endpoint" ∷ allowed_key source ∷ [])))
      unexpected_request_field

-- `_validate_request`
unfoldable pub validate_request : Source → Json → Result GasQueueError (Unit {0})
validate_request source (object ms) = validate_members source ms
validate_request source _ = err invalid_request
