-- ===== src/SmartLedz/Messages.antt =====
-- src/hedp/adapters/smartledz/messages.py: the correlation of decoded responses with declared requests.
-- A dict by request ID is the list of its values; the type checks are the argument types.
pub mod Correlation
pub mod OneToOne
use hedp.Prelude.{
  ℕ, Bool, true, false, not, Option, none, some, List, [], ◌∷◌, map, ltb, leb, ◌==◌, if◌then◌else◌,
  ◌&&◌, length, any, Result, ok, err, raise_if, ◌>>=◌, ◌>>◌,
}
use hedp.Prelude.Int.{ℤ, pos, pos_part, leb_ℤ}
use hedp.SmartLedz.Framing.{request_id_mask}
use hedp.SmartLedz.Envelope.{
  Text, ResourceKind, group, scene, schedule, device, sensor, Response, ResourceResponse,
  normalize_resource_response,
}

pub data MessageError : Type 0 where
  no_requests request_id_repeated resource_repeated notification_received id_not_declared :
      MessageError
  response_repeated response_missing id_out_of_range : MessageError

-- `_validate_request_id`
unfoldable pub validate_request_id : ℤ → Result MessageError ℕ
validate_request_id request_id = do
  raise_if (not (leb_ℤ (pos 0) request_id && leb_ℤ request_id (pos request_id_mask)))
      id_out_of_range
  ok (pos_part request_id)

pub record ReadRequest : Type 0 where
  pub resource : ResourceKind
  pub request_id : ℕ

pub record DecodedResponse : Type 0 where
  pub request_id : ℕ
  pub response : Response
  pub notification : Bool

pub record CorrelatedReadResponse : Type 0 where
  pub resource : ResourceKind
  pub request_id : ℕ
  pub envelope : ResourceResponse

abbrev pub resource_number : ResourceKind → ℕ
resource_number group = 0
resource_number scene = 1
resource_number schedule = 2
resource_number device = 3
resource_number sensor = 4

abbrev pub same_resource : ResourceKind → ResourceKind → Bool
same_resource a b = resource_number a == resource_number b

-- `request_id in …` for the requests and the responses so far
abbrev pub declares : ℕ → List ReadRequest → Bool
declares n requests = any (λ (q : ReadRequest). q.request_id == n) requests

abbrev pub responds : ℕ → List DecodedResponse → Bool
responds n responses = any (λ (r : DecodedResponse). r.request_id == n) responses

-- The loop over `declared`; the first argument holds the requests before.
unfoldable pub check_declared : List ReadRequest → List ReadRequest → Result MessageError (Unit {0})
check_declared seen [] = ok tt
check_declared seen (q ∷ qs) = do
  raise_if (declares q.request_id seen) request_id_repeated
  raise_if (any (λ (p : ReadRequest). same_resource p.resource q.resource) seen) resource_repeated
  check_declared (q ∷ seen) qs

-- The loop over `received`; `matched` holds the responses before.
unfoldable pub check_received :
    List ReadRequest → List DecodedResponse → List DecodedResponse → Result MessageError (Unit {0})
check_received requests matched [] = ok tt
check_received requests matched (r ∷ rs) = do
  raise_if r.notification notification_received
  raise_if (not (declares r.request_id requests)) id_not_declared
  raise_if (responds r.request_id matched) response_repeated
  check_received requests (r ∷ matched) rs

-- `matched[request_id]`
abbrev pub find_response : ℕ → List DecodedResponse → Option DecodedResponse
find_response n [] = none
find_response n (r ∷ rs) =
    let later = find_response n rs in if r.request_id == n then some r else later

module _ (fold_other : ℕ → Text) where
  abbrev pub correlated : ReadRequest → DecodedResponse → CorrelatedReadResponse
  correlated q r = record {
    resource = q.resource;
    request_id = q.request_id;
    envelope = normalize_resource_response fold_other q.resource r.response;
  }

  -- The generator over `declared`. That a request has no response has been ruled out before.
  unfoldable pub correlate_all :
      List ReadRequest → List DecodedResponse → Result MessageError (List CorrelatedReadResponse)
  correlate_all [] responses = ok []
  correlate_all (q ∷ qs) responses = elim (find_response q.request_id responses) [
    | none ↦ err response_missing
    | some r ↦ do rest ← correlate_all qs responses; ok (correlated q r ∷ rest)
  ]

  unfoldable pub correlate_read_responses :
      List ReadRequest → List DecodedResponse → Result MessageError (List CorrelatedReadResponse)
  correlate_read_responses requests responses = do
    raise_if (length requests == 0) no_requests
    check_declared [] requests
    check_received requests [] responses
    raise_if (any (λ (q : ReadRequest). not (responds q.request_id responses)) requests)
        response_missing
    correlate_all requests responses
