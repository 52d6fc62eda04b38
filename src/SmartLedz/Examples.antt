-- ===== src/SmartLedz/Examples.antt =====
-- Runs of the Smart LEDZ responses, their correlation and the read commands, and the theorems at them.
use hedp.Prelude.{
  ℕ, ◌≡◌, ◌↔◌, refl, true, false, none, some, List, [], ◌∷◌, ok, err, any, length, ◌+◌,
}
use hedp.Prelude.Int.{pos}
use hedp.Prelude.Texts.{codes}
use hedp.Observations.{good}
use hedp.SmartLedz.Envelope.{
  Text, Key, name, other_key, Value, integer, other_value, mapping, not_object, group, device,
  same_text, sort_texts, insert_text, is_sensitive, kept_names, normalize_resource_response,
}
use hedp.SmartLedz.Envelope.Words.{capital, dash, marks}
use hedp.SmartLedz.Envelope.Redaction.{error_codes, normalize_resource_response-joined}
use hedp.SmartLedz.Messages.{
  ReadRequest, DecodedResponse, CorrelatedReadResponse, check_declared, check_received,
  correlate_all, correlated, correlate_read_responses, response_missing, response_repeated,
}
use hedp.SmartLedz.Messages.OneToOne.{
  IsComplete, AnswersAll, correlate_read_responses-accepts, correlate_read_responses-AnswersAll,
}
use hedp.SmartLedz.Reader.{ReadBatch}

abbrev same : ℕ → Text
same c = c ∷ []

abbrev items : List (Key × Value)
items =
    (name (codes "ErrorCode"), integer (pos 0))
    ∷ (name (codes "level"), integer (pos 40))
    ∷ (name (codes "deviceMACAddress"), other_value)
    ∷ (name (codes "Bright"), integer (pos 1))
    ∷ (other_key, other_value)
    ∷ []

sensitive-words :
    (is_sensitive same (codes "deviceMACAddress") ≡ true)
    × (is_sensitive same (codes "Group-Id") ≡ true)
    × (is_sensitive same (codes "identity") ≡ false)
unfolding is_sensitive
sensitive-words = (refl, refl, refl)

normalize-items : normalize_resource_response same group (mapping items) ≡ record {
  resource = group;
  quality = good;
  reason = none;
  error_code = some (pos 0);
  unknown_fields = codes "Bright" ∷ codes "level" ∷ [];
  redacted_field_count = 2;
}
unfolding normalize_resource_response kept_names is_sensitive sort_texts insert_text
normalize-items = refl

abbrev named_items : List (Key × Value)
named_items =
    (name (codes "ErrorCode"), integer (pos 0))
    ∷ (name (codes "deviceMac-address"), other_value)
    ∷ (name (codes "level"), integer (pos 40))
    ∷ []

normalize_resource_response-joined_example :
    let r = normalize_resource_response same group (mapping named_items) in
    ((any (same_text (codes "deviceMac-address")) r.unknown_fields ≡ true)
      ↔ (any marks (codes "device" ∷ codes "mac" ∷ codes "address" ∷ []) ≡ false))
    × (length r.unknown_fields + r.redacted_field_count + error_codes named_items
        ≡ length named_items)
normalize_resource_response-joined_example =
    normalize_resource_response-joined same group named_items 0x64 (codes "evice")
      ((capital, codes "mac") ∷ (dash, codes "address") ∷ [])
      (refl, (refl, (refl, (refl, (refl, (refl, tt))))))
      ((refl, (refl, (refl, tt))), ((refl, (refl, (refl, (refl, (refl, (refl, (refl, tt))))))), tt))
      refl

abbrev requests : List ReadRequest
requests =
    record { resource = group; request_id = 3 } ∷ record { resource = device; request_id = 1 } ∷ []

abbrev group_answer : DecodedResponse
group_answer = record { request_id = 3; response = mapping items; notification = false }

abbrev device_answer : DecodedResponse
device_answer = record { request_id = 1; response = not_object; notification = false }

abbrev answers : List CorrelatedReadResponse
answers =
    correlated same (record { resource = group; request_id = 3 }) group_answer
    ∷ correlated same (record { resource = device; request_id = 1 }) device_answer
    ∷ []

correlate-swapped :
    correlate_read_responses same requests (device_answer ∷ group_answer ∷ []) ≡ ok answers
unfolding correlate_read_responses check_declared check_received correlate_all
correlate-swapped = refl

correlate-lost : correlate_read_responses same requests (device_answer ∷ []) ≡ err response_missing
unfolding correlate_read_responses check_declared check_received correlate_all
correlate-lost = refl

correlate-twice :
    correlate_read_responses same requests (device_answer ∷ device_answer ∷ [])
    ≡ err response_repeated
unfolding correlate_read_responses check_declared check_received correlate_all
correlate-twice = refl

correlate_read_responses-accepts_example :
    ((cs : List CorrelatedReadResponse) × (correlate_read_responses same requests
          (device_answer ∷ group_answer ∷ [])
        ≡ ok cs))
    ↔ IsComplete requests (device_answer ∷ group_answer ∷ [])
correlate_read_responses-accepts_example =
    correlate_read_responses-accepts same (device_answer ∷ group_answer ∷ []) requests

correlate_read_responses-AnswersAll_example :
    AnswersAll same (device_answer ∷ group_answer ∷ []) requests answers
correlate_read_responses-AnswersAll_example =
    correlate_read_responses-AnswersAll same (device_answer ∷ group_answer ∷ []) requests answers
      correlate-swapped

abbrev batch : ReadBatch
batch = record {
  group_response = mapping items;
  scene_response = not_object;
  schedule_response = mapping [];
  device_response = mapping items;
  sensor_response = not_object;
  observed_at = "2026-08-01T00:00:00+09:00";
  received_at = "2026-08-01T00:00:01+09:00";
}
