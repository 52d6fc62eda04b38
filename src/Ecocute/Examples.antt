-- ===== src/Ecocute/Examples.antt =====
-- Runs of the EcoCute code on small frames, and its theorems at those frames.
use hedp.Prelude.{
  ◌≡◌, refl, true, false, none, some, List, [], ◌∷◌, map, arith, ◌==◌, get_or, any, ok, err,
}
use hedp.Prelude.Bytes.{Bytes}
use hedp.Prelude.Int.{ℤ, pos, negsuc}
use hedp.Observations.{IsoReader, ObservationTime, good}
use hedp.Ecocute.Echonet.{
  EchonetProperty, EchonetFrame, parse_frame, parse_properties, build_get_request,
  is_water_heater_response, header_truncated, bad_transaction_id, repeated_epcs, bitmap_count,
}
use hedp.Ecocute.Echonet.Print.{frame_bytes, frame_bytes-parse_frame}
use hedp.Ecocute.Echonet.RoundTrip.{parse_frame-frame_bytes}
use hedp.Ecocute.Maps.{
  EchonetPropertyMap, EchonetPropertyMaps, has_bit, bitmap_epc, bitmap_epcs, bitmap_row, repeats,
  map_epcs, decode_map_data, decode_property_map, decode_known_property,
}
use hedp.Ecocute.Maps.Bitmap.{bitmap_property, any-decode_property_map}
use hedp.Ecocute.State.{normalize_observation, observation, read_property}
use hedp.Ecocute.State.Reading.{Describes, normalize_observation-Describes}

-- A Get response of the water heater with 80 = on and E1 = 180 l.
abbrev response : Bytes
response =
    0x10 ∷ 0x81 ∷ 0 ∷ 7 ∷ 0x02 ∷ 0x6B ∷ 1 ∷ 0x05 ∷ 0xFF ∷ 1 ∷ 0x72 ∷ 2 ∷ 0x80 ∷ 1 ∷ 0x30 ∷ 0xE1 ∷ 2
    ∷ 0 ∷ 180 ∷ []

abbrev power : EchonetProperty
power = record { epc = 0x80; value = 0x30 ∷ [] }

abbrev hot_water : EchonetProperty
hot_water = record { epc = 0xE1; value = 0 ∷ 180 ∷ [] }

abbrev response_frame : EchonetFrame
response_frame = record {
  transaction_id = 7;
  source_object = 0x02 ∷ 0x6B ∷ 1 ∷ [];
  destination_object = 0x05 ∷ 0xFF ∷ 1 ∷ [];
  service = 0x72;
  properties = power ∷ hot_water ∷ [];
}

parse-response : parse_frame response ≡ ok response_frame
unfolding parse_frame parse_properties
parse-response = refl

parse-truncated :
    parse_frame (0x10 ∷ 0x81 ∷ 0 ∷ 7 ∷ 0x02 ∷ 0x6B ∷ 1 ∷ 0x05 ∷ 0xFF ∷ 1 ∷ 0x72 ∷ 1 ∷ 0x80 ∷ [])
    ≡ err header_truncated
unfolding parse_frame parse_properties
parse-truncated = refl

frame_bytes-parse_frame_example : frame_bytes response_frame ≡ response
frame_bytes-parse_frame_example =
    frame_bytes-parse_frame response response_frame (omega arith) parse-response

parse_frame-frame_bytes_example : parse_frame (frame_bytes response_frame) ≡ ok response_frame
parse_frame-frame_bytes_example = parse_frame-frame_bytes response_frame (omega arith) refl refl

abbrev asked_epcs : List ℤ
asked_epcs = pos 0x80 ∷ pos 0xE1 ∷ []

abbrev request : Bytes
request =
    0x10 ∷ 0x81 ∷ 1 ∷ 2 ∷ 0x05 ∷ 0xFF ∷ 1 ∷ 0x02 ∷ 0x6B ∷ 1 ∷ 0x62 ∷ 2 ∷ 0x80 ∷ 0 ∷ 0xE1 ∷ 0 ∷ []

build-request : build_get_request (pos 258) asked_epcs (pos 1) ≡ ok request
unfolding build_get_request
build-request = refl

build-refused :
    (build_get_request (negsuc 0) asked_epcs (pos 1) ≡ err bad_transaction_id)
    × (build_get_request (pos 1) (pos 5 ∷ pos 5 ∷ []) (pos 1) ≡ err repeated_epcs)
unfolding build_get_request
build-refused = (refl, refl)

-- Sixteen bitmap bytes, the first two of which are full: 16 EPCs.
abbrev rows : Bytes
rows = 0xFF ∷ 0xFF ∷ 0 ∷ 0 ∷ 0 ∷ 0 ∷ 0 ∷ 0 ∷ 0 ∷ 0 ∷ 0 ∷ 0 ∷ 0 ∷ 0 ∷ 0 ∷ 0 ∷ []

abbrev full_map : EchonetPropertyMap
full_map = record {
  epc = 0x9F;
  properties =
      0x80 ∷ 0x90 ∷ 0xA0 ∷ 0xB0 ∷ 0xC0 ∷ 0xD0 ∷ 0xE0 ∷ 0xF0 ∷ 0x81 ∷ 0x91 ∷ 0xA1 ∷ 0xB1 ∷ 0xC1
      ∷ 0xD1 ∷ 0xE1 ∷ 0xF1 ∷ [];
}

decode-rows : decode_property_map (bitmap_property 0x9F 16 rows) ≡ ok full_map
unfolding decode_property_map decode_map_data map_epcs bitmap_epcs bitmap_row repeats
decode-rows = refl

decode-miscounted : decode_property_map (bitmap_property 0x9F 17 rows) ≡ err bitmap_count
unfolding decode_property_map decode_map_data map_epcs bitmap_epcs bitmap_row
decode-miscounted = refl

any-decode_property_map_example :
    any (λ x. bitmap_epc 1 3 == x) full_map.properties ≡ has_bit (get_or rows 1 0) 3
any-decode_property_map_example =
    any-decode_property_map 0x9F 16 rows full_map 1 3 (omega arith) decode-rows (omega arith)
      (omega arith)

abbrev short_map : EchonetPropertyMap
short_map = record { epc = 0x9E; properties = 0xB0 ∷ 0xD1 ∷ [] }

decode-list :
    decode_property_map (record { epc = 0x9E; value = 2 ∷ 0xB0 ∷ 0xD1 ∷ [] }) ≡ ok short_map
unfolding decode_property_map decode_map_data map_epcs repeats
decode-list = refl

abbrev both_maps : EchonetPropertyMaps
both_maps = record { inf = none; set = some short_map; get = some full_map }

abbrev seconds_of_text : IsoReader
seconds_of_text text = some (0, true)

abbrev now : ObservationTime
now = record {
  observed_at = "2026-08-01T00:00:00+09:00";
  received_at = "2026-08-01T00:00:00+09:00";
}

normalize-response : normalize_observation response_frame now ≡ ok (observation response_frame now)
unfolding normalize_observation is_water_heater_response repeats
normalize-response = refl

observation-good : (observation response_frame now).quality ≡ good
unfolding read_property decode_known_property
observation-good = refl

normalize_observation-Describes_example :
    (is_water_heater_response response_frame ≡ true)
    × (repeats (map (λ (p : EchonetProperty). p.epc) response_frame.properties) ≡ false)
    × Describes seconds_of_text response_frame (observation response_frame now)
normalize_observation-Describes_example =
    normalize_observation-Describes seconds_of_text response_frame now
      (observation response_frame now) normalize-response
