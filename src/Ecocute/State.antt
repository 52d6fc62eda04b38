-- ===== src/Ecocute/State.antt =====
-- src/hedp/adapters/ecocute/state.py: observations from Get and INF frames.
pub mod Reading
use Prim.Native.String.{String}
use hedp.Prelude.{
  ℕ, Bool, true, false, not, ◌&&◌, ◌||◌, Option, none, some, List, [], ◌∷◌, map, ◌==◌,
  if◌then◌else◌, all, Result, ok, err, raise_if, ◌>>=◌, ◌>>◌,
}
use hedp.Prelude.Sorting.{sorted}
use hedp.Observations.{
  Quality, good, stale, missing, invalid, estimated, unknown, ObservationTime, ObservedValue,
  observed,
}
use hedp.Ecocute.Echonet.{
  FrameError, not_a_response, duplicate_properties, EchonetProperty, EchonetFrame, information,
  is_water_heater_response,
}
use hedp.Ecocute.Maps.{
  EchonetPropertyMap, is_map_epc, Known, flag, word, number, unknown_value, not_normalized, repeats,
  decode_property_map, decode_known_property, confirmed_property_name,
}

pub data ObservationSource : Type 0 where
  periodic event : ObservationSource

-- The values of the readings.
pub data ReadingValue : Type 0 where
  truth : Bool → ReadingValue
  text : String → ReadingValue
  amount : ℕ → ReadingValue
  epcs : List ℕ → ReadingValue

pub record PropertyObservation : Type 0 where
  pub epc : ℕ
  pub name : Option String
  pub reading : ObservedValue ReadingValue

pub record EcoCuteObservation : Type 0 where
  pub source : ObservationSource
  pub properties : List PropertyObservation
  pub time : ObservationTime
  pub transaction_id : ℕ
  pub quality : Quality

abbrev pub absent : Quality → String → ObservedValue ReadingValue
absent quality reason = observed none quality (some reason)

abbrev pub present : ReadingValue → ObservedValue ReadingValue
present value = observed (some value) good none

abbrev pub read_map : Result FrameError EchonetPropertyMap → ObservedValue ReadingValue
read_map (err _) = absent invalid "property_map_invalid"
read_map (ok m) = present (epcs (sorted (λ e. e) m.properties))

abbrev pub read_known : Result FrameError Known → ObservedValue ReadingValue
read_known (err _) = absent invalid "property_value_invalid"
read_known (ok not_normalized) = absent unknown "property_not_normalized"
read_known (ok unknown_value) = absent unknown "property_value_unknown"
read_known (ok (flag b)) = present (truth b)
read_known (ok (word s)) = present (text s)
read_known (ok (number n)) = present (amount n)

abbrev pub is_nil : List ℕ → Bool
is_nil [] = true
is_nil (_ ∷ _) = false

unfoldable pub read_property : EchonetProperty → ObservedValue ReadingValue
read_property p =
    if is_nil p.value
    then absent missing "property_value_missing"
    else if is_map_epc p.epc
    then read_map (decode_property_map p)
    else read_known (decode_known_property p)

-- `_normalize_property`
abbrev pub normalize_property : EchonetProperty → PropertyObservation
normalize_property p = record {
  epc = p.epc;
  name = confirmed_property_name p.epc;
  reading = read_property p;
}

abbrev pub is_good : Quality → Bool
is_good good = true
is_good _ = false

-- The observation that is built once the frame has been accepted.
abbrev pub observation : EchonetFrame → ObservationTime → EcoCuteObservation
observation f time =
    let properties = map normalize_property f.properties in
    record {
      source = if f.service == information then event else periodic;
      properties = properties;
      time = time;
      transaction_id = f.transaction_id;
      quality =
          if all (λ (p : PropertyObservation). is_good p.reading.quality) properties
          then good
          else unknown;
    }

unfoldable pub normalize_observation :
    EchonetFrame → ObservationTime → Result FrameError EcoCuteObservation
normalize_observation f time = do
  raise_if (not (is_water_heater_response f)) not_a_response
  raise_if (repeats (map (λ (p : EchonetProperty). p.epc) f.properties)) duplicate_properties
  ok (observation f time)
