-- ===== src/SmartLedz/State.antt =====
-- src/hedp/adapters/smartledz/state.py: the snapshots that are made of responses. The loops over rows
-- are one loop, `collect_rows`; its body says of a row whether it is kept, or why it is passed over.
pub mod Detail
pub mod Rows
pub mod Summaries
pub mod Told
pub mod Kept
mod Examples
use Prim.Native.String.{String}
use hedp.Prelude.{
  ℕ, ◌+◌, Bool, true, false, not, ◌&&◌, ◌||◌, Option, none, some, List, [], ◌∷◌, ◌++◌, ltb, ◌==◌,
  if◌then◌else◌, length, get_or, Result, ok, err, raise_if, ◌>>=◌, ◌>>◌,
}
use hedp.Prelude.Int.{ℤ, pos, ltb_ℤ, leb_ℤ, eq_ℤ}
use hedp.Prelude.Json.{Json, null, Members, get, as_list, as_object, as_integer, as_text}
use hedp.Observations.{Quality, good, missing, invalid, unknown, ObservationTime}

pub record ParsedCollection (T : Type 0) : Type 0 where
  pub items : List T
  pub quality : Quality
  pub time : ObservationTime
  pub reason : Option String
  pub invalid_count : ℕ
  pub unmapped_count : ℕ

pub record GroupState : Type 0 where
  pub target_ref : String
  pub power : Bool
  pub brightness_pct : ℤ
  pub fade_time : ℤ

pub record SensorState : Type 0 where
  pub target_ref : String
  pub device_type : ℤ
  pub special_type_code : ℤ
  pub online : Option Bool

pub record IlluminanceReading : Type 0 where
  pub target_ref : String
  pub illuminance : Option ℤ
  pub quality : Quality
  pub time : ObservationTime
  pub reason : Option String

abbrev pub AliasMap : Type 0
AliasMap = List (ℤ × String)

-- `aliases.get(source_id)`
abbrev pub find_alias : AliasMap → ℤ → Option String
find_alias [] id = none
find_alias ((key, target) ∷ others) id =
    let rest = find_alias others id in if eq_ℤ key id then some target else rest

-- Why a loop goes on to the next row: the row is counted as invalid or unmapped, or only left out.
pub data RowFault : Type 0 where
  invalid_row unmapped_row skipped_row : RowFault

abbrev pub required : {A : Type 0} → Option A → Result RowFault A
required none = err invalid_row
required (some v) = ok v

abbrev pub target_of : AliasMap → ℤ → Result RowFault String
target_of aliases id = elim (find_alias aliases id) [
  | none ↦ err unmapped_row
  | some target ↦ ok target
]

-- `_row`
abbrev pub row_of : Json → ℕ → Option (List Json)
row_of value minimum_length = elim (as_list value) [
  | none ↦ none
  | some vs ↦ if ltb (length vs) minimum_length then none else some vs
]

-- `_integer(row[i])`
abbrev pub integer_at : List Json → ℕ → Result RowFault ℤ
integer_at row i = required (as_integer (get_or row i null))

abbrev pub is_bit : ℤ → Bool
is_bit n = eq_ℤ n (pos 0) || eq_ℤ n (pos 1)

abbrev pub in_range : ℕ → ℤ → Bool
in_range top n = leb_ℤ (pos 0) n && leb_ℤ n (pos top)

pub record Collected (T : Type 0) : Type 0 where
  pub items : List T
  pub invalid_count : ℕ
  pub unmapped_count : ℕ

abbrev pub nothing_collected : {T : Type 0} → Collected T
nothing_collected = record { items = []; invalid_count = 0; unmapped_count = 0 }

abbrev pub add_row : {T : Type 0} → Collected T → Result RowFault T → Collected T
add_row c (ok item) = record {
  items = c.items ++ item ∷ [];
  invalid_count = c.invalid_count;
  unmapped_count = c.unmapped_count;
}
add_row c (err invalid_row) = record {
  items = c.items;
  invalid_count = c.invalid_count + 1;
  unmapped_count = c.unmapped_count;
}
add_row c (err unmapped_row) = record {
  items = c.items;
  invalid_count = c.invalid_count;
  unmapped_count = c.unmapped_count + 1;
}
add_row c (err skipped_row) = c

unfoldable pub collect_rows :
    {T : Type 0} → (Json → Result RowFault T) → List Json → Collected T → Collected T
collect_rows read [] c = c
collect_rows read (candidate ∷ rows) c = collect_rows read rows (add_row c (read candidate))

-- `_collection_quality`
abbrev pub collection_quality : ℕ → ℕ → Quality × Option String
collection_quality invalid_count unmapped_count =
    if not (invalid_count == 0)
    then (invalid, some "invalid_rows")
    else if not (unmapped_count == 0)
    then (unknown, some "target_alias_missing")
    else (good, none)

abbrev pub parsed : {T : Type 0} → Collected T → ObservationTime → ParsedCollection T
parsed c t =
    let (quality, reason) = collection_quality c.invalid_count c.unmapped_count in
    record {
      items = c.items;
      quality = quality;
      time = t;
      reason = reason;
      invalid_count = c.invalid_count;
      unmapped_count = c.unmapped_count;
    }

abbrev pub parse_rows :
    {T : Type 0} → (Json → Result RowFault T) → List Json → ObservationTime → ParsedCollection T
parse_rows read rows t = parsed (collect_rows read rows nothing_collected) t

-- `ParsedCollection((), quality, time, reason)`
abbrev pub no_items : {T : Type 0} → Quality × Option String → ObservationTime → ParsedCollection T
no_items (quality, reason) t = record {
  items = [];
  quality = quality;
  time = t;
  reason = reason;
  invalid_count = 0;
  unmapped_count = 0;
}

-- The tests on `ErrorCode`, and the mapping that passed them.
unfoldable pub accepted_members : Json → Result (Quality × Option String) Members
accepted_members response = elim (as_object response) [
  | none ↦ err (invalid, some "response_not_object")
  | some members ↦ elim (as_integer (get members "ErrorCode")) [
    | none ↦ err (missing, some "error_code_missing_or_invalid")
    | some code ↦
        if not (eq_ℤ code (pos 0))
        then err (unknown, some "gateway_rejected_request")
        else ok members
  ]
]

abbrev pub expected_data : {A : Type 0} → Option A → Result (Quality × Option String) A
expected_data none = err (missing, some "data_missing_or_invalid")
expected_data (some v) = ok v

-- `_response_data(response, list)` and `_response_data(response, dict)`
unfoldable pub response_rows : Json → Result (Quality × Option String) (List Json)
response_rows response = do
  members ← accepted_members response
  expected_data (as_list (get members "data"))

unfoldable pub response_object : Json → Result (Quality × Option String) Members
response_object response = do
  members ← accepted_members response
  expected_data (as_object (get members "data"))

unfoldable pub read_group : AliasMap → Json → Result RowFault GroupState
read_group aliases candidate = do
  row ← required (row_of candidate 8)
  source_id ← integer_at row 0
  fade_time ← integer_at row 4
  sort_order ← integer_at row 5
  power ← integer_at row 6
  brightness ← integer_at row 7
  raise_if (not (is_bit power) || not (in_range 100 brightness)) invalid_row
  raise_if (ltb_ℤ sort_order (pos 0)) skipped_row
  target ← target_of aliases source_id
  ok record {
    target_ref = target;
    power = eq_ℤ power (pos 1);
    brightness_pct = brightness;
    fade_time = fade_time;
  }

abbrev pub parse_data :
    {T : Type 0}
    → (Json → Result RowFault T)
    → Result (Quality × Option String) (List Json)
    → ObservationTime
    → ParsedCollection T
parse_data read (err fault) t = no_items fault t
parse_data read (ok rows) t = parse_rows read rows t

unfoldable pub normalize_group_list :
    AliasMap → ObservationTime → Json → ParsedCollection GroupState
normalize_group_list aliases t response = parse_data (read_group aliases) (response_rows response) t

-- `online_raw`, and what it says; the row may end before it.
abbrev pub online_of : Option ℤ → Result RowFault (Option Bool)
online_of none = ok none
online_of (some n) = if is_bit n then ok (some (eq_ℤ n (pos 1))) else err invalid_row

unfoldable pub read_sensor : AliasMap → Json → Result RowFault SensorState
read_sensor aliases candidate = do
  row ← required (row_of candidate 12)
  source_id ← integer_at row 0
  device_type ← integer_at row 4
  special_type ← integer_at row 5
  online ← online_of (as_integer (get_or row 13 null))
  target ← target_of aliases source_id
  ok record {
    target_ref = target;
    device_type = device_type;
    special_type_code = special_type;
    online = online;
  }

unfoldable pub normalize_sensor_list :
    AliasMap → ObservationTime → Json → ParsedCollection SensorState
normalize_sensor_list aliases t response =
    parse_data (read_sensor aliases) (response_rows response) t

abbrev pub no_reading : String → ObservationTime → Quality × Option String → IlluminanceReading
no_reading target t (quality, reason) = record {
  target_ref = target;
  illuminance = none;
  quality = quality;
  time = t;
  reason = reason;
}

abbrev pub judge_illuminance : String → ObservationTime → Option ℤ → IlluminanceReading
judge_illuminance target t none = no_reading target t (missing, some "illuminance_missing")
judge_illuminance target t (some n) =
    if eq_ℤ n (pos 9999)
    then no_reading target t (missing, some "no_usable_value")
    else if ltb_ℤ n (pos 0)
    then no_reading target t (invalid, some "illuminance_out_of_range")
    else record {
      target_ref = target;
      illuminance = some n;
      quality = good;
      time = t;
      reason = none;
    }

unfoldable pub normalize_illuminance : String → ObservationTime → Json → IlluminanceReading
normalize_illuminance target t response = elim (accepted_members response) [
  | err fault ↦ no_reading target t fault
  | ok members ↦ judge_illuminance target t (as_integer (get members "val"))
]
