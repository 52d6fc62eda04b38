-- ===== src/SmartLedz/State/Examples.antt =====
-- Runs of the Smart LEDZ snapshots, and their theorems at them.
use hedp.Prelude.{◌≡◌, ◌↔◌, refl, true, none, some, List, [], ◌∷◌, map, All, ok}
use hedp.Prelude.Int.{ℤ, pos, negsuc}
use hedp.Prelude.Json.{Json, null, integer, text, array, object, no_members, member, from_list}
use hedp.Observations.{good, invalid, unknown, ObservationTime}
use hedp.SmartLedz.State.{
  AliasMap, accepted_members, collect_rows, read_group, read_sensor, response_rows,
  normalize_group_list, normalize_sensor_list, normalize_illuminance,
}
use hedp.SmartLedz.State.Detail.{normalize_scenes, normalize_schedule_detail}
use hedp.SmartLedz.State.Summaries.{AllClean, lists-good_iff}
use hedp.SmartLedz.State.Told.{Told, sensor, no_row, answer_of, IsTold, normalize_sensor_list-told}
use hedp.SmartLedz.State.Kept.{
  IsGroup, IsScene, IsDetail, items-AreSafe, Reports, normalize_illuminance-Reports,
}

abbrev time : ObservationTime
time = record {
  observed_at = "2026-08-01T00:00:00+09:00";
  received_at = "2026-08-01T00:00:01+09:00";
}

abbrev aliases : AliasMap
aliases = (pos 7, "living") ∷ (pos 8, "hall") ∷ []

abbrev numbers : List ℤ → Json
numbers ns = array (from_list (map integer ns))

-- A group that is on, one that is hidden, one without an alias, and one that is too bright.
abbrev group_rows : List Json
group_rows =
    numbers (pos 7 ∷ pos 0 ∷ pos 0 ∷ pos 0 ∷ pos 2 ∷ pos 1 ∷ pos 1 ∷ pos 80 ∷ [])
    ∷ numbers (pos 8 ∷ pos 0 ∷ pos 0 ∷ pos 0 ∷ pos 2 ∷ negsuc 0 ∷ pos 0 ∷ pos 0 ∷ [])
    ∷ numbers (pos 9 ∷ pos 0 ∷ pos 0 ∷ pos 0 ∷ pos 2 ∷ pos 1 ∷ pos 1 ∷ pos 80 ∷ [])
    ∷ numbers (pos 7 ∷ pos 0 ∷ pos 0 ∷ pos 0 ∷ pos 2 ∷ pos 1 ∷ pos 1 ∷ pos 101 ∷ [])
    ∷ []

abbrev answer : Json → Json
answer found = object (member "ErrorCode" (integer (pos 0)) (member "data" found no_members))

abbrev groups : Json
groups = answer (array (from_list group_rows))

abbrev schedule : Json
schedule = answer (
    object (
      member "info"
        (array (
          from_list
            (integer (pos 1) ∷ null ∷ integer (pos 3) ∷ integer (pos 4) ∷ text "weekday" ∷ [])))
        (member "details"
          (array (from_list (numbers (pos 0 ∷ pos 1 ∷ pos 86399 ∷ pos 8 ∷ pos 5 ∷ []) ∷ [])))
          no_members)))

abbrev lux : Json
lux = object (member "ErrorCode" (integer (pos 0)) (member "val" (integer (pos 310)) no_members))

groups-run : normalize_group_list aliases time groups ≡ record {
  items =
      record { target_ref = "living"; power = true; brightness_pct = pos 80; fade_time = pos 2 }
      ∷ [];
  quality = invalid;
  time = time;
  reason = some "invalid_rows";
  invalid_count = 1;
  unmapped_count = 1;
}
unfolding normalize_group_list response_rows accepted_members collect_rows read_group
groups-run = refl

groups-rows : response_rows groups ≡ ok group_rows
unfolding response_rows accepted_members
groups-rows = refl

lists-good_iff_example :
    (((normalize_group_list aliases time groups).quality ≡ good) ↔ (
      (rows : List Json) × (response_rows groups ≡ ok rows) × AllClean (read_group aliases) rows))
    × (((normalize_sensor_list aliases time groups).quality ≡ good) ↔ (
        (rows : List Json) × (response_rows groups ≡ ok rows)
        × AllClean (read_sensor aliases) rows))
lists-good_iff_example = lists-good_iff aliases time groups

items-AreSafe_example :
    All (IsGroup aliases) (normalize_group_list aliases time schedule).items
    × All (IsScene aliases) (normalize_scenes aliases time schedule).items
    × All (IsDetail aliases) (normalize_schedule_detail "hall" aliases time schedule).items
items-AreSafe_example = items-AreSafe aliases "hall" time schedule

normalize_illuminance-Reports_example :
    ((normalize_illuminance "hall" time lux).illuminance ≡ some (pos 310))
    ↔ Reports lux (pos 310) (normalize_illuminance "hall" time lux)
normalize_illuminance-Reports_example = normalize_illuminance-Reports "hall" time lux (pos 310)

-- A sensor that is online, something that is no row, and a sensor without an alias.
abbrev told : List Told
told =
    sensor
      (record { id = pos 7; device_type = pos 3; special_type_code = pos 1; online = some true })
    ∷ no_row
    ∷ sensor (record { id = pos 9; device_type = pos 3; special_type_code = pos 1; online = none })
    ∷ []

normalize_sensor_list-told_example :
    IsTold aliases told (normalize_sensor_list aliases time (answer_of (pos 0) told))
    × (let refused = normalize_sensor_list aliases time (answer_of (pos 5) told) in
        (refused.items ≡ []) × (refused.quality ≡ unknown))
normalize_sensor_list-told_example = normalize_sensor_list-told aliases time told (pos 5) refl
