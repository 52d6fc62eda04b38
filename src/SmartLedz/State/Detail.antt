-- ===== src/SmartLedz/State/Detail.antt =====
-- src/hedp/adapters/smartledz/state.py: the detail of a group and of a schedule.
use Prim.Native.String.{String}
use hedp.Prelude.{
  Bool, not, ◌||◌, none, some, List, [], ◌∷◌, get_or, Result, ok, err, raise_if, ◌>>=◌, ◌>>◌,
}
use hedp.Prelude.Int.{ℤ, pos, ltb_ℤ, eq_ℤ}
use hedp.Prelude.Json.{Json, null, get, as_list, as_text}
use hedp.Observations.{Quality, missing, invalid, ObservationTime}
use hedp.SmartLedz.State.{
  ParsedCollection, AliasMap, RowFault, invalid_row, skipped_row, required, target_of, row_of,
  integer_at, is_bit, in_range, parse_rows, no_items, response_object,
}

pub record SceneDefinition : Type 0 where
  pub target_ref : String
  pub icon : ℤ
  pub sort_order : ℤ
  pub brightness_pct : ℤ
  pub color_temperature_100k : ℤ
  pub rgb : ℤ

pub record ScheduleDefinition : Type 0 where
  pub target_ref : String
  pub icon : ℤ
  pub active : Bool
  pub workday_mask : String
  pub sort_order : ℤ

pub record ScheduleStep : Type 0 where
  pub sort_order : ℤ
  pub seconds_from_midnight : ℤ
  pub scene_ref : String
  pub scene_icon : ℤ

pub record ScheduleDetail : Type 0 where
  pub target_ref : String
  pub active : Bool
  pub icon : ℤ
  pub sort_order : ℤ
  pub workday_mask : String
  pub steps : List ScheduleStep
  pub quality : Quality

pub record DeviceReference : Type 0 where
  pub target_ref : String

pub record GroupDetail : Type 0 where
  pub scenes : ParsedCollection SceneDefinition
  pub schedules : ParsedCollection ScheduleDefinition
  pub devices : ParsedCollection DeviceReference

unfoldable pub read_scene : AliasMap → Json → Result RowFault SceneDefinition
read_scene aliases candidate = do
  row ← required (row_of candidate 8)
  source_id ← integer_at row 0
  icon ← integer_at row 2
  sort_order ← integer_at row 3
  brightness ← integer_at row 4
  temperature ← integer_at row 5
  rgb ← integer_at row 6
  raise_if
      (ltb_ℤ sort_order (pos 0) || not (in_range 100 brightness) || not (in_range 0xFFFFFF rgb))
      invalid_row
  target ← target_of aliases source_id
  ok record {
    target_ref = target;
    icon = icon;
    sort_order = sort_order;
    brightness_pct = brightness;
    color_temperature_100k = temperature;
    rgb = rgb;
  }

unfoldable pub read_schedule : AliasMap → Json → Result RowFault ScheduleDefinition
read_schedule aliases candidate = do
  row ← required (row_of candidate 6)
  source_id ← integer_at row 0
  icon ← integer_at row 2
  active ← integer_at row 3
  sort_order ← integer_at row 5
  raise_if (not (is_bit active)) invalid_row
  workday ← required (as_text (get_or row 4 null))
  raise_if (ltb_ℤ sort_order (pos 0)) skipped_row
  target ← target_of aliases source_id
  ok record {
    target_ref = target;
    icon = icon;
    active = eq_ℤ active (pos 1);
    workday_mask = workday;
    sort_order = sort_order;
  }

unfoldable pub read_device : AliasMap → Json → Result RowFault DeviceReference
read_device aliases candidate = do
  row ← required (row_of candidate 1)
  source_id ← integer_at row 0
  target ← target_of aliases source_id
  ok record { target_ref = target }

abbrev pub parse_part :
    {T : Type 0} → (Json → Result RowFault T) → String → Json → ObservationTime → ParsedCollection T
parse_part read reason rows t = elim (as_list rows) [
  | none ↦ no_items (missing, some reason) t
  | some candidates ↦ parse_rows read candidates t
]

unfoldable pub normalize_scenes :
    AliasMap → ObservationTime → Json → ParsedCollection SceneDefinition
normalize_scenes aliases t rows = parse_part (read_scene aliases) "scenes_missing" rows t

unfoldable pub normalize_schedules :
    AliasMap → ObservationTime → Json → ParsedCollection ScheduleDefinition
normalize_schedules aliases t rows = parse_part (read_schedule aliases) "schedules_missing" rows t

unfoldable pub normalize_device_references :
    AliasMap → ObservationTime → Json → ParsedCollection DeviceReference
normalize_device_references aliases t rows =
    parse_part (read_device aliases) "devices_missing" rows t

unfoldable pub normalize_group_detail :
    AliasMap → AliasMap → AliasMap → ObservationTime → Json → GroupDetail
normalize_group_detail scene_aliases schedule_aliases device_aliases t response =
    elim (response_object response) [
      | err fault ↦ record {
        scenes = no_items fault t;
        schedules = no_items fault t;
        devices = no_items fault t;
      }
      | ok members ↦ record {
        scenes = normalize_scenes scene_aliases t (get members "scenes");
        schedules = normalize_schedules schedule_aliases t (get members "schedules");
        devices = normalize_device_references device_aliases t (get members "devices");
      }
    ]

unfoldable pub read_step : AliasMap → Json → Result RowFault ScheduleStep
read_step aliases candidate = do
  row ← required (row_of candidate 5)
  step_sort ← integer_at row 1
  seconds ← integer_at row 2
  source_scene_id ← integer_at row 3
  scene_icon ← integer_at row 4
  raise_if (not (in_range 86399 seconds)) invalid_row
  scene_ref ← target_of aliases source_scene_id
  ok record {
    sort_order = step_sort;
    seconds_from_midnight = seconds;
    scene_ref = scene_ref;
    scene_icon = scene_icon;
  }

-- What `info` says of a schedule, its steps still to come.
pub record ScheduleInfo : Type 0 where
  pub active : Bool
  pub icon : ℤ
  pub sort_order : ℤ
  pub workday_mask : String

abbrev pub read_info : List Json → Result RowFault ScheduleInfo
read_info info = do
  active ← integer_at info 0
  raise_if (not (is_bit active)) invalid_row
  icon ← integer_at info 2
  sort_order ← integer_at info 3
  workday ← required (as_text (get_or info 4 null))
  ok record {
    active = eq_ℤ active (pos 1);
    icon = icon;
    sort_order = sort_order;
    workday_mask = workday;
  }

abbrev pub invalid_info : ObservationTime → ParsedCollection ScheduleDetail
invalid_info t = record {
  items = [];
  quality = invalid;
  time = t;
  reason = some "schedule_info_invalid";
  invalid_count = 1;
  unmapped_count = 0;
}

abbrev pub schedule_detail : String → ScheduleInfo → ParsedCollection ScheduleStep → ScheduleDetail
schedule_detail target info steps = record {
  target_ref = target;
  active = info.active;
  icon = info.icon;
  sort_order = info.sort_order;
  workday_mask = info.workday_mask;
  steps = steps.items;
  quality = steps.quality;
}

unfoldable pub detail_of :
    String
    → ObservationTime
    → Result RowFault ScheduleInfo
    → ParsedCollection ScheduleStep
    → ParsedCollection ScheduleDetail
detail_of target t (err _) steps = invalid_info t
detail_of target t (ok info) steps = record {
  items = schedule_detail target info steps ∷ [];
  quality = steps.quality;
  time = t;
  reason = steps.reason;
  invalid_count = steps.invalid_count;
  unmapped_count = steps.unmapped_count;
}

unfoldable pub normalize_schedule_detail :
    String → AliasMap → ObservationTime → Json → ParsedCollection ScheduleDetail
normalize_schedule_detail target scene_aliases t response = elim (response_object response) [
  | err fault ↦ no_items fault t
  | ok members ↦ elim (row_of (get members "info") 5) [
    | none ↦ no_items (missing, some "schedule_detail_missing") t
    | some info ↦ elim (as_list (get members "details")) [
      | none ↦ no_items (missing, some "schedule_detail_missing") t
      | some details ↦
          detail_of target t (read_info info) (parse_rows (read_step scene_aliases) details t)
    ]
  ]
]
