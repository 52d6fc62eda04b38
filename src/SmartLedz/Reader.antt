-- ===== src/SmartLedz/Reader.antt =====
-- src/hedp/adapters/smartledz/reader.py and the `normalize_…_response` of normalizer.py: a batch of
-- responses, each under its own resource.
use Prim.Native.String.{String}
use hedp.Prelude.{ℕ, ◌≡◌, ◌↔◌, List, some}
use hedp.Prelude.Int.{pos}
use hedp.Observations.{good}
use hedp.SmartLedz.Envelope.{
  Text, Key, Value, integer, Response, mapping, group, scene, schedule, device, sensor,
  ResourceResponse, find_error_code, normalize_resource_response,
}
use hedp.SmartLedz.Envelope.Redaction.{normalize_resource_response_good_iff}

pub record ReadBatch : Type 0 where
  pub group_response : Response
  pub scene_response : Response
  pub schedule_response : Response
  pub device_response : Response
  pub sensor_response : Response
  pub observed_at : String
  pub received_at : String

pub record SmartLedzReading : Type 0 where
  pub groups : ResourceResponse
  pub scenes : ResourceResponse
  pub schedules : ResourceResponse
  pub devices : ResourceResponse
  pub sensors : ResourceResponse
  pub observed_at : String
  pub received_at : String

-- A response whose `ErrorCode` is the integer 0.
abbrev pub IsAccepted : Response → Type 0
IsAccepted response =
    (items : List (Key × Value)) × (response ≡ mapping items)
    × (find_error_code items ≡ some (integer (pos 0)))

module _ (fold_other : ℕ → Text) where
  abbrev pub normalize_group_response : Response → ResourceResponse
  normalize_group_response = normalize_resource_response fold_other group

  abbrev pub normalize_scene_response : Response → ResourceResponse
  normalize_scene_response = normalize_resource_response fold_other scene

  abbrev pub normalize_schedule_response : Response → ResourceResponse
  normalize_schedule_response = normalize_resource_response fold_other schedule

  abbrev pub normalize_device_response : Response → ResourceResponse
  normalize_device_response = normalize_resource_response fold_other device

  abbrev pub normalize_sensor_response : Response → ResourceResponse
  normalize_sensor_response = normalize_resource_response fold_other sensor

  unfoldable pub normalize_read_batch : ReadBatch → SmartLedzReading
  normalize_read_batch b = record {
    groups = normalize_group_response b.group_response;
    scenes = normalize_scene_response b.scene_response;
    schedules = normalize_schedule_response b.schedule_response;
    devices = normalize_device_response b.device_response;
    sensors = normalize_sensor_response b.sensor_response;
    observed_at = b.observed_at;
    received_at = b.received_at;
  }

  -- Each envelope of a reading is filed under its own resource, and is good exactly if the response of
  -- that resource, whatever the others are, is an object whose `ErrorCode` is the integer 0.
  pub normalize_read_batch_separate :
      (b : ReadBatch)
      → let r = normalize_read_batch b in
        (((r.groups.quality ≡ good) ↔ IsAccepted b.group_response) × (r.groups.resource ≡ group))
        × (((r.scenes.quality ≡ good) ↔ IsAccepted b.scene_response) × (r.scenes.resource ≡ scene))
        × (((r.schedules.quality ≡ good) ↔ IsAccepted b.schedule_response)
            × (r.schedules.resource ≡ schedule))
        × (((r.devices.quality ≡ good) ↔ IsAccepted b.device_response)
            × (r.devices.resource ≡ device))
        × (((r.sensors.quality ≡ good) ↔ IsAccepted b.sensor_response)
            × (r.sensors.resource ≡ sensor))
  unfolding normalize_read_batch
  normalize_read_batch_separate b = (
    normalize_resource_response_good_iff fold_other group b.group_response,
    normalize_resource_response_good_iff fold_other scene b.scene_response,
    normalize_resource_response_good_iff fold_other schedule b.schedule_response,
    normalize_resource_response_good_iff fold_other device b.device_response,
    normalize_resource_response_good_iff fold_other sensor b.sensor_response,
  )
