-- ===== src/Metrics.antt =====
-- src/hedp/operations/operational_metrics.py: the fixed vocabulary, the metrics, and their records. An
-- elapsed time is known by its comparisons with whole seconds, which is all the code asks of the float.
pub mod Records
pub mod Journal
pub mod Summary
pub mod Lock
mod Examples
mod Locking
use Prim.Native.String.{String}
use hedp.Prelude.{
  ℕ, Bool, true, false, not, ◌&&◌, Option, none, some, List, [], ◌∷◌, if◌then◌else◌, Result, ok,
  err, raise_if, ◌>>=◌, ◌>>◌,
}
use hedp.Prelude.Int.{pos}
use hedp.Prelude.Json.{Json, null, integer, text, Members, no_members, member}

pub data OperationName : Type 0 where
  device_realtime modbus_realtime switchbot equipment daily_health daily : OperationName

pub data OperationOutcome : Type 0 where
  completed skipped timed_out failed : OperationOutcome

pub data FailureCategory : Type 0 where
  no_failure lock_held timeout network invalid_response configuration : FailureCategory
  internal unknown : FailureCategory

pub data DatabaseProbeStatus : Type 0 where
  probe_ok locked unavailable : DatabaseProbeStatus

-- The `ValueError`s, and the `TypeError` of a value that cannot be hashed.
pub data MetricError : Type 0 where
  negative_elapsed completed_with_failure category_required timeout_required : MetricError
  unhashable : MetricError

abbrev pub name_value : OperationName → String
name_value device_realtime = "device_realtime"
name_value modbus_realtime = "modbus_realtime"
name_value switchbot = "switchbot"
name_value equipment = "equipment"
name_value daily_health = "daily_health"
name_value daily = "daily"

abbrev pub outcome_value : OperationOutcome → String
outcome_value completed = "completed"
outcome_value skipped = "skipped"
outcome_value timed_out = "timed_out"
outcome_value failed = "failed"

abbrev pub category_value : FailureCategory → String
category_value no_failure = "none"
category_value lock_held = "lock_held"
category_value timeout = "timeout"
category_value network = "network"
category_value invalid_response = "invalid_response"
category_value configuration = "configuration"
category_value internal = "internal"
category_value unknown = "unknown"

abbrev pub status_value : DatabaseProbeStatus → String
status_value probe_ok = "ok"
status_value locked = "locked"
status_value unavailable = "unavailable"

-- `duration_bucket`, of a time by the whole seconds that it is less than
unfoldable pub duration_bucket : (ℕ → Bool) → Result MetricError String
duration_bucket less_than =
    if less_than 0
    then err negative_elapsed
    else if less_than 1
    then ok "under_1s"
    else if less_than 5
    then ok "1_to_5s"
    else if less_than 30
    then ok "5_to_30s"
    else ok "30s_or_more"

pub record OperationMetric : Type 0 where
  pub operation : OperationName
  pub outcome : OperationOutcome
  pub duration : String
  pub failure_category : FailureCategory

abbrev pub is_completed : OperationOutcome → Bool
is_completed completed = true
is_completed _ = false

abbrev pub is_timed_out : OperationOutcome → Bool
is_timed_out timed_out = true
is_timed_out _ = false

abbrev pub is_no_failure : FailureCategory → Bool
is_no_failure no_failure = true
is_no_failure _ = false

abbrev pub is_timeout : FailureCategory → Bool
is_timeout timeout = true
is_timeout _ = false

-- `OperationMetric.from_result`
unfoldable pub from_result :
    OperationName
    → OperationOutcome
    → (ℕ → Bool)
    → FailureCategory
    → Result MetricError OperationMetric
from_result operation outcome less_than category = do
  raise_if (is_completed outcome && not (is_no_failure category)) completed_with_failure
  raise_if (not (is_completed outcome) && is_no_failure category) category_required
  raise_if (is_timed_out outcome && not (is_timeout category)) timeout_required
  duration ← duration_bucket less_than
  ok record {
    operation = operation;
    outcome = outcome;
    duration = duration;
    failure_category = category;
  }

pub record DatabaseCapacityMetric : Type 0 where
  pub job : OperationName
  pub status : DatabaseProbeStatus
  pub database_bytes : ℕ
  pub filesystem_free_bytes : ℕ
  pub page_count : Option ℕ
  pub free_page_count : Option ℕ
  pub raw_data_rows : Option ℕ
  pub record_rows : Option ℕ
  pub probe_duration : String

abbrev pub optional_number : Option ℕ → Json
optional_number none = null
optional_number (some n) = integer (pos n)

-- `OperationMetric.to_dict`, in front of the members of `others`
abbrev pub operation_members : OperationMetric → Members → Members
operation_members m others = member "job" (text (name_value m.operation)) (
    member "outcome" (text (outcome_value m.outcome)) (
      member "duration" (text m.duration)
        (member "failure_category" (text (category_value m.failure_category)) others)))

-- `DatabaseCapacityMetric.to_dict`
abbrev pub database_members : DatabaseCapacityMetric → Members → Members
database_members m others = member "job" (text (name_value m.job)) (
    member "status" (text (status_value m.status)) (
      member "database_bytes" (integer (pos m.database_bytes)) (
        member "filesystem_free_bytes" (integer (pos m.filesystem_free_bytes)) (
          member "page_count" (optional_number m.page_count) (
            member "free_page_count" (optional_number m.free_page_count) (
              member "raw_data_rows" (optional_number m.raw_data_rows) (
                member "record_rows" (optional_number m.record_rows)
                  (member "probe_duration" (text m.probe_duration) others))))))))

pub data Metric : Type 0 where
  operation_metric : OperationMetric → Metric
  database_metric : DatabaseCapacityMetric → Metric

-- The record of `append`, on a date
unfoldable pub record_of : String → Metric → Members
record_of date (operation_metric m) =
    member "date" (text date) (member "kind" (text "operation") (operation_members m no_members))
record_of date (database_metric m) =
    member "date" (text date) (member "kind" (text "database") (database_members m no_members))

-- What SQLite answers: that the database is locked or not to be had, or its counts.
pub data Probe : Type 0 where
  operational_error : Bool → Probe
  counts : ℕ → ℕ → Option ℕ → Option ℕ → Probe

abbrev pub without_counts :
    OperationName → DatabaseProbeStatus → ℕ → ℕ → String → DatabaseCapacityMetric
without_counts job status bytes free duration = record {
  job = job;
  status = status;
  database_bytes = bytes;
  filesystem_free_bytes = free;
  page_count = none;
  free_page_count = none;
  raw_data_rows = none;
  record_rows = none;
  probe_duration = duration;
}

abbrev pub if_counted : Bool → Option ℕ → Option ℕ
if_counted include rows = if include then rows else none

abbrev pub probed : OperationName → Bool → ℕ × ℕ → Probe → String → DatabaseCapacityMetric
probed job include (free, bytes) (operational_error is_locked) duration =
    without_counts job (if is_locked then locked else unavailable) bytes free duration
probed job include (free, bytes) (counts pages free_pages raw_rows records) duration = record {
  job = job;
  status = probe_ok;
  database_bytes = bytes;
  filesystem_free_bytes = free;
  page_count = some pages;
  free_page_count = some free_pages;
  raw_data_rows = if_counted include raw_rows;
  record_rows = if_counted include records;
  probe_duration = duration;
}

abbrev pub sized :
    OperationName
    → Bool
    → Option (ℕ × ℕ)
    → Probe
    → String
    → Result MetricError DatabaseCapacityMetric
sized job include none probe duration = ok (without_counts job unavailable 0 0 duration)
sized job include (some both) probe duration = ok (probed job include both probe duration)

-- `ReadOnlyDatabaseMetrics.collect`: the free bytes and the size, if the file system tells them, then
-- the probe; the time that it took is not negative, since the clock is monotonic.
unfoldable pub collect :
    OperationName
    → Bool
    → Option (ℕ × ℕ)
    → Probe
    → (ℕ → Bool)
    → Result MetricError DatabaseCapacityMetric
collect job include sizes probe less_than = do
  duration ← duration_bucket less_than
  sized job include sizes probe duration
