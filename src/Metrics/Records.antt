-- ===== src/Metrics/Records.antt =====
-- src/hedp/operations/operational_metrics.py: `_is_valid_metric_record`, and the records that are
-- written. Whether a text is a date of the form that `strptime` and `strftime` agree on is an argument.
use Prim.Native.String.{String}
use hedp.Prelude.{
  ℕ, ◌≡◌, inl, inr, refl, Bool, true, false, not, ◌&&◌, Option, none, some, List, [], ◌∷◌, arith,
  if◌then◌else◌, any, Result, ok, err, raise_if, Bool-cases, Ensures, bind-Ensures,
  Ensures-returned,
}
use hedp.Prelude.Int.{pos, leb_ℤ}
use hedp.Prelude.Texts.{str_eq}
use hedp.Prelude.Json.{Json, null, integer, text, array, object, Members, get, is_text, key_set_is}
use hedp.Metrics.{
  MetricError, unhashable, OperationName, OperationOutcome, FailureCategory, DatabaseProbeStatus,
  device_realtime, modbus_realtime, switchbot, equipment, daily_health, daily, completed, skipped,
  timed_out, failed, no_failure, lock_held, timeout, network, invalid_response, configuration,
  internal, unknown, probe_ok, locked, unavailable, is_completed, is_timed_out, is_no_failure,
  is_timeout, completed_with_failure, category_required, timeout_required, optional_number,
  duration_bucket, OperationMetric, DatabaseCapacityMetric, Metric, operation_metric,
  database_metric, Probe, operational_error, counts, probed, sized, from_result, collect, record_of,
  name_value, outcome_value, category_value, status_value,
}

abbrev pub job_values : List String
job_values =
    "device_realtime" ∷ "modbus_realtime" ∷ "switchbot" ∷ "equipment" ∷ "daily_health" ∷ "daily"
    ∷ []

abbrev pub outcome_values : List String
outcome_values = "completed" ∷ "skipped" ∷ "timed_out" ∷ "failed" ∷ []

abbrev pub category_values : List String
category_values =
    "none" ∷ "lock_held" ∷ "timeout" ∷ "network" ∷ "invalid_response" ∷ "configuration" ∷ "internal"
    ∷ "unknown" ∷ []

abbrev pub status_values : List String
status_values = "ok" ∷ "locked" ∷ "unavailable" ∷ []

abbrev pub durations : List String
durations = "under_1s" ∷ "1_to_5s" ∷ "5_to_30s" ∷ "30s_or_more" ∷ []

-- `value in {…}`: a list or a dictionary cannot be hashed.
abbrev pub is_member : Json → List String → Result MetricError Bool
is_member (text s) names = ok (any (str_eq s) names)
is_member (array _) names = err unhashable
is_member (object _) names = err unhashable
is_member _ names = ok false

-- `a and b`, where both may raise.
infixr 4 ◌and_then◌
abbrev pub ◌and_then◌ : Result MetricError Bool → Result MetricError Bool → Result MetricError Bool
err e and_then b = err e
ok false and_then b = ok false
ok true and_then b = b

-- `type(value) is int and value >= 0`
abbrev pub is_natural : Json → Bool
is_natural (integer n) = leb_ℤ (pos 0) n
is_natural _ = false

abbrev pub is_optional_natural : Json → Bool
is_optional_natural null = true
is_optional_natural v = is_natural v

abbrev pub operation_keys : List String
operation_keys = "date" ∷ "kind" ∷ "job" ∷ "outcome" ∷ "duration" ∷ "failure_category" ∷ []

abbrev pub database_keys : List String
database_keys =
    "date" ∷ "kind" ∷ "job" ∷ "status" ∷ "database_bytes" ∷ "filesystem_free_bytes" ∷ "page_count"
    ∷ "free_page_count" ∷ "raw_data_rows" ∷ "record_rows" ∷ "probe_duration" ∷ []

unfoldable pub is_operation_record : Members → Result MetricError Bool
is_operation_record ms =
    ok (key_set_is ms operation_keys)
    and_then is_member (get ms "job") job_values
    and_then is_member (get ms "outcome") outcome_values
    and_then is_member (get ms "duration") durations
    and_then is_member (get ms "failure_category") category_values

unfoldable pub is_database_record : Members → Result MetricError Bool
is_database_record ms =
    ok (key_set_is ms database_keys)
    and_then is_member (get ms "job") job_values
    and_then is_member (get ms "status") status_values
    and_then is_member (get ms "probe_duration") durations
    and_then ok
        (is_natural (get ms "database_bytes") && is_natural (get ms "filesystem_free_bytes"))
    and_then ok (
        is_optional_natural (get ms "page_count")
        && is_optional_natural (get ms "free_page_count")
        && is_optional_natural (get ms "raw_data_rows")
        && is_optional_natural (get ms "record_rows"))

module _ (is_date : String → Bool) where
  abbrev pub has_date : Json → Bool
  has_date (text s) = is_date s
  has_date _ = false

  unfoldable pub is_valid_members : Members → Result MetricError Bool
  is_valid_members ms =
      if not (has_date (get ms "date"))
      then ok false
      else if is_text (get ms "kind") "operation"
      then is_operation_record ms
      else if is_text (get ms "kind") "database"
      then is_database_record ms
      else ok false

  -- `_is_valid_metric_record`
  unfoldable pub is_valid_metric_record : Json → Result MetricError Bool
  is_valid_metric_record (object ms) = is_valid_members ms
  is_valid_metric_record _ = ok false

-- The duration is one of the four words.
abbrev pub IsDuration : String → Type 0
IsDuration s = any (str_eq s) durations ≡ true

duration_bucket-IsDuration : (less_than : ℕ → Bool) → Ensures IsDuration (duration_bucket less_than)
unfolding duration_bucket
duration_bucket-IsDuration less_than = elim (Bool-cases (less_than 0)) [
  | inl a ↦ rw (Ensures, a) tt
  | inr a ↦ elim (Bool-cases (less_than 1)) [
    | inl b ↦ rw (Ensures, a, b) refl
    | inr b ↦ elim (Bool-cases (less_than 5)) [
      | inl c ↦ rw (Ensures, a, b, c) refl
      | inr c ↦ elim (Bool-cases (less_than 30)) [
        | inl d ↦ rw (Ensures, a, b, c, d) refl
        | inr d ↦ rw (Ensures, a, b, c, d) refl
      ]
    ]
  ]
]

from_result-IsDuration :
    (operation : OperationName) (outcome : OperationOutcome) (less_than : ℕ → Bool)
    (category : FailureCategory)
    → Ensures (λ m. IsDuration m.duration) (from_result operation outcome less_than category)
unfolding from_result
from_result-IsDuration operation outcome less_than category =
    bind-Ensures _
      (raise_if (is_completed outcome && not (is_no_failure category)) completed_with_failure) _
      λ u _.
        bind-Ensures _
          (raise_if (not (is_completed outcome) && is_no_failure category) category_required) _
          λ v _.
            bind-Ensures _
              (raise_if (is_timed_out outcome && not (is_timeout category)) timeout_required) _
              λ w _. bind-Ensures _ (duration_bucket less_than) _ λ duration is_bucket.
                Ensures-returned IsDuration (duration_bucket less_than) duration
                  (duration_bucket-IsDuration less_than) is_bucket

probed-IsDuration :
    (job : OperationName) (include : Bool) (both : ℕ × ℕ) (probe : Probe) (duration : String)
    → IsDuration duration
    → IsDuration (probed job include both probe duration).probe_duration
probed-IsDuration job include both (operational_error _) duration of_duration = of_duration
probed-IsDuration job include both (counts _ _ _ _) duration of_duration = of_duration

sized-IsDuration :
    (job : OperationName) (include : Bool) (sizes : Option (ℕ × ℕ)) (probe : Probe)
    (duration : String)
    → IsDuration duration
    → Ensures (λ m. IsDuration m.probe_duration) (sized job include sizes probe duration)
sized-IsDuration job include none probe duration of_duration = of_duration
sized-IsDuration job include (some both) probe duration of_duration =
    probed-IsDuration job include both probe duration of_duration

collect-IsDuration :
    (job : OperationName) (include : Bool) (sizes : Option (ℕ × ℕ)) (probe : Probe)
    (less_than : ℕ → Bool)
    → Ensures (λ m. IsDuration m.probe_duration) (collect job include sizes probe less_than)
unfolding collect
collect-IsDuration job include sizes probe less_than =
    bind-Ensures _ (duration_bucket less_than) _ λ duration is_bucket.
      sized-IsDuration job include sizes probe duration (
        Ensures-returned IsDuration (duration_bucket less_than) duration
          (duration_bucket-IsDuration less_than) is_bucket)

job-value : (n : OperationName) → any (str_eq (name_value n)) job_values ≡ true
job-value device_realtime = refl
job-value modbus_realtime = refl
job-value switchbot = refl
job-value equipment = refl
job-value daily_health = refl
job-value daily = refl

outcome-value : (o : OperationOutcome) → any (str_eq (outcome_value o)) outcome_values ≡ true
outcome-value completed = refl
outcome-value skipped = refl
outcome-value timed_out = refl
outcome-value failed = refl

category-value : (c : FailureCategory) → any (str_eq (category_value c)) category_values ≡ true
category-value no_failure = refl
category-value lock_held = refl
category-value timeout = refl
category-value network = refl
category-value invalid_response = refl
category-value configuration = refl
category-value internal = refl
category-value unknown = refl

status-value : (s : DatabaseProbeStatus) → any (str_eq (status_value s)) status_values ≡ true
status-value probe_ok = refl
status-value locked = refl
status-value unavailable = refl

natural-number : (n : ℕ) → is_natural (integer (pos n)) ≡ true
natural-number n = ground arith

optional-number : (o : Option ℕ) → is_optional_natural (optional_number o) ≡ true
optional-number none = refl
optional-number (some n) = natural-number n

operation-record :
    (date : String) (m : OperationMetric)
    → IsDuration m.duration
    → is_operation_record (record_of date (operation_metric m)) ≡ ok true
unfolding is_operation_record record_of
operation-record date m of_duration =
    rw
      (
        job-value m.operation,
        outcome-value m.outcome,
        of_duration,
        category-value m.failure_category,
      )
      refl

database-record :
    (date : String) (m : DatabaseCapacityMetric)
    → IsDuration m.probe_duration
    → is_database_record (record_of date (database_metric m)) ≡ ok true
unfolding is_database_record record_of
database-record date m of_duration =
    rw
      (
        job-value m.job,
        status-value m.status,
        of_duration,
        natural-number m.database_bytes,
        natural-number m.filesystem_free_bytes,
        optional-number m.page_count,
        optional-number m.free_page_count,
        optional-number m.raw_data_rows,
        optional-number m.record_rows,
      )
      refl

-- The duration of a metric is one of the four words.
abbrev pub HasDuration : Metric → Type 0
HasDuration (operation_metric m) = IsDuration m.duration
HasDuration (database_metric m) = IsDuration m.probe_duration

module _ (is_date : String → Bool) where
  record_of-valid :
      (date : String) (m : Metric)
      → is_date date ≡ true
      → HasDuration m
      → is_valid_metric_record is_date (object (record_of date m)) ≡ ok true
  unfolding is_valid_metric_record is_valid_members record_of
  record_of-valid date (operation_metric m) of_date of_duration =
      rw (of_date) (operation-record date m of_duration)
  record_of-valid date (database_metric m) of_date of_duration =
      rw (of_date) (database-record date m of_duration)

  -- What the writer makes, the reader accepts: the record, on a date, of a metric that
  -- `from_result` returns, and of one that the probe of the database returns, is valid.
  pub record_of-written :
      (date : String) (operation : OperationName) (outcome : OperationOutcome)
      (category : FailureCategory) (less_than : ℕ → Bool) (m : OperationMetric) (include : Bool)
      (sizes : Option (ℕ × ℕ)) (probe : Probe) (d : DatabaseCapacityMetric)
      → is_date date ≡ true
      → from_result operation outcome less_than category ≡ ok m
      → collect operation include sizes probe less_than ≡ ok d
      → (is_valid_metric_record is_date (object (record_of date (operation_metric m))) ≡ ok true)
        × (is_valid_metric_record is_date (object (record_of date (database_metric d))) ≡ ok true)
  record_of-written date operation outcome category less_than m include sizes probe d of_date
        is_made is_probed =
      (
        record_of-valid date (operation_metric m) of_date (
            Ensures-returned (λ x. IsDuration x.duration)
              (from_result operation outcome less_than category) m
              (from_result-IsDuration operation outcome less_than category) is_made),
        record_of-valid date (database_metric d) of_date (
            Ensures-returned (λ x. IsDuration x.probe_duration)
              (collect operation include sizes probe less_than) d
              (collect-IsDuration operation include sizes probe less_than) is_probed),
      )
