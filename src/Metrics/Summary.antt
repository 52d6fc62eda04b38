-- ===== src/Metrics/Summary.antt =====
-- src/hedp/operations/operational_metrics.py: `summarize_operational_metrics`, over what is read of the
-- three files. `json.loads` and the test of a date are arguments.
pub mod Counted
use Prim.Native.String.{String, compare}
use Prim.Native.Nat.{Ordering}
use hedp.Prelude.{
  ℕ, ◌+◌, Bool, true, false, not, ◌&&◌, ◌||◌, Option, none, some, List, [], ◌∷◌, ◌++◌, map, length,
  if◌then◌else◌, Result, ok, err, ◌>>=◌,
}
use hedp.Prelude.Int.{ℤ, pos, ◌-ℤ◌}
use hedp.Prelude.Texts.{str_eq}
use hedp.Prelude.Json.{
  Json, null, boolean, integer, float, text, array, object, Members, get, is_text,
}
use hedp.Metrics.{MetricError}
use hedp.Metrics.Records.{is_valid_metric_record}

-- A path of the journal: nothing there, a file that cannot be read, or its lines.
pub data Source : Type 0 where
  missing unreadable : Source
  readable : List String → Source

pub record Scan : Type 0 where
  pub records : List Members
  pub invalid_lines : ℕ
  pub files_read : ℕ

-- The date, job, outcome, failure category and duration of an operation.
pub record OperationKey : Type 0 where
  pub date : String
  pub job : String
  pub outcome : String
  pub failure_category : String
  pub duration : String

pub record DatabaseCapacity : Type 0 where
  pub observed_days : ℕ
  pub first_database_bytes : Option ℤ
  pub last_database_bytes : Option ℤ
  pub database_bytes_delta : Option ℤ

pub record Summary : Type 0 where
  pub files_read : ℕ
  pub accepted_records : ℕ
  pub invalid_lines : ℕ
  pub operation_counts : List (OperationKey × ℕ)
  pub database_capacity : DatabaseCapacity

abbrev pub nothing_scanned : Scan
nothing_scanned = record { records = []; invalid_lines = 0; files_read = 0 }

abbrev pub skip_line : Scan → Scan
skip_line s = record {
  records = s.records;
  invalid_lines = s.invalid_lines + 1;
  files_read = s.files_read;
}

abbrev pub keep_record : Scan → Json → Scan
keep_record s (object ms) = record {
  records = s.records ++ ms ∷ [];
  invalid_lines = s.invalid_lines;
  files_read = s.files_read;
}
keep_record s _ = skip_line s

abbrev pub count_file : Scan → Scan
count_file s = record {
  records = s.records;
  invalid_lines = s.invalid_lines;
  files_read = s.files_read + 1;
}

module _ (loads : String → Option Json) (is_date : String → Bool) where
  abbrev pub judge_record : Scan → Json → Bool → Scan
  judge_record s value true = keep_record s value
  judge_record s value false = skip_line s

  abbrev pub scan_value : Scan → Option Json → Result MetricError Scan
  scan_value s none = ok (skip_line s)
  scan_value s (some value) =
      is_valid_metric_record is_date value >>= λ valid. ok (judge_record s value valid)

  unfoldable pub scan_lines : Scan → List String → Result MetricError Scan
  scan_lines s [] = ok s
  scan_lines s (line ∷ lines) = scan_value s (loads line) >>= λ next. scan_lines next lines

  abbrev pub scan_source : Scan → Source → Result MetricError Scan
  scan_source s missing = ok s
  scan_source s unreadable = ok (skip_line s)
  scan_source s (readable lines) = scan_lines (count_file s) lines

  unfoldable pub scan_sources : Scan → List Source → Result MetricError Scan
  scan_sources s [] = ok s
  scan_sources s (source ∷ sources) = scan_source s source >>= λ next. scan_sources next sources

-- `str(record[field])` and `int(record[field])`, of a record that is valid
abbrev pub string_of : Json → String
string_of (text s) = s
string_of _ = ""

abbrev pub number_of : Json → ℤ
number_of (integer n) = n
number_of _ = pos 0

abbrev pub key_of : Members → OperationKey
key_of ms = record {
  date = string_of (get ms "date");
  job = string_of (get ms "job");
  outcome = string_of (get ms "outcome");
  failure_category = string_of (get ms "failure_category");
  duration = string_of (get ms "duration");
}

-- A tuple of texts is ordered by its first difference.
abbrev pub leb_texts : List (String × String) → Bool
leb_texts [] = true
leb_texts ((s, t) ∷ others) = elim (compare s t) [
  | Ordering.lt ↦ true
  | Ordering.gt ↦ false
  | Ordering.eq ↦ leb_texts others
]

abbrev pub key_pairs : OperationKey → OperationKey → List (String × String)
key_pairs a b =
    (a.date, b.date)
    ∷ (a.job, b.job)
    ∷ (a.outcome, b.outcome)
    ∷ (a.failure_category, b.failure_category)
    ∷ (a.duration, b.duration)
    ∷ []

abbrev pub same_key : OperationKey → OperationKey → Bool
same_key a b =
    str_eq a.date b.date
    && str_eq a.job b.job
    && str_eq a.outcome b.outcome
    && str_eq a.failure_category b.failure_category
    && str_eq a.duration b.duration

-- `operation_counts[key] = operation_counts.get(key, 0) + 1`
unfoldable pub count_key : OperationKey → List (OperationKey × ℕ) → List (OperationKey × ℕ)
count_key key [] = (key, 1) ∷ []
count_key key ((k, n) ∷ counts) =
    let rest = count_key key counts in if same_key k key then (k, n + 1) ∷ counts else (k, n) ∷ rest

unfoldable pub insert_count : OperationKey × ℕ → List (OperationKey × ℕ) → List (OperationKey × ℕ)
insert_count c [] = c ∷ []
insert_count c (d ∷ counts) =
    let rest = insert_count c counts in
    if leb_texts (key_pairs c.0 d.0) then c ∷ d ∷ counts else d ∷ rest

unfoldable pub sort_counts : List (OperationKey × ℕ) → List (OperationKey × ℕ)
sort_counts [] = []
sort_counts (c ∷ counts) = insert_count c (sort_counts counts)

-- `database_by_date[date] = bytes`, the dates in their order
unfoldable pub set_bytes : String → ℤ → List (String × ℤ) → List (String × ℤ)
set_bytes date bytes [] = (date, bytes) ∷ []
set_bytes date bytes ((d, b) ∷ others) =
    let rest = set_bytes date bytes others in
    elim (compare date d) [
      | Ordering.lt ↦ (date, bytes) ∷ (d, b) ∷ others
      | Ordering.eq ↦ (date, bytes) ∷ others
      | Ordering.gt ↦ (d, b) ∷ rest
    ]

abbrev pub is_operation : Members → Bool
is_operation ms = is_text (get ms "kind") "operation"

unfoldable pub count_operations : List Members → List (OperationKey × ℕ) → List (OperationKey × ℕ)
count_operations [] counts = counts
count_operations (ms ∷ records) counts =
    count_operations records (if is_operation ms then count_key (key_of ms) counts else counts)

unfoldable pub bytes_by_date : List Members → List (String × ℤ) → List (String × ℤ)
bytes_by_date [] bytes = bytes
bytes_by_date (ms ∷ records) bytes = bytes_by_date records (
    if not (is_operation ms) && is_text (get ms "status") "ok"
    then set_bytes (string_of (get ms "date")) (number_of (get ms "database_bytes")) bytes
    else bytes)

abbrev pub first_bytes : List (String × ℤ) → Option ℤ
first_bytes [] = none
first_bytes ((_, b) ∷ _) = some b

abbrev pub last_bytes : List (String × ℤ) → Option ℤ
last_bytes [] = none
last_bytes ((_, b) ∷ []) = some b
last_bytes (_ ∷ c ∷ others) = last_bytes (c ∷ others)

abbrev pub bytes_delta : Option ℤ → Option ℤ → Option ℤ
bytes_delta (some first) (some last) = some (last -ℤ first)
bytes_delta _ _ = none

abbrev pub capacity : List (String × ℤ) → DatabaseCapacity
capacity bytes = record {
  observed_days = length bytes;
  first_database_bytes = first_bytes bytes;
  last_database_bytes = last_bytes bytes;
  database_bytes_delta = bytes_delta (first_bytes bytes) (last_bytes bytes);
}

abbrev pub summary_of : Scan → Summary
summary_of s = record {
  files_read = s.files_read;
  accepted_records = length s.records;
  invalid_lines = s.invalid_lines;
  operation_counts = sort_counts (count_operations s.records []);
  database_capacity = capacity (bytes_by_date s.records []);
}

module _ (loads : String → Option Json) (is_date : String → Bool) where
  -- `summarize_operational_metrics`, of the files from the oldest to the active one
  unfoldable pub summarize_operational_metrics : List Source → Result MetricError Summary
  summarize_operational_metrics sources =
      scan_sources loads is_date nothing_scanned sources >>= λ s. ok (summary_of s)
