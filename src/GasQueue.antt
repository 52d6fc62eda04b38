-- ===== src/GasQueue.antt =====
-- src/hedp/adapters/fusionsolar/gas_queue_importer.py: the import of checked candidates into the
-- database. A date and a time are their ISO texts. A row of `raw_data` is the `RawData` that its JSON
-- encodes; the equality of two payloads (`==` on dictionaries) is an argument.
pub mod Request
pub mod Energy
pub mod Envelope
pub mod Store
pub mod Receipts
pub mod Stored
pub mod Found
pub mod Imports
pub mod Atomic
pub mod Again
pub mod Sound
pub mod Importer
mod Examples
mod Readings
use Prim.Native.String.{String}
use hedp.Prelude.{
  ℕ, ◌+◌, ◌-◌, Bool, true, false, ◌&&◌, Option, none, some, List, [], ◌∷◌, ◌++◌, map, ◌==◌,
  if◌then◌else◌, length, any, Result, ok, err, ◌>>=◌,
}
use hedp.Prelude.Texts.{str_eq}

pub data GasQueueError : Type 0 where
  storage_required symlink_not_allowed no_json_files too_many_files invalid_filename
        file_too_large :
      GasQueueError
  file_changed_during_read invalid_utf8 duplicate_json_key non_finite_number : GasQueueError
  envelope_not_object invalid_envelope_schema filename_metadata_mismatch : GasQueueError
  payload_text_not_string payload_too_large payload_hash_mismatch payload_not_object : GasQueueError
  collected_at_not_utc invalid_collected_at collected_at_in_future invalid_request : GasQueueError
  request_not_allowed request_dimension_not_allowed unexpected_request_field : GasQueueError
  sensitive_field_present station_rows_missing invalid_station_row : GasQueueError
  invalid_station_timestamp station_date_mismatch invalid_station_metric : GasQueueError
  same_day_payload_conflict receipt_metadata_conflict : GasQueueError
  -- `sqlite3.IntegrityError`, `sqlite3.OperationalError`, and the `ValueError` and the
  -- `OverflowError` of a library call
  integrity_error no_such_table value_error overflow_error : GasQueueError

abbrev pub schema_version : ℕ
schema_version = 2

pub record Candidate (Payload : Type 0) : Type 0 where
  pub file_name : String
  pub source : String
  pub target_date : String
  pub collected_at : String
  pub payload_sha256 : String
  pub envelope_sha256 : String
  pub payload : Payload

pub data MetadataValue : Type 0 where
  number_value : ℕ → MetadataValue
  text_value : String → MetadataValue

pub record RawData (Payload : Type 0) : Type 0 where
  pub source : String
  pub timestamp : String
  pub payload : Payload
  pub target_date : Option String
  pub metadata : List (String × MetadataValue)

pub record Receipt : Type 0 where
  pub schema_version : ℕ
  pub source : String
  pub target_date : String
  pub payload_sha256 : String
  pub file_name : String
  pub envelope_sha256 : String
  pub collected_at : String
  pub imported_at : String
  pub raw_data_id : ℕ
  pub status : String

-- The rows of `raw_data` with their ids, the next id of that table, and the receipts, if their table
-- has been created.
pub record Database (Payload : Type 0) : Type 0 where
  pub raw_rows : List (ℕ × RawData Payload)
  pub next_raw_id : ℕ
  pub receipts : Option (List Receipt)

pub data Status : Type 0 where
  inspected blocked dry_run completed : Status

pub record FileReport : Type 0 where
  pub file : String
  pub source : String
  pub target_date : String
  pub payload_sha256 : String

pub record Report : Type 0 where
  pub status : Status
  pub files_checked : ℕ
  pub ready_to_import : ℕ
  pub duplicates_skipped : ℕ
  pub conflicts : ℕ
  pub files : List FileReport

abbrev pub rows_of : Option (List Receipt) → List Receipt
rows_of none = []
rows_of (some rs) = rs

-- `json_extract(data, '$.target_date') = ?`, which no missing date satisfies.
abbrev pub is_day : Option String → String → Bool
is_day none day = false
is_day (some of_row) day = str_eq of_row day

module _ {Payload : Type 0} where
  -- `Candidate.raw_data`
  abbrev pub raw_data : Candidate Payload → RawData Payload
  raw_data item = record {
    source = item.source;
    timestamp = item.collected_at;
    payload = item.payload;
    target_date = some item.target_date;
    metadata =
        ("transport", text_value "gas_drive_queue")
        ∷ ("schema_version", number_value schema_version)
        ∷ ("source_file", text_value item.file_name)
        ∷ ("payload_sha256", text_value item.payload_sha256)
        ∷ [];
  }

  abbrev pub file_report : Candidate Payload → FileReport
  file_report item = record {
    file = item.file_name;
    source = item.source;
    target_date = item.target_date;
    payload_sha256 = item.payload_sha256;
  }

  -- `_report`: the difference is one of integers in the code; `compare-bounded` shows it is no
  -- negative one.
  abbrev pub report : Status → List (Candidate Payload) → ℕ → ℕ → Report
  report status items duplicates conflicts = record {
    status = status;
    files_checked = length items;
    ready_to_import = length items - duplicates - conflicts;
    duplicates_skipped = duplicates;
    conflicts = conflicts;
    files = map file_report items;
  }

  -- The key of a receipt: `UNIQUE(schema_version, source, target_date, payload_sha256)`.
  unfoldable pub has_key : Candidate Payload → Receipt → Bool
  has_key item r =
      r.schema_version == schema_version
      && str_eq r.source item.source
      && str_eq r.target_date item.target_date
      && str_eq r.payload_sha256 item.payload_sha256

  unfoldable pub find_receipt : Candidate Payload → List Receipt → Option Receipt
  find_receipt item [] = none
  find_receipt item (r ∷ rs) =
      let rest = find_receipt item rs in if has_key item r then some r else rest

  abbrev pub check_receipt : Candidate Payload → Option Receipt → Result GasQueueError Bool
  check_receipt item none = ok false
  check_receipt item (some r) =
      if str_eq r.envelope_sha256 item.envelope_sha256 && str_eq r.file_name item.file_name
      then ok true
      else err receipt_metadata_conflict

  -- `_receipt_exists`: without the table there is no receipt.
  unfoldable pub receipt_exists : Database Payload → Candidate Payload → Result GasQueueError Bool
  receipt_exists db item = check_receipt item (find_receipt item (rows_of db.receipts))

  -- `_create_receipts`
  abbrev pub create_receipts : Database Payload → Database Payload
  create_receipts db = record {
    raw_rows = db.raw_rows;
    next_raw_id = db.next_raw_id;
    receipts = some (rows_of db.receipts);
  }

  abbrev pub receipt_of : String → ℕ → Candidate Payload → Receipt
  receipt_of imported_at raw_data_id item = record {
    schema_version = schema_version;
    source = item.source;
    target_date = item.target_date;
    payload_sha256 = item.payload_sha256;
    file_name = item.file_name;
    envelope_sha256 = item.envelope_sha256;
    collected_at = item.collected_at;
    imported_at = imported_at;
    raw_data_id = raw_data_id;
    status = "imported";
  }

  -- `INSERT INTO raw_data`
  abbrev pub insert_raw : Database Payload → Candidate Payload → Database Payload
  insert_raw db item = record {
    raw_rows = db.raw_rows ++ (db.next_raw_id, raw_data item) ∷ [];
    next_raw_id = db.next_raw_id + 1;
    receipts = db.receipts;
  }

  abbrev pub with_receipts : Database Payload → List Receipt → Database Payload
  with_receipts db rs = record {
    raw_rows = db.raw_rows;
    next_raw_id = db.next_raw_id;
    receipts = some rs;
  }

  -- `INSERT INTO gas_import_receipts`, with the table's constraint.
  unfoldable pub insert_receipt :
      String → Database Payload → Candidate Payload → ℕ → Result GasQueueError (Database Payload)
  insert_receipt imported_at db item raw_data_id = elim db.receipts [
    | none ↦ err no_such_table
    | some rs ↦
        if any (has_key item) rs
        then err integrity_error
        else ok (with_receipts db (rs ++ receipt_of imported_at raw_data_id item ∷ []))
  ]

  -- The `WHERE` of `_existing_raw`
  abbrev pub is_of_day : Candidate Payload → RawData Payload → Bool
  is_of_day item raw = str_eq raw.source item.source && is_day raw.target_date item.target_date
