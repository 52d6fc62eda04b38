-- ===== src/GasQueue/Envelope.antt =====
-- src/hedp/adapters/fusionsolar/gas_queue_importer.py: from the files of a queue to candidates. What
-- the library does (UTF-8, `json.loads` with its hooks, SHA-256, dates) is an argument; a file is what
-- the calls on it return.
pub mod Checked
pub mod OneHash
use Prim.Native.String.{String}
use hedp.Prelude.{
  ℕ, ◌+◌, ◌-◌, Bool, true, false, not, ◌&&◌, ◌||◌, Option, none, some, List, [], ◌∷◌, ◌++◌, map,
  ltb, leb, ◌==◌, if◌then◌else◌, length, take, drop, any, all, Result, ok, err, raise_if, ◌>>=◌,
  ◌>>◌,
}
use hedp.Prelude.Int.{ℤ, pos, eq_ℤ}
use hedp.Prelude.Bytes.{Bytes}
use hedp.Prelude.Texts.{codes, str_eq}
use hedp.Prelude.Json.{
  Json, null, boolean, integer, float, text, array, object, Members, get, has, keys, as_list,
  as_object, as_text, key_set_is,
}
use hedp.GasQueue.{
  GasQueueError, symlink_not_allowed, no_json_files, too_many_files, invalid_filename,
  file_too_large, file_changed_during_read, invalid_utf8, envelope_not_object,
  invalid_envelope_schema, filename_metadata_mismatch, payload_text_not_string, payload_too_large,
  payload_hash_mismatch, payload_not_object, collected_at_not_utc, invalid_collected_at,
  collected_at_in_future, station_rows_missing, invalid_station_row, invalid_station_timestamp,
  station_date_mismatch, invalid_station_metric, same_day_payload_conflict, value_error,
  overflow_error, Candidate, schema_version,
}
use hedp.GasQueue.Request.{
  Text, starts_with, reject_secrets, Source, fusionsolar, fusionsolar_energy_balance, source_text,
  validate_request,
}
use hedp.GasQueue.Energy.{Readers, found_or, build}

-- `datetime.fromisoformat` of a text with an offset: the microseconds of the instant, whether its
-- offset is 0, and `isoformat()`.
pub record Instant : Type 0 where
  pub microseconds : ℕ
  pub is_utc : Bool
  pub iso : String

pub record Library : Type 0 where
  pub decode_utf8 : Bytes → Option String
  pub encode_utf8 : String → Option Bytes
  pub loads : String → Result GasQueueError Json
  pub sha256 : Bytes → String
  pub is_date : String → Bool
  pub read_instant : Text → Option Instant
  pub is_decimal : ℕ → Bool
  pub is_finite : String → Bool
  pub fits_float : ℤ → Bool
  pub lower : String → Text
  pub readers : Readers

-- What the calls on a file return: its name, whether it or its directory is a link, inode and size
-- before and after, and the pieces that `os.read` returns, up to the empty one.
pub record File : Type 0 where
  pub file_name : String
  pub is_link : Bool
  pub inode_before : ℕ
  pub size_before : ℕ
  pub pieces : List Bytes
  pub inode_after : ℕ
  pub size_after : ℕ

abbrev pub max_file_bytes : ℕ
max_file_bytes = 25165824

abbrev pub max_payload_bytes : ℕ
max_payload_bytes = 10485760

abbrev pub max_files : ℕ
max_files = 100

abbrev pub found : {A : Type 0} → GasQueueError → Option A → Result GasQueueError A
found e none = err e
found e (some v) = ok v

-- The loop around `os.read`
unfoldable pub read_pieces : ℕ → List Bytes → Bytes
read_pieces remaining [] = []
read_pieces remaining ([] ∷ pieces) = []
read_pieces remaining ((b ∷ bs) ∷ pieces) =
    let rest = read_pieces (remaining - length (b ∷ bs)) pieces in
    if remaining == 0 then [] else (b ∷ bs) ++ rest

unfoldable pub read_content : File → Result GasQueueError Bytes
read_content file = do
  raise_if file.is_link symlink_not_allowed
  raise_if (ltb max_file_bytes file.size_before) file_too_large
  let content = read_pieces (max_file_bytes + 1) file.pieces
  raise_if (ltb max_file_bytes (length content)) file_too_large
  raise_if (not (file.inode_before == file.inode_after && file.size_before == file.size_after))
      file_changed_during_read
  ok content

abbrev pub is_hex : ℕ → Bool
is_hex c = (leb 0x30 c && leb c 0x39) || (leb 0x61 c && leb c 0x66)

abbrev pub same_text : Text → Text → Bool
same_text [] [] = true
same_text (c ∷ s) (d ∷ t) = c == d && same_text s t
same_text _ _ = false

-- `set(envelope) == expected` and the version
abbrev pub envelope_keys : List String
envelope_keys =
    "schema_version" ∷ "source" ∷ "collected_at" ∷ "target_date" ∷ "request" ∷ "payload_sha256"
    ∷ "payload_text" ∷ []

-- `value == SCHEMA_VERSION`, also of a float
abbrev pub is_version : Json → Bool
is_version (integer n) = eq_ℤ n (pos schema_version)
is_version (float s) = str_eq s "2.0"
is_version _ = false

-- `value == text` for a JSON value and the code points of a `str`
abbrev pub is_codes : Json → Text → Bool
is_codes (text s) t = same_text (codes s) t
is_codes _ t = false

-- `value.replace("Z", "+00:00")`, and `value.endswith("Z")`
abbrev pub replace_z : Text → Text
replace_z [] = []
replace_z (c ∷ t) = if c == 0x5A then codes "+00:00" ++ replace_z t else c ∷ replace_z t

abbrev pub ends_with_z : Text → Bool
ends_with_z [] = false
ends_with_z (c ∷ []) = c == 0x5A
ends_with_z (c ∷ d ∷ t) = ends_with_z (d ∷ t)

module _ (lib : Library) where
  -- The groups of `FILENAME.fullmatch` after the source: the day and the prefix of the hash.
  abbrev pub is_day_shape : Text → Bool
  is_day_shape (a ∷ b ∷ c ∷ d ∷ e ∷ f ∷ g ∷ h ∷ i ∷ j ∷ []) =
      all lib.is_decimal (a ∷ b ∷ c ∷ d ∷ f ∷ g ∷ i ∷ j ∷ []) && e == 0x2D && h == 0x2D
  is_day_shape _ = false

  abbrev pub match_rest : Text → Option (Text × Text)
  match_rest rest =
      let day = take 10 (drop 1 rest) in
      let prefix = take 16 (drop 12 rest) in
      if same_text (take 1 rest) (codes "_")
        && is_day_shape day
        && same_text (take 1 (drop 11 rest)) (codes "_")
        && length prefix == 16
        && all is_hex prefix
        && same_text (drop 28 rest) (codes ".json")
      then some (day, prefix)
      else none

  abbrev pub with_source : Source → Option (Text × Text) → Option (Source × Text × Text)
  with_source source none = none
  with_source source (some (day, prefix)) = some (source, day, prefix)

  -- `FILENAME.fullmatch`
  unfoldable pub match_filename : Text → Option (Source × Text × Text)
  match_filename t =
      if starts_with (codes "fusionsolar_energy_balance") t
      then with_source fusionsolar_energy_balance (match_rest (drop 26 t))
      else if starts_with (codes "fusionsolar") t
      then with_source fusionsolar (match_rest (drop 11 t))
      else none

  -- `_utc_timestamp`, at a time in microseconds
  unfoldable pub utc_timestamp : ℕ → Json → Result GasQueueError Instant
  utc_timestamp now value = do
    s ← found collected_at_not_utc (as_text value)
    raise_if (not (ends_with_z (codes s))) collected_at_not_utc
    parsed ← found invalid_collected_at (lib.read_instant (replace_z (codes s)))
    raise_if (not parsed.is_utc) collected_at_not_utc
    raise_if (ltb (now + 600000000) parsed.microseconds) collected_at_in_future
    ok parsed

  abbrev pub metrics : List String
  metrics = "productPower" ∷ "inverterPower" ∷ "onGridPower" ∷ "buyPower" ∷ "powerProfit" ∷ []

  -- A metric of a station row: absent, or a finite number.
  abbrev pub is_metric : Json → Bool
  is_metric (integer _) = true
  is_metric (float s) = lib.is_finite s
  is_metric _ = false

  -- An integer that no float holds, of which `math.isfinite` raises.
  abbrev pub overflows : Json → Bool
  overflows (integer n) = not (lib.fits_float n)
  overflows _ = false

  unfoldable pub check_metrics : Members → List String → Result GasQueueError (Unit {0})
  check_metrics row [] = ok tt
  check_metrics row (key ∷ names) =
      raise_if (has row key && overflows (get row key)) overflow_error
      >> (raise_if (has row key && not (is_metric (get row key))) invalid_station_metric
          >> check_metrics row names)

  unfoldable pub check_station_row : String → Json → Result GasQueueError (Unit {0})
  check_station_row day value = do
    row ← found invalid_station_row (as_object value)
    at ← found invalid_station_row (as_text (get row "fmtCollectTimeStr"))
    parsed ← found invalid_station_timestamp (lib.readers.local_time at)
    raise_if (not (str_eq parsed.day day)) station_date_mismatch
    check_metrics row metrics

  unfoldable pub check_station_rows : String → List Json → Result GasQueueError (Unit {0})
  check_station_rows day [] = ok tt
  check_station_rows day (row ∷ rows) = check_station_row day row >> check_station_rows day rows

  abbrev pub rows_of_data : Option Members → Option (List Json)
  rows_of_data none = none
  rows_of_data (some ms) = as_list (get ms "list")

  -- The `ValueError`s of the builder pass through.
  unfoldable pub check_balance : String → Members → String → Result GasQueueError (Unit {0})
  check_balance source payload day = elim (build lib.readers source payload (some day)) [
    | err _ ↦ err value_error
    | ok _ ↦ ok tt
  ]

  -- `_validate_payload`
  unfoldable pub validate_payload : Source → Members → String → Result GasQueueError (Unit {0})
  validate_payload fusionsolar_energy_balance payload day =
      check_balance (source_text fusionsolar_energy_balance) payload day
  validate_payload fusionsolar payload day =
      found station_rows_missing (rows_of_data (as_object (get payload "data")))
      >>= check_station_rows day

  -- The envelope's own fields: its keys, version, source and day.
  unfoldable pub check_envelope : Source → Text → Members → Result GasQueueError String
  check_envelope source day envelope = do
    raise_if
        (not (key_set_is envelope envelope_keys)
          || not (is_version (get envelope "schema_version")))
        invalid_envelope_schema
    raise_if
        (not (is_codes (get envelope "source") (codes (source_text source)))
          || not (is_codes (get envelope "target_date") day))
        filename_metadata_mismatch
    target ← found filename_metadata_mismatch (as_text (get envelope "target_date"))
    raise_if (not (lib.is_date target)) value_error
    ok target

  -- The payload of an envelope, with its digest.
  unfoldable pub read_payload : Text → Members → Result GasQueueError (String × Members)
  read_payload prefix envelope = do
    payload_text ← found payload_text_not_string (as_text (get envelope "payload_text"))
    payload_bytes ← found value_error (lib.encode_utf8 payload_text)
    raise_if (ltb max_payload_bytes (length payload_bytes)) payload_too_large
    let digest = lib.sha256 payload_bytes
    raise_if
        (not (is_codes (get envelope "payload_sha256") (codes digest))
          || not (same_text prefix (take 16 (codes digest))))
        payload_hash_mismatch
    value ← lib.loads payload_text
    payload ← found payload_not_object (as_object value)
    ok (digest, payload)

  -- The envelope of a file, opened.
  unfoldable pub read_envelope : Bytes → Result GasQueueError Members
  read_envelope content = do
    envelope_text ← found invalid_utf8 (lib.decode_utf8 content)
    value ← lib.loads envelope_text
    found envelope_not_object (as_object value)

  -- `_read` once the name has been matched
  unfoldable pub read_matched :
      ℕ → File → Source × Text × Text → Result GasQueueError (Candidate Members)
  read_matched now file (source, day, prefix) = do
    content ← read_content file
    envelope ← read_envelope content
    target ← check_envelope source day envelope
    read ← read_payload prefix envelope
    collected ← utc_timestamp now (get envelope "collected_at")
    validate_request source (get envelope "request")
    reject_secrets lib.lower (get envelope "request")
    reject_secrets lib.lower (object read.1)
    validate_payload source read.1 target
    ok record {
      file_name = file.file_name;
      source = source_text source;
      target_date = target;
      collected_at = collected.iso;
      payload_sha256 = read.0;
      envelope_sha256 = lib.sha256 content;
      payload = read.1;
    }

  -- `_read`
  unfoldable pub read_file : ℕ → File → Result GasQueueError (Candidate Members)
  read_file now file =
      found invalid_filename (match_filename (codes file.file_name)) >>= read_matched now file

  unfoldable pub read_files : ℕ → List File → Result GasQueueError (List (Candidate Members))
  read_files now [] = ok []
  read_files now (file ∷ files) = do
    first ← read_file now file
    others ← read_files now files
    ok (first ∷ others)

-- `identities`: the hash of the first candidate of each source and day.
abbrev pub Identities : Type 0
Identities = List ((String × String) × String)

unfoldable pub find_identity : String → String → Identities → Option String
find_identity source day [] = none
find_identity source day (((s, d), hash) ∷ others) =
    let rest = find_identity source day others in
    if str_eq s source && str_eq d day then some hash else rest

abbrev pub or_default : String → Option String → String
or_default d none = d
or_default d (some s) = s

module _ {Payload : Type 0} where
  unfoldable pub check_identities :
      Identities → List (Candidate Payload) → Result GasQueueError (Unit {0})
  check_identities known [] = ok tt
  check_identities known (item ∷ items) =
      let previous =
        or_default item.payload_sha256 (find_identity item.source item.target_date known) in
      raise_if (not (str_eq previous item.payload_sha256)) same_day_payload_conflict
      >> check_identities (known ++ ((item.source, item.target_date), item.payload_sha256) ∷ [])
          items

module _ (lib : Library) where
  -- `_candidates`, of the files of a path whose names end with `.json`, in the order of their paths.
  unfoldable pub candidates : ℕ → Bool → List File → Result GasQueueError (List (Candidate Members))
  candidates now path_is_link files = do
    raise_if path_is_link symlink_not_allowed
    raise_if (length files == 0) no_json_files
    raise_if (ltb max_files (length files)) too_many_files
    items ← read_files lib now files
    check_identities [] items
    ok items
