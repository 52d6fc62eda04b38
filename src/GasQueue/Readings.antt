-- ===== src/GasQueue/Readings.antt =====
-- Runs of the readers of a queue's files and of the energy balance builder, and their theorems at them.
use Prim.Native.String.{String, ◌++◌ as join}
use hedp.Prelude.{
  ℕ, ◌+◌, ◌-◌, ◌*◌, ◌≤◌, ◌≡◌, ◌↔◌, refl, ap, ◌∙◌, Bool, true, false, none, some, List, [], ◌∷◌,
  ◌++◌, map, if◌then◌else◌, length, All, ok, err,
}
use hedp.Prelude.Int.{pos}
use hedp.Prelude.Texts.{codes, str_eq}
use hedp.Prelude.Json.{
  Json, null, integer, text, array, object, Members, no_members, member, from_list,
}
use hedp.GasQueue.{
  Candidate, Database, find_receipt, has_key, receipt_exists, insert_receipt,
  sensitive_field_present,
}
use hedp.GasQueue.Store.{
  find_raw, existing_raw, compare_from, import_item, import_items, after_compare, commit, transact,
  run,
}
use hedp.GasQueue.Atomic.{is_completed}
use hedp.GasQueue.Sound.{IsSound}
use hedp.GasQueue.Request.{reject_secrets, is_secret, validate_request, validate_members}
use hedp.GasQueue.Request.Secrets.{IsPlain, keys_within, reject_secrets-AllPlain}
use hedp.GasQueue.Importer.{run_path, run_candidates, Imported, run_path-Imported}
use hedp.GasQueue.Energy.{
  Readers, series, check_series, read_axis, check_steps, build, number_of, series_records,
  all_series, daily_records,
}
use hedp.GasQueue.Envelope.{
  Library, File, read_pieces, read_content, match_filename, utc_timestamp, check_envelope,
  read_payload, read_envelope, read_matched, read_file, read_files, check_balance, validate_payload,
  find_identity, check_identities, candidates,
}
use hedp.GasQueue.Envelope.Checked.{AllChecked}
use hedp.GasQueue.Envelope.OneHash.{AllAgree, candidates-AllChecked}

-- A payload with a key under a list.
abbrev nested : Json
nested =
    object
      (member "data" (array (from_list (object (member "token" null no_members) ∷ []))) no_members)

nested-refused : reject_secrets codes nested ≡ err sensitive_field_present
unfolding reject_secrets is_secret
nested-refused = refl

reject_secrets-AllPlain_example :
    (reject_secrets codes nested ≡ ok tt) ↔ All (IsPlain codes) (keys_within nested)
reject_secrets-AllPlain_example = reject_secrets-AllPlain codes nested

-- Times as "HHMM", and the axis of a day.
abbrev two_digits : ℕ → ℕ → ℕ
two_digits a b = 10 * (a - 0x30) + (b - 0x30)

abbrev seconds_of : List ℕ → ℕ
seconds_of (a ∷ b ∷ c ∷ d ∷ []) = 3600 * two_digits a b + 60 * two_digits c d
seconds_of _ = 0

abbrev readers : Readers
readers = record {
  local_time = λ s. some (record { day = "2026-08-01"; seconds = seconds_of (codes s) });
  midnight = λ day. 0;
  float_of = λ s. none;
}

abbrev hours : List String
hours =
    "00" ∷ "01" ∷ "02" ∷ "03" ∷ "04" ∷ "05" ∷ "06" ∷ "07" ∷ "08" ∷ "09" ∷ "10" ∷ "11" ∷ "12" ∷ "13"
    ∷ "14" ∷ "15" ∷ "16" ∷ "17" ∷ "18" ∷ "19" ∷ "20" ∷ "21" ∷ "22" ∷ "23" ∷ []

abbrev minutes : List String
minutes = "00" ∷ "05" ∷ "10" ∷ "15" ∷ "20" ∷ "25" ∷ "30" ∷ "35" ∷ "40" ∷ "45" ∷ "50" ∷ "55" ∷ []

abbrev axis_from : List String → List Json
axis_from [] = []
axis_from (hour ∷ others) = map (λ minute. text (join hour minute)) minutes ++ axis_from others

abbrev constant_values : {A : Type 0} → List A → List Json
constant_values [] = []
constant_values (x ∷ xs) = null ∷ constant_values xs

abbrev all_null : List String → Members
all_null [] = member "totalUsePower" (integer (pos 9)) no_members
all_null (metric ∷ metrics) =
    member metric (array (from_list (constant_values (axis_from hours)))) (all_null metrics)

abbrev balance : Members
balance =
    member "data" (object (member "xAxis" (array (from_list (axis_from hours))) (all_null series)))
      no_members

abbrev digest : String
digest = "0123456789abcdef0011"

abbrev request : Members
request = member "method" (text "GET") (
    member "endpoint" (text "/rest/pvms/web/station/v1/overview/energy-balance")
      (member "timeDim" (text "2") no_members))

abbrev queue_envelope : Members
queue_envelope = member "schema_version" (integer (pos 2)) (
    member "source" (text "fusionsolar_energy_balance") (
      member "collected_at" (text "2026-08-01T15:00:00Z") (
        member "target_date" (text "2026-08-01") (
          member "request" (object request) (
            member "payload_sha256" (text digest)
              (member "payload_text" (text "payload") no_members))))))

abbrev library : Library
library = record {
  decode_utf8 = λ bytes. some "envelope";
  encode_utf8 = λ s. some (1 ∷ []);
  loads = λ s. if str_eq s "envelope" then ok (object queue_envelope) else ok (object balance);
  sha256 = λ bytes. digest;
  is_date = λ s. true;
  read_instant =
      λ t. some (record { microseconds = 5; is_utc = true; iso = "2026-08-01T15:00:00+00:00" });
  is_decimal = λ c. true;
  is_finite = λ s. true;
  fits_float = λ n. true;
  lower = codes;
  readers = readers;
}

abbrev queued : File
queued = record {
  file_name = "fusionsolar_energy_balance_2026-08-01_0123456789abcdef.json";
  is_link = false;
  inode_before = 7;
  size_before = 3;
  pieces = (1 ∷ 2 ∷ []) ∷ (3 ∷ []) ∷ [] ∷ [];
  inode_after = 7;
  size_after = 3;
}

abbrev candidate : Candidate Members
candidate = record {
  file_name = "fusionsolar_energy_balance_2026-08-01_0123456789abcdef.json";
  source = "fusionsolar_energy_balance";
  target_date = "2026-08-01";
  collected_at = "2026-08-01T15:00:00+00:00";
  payload_sha256 = digest;
  envelope_sha256 = digest;
  payload = balance;
}

queued-read : candidates library 0 false (queued ∷ []) ≡ ok (candidate ∷ [])
unfolding candidates read_files read_file match_filename read_matched read_content read_pieces
    read_envelope check_envelope read_payload utc_timestamp validate_request validate_members
    reject_secrets is_secret validate_payload check_balance build check_series read_axis check_steps
    number_of series_records all_series daily_records check_identities find_identity
queued-read = refl

candidates-AllChecked_example :
    (false ≡ false)
    × (1 ≤ length (queued ∷ []))
    × (length (queued ∷ []) ≤ 100)
    × AllChecked library (queued ∷ []) (candidate ∷ [])
    × AllAgree (candidate ∷ [])
candidates-AllChecked_example =
    candidates-AllChecked library 0 false (queued ∷ []) (candidate ∷ []) queued-read

abbrev empty : Database Members
empty = record { raw_rows = []; next_raw_id = 1; receipts = none }

abbrev equal : Members → Members → Bool
equal a b = true

abbrev at : Candidate Members → String
at item = "2026-08-02T00:00:00+00:00"

candidate-completed : is_completed (run equal at empty empty (candidate ∷ []) false).0 ≡ true
unfolding run transact after_compare commit compare_from import_items import_item receipt_exists
    find_receipt has_key existing_raw find_raw insert_receipt
candidate-completed = refl

queued-completed :
    is_completed (run_path library equal at 0 false (queued ∷ []) empty empty false).0 ≡ true
unfolding run_path
queued-completed =
    ap
      (λ r.
        is_completed (run_candidates library equal at 0 false (queued ∷ []) empty empty false r).0)
      queued-read
    ∙ candidate-completed

run_path-Imported_example :
    Imported library equal at 0 false
      (queued ∷ [])
      (run_path library equal at 0 false (queued ∷ []) empty empty false).1
    × IsSound (run_path library equal at 0 false (queued ∷ []) empty empty false).1
run_path-Imported_example =
    run_path-Imported library equal at 0 false (queued ∷ []) empty empty false
      (record { used = tt; backed = tt; differ = tt }) queued-completed
