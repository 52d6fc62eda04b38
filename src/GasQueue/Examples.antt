-- ===== src/GasQueue/Examples.antt =====
-- Runs of the import into the database, with numbers for payloads, and its theorems at them.
use Prim.Native.String.{String}
use hedp.Prelude.{ℕ, ◌≡◌, ◌↔◌, ◌⊎◌, refl, true, false, none, some, List, [], ◌∷◌, ◌==◌, length, ok}
use hedp.GasQueue.{
  Candidate, Database, completed, report, find_receipt, has_key, receipt_exists, insert_receipt,
  raw_data, receipt_of,
}
use hedp.GasQueue.Store.{
  find_raw, existing_raw, compare_from, import_item, import_items, after_compare, commit, transact,
  run,
}
use hedp.GasQueue.Imports.{Imports, import_item-Imports}
use hedp.GasQueue.Atomic.{is_completed, Unchanged, Committed, run-ends}
use hedp.GasQueue.Again.{AllStored, run-again}
use hedp.GasQueue.Sound.{IsSound, run-IsSound}

abbrev at : Candidate ℕ → String
at item = "2026-08-02T00:00:00+00:00"

abbrev first : Candidate ℕ
first = record {
  file_name = "fusionsolar_2026-08-01_0123456789abcdef.json";
  source = "fusionsolar";
  target_date = "2026-08-01";
  collected_at = "2026-08-01T15:00:00+00:00";
  payload_sha256 = "0123456789abcdef";
  envelope_sha256 = "aa";
  payload = 1;
}

abbrev second : Candidate ℕ
second = record first { target_date = "2026-08-02"; payload = 2; envelope_sha256 = "bb" }

abbrev changed : Candidate ℕ
changed = record first { payload = 3; payload_sha256 = "ff" }

abbrev empty : Database ℕ
empty = record { raw_rows = []; next_raw_id = 1; receipts = none }

abbrev both : List (Candidate ℕ)
both = first ∷ second ∷ []

run-both : (run ◌==◌ at empty empty both false).0 ≡ ok (report completed both 0 0)
unfolding run transact after_compare commit compare_from import_items import_item receipt_exists
    find_receipt has_key existing_raw find_raw insert_receipt
run-both = refl

both-completed : is_completed (run ◌==◌ at empty empty both false).0 ≡ true
unfolding run transact after_compare commit compare_from import_items import_item receipt_exists
    find_receipt has_key existing_raw find_raw insert_receipt
both-completed = refl

-- A changed payload of a day that has been imported blocks the run.
run-changed :
    (let after = (run ◌==◌ at empty empty both false).1 in
      is_completed (run ◌==◌ at after after (changed ∷ []) false).0)
    ≡ false
unfolding run transact after_compare commit compare_from import_items import_item receipt_exists
    find_receipt has_key existing_raw find_raw insert_receipt
run-changed = refl

empty-IsSound : IsSound empty
empty-IsSound = record { used = tt; backed = tt; differ = tt }

-- A second candidate of the same source and payload, of another day than the row that is there.
abbrev stored_first : Database ℕ
stored_first = record {
  raw_rows = (1, raw_data first) ∷ [];
  next_raw_id = 2;
  receipts = some (receipt_of "2026-08-02T00:00:00+00:00" 1 first ∷ []);
}

abbrev other_day : Candidate ℕ
other_day = record first { target_date = "2026-08-02" }

abbrev stored_both : Database ℕ
stored_both = record {
  raw_rows = (1, raw_data first) ∷ (2, raw_data other_day) ∷ [];
  next_raw_id = 3;
  receipts = some (
      receipt_of "2026-08-02T00:00:00+00:00" 1 first
      ∷ receipt_of "2026-08-02T00:00:00+00:00" 2 other_day
      ∷ []);
}

other_day-imported : import_item ◌==◌ at stored_first other_day ≡ ok stored_both
unfolding import_item receipt_exists find_receipt has_key existing_raw find_raw insert_receipt
other_day-imported = refl

import_item-Imports_example :
    (import_item ◌==◌ at stored_first other_day ≡ ok stored_both)
    ↔ Imports ◌==◌ at stored_first other_day stored_both
import_item-Imports_example = import_item-Imports ◌==◌ at stored_first other_day stored_both

run-ends_example :
    Unchanged ◌==◌ at empty (run ◌==◌ at empty empty both false)
    ⊎ ((false ≡ false) × Committed ◌==◌ at empty both (run ◌==◌ at empty empty both false))
run-ends_example = run-ends ◌==◌ at empty empty both false

run-again_example :
    let after = (run ◌==◌ at empty empty both false).1 in
    AllStored ◌==◌ at after both
    × (run ◌==◌ at after after both false ≡ (ok (report completed both (length both) 0), after))
run-again_example = run-again ◌==◌ at empty empty both false both-completed

run-IsSound_example : IsSound (run ◌==◌ at empty empty both false).1
run-IsSound_example = run-IsSound ◌==◌ at empty empty both false empty-IsSound
