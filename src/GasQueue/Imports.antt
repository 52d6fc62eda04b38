-- ===== src/GasQueue/Imports.antt =====
-- src/hedp/adapters/fusionsolar/gas_queue_importer.py: the import of one candidate, described by the rows
-- and receipts that a database has.
use Prim.Native.String.{String}
use hedp.Prelude.{
  ℕ, ◌+◌, ◌≡◌, ◌↔◌, inl, inr, refl, sym, ap, ◌∙◌, Bool, true, some, List, [], ◌∷◌, ◌++◌, arith, ok,
  All, Option-cases,
}
use hedp.Prelude.Texts.{str_eq_iff}
use hedp.GasQueue.{
  Candidate, RawData, Receipt, Database, number_value, text_value, find_receipt, check_receipt,
  rows_of, receipt_exists,
}
use hedp.GasQueue.Store.{existing_raw, import_item}
use hedp.GasQueue.Stored.{ImportStep, already, linked, added, import_item-ImportStep}
use hedp.GasQueue.Found.{
  FirstOf, IsOfDay, IsOfKey, IsFirstStored, find_receipt-found, find_receipt-absent, find_raw-found,
  find_raw-none,
}

module _ {Payload : Type 0} (same : Payload → Payload → Bool)
    (clock : Candidate Payload → String) where
  -- The receipt of a candidate that the row of an id holds.
  abbrev pub receipt_for : Candidate Payload → ℕ → Receipt
  receipt_for item id = record {
    schema_version = 2;
    source = item.source;
    target_date = item.target_date;
    payload_sha256 = item.payload_sha256;
    file_name = item.file_name;
    envelope_sha256 = item.envelope_sha256;
    collected_at = item.collected_at;
    imported_at = clock item;
    raw_data_id = id;
    status = "imported";
  }

  -- The row of a candidate.
  abbrev pub row_for : Candidate Payload → RawData Payload
  row_for item = record {
    source = item.source;
    timestamp = item.collected_at;
    payload = item.payload;
    target_date = some item.target_date;
    metadata =
        ("transport", text_value "gas_drive_queue")
        ∷ ("schema_version", number_value 2)
        ∷ ("source_file", text_value item.file_name)
        ∷ ("payload_sha256", text_value item.payload_sha256)
        ∷ [];
  }

  -- What the import of a candidate makes of a database: nothing, where there is a receipt of its key,
  -- which is of its file and envelope; its receipt, where there is none, but a row of its source, day
  -- and payload, the first of which the receipt names; or its row and receipt, where there is neither
  -- a receipt of its key nor a row of its source and day.
  pub data Imports (db : Database Payload) (item : Candidate Payload)
      : Database Payload → Type 0 where
    imported :
        (r : Receipt)
        → FirstOf (IsOfKey item) (rows_of db.receipts) r
        → r.envelope_sha256 ≡ item.envelope_sha256
        → r.file_name ≡ item.file_name
        → Imports db item db
    receipt_only :
        (rs : List Receipt) (id : ℕ)
        → db.receipts ≡ some rs
        → All (λ r. ¬ IsOfKey item r) rs
        → IsFirstStored same item db.raw_rows id
        → Imports db item (record {
          raw_rows = db.raw_rows;
          next_raw_id = db.next_raw_id;
          receipts = some (rs ++ receipt_for item id ∷ []);
        })
    row_and_receipt :
        (rs : List Receipt)
        → db.receipts ≡ some rs
        → All (λ r. ¬ IsOfKey item r) rs
        → All (λ row. ¬ IsOfDay item row.1) db.raw_rows
        → Imports db item (record {
          raw_rows = db.raw_rows ++ (db.next_raw_id, row_for item) ∷ [];
          next_raw_id = db.next_raw_id + 1;
          receipts = some (rs ++ receipt_for item db.next_raw_id ∷ []);
        })

  receipt_exists-imported :
      (db : Database Payload) (item : Candidate Payload)
      → receipt_exists db item ≡ ok true
      → Imports db item db
  unfolding receipt_exists
  receipt_exists-imported db item exists =
      elim (Option-cases (find_receipt item (rows_of db.receipts))) [
        | inl absent ↦
            let no_receipt = sym (ap (check_receipt item) absent) ∙ exists in absurd (ground arith)
        | inr (r, found) ↦
            let checked : check_receipt item (some r) ≡ ok true =
              sym (ap (check_receipt item) found) ∙ exists in
            imported r ((find_receipt-found item (rows_of db.receipts) r).0 found)
              ((str_eq_iff r.envelope_sha256 item.envelope_sha256).0 (ground arith))
              ((str_eq_iff r.file_name item.file_name).0 (ground arith))
      ]

  imported-receipt_exists :
      (db : Database Payload) (item : Candidate Payload) (r : Receipt)
      → FirstOf (IsOfKey item) (rows_of db.receipts) r
      → r.envelope_sha256 ≡ item.envelope_sha256
      → r.file_name ≡ item.file_name
      → receipt_exists db item ≡ ok true
  unfolding receipt_exists
  imported-receipt_exists db item r first same_envelope same_name =
      ap (check_receipt item) ((find_receipt-found item (rows_of db.receipts) r).1 first)
      ∙ rw
          (
            (str_eq_iff r.envelope_sha256 item.envelope_sha256).1 same_envelope,
            (str_eq_iff r.file_name item.file_name).1 same_name,
          )
          refl

  step-Imports :
      (db : Database Payload) (item : Candidate Payload) (next : Database Payload)
      → ImportStep same clock db item next
      → Imports db item next
  unfolding existing_raw
  step-Imports db item next (already there) = receipt_exists-imported db item there
  step-Imports db item next (linked rs id created absent found) =
      receipt_only rs id created ((find_receipt-absent item rs).0 absent)
        ((find_raw-found same item db.raw_rows id).0 found)
  step-Imports db item next (added rs created absent found) =
      row_and_receipt rs created ((find_receipt-absent item rs).0 absent)
        ((find_raw-none same item db.raw_rows).0 found)

  Imports-step :
      (db : Database Payload) (item : Candidate Payload) (next : Database Payload)
      → Imports db item next
      → ImportStep same clock db item next
  unfolding existing_raw
  Imports-step db item next (imported r first same_envelope same_name) =
      already (imported-receipt_exists db item r first same_envelope same_name)
  Imports-step db item next (receipt_only rs id created absent first) =
      linked rs id created ((find_receipt-absent item rs).1 absent)
        ((find_raw-found same item db.raw_rows id).1 first)
  Imports-step db item next (row_and_receipt rs created absent none_of_day) =
      added rs created ((find_receipt-absent item rs).1 absent)
        ((find_raw-none same item db.raw_rows).1 none_of_day)

  -- The import of a candidate returns exactly the database that it is described to make: for a
  -- receipt of its key and file, the same one; for a row of its source, day and payload, one with its
  -- receipt; where there is neither such a receipt nor a row of its source and day, one with its row
  -- and receipt; and none in any other case.
  pub import_item-Imports :
      (db : Database Payload) (item : Candidate Payload) (next : Database Payload)
      → (import_item same clock db item ≡ ok next) ↔ Imports db item next
  import_item-Imports db item next =
      let (to, from) = import_item-ImportStep same clock db item next in
      (λ returned. step-Imports db item next (to returned), λ h. from (Imports-step db item next h))
