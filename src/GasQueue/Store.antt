-- ===== src/GasQueue/Store.antt =====
-- src/hedp/adapters/fusionsolar/gas_queue_importer.py: the comparison of candidates with what is
-- stored, and `run`. The clock is an argument, which tells when the receipt of a candidate is written.
use Prim.Native.String.{String}
use hedp.Prelude.{
  ℕ, ◌+◌, Bool, true, false, not, Option, none, some, List, [], ◌∷◌, ◌==◌, if◌then◌else◌, Result,
  ok, err, ◌>>=◌,
}
use hedp.GasQueue.{
  GasQueueError, same_day_payload_conflict, Candidate, RawData, Database, inspected, blocked,
  dry_run, completed, Report, report, receipt_exists, create_receipts, insert_raw, insert_receipt,
  is_of_day,
}

abbrev pub pick_raw : Bool → Bool → ℕ → Option ℕ × Bool → Option ℕ × Bool
pick_raw false agrees id others = others
pick_raw true true id others = (some id, false)
pick_raw true false id (some other, day) = (some other, day)
pick_raw true false id (none, day) = (none, true)

module _ {Payload : Type 0} (same : Payload → Payload → Bool) where
  -- The loop of `_existing_raw`: the id of the first row of the day with the payload, or else
  -- whether there is a row of the day.
  unfoldable pub find_raw : Candidate Payload → List (ℕ × RawData Payload) → Option ℕ × Bool
  find_raw item [] = (none, false)
  find_raw item ((id, raw) ∷ rows) =
      pick_raw (is_of_day item raw) (same raw.payload item.payload) id (find_raw item rows)

  unfoldable pub existing_raw : Database Payload → Candidate Payload → Option ℕ × Bool
  existing_raw db item = find_raw item db.raw_rows

  -- What `_compare` counts one candidate as.
  abbrev pub count_raw : Option ℕ × Bool → ℕ × ℕ → ℕ × ℕ
  count_raw (some _, _) (duplicates, conflicts) = (duplicates + 1, conflicts)
  count_raw (none, true) (duplicates, conflicts) = (duplicates, conflicts + 1)
  count_raw (none, false) (duplicates, conflicts) = (duplicates, conflicts)

  abbrev pub count_item : Bool → Option ℕ × Bool → ℕ × ℕ → ℕ × ℕ
  count_item true raw (duplicates, conflicts) = (duplicates + 1, conflicts)
  count_item false raw counts = count_raw raw counts

  unfoldable pub compare_from :
      Database Payload → List (Candidate Payload) → ℕ × ℕ → Result GasQueueError (ℕ × ℕ)
  compare_from db [] counts = ok counts
  compare_from db (item ∷ items) counts = do
    exists ← receipt_exists db item
    compare_from db items (count_item exists (existing_raw db item) counts)

  -- `_compare`
  abbrev pub compare : Database Payload → List (Candidate Payload) → Result GasQueueError (ℕ × ℕ)
  compare db items = compare_from db items (0, 0)

  module _ (clock : Candidate Payload → String) where
    abbrev pub import_raw :
        Database Payload
        → Candidate Payload
        → Option ℕ × Bool
        → Result GasQueueError (Database Payload)
    import_raw db item (some id, _) = insert_receipt (clock item) db item id
    import_raw db item (none, true) = err same_day_payload_conflict
    import_raw db item (none, false) =
        insert_receipt (clock item) (insert_raw db item) item db.next_raw_id

    abbrev pub import_new :
        Database Payload → Candidate Payload → Bool → Result GasQueueError (Database Payload)
    import_new db item true = ok db
    import_new db item false = import_raw db item (existing_raw db item)

    -- The body of the loop of `run`
    unfoldable pub import_item :
        Database Payload → Candidate Payload → Result GasQueueError (Database Payload)
    import_item db item = receipt_exists db item >>= import_new db item

    unfoldable pub import_items :
        Database Payload → List (Candidate Payload) → Result GasQueueError (Database Payload)
    import_items db [] = ok db
    import_items db (item ∷ items) = import_item db item >>= λ next. import_items next items

    abbrev pub Ended : Type 0
    Ended = Result GasQueueError Report × Database Payload

    -- What both comparisons of `run` lead to, on the database as it is once it is locked: an error
    -- or a conflict leaves it as it is.
    unfoldable pub after_compare :
        Database Payload
        → List (Candidate Payload)
        → (ℕ → Ended)
        → Result GasQueueError (ℕ × ℕ)
        → Ended
    after_compare locked items next (err e) = (err e, locked)
    after_compare locked items next (ok (duplicates, conflicts)) =
        if not (conflicts == 0)
        then (ok (report blocked items duplicates conflicts), locked)
        else next duplicates

    -- The commit, or the rollback of an exception.
    unfoldable pub commit :
        Database Payload
        → List (Candidate Payload)
        → Result GasQueueError (Database Payload)
        → ℕ
        → Ended
    commit locked items (err e) duplicates = (err e, locked)
    commit locked items (ok stored) duplicates = (ok (report completed items duplicates 0), stored)

    -- From `BEGIN IMMEDIATE` on
    unfoldable pub transact : Database Payload → List (Candidate Payload) → Ended
    transact locked items =
        after_compare locked items
          (commit locked items (import_items (create_receipts locked) items))
          (compare (create_receipts locked) items)

    abbrev pub attempt : Database Payload → List (Candidate Payload) → Bool → ℕ → Ended
    attempt locked items true duplicates = (ok (report dry_run items duplicates 0), locked)
    attempt locked items false duplicates = transact locked items

    -- `run` after `_candidates`. It sees the database first without a lock, and takes the lock only
    -- if it is to write; in between others may have written to it.
    unfoldable pub run :
        Database Payload → Database Payload → List (Candidate Payload) → Bool → Ended
    run seen locked items is_dry_run =
        after_compare locked items (attempt locked items is_dry_run) (compare seen items)

  -- `inspect`
  abbrev pub inspect : List (Candidate Payload) → Report
  inspect items = report inspected items 0 0
