-- ===== src/GasQueue/Stored.antt =====
-- src/hedp/adapters/fusionsolar/gas_queue_importer.py: the import of one candidate as a step between
-- databases, and what a step keeps.
use Prim.Native.String.{String}
use hedp.Prelude.{
  ℕ, ◌≡◌, ◌↔◌, inl, inr, refl, sym, ap, ◌∙◌, Bool, true, false, Option, none, some, List, [], ◌∷◌,
  ◌++◌, arith, ok, ◌>>=◌, Option-cases, Ensures, bind-Ensures, Ensures-returned,
}
use hedp.GasQueue.{
  Candidate, Receipt, Database, find_receipt, check_receipt, rows_of, receipt_exists, receipt_of,
  insert_raw, with_receipts, insert_receipt,
}
use hedp.GasQueue.Receipts.{
  find_receipt-append, find_receipt-append_new, receipt_of-has_key, check_receipt_of,
  receipt_exists-absent, insert_receipt-Ensures, insert_receipt-inserts,
}
use hedp.GasQueue.Store.{existing_raw, import_raw, import_new, import_item}

module _ {Payload : Type 0} (same : Payload → Payload → Bool)
    (clock : Candidate Payload → String) where
  -- One round of the loop of `run`, as a relation: a receipt is there already; or the payload is in
  -- `raw_data` already and only the receipt is added; or there is nothing of the day, and both are.
  pub data ImportStep (db : Database Payload) (item : Candidate Payload)
      : Database Payload → Type 0 where
    already : receipt_exists db item ≡ ok true → ImportStep db item db
    linked :
        (rs : List Receipt) (id : ℕ)
        → db.receipts ≡ some rs
        → find_receipt item rs ≡ none
        → (existing_raw same db item).0 ≡ some id
        → ImportStep db item (with_receipts db (rs ++ receipt_of (clock item) id item ∷ []))
    added :
        (rs : List Receipt)
        → db.receipts ≡ some rs
        → find_receipt item rs ≡ none
        → existing_raw same db item ≡ (none, false)
        → ImportStep db item (
            with_receipts
              (insert_raw db item)
              (rs ++ receipt_of (clock item) db.next_raw_id item ∷ []))

  rows_absent :
      (db : Database Payload) (item : Candidate Payload) (rs : List Receipt)
      → receipt_exists db item ≡ ok false
      → db.receipts ≡ some rs
      → find_receipt item rs ≡ none
  rows_absent db item rs checked created =
      ap (λ o. find_receipt item (rows_of o)) (sym created) ∙ receipt_exists-absent db item checked

  import_raw-ImportStep :
      (db : Database Payload) (item : Candidate Payload) (raw : Option ℕ × Bool)
      → existing_raw same db item ≡ raw
      → receipt_exists db item ≡ ok false
      → Ensures (ImportStep db item) (import_raw same clock db item raw)
  import_raw-ImportStep db item (some id, day) found checked =
      insert_receipt-Ensures (ImportStep db item) (clock item) db item id (λ rs created.
        linked rs id created (rows_absent db item rs checked created) (ap (λ p. p.0) found))
  import_raw-ImportStep db item (none, true) found checked = tt
  import_raw-ImportStep db item (none, false) found checked =
      insert_receipt-Ensures (ImportStep db item) (clock item) (insert_raw db item) item
        db.next_raw_id
        (λ rs created. added rs created (rows_absent db item rs checked created) found)

  import_new-ImportStep :
      (db : Database Payload) (item : Candidate Payload) (exists : Bool)
      → receipt_exists db item ≡ ok exists
      → Ensures (ImportStep db item) (import_new same clock db item exists)
  import_new-ImportStep db item true checked = already checked
  import_new-ImportStep db item false checked =
      import_raw-ImportStep db item (existing_raw same db item) refl checked

  pub import_item-Ensures :
      (db : Database Payload) (item : Candidate Payload)
      → Ensures (ImportStep db item) (import_item same clock db item)
  unfolding import_item
  import_item-Ensures db item =
      bind-Ensures _ (receipt_exists db item) _
        λ exists checked. import_new-ImportStep db item exists checked

  import_raw_found :
      (db : Database Payload) (item : Candidate Payload) (raw : Option ℕ × Bool) (id : ℕ)
      → raw.0 ≡ some id
      → import_raw same clock db item raw ≡ insert_receipt (clock item) db item id
  import_raw_found db item (none, day) id found = absurd (ground arith)
  import_raw_found db item (some i, day) id found =
      let agree : i ≡ id = cc in ap (insert_receipt (clock item) db item) agree

  import_item_absent :
      (db : Database Payload) (item : Candidate Payload) (rs : List Receipt)
      → db.receipts ≡ some rs
      → find_receipt item rs ≡ none
      → import_item same clock db item ≡ import_raw same clock db item (existing_raw same db item)
  unfolding import_item receipt_exists
  import_item_absent db item rs created absent =
      let checked : receipt_exists db item ≡ ok false = rw (receipt_exists, created, absent) refl in
      ap (λ r. r >>= import_new same clock db item) checked

  step-import_item :
      (db : Database Payload) (item : Candidate Payload) (next : Database Payload)
      → ImportStep db item next
      → import_item same clock db item ≡ ok next
  unfolding import_item
  step-import_item db item next (already there) = rw (there) refl
  step-import_item db item next (linked rs id created absent found) =
      import_item_absent db item rs created absent
      ∙ import_raw_found db item (existing_raw same db item) id found
      ∙ insert_receipt-inserts (clock item) db item id rs created absent
  step-import_item db item next (added rs created absent found) =
      import_item_absent db item rs created absent
      ∙ ap (import_raw same clock db item) found
      ∙ insert_receipt-inserts (clock item) (insert_raw db item) item db.next_raw_id rs created
          absent

  -- The import of a candidate returns exactly the databases to which there is a step.
  pub import_item-ImportStep :
      (db : Database Payload) (item : Candidate Payload) (next : Database Payload)
      → (import_item same clock db item ≡ ok next) ↔ ImportStep db item next
  import_item-ImportStep db item next = (
    Ensures-returned (ImportStep db item) (import_item same clock db item) next
        (import_item-Ensures db item),
    step-import_item db item next,
  )

  stored-check_receipt :
      (item : Candidate Payload) (rs : List Receipt) (id : ℕ)
      → find_receipt item rs ≡ none
      → check_receipt item (find_receipt item (rs ++ receipt_of (clock item) id item ∷ []))
        ≡ ok true
  stored-check_receipt item rs id absent =
      let r = receipt_of (clock item) id item in
      ap (check_receipt item)
        (find_receipt-append_new item rs r absent (receipt_of-has_key (clock item) id item))
      ∙ check_receipt_of (clock item) id item

  -- After the step of a candidate its receipt is there, and the receipts that were there still are.
  pub step-receipt_exists :
      (db : Database Payload) (item : Candidate Payload) (next : Database Payload)
      → ImportStep db item next
      → receipt_exists next item ≡ ok true
  unfolding receipt_exists
  step-receipt_exists db item next (already there) = there
  step-receipt_exists db item next (linked rs id created absent found) =
      stored-check_receipt item rs id absent
  step-receipt_exists db item next (added rs created absent found) =
      stored-check_receipt item rs db.next_raw_id absent

  kept-check_receipt :
      (other : Candidate Payload) (o : Option (List Receipt)) (rs more : List Receipt)
      → o ≡ some rs
      → check_receipt other (find_receipt other (rows_of o)) ≡ ok true
      → check_receipt other (find_receipt other (rs ++ more)) ≡ ok true
  kept-check_receipt other o rs more created there =
      let here : check_receipt other (find_receipt other rs) ≡ ok true =
        ap (λ p. check_receipt other (find_receipt other (rows_of p))) (sym created) ∙ there in
      elim (Option-cases (find_receipt other rs)) [
        | inl missing ↦
            let nothing : check_receipt other none ≡ ok true =
              ap (check_receipt other) (sym missing) ∙ here in
            absurd (ground arith)
        | inr (r, found) ↦
            ap (check_receipt other) (find_receipt-append other rs more r found)
            ∙ ap (check_receipt other) (sym found)
            ∙ here
      ]

  pub step-receipt_kept :
      (db : Database Payload) (item other : Candidate Payload) (next : Database Payload)
      → ImportStep db item next
      → receipt_exists db other ≡ ok true
      → receipt_exists next other ≡ ok true
  unfolding receipt_exists
  step-receipt_kept db item other next (already _) there = there
  step-receipt_kept db item other next (linked rs id created absent found) there =
      kept-check_receipt other db.receipts rs (receipt_of (clock item) id item ∷ []) created there
  step-receipt_kept db item other next (added rs created absent found) there =
      kept-check_receipt other db.receipts rs (receipt_of (clock item) db.next_raw_id item ∷ [])
        created there
