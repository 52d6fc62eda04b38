-- ===== src/GasQueue/Again.antt =====
-- src/hedp/adapters/fusionsolar/gas_queue_importer.py: what has been imported is there, and is not
-- imported again.
use Prim.Native.String.{String}
use hedp.Prelude.{
  ℕ, ◌+◌, ◌≡◌, inl, inr, refl, sym, ap, subst, ◌∙◌, Bool, true, false, some, List, [], ◌∷◌, arith,
  length, ok, All, bind_returns,
}
use hedp.GasQueue.{
  Candidate, Database, Receipt, completed, report, create_receipts, receipt_exists, rows_of,
}
use hedp.GasQueue.Store.{
  compare_from, import_item, import_items, after_compare, commit, transact, run,
}
use hedp.GasQueue.Stored.{
  ImportStep, already, linked, added, import_item-ImportStep, step-receipt_exists,
  step-receipt_kept,
}
use hedp.GasQueue.Atomic.{is_completed, run-ends}

module _ {Payload : Type 0} (same : Payload → Payload → Bool)
    (clock : Candidate Payload → String) where
  -- Every candidate has its receipt, with its file name and its envelope's hash.
  abbrev pub AllStored : Database Payload → List (Candidate Payload) → Type 0
  AllStored db items = All (λ item. receipt_exists db item ≡ ok true) items

  import_items-kept :
      (db : Database Payload) (items : List (Candidate Payload)) (after : Database Payload)
      (other : Candidate Payload)
      → import_items same clock db items ≡ ok after
      → receipt_exists db other ≡ ok true
      → receipt_exists after other ≡ ok true
  unfolding import_items
  import_items-kept db [] after other returned there =
      let unchanged : db ≡ after = cc in
      subst (λ d. receipt_exists d other ≡ ok true) unchanged there
  import_items-kept db (item ∷ items) after other returned there =
      let (next, stepped, others) = bind_returns (import_item same clock db item) _ returned in
      import_items-kept next items after other others (
        step-receipt_kept same clock db item other next
          ((import_item-ImportStep same clock db item next).0 stepped) there)

  import_items-AllStored :
      (db : Database Payload) (items : List (Candidate Payload)) (after : Database Payload)
      → import_items same clock db items ≡ ok after
      → AllStored after items
  unfolding import_items
  import_items-AllStored db [] after returned = tt
  import_items-AllStored db (item ∷ items) after returned =
      let (next, stepped, others) = bind_returns (import_item same clock db item) _ returned in
      (
        import_items-kept next items after item others (
            step-receipt_exists same clock db item next
              ((import_item-ImportStep same clock db item next).0 stepped)),
        import_items-AllStored next items after others,
      )

  compare_from-stored :
      (db : Database Payload) (items : List (Candidate Payload)) (d c : ℕ)
      → AllStored db items
      → compare_from same db items (d, c) ≡ ok (d + length items, c)
  unfolding compare_from
  compare_from-stored db [] d c stored = ap (λ n. ok (n, c)) (omega arith)
  compare_from-stored db (item ∷ items) d c (there, stored) =
      rw (there) (compare_from-stored db items (d + 1) c stored ∙ ap (λ n. ok (n, c)) (omega arith))

  compare-stored :
      (db : Database Payload) (items : List (Candidate Payload))
      → AllStored db items
      → compare_from same db items (0, 0) ≡ ok (length items, 0)
  compare-stored db items stored =
      compare_from-stored db items 0 0 stored ∙ ap (λ n. ok (n, 0)) (omega arith)

  import_items-stored :
      (db : Database Payload) (items : List (Candidate Payload))
      → AllStored db items
      → import_items same clock db items ≡ ok db
  unfolding import_items import_item
  import_items-stored db [] stored = refl
  import_items-stored db (item ∷ items) (there, stored) =
      rw (there) (import_items-stored db items stored)

  -- The table of receipts is there.
  abbrev HasTable : Database Payload → Type 0
  HasTable db = (rs : List Receipt) × (db.receipts ≡ some rs)

  step-HasTable :
      (db : Database Payload) (item : Candidate Payload) (next : Database Payload)
      → ImportStep same clock db item next
      → HasTable db
      → HasTable next
  step-HasTable db item next (already _) has_table = has_table
  step-HasTable db item next (linked _ _ _ _ _) has_table = (_, refl)
  step-HasTable db item next (added _ _ _ _) has_table = (_, refl)

  import_items-HasTable :
      (db : Database Payload) (items : List (Candidate Payload)) (after : Database Payload)
      → import_items same clock db items ≡ ok after
      → HasTable db
      → HasTable after
  unfolding import_items
  import_items-HasTable db [] after returned has_table =
      let unchanged : db ≡ after = cc in subst HasTable unchanged has_table
  import_items-HasTable db (item ∷ items) after returned has_table =
      let (next, stepped, others) = bind_returns (import_item same clock db item) _ returned in
      import_items-HasTable next items after others (
        step-HasTable db item next ((import_item-ImportStep same clock db item next).0 stepped)
          has_table)

  HasTable-create_receipts : (db : Database Payload) → HasTable db → create_receipts db ≡ db
  HasTable-create_receipts db (rs, created) =
      ap (λ o. record { raw_rows = db.raw_rows; next_raw_id = db.next_raw_id; receipts = o })
        (ap (λ o. some (rows_of o)) created ∙ sym created)

  transact-stored :
      (db : Database Payload) (items : List (Candidate Payload))
      → create_receipts db ≡ db
      → AllStored db items
      → transact same clock db items ≡ (ok (report completed items (length items) 0), db)
  unfolding transact after_compare commit
  transact-stored db items has_table stored =
      rw (has_table, compare-stored db items stored, import_items-stored db items stored) refl

  run-stored :
      (db : Database Payload) (items : List (Candidate Payload))
      → create_receipts db ≡ db
      → AllStored db items
      → run same clock db db items false ≡ (ok (report completed items (length items) 0), db)
  unfolding run after_compare
  run-stored db items has_table stored =
      rw (compare-stored db items stored) (transact-stored db items has_table stored)

  -- Once a run is completed, every candidate has its receipt; and a second run on the database that
  -- it leaves, with the same candidates, completes, skips every one of them and changes nothing.
  pub run-again :
      (seen locked : Database Payload) (items : List (Candidate Payload)) (is_dry_run : Bool)
      → is_completed (run same clock seen locked items is_dry_run).0 ≡ true
      → (let after = (run same clock seen locked items is_dry_run).1 in
          AllStored after items
          × (run same clock after after items false
              ≡ (ok (report completed items (length items) 0), after)))
  run-again seen locked items is_dry_run is_done =
      elim (run-ends same clock seen locked items is_dry_run) [
        | inl (open_still, _) ↦ cc
        | inr (_, (d, reported, compared, imported)) ↦
            let after = (run same clock seen locked items is_dry_run).1 in
            let stored = import_items-AllStored (create_receipts locked) items after imported in
            let has_table =
              import_items-HasTable (create_receipts locked) items after imported (_, refl) in
            (stored, run-stored after items (HasTable-create_receipts after has_table) stored)
      ]
