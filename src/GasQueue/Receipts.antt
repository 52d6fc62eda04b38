-- ===== src/GasQueue/Receipts.antt =====
-- src/hedp/adapters/fusionsolar/gas_queue_importer.py: the table of receipts, looked up and added to.
use Prim.Native.String.{String}
use hedp.Prelude.{
  ℕ, ◌≡◌, ◌↔◌, inl, inr, refl, true, false, Option, none, some, List, [], ◌∷◌, ◌++◌, arith, any, ok,
  Bool-cases, Option-cases, Ensures,
}
use hedp.Prelude.Texts.{str_eq, str_eq_iff}
use hedp.GasQueue.{
  Candidate, Receipt, Database, has_key, find_receipt, check_receipt, rows_of, receipt_exists,
  receipt_of, with_receipts, insert_receipt,
}

str_eq_refl : (s : String) → str_eq s s ≡ true
str_eq_refl s = (str_eq_iff s s).1 refl

module _ {Payload : Type 0} where
  pub find_receipt-append :
      (item : Candidate Payload) (rs more : List Receipt) (r : Receipt)
      → find_receipt item rs ≡ some r
      → find_receipt item (rs ++ more) ≡ some r
  unfolding find_receipt
  find_receipt-append item [] more r found = cc
  find_receipt-append item (s ∷ rs) more r found =
      ground (arith, find_receipt-append item rs more r)

  pub find_receipt-append_new :
      (item : Candidate Payload) (rs : List Receipt) (r : Receipt)
      → find_receipt item rs ≡ none
      → has_key item r ≡ true
      → find_receipt item (rs ++ r ∷ []) ≡ some r
  unfolding find_receipt
  find_receipt-append_new item [] r absent key = rw (key) refl
  find_receipt-append_new item (s ∷ rs) r absent key =
      ground (arith, λ (h : find_receipt item rs ≡ none). find_receipt-append_new item rs r h key)

  pub find_receipt-none :
      (item : Candidate Payload) (rs : List Receipt)
      → (find_receipt item rs ≡ none) ↔ (any (has_key item) rs ≡ false)
  unfolding find_receipt
  find_receipt-none item [] = (λ _. refl, λ _. refl)
  find_receipt-none item (s ∷ rs) = ground (arith, find_receipt-none item rs)

  pub receipt_of-has_key :
      (imported_at : String) (id : ℕ) (item : Candidate Payload)
      → has_key item (receipt_of imported_at id item) ≡ true
  unfolding has_key
  receipt_of-has_key imported_at id item =
      rw (str_eq_refl item.source, str_eq_refl item.target_date, str_eq_refl item.payload_sha256)
        refl

  pub check_receipt_of :
      (imported_at : String) (id : ℕ) (item : Candidate Payload)
      → check_receipt item (some (receipt_of imported_at id item)) ≡ ok true
  check_receipt_of imported_at id item =
      rw (str_eq_refl item.envelope_sha256, str_eq_refl item.file_name) refl

module _ {Payload : Type 0} where
  check_receipt-absent :
      (item : Candidate Payload) (found : Option Receipt)
      → check_receipt item found ≡ ok false
      → found ≡ none
  check_receipt-absent item none checked = refl
  check_receipt-absent item (some r) checked = absurd (ground arith)

  pub receipt_exists-absent :
      (db : Database Payload) (item : Candidate Payload)
      → receipt_exists db item ≡ ok false
      → find_receipt item (rows_of db.receipts) ≡ none
  unfolding receipt_exists
  receipt_exists-absent db item checked =
      check_receipt-absent item (find_receipt item (rows_of db.receipts)) checked

  pub insert_receipt-Ensures :
      (P : Database Payload → Type 0) (at : String) (db : Database Payload)
      (item : Candidate Payload) (id : ℕ)
      → ((rs : List Receipt)
          → db.receipts ≡ some rs
          → P (with_receipts db (rs ++ receipt_of at id item ∷ [])))
      → Ensures P (insert_receipt at db item id)
  unfolding insert_receipt
  insert_receipt-Ensures P at db item id of_rows = elim (Option-cases db.receipts) [
    | inl missing ↦ rw (Ensures, missing) tt
    | inr (rs, created) ↦ elim (Bool-cases (any (has_key item) rs)) [
      | inl repeated ↦ rw (Ensures, created, repeated) tt
      | inr fresh ↦ rw (Ensures, created, fresh) (of_rows rs created)
    ]
  ]

  pub insert_receipt-inserts :
      (at : String) (db : Database Payload) (item : Candidate Payload) (id : ℕ) (rs : List Receipt)
      → db.receipts ≡ some rs
      → find_receipt item rs ≡ none
      → insert_receipt at db item id ≡ ok (with_receipts db (rs ++ receipt_of at id item ∷ []))
  unfolding insert_receipt
  insert_receipt-inserts at db item id rs created absent =
      rw (created, (find_receipt-none item rs).0 absent) refl
