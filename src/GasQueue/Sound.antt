-- ===== src/GasQueue/Sound.antt =====
-- src/hedp/adapters/fusionsolar/gas_queue_importer.py: the invariant of the stored rows and receipts.
use Prim.Native.String.{String}
use hedp.Prelude.{
  ℕ, ◌+◌, ◌<◌, ◌≡◌, ◌⊎◌, inl, inr, refl, sym, ap, subst, ◌∙◌, Bool, true, false, ◌&&◌, ◌||◌, Option,
  none, some, List, [], ◌∷◌, ◌++◌, ◌==◌, ==_refl, arith, any, any-append, ok, All, All-imp,
  All-append, or-false, bind_returns,
}
use hedp.Prelude.Texts.{str_eq, str_eq_iff}
use hedp.GasQueue.{
  Candidate, Database, RawData, Receipt, raw_data, has_key, find_receipt, create_receipts, rows_of,
  receipt_of, is_day, is_of_day,
}
use hedp.GasQueue.Store.{pick_raw, find_raw, existing_raw, import_item, import_items, run}
use hedp.GasQueue.Receipts.{find_receipt-none}
use hedp.GasQueue.Stored.{ImportStep, already, linked, added, import_item-ImportStep}
use hedp.GasQueue.Atomic.{run-ends}

-- The two receipts have the same key.
abbrev pub same_keys : Receipt → Receipt → Bool
same_keys r s =
    r.schema_version == s.schema_version
    && str_eq r.source s.source
    && str_eq r.target_date s.target_date
    && str_eq r.payload_sha256 s.payload_sha256

-- No two receipts have the same key.
abbrev pub AllDiffer : List Receipt → Type 0
AllDiffer [] = Unit
AllDiffer (r ∷ rs) = All (λ s. same_keys r s ≡ false) rs × AllDiffer rs

AllDiffer-append_new :
    (rs : List Receipt) (r : Receipt)
    → AllDiffer rs
    → any (λ s. same_keys s r) rs ≡ false
    → AllDiffer (rs ++ r ∷ [])
AllDiffer-append_new [] r differ fresh = (tt, tt)
AllDiffer-append_new (s ∷ rs) r (of_s, differ) fresh =
    let (this, rest) = or-false (same_keys s r) (any (λ t. same_keys t r) rs) fresh in
    (
      All-append (λ t. same_keys s t ≡ false) rs (r ∷ []) of_s (this, tt),
      AllDiffer-append_new rs r differ rest,
    )

pick_raw-found :
    (of_day agrees : Bool) (i : ℕ) (others : Option ℕ × Bool) (id : ℕ)
    → (pick_raw of_day agrees i others).0 ≡ some id
    → ((of_day ≡ true) × (i ≡ id)) ⊎ (others.0 ≡ some id)
pick_raw-found false agrees i others id found = inr found
pick_raw-found true true i others id found = inl (refl, cc)
pick_raw-found true false i (some other, day) id found = inr found
pick_raw-found true false i (none, day) id found = inr found

module _ {Payload : Type 0} where
  -- The row is the one that the receipt names, and of its source and day.
  abbrev pub backs : Receipt → ℕ × RawData Payload → Bool
  backs r (id, raw) =
      id == r.raw_data_id && str_eq raw.source r.source && is_day raw.target_date r.target_date

  -- The ids of the rows are used up; every receipt names a row of its source and day; and no two
  -- receipts have the same key.
  pub record IsSound (db : Database Payload) : Type 0 where
    pub used : All (λ row. row.0 < db.next_raw_id) db.raw_rows
    pub backed : All (λ r. any (backs r) db.raw_rows ≡ true) (rows_of db.receipts)
    pub differ : AllDiffer (rows_of db.receipts)

  has_key-any :
      (at : String) (id : ℕ) (item : Candidate Payload) (rs : List Receipt)
      → any (has_key item) rs ≡ any (λ s. same_keys s (receipt_of at id item)) rs
  unfolding has_key
  has_key-any at id item [] = refl
  has_key-any at id item (r ∷ rs) =
      ap (λ b. same_keys r (receipt_of at id item) || b) (has_key-any at id item rs)

  day-backs :
      (item : Candidate Payload) (raw : RawData Payload) (id : ℕ) (at : String)
      → is_of_day item raw ≡ true
      → backs (receipt_of at id item) (id, raw) ≡ true
  day-backs item raw id at of_day = rw (==_refl id) of_day

  raw_data-backs :
      (item : Candidate Payload) (id : ℕ) (at : String)
      → backs (receipt_of at id item) (id, raw_data item) ≡ true
  raw_data-backs item id at =
      rw
        (
          ==_refl id,
          (str_eq_iff item.source item.source).1 refl,
          (str_eq_iff item.target_date item.target_date).1 refl,
        )
        refl

  any-append_old :
      (p : ℕ × RawData Payload → Bool) (xs ys : List (ℕ × RawData Payload))
      → any p xs ≡ true
      → any p (xs ++ ys) ≡ true
  any-append_old p xs ys old = any-append p xs ys ∙ ap (λ b. b || any p ys) old

  any-append_last :
      (p : ℕ × RawData Payload → Bool) (xs : List (ℕ × RawData Payload)) (x : ℕ × RawData Payload)
      → p x ≡ true
      → any p (xs ++ x ∷ []) ≡ true
  any-append_last p xs x last = any-append p xs (x ∷ []) ∙ ground (arith, last)

  AllBacked-append :
      (rows : List (ℕ × RawData Payload)) (rs : List Receipt) (r : Receipt)
      → All (λ s. any (backs s) rows ≡ true) rs
      → any (backs r) rows ≡ true
      → All (λ s. any (backs s) rows ≡ true) (rs ++ r ∷ [])
  AllBacked-append rows rs r backed this =
      All-append (λ s. any (backs s) rows ≡ true) rs (r ∷ []) backed (this, tt)

  AllDiffer-append_receipt :
      (at : String) (id : ℕ) (item : Candidate Payload) (rs : List Receipt)
      → AllDiffer rs
      → find_receipt item rs ≡ none
      → AllDiffer (rs ++ receipt_of at id item ∷ [])
  AllDiffer-append_receipt at id item rs differ absent =
      AllDiffer-append_new rs (receipt_of at id item) differ
        (sym (has_key-any at id item rs) ∙ (find_receipt-none item rs).0 absent)

module _ {Payload : Type 0} (same : Payload → Payload → Bool)
    (clock : Candidate Payload → String) where
  -- A row that is found is one of the day, under its id.
  find_raw-backs :
      (item : Candidate Payload) (rows : List (ℕ × RawData Payload)) (id : ℕ) (at : String)
      → (find_raw same item rows).0 ≡ some id
      → any (backs (receipt_of at id item)) rows ≡ true
  unfolding find_raw
  find_raw-backs item [] id at found = cc
  find_raw-backs item ((i, raw) ∷ rows) id at found =
      elim (pick_raw-found (is_of_day item raw) (same raw.payload item.payload) i
        (find_raw same item rows) id found) [
          | inl (of_day, first) ↦
              let here : backs (receipt_of at id item) (i, raw) ≡ true =
                rw (first) (day-backs item raw id at of_day) in
              ap (λ b. b || any (backs (receipt_of at id item)) rows) here
          | inr later ↦ ground (arith, find_raw-backs item rows id at later)
        ]

  step-IsSound :
      (db : Database Payload) (item : Candidate Payload) (next : Database Payload)
      → ImportStep same clock db item next
      → IsSound db
      → IsSound next
  unfolding existing_raw
  step-IsSound db item next (already _) sound = sound
  step-IsSound db item next (linked rs id created absent found) sound =
      let old : rows_of db.receipts ≡ rs = ap rows_of created in
      record {
        used = sound.used;
        backed =
            AllBacked-append db.raw_rows rs (receipt_of (clock item) id item)
              (subst (All (λ s. any (backs s) db.raw_rows ≡ true)) old sound.backed)
              (find_raw-backs item db.raw_rows id (clock item) found);
        differ =
            AllDiffer-append_receipt (clock item) id item rs (subst AllDiffer old sound.differ)
              absent;
      }
  step-IsSound db item next (added rs created absent found) sound =
      let old : rows_of db.receipts ≡ rs = ap rows_of created in
      let row : ℕ × RawData Payload = (db.next_raw_id, raw_data item) in
      record {
        used =
            All-append (λ x. x.0 < db.next_raw_id + 1) db.raw_rows (row ∷ [])
              (All-imp (λ x. x.0 < db.next_raw_id) (λ x. x.0 < db.next_raw_id + 1) db.raw_rows
                (λ x below. omega arith) sound.used)
              (omega arith, tt);
        backed =
            AllBacked-append (db.raw_rows ++ row ∷ []) rs
              (receipt_of (clock item) db.next_raw_id item)
              (All-imp (λ s. any (backs s) db.raw_rows ≡ true)
                (λ s. any (backs s) (db.raw_rows ++ row ∷ []) ≡ true) rs
                (λ s backed. any-append_old (backs s) db.raw_rows (row ∷ []) backed)
                (subst (All (λ s. any (backs s) db.raw_rows ≡ true)) old sound.backed))
              (any-append_last (backs (receipt_of (clock item) db.next_raw_id item)) db.raw_rows row
                (raw_data-backs item db.next_raw_id (clock item)));
        differ =
            AllDiffer-append_receipt (clock item) db.next_raw_id item rs
              (subst AllDiffer old sound.differ) absent;
      }

  import_items-IsSound :
      (db : Database Payload) (items : List (Candidate Payload)) (after : Database Payload)
      → import_items same clock db items ≡ ok after
      → IsSound db
      → IsSound after
  unfolding import_items
  import_items-IsSound db [] after returned sound =
      let unchanged : db ≡ after = cc in subst IsSound unchanged sound
  import_items-IsSound db (item ∷ items) after returned sound =
      let (next, stepped, others) = bind_returns (import_item same clock db item) _ returned in
      import_items-IsSound next items after others (
        step-IsSound db item next ((import_item-ImportStep same clock db item next).0 stepped)
          sound)

  -- A run keeps the database sound, however it ends: the ids of the raw rows are used up, every
  -- receipt names a raw row of its source and day, and no two receipts have the same key.
  pub run-IsSound :
      (seen locked : Database Payload) (items : List (Candidate Payload)) (is_dry_run : Bool)
      → IsSound locked
      → IsSound (run same clock seen locked items is_dry_run).1
  run-IsSound seen locked items is_dry_run sound =
      elim (run-ends same clock seen locked items is_dry_run) [
        | inl (_, unchanged) ↦ subst IsSound (sym unchanged) sound
        | inr (_, (_, _, _, imported)) ↦
            import_items-IsSound (create_receipts locked) items
              (run same clock seen locked items is_dry_run).1 imported
              (record { used = sound.used; backed = sound.backed; differ = sound.differ })
      ]
