-- ===== src/SmartLedz/State/Rows.antt =====
-- src/hedp/adapters/smartledz/state.py: the loop over rows, against a description of each of its
-- results by itself.
use Prim.Native.String.{String}
use hedp.Prelude.{
  ℕ, ◌+◌, ◌≡◌, refl, ap, ◌∙◌, Bool, true, false, Option, List, [], ◌∷◌, ◌++◌, arith, length, Result,
  ok, err, Result-cases, Ensures, Ensures-returned, All, if◌then◌else◌, inl, inr,
}
use hedp.Prelude.Json.{Json}
use hedp.Observations.{Quality, ObservationTime}
use hedp.SmartLedz.State.{
  ParsedCollection, RowFault, invalid_row, unmapped_row, skipped_row, Collected, nothing_collected,
  add_row, collect_rows, parse_rows, parsed, no_items, parse_data,
}

module _ {T : Type 0} where
  abbrev pub keep : Result RowFault T → List T → List T
  keep (ok item) items = item ∷ items
  keep (err _) items = items

  -- The rows that are kept, in their order.
  unfoldable pub kept : (Json → Result RowFault T) → List Json → List T
  kept read [] = []
  kept read (row ∷ rows) = keep (read row) (kept read rows)

  abbrev pub is_invalid : Result RowFault T → Bool
  is_invalid (err invalid_row) = true
  is_invalid _ = false

  abbrev pub is_unmapped : Result RowFault T → Bool
  is_unmapped (err unmapped_row) = true
  is_unmapped _ = false

  abbrev pub is_skipped : Result RowFault T → Bool
  is_skipped (err skipped_row) = true
  is_skipped _ = false

  unfoldable pub count : (Result RowFault T → Bool) → (Json → Result RowFault T) → List Json → ℕ
  count test read [] = 0
  count test read (row ∷ rows) =
      let others = count test read rows in if test (read row) then others + 1 else others

append_snoc : {T : Type 0} (xs : List T) (x : T) (ys : List T) → (xs ++ x ∷ []) ++ ys ≡ xs ++ x ∷ ys
append_snoc [] x ys = refl
append_snoc (y ∷ xs) x ys = ap (◌∷◌ y) (append_snoc xs x ys)

append_nil : {T : Type 0} (xs : List T) → xs ≡ xs ++ []
append_nil [] = refl
append_nil (x ∷ xs) = ap (◌∷◌ x) (append_nil xs)

module _ {T : Type 0} where
  keep-items :
      (c : Collected T) (r : Result RowFault T) (others : List T)
      → (add_row c r).items ++ others ≡ c.items ++ keep r others
  keep-items c (ok item) others = append_snoc c.items item others
  keep-items c (err invalid_row) others = refl
  keep-items c (err unmapped_row) others = refl
  keep-items c (err skipped_row) others = refl

  collect_rows-items :
      (read : Json → Result RowFault T) (rows : List Json) (c : Collected T)
      → (collect_rows read rows c).items ≡ c.items ++ kept read rows
  unfolding collect_rows kept
  collect_rows-items read [] c = append_nil c.items
  collect_rows-items read (row ∷ rows) c =
      collect_rows-items read rows (add_row c (read row)) ∙ keep-items c (read row) (kept read rows)

  add_row-invalid_count :
      (c : Collected T) (r : Result RowFault T)
      → (add_row c r).invalid_count
        ≡ (if is_invalid r then c.invalid_count + 1 else c.invalid_count)
  add_row-invalid_count c (ok item) = refl
  add_row-invalid_count c (err invalid_row) = refl
  add_row-invalid_count c (err unmapped_row) = refl
  add_row-invalid_count c (err skipped_row) = refl

  add_row-unmapped_count :
      (c : Collected T) (r : Result RowFault T)
      → (add_row c r).unmapped_count
        ≡ (if is_unmapped r then c.unmapped_count + 1 else c.unmapped_count)
  add_row-unmapped_count c (ok item) = refl
  add_row-unmapped_count c (err invalid_row) = refl
  add_row-unmapped_count c (err unmapped_row) = refl
  add_row-unmapped_count c (err skipped_row) = refl

  collect_rows-invalid_count :
      (read : Json → Result RowFault T) (rows : List Json) (c : Collected T)
      → (collect_rows read rows c).invalid_count ≡ c.invalid_count + count is_invalid read rows
  unfolding collect_rows count
  collect_rows-invalid_count read [] c = omega arith
  collect_rows-invalid_count read (row ∷ rows) c = ground (
    arith,
    collect_rows-invalid_count read rows (add_row c (read row)),
    add_row-invalid_count c (read row),
  )

  collect_rows-unmapped_count :
      (read : Json → Result RowFault T) (rows : List Json) (c : Collected T)
      → (collect_rows read rows c).unmapped_count ≡ c.unmapped_count + count is_unmapped read rows
  unfolding collect_rows count
  collect_rows-unmapped_count read [] c = omega arith
  collect_rows-unmapped_count read (row ∷ rows) c = ground (
    arith,
    collect_rows-unmapped_count read rows (add_row c (read row)),
    add_row-unmapped_count c (read row),
  )

  keep-counted :
      (r : Result RowFault T) (items : List T) (a b c n : ℕ)
      → length items + a + b + c ≡ n
      → length (keep r items)
          + (if is_invalid r then a + 1 else a)
          + (if is_unmapped r then b + 1 else b)
          + (if is_skipped r then c + 1 else c)
        ≡ n + 1
  keep-counted (ok item) items a b c n h = omega arith
  keep-counted (err invalid_row) items a b c n h = omega arith
  keep-counted (err unmapped_row) items a b c n h = omega arith
  keep-counted (err skipped_row) items a b c n h = omega arith

  -- Every row is kept or counted or skipped, once.
  pub kept_or_counted :
      (read : Json → Result RowFault T) (rows : List Json)
      → length (kept read rows)
          + count is_invalid read rows
          + count is_unmapped read rows
          + count is_skipped read rows
        ≡ length rows
  unfolding kept count
  kept_or_counted read [] = refl
  kept_or_counted read (row ∷ rows) = omega (
    arith,
    keep-counted (read row) (kept read rows) (count is_invalid read rows)
        (count is_unmapped read rows) (count is_skipped read rows) (length rows)
        (kept_or_counted read rows),
  )

  pub kept-All :
      (P : T → Type 0) (read : Json → Result RowFault T) (rows : List Json)
      → ((row : Json) → Ensures P (read row))
      → All P (kept read rows)
  unfolding kept
  kept-All P read [] of_item = tt
  kept-All P read (row ∷ rows) of_item = elim (Result-cases (read row)) [
    | inl (fault, failed) ↦ rw (failed) (kept-All P read rows of_item)
    | inr (item, returned) ↦
        rw (returned)
          (Ensures-returned P (read row) item (of_item row) returned, kept-All P read rows of_item)
  ]

  abbrev pub tally : (Json → Result RowFault T) → List Json → Collected T
  tally read rows = record {
    items = kept read rows;
    invalid_count = count is_invalid read rows;
    unmapped_count = count is_unmapped read rows;
  }

  -- A collection, described result by result.
  abbrev pub summarize :
      (Json → Result RowFault T)
      → Result (Quality × Option String) (List Json)
      → ObservationTime
      → ParsedCollection T
  summarize read (err fault) t = no_items fault t
  summarize read (ok rows) t = parsed (tally read rows) t

  collect_rows-tally :
      (read : Json → Result RowFault T) (rows : List Json)
      → collect_rows read rows nothing_collected ≡ tally read rows
  collect_rows-tally read rows =
      let c : Collected T = collect_rows read rows nothing_collected in
      let u = count is_unmapped read rows in
      ap
        (λ v. record {
          items = v;
          invalid_count = c.invalid_count;
          unmapped_count = c.unmapped_count;
        })
        (collect_rows-items read rows nothing_collected)
      ∙ ap
          (λ v. record {
            items = kept read rows;
            invalid_count = v;
            unmapped_count = c.unmapped_count;
          })
          (omega (arith, collect_rows-invalid_count read rows nothing_collected))
      ∙ ap
          (λ v. record {
            items = kept read rows;
            invalid_count = count is_invalid read rows;
            unmapped_count = v;
          })
          (omega (arith, collect_rows-unmapped_count read rows nothing_collected))

  pub parse_rows-summarize :
      (read : Json → Result RowFault T) (rows : List Json) (t : ObservationTime)
      → parse_rows read rows t ≡ summarize read (ok rows) t
  parse_rows-summarize read rows t = ap (λ c. parsed c t) (collect_rows-tally read rows)

  pub parse_data-summarize :
      (read : Json → Result RowFault T) (data_of : Result (Quality × Option String) (List Json))
      (t : ObservationTime)
      → parse_data read data_of t ≡ summarize read data_of t
  parse_data-summarize read (err fault) t = refl
  parse_data-summarize read (ok rows) t = parse_rows-summarize read rows t
