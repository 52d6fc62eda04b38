-- ===== src/GasQueue/Atomic.antt =====
-- src/hedp/adapters/fusionsolar/gas_queue_importer.py: `run` writes all of its candidates or nothing.
use Prim.Native.String.{String}
use hedp.Prelude.{
  ℕ, ◌+◌, ◌≤◌, ◌≡◌, ◌⊎◌, inl, inr, refl, ap, subst, Bool, true, false, Option, none, some, List, [],
  ◌∷◌, ◌==◌, ==_iff, arith, length, Result, ok, err, Bool-cases, bind_returns,
}
use hedp.GasQueue.{
  GasQueueError, Candidate, Database, Status, blocked, dry_run, completed, Report, report,
  create_receipts, receipt_exists,
}
use hedp.GasQueue.Store.{
  existing_raw, count_item, compare_from, compare, import_items, after_compare, attempt, commit,
  transact, run,
}

abbrev pub is_status_completed : Status → Bool
is_status_completed completed = true
is_status_completed _ = false

abbrev pub is_completed : Result GasQueueError Report → Bool
is_completed (err _) = false
is_completed (ok r) = is_status_completed r.status

module _ {Payload : Type 0} (same : Payload → Payload → Bool)
    (clock : Candidate Payload → String) where
  after_compare-case :
      (P : Result GasQueueError Report × Database Payload → Type 0) (locked : Database Payload)
      (items : List (Candidate Payload)) (next : ℕ → Result GasQueueError Report × Database Payload)
      (compared : Result GasQueueError (ℕ × ℕ))
      → ((e : GasQueueError) → P (err e, locked))
      → ((d c : ℕ) → compared ≡ ok (d, c) → P (ok (report blocked items d c), locked))
      → ((d : ℕ) → compared ≡ ok (d, 0) → P (next d))
      → P (after_compare same clock locked items next compared)
  unfolding after_compare
  after_compare-case P locked items next (err e) failed found clear = failed e
  after_compare-case P locked items next (ok (d, c)) failed found clear =
      elim (Bool-cases (c == 0)) [
        | inl none_found ↦
            subst P (rw (none_found) refl)
              (clear d (ap (λ n. ok (d, n)) ((==_iff c 0).0 none_found)))
        | inr some_found ↦ subst P (rw (some_found) refl) (found d c refl)
      ]

  -- The two ways in which a run ends: nothing is written, or every candidate is imported.
  abbrev pub Unchanged : Database Payload → Result GasQueueError Report × Database Payload → Type 0
  Unchanged locked (result, after) = (is_completed result ≡ false) × (after ≡ locked)

  abbrev pub Committed :
      Database Payload
      → List (Candidate Payload)
      → Result GasQueueError Report × Database Payload
      → Type 0
  Committed locked items (result, after) =
      (duplicates : ℕ) × (result ≡ ok (report completed items duplicates 0))
      × (compare same (create_receipts locked) items ≡ ok (duplicates, 0))
      × (import_items same clock (create_receipts locked) items ≡ ok after)

  commit-ends :
      (locked : Database Payload) (items : List (Candidate Payload))
      (imported : Result GasQueueError (Database Payload)) (d : ℕ)
      → import_items same clock (create_receipts locked) items ≡ imported
      → compare same (create_receipts locked) items ≡ ok (d, 0)
      → Unchanged locked (commit same clock locked items imported d)
        ⊎ Committed locked items (commit same clock locked items imported d)
  unfolding commit
  commit-ends locked items (err e) d is_imported compared = inl (refl, refl)
  commit-ends locked items (ok stored) d is_imported compared = inr (d, refl, compared, is_imported)

  transact-ends :
      (locked : Database Payload) (items : List (Candidate Payload))
      → Unchanged locked (transact same clock locked items)
        ⊎ Committed locked items (transact same clock locked items)
  unfolding transact
  transact-ends locked items =
      after_compare-case (λ r. Unchanged locked r ⊎ Committed locked items r) locked items
        (commit same clock locked items (import_items same clock (create_receipts locked) items))
        (compare same (create_receipts locked) items) (λ e. inl (refl, refl))
        (λ d c _. inl (refl, refl))
        (λ d compared.
          commit-ends locked items (import_items same clock (create_receipts locked) items) d refl
            compared)

  attempt-ends :
      (locked : Database Payload) (items : List (Candidate Payload)) (is_dry_run : Bool) (d : ℕ)
      → Unchanged locked (attempt same clock locked items is_dry_run d)
        ⊎ ((is_dry_run ≡ false)
            × Committed locked items (attempt same clock locked items is_dry_run d))
  attempt-ends locked items true d = inl (refl, refl)
  attempt-ends locked items false d = elim (transact-ends locked items) [
    | inl unchanged ↦ inl unchanged
    | inr committed ↦ inr (refl, committed)
  ]

  -- A run either leaves the database as it is, and reports no completion; or, if it is no dry run,
  -- it reports completion without a conflict, and has imported every candidate, in order, into the
  -- database as it was when it was locked, whatever had been written to it since it was first read.
  pub run-ends :
      (seen locked : Database Payload) (items : List (Candidate Payload)) (is_dry_run : Bool)
      → Unchanged locked (run same clock seen locked items is_dry_run)
        ⊎ ((is_dry_run ≡ false)
            × Committed locked items (run same clock seen locked items is_dry_run))
  unfolding run
  run-ends seen locked items is_dry_run =
      after_compare-case
        (λ r. Unchanged locked r ⊎ ((is_dry_run ≡ false) × Committed locked items r)) locked items
        (attempt same clock locked items is_dry_run) (compare same seen items)
        (λ e. inl (refl, refl)) (λ d c _. inl (refl, refl))
        (λ d _. attempt-ends locked items is_dry_run d)

  count_item-step :
      (exists : Bool) (raw : Option ℕ × Bool) (counts : ℕ × ℕ)
      → (let next = count_item same exists raw counts in next.0 + next.1 ≤ counts.0 + counts.1 + 1)
  count_item-step true raw counts = omega arith
  count_item-step false (some id, day) counts = omega arith
  count_item-step false (none, true) counts = omega arith
  count_item-step false (none, false) counts = omega arith

  compare_from-bounded :
      (db : Database Payload) (items : List (Candidate Payload)) (counts last : ℕ × ℕ)
      → compare_from same db items counts ≡ ok last
      → last.0 + last.1 ≤ counts.0 + counts.1 + length items
  unfolding compare_from
  compare_from-bounded db [] counts last returned =
      let same_pair : counts ≡ last = cc in omega (arith, ap (λ p. p.0 + p.1) same_pair)
  compare_from-bounded db (item ∷ items) counts last returned =
      let (exists, _, others) = bind_returns (receipt_exists db item) _ returned in
      let raw = existing_raw same db item in
      omega (
        arith,
        count_item-step exists raw counts,
        compare_from-bounded db items (count_item same exists raw counts) last others,
      )

  -- The counts of a report add up.
  abbrev pub AddsUp : List (Candidate Payload) → Result GasQueueError Report → Type 0
  AddsUp items (err e) = Unit
  AddsUp items (ok r) =
      (r.files_checked ≡ length items)
      × (r.ready_to_import + r.duplicates_skipped + r.conflicts ≡ r.files_checked)

  report-AddsUp :
      (db : Database Payload) (items : List (Candidate Payload)) (status : Status) (d c : ℕ)
      → compare same db items ≡ ok (d, c)
      → AddsUp items (ok (report status items d c))
  report-AddsUp db items status d c compared =
      (refl, omega (arith, compare_from-bounded db items (0, 0) (d, c) compared))

  commit-AddsUp :
      (locked : Database Payload) (items : List (Candidate Payload))
      (imported : Result GasQueueError (Database Payload)) (d : ℕ)
      → compare same (create_receipts locked) items ≡ ok (d, 0)
      → AddsUp items (commit same clock locked items imported d).0
  unfolding commit
  commit-AddsUp locked items (err e) d compared = tt
  commit-AddsUp locked items (ok stored) d compared =
      report-AddsUp (create_receipts locked) items completed d 0 compared

  attempt-AddsUp :
      (seen locked : Database Payload) (items : List (Candidate Payload)) (is_dry_run : Bool)
      (d : ℕ)
      → compare same seen items ≡ ok (d, 0)
      → AddsUp items (attempt same clock locked items is_dry_run d).0
  unfolding transact
  attempt-AddsUp seen locked items true d compared = report-AddsUp seen items dry_run d 0 compared
  attempt-AddsUp seen locked items false d _ =
      let again = create_receipts locked in
      let imported = import_items same clock again items in
      after_compare-case (λ r. AddsUp items r.0) locked items
        (commit same clock locked items imported) (compare same again items) (λ e. tt)
        (λ d c compared. report-AddsUp again items blocked d c compared)
        (λ d compared. commit-AddsUp locked items imported d compared)

  -- In every report of a run, the files that are ready, the duplicates and the conflicts add up to
  -- the files that were checked.
  pub run-AddsUp :
      (seen locked : Database Payload) (items : List (Candidate Payload)) (is_dry_run : Bool)
      → AddsUp items (run same clock seen locked items is_dry_run).0
  unfolding run
  run-AddsUp seen locked items is_dry_run =
      after_compare-case (λ r. AddsUp items r.0) locked items
        (attempt same clock locked items is_dry_run) (compare same seen items) (λ e. tt)
        (λ d c compared. report-AddsUp seen items blocked d c compared)
        (λ d compared. attempt-AddsUp seen locked items is_dry_run d compared)
