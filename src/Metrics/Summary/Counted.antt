-- ===== src/Metrics/Summary/Counted.antt =====
-- src/hedp/operations/operational_metrics.py: what the numbers of a summary add up to.
use Prim.Native.String.{String}
use hedp.Prelude.{ℕ, ◌+◌, ◌≡◌, Bool, true, Option, List, [], ◌∷◌, length, if◌then◌else◌, ok, All}
use hedp.Prelude.Json.{Json, object, Members}
use hedp.Metrics.Records.{is_valid_metric_record}
use hedp.Metrics.Summary.{
  Source, missing, unreadable, readable, Scan, OperationKey, Summary, is_operation,
}

-- The lines and the files that are told apart: a file that cannot be read counts as one line.
abbrev pub lines_in : List Source → ℕ
lines_in [] = 0
lines_in (missing ∷ sources) = lines_in sources
lines_in (unreadable ∷ sources) = lines_in sources + 1
lines_in (readable lines ∷ sources) = lines_in sources + length lines

abbrev pub files_in : List Source → ℕ
files_in [] = 0
files_in (readable _ ∷ sources) = files_in sources + 1
files_in (_ ∷ sources) = files_in sources

abbrev pub sum_counts : List (OperationKey × ℕ) → ℕ
sum_counts [] = 0
sum_counts ((_, n) ∷ counts) = n + sum_counts counts

unfoldable pub operations_in : List Members → ℕ
operations_in [] = 0
operations_in (ms ∷ records) =
    let others = operations_in records in if is_operation ms then others + 1 else others

module _ (loads : String → Option Json) (is_date : String → Bool) where
  abbrev pub IsValid : Members → Type 0
  IsValid ms = is_valid_metric_record is_date (object ms) ≡ ok true

  -- From one scan to a later one: so many lines and so many files more, and only valid records.
  abbrev pub Scans : ℕ → ℕ → Scan → Scan → Type 0
  Scans lines files before after =
      (length after.records + after.invalid_lines
        ≡ length before.records + before.invalid_lines + lines)
      × (after.files_read ≡ before.files_read + files)
      × (All IsValid before.records → All IsValid after.records)

  -- The summary is that of some valid records, with the invalid lines and the files all counted.
  abbrev pub Summarizes : List Source → Summary → Type 0
  Summarizes sources summary =
      (records : List Members) × All IsValid records
      × (summary.accepted_records ≡ length records)
      × (summary.accepted_records + summary.invalid_lines ≡ lines_in sources)
      × (summary.files_read ≡ files_in sources)
      × (sum_counts summary.operation_counts ≡ operations_in records)
