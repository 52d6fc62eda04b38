-- ===== src/Metrics/Examples.antt =====
-- Runs of the operational metrics, and their theorems at them.
use Prim.Native.String.{String}
use hedp.Prelude.{
  ℕ, ◌≡◌, refl, Bool, true, false, leb, Option, none, some, List, [], ◌∷◌, ◌++◌, ok, err, inl,
}
use hedp.Prelude.Json.{Json, text, array, object, Members, no_members, member, no_elements}
use hedp.Metrics.{
  daily, failed, network, OperationMetric, DatabaseCapacityMetric, operation_metric,
  database_metric, unhashable, duration_bucket, from_result, collect, probe_ok, counts, record_of,
}
use hedp.Metrics.Records.{
  is_valid_metric_record, is_valid_members, is_operation_record, record_of-written,
}
use hedp.Metrics.Journal.{
  Files, absent, append, append_all, append_bytes, rotate_if_needed, rotate, shift_first,
}
use hedp.Metrics.Journal.Appending.{view, AllBounded, AllFull}
use hedp.Metrics.Journal.Log.{IsNewest, append_all-IsNewest}
use hedp.Metrics.Summary.{Summary}

abbrev any_date : String → Bool
any_date s = true

abbrev one_to_five : ℕ → Bool
one_to_five k = leb 5 k

abbrev failure : OperationMetric
failure = record {
  operation = daily;
  outcome = failed;
  duration = "1_to_5s";
  failure_category = network;
}

abbrev probe_metric : DatabaseCapacityMetric
probe_metric = record {
  job = daily;
  status = probe_ok;
  database_bytes = 4096;
  filesystem_free_bytes = 9;
  page_count = some 1;
  free_page_count = some 0;
  raw_data_rows = none;
  record_rows = none;
  probe_duration = "1_to_5s";
}

failure-made : from_result daily failed one_to_five network ≡ ok failure
unfolding from_result duration_bucket
failure-made = refl

capacity-probed :
    collect daily false (some (9, 4096)) (counts 1 0 none none) one_to_five ≡ ok probe_metric
unfolding collect duration_bucket
capacity-probed = refl

record_of-written_example :
    (is_valid_metric_record any_date (object (record_of "2026-08-01" (operation_metric failure)))
      ≡ ok true)
    × (is_valid_metric_record any_date
          (object (record_of "2026-08-01" (database_metric probe_metric)))
        ≡ ok true)
record_of-written_example =
    record_of-written any_date "2026-08-01" daily failed network one_to_five failure false
      (some (9, 4096)) (counts 1 0 none none) probe_metric refl failure-made capacity-probed

-- A list in place of a job is not counted as an invalid line: it raises.
abbrev unhashable_job : Members
unhashable_job = member "date" (text "2026-08-01") (
    member "kind" (text "operation") (
      member "job" (array no_elements) (
        member "outcome" (text "failed") (
          member "duration" (text "under_1s")
            (member "failure_category" (text "network") no_members)))))

unhashable-job : is_valid_metric_record any_date (object unhashable_job) ≡ err unhashable
unfolding is_valid_metric_record is_valid_members is_operation_record
unhashable-job = refl

-- Lines known by their sizes: the third append rotates.
abbrev no_files : Files ℕ
no_files = record { active = absent; first = absent; second = absent }

abbrev sizes : List ℕ
sizes = 600000 ∷ 400000 ∷ 300000 ∷ []

-- The second generation is dropped once the active file is full for the third time.
abbrev many_sizes : List ℕ
many_sizes = 900000 ∷ 800000 ∷ 700000 ∷ 600000 ∷ []

oldest-dropped :
    view (λ n. n) (append_all (λ n. n) no_files many_sizes) ≡ 800000 ∷ 700000 ∷ 600000 ∷ []
unfolding append_all append append_bytes rotate_if_needed rotate shift_first
oldest-dropped = refl

rotation : view (λ n. n) (append_all (λ n. n) no_files sizes) ≡ sizes
unfolding append_all append append_bytes rotate_if_needed rotate shift_first
rotation = refl

append_all-IsNewest_example :
    IsNewest
      (λ n. n)
      (view (λ n. n) (append_all (λ n. n) no_files sizes))
      (view (λ n. n) no_files ++ sizes)
    × (AllBounded (λ n. n) no_files → AllBounded (λ n. n) (append_all (λ n. n) no_files sizes))
    × AllFull (λ n. n) (append_all (λ n. n) no_files sizes)
append_all-IsNewest_example =
    append_all-IsNewest (λ n. n) no_files sizes (tt, tt, tt) (inl refl, inl refl)

abbrev loads_line : String → Option Json
loads_line s = some (object (record_of "2026-08-01" (operation_metric failure)))

abbrev summary : Summary
summary = record {
  files_read = 1;
  accepted_records = 2;
  invalid_lines = 1;
  operation_counts =
      (
        record {
          date = "2026-08-01";
          job = "daily";
          outcome = "failed";
          failure_category = "network";
          duration = "1_to_5s";
        },
        2,
      )
      ∷ [];
  database_capacity = record {
    observed_days = 0;
    first_database_bytes = none;
    last_database_bytes = none;
    database_bytes_delta = none;
  };
}
