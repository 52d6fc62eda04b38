-- ===== src/Cutover/Supplied.antt =====
-- src/hedp/operations/post_cutover.py: a snapshot made of supplied facts is evaluated on those facts.
use Prim.Native.String.{String}
use hedp.Prelude.{
  ℕ, ◌-◌, ◌≤◌, ◌≡◌, refl, Bool, true, false, some, List, [], ◌∷◌, map, ltb, ◌==◌, length, ok, All,
  arith,
}
use hedp.Prelude.Int.{ℤ, pos, ltb_ℤ}
use hedp.Prelude.Texts.{str_eq}
use hedp.Prelude.Json.{to_list-from_list, Json, integer, text, object, Members, no_members, member}
use hedp.Observations.{IsoReader}
use hedp.Cutover.{
  Job, Facts, old_jobs_running, duplicate_runs_detected, secrets_in_logs, local_config_git_tracked,
  timestamp, read_flags, read_job, read_jobs, read_facts, judge, evaluate_post_cutover, snapshot_of,
  create_post_cutover_snapshot,
}

-- A job as it is supplied.
abbrev pub supplied_job : Job → Json
supplied_job j = object (
    member "name" (text j.name) (
      member "expected_runs" (integer j.expected_runs) (
        member "successful_runs" (integer j.successful_runs)
          (member "failed_runs" (integer j.failed_runs) no_members))))

-- It has a name, and no count is negative.
abbrev pub IsCountable : Job → Type 0
IsCountable j =
    (str_eq j.name "" ≡ false)
    × (ltb_ℤ j.expected_runs (pos 0) ≡ false)
    × (ltb_ℤ j.successful_runs (pos 0) ≡ false)
    × (ltb_ℤ j.failed_runs (pos 0) ≡ false)

read_job-supplied_job : (j : Job) → IsCountable j → read_job (supplied_job j) ≡ ok j
unfolding read_job
read_job-supplied_job j (named, expected, successful, failing) =
    rw (named, expected, successful, failing) refl

read_jobs-supplied_job :
    (jobs : List Job) → All IsCountable jobs → read_jobs (map supplied_job jobs) ≡ ok jobs
unfolding read_jobs
read_jobs-supplied_job [] countable = refl
read_jobs-supplied_job (j ∷ jobs) (this, others) =
    rw (read_job-supplied_job j this, read_jobs-supplied_job jobs others) refl

timestamp-read :
    (read : IsoReader) (s : String) (at : ℕ)
    → read s ≡ some (at, true)
    → timestamp read (text s) ≡ ok at
unfolding timestamp
timestamp-read read s at is_read = rw (is_read) refl

not_before : (a b : ℕ) → a ≤ b → ltb b a ≡ false
not_before a b h = ground arith

length-cons : (v : Json) (vs : List Json) → (length (v ∷ vs) == 0) ≡ false
length-cons v vs = ground arith

-- The facts that are supplied, at a time `elapsed` after the start.
abbrev pub supplied_facts : ℕ → String → ℤ → ℤ → Bool → Bool → Bool → Bool → List Job → Facts
supplied_facts elapsed integrity start_count end_count old_jobs duplicates secrets tracked jobs =
    record {
      elapsed = elapsed;
      is_integrity_ok = str_eq integrity "ok";
      raw_count_start = start_count;
      raw_count_end = end_count;
      flags =
          (old_jobs_running, old_jobs)
          ∷ (duplicate_runs_detected, duplicates)
          ∷ (secrets_in_logs, secrets)
          ∷ (local_config_git_tracked, tracked)
          ∷ [];
      jobs = jobs;
    }

read_facts-snapshot_of :
    (read : IsoReader) (started checked integrity : String) (start_at end_at : ℕ)
    (start_count end_count : ℤ) (old_jobs duplicates secrets tracked : Bool) (j : Job)
    (jobs : List Job)
    → read started ≡ some (start_at, true)
    → read checked ≡ some (end_at, true)
    → start_at ≤ end_at
    → All IsCountable (j ∷ jobs)
    → read_facts read (
        snapshot_of started checked integrity start_count end_count old_jobs duplicates secrets
          tracked
          (map supplied_job (j ∷ jobs)))
      ≡ ok (
          supplied_facts
            (end_at - start_at)
            integrity
            start_count
            end_count
            old_jobs
            duplicates
            secrets
            tracked
            (j ∷ jobs))
unfolding read_facts read_flags
read_facts-snapshot_of read started checked integrity start_at end_at start_count end_count old_jobs
      duplicates secrets tracked j jobs starts ends in_order countable =
    rw
      (
        timestamp-read read started start_at starts,
        timestamp-read read checked end_at ends,
        not_before start_at end_at in_order,
        to_list-from_list (map supplied_job jobs),
        length-cons (supplied_job j) (map supplied_job jobs),
        read_jobs-supplied_job (j ∷ jobs) countable,
      )
      refl

-- Facts that can be evaluated are: where both texts are read as times with a timezone, the second not
-- before the first, and there is a first job, and every job has a name and no negative count, the
-- snapshot of them is returned, and its evaluation judges the facts that were supplied, in the time
-- between the two.
pub create_post_cutover_snapshot-supplied :
    (read : IsoReader) (started checked integrity : String) (start_at end_at : ℕ)
    (start_count end_count : ℤ) (old_jobs duplicates secrets tracked : Bool) (j : Job)
    (jobs : List Job)
    → read started ≡ some (start_at, true)
    → read checked ≡ some (end_at, true)
    → start_at ≤ end_at
    → All IsCountable (j ∷ jobs)
    → (snapshot : Members) × (create_post_cutover_snapshot read started checked integrity
          start_count end_count old_jobs duplicates secrets tracked
          (map supplied_job (j ∷ jobs))
        ≡ ok snapshot)
      × (evaluate_post_cutover read snapshot
          ≡ ok (
              judge (
                supplied_facts
                  (end_at - start_at)
                  integrity
                  start_count
                  end_count
                  old_jobs
                  duplicates
                  secrets
                  tracked
                  (j ∷ jobs))))
unfolding create_post_cutover_snapshot evaluate_post_cutover
create_post_cutover_snapshot-supplied read started checked integrity start_at end_at start_count
      end_count old_jobs duplicates secrets tracked j jobs starts ends in_order countable =
    let is_read =
      read_facts-snapshot_of read started checked integrity start_at end_at start_count end_count
        old_jobs duplicates secrets tracked j jobs starts ends in_order countable in
    (
      snapshot_of started checked integrity start_count end_count old_jobs duplicates secrets
          tracked (map supplied_job (j ∷ jobs)),
      rw (is_read) refl,
      rw (is_read) refl,
    )
