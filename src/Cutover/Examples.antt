-- ===== src/Cutover/Examples.antt =====
-- A run of the post-cutover evaluation, and its theorem at it.
use hedp.Prelude.{◌≡◌, refl, arith, true, false, some, [], ◌∷◌, ok, if◌then◌else◌}
use hedp.Prelude.Int.{pos}
use hedp.Prelude.Texts.{str_eq}
use hedp.Prelude.Json.{
  Json, integer, text, boolean, object, array, from_list, Members, member, no_members,
}
use hedp.Observations.{IsoReader}
use hedp.Cutover.{
  passed, Facts, Job, read_facts, timestamp, read_flags, read_job, read_jobs, judge, findings_of,
  count_level, evaluate_post_cutover, create_post_cutover_snapshot, old_jobs_running,
  duplicate_runs_detected, secrets_in_logs, local_config_git_tracked,
}
use hedp.Cutover.Supplied.{supplied_facts, create_post_cutover_snapshot-supplied}
use hedp.Cutover.Verdict.{Judges, evaluate_post_cutover-Judges}

abbrev reader : IsoReader
reader s = if str_eq s "start" then some (0, true) else some (90000000000, true)

abbrev job_json : Json
job_json = object (
    member "name" (text "daily") (
      member "expected_runs" (integer (pos 1)) (
        member "successful_runs" (integer (pos 1))
          (member "failed_runs" (integer (pos 0)) no_members))))

abbrev snapshot : Members
snapshot = member "started_at" (text "start") (
    member "checked_at" (text "end") (
      member "database"
        (object (
          member "integrity" (text "ok") (
            member "raw_count_start" (integer (pos 3))
              (member "raw_count_end" (integer (pos 5)) no_members))))
        (member "safety"
          (object (
            member "old_jobs_running" (boolean false) (
              member "duplicate_runs_detected" (boolean false) (
                member "secrets_in_logs" (boolean false)
                  (member "local_config_git_tracked" (boolean false) no_members)))))
          (member "jobs" (array (from_list (job_json ∷ []))) no_members))))

snapshot-created :
    create_post_cutover_snapshot reader "start" "end" "ok"
      (pos 3)
      (pos 5)
      false
      false
      false
      false
      (job_json ∷ [])
    ≡ ok snapshot
unfolding create_post_cutover_snapshot evaluate_post_cutover read_facts timestamp read_flags
    read_job read_jobs
snapshot-created = refl

abbrev facts : Facts
facts = record {
  elapsed = 90000000000;
  is_integrity_ok = true;
  raw_count_start = pos 3;
  raw_count_end = pos 5;
  flags =
      (old_jobs_running, false)
      ∷ (duplicate_runs_detected, false)
      ∷ (secrets_in_logs, false)
      ∷ (local_config_git_tracked, false)
      ∷ [];
  jobs =
      record { name = "daily"; expected_runs = pos 1; successful_runs = pos 1; failed_runs = pos 0 }
      ∷ [];
}

snapshot-evaluated : evaluate_post_cutover reader snapshot ≡ ok (judge facts)
unfolding evaluate_post_cutover read_facts timestamp read_flags read_job read_jobs
snapshot-evaluated = refl

snapshot-passed : (judge facts).status ≡ passed
unfolding judge findings_of count_level
snapshot-passed = refl

evaluate_post_cutover-Judges_example :
    (read : Facts) × (read_facts reader snapshot ≡ ok read) × Judges read (judge facts)
evaluate_post_cutover-Judges_example =
    evaluate_post_cutover-Judges reader snapshot (judge facts) snapshot-evaluated

abbrev daily_job : Job
daily_job = record {
  name = "daily";
  expected_runs = pos 1;
  successful_runs = pos 1;
  failed_runs = pos 0;
}

create_post_cutover_snapshot-supplied_example :
    (made : Members) × (create_post_cutover_snapshot reader "start" "end" "ok"
        (pos 3)
        (pos 5)
        false
        false
        true
        false
        (job_json ∷ [])
      ≡ ok made)
    × (evaluate_post_cutover reader made
        ≡ ok (
            judge (
              supplied_facts 90000000000 "ok"
                (pos 3)
                (pos 5)
                false
                false
                true
                false
                (daily_job ∷ []))))
create_post_cutover_snapshot-supplied_example =
    create_post_cutover_snapshot-supplied reader "start" "end" "ok" 0 90000000000 (pos 3) (pos 5)
      false false true false daily_job [] refl refl (ground arith) ((refl, refl, refl, refl), tt)
