-- ===== src/Cutover.antt =====
-- src/hedp/operations/post_cutover.py: the evaluation of a status snapshot. The fields are read in the
-- code's order, and then judged: an exception leaves no finding behind. A time is its microseconds, and
-- the elapsed hours are kept as microseconds.
pub mod Supplied
pub mod Verdict
mod Examples
use Prim.Native.String.{String}
use hedp.Prelude.{
  ℕ, ◌+◌, ◌-◌, Bool, true, false, not, ◌&&◌, ◌||◌, Option, none, some, List, [], ◌∷◌, ◌++◌, map,
  ltb, ◌==◌, if◌then◌else◌, length, Result, ok, err, raise_if, ◌>>=◌, ◌>>◌,
}
use hedp.Prelude.Int.{ℤ, pos, ltb_ℤ, eq_ℤ, ◌-ℤ◌}
use hedp.Prelude.Texts.{str_eq}
use hedp.Prelude.Json.{
  Json, null, boolean, integer, float, text, array, object, Members, no_members, member, get, has,
  from_list, as_list, as_object, as_text, is_text,
}
use hedp.Observations.{IsoReader}

pub data CutoverError : Type 0 where
  not_a_text not_iso_8601 no_timezone checked_before_started : CutoverError
  database_not_object counts_not_integers safety_not_object flag_not_boolean : CutoverError
  jobs_not_array job_not_object job_without_name job_counts_invalid : CutoverError

pub data Level : Type 0 where
  passed warned failed : Level

pub data Flag : Type 0 where
  old_jobs_running duplicate_runs_detected secrets_in_logs local_config_git_tracked : Flag

pub data Check : Type 0 where
  observation_window database_integrity raw_count : Check
  safety_flag : Flag → Check
  job : String → Check

-- The messages, with what they tell.
pub data Message : Type 0 where
  window_open window_over : ℕ → Message
  integrity_ok integrity_not_ok count_decreased count_same : Message
  count_increased : ℤ → Message
  detected not_detected : Flag → Message
  job_failures : String → ℤ → Message
  job_short job_done : String → ℤ → ℤ → Message

pub record Finding : Type 0 where
  pub level : Level
  pub check : Check
  pub message : Message

abbrev pub finding : Level → Check → Message → Finding
finding level check message = record { level = level; check = check; message = message }

pub record Job : Type 0 where
  pub name : String
  pub expected_runs : ℤ
  pub successful_runs : ℤ
  pub failed_runs : ℤ

-- What is read of a snapshot.
pub record Facts : Type 0 where
  pub elapsed : ℕ
  pub is_integrity_ok : Bool
  pub raw_count_start : ℤ
  pub raw_count_end : ℤ
  pub flags : List (Flag × Bool)
  pub jobs : List Job

pub record Evaluation : Type 0 where
  pub status : Level
  pub elapsed : ℕ
  pub pass_count : ℕ
  pub warn_count : ℕ
  pub fail_count : ℕ
  pub findings : List Finding

abbrev pub found : {A : Type 0} → CutoverError → Option A → Result CutoverError A
found e none = err e
found e (some v) = ok v

-- `_timestamp`
unfoldable pub timestamp : IsoReader → Json → Result CutoverError ℕ
timestamp read value = do
  s ← found not_a_text (as_text value)
  parsed ← found not_iso_8601 (read s)
  raise_if (not parsed.1) no_timezone
  ok parsed.0

-- `snapshot.get(key, {})`
abbrev pub get_or_empty : Members → String → Json
get_or_empty ms key = if has ms key then get ms key else object no_members

-- `isinstance(value, int)`: a `bool` is one too.
abbrev pub as_int : Json → Option ℤ
as_int (integer n) = some n
as_int (boolean true) = some (pos 1)
as_int (boolean false) = some (pos 0)
as_int _ = none

abbrev pub as_boolean : Json → Option Bool
as_boolean (boolean b) = some b
as_boolean _ = none

abbrev pub flag_key : Flag → String
flag_key old_jobs_running = "old_jobs_running"
flag_key duplicate_runs_detected = "duplicate_runs_detected"
flag_key secrets_in_logs = "secrets_in_logs"
flag_key local_config_git_tracked = "local_config_git_tracked"

abbrev pub all_flags : List Flag
all_flags =
    old_jobs_running ∷ duplicate_runs_detected ∷ secrets_in_logs ∷ local_config_git_tracked ∷ []

unfoldable pub read_flags : Members → List Flag → Result CutoverError (List (Flag × Bool))
read_flags safety [] = ok []
read_flags safety (flag ∷ flags) = do
  value ← found flag_not_boolean (as_boolean (get safety (flag_key flag)))
  others ← read_flags safety flags
  ok ((flag, value) ∷ others)

-- A count that is an integer and not negative.
abbrev pub read_count : Json → Result CutoverError ℤ
read_count value = do
  n ← found job_counts_invalid (as_int value)
  raise_if (ltb_ℤ n (pos 0)) job_counts_invalid
  ok n

unfoldable pub read_job : Json → Result CutoverError Job
read_job value = do
  ms ← found job_not_object (as_object value)
  name ← found job_without_name (as_text (get ms "name"))
  raise_if (str_eq name "") job_without_name
  expected ← read_count (get ms "expected_runs")
  successes ← read_count (get ms "successful_runs")
  failures ← read_count (get ms "failed_runs")
  ok record {
    name = name;
    expected_runs = expected;
    successful_runs = successes;
    failed_runs = failures;
  }

unfoldable pub read_jobs : List Json → Result CutoverError (List Job)
read_jobs [] = ok []
read_jobs (value ∷ values) = do
  first ← read_job value
  others ← read_jobs values
  ok (first ∷ others)

unfoldable pub read_facts : IsoReader → Members → Result CutoverError Facts
read_facts read snapshot = do
  started_at ← timestamp read (get snapshot "started_at")
  checked_at ← timestamp read (get snapshot "checked_at")
  raise_if (ltb checked_at started_at) checked_before_started
  database ← found database_not_object (as_object (get_or_empty snapshot "database"))
  start_count ← found counts_not_integers (as_int (get database "raw_count_start"))
  end_count ← found counts_not_integers (as_int (get database "raw_count_end"))
  safety ← found safety_not_object (as_object (get_or_empty snapshot "safety"))
  flags ← read_flags safety all_flags
  values ← found jobs_not_array (as_list (get snapshot "jobs"))
  raise_if (length values == 0) jobs_not_array
  jobs ← read_jobs values
  ok record {
    elapsed = checked_at - started_at;
    is_integrity_ok = is_text (get database "integrity") "ok";
    raw_count_start = start_count;
    raw_count_end = end_count;
    flags = flags;
    jobs = jobs;
  }

-- Twenty-four hours in microseconds
abbrev pub one_day : ℕ
one_day = 86400000000

abbrev pub window_finding : ℕ → Finding
window_finding elapsed =
    if ltb elapsed one_day
    then finding warned observation_window (window_open elapsed)
    else finding passed observation_window (window_over elapsed)

abbrev pub integrity_finding : Bool → Finding
integrity_finding true = finding passed database_integrity integrity_ok
integrity_finding false = finding failed database_integrity integrity_not_ok

abbrev pub count_finding : ℤ → ℤ → Finding
count_finding start_count end_count =
    if ltb_ℤ end_count start_count
    then finding failed raw_count count_decreased
    else if eq_ℤ end_count start_count
    then finding warned raw_count count_same
    else finding passed raw_count (count_increased (end_count -ℤ start_count))

abbrev pub flag_finding : Flag × Bool → Finding
flag_finding (flag, true) = finding failed (safety_flag flag) (detected flag)
flag_finding (flag, false) = finding passed (safety_flag flag) (not_detected flag)

abbrev pub job_finding : ℕ → Job → Finding
job_finding elapsed j =
    if not (eq_ℤ j.failed_runs (pos 0))
    then finding failed (job j.name) (job_failures j.name j.failed_runs)
    else if ltb_ℤ j.successful_runs j.expected_runs
    then finding (if ltb elapsed one_day then warned else failed) (job j.name)
        (job_short j.name j.successful_runs j.expected_runs)
    else finding passed (job j.name) (job_done j.name j.successful_runs j.expected_runs)

unfoldable pub findings_of : Facts → List Finding
findings_of facts =
    window_finding facts.elapsed
    ∷ integrity_finding facts.is_integrity_ok
    ∷ count_finding facts.raw_count_start facts.raw_count_end
    ∷ (map flag_finding facts.flags ++ map (job_finding facts.elapsed) facts.jobs)

abbrev pub is_failed : Level → Bool
is_failed failed = true
is_failed _ = false

abbrev pub is_warned : Level → Bool
is_warned warned = true
is_warned _ = false

unfoldable pub count_level : (Level → Bool) → List Finding → ℕ
count_level test [] = 0
count_level test (f ∷ fs) =
    let others = count_level test fs in if test f.level then others + 1 else others

abbrev pub status_of : ℕ → ℕ → Level
status_of fails warns =
    if not (fails == 0) then failed else if not (warns == 0) then warned else passed

unfoldable pub judge : Facts → Evaluation
judge facts =
    let findings = findings_of facts in
    let fails = count_level is_failed findings in
    let warns = count_level is_warned findings in
    record {
      status = status_of fails warns;
      elapsed = facts.elapsed;
      pass_count = length findings - fails - warns;
      warn_count = warns;
      fail_count = fails;
      findings = findings;
    }

unfoldable pub evaluate_post_cutover : IsoReader → Members → Result CutoverError Evaluation
evaluate_post_cutover read snapshot = read_facts read snapshot >>= λ facts. ok (judge facts)

-- The dictionary that `create_post_cutover_snapshot` makes
abbrev pub snapshot_of :
    String → String → String → ℤ → ℤ → Bool → Bool → Bool → Bool → List Json → Members
snapshot_of started checked integrity start_count end_count old_jobs duplicates secrets tracked
      jobs =
    member "started_at" (text started) (
      member "checked_at" (text checked) (
        member "database"
          (object (
            member "integrity" (text integrity) (
              member "raw_count_start" (integer start_count)
                (member "raw_count_end" (integer end_count) no_members))))
          (member "safety"
            (object (
              member "old_jobs_running" (boolean old_jobs) (
                member "duplicate_runs_detected" (boolean duplicates) (
                  member "secrets_in_logs" (boolean secrets)
                    (member "local_config_git_tracked" (boolean tracked) no_members)))))
            (member "jobs" (array (from_list jobs)) no_members))))

-- What was supplied, if it can be evaluated
unfoldable pub create_post_cutover_snapshot :
    IsoReader
    → String
    → String
    → String
    → ℤ
    → ℤ
    → Bool
    → Bool
    → Bool
    → Bool
    → List Json
    → Result CutoverError Members
create_post_cutover_snapshot read started checked integrity start_count end_count old_jobs
      duplicates secrets tracked jobs =
    let snapshot =
      snapshot_of started checked integrity start_count end_count old_jobs duplicates secrets
        tracked jobs in
    evaluate_post_cutover read snapshot >>= λ _. ok snapshot
