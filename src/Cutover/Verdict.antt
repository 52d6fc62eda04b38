-- ===== src/Cutover/Verdict.antt =====
-- src/hedp/operations/post_cutover.py: what the status of an evaluation means.
use hedp.Prelude.{
  ℕ, ◌+◌, ◌≤◌, ◌≡◌, ◌↔◌, inl, inr, refl, subst, Bool, true, false, List, [], ◌∷◌, ◌++◌, map, arith,
  ltb, if◌then◌else◌, length, ok, All, All-append, Bool-cases, bind_returns,
}
use hedp.Prelude.Int.{ℤ, pos, negsuc, ◌≤ℤ◌, ltb_ℤ, eq_ℤ}
use hedp.Prelude.Json.{Members}
use hedp.Observations.{IsoReader}
use hedp.Cutover.{
  Level, passed, warned, failed, Flag, Finding, Job, Facts, Evaluation, one_day, read_facts,
  window_finding, integrity_finding, count_finding, flag_finding, job_finding, findings_of,
  is_failed, is_warned, count_level, status_of, judge, evaluate_post_cutover,
}

abbrev pub AllPassed : List Finding → Type 0
AllPassed fs = All (λ f. f.level ≡ passed) fs

level-zero :
    (l : Level) (a b : ℕ)
    → ((if is_failed l then a + 1 else a) + (if is_warned l then b + 1 else b) ≡ 0)
      ↔ ((l ≡ passed) × (a + b ≡ 0))
level-zero passed a b = (λ h. (refl, h), λ (_, h). h)
level-zero warned a b = (λ h. absurd (omega arith), λ (is_passed, _). cc)
level-zero failed a b = (λ h. absurd (omega arith), λ (is_passed, _). cc)

level-bounded :
    (l : Level) (a b n : ℕ)
    → a + b ≤ n
    → (if is_failed l then a + 1 else a) + (if is_warned l then b + 1 else b) ≤ n + 1
level-bounded passed a b n h = omega arith
level-bounded warned a b n h = omega arith
level-bounded failed a b n h = omega arith

none-passed :
    (fs : List Finding) → (count_level is_failed fs + count_level is_warned fs ≡ 0) ↔ AllPassed fs
unfolding count_level
none-passed [] = (λ _. tt, λ _. refl)
none-passed (f ∷ fs) =
    let (to, from) = level-zero f.level (count_level is_failed fs) (count_level is_warned fs) in
    let (all_to, all_from) = none-passed fs in
    (
      λ zero_both. let (this, others) = to zero_both in (this, all_to others),
      λ (this, others). from (this, all_from others),
    )

count_level-bounded :
    (fs : List Finding) → count_level is_failed fs + count_level is_warned fs ≤ length fs
unfolding count_level
count_level-bounded [] = omega arith
count_level-bounded (f ∷ fs) = omega (
  arith,
  level-bounded f.level (count_level is_failed fs) (count_level is_warned fs) (length fs)
      (count_level-bounded fs),
)

status_of-passed_iff : (a b : ℕ) → (status_of a b ≡ passed) ↔ (a + b ≡ 0)
status_of-passed_iff a b = ground arith

-- Nothing of it has gone wrong: the count has grown, no flag is set, and every job has run as often as
-- expected without a failure, over at least a day.
abbrev pub IsDone : Job → Type 0
IsDone j = (j.failed_runs ≡ pos 0) × (j.expected_runs ≤ℤ j.successful_runs)

abbrev pub Healthy : Facts → Type 0
Healthy facts =
    (one_day ≤ facts.elapsed)
    × (facts.is_integrity_ok ≡ true)
    × (ltb_ℤ facts.raw_count_start facts.raw_count_end ≡ true)
    × All (λ flag. flag.1 ≡ false) facts.flags
    × All IsDone facts.jobs

window-passed : (elapsed : ℕ) → ((window_finding elapsed).level ≡ passed) ↔ (one_day ≤ elapsed)
window-passed elapsed = elim (Bool-cases (ltb elapsed one_day)) [
  | inl early ↦ rw (early) (λ h. cc, λ h. absurd (ground arith))
  | inr over ↦ rw (over) (λ _. ground arith, λ _. refl)
]

integrity-passed : (b : Bool) → ((integrity_finding b).level ≡ passed) ↔ (b ≡ true)
integrity-passed true = (λ _. refl, λ _. refl)
integrity-passed false = (λ h. cc, λ h. cc)

grown_lem : (a b : ℤ) → ltb_ℤ b a ≡ false → eq_ℤ b a ≡ false → ltb_ℤ a b ≡ true
grown_lem (pos a) (pos b) more differ = ground arith
grown_lem (pos a) (negsuc b) more differ = ground arith
grown_lem (negsuc a) (pos b) more differ = ground arith
grown_lem (negsuc a) (negsuc b) more differ = ground arith

count-passed : (a b : ℤ) → ((count_finding a b).level ≡ passed) ↔ (ltb_ℤ a b ≡ true)
count-passed a b = elim (Bool-cases (ltb_ℤ b a)) [
  | inl fewer ↦ rw (fewer) (λ h. cc, λ h. absurd (ground arith))
  | inr more ↦ elim (Bool-cases (eq_ℤ b a)) [
    | inl same ↦ rw (more, same) (λ h. cc, λ h. absurd (ground arith))
    | inr differ ↦ rw (more, differ) (λ _. grown_lem a b more differ, λ _. refl)
  ]
]

flags-passed :
    (flags : List (Flag × Bool))
    → AllPassed (map flag_finding flags) ↔ All (λ flag. flag.1 ≡ false) flags
flags-passed [] = (λ _. tt, λ _. tt)
flags-passed ((flag, true) ∷ flags) = (λ (h, _). cc, λ (h, _). cc)
flags-passed ((flag, false) ∷ flags) =
    let (to, from) = flags-passed flags in
    (λ (_, others). (refl, to others), λ (_, others). (refl, from others))

job-passed : (elapsed : ℕ) (j : Job) → ((job_finding elapsed j).level ≡ passed) ↔ IsDone j
job-passed elapsed j = elim (Bool-cases (eq_ℤ j.failed_runs (pos 0))) [
  | inl fine ↦ elim (Bool-cases (ltb_ℤ j.successful_runs j.expected_runs)) [
    | inl short ↦ elim (Bool-cases (ltb elapsed one_day)) [
      | inl early ↦ rw (fine, short, early) (λ h. cc, λ h. absurd (ground arith))
      | inr over ↦ rw (fine, short, over) (λ h. cc, λ h. absurd (ground arith))
    ]
    | inr enough ↦ rw (fine, enough) (λ _. (ground arith, ground arith), λ _. refl)
  ]
  | inr bad ↦ rw (bad) (λ h. cc, λ h. absurd (ground arith))
]

jobs-passed :
    (elapsed : ℕ) (jobs : List Job) → AllPassed (map (job_finding elapsed) jobs) ↔ All IsDone jobs
jobs-passed elapsed [] = (λ _. tt, λ _. tt)
jobs-passed elapsed (j ∷ jobs) =
    let (to, from) = job-passed elapsed j in
    let (all_to, all_from) = jobs-passed elapsed jobs in
    (λ (this, others). (to this, all_to others), λ (this, others). (from this, all_from others))

All-split : {A : Type 0} (P : A → Type 0) (xs ys : List A) → All P (xs ++ ys) → All P xs × All P ys
All-split P [] ys of_all = (tt, of_all)
All-split P (x ∷ xs) ys (of_x, others) =
    let (of_xs, of_ys) = All-split P xs ys others in ((of_x, of_xs), of_ys)

findings-passed : (facts : Facts) → AllPassed (findings_of facts) ↔ Healthy facts
unfolding findings_of
findings-passed facts =
    let P = λ (f : Finding). f.level ≡ passed in
    let flags = map flag_finding facts.flags in
    let jobs = map (job_finding facts.elapsed) facts.jobs in
    (
      λ (window, (integrity, (count, others))).
          let (of_flags, of_jobs) = All-split P flags jobs others in
          (
            (window-passed facts.elapsed).0 window,
            (integrity-passed facts.is_integrity_ok).0 integrity,
            (count-passed facts.raw_count_start facts.raw_count_end).0 count,
            (flags-passed facts.flags).0 of_flags,
            (jobs-passed facts.elapsed facts.jobs).0 of_jobs,
          ),
      λ (window, integrity, count, of_flags, of_jobs). (
        (window-passed facts.elapsed).1 window,
        (
          (integrity-passed facts.is_integrity_ok).1 integrity,
          (
            (count-passed facts.raw_count_start facts.raw_count_end).1 count,
            All-append P flags jobs ((flags-passed facts.flags).1 of_flags)
                ((jobs-passed facts.elapsed facts.jobs).1 of_jobs),
          ),
        ),
      ),
    )

-- An evaluation of what was read: passed exactly if all is well, with every finding counted once.
abbrev pub Judges : Facts → Evaluation → Type 0
Judges facts e =
    ((e.status ≡ passed) ↔ Healthy facts)
    × (e.pass_count + e.warn_count + e.fail_count ≡ length e.findings)
    × (e.elapsed ≡ facts.elapsed)

judge-Judges : (facts : Facts) → Judges facts (judge facts)
unfolding judge
judge-Judges facts =
    let fs = findings_of facts in
    let (status_to, status_from) =
      status_of-passed_iff (count_level is_failed fs) (count_level is_warned fs) in
    let (zero_to, zero_from) = none-passed fs in
    let (healthy_to, healthy_from) = findings-passed facts in
    (
      (
        λ is_passed. healthy_to (zero_to (status_to is_passed)),
        λ healthy. status_from (zero_from (healthy_from healthy)),
      ),
      omega (arith, count_level-bounded fs),
      refl,
    )

-- A snapshot that is evaluated is passed exactly if it tells of at least a day, an integrity that is
-- ok, a count of raw data that has grown, no safety flag, and jobs that all ran as often as expected
-- without a failure; and each finding is counted once, as a pass, a warning or a failure.
pub evaluate_post_cutover-Judges :
    (read : IsoReader) (snapshot : Members) (e : Evaluation)
    → evaluate_post_cutover read snapshot ≡ ok e
    → (facts : Facts) × (read_facts read snapshot ≡ ok facts) × Judges facts e
unfolding evaluate_post_cutover
evaluate_post_cutover-Judges read snapshot e returned =
    let (facts, is_read, judged) = bind_returns (read_facts read snapshot) _ returned in
    let same : judge facts ≡ e = cc in
    (facts, is_read, subst (Judges facts) same (judge-Judges facts))
