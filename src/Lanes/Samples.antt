-- ===== src/Lanes/Samples.antt =====
-- A lane with one job that waits, at which the theorems of the scheduler apply.
use mlops_lite.Base.{List, [], ◌∷◌, some, false, ◌≡◌, ◌≤◌, ◌<◌, refl, arith}
use mlops_lite.Coordinator.State.{init, share, grant, refuse, gpu_busy}
use mlops_lite.Lanes.Calls.{Call, serves, heads, run_call, admits, admissions}
use mlops_lite.Lanes.Overlap.{
  Section, run_section, answers, asks, entries, lets_in, entries-le-burst, run_sections,
  run_sections-overdue,
}
use mlops_lite.Lanes.Starvation.{admissions-le-burst}
use mlops_lite.Lanes.State.{
  Scheduler, Limits, fresh, note_job_queued, compute_drain_mode, admit_serving, admit_head_job,
  note_answer,
}

abbrev limits : Limits
limits = record { inference_burst = 2; head_job_wait = 60 }

-- Job 5 has waited since 10.
abbrev one_queued : Scheduler
one_queued = record {
  inference_since_job_queued = 0;
  head_job_since = some 10;
  drain_mode = false;
  queued_ids = 5 ∷ [];
}

one_queued_lem : note_job_queued (some 5) 10 fresh ≡ one_queued
unfolding note_job_queued
one_queued_lem = refl

abbrev history : List Call
history = serves 11 (share 1) ∷ serves 12 (grant 2) ∷ serves 13 (share 3) ∷ heads 5 14 false ∷ []

admissions_lem : admissions limits history (one_queued, init) ≡ 2
unfolding admissions admits run_call admit_serving note_answer compute_drain_mode admit_head_job
admissions_lem = refl

admissions-le-burst_example : admissions limits history (one_queued, init) ≤ 2
admissions-le-burst_example =
    admissions-le-burst limits 10 history (one_queued, init) refl refl refl

-- Three requests look before the first of them is counted: one more than the burst is admitted.
abbrev overlapping : List Section
overlapping =
    asks 11 ∷ asks 12 ∷ asks 13 ∷ answers (share 1) ∷ answers (share 2) ∷ answers (share 3) ∷ []

overlapping_lem : entries limits 3 overlapping ((one_queued, init), 0) ≡ 3
unfolding entries lets_in run_section compute_drain_mode note_answer
overlapping_lem = refl

entries-le-burst_example : entries limits 3 overlapping ((one_queued, init), 0) < 5
entries-le-burst_example =
    entries-le-burst limits 3 10 overlapping ((one_queued, init), 0) refl refl (omega arith)
      (omega arith) refl

run_sections-overdue_example :
    let w = run_sections limits 3 overlapping ((one_queued, init), 0) in
    ((admit_serving limits 70 (share 4) (λ l. l) w.0.0).0 ≡ refuse gpu_busy)
    × ((run_section limits 3 (asks 70) w).1 ≡ w.1)
    × ((run_section limits 3 (asks 70) w).0.0.inference_since_job_queued
        ≡ w.0.0.inference_since_job_queued)
run_sections-overdue_example =
    run_sections-overdue limits 3 10 70 (share 4) (λ l. l) overlapping ((one_queued, init), 0) refl
      refl (omega arith)
