-- ===== src/Lanes/Calls.antt =====
-- hostagent/scheduler.py: histories of calls of the scheduler, each of which ends before the next begins.
use mlops_lite.Base.{List, [], ◌∷◌, Option, Bool, true, false, not, ◌&&◌, ℕ, ◌+◌, if◌then◌else◌}
use mlops_lite.Coordinator.State.{Coordinator, Outcome}
use mlops_lite.Lanes.State.{
  Limits, Scheduler, note_job_queued, compute_drain_mode, admit_serving, admit_head_job, end_job,
  ok,
}

-- A call of the scheduler, with its reading of the clock and the coordinator's answer.
pub data Call : Type 0 where
  queues : Option ℕ → (now : ℕ) → Call
  looks : (now : ℕ) → Call
  serves : (now : ℕ) → (answer : Outcome) → Call
  heads : (job_id now : ℕ) → (acquired : Bool) → Call
  ends : Option ℕ → (now : ℕ) → Call

unfoldable pub run_call : Limits → Call → Scheduler × Coordinator → Scheduler × Coordinator
run_call limits (queues id now) (l, s) = (note_job_queued id now l, s)
run_call limits (looks now) (l, s) = ((compute_drain_mode limits now l).1, s)
run_call limits (serves now answer) (l, s) = ((admit_serving limits now answer (λ x. x) l).1, s)
run_call limits (heads id now acquired) (l, s) = ((admit_head_job id now acquired l).1, s)
run_call limits (ends id now) v = end_job id now v

unfoldable pub run : Limits → List Call → Scheduler × Coordinator → Scheduler × Coordinator
run limits [] v = v
run limits (x ∷ xs) v = run limits xs (run_call limits x v)

-- The call neither gives the GPU to a job nor ends one.
abbrev pub keeps_waiting : Call → Bool
keeps_waiting (queues id now) = true
keeps_waiting (looks now) = true
keeps_waiting (serves now answer) = true
keeps_waiting (heads id now acquired) = not acquired
keeps_waiting (ends id now) = false

abbrev pub all_wait : List Call → Bool
all_wait [] = true
all_wait (x ∷ xs) = keeps_waiting x && all_wait xs

-- The requests that the scheduler admitted in one call and in a history.
unfoldable pub admits : Limits → Call → Scheduler → ℕ
admits limits (serves now answer) l =
    if ok (admit_serving limits now answer (λ x. x) l).0 then 1 else 0
admits limits _ l = 0

unfoldable pub admissions : Limits → List Call → Scheduler × Coordinator → ℕ
admissions limits [] v = 0
admissions limits (x ∷ xs) v = admits limits x v.0 + admissions limits xs (run_call limits x v)
