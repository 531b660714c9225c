-- ===== src/Lanes/State.antt =====
-- hostagent/scheduler.py: Scheduler, on the coordinator of Coordinator. What the coordinator answers
-- to admit_serving and admit_job is an argument, and so is each reading of the clock.
use mlops_lite.Base.{
  List, [], ◌∷◌, ◌++◌, Option, some, none, Bool, true, false, ◌||◌, ℕ, suc, ◌+◌, leb, if◌then◌else◌,
  contains, discard, is_empty,
}
use mlops_lite.Coordinator.Eviction
use mlops_lite.Coordinator.State.{Coordinator, Outcome, share, grant, refuse, gpu_busy}

-- The arguments of __init__ that bound the wait.
pub record Limits : Type 0 where
  pub inference_burst : ℕ
  pub head_job_wait : ℕ

pub record Scheduler : Type 0 where
  pub inference_since_job_queued : ℕ
  pub head_job_since : Option ℕ
  pub drain_mode : Bool
  pub queued_ids : List ℕ

abbrev pub fresh : Scheduler
fresh = record {
  inference_since_job_queued = 0;
  head_job_since = none;
  drain_mode = false;
  queued_ids = [];
}

abbrev pub enqueue : Option ℕ → Scheduler → Scheduler
enqueue none l = l
enqueue (some id) l =
    if contains id l.queued_ids then l else record l { queued_ids = l.queued_ids ++ (id ∷ []) }

abbrev pub start_clock : (now : ℕ) → Scheduler → Scheduler
start_clock now l = elim l.head_job_since [
  | none ↦ record l { head_job_since = some now; inference_since_job_queued = 0 }
  | some _ ↦ l
]

unfoldable pub note_job_queued : Option ℕ → (now : ℕ) → Scheduler → Scheduler
note_job_queued id now l = start_clock now (enqueue id l)

abbrev pub dequeue : Option ℕ → Scheduler → Scheduler
dequeue none l = l
dequeue (some id) l = record l { queued_ids = discard id l.queued_ids }

-- The last three lines of note_job_started and of end_job.
abbrev pub reset : (now : ℕ) → Scheduler → Scheduler
reset now l = record l {
  head_job_since = if is_empty l.queued_ids then none else some now;
  inference_since_job_queued = 0;
  drain_mode = false;
}

unfoldable pub note_job_started : Option ℕ → (now : ℕ) → Scheduler → Scheduler
note_job_started id now l = reset now (dequeue id l)

-- `waited >= self.head_job_wait_s`, with the subtraction on the other side.
abbrev pub is_overdue : Limits → (now since : ℕ) → Scheduler → Bool
is_overdue limits now since l =
    leb limits.inference_burst l.inference_since_job_queued
    || leb (since + limits.head_job_wait) now

unfoldable pub compute_drain_mode : Limits → (now : ℕ) → Scheduler → Bool × Scheduler
compute_drain_mode limits now l = elim l.head_job_since [
  | none ↦ (false, record l { drain_mode = false })
  | some since ↦
      let mode = is_overdue limits now since l || l.drain_mode in
      (mode, record l { drain_mode = mode })
]

-- `Outcome.ok`.
abbrev pub ok : Outcome → Bool
ok (share _) = true
ok (grant _) = true
ok (refuse _) = false

abbrev pub count_admission : Scheduler → Scheduler
count_admission l = elim l.head_job_since [
  | none ↦ l
  | some _ ↦ record l { inference_since_job_queued = suc l.inference_since_job_queued }
]

-- The second section of admit_serving, after the coordinator's answer.
unfoldable pub note_answer : Outcome → Scheduler → Scheduler
note_answer answer l = if ok answer then count_admission l else l

-- admit_serving, with what the coordinator answers if it is asked. The lock is not held meanwhile, and
-- other calls may do anything to the scheduler.
unfoldable pub admit_serving :
    Limits
    → (now : ℕ) → (answer : Outcome) → (meanwhile : Scheduler → Scheduler) → Scheduler
    → Outcome × Scheduler
admit_serving limits now answer meanwhile l =
    let looked = compute_drain_mode limits now l in
    if looked.0
    then (refuse gpu_busy, looked.1)
    else (answer, note_answer answer (meanwhile looked.1))

-- admit_head_job, with what admit_job of the coordinator returned.
unfoldable pub admit_head_job : (job_id now : ℕ) → (acquired : Bool) → Scheduler → Bool × Scheduler
admit_head_job job_id now acquired l =
    (acquired, if acquired then note_job_started (some job_id) now l else l)

unfoldable pub end_job : Option ℕ → (now : ℕ) → Scheduler × Coordinator → Scheduler × Coordinator
end_job id now (l, s) = (reset now l, Eviction.end_job id s)
