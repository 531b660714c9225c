-- ===== src/Lanes/Starvation.antt =====
-- hostagent/scheduler.py: a job that waits is not overtaken without a bound. A call is one step: the
-- count of an admission is taken before the next request looks at the mode.
use mlops_lite.Base.{
  List, [], ◌∷◌, some, none, true, false, ◌||◌, ℕ, ◌+◌, ◌≤◌, ◌≡◌, refl, is_empty, arith,
  Option-cases, inl, inr, is_some,
}
use mlops_lite.Coordinator.State.{Coordinator, Outcome, refuse, gpu_busy}
use mlops_lite.Lanes.Calls.{
  run, Call, keeps_waiting, admissions, run_call, heads, serves, all_wait, looks, queues, admits,
  ends,
}
use mlops_lite.Lanes.State.{
  fresh, Limits, Scheduler, note_job_queued, note_job_started, compute_drain_mode, admit_serving,
  admit_head_job, end_job, note_answer,
}

-- The count stays within the burst.
abbrev pub IsBounded : Limits → Scheduler → Type 0
IsBounded limits l = l.inference_since_job_queued ≤ limits.inference_burst

run_call-IsBounded :
    (limits : Limits) (x : Call) (v : Scheduler × Coordinator)
    → IsBounded limits v.0
    → IsBounded limits (run_call limits x v).0
unfolding run_call note_job_queued compute_drain_mode admit_serving note_answer admit_head_job
    note_job_started end_job
run_call-IsBounded limits (queues none now) (l, s) b = ground arith
run_call-IsBounded limits (queues (some id) now) (l, s) b = ground arith
run_call-IsBounded limits (looks now) (l, s) b = ground arith
run_call-IsBounded limits (serves now answer) (l, s) b = ground arith
run_call-IsBounded limits (heads id now acquired) (l, s) b = ground arith
run_call-IsBounded limits (ends id now) (l, s) b = ground arith

pub run-IsBounded :
    (limits : Limits) (xs : List Call) (v : Scheduler × Coordinator)
    → IsBounded limits v.0
    → IsBounded limits (run limits xs v).0
unfolding run
run-IsBounded limits [] v b = b
run-IsBounded limits (x ∷ xs) v b =
    run-IsBounded limits xs (run_call limits x v) (run_call-IsBounded limits x v b)

-- While the head waits, a call keeps its clock, counts what it admits and leaves the drain mode on.
record Waiting (limits : Limits) (since : ℕ) (x : Call) (v : Scheduler × Coordinator) : Type 0 where
  clock : (run_call limits x v).0.head_job_since ≡ some since
  count :
      (run_call limits x v).0.inference_since_job_queued
      ≡ admits limits x v.0 + v.0.inference_since_job_queued
  mode : v.0.drain_mode ≡ true → (run_call limits x v).0.drain_mode ≡ true

run_call-Waiting :
    (limits : Limits) (since : ℕ) (x : Call) (v : Scheduler × Coordinator)
    → v.0.head_job_since ≡ some since
    → keeps_waiting x ≡ true
    → Waiting limits since x v
unfolding run_call note_job_queued compute_drain_mode admit_serving note_answer admit_head_job
    admits
run_call-Waiting limits since (queues none now) (l, s) h k = record {
  clock = ground arith;
  count = ground arith;
  mode = ground arith;
}
run_call-Waiting limits since (queues (some id) now) (l, s) h k = record {
  clock = ground arith;
  count = ground arith;
  mode = ground arith;
}
run_call-Waiting limits since (looks now) (l, s) h k = record {
  clock = ground arith;
  count = ground arith;
  mode = ground arith;
}
run_call-Waiting limits since (serves now answer) (l, s) h k = record {
  clock = ground arith;
  count = ground arith;
  mode = ground arith;
}
run_call-Waiting limits since (heads id now acquired) (l, s) h k = record {
  clock = ground arith;
  count = ground arith;
  mode = ground arith;
}
run_call-Waiting limits since (ends id now) (l, s) h k = ground arith

run-clock :
    (limits : Limits) (since : ℕ) (xs : List Call) (v : Scheduler × Coordinator)
    → v.0.head_job_since ≡ some since
    → all_wait xs ≡ true
    → (run limits xs v).0.head_job_since ≡ some since
unfolding run
run-clock limits since [] v h k = h
run-clock limits since (x ∷ xs) v h k =
    let w = run_call-Waiting limits since x v h (ground arith) in
    run-clock limits since xs (run_call limits x v) w.clock (ground arith)

run-mode :
    (limits : Limits) (since : ℕ) (xs : List Call) (v : Scheduler × Coordinator)
    → v.0.head_job_since ≡ some since
    → all_wait xs ≡ true
    → v.0.drain_mode ≡ true
    → (run limits xs v).0.drain_mode ≡ true
unfolding run
run-mode limits since [] v h k d = d
run-mode limits since (x ∷ xs) v h k d =
    let w = run_call-Waiting limits since x v h (ground arith) in
    run-mode limits since xs (run_call limits x v) w.clock (ground arith) (w.mode d)

run-count :
    (limits : Limits) (since : ℕ) (xs : List Call) (v : Scheduler × Coordinator)
    → v.0.head_job_since ≡ some since
    → all_wait xs ≡ true
    → (run limits xs v).0.inference_since_job_queued
      ≡ admissions limits xs v + v.0.inference_since_job_queued
unfolding run admissions
run-count limits since [] v h k = omega arith
run-count limits since (x ∷ xs) v h k =
    let w = run_call-Waiting limits since x v h (ground arith) in
    omega (arith, run-count limits since xs (run_call limits x v) w.clock (ground arith), w.count)

-- The bound on the burst for calls that do not overlap: from the moment the wait of the head job starts,
-- at most `inference_burst` requests are admitted, whatever is called and in whatever order, until a job
-- gets the GPU or ends, if each request has its answer and is counted before the next call begins.
pub admissions-le-burst :
    (limits : Limits) (since : ℕ) (xs : List Call) (v : Scheduler × Coordinator)
    → v.0.head_job_since ≡ some since
    → v.0.inference_since_job_queued ≡ 0
    → all_wait xs ≡ true
    → admissions limits xs v ≤ limits.inference_burst
admissions-le-burst limits since xs v h z k =
    omega (arith, run-count limits since xs v h k, run-IsBounded limits xs v (omega arith))

-- The bound on the wait: when the head job has waited `head_job_wait`, every request is refused with
-- gpu_busy, whatever was called since the wait began, until a job gets the GPU or ends.
pub admit_serving-overdue :
    (limits : Limits) (since now : ℕ) (answer : Outcome) (meanwhile : Scheduler → Scheduler)
    (xs : List Call) (v : Scheduler × Coordinator)
    → v.0.head_job_since ≡ some since
    → all_wait xs ≡ true
    → since + limits.head_job_wait ≤ now
    → (admit_serving limits now answer meanwhile (run limits xs v).0).0 ≡ refuse gpu_busy
unfolding admit_serving note_answer compute_drain_mode
admit_serving-overdue limits since now answer meanwhile xs v h k late =
    ground (arith, run-clock limits since xs v h k)

-- The drain mode does not flicker: once drain_mode has answered true, every later request is refused
-- with gpu_busy, whatever its clock reads, until a job gets the GPU or ends.
pub drain_mode-persists :
    (limits : Limits) (now later : ℕ) (answer : Outcome) (meanwhile : Scheduler → Scheduler)
    (xs : List Call) (l : Scheduler) (s : Coordinator)
    → (compute_drain_mode limits now l).0 ≡ true
    → all_wait xs ≡ true
    → (admit_serving limits later answer meanwhile (run limits (looks now ∷ xs) (l, s)).0).0
      ≡ refuse gpu_busy
unfolding admit_serving note_answer compute_drain_mode run run_call
drain_mode-persists limits now later answer meanwhile xs l s d k =
    let v : Scheduler × Coordinator = ((compute_drain_mode limits now l).1, s) in
    elim (Option-cases l.head_job_since) [
      | inl e ↦ ground (arith, e)
      | inr (since, e) ↦ ground (
        arith,
        run-clock limits since xs v (ground (arith, e)) k,
        run-mode limits since xs v (ground (arith, e)) k (ground (arith, e)),
      )
    ]

abbrev IsTimed : Scheduler → Type 0
IsTimed l = (is_empty l.queued_ids || is_some l.head_job_since) ≡ true

run_call-IsTimed :
    (limits : Limits) (x : Call) (v : Scheduler × Coordinator)
    → IsTimed v.0
    → IsTimed (run_call limits x v).0
unfolding run_call note_job_queued compute_drain_mode admit_serving note_answer admit_head_job
    note_job_started end_job
run_call-IsTimed limits (queues none now) (l, s) b = ground arith
run_call-IsTimed limits (queues (some id) now) (l, s) b = ground arith
run_call-IsTimed limits (looks now) (l, s) b = ground arith
run_call-IsTimed limits (serves now answer) (l, s) b = ground arith
run_call-IsTimed limits (heads id now acquired) (l, s) b = ground arith
run_call-IsTimed limits (ends id now) (l, s) b = ground arith

run-IsTimed :
    (limits : Limits) (xs : List Call) (v : Scheduler × Coordinator)
    → IsTimed v.0
    → IsTimed (run limits xs v).0
unfolding run
run-IsTimed limits [] v b = b
run-IsTimed limits (x ∷ xs) v b =
    run-IsTimed limits xs (run_call limits x v) (run_call-IsTimed limits x v b)

-- While a job stands in the lane the wait of its head is timed, after any history of calls.
pub run-fresh-clock :
    (limits : Limits) (xs : List Call) (s : Coordinator)
    → is_empty (run limits xs (fresh, s)).0.queued_ids ≡ false
    → is_some (run limits xs (fresh, s)).0.head_job_since ≡ true
run-fresh-clock limits xs s q = ground (arith, run-IsTimed limits xs (fresh, s) refl)
