-- ===== src/Lanes/Overlap.antt =====
-- hostagent/scheduler.py: requests that overlap. The lock is not held while the coordinator is asked,
-- so admit_serving is two sections, between which other requests and calls come in.
use mlops_lite.Base.{
  ◌≡◌, Bool, false, ◌&&◌, ◌<◌, true, List, [], ◌∷◌, ℕ, suc, ◌+◌, ◌-◌, ◌≤◌, ◌==◌, leb, if◌then◌else◌,
  arith, none, some,
}
use mlops_lite.Coordinator.State.{Coordinator, Outcome, refuse, gpu_busy}
use mlops_lite.Lanes.Calls.{Call, keeps_waiting, queues, looks, serves, heads, ends, run_call}
use mlops_lite.Lanes.State.{
  Limits, ok, admit_serving, Scheduler, note_answer, compute_drain_mode, note_job_queued,
  admit_head_job,
}

-- A section: a request looks at the mode, a request that went past it has its answer, or a whole call.
pub data Section : Type 0 where
  asks : (now : ℕ) → Section
  answers : Outcome → Section
  calls : Call → Section

-- The scheduler, the coordinator, and the number of requests between their two sections.
abbrev pub Shared : Type 0
Shared = (Scheduler × Coordinator) × ℕ

-- The agent serves at most `threads` requests at a time: a further one does not begin.
unfoldable pub run_section : Limits → (threads : ℕ) → Section → Shared → Shared
run_section limits threads (asks now) ((l, s), n) =
    let looked = compute_drain_mode limits now l in
    if leb threads n then ((l, s), n) else ((looked.1, s), if looked.0 then n else suc n)
run_section limits threads (answers answer) ((l, s), n) =
    if n == 0 then ((l, s), n) else ((note_answer answer l, s), n - 1)
run_section limits threads (calls x) (v, n) = (run_call limits x v, n)

-- The section neither gives the GPU to a job nor ends one, and a request is not served in one step.
abbrev pub lets_wait : Section → Bool
lets_wait (asks now) = true
lets_wait (answers answer) = true
lets_wait (calls (serves now answer)) = false
lets_wait (calls x) = keeps_waiting x

abbrev pub all_let_wait : List Section → Bool
all_let_wait [] = true
all_let_wait (x ∷ xs) = lets_wait x && all_let_wait xs

-- The requests that are admitted: those that went past the mode and have a good answer.
unfoldable pub lets_in : Section → Shared → ℕ
lets_in (answers answer) (v, n) = if n == 0 then 0 else if ok answer then 1 else 0
lets_in x v = 0

unfoldable pub entries : Limits → (threads : ℕ) → List Section → Shared → ℕ
entries limits threads [] v = 0
entries limits threads (x ∷ xs) v =
    lets_in x v + entries limits threads xs (run_section limits threads x v)

-- The wait goes on, and who is counted or between two sections went past the mode below the burst.
record IsHeld (limits : Limits) (threads since : ℕ) (v : Shared) : Type 0 where
  clock : v.0.0.head_job_since ≡ some since
  in_flight : v.1 ≤ threads
  count : v.0.0.inference_since_job_queued + v.1 + 1 ≤ limits.inference_burst + threads

-- A section keeps that, and counts whom it lets in.
record Holds (limits : Limits) (threads since : ℕ) (x : Section) (v : Shared) : Type 0 where
  held : IsHeld limits threads since (run_section limits threads x v)
  counted :
      (run_section limits threads x v).0.0.inference_since_job_queued
      ≡ lets_in x v + v.0.0.inference_since_job_queued

call-Holds :
    (limits : Limits) (threads since n : ℕ) (x : Call) (v : Scheduler × Coordinator)
    → IsHeld limits threads since (v, n)
    → (run_call limits x v).0.head_job_since ≡ some since
    → (run_call limits x v).0.inference_since_job_queued ≡ v.0.inference_since_job_queued
    → Holds limits threads since (calls x) (v, n)
unfolding run_section lets_in
call-Holds limits threads since n x v w k e =
    let f = w.in_flight in
    let c = w.count in
    record {
      held = record { clock = k; in_flight = f; count = rw e c };
      counted = omega (arith, e);
    }

run_section-Holds :
    (limits : Limits) (threads since : ℕ) (x : Section) (v : Shared)
    → lets_wait x ≡ true
    → IsHeld limits threads since v
    → Holds limits threads since x v
unfolding run_section compute_drain_mode note_answer lets_in
run_section-Holds limits threads since (asks now) ((l, s), n) h w =
    let k = w.clock in
    let f = w.in_flight in
    let c = w.count in
    record {
      held = record { clock = ground arith; in_flight = ground arith; count = ground arith };
      counted = ground arith;
    }
run_section-Holds limits threads since (answers answer) ((l, s), n) h w =
    let k = w.clock in
    let f = w.in_flight in
    let c = w.count in
    record {
      held = record { clock = ground arith; in_flight = ground arith; count = ground arith };
      counted = ground arith;
    }
run_section-Holds limits threads since (calls (serves now answer)) (v, n) h w = cc
run_section-Holds limits threads since (calls (queues none now)) ((l, s), n) h w =
    let k = w.clock in
    call-Holds limits threads since n (queues none now) (l, s) w
      (unfold run_call note_job_queued in ground arith)
      (unfold run_call note_job_queued in ground arith)
run_section-Holds limits threads since (calls (queues (some id) now)) ((l, s), n) h w =
    let k = w.clock in
    call-Holds limits threads since n (queues (some id) now) (l, s) w
      (unfold run_call note_job_queued in ground arith)
      (unfold run_call note_job_queued in ground arith)
run_section-Holds limits threads since (calls (looks now)) ((l, s), n) h w =
    let k = w.clock in
    call-Holds limits threads since n (looks now) (l, s) w (unfold run_call in ground arith)
      (unfold run_call in ground arith)
run_section-Holds limits threads since (calls (heads id now acquired)) ((l, s), n) h w =
    let k = w.clock in
    call-Holds limits threads since n (heads id now acquired) (l, s) w
      (unfold run_call admit_head_job in ground arith)
      (unfold run_call admit_head_job in ground arith)
run_section-Holds limits threads since (calls (ends id now)) (v, n) h w = cc

entries-bound :
    (limits : Limits) (threads since : ℕ) (xs : List Section) (v : Shared)
    → all_let_wait xs ≡ true
    → IsHeld limits threads since v
    → entries limits threads xs v + v.0.0.inference_since_job_queued + 1
      ≤ limits.inference_burst + threads
unfolding entries
entries-bound limits threads since [] v h w = let c = w.count in omega arith
entries-bound limits threads since (x ∷ xs) v h w =
    let step = run_section-Holds limits threads since x v (ground arith) w in
    let rest =
      entries-bound limits threads since xs (run_section limits threads x v) (ground arith)
        step.held in
    omega (arith, step.counted, rest)

-- The bound on the burst for requests that overlap: from the moment the wait of the head job starts, with
-- the sections of at most `threads` requests and the other calls in any order, until a job gets the GPU
-- or ends, fewer than `inference_burst + threads` requests are admitted. With one thread that is the
-- burst.
pub entries-le-burst :
    (limits : Limits) (threads since : ℕ) (xs : List Section) (v : Shared)
    → v.0.0.head_job_since ≡ some since
    → v.0.0.inference_since_job_queued ≡ 0
    → v.1 ≤ threads
    → 1 ≤ limits.inference_burst
    → all_let_wait xs ≡ true
    → entries limits threads xs v < limits.inference_burst + threads
entries-le-burst limits threads since xs v clock none_yet in_flight some_burst h = omega (
  arith,
  entries-bound limits threads since xs v h
      (record { clock = clock; in_flight = in_flight; count = omega arith }),
)

unfoldable pub run_sections : Limits → (threads : ℕ) → List Section → Shared → Shared
run_sections limits threads [] v = v
run_sections limits threads (x ∷ xs) v =
    run_sections limits threads xs (run_section limits threads x v)

run_section-clock :
    (limits : Limits) (threads since : ℕ) (x : Section) (v : Shared)
    → lets_wait x ≡ true
    → v.0.0.head_job_since ≡ some since
    → (run_section limits threads x v).0.0.head_job_since ≡ some since
unfolding run_section run_call note_job_queued compute_drain_mode note_answer admit_head_job
run_section-clock limits threads since (asks now) ((l, s), n) h k = ground arith
run_section-clock limits threads since (answers answer) ((l, s), n) h k = ground arith
run_section-clock limits threads since (calls (serves now answer)) v h k = cc
run_section-clock limits threads since (calls (queues none now)) ((l, s), n) h k = ground arith
run_section-clock limits threads since (calls (queues (some id) now)) ((l, s), n) h k = ground arith
run_section-clock limits threads since (calls (looks now)) ((l, s), n) h k = ground arith
run_section-clock limits threads since (calls (heads id now acquired)) ((l, s), n) h k =
    ground arith
run_section-clock limits threads since (calls (ends id now)) v h k = cc

run_sections-clock :
    (limits : Limits) (threads since : ℕ) (xs : List Section) (v : Shared)
    → all_let_wait xs ≡ true
    → v.0.0.head_job_since ≡ some since
    → (run_sections limits threads xs v).0.0.head_job_since ≡ some since
unfolding run_sections
run_sections-clock limits threads since [] v h k = k
run_sections-clock limits threads since (x ∷ xs) v h k =
    run_sections-clock limits threads since xs (run_section limits threads x v) (ground arith)
      (run_section-clock limits threads since x v (ground arith) k)

-- The bound on the wait: after any sections of requests and any other calls since the wait of the head
-- job began, in any order, until a job gets the GPU or ends, a request that looks at the mode when the
-- head has waited `head_job_wait` is refused with gpu_busy, whatever the coordinator would answer, and is
-- neither counted nor between two sections.
pub run_sections-overdue :
    (limits : Limits) (threads since now : ℕ) (answer : Outcome) (meanwhile : Scheduler → Scheduler)
    (xs : List Section) (v : Shared)
    → v.0.0.head_job_since ≡ some since
    → all_let_wait xs ≡ true
    → since + limits.head_job_wait ≤ now
    → let w = run_sections limits threads xs v in
      ((admit_serving limits now answer meanwhile w.0.0).0 ≡ refuse gpu_busy)
      × ((run_section limits threads (asks now) w).1 ≡ w.1)
      × ((run_section limits threads (asks now) w).0.0.inference_since_job_queued
          ≡ w.0.0.inference_since_job_queued)
unfolding admit_serving run_section compute_drain_mode
run_sections-overdue limits threads since now answer meanwhile xs v h k late =
    let clock = run_sections-clock limits threads since xs v k h in
    (ground (arith, clock), ground (arith, clock), ground (arith, clock))
