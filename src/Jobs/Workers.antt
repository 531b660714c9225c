-- ===== src/Jobs/Workers.antt =====
-- hostagent/jobs.py: histories of the job manager, the ends of a submission and of a worker, and a job
-- whose worker could not start.
use mlops_lite.Slot.State
use mlops_lite.Base.{
  ℕ, none, Reply, raises_before, true, ◌∷◌, List, choice_cases, Option, ◌==◌, Bool, Dict,
  if◌then◌else◌, some, is_some, same_option, [], false, sym, ◌∙◌, ◌≡◌, lookup, arith, refl, returns,
  inr, inl, Bool-cases, lookup-insert, raises_after,
}
use mlops_lite.Jobs.Journal.{transition, write, Journal, submit}
use mlops_lite.Jobs.Kinds.{idempotency_key, Kind, validated, Request, needs_gpu, new_record}
use mlops_lite.Jobs.Lease.{
  worker_finish-IsLeased, IsLeased, submit_job-IsLeased, call-holds, worker_start-IsLeased,
  note_child-IsLeased, submit_job_cases, acquire-holds,
}
use mlops_lite.Jobs.Manager.{
  Manager, accepted, raised, Config, Response, within_window, worker_start, submit_job, launch,
  duplicate, submit_valid, worker_finish, note_child, release, Readings, new_id, admit,
}
use mlops_lite.Jobs.Rows.{
  JobRecord, val, queued, Value, state, id_of, job_split, running, is_active,
}
use mlops_lite.Slot.Laws.{Call, call}
use mlops_lite.Slot.State.{
  Slot, Refusal, held, vram_exceeded, Answer, raise, acquire, holds, Answer-cases,
}

-- A worker is the thread of the active job; the other tenants call the slot at any time.
pub data Event : Type 0 where
  submits : Option Kind → Request → Readings → Event
  starts : (id now : ℕ) → Reply → Event
  spawns : (id pid : ℕ) → Event
  finishes : (id status now : ℕ) (outcome : Value) (fields : Dict Value) → Reply → Event
  others : (tenant : ℕ) → Call → Event

abbrev is_worker : Manager → ℕ → Bool
is_worker m id = same_option m.active (some id)

unfoldable pub step : Config → Event → Manager → Manager
step c (submits k req at) m = (submit_job c k req at m).1
step c (starts id now reply) m = if is_worker m id then (worker_start c id now reply m).1 else m
step c (spawns id pid) m = if is_worker m id then note_child c id pid m else m
step c (finishes id status now outcome fields reply) m =
    if is_worker m id then worker_finish c id status now outcome fields reply m else m
step c (others tenant x) m =
    if tenant == c.tenant then m else record m { slot = call tenant x m.slot }

unfoldable pub run : Config → List Event → Manager → Manager
run c [] m = m
run c (x ∷ xs) m = run c xs (step c x m)

step-IsLeased : (c : Config) (x : Event) (m : Manager) → IsLeased c m → IsLeased c (step c x m)
unfolding step
step-IsLeased c (submits k req at) m v = submit_job-IsLeased c k req at m v
step-IsLeased c (starts id now reply) m v =
    choice_cases (IsLeased c) (is_worker m id) (λ _. worker_start-IsLeased c id now reply m v)
      (λ _. v)
step-IsLeased c (spawns id pid) m v =
    choice_cases (IsLeased c) (is_worker m id) (λ _. note_child-IsLeased c id pid m v) (λ _. v)
step-IsLeased c (finishes id status now outcome fields reply) m v =
    choice_cases (IsLeased c) (is_worker m id)
      (λ _. worker_finish-IsLeased c id status now outcome fields reply m v) (λ _. v)
step-IsLeased c (others tenant x) m v =
    choice_cases (IsLeased c) (tenant == c.tenant) (λ _. v)
      (λ e. record {
        leased = v.leased ∙ sym (call-holds c.tenant tenant x m.slot (ground arith));
        idle = v.idle;
      })

-- The lease is never stranded: through submissions, workers and calls of the other tenants in any
-- order, the flag is up exactly while the manager's tenant holds the slot, and with no active job it
-- is down and no batch is marked.
pub run-IsLeased :
    (c : Config) (xs : List Event) (m : Manager) → IsLeased c m → IsLeased c (run c xs m)
unfolding run
run-IsLeased c [] m v = v
run-IsLeased c (x ∷ xs) m v = run-IsLeased c xs (step c x m) (step-IsLeased c x m v)

-- What an answer says of the managers before and after.
abbrev pub Answered : Config → Response → (before after : Manager) → Type 0
Answered c (accepted id) m t =
    (m.active ≡ none)
    × (t.active ≡ some id)
    × (is_some (lookup id t.journal.jobs) ≡ true)
    × (is_some (lookup id t.journal.rows) ≡ true)
Answered c raised m t = (t.active ≡ none) × (holds t.slot.holder c.tenant ≡ false)
Answered c _ m t = t ≡ m

submit-recorded :
    (r : JobRecord) (reply : Reply) (j : Journal)
    → (submit r reply j).0 ≡ true
    → (is_some (lookup (id_of r) (submit r reply j).1.jobs) ≡ true)
      × (is_some (lookup (id_of r) (submit r reply j).1.rows) ≡ true)
unfolding submit write
submit-recorded r raises_before j h = cc
submit-recorded r raises_after j h = cc
submit-recorded r returns j h = (
  ground (arith, lookup-insert (id_of r) (id_of r) r j.jobs),
  ground (arith, lookup-insert (id_of r) (id_of r) (job_split r) j.rows),
)

id_of-new_record : (k : Kind) (id m body now : ℕ) → id_of (new_record k id m body now) ≡ id
unfolding new_record
id_of-new_record k id m body now = ground arith

-- What a launch says: never that nothing changed.
Launched : Config → Response → (after : Manager) → Type 0
Launched c (accepted id) t =
    (t.active ≡ some id)
    × (is_some (lookup id t.journal.jobs) ≡ true)
    × (is_some (lookup id t.journal.rows) ≡ true)
Launched c raised t = (t.active ≡ none) × (holds t.slot.holder c.tenant ≡ false)
Launched c _ t = ⊥

launch-Launched :
    (c : Config) (k : Kind) (req : Request) (m : ℕ) (at : Readings) (mgr : Manager)
    → mgr.active ≡ none
    → mgr.lease_held ≡ holds mgr.slot.holder c.tenant
    → Launched c (launch c k req m at mgr).0 (launch c k req m at mgr).1
unfolding launch release State.release Launched
launch-Launched c k req m at mgr a h =
    let id = new_id k req at.uuid in
    let r = new_record k id m at.body at.stamped_at in
    elim (Bool-cases (submit r at.reply mgr.journal).0) [
      | inr lost ↦ rw lost (a, ground arith)
      | inl written ↦ rw written (elim (Bool-cases at.starts) [
        | inr never ↦ rw never (refl, ground arith)
        | inl running ↦
            let kept = submit-recorded r at.reply mgr.journal written in
            let named = id_of-new_record k id m at.body at.stamped_at in
            rw running (refl, rw named at (kept.0), rw named at (kept.1))
      ])
    ]

Launched-Answered :
    (c : Config) (m : Manager) (x : Response) (t : Manager)
    → m.active ≡ none
    → Launched c x t
    → Answered c x m t
unfolding Launched
Launched-Answered c m (accepted id) t a y = (a, y.0, y.1, y.2)
Launched-Answered c m raised t a y = y
Launched-Answered c m _ t a y = absurd y

refused-same :
    (c : Config) (now : ℕ) (free : Option ℕ) (m : Manager) {r : Refusal}
    → (acquire c.tenant State.job c.est now free m.slot).0 ≡ raise r
    → record m { slot = (acquire c.tenant State.job c.est now free m.slot).1 } ≡ m
unfolding acquire
refused-same c now free m h = ground arith

admit-Answered :
    (c : Config) (k : Kind) (req : Request) (m : ℕ) (at : Readings) (mgr : Manager)
    → mgr.active ≡ none
    → mgr.lease_held ≡ holds mgr.slot.holder c.tenant
    → Answered c (admit c k req m at mgr).0 mgr (admit c k req m at mgr).1
unfolding admit
admit-Answered c k req m at mgr a h = elim (Bool-cases (needs_gpu k m)) [
  | inr off ↦ rw off (Launched-Answered c mgr _ _ a (launch-Launched c k req m at mgr a h))
  | inl on ↦
      let answer = acquire c.tenant State.job c.est at.acquired_at at.free mgr.slot in
      let holding = acquire-holds c at.acquired_at at.free mgr.slot in
      rw on (elim (Answer-cases answer.0) [
        | inl (g, e) ↦ rw e (
            Launched-Answered c mgr _ _ a
              (launch-Launched c k req m at _ a (sym (rw e at holding))))
        | inr (r, e) ↦ rw e (refused-same c at.acquired_at at.free mgr e)
      ])
]

-- The answer to a submission is true, where the lease is right before it: an accepted job is the active
-- one, after none, and is in the cache and in the table; after an exception no job and no lease is
-- left; and any other answer (a bad request, a duplicate, busy, the slot held or the memory short)
-- means that nothing at all changed.
pub submit_job_lem :
    (c : Config) (k : Option Kind) (req : Request) (at : Readings) (mgr : Manager)
    → IsLeased c mgr
    → let (answer, t) = submit_job c k req at mgr in Answered c answer mgr t
submit_job_lem c k req at mgr v =
    submit_job_cases (λ x. Answered c x.0 mgr x.1) c k req at mgr refl (λ id status. refl)
      (λ id a. refl) (λ j m a. admit-Answered c j req m at mgr a v.leased)

submit_job-known :
    (c : Config) (id key m : ℕ) (k : Kind) (req : Request) (at : Readings) (r : JobRecord)
    (mgr : Manager)
    → lookup id mgr.journal.jobs ≡ some r
    → is_active (r state) ≡ true
    → lookup key mgr.run_keys ≡ some id
    → req idempotency_key ≡ val key
    → validated c.lower k req ≡ some m
    → submit_job c (some k) req at mgr ≡ (duplicate id (r state), mgr)
unfolding submit_job submit_valid within_window
submit_job-known c id key m k req at r mgr e q key_of asked good =
    rw (good, submit_job) (rw (asked, key_of, e, q) refl)

-- A job whose worker could not record its start is dead, and cannot be submitted again: the slot is
-- free, but its record stays queued, and a submission under its key is answered with it at any time.
pub worker_start-dead :
    (c : Config) (id now key m : ℕ) (k : Kind) (req : Request) (at : Readings) (r : JobRecord)
    (mgr : Manager)
    → lookup id mgr.journal.jobs ≡ some r
    → r state ≡ val queued
    → lookup key mgr.run_keys ≡ some id
    → req idempotency_key ≡ val key
    → validated c.lower k req ≡ some m
    → let t = (worker_start c id now raises_before mgr).1 in
      (t.active ≡ none) × (submit_job c (some k) req at t ≡ (duplicate id (val queued), t))
unfolding worker_start transition write release
worker_start-dead c id now key m k req at r mgr e q key_of asked good = (
  refl,
  rw q at (
      submit_job-known c id key m k req at r (worker_start c id now raises_before mgr).1 e
        (rw q refl) key_of asked good),
)
