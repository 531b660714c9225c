-- ===== src/Jobs/Manager.antt =====
-- hostagent/jobs.py: JobManager on the slot of Slot and the journal. A worker thread is its two
-- sections, with the run of the job between them.
use mlops_lite.Slot.State
use mlops_lite.Base.{
  ℕ, insert, lookup, if◌then◌else◌, none, erase, ◌∷◌, ◌+◌, Dict, Reply, Bool, ◌||◌, leb, some, not,
  false, Option, ◌&&◌, [], true,
}
use mlops_lite.Jobs.Journal.{Journal, submit, transition}
use mlops_lite.Jobs.Kinds.{
  is_gpu_batch, validated, Request, shadow_id, batch, needs_gpu, new_record, shadow, Kind,
  idempotency_key,
}
use mlops_lite.Jobs.Rows.{
  val, Value, JobRecord, running, state, submitted_at, is_active, null, or_else,
}
use mlops_lite.Slot.State.{Slot, Refusal, held, vram_exceeded, Answer, raise, acquire}

pub record Config : Type 0 where
  pub tenant : ℕ
  pub est : ℕ
  pub window : ℕ
  pub lower : ℕ → ℕ

pub record Manager : Type 0 where
  pub slot : Slot
  pub journal : Journal
  pub active : Option ℕ
  pub gpu_batch_active : Bool
  pub lease_held : Bool
  pub children : Dict ℕ
  pub run_keys : Dict ℕ

-- What a submission meets: the clock each time that it is read, the free memory, the new id, the
-- req as one value, the reply of the store, and whether the thread starts.
pub record Readings : Type 0 where
  pub deduped_at : ℕ
  pub acquired_at : ℕ
  pub stamped_at : ℕ
  pub pruned_at : ℕ
  pub free : Option ℕ
  pub uuid : ℕ
  pub body : ℕ
  pub reply : Reply
  pub starts : Bool

pub data Response : Type 0 where
  bad_request : Response
  duplicate : (id : ℕ) → (status : Value) → Response
  busy : (id : ℕ) → Response
  gpu_held : Refusal → Response
  accepted : (id : ℕ) → Response
  raised : Response

-- _within_idempotency_window
unfoldable pub within_window : Option JobRecord → (now window : ℕ) → Bool
within_window none now window = false
within_window (some r) now window =
    is_active (r state) || leb now (or_else (r submitted_at) 0 + window)

abbrev pub recorded_under : Option ℕ → Journal → Option JobRecord
recorded_under none j = none
recorded_under (some id) j = lookup id j.jobs

abbrev pub status_of : Option JobRecord → Value
status_of none = null
status_of (some r) = r state

unfoldable pub release : Config → Manager → Manager
release c m = record m {
  slot = if m.lease_held then State.release c.tenant m.slot else m.slot;
  lease_held = false;
  active = none;
  gpu_batch_active = false;
}

-- The keys whose job can still be found again.
unfoldable pub pruned : (now window : ℕ) → Journal → Dict ℕ → Dict ℕ
pruned now window j [] = []
pruned now window j ((key, id) ∷ keys) =
    let rest = pruned now window j keys in
    if within_window (lookup id j.jobs) now window then (key, id) ∷ rest else rest

abbrev pub with_key : Value → (id now window : ℕ) → Journal → Dict ℕ → Dict ℕ
with_key null id now window j keys = keys
with_key (val key) id now window j keys = insert key id (pruned now window j keys)

abbrev pub new_id : Kind → Request → (uuid : ℕ) → ℕ
new_id shadow req uuid = or_else (req shadow_id) 0
new_id _ req uuid = uuid

abbrev pub is_batch : Kind → Bool
is_batch batch = true
is_batch _ = false

-- From the journal's write on, with the lease as it is.
unfoldable pub launch :
    Config → Kind → Request → (modality : ℕ) → Readings → Manager → Response × Manager
launch c k req m at mgr =
    let id = new_id k req at.uuid in
    let written = submit (new_record k id m at.body at.stamped_at) at.reply mgr.journal in
    let noted = record mgr {
      journal = written.1;
      run_keys = with_key (req idempotency_key) id at.pruned_at c.window written.1 mgr.run_keys;
      active = some id;
      gpu_batch_active = if is_batch k && is_gpu_batch m then true else mgr.gpu_batch_active;
    } in
    if not written.0
    then (
      raised,
      record mgr {
        journal = written.1;
        slot = if mgr.lease_held then State.release c.tenant mgr.slot else mgr.slot;
        lease_held = false;
      },
    )
    else if at.starts
    then (accepted id, noted)
    else (raised, release c noted)

-- The GPU slot, for a job that needs it.
unfoldable pub admit :
    Config → Kind → Request → (modality : ℕ) → Readings → Manager → Response × Manager
admit c k req m at mgr =
    if needs_gpu k m
    then (let answer = acquire c.tenant State.job c.est at.acquired_at at.free mgr.slot in
        elim answer.0 [
          | State.ok h ↦ launch c k req m at (record mgr { slot = answer.1; lease_held = true })
          | raise e ↦ (gpu_held e, record mgr { slot = answer.1 })
        ])
    else launch c k req m at mgr

abbrev pub hit : Value → Dict ℕ → Option ℕ
hit null keys = none
hit (val key) keys = lookup key keys

abbrev pub or_zero : Option ℕ → ℕ
or_zero none = 0
or_zero (some n) = n

unfoldable pub submit_valid :
    Config → Kind → Request → (modality : ℕ) → Readings → Manager → Response × Manager
submit_valid c k req m at mgr =
    let known = hit (req idempotency_key) mgr.run_keys in
    let found = recorded_under known mgr.journal in
    if within_window found at.deduped_at c.window
    then (duplicate (or_zero known) (status_of found), mgr)
    else (elim mgr.active [ some id ↦ (busy id, mgr) | none ↦ admit c k req m at mgr ])

-- submit, for a kind that is known or not.
unfoldable pub submit_job : Config → Option Kind → Request → Readings → Manager → Response × Manager
submit_job c none req at mgr = (bad_request, mgr)
submit_job c (some k) req at mgr = elim (validated c.lower k req) [
  | none ↦ (bad_request, mgr)
  | some m ↦ submit_valid c k req m at mgr
]

-- _worker up to the run: false if the job does not run.
unfoldable pub worker_start : Config → (id now : ℕ) → Reply → Manager → Bool × Manager
worker_start c id now reply mgr =
    let written = transition id running null (val now) null null [] reply mgr.journal in
    let noted = record mgr { journal = written.1 } in
    if written.0 then (true, noted) else (false, release c noted)

-- The child of a job that runs in a process of its own.
unfoldable pub note_child : Config → (id pid : ℕ) → Manager → Manager
note_child c id pid mgr = record mgr {
  children = insert id pid mgr.children;
  slot = State.set_child c.tenant pid mgr.slot;
}

-- _worker after the run, with what the runner returned: `failed` and the error if it raised. The slot
-- is freed whether the write succeeds or raises.
unfoldable pub worker_finish :
    Config
    → (id status now : ℕ) → (outcome : Value) → (fields : Dict Value) → Reply
    → Manager
    → Manager
worker_finish c id status now outcome fields reply mgr =
    let written = transition id status null null (val now) outcome fields reply mgr.journal in
    release c (record mgr { children = erase id mgr.children; journal = written.1 })

pub data Cancelled : Type 0 where
  cancelling unknown not_cancellable : Cancelled
  already : (status : Value) → Cancelled

-- cancel, which changes nothing itself: a child that is terminated ends the run of its worker.
unfoldable pub cancel : (id : ℕ) → Manager → Cancelled
cancel id mgr = elim (lookup id mgr.children) [
  | some pid ↦ cancelling
  | none ↦ elim (lookup id mgr.journal.jobs) [
    | none ↦ unknown
    | some r ↦ if is_active (r state) then not_cancellable else already (r state)
  ]
]
