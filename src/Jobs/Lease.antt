-- ===== src/Jobs/Lease.antt =====
-- hostagent/jobs.py: the lease of the GPU and the one job, through submissions, workers and the calls of
-- the other tenants.
use mlops_lite.Slot.State
use mlops_lite.Base.{
  ℕ, Reply, some, Dict, arith, refl, not, ◌||◌, true, false, none, ◌≡◌, Option, is_some, ◌≢◌, ◌∙◌,
  inr, Bool-cases, sym, Option-cases, inl,
}
use mlops_lite.Jobs.Kinds.{Kind, Request, needs_gpu, idempotency_key, validated}
use mlops_lite.Jobs.Manager.{
  Manager, worker_finish, admit, Config, submit_job, release, note_child, Readings, launch,
  submit_valid, worker_start, recorded_under, within_window, hit, status_of, busy, bad_request,
  or_zero, duplicate, Response,
}
use mlops_lite.Jobs.Rows.{Value, kind}
use mlops_lite.Slot.Laws.{
  Call, acquires, releases, sets_child, begins_swap, ends_swap, retargets, call,
}
use mlops_lite.Slot.State.{
  Slot, Refusal, held, vram_exceeded, Answer, raise, acquire, holds, Answer-cases,
}

-- The flag says who holds the slot, and without a job nothing is held.
pub record IsLeased (c : Config) (m : Manager) : Type 0 where
  pub leased : m.lease_held ≡ holds m.slot.holder c.tenant
  pub idle : (is_some m.active || not (m.lease_held || m.gpu_batch_active)) ≡ true

pub release-IsLeased :
    (c : Config) (m : Manager)
    → m.lease_held ≡ holds m.slot.holder c.tenant
    → IsLeased c (release c m)
unfolding release State.release
release-IsLeased c m h = record { leased = ground arith; idle = refl }

launch-IsLeased :
    (c : Config) (k : Kind) (req : Request) (m : ℕ) (at : Readings) (mgr : Manager)
    → mgr.lease_held ≡ holds mgr.slot.holder c.tenant
    → mgr.gpu_batch_active ≡ false
    → mgr.active ≡ none
    → IsLeased c (launch c k req m at mgr).1
unfolding launch release State.release
launch-IsLeased c k req m at mgr h g a = record { leased = ground arith; idle = ground arith }

pub acquire-holds :
    (c : Config) (now : ℕ) (free : Option ℕ) (s : Slot)
    → holds (acquire c.tenant State.job c.est now free s).1.holder c.tenant
      ≡ (elim (acquire c.tenant State.job c.est now free s).0 [
        | State.ok h ↦ true
        | raise e ↦ holds s.holder c.tenant
      ])
unfolding acquire
acquire-holds c now free s = ground arith

admit-IsLeased :
    (c : Config) (k : Kind) (req : Request) (m : ℕ) (at : Readings) (mgr : Manager)
    → IsLeased c mgr
    → mgr.active ≡ none
    → IsLeased c (admit c k req m at mgr).1
unfolding admit
admit-IsLeased c k req m at mgr v a = elim (Bool-cases (needs_gpu k m)) [
  | inr off ↦ rw off (launch-IsLeased c k req m at mgr v.leased (ground (arith, v.idle, a)) a)
  | inl on ↦
      let answer = acquire c.tenant State.job c.est at.acquired_at at.free mgr.slot in
      let holding = acquire-holds c at.acquired_at at.free mgr.slot in
      rw on (elim (Answer-cases answer.0) [
        | inl (h, e) ↦
            rw e
              (launch-IsLeased c k req m at _ (sym (rw e at holding)) (ground (arith, v.idle, a)) a)
        | inr (r, e) ↦ rw e (record { leased = v.leased ∙ sym (rw e at holding); idle = v.idle })
      ])
]

-- The ends of a submission: a bad request, a duplicate, a busy agent, or the admission.
pub submit_job_cases {ℓ} :
    (P : Response × Manager → Type ℓ) (c : Config) (k : Option Kind) (req : Request) (at : Readings)
    (mgr : Manager)
    → P (bad_request, mgr)
    → ((id : ℕ) (status : Value) → P (duplicate id status, mgr))
    → ((id : ℕ) → mgr.active ≡ some id → P (busy id, mgr))
    → ((j : Kind) (m : ℕ) → mgr.active ≡ none → P (admit c j req m at mgr))
    → P (submit_job c k req at mgr)
unfolding submit_job submit_valid
submit_job_cases P c none req at mgr bad dup taken free = bad
submit_job_cases P c (some k) req at mgr bad dup taken free =
    elim (Option-cases (validated c.lower k req)) [
      | inl e ↦ rw (e, submit_job) bad
      | inr (m, e) ↦
          let known = hit (req idempotency_key) mgr.run_keys in
          let found = recorded_under known mgr.journal in
          rw (e, submit_job)
            (elim (Bool-cases (within_window found at.deduped_at c.window)) [
              | inl old ↦ rw (old, submit_valid) (dup (or_zero known) (status_of found))
              | inr new ↦ elim (Option-cases mgr.active) [
                | inl idle ↦ rw (new, idle, submit_valid) (free k m idle)
                | inr (id, used) ↦ rw (new, used, submit_valid) (taken id used)
              ]
            ])
    ]

pub submit_job-IsLeased :
    (c : Config) (k : Option Kind) (req : Request) (at : Readings) (mgr : Manager)
    → IsLeased c mgr
    → IsLeased c (submit_job c k req at mgr).1
submit_job-IsLeased c k req at mgr v =
    submit_job_cases (λ x. IsLeased c x.1) c k req at mgr v (λ id status. v) (λ id a. v)
      (λ j m a. admit-IsLeased c j req m at mgr v a)

pub worker_start-IsLeased :
    (c : Config) (id now : ℕ) (reply : Reply) (mgr : Manager)
    → IsLeased c mgr
    → IsLeased c (worker_start c id now reply mgr).1
unfolding worker_start release State.release
worker_start-IsLeased c id now reply mgr v = record { leased = ground arith; idle = ground arith }

pub worker_finish-IsLeased :
    (c : Config) (id status now : ℕ) (outcome : Value) (fields : Dict Value) (reply : Reply)
    (mgr : Manager)
    → IsLeased c mgr
    → IsLeased c (worker_finish c id status now outcome fields reply mgr)
unfolding worker_finish
worker_finish-IsLeased c id status now outcome fields reply mgr v = release-IsLeased c _ v.leased

pub note_child-IsLeased :
    (c : Config) (id pid : ℕ) (mgr : Manager)
    → IsLeased c mgr
    → IsLeased c (note_child c id pid mgr)
unfolding note_child State.set_child
note_child-IsLeased c id pid mgr v = record { leased = ground arith; idle = v.idle }

pub call-holds :
    (tenant other : ℕ) (x : Call) (s : Slot)
    → other ≢ tenant
    → holds (call other x s).holder tenant ≡ holds s.holder tenant
unfolding call acquire State.release State.set_child State.begin_swap State.end_swap
    State.retarget_swap
call-holds tenant other (acquires kind est now free) s h = ground arith
call-holds tenant other releases s h = ground arith
call-holds tenant other (sets_child pid) s h = ground arith
call-holds tenant other begins_swap s h = ground arith
call-holds tenant other ends_swap s h = ground arith
call-holds tenant other (retargets new) s h = ground arith
