-- ===== src/Coordinator/Stage1.antt =====
-- hostagent/coordinator.py: Coordinator._stage1, one critical section.
-- The probe is read three times in it; each reading is an argument.
use mlops_lite.Base.{
  ◌&&◌, some, Option, Bool, ◌∷◌, ℕ, Dict, insert, map, if◌then◌else◌, total, [], ◌+◌, modify, false,
  lookup, ltb, ◌++◌, is_some, none,
}
use mlops_lite.Coordinator.Claims.{grant_claim}
use mlops_lite.Coordinator.State.{
  accounted, model_too_large, draining, ResidentModel, est, generation_of, share, Job, resident,
  Machine, new_resident, refuse, reservation_for, Outcome, new_reservation, Coordinator, usable,
  Reservation, vram, gpu_busy, unmaterialized, ModelState, Code, barred, loading,
}
use mlops_lite.Coordinator.Victims.{fits_live, fits_budget, select_victims, Terms}

pub record Reading : Type 0 where
  pub free_now : ℕ
  pub free_for_victims : ℕ
  pub free_for_log : ℕ
  pub wall : ℕ

pub data Reason : Type 0 where
  job_exclusive cannot_fit_alone budget live_vram : Reason

-- Coordinator._bounds_snapshot, in bytes.
pub record Bounds : Type 0 where
  pub usable_budget : ℕ
  pub accounted_resident : ℕ
  pub reserved : ℕ
  pub unmaterialized_bytes : ℕ
  pub live_free : ℕ
  pub entries : Dict ResidentModel

unfoldable pub bounds_snapshot : Machine → ℕ → Coordinator → Bounds
bounds_snapshot m free s = record {
  usable_budget = usable m;
  accounted_resident = total vram s.residents;
  reserved = total est s.reservations;
  unmaterialized_bytes = unmaterialized s;
  live_free = free;
  entries = s.residents;
}

-- The context of a refusal; a barrier with no job yet has no blocking job.
pub record Context : Type 0 where
  pub reason : Reason
  pub blocking_job : Option ℕ
  pub bounds : Bounds

pub data Plan : Type 0 where
  answer : Outcome → Option Context → Plan
  load : Reservation → Plan
  await_load : (waiter : ℕ) → Plan
  await_transient : Plan
  evict_then_retry : Dict ResidentModel → Plan
  assertion_failed : Plan

abbrev pub job_of : Option Job → Option ℕ
job_of none = none
job_of (some j) = some j.job_id

unfoldable pub refusal : Machine → Reading → Coordinator → Code → Reason → Option ℕ → Plan
refusal m io s code reason blocking = answer (refuse code) (
    some (record {
      reason = reason;
      blocking_job = blocking;
      bounds = bounds_snapshot m io.free_for_log s;
    }))

-- A new Waiter object, appended to the reservation's registry and entered as live.
unfoldable pub register : (op_id : ℕ) → Reservation → Coordinator → Coordinator
register op_id r s = record s {
  waiter_store =
      insert s.next_waiter (record { op_id = op_id; event_set = false; disposition = none })
        s.waiter_store;
  next_waiter = s.next_waiter + 1;
  reservations =
      modify r.op_id (λ x. record x { waiters = x.waiters ++ s.next_waiter ∷ [] }) s.reservations;
  live_waiters = insert op_id s.next_waiter s.live_waiters;
}

-- The branches for a model that has an entry.
unfoldable pub join_entry : (wall key op_id : ℕ) → ModelState → Coordinator → Plan × Coordinator
join_entry wall key op_id resident s =
    (answer (share s.claim_ids) none, grant_claim wall key op_id s)
join_entry wall key op_id loading s = elim (reservation_for key s.reservations) [
  | none ↦ (await_transient, s)
  | some r ↦ (await_load s.next_waiter, register op_id r s)
]
join_entry wall key op_id _ s = (await_transient, s)

abbrev pub terms : Machine → (free : ℕ) → Coordinator → Terms
terms m free s = record {
  accounted_bytes = accounted s;
  unmaterialized_bytes = unmaterialized s;
  free = free;
  capacity = usable m;
  headroom = m.config.safety_headroom_bytes;
}

unfoldable pub reserved_in : (wall key est_bytes op_id : ℕ) → Coordinator → Coordinator
reserved_in wall key est_bytes op_id s = record s {
  reservations =
      insert op_id (new_reservation op_id key est_bytes (generation_of s key)) s.reservations;
  residents = insert key (new_resident wall s.next_recency) s.residents;
  next_recency = s.next_recency + 1;
}

-- Both bounds hold: the reservation and the `loading` entry are recorded together.
unfoldable pub reserve : (wall key est_bytes op_id : ℕ) → Coordinator → Plan × Coordinator
reserve wall key est_bytes op_id s =
    if is_some (lookup op_id s.evict_intent) then (assertion_failed, s) else (
      load (new_reservation op_id key est_bytes (generation_of s key)),
      reserved_in wall key est_bytes op_id s,
    )

-- `for victim in victims: victim.state = DRAINING`
unfoldable pub mark_draining : Dict ResidentModel → Dict ResidentModel → Dict ResidentModel
mark_draining [] residents = residents
mark_draining ((k, _) ∷ vs) residents =
    mark_draining vs (modify k (λ r. record r { state = draining }) residents)

-- No bound can be met as things stand: evict, or say why not.
unfoldable pub make_room :
    Machine
    → Reading
    → (key est_bytes op_id : ℕ) → (fits : Bool) → Dict ResidentModel
    → Coordinator
    → Plan × Coordinator
make_room m io key est_bytes op_id fits [] s =
    if ltb (usable m) (est_bytes + m.config.safety_headroom_bytes)
    then (refusal m io s model_too_large cannot_fit_alone none, s)
    else (refusal m io s gpu_busy (if fits then live_vram else budget) none, s)
make_room m io key est_bytes op_id fits (v ∷ vs) s = (
  evict_then_retry (v ∷ vs),
  record s {
    residents = mark_draining (v ∷ vs) s.residents;
    evict_intent = insert op_id (map (λ (w : ℕ × ResidentModel). w.0) (v ∷ vs)) s.evict_intent;
  },
)

-- The branches for a model that has no entry.
unfoldable pub admit_new :
    Machine → Reading → (key est_bytes op_id : ℕ) → Coordinator → Plan × Coordinator
admit_new m io key est_bytes op_id s =
    let t = terms m io.free_now s in
    let victims = select_victims (terms m io.free_for_victims s) key est_bytes s.residents in
    if fits_budget t est_bytes 0 && fits_live t est_bytes 0
    then reserve io.wall key est_bytes op_id s
    else make_room m io key est_bytes op_id (fits_budget t est_bytes 0) victims s

unfoldable pub stage1 :
    Machine → Reading → (key est_bytes op_id : ℕ) → Coordinator → Plan × Coordinator
stage1 m io key est_bytes op_id s =
    if barred s
    then (refusal m io s gpu_busy job_exclusive (job_of s.exclusive_job), s)
    else elim (lookup key s.residents) [
      | some r ↦ join_entry io.wall key op_id r.state s
      | none ↦ admit_new m io key est_bytes op_id s
    ]
