-- ===== src/Coordinator/Eviction.antt =====
-- hostagent/coordinator.py: the critical sections of evict, forget, admit_job and end_job,
-- and hostagent/coordadmission.py: set_child.
use mlops_lite.Base.{
  some, Option, not, Bool, modify_all, ℕ, is_empty, ◌==◌, leb, select, map, List, if◌then◌else◌,
  true, modify, false, lookup, ◌||◌, erase, none,
}
use mlops_lite.Coordinator.Handoff.{reclaim}
use mlops_lite.Coordinator.State.{
  draining, ResidentModel, is_resident, Job, resident, is_draining, Coordinator, Child, evicting,
  barred,
}

pub data Mark : Type 0 where
  gone : Mark
  marked : Option Child → Mark

-- The first section of evict.
unfoldable pub evict_mark : ℕ → Coordinator → Mark × Coordinator
evict_mark key s = elim (lookup key s.residents) [
  | none ↦ (gone, s)
  | some r ↦ (
    marked r.child,
    if is_resident r.state
        then record s { residents = modify key (λ x. record x { state = draining }) s.residents }
        else s,
  )
]

pub data Poll : Type 0 where
  vanished : Poll
  emptied : Option Child → Poll
  evict_failed : Poll
  waiting : Poll

-- One round of the second section of evict: `waiting` goes round again.
unfoldable pub evict_poll : (key now deadline : ℕ) → Coordinator → Poll × Coordinator
evict_poll key now deadline s = elim (lookup key s.residents) [
  | none ↦ (vanished, s)
  | some r ↦
      if r.active_requests == 0
      then (
        emptied r.child,
        record s { residents = modify key (λ x. record x { state = evicting }) s.residents },
      )
      else if leb deadline now
      then (
        evict_failed,
        if barred s then s else record s {
          residents = modify key (λ x. record x { state = resident }) s.residents;
        },
      )
      else (waiting, s)
]

-- forget: true if an entry was removed.
unfoldable pub forget : ℕ → Coordinator → Bool × Coordinator
forget key s = elim (lookup key s.residents) [ none ↦ (false, s) | some _ ↦ (true, reclaim key s) ]

-- `self._evict_intent.pop(op_id, None)`, when the evictions of one attempt are over.
unfoldable pub end_evictions : ℕ → Coordinator → Coordinator
end_evictions op_id s = record s { evict_intent = erase op_id s.evict_intent }

abbrev pub resident_to_draining : ResidentModel → ResidentModel
resident_to_draining r = if is_resident r.state then record r { state = draining } else r

abbrev pub draining_to_resident : ResidentModel → ResidentModel
draining_to_resident r = if is_draining r.state then record r { state = resident } else r

-- The first section of admit_job.
unfoldable pub begin_job : Coordinator → Bool × Coordinator
begin_job s = if barred s then (false, s) else (
  true,
  record s { job_barrier = true; residents = modify_all resident_to_draining s.residents },
)

-- The last section of admit_job, with what _drain_serving_set returned.
unfoldable pub finish_job : (job_id wall : ℕ) → (drained : Bool) → Coordinator → Bool × Coordinator
finish_job job_id wall drained s =
    if not drained || (not (is_empty s.residents) || not (is_empty s.reservations))
    then (
      false,
      record s { job_barrier = false; residents = modify_all draining_to_resident s.residents },
    )
    else (
      true,
      record s {
        exclusive_job = some (record { job_id = job_id; started_at = wall });
        job_barrier = false;
      },
    )

abbrev names_job : Option Job → ℕ → Bool
names_job none id = false
names_job (some j) id = j.job_id == id

-- end_job: with no id the job is cleared, with one only if it is that job.
unfoldable pub end_job : Option ℕ → Coordinator → Coordinator
end_job none s = record s { exclusive_job = none }
end_job (some id) s = if names_job s.exclusive_job id then record s { exclusive_job = none } else s

abbrev is_pending : ℕ × ResidentModel → Bool
is_pending (_, r) = is_draining r.state || is_resident r.state

-- One look of _drain_serving_set: the keys to evict, and those that an owner is finalizing.
unfoldable pub drain_view : Coordinator → List ℕ × List ℕ
drain_view s = (
  map (λ (v : ℕ × ResidentModel). v.0) (select is_pending s.residents),
  map (λ (v : ℕ × ResidentModel). v.0) (select (λ v. not (is_pending v)) s.residents),
)

-- coordadmission.py, set_child: the section, with the probe's reading (0 when it has none).
abbrev pub with_child : (pid measured : ℕ) → ResidentModel → ResidentModel
with_child pid measured r =
    let installed = record r { child = some (record { pid = some pid }) } in
    if measured == 0
    then installed
    else record installed { vram_accounted_bytes = measured; materialized = true }

unfoldable pub set_child : (key pid measured : ℕ) → Coordinator → Coordinator
set_child key pid measured s = record s {
  residents = modify key (with_child pid measured) s.residents;
}
