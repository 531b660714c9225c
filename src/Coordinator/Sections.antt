-- ===== src/Coordinator/Sections.antt =====
-- hostagent/coordinator.py: the critical sections as the steps of an interleaving. The lock is held
-- for one section at a time, so what threads do together is some sequence of sections.
use mlops_lite.Base.{[], ◌∷◌, Option, ℕ, List, Bool}
use mlops_lite.Coordinator.Claims.{release}
use mlops_lite.Coordinator.Eviction.{
  begin_job, end_job, finish_job, end_evictions, evict_poll, evict_mark, forget, set_child,
}
use mlops_lite.Coordinator.Handoff.{dispose, reclaim, load_failed_section, finish_wait}
use mlops_lite.Coordinator.Loading.{reconcile, commit}
use mlops_lite.Coordinator.Stage1.{stage1, Reading}
use mlops_lite.Coordinator.State.{Disposition, Machine, Child, Coordinator}

pub data Section : Type 0 where
  stage1s : Reading → (key est_bytes op_id : ℕ) → Section
  reconciles : (op_id real_bytes : ℕ) → (deferred : Bool) → Section
  commits : (wall key op_id real_bytes : ℕ) → Child → (deferred : Bool) → Section
  load_fails : (key op_id : ℕ) → Section
  disposes : Disposition → List ℕ → (owner : ℕ) → Section
  reclaims : (key : ℕ) → Section
  finishes_wait : (waiter : ℕ) → Section
  marks : (key : ℕ) → Section
  polls : (key now deadline : ℕ) → Section
  forgets : (key : ℕ) → Section
  ends_evictions : (op_id : ℕ) → Section
  begins_job : Section
  finishes_job : (job_id wall : ℕ) → (drained : Bool) → Section
  ends_job : Option ℕ → Section
  sets_child : (key pid measured : ℕ) → Section
  releases : (wall claim : ℕ) → Section

unfoldable pub run_section : Machine → Section → Coordinator → Coordinator
run_section m (stage1s io key est_bytes op_id) s = (stage1 m io key est_bytes op_id s).1
run_section m (reconciles op_id real_bytes deferred) s = reconcile op_id real_bytes deferred s
run_section m (commits wall key op_id real_bytes child deferred) s =
    (commit m wall key op_id real_bytes child deferred s).1
run_section m (load_fails key op_id) s = load_failed_section key op_id s
run_section m (disposes d waiters owner) s = dispose d waiters owner s
run_section m (reclaims key) s = reclaim key s
run_section m (finishes_wait waiter) s = (finish_wait waiter s).1
run_section m (marks key) s = (evict_mark key s).1
run_section m (polls key now deadline) s = (evict_poll key now deadline s).1
run_section m (forgets key) s = (forget key s).1
run_section m (ends_evictions op_id) s = end_evictions op_id s
run_section m begins_job s = (begin_job s).1
run_section m (finishes_job job_id wall drained) s = (finish_job job_id wall drained s).1
run_section m (ends_job job_id) s = end_job job_id s
run_section m (sets_child key pid measured) s = set_child key pid measured s
run_section m (releases wall claim) s = release wall claim s

unfoldable pub run : Machine → List Section → Coordinator → Coordinator
run m [] s = s
run m (x ∷ xs) s = run m xs (run_section m x s)
