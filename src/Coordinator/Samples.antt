-- ===== src/Coordinator/Samples.antt =====
-- Concrete states of the coordinator, at which its theorems apply.
use mathlib.Core.List.{Perm}
use mlops_lite.Base.{
  false, none, [], some, ◌≤◌, ◌+◌, total, true, insert, erase, sum_of, ◌∷◌, refl, length, ◌≡◌, Dict,
  ◌≢◌, ◌⊎◌, modify_all, lookup, total_except, modify, ◌&&◌, select,
}
use mlops_lite.Coordinator.Bounds.{commit-granted-le-usable, stage1-load_bounds}
use mlops_lite.Coordinator.Claims.{drop_id, release, release_claim, give_back, grant_claim}
use mlops_lite.Coordinator.Config.{Config, usable_capacity, backoff_for}
use mlops_lite.Coordinator.Eviction.{
  evict_mark, end_evictions, begin_job, drain_view, forget, evict_poll, end_job, set_child,
  finish_job,
}
use mlops_lite.Coordinator.Exclusive.{run-init-IsExclusive, IsExclusive}
use mlops_lite.Coordinator.Handoff.{
  load_failed_section, dispose_all, drop_reservation, wake_all, dispose_one, dispose, finish_wait,
  give_up, reclaim, waiter_outcome,
}
use mlops_lite.Coordinator.Histories.{
  next, here, Trace, evict_poll-emptied-claims_of, active_of-claims_of, stale_rollback_displaces,
}
use mlops_lite.Coordinator.Loading.{
  commit, settle_entry, place, drift, assign_claim, reconcile, hand_claims, hand_claim,
  begin_rollback,
}
use mlops_lite.Coordinator.Sections.{
  releases, stage1s, run_section, commits, run, finishes_job, begins_job,
}
use mlops_lite.Coordinator.Selection.{select_victims_lem, IsLeast, IsSorted}
use mlops_lite.Coordinator.Stage1.{
  Reading, stage1, register, join_entry, reserve, make_room, refusal, mark_draining, admit_new,
  bounds_snapshot, reserved_in,
}
use mlops_lite.Coordinator.State.{
  Machine, Coordinator, Child, accounted, new_reservation, usable, init, unmaterialized,
  ResidentModel, generation_of, claims_of, resident, active_of, new_resident, barred,
  bump_generation, reservation_for,
}
use mlops_lite.Coordinator.Victims.{
  is_eligible, entry_vram, eligible, sort, fits_live, fits_budget, Terms, insert_sorted, choose,
  select_victims,
}

abbrev config : Config
config = record {
  safety_reserve_bytes = 100;
  safety_headroom_bytes = 10;
  max_admission_attempts = 3;
  drain_timeout = 30;
  job_drain_timeout = 60;
  admission_backoff_base = 50;
  admission_backoff_cap = 1000;
  configured_budget_bytes = none;
}

-- A usable capacity of 1000.
abbrev machine : Machine
machine = record { config = config; total_bytes = 1100 }

abbrev io : Reading
io = record { free_now = 1100; free_for_victims = 1100; free_for_log = 1100; wall = 5 }

abbrev child : Child
child = record { pid = some 77 }

-- Model 1 is being loaded by operation 7; then it is resident, with one claim; then it is idle.
abbrev being_loaded : Coordinator
being_loaded = run_section machine (stage1s io 1 300 7) init

abbrev serving : Coordinator
serving = run_section machine (commits 5 1 7 320 child false) being_loaded

abbrev idle : Coordinator
idle = run_section machine (releases 6 1) serving

program : Unit {0}
unfolding lookup erase insert modify modify_all total total_except grant_claim give_back drop_id
    release_claim release backoff_for usable_capacity evict_mark evict_poll forget end_evictions
    begin_job finish_job end_job drain_view set_child reconcile assign_claim hand_claim hand_claims
    drift begin_rollback place settle_entry commit reclaim drop_reservation load_failed_section
    dispose_one dispose_all wake_all dispose waiter_outcome give_up finish_wait run_section run
    bounds_snapshot refusal register join_entry reserved_in reserve mark_draining make_room
    admit_new stage1 init usable accounted unmaterialized generation_of bump_generation
    reservation_for barred claims_of active_of insert_sorted sort eligible choose select_victims
program = tt

loading-Trace : Trace machine init being_loaded
unfolding program
loading-Trace = next here (stage1s io 1 300 7) tt

serving-Trace : Trace machine init serving
unfolding program
serving-Trace = next loading-Trace (commits 5 1 7 320 child false) refl

idle-Trace : Trace machine init idle
unfolding program
idle-Trace = next serving-Trace (releases 6 1) tt

-- The first commit of a load of 300 bytes that turned out as 320.
commit-granted_example : accounted serving ≤ usable machine
unfolding program
commit-granted_example =
    commit-granted-le-usable machine 5 1 7 320 child false being_loaded 1 [] refl

stage1-load_example :
    (accounted init + 300 ≤ usable machine)
    × (300 + unmaterialized init + 10 ≤ 1100)
    × (accounted being_loaded ≤ usable machine)
unfolding program
stage1-load_example = stage1-load_bounds machine io 1 300 7 init (new_reservation 7 1 300 0) refl

abbrev two_residents : Dict ResidentModel
two_residents =
    (1, record (new_resident 4 1) { state = resident; vram_accounted_bytes = 500 })
    ∷ (2, record (new_resident 3 2) { state = resident; vram_accounted_bytes = 400 })
    ∷ []

abbrev tight : Terms
tight = record {
  accounted_bytes = 900;
  unmaterialized_bytes = 0;
  free = 200;
  capacity = 1000;
  headroom = 10;
}

select_victims_example :
    let chosen = select_victims tight 9 300 two_residents in
    let candidates = eligible 9 two_residents in
    (IsSorted candidates × Perm candidates (select (is_eligible 9) two_residents))
    × ((chosen ≡ []
          × ((fits_budget tight 300 (sum_of entry_vram candidates)
                && fits_live tight 300 (sum_of entry_vram candidates))
              ≡ false))
        ⊎ (((fits_budget tight 300 (sum_of entry_vram chosen)
                && fits_live tight 300 (sum_of entry_vram chosen))
              ≡ true)
            × IsLeast tight 300 candidates chosen))
select_victims_example = select_victims_lem tight 9 300 two_residents refl

run_example : IsExclusive (run machine (begins_job ∷ finishes_job 4 6 true ∷ []) init)
run_example = run-init-IsExclusive machine (begins_job ∷ finishes_job 4 6 true ∷ [])

active_of_example : active_of serving 1 ≡ length (claims_of serving 1)
active_of_example = active_of-claims_of machine serving 1 serving-Trace

evict_poll_example : claims_of idle 1 ≡ []
unfolding program
evict_poll_example = evict_poll-emptied-claims_of machine idle 1 8 9 (some child) idle-Trace refl

-- Operation 7 loaded model 1 at generation 0; since then it was reclaimed and operation 8 serves it.
abbrev overtaken : Coordinator
overtaken = record serving {
  reservations = (7, new_reservation 7 1 300 0) ∷ [];
  generations = (1, 1) ∷ [];
}

stale_rollback_example :
    let t = reclaim 1 (commit machine 5 1 7 320 child false overtaken).1 in
    (lookup 1 t.residents ≡ none) × (claims_of t 1 ≢ []) × (active_of t 1 ≢ length (claims_of t 1))
unfolding program
stale_rollback_example =
    stale_rollback_displaces machine 5 1 7 320 child false (new_reservation 7 1 300 0) overtaken
      refl refl (λ e. cc)
