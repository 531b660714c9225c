-- ===== src/Coordinator/Exclusive.antt =====
-- hostagent/coordinator.py: the exclusive job in every section.
use mlops_lite.Base.{
  erase, false, modify, ◌∙◌, none, [], arith, Dict, ◌≡◌, ◌∷◌, refl, inr, ℕ, List, ◌⊎◌, Bool, inl,
  true, is_empty, modify_all, some,
}
use mlops_lite.Coordinator.Claims.{grant_claim, drop_id, release_claim, give_back, release}
use mlops_lite.Coordinator.Eviction.{
  evict_poll, set_child, end_evictions, evict_mark, begin_job, end_job, finish_job, forget,
}
use mlops_lite.Coordinator.Handoff.{
  dispose_one, dispose, wake_all, dispose_all, reclaim, load_failed_section, give_up, finish_wait,
  drop_reservation,
}
use mlops_lite.Coordinator.Loading.{
  begin_rollback, hand_claim_cases, place, commit_cases, hand_claims, hand_claim, settle_entry,
  commit, assign_claim, reconcile,
}
use mlops_lite.Coordinator.Sections.{
  sets_child, stage1s, commits, releases, Section, disposes, run_section, ends_job, marks, reclaims,
  forgets, load_fails, finishes_job, polls, begins_job, finishes_wait, run, ends_evictions,
  reconciles,
}
use mlops_lite.Coordinator.Selection.{fits}
use mlops_lite.Coordinator.Stage1.{reserved_in, stage1, join_entry, make_room, register, Reading}
use mlops_lite.Coordinator.Branches.{admit_new_cases, reserve_cases, stage1_cases}
use mlops_lite.Coordinator.State.{
  barred, Disposition, ResidentModel, Machine, resident, Child, ModelState, Coordinator, loading,
  bump_generation, init,
}

-- No job, or an empty serving set.
abbrev pub IsExclusive : Coordinator → Type 0
IsExclusive s = (s.exclusive_job ≡ none) ⊎ ((s.residents ≡ []) × (s.reservations ≡ []))

-- What a section leaves alone.
abbrev SameGpu : Coordinator → Coordinator → Type 0
SameGpu s t =
    (t.exclusive_job ≡ s.exclusive_job)
    × (t.residents ≡ s.residents)
    × (t.reservations ≡ s.reservations)

SameGpu-IsExclusive : (s t : Coordinator) → SameGpu s t → IsExclusive s → IsExclusive t
SameGpu-IsExclusive s t h v = ground arith

not_barred : (s : Coordinator) → barred s ≡ false → s.exclusive_job ≡ none
unfolding barred
not_barred s h = ground arith

hand_claims-exclusive_job :
    (wall key : ℕ) (ws : List ℕ) (s : Coordinator)
    → (hand_claims wall key ws s).exclusive_job ≡ s.exclusive_job
unfolding hand_claims
hand_claims-exclusive_job wall key [] s = refl
hand_claims-exclusive_job wall key (w ∷ ws) s =
    hand_claims-exclusive_job wall key ws (hand_claim wall key w s)
    ∙ hand_claim_cases (λ t. t.exclusive_job ≡ s.exclusive_job) wall key w s refl
        (λ x e. unfold assign_claim grant_claim in refl)

settle_entry-exclusive_job :
    (wall key op_id real_bytes : ℕ) (child : Child) (deferred : Bool) (ws : List ℕ)
    (r : ResidentModel) (s : Coordinator)
    → (settle_entry wall key op_id real_bytes child deferred ws r s).exclusive_job ≡ s.exclusive_job
unfolding settle_entry place
settle_entry-exclusive_job wall key op_id real_bytes child deferred ws r s =
    hand_claims-exclusive_job wall key ws _ ∙ (unfold grant_claim in refl)

commit-IsExclusive :
    (m : Machine) (wall key op_id real_bytes : ℕ) (child : Child) (deferred : Bool)
    (s : Coordinator)
    → IsExclusive s
    → IsExclusive (commit m wall key op_id real_bytes child deferred s).1
commit-IsExclusive m wall key op_id real_bytes child deferred s v =
    commit_cases (λ x. IsExclusive x.1) m wall key op_id real_bytes child deferred s (λ e. v)
      (λ r e b.
        unfold begin_rollback in
        elim v [
          | inl none_running ↦ inl none_running
          | inr empty ↦ inr (unfold modify erase in rw (empty.0, empty.1) (refl, refl))
        ])
      (λ r e g k. v)
      (λ r e x k free g d. inl (
        settle_entry-exclusive_job wall key op_id real_bytes child deferred r.waiters x s
        ∙ not_barred s free))

join_entry-exclusive_job :
    (wall key op_id : ℕ) (x : ModelState) (s : Coordinator)
    → (join_entry wall key op_id x s).1.exclusive_job ≡ s.exclusive_job
unfolding join_entry grant_claim register
join_entry-exclusive_job wall key op_id resident s = refl
join_entry-exclusive_job wall key op_id loading s = ground arith
join_entry-exclusive_job wall key op_id _ s = refl

make_room-exclusive_job :
    (m : Machine) (io : Reading) (key est_bytes op_id : ℕ) (fits : Bool) (vs : Dict ResidentModel)
    (s : Coordinator)
    → (make_room m io key est_bytes op_id fits vs s).1.exclusive_job ≡ s.exclusive_job
unfolding make_room
make_room-exclusive_job m io key est_bytes op_id fits [] s = ground arith
make_room-exclusive_job m io key est_bytes op_id fits (v ∷ vs) s = refl

stage1-IsExclusive :
    (m : Machine) (io : Reading) (key est_bytes op_id : ℕ) (s : Coordinator)
    → IsExclusive s
    → IsExclusive (stage1 m io key est_bytes op_id s).1
stage1-IsExclusive m io key est_bytes op_id s v =
    stage1_cases (λ x. IsExclusive x.1) m io key est_bytes op_id s (λ b. v)
      (λ b r e. inl (join_entry-exclusive_job io.wall key op_id r.state s ∙ not_barred s b))
      (λ b e.
        admit_new_cases (λ x. IsExclusive x.1) m io key est_bytes op_id s
          (λ p q.
            reserve_cases (λ x. IsExclusive x.1) io.wall key est_bytes op_id s v
              (λ h. unfold reserved_in in inl (not_barred s b)))
          (λ n. inl (make_room-exclusive_job m io key est_bytes op_id _ _ s ∙ not_barred s b)))

dispose_all-SameGpu :
    (d : Disposition) (ws : List ℕ) (s : Coordinator) → SameGpu s (dispose_all d ws s)
unfolding dispose_all dispose_one
dispose_all-SameGpu d [] s = (refl, refl, refl)
dispose_all-SameGpu d (w ∷ ws) s = ground (arith, dispose_all-SameGpu d ws (dispose_one d w s))

wake_all-SameGpu : (ws : List ℕ) (s : Coordinator) → SameGpu s (wake_all ws s)
unfolding wake_all
wake_all-SameGpu [] s = (refl, refl, refl)
wake_all-SameGpu (w ∷ ws) s = wake_all-SameGpu ws _

dispose-SameGpu :
    (d : Disposition) (ws : List ℕ) (owner : ℕ) (s : Coordinator) → SameGpu s (dispose d ws owner s)
unfolding dispose
dispose-SameGpu d ws owner s =
    let a = dispose_all-SameGpu d ws s in
    let b = wake_all-SameGpu ws (record (dispose_all d ws s) {
      pending_disposal = erase owner (dispose_all d ws s).pending_disposal;
    }) in
    (b.0 ∙ a.0, b.1 ∙ a.1, b.2 ∙ a.2)

load_failed-IsExclusive :
    (key op_id : ℕ) (s : Coordinator)
    → IsExclusive s
    → IsExclusive (load_failed_section key op_id s)
unfolding load_failed_section drop_reservation reclaim bump_generation erase
load_failed-IsExclusive key op_id s v = ground arith

finish_wait-IsExclusive :
    (waiter : ℕ) (s : Coordinator) → IsExclusive s → IsExclusive (finish_wait waiter s).1
unfolding finish_wait give_up modify_all
finish_wait-IsExclusive waiter s v = ground arith

release-IsExclusive :
    (wall claim : ℕ) (s : Coordinator) → IsExclusive s → IsExclusive (release wall claim s)
unfolding release release_claim give_back drop_id modify
release-IsExclusive wall claim s v = ground arith

begin_job-IsExclusive : (s : Coordinator) → IsExclusive s → IsExclusive (begin_job s).1
unfolding begin_job modify_all
begin_job-IsExclusive s v = ground arith

pub is_empty→eq : {A : Type 0} (xs : List A) → is_empty xs ≡ true → xs ≡ []
is_empty→eq [] h = refl
is_empty→eq (x ∷ xs) h = cc

finish_job-IsExclusive :
    (job_id wall : ℕ) (drained : Bool) (s : Coordinator)
    → IsExclusive s
    → IsExclusive (finish_job job_id wall drained s).1
unfolding finish_job modify_all
finish_job-IsExclusive job_id wall drained s v =
    ground (arith, is_empty→eq s.residents, is_empty→eq s.reservations)

run_section-IsExclusive :
    (m : Machine) (x : Section) (s : Coordinator) → IsExclusive s → IsExclusive (run_section m x s)
unfolding run_section
run_section-IsExclusive m (stage1s io key e op) s v = stage1-IsExclusive m io key e op s v
run_section-IsExclusive m (reconciles op real true) s v = unfold reconcile in v
run_section-IsExclusive m (reconciles op real false) s v = unfold reconcile modify in (ground arith)
run_section-IsExclusive m (commits wall key op real child deferred) s v =
    commit-IsExclusive m wall key op real child deferred s v
run_section-IsExclusive m (load_fails key op) s v = load_failed-IsExclusive key op s v
run_section-IsExclusive m (disposes d ws owner) s v =
    SameGpu-IsExclusive s (dispose d ws owner s) (dispose-SameGpu d ws owner s) v
run_section-IsExclusive m (reclaims key) s v =
    unfold reclaim bump_generation erase in (ground arith)
run_section-IsExclusive m (finishes_wait w) s v = finish_wait-IsExclusive w s v
run_section-IsExclusive m (marks key) s v = unfold evict_mark modify in (ground arith)
run_section-IsExclusive m (polls key now deadline) s v = unfold evict_poll modify in (ground arith)
run_section-IsExclusive m (forgets key) s v =
    unfold forget reclaim bump_generation erase in (ground arith)
run_section-IsExclusive m (ends_evictions op) s v = unfold end_evictions in v
run_section-IsExclusive m begins_job s v = begin_job-IsExclusive s v
run_section-IsExclusive m (finishes_job job wall drained) s v =
    finish_job-IsExclusive job wall drained s v
run_section-IsExclusive m (ends_job none) s v = unfold end_job in inl refl
run_section-IsExclusive m (ends_job (some job)) s v = unfold end_job in (ground arith)
run_section-IsExclusive m (sets_child key pid measured) s v =
    unfold set_child modify in (ground arith)
run_section-IsExclusive m (releases wall claim) s v = release-IsExclusive wall claim s v

run-IsExclusive :
    (m : Machine) (xs : List Section) (s : Coordinator) → IsExclusive s → IsExclusive (run m xs s)
unfolding run
run-IsExclusive m [] s v = v
run-IsExclusive m (x ∷ xs) s v = run-IsExclusive m xs _ (run_section-IsExclusive m x s v)

-- After any sequence of critical sections from the start, in any order and with any arguments, an
-- exclusive job means that no model is resident or loading and that nothing is reserved.
pub run-init-IsExclusive : (m : Machine) (xs : List Section) → IsExclusive (run m xs init)
unfolding init
run-init-IsExclusive m xs = run-IsExclusive m xs _ (inl refl)
