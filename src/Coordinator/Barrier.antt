-- ===== src/Coordinator/Barrier.antt =====
-- hostagent/coordinator.py: the barrier of admit_job in stage 1 and commit, and how admit_job ends.
use mlops_lite.Base.{false, [], arith, ◌≡◌, ℕ, List, ◌⊎◌, Bool, true, ◌≢◌, modify_all, some}
use mlops_lite.Coordinator.Exclusive.{is_empty→eq}
use mlops_lite.Coordinator.Eviction.{draining_to_resident, finish_job}
use mlops_lite.Coordinator.Loading.{commit_cases, commit, granted}
use mlops_lite.Coordinator.Stage1.{stage1, Reading, refusal, job_exclusive, job_of}
use mlops_lite.Coordinator.State.{barred, Machine, Child, Coordinator, gpu_busy}

-- With a job or a barrier up, stage 1 answers every request with a busy refusal and changes
-- nothing, a request to share a resident model too, and no commit grants.
pub barred_lem :
    (m : Machine) (io : Reading) (key est_bytes op_id : ℕ) (wall real_bytes : ℕ) (child : Child)
    (deferred : Bool) (claim : ℕ) (ws : List ℕ) (s : Coordinator)
    → barred s ≡ true
    → (stage1 m io key est_bytes op_id s
        ≡ (refusal m io s gpu_busy job_exclusive (job_of s.exclusive_job), s))
      × ((commit m wall key op_id real_bytes child deferred s).0 ≢ granted claim ws)
unfolding stage1
barred_lem m io key est_bytes op_id wall real_bytes child deferred claim ws s b = (
  rw b,
  commit_cases (λ x. x.0 ≢ granted claim ws) m wall key op_id real_bytes child deferred s
      (λ e h. cc) (λ r e y h. cc) (λ r e g k h. cc) (λ r e x k free g d h. cc),
)

-- admit_job ends one of two ways. It succeeds only with the serving set drained and nothing resident
-- or reserved, and then the job holds the GPU. Otherwise the holder, if any, is the same as before,
-- no reservation is lost, and each entry that was draining is resident again. The barrier is down
-- both times.
pub finish_job_lem :
    (job_id wall : ℕ) (drained : Bool) (s : Coordinator)
    → let (acquired, t) = finish_job job_id wall drained s in
      (t.job_barrier ≡ false)
      × (((acquired ≡ true)
            × (drained ≡ true)
            × (s.residents ≡ [])
            × (s.reservations ≡ [])
            × (t.exclusive_job ≡ some (record { job_id = job_id; started_at = wall })))
          ⊎ ((acquired ≡ false)
              × (t.exclusive_job ≡ s.exclusive_job)
              × (t.reservations ≡ s.reservations)
              × (t.residents ≡ modify_all draining_to_resident s.residents)))
unfolding finish_job
finish_job_lem job_id wall drained s =
    ground (arith, is_empty→eq s.residents, is_empty→eq s.reservations)
