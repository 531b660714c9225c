-- ===== src/Coordinator/Draining.antt =====
-- hostagent/coordinator.py: invariant 4 of check_invariants through forget, admit_job and set_child.
use mlops_lite.Base.{
  ◌≡◌, inl, lookup, Bool, Option-cases, refl, not, ℕ, inr, arith, Bool-cases, ◌||◌, modify_all,
  is_empty,
}
use mlops_lite.Coordinator.Balance.{
  reclaim-IsBalanced, same-IsBalanced, modify-IsBalanced, IsBalanced, modify_all-IsBalanced,
}
use mlops_lite.Coordinator.Eviction.{
  begin_job, forget, resident_to_draining, draining_to_resident, finish_job, set_child,
}
use mlops_lite.Coordinator.State.{Coordinator, active_of, barred}

pub forget-IsBalanced :
    (key : ℕ) (s : Coordinator) → active_of s key ≡ 0 → IsBalanced s → IsBalanced (forget key s).1
unfolding forget
forget-IsBalanced key s idle v = elim (Option-cases (lookup key s.residents)) [
  | inl e ↦ rw (e, forget) v
  | inr (r, e) ↦ rw (e, forget) (reclaim-IsBalanced key s idle v)
]

pub begin_job-IsBalanced : (s : Coordinator) → IsBalanced s → IsBalanced (begin_job s).1
unfolding begin_job
begin_job-IsBalanced s v = elim (Bool-cases (barred s)) [
  | inl b ↦ rw b v
  | inr b ↦ rw b (
      same-IsBalanced (record s { residents = modify_all resident_to_draining s.residents }) _
        (refl, refl, refl) refl
        (modify_all-IsBalanced resident_to_draining s (λ r. ground arith) (λ r. ground arith) v))
]

pub finish_job-IsBalanced :
    (job_id wall : ℕ) (drained : Bool) (s : Coordinator)
    → IsBalanced s
    → IsBalanced (finish_job job_id wall drained s).1
unfolding finish_job
finish_job-IsBalanced job_id wall drained s v =
    elim (Bool-cases
      (not drained || (not (is_empty s.residents) || not (is_empty s.reservations)))) [
        | inl b ↦ rw b (
            same-IsBalanced (record s { residents = modify_all draining_to_resident s.residents }) _
              (refl, refl, refl) refl
              (modify_all-IsBalanced draining_to_resident s (λ r. ground arith) (λ r. ground arith)
                v))
        | inr b ↦ rw b (same-IsBalanced s _ (refl, refl, refl) refl v)
      ]

pub set_child-IsBalanced :
    (key pid measured : ℕ) (s : Coordinator)
    → IsBalanced s
    → IsBalanced (set_child key pid measured s)
unfolding set_child
set_child-IsBalanced key pid measured s v =
    modify-IsBalanced key _ s (λ r. ground arith) (λ r e n. v.quiet key r e (ground arith)) v
