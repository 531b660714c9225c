-- ===== src/Coordinator/Branches.antt =====
-- hostagent/coordinator.py: the branches of stage 1.
use mlops_lite.Coordinator.Stage1.{
  Reading, Plan, job_of, refusal, join_entry, terms, reserved_in, reserve, make_room, admit_new,
  stage1, job_exclusive, load, assertion_failed,
}
use mlops_lite.Base.{
  ◌&&◌, some, Bool, ℕ, false, lookup, none, true, inl, arith, inr, ◌≡◌, Bool-cases, Option-cases,
}
use mlops_lite.Coordinator.State.{
  ResidentModel, generation_of, Machine, new_reservation, Coordinator, gpu_busy, barred,
}
use mlops_lite.Coordinator.Victims.{fits_live, fits_budget, select_victims}

and_true : (a b : Bool) → (a && b) ≡ true → (a ≡ true) × (b ≡ true)
and_true a b h = ground arith

-- The branches of stage 1, for any statement about it.
pub stage1_cases {ℓ} :
    (P : Plan × Coordinator → Type ℓ) (m : Machine) (io : Reading) (key est_bytes op_id : ℕ)
    (s : Coordinator)
    → (barred s ≡ true → P (refusal m io s gpu_busy job_exclusive (job_of s.exclusive_job), s))
    → (barred s ≡ false
        → (r : ResidentModel) → lookup key s.residents ≡ some r
        → P (join_entry io.wall key op_id r.state s))
    → (barred s ≡ false → lookup key s.residents ≡ none → P (admit_new m io key est_bytes op_id s))
    → P (stage1 m io key est_bytes op_id s)
unfolding stage1
stage1_cases P m io key est_bytes op_id s busy join fresh = elim (Bool-cases (barred s)) [
  | inl b ↦ rw b (busy b)
  | inr b ↦ elim (Option-cases (lookup key s.residents)) [
    | inl e ↦ rw b (rw e (fresh b e))
    | inr (r, e) ↦ rw b (rw e (join b r e))
  ]
]

pub admit_new_cases {ℓ} :
    (P : Plan × Coordinator → Type ℓ) (m : Machine) (io : Reading) (key est_bytes op_id : ℕ)
    (s : Coordinator)
    → (fits_budget (terms m io.free_now s) est_bytes 0 ≡ true
        → fits_live (terms m io.free_now s) est_bytes 0 ≡ true
        → P (reserve io.wall key est_bytes op_id s))
    → ((fits_budget (terms m io.free_now s) est_bytes 0
            && fits_live (terms m io.free_now s) est_bytes 0)
          ≡ false
        → P (
            make_room m io key est_bytes op_id
              (fits_budget (terms m io.free_now s) est_bytes 0)
              (select_victims (terms m io.free_for_victims s) key est_bytes s.residents)
              s))
    → P (admit_new m io key est_bytes op_id s)
unfolding admit_new
admit_new_cases P m io key est_bytes op_id s both short =
    let b = fits_budget (terms m io.free_now s) est_bytes 0 in
    let l = fits_live (terms m io.free_now s) est_bytes 0 in
    elim (Bool-cases (b && l)) [
      | inl e ↦ rw e (both (and_true b l e).0 (and_true b l e).1)
      | inr e ↦ rw e (short e)
    ]

pub reserve_cases {ℓ} :
    (P : Plan × Coordinator → Type ℓ) (wall key est_bytes op_id : ℕ) (s : Coordinator)
    → P (assertion_failed, s)
    → (lookup op_id s.evict_intent ≡ none
        → P (
          load (new_reservation op_id key est_bytes (generation_of s key)),
          reserved_in wall key est_bytes op_id s,
        ))
    → P (reserve wall key est_bytes op_id s)
unfolding reserve
reserve_cases P wall key est_bytes op_id s torn recorded =
    elim (Option-cases (lookup op_id s.evict_intent)) [
      | inl e ↦ rw e (recorded e)
      | inr (v, e) ↦ rw e torn
    ]
