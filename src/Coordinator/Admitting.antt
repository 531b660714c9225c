-- ===== src/Coordinator/Admitting.antt =====
-- hostagent/coordinator.py: invariant 4 of check_invariants through _stage1.
use mlops_lite.Base.{
  ◌∷◌, ◌≡◌, inl, lookup, Bool, Option-cases, some, refl, [], ℕ, modify, insert, inr, Dict, ltb, ◌+◌,
  Bool-cases,
}
use mlops_lite.Coordinator.Balance.{
  insert-IsBalanced, grant_claim-IsBalanced, same-IsBalanced, modify-IsBalanced, IsBalanced,
}
use mlops_lite.Coordinator.Selection.{fits}
use mlops_lite.Coordinator.Stage1.{
  join_entry, reserved_in, make_room, Reading, register, mark_draining, stage1,
}
use mlops_lite.Coordinator.Branches.{stage1_cases, reserve_cases, admit_new_cases}
use mlops_lite.Coordinator.State.{
  Coordinator, ResidentModel, active_of, Machine, draining, ModelState, usable, reservation_for,
  new_resident, loading, resident,
}

pub mark_draining-IsBalanced :
    (vs : Dict ResidentModel) (s : Coordinator)
    → IsBalanced s
    → IsBalanced (record s { residents = mark_draining vs s.residents })
unfolding mark_draining
mark_draining-IsBalanced [] s v = v
mark_draining-IsBalanced ((k, _) ∷ vs) s v =
    let g = λ (r : ResidentModel). record r { state = draining } in
    mark_draining-IsBalanced vs (record s { residents = modify k g s.residents })
      (modify-IsBalanced k g s (λ r. refl) (λ r e n. cc) v)

pub make_room-IsBalanced :
    (m : Machine) (io : Reading) (key est_bytes op_id : ℕ) (fits : Bool) (vs : Dict ResidentModel)
    (s : Coordinator)
    → IsBalanced s
    → IsBalanced (make_room m io key est_bytes op_id fits vs s).1
unfolding make_room
make_room-IsBalanced m io key est_bytes op_id fits [] s v =
    elim (Bool-cases (ltb (usable m) (est_bytes + m.config.safety_headroom_bytes))) [
      | inl e ↦ rw e v
      | inr e ↦ rw e v
    ]
make_room-IsBalanced m io key est_bytes op_id fits (w ∷ vs) s v =
    same-IsBalanced (record s { residents = mark_draining (w ∷ vs) s.residents }) _
      (refl, refl, refl) refl (mark_draining-IsBalanced (w ∷ vs) s v)

pub join_entry-IsBalanced :
    (wall key op_id : ℕ) (x : ModelState) (r : ResidentModel) (s : Coordinator)
    → r.state ≡ x
    → lookup key s.residents ≡ some r
    → IsBalanced s
    → IsBalanced (join_entry wall key op_id x s).1
unfolding join_entry register
join_entry-IsBalanced wall key op_id resident r s x e v =
    grant_claim-IsBalanced wall key op_id s v r e (rw x)
join_entry-IsBalanced wall key op_id loading r s x e v =
    elim (Option-cases (reservation_for key s.reservations)) [
      | inl n ↦ rw (n, join_entry) v
      | inr (y, n) ↦ rw (n, join_entry) (same-IsBalanced s _ (refl, refl, refl) refl v)
    ]
join_entry-IsBalanced wall key op_id _ r s x e v = v

pub stage1-IsBalanced :
    (m : Machine) (io : Reading) (key est_bytes op_id : ℕ) (s : Coordinator)
    → IsBalanced s
    → IsBalanced (stage1 m io key est_bytes op_id s).1
stage1-IsBalanced m io key est_bytes op_id s v =
    stage1_cases (λ x. IsBalanced x.1) m io key est_bytes op_id s (λ b. v)
      (λ b r e. join_entry-IsBalanced io.wall key op_id r.state r s refl e v)
      (λ b e.
        admit_new_cases (λ x. IsBalanced x.1) m io key est_bytes op_id s
          (λ p q.
            reserve_cases (λ x. IsBalanced x.1) io.wall key est_bytes op_id s v
              (λ h.
                unfold reserved_in in
                same-IsBalanced
                  (record s {
                    residents = insert key (new_resident io.wall s.next_recency) s.residents;
                  })
                  _ (refl, refl, refl) refl
                  (insert-IsBalanced key (new_resident io.wall s.next_recency) s
                    (unfold active_of in rw e) (λ n. refl) v)))
          (λ n. make_room-IsBalanced m io key est_bytes op_id _ _ s v))
