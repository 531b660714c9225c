-- ===== src/Coordinator/Bounds.antt =====
-- hostagent/coordinator.py: the memory bounds of _stage1 and of the commit in _stage3.
use mlops_lite.Base.{
  ℕ, refl, ◌≡◌, arith, total-modify, total_except, ◌∙◌, ◌+◌, ◌≤◌, Bool, ◌∷◌, [], List, total,
  total-insert, ap, total-erase, total_except-le, Dict, ◌≢◌, leb→le, true,
}
use mlops_lite.Coordinator.Claims.{grant_claim, one_more}
use mlops_lite.Coordinator.Loading.{
  hand_claim, granted, commit, drift, settle_entry, hand_claims, place, commit_cases, placed_entry,
  assign_claim, hand_claim_cases,
}
use mlops_lite.Coordinator.Stage1.{
  Reading, stage1, reserved_in, load, refusal, make_room, join_entry, Plan, terms,
}
use mlops_lite.Coordinator.Branches.{stage1_cases, admit_new_cases, reserve_cases}
use mlops_lite.Coordinator.State.{
  vram, accounted, Coordinator, est, usable, Machine, ResidentModel, Child, unmaterialized, loading,
  new_resident, resident, ModelState, Reservation, generation_of, new_reservation,
}
use mlops_lite.Coordinator.Victims.{fits_live, fits_budget}

-- Claims never change what is accounted.
grant_claim-vram :
    (wall key op_id : ℕ) (s : Coordinator)
    → total vram (grant_claim wall key op_id s).residents ≡ total vram s.residents
unfolding grant_claim
grant_claim-vram wall key op_id s =
    total-modify vram key (one_more wall s.next_recency) s.residents (λ v. refl)

hand_claim-vram :
    (wall key w : ℕ) (s : Coordinator)
    → total vram (hand_claim wall key w s).residents ≡ total vram s.residents
hand_claim-vram wall key w s =
    hand_claim_cases (λ x. total vram x.residents ≡ total vram s.residents) wall key w s refl
      (λ x e. unfold assign_claim in grant_claim-vram wall key x.op_id s)

hand_claims-vram :
    (wall key : ℕ) (ws : List ℕ) (s : Coordinator)
    → total vram (hand_claims wall key ws s).residents ≡ total vram s.residents
unfolding hand_claims
hand_claims-vram wall key [] s = refl
hand_claims-vram wall key (w ∷ ws) s =
    hand_claims-vram wall key ws (hand_claim wall key w s) ∙ hand_claim-vram wall key w s

grant_claim-reservations :
    (wall key op_id : ℕ) (s : Coordinator)
    → (grant_claim wall key op_id s).reservations ≡ s.reservations
unfolding grant_claim
grant_claim-reservations wall key op_id s = refl

hand_claim-reservations :
    (wall key w : ℕ) (s : Coordinator) → (hand_claim wall key w s).reservations ≡ s.reservations
hand_claim-reservations wall key w s =
    hand_claim_cases (λ x. x.reservations ≡ s.reservations) wall key w s refl
      (λ x e. unfold assign_claim in grant_claim-reservations wall key x.op_id s)

hand_claims-reservations :
    (wall key : ℕ) (ws : List ℕ) (s : Coordinator)
    → (hand_claims wall key ws s).reservations ≡ s.reservations
unfolding hand_claims
hand_claims-reservations wall key [] s = refl
hand_claims-reservations wall key (w ∷ ws) s =
    hand_claims-reservations wall key ws (hand_claim wall key w s)
    ∙ hand_claim-reservations wall key w s

-- What is accounted after a commit: the other residents, the measured size, the other reservations.
settle_entry-accounted :
    (wall key op_id real_bytes : ℕ) (child : Child) (deferred : Bool) (ws : List ℕ)
    (r : ResidentModel) (s : Coordinator)
    → accounted (settle_entry wall key op_id real_bytes child deferred ws r s)
      ≡ total_except vram key s.residents + real_bytes + total_except est op_id s.reservations
unfolding settle_entry place accounted
settle_entry-accounted wall key op_id real_bytes child deferred ws r s =
    let placed = place wall key real_bytes child deferred r s in
    let loader = grant_claim wall key op_id placed in
    omega (
      arith,
      hand_claims-vram wall key ws loader,
      grant_claim-vram wall key op_id placed,
      total-insert vram key (placed_entry wall real_bytes child deferred s.next_recency r)
          s.residents,
      total-erase est op_id (hand_claims wall key ws loader).reservations,
      ap (total_except est op_id) (hand_claims-reservations wall key ws loader),
      ap (total_except est op_id) (grant_claim-reservations wall key op_id placed),
    )

-- A load that commits leaves the accounted bytes within the usable capacity, however far the
-- measured size is from the estimate that was reserved for it.
pub commit-granted-le-usable :
    (m : Machine) (wall key op_id real_bytes : ℕ) (child : Child) (deferred : Bool)
    (s : Coordinator) (claim : ℕ) (ws : List ℕ)
    → (commit m wall key op_id real_bytes child deferred s).0 ≡ granted claim ws
    → accounted (commit m wall key op_id real_bytes child deferred s).1 ≤ usable m
unfolding drift
commit-granted-le-usable m wall key op_id real_bytes child deferred s claim ws h =
    commit_cases (λ x. x.0 ≡ granted claim ws → accounted x.1 ≤ usable m) m wall key op_id
      real_bytes child deferred s (λ e c. cc) (λ r e b c. cc) (λ r e b n c. cc)
      (λ r e x b d n c. λ _.
        rw (settle_entry-accounted wall key op_id real_bytes child deferred r.waiters x s)
          (ground arith))
      h

reserved_in-le-usable :
    (m : Machine) (wall key est_bytes op_id : ℕ) (s : Coordinator)
    → accounted s + est_bytes ≤ usable m
    → accounted (reserved_in wall key est_bytes op_id s) ≤ usable m
unfolding reserved_in accounted
reserved_in-le-usable m wall key est_bytes op_id s h = omega (
  arith,
  total-insert vram key (new_resident wall s.next_recency) s.residents,
  total-insert est op_id (new_reservation op_id key est_bytes (generation_of s key)) s.reservations,
  total_except-le vram key s.residents,
  total_except-le est op_id s.reservations,
)

join_entry-ne-load :
    (wall key op_id : ℕ) (x : ModelState) (s : Coordinator) (r : Reservation)
    → (join_entry wall key op_id x s).0 ≢ load r
unfolding join_entry
join_entry-ne-load wall key op_id resident s r h = cc
join_entry-ne-load wall key op_id loading s r h = ground arith
join_entry-ne-load wall key op_id _ s r h = cc

make_room-ne-load :
    (m : Machine) (io : Reading) (key est_bytes op_id : ℕ) (fits : Bool) (vs : Dict ResidentModel)
    (s : Coordinator) (r : Reservation)
    → (make_room m io key est_bytes op_id fits vs s).0 ≢ load r
unfolding make_room refusal
make_room-ne-load m io key est_bytes op_id fits [] s r h = ground arith
make_room-ne-load m io key est_bytes op_id fits (v ∷ vs) s r h = cc

abbrev LoadsWithin :
    Machine → Reading → (est_bytes : ℕ) → Coordinator → Reservation → Plan × Coordinator → Type 0
LoadsWithin m io est_bytes s r x =
    x.0 ≡ load r
    → (accounted s + est_bytes ≤ usable m)
      × (est_bytes + unmaterialized s + m.config.safety_headroom_bytes ≤ io.free_now)
      × (accounted x.1 ≤ usable m)

-- Stage 1 decides to load only where both bounds hold: the accounted bytes and the estimate fit the
-- usable capacity, and the estimate with the headroom and the bytes not yet allocated fits what is
-- free. The reservation that it records stays within the usable capacity.
pub stage1-load_bounds :
    (m : Machine) (io : Reading) (key est_bytes op_id : ℕ) (s : Coordinator) (r : Reservation)
    → (stage1 m io key est_bytes op_id s).0 ≡ load r
    → (accounted s + est_bytes ≤ usable m)
      × (est_bytes + unmaterialized s + m.config.safety_headroom_bytes ≤ io.free_now)
      × (accounted (stage1 m io key est_bytes op_id s).1 ≤ usable m)
unfolding refusal
stage1-load_bounds m io key est_bytes op_id s r =
    stage1_cases (LoadsWithin m io est_bytes s r) m io key est_bytes op_id s (λ b h. cc)
      (λ b x e h. absurd (join_entry-ne-load io.wall key op_id x.state s r h))
      (λ b e.
        admit_new_cases (LoadsWithin m io est_bytes s r) m io key est_bytes op_id s
          (λ fb fl.
            reserve_cases (LoadsWithin m io est_bytes s r) io.wall key est_bytes op_id s (λ h. cc)
              (λ e h. (
                budget_of fb,
                live_of fl,
                reserved_in-le-usable m io.wall key est_bytes op_id s (budget_of fb),
              )))
          (λ n h. absurd (make_room-ne-load m io key est_bytes op_id _ _ s r h)))
  where
    budget_of :
        fits_budget (terms m io.free_now s) est_bytes 0 ≡ true → accounted s + est_bytes ≤ usable m
    budget_of h = omega (arith, leb→le _ _ h)

    live_of :
        fits_live (terms m io.free_now s) est_bytes 0 ≡ true
        → est_bytes + unmaterialized s + m.config.safety_headroom_bytes ≤ io.free_now
    live_of h = omega (arith, leb→le _ _ h)
