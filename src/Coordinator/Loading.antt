-- ===== src/Coordinator/Loading.antt =====
-- hostagent/coordinator.py: the critical sections of _stage3, _load_failed, _rollback, _dispose
-- and _await_load. Child lifecycle I/O happens between them, outside the lock.
use mlops_lite.Base.{
  some, not, Bool, ◌∷◌, ℕ, ◌==◌, insert, List, if◌then◌else◌, true, [], ◌+◌, modify, false, lookup,
  ltb, ◌||◌, total_except, erase, none, Option-cases, arith, inr, ◌≡◌, Bool-cases, inl,
}
use mlops_lite.Coordinator.Claims.{grant_claim, touched}
use mlops_lite.Coordinator.State.{
  ResidentModel, model_too_large, est, generation_of, rolling_back, share, outcome, resident,
  Machine, Waiter, refuse, Disposition, retry, Coordinator, usable, Reservation, vram, Child,
  gpu_busy, barred,
}

abbrev pub real_size : (deferred : Bool) (est_bytes measured : ℕ) → ℕ
real_size deferred est_bytes measured = if deferred then est_bytes else measured

-- The section after the load: the reservation takes the measured size.
unfoldable pub reconcile : (op_id real_bytes : ℕ) → (deferred : Bool) → Coordinator → Coordinator
reconcile op_id real_bytes true s = s
reconcile op_id real_bytes false s = record s {
  reservations =
      modify op_id (λ r. record r { est_bytes = real_bytes; materialized = true }) s.reservations;
}

pub data Commit : Type 0 where
  granted : (claim : ℕ) (waiters : List ℕ) → Commit
  rolled_back : Disposition → (waiters : List ℕ) → Commit
  key_error : Commit

-- One joiner's claim: the grant, the disposition and its record.
unfoldable pub assign_claim : (wall key waiter : ℕ) → Waiter → Coordinator → Coordinator
assign_claim wall key waiter w s =
    let given = outcome (share s.claim_ids) in
    let s' = grant_claim wall key w.op_id s in
    record s' {
      waiter_store = modify waiter (λ x. record x { disposition = some given }) s'.waiter_store;
      waiter_dispositions = insert w.op_id given s'.waiter_dispositions;
    }

unfoldable pub hand_claim : (wall key waiter : ℕ) → Coordinator → Coordinator
hand_claim wall key waiter s = elim (lookup waiter s.waiter_store) [
  | none ↦ s
  | some w ↦ assign_claim wall key waiter w s
]

pub hand_claim_cases {ℓ} :
    (P : Coordinator → Type ℓ) (wall key waiter : ℕ) (s : Coordinator)
    → P s
    → ((w : Waiter) → lookup waiter s.waiter_store ≡ some w → P (assign_claim wall key waiter w s))
    → P (hand_claim wall key waiter s)
unfolding hand_claim
hand_claim_cases P wall key waiter s absent found =
    elim (Option-cases (lookup waiter s.waiter_store)) [
      | inl e ↦ rw (e, hand_claim) absent
      | inr (w, e) ↦ rw (e, hand_claim) (found w e)
    ]

unfoldable pub hand_claims : (wall key : ℕ) → List ℕ → Coordinator → Coordinator
hand_claims wall key [] s = s
hand_claims wall key (w ∷ ws) s = hand_claims wall key ws (hand_claim wall key w s)

-- `others`, `resident_total` and the comparison. A reservation stands under its own `op_id`.
unfoldable pub drift : Machine → (key op_id real_bytes : ℕ) → Coordinator → Bool
drift m key op_id real_bytes s =
    ltb (usable m)
      (total_except vram key s.residents + real_bytes + total_except est op_id s.reservations)

-- The commit-time rollback: the intent, and custody of the joiners.
unfoldable pub begin_rollback : (key op_id : ℕ) → List ℕ → Coordinator → Coordinator
begin_rollback key op_id waiters s = record s {
  residents = modify key (λ r. record r { state = rolling_back }) s.residents;
  reservations = erase op_id s.reservations;
  pending_disposal = insert op_id waiters s.pending_disposal;
}

abbrev pub rollback_verdict : Machine → (barred stale : Bool) → (real_bytes : ℕ) → Disposition
rollback_verdict m barred stale real_bytes =
    if barred
    then outcome (refuse gpu_busy)
    else if stale
    then retry
    else if ltb (usable m) (real_bytes + m.config.safety_headroom_bytes)
    then outcome (refuse model_too_large)
    else outcome (refuse gpu_busy)

abbrev pub placed_entry :
    (wall real_bytes : ℕ) → Child → (deferred : Bool) → (seq : ℕ) → ResidentModel → ResidentModel
placed_entry wall real_bytes child deferred seq r = record (touched wall seq r) {
  state = resident;
  vram_accounted_bytes = real_bytes;
  child = some child;
  materialized = not deferred;
}

-- The entry becomes resident, with the loader's claim and then the joiners'.
unfoldable pub place :
    (wall key real_bytes : ℕ)
    → Child
    → (deferred : Bool) → ResidentModel
    → Coordinator
    → Coordinator
place wall key real_bytes child deferred r s = record s {
  residents = insert key (placed_entry wall real_bytes child deferred s.next_recency r) s.residents;
  next_recency = s.next_recency + 1;
}

unfoldable pub settle_entry :
    (wall key op_id real_bytes : ℕ)
    → Child
    → (deferred : Bool) → List ℕ
    → ResidentModel
    → Coordinator
    → Coordinator
settle_entry wall key op_id real_bytes child deferred waiters r s =
    let placed = place wall key real_bytes child deferred r s in
    let handed = hand_claims wall key waiters (grant_claim wall key op_id placed) in
    record handed { reservations = erase op_id handed.reservations }

unfoldable pub commit :
    Machine
    → (wall key op_id real_bytes : ℕ) → Child
    → (deferred : Bool) → Coordinator
    → Commit × Coordinator
commit m wall key op_id real_bytes child deferred s = elim (lookup op_id s.reservations) [
  | none ↦ (rolled_back (outcome (refuse gpu_busy)) [], s)
  | some r ↦
      let stale = not (generation_of s key == r.generation) in
      if barred s || (stale || drift m key op_id real_bytes s)
      then (
        rolled_back (rollback_verdict m (barred s) stale real_bytes) r.waiters,
        begin_rollback key op_id r.waiters s,
      )
      else elim (lookup key s.residents) [
        | none ↦ (key_error, s)
        | some entry ↦ (
          granted s.claim_ids r.waiters,
          settle_entry wall key op_id real_bytes child deferred r.waiters entry s,
        )
      ]
]

or_false : (a b c : Bool) → (a || (b || c)) ≡ false → (a ≡ false) × (b ≡ false) × (c ≡ false)
or_false a b c h = ground arith

not-false : {b : Bool} → not b ≡ false → b ≡ true
not-false h = ground arith

-- The outcomes of a commit, for any statement about it.
pub commit_cases {ℓ} :
    (P : Commit × Coordinator → Type ℓ) (m : Machine) (wall key op_id real_bytes : ℕ)
    (child : Child) (deferred : Bool) (s : Coordinator)
    → (lookup op_id s.reservations ≡ none → P (rolled_back (outcome (refuse gpu_busy)) [], s))
    → ((r : Reservation)
        → lookup op_id s.reservations ≡ some r
        → let stale = not (generation_of s key == r.generation) in
          (barred s || (stale || drift m key op_id real_bytes s)) ≡ true
          → P (
            rolled_back (rollback_verdict m (barred s) stale real_bytes) r.waiters,
            begin_rollback key op_id r.waiters s,
          ))
    → ((r : Reservation)
        → lookup op_id s.reservations ≡ some r
        → (generation_of s key == r.generation) ≡ true
        → lookup key s.residents ≡ none
        → P (key_error, s))
    → ((r : Reservation)
        → lookup op_id s.reservations ≡ some r
        → (entry : ResidentModel) → lookup key s.residents ≡ some entry
        → barred s ≡ false
        → (generation_of s key == r.generation) ≡ true
        → drift m key op_id real_bytes s ≡ false
        → P (
          granted s.claim_ids r.waiters,
          settle_entry wall key op_id real_bytes child deferred r.waiters entry s,
        ))
    → P (commit m wall key op_id real_bytes child deferred s)
unfolding commit
commit_cases P m wall key op_id real_bytes child deferred s lost back missing done =
    elim (Option-cases (lookup op_id s.reservations)) [
      | inl e ↦ rw (e, commit) (lost e)
      | inr (r, e) ↦
          let stale = not (generation_of s key == r.generation) in
          elim (Bool-cases (barred s || (stale || drift m key op_id real_bytes s))) [
            | inl b ↦ rw (e, commit) (rw b (back r e b))
            | inr n ↦
                let (free, same, fits) =
                  or_false (barred s) stale (drift m key op_id real_bytes s) n in
                elim (Option-cases (lookup key s.residents)) [
                  | inl k ↦ rw (e, commit) (rw n (rw k (missing r e (not-false same) k)))
                  | inr (x, k) ↦
                      rw (e, commit) (rw n (rw k (done r e x k free (not-false same) fits)))
                ]
          ]
    ]
