-- ===== src/Coordinator/Handoff.antt =====
-- hostagent/coordinator.py: the critical sections of _rollback, _load_failed, _dispose and _await_load:
-- the end of a load that did not commit, and what its joiners are told.
use mlops_lite.Base.{
  ◌&&◌, some, Option, ◌∷◌, modify_all, ℕ, ◌==◌, insert, List, if◌then◌else◌, true, [], discard,
  modify, lookup, is_some, erase, none, Option-cases, inr, ◌≡◌, Bool-cases, inl,
}
use mlops_lite.Coordinator.State.{
  generation_of, outcome, Waiter, refuse, Disposition, retry, Outcome, Coordinator, Reservation,
  gpu_busy, bump_generation,
}

-- The removal of an entry and the bump of its generation, shared by the reclaiming sections.
unfoldable pub reclaim : ℕ → Coordinator → Coordinator
reclaim key s = bump_generation key (record s { residents = erase key s.residents })

abbrev pub waiters_of : Option Reservation → List ℕ
waiters_of none = []
waiters_of (some r) = r.waiters

-- The reservation is dropped, and its joiners are in the operation's custody.
unfoldable pub drop_reservation : (op_id : ℕ) → Coordinator → Coordinator
drop_reservation op_id s = record s {
  reservations = erase op_id s.reservations;
  pending_disposal = insert op_id (waiters_of (lookup op_id s.reservations)) s.pending_disposal;
}

-- The section of _load_failed.
unfoldable pub load_failed_section : (key op_id : ℕ) → Coordinator → Coordinator
load_failed_section key op_id s = elim (lookup op_id s.reservations) [
  | none ↦ drop_reservation op_id s
  | some r ↦
      if is_some (lookup key s.residents) && (generation_of s key == r.generation)
      then reclaim key (drop_reservation op_id s)
      else drop_reservation op_id s
]

pub load_failed_cases {ℓ} :
    (P : Coordinator → Type ℓ) (key op_id : ℕ) (s : Coordinator)
    → P (drop_reservation op_id s)
    → ((r : Reservation)
        → lookup op_id s.reservations ≡ some r
        → (is_some (lookup key s.residents) && (generation_of s key == r.generation)) ≡ true
        → P (reclaim key (drop_reservation op_id s)))
    → P (load_failed_section key op_id s)
unfolding load_failed_section
load_failed_cases P key op_id s kept own = elim (Option-cases (lookup op_id s.reservations)) [
  | inl e ↦ rw (e, load_failed_section) kept
  | inr (r, e) ↦
      elim (Bool-cases
        (is_some (lookup key s.residents) && (generation_of s key == r.generation))) [
          | inl b ↦ rw (e, load_failed_section) (rw b (own r e b))
          | inr b ↦ rw (e, load_failed_section) (rw b kept)
        ]
]

-- One joiner in _dispose: a disposition that it has already is kept.
unfoldable pub dispose_one : Disposition → ℕ → Coordinator → Coordinator
dispose_one d waiter s = elim (lookup waiter s.waiter_store) [
  | none ↦ s
  | some w ↦
      let assigned = if is_some w.disposition then s else record s {
        waiter_store = modify waiter (λ x. record x { disposition = some d }) s.waiter_store;
        waiter_dispositions = insert w.op_id d s.waiter_dispositions;
      } in
      record assigned { live_waiters = erase w.op_id assigned.live_waiters }
]

unfoldable pub dispose_all : Disposition → List ℕ → Coordinator → Coordinator
dispose_all d [] s = s
dispose_all d (w ∷ ws) s = dispose_all d ws (dispose_one d w s)

-- `for waiter in waiters: waiter.event.set()`
unfoldable pub wake_all : List ℕ → Coordinator → Coordinator
wake_all [] s = s
wake_all (w ∷ ws) s =
    wake_all ws
      (record s { waiter_store = modify w (λ x. record x { event_set = true }) s.waiter_store })

-- Coordinator._dispose, with its owner's operation id.
unfoldable pub dispose : Disposition → List ℕ → (owner : ℕ) → Coordinator → Coordinator
dispose d waiters owner s =
    let assigned = dispose_all d waiters s in
    wake_all waiters (record assigned { pending_disposal = erase owner assigned.pending_disposal })

-- `reservation.waiters.remove(waiter)` in every registry.
abbrev leave_registry : ℕ → Reservation → Reservation
leave_registry waiter r = record r { waiters = discard waiter r.waiters }

-- Coordinator._waiter_outcome
unfoldable pub waiter_outcome : Disposition → Disposition
waiter_outcome (outcome (refuse gpu_busy)) = retry
waiter_outcome d = d

-- What `_await_load` returns: `none` sends the caller back to stage 1.
abbrev pub returned : Disposition → Option Outcome
returned (outcome o) = some o
returned retry = none

-- The waiter's deadline came first, and nothing was assigned.
unfoldable pub give_up : (waiter : ℕ) → Waiter → Coordinator → Coordinator
give_up waiter w s =
    let refused = outcome (refuse gpu_busy) in
    record s {
      reservations = modify_all (leave_registry waiter) s.reservations;
      waiter_store = modify waiter (λ x. record x { disposition = some refused }) s.waiter_store;
      waiter_dispositions = insert w.op_id refused s.waiter_dispositions;
      live_waiters = erase w.op_id s.live_waiters;
    }

-- The section of _await_load after its wait.
unfoldable pub finish_wait : (waiter : ℕ) → Coordinator → Option Outcome × Coordinator
finish_wait waiter s = elim (lookup waiter s.waiter_store) [
  | none ↦ (none, s)
  | some w ↦ elim w.disposition [
    | none ↦ (some (refuse gpu_busy), give_up waiter w s)
    | some d ↦
        (returned (waiter_outcome d), record s { live_waiters = erase w.op_id s.live_waiters })
  ]
]
