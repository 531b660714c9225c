-- ===== src/Coordinator/Disposing.antt =====
-- hostagent/coordinator.py: invariant 4 of check_invariants through _dispose, _await_load and evict.
use mlops_lite.Base.{
  ◌∷◌, ◌≡◌, inl, List, lookup, Option-cases, refl, erase, [], ℕ, inr, arith, ◌∙◌, Bool-cases, ◌==◌,
  leb,
}
use mlops_lite.Coordinator.Balance.{same-IsBalanced, modify-IsBalanced, IsBalanced}
use mlops_lite.Coordinator.Eviction.{evict_mark, evict_poll}
use mlops_lite.Coordinator.Handoff.{
  dispose, dispose_all, give_up, wake_all, finish_wait, dispose_one,
}
use mlops_lite.Coordinator.State.{
  Coordinator, draining, resident, Disposition, evicting, is_resident, barred,
}

-- The dispositions and the events change nothing that is counted.
abbrev SameCounts : Coordinator → Coordinator → Type 0
SameCounts s t =
    (t.claims ≡ s.claims)
    × (t.claim_ids ≡ s.claim_ids)
    × (t.claim_store ≡ s.claim_store)
    × (t.residents ≡ s.residents)

dispose_one-SameCounts :
    (d : Disposition) (w : ℕ) (s : Coordinator) → SameCounts s (dispose_one d w s)
unfolding dispose_one
dispose_one-SameCounts d w s = ground arith

dispose_all-SameCounts :
    (d : Disposition) (ws : List ℕ) (s : Coordinator) → SameCounts s (dispose_all d ws s)
unfolding dispose_all
dispose_all-SameCounts d [] s = (refl, refl, refl, refl)
dispose_all-SameCounts d (w ∷ ws) s =
    let one = dispose_one-SameCounts d w s in
    let all = dispose_all-SameCounts d ws (dispose_one d w s) in
    (all.0 ∙ one.0, all.1 ∙ one.1, all.2 ∙ one.2, all.3 ∙ one.3)

wake_all-SameCounts : (ws : List ℕ) (s : Coordinator) → SameCounts s (wake_all ws s)
unfolding wake_all
wake_all-SameCounts [] s = (refl, refl, refl, refl)
wake_all-SameCounts (w ∷ ws) s = wake_all-SameCounts ws _

pub dispose-IsBalanced :
    (d : Disposition) (ws : List ℕ) (owner : ℕ) (s : Coordinator)
    → IsBalanced s
    → IsBalanced (dispose d ws owner s)
unfolding dispose
dispose-IsBalanced d ws owner s v =
    let a = dispose_all-SameCounts d ws s in
    let disposed = dispose_all d ws s in
    let b =
      wake_all-SameCounts ws
        (record disposed { pending_disposal = erase owner disposed.pending_disposal }) in
    same-IsBalanced s _ (b.0 ∙ a.0, b.1 ∙ a.1, b.2 ∙ a.2) (b.3 ∙ a.3) v

pub finish_wait-IsBalanced :
    (waiter : ℕ) (s : Coordinator) → IsBalanced s → IsBalanced (finish_wait waiter s).1
unfolding finish_wait give_up
finish_wait-IsBalanced waiter s v =
    same-IsBalanced s _ (ground arith, ground arith, ground arith) (ground arith) v

pub evict_mark-IsBalanced :
    (key : ℕ) (s : Coordinator) → IsBalanced s → IsBalanced (evict_mark key s).1
unfolding evict_mark
evict_mark-IsBalanced key s v = elim (Option-cases (lookup key s.residents)) [
  | inl e ↦ rw (e, evict_mark) v
  | inr (r, e) ↦ elim (Bool-cases (is_resident r.state)) [
    | inl b ↦
        rw (e, evict_mark)
          (rw b (
            modify-IsBalanced key (λ x. record x { state = draining }) s (λ x. refl) (λ x h n. cc)
              v))
    | inr b ↦ rw (e, evict_mark) (rw b v)
  ]
]

pub evict_poll-IsBalanced :
    (key now deadline : ℕ) (s : Coordinator)
    → IsBalanced s
    → IsBalanced (evict_poll key now deadline s).1
unfolding evict_poll
evict_poll-IsBalanced key now deadline s v = elim (Option-cases (lookup key s.residents)) [
  | inl e ↦ rw (e, evict_poll) v
  | inr (r, e) ↦ elim (Bool-cases (r.active_requests == 0)) [
    | inl b ↦
        rw (e, evict_poll)
          (rw b (
            modify-IsBalanced key (λ x. record x { state = evicting }) s (λ x. refl)
              (λ x h n. ground arith) v))
    | inr b ↦ elim (Bool-cases (leb deadline now)) [
      | inr l ↦ rw (e, evict_poll) (rw b (rw l v))
      | inl l ↦ elim (Bool-cases (barred s)) [
        | inl j ↦ rw (e, evict_poll) (rw b (rw l (rw j v)))
        | inr j ↦
            rw (e, evict_poll)
              (rw b (
                rw l (
                  rw j (
                    modify-IsBalanced key (λ x. record x { state = resident }) s (λ x. refl)
                      (λ x h n. cc) v))))
      ]
    ]
  ]
]
