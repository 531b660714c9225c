-- ===== src/Coordinator/Counting.antt =====
-- hostagent/coordinator.py: invariant 4 of check_invariants through the commit and a failed load.
use mlops_lite.Base.{
  lookup-insert, ◌∷◌, lookup-modify, ◌≡◌, inl, none, List, Option, lookup, true, Bool, Option-cases,
  some, refl, not, [], ℕ, modify, insert, inr, arith,
}
use mlops_lite.Coordinator.Balance.{
  insert-IsBalanced, reclaim-IsBalanced, grant_claim-IsBalanced, same-IsBalanced, modify-IsBalanced,
  IsBalanced, is_settled,
}
use mlops_lite.Coordinator.Claims.{one_more, grant_claim}
use mlops_lite.Coordinator.Handoff.{load_failed_section, load_failed_cases, drop_reservation}
use mlops_lite.Coordinator.Loading.{
  place, commit_cases, hand_claims, begin_rollback, placed_entry, hand_claim_cases, assign_claim,
  commit, settle_entry,
}
use mlops_lite.Coordinator.State.{
  Coordinator, rolling_back, ResidentModel, Waiter, active_of, Child, Machine,
}

abbrev IsServing : Coordinator → ℕ → Type 0
IsServing s key =
    (r : ResidentModel) × (lookup key s.residents ≡ some r) × (is_settled r.state ≡ true)

-- What stands while claims are handed out on a serving entry.
record Serving (key : ℕ) (s : Coordinator) : Type 0 where
  serving : IsServing s key
  counts : IsBalanced s

grant_claim-Serving :
    (wall key op_id : ℕ) (s : Coordinator)
    → Serving key s
    → Serving key (grant_claim wall key op_id s)
grant_claim-Serving wall key op_id s v =
    let (r, e, settled) = v.serving in
    record {
      serving =
          unfold grant_claim in
          (
            one_more wall s.next_recency r,
            ground (arith, lookup-modify key key (one_more wall s.next_recency) s.residents),
            settled,
          );
      counts = grant_claim-IsBalanced wall key op_id s v.counts r e settled;
    }

assign_claim-Serving :
    (wall key w : ℕ) (x : Waiter) (s : Coordinator)
    → Serving key s
    → Serving key (assign_claim wall key w x s)
unfolding assign_claim
assign_claim-Serving wall key w x s v =
    let given = grant_claim-Serving wall key x.op_id s v in
    record {
      serving = given.serving;
      counts =
          same-IsBalanced (grant_claim wall key x.op_id s) _ (refl, refl, refl) refl given.counts;
    }

hand_claims-Serving :
    (wall key : ℕ) (ws : List ℕ) (s : Coordinator)
    → Serving key s
    → Serving key (hand_claims wall key ws s)
unfolding hand_claims
hand_claims-Serving wall key [] s v = v
hand_claims-Serving wall key (w ∷ ws) s v =
    hand_claims-Serving wall key ws _
      (hand_claim_cases (Serving key) wall key w s v (λ x e. assign_claim-Serving wall key w x s v))

place-Serving :
    (wall key real_bytes : ℕ) (child : Child) (deferred : Bool) (r : ResidentModel)
    (s : Coordinator)
    → lookup key s.residents ≡ some r
    → IsBalanced s
    → Serving key (place wall key real_bytes child deferred r s)
unfolding place
place-Serving wall key real_bytes child deferred r s e v =
    let x = placed_entry wall real_bytes child deferred s.next_recency r in
    record {
      serving = (x, ground (arith, lookup-insert key key x s.residents), refl);
      counts =
          same-IsBalanced (record s { residents = insert key x s.residents }) _ (refl, refl, refl)
            refl (insert-IsBalanced key x s (unfold active_of in ground arith) (λ n. cc) v);
    }

pub settle_entry-IsBalanced :
    (wall key op_id real_bytes : ℕ) (child : Child) (deferred : Bool) (ws : List ℕ)
    (r : ResidentModel) (s : Coordinator)
    → lookup key s.residents ≡ some r
    → IsBalanced s
    → IsBalanced (settle_entry wall key op_id real_bytes child deferred ws r s)
unfolding settle_entry
settle_entry-IsBalanced wall key op_id real_bytes child deferred ws r s e v =
    same-IsBalanced _ _ (refl, refl, refl) refl
      (hand_claims-Serving wall key ws _ (
        grant_claim-Serving wall key op_id _
          (place-Serving wall key real_bytes child deferred r s e v))).counts

-- The entry for the model is absent, or one that no request uses.
abbrev pub is_own : Option ResidentModel → Bool
is_own none = true
is_own (some r) = not (is_settled r.state)

abbrev pub owned : Coordinator → ℕ → Bool
owned s key = is_own (lookup key s.residents)

pub owned_idle :
    (key : ℕ) (s : Coordinator) → owned s key ≡ true → IsBalanced s → active_of s key ≡ 0
unfolding active_of
owned_idle key s o v = elim (Option-cases (lookup key s.residents)) [
  | inl e ↦ rw e
  | inr (r, e) ↦ rw e (v.quiet key r e (ground arith))
]

pub commit-IsBalanced :
    (m : Machine) (wall key op_id real_bytes : ℕ) (child : Child) (deferred : Bool)
    (s : Coordinator)
    → owned s key ≡ true
    → IsBalanced s
    → IsBalanced (commit m wall key op_id real_bytes child deferred s).1
commit-IsBalanced m wall key op_id real_bytes child deferred s o v =
    commit_cases (λ x. IsBalanced x.1) m wall key op_id real_bytes child deferred s (λ e. v)
      (λ r e b.
        unfold begin_rollback in
        same-IsBalanced
          (record s { residents = modify key (λ x. record x { state = rolling_back }) s.residents })
          _ (refl, refl, refl) refl
          (modify-IsBalanced key (λ x. record x { state = rolling_back }) s (λ x. refl)
            (λ x h n. v.quiet key x h (ground arith)) v))
      (λ r e g k. v)
      (λ r e x k free g d.
        settle_entry-IsBalanced wall key op_id real_bytes child deferred r.waiters x s k v)

pub load_failed-IsBalanced :
    (key op_id : ℕ) (s : Coordinator)
    → owned s key ≡ true
    → IsBalanced s
    → IsBalanced (load_failed_section key op_id s)
load_failed-IsBalanced key op_id s o v =
    load_failed_cases IsBalanced key op_id s kept
      (λ r e b. reclaim-IsBalanced key (drop_reservation op_id s) idle kept)
  where
    kept : IsBalanced (drop_reservation op_id s)
    kept = unfold drop_reservation in same-IsBalanced s _ (refl, refl, refl) refl v

    idle : active_of (drop_reservation op_id s) key ≡ 0
    idle = unfold drop_reservation active_of in (unfold active_of in owned_idle key s o v)
