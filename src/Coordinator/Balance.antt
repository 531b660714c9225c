-- ===== src/Coordinator/Balance.antt =====
-- hostagent/coordinator.py, check_invariants, invariant 4: active_requests and the outstanding claims.
use mlops_lite.Base.{
  insert, lookup-insert, ◌∷◌, lookup, if◌then◌else◌, ◌≡◌, some, false, List, Bool, lookup-modify,
  true, contains, Below, arith, length, ℕ, ◌==◌, ap, Bool-cases, Below-mono, ◌+◌, inr, ◌∙◌, sym,
  inl, erase, Option-cases, lookup-erase, refl, modify_all, subst, lookup-modify_all, modify,
}
use mlops_lite.Coordinator.Claims.{grant_claim, one_more}
use mlops_lite.Coordinator.Handoff.{reclaim}
use mlops_lite.Coordinator.State.{
  Claim, Coordinator, claims_of, active_of, ModelState, resident, draining, ResidentModel,
  bump_generation,
}

-- A state in which an entry may have requests in flight.
abbrev pub is_settled : ModelState → Bool
is_settled resident = true
is_settled draining = true
is_settled _ = false

pub record IsBalanced (s : Coordinator) : Type 0 where
  pub balanced : (k : ℕ) → active_of s k ≡ length (claims_of s k)
  pub ordered : (k : ℕ) → Below s.claim_ids (claims_of s k)
  pub held :
      (i : ℕ) (c : Claim)
      → lookup i s.claim_store ≡ some c
      → c.released ≡ false
      → contains i (claims_of s c.model_key) ≡ true
  pub quiet :
      (k : ℕ) (r : ResidentModel)
      → lookup k s.residents ≡ some r
      → is_settled r.state ≡ false
      → r.active_requests ≡ 0

claims_of-insert :
    (key k : ℕ) (ids : List ℕ) (s : Coordinator)
    → claims_of (record s { claims = insert key ids s.claims }) k
      ≡ (if key == k then ids else claims_of s k)
unfolding claims_of
claims_of-insert key k ids s = ground (arith, lookup-insert key k ids s.claims)

module _ (wall key op_id : ℕ) (s : Coordinator) (v : IsBalanced s) (r : ResidentModel)
    (here : lookup key s.residents ≡ some r) (settled : is_settled r.state ≡ true) where
  grant_claim-balanced :
      (k : ℕ)
      → active_of (grant_claim wall key op_id s) k
        ≡ length (claims_of (grant_claim wall key op_id s) k)
  unfolding grant_claim active_of claims_of
  grant_claim-balanced k = ground (
    arith,
    lookup-modify key k (one_more wall s.next_recency) s.residents,
    lookup-insert key k (s.claim_ids ∷ claims_of s key) s.claims,
    v.balanced k,
    v.balanced key,
  )

  grant_claim-ordered :
      (k : ℕ)
      → Below (grant_claim wall key op_id s).claim_ids (claims_of (grant_claim wall key op_id s) k)
  unfolding grant_claim claims_of
  grant_claim-ordered k =
      rw (lookup-insert key k (s.claim_ids ∷ claims_of s key) s.claims)
        (elim (Bool-cases (key == k)) [
          | inl e ↦ rw e (omega arith, unfold claims_of in v.ordered key)
          | inr e ↦
              rw e (
                Below-mono s.claim_ids (s.claim_ids + 1) (claims_of s k) (omega arith)
                  (v.ordered k))
        ])

  grant_claim-held :
      (i : ℕ) (c : Claim)
      → lookup i (grant_claim wall key op_id s).claim_store ≡ some c
      → c.released ≡ false
      → contains i (claims_of (grant_claim wall key op_id s) c.model_key) ≡ true
  unfolding grant_claim claims_of
  grant_claim-held i c e n = ground (
    arith,
    lookup-insert s.claim_ids i (record { model_key = key; op_id = op_id; released = false })
        s.claim_store,
    lookup-insert key c.model_key (s.claim_ids ∷ claims_of s key) s.claims,
    v.held i c,
  )

  grant_claim-quiet :
      (k : ℕ) (x : ResidentModel)
      → lookup k (grant_claim wall key op_id s).residents ≡ some x
      → is_settled x.state ≡ false
      → x.active_requests ≡ 0
  unfolding grant_claim
  grant_claim-quiet k x e n =
      ground (arith, lookup-modify key k (one_more wall s.next_recency) s.residents, v.quiet k x)

  pub grant_claim-IsBalanced : IsBalanced (grant_claim wall key op_id s)
  grant_claim-IsBalanced = record {
    balanced = grant_claim-balanced;
    ordered = grant_claim-ordered;
    held = grant_claim-held;
    quiet = grant_claim-quiet;
  }

-- Two states that agree on what the counts are about.
abbrev pub SameClaims : Coordinator → Coordinator → Type 0
SameClaims s t =
    (t.claims ≡ s.claims) × (t.claim_ids ≡ s.claim_ids) × (t.claim_store ≡ s.claim_store)

-- A section that leaves the claims alone and keeps the counts.
module _ (s t : Coordinator) (same : SameClaims s t) (v : IsBalanced s)
    (counts : (k : ℕ) → active_of t k ≡ active_of s k)
    (quiets : (k : ℕ) (r : ResidentModel)
      → lookup k t.residents ≡ some r
      → is_settled r.state ≡ false
      → r.active_requests ≡ 0) where
  same_claims_of : (k : ℕ) → claims_of t k ≡ claims_of s k
  unfolding claims_of
  same_claims_of k = rw (same.0)

  pub keep-IsBalanced : IsBalanced t
  keep-IsBalanced = record {
    balanced = λ k. counts k ∙ v.balanced k ∙ ap length (sym (same_claims_of k));
    ordered = λ k.
        rw (same_claims_of k) (subst (λ n. Below n (claims_of s k)) (sym same.1) (v.ordered k));
    held = λ i c e n. rw (same_claims_of c.model_key) (v.held i c (rw (same.2) at e) n);
    quiet = quiets;
  }

-- So does one that leaves the residents alone too.
pub same-IsBalanced :
    (s t : Coordinator) → SameClaims s t → t.residents ≡ s.residents → IsBalanced s → IsBalanced t
same-IsBalanced s t same e v =
    keep-IsBalanced s t same v (λ k. unfold active_of in rw e)
      (λ k r h n. v.quiet k r (rw e at h) n)

-- A write to one entry that keeps its count, and that parks it only if nothing is in flight.
pub modify-IsBalanced :
    (key : ℕ) (g : ResidentModel → ResidentModel) (s : Coordinator)
    → ((r : ResidentModel) → (g r).active_requests ≡ r.active_requests)
    → ((r : ResidentModel)
        → lookup key s.residents ≡ some r
        → is_settled (g r).state ≡ false
        → r.active_requests ≡ 0)
    → IsBalanced s
    → IsBalanced (record s { residents = modify key g s.residents })
modify-IsBalanced key g s count park v =
    keep-IsBalanced s (record s { residents = modify key g s.residents }) (refl, refl, refl) v
      counts quiets
  where
    counts :
        (k : ℕ) → active_of (record s { residents = modify key g s.residents }) k ≡ active_of s k
    counts k = elim (Option-cases (lookup k s.residents)) [
      | inl e ↦ unfold active_of in ground (arith, lookup-modify key k g s.residents)
      | inr (r, e) ↦ unfold active_of in ground (arith, lookup-modify key k g s.residents, count r)
    ]

    quiets :
        (k : ℕ) (r : ResidentModel)
        → lookup k (modify key g s.residents) ≡ some r
        → is_settled r.state ≡ false
        → r.active_requests ≡ 0
    quiets k r e n = elim (Option-cases (lookup k s.residents)) [
      | inl a ↦ ground (arith, lookup-modify key k g s.residents)
      | inr (x, a) ↦ elim (Bool-cases (key == k)) [
        | inl b ↦ ground (arith, lookup-modify key k g s.residents, count x, park x)
        | inr b ↦ v.quiet k r (ground (arith, lookup-modify key k g s.residents)) n
      ]
    ]

pub modify_all-IsBalanced :
    (g : ResidentModel → ResidentModel) (s : Coordinator)
    → ((r : ResidentModel) → (g r).active_requests ≡ r.active_requests)
    → ((r : ResidentModel) → is_settled (g r).state ≡ is_settled r.state)
    → IsBalanced s
    → IsBalanced (record s { residents = modify_all g s.residents })
modify_all-IsBalanced g s count states v =
    keep-IsBalanced s (record s { residents = modify_all g s.residents }) (refl, refl, refl) v
      counts quiets
  where
    counts :
        (k : ℕ) → active_of (record s { residents = modify_all g s.residents }) k ≡ active_of s k
    counts k = elim (Option-cases (lookup k s.residents)) [
      | inl e ↦ unfold active_of in ground (arith, lookup-modify_all k g s.residents)
      | inr (r, e) ↦ unfold active_of in ground (arith, lookup-modify_all k g s.residents, count r)
    ]

    quiets :
        (k : ℕ) (r : ResidentModel)
        → lookup k (modify_all g s.residents) ≡ some r
        → is_settled r.state ≡ false
        → r.active_requests ≡ 0
    quiets k r e n = elim (Option-cases (lookup k s.residents)) [
      | inl a ↦ ground (arith, lookup-modify_all k g s.residents)
      | inr (x, a) ↦
          ground (arith, lookup-modify_all k g s.residents, count x, states x, v.quiet k x)
    ]

-- A new or replaced entry, with the count that the claims give.
pub insert-IsBalanced :
    (key : ℕ) (r : ResidentModel) (s : Coordinator)
    → r.active_requests ≡ active_of s key
    → (is_settled r.state ≡ false → r.active_requests ≡ 0)
    → IsBalanced s
    → IsBalanced (record s { residents = insert key r s.residents })
insert-IsBalanced key r s count park v =
    keep-IsBalanced s (record s { residents = insert key r s.residents }) (refl, refl, refl) v
      (λ k.
        unfold active_of in
        elim (Bool-cases (key == k)) [
          | inl e ↦ ground (arith, lookup-insert key k r s.residents)
          | inr e ↦ ground (arith, lookup-insert key k r s.residents)
        ])
      (λ k x e n. ground (arith, lookup-insert key k r s.residents, park, v.quiet k x))

-- The removal of an entry with nothing in flight.
pub erase-IsBalanced :
    (key : ℕ) (s : Coordinator)
    → active_of s key ≡ 0
    → IsBalanced s
    → IsBalanced (record s { residents = erase key s.residents })
erase-IsBalanced key s idle v =
    keep-IsBalanced s (record s { residents = erase key s.residents }) (refl, refl, refl) v
      (λ k. unfold active_of in ground (arith, lookup-erase key k s.residents))
      (λ k x e n. ground (arith, lookup-erase key k s.residents, v.quiet k x))

pub reclaim-IsBalanced :
    (key : ℕ) (s : Coordinator) → active_of s key ≡ 0 → IsBalanced s → IsBalanced (reclaim key s)
unfolding reclaim bump_generation
reclaim-IsBalanced key s idle v =
    same-IsBalanced (record s { residents = erase key s.residents }) _ (refl, refl, refl) refl
      (erase-IsBalanced key s idle v)
