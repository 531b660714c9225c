-- ===== src/Coordinator/Release.antt =====
-- hostagent/coordinator.py: the release of a claim, and invariant 4 over whole histories.
use mathlib.Core.Bool.{false≢true}
use mlops_lite.Base.{
  ◌+◌, ◌∙◌, Option-cases, sym, [], ◌<◌, true, contains, List, length, insert, modify, discard, ◌∷◌,
  ◌≡◌, inl, inr, arith, false, suc, ℕ, ap, lookup, some, length-discard, ==_iff, ◌-◌, Below,
  lookup-modify, if◌then◌else◌, Bool-cases, subst, Below-discard, ◌==◌, lookup-insert,
  contains-discard_ne,
}
use mlops_lite.Coordinator.Balance.{IsBalanced, is_settled}
use mlops_lite.Coordinator.Claims.{one_less, release, release_claim, give_back, drop_id}
use mlops_lite.Coordinator.State.{active_of, Claim, claims_of, Coordinator, ResidentModel}

-- The state after the release of an outstanding claim on a model that is resident.
abbrev after_release : (wall claim : ℕ) → Claim → List ℕ → Coordinator → Coordinator
after_release wall claim c ids s = record s {
  claim_store = insert claim (record c { released = true }) s.claim_store;
  residents = modify c.model_key (one_less wall s.next_recency) s.residents;
  next_recency = s.next_recency + 1;
  claims = insert c.model_key (discard claim ids) s.claims;
}

contains-length : (a : ℕ) (xs : List ℕ) → contains a xs ≡ true → 0 < length xs
contains-length a [] h = cc
contains-length a (x ∷ xs) h = omega arith

module _ (wall claim : ℕ) (c : Claim) (s : Coordinator) (v : IsBalanced s)
    (stored : lookup claim s.claim_store ≡ some c) (open_claim : c.released ≡ false) where
  pub outstanding : contains claim (claims_of s c.model_key) ≡ true
  outstanding = v.held claim c stored open_claim

  known :
      (ids : List ℕ) × (lookup c.model_key s.claims ≡ some ids) × (claims_of s c.model_key ≡ ids)
  unfolding claims_of
  known = elim (Option-cases (lookup c.model_key s.claims)) [
    | inl e ↦ absurd (false≢true (rw (e, claims_of) at outstanding))
    | inr (ids, e) ↦ (ids, e, rw e)
  ]

  counted : 0 < active_of s c.model_key
  counted =
      omega
        (arith, v.balanced c.model_key, contains-length claim (claims_of s c.model_key) outstanding)

  serving : (r : ResidentModel) × (lookup c.model_key s.residents ≡ some r)
  serving = elim (Option-cases (lookup c.model_key s.residents)) [
    | inl e ↦ absurd (unfold active_of in (let h = counted in ground (arith)))
    | inr x ↦ x
  ]

  release-after : release wall claim s ≡ after_release wall claim c known.0 s
  unfolding release release_claim give_back drop_id
  release-after =
      rw (stored, release) (rw open_claim (rw (serving.1, give_back) (rw (known.1, drop_id))))

  length-released : suc (length (discard claim known.0)) ≡ active_of s c.model_key
  length-released =
      length-discard s.claim_ids claim known.0 (rw known.2 at (v.ordered c.model_key))
        (rw known.2 at outstanding)
      ∙ ap length (sym known.2)
      ∙ sym (v.balanced c.model_key)

  claims_of-after :
      (k : ℕ)
      → claims_of (after_release wall claim c known.0 s) k
        ≡ (if c.model_key == k then discard claim known.0 else claims_of s k)
  unfolding claims_of
  claims_of-after k = ground (arith, lookup-insert c.model_key k (discard claim known.0) s.claims)

  active_of-after :
      (k : ℕ)
      → active_of (after_release wall claim c known.0 s) k
        ≡ (if c.model_key == k then active_of s k - 1 else active_of s k)
  unfolding active_of
  active_of-after k =
      ground (arith, lookup-modify c.model_key k (one_less wall s.next_recency) s.residents)

  after_release-balanced :
      (k : ℕ)
      → active_of (after_release wall claim c known.0 s) k
        ≡ length (claims_of (after_release wall claim c known.0 s) k)
  after_release-balanced k =
      rw (active_of-after k)
        (rw (claims_of-after k) (ground (arith, length-released, v.balanced k)))

  after_release-ordered :
      (k : ℕ) → Below s.claim_ids (claims_of (after_release wall claim c known.0 s) k)
  after_release-ordered k = rw (claims_of-after k) (elim (Bool-cases (c.model_key == k)) [
    | inl e ↦ rw e (
        Below-discard s.claim_ids claim known.0
          (subst (Below s.claim_ids) known.2 (v.ordered c.model_key)))
    | inr e ↦ rw e (v.ordered k)
  ])

  after_release-held :
      (i : ℕ) (x : Claim)
      → lookup i (insert claim (record c { released = true }) s.claim_store) ≡ some x
      → x.released ≡ false
      → contains i (claims_of (after_release wall claim c known.0 s) x.model_key) ≡ true
  after_release-held i x e n = elim (Bool-cases (claim == i)) [
    | inl b ↦ ground (arith, lookup-insert claim i (record c { released = true }) s.claim_store)
    | inr b ↦
        let old : lookup i s.claim_store ≡ some x =
          ground (arith, lookup-insert claim i (record c { released = true }) s.claim_store) in
        rw (claims_of-after x.model_key) (elim (Bool-cases (c.model_key == x.model_key)) [
          | inl k ↦ rw k (
              contains-discard_ne claim i known.0 b
              ∙ subst (λ ids. contains i ids ≡ true) (known.2)
                  (subst (λ j. contains i (claims_of s j) ≡ true)
                    (sym ((==_iff c.model_key x.model_key).0 k)) (v.held i x old n)))
          | inr k ↦ rw k (v.held i x old n)
        ])
  ]

  after_release-quiet :
      (k : ℕ) (r : ResidentModel)
      → lookup k (modify c.model_key (one_less wall s.next_recency) s.residents) ≡ some r
      → is_settled r.state ≡ false
      → r.active_requests ≡ 0
  after_release-quiet k r e n = elim (Option-cases (lookup k s.residents)) [
    | inl a ↦ ground (arith, lookup-modify c.model_key k (one_less wall s.next_recency) s.residents)
    | inr (x, a) ↦
        ground (
          arith,
          lookup-modify c.model_key k (one_less wall s.next_recency) s.residents,
          v.quiet k x,
        )
  ]

  after_release-IsBalanced : IsBalanced (after_release wall claim c known.0 s)
  after_release-IsBalanced = record {
    balanced = after_release-balanced;
    ordered = after_release-ordered;
    held = after_release-held;
    quiet = after_release-quiet;
  }

pub release-IsBalanced :
    (wall claim : ℕ) (s : Coordinator) → IsBalanced s → IsBalanced (release wall claim s)
unfolding release
release-IsBalanced wall claim s v = elim (Option-cases (lookup claim s.claim_store)) [
  | inl e ↦ rw (e, release) v
  | inr (c, e) ↦ elim (Bool-cases c.released) [
    | inl r ↦ rw (e, release) (rw r v)
    | inr r ↦
        subst IsBalanced (sym (release-after wall claim c s v e r))
          (after_release-IsBalanced wall claim c s v e r)
  ]
]
