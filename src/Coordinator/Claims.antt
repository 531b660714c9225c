-- ===== src/Coordinator/Claims.antt =====
-- hostagent/coordinator.py: granting and releasing claims, the reference counts of residents.
use mlops_lite.Base.{
  ℕ, ◌+◌, ◌-◌, true, false, none, some, ◌∷◌, lookup, insert, modify, discard, if◌then◌else◌,
}
use mlops_lite.Coordinator.State.{Coordinator, ResidentModel, claims_of}

-- Coordinator._touch, on the entry: the ticket is drawn by the caller.
abbrev pub touched : (wall seq : ℕ) → ResidentModel → ResidentModel
touched wall seq r = record r { last_used_at = wall; recency_seq = seq }

abbrev pub one_more : (wall seq : ℕ) → ResidentModel → ResidentModel
one_more wall seq r = touched wall seq (record r { active_requests = r.active_requests + 1 })

abbrev pub one_less : (wall seq : ℕ) → ResidentModel → ResidentModel
one_less wall seq r = touched wall seq (record r { active_requests = r.active_requests - 1 })

-- Coordinator._grant_claim, for a model that is in `residents`. The claim's address is its id.
unfoldable pub grant_claim : (wall key op_id : ℕ) → Coordinator → Coordinator
grant_claim wall key op_id s = record s {
  residents = modify key (one_more wall s.next_recency) s.residents;
  next_recency = s.next_recency + 1;
  claim_ids = s.claim_ids + 1;
  claims = insert key (s.claim_ids ∷ claims_of s key) s.claims;
  claim_store =
      insert s.claim_ids (record { model_key = key; op_id = op_id; released = false })
        s.claim_store;
}

-- The part of _release_claim for a model that is resident: `max(0, n - 1)` and a touch.
unfoldable pub give_back : (wall key : ℕ) → Coordinator → Coordinator
give_back wall key s = elim (lookup key s.residents) [
  | none ↦ s
  | some r ↦ record s {
    residents = modify key (one_less wall s.next_recency) s.residents;
    next_recency = s.next_recency + 1;
  }
]

-- The part of _release_claim that discards the id.
unfoldable pub drop_id : (key claim : ℕ) → Coordinator → Coordinator
drop_id key claim s = elim (lookup key s.claims) [
  | none ↦ s
  | some ids ↦ record s { claims = insert key (discard claim ids) s.claims }
]

-- Coordinator._release_claim
unfoldable pub release_claim : (wall claim key : ℕ) → Coordinator → Coordinator
release_claim wall claim key s = drop_id key claim (give_back wall key s)

-- Claim.release: a second call does nothing.
unfoldable pub release : (wall claim : ℕ) → Coordinator → Coordinator
release wall claim s = elim (lookup claim s.claim_store) [
  | none ↦ s
  | some c ↦
      if c.released
      then s
      else release_claim wall claim c.model_key
          (record s { claim_store = insert claim (record c { released = true }) s.claim_store })
]
