-- ===== src/Coordinator/State.antt =====
-- hostagent/coordinator.py: the state of the coordinator, and the quantities derived from it.
-- Model keys, operation ids and job ids are numbers, since the code only compares them.
-- An object that is shared and written to (a waiter, a claim) stands in a store under its address.
use mlops_lite.Base.{
  ℕ, ◌+◌, Bool, true, false, ◌||◌, Option, none, some, List, [], ◌∷◌, Dict, lookup, insert, total,
  ◌==◌, if◌then◌else◌, is_some,
}
use mlops_lite.Coordinator.Config.{Config, usable_capacity}

pub data Code : Type 0 where
  gpu_busy model_too_large load_failed : Code

-- Share, Grant and Refuse; the number is the address of the claim. The messages are left out.
pub data Outcome : Type 0 where
  share grant : (claim : ℕ) → Outcome
  refuse : Code → Outcome

-- What a load-owning operation hands to its joiners: an outcome or the instruction RETRY.
pub data Disposition : Type 0 where
  outcome : Outcome → Disposition
  retry : Disposition

pub data ModelState : Type 0 where
  loading resident draining evicting rolling_back : ModelState

abbrev pub is_resident : ModelState → Bool
is_resident resident = true
is_resident _ = false

abbrev pub is_draining : ModelState → Bool
is_draining draining = true
is_draining _ = false

-- The members of TRANSIENT.
abbrev pub is_transient : ModelState → Bool
is_transient draining = true
is_transient evicting = true
is_transient rolling_back = true
is_transient _ = false

-- The process id is `none` for a deferred child: admitted, not yet spawned.
pub record Child : Type 0 where
  pub pid : Option ℕ

pub record ResidentModel : Type 0 where
  pub state : ModelState
  pub vram_accounted_bytes : ℕ
  pub active_requests : ℕ
  pub last_used_at : ℕ
  pub recency_seq : ℕ
  pub child : Option Child
  pub materialized : Bool

pub record Reservation : Type 0 where
  pub op_id : ℕ
  pub model_key : ℕ
  pub est_bytes : ℕ
  pub generation : ℕ
  pub materialized : Bool
  pub waiters : List ℕ

pub record Waiter : Type 0 where
  pub op_id : ℕ
  pub event_set : Bool
  pub disposition : Option Disposition

pub record Claim : Type 0 where
  pub model_key : ℕ
  pub op_id : ℕ
  pub released : Bool

pub record Job : Type 0 where
  pub job_id : ℕ
  pub started_at : ℕ

pub record Coordinator : Type 0 where
  pub residents : Dict ResidentModel
  pub reservations : Dict Reservation
  pub exclusive_job : Option Job
  pub job_barrier : Bool
  pub generations : Dict ℕ
  pub claims : Dict (List ℕ)
  pub claim_ids : ℕ
  pub next_recency : ℕ
  pub waiter_dispositions : Dict Disposition
  pub live_waiters : Dict ℕ
  pub pending_disposal : Dict (List ℕ)
  pub evict_intent : Dict (List ℕ)
  pub waiter_store : Dict Waiter
  pub next_waiter : ℕ
  pub claim_store : Dict Claim

-- The parts that the probe and the configuration fix.
pub record Machine : Type 0 where
  pub config : Config
  pub total_bytes : ℕ

-- Coordinator.__init__
unfoldable pub init : Coordinator
init = record {
  residents = [];
  reservations = [];
  exclusive_job = none;
  job_barrier = false;
  generations = [];
  claims = [];
  claim_ids = 1;
  next_recency = 1;
  waiter_dispositions = [];
  live_waiters = [];
  pending_disposal = [];
  evict_intent = [];
  waiter_store = [];
  next_waiter = 0;
  claim_store = [];
}

-- ResidentModel.__init__ as stage 1 calls it.
abbrev pub new_resident : (wall seq : ℕ) → ResidentModel
new_resident wall seq = record {
  state = loading;
  vram_accounted_bytes = 0;
  active_requests = 0;
  last_used_at = wall;
  recency_seq = seq;
  child = none;
  materialized = true;
}

-- Reservation.__init__
abbrev pub new_reservation : (op_id model_key est_bytes generation : ℕ) → Reservation
new_reservation op_id model_key est_bytes generation = record {
  op_id = op_id;
  model_key = model_key;
  est_bytes = est_bytes;
  generation = generation;
  materialized = false;
  waiters = [];
}

unfoldable pub usable : Machine → ℕ
usable m = usable_capacity m.config m.total_bytes

abbrev pub vram : ResidentModel → ℕ
vram r = r.vram_accounted_bytes

abbrev pub est : Reservation → ℕ
est r = r.est_bytes

abbrev pub vram_pending : ResidentModel → ℕ
vram_pending r = if r.materialized then 0 else r.vram_accounted_bytes

abbrev pub est_pending : Reservation → ℕ
est_pending r = if r.materialized then 0 else r.est_bytes

-- Coordinator._accounted
unfoldable pub accounted : Coordinator → ℕ
accounted s = total vram s.residents + total est s.reservations

-- Coordinator._unmaterialized
unfoldable pub unmaterialized : Coordinator → ℕ
unmaterialized s = total est_pending s.reservations + total vram_pending s.residents

-- Coordinator._generation_of
unfoldable pub generation_of : Coordinator → ℕ → ℕ
generation_of s key = elim (lookup key s.generations) [ none ↦ 0 | some g ↦ g ]

-- Coordinator._bump_generation
unfoldable pub bump_generation : ℕ → Coordinator → Coordinator
bump_generation key s = record s {
  generations = insert key (generation_of s key + 1) s.generations;
}

-- Coordinator._reservation_for: the first reservation for the model.
unfoldable pub reservation_for : ℕ → Dict Reservation → Option Reservation
reservation_for key [] = none
reservation_for key ((op, r) ∷ rs) = if r.model_key == key then some r else reservation_for key rs

-- `exclusive_job is not None or job_barrier`
unfoldable pub barred : Coordinator → Bool
barred s = is_some s.exclusive_job || s.job_barrier

abbrev pub list_or_nil {ℓ} : {A : Type ℓ} → Option (List A) → List A
list_or_nil none = []
list_or_nil (some xs) = xs

-- `_claims.get(key, ())`
unfoldable pub claims_of : Coordinator → ℕ → List ℕ
claims_of s key = list_or_nil (lookup key s.claims)

abbrev pub active_or_zero : Option ResidentModel → ℕ
active_or_zero none = 0
active_or_zero (some r) = r.active_requests

unfoldable pub active_of : Coordinator → ℕ → ℕ
active_of s key = active_or_zero (lookup key s.residents)
