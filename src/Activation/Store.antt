-- ===== src/Activation/Store.antt =====
-- platformlib/storeimpl/activations.py, with the two unique indexes of 002_activation.sql, and the
-- pointer of serving_llm.py. Rows stand in the order of their creation; a timestamp, an actor and the
-- text of an error decide nothing, and of the evidence only the operator's confirmation is read again.
use mlops_lite.Base.{
  true, Option, false, ℕ, ◌+◌, [], ◌&&◌, none, Bool, ◌∷◌, ltb, ◌++◌, ◌==◌, is_some, modify,
  if◌then◌else◌, lookup, List, some, not, Dict, ◌||◌,
}

pub data Phase : Type 0 where
  prepared committing reloading rolling_back active rolled_back degraded : Phase

abbrev pub index_of : Phase → ℕ
index_of prepared = 0
index_of committing = 1
index_of reloading = 2
index_of rolling_back = 3
index_of active = 4
index_of rolled_back = 5
index_of degraded = 6

abbrev pub same_phase : Phase → Phase → Bool
same_phase p q = index_of p == index_of q

-- Membership of ACTIVATION_NONTERMINAL.
abbrev pub is_nonterminal : Phase → Bool
is_nonterminal p = ltb (index_of p) 4

pub data ErrorCode : Type 0 where
  pointer_write_failed verify_pending verify_failed unresolvable unreachable deferred
        pointer_error :
      ErrorCode

pub record Operation : Type 0 where
  pub operation_id : ℕ
  pub idempotency_key : ℕ
  pub state : Phase
  pub target_model : ℕ
  pub target_version : ℕ
  pub previous_model : Option ℕ
  pub attempts : ℕ
  pub last_error_code : Option ErrorCode
  pub requires_preemption : Bool

pub record Store : Type 0 where
  pub rows : Dict Operation
  pub pointer : Option ℕ

unfoldable pub any_nonterminal : Dict Operation → Bool
any_nonterminal [] = false
any_nonterminal ((i, op) ∷ rows) = is_nonterminal op.state || any_nonterminal rows

-- The insert is refused by the key of the table or by the index of the non-terminal rows, which
-- also keeps their idempotency keys apart.
unfoldable pub create_activation : Operation → Store → Option Operation × Store
create_activation op s =
    if is_some (lookup op.operation_id s.rows) || any_nonterminal s.rows
    then (none, s)
    else (some op, record s { rows = s.rows ++ (op.operation_id, op) ∷ [] })

abbrev pub get_activation : ℕ → Store → Option Operation
get_activation id s = lookup id s.rows

-- `ORDER BY (state = ANY(…)) DESC, created_at DESC LIMIT 1`, of the rows that a test selects.
abbrev pub newer : (selected : Bool) → Operation → Option Operation → Option Operation
newer selected op none = if selected then some op else none
newer selected op (some best) =
    if selected && (is_nonterminal op.state && not (is_nonterminal best.state))
    then some op
    else some best

unfoldable pub newest : (Operation → Bool) → Dict Operation → Option Operation
newest p [] = none
newest p ((i, op) ∷ rows) = newer (p op) op (newest p rows)

abbrev pub find_activation_by_key : ℕ → Store → Option Operation
find_activation_by_key key s = newest (λ op. op.idempotency_key == key) s.rows

abbrev pub current_activation : Store → Option Operation
current_activation s = newest (λ op. true) s.rows

unfoldable pub list_resumable_activations : Dict Operation → List Operation
list_resumable_activations [] = []
list_resumable_activations ((i, op) ∷ rows) =
    let rest = list_resumable_activations rows in
    if is_nonterminal op.state then op ∷ rest else rest

abbrev pub moved : Phase → Option ErrorCode → Bool → Operation → Operation
moved new code bump op = record op {
  state = new;
  last_error_code = code;
  attempts = if bump then op.attempts + 1 else op.attempts;
}

unfoldable pub cas_activation :
    ℕ → (expect new : Phase) → Option ErrorCode → (bump : Bool) → Store → Option Operation × Store
cas_activation id expect new code bump s = elim (lookup id s.rows) [
  | none ↦ (none, s)
  | some op ↦
      if same_phase op.state expect
      then (
        some (moved new code bump op),
        record s { rows = modify id (moved new code bump) s.rows },
      )
      else (none, s)
]
