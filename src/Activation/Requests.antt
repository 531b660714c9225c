-- ===== src/Activation/Requests.antt =====
-- gateway/app/activation.py: ActivationService.activate, and what _view shows of a record.
use mlops_lite.Activation.Service.{Answers, Submitted, submit, run, submitted, refused}
use mlops_lite.Base.{true, Option, false, ℕ, none, Bool, some}
use mlops_lite.Activation.Store.{ErrorCode, rolled_back, degraded, Store, prepared, Operation}

-- What _view shows of a record.
pub record View : Type 0 where
  pub shown_active : Option ℕ
  pub shown_rolled_back : Option Bool

unfoldable pub view : Operation → View
view op = elim op.state [
  | rolled_back ↦ record { shown_active = op.previous_model; shown_rolled_back = some true }
  | degraded ↦ elim op.last_error_code [
    | some ErrorCode.pointer_error ↦ record {
      shown_active = op.previous_model;
      shown_rolled_back = some false;
    }
    | _ ↦ record { shown_active = some op.target_model; shown_rolled_back = none }
  ]
  | prepared ↦ record { shown_active = none; shown_rolled_back = none }
  | _ ↦ record { shown_active = some op.target_model; shown_rolled_back = none }
]

-- activate, with the store up: it raises, is cut short, or shows the record.
pub data Activated : Type 0 where
  conflicting interrupted : Activated
  viewed : View → Activated

unfoldable pub show_run : Option Operation × Store → Activated × Store
show_run (none, s) = (interrupted, s)
show_run (some op, s) = (viewed (view op), s)

unfoldable pub run_submitted :
    (max_attempts : ℕ) → (preempt : Bool) → Answers → Submitted × Store → Activated × Store
run_submitted max_attempts preempt a (refused, s) = (conflicting, s)
run_submitted max_attempts preempt a (submitted op, s) =
    show_run (run max_attempts preempt a op.operation_id s)

unfoldable pub activate :
    (max_attempts id key name version : ℕ)
    → Option ℕ
    → (preempt : Bool) → Answers
    → Store
    → Activated × Store
activate max_attempts id key name version previous preempt a s =
    run_submitted max_attempts preempt a (submit id key name version previous preempt s)
