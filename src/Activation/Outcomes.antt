-- ===== src/Activation/Outcomes.antt =====
-- gateway/app/activation.py, ActivationService.run: what a run makes of an operation and of the
-- pointer, read off the operation's state, without the table.
use mlops_lite.Base.{leb, ℕ, ◌+◌, ◌≡◌, lookup, false, Bool, if◌then◌else◌, none, some, Option, true}
use mlops_lite.Activation.Service.{
  loaded, reloaded, swapped, noop, identity_differs, put_off, no_agent, Answers, is_target,
  ReloadStatus,
}
use mlops_lite.Activation.Store.{
  unreachable, deferred, verify_pending, verify_failed, ErrorCode, pointer_write_failed,
  pointer_error, rolling_back, rolled_back, prepared, Store, degraded, moved, Phase, reloading,
  Operation, active, committing,
}

-- The row of an operation.
abbrev pub IsRow : ℕ → Operation → Store → Type 0
IsRow id op s = (lookup id s.rows ≡ some op) × (op.operation_id ≡ id)

-- A step returns the operation, leaves it in its row, and leaves the pointer so.
abbrev pub Shows : ℕ → Option Operation × Store → Operation × Option ℕ → Type 0
Shows id (r, s) (op, p) = (r ≡ some op) × (s.pointer ≡ p) × IsRow id op s

abbrev pub rolled : Answers → Operation → Option ℕ → Operation × Option ℕ
rolled a op p = if a.restore_ok then (moved rolled_back none false op, op.previous_model) else (
  moved degraded (some pointer_error) false op,
  if a.restore_lost then op.previous_model else p,
)

abbrev pub tried : (max_attempts : ℕ) → ErrorCode → Operation → Operation
tried max_attempts code op =
    moved (if leb max_attempts (op.attempts + 1) then degraded else reloading) (some code) true op

abbrev pub unloadable_or_tried :
    (max_attempts : ℕ) → ErrorCode → Bool → Answers → Operation → Option ℕ → Operation × Option ℕ
unloadable_or_tried max_attempts code is_unresolvable a op p =
    if is_unresolvable then rolled a op p else (tried max_attempts code op, p)

abbrev pub verified : Answers → Operation → Operation
verified a op =
    if is_target a.resident op
    then moved active none false op
    else moved reloading (some verify_pending) true op

abbrev pub asked :
    (max_attempts : ℕ) → ReloadStatus → Bool → Answers → Operation → Option ℕ → Operation × Option ℕ
asked max_attempts identity_differs u a op p = (tried max_attempts verify_failed op, p)
asked max_attempts put_off u a op p = unloadable_or_tried max_attempts deferred u a op p
asked max_attempts no_agent u a op p = unloadable_or_tried max_attempts unreachable u a op p
asked max_attempts loaded u a op p = (verified a op, p)
asked max_attempts reloaded u a op p = (verified a op, p)
asked max_attempts swapped u a op p = (verified a op, p)
asked max_attempts noop u a op p = (verified a op, p)

-- The pointer after a write that raised.
abbrev pub unsure : Answers → Operation → Option ℕ → Option ℕ
unsure a op p = if a.pointer_lost then some op.target_model else p

-- After the write of the pointer, which may fail.
abbrev pub chosen : Answers → Operation → Option ℕ → (pointer_ok : Bool) → Operation × Option ℕ
chosen a op p pointer_ok =
    if pointer_ok
    then (moved committing none false op, some op.target_model)
    else (moved prepared (some pointer_write_failed) true op, unsure a op p)

-- The operation and the pointer after a run, for the state before it.
abbrev pub outcome_from :
    Phase
    → (max_attempts : ℕ) → (preempt : Bool) → Answers
    → Operation
    → Option ℕ
    → Operation × Option ℕ
outcome_from prepared max_attempts preempt a op p =
    let reply = a.reply preempt in
    if a.pointer_ok
    then asked max_attempts reply.status reply.is_unresolvable a op (some op.target_model)
    else (moved prepared (some pointer_write_failed) true op, unsure a op p)
outcome_from committing max_attempts preempt a op p =
    asked max_attempts (a.reply preempt).status (a.reply preempt).is_unresolvable a op p
outcome_from reloading max_attempts preempt a op p =
    asked max_attempts (a.reply preempt).status (a.reply preempt).is_unresolvable a op p
outcome_from rolling_back max_attempts preempt a op p = rolled a op p
outcome_from active max_attempts preempt a op p = (op, p)
outcome_from rolled_back max_attempts preempt a op p = (op, p)
outcome_from degraded max_attempts preempt a op p = (op, p)
