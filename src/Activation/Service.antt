-- ===== src/Activation/Service.antt =====
-- gateway/app/activation.py: ActivationService. What the writes of the pointer and the agent answer is
-- an argument: a reload is asked with the confirmation to preempt, and the resident model after it.
use mlops_lite.Base.{
  true, Option, false, same_option, ℕ, ◌+◌, [], ◌&&◌, none, Bool, ◌∷◌, ◌==◌, if◌then◌else◌, List,
  some, not, leb,
}
use mlops_lite.Activation.Store.{
  unreachable, deferred, pointer_write_failed, pointer_error, verify_pending, unresolvable,
  verify_failed, ErrorCode, rolling_back, rolled_back, active, cas_activation, reloading,
  same_phase, is_nonterminal, list_resumable_activations, degraded, current_activation, Store,
  find_activation_by_key, Phase, committing, create_activation, prepared, get_activation, Operation,
}

pub data ReloadStatus : Type 0 where
  loaded reloaded swapped noop identity_differs put_off no_agent : ReloadStatus

pub record Reply : Type 0 where
  pub status : ReloadStatus
  pub is_unresolvable : Bool

pub record Identity : Type 0 where
  pub serving_model : Option ℕ
  pub serving_version : Option ℕ

-- A write of the pointer that raises may have been committed, and only its reply be lost.
pub record Answers : Type 0 where
  pub pointer_ok : Bool
  pub pointer_lost : Bool
  pub reply : (preempt : Bool) → Reply
  pub resident : Identity
  pub restore_ok : Bool
  pub restore_lost : Bool

pub data Submitted : Type 0 where
  submitted : Operation → Submitted
  refused : Submitted

abbrev pub same_target : Operation → ℕ → ℕ → Bool
same_target op name version = op.target_model == name && op.target_version == version

-- A row that create_activation is given: its state is `prepared`.
abbrev pub new_operation : (id key name version : ℕ) → Option ℕ → (preempt : Bool) → Operation
new_operation id key name version previous preempt = record {
  operation_id = id;
  idempotency_key = key;
  state = prepared;
  target_model = name;
  target_version = version;
  previous_model = previous;
  attempts = 0;
  last_error_code = none;
  requires_preemption = preempt;
}

-- ActivationConflict becomes ActivationError.
unfoldable pub created : Option Operation × Store → Submitted × Store
created (none, s) = (refused, s)
created (some op, s) = (submitted op, s)

-- submit, with the uuid and the key that it would make.
unfoldable pub submit :
    (id key name version : ℕ) → Option ℕ → (preempt : Bool) → Store → Submitted × Store
submit id key name version previous preempt s =
    let fresh =
      created (create_activation (new_operation id key name version previous preempt) s) in
    elim (find_activation_by_key key s) [
      | none ↦ fresh
      | some op ↦
          if is_nonterminal op.state
          then (if same_target op name version then (submitted op, s) else (refused, s))
          else fresh
    ]

-- assert_no_conflict, with the store up: true when it raises.
unfoldable pub conflicts : (name version : ℕ) → Store → Bool
conflicts name version s = elim (current_activation s) [
  | none ↦ false
  | some op ↦ is_nonterminal op.state && not (same_target op name version)
]

-- _commit_pointer
unfoldable pub commit_pointer : Answers → Operation → Store → Option Operation × Store
commit_pointer a op s =
    if a.pointer_ok
    then cas_activation op.operation_id prepared committing none false
        (record s { pointer = some op.target_model })
    else cas_activation op.operation_id prepared prepared (some pointer_write_failed) true
        (record s { pointer = if a.pointer_lost then some op.target_model else s.pointer })

-- _advance_to_reloading
unfoldable pub advance_to_reloading : Operation → Store → Option Operation × Store
advance_to_reloading op s = cas_activation op.operation_id committing reloading none false s

-- _maybe_degrade: `stay` is the operation's own state at every call.
unfoldable pub maybe_degrade :
    (max_attempts : ℕ) → ErrorCode → Operation → Store → Option Operation × Store
maybe_degrade max_attempts code op s =
    if leb max_attempts (op.attempts + 1)
    then cas_activation op.operation_id op.state degraded (some code) true s
    else cas_activation op.operation_id op.state op.state (some code) true s

-- _roll_back
unfoldable pub roll_back : Answers → Operation → Store → Option Operation × Store
roll_back a op s =
    if a.restore_ok
    then cas_activation op.operation_id rolling_back rolled_back none false
        (record s { pointer = op.previous_model })
    else cas_activation op.operation_id rolling_back degraded (some pointer_error) false
        (record s { pointer = if a.restore_lost then op.previous_model else s.pointer })

abbrev pub is_target : Identity → Operation → Bool
is_target ident op =
    same_option ident.serving_model (some op.target_model)
    && same_option ident.serving_version (some op.target_version)

-- The branch of _reload_and_verify for a reload that was carried out.
unfoldable pub verify : Answers → Operation → Store → Option Operation × Store
verify a op s =
    if is_target a.resident op
    then cas_activation op.operation_id reloading active none false s
    else cas_activation op.operation_id reloading reloading (some verify_pending) true s

-- Its branch for a target that cannot be loaded: `if moved: return self._roll_back(conn, moved)`.
unfoldable pub roll_back_if_moved : Answers → Option Operation × Store → Option Operation × Store
roll_back_if_moved a (none, s) = (none, s)
roll_back_if_moved a (some op, s) = roll_back a op s

unfoldable pub abandon : Answers → Operation → Store → Option Operation × Store
abandon a op s =
    roll_back_if_moved a
      (cas_activation op.operation_id reloading rolling_back (some unresolvable) false s)

unfoldable pub give_up_or_stay :
    (max_attempts : ℕ) → ErrorCode → Answers → Bool → Operation → Store → Option Operation × Store
give_up_or_stay max_attempts code a is_unresolvable op s =
    if is_unresolvable then abandon a op s else maybe_degrade max_attempts code op s

-- _reload_and_verify, for the agent's reply.
unfoldable pub on_reply :
    (max_attempts : ℕ)
    → ReloadStatus
    → Bool
    → Answers
    → Operation
    → Store
    → Option Operation × Store
on_reply max_attempts identity_differs u a op s = maybe_degrade max_attempts verify_failed op s
on_reply max_attempts put_off u a op s = give_up_or_stay max_attempts deferred a u op s
on_reply max_attempts no_agent u a op s = give_up_or_stay max_attempts unreachable a u op s
on_reply max_attempts loaded u a op s = verify a op s
on_reply max_attempts reloaded u a op s = verify a op s
on_reply max_attempts swapped u a op s = verify a op s
on_reply max_attempts noop u a op s = verify a op s

unfoldable pub reload_and_verify :
    (max_attempts : ℕ) → (preempt : Bool) → Answers → Operation → Store → Option Operation × Store
reload_and_verify max_attempts preempt a op s =
    let reply = a.reply preempt in on_reply max_attempts reply.status reply.is_unresolvable a op s

-- `step(op) or self._reread(…)`
unfoldable pub or_reread : ℕ → Option Operation × Store → Option Operation × Store
or_reread id (none, s) = (get_activation id s, s)
or_reread id (some op, s) = (some op, s)

-- One `if op["state"] == …` of run. Without a record run raises.
unfoldable pub stage :
    ℕ
    → Phase
    → (Operation → Store → Option Operation × Store)
    → Option Operation × Store
    → Option Operation × Store
stage id phase f (none, s) = (none, s)
stage id phase f (some op, s) =
    if same_phase op.state phase then or_reread id (f op s) else (some op, s)

-- The part of run up to the reload.
unfoldable pub before_reload : Answers → ℕ → Store → Option Operation × Store
before_reload a id s =
    stage id committing advance_to_reloading
      (stage id prepared (commit_pointer a) (get_activation id s, s))

unfoldable pub run :
    (max_attempts : ℕ) → (preempt : Bool) → Answers → ℕ → Store → Option Operation × Store
run max_attempts preempt a id s =
    stage id rolling_back (roll_back a)
      (stage id reloading (reload_and_verify max_attempts preempt a) (before_reload a id s))

-- reconcile_all, with the answers to each of its runs.
unfoldable pub resume_each : (max_attempts : ℕ) → (ℕ → Answers) → List Operation → Store → Store
resume_each max_attempts answers [] s = s
resume_each max_attempts answers (op ∷ ops) s =
    let (_, s') =
      run max_attempts op.requires_preemption (answers op.operation_id) op.operation_id s in
    resume_each max_attempts answers ops s'

unfoldable pub reconcile_all : (max_attempts : ℕ) → (ℕ → Answers) → Store → Store
reconcile_all max_attempts answers s =
    resume_each max_attempts answers (list_resumable_activations s.rows) s
