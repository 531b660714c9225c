-- ===== src/Activation/Steps.antt =====
-- gateway/app/activation.py: the compare-and-set steps of run, on one row and the pointer.
use mlops_lite.Base.{
  ◌+◌, refl, lookup-modify, none, arith, sym, Option, inr, ℕ, leb, false, Bool-cases, some, true,
  if◌then◌else◌, Bool, inl, subst, ◌≡◌,
}
use mlops_lite.Activation.Outcomes.{
  unsure, unloadable_or_tried, IsRow, tried, Shows, verified, rolled, asked,
}
use mlops_lite.Activation.Service.{
  loaded, ReloadStatus, commit_pointer, is_target, give_up_or_stay, roll_back_if_moved, swapped,
  noop, identity_differs, verify, or_reread, on_reply, no_agent, advance_to_reloading, reloaded,
  abandon, roll_back, Answers, stage, put_off, maybe_degrade,
}
use mlops_lite.Activation.Store.{
  rolling_back, rolled_back, active, Operation, Phase, degraded, prepared, committing, moved,
  cas_activation, ErrorCode, reloading, Store, same_phase, deferred, unresolvable, pointer_error,
  verify_pending, verify_failed, pointer_write_failed, unreachable,
}

pub cas-Shows :
    (id : ℕ) (expect new : Phase) (code : Option ErrorCode) (bump : Bool) (op : Operation)
    (s : Store)
    → IsRow id op s
    → same_phase op.state expect ≡ true
    → Shows id
        (cas_activation op.operation_id expect new code bump s)
        (moved new code bump op, s.pointer)
unfolding cas_activation
cas-Shows id expect new code bump op s (e, i) h =
    ground (arith, lookup-modify op.operation_id id (moved new code bump) s.rows)

pub or_reread-Shows :
    (id : ℕ) (r : Option Operation × Store) (y : Operation × Option ℕ)
    → Shows id r y
    → Shows id (or_reread id r) y
unfolding or_reread
or_reread-Shows id (some x, s) y h = h
or_reread-Shows id (none, s) (op, p) (e, q, row) = (row.0, q, row)

pub stage-Shows :
    (id : ℕ) (phase : Phase) (f : Operation → Store → Option Operation × Store)
    (g : Option ℕ → Operation × Option ℕ) (r : Option Operation × Store) (op : Operation)
    (p : Option ℕ)
    → ((s : Store) → IsRow id op s → Shows id (f op s) (g s.pointer))
    → same_phase op.state phase ≡ true
    → Shows id r (op, p)
    → Shows id (stage id phase f r) (g p)
unfolding stage or_reread
stage-Shows id phase f g (r, s) op p step same (e, q, row) =
    subst (λ k. Shows id (stage id phase f (r, s)) (g k)) q
      (rw e (rw same (or_reread-Shows id (f op s) (g s.pointer) (step s row))))

pub stage-passes :
    (id : ℕ) (phase : Phase) (f : Operation → Store → Option Operation × Store)
    (r : Option Operation × Store) (op : Operation) (p : Option ℕ)
    → same_phase op.state phase ≡ false
    → Shows id r (op, p)
    → Shows id (stage id phase f r) (op, p)
unfolding stage
stage-passes id phase f (r, s) op p other (e, q, row) = rw e (rw other (refl, q, row))

-- The pointer is written before the step.
abbrev pub pointed : Option ℕ → Store → Store
pointed p s = record s { pointer = p }

module _ (id : ℕ) (op : Operation) where
  pub commit_pointer-Shows :
      (a : Answers) (s : Store)
      → op.state ≡ prepared
      → IsRow id op s
      → Shows id (commit_pointer a op s) (
          if a.pointer_ok
          then (moved committing none false op, some op.target_model)
          else (moved prepared (some pointer_write_failed) true op, unsure a op s.pointer))
  unfolding commit_pointer
  commit_pointer-Shows a s h row = elim (Bool-cases a.pointer_ok) [
    | inl k ↦ simp k (
        cas-Shows id prepared committing none false op (pointed (some op.target_model) s) row
          (rw h refl))
    | inr k ↦ simp k (
        cas-Shows id prepared prepared (some pointer_write_failed) true op
          (pointed (unsure a op s.pointer) s) row (rw h refl))
  ]

  pub roll_back-Shows :
      (a : Answers) (s : Store)
      → op.state ≡ rolling_back
      → IsRow id op s
      → Shows id (roll_back a op s) (rolled a op s.pointer)
  unfolding roll_back
  roll_back-Shows a s h row = elim (Bool-cases a.restore_ok) [
    | inl k ↦ simp k (
        cas-Shows id rolling_back rolled_back none false op (pointed op.previous_model s) row
          (rw h refl))
    | inr k ↦ simp k (
        cas-Shows id rolling_back degraded (some pointer_error) false op
          (pointed (if a.restore_lost then op.previous_model else s.pointer) s) row (rw h refl))
  ]

  pub advance_to_reloading-Shows :
      (s : Store)
      → op.state ≡ committing
      → IsRow id op s
      → Shows id (advance_to_reloading op s) (moved reloading none false op, s.pointer)
  unfolding advance_to_reloading
  advance_to_reloading-Shows s h row =
      cas-Shows id committing reloading none false op s row (rw h refl)

  pub maybe_degrade-Shows :
      (max_attempts : ℕ) (code : ErrorCode) (s : Store)
      → op.state ≡ reloading
      → IsRow id op s
      → Shows id (maybe_degrade max_attempts code op s) (tried max_attempts code op, s.pointer)
  unfolding maybe_degrade
  maybe_degrade-Shows max_attempts code s h row =
      elim (Bool-cases (leb max_attempts (op.attempts + 1))) [
        | inl k ↦ rw k (cas-Shows id op.state degraded (some code) true op s row (rw h refl))
        | inr k ↦ rw k (
            subst
              (λ q.
                Shows id (cas_activation op.operation_id op.state q (some code) true s)
                  (moved reloading (some code) true op, s.pointer))
              (sym h) (cas-Shows id op.state reloading (some code) true op s row (rw h refl)))
      ]

  pub verify-Shows :
      (a : Answers) (s : Store)
      → op.state ≡ reloading
      → IsRow id op s
      → Shows id (verify a op s) (verified a op, s.pointer)
  unfolding verify
  verify-Shows a s h row = elim (Bool-cases (is_target a.resident op)) [
    | inl k ↦ rw k (cas-Shows id reloading active none false op s row (rw h refl))
    | inr k ↦
        rw k (cas-Shows id reloading reloading (some verify_pending) true op s row (rw h refl))
  ]

pub roll_back_if_moved-Shows :
    (id : ℕ) (a : Answers) (r : Option Operation × Store) (op : Operation) (p : Option ℕ)
    → op.state ≡ rolling_back
    → Shows id r (op, p)
    → Shows id (roll_back_if_moved a r) (rolled a op p)
unfolding roll_back_if_moved
roll_back_if_moved-Shows id a (r, s) op p h (e, q, row) =
    subst (λ k. Shows id (roll_back_if_moved a (r, s)) (rolled a op k)) q
      (rw e (roll_back-Shows id op a s h row))

pub abandon-Shows :
    (id : ℕ) (op : Operation) (a : Answers) (s : Store)
    → op.state ≡ reloading
    → IsRow id op s
    → Shows id (abandon a op s) (rolled a op s.pointer)
unfolding abandon
abandon-Shows id op a s h row =
    (roll_back_if_moved-Shows id a _ (moved rolling_back (some unresolvable) false op) s.pointer
      refl (cas-Shows id reloading rolling_back (some unresolvable) false op s row (rw h refl)))

pub give_up_or_stay-Shows :
    (id : ℕ) (op : Operation) (max_attempts : ℕ) (code : ErrorCode) (a : Answers) (u : Bool)
    (s : Store)
    → op.state ≡ reloading
    → IsRow id op s
    → Shows id
        (give_up_or_stay max_attempts code a u op s)
        (unloadable_or_tried max_attempts code u a op s.pointer)
unfolding give_up_or_stay
give_up_or_stay-Shows id op max_attempts code a true s h row = abandon-Shows id op a s h row
give_up_or_stay-Shows id op max_attempts code a false s h row =
    maybe_degrade-Shows id op max_attempts code s h row

pub on_reply-Shows :
    (id : ℕ) (op : Operation) (max_attempts : ℕ) (r : ReloadStatus) (u : Bool) (a : Answers)
    (s : Store)
    → op.state ≡ reloading
    → IsRow id op s
    → Shows id (on_reply max_attempts r u a op s) (asked max_attempts r u a op s.pointer)
unfolding on_reply
on_reply-Shows id op max_attempts identity_differs u a s h row =
    maybe_degrade-Shows id op max_attempts verify_failed s h row
on_reply-Shows id op max_attempts put_off u a s h row =
    give_up_or_stay-Shows id op max_attempts deferred a u s h row
on_reply-Shows id op max_attempts no_agent u a s h row =
    give_up_or_stay-Shows id op max_attempts unreachable a u s h row
on_reply-Shows id op max_attempts loaded u a s h row = verify-Shows id op a s h row
on_reply-Shows id op max_attempts reloaded u a s h row = verify-Shows id op a s h row
on_reply-Shows id op max_attempts swapped u a s h row = verify-Shows id op a s h row
on_reply-Shows id op max_attempts noop u a s h row = verify-Shows id op a s h row
