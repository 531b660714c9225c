-- ===== src/Activation/Single.antt =====
-- platformlib/storeimpl/activations.py: the count of non-terminal rows, through the steps of run.
use mlops_lite.Base.{
  modify, ◌∷◌, none, total, Option-cases, ℕ, true, inl, [], Bool, Dict, choice_cases, some,
  if◌then◌else◌, arith, inr, lookup, ◌≡◌, ◌≤◌, Option, refl, lookup-modify, leb, false, ◌+◌,
}
use mlops_lite.Activation.Service.{
  run, loaded, no_agent, is_target, reload_and_verify, on_reply, noop, roll_back_if_moved,
  give_up_or_stay, reloaded, stage, maybe_degrade, advance_to_reloading, roll_back,
  identity_differs, commit_pointer, Answers, put_off, verify, before_reload, ReloadStatus,
  or_reread, abandon, swapped,
}
use mlops_lite.Activation.Store.{
  cas_activation, is_nonterminal, ErrorCode, Phase, Store, Operation, same_phase, moved,
  rolling_back, rolled_back, pointer_write_failed, pointer_error, active, verify_pending, prepared,
  committing, reloading, degraded, unresolvable,
}

abbrev pub weight : Operation → ℕ
weight op = if is_nonterminal op.state then 1 else 0

unfoldable pub IsUnique : Dict Operation → Type 0
IsUnique [] = true ≡ true
IsUnique ((id, op) ∷ rows) = (lookup id rows ≡ none) × IsUnique rows

-- Each id names one row, and one row at most is not terminal.
abbrev pub IsSingle : Store → Type 0
IsSingle s = IsUnique s.rows × (total weight s.rows ≤ 1)

module _ (id : ℕ) (new : Phase) (code : Option ErrorCode) (bump : Bool) where
  total-modify_absent :
      (rows : Dict Operation)
      → lookup id rows ≡ none
      → total weight (modify id (moved new code bump) rows) ≡ total weight rows
  unfolding total modify lookup
  total-modify_absent [] h = refl
  total-modify_absent ((j, op) ∷ rows) h = ground (arith, total-modify_absent rows)

  total-modify_le :
      (rows : Dict Operation) (op : Operation)
      → IsUnique rows
      → lookup id rows ≡ some op
      → is_nonterminal op.state ≡ true
      → total weight (modify id (moved new code bump) rows) ≤ total weight rows
  unfolding total modify lookup IsUnique
  total-modify_le [] op u e t = ground arith
  total-modify_le ((j, x) ∷ rows) op (n, u) e t =
      ground (arith, total-modify_absent rows, total-modify_le rows op u)

  modify-IsUnique :
      (rows : Dict Operation) → IsUnique rows → IsUnique (modify id (moved new code bump) rows)
  unfolding modify IsUnique
  modify-IsUnique [] u = u
  modify-IsUnique ((j, op) ∷ rows) (n, u) =
      (ground (arith, lookup-modify id j (moved new code bump) rows), modify-IsUnique rows u)

  cas-IsSingle :
      (expect : Phase) (s : Store)
      → is_nonterminal expect ≡ true
      → IsSingle s
      → IsSingle (cas_activation id expect new code bump s).1
  unfolding cas_activation
  cas-IsSingle expect s t (u, c) = elim (Option-cases (lookup id s.rows)) [
    | inl e ↦ rw (e, cas_activation) (u, c)
    | inr (op, e) ↦
        rw (e, cas_activation)
          (choice_cases {A = Option Operation × Store} (λ y. IsSingle y.1)
            (same_phase op.state expect)
            (λ k. (
              modify-IsUnique s.rows u,
              omega (arith, total-modify_le s.rows op u e (ground arith)),
            ))
            (λ k. (u, c)))
  ]

or_reread-IsSingle :
    (id : ℕ) (r : Option Operation × Store) → IsSingle r.1 → IsSingle (or_reread id r).1
unfolding or_reread
or_reread-IsSingle id (none, s) v = v
or_reread-IsSingle id (some op, s) v = v

stage-IsSingle :
    (id : ℕ) (phase : Phase) (f : Operation → Store → Option Operation × Store)
    (r : Option Operation × Store)
    → ((op : Operation) (s : Store)
        → same_phase op.state phase ≡ true
        → IsSingle s
        → IsSingle (f op s).1)
    → IsSingle r.1
    → IsSingle (stage id phase f r).1
unfolding stage
stage-IsSingle id phase f (none, s) step v = v
stage-IsSingle id phase f (some op, s) step v =
    choice_cases {A = Option Operation × Store} (λ y. IsSingle y.1) (same_phase op.state phase)
      (λ k. or_reread-IsSingle id (f op s) (step op s k v)) (λ k. v)

commit_pointer-IsSingle :
    (a : Answers) (op : Operation) (s : Store) → IsSingle s → IsSingle (commit_pointer a op s).1
unfolding commit_pointer
commit_pointer-IsSingle a op s v =
    choice_cases {A = Option Operation × Store} (λ y. IsSingle y.1) a.pointer_ok
      (λ k.
        cas-IsSingle op.operation_id committing none false prepared
          (record s { pointer = some op.target_model }) refl v)
      (λ k.
        cas-IsSingle op.operation_id prepared (some pointer_write_failed) true prepared
          (record s { pointer = if a.pointer_lost then some op.target_model else s.pointer }) refl
          v)

roll_back-IsSingle :
    (a : Answers) (op : Operation) (s : Store) → IsSingle s → IsSingle (roll_back a op s).1
unfolding roll_back
roll_back-IsSingle a op s v =
    choice_cases {A = Option Operation × Store} (λ y. IsSingle y.1) a.restore_ok
      (λ k.
        cas-IsSingle op.operation_id rolled_back none false rolling_back
          (record s { pointer = op.previous_model }) refl v)
      (λ k.
        cas-IsSingle op.operation_id degraded (some pointer_error) false rolling_back
          (record s { pointer = if a.restore_lost then op.previous_model else s.pointer }) refl v)

maybe_degrade-IsSingle :
    (max_attempts : ℕ) (code : ErrorCode) (op : Operation) (s : Store)
    → is_nonterminal op.state ≡ true
    → IsSingle s
    → IsSingle (maybe_degrade max_attempts code op s).1
unfolding maybe_degrade
maybe_degrade-IsSingle max_attempts code op s t v =
    choice_cases {A = Option Operation × Store} (λ y. IsSingle y.1)
      (leb max_attempts (op.attempts + 1))
      (λ k. cas-IsSingle op.operation_id degraded (some code) true op.state s t v)
      (λ k. cas-IsSingle op.operation_id op.state (some code) true op.state s t v)

verify-IsSingle :
    (a : Answers) (op : Operation) (s : Store) → IsSingle s → IsSingle (verify a op s).1
unfolding verify
verify-IsSingle a op s v =
    choice_cases {A = Option Operation × Store} (λ y. IsSingle y.1) (is_target a.resident op)
      (λ k. cas-IsSingle op.operation_id active none false reloading s refl v)
      (λ k. cas-IsSingle op.operation_id reloading (some verify_pending) true reloading s refl v)

roll_back_if_moved-IsSingle :
    (a : Answers) (r : Option Operation × Store)
    → IsSingle r.1
    → IsSingle (roll_back_if_moved a r).1
unfolding roll_back_if_moved
roll_back_if_moved-IsSingle a (none, s) v = v
roll_back_if_moved-IsSingle a (some op, s) v = roll_back-IsSingle a op s v

give_up_or_stay-IsSingle :
    (max_attempts : ℕ) (code : ErrorCode) (a : Answers) (u : Bool) (op : Operation) (s : Store)
    → is_nonterminal op.state ≡ true
    → IsSingle s
    → IsSingle (give_up_or_stay max_attempts code a u op s).1
unfolding give_up_or_stay abandon
give_up_or_stay-IsSingle max_attempts code a true op s t v =
    roll_back_if_moved-IsSingle a _
      (cas-IsSingle op.operation_id rolling_back (some unresolvable) false reloading s refl v)
give_up_or_stay-IsSingle max_attempts code a false op s t v =
    maybe_degrade-IsSingle max_attempts code op s t v

on_reply-IsSingle :
    (max_attempts : ℕ) (r : ReloadStatus) (u : Bool) (a : Answers) (op : Operation) (s : Store)
    → is_nonterminal op.state ≡ true
    → IsSingle s
    → IsSingle (on_reply max_attempts r u a op s).1
unfolding on_reply
on_reply-IsSingle max_attempts identity_differs u a op s t v =
    maybe_degrade-IsSingle max_attempts _ op s t v
on_reply-IsSingle max_attempts put_off u a op s t v =
    give_up_or_stay-IsSingle max_attempts _ a u op s t v
on_reply-IsSingle max_attempts no_agent u a op s t v =
    give_up_or_stay-IsSingle max_attempts _ a u op s t v
on_reply-IsSingle max_attempts loaded u a op s t v = verify-IsSingle a op s v
on_reply-IsSingle max_attempts reloaded u a op s t v = verify-IsSingle a op s v
on_reply-IsSingle max_attempts swapped u a op s t v = verify-IsSingle a op s v
on_reply-IsSingle max_attempts noop u a op s t v = verify-IsSingle a op s v

pub run-IsSingle :
    (max_attempts : ℕ) (preempt : Bool) (a : Answers) (id : ℕ) (s : Store)
    → IsSingle s
    → IsSingle (run max_attempts preempt a id s).1
unfolding run before_reload reload_and_verify advance_to_reloading
run-IsSingle max_attempts preempt a id s v =
    stage-IsSingle id rolling_back _ _ (λ op s k. roll_back-IsSingle a op s)
      (stage-IsSingle id reloading _ _
        (λ op s k. on_reply-IsSingle max_attempts _ _ a op s (ground arith))
        (stage-IsSingle id committing _ _
          (λ op s k. cas-IsSingle op.operation_id reloading none false committing s refl)
          (stage-IsSingle id prepared _ _ (λ op s k. commit_pointer-IsSingle a op s) v)))
