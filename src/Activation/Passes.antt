-- ===== src/Activation/Passes.antt =====
-- gateway/app/activation.py: many passes of reconcile_all over its one non-terminal row, and the count
-- of attempts.
use mlops_lite.Base.{
  suc, ◌+◌, arith, ap, ◌≡◌, some, ◌≤◌, ℕ, refl, lookup, zero, Bool, Option, none, subst, not, false,
  true, leb, le→leb, inl, Bool-cases, ◌&&◌, inr, choice_cases, ◌∙◌,
}
use mlops_lite.Activation.Outcomes.{Shows, tried, asked, verified, IsRow}
use mlops_lite.Activation.Runs.{run-outcome}
use mlops_lite.Activation.Service.{
  run, loaded, swapped, identity_differs, Answers, put_off, reloaded, no_agent, ReloadStatus, noop,
  is_target,
}
use mlops_lite.Activation.Store.{
  verify_pending, verify_failed, degraded, unreachable, ErrorCode, deferred, Phase, Store,
  Operation, reloading, moved,
}

-- The n passes, the last with the answers at 0.
unfoldable pub passes :
    (max_attempts : ℕ) → (preempt : Bool) → (n : ℕ) → (ℕ → Answers) → ℕ → Store → Store
passes max_attempts preempt zero answers id s = s
passes max_attempts preempt (suc n) answers id s =
    let (_, s') = run max_attempts preempt (answers n) id s in
    passes max_attempts preempt n answers id s'

abbrev pub phase_of : Option Operation → Option Phase
phase_of none = none
phase_of (some op) = some op.state

abbrev pub attempts_of : Option Operation → Option ℕ
attempts_of none = none
attempts_of (some op) = some op.attempts

-- A reply that carries nothing out, and does not say that the target cannot be loaded.
abbrev pub is_refusal : ReloadStatus → Bool → Bool
is_refusal identity_differs u = true
is_refusal put_off u = not u
is_refusal no_agent u = not u
is_refusal _ u = false

abbrev pub is_done : ReloadStatus → Bool
is_done loaded = true
is_done reloaded = true
is_done swapped = true
is_done noop = true
is_done _ = false

asked-refusal :
    (max_attempts : ℕ) (r : ReloadStatus) (u : Bool) (a : Answers) (op : Operation) (p : Option ℕ)
    → is_refusal r u ≡ true
    → (code : ErrorCode) × (asked max_attempts r u a op p ≡ (tried max_attempts code op, p))
asked-refusal max_attempts identity_differs u a op p h = (verify_failed, refl)
asked-refusal max_attempts put_off false a op p h = (deferred, refl)
asked-refusal max_attempts put_off true a op p h = ground arith
asked-refusal max_attempts no_agent false a op p h = (unreachable, refl)
asked-refusal max_attempts no_agent true a op p h = ground arith
asked-refusal max_attempts loaded u a op p h = ground arith
asked-refusal max_attempts reloaded u a op p h = ground arith
asked-refusal max_attempts swapped u a op p h = ground arith
asked-refusal max_attempts noop u a op p h = ground arith

asked-done :
    (max_attempts : ℕ) (r : ReloadStatus) (u : Bool) (a : Answers) (op : Operation) (p : Option ℕ)
    → is_done r ≡ true
    → asked max_attempts r u a op p ≡ (verified a op, p)
asked-done max_attempts identity_differs u a op p h = ground arith
asked-done max_attempts put_off u a op p h = ground arith
asked-done max_attempts no_agent u a op p h = ground arith
asked-done max_attempts loaded u a op p h = refl
asked-done max_attempts reloaded u a op p h = refl
asked-done max_attempts swapped u a op p h = refl
asked-done max_attempts noop u a op p h = refl

asked-unverified :
    (max_attempts : ℕ) (r : ReloadStatus) (u : Bool) (a : Answers) (op : Operation) (p : Option ℕ)
    → (is_done r && not (is_target a.resident op)) ≡ true
    → asked max_attempts r u a op p ≡ (moved reloading (some verify_pending) true op, p)
asked-unverified max_attempts r u a op p h =
    asked-done max_attempts r u a op p (ground arith)
    ∙ ap (λ y. (y, p))
        (choice_cases {A = Operation} (λ y. y ≡ moved reloading (some verify_pending) true op)
          (is_target a.resident op) (λ k. ground arith) (λ k. refl))

module _ (max_attempts : ℕ) (preempt : Bool) (answers : ℕ → Answers) (id : ℕ) where
  passes-degraded :
      (n : ℕ) (op : Operation) (s : Store)
      → op.state ≡ degraded
      → IsRow id op s
      → phase_of (lookup id (passes max_attempts preempt n answers id s).rows) ≡ some degraded
  unfolding passes
  passes-degraded zero op s h row = rw row.0 (ap some h)
  passes-degraded (suc n) op s h row =
      passes-degraded n op _ h
        (run-outcome id max_attempts preempt (answers n) degraded op s h row).2

  abbrev Refused : Type 0
  Refused =
      (i : ℕ)
      → is_refusal ((answers i).reply preempt).status ((answers i).reply preempt).is_unresolvable
        ≡ true

  tried-Shows :
      Refused
      → (n : ℕ) (op : Operation) (s : Store) → op.state ≡ reloading
      → IsRow id op s
      → (code : ErrorCode) × Shows id
          (run max_attempts preempt (answers n) id s)
          (tried max_attempts code op, s.pointer)
  tried-Shows all n op s h row =
      let (code, e) = asked-refusal max_attempts _ _ (answers n) op s.pointer (all n) in
      (
        code,
        subst (Shows id (run max_attempts preempt (answers n) id s)) e
            (run-outcome id max_attempts preempt (answers n) reloading op s h row),
      )

  refused-degraded :
      Refused
      → (n : ℕ) (op : Operation) (s : Store) → op.state ≡ reloading
      → IsRow id op s
      → max_attempts ≤ op.attempts + suc n
      → phase_of (lookup id (passes max_attempts preempt (suc n) answers id s).rows) ≡ some degraded
  unfolding passes
  refused-degraded all zero op s h row bound =
      let (code, shown) = tried-Shows all zero op s h row in
      rw shown.2.0 (rw (le→leb max_attempts (op.attempts + 1) bound) refl)
  refused-degraded all (suc n) op s h row bound =
      let (code, shown) = tried-Shows all (suc n) op s h row in
      elim (Bool-cases (leb max_attempts (op.attempts + 1))) [
        | inl k ↦ passes-degraded (suc n) (tried max_attempts code op) _ (rw k refl) shown.2
        | inr k ↦
            refused-degraded all n (tried max_attempts code op) _ (rw k refl) shown.2 (omega arith)
      ]

  abbrev Unverified : Operation → Type 0
  Unverified op =
      (i : ℕ)
      → (is_done ((answers i).reply preempt).status && not (is_target (answers i).resident op))
        ≡ true

  Unverified-reloading :
      (n : ℕ) (op : Operation) (s : Store)
      → Unverified op
      → op.state ≡ reloading
      → IsRow id op s
      → (phase_of (lookup id (passes max_attempts preempt n answers id s).rows) ≡ some reloading)
        × (attempts_of (lookup id (passes max_attempts preempt n answers id s).rows)
            ≡ some (op.attempts + n))
  unfolding passes
  Unverified-reloading zero op s all h row = rw row.0 (ap some h, ap some (omega arith))
  Unverified-reloading (suc n) op s all h row =
      let shown = run-outcome id max_attempts preempt (answers n) reloading op s h row in
      let e =
        asked-unverified max_attempts ((answers n).reply preempt).status
          ((answers n).reply preempt).is_unresolvable (answers n) op s.pointer (all n) in
      let after = subst (Shows id (run max_attempts preempt (answers n) id s)) e shown in
      let (p, t) =
        Unverified-reloading n (moved reloading (some verify_pending) true op) _ all refl after.2 in
      (p, t ∙ ap some (omega arith))

-- A pass that gets nothing done counts as an attempt: if every answer puts the reload off, cannot
-- reach the agent or finds another model resident, an operation in `reloading` is `degraded` at the
-- latest after the pass that makes up MAX_ATTEMPTS, and stays so; no operation is retried for ever.
pub passes-refused :
    (max_attempts : ℕ) (preempt : Bool) (answers : ℕ → Answers) (id n : ℕ) (op : Operation)
    (s : Store)
    → ((i : ℕ)
        → is_refusal ((answers i).reply preempt).status ((answers i).reply preempt).is_unresolvable
          ≡ true)
    → op.state ≡ reloading
    → IsRow id op s
    → max_attempts ≤ op.attempts + suc n
    → phase_of (lookup id (passes max_attempts preempt (suc n) answers id s).rows) ≡ some degraded
passes-refused max_attempts preempt answers id n op s all h row bound =
    refused-degraded max_attempts preempt answers id all n op s h row bound

-- A reload that the agent says is done, while it names another resident model, is not bounded so: the
-- operation is in `reloading` after any number of passes, however far past MAX_ATTEMPTS, each counted.
pub passes-unverified :
    (max_attempts : ℕ) (preempt : Bool) (answers : ℕ → Answers) (id n : ℕ) (op : Operation)
    (s : Store)
    → ((i : ℕ)
        → (is_done ((answers i).reply preempt).status && not (is_target (answers i).resident op))
          ≡ true)
    → op.state ≡ reloading
    → IsRow id op s
    → (phase_of (lookup id (passes max_attempts preempt n answers id s).rows) ≡ some reloading)
      × (attempts_of (lookup id (passes max_attempts preempt n answers id s).rows)
          ≡ some (op.attempts + n))
passes-unverified max_attempts preempt answers id n op s all h row =
    Unverified-reloading max_attempts preempt answers id n op s all h row
