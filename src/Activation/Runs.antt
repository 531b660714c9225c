-- ===== src/Activation/Runs.antt =====
-- gateway/app/activation.py, ActivationService.run as a whole, on its row and the pointer.
use mlops_lite.Base.{
  refl, none, arith, Option, ℕ, false, choice_cases, some, true, if◌then◌else◌, Bool, subst, ◌≡◌,
}
use mlops_lite.Activation.Outcomes.{IsRow, Shows, rolled, outcome_from, asked, chosen, unsure}
use mlops_lite.Activation.Service.{
  run, loaded, ReloadStatus, commit_pointer, swapped, noop, identity_differs, no_agent,
  advance_to_reloading, before_reload, reloaded, reload_and_verify, roll_back, Answers, stage,
  put_off,
}
use mlops_lite.Activation.Steps.{
  commit_pointer-Shows, stage-Shows, advance_to_reloading-Shows, roll_back-Shows, on_reply-Shows,
  stage-passes,
}
use mlops_lite.Activation.Store.{
  rolling_back, rolled_back, active, Operation, Phase, degraded, prepared, committing, moved,
  is_nonterminal, reloading, Store, same_phase, pointer_write_failed,
}

asked-phase :
    (max_attempts : ℕ) (r : ReloadStatus) (u : Bool) (a : Answers) (op : Operation) (p : Option ℕ)
    → same_phase (asked max_attempts r u a op p).0.state rolling_back ≡ false
asked-phase max_attempts identity_differs u a op p = ground arith
asked-phase max_attempts put_off u a op p = ground arith
asked-phase max_attempts no_agent u a op p = ground arith
asked-phase max_attempts loaded u a op p = ground arith
asked-phase max_attempts reloaded u a op p = ground arith
asked-phase max_attempts swapped u a op p = ground arith
asked-phase max_attempts noop u a op p = ground arith

-- The way to the reload does not change what comes of it.
pub asked-moved :
    (max_attempts : ℕ) (r : ReloadStatus) (u : Bool) (a : Answers) (q : Phase) (op : Operation)
    (p : Option ℕ)
    → asked max_attempts r u a (moved q none false op) p ≡ asked max_attempts r u a op p
asked-moved max_attempts identity_differs u a q op p = refl
asked-moved max_attempts put_off u a q op p = refl
asked-moved max_attempts no_agent u a q op p = refl
asked-moved max_attempts loaded u a q op p = refl
asked-moved max_attempts reloaded u a q op p = refl
asked-moved max_attempts swapped u a q op p = refl
asked-moved max_attempts noop u a q op p = refl

module _ (id max_attempts : ℕ) (preempt : Bool) (a : Answers) where
  abbrev last_stages : Option Operation × Store → Option Operation × Store
  last_stages r =
      stage id rolling_back (roll_back a)
        (stage id reloading (reload_and_verify max_attempts preempt a) r)

  reloading-Shows :
      (r : Option Operation × Store) (op : Operation) (p : Option ℕ)
      → op.state ≡ reloading
      → Shows id r (op, p)
      → Shows id
          (last_stages r)
          (asked max_attempts (a.reply preempt).status (a.reply preempt).is_unresolvable a op p)
  unfolding reload_and_verify
  reloading-Shows r op p h shown =
      stage-passes id rolling_back (roll_back a) _ _ _
        (asked-phase max_attempts (a.reply preempt).status (a.reply preempt).is_unresolvable a op p)
        (stage-Shows id reloading (reload_and_verify max_attempts preempt a)
          (asked max_attempts (a.reply preempt).status (a.reply preempt).is_unresolvable a op) r op
          p
          (λ s row.
            on_reply-Shows id op max_attempts (a.reply preempt).status
              (a.reply preempt).is_unresolvable a s h row)
          (rw h refl) shown)

  committing-Shows :
      (r : Option Operation × Store) (op : Operation) (p : Option ℕ)
      → op.state ≡ committing
      → Shows id r (op, p)
      → Shows id
          (last_stages (stage id committing advance_to_reloading r))
          (asked max_attempts (a.reply preempt).status (a.reply preempt).is_unresolvable a op p)
  committing-Shows r op p h shown =
      subst (Shows id (last_stages (stage id committing advance_to_reloading r)))
        (asked-moved max_attempts _ _ a reloading op p)
        (reloading-Shows (stage id committing advance_to_reloading r)
          (moved reloading none false op) p refl
          (stage-Shows id committing advance_to_reloading (λ k. (moved reloading none false op, k))
            r op p (λ s row. advance_to_reloading-Shows id op s h row) (rw h refl) shown))

  -- The stages of a run that do not fit the operation's state pass it on.
  passed :
      (f : Operation → Store → Option Operation × Store) (phase : Phase)
      (r : Option Operation × Store) (op : Operation) (p : Option ℕ)
      → same_phase op.state phase ≡ false
      → Shows id r (op, p)
      → Shows id (stage id phase f r) (op, p)
  passed f phase r op p = stage-passes id phase f r op p

  -- A run whose first stage wrote the pointer, or could not.
  written :
      (op : Operation) (p : Option ℕ) (r : Option Operation × Store)
      → Shows id r (chosen a op p a.pointer_ok)
      → Shows id
          (last_stages (stage id committing advance_to_reloading r))
          (outcome_from prepared max_attempts preempt a op p)
  written op p r shown =
      choice_cases {A = Operation × Option ℕ}
        (Shows id (last_stages (stage id committing advance_to_reloading r))) a.pointer_ok
        (λ k.
          subst (Shows id (last_stages (stage id committing advance_to_reloading r)))
            (asked-moved max_attempts _ _ a committing op _)
            (committing-Shows r (moved committing none false op) _ refl
              (subst (λ b. Shows id r (chosen a op p b)) k shown)))
        (λ k. passed (roll_back a) rolling_back _ _ _ refl (
          passed (reload_and_verify max_attempts preempt a) reloading _ _ _ refl (
            passed advance_to_reloading committing r _ _ refl
              (subst (λ b. Shows id r (chosen a op p b)) k shown))))

  passed_all :
      (op : Operation) (s : Store)
      → same_phase op.state prepared ≡ false
      → same_phase op.state committing ≡ false
      → same_phase op.state reloading ≡ false
      → IsRow id op s
      → Shows id
          (stage id reloading (reload_and_verify max_attempts preempt a) (before_reload a id s))
          (op, s.pointer)
  unfolding before_reload
  passed_all op s p c r row =
      passed (reload_and_verify max_attempts preempt a) reloading _ op s.pointer r (
        passed advance_to_reloading committing _ op s.pointer c
          (passed (commit_pointer a) prepared _ op s.pointer p (row.0, refl, row)))

  idle :
      (op : Operation) (s : Store)
      → is_nonterminal op.state ≡ false
      → IsRow id op s
      → Shows id (run max_attempts preempt a id s) (op, s.pointer)
  unfolding run
  idle op s t row =
      passed (roll_back a) rolling_back _ op s.pointer (ground arith)
        (passed_all op s (ground arith) (ground arith) (ground arith) row)

  pub run-outcome :
      (q : Phase) (op : Operation) (s : Store)
      → op.state ≡ q
      → IsRow id op s
      → Shows id
          (run max_attempts preempt a id s)
          (outcome_from q max_attempts preempt a op s.pointer)
  unfolding run before_reload
  run-outcome prepared op s h row = written op s.pointer _ (
      stage-Shows id prepared (commit_pointer a)
        (λ k.
          if a.pointer_ok
          then (moved committing none false op, some op.target_model)
          else (moved prepared (some pointer_write_failed) true op, unsure a op k))
        _ op s.pointer (λ s' row'. commit_pointer-Shows id op a s' h row') (rw h refl)
        (row.0, refl, row))
  run-outcome committing op s h row =
      committing-Shows _ op s.pointer h
        (passed (commit_pointer a) prepared _ op s.pointer (rw h refl) (row.0, refl, row))
  run-outcome reloading op s h row = reloading-Shows _ op s.pointer h (
      passed advance_to_reloading committing _ op s.pointer (rw h refl)
        (passed (commit_pointer a) prepared _ op s.pointer (rw h refl) (row.0, refl, row)))
  run-outcome rolling_back op s h row =
      stage-Shows id rolling_back (roll_back a) (rolled a op) _ op s.pointer
        (λ s' row'. roll_back-Shows id op a s' h row') (rw h refl)
        (passed_all op s (rw h refl) (rw h refl) (rw h refl) row)
  run-outcome active op s h row = idle op s (rw h refl) row
  run-outcome rolled_back op s h row = idle op s (rw h refl) row
  run-outcome degraded op s h row = idle op s (rw h refl) row

-- Whatever the pointer's writes do, one that is made and then raises included, and whatever the agent
-- answers, a run does to the operation's row and to the
-- pointer what `outcome_from` reads off the operation alone, and returns the row as it then is.
pub run_lem :
    (id max_attempts : ℕ) (preempt : Bool) (a : Answers) (op : Operation) (s : Store)
    → IsRow id op s
    → Shows id
        (run max_attempts preempt a id s)
        (outcome_from op.state max_attempts preempt a op s.pointer)
run_lem id max_attempts preempt a op s row =
    run-outcome id max_attempts preempt a op.state op s refl row
