-- ===== src/Activation/Recovery.antt =====
-- gateway/app/activation.py, ActivationService.run: the meaning of the states that it returns, and runs
-- that resume after a crash.
use mlops_lite.Base.{
  if◌then◌else◌, Bool, false, true, arith, Option, refl, none, ℕ, some, ◌≡◌, subst, sym,
  choice_cases, ◌∙◌, ◌⊎◌,
}
use mlops_lite.Activation.Outcomes.{IsRow, asked, outcome_from, Shows, chosen, unsure}
use mlops_lite.Activation.Runs.{run_lem, run-outcome, asked-moved}
use mlops_lite.Activation.Service.{
  run, loaded, Answers, ReloadStatus, swapped, stage, reloaded, is_target, noop, put_off,
  commit_pointer, before_reload, no_agent, identity_differs, advance_to_reloading,
}
use mlops_lite.Activation.Steps.{
  commit_pointer-Shows, stage-Shows, advance_to_reloading-Shows, pointed,
}
use mlops_lite.Activation.Store.{
  rolling_back, rolled_back, Phase, same_phase, get_activation, active, Store, committing, prepared,
  reloading, Operation, degraded, is_nonterminal, moved,
}

-- What the state of a record says of the run that returned it, and of the pointer then.
abbrev pub IsFounded : Phase → Answers → Operation → (before after : Option ℕ) → Type 0
IsFounded prepared a op before after = (a.pointer_ok ≡ false) × (after ≡ unsure a op before)
IsFounded committing a op before after = true ≡ false
IsFounded reloading a op before after =
    after ≡ (if same_phase op.state prepared then some op.target_model else before)
IsFounded rolling_back a op before after = true ≡ false
IsFounded active a op before after =
    (is_target a.resident op ≡ true)
    × (after ≡ (if same_phase op.state prepared then some op.target_model else before))
IsFounded rolled_back a op before after = (a.restore_ok ≡ true) × (after ≡ op.previous_model)
IsFounded degraded a op before after =
    (after ≡ (if same_phase op.state prepared then some op.target_model else before))
    ⊎ ((a.restore_ok ≡ false) × (a.restore_lost ≡ true) × (after ≡ op.previous_model))

asked-IsFounded :
    (max_attempts : ℕ) (r : ReloadStatus) (u : Bool) (a : Answers) (op : Operation)
    (before p : Option ℕ)
    → p ≡ (if same_phase op.state prepared then some op.target_model else before)
    → let (op', after) = asked max_attempts r u a op p in IsFounded op'.state a op before after
asked-IsFounded max_attempts identity_differs u a op before p h = ground arith
asked-IsFounded max_attempts put_off u a op before p h = ground arith
asked-IsFounded max_attempts no_agent u a op before p h = ground arith
asked-IsFounded max_attempts loaded u a op before p h = ground arith
asked-IsFounded max_attempts reloaded u a op before p h = ground arith
asked-IsFounded max_attempts swapped u a op before p h = ground arith
asked-IsFounded max_attempts noop u a op before p h = ground arith

outcome_from-IsFounded :
    (q : Phase) (max_attempts : ℕ) (preempt : Bool) (a : Answers) (op : Operation) (p : Option ℕ)
    → op.state ≡ q
    → is_nonterminal q ≡ true
    → let (op', after) = outcome_from q max_attempts preempt a op p in
      IsFounded op'.state a op p after
outcome_from-IsFounded prepared max_attempts preempt a op p h t =
    choice_cases {A = Operation × Option ℕ} (λ y. IsFounded y.0.state a op p y.1) a.pointer_ok
      (λ k. asked-IsFounded max_attempts _ _ a op p _ (rw h refl)) (λ k. (k, refl))
outcome_from-IsFounded committing max_attempts preempt a op p h t =
    asked-IsFounded max_attempts _ _ a op p p (rw h refl)
outcome_from-IsFounded reloading max_attempts preempt a op p h t =
    asked-IsFounded max_attempts _ _ a op p p (rw h refl)
outcome_from-IsFounded rolling_back max_attempts preempt a op p h t = ground arith
outcome_from-IsFounded active max_attempts preempt a op p h t = ground arith
outcome_from-IsFounded rolled_back max_attempts preempt a op p h t = ground arith
outcome_from-IsFounded degraded max_attempts preempt a op p h t = ground arith

-- A run returns a record, of which P holds with the pointer that it leaves.
abbrev pub Returns : (Operation → Option ℕ → Type 0) → Option Operation × Store → Type 0
Returns P (none, s) = true ≡ false
Returns P (some op, s) = P op s.pointer

Shows-Returns :
    (P : Operation → Option ℕ → Type 0) (id : ℕ) (r : Option Operation × Store)
    (y : Operation × Option ℕ)
    → Shows id r y
    → P y.0 y.1
    → Returns P r
Shows-Returns P id (r, s) (op, p) (e, q, row) h = rw e (subst (P op) (sym q) h)

-- A run of an operation that is under way returns a record, and leaves it founded: `active` only when
-- the agent named just the target as resident, `rolled_back` only with the previous model behind the
-- pointer again, `prepared` only when the write of the pointer raised, and never halfway through. The
-- pointer is then as it was, unless the write was made before it raised; and so it names the target or
-- is as it was after `degraded`, unless a restore that raised was made.
pub run-IsFounded :
    (id max_attempts : ℕ) (preempt : Bool) (a : Answers) (op : Operation) (s : Store)
    → IsRow id op s
    → is_nonterminal op.state ≡ true
    → Returns (λ op' p. IsFounded op'.state a op s.pointer p) (run max_attempts preempt a id s)
run-IsFounded id max_attempts preempt a op s row t =
    Shows-Returns (λ op' p. IsFounded op'.state a op s.pointer p) id _ _
      (run_lem id max_attempts preempt a op s row)
      (outcome_from-IsFounded op.state max_attempts preempt a op s.pointer refl t)

-- Where a process that drives an operation may be stopped before its reload.
pub data Crash : Type 0 where
  after_pointer after_commit after_advance : Crash

unfoldable pub crashed : Crash → Answers → ℕ → Operation → Store → Store
crashed after_pointer a id op s = record s { pointer = some op.target_model }
crashed after_commit a id op s =
    let (_, s') = stage id prepared (commit_pointer a) (get_activation id s, s) in s'
crashed after_advance a id op s = let (_, s') = before_reload a id s in s'

-- What two runs return and leave behind the pointer is the same.
abbrev pub SameEnd : Option Operation × Store → Option Operation × Store → Type 0
SameEnd (r, s) (r', s') = (r ≡ r') × (s.pointer ≡ s'.pointer)

Shows-SameEnd :
    (id : ℕ) (r r' : Option Operation × Store) (y y' : Operation × Option ℕ)
    → Shows id r y
    → Shows id r' y'
    → y ≡ y'
    → SameEnd r r'
Shows-SameEnd id (r, s) (r', s') y y' (e, q, _) (e', q', _) h = (cc, cc)

module _ (id max_attempts : ℕ) (preempt : Bool) (a : Answers) (op : Operation) (s : Store)
    (row : IsRow id op s) (h : op.state ≡ prepared) (k : a.pointer_ok ≡ true) where
  committed-Shows :
      Shows id
        (stage id prepared (commit_pointer a) (get_activation id s, s))
        (moved committing none false op, some op.target_model)
  committed-Shows =
      subst
        (λ b.
          Shows id (stage id prepared (commit_pointer a) (get_activation id s, s))
            (chosen a op s.pointer b))
        k
        (stage-Shows id prepared (commit_pointer a) (λ p. chosen a op p a.pointer_ok) _ op s.pointer
          (λ s' row'. commit_pointer-Shows id op a s' h row') (rw h refl) (row.0, refl, row))

  advanced-Shows :
      Shows id (before_reload a id s) (moved reloading none false op, some op.target_model)
  unfolding before_reload
  advanced-Shows =
      stage-Shows id committing advance_to_reloading (λ p. (moved reloading none false op, p)) _
        (moved committing none false op) (some op.target_model)
        (λ s' row'. advance_to_reloading-Shows id (moved committing none false op) s' refl row')
        refl committed-Shows

  -- What an undisturbed run makes of the operation.
  undisturbed :
      outcome_from prepared max_attempts preempt a op s.pointer
      ≡ asked max_attempts
          (a.reply preempt).status
          (a.reply preempt).is_unresolvable
          a
          op
          (some op.target_model)
  undisturbed =
      choice_cases {A = Operation × Option ℕ}
        (λ y.
          y
          ≡ asked max_attempts (a.reply preempt).status (a.reply preempt).is_unresolvable a op
              (some op.target_model))
        a.pointer_ok (λ _. refl) (λ w. ground arith)

run-Shows :
    (id max_attempts : ℕ) (preempt : Bool) (a : Answers) (q : Phase) (r : Option Operation × Store)
    (op : Operation) (p : Option ℕ)
    → op.state ≡ q
    → Shows id r (op, p)
    → Shows id (run max_attempts preempt a id r.1) (outcome_from q max_attempts preempt a op p)
run-Shows id max_attempts preempt a q (r, s) op p h (e, t, row) =
    subst
      (λ k. Shows id (run max_attempts preempt a id s) (outcome_from q max_attempts preempt a op k))
      t (run-outcome id max_attempts preempt a q op s h row)

-- A process that drives an operation may die after writing the pointer, after either step before the
-- reload: the run that resumes it ends as the undisturbed run would have.
pub run-crashed :
    (c : Crash) (id max_attempts : ℕ) (preempt : Bool) (a : Answers) (op : Operation) (s : Store)
    → IsRow id op s
    → op.state ≡ prepared
    → a.pointer_ok ≡ true
    → SameEnd
        (run max_attempts preempt a id (crashed c a id op s))
        (run max_attempts preempt a id s)
unfolding crashed before_reload
run-crashed after_pointer id max_attempts preempt a op s row h k =
    Shows-SameEnd id _ _ _ _
      (run-outcome id max_attempts preempt a prepared op (pointed (some op.target_model) s) h row)
      (run-outcome id max_attempts preempt a prepared op s h row)
      (undisturbed id max_attempts preempt a op (pointed (some op.target_model) s) row h k
        ∙ sym (undisturbed id max_attempts preempt a op s row h k))
run-crashed after_commit id max_attempts preempt a op s row h k =
    Shows-SameEnd id _ _ _ _
      (run-Shows id max_attempts preempt a committing _ (moved committing none false op)
        (some op.target_model) refl (committed-Shows id max_attempts preempt a op s row h k))
      (run-outcome id max_attempts preempt a prepared op s h row)
      (asked-moved max_attempts _ _ a committing op (some op.target_model)
        ∙ sym (undisturbed id max_attempts preempt a op s row h k))
run-crashed after_advance id max_attempts preempt a op s row h k =
    Shows-SameEnd id _ _ _ _
      (run-Shows id max_attempts preempt a reloading _ (moved reloading none false op)
        (some op.target_model) refl (advanced-Shows id max_attempts preempt a op s row h k))
      (run-outcome id max_attempts preempt a prepared op s h row)
      (asked-moved max_attempts _ _ a reloading op (some op.target_model)
        ∙ sym (undisturbed id max_attempts preempt a op s row h k))
