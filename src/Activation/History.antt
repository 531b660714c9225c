-- ===== src/Activation/History.antt =====
-- gateway/app/activation.py: submit, run and reconcile_all in any order, on the table.
use mlops_lite.Base.{
  false, ◌++◌, ◌||◌, refl, ◌≡◌, if◌then◌else◌, Option, Dict, choice_cases, ℕ, total, inl, ◌==◌, [],
  is_some, some, lookup, Bool, ◌∷◌, none, Option-cases, List, arith, ◌+◌, inr,
}
use mlops_lite.Activation.Service.{
  run, submit, Submitted, new_operation, resume_each, reconcile_all, Answers, same_target, created,
}
use mlops_lite.Activation.Single.{IsUnique, IsSingle, weight, run-IsSingle}
use mlops_lite.Activation.Store.{
  Operation, is_nonterminal, Store, any_nonterminal, find_activation_by_key, create_activation,
}

total-idle : (rows : Dict Operation) → any_nonterminal rows ≡ false → total weight rows ≡ 0
unfolding total any_nonterminal
total-idle [] h = refl
total-idle ((id, op) ∷ rows) h = ground (arith, total-idle rows)

total-append :
    (rows : Dict Operation) (id : ℕ) (op : Operation)
    → total weight (rows ++ (id, op) ∷ []) ≡ total weight rows + weight op
unfolding total
total-append [] id op = omega arith
total-append ((j, x) ∷ rows) id op = ground (arith, total-append rows id op)

lookup-append :
    (rows : Dict Operation) (id j : ℕ) (op : Operation)
    → lookup j (rows ++ (id, op) ∷ [])
      ≡ elim (lookup j rows) [ none ↦ if id == j then some op else none | some x ↦ some x ]
unfolding lookup
lookup-append [] id j op = refl
lookup-append ((i, x) ∷ rows) id j op = ground (arith, lookup-append rows id j op)

append-IsUnique :
    (rows : Dict Operation) (id : ℕ) (op : Operation)
    → lookup id rows ≡ none
    → IsUnique rows
    → IsUnique (rows ++ (id, op) ∷ [])
unfolding IsUnique lookup
append-IsUnique [] id op h u = (refl, refl)
append-IsUnique ((j, x) ∷ rows) id op h (n, u) =
    (ground (arith, lookup-append rows id j op), append-IsUnique rows id op (ground arith) u)

create_activation-IsSingle :
    (op : Operation) (s : Store) → IsSingle s → IsSingle (create_activation op s).1
unfolding create_activation
create_activation-IsSingle op s (u, c) =
    choice_cases {A = Option Operation × Store} (λ y. IsSingle y.1)
      (is_some (lookup op.operation_id s.rows) || any_nonterminal s.rows) (λ k. (u, c))
      (λ k. (
        append-IsUnique s.rows op.operation_id op (ground arith) u,
        ground (arith, total-append s.rows op.operation_id op, total-idle s.rows),
      ))

created-IsSingle : (r : Option Operation × Store) → IsSingle r.1 → IsSingle (created r).1
unfolding created
created-IsSingle (none, s) v = v
created-IsSingle (some op, s) v = v

submit-IsSingle :
    (id key name version : ℕ) (previous : Option ℕ) (preempt : Bool) (s : Store)
    → IsSingle s
    → IsSingle (submit id key name version previous preempt s).1
unfolding submit
submit-IsSingle id key name version previous preempt s v =
    elim (Option-cases (find_activation_by_key key s)) [
      | inl e ↦
          rw (e, submit)
            (created-IsSingle _
              (create_activation-IsSingle (new_operation id key name version previous preempt) s v))
      | inr (op, e) ↦
          rw (e, submit)
            (choice_cases {A = Submitted × Store} (λ y. IsSingle y.1) (is_nonterminal op.state)
              (λ k.
                choice_cases {A = Submitted × Store} (λ y. IsSingle y.1)
                  (same_target op name version) (λ _. v) (λ _. v))
              (λ k. created-IsSingle _ (
                create_activation-IsSingle (new_operation id key name version previous preempt) s
                  v)))
    ]

resume_each-IsSingle :
    (max_attempts : ℕ) (answers : ℕ → Answers) (ops : List Operation) (s : Store)
    → IsSingle s
    → IsSingle (resume_each max_attempts answers ops s)
unfolding resume_each
resume_each-IsSingle max_attempts answers [] s v = v
resume_each-IsSingle max_attempts answers (op ∷ ops) s v =
    resume_each-IsSingle max_attempts answers ops _ (
      run-IsSingle max_attempts op.requires_preemption (answers op.operation_id) op.operation_id s
        v)

pub data Event : Type 0 where
  submits : (id key name version : ℕ) → Option ℕ → (preempt : Bool) → Event
  runs : (preempt : Bool) → Answers → (id : ℕ) → Event
  reconciles : (ℕ → Answers) → Event

unfoldable pub event : (max_attempts : ℕ) → Event → Store → Store
event max_attempts (submits id key name version previous preempt) s =
    let (_, s') = submit id key name version previous preempt s in s'
event max_attempts (runs preempt a id) s = let (_, s') = run max_attempts preempt a id s in s'
event max_attempts (reconciles answers) s = reconcile_all max_attempts answers s

unfoldable pub events : (max_attempts : ℕ) → List Event → Store → Store
events max_attempts [] s = s
events max_attempts (x ∷ xs) s = events max_attempts xs (event max_attempts x s)

-- Through submits, runs and passes of the reconciler in any order and with any answers, each id
-- names one row and at most one operation of the table is under way.
pub events-IsSingle :
    (max_attempts : ℕ) (xs : List Event) (s : Store)
    → IsSingle s
    → IsSingle (events max_attempts xs s)
unfolding events event reconcile_all
events-IsSingle max_attempts [] s v = v
events-IsSingle max_attempts (submits id key name version previous preempt ∷ xs) s v =
    events-IsSingle max_attempts xs _ (submit-IsSingle id key name version previous preempt s v)
events-IsSingle max_attempts (runs preempt a id ∷ xs) s v =
    events-IsSingle max_attempts xs _ (run-IsSingle max_attempts preempt a id s v)
events-IsSingle max_attempts (reconciles answers ∷ xs) s v =
    events-IsSingle max_attempts xs _ (resume_each-IsSingle max_attempts answers _ s v)
