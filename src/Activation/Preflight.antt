-- ===== src/Activation/Preflight.antt =====
-- gateway/app/activation.py: assert_no_conflict, which go_live asks before the alias moves, and submit.
use mathlib.Core.Bool.{false≢true}
use mlops_lite.Base.{
  ◌&&◌, true, arith, [], some, ℕ, Bool, ◌||◌, false, ◌∷◌, Dict, ◌≡◌, ◌≢◌, inr, Bool-cases, sym,
  refl, not, subst, ◌⊎◌, none, lookup, inl, Option, ◌==◌, ◌∙◌, choice_cases, Option-cases, is_some,
  ap,
}
use mlops_lite.Activation.Service.{
  refused, created, conflicts, submit, Submitted, new_operation, same_target,
}
use mlops_lite.Activation.Store.{
  newest, any_nonterminal, is_nonterminal, Operation, Store, create_activation, newer,
  find_activation_by_key,
}

-- Just the rows of a target have the key that activate makes of the target.
unfoldable pub IsKeyed : (key name version : ℕ) → Dict Operation → Type 0
IsKeyed key name version [] = true ≡ true
IsKeyed key name version ((id, op) ∷ rows) =
    ((op.idempotency_key == key) ≡ same_target op name version) × IsKeyed key name version rows

abbrev busy : (Operation → Bool) → Dict Operation → Bool
busy p [] = false
busy p ((id, op) ∷ rows) = (p op && is_nonterminal op.state) || busy p rows

some_injective : {A : Type 0} {a b : A} → some a ≡ some b → a ≡ b
some_injective h = cc

newer-either :
    (b : Bool) (x op : Operation) (o : Option Operation)
    → newer b x o ≡ some op
    → ((b ≡ true) × (x ≡ op)) ⊎ (o ≡ some op)
newer-either true x op none e = inl (refl, cc)
newer-either false x op none e = ground arith
newer-either false x op (some best) e = inr e
newer-either true x op (some best) e =
    elim (Bool-cases (is_nonterminal x.state && not (is_nonterminal best.state))) [
      | inl k ↦ inl (refl, some_injective (rw k at e))
      | inr k ↦ inr (rw k at e)
    ]

newer-first :
    (b : Bool) (x : Operation) (o : Option Operation)
    → b ≡ true
    → is_nonterminal x.state ≡ true
    → (op : Operation) × (newer b x o ≡ some op) × (is_nonterminal op.state ≡ true)
newer-first b x none h t = (x, ground arith, t)
newer-first b x (some best) h t = elim (Bool-cases (is_nonterminal best.state)) [
  | inl k ↦ (best, ground arith, k)
  | inr k ↦ (x, ground arith, t)
]

newest-busy :
    (p : Operation → Bool) (rows : Dict Operation)
    → busy p rows ≡ true
    → (op : Operation) × (newest p rows ≡ some op) × (is_nonterminal op.state ≡ true)
unfolding newest
newest-busy p [] h = ground arith
newest-busy p ((id, x) ∷ rows) h = elim (Bool-cases (p x && is_nonterminal x.state)) [
  | inl k ↦ newer-first (p x) x (newest p rows) (ground arith) (ground arith)
  | inr k ↦ let (op, e, t) = newest-busy p rows (ground arith) in (op, rw e (ground arith), t)
]

busy-newest :
    (p q : Operation → Bool) (rows : Dict Operation) (op : Operation)
    → newest q rows ≡ some op
    → p op ≡ true
    → is_nonterminal op.state ≡ true
    → busy p rows ≡ true
unfolding newest
busy-newest p q [] op e h t = ground arith
busy-newest p q ((id, x) ∷ rows) op e h t = elim (newer-either (q x) x op (newest q rows) e) [
  | inl (_, same) ↦
      subst (λ y. ((p y && is_nonterminal y.state) || busy p rows) ≡ true) (sym same)
        (rw h (rw t refl))
  | inr rest ↦ let found = busy-newest p q rows op rest h t in ground arith
]

newest-IsKeyed :
    (key name version : ℕ) (q : Operation → Bool) (rows : Dict Operation) (op : Operation)
    → IsKeyed key name version rows
    → newest q rows ≡ some op
    → (q op ≡ true) × ((op.idempotency_key == key) ≡ same_target op name version)
unfolding newest IsKeyed
newest-IsKeyed key name version q [] op k e = ground arith
newest-IsKeyed key name version q ((id, x) ∷ rows) op (k, ks) e =
    elim (newer-either (q x) x op (newest q rows) e) [
      | inl (b, same) ↦
          subst (λ y. (q y ≡ true) × ((y.idempotency_key == key) ≡ same_target y name version)) same
            (b, k)
      | inr rest ↦ newest-IsKeyed key name version q rows op ks rest
    ]

any_nonterminal-busy :
    (rows : Dict Operation) → any_nonterminal rows ≡ true → busy (λ _. true) rows ≡ true
unfolding any_nonterminal
any_nonterminal-busy [] h = h
any_nonterminal-busy ((id, op) ∷ rows) h = ground (arith, any_nonterminal-busy rows)

and_not : (a b : Bool) → a ≡ true → (a && not b) ≡ false → b ≡ true
and_not a b h k = ground arith

created-fresh :
    (op : Operation) (s : Store)
    → lookup op.operation_id s.rows ≡ none
    → any_nonterminal s.rows ≡ false
    → (created (create_activation op s)).0 ≢ refused
unfolding created create_activation
created-fresh op s e n =
    choice_cases {A = Option Operation × Store} (λ x. (created x).0 ≢ refused)
      (is_some (lookup op.operation_id s.rows) || any_nonterminal s.rows) (λ k. ground arith)
      (λ k h. cc)

module _ (key name version : ℕ) (s : Store) (keyed : IsKeyed key name version s.rows) where
  -- An operation under the key of a target is one for the target.
  found-same_target :
      (op : Operation) → find_activation_by_key key s ≡ some op → same_target op name version ≡ true
  found-same_target op e =
      let (q, k) = newest-IsKeyed key name version _ s.rows op keyed e in sym k ∙ q

  -- If something is under way and the check passes, it is the operation for the target.
  passed-found :
      conflicts name version s ≡ false
      → any_nonterminal s.rows ≡ true
      → (op : Operation) × (find_activation_by_key key s ≡ some op)
        × (is_nonterminal op.state ≡ true)
  unfolding conflicts
  passed-found free n =
      let (cur, e, t) = newest-busy (λ _. true) s.rows (any_nonterminal-busy s.rows n) in
      let (_, k) = newest-IsKeyed key name version (λ _. true) s.rows cur keyed e in
      newest-busy _ s.rows (
        busy-newest (λ op. op.idempotency_key == key) (λ _. true) s.rows cur e
          (k ∙ and_not _ _ t (rw (e, conflicts) at free)) t)

-- A target that passes the check before the promotion is not turned away by the submit after it:
-- where just the rows of the target have its key, and the new id is fresh, the submit finds or makes
-- an operation for it. Between the two nothing else happens here.
pub submit-conflicts :
    (id key name version : ℕ) (previous : Option ℕ) (preempt : Bool) (s : Store)
    → IsKeyed key name version s.rows
    → lookup id s.rows ≡ none
    → conflicts name version s ≡ false
    → (submit id key name version previous preempt s).0 ≢ refused
unfolding submit
submit-conflicts id key name version previous preempt s keyed fresh free =
    let made = created-fresh (new_operation id key name version previous preempt) s fresh in
    let found = passed-found key name version s keyed free in
    elim (Option-cases (find_activation_by_key key s)) [
      | inl e ↦
          rw (e, submit)
            (made (elim (Bool-cases (any_nonterminal s.rows)) [
              | inr n ↦ n
              | inl n ↦ let (op, f, t) = found n in ground (arith, e, f)
            ]))
      | inr (op, e) ↦
          rw (e, submit)
            (choice_cases {A = Submitted × Store} (λ x. x.0 ≢ refused) (is_nonterminal op.state)
              (λ k. rw (found-same_target key name version s keyed op e) (λ h. cc))
              (λ k. made (elim (Bool-cases (any_nonterminal s.rows)) [
                | inr n ↦ n
                | inl n ↦
                    let (op', f, t) = found n in
                    let same = some_injective (sym e ∙ f) in
                    absurd
                      (false≢true (sym k ∙ ap (λ (x : Operation). is_nonterminal x.state) same ∙ t))
              ])))
    ]
