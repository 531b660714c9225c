-- ===== src/Metering/Budgets.antt =====
-- platformlib/storeimpl/metering.py: the budget of a window, and the reuse of an op id.
use mlops_lite.Base.{
  lookup-modify_all, subst, inr, lookup, Option-cases, refl, sym, choice_cases, ℕ, none,
  lookup-modify, is_some, Option, ◌+◌, ◌≤◌, false, if◌then◌else◌, inl, arith, true, ◌≡◌, some, [],
  ◌≢◌, List, ◌∷◌, ◌∙◌, ap, Bool-cases, lookup-append,
}
use mlops_lite.Metering.Books.{
  release, Reservation, new_reservation, is_stale, authorized, window_of, released,
  insert_reservation, finish, Books, Window, Reserve, reserve_transaction, sweep, budget_of,
  is_exhausted, consumed, outstanding_in, settled, settle_transaction, is_reserved, settle,
}
use mlops_lite.Metering.Histories.{releases, Event, event, reserves, sweeps, settles, events}
use mlops_lite.Metering.Reconciliation.{finish-is_reserved}
use mlops_lite.Metering.Sums.{total-append}

insert_reservation-consumed :
    (op tenant kind start est now : ℕ) (s : Books) (r : Reservation)
    → (insert_reservation op (new_reservation tenant kind start est now) s).0 ≡ authorized r
    → consumed tenant start (insert_reservation op (new_reservation tenant kind start est now) s).1
      ≡ consumed tenant start s + est
unfolding insert_reservation consumed
insert_reservation-consumed op tenant kind start est now s r =
    elim (Option-cases (lookup op s.reservations)) [
      | inr (old, e) ↦ rw (e, insert_reservation) (λ h. cc)
      | inl e ↦
          rw (e, insert_reservation)
            (λ h. ground (
              arith,
              total-append (outstanding_in tenant start) op
                  (new_reservation tenant kind start est now) s.reservations,
            ))
    ]

abbrev pub IsWithin : Option ℕ → ℕ → Type 0
IsWithin none n = true ≡ true
IsWithin (some budget) n = n ≤ budget

exhausted-IsWithin :
    (budget : Option ℕ) (consumption est : ℕ)
    → is_exhausted budget consumption est ≡ false
    → IsWithin budget (consumption + est)
exhausted-IsWithin none consumption est h = refl
exhausted-IsWithin (some b) consumption est h = ground arith

-- A reservation is authorized only where what the tenant has used and reserved in the window, with
-- the new estimate, is within the budget of its quota, or the default one where it has no quota.
pub reserve_transaction-budget :
    (op tenant kind est now : ℕ) (default_budget : Option ℕ) (starts : Window → ℕ) (s : Books)
    (r : Reservation)
    → (reserve_transaction op tenant kind est now default_budget starts s).0 ≡ authorized r
    → IsWithin (budget_of default_budget (lookup tenant s.quotas)) (
        consumed tenant
          (starts (window_of (lookup tenant s.quotas)))
          (reserve_transaction op tenant kind est now default_budget starts s).1)
unfolding reserve_transaction
reserve_transaction-budget op tenant kind est now default_budget starts s r =
    let quota = lookup tenant s.quotas in
    let start = starts (window_of quota) in
    choice_cases {A = Reserve × Books}
      (λ x.
        x.0 ≡ authorized r → IsWithin (budget_of default_budget quota) (consumed tenant start x.1))
      (is_exhausted (budget_of default_budget quota) (consumed tenant start s) est) (λ _ h. cc)
      (λ k h.
        subst (IsWithin (budget_of default_budget quota))
          (sym (insert_reservation-consumed op tenant kind start est now s r h))
          (exhausted-IsWithin _ _ _ k))

-- The id of an op names a reservation, in whatever state.
abbrev IsUsed : ℕ → Books → Type 0
IsUsed op s = is_some (lookup op s.reservations) ≡ true

insert_reservation-IsUsed :
    (op other : ℕ) (r : Reservation) (s : Books)
    → IsUsed op s
    → IsUsed op (insert_reservation other r s).1
unfolding insert_reservation
insert_reservation-IsUsed op other r s u = elim (Option-cases (lookup other s.reservations)) [
  | inr (old, e) ↦ rw (e, insert_reservation) u
  | inl e ↦ rw (e, insert_reservation) (ground (arith, lookup-append other op r s.reservations))
]

settle-IsUsed : (op other actual : ℕ) (s : Books) → IsUsed op s → IsUsed op (settle other actual s)
unfolding settle settle_transaction
settle-IsUsed op other actual s u = elim (Option-cases (lookup other s.reservations)) [
  | inl e ↦ rw (e, settle) u
  | inr (r, e) ↦
      rw (e, settle)
        (choice_cases {A = Books} (IsUsed op) (is_reserved r.state)
          (λ _. ground (arith, lookup-modify other op (finish settled actual) s.reservations))
          (λ _. u))
]

event-IsUsed : (op : ℕ) (x : Event) (s : Books) → IsUsed op s → IsUsed op (event x s)
unfolding event reserve_transaction
event-IsUsed op (reserves other tenant kind est now default_budget starts) s u =
    choice_cases {A = Reserve × Books} (λ x. IsUsed op x.1)
      (is_exhausted (budget_of default_budget (lookup tenant s.quotas))
        (consumed tenant (starts (window_of (lookup tenant s.quotas))) s) est)
      (λ _. u)
      (λ _.
        insert_reservation-IsUsed op other
          (new_reservation tenant kind (starts (window_of (lookup tenant s.quotas))) est now) s u)
event-IsUsed op (settles other actual) s u = settle-IsUsed op other actual s u
event-IsUsed op (releases other) s u =
    unfold release in (ground (arith, lookup-modify other op (finish released 0) s.reservations))
event-IsUsed op (sweeps kind now older_than) s u =
    unfold sweep in
    (ground (
      arith,
      lookup-modify_all op (λ x. if is_stale kind now older_than x then finish released 0 x else x)
          s.reservations,
    ))

events-IsUsed : (op : ℕ) (xs : List Event) (s : Books) → IsUsed op s → IsUsed op (events xs s)
unfolding events
events-IsUsed op [] s u = u
events-IsUsed op (x ∷ xs) s u = events-IsUsed op xs _ (event-IsUsed op x s u)

used-refuses :
    (op tenant kind est now : ℕ) (default_budget : Option ℕ) (starts : Window → ℕ) (s : Books)
    (r : Reservation)
    → IsUsed op s
    → (reserve_transaction op tenant kind est now default_budget starts s).0 ≢ authorized r
unfolding reserve_transaction insert_reservation
used-refuses op tenant kind est now default_budget starts s r u =
    choice_cases {A = Reserve × Books} (λ x. x.0 ≢ authorized r)
      (is_exhausted (budget_of default_budget (lookup tenant s.quotas))
        (consumed tenant (starts (window_of (lookup tenant s.quotas))) s) est)
      (λ _ h. cc)
      (λ _. elim (Option-cases (lookup op s.reservations)) [
        | inl e ↦ ground (arith, e)
        | inr (old, e) ↦ rw (e, insert_reservation) (λ h. cc)
      ])

-- An op id authorizes work at most once: after a reservation under it, whatever is reserved, settled,
-- released or swept in between, no second one is authorized, for any tenant.
pub reserve_transaction-once :
    (op tenant kind est now : ℕ) (default_budget : Option ℕ) (starts : Window → ℕ)
    (first : Reservation) (xs : List Event) (s : Books) (r : Reservation)
    → lookup op s.reservations ≡ some first
    → (reserve_transaction op tenant kind est now default_budget starts (events xs s)).0
      ≢ authorized r
reserve_transaction-once op tenant kind est now default_budget starts first xs s r e =
    used-refuses op tenant kind est now default_budget starts (events xs s) r
      (events-IsUsed op xs s (rw e refl))

settle-none : (op actual : ℕ) (s : Books) → lookup op s.reservations ≡ none → settle op actual s ≡ s
unfolding settle
settle-none op actual s e =
    ap
      (λ o. elim o as (λ _. Books) [
        | none ↦ s
        | some r ↦ if is_reserved r.state then settle_transaction op actual r s else s
      ])
      e

settle-some :
    (op actual : ℕ) (s : Books) (r : Reservation)
    → lookup op s.reservations ≡ some r
    → settle op actual s ≡ (if is_reserved r.state then settle_transaction op actual r s else s)
unfolding settle
settle-some op actual s r e =
    ap
      (λ o. elim o as (λ _. Books) [
        | none ↦ s
        | some x ↦ if is_reserved x.state then settle_transaction op actual x s else s
      ])
      e

settle-over :
    (op actual : ℕ) (s : Books) (r : Reservation)
    → lookup op s.reservations ≡ some r
    → is_reserved r.state ≡ false
    → settle op actual s ≡ s
settle-over op actual s r e h =
    settle-some op actual s r e ∙ ap (λ b. if b then settle_transaction op actual r s else s) h

settle-fixed :
    (op actual again : ℕ) (s t : Books)
    → settle op actual s ≡ t
    → settle op again t ≡ t
    → settle op again (settle op actual s) ≡ settle op actual s
settle-fixed op actual again s t e f = ap (settle op again) e ∙ f ∙ sym e

settled-lookup :
    (op actual : ℕ) (r : Reservation) (s : Books)
    → lookup op s.reservations ≡ some r
    → lookup op (settle_transaction op actual r s).reservations ≡ some (finish settled actual r)
unfolding settle_transaction
settled-lookup op actual r s e =
    ground (arith, e, lookup-modify op op (finish settled actual) s.reservations)

-- A settlement that is replayed, with the same amount or another, changes nothing.
pub settle-settle :
    (op actual again : ℕ) (s : Books) → settle op again (settle op actual s) ≡ settle op actual s
settle-settle op actual again s = elim (Option-cases (lookup op s.reservations)) [
  | inl e ↦ settle-fixed op actual again s s (settle-none op actual s e) (settle-none op again s e)
  | inr (r, e) ↦ elim (Bool-cases (is_reserved r.state)) [
    | inr h ↦
        settle-fixed op actual again s s (settle-over op actual s r e h)
          (settle-over op again s r e h)
    | inl h ↦
        settle-fixed op actual again s (settle_transaction op actual r s)
          (settle-some op actual s r e
            ∙ ap (λ b. if b then settle_transaction op actual r s else s) h)
          (settle-over op again _ (finish settled actual r) (settled-lookup op actual r s e)
            (finish-is_reserved settled actual r refl))
  ]
]
