-- ===== src/Metering/Reconciliation.antt =====
-- platformlib/storeimpl/metering.py: the ledger against the settled reservations, over histories.
use mathlib.Core.Bool.{false≢true}
use mlops_lite.Base.{
  inr, lookup, ◌==◌, Option-cases, ◌∙◌, ◌≡◌, arith, if◌then◌else◌, lookup-modify_all, modify, refl,
  lookup-modify, total, ◌⊎◌, inl, Bool-cases, total-modify, Dict, some, ℕ, total-modify_all, none,
  false, true, sym, ap, ◌++◌, [], choice_cases, Option, ◌∷◌, Distinct, modify-Distinct,
  append-Distinct, modify_all-Distinct, lookup-append, some_injective,
}
use mlops_lite.Metering.Books.{
  release, Reservation, is_settled, is_stale, insert_reservation, is_reserved, settle_transaction,
  finish, ReservationState, Books, settled_total, row_total, sweep, released, settle, consumed,
  budget_of, Window, insert_row, LedgerRow, window_of, settled, is_exhausted, reserved,
  reserve_transaction, Reserve,
}
use mlops_lite.Metering.Sums.{total-append, total-modify_at}

-- Only a reservation that is over has a row in the ledger.
abbrev IsOpen : Books → ℕ → Type 0
IsOpen s op =
    (lookup op s.ledger ≡ none)
    ⊎ ((r : Reservation) × (lookup op s.reservations ≡ some r) × (is_reserved r.state ≡ false))

pub record IsReconciled (s : Books) : Type 0 where
  pub distinct : Distinct s.reservations
  pub fresh : (op : ℕ) → IsOpen s op
  pub equal : total row_total s.ledger ≡ total settled_total s.reservations

pub finish-is_reserved :
    (new : ReservationState) (seconds : ℕ) (r : Reservation)
    → is_reserved new ≡ false
    → is_reserved (finish new seconds r).state ≡ false
finish-is_reserved new seconds r h = ground arith

not_settled : (q : ReservationState) → is_reserved q ≡ true → is_settled q ≡ false
not_settled reserved h = refl
not_settled settled h = ground arith
not_settled released h = refl

pub finish_released : (r : Reservation) → settled_total (finish released 0 r) ≡ settled_total r
finish_released r = ground (arith, not_settled r.state)

pub finish_over :
    (new : ReservationState) (seconds : ℕ) (r : Reservation)
    → is_reserved r.state ≡ false
    → settled_total (finish new seconds r) ≡ settled_total r
finish_over new seconds r h = ground arith

finish_settled :
    (actual : ℕ) (r : Reservation)
    → is_reserved r.state ≡ true
    → (settled_total (finish settled actual r) ≡ actual) × (settled_total r ≡ 0)
finish_settled actual r t = (ground arith, ground (arith, not_settled r.state))

-- A reservation that is over stays so, whatever else is finished.
modify-over :
    (op other : ℕ) (new : ReservationState) (seconds : ℕ) (m : Dict Reservation) (r : Reservation)
    → is_reserved new ≡ false
    → lookup other m ≡ some r
    → is_reserved r.state ≡ false
    → (r' : Reservation) × (lookup other (modify op (finish new seconds) m) ≡ some r')
      × (is_reserved r'.state ≡ false)
modify-over op other new seconds m r h e t = elim (Bool-cases (op == other)) [
  | inl b ↦ (
    finish new seconds r,
    ground (arith, lookup-modify op other (finish new seconds) m),
    finish-is_reserved new seconds r h,
  )
  | inr b ↦ (r, ground (arith, lookup-modify op other (finish new seconds) m), t)
]

pub release-IsReconciled : (op : ℕ) (s : Books) → IsReconciled s → IsReconciled (release op s)
unfolding release
release-IsReconciled op s v = record {
  distinct = modify-Distinct op (finish released 0) s.reservations v.distinct;
  fresh = λ other. elim (v.fresh other) [
    | inl n ↦ inl n
    | inr (r, e, t) ↦ inr (modify-over op other released 0 s.reservations r refl e t)
  ];
  equal =
      v.equal
      ∙ sym (total-modify settled_total op (finish released 0) s.reservations finish_released);
}

pub sweep-IsReconciled :
    (kind now older_than : ℕ) (s : Books)
    → IsReconciled s
    → IsReconciled (sweep kind now older_than s)
unfolding sweep
sweep-IsReconciled kind now older_than s v = record {
  distinct = modify_all-Distinct _ s.reservations v.distinct;
  fresh = λ other. elim (v.fresh other) [
    | inl n ↦ inl n
    | inr (r, e, t) ↦ inr (
      r,
      ground (
        arith,
        lookup-modify_all other
            (λ x. if is_stale kind now older_than x then finish released 0 x else x) s.reservations,
      ),
      t,
    )
  ];
  equal =
      v.equal
      ∙ sym (
          total-modify_all settled_total _ s.reservations (λ r. ground (arith, finish_released r)));
}

insert_reservation-IsReconciled :
    (op : ℕ) (r : Reservation) (s : Books)
    → is_settled r.state ≡ false
    → IsReconciled s
    → IsReconciled (insert_reservation op r s).1
unfolding insert_reservation
insert_reservation-IsReconciled op r s h v = elim (Option-cases (lookup op s.reservations)) [
  | inr (old, e) ↦ rw (e, insert_reservation) v
  | inl e ↦
      rw (e, insert_reservation)
        (record {
          distinct = append-Distinct op r s.reservations e v.distinct;
          fresh = λ other. elim (v.fresh other) [
            | inl n ↦ inl n
            | inr (x, f, t) ↦ inr (x, ground (arith, lookup-append op other r s.reservations), t)
          ];
          equal = v.equal ∙ sym (total-append settled_total op r s.reservations ∙ ground arith);
        })
]

-- A reservation that can be settled has no row in the ledger.
pub reserved-absent :
    (op : ℕ) (r : Reservation) (s : Books)
    → lookup op s.reservations ≡ some r
    → is_reserved r.state ≡ true
    → IsReconciled s
    → lookup op s.ledger ≡ none
reserved-absent op r s e t v = elim (v.fresh op) [
  | inl n ↦ n
  | inr (x, f, over) ↦ absurd (
      false≢true
        (sym over ∙ ap (λ (y : Reservation). is_reserved y.state) (some_injective (sym f ∙ e)) ∙ t))
]

pub insert_row-absent :
    (op : ℕ) (row : LedgerRow) (ledger : Dict LedgerRow)
    → lookup op ledger ≡ none
    → insert_row op row ledger ≡ ledger ++ (op, row) ∷ []
unfolding insert_row
insert_row-absent op row ledger e = rw e refl

settle_transaction-IsReconciled :
    (op actual : ℕ) (r : Reservation) (s : Books)
    → lookup op s.reservations ≡ some r
    → is_reserved r.state ≡ true
    → IsReconciled s
    → IsReconciled (settle_transaction op actual r s)
unfolding settle_transaction
settle_transaction-IsReconciled op actual r s e t v =
    let row : LedgerRow = record {
      tenant_id = r.tenant_id;
      window_start = r.window_start;
      gpu_seconds = actual;
    } in
    let inserted = insert_row-absent op row s.ledger (reserved-absent op r s e t v) in
    let (amount, nothing) = finish_settled actual r t in
    record {
      distinct = modify-Distinct op (finish settled actual) s.reservations v.distinct;
      fresh = λ other. elim (v.fresh other) [
        | inr (x, f, over) ↦ inr (modify-over op other settled actual s.reservations x refl f over)
        | inl n ↦ elim (Bool-cases (op == other)) [
          | inl b ↦ inr (
            finish settled actual r,
            ground (arith, e, lookup-modify op other (finish settled actual) s.reservations),
            finish-is_reserved settled actual r refl,
          )
          | inr b ↦ inl (rw inserted (ground (arith, lookup-append op other row s.ledger)))
        ]
      ];
      equal = rw inserted (
          omega (
            arith,
            v.equal,
            total-append row_total op row s.ledger,
            total-modify_at settled_total op (finish settled actual) s.reservations r v.distinct e,
            amount,
            nothing,
          ));
    }

pub settle-IsReconciled :
    (op actual : ℕ) (s : Books) → IsReconciled s → IsReconciled (settle op actual s)
unfolding settle
settle-IsReconciled op actual s v = elim (Option-cases (lookup op s.reservations)) [
  | inl e ↦ rw (e, settle) v
  | inr (r, e) ↦
      rw (e, settle)
        (choice_cases {A = Books} IsReconciled (is_reserved r.state)
          (λ t. settle_transaction-IsReconciled op actual r s e t v) (λ _. v))
]

pub reserve_transaction-IsReconciled :
    (op tenant kind est now : ℕ) (default_budget : Option ℕ) (starts : Window → ℕ) (s : Books)
    → IsReconciled s
    → IsReconciled (reserve_transaction op tenant kind est now default_budget starts s).1
unfolding reserve_transaction
reserve_transaction-IsReconciled op tenant kind est now default_budget starts s v =
    choice_cases {A = Reserve × Books} (λ x. IsReconciled x.1)
      (is_exhausted (budget_of default_budget (lookup tenant s.quotas))
        (consumed tenant (starts (window_of (lookup tenant s.quotas))) s) est)
      (λ _. v) (λ _. insert_reservation-IsReconciled op _ s refl v)
