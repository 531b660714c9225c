-- ===== src/Outbox/Accounts.antt =====
-- platformlib/storeimpl/metering.py as the outbox sees it: what each transaction does to the reservation
-- and to the ledger row of one op id.
use mlops_lite.Metering.Books
use mlops_lite.Base.{
  Dict, ℕ, Option, none, some, Bool, false, ◌==◌, ◌≡◌, if◌then◌else◌, lookup, lookup-modify,
  lookup-modify_all, arith, Option-cases, inl, inr, lookup-append,
}
use mlops_lite.Metering.Books.{
  Books, Reservation, LedgerRow, Window, is_reserved, is_settled, finish, settled, released,
  insert_row, settle_transaction, insert_reservation, reserve_transaction, reserve, sweep, is_stale,
}

abbrev pub Account : Type 0
Account = Option Reservation × Option LedgerRow

unfoldable pub account : (op : ℕ) → Books → Account
account op b = (lookup op b.reservations, lookup op b.ledger)

-- The reservation can still be settled.
abbrev pub is_open : Option Reservation → Bool
is_open none = false
is_open (some r) = is_reserved r.state

abbrev pub row_for : (actual : ℕ) → Reservation → LedgerRow
row_for actual r = record {
  tenant_id = r.tenant_id;
  window_start = r.window_start;
  gpu_seconds = actual;
}

abbrev pub kept_or : LedgerRow → Option LedgerRow → LedgerRow
kept_or row none = row
kept_or row (some old) = old

abbrev pub settle_account : (actual : ℕ) → Account → Account
settle_account actual (none, row) = (none, row)
settle_account actual (some r, row) =
    if is_reserved r.state
    then (some (finish settled actual r), some (kept_or (row_for actual r) row))
    else (some r, row)

abbrev pub release_account : Account → Account
release_account (none, row) = (none, row)
release_account (some r, row) = (some (finish released 0 r), row)

lookup-insert_row :
    (op j : ℕ) (row : LedgerRow) (ledger : Dict LedgerRow)
    → lookup j (insert_row op row ledger)
      ≡ (if op == j then some (kept_or row (lookup j ledger)) else lookup j ledger)
unfolding insert_row
lookup-insert_row op j row ledger = ground (arith, lookup-append op j row ledger)

pub account-settle :
    (op actual j : ℕ) (b : Books)
    → account j (Books.settle op actual b)
      ≡ (if op == j then settle_account actual (account j b) else account j b)
unfolding account Books.settle settle_transaction
account-settle op actual j b = elim (Option-cases (lookup op b.reservations)) [
  | inl e ↦ ground (arith, e)
  | inr (r, e) ↦ ground (
    arith,
    e,
    lookup-modify op j (finish settled actual) b.reservations,
    lookup-insert_row op j (row_for actual r) b.ledger,
  )
]

pub account-release :
    (op j : ℕ) (b : Books)
    → account j (Books.release op b)
      ≡ (if op == j then release_account (account j b) else account j b)
unfolding account Books.release
account-release op j b = ground (arith, lookup-modify op j (finish released 0) b.reservations)

pub account-sweep :
    (kind now older_than j : ℕ) (b : Books)
    → account j (sweep kind now older_than b) ≡ (elim (lookup j b.reservations) [
      | none ↦ account j b
      | some r ↦
          if is_stale kind now older_than r then release_account (account j b) else account j b
    ])
unfolding account sweep
account-sweep kind now older_than j b = ground (
  arith,
  lookup-modify_all j (λ r. if is_stale kind now older_than r then finish released 0 r else r)
      b.reservations,
)
