-- ===== src/Metering/Books.antt =====
-- platformlib/storeimpl/metering.py: reserve, settle, release, sweep_stale_reservations, consumption
-- and reconciliation. A transaction is one step; what is read before it is an argument of it. The
-- starts of the windows are the database's and are arguments. GPU-seconds are whole units.
use mlops_lite.Base.{
  Dict, ltb, true, total, false, some, [], Bool, modify_all, none, is_some, modify, if◌then◌else◌,
  Option, ℕ, lookup, ◌++◌, ◌==◌, ◌+◌, ◌∷◌, ◌&&◌,
}

pub data ReservationState : Type 0 where
  reserved settled released : ReservationState

abbrev pub is_reserved : ReservationState → Bool
is_reserved reserved = true
is_reserved _ = false

abbrev pub is_settled : ReservationState → Bool
is_settled settled = true
is_settled _ = false

pub data Window : Type 0 where
  daily monthly : Window

pub record Quota : Type 0 where
  pub quota_window : Window
  pub budget_gpu_seconds : ℕ

pub record Reservation : Type 0 where
  pub tenant_id : ℕ
  pub kind : ℕ
  pub window_start : ℕ
  pub est_gpu_seconds : ℕ
  pub state : ReservationState
  pub settled_gpu_seconds : ℕ
  pub created_at : ℕ

pub record LedgerRow : Type 0 where
  pub tenant_id : ℕ
  pub window_start : ℕ
  pub gpu_seconds : ℕ

-- The ledger is keyed by ref_id, which is the op id.
pub record Books : Type 0 where
  pub quotas : Dict Quota
  pub reservations : Dict Reservation
  pub ledger : Dict LedgerRow

pub data Refused : Type 0 where
  quota_exhausted : Refused
  reservation_finished : (in_flight : Bool) → Refused

pub data Reserve : Type 0 where
  authorized : Reservation → Reserve
  turned_away : Refused → Reserve

abbrev pub settled_in : (tenant start : ℕ) → LedgerRow → ℕ
settled_in tenant start row =
    if row.tenant_id == tenant && row.window_start == start then row.gpu_seconds else 0

abbrev pub outstanding_in : (tenant start : ℕ) → Reservation → ℕ
outstanding_in tenant start r =
    if r.tenant_id == tenant && (r.window_start == start && is_reserved r.state)
    then r.est_gpu_seconds
    else 0

-- The two sums of consumption, as reserve adds them.
unfoldable pub consumed : (tenant start : ℕ) → Books → ℕ
consumed tenant start s =
    total (settled_in tenant start) s.ledger + total (outstanding_in tenant start) s.reservations

abbrev pub window_of : Option Quota → Window
window_of none = daily
window_of (some q) = q.quota_window

abbrev pub budget_of : (default_budget : Option ℕ) → Option Quota → Option ℕ
budget_of default_budget none = default_budget
budget_of default_budget (some q) = some q.budget_gpu_seconds

abbrev pub new_reservation : (tenant kind start est now : ℕ) → Reservation
new_reservation tenant kind start est now = record {
  tenant_id = tenant;
  kind = kind;
  window_start = start;
  est_gpu_seconds = est;
  state = reserved;
  settled_gpu_seconds = 0;
  created_at = now;
}

-- `est_gpu_seconds > budget - consumed`
abbrev pub is_exhausted : Option ℕ → (consumption est : ℕ) → Bool
is_exhausted none consumption est = false
is_exhausted (some budget) consumption est = ltb budget (consumption + est)

-- The insert, which does nothing on a conflict, and the reading of its row after it.
unfoldable pub insert_reservation : ℕ → Reservation → Books → Reserve × Books
insert_reservation op r s = elim (lookup op s.reservations) [
  | some old ↦ (turned_away (reservation_finished (is_reserved old.state)), s)
  | none ↦ (authorized r, record s { reservations = s.reservations ++ (op, r) ∷ [] })
]

-- The transaction of reserve.
unfoldable pub reserve_transaction :
    (op tenant kind est now : ℕ)
    → (default_budget : Option ℕ) → (Window → ℕ)
    → Books
    → Reserve × Books
reserve_transaction op tenant kind est now default_budget starts s =
    let quota = lookup tenant s.quotas in
    let start = starts (window_of quota) in
    if is_exhausted (budget_of default_budget quota) (consumed tenant start s) est
    then (turned_away quota_exhausted, s)
    else insert_reservation op (new_reservation tenant kind start est now) s

-- reserve, with no other transaction between its first reading and its own.
unfoldable pub reserve :
    (op tenant kind est now : ℕ)
    → (default_budget : Option ℕ) → (Window → ℕ)
    → Books
    → Reserve × Books
reserve op tenant kind est now default_budget starts s = elim (lookup op s.reservations) [
  | some old ↦ (turned_away (reservation_finished (is_reserved old.state)), s)
  | none ↦ reserve_transaction op tenant kind est now default_budget starts s
]

-- `UPDATE … WHERE op_id = … AND state = 'reserved'`
abbrev pub finish : ReservationState → ℕ → Reservation → Reservation
finish new seconds r =
    if is_reserved r.state then record r { state = new; settled_gpu_seconds = seconds } else r

-- `INSERT … ON CONFLICT (ref_id) DO NOTHING`
unfoldable pub insert_row : ℕ → LedgerRow → Dict LedgerRow → Dict LedgerRow
insert_row op row ledger = if is_some (lookup op ledger) then ledger else ledger ++ (op, row) ∷ []

-- The transaction of settle, for the reservation that was read before it.
unfoldable pub settle_transaction : (op actual : ℕ) → Reservation → Books → Books
settle_transaction op actual r s = record s {
  ledger =
      insert_row op
        (record { tenant_id = r.tenant_id; window_start = r.window_start; gpu_seconds = actual })
        s.ledger;
  reservations = modify op (finish settled actual) s.reservations;
}

-- settle, with no other transaction between its reading and its own.
unfoldable pub settle : (op actual : ℕ) → Books → Books
settle op actual s = elim (lookup op s.reservations) [
  | none ↦ s
  | some r ↦ if is_reserved r.state then settle_transaction op actual r s else s
]

unfoldable pub release : (op : ℕ) → Books → Books
release op s = record s { reservations = modify op (finish released 0) s.reservations }

abbrev pub is_stale : (kind now older_than : ℕ) → Reservation → Bool
is_stale kind now older_than r = r.kind == kind && ltb (r.created_at + older_than) now

-- sweep_stale_reservations
unfoldable pub sweep : (kind now older_than : ℕ) → Books → Books
sweep kind now older_than s = record s {
  reservations =
      modify_all (λ r. if is_stale kind now older_than r then finish released 0 r else r)
        s.reservations;
}

abbrev pub settled_total : Reservation → ℕ
settled_total r = if is_settled r.state then r.settled_gpu_seconds else 0

abbrev pub row_total : LedgerRow → ℕ
row_total row = row.gpu_seconds

-- reconciliation, for all tenants: the two totals.
unfoldable pub reconciliation : Books → ℕ × ℕ
reconciliation s = (total row_total s.ledger, total settled_total s.reservations)
