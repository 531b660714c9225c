-- ===== src/Metering/Histories.antt =====
-- platformlib/storeimpl/metering.py: the transactions in any order, and a settlement that read too early.
use mlops_lite.Base.{
  lookup, ◌≡◌, arith, modify, refl, lookup-modify, total-modify, some, ℕ, true, [], Option, ◌∷◌,
  List, ◌+◌, modify-Distinct,
}
use mlops_lite.Metering.Books.{
  release, Reservation, is_reserved, settle_transaction, finish, Books, settled_total, row_total,
  sweep, released, settle, Window, LedgerRow, settled, reserve_transaction, reconciliation,
}
use mlops_lite.Metering.Reconciliation.{
  sweep-IsReconciled, finish_over, finish-is_reserved, insert_row-absent, settle-IsReconciled,
  release-IsReconciled, finish_released, IsReconciled, reserved-absent,
  reserve_transaction-IsReconciled,
}
use mlops_lite.Metering.Sums.{total-append, total-modify_at}

-- The transactions of the gateway's workers, in any order.
pub data Event : Type 0 where
  reserves : (op tenant kind est now : ℕ) → (default_budget : Option ℕ) → (Window → ℕ) → Event
  settles : (op actual : ℕ) → Event
  releases : (op : ℕ) → Event
  sweeps : (kind now older_than : ℕ) → Event

unfoldable pub event : Event → Books → Books
event (reserves op tenant kind est now default_budget starts) s =
    let (_, s') = reserve_transaction op tenant kind est now default_budget starts s in s'
event (settles op actual) s = settle op actual s
event (releases op) s = release op s
event (sweeps kind now older_than) s = sweep kind now older_than s

unfoldable pub events : List Event → Books → Books
events [] s = s
events (x ∷ xs) s = events xs (event x s)

-- Through reservations, settlements, releases and sweeps in any order, where each settlement reads
-- and writes at once, the total of the ledger is the total of the settled reservations, and an op
-- that has a row in the ledger has no reservation that could be settled again.
pub events-IsReconciled :
    (xs : List Event) (s : Books) → IsReconciled s → IsReconciled (events xs s)
unfolding events event
events-IsReconciled [] s v = v
events-IsReconciled (reserves op tenant kind est now default_budget starts ∷ xs) s v =
    events-IsReconciled xs _
      (reserve_transaction-IsReconciled op tenant kind est now default_budget starts s v)
events-IsReconciled (settles op actual ∷ xs) s v =
    events-IsReconciled xs _ (settle-IsReconciled op actual s v)
events-IsReconciled (releases op ∷ xs) s v = events-IsReconciled xs _ (release-IsReconciled op s v)
events-IsReconciled (sweeps kind now older_than ∷ xs) s v =
    events-IsReconciled xs _ (sweep-IsReconciled kind now older_than s v)

-- A settlement whose reading is older than the release of its reservation charges the ledger all the
-- same: the two totals of `reconciliation` differ from then on by what was charged.
pub settle_transaction-stale :
    (op actual : ℕ) (r : Reservation) (s : Books)
    → IsReconciled s
    → lookup op s.reservations ≡ some r
    → is_reserved r.state ≡ true
    → let (ledger_total, settled_totals) =
        reconciliation (settle_transaction op actual r (release op s)) in
      ledger_total ≡ settled_totals + actual
unfolding reconciliation settle_transaction release
settle_transaction-stale op actual r s v e t =
    let row : LedgerRow = record {
      tenant_id = r.tenant_id;
      window_start = r.window_start;
      gpu_seconds = actual;
    } in
    let after = modify op (finish released 0) s.reservations in
    let over : lookup op after ≡ some (finish released 0 r) =
      ground (arith, e, lookup-modify op op (finish released 0) s.reservations) in
    rw (insert_row-absent op row s.ledger (reserved-absent op r s e t v)) (
      omega (
        arith,
        v.equal,
        total-append row_total op row s.ledger,
        total-modify settled_total op (finish released 0) s.reservations finish_released,
        total-modify_at settled_total op (finish settled actual) after (finish released 0 r)
            (modify-Distinct op (finish released 0) s.reservations v.distinct) over,
        finish_over settled actual (finish released 0 r) (finish-is_reserved released 0 r refl),
      ))
