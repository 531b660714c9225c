-- ===== src/Outbox/Owed.antt =====
-- gateway/app/metering.py: a settlement that is in the log is not lost, whatever fails around it.
use mlops_lite.Metering.Books
use mlops_lite.Base.{
  ◌∙◌, ℕ, List, [], ◌∷◌, Option, none, some, Bool, true, false, not, ◌==◌, ◌&&◌, ◌||◌, ◌≡◌, refl,
  if◌then◌else◌, contains, any, every, any-select, every-select, arith, is_some, ◌⊎◌, lookup,
  Bool-cases, Option-cases, inl, inr, lookup-append, raises_after, returns, commits, Reply,
  raises_before,
}
use mlops_lite.Metering.Books.{
  Books, Reservation, LedgerRow, Window, is_reserved, is_settled, finish, settled, released,
  window_of, new_reservation, insert_reservation, reserve_transaction, reserve, sweep, is_stale,
}
use mlops_lite.Outbox.Accounts.{
  Account, account, is_open, settle_account, account-settle, account-release, account-sweep,
}
use mlops_lite.Outbox.File.{
  Entry, charge, refund, op_of, Line, append, tear, readable, entries, is_pending, compact,
}
use mlops_lite.Outbox.Lines.{
  readable-compact, entries-compact, every-append_entry, any-append_entry, every-tear, any-entries,
}
use mlops_lite.Outbox.Service.{Gateway, store_settle, store_release, store_entry}

abbrev pub is_charge : (op actual : ℕ) → Entry → Bool
is_charge op actual (charge o n) = o == op && n == actual
is_charge op actual (refund o) = false

-- The entry is about another op id, or it is this charge.
abbrev pub agrees : (op actual : ℕ) → Entry → Bool
agrees op actual e = not (op_of e == op) || is_charge op actual e

-- The reservation is open and not charged for.
abbrev pub is_due : Account → Bool
is_due (some r, none) = is_reserved r.state
is_due (_, _) = false

-- The reservation is settled at this charge, and the ledger has it.
abbrev pub is_paid : (actual : ℕ) → Account → Bool
is_paid actual (some r, some row) =
    is_settled r.state && (r.settled_gpu_seconds == actual && row.gpu_seconds == actual)
is_paid actual (_, _) = false

-- The charge is in the ledger, or it is due and on a whole line of the log; nothing in the log says
-- otherwise of the op id.
pub record IsOwed (op actual : ℕ) (s : Gateway) : Type 0 where
  pub agreed : every (agrees op actual) (entries s.wal) ≡ true
  pub due :
      ((is_due (account op s.books) && any (is_charge op actual) (readable s.wal.lines))
        || is_paid actual (account op s.books))
      ≡ true

-- What happens to the log and to the books, each line once, in whatever order the threads of the
-- gateway, its restarts and its replays give.
pub data Event : Type 0 where
  appends : Entry → Event
  tears : Line → Event
  stores : Entry → Reply → Event
  writes_off : List ℕ → Event
  sweeps : (kind now older_than : ℕ) → Event
  reserves : (op tenant kind est now : ℕ) → (default_budget : Option ℕ) → (Window → ℕ) → Event

unfoldable pub step : Event → Gateway → Gateway
step (appends e) s = record s { wal = append e s.wal }
step (tears part) s = record s { wal = tear part s.wal }
step (stores e reply) s = record s { books = (store_entry e reply s.books).1 }
step (writes_off done) s = record s { wal = compact done s.wal }
step (sweeps kind now older_than) s = record s { books = sweep kind now older_than s.books }
step (reserves op tenant kind est now default_budget starts) s = record s {
  books = (reserve op tenant kind est now default_budget starts s.books).1;
}

abbrev pub stays : (kind now older_than : ℕ) → Option Reservation → Bool
stays kind now older_than none = true
stays kind now older_than (some r) = not (is_stale kind now older_than r)

-- The op id is written off only when the store has closed its reservation; it is not charged
-- otherwise, nor released, nor old enough for the sweep.
abbrev pub is_allowed : (op actual : ℕ) → Event → Gateway → Bool
is_allowed op actual (appends e) s = agrees op actual e
is_allowed op actual (tears part) s = every (agrees op actual) (readable (part ∷ []))
is_allowed op actual (stores e reply) s = agrees op actual e
is_allowed op actual (writes_off done) s =
    not (contains op done) || not (is_open (account op s.books).0)
is_allowed op actual (sweeps kind now older_than) s =
    stays kind now older_than (account op s.books).0
is_allowed op actual (reserves _ _ _ _ _ _ _) s = true

pub store_settle-books :
    (op n : ℕ) (reply : Reply) (b : Books)
    → (store_settle op n reply b).1 ≡ (if commits reply then Books.settle op n b else b)
unfolding store_settle Books.settle
store_settle-books op n raises_before b = ground arith
store_settle-books op n raises_after b = ground arith
store_settle-books op n returns b = ground arith

pub store_release-books :
    (op : ℕ) (reply : Reply) (b : Books)
    → (store_release op reply b).1 ≡ (if commits reply then Books.release op b else b)
unfolding store_release
store_release-books op raises_before b = refl
store_release-books op raises_after b = refl
store_release-books op returns b = refl

-- A call of the store on an entry that agrees leaves the account, or settles it.
pub store_entry-account :
    (op actual : ℕ) (e : Entry) (reply : Reply) (b : Books)
    → agrees op actual e ≡ true
    → (account op (store_entry e reply b).1 ≡ account op b)
      ⊎ (account op (store_entry e reply b).1 ≡ settle_account actual (account op b))
unfolding store_entry
store_entry-account op actual (charge o n) reply b h =
    rw (store_settle-books o n reply b) (ground (arith, account-settle o n op b))
store_entry-account op actual (refund o) reply b h =
    rw (store_release-books o reply b) (ground (arith, account-release o op b))

pub settle_account-due :
    (actual : ℕ) (a : Account)
    → (is_due a || is_paid actual a) ≡ true
    → is_paid actual (settle_account actual a) ≡ true
settle_account-due actual (some r, some row) h = ground arith
settle_account-due actual (some r, none) h = ground arith
settle_account-due actual (none, row) h = ground arith

-- A write by another op id, and the insert of a reservation.
reserve-account :
    (op o tenant kind est now : ℕ) (default_budget : Option ℕ) (starts : Window → ℕ) (b : Books)
    → is_some (account op b).0 ≡ true
    → account op (reserve o tenant kind est now default_budget starts b).1 ≡ account op b
unfolding reserve reserve_transaction insert_reservation account
reserve-account op o tenant kind est now default_budget starts b e =
    let start = starts (window_of (lookup tenant b.quotas)) in
    ground (arith, lookup-append o op (new_reservation tenant kind start est now) b.reservations)

sweep-account :
    (op kind now older_than : ℕ) (b : Books)
    → stays kind now older_than (account op b).0 ≡ true
    → account op (sweep kind now older_than b) ≡ account op b
unfolding account
sweep-account op kind now older_than b h = elim (Option-cases (lookup op b.reservations)) [
  | inl e ↦ account-sweep kind now older_than op b ∙ ground (arith, e)
  | inr (r, e) ↦ account-sweep kind now older_than op b ∙ ground (arith, e)
]

pub charge-is_pending :
    (op actual : ℕ) (done : List ℕ)
    → contains op done ≡ false
    → (e : Entry) → is_charge op actual e ≡ true
    → is_pending done e ≡ true
charge-is_pending op actual done p (charge o n) h = ground arith
charge-is_pending op actual done p (refund o) h = ground arith

due-is_open : (a : Account) → is_due a ≡ true → is_open a.0 ≡ true
due-is_open (some r, none) h = h
due-is_open (some r, some row) h = ground arith
due-is_open (none, row) h = ground arith

pub owed-is_some :
    (actual : ℕ) (a : Account) → (is_due a || is_paid actual a) ≡ true → is_some a.0 ≡ true
owed-is_some actual (some r, row) h = refl
owed-is_some actual (none, row) h = ground arith

pub step-IsOwed :
    (op actual : ℕ) (x : Event) (s : Gateway)
    → is_allowed op actual x s ≡ true
    → IsOwed op actual s
    → IsOwed op actual (step x s)
unfolding step
step-IsOwed op actual (appends e) s h w = record {
  agreed = every-append_entry (agrees op actual) e s.wal w.agreed h;
  due = ground (arith, w.due, any-append_entry (is_charge op actual) e s.wal);
}
step-IsOwed op actual (tears part) s h w = record {
  agreed = every-tear (agrees op actual) part s.wal w.agreed h;
  due = unfold tear in w.due;
}
step-IsOwed op actual (stores e reply) s h w = record {
  agreed = w.agreed;
  due = elim (store_entry-account op actual e reply s.books h) [
    | inl same ↦ rw same w.due
    | inr new ↦ rw new (ground (arith, w.due, settle_account-due actual (account op s.books)))
  ];
}
step-IsOwed op actual (writes_off done) s h w = record {
  agreed =
      rw (entries-compact done s.wal)
        (every-select (agrees op actual) (is_pending done) (entries s.wal) w.agreed);
  due = rw (readable-compact done s.wal) (elim (Bool-cases (contains op done)) [
    | inl written_off ↦ ground (arith, w.due, due-is_open (account op s.books))
    | inr pending ↦
        rw
          (any-select (is_charge op actual) (is_pending done) (entries s.wal)
            (charge-is_pending op actual done pending))
          (ground (arith, w.due, any-entries (is_charge op actual) s.wal))
  ]);
}
step-IsOwed op actual (sweeps kind now older_than) s h w = record {
  agreed = w.agreed;
  due = rw (sweep-account op kind now older_than s.books h) w.due;
}
step-IsOwed op actual (reserves o tenant kind est now default_budget starts) s h w = record {
  agreed = w.agreed;
  due =
      rw
        (reserve-account op o tenant kind est now default_budget starts s.books
          (owed-is_some actual (account op s.books) (ground (arith, w.due))))
        w.due;
}

unfoldable pub run : List Event → Gateway → Gateway
run [] s = s
run (x ∷ xs) s = run xs (step x s)

unfoldable pub all_allowed : (op actual : ℕ) → List Event → Gateway → Bool
all_allowed op actual [] s = true
all_allowed op actual (x ∷ xs) s = is_allowed op actual x s && all_allowed op actual xs (step x s)

pub run-IsOwed :
    (op actual : ℕ) (xs : List Event) (s : Gateway)
    → all_allowed op actual xs s ≡ true
    → IsOwed op actual s
    → IsOwed op actual (run xs s)
unfolding run all_allowed
run-IsOwed op actual [] s h w = w
run-IsOwed op actual (x ∷ xs) s h w =
    run-IsOwed op actual xs (step x s) (ground arith) (step-IsOwed op actual x s (ground arith) w)
