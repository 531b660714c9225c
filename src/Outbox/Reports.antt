-- ===== src/Outbox/Reports.antt =====
-- gateway/app/metering.py: what settle reports, what reserve_or_refuse permits, and two ways in which
-- a charge is not recorded.
use mlops_lite.Metering.Books
use mlops_lite.Base.{
  ℕ, none, some, Option, true, every, false, Bool, ◌≡◌, refl, lookup, not, arith, any, ◌==◌,
  Option-cases, is_some, inr, any-append, inl, ◌||◌, ◌⊎◌, suc, List, ◌∷◌, ◌∙◌, every-append, [],
  lookup-append, raises_after, returns, Reply, raises_before,
}
use mlops_lite.Metering.Books.{
  Books, Reservation, LedgerRow, Window, is_reserved, is_settled, finish, authorized, turned_away,
  insert_reservation, reserve_transaction, reserve, window_of, new_reservation,
}
use mlops_lite.Outbox.Accounts.{account, Account, account-release, account-settle}
use mlops_lite.Outbox.File.{
  Append, appended, nothing_written, whole_written, torn, append_until, tear, readable, op_of, Line,
  File, append, charge, entries, refund, Entry,
}
use mlops_lite.Outbox.Lines.{readable-append_entry, added, fragment-append, every-entries}
use mlops_lite.Outbox.Once.{replay_outbox-books}
use mlops_lite.Outbox.Owed.{is_charge, store_settle-books, store_release-books}
use mlops_lite.Outbox.Service.{
  Outcome, replay_outbox, settled, settle, failed, deferred, dropped, Gateway, store_settle,
  reserve_or_refuse, permitted, replay_each, store_entry,
}

-- The reservation of an account is settled.
abbrev pub is_settled_account : Account → Bool
is_settled_account (none, row) = false
is_settled_account (some r, row) = is_settled r.state

-- What a report says of the books and of the log before and after.
abbrev pub Reported : Outcome → (op actual : ℕ) → (before after : Gateway) → Type 0
Reported settled op actual s t = is_settled_account (account op t.books) ≡ true
Reported dropped op actual s t =
    (is_settled_account (account op t.books) ≡ false) × (account op t.books ≡ account op s.books)
Reported deferred op actual s t =
    (is_some s.wal.fragment || any (is_charge op actual) (readable t.wal.lines)) ≡ true
Reported failed op actual s t =
    (t.books ≡ s.books) × ((t.wal.lines ≡ s.wal.lines) ⊎ (t.wal ≡ append (charge op actual) s.wal))

append-any :
    (op actual : ℕ) (f : File)
    → (is_some f.fragment
        || any (is_charge op actual) (readable (append (charge op actual) f).lines))
      ≡ true
append-any op actual f = elim (Option-cases f.fragment) [
  | inl e ↦ ground (
    arith,
    e,
    readable-append_entry (charge op actual) f,
    any-append (is_charge op actual) (readable f.lines) (added f.fragment (charge op actual)),
  )
  | inr (part, e) ↦ ground (arith, e)
]

-- A report of settle is true, whatever the store and the file do: after `settled` the reservation is
-- settled; after `dropped` it is not, and the reservation and the ledger row of the op id are as they
-- were; after `deferred` the charge is on a line of the log that can be read, unless a crash had left a
-- fragment there before; and after an exception the books are as they were, and the lines of the log too,
-- unless it got the whole line of the charge.
pub settle_report :
    (op actual : ℕ) (x : Append) (reply : Reply) (compacted : Bool) (s : Gateway)
    → let (outcome, t) = settle op actual x reply compacted s in Reported outcome op actual s t
unfolding settle store_settle account append_until tear
settle_report op actual nothing_written reply compacted s = (refl, inl refl)
settle_report op actual whole_written reply compacted s = (refl, inr refl)
settle_report op actual (torn part) reply compacted s = (refl, inl refl)
settle_report op actual appended raises_before compacted s =
    ground (arith, append-any op actual s.wal)
settle_report op actual appended raises_after compacted s =
    ground (arith, append-any op actual s.wal)
settle_report op actual appended returns false s = ground (arith, append-any op actual s.wal)
settle_report op actual appended returns true s =
    elim (Option-cases (lookup op s.books.reservations)) [
      | inl e ↦ ground (arith, e, append-any op actual s.wal)
      | inr (r, e) ↦ ground (arith, e, account-settle op actual op s.books)
    ]

store_entry-other :
    (op : ℕ) (e : Entry) (reply : Reply) (b : Books)
    → not (op_of e == op) ≡ true
    → account op (store_entry e reply b).1 ≡ account op b
unfolding store_entry
store_entry-other op (charge o n) reply b h =
    rw (store_settle-books o n reply b) (ground (arith, account-settle o n op b))
store_entry-other op (refund o) reply b h =
    rw (store_release-books o reply b) (ground (arith, account-release o op b))

replay_each-other :
    (op : ℕ) (replies : ℕ → Reply) (es : List Entry) (b : Books)
    → every (λ e. not (op_of e == op)) es ≡ true
    → account op (replay_each replies es b).1 ≡ account op b
unfolding replay_each
replay_each-other op replies [] b h = refl
replay_each-other op replies (e ∷ es) b h =
    replay_each-other op (λ n. replies (suc n)) es (store_entry e (replies 0) b).1 (ground arith)
    ∙ store_entry-other op e (replies 0) b (ground arith)

torn-entries :
    (op actual : ℕ) (part : Line) (f : File)
    → f.fragment ≡ some part
    → every (λ e. not (op_of e == op)) (readable f.lines) ≡ true
    → every (λ e. not (op_of e == op)) (entries (append (charge op actual) f)) ≡ true
unfolding readable
torn-entries op actual part f e h =
    let other = λ (x : Entry). not (op_of x == op) in
    ground (
      arith,
      e,
      every-entries other (append (charge op actual) f),
      fragment-append (charge op actual) f,
      readable-append_entry (charge op actual) f,
      every-append other (readable f.lines) (added f.fragment (charge op actual)),
    )

-- A fragment that a crash left in the log swallows the next settlement: with the store down it is
-- reported as deferred, and no replay charges it.
pub settle-torn :
    (op actual : ℕ) (part : Line) (compacted replay_compacts : Bool) (replies : ℕ → Reply)
    (s : Gateway)
    → s.wal.fragment ≡ some part
    → every (λ e. not (op_of e == op)) (readable s.wal.lines) ≡ true
    → let (outcome, t) = settle op actual appended raises_before compacted s in
      (outcome ≡ deferred)
      × (account op (replay_outbox replies replay_compacts t).books ≡ account op s.books)
settle-torn op actual part compacted replay_compacts replies s e h =
    let t : Gateway = record s { wal = append (charge op actual) s.wal } in
    let same : settle op actual appended raises_before compacted s ≡ (deferred, t) =
      unfold settle store_settle in ground arith in
    rw (same, replay_outbox-books replies replay_compacts t)
      (
        refl,
        replay_each-other op replies (entries t.wal) s.books
            (torn-entries op actual part s.wal e h),
      )

-- A second settlement of an op id is reported as settled at its own seconds, while the books keep
-- those of the first.
pub settle-settled_again :
    (op actual : ℕ) (r : Reservation) (s : Gateway)
    → lookup op s.books.reservations ≡ some r
    → is_settled r.state ≡ true
    → let (outcome, t) = settle op actual appended returns true s in
      (outcome ≡ settled) × (t.books ≡ s.books)
unfolding settle store_settle Books.settle
settle-settled_again op actual r s e h = ground (arith, e)

reserve-authorized :
    (op tenant kind est now : ℕ) (default_budget : Option ℕ) (starts : Window → ℕ) (b : Books)
    (r : Reservation)
    → (reserve op tenant kind est now default_budget starts b).0 ≡ authorized r
    → (lookup op b.reservations ≡ none)
      × (lookup op (reserve op tenant kind est now default_budget starts b).1.reservations ≡ some r)
      × (is_reserved r.state ≡ true)
unfolding reserve reserve_transaction insert_reservation
reserve-authorized op tenant kind est now default_budget starts b r h =
    let start = starts (window_of (lookup tenant b.quotas)) in
    ground (arith, lookup-append op op (new_reservation tenant kind start est now) b.reservations)

-- A reservation that is there stays, and refuses.
reserve-known :
    (op tenant kind est now : ℕ) (default_budget : Option ℕ) (starts : Window → ℕ) (b : Books)
    (old : Reservation)
    → lookup op b.reservations ≡ some old
    → (reserve op tenant kind est now default_budget starts b).1 ≡ b
unfolding reserve
reserve-known op tenant kind est now default_budget starts b old e = ground (arith, e)

-- Work is permitted only under a reservation that this call put on the books, and that is reserved:
-- whether the connection, the first call of the store or the reply to it failed.
pub reserve_or_refuse-permitted :
    (op tenant kind est now : ℕ) (default_budget : Option ℕ) (starts : Window → ℕ) (connects : Bool)
    (first second : Reply) (b : Books) (r : Reservation)
    → (reserve_or_refuse op tenant kind est now default_budget starts connects first second b).0
      ≡ permitted r
    → (lookup op b.reservations ≡ none)
      × (lookup op
            (reserve_or_refuse op tenant kind est now default_budget starts connects first second
              b).1.reservations
          ≡ some r)
      × (is_reserved r.state ≡ true)
unfolding reserve_or_refuse
reserve_or_refuse-permitted op tenant kind est now default_budget starts false first second b r h =
    ground arith
reserve_or_refuse-permitted op tenant kind est now default_budget starts true returns second b r h =
    ground (arith, reserve-authorized op tenant kind est now default_budget starts b r)
reserve_or_refuse-permitted op tenant kind est now default_budget starts true raises_before returns
      b r h =
    ground (arith, reserve-authorized op tenant kind est now default_budget starts b r)
reserve_or_refuse-permitted op tenant kind est now default_budget starts true raises_before _ b r
      h =
    ground arith
reserve_or_refuse-permitted op tenant kind est now default_budget starts true raises_after returns b
      r h =
    let b' = (reserve op tenant kind est now default_budget starts b).1 in
    let (absent, there, is_kept) =
      reserve-authorized op tenant kind est now default_budget starts b' r (ground arith) in
    elim (Option-cases (lookup op b.reservations)) [
      | inl e ↦ (e, there, is_kept)
      | inr (old, e) ↦
          ground
            (arith, e, absent, reserve-known op tenant kind est now default_budget starts b old e)
    ]
reserve_or_refuse-permitted op tenant kind est now default_budget starts true raises_after _ b r h =
    ground arith
