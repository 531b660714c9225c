-- ===== src/Outbox/Samples.antt =====
-- A gateway with one open reservation, at which the theorems of the outbox apply.
use mlops_lite.Metering.Books
use mlops_lite.Base.{
  [], ◌∷◌, refl, List, true, none, lookup, some, ◌≡◌, modify, returns, raises_before,
}
use mlops_lite.Metering.Books.{
  reserve, reserve_transaction, insert_reservation, is_reserved, Books, Reservation, Window, daily,
  new_reservation, reserved, settled,
}
use mlops_lite.Outbox.Accounts.{account}
use mlops_lite.Outbox.File.{
  readable, unparseable, entries, empty, charge, compact, tear, append, appended,
}
use mlops_lite.Outbox.Once.{after_store, IsFresh, settle_until, settle-replay_once}
use mlops_lite.Outbox.Owed.{
  run, all_allowed, Event, tears, appends, writes_off, sweeps, stores, is_paid, step,
}
use mlops_lite.Outbox.Reports.{settle_report, reserve_or_refuse-permitted, Reported, settle-torn}
use mlops_lite.Outbox.Service.{
  replay_outbox, reserve_or_refuse, settle, Gateway, deferred, store_release, store_settle,
  store_entry,
}

-- Op 7 of tenant 1 is open, op 8 is settled at 4.
abbrev open_seven : Reservation
open_seven = new_reservation 1 0 100 30 110

abbrev settled_eight : Reservation
settled_eight = record (new_reservation 1 0 100 30 110) { state = settled; settled_gpu_seconds = 4 }

abbrev books : Books
books = record {
  quotas = [];
  reservations = (7, open_seven) ∷ (8, settled_eight) ∷ [];
  ledger = (8, record { tenant_id = 1; window_start = 100; gpu_seconds = 4 }) ∷ [];
}

abbrev gateway : Gateway
gateway = record { wal = empty; books = books }

-- Between the lost reply of the settlement and the replay, another op id is charged and written off.
abbrev meanwhile : List Event
meanwhile =
    appends (charge 8 9)
    ∷ stores (charge 8 9) returns
    ∷ writes_off (8 ∷ [])
    ∷ tears unparseable
    ∷ sweeps 0 120 3600
    ∷ []

settle-replay_once_example :
    is_paid 5 (
      account 7
        (replay_outbox
          (λ n. returns)
          true
          (run meanwhile (settle_until after_store 7 5 raises_before true gateway))).books)
    ≡ true
settle-replay_once_example =
    settle-replay_once after_store 7 5 raises_before true true meanwhile (λ n. returns) gateway
      gateway-IsFresh meanwhile_allowed (λ n. refl)
  where
    gateway-IsFresh : IsFresh 7 5 gateway
    gateway-IsFresh =
        unfold account lookup entries readable in record { due = refl; agreed = refl; whole = refl }

    meanwhile_allowed :
        all_allowed 7 5 meanwhile (settle_until after_store 7 5 raises_before true gateway) ≡ true
    meanwhile_allowed =
        unfold all_allowed step settle_until append store_settle store_release store_entry
          Books.settle Books.settle_transaction Books.insert_row lookup modify readable entries
          compact tear account in
        refl

settle_report_example :
    let (outcome, t) = settle 8 9 appended returns true gateway in Reported outcome 8 9 gateway t
settle_report_example = settle_report 8 9 appended returns true gateway

settle-torn_example :
    let s : Gateway = record {
      wal = record { lines = []; fragment = some unparseable };
      books = books;
    } in
    let (outcome, t) = settle 7 5 appended raises_before true s in
    (outcome ≡ deferred) × (account 7 (replay_outbox (λ n. returns) true t).books ≡ account 7 books)
unfolding readable
settle-torn_example =
    settle-torn 7 5 unparseable true true (λ n. returns)
      (record { wal = record { lines = []; fragment = some unparseable }; books = books }) refl refl

reserve_or_refuse-permitted_example :
    (lookup 9 books.reservations ≡ none)
    × (lookup 9
          (reserve_or_refuse 9 1 0 30 120 none
            (λ w. 100)
            true
            raises_before
            returns
            books).1.reservations
        ≡ some (new_reservation 1 0 100 30 120))
    × (is_reserved reserved ≡ true)
unfolding reserve_or_refuse reserve reserve_transaction insert_reservation lookup
reserve_or_refuse-permitted_example =
    reserve_or_refuse-permitted 9 1 0 30 120 none (λ w. 100) true raises_before returns books
      (new_reservation 1 0 100 30 120) refl
