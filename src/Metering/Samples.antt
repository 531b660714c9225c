-- ===== src/Metering/Samples.antt =====
-- Concrete books, at which the theorems on metering apply.
use mlops_lite.Base.{
  ◌+◌, ◌∷◌, ℕ, modify_all, total, none, lookup, refl, inl, List, [], some, modify, ◌≡◌, Distinct,
}
use mlops_lite.Metering.Books.{
  release, Reservation, new_reservation, consumed, Books, insert_reservation, insert_row,
  settle_transaction, daily, reserve_transaction, Window, settle, reconciliation,
}
use mlops_lite.Metering.Budgets.{reserve_transaction-budget, IsWithin}
use mlops_lite.Metering.Histories.{
  releases, Event, events, events-IsReconciled, settle_transaction-stale, reserves, settles, sweeps,
}
use mlops_lite.Metering.Reconciliation.{IsReconciled}

abbrev empty : Books
empty = record {
  quotas = (1, record { quota_window = daily; budget_gpu_seconds = 100 }) ∷ [];
  reservations = [];
  ledger = [];
}

abbrev starts : Window → ℕ
starts _ = 20

abbrev history : List Event
history =
    reserves 7 1 0 60 21 none starts
    ∷ settles 7 50
    ∷ reserves 8 1 0 40 22 none starts
    ∷ releases 8
    ∷ sweeps 0 90 30
    ∷ []

abbrev one : Reservation
one = new_reservation 1 0 20 60 21

-- Op 7 is authorized for 60 of 100.
abbrev pending : Books
pending = record empty { reservations = (7, one) ∷ [] }

program : Unit {0}
unfolding lookup total modify modify_all consumed insert_reservation reserve_transaction insert_row
    settle_transaction settle release Distinct
program = tt

empty-IsReconciled : IsReconciled empty
unfolding program
empty-IsReconciled = record { distinct = tt; fresh = λ op. inl refl; equal = refl }

pending-IsReconciled : IsReconciled pending
unfolding program
pending-IsReconciled = record { distinct = (refl, tt); fresh = λ op. inl refl; equal = refl }

events-IsReconciled_example : IsReconciled (events history empty)
events-IsReconciled_example = events-IsReconciled history empty empty-IsReconciled

settle-stale_example :
    let (ledger_total, settled_totals) =
      reconciliation (settle_transaction 7 50 one (release 7 pending)) in
    ledger_total ≡ settled_totals + 50
unfolding program
settle-stale_example = settle_transaction-stale 7 50 one pending pending-IsReconciled refl refl

budget_example :
    IsWithin (some 100) (consumed 1 20 (reserve_transaction 7 1 0 60 21 none starts empty).1)
unfolding program
budget_example = reserve_transaction-budget 7 1 0 60 21 none starts empty one refl
