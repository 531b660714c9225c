-- ===== src/Outbox/Once.antt =====
-- gateway/app/metering.py: exactly once. settle, cut off anywhere after its first line is durable, and
-- replay_outbox are histories of events, and so the charge ends in the ledger as it was asked for.
use mlops_lite.Base.{
  ℕ, [], Bool, ◌&&◌, refl, arith, if◌then◌else◌, ◌≡◌, ◌∷◌, true, none, every, List, any-append,
  returns, Reply,
}
use mlops_lite.Metering.Books.{Books}
use mlops_lite.Outbox.Accounts.{account}
use mlops_lite.Outbox.File.{appended, append, charge, entries, readable}
use mlops_lite.Outbox.Lines.{added, readable-append_entry, every-append_entry, any-entries}
use mlops_lite.Outbox.Owed.{
  run, agrees, step, Event, IsOwed, stores, is_due, run-IsOwed, all_allowed, is_paid, is_charge,
  writes_off,
}
use mlops_lite.Outbox.Replay.{store_entry-closed, is_returned, replay_each-paid}
use mlops_lite.Outbox.Service.{
  store_settle, Gateway, settle, replay_outbox, store_entry, replay_each,
}

-- Where a crash stops settle: after the append, after the store's transaction, or not at all.
pub data Cut : Type 0 where
  after_append after_store at_end : Cut

unfoldable pub settle_until : Cut → (op actual : ℕ) → Reply → (compacted : Bool) → Gateway → Gateway
settle_until after_append op actual reply compacted s = record s {
  wal = append (charge op actual) s.wal;
}
settle_until after_store op actual reply compacted s = record {
  wal = append (charge op actual) s.wal;
  books = (store_settle op actual reply s.books).1;
}
settle_until at_end op actual reply compacted s = (settle op actual appended reply compacted s).1

-- The events of settle after the append.
events_of : Cut → (op actual : ℕ) → Reply → (compacted : Bool) → Books → List Event
events_of after_append op actual reply compacted b = []
events_of after_store op actual reply compacted b = stores (charge op actual) reply ∷ []
events_of at_end op actual reply compacted b =
    if is_returned (store_settle op actual reply b).0 && compacted
    then stores (charge op actual) reply ∷ writes_off (op ∷ []) ∷ []
    else stores (charge op actual) reply ∷ []

settle_until-run :
    (cut : Cut) (op actual : ℕ) (reply : Reply) (compacted : Bool) (s : Gateway)
    → settle_until cut op actual reply compacted s
      ≡ run
          (events_of cut op actual reply compacted s.books)
          (record s { wal = append (charge op actual) s.wal })
unfolding settle_until settle events_of run step store_entry
settle_until-run after_append op actual reply compacted s = refl
settle_until-run after_store op actual reply compacted s = refl
settle_until-run at_end op actual reply compacted s = ground arith

settle_until-allowed :
    (cut : Cut) (op actual : ℕ) (reply : Reply) (compacted : Bool) (s : Gateway)
    → all_allowed op actual
        (events_of cut op actual reply compacted s.books)
        (record s { wal = append (charge op actual) s.wal })
      ≡ true
unfolding events_of all_allowed step store_entry
settle_until-allowed after_append op actual reply compacted s = refl
settle_until-allowed after_store op actual reply compacted s = ground arith
settle_until-allowed at_end op actual reply compacted s =
    ground (arith, store_entry-closed op actual (charge op actual) reply s.books)

-- The charge is not on the books yet, and nothing in the log is about its op id.
pub record IsFresh (op actual : ℕ) (s : Gateway) : Type 0 where
  pub due : is_due (account op s.books) ≡ true
  pub agreed : every (agrees op actual) (entries s.wal) ≡ true
  pub whole : s.wal.fragment ≡ none

append-IsOwed :
    (op actual : ℕ) (s : Gateway)
    → IsFresh op actual s
    → IsOwed op actual (record s { wal = append (charge op actual) s.wal })
append-IsOwed op actual s f = record {
  agreed = every-append_entry (agrees op actual) (charge op actual) s.wal f.agreed (ground arith);
  due = ground (
    arith,
    f.due,
    f.whole,
    readable-append_entry (charge op actual) s.wal,
    any-append (is_charge op actual) (readable s.wal.lines)
        (added s.wal.fragment (charge op actual)),
  );
}

settle_until-IsOwed :
    (cut : Cut) (op actual : ℕ) (reply : Reply) (compacted : Bool) (s : Gateway)
    → IsFresh op actual s
    → IsOwed op actual (settle_until cut op actual reply compacted s)
settle_until-IsOwed cut op actual reply compacted s f =
    rw (settle_until-run cut op actual reply compacted s) (
      run-IsOwed op actual (events_of cut op actual reply compacted s.books) _
        (settle_until-allowed cut op actual reply compacted s) (append-IsOwed op actual s f))

pub replay_outbox-books :
    (replies : ℕ → Reply) (compacted : Bool) (s : Gateway)
    → (replay_outbox replies compacted s).books ≡ (replay_each replies (entries s.wal) s.books).1
unfolding replay_outbox
replay_outbox-books replies compacted s = ground arith

pub replay_outbox-paid :
    (op actual : ℕ) (replies : ℕ → Reply) (compacted : Bool) (s : Gateway)
    → ((n : ℕ) → replies n ≡ returns)
    → IsOwed op actual s
    → is_paid actual (account op (replay_outbox replies compacted s).books) ≡ true
replay_outbox-paid op actual replies compacted s up w =
    rw (replay_outbox-books replies compacted s) (
      replay_each-paid op actual replies (entries s.wal) s.books up w.agreed (ground (arith, w.due))
        (ground (arith, w.due, any-entries (is_charge op actual) s.wal)))

-- A settlement is charged exactly as it was asked for: settle is cut off anywhere after its line is
-- durable, or its calls of the store fail before or after the commit; then come any events that do
-- not charge the op id otherwise, release it or sweep it; and a replay that reaches the store leaves
-- the reservation settled at the actual seconds, with one ledger row of as many.
pub settle-replay_once :
    (cut : Cut) (op actual : ℕ) (reply : Reply) (compacted replay_compacts : Bool) (xs : List Event)
    (replies : ℕ → Reply) (s : Gateway)
    → IsFresh op actual s
    → all_allowed op actual xs (settle_until cut op actual reply compacted s) ≡ true
    → ((n : ℕ) → replies n ≡ returns)
    → is_paid actual (
        account op
          (replay_outbox replies replay_compacts
            (run xs (settle_until cut op actual reply compacted s))).books)
      ≡ true
settle-replay_once cut op actual reply compacted replay_compacts xs replies s f h up =
    replay_outbox-paid op actual replies replay_compacts _ up
      (run-IsOwed op actual xs _ h (settle_until-IsOwed cut op actual reply compacted s f))
