-- ===== src/Outbox/Service.antt =====
-- gateway/app/metering.py: reserve_or_refuse, settle, release, sweep_orphaned_reservations and
-- replay_outbox, on the books of Metering.
use mlops_lite.Metering.Books
use mlops_lite.Base.{
  ℕ, suc, List, [], ◌∷◌, Option, none, some, Bool, if◌then◌else◌, lookup, is_empty, raises_after,
  returns, Reply, raises_before,
}
use mlops_lite.Metering.Books.{
  Books, Reserve, Refused, Reservation, Window, ReservationState, authorized, turned_away,
  quota_exhausted, reservation_finished, is_settled, reserve, sweep,
}
use mlops_lite.Outbox.File.{
  File, Entry, charge, refund, op_of, append, entries, compact, Append, appended, append_until,
}

pub record Gateway : Type 0 where
  pub wal : File
  pub books : Books

pub data Stored : Type 0 where
  raised : Stored
  returned : Option Reservation → Stored

abbrev pub answer : Reply → (op : ℕ) → (before after : Books) → Stored × Books
answer raises_before op before after = (raised, before)
answer raises_after op before after = (raised, after)
answer returns op before after = (returned (lookup op after.reservations), after)

-- store.settle raises for an op id that has no reservation.
unfoldable pub store_settle : (op actual : ℕ) → Reply → Books → Stored × Books
store_settle op actual reply b = elim (lookup op b.reservations) [
  | none ↦ (raised, b)
  | some _ ↦ answer reply op b (Books.settle op actual b)
]

unfoldable pub store_release : (op : ℕ) → Reply → Books → Stored × Books
store_release op reply b = answer reply op b (Books.release op b)

-- The flags of what settle returns; `failed` is the exception of _wal_append.
pub data Outcome : Type 0 where
  settled deferred dropped failed : Outcome

abbrev pub outcome_of : Option Reservation → Outcome
outcome_of none = dropped
outcome_of (some r) = if is_settled r.state then settled else dropped

-- `_wal_compact({op_id})`, where it does not raise.
abbrev pub finish_settle : (op : ℕ) → (compacts : Bool) → Stored → Gateway → Outcome × Gateway
finish_settle op compacts raised s = (deferred, s)
finish_settle op compacts (returned r) s =
    if compacts then (outcome_of r, record s { wal = compact (op ∷ []) s.wal }) else (deferred, s)

unfoldable pub settle :
    (op actual : ℕ) → Append → Reply → (compacts : Bool) → Gateway → Outcome × Gateway
settle op actual appended reply compacts s =
    let stored = store_settle op actual reply s.books in
    finish_settle op compacts stored.0
      (record { wal = append (charge op actual) s.wal; books = stored.1 })
settle op actual x reply compacts s =
    (failed, record s { wal = append_until x (charge op actual) s.wal })

abbrev pub finish_release : (op : ℕ) → (compacts : Bool) → Stored → Gateway → Gateway
finish_release op compacts raised s = s
finish_release op compacts (returned r) s =
    if compacts then record s { wal = compact (op ∷ []) s.wal } else s

unfoldable pub release : (op : ℕ) → Append → Reply → (compacts : Bool) → Gateway → Gateway
release op appended reply compacts s =
    let stored = store_release op reply s.books in
    finish_release op compacts stored.0
      (record { wal = append (refund op) s.wal; books = stored.1 })
release op x reply compacts s = record s { wal = append_until x (refund op) s.wal }

-- sweep_orphaned_reservations, with the kind `inference` and the TTL.
unfoldable pub sweep_orphaned : (inference now ttl : ℕ) → Reply → Gateway → Gateway
sweep_orphaned inference now ttl raises_before s = s
sweep_orphaned inference now ttl _ s = record s { books = sweep inference now ttl s.books }

unfoldable pub store_entry : Entry → Reply → Books → Stored × Books
store_entry (charge op seconds) reply b = store_settle op seconds reply b
store_entry (refund op) reply b = store_release op reply b

abbrev pub add_done : Stored → (op : ℕ) → List ℕ → List ℕ
add_done raised op done = done
add_done (returned _) op done = op ∷ done

-- The loop of replay_outbox, with the store's reply for each entry: the op ids done.
unfoldable pub replay_each : (ℕ → Reply) → List Entry → Books → List ℕ × Books
replay_each replies [] b = ([], b)
replay_each replies (e ∷ es) b =
    let stored = store_entry e (replies 0) b in
    let rest = replay_each (λ n. replies (suc n)) es stored.1 in
    (add_done stored.0 (op_of e) rest.0, rest.1)

unfoldable pub replay_outbox : (ℕ → Reply) → (compacts : Bool) → Gateway → Gateway
replay_outbox replies compacts s =
    let replayed = replay_each replies (entries s.wal) s.books in
    if is_empty replayed.0
    then record s { books = replayed.1 }
    else if compacts
    then record { wal = compact replayed.0 s.wal; books = replayed.1 }
    else record s { books = replayed.1 }

-- The HTTP refusals, and the reservation that authorizes the work.
pub data Authorization : Type 0 where
  permitted : Reservation → Authorization
  forbidden exhausted unavailable : Authorization

abbrev pub refusal : Refused → Authorization
refusal quota_exhausted = exhausted
refusal (reservation_finished _) = forbidden

abbrev pub authorization : Reserve → Authorization
authorization (authorized r) = permitted r
authorization (turned_away e) = refusal e

-- One call of store.reserve, with `run` for the arguments it always gets: none if it raised.
abbrev pub try_reserve : Reply → (Books → Reserve × Books) → Books → Option Authorization × Books
try_reserve raises_before run b = (none, b)
try_reserve raises_after run b = (none, (run b).1)
try_reserve returns run b = (some (authorization (run b).0), (run b).1)

abbrev pub or_unavailable : Option Authorization → Authorization
or_unavailable none = unavailable
or_unavailable (some a) = a

-- The first call of conn(), the first call of the store, and the retry on a fresh connection.
unfoldable pub reserve_or_refuse :
    (op tenant kind est now : ℕ)
    → (default_budget : Option ℕ) → (Window → ℕ)
    → (connects : Bool) → (first second : Reply) → Books
    → Authorization × Books
reserve_or_refuse op tenant kind est now default_budget starts connects first second b =
    let run = λ (c : Books). reserve op tenant kind est now default_budget starts c in
    if connects
    then (let tried = try_reserve first run b in
        elim tried.0 [
          | some a ↦ (a, tried.1)
          | none ↦ let again = try_reserve second run tried.1 in (or_unavailable again.0, again.1)
        ])
    else (unavailable, b)
