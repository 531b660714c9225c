-- ===== src/Outbox/Replay.antt =====
-- gateway/app/metering.py: settle and replay_outbox are histories of the events of the outbox, and a
-- replay that reaches the store charges what is owed.
use mlops_lite.Base.{
  ℕ, suc, List, [], ◌∷◌, none, some, Bool, true, false, ◌==◌, ◌&&◌, ◌||◌, ◌≡◌, refl, contains, any,
  every, arith, Bool-cases, inl, inr, raises_after, returns, commits, Reply, raises_before,
}
use mlops_lite.Metering.Books.{Books}
use mlops_lite.Outbox.Accounts.{
  Account, account, is_open, settle_account, account-settle, account-release,
}
use mlops_lite.Outbox.File.{Entry, charge, refund, op_of}
use mlops_lite.Outbox.Owed.{
  store_entry-account, settle_account-due, agrees, store_settle-books, is_charge,
  store_release-books, is_due, is_paid,
}
use mlops_lite.Outbox.Service.{store_settle, store_entry, returned, replay_each, Stored, raised}

abbrev pub is_returned : Stored → Bool
is_returned raised = false
is_returned (returned _) = true

settle_account-closed : (actual : ℕ) (a : Account) → is_open (settle_account actual a).0 ≡ false
settle_account-closed actual (none, row) = refl
settle_account-closed actual (some r, row) = ground arith

store_settle-commits :
    (o n : ℕ) (reply : Reply) (b : Books)
    → is_returned (store_settle o n reply b).0 ≡ true
    → commits reply ≡ true
unfolding store_settle
store_settle-commits o n raises_before b h = ground arith
store_settle-commits o n raises_after b h = refl
store_settle-commits o n returns b h = refl

-- A call of the store that returns leaves the reservation of its op id closed.
pub store_entry-closed :
    (op actual : ℕ) (e : Entry) (reply : Reply) (b : Books)
    → agrees op actual e ≡ true
    → (is_returned (store_entry e reply b).0 && op_of e == op) ≡ true
    → is_open (account op (store_entry e reply b).1).0 ≡ false
unfolding store_entry
store_entry-closed op actual (charge o n) reply b h q = rw (store_settle-books o n reply b) (
    ground (
      arith,
      store_settle-commits o n reply b,
      account-settle o n op b,
      settle_account-closed n (account op b),
    ))
store_entry-closed op actual (refund o) reply b h q = ground arith

store_entry-open :
    (op actual : ℕ) (e : Entry) (reply : Reply) (b : Books)
    → agrees op actual e ≡ true
    → is_open (account op b).0 ≡ false
    → is_open (account op (store_entry e reply b).1).0 ≡ false
store_entry-open op actual e reply b h o = elim (store_entry-account op actual e reply b h) [
  | inl same ↦ rw same o
  | inr new ↦ rw new (settle_account-closed actual (account op b))
]

replay_each-open :
    (op actual : ℕ) (replies : ℕ → Reply) (es : List Entry) (b : Books)
    → every (agrees op actual) es ≡ true
    → is_open (account op b).0 ≡ false
    → is_open (account op (replay_each replies es b).1).0 ≡ false
unfolding replay_each
replay_each-open op actual replies [] b h o = o
replay_each-open op actual replies (e ∷ es) b h o =
    replay_each-open op actual (λ n. replies (suc n)) es (store_entry e (replies 0) b).1
      (ground arith) (store_entry-open op actual e (replies 0) b (ground arith) o)

-- The op ids that a replay writes off are closed.
pub replay_each-done :
    (op actual : ℕ) (replies : ℕ → Reply) (es : List Entry) (b : Books)
    → every (agrees op actual) es ≡ true
    → contains op (replay_each replies es b).0 ≡ true
    → is_open (account op (replay_each replies es b).1).0 ≡ false
unfolding replay_each
replay_each-done op actual replies [] b h c = ground arith
replay_each-done op actual replies (e ∷ es) b h c =
    let b' = (store_entry e (replies 0) b).1 in
    let later = λ (n : ℕ). replies (suc n) in
    elim (Bool-cases (is_returned (store_entry e (replies 0) b).0 && op_of e == op)) [
      | inl here ↦
          replay_each-open op actual later es b' (ground arith)
            (store_entry-closed op actual e (replies 0) b (ground arith) here)
      | inr not_here ↦ replay_each-done op actual later es b' (ground arith) (ground arith)
    ]

store_entry-paid :
    (op actual : ℕ) (e : Entry) (reply : Reply) (b : Books)
    → reply ≡ returns
    → agrees op actual e ≡ true
    → (is_due (account op b) || is_paid actual (account op b)) ≡ true
    → (is_charge op actual e || is_paid actual (account op b)) ≡ true
    → is_paid actual (account op (store_entry e reply b).1) ≡ true
unfolding store_entry
store_entry-paid op actual (charge o n) reply b up h d c =
    rw (store_settle-books o n reply b)
      (ground (arith, up, account-settle o n op b, settle_account-due actual (account op b)))
store_entry-paid op actual (refund o) reply b up h d c =
    rw (store_release-books o reply b) (ground (arith, account-release o op b))

-- What is owed is paid once a replay has reached the store with it.
pub replay_each-paid :
    (op actual : ℕ) (replies : ℕ → Reply) (es : List Entry) (b : Books)
    → ((n : ℕ) → replies n ≡ returns)
    → every (agrees op actual) es ≡ true
    → (is_due (account op b) || is_paid actual (account op b)) ≡ true
    → (any (is_charge op actual) es || is_paid actual (account op b)) ≡ true
    → is_paid actual (account op (replay_each replies es b).1) ≡ true
unfolding replay_each
replay_each-paid op actual replies [] b up h d c = ground arith
replay_each-paid op actual replies (e ∷ es) b up h d c =
    let b' = (store_entry e (replies 0) b).1 in
    let rest =
      replay_each-paid op actual (λ n. replies (suc n)) es b' (λ n. up (suc n)) (ground arith) in
    elim (Bool-cases (is_charge op actual e || is_paid actual (account op b))) [
      | inl paid ↦
          let now = store_entry-paid op actual e (replies 0) b (up 0) (ground arith) d paid in
          rest (ground (arith, now)) (ground (arith, now))
      | inr unpaid ↦ elim (store_entry-account op actual e (replies 0) b (ground arith)) [
        | inl same ↦ rest (rw same d) (rw same (ground arith))
        | inr new ↦
            let now = settle_account-due actual (account op b) d in
            rest (rw new (ground (arith, now))) (rw new (ground (arith, now)))
      ]
    ]
