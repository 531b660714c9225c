-- ===== src/Coordinator/Histories.antt =====
-- hostagent/coordinator.py: invariant 4 of check_invariants over whole histories of sections.
use mathlib.Core.Bool.{false≢true}
use mlops_lite.Base.{
  ◌∙◌, sym, [], true, contains, List, length, ◌∷◌, ◌≡◌, arith, false, ℕ, ap, lookup, some, none,
  refl, ◌==◌, ◌≢◌, lookup-erase, Bool, Option,
}
use mlops_lite.Coordinator.Admitting.{stage1-IsBalanced}
use mlops_lite.Coordinator.Balance.{IsBalanced, same-IsBalanced, reclaim-IsBalanced}
use mlops_lite.Coordinator.Counting.{load_failed-IsBalanced, commit-IsBalanced, owned_idle, owned}
use mlops_lite.Coordinator.Disposing.{
  finish_wait-IsBalanced, dispose-IsBalanced, evict_poll-IsBalanced, evict_mark-IsBalanced,
}
use mlops_lite.Coordinator.Draining.{
  begin_job-IsBalanced, finish_job-IsBalanced, forget-IsBalanced, set_child-IsBalanced,
}
use mlops_lite.Coordinator.Eviction.{end_evictions, end_job, emptied, evict_poll}
use mlops_lite.Coordinator.Handoff.{reclaim}
use mlops_lite.Coordinator.Loading.{reconcile, begin_rollback, commit_cases, commit}
use mlops_lite.Coordinator.Release.{release-IsBalanced}
use mlops_lite.Coordinator.Sections.{
  ends_evictions, Section, sets_child, ends_job, run_section, stage1s, releases, finishes_wait,
  begins_job, disposes, load_fails, finishes_job, marks, commits, polls, reconciles, forgets,
  reclaims,
}
use mlops_lite.Coordinator.State.{
  active_of, Claim, claims_of, Coordinator, Machine, Child, bump_generation, init, Reservation,
  generation_of,
}

-- What the caller of a section has to see to: the end of a load or of an eviction belongs to the
-- operation whose entry it is, and a resident is forgotten only with no request in flight.
abbrev pub IsAllowed : Section → Coordinator → Type 0
IsAllowed (commits wall key op_id real_bytes child deferred) s = owned s key ≡ true
IsAllowed (load_fails key op_id) s = owned s key ≡ true
IsAllowed (reclaims key) s = owned s key ≡ true
IsAllowed (forgets key) s = active_of s key ≡ 0
IsAllowed _ s = Unit {0}

run_section-IsBalanced :
    (m : Machine) (x : Section) (s : Coordinator)
    → IsAllowed x s
    → IsBalanced s
    → IsBalanced (run_section m x s)
unfolding run_section
run_section-IsBalanced m (stage1s io key e op) s a v = stage1-IsBalanced m io key e op s v
run_section-IsBalanced m (reconciles op real true) s a v = unfold reconcile in v
run_section-IsBalanced m (reconciles op real false) s a v =
    unfold reconcile in same-IsBalanced s _ (refl, refl, refl) refl v
run_section-IsBalanced m (commits wall key op real child deferred) s a v =
    commit-IsBalanced m wall key op real child deferred s a v
run_section-IsBalanced m (load_fails key op) s a v = load_failed-IsBalanced key op s a v
run_section-IsBalanced m (disposes d ws owner) s a v = dispose-IsBalanced d ws owner s v
run_section-IsBalanced m (reclaims key) s a v = reclaim-IsBalanced key s (owned_idle key s a v) v
run_section-IsBalanced m (finishes_wait w) s a v = finish_wait-IsBalanced w s v
run_section-IsBalanced m (marks key) s a v = evict_mark-IsBalanced key s v
run_section-IsBalanced m (polls key now deadline) s a v = evict_poll-IsBalanced key now deadline s v
run_section-IsBalanced m (forgets key) s a v = forget-IsBalanced key s a v
run_section-IsBalanced m (ends_evictions op) s a v =
    unfold end_evictions in same-IsBalanced s _ (refl, refl, refl) refl v
run_section-IsBalanced m begins_job s a v = begin_job-IsBalanced s v
run_section-IsBalanced m (finishes_job job wall drained) s a v =
    finish_job-IsBalanced job wall drained s v
run_section-IsBalanced m (ends_job none) s a v =
    unfold end_job in same-IsBalanced s _ (refl, refl, refl) refl v
run_section-IsBalanced m (ends_job (some job)) s a v =
    unfold end_job in
    same-IsBalanced s _ (ground arith, ground arith, ground arith) (ground arith) v
run_section-IsBalanced m (sets_child key pid measured) s a v =
    set_child-IsBalanced key pid measured s v
run_section-IsBalanced m (releases wall claim) s a v = release-IsBalanced wall claim s v

-- A history in which every section is allowed where it runs.
pub data Trace (m : Machine) (s : Coordinator) : Coordinator → Type 0 where
  here : Trace m s s
  next :
      {t : Coordinator}
      → Trace m s t
      → (x : Section) → IsAllowed x t
      → Trace m s (run_section m x t)

init-IsBalanced : IsBalanced init
unfolding init active_of claims_of lookup
init-IsBalanced = record {
  balanced = λ k. refl;
  ordered = λ k. tt;
  held = λ i c e n. cc;
  quiet = λ k r e n. cc;
}

Trace-IsBalanced : {m : Machine} {s t : Coordinator} → IsBalanced s → Trace m s t → IsBalanced t
Trace-IsBalanced v here = v
Trace-IsBalanced {m} v (next {t} h x a) = run_section-IsBalanced m x t a (Trace-IsBalanced v h)

-- Along any allowed history from the start, the count of active requests of every model is the
-- number of its claims that are outstanding.
pub active_of-claims_of :
    (m : Machine) (s : Coordinator) (key : ℕ)
    → Trace m init s
    → active_of s key ≡ length (claims_of s key)
active_of-claims_of m s key h = (Trace-IsBalanced init-IsBalanced h).balanced key

-- Along any allowed history from the start, each claim that is not yet released is outstanding.
pub released-claims_of :
    (m : Machine) (s : Coordinator) (claim : ℕ) (c : Claim)
    → Trace m init s
    → lookup claim s.claim_store ≡ some c
    → c.released ≡ false
    → contains claim (claims_of s c.model_key) ≡ true
released-claims_of m s claim c h = (Trace-IsBalanced init-IsBalanced h).held claim c

evict_poll-emptied :
    (key now deadline : ℕ) (s : Coordinator) (child : Option Child)
    → (evict_poll key now deadline s).0 ≡ emptied child
    → active_of s key ≡ 0
unfolding evict_poll active_of
evict_poll-emptied key now deadline s child h = ground arith

length_zero : {A : Type 0} (xs : List A) → length xs ≡ 0 → xs ≡ []
length_zero [] h = refl
length_zero (x ∷ xs) h = absurd (omega arith)

-- After any allowed history from the start, an eviction goes on to unload a model only when no claim on
-- it is outstanding. A history is allowed if every load and every eviction ends on the entry of its own
-- operation, and a resident is forgotten only with no request in flight.
pub evict_poll-emptied-claims_of :
    (m : Machine) (s : Coordinator) (key now deadline : ℕ) (child : Option Child)
    → Trace m init s
    → (evict_poll key now deadline s).0 ≡ emptied child
    → claims_of s key ≡ []
evict_poll-emptied-claims_of m s key now deadline child h e = length_zero _ (
    sym ((Trace-IsBalanced init-IsBalanced h).balanced key)
    ∙ evict_poll-emptied key now deadline s child e)

claims_of-reclaim : (key : ℕ) (s : Coordinator) → claims_of (reclaim key s) key ≡ claims_of s key
unfolding reclaim bump_generation claims_of
claims_of-reclaim key s = refl

active_of-reclaim : (key : ℕ) (s : Coordinator) → active_of (reclaim key s) key ≡ 0
unfolding reclaim bump_generation active_of
active_of-reclaim key s = ground (arith, lookup-erase key key s.residents)

claims_of-commit_stale :
    (m : Machine) (wall key op_id real_bytes : ℕ) (child : Child) (deferred : Bool)
    (r : Reservation) (s : Coordinator)
    → lookup op_id s.reservations ≡ some r
    → (generation_of s key == r.generation) ≡ false
    → claims_of (commit m wall key op_id real_bytes child deferred s).1 key ≡ claims_of s key
claims_of-commit_stale m wall key op_id real_bytes child deferred r s e g =
    commit_cases (λ x. claims_of x.1 key ≡ claims_of s key) m wall key op_id real_bytes child
      deferred s (λ n. refl) (λ x h b. unfold begin_rollback claims_of in refl) (λ x h b k. refl)
      (λ x h y k free same d. absurd (false≢true (sym (stale x h) ∙ same)))
  where
    stale :
        (x : Reservation)
        → lookup op_id s.reservations ≡ some x
        → (generation_of s key == x.generation) ≡ false
    stale x h = ground arith

-- The rollback of a stale load takes the entry away whoever owns it: where another operation has
-- loaded the model in between and its claims are outstanding, they are left without an entry, and
-- the count no longer agrees with them.
pub stale_rollback_displaces :
    (m : Machine) (wall key op_id real_bytes : ℕ) (child : Child) (deferred : Bool)
    (r : Reservation) (s : Coordinator)
    → lookup op_id s.reservations ≡ some r
    → (generation_of s key == r.generation) ≡ false
    → claims_of s key ≢ []
    → let t = reclaim key (commit m wall key op_id real_bytes child deferred s).1 in
      (lookup key t.residents ≡ none)
      × (claims_of t key ≢ [])
      × (active_of t key ≢ length (claims_of t key))
stale_rollback_displaces m wall key op_id real_bytes child deferred r s e g live = (
  unfold reclaim bump_generation in
      (ground (
        arith,
        lookup-erase key key (commit m wall key op_id real_bytes child deferred s).1.residents,
      )),
  λ n. live (sym kept ∙ n),
  λ n. live (length_zero _ (ap length (sym kept) ∙ sym n ∙ active_of-reclaim key _)),
)
  where
    kept :
        claims_of (reclaim key (commit m wall key op_id real_bytes child deferred s).1) key
        ≡ claims_of s key
    kept =
        claims_of-reclaim key _
        ∙ claims_of-commit_stale m wall key op_id real_bytes child deferred r s e g
