-- ===== src/Policies/Unanswered.antt =====
-- gateway/app/scheduler.py: a watch whose run the trainer does not know.
use mlops_lite.Base.{
  ℕ, Bool, true, false, Option, none, some, List, [], ◌∷◌, ◌≡◌, refl, arith, every, is_some, leb,
  ltb, ◌+◌, ◌&&◌, is_answered, if◌then◌else◌, Bool-cases, chosen, subst, ap, choice_cases, inl, inr,
  sym, ◌∙◌, map,
}
use mlops_lite.Policies.Breaches.{
  CheckAnswers, with_action, handle_breach, on_checked, run_due_checks, first_breach,
}
use mlops_lite.Policies.Retries.{RetryAnswers, retry_park, retry_pending}
use mlops_lite.Policies.State.{
  save_status, check_done, Ended, Action, raised, acted, Config, Policy, Watch, World, Breach,
}
use mlops_lite.Policies.Tick.{and_then, and_then_cases, nothing, Answers, tick_policy}
use mlops_lite.Policies.Watches.{
  Run, WatchAnswers, unknown, on_unknown, poll_watch, poll_if_watched, poll_watched,
}

-- The store answers every call of a tick.
abbrev pub is_served : Answers → Bool
is_served a =
    a.retrying.reads_pending
    && (a.checking.reads_status
        && (is_answered a.checking.saves
            && (a.checking.breaching.reads_status
                && (a.watching.reads_status && is_answered a.watching.saves))))

-- What a failed poll makes of the watch.
abbrev pub aged : Config → (now : ℕ) → Watch → Option Watch
aged c now t = elim t.unknown_since [
  | none ↦ some (record t { unknown_since = some now })
  | some first ↦ if ltb (first + c.watch_unknown_timeout) now then none else some t
]

-- A step that ends without an exception, with a property of the state.
abbrev Went : (World → Type 0) → Ended × World → Type 0
Went P (raised, w) = ⊥
Went P (acted xs, w) = P w

went-then :
    (P Q : World → Type 0) (x : Ended × World) (rest : World → List Action × World)
    → Went P x
    → ((u : World) → P u → Q (rest u).1)
    → Q (and_then x rest).1
went-then P Q (raised, w) rest g f = absurd g
went-then P Q (acted xs, w) rest g f = f w g

-- No park, and a watch.
abbrev IsWatched : Watch → World → Type 0
IsWatched t w = (w.pending ≡ none) × (w.status.watch ≡ some t)

retry_pending-Went :
    (c : Config) (p : Policy) (now : ℕ) (a : RetryAnswers) (t : Watch) (w : World)
    → a.reads_pending ≡ true
    → IsWatched t w
    → Went (IsWatched t) (retry_pending c p now a w)
unfolding retry_pending retry_park
retry_pending-Went c p now a t w r (e, h) =
    chosen (Went (IsWatched t)) a.reads_pending _ r
      (subst (λ o. Went (IsWatched t) (retry_park c p now a o w)) (sym e) (e, h))

-- A check of a watched policy defers its breach.
on_checked-Went :
    (c : Config) (p : Policy) (now : ℕ) (a : CheckAnswers) (o : Option Breach) (t : Watch)
    (w : World)
    → a.breaching.reads_status ≡ true
    → IsWatched t w
    → Went (IsWatched t) (on_checked c p now a o w)
unfolding on_checked handle_breach
on_checked-Went c p now a none t w r i = i
on_checked-Went c p now a (some b) t w r (e, h) =
    let P : Ended × World → Type 0 =
      λ (x : Ended × World). Went (IsWatched t) (with_action (check_done true) x) in
    chosen P a.breaching.reads_status _ r
      (chosen P (is_some w.status.watch) _ (ap (λ (o : Option Watch). is_some o) h) (e, h))

run_due_checks-Went :
    (c : Config) (p : Policy) (now : ℕ) (a : CheckAnswers) (t : Watch) (w : World)
    → a.reads_status ≡ true
    → is_answered a.saves ≡ true
    → a.breaching.reads_status ≡ true
    → IsWatched t w
    → Went (IsWatched t) (run_due_checks c p now a w)
unfolding run_due_checks
run_due_checks-Went c p now a t w r v k i =
    let P = Went (IsWatched t) in
    let found = map (λ kind. (kind, a.checks kind)) p.monitors in
    let saved =
      save_status a.saves
        (record w.status {
          last_check_at = now;
          results = found;
          next_due_at = now + p.check_interval;
        })
        w in
    chosen P a.reads_status _ r (
      choice_cases P (ltb now (w.status.last_check_at + p.check_interval)) (λ _. i)
        (λ _. chosen P (is_answered a.saves) _ v (
          on_checked-Went c p now a (first_breach now found) t saved k (i.0, ground (arith, i.1)))))

-- After the poll.
abbrev pub IsAged : Config → (now : ℕ) → Watch → World → Type 0
IsAged c now t w = (w.pending ≡ none) × (w.status.watch ≡ aged c now t)

on_unknown-IsAged :
    (c : Config) (now : ℕ) (a : WatchAnswers) (t : Watch) (w : World)
    → is_answered a.saves ≡ true
    → IsWatched t w
    → IsAged c now t (on_unknown c now a t w).1
unfolding on_unknown
on_unknown-IsAged c now a t w v (e, h) = (ground (arith, v, e), ground (arith, v, h))

poll_watch-IsAged :
    (c : Config) (p : Policy) (now : ℕ) (a : WatchAnswers) (t : Watch) (w : World)
    → a.reads_status ≡ true
    → is_answered a.saves ≡ true
    → a.run ≡ unknown
    → IsWatched t w
    → IsAged c now t (poll_watch c p now a w).1
unfolding poll_watch poll_watched
poll_watch-IsAged c p now a t w r v lost (e, h) =
    let Q : Ended × World → Type 0 = λ (x : Ended × World). IsAged c now t x.1 in
    chosen Q a.reads_status _ r (
      subst (λ o. Q (poll_if_watched c p now a o w)) (sym h)
        (subst (λ run. Q (poll_watched c p now a run t w)) (sym lost)
          (on_unknown-IsAged c now a t w v (e, h))))

pub tick_policy-unanswered :
    (c : Config) (p : Policy) (now : ℕ) (a : Answers) (t : Watch) (w : World)
    → p.enabled ≡ true
    → is_served a ≡ true
    → a.watching.run ≡ unknown
    → IsWatched t w
    → IsAged c now t (tick_policy c p now a w).1
unfolding tick_policy
tick_policy-unanswered c p now a t w on good lost i =
    let Q : World → Type 0 = IsAged c now t in
    let after_check : World → List Action × World =
      λ u. and_then (poll_watch c p now a.watching u) nothing in
    let after_retry : World → List Action × World =
      λ u. and_then (run_due_checks c p now a.checking u) after_check in
    chosen (λ (x : List Action × World). Q x.1) p.enabled _ on
      (went-then (IsWatched t) Q (retry_pending c p now a.retrying w) after_retry
        (retry_pending-Went c p now a.retrying t w (ground (arith, good)) i)
        (λ u iu.
          went-then (IsWatched t) Q (run_due_checks c p now a.checking u) after_check
            (run_due_checks-Went c p now a.checking t u (ground (arith, good))
              (ground (arith, good)) (ground (arith, good)) iu)
            (λ v iv.
              and_then_cases Q (poll_watch c p now a.watching v) nothing
                (poll_watch-IsAged c p now a.watching t v (ground (arith, good))
                  (ground (arith, good)) lost iv)
                (λ z q. q))))

-- Ticks one after another, and whether the watch is there after each of them.
unfoldable pub outlasts : Config → Policy → List (ℕ × Answers) → World → Bool
outlasts c p [] w = true
outlasts c p ((now, a) ∷ xs) w =
    let after = (tick_policy c p now a w).1 in is_some after.status.watch && outlasts c p xs after

abbrev is_unknown : Run → Bool
is_unknown unknown = true
is_unknown _ = false

is_unknown→unknown : (r : Run) → is_unknown r ≡ true → r ≡ unknown
is_unknown→unknown r h = ground (arith, h)

abbrev pub is_lost : ℕ × Answers → Bool
is_lost (now, a) = is_served a && is_unknown a.watching.run

lost-bound :
    (c : Config) (p : Policy) (xs : List (ℕ × Answers)) (first : ℕ) (t : Watch) (w : World)
    → p.enabled ≡ true
    → every is_lost xs ≡ true
    → t.unknown_since ≡ some first
    → IsWatched t w
    → outlasts c p xs w ≡ true
    → every (λ (x : ℕ × Answers). leb x.0 (first + c.watch_unknown_timeout)) xs ≡ true
unfolding outlasts
lost-bound c p [] first t w on l s i o = refl
lost-bound c p ((now, a) ∷ xs) first t w on l s i o =
    let aging =
      tick_policy-unanswered c p now a t w on (ground (arith, l))
        (is_unknown→unknown a.watching.run (ground (arith, l))) i in
    elim (Bool-cases (ltb (first + c.watch_unknown_timeout) now)) [
      | inl over ↦ ground (arith, over, s, o, aging.1)
      | inr within ↦
          let kept : (tick_policy c p now a w).1.status.watch ≡ some t =
            aging.1 ∙ ground (arith, within, s) in
          ground (
            arith,
            within,
            lost-bound c p xs first t (tick_policy c p now a w).1 on (ground (arith, l)) s
                (aging.0, kept) (ground (arith, o)),
          )
    ]

-- A run that the trainer no longer knows does not hold its policy for ever: while the store answers and
-- the trainer does not, a watch that is still there after each of the ticks is no older than the
-- timeout, counted from the first of them, at the last. No retrain is parked, since one that is
-- launched would begin a watch of its own.
pub unanswered-bound :
    (c : Config) (p : Policy) (now : ℕ) (a : Answers) (xs : List (ℕ × Answers)) (t : Watch)
    (w : World)
    → p.enabled ≡ true
    → every is_lost ((now, a) ∷ xs) ≡ true
    → t.unknown_since ≡ none
    → (w.pending ≡ none) × (w.status.watch ≡ some t)
    → outlasts c p ((now, a) ∷ xs) w ≡ true
    → every (λ (x : ℕ × Answers). leb x.0 (now + c.watch_unknown_timeout)) xs ≡ true
unfolding outlasts
unanswered-bound c p now a xs t w on l s i o =
    let aging =
      tick_policy-unanswered c p now a t w on (ground (arith, l))
        (is_unknown→unknown a.watching.run (ground (arith, l))) i in
    lost-bound c p xs now (record t { unknown_since = some now }) (tick_policy c p now a w).1 on
      (ground (arith, l)) refl (aging.0, aging.1 ∙ ground (arith, s)) (ground (arith, o))
