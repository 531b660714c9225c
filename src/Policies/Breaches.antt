-- ===== src/Policies/Breaches.antt =====
-- gateway/app/scheduler.py: _run_due_checks and _handle_breach.
use mlops_lite.Base.{
  ℕ, Bool, true, false, Option, none, some, List, [], ◌∷◌, map, Reply, is_answered, is_some, ltb,
  ◌+◌, ◌==◌, if◌then◌else◌, choice_cases,
}
use mlops_lite.Policies.Cooldown.{try_reserve_retrain}
use mlops_lite.Policies.Launching.{LaunchAnswers, Launched, busy, launched, launch}
use mlops_lite.Policies.Retries.{release}
use mlops_lite.Policies.State.{
  Action, Status, Breach, Checked, Config, Ended, Pending, Policy, World, acted,
  breach_deferred_watch, breach_in_cooldown, breach_superseded_pending, check_done, check_error,
  checked, put_pending, raised, retrain_failed, retrain_launched, retrain_park_failed,
  retrain_parked, save_status,
}

pub record BreachAnswers : Type 0 where
  pub reads_status : Bool
  pub reads_pending : Bool
  pub saves : Reply
  pub reserved_at : ℕ
  pub launching : LaunchAnswers

abbrev pub first_park : Config → (now : ℕ) → Breach → Pending
first_park c now b = record {
  breach = b;
  attempts = 1;
  next_attempt_at = now + c.backoff_base;
  landed = false;
}

-- What follows the launch, under the reservation `token`.
unfoldable pub after_breach :
    Config → (now : ℕ) → BreachAnswers → Breach → (token : ℕ) → Launched → World → Ended × World
after_breach c now a b token busy w =
    let parked = put_pending a.saves (some (first_park c now b)) w in
    if is_answered a.saves
    then (acted (retrain_parked ∷ []), parked)
    else (acted (retrain_park_failed ∷ []), release (some token) parked)
after_breach c now a b token (launched run) w = (acted (retrain_launched run ∷ []), w)
after_breach c now a b token _ w = (acted (retrain_failed ∷ []), release (some token) w)

-- What follows the reservation. A token of 0 is false.
unfoldable pub with_reservation :
    Config → Policy → (now : ℕ) → BreachAnswers → Breach → World → Option ℕ × ℕ → Ended × World
with_reservation c p now a b w (none, stamp) =
    (acted (breach_in_cooldown ∷ []), record w { stamp = stamp })
with_reservation c p now a b w (some token, stamp) =
    let held = record w { stamp = stamp } in
    let tried = launch p.pinned a.launching held in
    if token == 0
    then (acted (breach_in_cooldown ∷ []), held)
    else after_breach c now a b token (tried.0) (tried.1)

abbrev pub reserve_and_launch :
    Config → Policy → (now : ℕ) → BreachAnswers → Breach → World → Ended × World
reserve_and_launch c p now a b w =
    with_reservation c p now a b w (try_reserve_retrain a.reserved_at c.cooldown w.stamp)

-- A live park takes the newer breach; a landed one does not count.
unfoldable pub supersede_or_launch :
    Config → Policy → (now : ℕ) → BreachAnswers → Breach → Option Pending → World → Ended × World
supersede_or_launch c p now a b none w = reserve_and_launch c p now a b w
supersede_or_launch c p now a b (some q) w =
    let parked = put_pending a.saves (some (record q { breach = b })) w in
    if q.landed
    then reserve_and_launch c p now a b w
    else if is_answered a.saves
    then (acted (breach_superseded_pending ∷ []), parked)
    else (raised, parked)

unfoldable pub handle_breach :
    Config → Policy → (now : ℕ) → BreachAnswers → Breach → World → Ended × World
handle_breach c p now a b w =
    if a.reads_status
    then (if is_some w.status.watch
        then (acted (breach_deferred_watch ∷ []), w)
        else if a.reads_pending
        then supersede_or_launch c p now a b w.pending w
        else (raised, w))
    else (raised, w)

pub record CheckAnswers : Type 0 where
  pub reads_status : Bool
  pub checks : (monitor : ℕ) → Checked
  pub saves : Reply
  pub breaching : BreachAnswers

-- The first monitor that is breached.
unfoldable pub first_breach : (now : ℕ) → List (ℕ × Checked) → Option Breach
first_breach now [] = none
first_breach now ((kind, check_error) ∷ rs) = first_breach now rs
first_breach now ((kind, checked false score) ∷ rs) = first_breach now rs
first_breach now ((kind, checked true score) ∷ rs) =
    some (record { signal = kind; score = score; at = now })

abbrev pub with_action : Action → Ended × World → Ended × World
with_action x (raised, w) = (raised, w)
with_action x (acted xs, w) = (acted (x ∷ xs), w)

pub with_action-keeps {ℓ} :
    (P : World → Type ℓ) (x : Action) (e : Ended × World) → P e.1 → P (with_action x e).1
with_action-keeps P x (raised, w) h = h
with_action-keeps P x (acted xs, w) h = h

-- What follows the saved status.
unfoldable pub on_checked :
    Config → Policy → (now : ℕ) → CheckAnswers → Option Breach → World → Ended × World
on_checked c p now a none w = (acted (check_done false ∷ []), w)
on_checked c p now a (some b) w =
    with_action (check_done true) (handle_breach c p now a.breaching b w)

unfoldable pub run_due_checks : Config → Policy → (now : ℕ) → CheckAnswers → World → Ended × World
run_due_checks c p now a w =
    let found = map (λ kind. (kind, a.checks kind)) p.monitors in
    let saved =
      save_status a.saves
        (record w.status {
          last_check_at = now;
          results = found;
          next_due_at = now + p.check_interval;
        })
        w in
    if a.reads_status
    then (if ltb now (w.status.last_check_at + p.check_interval)
        then (acted [], w)
        else if is_answered a.saves
        then on_checked c p now a (first_breach now found) saved
        else (raised, saved))
    else (raised, w)

-- What holds of the row before, with any status, and after the handling of a breach.
pub run_due_checks_cases {ℓ} :
    (P : World → Type ℓ) (c : Config) (p : Policy) (now : ℕ) (a : CheckAnswers) (w : World)
    → P w
    → ((s : Status) → P (save_status a.saves s w))
    → ((o : Option Breach) (s : Status) → P (on_checked c p now a o (save_status a.saves s w)).1)
    → P (run_due_checks c p now a w).1
unfolding run_due_checks
run_due_checks_cases P c p now a w h f g =
    let Q : Ended × World → Type ℓ = λ (x : Ended × World). P x.1 in
    choice_cases Q a.reads_status
      (λ _.
        choice_cases Q (ltb now (w.status.last_check_at + p.check_interval)) (λ _. h)
          (λ _. choice_cases Q (is_answered a.saves) (λ _. g _ _) (λ _. f _)))
      (λ _. h)
