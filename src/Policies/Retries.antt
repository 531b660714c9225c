-- ===== src/Policies/Retries.antt =====
-- gateway/app/scheduler.py: _retry_pending.
use mlops_lite.Base.{
  ℕ, Bool, true, Option, none, some, [], ◌∷◌, Reply, is_answered, suc, ltb, leb, min, ◌+◌, ◌*◌, ◌^◌,
  if◌then◌else◌,
}
use mlops_lite.Policies.Cooldown.{note_retrain, release_retrain}
use mlops_lite.Policies.Launching.{
  LaunchAnswers, Launched, busy, store_error, failed, launched, launch,
}
use mlops_lite.Policies.State.{
  Config, Ended, Pending, Policy, World, acted, put_pending, raised, retrain_launched,
  retry_deferred_store_error, retry_failed, retry_parked,
}

-- The delay after a number of attempts. From 1024 on `2 ** attempts` does not fit a float, and the
-- product raises an OverflowError.
unfoldable pub backoff : Config → (attempts : ℕ) → Option ℕ
backoff c attempts =
    if leb 1024 attempts then none else some (min (c.backoff_base * 2 ^ attempts) c.backoff_max)

pub record RetryAnswers : Type 0 where
  pub reads_pending : Bool
  pub saves : Reply
  pub clears : Reply
  pub saves_landed : Reply
  pub noted_at : ℕ
  pub launching : LaunchAnswers

abbrev pub note : (now : ℕ) → World → World
note now w = record w { stamp = note_retrain now w.stamp }

abbrev pub release : (token : Option ℕ) → World → World
release token w = record w { stamp = release_retrain token w.stamp }

abbrev pub delayed : (now delay : ℕ) → Pending → Pending
delayed now delay q = record q { attempts = suc q.attempts; next_attempt_at = now + delay }

-- The park of a retrain that was launched, where its row could not be cleared.
abbrev pub neutralized : Pending → Pending
neutralized q = record q { landed = true; next_attempt_at = 10 ^ 12 }

-- What follows the launch, on each of its ends.
unfoldable pub after_launch :
    Config → (now : ℕ) → RetryAnswers → Pending → Launched → World → Ended × World
after_launch c now a q busy w = elim (backoff c (suc q.attempts)) [
  | none ↦ (raised, w)
  | some delay ↦
      let parked = put_pending a.saves (some (delayed now delay q)) w in
      if is_answered a.saves
      then (acted (retry_parked (suc q.attempts) ∷ []), note a.noted_at parked)
      else (raised, parked)
]
after_launch c now a q store_error w = elim (backoff c (suc q.attempts)) [
  | none ↦ (raised, w)
  | some delay ↦ (
    acted (retry_deferred_store_error ∷ []),
    note a.noted_at (put_pending a.saves (some (delayed now delay q)) w),
  )
]
after_launch c now a q failed w =
    let cleared = put_pending a.clears none w in
    if is_answered a.clears
    then (acted (retry_failed ∷ []), release none cleared)
    else (raised, cleared)
after_launch c now a q (launched run) w =
    let cleared = put_pending a.clears none w in
    let retired =
      if is_answered a.clears
      then cleared
      else put_pending a.saves_landed (some (neutralized q)) cleared in
    (acted (retrain_launched run ∷ []), note a.noted_at retired)

-- The row's park, if there is one.
unfoldable pub retry_park :
    Config → Policy → (now : ℕ) → RetryAnswers → Option Pending → World → Ended × World
retry_park c p now a none w = (acted [], w)
retry_park c p now a (some q) w =
    let tried = launch p.pinned a.launching w in
    if q.landed
    then (acted [], put_pending a.clears none w)
    else if ltb now q.next_attempt_at
    then (acted [], w)
    else after_launch c now a q (tried.0) (tried.1)

unfoldable pub retry_pending : Config → Policy → (now : ℕ) → RetryAnswers → World → Ended × World
retry_pending c p now a w =
    if a.reads_pending then retry_park c p now a w.pending w else (raised, w)
