-- ===== src/Policies/Dropping.antt =====
-- gateway/app/scheduler.py: what ends a parked retrain, and a park that was retried 1023 times.
use mlops_lite.Base.{ℕ, true, false, Option, none, some, [], ◌∷◌, ◌≡◌, ◌≤◌, ◌⊎◌, arith}
use mlops_lite.Policies.Launching.{Launched, busy, failed, launch}
use mlops_lite.Policies.Retries.{after_launch, backoff, retry_park, retry_pending}
use mlops_lite.Policies.State.{
  Config, Ended, Pending, Policy, World, acted, policy_error, retrain_launched, retry_failed,
}
use mlops_lite.Policies.Tick.{Answers, tick_policy}

-- The park of the same breach, still live.
abbrev pub IsKept : Pending → Option Pending → Type 0
IsKept q none = ⊥
IsKept q (some r) = (r.breach ≡ q.breach) × (r.landed ≡ false)

abbrev pub IsDropped : Launched → Ended → World → Type 0
IsDropped x e u = (x ≡ failed) × (u.pending ≡ none) × (e ≡ acted (retry_failed ∷ []) → u.stamp ≡ 0)

abbrev pub IsLaunched : Ended → Type 0
IsLaunched e = (id : Option ℕ) × (e ≡ acted (retrain_launched id ∷ []))

abbrev pub IsHandled : Pending → Launched → Ended × World → Type 0
IsHandled q x (e, u) = IsKept q u.pending ⊎ (IsLaunched e ⊎ IsDropped x e u)

-- A park that was tried 1023 times breaks the policy while the trainer is busy: the backoff overflows,
-- the tick ends with an error, and neither the park nor a check nor the watch of the policy goes on.
pub tick_policy-overflow :
    (c : Config) (p : Policy) (now : ℕ) (a : Answers) (q : Pending) (w : World)
    → p.enabled ≡ true
    → a.retrying.reads_pending ≡ true
    → w.pending ≡ some q
    → q.landed ≡ false
    → q.next_attempt_at ≤ now
    → 1023 ≤ q.attempts
    → (launch p.pinned a.retrying.launching w).0 ≡ busy
    → tick_policy c p now a w ≡ (policy_error ∷ [], (launch p.pinned a.retrying.launching w).1)
unfolding tick_policy retry_pending retry_park after_launch backoff
tick_policy-overflow c p now a q w on reads h l due many b = ground (arith, on, reads, h, l, b)
