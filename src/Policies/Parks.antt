-- ===== src/Policies/Parks.antt =====
-- gateway/app/scheduler.py: the parked retrain, which is retried at bounded intervals and not lost.
use mlops_lite.Base.{
  ℕ, Bool, true, Option, none, some, List, [], ◌∷◌, max, leb, ◌+◌, ◌||◌, ◌≡◌, ◌≤◌, arith,
}
use mlops_lite.Policies.Launching.{launch_on, LaunchAnswers, launch, persist_watch}
use mlops_lite.Policies.State.{Config, Pending, World}
use mlops_lite.Policies.Tick.{Event, ticks, others}

-- The longest time to the next attempt.
abbrev pub longest : Config → ℕ
longest c = max c.backoff_base c.backoff_max

abbrev pub is_paced : Config → (now : ℕ) → Option Pending → Bool
is_paced c now none = true
is_paced c now (some q) = q.landed || leb q.next_attempt_at (now + longest c)

pub launch-pending :
    (pinned : Option ℕ) (a : LaunchAnswers) (w : World) → (launch pinned a w).1.pending ≡ w.pending
unfolding launch_on persist_watch
launch-pending pinned a w = ground arith

-- The time of the last tick, and that no tick is before the one that it follows.
abbrev pub last_time : (now : ℕ) → List Event → ℕ
last_time now [] = now
last_time now (ticks p t a ∷ xs) = last_time t xs
last_time now (others stamp ∷ xs) = last_time now xs

abbrev pub Rising : (now : ℕ) → List Event → Type 0
Rising now [] = Unit
Rising now (ticks p t a ∷ xs) = (now ≤ t) × Rising t xs
Rising now (others stamp ∷ xs) = Rising now xs
